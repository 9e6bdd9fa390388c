-- ===== src/Core/History/Keeps.antt =====
-- noknowledge/core/history.py: the merge of one item keeps the table, the index and the ids to
-- draw as they have to be.
use noknowledge.Base.{
  ℕ, suc, ◌≤◌, String, Bool, true, false, Option, none, some, [], ◌∷◌, ◌++◌, ◌==◌, eq_String, ◌≡◌,
  refl, sym, ap, ◌∙◌, subst, arith, first, count, count_of_first-none, count-append, count-update,
  first-append, if◌then◌else◌, inl, inr, Bool-cases, eq_law, ltb, ltb→lt, first-update,
}
use noknowledge.Base.Int.{eq_ℤ}
use noknowledge.Local.Schema.{Message}
use noknowledge.Local.Messages.{is_message, get_message}
use noknowledge.Core.History.Items.{
  MessageItem, MessageKey, eq_Key, state_rank, message_item, message_key, local_key_of, key_of,
}
use noknowledge.Core.History.Merge.{Merging, lookup, advance, insert}
use noknowledge.Core.History.Known.{has_key}
use noknowledge.Core.History.Steps.{
  Follows, rows, OneKey, OneId, Free, Good, Proper, key_of-new_message, put_state, has_key-eq,
}
use noknowledge.Core.History.Moves.{
  added, insert_lem, first-insert, absent, stored, advance_lem, first-advance, added-id,
}

-- A row that is new follows itself.
if-Follows :
    (new : Message) (b : Bool) (o k : Option Message)
    → Follows o k
    → Follows (if b then some new else o) (if b then some new else k)
if-Follows new true o k h = (refl, omega arith)
if-Follows new false o k h = h

moved-Follows :
    (new : Message) (b : Bool) (o k : Option Message)
    → (b ≡ true → Follows (some new) k)
    → Follows o k
    → Follows (if b then some new else o) k
moved-Follows new true o k f h = f refl
moved-Follows new false o k f h = h

module _ (digest : Option String → String) (identity_id : String) (random_id : ℕ → String) where
  -- The rows after an insert.
  rows-insert :
      (c : String) (m : Message) (s : Merging)
      → Good digest identity_id random_id s
      → rows (insert digest identity_id random_id c (message_item c m) s)
        ≡ rows s ++ added digest identity_id random_id c m s ∷ []
  rows-insert c m s g =
      ap rows (insert_lem digest identity_id random_id c m s (g.3 s.drawn (omega arith)))

  insert-OneKey :
      (c : String) (m : Message) (s : Merging)
      → Proper m
      → Good digest identity_id random_id s
      → lookup (message_key digest (message_item c m)) s.known ≡ none
      → OneKey digest identity_id random_id
          (rows (insert digest identity_id random_id c (message_item c m) s))
  unfolding count
  insert-OneKey c m s h g e key =
      let p = has_key digest identity_id key in
      let new = added digest identity_id random_id c m s in
      subst (λ ms. count p ms ≤ 1) (sym (rows-insert c m s g))
        (elim (Bool-cases (p new)) [
          | inl k ↦ ground (
            arith,
            count-append p (rows s) (new ∷ []),
            count_of_first-none p (rows s) (
                ap (λ q. first (has_key digest identity_id q) (rows s))
                  ((eq_law key (key_of digest new)).0
                      (has_key-eq digest identity_id random_id key new k)
                    ∙ key_of-new_message digest identity_id random_id (random_id s.drawn) c m h)
                ∙ absent digest identity_id random_id (message_key digest (message_item c m)) s g
                    e),
          )
          | inr k ↦ ground (arith, count-append p (rows s) (new ∷ []), g.0 key)
        ])

  insert-OneId :
      (c : String) (m : Message) (s : Merging)
      → Good digest identity_id random_id s
      → OneId (rows (insert digest identity_id random_id c (message_item c m) s))
  unfolding count get_message
  insert-OneId c m s g id =
      let new = added digest identity_id random_id c m s in
      subst (λ ms. count (is_message id) ms ≤ 1) (sym (rows-insert c m s g))
        (elim (Bool-cases (new.id == id)) [
          | inl k ↦ ground (
            arith,
            count-append (is_message id) (rows s) (new ∷ []),
            count_of_first-none (is_message id) (rows s) (
                ap (λ q. first (is_message q) (rows s))
                  (sym ((eq_law new.id id).0 k) ∙ added-id digest identity_id random_id c m s)
                ∙ g.3 s.drawn (omega arith)),
          )
          | inr k ↦ ground (arith, count-append (is_message id) (rows s) (new ∷ []), g.1 id)
        ])

  -- The drawn id is no longer free, the later ones are.
  insert-Free :
      ((a b : ℕ) → random_id a ≡ random_id b → a ≡ b)
      → (c : String) (m : Message) (s : Merging) → Good digest identity_id random_id s
      → Free digest identity_id random_id
          (suc s.drawn)
          (insert digest identity_id random_id c (message_item c m) s).store
  unfolding get_message first
  insert-Free distinct c m s g n h =
      let new = added digest identity_id random_id c m s in
      ap (first (is_message (random_id n))) (rows-insert c m s g)
      ∙ elim (Bool-cases (random_id s.drawn == random_id n)) [
        | inl k ↦
            absurd
              (omega (arith, distinct s.drawn n ((eq_law (random_id s.drawn) (random_id n)).0 k)))
        | inr k ↦ ground (
          arith,
          first-append (is_message (random_id n)) (rows s) (new ∷ []),
          g.3 n (omega arith),
          added-id digest identity_id random_id c m s,
        )
      ]

  insert-Indexed :
      (c : String) (m : Message) (s : Merging)
      → Proper m
      → Good digest identity_id random_id s
      → lookup (message_key digest (message_item c m)) s.known ≡ none
      → (key : MessageKey)
      → Follows
          (first
            (has_key digest identity_id key)
            (rows (insert digest identity_id random_id c (message_item c m) s)))
          (lookup key (insert digest identity_id random_id c (message_item c m) s).known)
  unfolding lookup
  insert-Indexed c m s h g e key =
      let key' = message_key digest (message_item c m) in
      let new = added digest identity_id random_id c m s in
      subst
        (λ o.
          Follows o (lookup key (insert digest identity_id random_id c (message_item c m) s).known))
        (sym (first-insert digest identity_id random_id key c m s h g e))
        (subst
          (λ t.
            Follows
              (if key == key' then some new else first (has_key digest identity_id key) (rows s))
              (lookup key t.known))
          (sym (insert_lem digest identity_id random_id c m s (g.3 s.drawn (omega arith))))
          (if-Follows new (key == key') (first (has_key digest identity_id key) (rows s))
            (lookup key s.known) (g.2 key)))

  known-advance :
      (e : Message) (item : MessageItem) (s : Merging)
      → (advance digest identity_id random_id e item s).known ≡ s.known
  unfolding advance
  known-advance e item s = ground arith

  drawn_le :
      (e : Message) (item : MessageItem) (s : Merging) (n : ℕ)
      → (advance digest identity_id random_id e item s).drawn ≤ n
      → s.drawn ≤ n
  unfolding advance
  drawn_le e item s n h = ground arith

  pub advance-Good :
      (key : MessageKey) (e : Message) (item : MessageItem) (s : Merging)
      → Good digest identity_id random_id s
      → lookup key s.known ≡ some e
      → ltb (state_rank e.state) (state_rank item.state) ≡ true
      → Good digest identity_id random_id (advance digest identity_id random_id e item s)
  unfolding message_key message_item local_key_of get_message
  advance-Good key e item s g l h =
      let moved = advance_lem digest identity_id random_id e item s h in
      let (m, o, i, _, k) = stored digest identity_id random_id key e s g l in
      (
        λ q.
            subst (λ ms. count (has_key digest identity_id q) ms ≤ 1) (sym moved)
              (omega (
                arith,
                g.0 q,
                count-update (has_key digest identity_id q) (is_message e.id) (put_state item.state)
                    (rows s) (λ a. refl),
              )),
        λ q.
            subst (λ ms. count (is_message q) ms ≤ 1) (sym moved)
              (omega (
                arith,
                g.1 q,
                count-update (is_message q) (is_message e.id) (put_state item.state) (rows s)
                    (λ a. refl),
              )),
        λ q.
            subst
              (λ known.
                Follows
                  (first (has_key digest identity_id q)
                    (rows (advance digest identity_id random_id e item s)))
                  (lookup q known))
              (sym (known-advance e item s))
              (subst (λ o. Follows o (lookup q s.known))
                (sym (first-advance digest identity_id random_id q key e m item s g o k i h))
                (moved-Follows (record m { state = item.state }) (q == key)
                  (first (has_key digest identity_id q) (rows s)) (lookup q s.known)
                  (λ b.
                    subst (Follows (some (record m { state = item.state })))
                      (sym (ap (λ x. lookup x s.known) ((eq_law q key).0 b) ∙ l))
                      (i, omega (arith, ltb→lt (state_rank e.state) (state_rank item.state) h)))
                  (g.2 q))),
        λ n le.
            ap (first (is_message (random_id n))) moved
            ∙ ground (
              arith,
              first-update (is_message (random_id n)) (is_message e.id) (put_state item.state)
                  (rows s) (λ a. refl),
              g.3 n (drawn_le e item s n le),
            ),
      )

  pub insert-Good :
      ((a b : ℕ) → random_id a ≡ random_id b → a ≡ b)
      → (c : String) (m : Message) (s : Merging) → Proper m
      → Good digest identity_id random_id s
      → lookup (message_key digest (message_item c m)) s.known ≡ none
      → Good digest identity_id random_id
          (insert digest identity_id random_id c (message_item c m) s)
  insert-Good distinct c m s h g e = (
    insert-OneKey c m s h g e,
    insert-OneId c m s g,
    insert-Indexed c m s h g e,
    λ n le. insert-Free distinct c m s g n (
        subst (λ t. t.drawn ≤ n)
          (insert_lem digest identity_id random_id c m s (g.3 s.drawn (omega arith))) le),
  )
