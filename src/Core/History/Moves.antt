-- ===== src/Core/History/Moves.antt =====
-- noknowledge/core/history.py: the merge of one item of another device's bundle keeps the index and
-- the table in step, and its message is in the table afterwards.
use noknowledge.Base.{
  ℕ, suc, ◌≤◌, String, true, Option, none, some, [], ◌∷◌, ◌++◌, ◌==◌, eq_String, ◌≡◌, refl, sym, ap,
  ◌∙◌, subst, arith, first, update, first-append, if◌then◌else◌, inl, inr, Option-cases, eq_law,
  eq_self, ltb, first-eq-true,
}
use noknowledge.Base.Int.{eq_ℤ}
use noknowledge.Local.Schema.{Message}
use noknowledge.Local.Messages.{is_message, add_message, get_message, update_message}
use noknowledge.Core.History.Items.{
  MessageItem, MessageKey, eq_Key, state_rank, message_item, message_key, key_of,
}
use noknowledge.Core.History.Merge.{Merging, lookup, advance, new_id, new_message, insert}
use noknowledge.Core.History.Known.{has_key}
use noknowledge.Core.History.Steps.{
  Follows, rows, Good, Proper, key_of-new_message, first-added, first-moved, put_state, has_key-eq,
}

none_of_Follows : (o : Option Message) → Follows o none → o ≡ none
none_of_Follows none h = refl
none_of_Follows (some m) h = absurd h

module _ (digest : Option String → String) (identity_id : String) (random_id : ℕ → String) where
  abbrev pub added : String → Message → Merging → Message
  added c m s = new_message digest identity_id random_id (random_id s.drawn) c (message_item c m)

  -- An item without an id, under a free one, is a row at the end.
  pub insert_lem :
      (c : String) (m : Message) (s : Merging)
      → get_message (random_id s.drawn) s.store ≡ none
      → insert digest identity_id random_id c (message_item c m) s ≡ record s {
        store = record s.store { messages = s.store.messages ++ added c m s ∷ [] };
        known = (message_key digest (message_item c m), added c m s) ∷ s.known;
        counts = record s.counts { messages = suc s.counts.messages };
        drawn = suc s.drawn;
      }
  unfolding insert new_id message_item add_message get_message new_message first
  insert_lem c m s h = ground (
    arith,
    first-append (is_message (random_id s.drawn)) s.store.messages (added c m s ∷ []),
    eq_self (random_id s.drawn),
  )

  pub added-identity :
      (c : String) (m : Message) (s : Merging) → (added c m s).identity_id ≡ identity_id
  unfolding new_message
  added-identity c m s = refl

  pub added-id : (c : String) (m : Message) (s : Merging) → (added c m s).id ≡ random_id s.drawn
  unfolding new_message
  added-id c m s = refl

  -- What the index does not find is not in the table.
  pub absent :
      (key : MessageKey) (s : Merging)
      → Good digest identity_id random_id s
      → lookup key s.known ≡ none
      → first (has_key digest identity_id key) (rows s) ≡ none
  absent key s g e =
      none_of_Follows (first (has_key digest identity_id key) (rows s))
        (subst (λ o. Follows (first (has_key digest identity_id key) (rows s)) o) e (g.2 key))

  pub first-insert :
      (key : MessageKey) (c : String) (m : Message) (s : Merging)
      → Proper m
      → Good digest identity_id random_id s
      → lookup (message_key digest (message_item c m)) s.known ≡ none
      → first
          (has_key digest identity_id key)
          (rows (insert digest identity_id random_id c (message_item c m) s))
        ≡ (if key == message_key digest (message_item c m)
            then some (added c m s)
            else first (has_key digest identity_id key) (rows s))
  first-insert key c m s h g e =
      let key' = message_key digest (message_item c m) in
      let same = key_of-new_message digest identity_id random_id (random_id s.drawn) c m h in
      ap (λ t. first (has_key digest identity_id key) (rows t))
        (insert_lem c m s (g.3 s.drawn (omega arith)))
      ∙ (first-added digest identity_id random_id key (added c m s) (rows s) (added-identity c m s)
            (ap (λ k. first (has_key digest identity_id k) (rows s)) same ∙ absent key' s g e)
          ∙ ap
              (λ k.
                if key == k
                then some (added c m s)
                else first (has_key digest identity_id key) (rows s))
              same)

  -- What the index finds is in the table under its key and its id, at most behind its state.
  pub stored :
      (key : MessageKey) (e : Message) (s : Merging)
      → Good digest identity_id random_id s
      → lookup key s.known ≡ some e
      → (m : Message) × (first (has_key digest identity_id key) (rows s) ≡ some m)
        × (e.id ≡ m.id)
        × (state_rank e.state ≤ state_rank m.state)
        × (key ≡ key_of digest m)
  stored key e s g h =
      let follows =
        subst (λ o. Follows (first (has_key digest identity_id key) (rows s)) o) h (g.2 key) in
      elim (Option-cases (first (has_key digest identity_id key) (rows s))) [
        | inl o ↦ absurd (subst (λ f. Follows f (some e)) o follows)
        | inr (m, o) ↦
            let f = subst (λ f. Follows f (some e)) o follows in
            (
              m,
              o,
              f.0,
              f.1,
              (eq_law key (key_of digest m)).0 (
                  has_key-eq digest identity_id random_id key m
                    (first-eq-true (has_key digest identity_id key) (rows s) m o)),
            )
      ]

  pub advance_lem :
      (e : Message) (item : MessageItem) (s : Merging)
      → ltb (state_rank e.state) (state_rank item.state) ≡ true
      → rows (advance digest identity_id random_id e item s)
        ≡ update (is_message e.id) (put_state item.state) (rows s)
  unfolding advance update_message
  advance_lem e item s h = ground arith

  pub first-advance :
      (key key' : MessageKey) (e m : Message) (item : MessageItem) (s : Merging)
      → Good digest identity_id random_id s
      → first (has_key digest identity_id key') (rows s) ≡ some m
      → key' ≡ key_of digest m
      → e.id ≡ m.id
      → ltb (state_rank e.state) (state_rank item.state) ≡ true
      → first
          (has_key digest identity_id key)
          (rows (advance digest identity_id random_id e item s))
        ≡ (if key == key'
            then some (record m { state = item.state })
            else first (has_key digest identity_id key) (rows s))
  first-advance key key' e m item s g o k i h =
      ap (first (has_key digest identity_id key)) (advance_lem e item s h)
      ∙ (ap
            (λ id.
              first (has_key digest identity_id key)
                (update (is_message id) (put_state item.state) (rows s)))
            i
          ∙ (first-moved digest identity_id random_id key item.state m (rows s) g.1
                (ap (λ q. first (has_key digest identity_id q) (rows s)) (sym k) ∙ o)
              ∙ ap
                  (λ q.
                    if key == q
                    then some (record m { state = item.state })
                    else first (has_key digest identity_id key) (rows s))
                  (sym k)))
