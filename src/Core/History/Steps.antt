-- ===== src/Core/History/Steps.antt =====
-- noknowledge/core/history.py: what the merge of one message item does, where the index follows
-- the table.
use noknowledge.Base.{
  ℕ, ◌≤◌, String, Bool, true, false, Option, none, some, List, [], ◌∷◌, ◌++◌, ◌==◌, eq_String, ◌≡◌,
  refl, ap, arith, first, count, update, first-append, first-update, first-eq-true, if◌then◌else◌,
  inl, inr, Bool-cases, Option-cases, eq_law, eq_self,
}
use noknowledge.Base.Int.{eq_ℤ}
use noknowledge.Local.Schema.{Message, LocalStore}
use noknowledge.Local.Messages.{is_message, get_message}
use noknowledge.Core.History.Items.{
  MessageKey, eq_Key, state_rank, or_text, or_zero, message_item, message_key, local_key_of, key_of,
}
use noknowledge.Core.History.Merge.{Index, Merging, lookup, new_message}
use noknowledge.Core.History.Known.{has_key}

some_count :
    (p : Message → Bool) (rows : List Message) (a : Message)
    → first p rows ≡ some a
    → 1 ≤ count (is_message a.id) rows
unfolding first count
some_count p [] a h = ground arith
some_count p (x ∷ xs) a h = ground (arith, some_count p xs a, eq_self a.id)

-- Two rows with one id are the same row.
pub same_row :
    (p q : Message → Bool) (rows : List Message) (a b : Message)
    → first p rows ≡ some a
    → first q rows ≡ some b
    → a.id ≡ b.id
    → count (is_message a.id) rows ≤ 1
    → a ≡ b
unfolding first count
same_row p q [] a b h k e u = ground arith
same_row p q (x ∷ xs) a b h k e u = ground (
  arith,
  same_row p q xs a b,
  eq_self a.id,
  eq_self b.id,
  some_count p xs a,
  some_count q xs b,
  ap (λ i. count (is_message i) xs) e,
)

abbrev pub Follows : Option Message → Option Message → Type 0
Follows none none = Unit
Follows (some m) (some e) = (e.id ≡ m.id) × (state_rank e.state ≤ state_rank m.state)
Follows _ _ = ⊥

abbrev pub rows : Merging → List Message
rows s = s.store.messages

abbrev pub put_state : Option String → Message → Message
put_state state m = record m { state = state }

-- A message with a direction and a type
abbrev pub Proper : Message → Type 0
Proper m = ((m.direction == "") ≡ false) × ((m.kind == "") ≡ false)

abbrev pub OneId : List Message → Type 0
OneId rows = (id : String) → count (is_message id) rows ≤ 1

-- The table and the index of a merge: no two rows with one key or one id, the index finds each
-- row, at most behind its state, and the ids that are still to be drawn are free.
module _ (digest : Option String → String) (identity_id : String) (random_id : ℕ → String) where
  abbrev pub OneKey : List Message → Type 0
  OneKey rows = (key : MessageKey) → count (has_key digest identity_id key) rows ≤ 1

  abbrev pub Indexed : List Message → Index → Type 0
  Indexed rows known =
      (key : MessageKey) → Follows (first (has_key digest identity_id key) rows) (lookup key known)

  abbrev pub Free : ℕ → LocalStore → Type 0
  Free drawn store = (n : ℕ) → drawn ≤ n → get_message (random_id n) store ≡ none

  abbrev pub Good : Merging → Type 0
  Good s = OneKey (rows s) × OneId (rows s) × Indexed (rows s) s.known × Free s.drawn s.store

  pub key_of-new_message :
      (id c : String) (m : Message)
      → Proper m
      → key_of digest (new_message digest identity_id random_id id c (message_item c m))
        ≡ message_key digest (message_item c m)
  unfolding new_message message_item message_key local_key_of or_text or_zero
  key_of-new_message id c m h = elim (Option-cases m.remote_id) [
    | inl e ↦ ground (arith, h.0, h.1)
    | inr (r, e) ↦ ground (arith, h.0, h.1)
  ]

  -- The row that a merge adds is what its key finds; another key finds what it found.
  pub first-added :
      (key : MessageKey) (new : Message) (rows : List Message)
      → new.identity_id ≡ identity_id
      → first (has_key digest identity_id (key_of digest new)) rows ≡ none
      → first (has_key digest identity_id key) (rows ++ new ∷ []) ≡ (
          if key == key_of digest new
          then some new
          else first (has_key digest identity_id key) rows)
  unfolding first
  first-added key new rows e h = elim (Bool-cases (key == key_of digest new)) [
    | inl k ↦ ground (
      arith,
      first-append (has_key digest identity_id key) rows (new ∷ []),
      eq_law new.identity_id identity_id,
      ap (λ q. first (has_key digest identity_id q) rows) ((eq_law key (key_of digest new)).0 k),
    )
    | inr k ↦ elim (Option-cases (first (has_key digest identity_id key) rows)) [
      | inl o ↦ ground (arith, first-append (has_key digest identity_id key) rows (new ∷ []))
      | inr (a, o) ↦ ground (arith, first-append (has_key digest identity_id key) rows (new ∷ []))
    ]
  ]

  pub has_key-eq :
      (key : MessageKey) (a : Message)
      → has_key digest identity_id key a ≡ true
      → (key == key_of digest a) ≡ true
  has_key-eq key a h = ground arith

  -- Rows with different keys have different ids.
  other_id :
      (key : MessageKey) (m a : Message) (rows : List Message)
      → OneId rows
      → first (has_key digest identity_id (key_of digest m)) rows ≡ some m
      → first (has_key digest identity_id key) rows ≡ some a
      → (key == key_of digest m) ≡ false
      → (a.id == m.id) ≡ false
  other_id key m a rows u h o k = elim (Bool-cases (a.id == m.id)) [
    | inr e ↦ e
    | inl e ↦ ground (
      arith,
      ap (λ b. key == key_of digest b)
          (same_row (has_key digest identity_id key) (has_key digest identity_id (key_of digest m))
            rows a m o h ((eq_law a.id m.id).0 e) (u a.id)),
      has_key-eq key a (first-eq-true (has_key digest identity_id key) rows a o),
    )
  ]

  -- A state that moves is what its key finds; another key finds what it found.
  pub first-moved :
      (key : MessageKey) (state : Option String) (m : Message) (rows : List Message)
      → OneId rows
      → first (has_key digest identity_id (key_of digest m)) rows ≡ some m
      → first (has_key digest identity_id key) (update (is_message m.id) (put_state state) rows) ≡ (
          if key == key_of digest m
          then some (put_state state m)
          else first (has_key digest identity_id key) rows)
  unfolding message_key message_item local_key_of
  first-moved key state m rows u h =
      let p = has_key digest identity_id key in
      elim (Bool-cases (key == key_of digest m)) [
        | inl k ↦ ground (
          arith,
          first-update p (is_message m.id) (put_state state) rows (λ a. refl),
          eq_self m.id,
          ap (λ q. first (has_key digest identity_id q) rows) ((eq_law key (key_of digest m)).0 k),
        )
        | inr k ↦ elim (Option-cases (first p rows)) [
          | inl o ↦
              ground (arith, first-update p (is_message m.id) (put_state state) rows (λ a. refl))
          | inr (a, o) ↦ ground (
            arith,
            first-update p (is_message m.id) (put_state state) rows (λ a. refl),
            other_id key m a rows u h o k,
          )
        ]
      ]
