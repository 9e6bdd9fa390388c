-- ===== src/Core/History/Again.antt =====
-- noknowledge/core/history.py: a bundle's messages that are merged twice.
use noknowledge.Base.{
  ℕ, String, false, Option, none, List, [], ◌∷◌, ◌==◌, eq_String, ◌≡◌, refl, sym, ap, ◌∙◌, subst,
  arith, first, map, All, inl, inr, Bool-cases,
}
use noknowledge.Base.Int.{eq_ℤ}
use noknowledge.Local.Schema.{Message, LocalStore}
use noknowledge.Local.Messages.{get_message}
use noknowledge.Core.History.Items.{MessageKey, eq_Key, key_of}
use noknowledge.Core.History.Merge.{
  Merging, new_counts, message_index, lookup, merge_message, merge_messages,
}
use noknowledge.Core.History.Known.{has_key, lookup-message_index}
use noknowledge.Core.History.Steps.{Follows, rows, OneKey, OneId, Good, Proper}
use noknowledge.Core.History.Outcome.{
  exported, Follows-self, Reached, merge_message_step, merge_nobody, merge_known, advance_behind,
  exported-state,
}

module _ (digest : Option String → String) (identity_id : String) (random_id : ℕ → String) where
  -- Merging a bundle's messages keeps one row for each key and each id.
  merge_messages-Good :
      ((a b : ℕ) → random_id a ≡ random_id b → a ≡ b)
      → (ms : List Message) (s : Merging) → All Proper ms
      → Good digest identity_id random_id s
      → Good digest identity_id random_id
          (merge_messages digest identity_id random_id (map exported ms) s)
  unfolding merge_messages
  merge_messages-Good distinct [] s h g = g
  merge_messages-Good distinct (m ∷ ms) s h g =
      merge_messages-Good distinct ms (merge_message digest identity_id random_id (exported m) s)
        h.1 (merge_message_step digest identity_id random_id distinct m s h.0 g).0

  -- The messages of one device have different keys.
  abbrev pub Distinct : List Message → Type 0
  Distinct [] = Unit
  Distinct (m ∷ ms) = All (λ n. (key_of digest m == key_of digest n) ≡ false) ms × Distinct ms

  merge_messages_reaches :
      ((a b : ℕ) → random_id a ≡ random_id b → a ≡ b)
      → (ms : List Message) (s : Merging) → All Proper ms
      → Distinct ms
      → Good digest identity_id random_id s
      → All
          (Reached digest identity_id random_id
            (rows (merge_messages digest identity_id random_id (map exported ms) s)))
          ms
        × ((key : MessageKey)
            → All (λ n. (key == key_of digest n) ≡ false) ms
            → first
                (has_key digest identity_id key)
                (rows (merge_messages digest identity_id random_id (map exported ms) s))
              ≡ first (has_key digest identity_id key) (rows s))
  unfolding merge_messages
  merge_messages_reaches distinct [] s h d g = (tt, λ key k. refl)
  merge_messages_reaches distinct (m ∷ ms) s h d g =
      let s' = merge_message digest identity_id random_id (exported m) s in
      let (g', r, other) = merge_message_step digest identity_id random_id distinct m s h.0 g in
      let (rs, others) = merge_messages_reaches distinct ms s' h.1 d.1 g' in
      (
        (λ c. let (row, o, k) = r c in (row, others (key_of digest m) d.0 ∙ o, k), rs),
        λ key k. others key k.1 ∙ other key k.0,
      )

  settled :
      (m : Message) (s : Merging)
      → Reached digest identity_id random_id (rows s) m
      → ((key : MessageKey) → lookup key s.known ≡ first (has_key digest identity_id key) (rows s))
      → merge_message digest identity_id random_id (exported m) s ≡ s
  settled m s r k = elim (Bool-cases (m.contact_id == "")) [
    | inl c ↦ merge_nobody digest identity_id random_id m s c
    | inr c ↦
        let (row, o, le) = r c in
        merge_known digest identity_id random_id m row s c (k (key_of digest m) ∙ o)
        ∙ advance_behind digest identity_id random_id row (exported m) s
            (ground (arith, le, exported-state m))
  ]

  -- Nothing is left to do for messages that the index finds at least as far along.
  merge_messages_settled :
      (ms : List Message) (s : Merging)
      → All (Reached digest identity_id random_id (rows s)) ms
      → ((key : MessageKey) → lookup key s.known ≡ first (has_key digest identity_id key) (rows s))
      → merge_messages digest identity_id random_id (map exported ms) s ≡ s
  unfolding merge_messages
  merge_messages_settled [] s h k = refl
  merge_messages_settled (m ∷ ms) s h k =
      ap (merge_messages digest identity_id random_id (map exported ms)) (settled m s h.0 k)
      ∙ merge_messages_settled ms s h.1 k

  -- The state that `merge_bundle` starts from.
  abbrev pub start : LocalStore → Merging
  start store = record {
    store = store;
    known = message_index digest identity_id store;
    counts = new_counts;
    drawn = 0;
  }

  start-Good :
      (store : LocalStore)
      → OneKey digest identity_id random_id store.messages
      → OneId store.messages
      → ((n : ℕ) → get_message (random_id n) store ≡ none)
      → Good digest identity_id random_id (start store)
  start-Good store k i f = (
    k,
    i,
    λ key.
        subst (Follows (first (has_key digest identity_id key) store.messages))
          (sym (lookup-message_index digest identity_id key store (k key)))
          (Follows-self (first (has_key digest identity_id key) store.messages)),
    λ n le. f n,
  )

  -- Messages of another device, each with a direction and a type and no two with one key, are
  -- merged into a store that has one message for each key and each id, under ids that are free
  -- and different. Merged a second time, they change nothing in the store, add no message and
  -- update none.
  pub merge_messages_twice :
      ((a b : ℕ) → random_id a ≡ random_id b → a ≡ b)
      → (ms : List Message) (store : LocalStore) → All Proper ms
      → Distinct ms
      → OneKey digest identity_id random_id store.messages
      → OneId store.messages
      → ((n : ℕ) → get_message (random_id n) store ≡ none)
      → merge_messages digest identity_id random_id (map exported ms) (
          start (merge_messages digest identity_id random_id (map exported ms) (start store)).store)
        ≡ start (merge_messages digest identity_id random_id (map exported ms) (start store)).store
  merge_messages_twice distinct ms store h d k i f =
      let good = start-Good store k i f in
      let after = merge_messages digest identity_id random_id (map exported ms) (start store) in
      merge_messages_settled ms (start after.store)
        (merge_messages_reaches distinct ms (start store) h d good).0
        (λ key.
          lookup-message_index digest identity_id key after.store
            ((merge_messages-Good distinct ms (start store) h good).0 key))
