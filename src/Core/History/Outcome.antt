-- ===== src/Core/History/Outcome.antt =====
-- noknowledge/core/history.py: what the merge of one exported message leaves in the table.
use noknowledge.Base.{
  ℕ, ◌≤◌, String, true, false, Option, none, some, List, ◌==◌, eq_String, ◌≡◌, refl, sym, ap, ◌∙◌,
  subst, arith, first, inl, inr, Bool-cases, Option-cases, eq_self, ltb,
}
use noknowledge.Base.Int.{eq_ℤ}
use noknowledge.Local.Schema.{Message}
use noknowledge.Core.History.Items.{
  MessageItem, MessageKey, eq_Key, state_rank, message_item, key_of,
}
use noknowledge.Core.History.Merge.{Merging, lookup, advance, insert, new_message, merge_message}
use noknowledge.Core.History.Known.{has_key}
use noknowledge.Core.History.Steps.{Follows, rows, Good, Proper}
use noknowledge.Core.History.Moves.{added, first-insert, stored, first-advance}
use noknowledge.Core.History.Keeps.{insert-Good, advance-Good}

-- The item of a message in a bundle of another device.
abbrev pub exported : Message → MessageItem
exported m = message_item m.contact_id m

pub exported-state : (m : Message) → (exported m).state ≡ m.state
unfolding message_item
exported-state m = refl

pub Follows-self : (o : Option Message) → Follows o o
Follows-self none = tt
Follows-self (some m) = (refl, omega arith)

module _ (digest : Option String → String) (identity_id : String) (random_id : ℕ → String) where
  -- A message with a contact is in the table under its key, at least as far along.
  abbrev pub Reached : List Message → Message → Type 0
  Reached ms m =
      (m.contact_id == "") ≡ false
      → (row : Message) × (first (has_key digest identity_id (key_of digest m)) ms ≡ some row)
        × (state_rank m.state ≤ state_rank row.state)

  abbrev pub Step : Message → Merging → Merging → Type 0
  Step m s s' =
      Good digest identity_id random_id s'
      × Reached (rows s') m
      × ((key : MessageKey)
          → (key == key_of digest m) ≡ false
          → first (has_key digest identity_id key) (rows s')
            ≡ first (has_key digest identity_id key) (rows s))

  merge_unknown :
      (m : Message) (s : Merging)
      → (m.contact_id == "") ≡ false
      → lookup (key_of digest m) s.known ≡ none
      → merge_message digest identity_id random_id (exported m) s
        ≡ insert digest identity_id random_id m.contact_id (exported m) s
  unfolding merge_message message_item
  merge_unknown m s h e = ground arith

  pub merge_known :
      (m e : Message) (s : Merging)
      → (m.contact_id == "") ≡ false
      → lookup (key_of digest m) s.known ≡ some e
      → merge_message digest identity_id random_id (exported m) s
        ≡ advance digest identity_id random_id e (exported m) s
  unfolding merge_message message_item
  merge_known m e s h l = ground arith

  pub merge_nobody :
      (m : Message) (s : Merging)
      → (m.contact_id == "") ≡ true
      → merge_message digest identity_id random_id (exported m) s ≡ s
  unfolding merge_message message_item
  merge_nobody m s h = ground arith

  pub advance_behind :
      (e : Message) (item : MessageItem) (s : Merging)
      → ltb (state_rank e.state) (state_rank item.state) ≡ false
      → advance digest identity_id random_id e item s ≡ s
  unfolding advance
  advance_behind e item s h = ground arith

  added-state :
      (m : Message) (s : Merging)
      → (added digest identity_id random_id m.contact_id m s).state ≡ m.state
  unfolding new_message message_item
  added-state m s = refl

  insert_step :
      ((a b : ℕ) → random_id a ≡ random_id b → a ≡ b)
      → (m : Message) (s : Merging) → Proper m
      → Good digest identity_id random_id s
      → lookup (key_of digest m) s.known ≡ none
      → Step m s (insert digest identity_id random_id m.contact_id (exported m) s)
  insert_step distinct m s h g e =
      let c = m.contact_id in
      let key' = key_of digest m in
      let new = added digest identity_id random_id c m s in
      (
        insert-Good digest identity_id random_id distinct c m s h g e,
        λ _. (
          new,
          ground (arith, first-insert digest identity_id random_id key' c m s h g e, eq_self key'),
          omega (arith, ap state_rank (added-state m s)),
        ),
        λ key k. ground (arith, first-insert digest identity_id random_id key c m s h g e),
      )

  advance_step :
      (m e : Message) (s : Merging)
      → Good digest identity_id random_id s
      → lookup (key_of digest m) s.known ≡ some e
      → ltb (state_rank e.state) (state_rank (exported m).state) ≡ true
      → Step m s (advance digest identity_id random_id e (exported m) s)
  advance_step m e s g l h =
      let key' = key_of digest m in
      let (row, o, i, _, k) = stored digest identity_id random_id key' e s g l in
      (
        advance-Good digest identity_id random_id key' e (exported m) s g l h,
        λ _. (
          record row { state = (exported m).state },
          ground (
            arith,
            first-advance digest identity_id random_id key' key' e row (exported m) s g o k i h,
            eq_self key',
          ),
          omega (arith, ap state_rank (exported-state m)),
        ),
        λ key b. ground (
          arith,
          first-advance digest identity_id random_id key key' e row (exported m) s g o k i h,
        ),
      )

  behind_step :
      (m e : Message) (s : Merging)
      → Good digest identity_id random_id s
      → lookup (key_of digest m) s.known ≡ some e
      → ltb (state_rank e.state) (state_rank (exported m).state) ≡ false
      → Step m s s
  unfolding message_item
  behind_step m e s g l h =
      let (row, o, i, r, k) = stored digest identity_id random_id (key_of digest m) e s g l in
      (g, λ _. (row, o, ground (arith, r, h)), λ key b. refl)

  pub merge_message_step :
      ((a b : ℕ) → random_id a ≡ random_id b → a ≡ b)
      → (m : Message) (s : Merging) → Proper m
      → Good digest identity_id random_id s
      → Step m s (merge_message digest identity_id random_id (exported m) s)
  merge_message_step distinct m s h g = elim (Bool-cases (m.contact_id == "")) [
    | inl c ↦ subst (Step m s) (sym (merge_nobody m s c)) (g, λ k. absurd cc, λ key b. refl)
    | inr c ↦ elim (Option-cases (lookup (key_of digest m) s.known)) [
      | inl l ↦ subst (Step m s) (sym (merge_unknown m s c l)) (insert_step distinct m s h g l)
      | inr (e, l) ↦ elim (Bool-cases (ltb (state_rank e.state) (state_rank (exported m).state))) [
        | inl b ↦ subst (Step m s) (sym (merge_known m e s c l)) (advance_step m e s g l b)
        | inr b ↦
            subst (Step m s) (sym (merge_known m e s c l ∙ advance_behind e (exported m) s b))
              (behind_step m e s g l b)
      ]
    ]
  ]
