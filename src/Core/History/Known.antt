-- ===== src/Core/History/Known.antt =====
-- noknowledge/core/history.py: the index of the messages against the table it is made from.
use noknowledge.Base.{
  String, Bool, true, false, ◌&&◌, Option, none, some, List, [], ◌∷◌, ◌==◌, eq_String, ◌≡◌, refl,
  ◌≤◌, arith, select, first, count, none_of_count, if◌then◌else◌, inl, inr, Bool-cases,
}
use noknowledge.Base.Int.{eq_ℤ}
use noknowledge.Local.Schema.{Message, LocalStore}
use noknowledge.Local.Messages.{insert_with, order_with, list_all_messages, int_leb, text_leb}
use noknowledge.Core.History.Items.{MessageKey, eq_Key, key_of}
use noknowledge.Core.History.Merge.{Index, lookup, index_of, message_index}

-- Sorting keeps how many rows have a property, and which one if it is one.
module _ {A : Type 0} (before : A → A → Bool) (p : A → Bool) where
  count-insert_with : (x : A) (xs : List A) → count p (insert_with before x xs) ≡ count p (x ∷ xs)
  unfolding insert_with count
  count-insert_with x [] = refl
  count-insert_with x (y ∷ ys) = ground (arith, count-insert_with x ys)

  count-order_with : (xs : List A) → count p (order_with before xs) ≡ count p xs
  unfolding order_with count
  count-order_with [] = refl
  count-order_with (x ∷ xs) =
      ground (arith, count-insert_with x (order_with before xs), count-order_with xs)

  first-insert_with_other :
      (x : A) (xs : List A) → p x ≡ false → first p (insert_with before x xs) ≡ first p xs
  unfolding insert_with first
  first-insert_with_other x [] h = ground arith
  first-insert_with_other x (y ∷ ys) h = ground (arith, first-insert_with_other x ys h)

  first-insert_with_same :
      (x : A) (xs : List A)
      → p x ≡ true
      → count p xs ≡ 0
      → first p (insert_with before x xs) ≡ some x
  unfolding insert_with first count
  first-insert_with_same x [] h k = ground arith
  first-insert_with_same x (y ∷ ys) h k = ground (arith, first-insert_with_same x ys h)

  first-order_with : (xs : List A) → count p xs ≤ 1 → first p (order_with before xs) ≡ first p xs
  unfolding order_with first count
  first-order_with [] h = refl
  first-order_with (x ∷ xs) h = elim (Bool-cases (p x)) [
    | inl e ↦ ground (arith, first-insert_with_same x (order_with before xs) e, count-order_with xs)
    | inr e ↦
        ground (arith, first-insert_with_other x (order_with before xs) e, first-order_with xs)
  ]

module _ {A : Type 0} (p q : A → Bool) where
  first-select : (xs : List A) → first p (select q xs) ≡ first (λ x. q x && p x) xs
  unfolding first select
  first-select [] = refl
  first-select (x ∷ xs) = ground (arith, first-select xs)

  count-select : (xs : List A) → count p (select q xs) ≡ count (λ x. q x && p x) xs
  unfolding count select
  count-select [] = refl
  count-select (x ∷ xs) = ground (arith, count-select xs)

module _ (digest : Option String → String) (identity_id : String) where
  abbrev pub keyed : MessageKey → Message → Bool
  keyed key m = key == key_of digest m

  abbrev pub has_key : MessageKey → Message → Bool
  has_key key m = m.identity_id == identity_id && keyed key m

  lookup-index_of :
      (key : MessageKey) (ms : List Message) (known : Index)
      → count (keyed key) ms ≤ 1
      → lookup key (index_of digest ms known)
        ≡ elim (first (keyed key) ms) [ none ↦ lookup key known | some m ↦ some m ]
  unfolding lookup index_of first count
  lookup-index_of key [] known h = refl
  lookup-index_of key (m ∷ ms) known h =
      ground
        (arith, lookup-index_of key ms ((key_of digest m, m) ∷ known), none_of_count (keyed key) ms)

  pub lookup-message_index :
      (key : MessageKey) (store : LocalStore)
      → count (has_key key) store.messages ≤ 1
      → lookup key (message_index digest identity_id store) ≡ first (has_key key) store.messages
  unfolding message_index list_all_messages lookup
  lookup-message_index key store h =
      let rows = select (λ m. m.identity_id == identity_id) store.messages in
      let before : Message → Message → Bool =
        λ a b. int_leb a.ts b.ts && (if a.ts == b.ts then text_leb a.id b.id else true) in
      ground (
        arith,
        lookup-index_of key (order_with before rows) [],
        count-order_with before (keyed key) rows,
        first-order_with before (keyed key) rows,
        count-select (keyed key) (λ m. m.identity_id == identity_id) store.messages,
        first-select (keyed key) (λ m. m.identity_id == identity_id) store.messages,
      )
