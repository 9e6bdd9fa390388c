-- ===== src/Relay/OneTime.antt =====
-- One-time prekeys (`publish_bundle`, `fetch_bundle` of noknowledge/server/db.py) are handed out
-- once: the rows of the table, key by key.
pub mod Once
use noknowledge.Base.{
  ℕ, suc, ◌+◌, ◌≤◌, ◌<◌, String, ◌≡◌, refl, ◌⊎◌, inl, inr, Bool, true, false, not, ◌&&◌, Option,
  none, some, List, [], ◌∷◌, ◌++◌, arith, ◌==◌, eq_String, eq_ℕ, eq_law, if◌then◌else◌, leb, select,
  update, first, count, insert_by, order_by, count-append, Option-cases, Bool-cases,
}
use noknowledge.Base.Int.{ℤ, eq_ℤ}
use noknowledge.Base.Outcome.{ok, err}
use noknowledge.Relay.Schema.{OneTimePrekey, Database, connect}
use noknowledge.Relay.Prekeys.{
  has_key, is_unused, add_one_time, add_all, put_payload, publish_bundle, head?, next_one_time,
  mark_used,
}

abbrev Has : {A : Type 0} → A → List A → Type 0
Has a [] = ⊥
Has a (x ∷ xs) = (x ≡ a) ⊎ Has a xs

module _ {A : Type 0} where
  Has-head? : (xs : List A) (a : A) → head? xs ≡ some a → Has a xs
  Has-head? [] a h = absurd (ground arith)
  Has-head? (x ∷ xs) a h = inl (ground arith)

  Has-insert_by :
      (key : A → ℕ) (x : A) (ys : List A) (a : A) → Has a (insert_by key x ys) → (x ≡ a) ⊎ Has a ys
  unfolding insert_by
  Has-insert_by key x [] a h = h
  Has-insert_by key x (y ∷ ys) a h = ground (arith, Has-insert_by key x ys a)

  Has-order_by : (key : A → ℕ) (xs : List A) (a : A) → Has a (order_by key xs) → Has a xs
  unfolding order_by
  Has-order_by key [] a h = h
  Has-order_by key (x ∷ xs) a h = elim (Has-insert_by key x (order_by key xs) a h) [
    | inl e ↦ inl e
    | inr k ↦ inr (Has-order_by key xs a k)
  ]

  Has-select : (p : A → Bool) (xs : List A) (a : A) → Has a (select p xs) → Has a xs × (p a ≡ true)
  unfolding select
  Has-select p [] a h = elim h [ ]
  Has-select p (x ∷ xs) a h = elim (Bool-cases (p x)) [
    | inl e ↦ elim (rw e at h) [
      | inl same ↦ (inl same, rw same at e)
      | inr k ↦ let (there, holds) = Has-select p xs a k in (inr there, holds)
    ]
    | inr e ↦ let (there, holds) = Has-select p xs a (rw e at h) in (inr there, holds)
  ]

abbrev pub is_open : String → ℤ → OneTimePrekey → Bool
is_open b k r = has_key b k r && not r.used

-- No key has two rows.
abbrev pub IsUnique : Database → Type 0
IsUnique db = (b : String) (k : ℤ) → count (has_key b k) db.one_time ≤ 1

-- The key has a row, and every row of it is spent.
abbrev pub IsSpent : String → ℤ → Database → Type 0
IsSpent b k db = (0 < count (has_key b k) db.one_time) × (count (is_open b k) db.one_time ≤ 0)

module _ (b : String) (k : ℤ) where
  open-le-key : (rs : List OneTimePrekey) → count (is_open b k) rs ≤ count (has_key b k) rs
  unfolding count
  open-le-key [] = omega arith
  open-le-key (r ∷ rs) = ground (arith, open-le-key rs)

  -- Marking a row as used
  module _ (id : ℕ) where
    abbrev marked : List OneTimePrekey → List OneTimePrekey
    marked = update (λ r. r.id == id) (λ r. record r { used = true })

    key-marked :
        (rs : List OneTimePrekey) → count (has_key b k) (marked rs) ≡ count (has_key b k) rs
    unfolding count update
    key-marked [] = refl
    key-marked (r ∷ rs) = ground (arith, key-marked rs)

    open-marked-le :
        (rs : List OneTimePrekey) → count (is_open b k) (marked rs) ≤ count (is_open b k) rs
    unfolding count update
    open-marked-le [] = omega arith
    open-marked-le (r ∷ rs) = ground (arith, open-marked-le rs)

  key-pos :
      (rs : List OneTimePrekey) (r : OneTimePrekey)
      → Has r rs
      → has_key b k r ≡ true
      → 0 < count (has_key b k) rs
  unfolding count
  key-pos [] r h e = absurd h
  key-pos (x ∷ xs) r (inl same) e = ground arith
  key-pos (x ∷ xs) r (inr h) e = ground (arith, key-pos xs r h e)

  open-pos :
      (rs : List OneTimePrekey) (r : OneTimePrekey)
      → Has r rs
      → is_open b k r ≡ true
      → 0 < count (is_open b k) rs
  unfolding count
  open-pos [] r h e = absurd h
  open-pos (x ∷ xs) r (inl same) e = ground arith
  open-pos (x ∷ xs) r (inr h) e = ground (arith, open-pos xs r h e)

  -- The only row of a key is spent once it is marked.
  open-marked :
      (rs : List OneTimePrekey) (r : OneTimePrekey)
      → Has r rs
      → has_key b k r ≡ true
      → count (has_key b k) rs ≤ 1
      → count (is_open b k) (marked r.id rs) ≤ 0
  unfolding count update
  open-marked [] r h e one = absurd h
  open-marked (x ∷ xs) r (inl same) e one = ground (arith, open-marked-le r.id xs, open-le-key xs)
  open-marked (x ∷ xs) r (inr h) e one = ground (arith, key-pos xs r h e, open-marked xs r h e)
