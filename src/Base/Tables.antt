-- ===== src/Base/Tables.antt =====
-- The statements of SQL that the program uses, on a table as the list of its rows in the order
-- of insertion: SELECT, DELETE, UPDATE, COUNT, SUM and ORDER BY.
use Prim.Native.Nat.{ℕ, suc, ◌+◌, ◌≤◌}
use mathlib.Core.Path.{◌≡◌, refl}
use mathlib.Core.Bool.{Bool, true, false}
use mathlib.Core.Option.{Option, none, some}
use mathlib.Core.List.{List, [], ◌∷◌, ◌++◌}
use native.Mathlib.Omega.{arith}
use noknowledge.Base.Tests.{if◌then◌else◌, leb}

module _ {ℓ} {A : Type ℓ} where
  -- SELECT ... WHERE
  unfoldable pub select : (A → Bool) → List A → List A
  select p [] = []
  select p (x ∷ xs) = let rest = select p xs in if p x then x ∷ rest else rest

  -- DELETE ... WHERE
  unfoldable pub delete : (A → Bool) → List A → List A
  delete p [] = []
  delete p (x ∷ xs) = let rest = delete p xs in if p x then rest else x ∷ rest

  -- UPDATE ... SET ... WHERE
  unfoldable pub update : (A → Bool) → (A → A) → List A → List A
  update p f [] = []
  update p f (x ∷ xs) = let rest = update p f xs in if p x then f x ∷ rest else x ∷ rest

  -- SELECT ... WHERE, and `fetchone`
  unfoldable pub first : (A → Bool) → List A → Option A
  first p [] = none
  first p (x ∷ xs) = if p x then some x else first p xs

  -- SELECT COUNT(*) ... WHERE
  unfoldable pub count : (A → Bool) → List A → ℕ
  count p [] = 0
  count p (x ∷ xs) = if p x then suc (count p xs) else count p xs

  -- SELECT COALESCE(SUM(...), 0) ... WHERE
  unfoldable pub sum : (A → Bool) → (A → ℕ) → List A → ℕ
  sum p f [] = 0
  sum p f (x ∷ xs) = if p x then f x + sum p f xs else sum p f xs

  unfoldable pub insert_by : (A → ℕ) → A → List A → List A
  insert_by key x [] = x ∷ []
  insert_by key x (y ∷ ys) = if leb (key x) (key y) then x ∷ y ∷ ys else y ∷ insert_by key x ys

  -- ORDER BY ... ASC; rows with equal keys keep their order.
  unfoldable pub order_by : (A → ℕ) → List A → List A
  unfolding insert_by
  order_by key [] = []
  order_by key (x ∷ xs) = insert_by key x (order_by key xs)

module _ {ℓ} {A : Type ℓ} where
  pub count-append : (p : A → Bool) (xs ys : List A) → count p (xs ++ ys) ≡ count p xs + count p ys
  unfolding count
  count-append p [] ys = omega arith
  count-append p (x ∷ xs) ys = ground (arith, count-append p xs ys)

  pub sum-append :
      (p : A → Bool) (f : A → ℕ) (xs ys : List A) → sum p f (xs ++ ys) ≡ sum p f xs + sum p f ys
  unfolding sum
  sum-append p f [] ys = omega arith
  sum-append p f (x ∷ xs) ys = ground (arith, sum-append p f xs ys)

  pub select-append :
      (p : A → Bool) (xs ys : List A) → select p (xs ++ ys) ≡ select p xs ++ select p ys
  unfolding select
  select-append p [] ys = refl
  select-append p (x ∷ xs) ys = ground (arith, select-append p xs ys)

  -- Nothing that was deleted is counted, if what is counted is deleted.
  pub count-delete_sub :
      (p q : A → Bool) (xs : List A)
      → ((a : A) → p a ≡ true → q a ≡ true)
      → count p (delete q xs) ≡ 0
  unfolding count delete
  count-delete_sub p q [] h = refl
  count-delete_sub p q (x ∷ xs) h = ground (arith, h x, count-delete_sub p q xs h)

  pub count-delete_disjoint :
      (p q : A → Bool) (xs : List A)
      → ((a : A) → p a ≡ true → q a ≡ false)
      → count p (delete q xs) ≡ count p xs
  unfolding count delete
  count-delete_disjoint p q [] h = refl
  count-delete_disjoint p q (x ∷ xs) h = ground (arith, h x, count-delete_disjoint p q xs h)

  pub count-delete-le : (p q : A → Bool) (xs : List A) → count p (delete q xs) ≤ count p xs
  unfolding count delete
  count-delete-le p q [] = omega arith
  count-delete-le p q (x ∷ xs) = ground (arith, count-delete-le p q xs)

  pub sum-delete_sub :
      (p q : A → Bool) (f : A → ℕ) (xs : List A)
      → ((a : A) → p a ≡ true → q a ≡ true)
      → sum p f (delete q xs) ≡ 0
  unfolding sum delete
  sum-delete_sub p q f [] h = refl
  sum-delete_sub p q f (x ∷ xs) h = ground (arith, h x, sum-delete_sub p q f xs h)

  pub sum-delete_disjoint :
      (p q : A → Bool) (f : A → ℕ) (xs : List A)
      → ((a : A) → p a ≡ true → q a ≡ false)
      → sum p f (delete q xs) ≡ sum p f xs
  unfolding sum delete
  sum-delete_disjoint p q f [] h = refl
  sum-delete_disjoint p q f (x ∷ xs) h = ground (arith, h x, sum-delete_disjoint p q f xs h)

  pub sum-delete-le :
      (p q : A → Bool) (f : A → ℕ) (xs : List A) → sum p f (delete q xs) ≤ sum p f xs
  unfolding sum delete
  sum-delete-le p q f [] = omega arith
  sum-delete-le p q f (x ∷ xs) = ground (arith, sum-delete-le p q f xs)

  -- A row is found after an UPDATE as before it, changed if the UPDATE reached it.
  pub first-update :
      (p q : A → Bool) (f : A → A) (xs : List A)
      → ((a : A) → p (f a) ≡ p a)
      → first p (update q f xs)
        ≡ elim (first p xs) [ none ↦ none | some x ↦ some (if q x then f x else x) ]
  unfolding first update
  first-update p q f [] h = refl
  first-update p q f (x ∷ xs) h = ground (arith, h x, first-update p q f xs h)

  pub first-delete_sub :
      (p q : A → Bool) (xs : List A)
      → ((a : A) → p a ≡ true → q a ≡ true)
      → first p (delete q xs) ≡ none
  unfolding first delete
  first-delete_sub p q [] h = refl
  first-delete_sub p q (x ∷ xs) h = ground (arith, h x, first-delete_sub p q xs h)

  pub first-delete_disjoint :
      (p q : A → Bool) (xs : List A)
      → ((a : A) → p a ≡ true → q a ≡ false)
      → first p (delete q xs) ≡ first p xs
  unfolding first delete
  first-delete_disjoint p q [] h = refl
  first-delete_disjoint p q (x ∷ xs) h = ground (arith, h x, first-delete_disjoint p q xs h)

  pub first-append :
      (p : A → Bool) (xs ys : List A)
      → first p (xs ++ ys) ≡ elim (first p xs) [ none ↦ first p ys | some x ↦ some x ]
  unfolding first
  first-append p [] ys = refl
  first-append p (x ∷ xs) ys = ground (arith, first-append p xs ys)

  pub first-eq-true : (p : A → Bool) (xs : List A) (a : A) → first p xs ≡ some a → p a ≡ true
  unfolding first
  first-eq-true p [] a h = ground arith
  first-eq-true p (x ∷ xs) a h = ground (arith, first-eq-true p xs a)

  pub count-update :
      (p q : A → Bool) (f : A → A) (xs : List A)
      → ((a : A) → p (f a) ≡ p a)
      → count p (update q f xs) ≡ count p xs
  unfolding count update
  count-update p q f [] h = refl
  count-update p q f (x ∷ xs) h = ground (arith, h x, count-update p q f xs h)

  pub count_of_first-none : (p : A → Bool) (xs : List A) → first p xs ≡ none → count p xs ≡ 0
  unfolding count first
  count_of_first-none p [] h = refl
  count_of_first-none p (x ∷ xs) h = ground (arith, count_of_first-none p xs)

  pub select-delete_disjoint :
      (p q : A → Bool) (xs : List A)
      → ((a : A) → p a ≡ true → q a ≡ false)
      → select p (delete q xs) ≡ select p xs
  unfolding select delete
  select-delete_disjoint p q [] h = refl
  select-delete_disjoint p q (x ∷ xs) h = ground (arith, h x, select-delete_disjoint p q xs h)

  pub select-delete_sub :
      (p q : A → Bool) (xs : List A)
      → ((a : A) → p a ≡ true → q a ≡ true)
      → select p (delete q xs) ≡ []
  unfolding select delete
  select-delete_sub p q [] h = refl
  select-delete_sub p q (x ∷ xs) h = ground (arith, h x, select-delete_sub p q xs h)

  pub none_of_count : (p : A → Bool) (xs : List A) → count p xs ≡ 0 → first p xs ≡ none
  unfolding count first
  none_of_count p [] h = refl
  none_of_count p (x ∷ xs) h = ground (arith, none_of_count p xs)

  pub select-delete_nil :
      (p q : A → Bool) (xs : List A) → select p xs ≡ [] → select p (delete q xs) ≡ []
  unfolding select delete
  select-delete_nil p q [] h = refl
  select-delete_nil p q (x ∷ xs) h = ground (arith, select-delete_nil p q xs)
