-- ===== src/Base/Slices.antt =====
-- The byte strings that the program puts together and takes apart: slices, and integers of
-- four bytes in big-endian order, as `int.to_bytes` and `int.from_bytes` make and read them.
use noknowledge.Base.{
  ℕ, zero, suc, ◌+◌, ◌*◌, ◌/◌, ◌%◌, ◌≤◌, ◌<◌, Bytes, Option, none, some, List, [], ◌∷◌, ◌++◌, ◌≡◌,
  refl, ap, arith, take, drop, length,
}

module _ {A : Type 0} where
  pub take-append : (xs ys : List A) → take (length xs) (xs ++ ys) ≡ xs
  take-append [] ys = refl
  take-append (x ∷ xs) ys = ap (λ t. x ∷ t) (take-append xs ys)

  pub drop-append : (xs ys : List A) → drop (length xs) (xs ++ ys) ≡ ys
  drop-append [] ys = refl
  drop-append (x ∷ xs) ys = drop-append xs ys

  pub drop_nil : (n : ℕ) → drop {A = A} n [] ≡ []
  drop_nil zero = refl
  drop_nil (suc n) = refl

  pub length-drop-le : (n : ℕ) (xs : List A) → length (drop n xs) ≤ length xs
  length-drop-le zero xs = omega arith
  length-drop-le (suc n) [] = omega arith
  length-drop-le (suc n) (x ∷ xs) = omega (arith, length-drop-le n xs)

-- `data[i]`; `none` is an IndexError.
abbrev pub get_elem? : Bytes → ℕ → Option ℕ
get_elem? [] n = none
get_elem? (x ∷ xs) zero = some x
get_elem? (x ∷ xs) (suc n) = get_elem? xs n

-- `n.to_bytes(4, "big")`, for n below 2 ^ 32
unfoldable pub to_bytes4 : ℕ → Bytes
to_bytes4 n = n / 16777216 % 256 ∷ n / 65536 % 256 ∷ n / 256 % 256 ∷ n % 256 ∷ []

unfoldable pub from_bytes_on : ℕ → Bytes → ℕ
from_bytes_on acc [] = acc
from_bytes_on acc (b ∷ bs) = from_bytes_on (acc * 256 + b) bs

-- `int.from_bytes(data, "big")`
unfoldable pub from_bytes : Bytes → ℕ
from_bytes bs = from_bytes_on 0 bs

pub from_bytes-to_bytes4 : (n : ℕ) → n < 4294967296 → from_bytes (to_bytes4 n) ≡ n
unfolding from_bytes from_bytes_on to_bytes4
from_bytes-to_bytes4 n h = omega arith
