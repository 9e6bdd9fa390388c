-- ===== src/Crypto/Padding.antt =====
-- noknowledge/crypto/padding.py. An envelope is the function from its `pad` field to its canonical
-- JSON, and `choice` gives the characters that `secrets.choice` draws, as their ASCII bytes.
use noknowledge.Base.{
  zero, suc, true, refl, ◌∷◌, All, ◌&&◌, ◌||◌, leb, if◌then◌else◌, ℕ, ◌+◌, ◌-◌, ◌*◌, ◌/◌, ◌≤◌, min,
  max, Bytes, Bool, false, not, ◌≡◌, Option, none, some, [], arith, ◌==◌, eq_ℕ, ltb, length,
}
use noknowledge.Base.Outcome.{Result, ok, err}

abbrev pub bucket_size : ℕ
bucket_size = 256

-- `unreadable` stands for the UnicodeDecodeError or JSONDecodeError of bytes that are no JSON.
pub data PaddingError : Type 0 where
  exceeds_limit too_large wrong_length not_an_object unreadable : PaddingError

-- `_PAD_ALPHABET`: the letters and the digits.
unfoldable pub in_alphabet : ℕ → Bool
in_alphabet b = leb 48 b && leb b 57 || leb 65 b && leb b 90 || leb 97 b && leb b 122

abbrev pub Plain : Bytes → Type 0
Plain = All (λ b. in_alphabet b ≡ true)

-- So many characters, each drawn.
unfoldable pub random_pad : (ℕ → ℕ) → ℕ → Bytes
random_pad choice zero = []
random_pad choice (suc n) = choice n ∷ random_pad choice n

unfoldable pub padded_size : ℕ → ℕ → Option ℕ → ℕ
padded_size base_length bucket none = max bucket ((base_length / bucket + 1) * bucket)
padded_size base_length bucket (some max_size) =
    let target = max bucket ((base_length / bucket + 1) * bucket) in
    if ltb max_size target then max_size else target

-- `max_size is not None and len(base) > max_size`
abbrev pub over : Option ℕ → ℕ → Bool
over none n = false
over (some max_size) n = ltb max_size n

unfoldable pub pad_envelope : (Bytes → Bytes) → (ℕ → ℕ) → ℕ → Option ℕ → Result PaddingError Bytes
unfolding padded_size random_pad
pad_envelope json choice bucket max_size =
    let base = length (json []) in
    let target = padded_size base bucket max_size in
    let text = json (random_pad choice (target - base)) in
    if over max_size base
    then err exceeds_limit
    else if ltb target base
    then err too_large
    else if not (length text == target)
    then err wrong_length
    else ok text

-- `loads` gives the fields of an object but for `pad`, and its `pad`: `none` for bytes that are no
-- JSON in UTF-8, and `some none` for a value that is no object.
unfoldable pub unpad_envelope :
    {E : Type 0} → (Bytes → Option (Option (E × Option Bytes))) → Bytes → Result PaddingError E
unpad_envelope loads text = elim (loads text) [
  | none ↦ err unreadable
  | some none ↦ err not_an_object
  | some (some (envelope, pad)) ↦ ok envelope
]

pub random_pad-Plain :
    (choice : ℕ → ℕ)
    → ((i : ℕ) → in_alphabet (choice i) ≡ true)
    → (n : ℕ) → Plain (random_pad choice n)
unfolding random_pad
random_pad-Plain choice h zero = tt
random_pad-Plain choice h (suc n) = (h n, random_pad-Plain choice h n)

length-random_pad : (choice : ℕ → ℕ) (n : ℕ) → length (random_pad choice n) ≡ n
unfolding random_pad
length-random_pad choice zero = refl
length-random_pad choice (suc n) = omega (arith, length-random_pad choice n)

module _ (json : Bytes → Bytes) (choice : ℕ → ℕ) (limit : ℕ)
    (grows : (pad : Bytes) → Plain pad → length (json pad) ≡ length (json []) + length pad)
    (choices : (i : ℕ) → in_alphabet (choice i) ≡ true) (fits : length (json []) ≤ limit) where
  -- An envelope within the limit, whose JSON takes letters and digits of its pad as they are, is
  -- padded, to the next multiple of 256 above its length or to the limit, whichever is less: its
  -- length tells of the envelope only the multiple. Only the drawn pad is added to it.
  pub pad_envelope-length :
      (pad : Bytes) × Plain pad
      × (pad_envelope json choice bucket_size (some limit) ≡ ok (json pad))
      × (length (json pad) ≡ min limit ((length (json []) / 256 + 1) * 256))
  unfolding pad_envelope padded_size
  pad_envelope-length =
      let target = padded_size (length (json [])) 256 (some limit) in
      let k = target - length (json []) in
      let pad = random_pad choice k in
      let plain = random_pad-Plain choice choices k in
      let grown = grows pad plain in
      let long = length-random_pad choice k in
      (pad, plain, ground (arith, grown, long), ground (arith, grown, long))
