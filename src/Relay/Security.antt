-- ===== src/Relay/Security.antt =====
-- noknowledge/server/security.py: capability tokens and hashcash. SHA-256 and the reading of text
-- are parameters.
use noknowledge.Base.{
  ℕ, zero, suc, ◌+◌, ◌-◌, ◌/◌, String, Bytes, Bool, true, false, not, ◌&&◌, ◌||◌, Option, none,
  some, List, [], ◌∷◌, ◌==◌, eq_ℕ, eq_Bytes, ltb, leb, if◌then◌else◌,
}
use noknowledge.Base.Int.{ℤ, pos, negsuc}

abbrev pub is_empty {ℓ} : {A : Type ℓ} → List A → Bool
is_empty [] = true
is_empty (_ ∷ _) = false

-- `hmac.compare_digest` is equality of byte strings.
unfoldable pub verify_token : (Bytes → Bytes) → Bytes → Bytes → Bool
verify_token sha256 token stored_hash =
    not (is_empty token || is_empty stored_hash) && sha256 token == stored_hash

-- `int.bit_length` of a number below 2 ^ fuel
unfoldable pub bit_length : ℕ → ℕ → ℕ
bit_length zero n = 0
bit_length (suc fuel) n = let rest = bit_length fuel (n / 2) in if n == 0 then 0 else suc rest

unfoldable pub leading_zero_bits : Bytes → ℕ
unfolding bit_length
leading_zero_bits [] = 0
leading_zero_bits (byte ∷ digest) =
    let rest = leading_zero_bits digest in if byte == 0 then 8 + rest else 8 - bit_length 8 byte

-- What the check takes from Python and from SHA-256: `value.partition(":")` where the text has a
-- colon, `int`, and the digest of `f"{timestamp}:{nonce}"`.
pub record Stamps : Type 0 where
  pub partition : String → Option (String × String)
  pub parse_int : String → Option ℤ
  pub digest : ℤ → String → Bytes

-- `timestamp > current + 60 or current - timestamp > max_age`
abbrev pub out_of_time : ℤ → ℕ → ℕ → Bool
out_of_time (pos t) current max_age = ltb (current + 60) t || ltb (t + max_age) current
out_of_time (negsuc t) current max_age = ltb max_age (current + suc t)

unfoldable pub verify_hashcash : Stamps → Option String → ℕ → ℕ → ℕ → Bool
unfolding leading_zero_bits
verify_hashcash stamps none bits current max_age = bits == 0
verify_hashcash stamps (some value) bits current max_age =
    if bits == 0 then true else elim (stamps.partition value) [
      | none ↦ false
      | some (text, nonce) ↦ elim (stamps.parse_int text) [
        | none ↦ false
        | some timestamp ↦
            if out_of_time timestamp current max_age
            then false
            else leb bits (leading_zero_bits (stamps.digest timestamp nonce))
      ]
    ]
