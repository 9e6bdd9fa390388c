-- ===== src/Crypto/Toy.antt =====
-- Primitives that compute, for concrete runs: they are not secret, but they have the laws of
-- `Laws` and those of the signatures.
use noknowledge.Base.{ℕ, zero, suc, Bytes, true, ◌≡◌, refl, Option, some, [], ◌∷◌, length, bytes_eq}
use noknowledge.Crypto.Primitives.{Primitives, Laws}
use noknowledge.Crypto.Prekeys.{Signatures}

abbrev pub repeat : ℕ → ℕ → Bytes
repeat zero b = []
repeat (suc n) b = b ∷ repeat n b

pub length-repeat : (n b : ℕ) → length (repeat n b) ≡ n
length-repeat zero b = refl
length-repeat (suc n) b = rw (length-repeat n b)

abbrev pub without_first : Bytes → Option Bytes
without_first [] = some []
without_first (_ ∷ b) = some b

abbrev pub plain : Primitives
plain = record {
  hkdf = λ ikm salt info n. repeat n 5;
  hmac = λ key message. repeat 32 6;
  seal = λ key nonce plaintext ad. 0 ∷ plaintext;
  unseal = λ key nonce ciphertext ad. without_first ciphertext;
  exchange = λ private public. some (repeat 32 7);
  b64e = λ b. 1 ∷ b;
  b64d = without_first;
  header_json = λ context header. context;
}

pub plain-Laws : Laws plain
unfolding bytes_eq
plain-Laws = record {
  hmac_size = λ key message. length-repeat 32 6;
  opens = λ key nonce plaintext ad. refl;
  decodes = λ b. refl;
  not_empty = λ b bs. refl;
}

abbrev pub signatures : Signatures
signatures = record {
  ed_public = λ k. repeat 32 1;
  x_public = λ k. repeat 32 2;
  sign = λ k m. repeat 64 3;
  ed_verify = λ k s m. true;
}
