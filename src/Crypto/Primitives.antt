-- ===== src/Crypto/Primitives.antt =====
-- What noknowledge/crypto takes from `cryptography`, `hashlib`, `base64` and `json`, and what it
-- relies on.
use noknowledge.Base.{ℕ, Bytes, Option, some, ◌≡◌, length, ◌==◌, eq_Bytes, [], ◌∷◌, false}
use noknowledge.Base.Int.{ℤ}

-- The header of a ratchet message, as it travels. A base64 text is its ASCII bytes.
pub record Header : Type 0 where
  pub dh : Bytes
  pub pn : ℤ
  pub n : ℤ

-- `none` is an exception. `hkdf` takes the key material, the salt, the label and the length.
-- `header_json` is the canonical JSON of a header and of the context beside it.
pub record Primitives : Type 0 where
  pub hkdf : Bytes → Bytes → Bytes → ℕ → Bytes
  pub hmac : Bytes → Bytes → Bytes
  pub seal : Bytes → Bytes → Bytes → Bytes → Bytes
  pub unseal : Bytes → Bytes → Bytes → Bytes → Option Bytes
  pub exchange : Bytes → Bytes → Option Bytes
  pub b64e : Bytes → Bytes
  pub b64d : Bytes → Option Bytes
  pub header_json : Bytes → Header → Bytes

-- HMAC-SHA256 has 32 bytes, ChaCha20-Poly1305 opens what it sealed, base64 decodes what it
-- encoded, and makes no empty text of some bytes.
pub record Laws (p : Primitives) : Type 0 where
  pub hmac_size : (key message : Bytes) → length (p.hmac key message) ≡ 32
  pub opens :
      (key nonce plaintext ad : Bytes)
      → p.unseal key nonce (p.seal key nonce plaintext ad) ad ≡ some plaintext
  pub decodes : (b : Bytes) → p.b64d (p.b64e b) ≡ some b
  pub not_empty : (b : ℕ) (bs : Bytes) → (p.b64e (b ∷ bs) == []) ≡ false
