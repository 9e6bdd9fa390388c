-- ===== src/Core/Attachments.antt =====
-- noknowledge/core/attachments.py. An error is the text of an AttachmentError, or "aead" for an
-- AEADError.
pub mod Whole
use noknowledge.Base.{
  ℕ, suc, zero, ◌+◌, ◌-◌, ◌*◌, ◌/◌, max, String, Bytes, Bool, true, false, not, Option, none, some,
  List, [], ◌∷◌, ◌++◌, ◌==◌, eq_String, eq_ℕ, if◌then◌else◌, ltb, take, drop, length, map,
}
use noknowledge.Base.Outcome.{Result, ok, err, ◌>>=?◌}
use noknowledge.Crypto.Primitives.{Primitives}
use noknowledge.Crypto.Aead.{encrypt, decrypt}

abbrev pub chunk_size : ℕ
chunk_size = 262144

abbrev pub key_size : ℕ
key_size = 32

abbrev pub max_file_size : ℕ
max_file_size = 26214400

pub record EncryptedChunk : Type 0 where
  pub nonce : Bytes
  pub ciphertext : Bytes

pub record Attachment : Type 0 where
  pub key : Bytes
  pub chunks : List EncryptedChunk
  pub size : ℕ
  pub sha256 : String

-- The manifest in a message; a field that is missing is `none`.
pub record Manifest : Type 0 where
  pub key : Option Bytes
  pub size : Option ℕ
  pub sha256 : Option String
  pub chunks : Option (List (String × Bytes))

-- How many offsets `range(0, max(size, 1), chunk_size)` has.
unfoldable pub chunk_count : ℕ → ℕ
chunk_count size = (max size 1 + (chunk_size - 1)) / chunk_size

-- `sha256` is `hashlib.sha256(data).hexdigest()`; `nonces i` is the i-th nonce that is drawn.
module _ (p : Primitives) (sha256 : Bytes → String) where
  -- The chunks of the data from an offset on.
  unfoldable pub encrypt_chunks : (ℕ → Bytes) → Bytes → ℕ → ℕ → Bytes → Option (List EncryptedChunk)
  encrypt_chunks nonces key i zero rest = some []
  encrypt_chunks nonces key i (suc n) rest =
      encrypt p (nonces i) key (take chunk_size rest) [] >>=? λ (nonce, ciphertext).
      encrypt_chunks nonces key (suc i) n (drop chunk_size rest) >>=? λ chunks.
      some (record { nonce = nonce; ciphertext = ciphertext } ∷ chunks)

  unfoldable pub encrypt_attachment : Bytes → (ℕ → Bytes) → Bytes → Result String Attachment
  encrypt_attachment key nonces content =
      if ltb max_file_size (length content)
      then err "file is too large"
      else elim (encrypt_chunks nonces key 0 (chunk_count (length content)) content) [
        | none ↦ err "aead"
        | some chunks ↦
            ok (record {
              key = key;
              chunks = chunks;
              size = length content;
              sha256 = sha256 content;
            })
      ]

  -- `b"".join(...)` of the chunks, decrypted in order.
  unfoldable pub decrypt_chunks : Bytes → List Bytes → List Bytes → Option Bytes
  decrypt_chunks key [] ciphertexts = some []
  decrypt_chunks key (nonce ∷ nonces) [] = some []
  decrypt_chunks key (nonce ∷ nonces) (ciphertext ∷ ciphertexts) =
      decrypt p key nonce ciphertext [] >>=? λ piece.
      decrypt_chunks key nonces ciphertexts >>=? λ rest. some (piece ++ rest)

  unfoldable pub decrypt_attachment : Bytes → List Bytes → List Bytes → String → Result String Bytes
  decrypt_attachment key nonces ciphertexts expected_sha256 =
      if not (length nonces == length ciphertexts)
      then err "chunk count mismatch"
      else elim (decrypt_chunks key nonces ciphertexts) [
        | none ↦ err "aead"
        | some content ↦
            if not (sha256 content == expected_sha256)
            then err "attachment hash mismatch"
            else ok content
      ]

  -- The ids beside the nonces.
  unfoldable pub manifest_chunks : List String → List EncryptedChunk → List (String × Bytes)
  manifest_chunks [] chunks = []
  manifest_chunks (id ∷ ids) [] = []
  manifest_chunks (id ∷ ids) (chunk ∷ chunks) =
      (id, p.b64e chunk.nonce) ∷ manifest_chunks ids chunks

  unfoldable pub manifest_dict : Attachment → List String → Result String Manifest
  manifest_dict a chunk_ids =
      if not (length chunk_ids == length a.chunks)
      then err "chunk id count mismatch"
      else ok (record {
        key = some (p.b64e a.key);
        size = some a.size;
        sha256 = some a.sha256;
        chunks = some (manifest_chunks chunk_ids a.chunks);
      })

  unfoldable pub decode_chunks : List (String × Bytes) → Option (List String × List Bytes)
  decode_chunks [] = some ([], [])
  decode_chunks ((id, nonce) ∷ chunks) = p.b64d nonce >>=? λ nonce'.
      decode_chunks chunks >>=? λ (ids, nonces). some (id ∷ ids, nonce' ∷ nonces)

  unfoldable pub manifest_fields : Manifest → Option (Bytes × ℕ × String × List String × List Bytes)
  manifest_fields m = (m.key >>=? p.b64d) >>=? λ key. m.size >>=? λ size. m.sha256 >>=? λ sha.
      (m.chunks >>=? decode_chunks) >>=? λ (ids, nonces). some (key, size, sha, ids, nonces)

  unfoldable pub decode_manifest :
      Manifest → Result String (Bytes × List String × List Bytes × String)
  decode_manifest m = elim (manifest_fields m) [
    | none ↦ err "malformed attachment manifest"
    | some (key, size, sha, ids, nonces) ↦
        if not (length key == key_size)
        then err "bad attachment key"
        else if ltb max_file_size size
        then err "attachment exceeds maximum size"
        else ok (key, ids, nonces, sha)
  ]
