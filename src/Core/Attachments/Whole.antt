-- ===== src/Core/Attachments/Whole.antt =====
-- noknowledge/core/attachments.py: a file that is encrypted in chunks and put together again.
use noknowledge.Base.{
  ℕ, suc, zero, ◌+◌, ◌*◌, ◌≤◌, String, Bytes, some, List, [], ◌∷◌, ◌++◌, eq_String, eq_ℕ, take,
  drop, length, map, ◌≡◌, refl, sym, ◌∙◌, ap, arith, eq_self,
}
use noknowledge.Base.Outcome.{ok}
use noknowledge.Crypto.Primitives.{Primitives, Laws}
use noknowledge.Crypto.Aead.{encrypt, decrypt}
use noknowledge.Core.Attachments.{
  EncryptedChunk, Attachment, Manifest, chunk_size, max_file_size, chunk_count, encrypt_chunks,
  encrypt_attachment, decrypt_chunks, decrypt_attachment, manifest_chunks, manifest_dict,
  decode_chunks, manifest_fields, decode_manifest,
}

take-drop : (n : ℕ) (xs : Bytes) → take n xs ++ drop n xs ≡ xs
take-drop zero xs = refl
take-drop (suc n) [] = refl
take-drop (suc n) (x ∷ xs) = ap (λ t. x ∷ t) (take-drop n xs)

drop_short : (n m : ℕ) (xs : Bytes) → length xs ≤ n + m → length (drop n xs) ≤ m
drop_short zero m xs h = omega (arith, h)
drop_short (suc n) m [] h = omega arith
drop_short (suc n) m (x ∷ xs) h = drop_short n m xs (omega (arith, h))

chunk_count_enough : (n : ℕ) → n ≤ chunk_count n * chunk_size
unfolding chunk_count
chunk_count_enough n = omega arith

abbrev pub nonces_of : List EncryptedChunk → List Bytes
nonces_of chunks = map (λ (c : EncryptedChunk). c.nonce) chunks

abbrev pub ciphertexts_of : List EncryptedChunk → List Bytes
ciphertexts_of chunks = map (λ (c : EncryptedChunk). c.ciphertext) chunks

module _ (p : Primitives) (laws : Laws p) (sha256 : Bytes → String) (nonces : ℕ → Bytes)
    (key : Bytes) (sized : length key ≡ 32) (twelve : (i : ℕ) → length (nonces i) ≡ 12) where
  decrypt-encrypt :
      (i : ℕ) (piece : Bytes)
      → decrypt p key (nonces i) (p.seal key (nonces i) piece []) [] ≡ some piece
  unfolding decrypt
  decrypt-encrypt i piece = ground (arith, sized, twelve i, laws.opens key (nonces i) piece [])

  -- The chunks exist, and give the data back where they cover it.
  chunks_open :
      (n i : ℕ) (rest : Bytes)
      → length rest ≤ n * chunk_size
      → (chunks : List EncryptedChunk) × (encrypt_chunks p sha256 nonces key i n rest ≡ some chunks)
        × (length chunks ≡ n)
        × (decrypt_chunks p sha256 key (nonces_of chunks) (ciphertexts_of chunks) ≡ some rest)
  unfolding encrypt_chunks decrypt_chunks encrypt
  chunks_open zero i [] h = ([], refl, refl, refl)
  chunks_open zero i (x ∷ xs) h = absurd (omega (arith, h))
  chunks_open (suc n) i rest h =
      let (chunks, e, l, o) =
        chunks_open n (suc i) (drop chunk_size rest)
          (drop_short chunk_size (n * chunk_size) rest (omega (arith, h))) in
      let piece = take chunk_size rest in
      let chunk : EncryptedChunk = record {
        nonce = nonces i;
        ciphertext = p.seal key (nonces i) piece [];
      } in
      (
        chunk ∷ chunks,
        ground (arith, e, sized),
        omega (arith, l),
        ground (arith, o, decrypt-encrypt i piece, take-drop chunk_size rest),
      )

  decode_chunks-manifest_chunks :
      (ids : List String) (chunks : List EncryptedChunk)
      → length ids ≡ length chunks
      → decode_chunks p sha256 (manifest_chunks p sha256 ids chunks) ≡ some (ids, nonces_of chunks)
  unfolding decode_chunks manifest_chunks
  decode_chunks-manifest_chunks [] [] h = refl
  decode_chunks-manifest_chunks [] (c ∷ cs) h = absurd (omega (arith, h))
  decode_chunks-manifest_chunks (id ∷ ids) [] h = absurd (omega (arith, h))
  decode_chunks-manifest_chunks (id ∷ ids) (c ∷ cs) h =
      ground (arith, laws.decodes c.nonce, decode_chunks-manifest_chunks ids cs (omega (arith, h)))

  length-nonces_of : (chunks : List EncryptedChunk) → length (nonces_of chunks) ≡ length chunks
  length-nonces_of [] = refl
  length-nonces_of (c ∷ cs) = ap suc (length-nonces_of cs)

  length-ciphertexts_of :
      (chunks : List EncryptedChunk) → length (ciphertexts_of chunks) ≡ length chunks
  length-ciphertexts_of [] = refl
  length-ciphertexts_of (c ∷ cs) = ap suc (length-ciphertexts_of cs)

  -- A file within the limit, under a key of 32 bytes and nonces of 12, is encrypted into as many
  -- chunks as its size takes. With an id for each chunk, its manifest is read back to the key, the
  -- ids, the nonces and the hash, and these decrypt the chunks to the file.
  pub decrypt_attachment-encrypt_attachment :
      (content : Bytes) (ids : List String)
      → length content ≤ max_file_size
      → length ids ≡ chunk_count (length content)
      → (a : Attachment) × (m : Manifest) × (encrypt_attachment p sha256 key nonces content ≡ ok a)
        × (length a.chunks ≡ chunk_count (length content))
        × (manifest_dict p sha256 a ids ≡ ok m)
        × (decode_manifest p sha256 m ≡ ok (key, ids, nonces_of a.chunks, sha256 content))
        × (decrypt_attachment p sha256 key
              (nonces_of a.chunks)
              (ciphertexts_of a.chunks)
              (sha256 content)
            ≡ ok content)
  unfolding encrypt_attachment manifest_dict decode_manifest manifest_fields decrypt_attachment
  decrypt_attachment-encrypt_attachment content ids small named =
      let (chunks, e, l, o) =
        chunks_open (chunk_count (length content)) 0 content
          (chunk_count_enough (length content)) in
      let a : Attachment = record {
        key = key;
        chunks = chunks;
        size = length content;
        sha256 = sha256 content;
      } in
      let m : Manifest = record {
        key = some (p.b64e key);
        size = some (length content);
        sha256 = some (sha256 content);
        chunks = some (manifest_chunks p sha256 ids chunks);
      } in
      let k : length ids ≡ length chunks = named ∙ sym l in
      (
        a,
        m,
        ground (arith, e, small),
        l,
        ground (arith, k),
        ground (arith, laws.decodes key, decode_chunks-manifest_chunks ids chunks k, sized, small),
        ground (
          arith,
          o,
          length-nonces_of chunks,
          length-ciphertexts_of chunks,
          eq_self (sha256 content),
        ),
      )
