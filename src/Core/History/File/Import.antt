-- ===== src/Core/History/File/Import.antt =====
-- noknowledge/core/history.py: a file that is exported is imported as the bundle that it holds.
use noknowledge.Base.{
  ℕ, ◌+◌, ◌<◌, String, Bytes, true, false, Option, some, [], ◌∷◌, ◌++◌, ◌==◌, eq_String, eq_ℕ,
  eq_Bytes, if◌then◌else◌, take, drop, length, length-append, ◌≡◌, ap, sym, ◌∙◌, arith, inl, inr,
  Bool-cases, eq_self,
}
use noknowledge.Base.Outcome.{Result, ok, err}
use noknowledge.Base.Slices.{to_bytes4, take-append, drop-append, from_bytes-to_bytes4}
use noknowledge.Crypto.Primitives.{Primitives, Laws}
use noknowledge.Crypto.Aead.{encrypt, decrypt}
use noknowledge.Local.Schema.{LocalStore}
use noknowledge.Core.History.Merge.{Bundle, merge_bundle}
use noknowledge.Core.History.File.{
  FileHeader, FilePrimitives, history_magic, history_version, pbkdf2_iterations, is_version,
  raw_bundle, decode_bundle, export_history, is_history_file, assemble, header_length,
  read_export_header, kdf_fields, open_body, read_history, import_history,
}

-- JSON and zlib give back what they are given, a derived key has 32 bytes, a sealed text some.
module _ (p : Primitives) (laws : Laws p) (f : FilePrimitives)
    (header_json : (h : FileHeader) → f.header_loads (f.header_dumps h) ≡ some h) (bundle : Bundle)
    (bundle_json : f.bundle_loads (f.bundle_dumps (raw_bundle bundle))
      ≡ some (some (raw_bundle bundle)))
    (zlib : (b : Bytes) → f.decompress (f.compress b) ≡ some b)
    (key_size : (w : String) (salt : Bytes) (n : ℕ) → length (f.derive_key w salt n) ≡ 32)
    (tagged : (key nonce plaintext ad : Bytes) → 0 < length (p.seal key nonce plaintext ad)) where
  decode_raw : decode_bundle p f (f.bundle_dumps (raw_bundle bundle)) ≡ ok bundle
  unfolding decode_bundle raw_bundle is_version
  decode_raw = ground (arith, bundle_json)

  open_sealed :
      (passphrase : String) (salt nonce : Bytes) (n : ℕ)
      → length nonce ≡ 12
      → open_body p f passphrase salt n (
          nonce
          ++ p.seal
              (f.derive_key passphrase salt n)
              nonce
              (f.compress (f.bundle_dumps (raw_bundle bundle)))
              history_magic)
        ≡ ok bundle
  unfolding open_body decrypt
  open_sealed passphrase salt nonce n h =
      let key = f.derive_key passphrase salt n in
      let plaintext = f.compress (f.bundle_dumps (raw_bundle bundle)) in
      let c = p.seal key nonce plaintext history_magic in
      ground (
        arith,
        h,
        key_size passphrase salt n,
        tagged key nonce plaintext history_magic,
        length-append nonce c,
        take-append nonce c,
        drop-append nonce c,
        ap (λ k. take k (nonce ++ c)) h,
        ap (λ k. drop k (nonce ++ c)) h,
        laws.opens key nonce plaintext history_magic,
        zlib (f.bundle_dumps (raw_bundle bundle)),
        decode_raw,
      )

  abbrev written : Bytes → FileHeader
  written salt = record {
    v = some history_version;
    kdf_salt = some (p.b64e salt);
    kdf_iterations = some pbkdf2_iterations;
  }

  abbrev body : String → Bytes → Bytes → Bytes
  body passphrase salt nonce =
      nonce
      ++ p.seal (f.derive_key passphrase salt pbkdf2_iterations) nonce
          (f.compress (f.bundle_dumps (raw_bundle bundle))) history_magic

  abbrev file : String → Bytes → Bytes → Bytes
  file passphrase salt nonce =
      history_magic
      ++ history_version ∷ []
      ++ to_bytes4 (length (f.header_dumps (written salt)))
      ++ f.header_dumps (written salt)
      ++ body passphrase salt nonce

  encrypted :
      (passphrase : String) (salt nonce plaintext : Bytes)
      → encrypt p nonce (f.derive_key passphrase salt pbkdf2_iterations) plaintext history_magic
        ≡ some (
          nonce,
          p.seal (f.derive_key passphrase salt pbkdf2_iterations) nonce plaintext history_magic,
        )
  unfolding encrypt
  encrypted passphrase salt nonce plaintext =
      ground (arith, key_size passphrase salt pbkdf2_iterations)

  exports :
      (salt nonce : Bytes) (passphrase : String)
      → (passphrase == "") ≡ false
      → export_history p f salt nonce bundle passphrase ≡ ok (file passphrase salt nonce)
  unfolding export_history assemble
  exports salt nonce passphrase k =
      let hb = f.header_dumps (written salt) in
      let plaintext = f.compress (f.bundle_dumps (raw_bundle bundle)) in
      ap
        (λ t.
          if t
          then err "a passphrase is required to export history"
          else assemble p f hb (
              encrypt p nonce (f.derive_key passphrase salt pbkdf2_iterations) plaintext
                history_magic))
        k
      ∙ ap (assemble p f hb) (encrypted passphrase salt nonce plaintext)

  refuses :
      (salt nonce : Bytes) (passphrase : String)
      → (passphrase == "") ≡ true
      → export_history p f salt nonce bundle passphrase
        ≡ err "a passphrase is required to export history"
  unfolding export_history
  refuses salt nonce passphrase k = ground (arith, k)

  file_in : Bytes → Result String Bytes → Bytes
  file_in other (ok content) = content
  file_in other (err e) = other

  exported :
      (salt nonce content : Bytes) (passphrase : String)
      → export_history p f salt nonce bundle passphrase ≡ ok content
      → (content ≡ file passphrase salt nonce) × ((passphrase == "") ≡ false)
  unfolding file_in
  exported salt nonce content passphrase e = elim (Bool-cases (passphrase == "")) [
    | inl k ↦ ground (arith, refuses salt nonce passphrase k, e)
    | inr k ↦ (ap (file_in []) (sym e ∙ exports salt nonce passphrase k), k)
  ]

  length_of_file :
      (passphrase : String) (salt nonce : Bytes)
      → length (f.header_dumps (written salt)) < 4294967296
      → header_length p f (file passphrase salt nonce) ≡ length (f.header_dumps (written salt))
  unfolding header_length to_bytes4
  length_of_file passphrase salt nonce size =
      from_bytes-to_bytes4 (length (f.header_dumps (written salt))) size

  file_header :
      (passphrase : String) (salt nonce : Bytes)
      → length (f.header_dumps (written salt)) < 4294967296
      → read_export_header p f (file passphrase salt nonce) ≡ ok (written salt)
  unfolding read_export_header is_history_file is_version to_bytes4
  file_header passphrase salt nonce size =
      let hb = f.header_dumps (written salt) in
      ground (
        arith,
        length_of_file passphrase salt nonce size,
        eq_self history_magic,
        take-append hb (body passphrase salt nonce),
        header_json (written salt),
      )

  file_fields : (salt : Bytes) → kdf_fields p f (written salt) ≡ some (salt, pbkdf2_iterations)
  unfolding kdf_fields
  file_fields salt = ground (arith, laws.decodes salt)

  file_body :
      (passphrase : String) (salt nonce : Bytes)
      → drop (9 + length (f.header_dumps (written salt))) (file passphrase salt nonce)
        ≡ body passphrase salt nonce
  unfolding to_bytes4
  file_body passphrase salt nonce =
      let hb = f.header_dumps (written salt) in
      ground (arith, drop-append hb (body passphrase salt nonce))

  -- A file that was exported with a passphrase is read back with it to the bundle, and importing
  -- it is merging that bundle, where the header is shorter than 2 ^ 32 bytes and the nonce has 12.
  pub import_history-export_history :
      (salt nonce content : Bytes) (passphrase : String) (decode : Bytes → Option Bytes)
      (digest : Option String → String) (identity_id : String) (random_id : ℕ → String) (now : ℕ)
      (store : LocalStore)
      → length nonce ≡ 12
      → length (f.header_dumps (written salt)) < 4294967296
      → export_history p f salt nonce bundle passphrase ≡ ok content
      → (read_history p f content passphrase ≡ ok bundle)
        × (import_history p f decode digest identity_id random_id now content passphrase store
            ≡ merge_bundle decode digest identity_id random_id now bundle store)
  unfolding import_history read_history
  import_history-export_history salt nonce content passphrase decode digest identity_id random_id
        now store h size e =
      let read : read_history p f content passphrase ≡ ok bundle =
        let (c, k) = exported salt nonce content passphrase e in
        ap (λ x. read_history p f x passphrase) c
        ∙ ground (
          arith,
          k,
          file_header passphrase salt nonce size,
          file_fields salt,
          length_of_file passphrase salt nonce size,
          file_body passphrase salt nonce,
          open_sealed passphrase salt nonce pbkdf2_iterations h,
        ) in
      (read, ground (arith, read))
