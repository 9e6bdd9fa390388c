-- ===== src/Core/History/File.antt =====
-- noknowledge/core/history.py: the encrypted export file. JSON, zlib and PBKDF2 are parameters;
-- an error is the text of a HistoryError, or "uncaught" for another exception.
pub mod Import
use noknowledge.Base.{
  ℕ, suc, ◌+◌, String, Bytes, Bool, true, false, ◌&&◌, ◌||◌, not, Option, none, some, List, [], ◌∷◌,
  ◌++◌, ◌==◌, eq_String, eq_ℕ, eq_Bytes, if◌then◌else◌, ltb, leb, take, drop, length,
}
use noknowledge.Base.Outcome.{Result, ok, err, ◌>>=?◌}
use noknowledge.Base.Slices.{to_bytes4, from_bytes, get_elem?}
use noknowledge.Crypto.Primitives.{Primitives}
use noknowledge.Crypto.Aead.{encrypt, decrypt}
use noknowledge.Local.Schema.{LocalStore}
use noknowledge.Core.History.Items.{ContactItem, MessageItem, ChunkItem}
use noknowledge.Core.History.Merge.{Bundle, Counts, merge_bundle}

-- b"NKX1"
abbrev pub history_magic : Bytes
history_magic = 78 ∷ 75 ∷ 88 ∷ 49 ∷ []

abbrev pub history_version : ℕ
history_version = 1

abbrev pub pbkdf2_iterations : ℕ
pbkdf2_iterations = 600000

-- The header, as it is read: the version, and the parameters of the key, which is `none` where
-- one is missing. The counts and the time are for display.
pub record FileHeader : Type 0 where
  pub v : Option ℕ
  pub kdf_salt : Option Bytes
  pub kdf_iterations : Option ℕ

-- A bundle as JSON gives it: its version and its lists, `none` where one is no list.
pub record RawBundle : Type 0 where
  pub v : Option ℕ
  pub contacts : Option (List ContactItem)
  pub messages : Option (List MessageItem)
  pub chunks : Option (List ChunkItem)

-- `header_loads` is `none` for bytes that are no UTF-8 or no JSON. `bundle_loads` is `none` for
-- text that is no JSON and `some none` for JSON that is no object.
pub record FilePrimitives : Type 0 where
  pub header_dumps : FileHeader → Bytes
  pub header_loads : Bytes → Option FileHeader
  pub bundle_dumps : RawBundle → Bytes
  pub bundle_loads : Bytes → Option (Option RawBundle)
  pub compress : Bytes → Bytes
  pub decompress : Bytes → Option Bytes
  pub derive_key : String → Bytes → ℕ → Bytes

-- `v == 1` of a field
unfoldable pub is_version : Option ℕ → Bool
is_version none = false
is_version (some v) = v == history_version

unfoldable pub raw_bundle : Bundle → RawBundle
raw_bundle b = record {
  v = some history_version;
  contacts = some b.contact_items;
  messages = some b.message_items;
  chunks = some b.chunk_items;
}

module _ (p : Primitives) (f : FilePrimitives) where
  -- `decode_bundle`
  unfoldable pub decode_bundle : Bytes → Result String Bundle
  decode_bundle content = elim (f.bundle_loads content) [
    | none ↦ err "history bundle is not valid JSON"
    | some none ↦ err "unsupported history bundle version"
    | some (some raw) ↦
        if not (is_version raw.v)
        then err "unsupported history bundle version"
        else elim raw.contacts [
          | none ↦ err "history bundle is missing contacts"
          | some contacts ↦ elim raw.messages [
            | none ↦ err "history bundle is missing messages"
            | some messages ↦ elim raw.chunks [
              | none ↦ err "history bundle is missing chunks"
              | some chunks ↦ ok (record {
                contact_items = contacts;
                message_items = messages;
                chunk_items = chunks;
              })
            ]
          ]
        ]
  ]

  unfoldable pub assemble : Bytes → Option (Bytes × Bytes) → Result String Bytes
  assemble header_bytes none = err "uncaught"
  assemble header_bytes (some (nonce, ciphertext)) = ok (
      history_magic
      ++ history_version ∷ []
      ++ to_bytes4 (length header_bytes)
      ++ header_bytes
      ++ (nonce ++ ciphertext))

  -- The file of a bundle; `salt` and `nonce` are drawn.
  unfoldable pub export_history : Bytes → Bytes → Bundle → String → Result String Bytes
  export_history salt nonce bundle passphrase =
      let header : FileHeader = record {
        v = some history_version;
        kdf_salt = some (p.b64e salt);
        kdf_iterations = some pbkdf2_iterations;
      } in
      let plaintext = f.compress (f.bundle_dumps (raw_bundle bundle)) in
      if passphrase == ""
      then err "a passphrase is required to export history"
      else assemble (f.header_dumps header)
          (encrypt p nonce (f.derive_key passphrase salt pbkdf2_iterations) plaintext history_magic)

  unfoldable pub is_history_file : Bytes → Bool
  is_history_file content = take 4 content == history_magic

  unfoldable pub header_length : Bytes → ℕ
  header_length content = from_bytes (take 4 (drop 5 content))

  -- The fifth byte is missing in a file of the magic alone.
  unfoldable pub read_export_header : Bytes → Result String FileHeader
  read_export_header content =
      if not (is_history_file content)
      then err "not a noknowledge history file"
      else elim (get_elem? content 4) [
        | none ↦ err "history file is truncated"
        | some version ↦ elim (f.header_loads (take (header_length content) (drop 9 content))) [
          | none ↦ err "history file is truncated"
          | some header ↦
              if not (version == history_version) || not (is_version header.v)
              then err "unsupported history file version"
              else ok header
        ]
      ]

  unfoldable pub kdf_fields : FileHeader → Option (Bytes × ℕ)
  kdf_fields header = (header.kdf_salt >>=? p.b64d) >>=? λ salt.
      header.kdf_iterations >>=? λ iterations. some (salt, iterations)

  unfoldable pub open_body : String → Bytes → ℕ → Bytes → Result String Bundle
  open_body passphrase salt iterations body =
      if leb (length body) 12
      then err "history file is truncated"
      else elim (decrypt p (f.derive_key passphrase salt iterations) (take 12 body) (drop 12 body)
          history_magic) [
            | none ↦ err "wrong passphrase, or the file is damaged"
            | some plaintext ↦ elim (f.decompress plaintext) [
              | none ↦ err "history file is damaged"
              | some content ↦ decode_bundle content
            ]
          ]

  -- The bundle in a file.
  unfoldable pub read_history : Bytes → String → Result String Bundle
  read_history content passphrase = elim (read_export_header content) [
    | err e ↦ err e
    | ok header ↦
        if passphrase == ""
        then err "this history file needs its passphrase"
        else elim (kdf_fields header) [
          | none ↦ err "malformed history file header"
          | some (salt, iterations) ↦
              open_body passphrase salt iterations (drop (9 + header_length content) content)
        ]
  ]

  unfoldable pub import_history :
      (Bytes → Option Bytes)
      → (Option String → String)
      → String
      → (ℕ → String)
      → ℕ
      → Bytes
      → String
      → LocalStore
      → Result String Counts × LocalStore
  import_history decode digest identity_id random_id now content passphrase store =
      elim (read_history content passphrase) [
        | err e ↦ (err e, store)
        | ok bundle ↦ merge_bundle decode digest identity_id random_id now bundle store
      ]
