-- ===== src/Core/Channel.antt =====
-- noknowledge/core/device_channel.py: the records that the devices of one account send one another.
-- An error is the text of a SyncError; `none` of an exchange or an integer that does not fit is
-- another exception, `uncaught` here.
pub mod Frames
pub mod Opening
use noknowledge.Base.{
  ℕ, suc, zero, ◌+◌, String, Bytes, Bool, true, false, ◌&&◌, ◌||◌, not, Option, none, some, List,
  [], ◌∷◌, ◌++◌, ◌==◌, eq_String, eq_ℕ, eq_Bytes, if◌then◌else◌, ltb, leb, take, drop, length,
}
use noknowledge.Base.Outcome.{Result, ok, err, ◌>>=?◌}
use noknowledge.Crypto.Primitives.{Primitives}
use noknowledge.Crypto.Aead.{encrypt, decrypt}
use noknowledge.Base.Slices.{to_bytes4, from_bytes, get_elem?}

-- The header of a record; a field that is missing is `none`. A field of another JSON type is
-- outside the model.
pub record DeviceHeader : Type 0 where
  pub v : Option ℕ
  pub transfer : Option String
  pub from : Option String
  pub eph : Option Bytes
  pub ts : Option ℕ
  pub seq : Option ℕ
  pub count : Option ℕ
  pub chain : Option String
  pub since : Option ℕ
  pub until : Option ℕ
  pub sig : Option Bytes

-- A field of `header.update(extra)`.
abbrev pub updated : {A : Type 0} → Option A → Option A → Option A
updated old none = old
updated old (some new) = some new

unfoldable pub update_header : DeviceHeader → DeviceHeader → DeviceHeader
update_header header extra = record {
  v = updated header.v extra.v;
  transfer = updated header.transfer extra.transfer;
  from = updated header.from extra.from;
  eph = updated header.eph extra.eph;
  ts = updated header.ts extra.ts;
  seq = updated header.seq extra.seq;
  count = updated header.count extra.count;
  chain = updated header.chain extra.chain;
  since = updated header.since extra.since;
  until = updated header.until extra.until;
  sig = updated header.sig extra.sig;
}

-- What the module takes from json, cryptography and hashlib: `loads` gives `none` for text that
-- is no JSON and `some none` for JSON that is no object.
pub record DevicePrimitives : Type 0 where
  pub dumps : DeviceHeader → Bytes
  pub loads : Bytes → Option (Option DeviceHeader)
  pub utf8 : String → Bytes
  pub agreement_public : Bytes → Bytes
  pub sign : Bytes → Bytes → Bytes
  pub verify : Bytes → Bytes → Bytes → Bool
  pub sha256 : Bytes → Bytes
  pub hex : Bytes → String
  pub from_hex : String → Bytes

-- b"NKS1"
abbrev pub magic : Bytes
magic = 78 ∷ 75 ∷ 83 ∷ 49 ∷ []

abbrev pub version : ℕ
version = 1

abbrev pub prefix_bytes : ℕ
prefix_bytes = 12

unfoldable pub is_device_record : Bytes → Bool
is_device_record blob = leb prefix_bytes (length blob) && take 4 blob == magic

unfoldable pub frame_bytes : ℕ → Bytes → Bytes → Bytes
frame_bytes kind header_bytes payload =
    magic
    ++ version ∷ kind ∷ 0 ∷ 0 ∷ []
    ++ to_bytes4 (length header_bytes)
    ++ header_bytes
    ++ payload

-- The byte at an index that is there.
unfoldable pub byte_at : Bytes → ℕ → ℕ
byte_at blob i = elim (get_elem? blob i) [ none ↦ 0 | some b ↦ b ]

-- b"nk/devices/v1/sync"
abbrev pub device_sync_info : Bytes
device_sync_info =
    110 ∷ 107 ∷ 47 ∷ 100 ∷ 101 ∷ 118 ∷ 105 ∷ 99 ∷ 101 ∷ 115 ∷ 47 ∷ 118 ∷ 49 ∷ 47 ∷ 115 ∷ 121 ∷ 110
    ∷ 99 ∷ []

-- b"nk/devices/v1/sync/item"
abbrev pub device_sync_item_info : Bytes
device_sync_item_info =
    110 ∷ 107 ∷ 47 ∷ 100 ∷ 101 ∷ 118 ∷ 105 ∷ 99 ∷ 101 ∷ 115 ∷ 47 ∷ 118 ∷ 49 ∷ 47 ∷ 115 ∷ 121 ∷ 110
    ∷ 99 ∷ 47 ∷ 105 ∷ 116 ∷ 101 ∷ 109 ∷ []

module _ (p : Primitives) (d : DevicePrimitives) where
  unfoldable pub frame : ℕ → DeviceHeader → Bytes → Bytes
  frame kind header payload = frame_bytes kind (d.dumps header) payload

  unfoldable pub parse_record : Bytes → Result String (ℕ × DeviceHeader × Bytes)
  parse_record blob =
      let header_len = from_bytes (take 4 (drop 8 blob)) in
      if not (is_device_record blob)
      then err "not a device record"
      else if not (byte_at blob 4 == version)
      then err "unsupported device record version"
      else if header_len == 0 || ltb (length blob) (prefix_bytes + header_len)
      then err "device record is truncated"
      else elim (d.loads (take header_len (drop prefix_bytes blob))) [
        | none ↦ err "device record header is malformed"
        | some none ↦ err "device record header is not an object"
        | some (some header) ↦ ok (byte_at blob 5, header, drop (prefix_bytes + header_len) blob)
      ]

  unfoldable pub transfer_key : Bytes → String → Bytes
  transfer_key shared transfer_id = p.hkdf shared (d.utf8 transfer_id) device_sync_info 32

  -- `none` is an OverflowError.
  unfoldable pub item_key : Bytes → ℕ → Option Bytes
  item_key key seq =
      if ltb seq 4294967296
      then some (p.hkdf key [] (device_sync_item_info ++ to_bytes4 seq) 32)
      else none

  -- `_unsigned`
  unfoldable pub unsigned : DeviceHeader → DeviceHeader
  unsigned header = record header { sig = none }

  -- The fields before the signature; `now_ms` is the time and `extra` is added last.
  unfoldable pub record_header :
      Bytes → ℕ → String → String → ℕ → Option DeviceHeader → DeviceHeader
  unfolding update_header
  record_header ephemeral_private now_ms sender_device_id transfer_id seq extra =
      let header : DeviceHeader = record {
        v = some version;
        transfer = some transfer_id;
        from = some sender_device_id;
        eph = some (p.b64e (d.agreement_public ephemeral_private));
        ts = some now_ms;
        seq = some seq;
        count = none;
        chain = none;
        since = none;
        until = none;
        sig = none;
      } in
      elim extra [ none ↦ header | some fields ↦ update_header header fields ]

  unfoldable pub signed_header :
      Bytes → Bytes → ℕ → String → String → ℕ → Option DeviceHeader → DeviceHeader
  unfolding unsigned record_header
  signed_header sender_sdev_private ephemeral_private now_ms sender_device_id transfer_id seq
        extra =
      let header = record_header ephemeral_private now_ms sender_device_id transfer_id seq extra in
      record header { sig = some (p.b64e (d.sign sender_sdev_private (d.dumps (unsigned header)))) }

  -- `ephemeral_private` and `nonce` are fresh.
  unfoldable pub seal_record :
      Bytes
      → Bytes
      → ℕ
      → ℕ
      → Bytes
      → Bytes
      → String
      → Bytes
      → String
      → ℕ
      → Option DeviceHeader
      → Option Bytes
  seal_record ephemeral_private nonce now_ms kind plaintext recipient_sagree sender_device_id
        sender_sdev_private transfer_id seq extra =
      elim (p.exchange ephemeral_private recipient_sagree) [
        | none ↦ none
        | some shared ↦
            let signed =
              signed_header sender_sdev_private ephemeral_private now_ms sender_device_id
                transfer_id seq extra in
            elim (item_key (transfer_key shared transfer_id) seq) [
              | none ↦ none
              | some key ↦ elim (encrypt p nonce key plaintext (d.dumps signed)) [
                | none ↦ none
                | some (nonce', ciphertext) ↦ some (frame kind signed (nonce' ++ ciphertext))
              ]
            ]
      ]

  -- `str(header.get(...))`
  unfoldable pub shown : Option String → String
  shown none = "None"
  shown (some text) = text

  unfoldable pub or_nought : Option ℕ → ℕ
  or_nought none = 0
  or_nought (some n) = n

  -- Signature, ephemeral key, transfer and number; `none` where one is missing or is no base64.
  unfoldable pub header_fields : DeviceHeader → Option (Bytes × Bytes × String × ℕ)
  unfolding or_nought
  header_fields header = elim (header.sig >>=? p.b64d) [
    | none ↦ none
    | some signature ↦ elim (header.eph >>=? p.b64d) [
      | none ↦ none
      | some ephemeral ↦ elim header.transfer [
        | none ↦ none
        | some transfer_id ↦ some (signature, ephemeral, transfer_id, or_nought header.seq)
      ]
    ]
  ]

  -- What is done once the header is read and its signature holds.
  unfoldable pub open_payload :
      Bytes → DeviceHeader → Bytes → Bytes → String → ℕ → Result String Bytes
  open_payload my_sagree_private header payload ephemeral transfer_id seq =
      elim (p.exchange my_sagree_private ephemeral) [
        | none ↦ err "uncaught"
        | some shared ↦
            if leb (length payload) 12
            then err "device record payload is truncated"
            else elim (item_key (transfer_key shared transfer_id) seq) [
              | none ↦ err "uncaught"
              | some key ↦
                  elim (decrypt p key (take 12 payload) (drop 12 payload) (d.dumps header)) [
                    | none ↦ err "device record could not be opened"
                    | some plaintext ↦ ok plaintext
                  ]
            ]
      ]

  unfoldable pub open_record :
      Bytes → Bytes → Bytes → String → Result String (ℕ × DeviceHeader × Bytes)
  open_record blob my_sagree_private sender_sdev sender_device_id = elim (parse_record blob) [
    | err e ↦ err e
    | ok (kind, header, payload) ↦
        if not (shown header.from == sender_device_id)
        then err "device record is from an unexpected device"
        else elim (header_fields header) [
          | none ↦ err "device record header is incomplete"
          | some (signature, ephemeral, transfer_id, seq) ↦
              if not (d.verify sender_sdev signature (d.dumps (unsigned header)))
              then err "device record signature is invalid"
              else elim (open_payload my_sagree_private header payload ephemeral transfer_id seq) [
                | err e ↦ err e
                | ok plaintext ↦ ok (kind, header, plaintext)
              ]
        ]
  ]

-- `HashChain`, by its digest.
module _ (d : DevicePrimitives) where
  unfoldable pub chain_start : String → String → Bytes
  chain_start seed resumed = if resumed == "" then d.sha256 (d.utf8 seed) else d.from_hex resumed

  unfoldable pub chain_add : Bytes → ℕ → Bytes → Bytes
  chain_add item_bytes seq digest = d.sha256 (digest ++ to_bytes4 seq ++ item_bytes)

  unfoldable pub hexdigest : Bytes → String
  hexdigest digest = d.hex digest
