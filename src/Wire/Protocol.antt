-- ===== src/Wire/Protocol.antt =====
-- noknowledge/wire/protocol.py: a sealed envelope as it lies on a relay. A base64 text is its
-- ASCII bytes. The fields of an envelope and those of a handshake header are parameters.
pub mod Sealed
mod Tests
use noknowledge.Base.{ℕ, Bytes, Bool, false, Option, none, some, ◌==◌, eq_ℕ, not, if◌then◌else◌}
use noknowledge.Base.Outcome.{Result, ok, err, raise, ◌>>=?◌}
use noknowledge.Crypto.Primitives.{Primitives, Header}
use noknowledge.Crypto.Padding.{PaddingError, bucket_size, pad_envelope, unpad_envelope}
use noknowledge.Crypto.Ratchet.{RatchetState, RatchetError, encrypt, decrypt}

abbrev pub wire_version : ℕ
wire_version = 1

abbrev pub default_max : ℕ
default_max = 2048

-- The object of `build_wire` and `parse_wire`. A field is `none` where it is missing; a value that
-- is no text, or no header, is `some none`.
pub record WireMessage (I : Type 0) : Type 0 where
  pub v : Option ℕ
  pub sid : Option (Option Bytes)
  pub hdr : Option (Option Header)
  pub nonce : Option (Option Bytes)
  pub ct : Option (Option Bytes)
  pub init : Option I

-- The JSON of handshake headers `I` and of envelopes `E`; `B` is the type of the blobs that
-- `canonical_json` writes and relays carry. `loads` is `none` for a blob that is no
-- UTF-8 or no JSON, and `some none` for a value that is no object. `envelope_json` takes the `pad`
-- field, and `envelope_loads` reads it as `unpad_envelope` does. `context` is a handshake header, or
-- None, as the ratchet takes it.
pub record WireJson (I E B : Type 0) : Type 0 where
  pub dumps : WireMessage I → B
  pub loads : B → Option (Option (WireMessage I))
  pub context : Option I → Bytes
  pub envelope_json : E → Bytes → Bytes
  pub envelope_loads : Bytes → Option (Option (E × Option Bytes))

-- `uncaught` is an exception of `unseal` that is no WireError.
pub data ProtocolError : Type 0 where
  not_json unsupported_version missing_field not_opened uncaught : ProtocolError
  padding_error : PaddingError → ProtocolError
  ratchet_error : RatchetError → ProtocolError

abbrev pub Sealing : Type 0 → Type 0
Sealing A = RatchetState → Result ProtocolError A × RatchetState

-- The four fields that `parse_wire` finds.
pub record Parsed (I : Type 0) : Type 0 where
  pub sid : Option Bytes
  pub hdr : Option Header
  pub nonce : Option Bytes
  pub ct : Option Bytes
  pub init : Option I

unfoldable pub has_version : Option ℕ → Bool
has_version none = false
has_version (some v) = v == wire_version

unfoldable pub limit_of : Option ℕ → ℕ
limit_of none = default_max
limit_of (some max_size) = max_size

module _ {I E B : Type 0} (p : Primitives) (j : WireJson I E B) where
  abbrev pub wire_object : Bytes → Header → Bytes → Bytes → Option I → WireMessage I
  wire_object sid header nonce ciphertext init = record {
    v = some wire_version;
    sid = some (some (p.b64e sid));
    hdr = some (some header);
    nonce = some (some (p.b64e nonce));
    ct = some (some (p.b64e ciphertext));
    init = init;
  }

  unfoldable pub build_wire : Bytes → Header → Bytes → Bytes → Option I → B
  build_wire sid header nonce ciphertext init =
      j.dumps (wire_object sid header nonce ciphertext init)

  unfoldable pub wire_fields : WireMessage I → Option (Parsed I)
  wire_fields wire = wire.sid >>=? λ sid. wire.hdr >>=? λ hdr. wire.nonce >>=? λ nonce.
      wire.ct >>=? λ ct.
      some (record { sid = sid; hdr = hdr; nonce = nonce; ct = ct; init = wire.init })

  unfoldable pub parse_wire : B → Result ProtocolError (Parsed I)
  unfolding wire_fields has_version
  parse_wire blob = elim (j.loads blob) [
    | none ↦ err not_json
    | some none ↦ err unsupported_version
    | some (some wire) ↦
        if not (has_version wire.v)
        then err unsupported_version
        else elim (wire_fields wire) [ none ↦ err missing_field | some parsed ↦ ok parsed ]
  ]

  -- `choice` gives the characters of the padding, `fresh_nonce` is the nonce of the cipher.
  unfoldable pub seal : (ℕ → ℕ) → Bytes → E → Bytes → Option I → Option ℕ → Sealing B
  unfolding build_wire limit_of
  seal choice fresh_nonce envelope sid init max_size s =
      elim (pad_envelope (j.envelope_json envelope) choice bucket_size (some (limit_of max_size))) [
        | err e ↦ (err (padding_error e), s)
        | ok plaintext ↦
            let (r, s') = encrypt p fresh_nonce plaintext (j.context init) s in
            elim r [
              | err e ↦ (err (ratchet_error e), s')
              | ok (header, nonce, ciphertext) ↦
                  (ok (build_wire sid header nonce ciphertext init), s')
            ]
      ]

  -- The envelope and the session id are read after the ratchet has moved, outside the `try`.
  unfoldable pub read_opened : Parsed I → Bytes → Sealing (E × Bytes × Option I)
  read_opened wire plaintext s = elim (unpad_envelope j.envelope_loads plaintext) [
    | err _ ↦ (err uncaught, s)
    | ok envelope ↦ elim (wire.sid >>=? p.b64d) [
      | none ↦ (err uncaught, s)
      | some sid ↦ (ok (envelope, sid, wire.init), s)
    ]
  ]

  unfoldable pub open_wire : Bytes × Bytes → Parsed I → Sealing (E × Bytes × Option I)
  unfolding read_opened
  open_wire fresh wire s = elim (wire.nonce >>=? p.b64d) [
    | none ↦ (err not_opened, s)
    | some nonce ↦ elim (wire.ct >>=? p.b64d) [
      | none ↦ (err not_opened, s)
      | some ct ↦
          let (r, s') = decrypt p fresh wire.hdr nonce ct (j.context wire.init) s in
          elim r [ err e ↦ (err not_opened, s') | ok plaintext ↦ read_opened wire plaintext s' ]
    ]
  ]

  -- `fresh` is the key pair that the ratchet draws.
  unfoldable pub unseal : Bytes × Bytes → B → Sealing (E × Bytes × Option I)
  unfolding parse_wire open_wire
  unseal fresh blob s = elim (parse_wire blob) [
    | err e ↦ (err e, s)
    | ok wire ↦ open_wire fresh wire s
  ]
