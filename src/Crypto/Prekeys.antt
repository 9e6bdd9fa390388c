-- ===== src/Crypto/Prekeys.antt =====
-- noknowledge/crypto/prekeys.py. An error is the text of a PrekeyError; an integer that does not
-- fit in four bytes is another exception, "uncaught".
use noknowledge.Base.{
  ℕ, String, Bytes, Bool, false, ◌||◌, not, Option, none, some, List, [], ◌∷◌, ◌++◌, ◌==◌, eq_ℕ,
  eq_Bytes, if◌then◌else◌, ltb, length,
}
use noknowledge.Base.Outcome.{Result, ok, err, ◌>>=?◌}
use noknowledge.Base.Slices.{to_bytes4}
use noknowledge.Crypto.Primitives.{Primitives}

-- Ed25519 and X25519 of an account: public keys by private ones, signing and verifying.
pub record Signatures : Type 0 where
  pub ed_public : Bytes → Bytes
  pub x_public : Bytes → Bytes
  pub sign : Bytes → Bytes → Bytes
  pub ed_verify : Bytes → Bytes → Bytes → Bool

-- The private keys of `Identity`
pub record Identity : Type 0 where
  pub ed : Bytes
  pub x : Bytes

-- b"nk/spk/v1"
abbrev pub spk_sign_info : Bytes
spk_sign_info = 110 ∷ 107 ∷ 47 ∷ 115 ∷ 112 ∷ 107 ∷ 47 ∷ 118 ∷ 49 ∷ []

abbrev pub bundle_version : ℕ
bundle_version = 1

abbrev pub bundle_id_size : ℕ
bundle_id_size = 16

abbrev pub max_opks : ℕ
max_opks = 100

pub record PrekeyBundle : Type 0 where
  pub bundle_id : Bytes
  pub isign : Bytes
  pub idh : Bytes
  pub spk_id : ℕ
  pub spk : Bytes
  pub spk_sig : Bytes
  pub opks : List (ℕ × Bytes)

-- The dict of a bundle; a field that is missing is `none`.
pub record BundleDict : Type 0 where
  pub v : Option ℕ
  pub bundle_id : Option Bytes
  pub isign : Option Bytes
  pub idh : Option Bytes
  pub spk_id : Option ℕ
  pub spk : Option Bytes
  pub spk_sig : Option Bytes
  pub opks : Option (List (ℕ × Bytes))

module _ (p : Primitives) where
  unfoldable pub encode_opks : List (ℕ × Bytes) → List (ℕ × Bytes)
  encode_opks [] = []
  encode_opks ((i, opk) ∷ opks) = (i, p.b64e opk) ∷ encode_opks opks

  unfoldable pub decode_opks : List (ℕ × Bytes) → Option (List (ℕ × Bytes))
  decode_opks [] = some []
  decode_opks ((i, opk) ∷ opks) = elim (p.b64d opk) [
    | none ↦ none
    | some opk' ↦ elim (decode_opks opks) [ none ↦ none | some rest ↦ some ((i, opk') ∷ rest) ]
  ]

  unfoldable pub to_dict : PrekeyBundle → BundleDict
  to_dict b = record {
    v = some bundle_version;
    bundle_id = some (p.b64e b.bundle_id);
    isign = some (p.b64e b.isign);
    idh = some (p.b64e b.idh);
    spk_id = some b.spk_id;
    spk = some (p.b64e b.spk);
    spk_sig = some (p.b64e b.spk_sig);
    opks = some (encode_opks b.opks);
  }

  unfoldable pub to_public_dict : PrekeyBundle → BundleDict
  to_public_dict b = record {
    v = some bundle_version;
    bundle_id = some (p.b64e b.bundle_id);
    isign = none;
    idh = none;
    spk_id = some b.spk_id;
    spk = some (p.b64e b.spk);
    spk_sig = some (p.b64e b.spk_sig);
    opks = some (encode_opks b.opks);
  }

  -- `b64d(data.get(..., ""))`
  unfoldable pub decode_or_empty : Option Bytes → Option Bytes
  decode_or_empty none = p.b64d []
  decode_or_empty (some text) = p.b64d text

  unfoldable pub read_bundle : BundleDict → Option PrekeyBundle
  read_bundle data' = (data'.bundle_id >>=? p.b64d) >>=? λ bundle_id.
      decode_or_empty data'.isign >>=? λ isign. decode_or_empty data'.idh >>=? λ idh.
      data'.spk_id >>=? λ spk_id. (data'.spk >>=? p.b64d) >>=? λ spk.
      (data'.spk_sig >>=? p.b64d) >>=? λ spk_sig.
      decode_opks (elim data'.opks [ none ↦ [] | some opks ↦ opks ]) >>=? λ opks. some (record {
        bundle_id = bundle_id;
        isign = isign;
        idh = idh;
        spk_id = spk_id;
        spk = spk;
        spk_sig = spk_sig;
        opks = opks;
      })

  unfoldable pub from_dict : BundleDict → Result String PrekeyBundle
  from_dict data' =
      if not (elim data'.v [ none ↦ false | some v ↦ v == bundle_version ])
      then err "unsupported bundle version"
      else elim (read_bundle data') [
        | none ↦ err "malformed prekey bundle"
        | some bundle ↦ ok bundle
      ]

  -- The identity keys come from the card.
  unfoldable pub from_public : BundleDict → Bytes → Bytes → Result String PrekeyBundle
  from_public data' isign idh = elim (from_dict data') [
    | err e ↦ err e
    | ok bundle ↦ ok (record bundle { isign = isign; idh = idh })
  ]

-- What the signature of a signed prekey is over; `none` is an OverflowError.
unfoldable pub spk_message : Bytes → ℕ → Bytes → Option Bytes
spk_message bundle_id spk_id spk =
    if ltb spk_id 4294967296
    then some (spk_sign_info ++ bundle_id ++ to_bytes4 spk_id ++ spk)
    else none

module _ (g : Signatures) where
  unfoldable pub spk_signature : Identity → Bytes → ℕ → Bytes → Option Bytes
  spk_signature identity bundle_id spk_id spk =
      spk_message bundle_id spk_id spk >>=? λ m. some (g.sign identity.ed m)

  unfoldable pub make_bundle :
      Identity → Bytes → ℕ → Bytes → List (ℕ × Bytes) → Result String PrekeyBundle
  make_bundle identity bundle_id spk_id spk_public opks =
      if not (length bundle_id == bundle_id_size)
      then err "bundle_id must be 16 bytes"
      else if ltb max_opks (length opks)
      then err "at most 100 one-time prekeys per bundle"
      else elim (spk_signature identity bundle_id spk_id spk_public) [
        | none ↦ err "uncaught"
        | some signature ↦ ok (record {
          bundle_id = bundle_id;
          isign = g.ed_public identity.ed;
          idh = g.x_public identity.x;
          spk_id = spk_id;
          spk = spk_public;
          spk_sig = signature;
          opks = opks;
        })
      ]

  -- `Identity.verify`
  unfoldable pub verify_signature : Bytes → Bytes → Bytes → Bool
  verify_signature ed_public signature m =
      if not (length ed_public == 32) || not (length signature == 64)
      then false
      else g.ed_verify ed_public signature m

  -- The error, if the bundle is not what the key of the card signed.
  unfoldable pub verify_bundle : PrekeyBundle → Bytes → Option String
  verify_bundle bundle expected_isign =
      if not (bundle.isign == expected_isign)
      then some "bundle identity key does not match the contact card"
      else if not (length bundle.spk == 32) || not (length bundle.idh == 32)
      then some "bundle contains malformed public keys"
      else elim (spk_message bundle.bundle_id bundle.spk_id bundle.spk) [
        | none ↦ some "uncaught"
        | some m ↦
            if not (verify_signature bundle.isign bundle.spk_sig m)
            then some "signed prekey signature is invalid"
            else none
      ]
