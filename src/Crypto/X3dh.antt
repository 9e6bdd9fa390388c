-- ===== src/Crypto/X3dh.antt =====
-- noknowledge/crypto/x3dh.py: the handshake, and the proof of who began it. An error is the text
-- of a HandshakeError, "uncaught" another exception.
pub mod Agreement
mod Tests
use noknowledge.Base.{
  ℕ, String, Bytes, Bool, true, false, ◌&&◌, ◌||◌, not, Option, none, some, List, [], ◌∷◌, ◌++◌,
  ◌==◌, eq_ℕ, eq_Bytes, eq_String, if◌then◌else◌, length,
}
use noknowledge.Base.Outcome.{Result, ok, err, ◌>>=?◌}
use noknowledge.Crypto.Primitives.{Primitives}
use noknowledge.Crypto.Prekeys.{Signatures, Identity, PrekeyBundle, verify_bundle, verify_signature}

-- `F`, 32 bytes of 255
abbrev pub domain_bytes : Bytes
domain_bytes =
    255 ∷ 255 ∷ 255 ∷ 255 ∷ 255 ∷ 255 ∷ 255 ∷ 255 ∷ 255 ∷ 255 ∷ 255 ∷ 255 ∷ 255 ∷ 255 ∷ 255 ∷ 255
    ∷ 255 ∷ 255 ∷ 255 ∷ 255 ∷ 255 ∷ 255 ∷ 255 ∷ 255 ∷ 255 ∷ 255 ∷ 255 ∷ 255 ∷ 255 ∷ 255 ∷ 255 ∷ 255
    ∷ []

abbrev pub zero_salt : Bytes
zero_salt =
    0 ∷ 0 ∷ 0 ∷ 0 ∷ 0 ∷ 0 ∷ 0 ∷ 0 ∷ 0 ∷ 0 ∷ 0 ∷ 0 ∷ 0 ∷ 0 ∷ 0 ∷ 0 ∷ 0 ∷ 0 ∷ 0 ∷ 0 ∷ 0 ∷ 0 ∷ 0 ∷ 0
    ∷ 0 ∷ 0 ∷ 0 ∷ 0 ∷ 0 ∷ 0 ∷ 0 ∷ 0 ∷ []

-- b"noknowledge/x3dh/v1"
abbrev pub x3dh_info : Bytes
x3dh_info =
    110 ∷ 111 ∷ 107 ∷ 110 ∷ 111 ∷ 119 ∷ 108 ∷ 101 ∷ 100 ∷ 103 ∷ 101 ∷ 47 ∷ 120 ∷ 51 ∷ 100 ∷ 104 ∷ 47
    ∷ 118 ∷ 49 ∷ []

-- b"nk/auth/v1"
abbrev pub auth_sign_info : Bytes
auth_sign_info = 110 ∷ 107 ∷ 47 ∷ 97 ∷ 117 ∷ 116 ∷ 104 ∷ 47 ∷ 118 ∷ 49 ∷ []

-- b"nk/sk-commit/v1"
abbrev pub sk_commit_info : Bytes
sk_commit_info =
    110 ∷ 107 ∷ 47 ∷ 115 ∷ 107 ∷ 45 ∷ 99 ∷ 111 ∷ 109 ∷ 109 ∷ 105 ∷ 116 ∷ 47 ∷ 118 ∷ 49 ∷ []

abbrev pub init_version : ℕ
init_version = 1

pub record Initiation : Type 0 where
  pub ek_public : Bytes
  pub ek_private : Bytes
  pub spk_id : ℕ
  pub opk_id : Option ℕ
  pub sk : Bytes

pub record InitDict : Type 0 where
  pub ek : Bytes
  pub spk_id : ℕ
  pub opk_id : Option ℕ

module _ (p : Primitives) (g : Signatures) where
  unfoldable pub init_dict : Initiation → InitDict
  init_dict i = record { ek = p.b64e i.ek_public; spk_id = i.spk_id; opk_id = i.opk_id }

  unfoldable pub session_key : Bytes → Bytes → Bytes → Bytes
  session_key dh1 dh2 dh3 = p.hkdf (domain_bytes ++ dh1 ++ dh2 ++ dh3) zero_salt x3dh_info 32

  -- The third exchange and the id of its key, of the first one-time prekey if there is one.
  unfoldable pub first_opk : Bytes → List (ℕ × Bytes) → Option (Bytes × Option ℕ)
  first_opk ephemeral [] = some ([], none)
  first_opk ephemeral ((i, opk) ∷ _) = p.exchange ephemeral opk >>=? λ dh3. some (dh3, some i)

  -- `ephemeral` is the private key that is generated.
  unfoldable pub exchange_all : Bytes → PrekeyBundle → Option Initiation
  exchange_all ephemeral bundle = p.exchange ephemeral bundle.idh >>=? λ dh1.
      p.exchange ephemeral bundle.spk >>=? λ dh2.
      first_opk ephemeral bundle.opks >>=? λ (dh3, opk_id). some (record {
        ek_public = g.x_public ephemeral;
        ek_private = ephemeral;
        spk_id = bundle.spk_id;
        opk_id = opk_id;
        sk = session_key dh1 dh2 dh3;
      })

  unfoldable pub initiate : Bytes → PrekeyBundle → Bytes → Bytes → Result String Initiation
  initiate ephemeral bundle expected_isign expected_idh =
      elim (verify_bundle g bundle expected_isign) [
        | some e ↦ err e
        | none ↦
            if not (bundle.idh == expected_idh)
            then err "bundle identity key disagrees with the contact card"
            else elim (exchange_all ephemeral bundle) [
              | none ↦ err "malformed X25519 public key"
              | some i ↦ ok i
            ]
      ]

  -- `... if opk_private else b""`
  unfoldable pub third_exchange : Option Bytes → Bytes → Option Bytes
  third_exchange none ek_public = some []
  third_exchange (some []) ek_public = some []
  third_exchange (some (b ∷ bs)) ek_public = p.exchange (b ∷ bs) ek_public

  unfoldable pub respond : Bytes → Bytes → Option Bytes → Bytes → Option Bytes
  respond identity_x_private signed_prekey_private opk_private ek_public =
      p.exchange identity_x_private ek_public >>=? λ dh1.
      p.exchange signed_prekey_private ek_public >>=? λ dh2.
      third_exchange opk_private ek_public >>=? λ dh3. some (session_key dh1 dh2 dh3)

-- The proof in the first message; a field that is missing is `none`.
pub record Auth : Type 0 where
  pub v : Option ℕ
  pub id : Option String
  pub isign : Option Bytes
  pub idh : Option Bytes
  pub sk_commit : Option Bytes
  pub sig : Option Bytes

-- `sha256`, `canonical_json` of the init dict, and `compute_identity_id`.
pub record AuthPrimitives : Type 0 where
  pub sha256 : Bytes → Bytes
  pub init_json : InitDict → Bytes
  pub compute_identity_id : Bytes → Bytes → String

module _ (p : Primitives) (g : Signatures) (a : AuthPrimitives) where
  unfoldable pub sk_commitment : Bytes → Bytes
  sk_commitment sk = a.sha256 (sk_commit_info ++ sk)

  unfoldable pub auth_message : Bytes → InitDict → Bytes → Bytes
  auth_message sid init commit = auth_sign_info ++ sid ++ a.init_json init ++ commit

  unfoldable pub build_auth : Identity → Bytes → InitDict → Bytes → Auth
  unfolding sk_commitment auth_message
  build_auth identity sid init sk =
      let commit = sk_commitment sk in
      record {
        v = some init_version;
        id = some (a.compute_identity_id (g.ed_public identity.ed) (g.x_public identity.x));
        isign = some (p.b64e (g.ed_public identity.ed));
        idh = some (p.b64e (g.x_public identity.x));
        sk_commit = some (p.b64e commit);
        sig = some (p.b64e (g.sign identity.ed (auth_message sid init commit)));
      }

  -- The commitment, the keys and the signature.
  unfoldable pub auth_fields : Auth → Option (Bytes × Bytes × Bytes × Bytes)
  auth_fields auth = (auth.sk_commit >>=? p.b64d) >>=? λ commit.
      (auth.isign >>=? p.b64d) >>=? λ isign. (auth.idh >>=? p.b64d) >>=? λ idh.
      (auth.sig >>=? p.b64d) >>=? λ sig. some (commit, isign, idh, sig)

  -- Every exception of it is a refusal.
  unfoldable pub verify_auth : Auth → Bytes → InitDict → Bytes → Bool
  verify_auth auth sid init sk =
      let expected_commit = sk_commitment sk in
      elim (auth_fields auth) [
        | none ↦ false
        | some (commit, isign, idh, sig) ↦
            elim auth.v [ none ↦ false | some v ↦ v == init_version ]
            && commit == expected_commit
            && elim auth.id [ none ↦ false | some id ↦ a.compute_identity_id isign idh == id ]
            && verify_signature g isign sig (auth_message sid init expected_commit)
      ]
