-- ===== src/Crypto/X3dh/Agreement.antt =====
-- noknowledge/crypto/x3dh.py and prekeys.py: what one side makes, the other side takes.
use noknowledge.Base.{
  ℕ, Bytes, true, false, Option, none, some, List, [], ◌∷◌, ◌==◌, eq_ℕ, eq_Bytes, eq_String, length,
  ◌≡◌, refl, ap, ◌∙◌, arith, eq_self, bytes_eq, inl, inr, Option-cases,
}
use noknowledge.Base.Outcome.{ok, ◌>>=?◌}
use noknowledge.Crypto.Primitives.{Primitives, Laws}
use noknowledge.Crypto.Prekeys.{
  Signatures, Identity, PrekeyBundle, verify_bundle, verify_signature, make_bundle, spk_signature,
  spk_message, encode_opks, decode_opks, to_public_dict, decode_or_empty, read_bundle, from_dict,
  from_public,
}
use noknowledge.Crypto.X3dh.{
  Initiation, InitDict, first_opk, exchange_all, initiate, third_exchange, respond, AuthPrimitives,
  sk_commitment, auth_message, build_auth, auth_fields, verify_auth,
}

module _ (p : Primitives) (laws : Laws p) where
  decode_opks-encode_opks :
      (opks : List (ℕ × Bytes)) → decode_opks p (encode_opks p opks) ≡ some opks
  unfolding encode_opks decode_opks
  decode_opks-encode_opks [] = refl
  decode_opks-encode_opks ((i, opk) ∷ opks) =
      ground (arith, laws.decodes opk, decode_opks-encode_opks opks)

  -- A bundle that is published without its identity keys is read back whole with the keys of the
  -- card, where base64 decodes the empty text.
  pub from_public-to_public_dict :
      (b : PrekeyBundle) (empty : Bytes)
      → p.b64d [] ≡ some empty
      → from_public p (to_public_dict p b) b.isign b.idh ≡ ok b
  unfolding from_public from_dict read_bundle to_public_dict decode_or_empty
  from_public-to_public_dict b empty h = ground (
    arith,
    h,
    laws.decodes b.bundle_id,
    laws.decodes b.spk,
    laws.decodes b.spk_sig,
    decode_opks-encode_opks b.opks,
  )

module _ (p : Primitives) (g : Signatures)
    (verifies : (k m : Bytes) → g.ed_verify (g.ed_public k) (g.sign k m) m ≡ true)
    (ed_size : (k : Bytes) → length (g.ed_public k) ≡ 32)
    (x_size : (k : Bytes) → length (g.x_public k) ≡ 32)
    (sign_size : (k m : Bytes) → length (g.sign k m) ≡ 64)
    (commutes : (a b : Bytes) → p.exchange a (g.x_public b) ≡ p.exchange b (g.x_public a)) where
  signature_holds : (k m : Bytes) → verify_signature g (g.ed_public k) (g.sign k m) m ≡ true
  unfolding verify_signature
  signature_holds k m = ground (arith, verifies k m, ed_size k, sign_size k m)

  verify_bundle-make_bundle :
      (identity : Identity) (bundle_id : Bytes) (spk_id : ℕ) (spk : Bytes) (opks : List (ℕ × Bytes))
      (bundle : PrekeyBundle)
      → make_bundle g identity bundle_id spk_id (g.x_public spk) opks ≡ ok bundle
      → verify_bundle g bundle (g.ed_public identity.ed) ≡ none
  unfolding make_bundle verify_bundle spk_signature
  verify_bundle-make_bundle identity bundle_id spk_id spk opks bundle h =
      elim (Option-cases (spk_message bundle_id spk_id (g.x_public spk))) [
        | inl e ↦ ground (arith, e, h)
        | inr (m, e) ↦ ground (
          arith,
          e,
          h,
          signature_holds identity.ed m,
          x_size spk,
          x_size identity.x,
          eq_self (g.ed_public identity.ed),
        )
      ]

  -- The one-time prekeys of the owner, by their private halves.
  abbrev pub published : List (ℕ × Bytes) → List (ℕ × Bytes)
  published [] = []
  published ((i, k) ∷ keys) = (i, g.x_public k) ∷ published keys

  abbrev pub first_private : List (ℕ × Bytes) → Option Bytes
  first_private [] = none
  first_private ((i, k) ∷ _) = some k

  abbrev pub first_id : List (ℕ × Bytes) → Option ℕ
  first_id [] = none
  first_id ((i, _) ∷ _) = some i

  abbrev pub FirstKey : List (ℕ × Bytes) → Type 0
  FirstKey [] = Unit
  FirstKey ((_, k) ∷ _) = (k == []) ≡ false

  -- The third exchange is the same on both sides.
  third_agrees :
      (ephemeral : Bytes) (keys : List (ℕ × Bytes))
      → FirstKey keys
      → first_opk p g ephemeral (published keys) ≡ (
          third_exchange p g (first_private keys) (g.x_public ephemeral) >>=? λ dh3.
          some (dh3, first_id keys))
  unfolding first_opk third_exchange bytes_eq
  third_agrees ephemeral [] h = refl
  third_agrees ephemeral ((i, []) ∷ keys) h = ground arith
  third_agrees ephemeral ((i, b ∷ bs) ∷ keys) h = ground (arith, commutes ephemeral (b ∷ bs))

  made :
      (identity : Identity) (bundle_id : Bytes) (spk_id : ℕ) (spk : Bytes) (opks : List (ℕ × Bytes))
      (bundle : PrekeyBundle)
      → make_bundle g identity bundle_id spk_id spk opks ≡ ok bundle
      → (bundle.idh ≡ g.x_public identity.x)
        × (bundle.spk ≡ spk)
        × (bundle.spk_id ≡ spk_id)
        × (bundle.opks ≡ opks)
  unfolding make_bundle
  made identity bundle_id spk_id spk opks bundle h =
      elim (Option-cases (spk_signature g identity bundle_id spk_id spk)) [
        | inl e ↦ ground (arith, e, h)
        | inr (m, e) ↦ ground (arith, e, h)
      ]

  both_agree :
      (ephemeral x spk : Bytes) (spk_id : ℕ) (keys : List (ℕ × Bytes)) (bundle : PrekeyBundle)
      (i : Initiation)
      → FirstKey keys
      → bundle.idh ≡ g.x_public x
      → bundle.spk ≡ g.x_public spk
      → bundle.spk_id ≡ spk_id
      → bundle.opks ≡ published keys
      → exchange_all p g ephemeral bundle ≡ some i
      → (respond p g x spk (first_private keys) i.ek_public ≡ some i.sk)
        × (i.opk_id ≡ first_id keys)
        × (i.spk_id ≡ spk_id)
  unfolding exchange_all respond
  both_agree ephemeral x spk spk_id keys bundle i first idh pre id opks h =
      let third = ap (first_opk p g ephemeral) opks ∙ third_agrees ephemeral keys first in
      let one = ap (p.exchange ephemeral) idh ∙ commutes ephemeral x in
      let two = ap (p.exchange ephemeral) pre ∙ commutes ephemeral spk in
      elim (Option-cases (p.exchange x (g.x_public ephemeral))) [
        | inl e ↦ ground (arith, one, e, h)
        | inr (dh1, e) ↦ elim (Option-cases (p.exchange spk (g.x_public ephemeral))) [
          | inl e' ↦ ground (arith, one, two, e, e', h)
          | inr (dh2, e') ↦
              elim (Option-cases (third_exchange p g (first_private keys) (g.x_public ephemeral))) [
                | inl e'' ↦ ground (arith, one, two, third, e, e', e'', h)
                | inr (dh3, e'') ↦ ground (arith, one, two, third, e, e', e'', h, id)
              ]
        ]
      ]

  initiates :
      (ephemeral : Bytes) (bundle : PrekeyBundle) (isign idh : Bytes) (i : Initiation)
      → verify_bundle g bundle isign ≡ none
      → bundle.idh ≡ idh
      → exchange_all p g ephemeral bundle ≡ some i
      → initiate p g ephemeral bundle isign idh ≡ ok i
  unfolding initiate
  initiates ephemeral bundle isign idh i v k e = ground (arith, v, k, e, eq_self idh)

  -- A bundle that its owner made passes the check of an initiator who knows the owner's identity
  -- keys. Where the exchanges of the initiator give a result, `initiate` returns it, and the owner's
  -- answer to the initiator's key is the same session key, with the private half of the one-time
  -- prekey that the initiator names, if that half is no empty text, or with none where none is left.
  pub respond-initiate :
      (identity : Identity) (bundle_id spk ephemeral : Bytes) (spk_id : ℕ) (keys : List (ℕ × Bytes))
      (bundle : PrekeyBundle) (i : Initiation)
      → FirstKey keys
      → make_bundle g identity bundle_id spk_id (g.x_public spk) (published keys) ≡ ok bundle
      → exchange_all p g ephemeral bundle ≡ some i
      → (verify_bundle g bundle (g.ed_public identity.ed) ≡ none)
        × (initiate p g ephemeral bundle (g.ed_public identity.ed) (g.x_public identity.x) ≡ ok i)
        × (respond p g identity.x spk (first_private keys) i.ek_public ≡ some i.sk)
        × (i.opk_id ≡ first_id keys)
        × (i.spk_id ≡ spk_id)
  respond-initiate identity bundle_id spk ephemeral spk_id keys bundle i first h e =
      let (idh, pre, id, opks) =
        made identity bundle_id spk_id (g.x_public spk) (published keys) bundle h in
      let (agree, opk, spk') =
        both_agree ephemeral identity.x spk spk_id keys bundle i first idh pre id opks e in
      let sound =
        verify_bundle-make_bundle identity bundle_id spk_id spk (published keys) bundle h in
      (
        sound,
        initiates ephemeral bundle (g.ed_public identity.ed) (g.x_public identity.x) i sound idh e,
        agree,
        opk,
        spk',
      )

  -- The proof that an account builds for a session is accepted for that session, its handshake
  -- and its key.
  pub verify_auth-build_auth :
      (a : AuthPrimitives) (laws : Laws p) (identity : Identity) (sid sk : Bytes) (init : InitDict)
      → verify_auth p g a (build_auth p g a identity sid init sk) sid init sk ≡ true
  unfolding verify_auth build_auth auth_fields
  verify_auth-build_auth a laws identity sid sk init = ground (
    arith,
    laws.decodes (sk_commitment p g a sk),
    laws.decodes (g.ed_public identity.ed),
    laws.decodes (g.x_public identity.x),
    laws.decodes (g.sign identity.ed (auth_message p g a sid init (sk_commitment p g a sk))),
    signature_holds identity.ed (auth_message p g a sid init (sk_commitment p g a sk)),
    eq_self (sk_commitment p g a sk),
    eq_self (a.compute_identity_id (g.ed_public identity.ed) (g.x_public identity.x)),
  )
