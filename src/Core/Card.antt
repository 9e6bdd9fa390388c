-- ===== src/Core/Card.antt =====
-- noknowledge/core/card.py, and of wire/backends/base.py what a card takes. An error is the text of a
-- CardError, or "uncaught" for the ValueError of a token.
use noknowledge.Base.{
  ℕ, String, Bytes, Bool, true, false, ◌&&◌, not, Option, none, some, List, [], ◌∷◌, ◌++◌, ◌==◌,
  eq_String, eq_ℕ, if◌then◌else◌, ◌≡◌, arith, eq_self, inl, inr, Bool-cases, Option-cases, length,
}
use noknowledge.Base.Outcome.{Result, ok, err, ◌>>=?◌}
use noknowledge.Crypto.Primitives.{Primitives, Laws}
use noknowledge.Crypto.Prekeys.{Signatures, Identity, verify_signature}
use noknowledge.Wire.Backend.{MailboxCapability}

-- b"nk/card/v1"
abbrev pub card_sign_info : Bytes
card_sign_info = 110 ∷ 107 ∷ 47 ∷ 99 ∷ 97 ∷ 114 ∷ 100 ∷ 47 ∷ 118 ∷ 49 ∷ []

abbrev pub card_version : ℕ
card_version = 1

abbrev pub token_size : ℕ
token_size = 32

pub record ContactCard : Type 0 where
  pub identity_id : String
  pub isign : Bytes
  pub idh : Bytes
  pub bundle_id : String
  pub inbox : MailboxCapability
  pub relays : List String
  pub name : Option String
  pub signature : Option Bytes

-- The dict of a card; a field that is missing is `none`, and `inbox` is its "id" and its "w".
pub record CardDict : Type 0 where
  pub v : Option ℕ
  pub id : Option String
  pub isign : Option Bytes
  pub idh : Option Bytes
  pub bundle : Option String
  pub inbox : Option (Option String × Option String)
  pub relays : Option (List String)
  pub name : Option String
  pub sig : Option Bytes

-- `canonical_json` of a card, `compute_identity_id`, and how many bytes a token has: `none` for one
-- that is no base64.
pub record CardPrimitives : Type 0 where
  pub card_json : CardDict → Bytes
  pub compute_identity_id : Bytes → Bytes → String
  pub token_bytes : String → Option ℕ

-- A name that is empty is as one that is missing.
unfoldable pub shown_name : Option String → Option String
shown_name none = none
shown_name (some name) = if name == "" then none else some name

module _ (p : Primitives) (g : Signatures) (c : CardPrimitives) where
  unfoldable pub card_payload : ContactCard → CardDict
  card_payload card = record {
    v = some card_version;
    id = some card.identity_id;
    isign = some (p.b64e card.isign);
    idh = some (p.b64e card.idh);
    bundle = some card.bundle_id;
    inbox = some (some card.inbox.mailbox_id, some card.inbox.write_token);
    relays = some card.relays;
    name = shown_name card.name;
    sig = none;
  }

  unfoldable pub signed_dict : ContactCard → CardDict
  signed_dict card = record (card_payload card) {
    sig = some (p.b64e (elim card.signature [ none ↦ [] | some signature ↦ signature ]));
  }

  unfoldable pub signed_bytes : ContactCard → Bytes
  signed_bytes card = card_sign_info ++ c.card_json (card_payload card)

  -- A token of the right size; `none` is one that a capability does not have.
  unfoldable pub token_is_valid : Option String → Bool
  token_is_valid none = true
  token_is_valid (some token) = elim (c.token_bytes token) [
    | none ↦ false
    | some size ↦ size == token_size
  ]

  unfoldable pub validate : MailboxCapability → Bool
  validate m = token_is_valid (some m.write_token) && token_is_valid m.read_token

  unfoldable pub from_card_view : Option (Option String × Option String) → Option MailboxCapability
  from_card_view none = none
  from_card_view (some (id, w)) = id >>=? λ mailbox_id. w >>=? λ write_token.
      some (record { mailbox_id = mailbox_id; write_token = write_token; read_token = none })

  -- The card that a dict holds, not yet checked.
  unfoldable pub read_card : CardDict → Option ContactCard
  read_card d = (d.isign >>=? p.b64d) >>=? λ isign. (d.idh >>=? p.b64d) >>=? λ idh.
      d.id >>=? λ identity_id. d.bundle >>=? λ bundle_id. from_card_view d.inbox >>=? λ inbox.
      (d.sig >>=? p.b64d) >>=? λ signature. some (record {
        identity_id = identity_id;
        isign = isign;
        idh = idh;
        bundle_id = bundle_id;
        inbox = inbox;
        relays = elim d.relays [ none ↦ [] | some relays ↦ relays ];
        name = d.name;
        signature = some signature;
      })

  unfoldable pub no_relays : List String → Bool
  no_relays [] = true
  no_relays (_ ∷ _) = false

  unfoldable pub check_card : ContactCard → Result String ContactCard
  check_card card =
      if no_relays card.relays
      then err "contact card has no relays"
      else if not (c.compute_identity_id card.isign card.idh == card.identity_id)
      then err "contact card id does not match its public keys"
      else if not (validate card.inbox)
      then err "uncaught"
      else if not (
          verify_signature g card.isign
            (elim card.signature [ none ↦ [] | some signature ↦ signature ]) (signed_bytes card))
      then err "contact card signature is invalid"
      else ok card

  unfoldable pub from_dict : CardDict → Result String ContactCard
  from_dict d =
      if not (elim d.v [ none ↦ false | some v ↦ v == card_version ])
      then err "unsupported card version"
      else elim (read_card d) [ none ↦ err "malformed contact card" | some card ↦ check_card card ]

  unfoldable pub unsigned_card :
      Identity → String → MailboxCapability → List String → Option String → ContactCard
  unsigned_card identity bundle_id inbox relays name = record {
    identity_id = c.compute_identity_id (g.ed_public identity.ed) (g.x_public identity.x);
    isign = g.ed_public identity.ed;
    idh = g.x_public identity.x;
    bundle_id = bundle_id;
    inbox = record inbox { read_token = none };
    relays = relays;
    name = name;
    signature = none;
  }

  unfoldable pub create :
      Identity → String → MailboxCapability → List String → Option String → ContactCard
  unfolding unsigned_card
  create identity bundle_id inbox relays name =
      let card = unsigned_card identity bundle_id inbox relays name in
      record card { signature = some (g.sign identity.ed (signed_bytes card)) }

  signed_bytes-name :
      (card : ContactCard) (s : Option Bytes)
      → signed_bytes (record card { name = shown_name card.name; signature = s })
        ≡ signed_bytes card
  unfolding signed_bytes card_payload shown_name
  signed_bytes-name card s = elim (Option-cases card.name) [
    | inl e ↦ ground (arith, e)
    | inr (name, e) ↦ elim (Bool-cases (name == "")) [
      | inl k ↦ ground (arith, e, k)
      | inr k ↦ ground (arith, e, k)
    ]
  ]

  -- A card that an account creates, with a relay and a write token of 32 bytes, is read back from
  -- what it publishes: the same card, without a name that is empty.
  pub from_dict-signed_dict :
      (laws : Laws p) (identity : Identity) (bundle_id : String) (inbox : MailboxCapability)
      (relay : String) (relays : List String) (name : Option String)
      → ((k m : Bytes) → g.ed_verify (g.ed_public k) (g.sign k m) m ≡ true)
      → ((k : Bytes) → length (g.ed_public k) ≡ 32)
      → ((k m : Bytes) → length (g.sign k m) ≡ 64)
      → c.token_bytes inbox.write_token ≡ some 32
      → from_dict (signed_dict (create identity bundle_id inbox (relay ∷ relays) name))
        ≡ ok (record (create identity bundle_id inbox (relay ∷ relays) name) {
          name = shown_name name;
        })
  unfolding from_dict read_card signed_dict create check_card validate token_is_valid from_card_view
      card_payload no_relays verify_signature unsigned_card
  from_dict-signed_dict laws identity bundle_id inbox relay relays name v s t w =
      let card = unsigned_card identity bundle_id inbox (relay ∷ relays) name in
      let signature = g.sign identity.ed (signed_bytes card) in
      ground (
        arith,
        laws.decodes card.isign,
        laws.decodes card.idh,
        laws.decodes signature,
        w,
        v identity.ed (signed_bytes card),
        s identity.ed,
        t identity.ed (signed_bytes card),
        signed_bytes-name card (some signature),
        eq_self card.identity_id,
      )
