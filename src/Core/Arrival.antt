-- ===== src/Core/Arrival.antt =====
-- noknowledge/core/client.py: the first message of a session as it arrives: the one-time prekey that
-- it names, the proof of its sender, and the contact that it makes. `none` of a session is that no
-- session begins, by a `return None` or an exception, which `sync` swallows.
pub mod Spent
mod Tests
use noknowledge.Base.{
  ℕ, String, Bytes, Bool, true, false, ◌&&◌, ◌||◌, not, Option, none, some, List, [], ◌∷◌, ◌==◌,
  eq_String, eq_ℕ, eq_Bytes, if◌then◌else◌, ◌≡◌, refl, arith, ap, sym, ◌∙◌, inl, inr, Bool-cases,
  Option-cases, eq_law,
}
use noknowledge.Base.Outcome.{Result, ok, err, ◌>>=?◌, Result-cases}
use noknowledge.Crypto.Primitives.{Primitives}
use noknowledge.Crypto.Prekeys.{Signatures, Identity}
use noknowledge.Crypto.Ratchet.{RatchetState, responder}
use noknowledge.Crypto.X3dh.{InitDict, Auth, AuthPrimitives, respond, verify_auth}
use noknowledge.Local.Schema.{Contact, LocalStore}
use noknowledge.Local.Contacts.{get_contact, upsert_contact}
use noknowledge.Wire.Backend.{MailboxCapability}
use noknowledge.Core.Dicts.{Dict, get_key, pop_key, get_key-pop_key, get_key-pop_key_other}
use noknowledge.Core.History.Items.{or_text}
use noknowledge.Core.Card.{ContactCard, CardDict, CardPrimitives, from_dict}

-- The prekeys of the store: the private halves as base64.
pub record OwnPrekeys : Type 0 where
  pub spk_id : ℕ
  pub spk_private : Bytes
  pub spk_public : Bytes
  pub opks : Dict Bytes

-- noknowledge/core/session.py
pub record Session : Type 0 where
  pub sid : Bytes
  pub ratchet : RatchetState
  pub sk : Option Bytes
  pub init : Option InitDict
  pub established : Bool

pub record Account : Type 0 where
  pub store : LocalStore
  pub prekeys : Option OwnPrekeys

-- `str` of a number, `contact.id[:8]`, and the texts of an inbox and of relays.
pub record Texts : Type 0 where
  pub text_of : ℕ → String
  pub short : String → String
  pub inbox_text : MailboxCapability → String
  pub relays_text : List String → String

module _ (p : Primitives) (g : Signatures) (a : AuthPrimitives) (c : CardPrimitives) (t : Texts)
    (identity : Identity) (identity_id : String) where
  -- The private half of the one-time prekey: `none` if it is spent.
  unfoldable pub opk_private : Option ℕ → OwnPrekeys → Option (Option Bytes)
  opk_private none prekeys = some none
  opk_private (some id) prekeys =
      (get_key (t.text_of id) prekeys.opks >>=? p.b64d) >>=? λ key. some (some key)

  unfoldable pub session_of : Bytes → InitDict → OwnPrekeys → Option Session
  session_of sid init prekeys = opk_private init.opk_id prekeys >>=? λ opk.
      p.b64d prekeys.spk_private >>=? λ spk_private. p.b64d prekeys.spk_public >>=? λ spk_public.
      p.b64d init.ek >>=? λ ek. respond p g identity.x spk_private opk ek >>=? λ session_key.
      some (record {
        sid = sid;
        ratchet = responder session_key spk_private spk_public;
        sk = some session_key;
        init = some init;
        established = false;
      })

  unfoldable pub begin_inbound : Bytes → InitDict → Account → Option (Session × Option ℕ)
  begin_inbound sid init account = elim account.prekeys [
    | none ↦ none
    | some prekeys ↦
        if not (init.spk_id == prekeys.spk_id)
        then none
        else session_of sid init prekeys >>=? λ session. some (session, init.opk_id)
  ]

  unfoldable pub consume_opk : Option ℕ → Account → Account
  consume_opk none account = account
  consume_opk (some id) account = elim account.prekeys [
    | none ↦ account
    | some prekeys ↦ record account {
      prekeys = some (record prekeys { opks = pop_key (t.text_of id) prekeys.opks });
    }
  ]

  -- `_store_card` without a nickname or a session of its own.
  unfoldable pub contact_of : ℕ → ContactCard → Option Contact → Contact
  contact_of now card existing =
      let named : String = or_text card.name (t.short card.identity_id) in
      record {
        identity_id = identity_id;
        id = card.identity_id;
        nickname = some (elim existing [ none ↦ named | some old ↦ or_text old.nickname named ]);
        isign = card.isign;
        idh = card.idh;
        bundle_id = some card.bundle_id;
        inbox = t.inbox_text card.inbox;
        relays = t.relays_text card.relays;
        session = elim existing [ none ↦ none | some old ↦ old.session ];
        verified = elim existing [ none ↦ false | some old ↦ old.verified ];
        created_at = elim existing [ none ↦ now | some old ↦ old.created_at ];
      }

  unfoldable pub store_card : ℕ → ContactCard → LocalStore → Contact × LocalStore
  store_card now card store =
      let contact = contact_of now card (get_contact identity_id card.identity_id store) in
      let stored = upsert_contact contact store in
      (
        elim (get_contact identity_id card.identity_id stored) [
          | none ↦ contact
          | some found ↦ found
        ],
        stored,
      )

  -- The card of the sender, if its proof and its card hold and agree.
  unfoldable pub sender_card : Session → Option Auth → Option CardDict → Option ContactCard
  sender_card session auth card = auth >>=? λ auth'. card >>=? λ card'. session.sk >>=? λ sk.
      session.init >>=? λ init.
      if not (verify_auth p g a auth' session.sid init sk)
      then none
      else elim (from_dict p g c card') [
        | err _ ↦ none
        | ok read ↦
            if not (elim auth'.id [ none ↦ false | some id ↦ read.identity_id == id ])
            then none
            else elim (auth'.isign >>=? p.b64d) [
              | none ↦ none
              | some isign ↦ if not (read.isign == isign) then none else some read
            ]
      ]

  unfoldable pub finish_inbound :
      ℕ
      → Session
      → Option Auth
      → Option CardDict
      → Option ℕ
      → Account
      → Option (Contact × Session) × Account
  finish_inbound now session auth card opk_id account = elim (sender_card session auth card) [
    | none ↦ (none, account)
    | some read ↦
        let (contact, store) = store_card now read account.store in
        (
          some (contact, record session { established = true; sk = none }),
          consume_opk opk_id (record account { store = store }),
        )
  ]
