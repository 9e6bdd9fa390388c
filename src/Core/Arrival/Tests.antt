-- ===== src/Core/Arrival/Tests.antt =====
-- Concrete runs of cards and of the first message of a session.
use noknowledge.Base.{true, false, ◌≡◌, refl, none, some, [], ◌∷◌, bytes_eq, eq_ℕ, first, update}
use noknowledge.Base.Outcome.{ok}
use noknowledge.Crypto.Toy.{plain, plain-Laws, signatures, repeat, length-repeat}
use noknowledge.Crypto.Ratchet.{responder}
use noknowledge.Crypto.Prekeys.{Identity, verify_signature}
use noknowledge.Crypto.X3dh.{
  InitDict, AuthPrimitives, build_auth, verify_auth, auth_fields, sk_commitment, auth_message,
}
use noknowledge.Local.Schema.{Contact, empty_store}
use noknowledge.Local.Contacts.{get_contact, upsert_contact}
use noknowledge.Wire.Backend.{MailboxCapability}
use noknowledge.Core.Dicts.{get_key, pop_key}
use noknowledge.Core.History.Items.{or_text}
use noknowledge.Core.Card.{
  CardPrimitives, create, signed_dict, shown_name, from_dict, read_card, check_card, validate,
  token_is_valid, from_card_view, card_payload, no_relays, unsigned_card, signed_bytes,
  from_dict-signed_dict,
}
use noknowledge.Core.Arrival.{
  Session, Account, Texts, begin_inbound, consume_opk, contact_of, store_card, sender_card,
  finish_inbound,
}
use noknowledge.Core.Arrival.Spent.{consume_all, begin_inbound-finish_inbound}

abbrev alice : Identity
alice = record { ed = 1 ∷ []; x = 2 ∷ [] }

abbrev cards : CardPrimitives
cards = record {
  card_json = λ d. [];
  compute_identity_id = λ ed x. "alice";
  token_bytes = λ token. some 32;
}

abbrev box : MailboxCapability
box = record { mailbox_id = "box"; write_token = "w"; read_token = some "r" }

from_dict-signed_dict_example :
    from_dict plain signatures cards (
      signed_dict plain signatures cards
        (create plain signatures cards alice "bundle" box ("https://a" ∷ []) (some "Alice")))
    ≡ ok
        (record (create plain signatures cards alice "bundle" box
          ("https://a" ∷ [])
          (some "Alice")) { name = some "Alice" })
unfolding shown_name
from_dict-signed_dict_example =
    from_dict-signed_dict plain signatures cards plain-Laws alice "bundle" box "https://a" []
      (some "Alice") (λ k m. refl) (λ k. length-repeat 32 1) (λ k m. length-repeat 64 3) refl

abbrev parts : AuthPrimitives
parts = record {
  sha256 = λ b. b;
  init_json = λ init. init.ek;
  compute_identity_id = λ ed x. "alice";
}

abbrev texts : Texts
texts = record {
  text_of = λ n. "3";
  short = λ t. t;
  inbox_text = λ m. m.mailbox_id;
  relays_text = λ relays. "relays";
}

abbrev init : InitDict
init = record { ek = 1 ∷ 8 ∷ []; spk_id = 7; opk_id = some 3 }

abbrev arrived : Session
arrived = record {
  sid = repeat 16 4;
  ratchet = responder (repeat 32 5) (4 ∷ []) (5 ∷ []);
  sk = some (repeat 32 5);
  init = some init;
  established = false;
}

abbrev account : Account
account = record {
  store = empty_store;
  prekeys = some (record {
    spk_id = 7;
    spk_private = 1 ∷ 4 ∷ [];
    spk_public = 1 ∷ 5 ∷ [];
    opks = ("3", 1 ∷ 6 ∷ []) ∷ [];
  });
}

abbrev made : Contact
made = record {
  identity_id = "me";
  id = "alice";
  nickname = some "Alice";
  isign = repeat 32 1;
  idh = repeat 32 2;
  bundle_id = some "bundle";
  inbox = "box";
  relays = "relays";
  session = none;
  verified = false;
  created_at = 9;
}

abbrev after : Account
after = record {
  store = record empty_store { contacts = made ∷ [] };
  prekeys =
      some (record { spk_id = 7; spk_private = 1 ∷ 4 ∷ []; spk_public = 1 ∷ 5 ∷ []; opks = [] });
}

finished :
    finish_inbound plain signatures parts cards texts alice "me" 9 arrived
      (some (build_auth plain signatures parts alice (repeat 16 4) init (repeat 32 5)))
      (some (
        signed_dict plain signatures cards
          (create plain signatures cards alice "bundle" box ("https://a" ∷ []) (some "Alice"))))
      (some 3)
      account
    ≡ (some (made, record arrived { established = true; sk = none }), after)
unfolding finish_inbound sender_card store_card contact_of consume_opk verify_auth auth_fields
    build_auth sk_commitment auth_message verify_signature from_dict read_card check_card validate
    token_is_valid from_card_view card_payload no_relays unsigned_card signed_bytes create
    signed_dict shown_name get_contact upsert_contact first update get_key pop_key or_text bytes_eq
finished = refl

begin_inbound-finish_inbound_example :
    begin_inbound plain signatures parts cards texts alice "me"
      (repeat 16 6)
      init
      (consume_all plain signatures parts cards texts alice "me" (some 2 ∷ []) after)
    ≡ none
begin_inbound-finish_inbound_example =
    begin_inbound-finish_inbound plain signatures parts cards texts alice "me" 9 arrived
      (some (build_auth plain signatures parts alice (repeat 16 4) init (repeat 32 5)))
      (some (
        signed_dict plain signatures cards
          (create plain signatures cards alice "bundle" box ("https://a" ∷ []) (some "Alice"))))
      3 account after (made, record arrived { established = true; sk = none }) (some 2 ∷ [])
      (repeat 16 6) init finished refl
