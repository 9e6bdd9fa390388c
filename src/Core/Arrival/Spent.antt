-- ===== src/Core/Arrival/Spent.antt =====
-- noknowledge/core/client.py: a one-time prekey of this account serves one session.
use noknowledge.Base.{
  ℕ, String, Bytes, Option, none, some, List, [], ◌∷◌, ◌==◌, eq_String, eq_ℕ, ◌≡◌, arith, ap, ◌∙◌,
  inl, inr, Bool-cases, Option-cases, eq_law,
}
use noknowledge.Base.Outcome.{◌>>=?◌}
use noknowledge.Crypto.Primitives.{Primitives}
use noknowledge.Crypto.Prekeys.{Signatures, Identity}
use noknowledge.Crypto.X3dh.{InitDict, Auth, AuthPrimitives}
use noknowledge.Local.Schema.{Contact}
use noknowledge.Core.Dicts.{Dict, get_key, pop_key, get_key-pop_key, get_key-pop_key_other}
use noknowledge.Core.Card.{CardDict, CardPrimitives}
use noknowledge.Core.Arrival.{
  Session, Account, Texts, opk_private, session_of, begin_inbound, consume_opk, sender_card,
  finish_inbound, store_card,
}

get_key-pop_key_gone :
    (key other : String) (d : Dict Bytes)
    → get_key key d ≡ none
    → get_key key (pop_key other d) ≡ none
get_key-pop_key_gone key other d h = elim (Bool-cases (other == key)) [
  | inl e ↦ ap (λ k. get_key key (pop_key k d)) ((eq_law other key).0 e) ∙ get_key-pop_key key d
  | inr e ↦ get_key-pop_key_other other key d e ∙ h
]

module _ (p : Primitives) (g : Signatures) (a : AuthPrimitives) (c : CardPrimitives) (t : Texts)
    (identity : Identity) (identity_id : String) where
  -- The private half of a one-time prekey that is still there.
  abbrev left : ℕ → Account → Option Bytes
  left id account = account.prekeys >>=? λ prekeys. get_key (t.text_of id) prekeys.opks

  -- The prekeys that later sessions consume.
  unfoldable pub consume_all : List (Option ℕ) → Account → Account
  consume_all [] account = account
  consume_all (id ∷ ids) account =
      consume_all ids (consume_opk p g a c t identity identity_id id account)

  consumed :
      (id : ℕ) (account : Account)
      → left id (consume_opk p g a c t identity identity_id (some id) account) ≡ none
  unfolding consume_opk
  consumed id account = elim (Option-cases account.prekeys) [
    | inl e ↦ ground (arith, e)
    | inr (prekeys, e) ↦ ground (arith, e, get_key-pop_key (t.text_of id) prekeys.opks)
  ]

  stays_consumed :
      (id : ℕ) (other : Option ℕ) (account : Account)
      → left id account ≡ none
      → left id (consume_opk p g a c t identity identity_id other account) ≡ none
  unfolding consume_opk
  stays_consumed id none account h = h
  stays_consumed id (some other) account h = elim (Option-cases account.prekeys) [
    | inl e ↦ ground (arith, e)
    | inr (prekeys, e) ↦
        ground (arith, e, h, get_key-pop_key_gone (t.text_of id) (t.text_of other) prekeys.opks)
  ]

  all_stay :
      (id : ℕ) (ids : List (Option ℕ)) (account : Account)
      → left id account ≡ none
      → left id (consume_all ids account) ≡ none
  unfolding consume_all
  all_stay id [] account h = h
  all_stay id (other ∷ ids) account h =
      all_stay id ids (consume_opk p g a c t identity identity_id other account)
        (stays_consumed id other account h)

  nothing_begins :
      (sid : Bytes) (init : InitDict) (id : ℕ) (account : Account)
      → init.opk_id ≡ some id
      → left id account ≡ none
      → begin_inbound p g a c t identity identity_id sid init account ≡ none
  unfolding begin_inbound session_of opk_private
  nothing_begins sid init id account h e = elim (Option-cases account.prekeys) [
    | inl k ↦ ground (arith, k)
    | inr (prekeys, k) ↦ ground (arith, k, h, e)
  ]

  finished_left :
      (now : ℕ) (session : Session) (auth : Option Auth) (card : Option CardDict) (id : ℕ)
      (account after : Account) (made : Contact × Session)
      → finish_inbound p g a c t identity identity_id now session auth card (some id) account
        ≡ (some made, after)
      → left id after ≡ none
  unfolding finish_inbound
  finished_left now session auth card id account after made h =
      elim (Option-cases (sender_card p g a c t identity identity_id session auth card)) [
        | inl e ↦ ground (arith, e, h)
        | inr (read, e) ↦ ground (
          arith,
          e,
          h,
          consumed id (record account {
            store = (store_card p g a c t identity identity_id now read account.store).1;
          }),
        )
      ]

  -- Once a first message that named a one-time prekey has made its session, no first message that
  -- names it begins a session, whatever other prekeys later sessions consume.
  pub begin_inbound-finish_inbound :
      (now : ℕ) (session : Session) (auth : Option Auth) (card : Option CardDict) (id : ℕ)
      (account after : Account) (made : Contact × Session) (ids : List (Option ℕ)) (sid : Bytes)
      (init : InitDict)
      → finish_inbound p g a c t identity identity_id now session auth card (some id) account
        ≡ (some made, after)
      → init.opk_id ≡ some id
      → begin_inbound p g a c t identity identity_id sid init (consume_all ids after) ≡ none
  begin_inbound-finish_inbound now session auth card id account after made ids sid init h k =
      nothing_begins sid init id (consume_all ids after) k
        (all_stay id ids after (finished_left now session auth card id account after made h))
