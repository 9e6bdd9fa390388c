-- ===== src/Relay/Routes/Refusals.antt =====
-- What the routes do with requests that they refuse.
use noknowledge.Base.{
  ℕ, String, Bool, false, ◌≡◌, ◌⊎◌, inl, inr, Option, none, some, subst, List, arith, Bool-cases,
  Option-cases,
}
use noknowledge.Base.Int.{ℤ}
use noknowledge.Base.Outcome.{ok, err}
use noknowledge.Relay.Schema.{Database, connect}
use noknowledge.Relay.Mailboxes.{find_mailbox, get_mailbox as db_get_mailbox}
use noknowledge.Relay.Security.{verify_token}
use noknowledge.Relay.Http.{
  Settings, Codec, Request, given, Server, Route, Capability, reading, writing, query,
  token_from_header, header_of, hash_of, authenticate_mailbox, mailbox_id_from_header,
}
use noknowledge.Relay.Routes.Boxes.{put_message, ack_messages, delete_mailbox, get_mailbox}
use noknowledge.Relay.Routes.Chunks.{upload_blob, download_blob}

-- The request carries a token whose digest the mailbox stores for the capability.
abbrev pub entitled : Codec → Request → String → Capability → Database → Bool
entitled codec q id capability db = elim (token_from_header codec (header_of capability q)) [
  | none ↦ false
  | some token ↦ elim (find_mailbox id db) [
    | none ↦ false
    | some m ↦ verify_token codec.sha256 token (hash_of capability m)
  ]
]

-- The route raised 401 or 404, and the server is as it was.
abbrev pub Refused : {A : Type 0} → Route A → Server → Type 0
Refused r s = (r s ≡ (err 401, s)) ⊎ (r s ≡ (err 404, s))

authenticate_mailbox-Refused :
    (codec : Codec) (q : Request) (id : String) (c : Capability) (s : Server)
    → entitled codec q id c s.db ≡ false
    → Refused (authenticate_mailbox codec q id c) s
unfolding authenticate_mailbox query db_get_mailbox connect
authenticate_mailbox-Refused codec q id c s h =
    elim (Option-cases (token_from_header codec (header_of c q))) [
      | inl e ↦ ground arith
      | inr (token, e) ↦ elim (Option-cases (find_mailbox id s.db)) [
        | inl e2 ↦ ground arith
        | inr (m, e2) ↦ elim (Bool-cases (verify_token codec.sha256 token (hash_of c m))) [
          | inl e3 ↦ ground arith
          | inr e3 ↦ ground arith
        ]
      ]
    ]

-- The routes of a mailbox.
pub data MailboxRoute : Type 0 where
  put_route get_route ack_route delete_route upload_route download_route : MailboxRoute

-- The capability that a route is for.
abbrev pub capability_of : MailboxRoute → Capability
capability_of put_route = writing
capability_of get_route = reading
capability_of ack_route = reading
capability_of delete_route = reading
capability_of upload_route = writing
capability_of download_route = reading

-- The mailbox of a request: the one of the path, or for a chunk the one of its header.
abbrev pub target : MailboxRoute → String → Request → Option String
target upload_route id q = given q.mailbox_header
target download_route id q = given q.mailbox_header
target _ id q = some id

module _ (settings : Settings) (codec : Codec) (fresh id : String) (after wait : ℤ)
    (rounds : List (Database × ℕ)) (q : Request) (s : Server) where
  -- The route refused the request.
  abbrev pub RouteRefused : MailboxRoute → Type 0
  RouteRefused put_route = Refused (put_message settings codec id q) s
  RouteRefused get_route = Refused (get_mailbox settings codec id after wait rounds q) s
  RouteRefused ack_route = Refused (ack_messages codec id q) s
  RouteRefused delete_route = Refused (delete_mailbox codec id q) s
  RouteRefused upload_route = Refused (upload_blob settings codec fresh q) s
  RouteRefused download_route = Refused (download_blob codec fresh q) s

  named :
      (box : String) → given q.mailbox_header ≡ some box → mailbox_id_from_header q s ≡ (ok box, s)
  unfolding mailbox_id_from_header
  named box h = ground (arith, h)

  path-Refused :
      (c : Capability) (box : String)
      → some id ≡ some box
      → entitled codec q box c s.db ≡ false
      → Refused (authenticate_mailbox codec q id c) s
  path-Refused c box t h =
      let same : box ≡ id = ground arith in
      authenticate_mailbox-Refused codec q id c s
        (subst (λ b. entitled codec q b c s.db ≡ false) same h)

  -- A request that lacks the token of the capability that its route is for, the writing one to put
  -- a message or to upload a chunk and the reading one for the others, is refused with 401 or 404
  -- and changes nothing, whatever the other token is.
  pub without_token :
      (route : MailboxRoute) (box : String)
      → target route id q ≡ some box
      → entitled codec q box (capability_of route) s.db ≡ false
      → RouteRefused route
  unfolding put_message get_mailbox ack_messages delete_mailbox upload_blob download_blob
  without_token put_route box t h = elim (path-Refused writing box t h) [
    | inl e ↦ inl (rw e)
    | inr e ↦ inr (rw e)
  ]
  without_token get_route box t h = elim (path-Refused reading box t h) [
    | inl e ↦ inl (rw e)
    | inr e ↦ inr (rw e)
  ]
  without_token ack_route box t h = elim (path-Refused reading box t h) [
    | inl e ↦ inl (rw e)
    | inr e ↦ inr (rw e)
  ]
  without_token delete_route box t h = elim (path-Refused reading box t h) [
    | inl e ↦ inl (rw e)
    | inr e ↦ inr (rw e)
  ]
  without_token upload_route box t h = elim (authenticate_mailbox-Refused codec q box writing s h) [
    | inl e ↦ inl (rw (named box t, e))
    | inr e ↦ inr (rw (named box t, e))
  ]
  without_token download_route box t h =
      elim (authenticate_mailbox-Refused codec q box reading s h) [
        | inl e ↦ inl (rw (named box t, e))
        | inr e ↦ inr (rw (named box t, e))
      ]
