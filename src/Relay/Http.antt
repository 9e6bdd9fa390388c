-- ===== src/Relay/Http.antt =====
-- The requests of the relay (noknowledge/server/deps.py, config.py): its state, its settings, what
-- it takes from FastAPI and from the standard library, and the authentication of a capability.
use noknowledge.Base.{
  ℕ, String, Bytes, Bool, Option, none, some, List, ◌==◌, eq_String, if◌then◌else◌,
}
use noknowledge.Base.Int.{ℤ}
use noknowledge.Base.Outcome.{ok, err, Action, pure, raise, ◌>>=◌}
use noknowledge.Relay.Schema.{
  Mailbox, Database, RelayError, Transaction, mailbox_not_found, quota_exceeded,
}
use noknowledge.Relay.Mailboxes.{get_mailbox}
use noknowledge.Relay.Limiter.{RateLimiters, allow}
use noknowledge.Relay.Security.{Stamps, verify_token}

pub record Settings : Type 0 where
  pub max_blob_bytes : ℕ
  pub max_chunk_bytes : ℕ
  pub max_messages_per_mailbox : ℕ
  pub max_bytes_per_mailbox : ℕ
  pub max_wait_seconds : ℕ
  pub max_messages_per_fetch : ℕ
  pub require_hashcash : Bool
  pub hashcash_bits : ℕ

-- base64url, SHA-256 and the JSON bodies that the routes read: `none` is an exception. A body of
-- `create_mailbox` is either no JSON, or JSON without the three fields, or the fields.
pub record Codec : Type 0 where
  pub code_points : String → List ℕ
  pub b64e : Bytes → String
  pub b64d : String → Option Bytes
  pub sha256 : Bytes → Bytes
  pub stamps : Stamps
  pub capability_fields : Bytes → Option (Option (String × String × String))
  pub upto_seq : Bytes → Option ℤ
  pub bundle_fields : Bytes → Option (String × String × List (Option (ℤ × String)))

-- The parts of a request that the routes read; `now` and `tick` are the two clocks.
pub record Request : Type 0 where
  pub client_key : String
  pub read_header : Option String
  pub write_header : Option String
  pub mailbox_header : Option String
  pub chunk_header : Option String
  pub hashcash_header : Option String
  pub body : Bytes
  pub now : ℕ
  pub tick : ℕ

pub record Server : Type 0 where
  pub db : Database
  pub limiters : RateLimiters

-- A route answers, or raises `HTTPException` with a status.
abbrev pub Route : Type 0 → Type 0
Route = Action Server ℕ

-- A header that is absent or empty does not count.
abbrev pub given : Option String → Option String
given none = none
given (some text) = if text == "" then none else some text

-- A call of `Database`, with what each of its errors becomes.
unfoldable pub query : {A : Type 0} → (RelayError → ℕ) → Transaction A → Route A
query status m s =
    let (r, db) = m s.db in
    elim r [ ok a ↦ (ok a, record s { db = db }) | err e ↦ (err (status e), record s { db = db }) ]

-- An exception that no route expects.
abbrev pub unexpected : RelayError → ℕ
unexpected _ = 500

abbrev pub not_found_or_full : RelayError → ℕ
not_found_or_full mailbox_not_found = 404
not_found_or_full quota_exceeded = 429
not_found_or_full _ = 500

pub data Capability : Type 0 where
  reading writing : Capability

abbrev pub header_of : Capability → Request → Option String
header_of reading q = q.read_header
header_of writing q = q.write_header

abbrev pub hash_of : Capability → Mailbox → Bytes
hash_of reading m = m.read_token_hash
hash_of writing m = m.write_token_hash

unfoldable pub token_from_header : Codec → Option String → Option Bytes
token_from_header codec header = elim (given header) [ none ↦ none | some raw ↦ codec.b64d raw ]

unfoldable pub authenticate_mailbox : Codec → Request → String → Capability → Route Mailbox
unfolding query get_mailbox token_from_header verify_token
authenticate_mailbox codec request mailbox_id capability =
    elim (token_from_header codec (header_of capability request)) [
      | none ↦ raise 401
      | some token ↦ do
        row ← query unexpected (get_mailbox mailbox_id)
        elim row [
          | none ↦ raise 404
          | some m ↦
              if verify_token codec.sha256 token (hash_of capability m) then pure m else raise 401
        ]
    ]

unfoldable pub mailbox_id_from_header : Request → Route String
mailbox_id_from_header request = elim (given request.mailbox_header) [
  | none ↦ raise 400
  | some id ↦ pure id
]

-- The three limiters, each asked under the client's key.
unfoldable pub allow_create : Request → Server → Bool × Server
unfolding allow
allow_create q s =
    let (granted, l) = allow q.client_key q.tick s.limiters.create in
    (granted, record s { limiters = record s.limiters { create = l } })

unfoldable pub allow_write : Request → Server → Bool × Server
unfolding allow
allow_write q s =
    let (granted, l) = allow q.client_key q.tick s.limiters.write in
    (granted, record s { limiters = record s.limiters { write = l } })

unfoldable pub allow_bundle : Request → Server → Bool × Server
unfolding allow
allow_bundle q s =
    let (granted, l) = allow q.client_key q.tick s.limiters.bundle in
    (granted, record s { limiters = record s.limiters { bundle = l } })

-- `if not limiter.allow(...): raise HTTPException(429)`
unfoldable pub charge : (Server → Bool × Server) → Route Unit
charge limiter s = let (granted, s') = limiter s in if granted then (ok tt, s') else (err 429, s')
