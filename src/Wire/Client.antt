-- ===== src/Wire/Client.antt =====
-- noknowledge/wire/backends/http_relay.py: the operations on one relay, over HTTP.
use noknowledge.Base.{
  ℕ, String, Bytes, ◌||◌, Option, none, some, List, [], ◌∷◌, ◌==◌, eq_ℕ, ltb, if◌then◌else◌, ◌≡◌,
  refl,
}
use noknowledge.Base.Outcome.{err, raise, pure, ◌>>=◌}
use noknowledge.Wire.Errors.{
  Call, WireError, other_error, relay_http_error, relay_not_found, relay_unauthorized,
  relay_quota_exceeded,
}
use noknowledge.Wire.Backend.{MailboxCapability, Backend}

-- A request: the method, the parts of the path below `/api`, the headers, the query and the body.
pub record Request : Type 0 where
  pub method : String
  pub path : List String
  pub read : Option String
  pub write : Option String
  pub mailbox : Option String
  pub chunk : Option String
  pub query : Option (ℕ × ℕ)
  pub body : Bytes

pub record Response : Type 0 where
  pub status_code : ℕ
  pub content : Bytes

-- JSON, where `none` is an exception.
pub record Json : Type 0 where
  pub capability : MailboxCapability → Bytes
  pub upto : ℕ → Bytes
  pub seq : Bytes → Option ℕ
  pub messages : Bytes → Option (List (ℕ × Bytes))
  pub deleted : Bytes → Option ℕ
  pub bundle_id : Bytes → Option String
  pub bundle : Bytes → Option Bytes
  pub chunk_id : Bytes → Option String

-- The error of a status, if it is one.
unfoldable pub raise_for_status : ℕ → Option WireError
raise_for_status status =
    if ltb status 400
    then none
    else if status == 404
    then some (relay_not_found status)
    else if status == 401 || status == 403
    then some (relay_unauthorized status)
    else if status == 429
    then some (relay_quota_exceeded status)
    else some (relay_http_error status)

abbrev pub plain : String → List String → Bytes → Request
plain method path body = record {
  method = method;
  path = path;
  read = none;
  write = none;
  mailbox = none;
  chunk = none;
  query = none;
  body = body;
}

-- `transport` sends a request to the relay.
module _ {S : Type 0} (json : Json) (transport : Request → Call S Response) where
  -- The request, the check of the status, and what is read of the answer.
  unfoldable pub exchange : {A : Type 0} → (Bytes → Option A) → Request → Call S A
  unfolding raise_for_status
  exchange parse request = transport request >>= λ response.
      elim (raise_for_status response.status_code) [
        | some e ↦ raise e
        | none ↦ elim (parse response.content) [ none ↦ raise other_error | some a ↦ pure a ]
      ]

  -- What needs the read capability.
  unfoldable pub with_read : {A : Type 0} → MailboxCapability → (String → Call S A) → Call S A
  with_read capability run = elim capability.read_token [
    | none ↦ raise (relay_unauthorized 401)
    | some token ↦ run token
  ]

  unfoldable pub create_mailbox : MailboxCapability → Call S Unit
  unfolding exchange
  create_mailbox capability =
      exchange (λ _. some tt) (plain "POST" ("mailbox" ∷ []) (json.capability capability))

  unfoldable pub put : MailboxCapability → Bytes → Call S ℕ
  unfolding exchange
  put capability envelope =
      exchange json.seq
        (record (plain "POST" ("mailbox" ∷ capability.mailbox_id ∷ "messages" ∷ []) envelope) {
          write = some capability.write_token;
        })

  unfoldable pub fetch : MailboxCapability → ℕ → ℕ → Call S (List (ℕ × Bytes))
  unfolding exchange with_read
  fetch capability after_seq wait = with_read capability λ token.
      exchange json.messages (record (plain "GET" ("mailbox" ∷ capability.mailbox_id ∷ []) []) {
        read = some token;
        query = some (after_seq, wait);
      })

  unfoldable pub ack : MailboxCapability → ℕ → Call S ℕ
  unfolding exchange with_read
  ack capability upto_seq = with_read capability λ token.
      exchange json.deleted
        (record (plain "POST" ("mailbox" ∷ capability.mailbox_id ∷ "ack" ∷ [])
          (json.upto upto_seq)) { read = some token })

  unfoldable pub delete_mailbox : MailboxCapability → Call S Unit
  unfolding exchange with_read
  delete_mailbox capability = with_read capability λ token.
      exchange (λ _. some tt)
        (record (plain "DELETE" ("mailbox" ∷ capability.mailbox_id ∷ []) []) { read = some token })

  unfoldable pub publish_bundle : String → Bytes → Call S String
  unfolding exchange
  publish_bundle bundle_id bundle = exchange json.bundle_id (plain "POST" ("prekeys" ∷ []) bundle)

  unfoldable pub fetch_bundle : String → Call S Bytes
  unfolding exchange
  fetch_bundle bundle_id = exchange json.bundle (plain "GET" ("prekeys" ∷ bundle_id ∷ []) [])

  unfoldable pub put_blob : MailboxCapability → String → Bytes → Call S String
  unfolding exchange
  put_blob capability chunk_id chunk =
      exchange json.chunk_id (record (plain "POST" ("blob" ∷ []) chunk) {
        write = some capability.write_token;
        mailbox = some capability.mailbox_id;
        chunk = some chunk_id;
      })

  unfoldable pub get_blob : MailboxCapability → String → Call S Bytes
  unfolding exchange with_read
  get_blob capability chunk_id = with_read capability λ token.
      exchange some (record (plain "GET" ("blob" ∷ chunk_id ∷ []) []) {
        read = some token;
        mailbox = some capability.mailbox_id;
      })

  -- The relay as the pool sees it.
  abbrev pub http_relay : Backend S
  http_relay = record {
    create_mailbox = create_mailbox;
    put = put;
    fetch = fetch;
    ack = ack;
    delete_mailbox = delete_mailbox;
    publish_bundle = publish_bundle;
    fetch_bundle = fetch_bundle;
    put_blob = put_blob;
    get_blob = get_blob;
  }

  -- Without the read token nothing is asked of the relay: the four reading operations raise
  -- RelayUnauthorized and send no request.
  pub reads_need_token :
      (capability : MailboxCapability) (after wait upto : ℕ) (chunk_id : String) (s : S)
      → capability.read_token ≡ none
      → (fetch capability after wait s ≡ (err (relay_unauthorized 401), s))
        × (ack capability upto s ≡ (err (relay_unauthorized 401), s))
        × (delete_mailbox capability s ≡ (err (relay_unauthorized 401), s))
        × (get_blob capability chunk_id s ≡ (err (relay_unauthorized 401), s))
  unfolding fetch ack delete_mailbox get_blob with_read
  reads_need_token capability after wait upto chunk_id s h = rw h (refl, refl, refl, refl)
