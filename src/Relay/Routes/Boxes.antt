-- ===== src/Relay/Routes/Boxes.antt =====
-- noknowledge/server/routers/mailboxes.py. The body of a request is there before the route runs,
-- and what another request changed between two database calls is not seen, except by the long
-- poll of `get_mailbox`, which takes the databases that its rounds see.
use noknowledge.Base.{
  ℕ, ◌+◌, min, String, Bytes, Bool, true, not, ◌&&◌, ◌||◌, Option, none, some, List, [], ◌∷◌, map,
  ◌==◌, eq_ℕ, ltb, leb, if◌then◌else◌, length,
}
use noknowledge.Base.Int.{ℤ, pos, negsuc}
use noknowledge.Base.Outcome.{ok, err, pure, raise, ◌>>=◌, ◌>>◌}
use noknowledge.Relay.Schema.{Message, Database}
use noknowledge.Relay.Mailboxes.{
  create_mailbox as db_create_mailbox, get_mailbox as db_get_mailbox,
  delete_mailbox as db_delete_mailbox,
}
use noknowledge.Relay.Messages.{
  put_message as db_put_message, get_messages as db_get_messages, ack_messages as db_ack_messages,
}
use noknowledge.Relay.Security.{verify_token, verify_hashcash, is_empty}
use noknowledge.Relay.Http.{
  Settings, Codec, Request, Route, query, unexpected, not_found_or_full, reading, writing,
  authenticate_mailbox, allow_create, allow_write, charge,
}

-- [A-Za-z0-9_-], by code points
abbrev pub is_id_char : ℕ → Bool
is_id_char c =
    leb 65 c && leb c 90 || leb 97 c && leb c 122 || leb 48 c && leb c 57 || c == 95 || c == 45

abbrev pub all_id_chars : List ℕ → Bool
all_id_chars [] = true
all_id_chars (c ∷ cs) = is_id_char c && all_id_chars cs

-- `$` matches at the end of the text, and before a newline that ends it.
abbrev pub without_newline : List ℕ → List ℕ
without_newline [] = []
without_newline (c ∷ []) = if c == 10 then [] else c ∷ []
without_newline (c ∷ d ∷ cs) = c ∷ without_newline (d ∷ cs)

unfoldable pub matches_id_pattern : List ℕ → Bool
matches_id_pattern text =
    let cs = without_newline text in leb 8 (length cs) && leb (length cs) 64 && all_id_chars cs

-- The fields of a body; each way to be malformed is status 400.
unfoldable pub provided_capability :
    Codec → Option (String × String × String) → Option (String × Bytes × Bytes)
unfolding matches_id_pattern
provided_capability codec none = none
provided_capability codec (some (mailbox_id, read, write)) = elim (codec.b64d read) [
  | none ↦ none
  | some read_token ↦ elim (codec.b64d write) [
    | none ↦ none
    | some write_token ↦
        if matches_id_pattern (codec.code_points mailbox_id)
          && length read_token == 32
          && length write_token == 32
        then some (mailbox_id, read_token, write_token)
        else none
  ]
]

-- The answer of `create_mailbox`.
abbrev pub capability_json : Codec → String → Bytes → Bytes → String × String × String
capability_json codec mailbox_id read_token write_token =
    (mailbox_id, codec.b64e read_token, codec.b64e write_token)

-- The call of `Database.create_mailbox` and the answer.
unfoldable pub new_mailbox :
    Settings → Codec → ℕ → String → Bytes → Bytes → Route (String × String × String)
unfolding query db_create_mailbox
new_mailbox settings codec now mailbox_id read_token write_token = do
  query unexpected (
      db_create_mailbox mailbox_id (codec.sha256 read_token) (codec.sha256 write_token) now
        settings.max_messages_per_mailbox settings.max_bytes_per_mailbox)
  pure (capability_json codec mailbox_id read_token write_token)

-- The capability that a client provided: registered, or found with the same tokens, or refused.
unfoldable pub register_mailbox :
    Settings → Codec → ℕ → String → Bytes → Bytes → Route (String × String × String)
unfolding query db_get_mailbox new_mailbox verify_token
register_mailbox settings codec now mailbox_id read_token write_token = do
  existing ← query unexpected (db_get_mailbox mailbox_id)
  elim existing [
    | none ↦ new_mailbox settings codec now mailbox_id read_token write_token
    | some m ↦
        if verify_token codec.sha256 read_token m.read_token_hash
          && verify_token codec.sha256 write_token m.write_token_hash
        then pure (capability_json codec mailbox_id read_token write_token)
        else raise 409
  ]

-- `fresh` is what `secrets` returns for the id and the two tokens, where the body is empty.
unfoldable pub create_mailbox :
    Settings → Codec → Bytes × Bytes × Bytes → Request → Route (String × String × String)
unfolding charge allow_create verify_hashcash provided_capability register_mailbox new_mailbox
create_mailbox settings codec (fresh_id, fresh_read, fresh_write) q =
    charge (allow_create q)
    >> (if settings.require_hashcash
          && not (verify_hashcash codec.stamps q.hashcash_header settings.hashcash_bits q.now 3600)
        then raise 400
        else if is_empty q.body
        then new_mailbox settings codec q.now (codec.b64e fresh_id) fresh_read fresh_write
        else elim (codec.capability_fields q.body) [
          | none ↦ raise 400
          | some fields ↦ elim (provided_capability codec fields) [
            | none ↦ raise 400
            | some (mailbox_id, read_token, write_token) ↦
                register_mailbox settings codec q.now mailbox_id read_token write_token
          ]
        ])

-- `max(0, min(int(wait), settings.max_wait_seconds))`
abbrev pub clamp_wait : ℕ → ℤ → ℕ
clamp_wait most (pos wait) = min wait most
clamp_wait most (negsuc _) = 0

-- The rounds of the poll: the database that each sees, and the clock after it. The last rows count
-- where the rounds end without an answer.
unfoldable pub poll : Settings → String → ℤ → ℕ → List (Database × ℕ) → List Message
unfolding db_get_messages
poll settings mailbox_id after_seq deadline [] = []
poll settings mailbox_id after_seq deadline ((db, clock) ∷ rounds) =
    let rest = poll settings mailbox_id after_seq deadline rounds in
    let (answer, _) = db_get_messages mailbox_id after_seq settings.max_messages_per_fetch db in
    elim answer [
      | err _ ↦ []
      | ok rows ↦ if not (is_empty rows) || leb deadline clock then rows else rest
    ]

-- `int(rows[-1]["seq"]) if rows else int(after_seq)`
abbrev pub last_seq : ℤ → List Message → ℤ
last_seq after_seq [] = after_seq
last_seq after_seq (m ∷ rows) = last_seq (pos m.seq) rows

unfoldable pub get_mailbox :
    Settings
    → Codec
    → String
    → ℤ
    → ℤ
    → List (Database × ℕ)
    → Request
    → Route (List (ℕ × String) × ℤ)
unfolding authenticate_mailbox poll
get_mailbox settings codec mailbox_id after_seq wait rounds q = do
  _ ← authenticate_mailbox codec q mailbox_id reading
  let rows =
      poll settings mailbox_id after_seq (q.tick + clamp_wait settings.max_wait_seconds wait) rounds
  pure (map (λ m. (m.seq, codec.b64e m.ciphertext)) rows, last_seq after_seq rows)

-- What follows the token and the limiter.
unfoldable pub write_body : Settings → String → Request → Route ℕ
unfolding query db_put_message
write_body settings mailbox_id q =
    if is_empty q.body
    then raise 400
    else if ltb settings.max_blob_bytes (length q.body)
    then raise 413
    else query not_found_or_full (db_put_message mailbox_id q.body q.now)

unfoldable pub put_message : Settings → Codec → String → Request → Route ℕ
unfolding authenticate_mailbox charge allow_write write_body
put_message settings codec mailbox_id q = do
  _ ← authenticate_mailbox codec q mailbox_id writing
  charge (allow_write q)
  write_body settings mailbox_id q

-- What follows the token.
unfoldable pub ack_body : Codec → String → Request → Route ℕ
unfolding query db_ack_messages
ack_body codec mailbox_id q = elim (codec.upto_seq q.body) [
  | none ↦ raise 400
  | some upto_seq ↦ query unexpected (db_ack_messages mailbox_id upto_seq)
]

unfoldable pub ack_messages : Codec → String → Request → Route ℕ
unfolding authenticate_mailbox ack_body
ack_messages codec mailbox_id q = do
  _ ← authenticate_mailbox codec q mailbox_id reading
  ack_body codec mailbox_id q

unfoldable pub delete_mailbox : Codec → String → Request → Route (ℕ × ℕ)
unfolding authenticate_mailbox query db_delete_mailbox
delete_mailbox codec mailbox_id q = do
  _ ← authenticate_mailbox codec q mailbox_id reading
  query unexpected (db_delete_mailbox mailbox_id)
