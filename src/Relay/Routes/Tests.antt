-- ===== src/Relay/Routes/Tests.antt =====
-- Concrete requests to the routes, with a codec that computes.
use noknowledge.Base.{false, ◌≡◌, refl, none, some, [], ◌∷◌, eq_String, first, bytes_eq}
use noknowledge.Base.Int.{pos}
use noknowledge.Relay.Schema.{Mailbox, empty_database}
use noknowledge.Relay.Limiter.{new_limiters}
use noknowledge.Relay.Security.{verify_token}
use noknowledge.Relay.Http.{
  Settings, Codec, Request, Server, token_from_header, mailbox_id_from_header,
}
use noknowledge.Relay.Routes.Boxes.{put_message, ack_messages, register_mailbox}
use noknowledge.Relay.Routes.Bundles.{publish_bundle}
use noknowledge.Relay.Routes.Atomicity.{Kept, writes-Kept}
use noknowledge.Relay.Routes.Refusals.{RouteRefused, delete_route, without_token}
use noknowledge.Relay.Routes.Registration.{registering_twice}

abbrev settings : Settings
settings = record {
  max_blob_bytes = 10;
  max_chunk_bytes = 10;
  max_messages_per_mailbox = 5;
  max_bytes_per_mailbox = 50;
  max_wait_seconds = 3;
  max_messages_per_fetch = 4;
  require_hashcash = false;
  hashcash_bits = 0;
}

abbrev codec : Codec
codec = record {
  code_points = λ text. [];
  b64e = λ b. "text";
  b64d = λ text. some (2 ∷ []);
  sha256 = λ b. 1 ∷ b;
  stamps = record { partition = λ text. none; parse_int = λ text. none; digest = λ n text. [] };
  capability_fields = λ b. none;
  upto_seq = λ b. some (pos 1);
  bundle_fields = λ b. none;
}

abbrev request : Request
request = record {
  client_key = "host";
  read_header = some "r";
  write_header = some "w";
  mailbox_header = some "box";
  chunk_header = none;
  hashcash_header = none;
  body = 9 ∷ [];
  now = 100;
  tick = 100;
}

-- A mailbox whose tokens are not those of the request.
abbrev strange : Mailbox
strange = record {
  id = "box";
  read_token_hash = 1 ∷ 3 ∷ [];
  write_token_hash = 1 ∷ 4 ∷ [];
  created_at = 0;
  last_seen = 0;
  max_messages = 5;
  max_bytes = 50;
  next_seq = 1;
}

abbrev server : Server
server = record {
  db = record empty_database { mailboxes = strange ∷ [] };
  limiters = new_limiters (pos 1) (pos 1) (pos 1);
}

-- A stranger's request to delete a mailbox.
without_token_example :
    RouteRefused settings codec "chunk" "box" (pos 0) (pos 0) [] request server delete_route
unfolding token_from_header mailbox_id_from_header verify_token first bytes_eq
without_token_example =
    without_token settings codec "chunk" "box" (pos 0) (pos 0) [] request server delete_route "box"
      refl refl

registering_twice_example :
    register_mailbox settings codec 7 "new"
      (2 ∷ [])
      (5 ∷ [])
      (register_mailbox settings codec 3 "new" (2 ∷ []) (5 ∷ []) server).1
    ≡ register_mailbox settings codec 3 "new" (2 ∷ []) (5 ∷ []) server
registering_twice_example =
    registering_twice settings codec "new" (2 ∷ []) (5 ∷ []) 3 7 server (λ t. refl) refl refl

writes-Kept_example :
    Kept (put_message settings codec "box" request) server
    × Kept (ack_messages codec "box" request) server
    × Kept (publish_bundle codec request) server
writes-Kept_example = writes-Kept settings codec "box" request server
