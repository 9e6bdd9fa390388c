-- ===== src/Relay/Run.antt =====
-- Every operation of `Database` that writes, as one step, and the steps of a relay in the order in
-- which SQLite serialises them. A step also tells which one-time prekey it handed out.
use noknowledge.Base.{ℕ, String, Bytes, Option, List, [], ◌∷◌, ◌++◌, some}
use noknowledge.Base.Int.{ℤ}
use noknowledge.Base.Outcome.{ok}
use noknowledge.Relay.Schema.{Database}
use noknowledge.Relay.Mailboxes.{create_mailbox, delete_mailbox, touch_mailbox}
use noknowledge.Relay.Messages.{put_message, ack_messages}
use noknowledge.Relay.Prekeys.{publish_bundle, fetch_bundle}
use noknowledge.Relay.Blobs.{put_blob, delete_blob}
use noknowledge.Relay.Housekeeping.{housekeeping}

pub data Step : Type 0 where
  create : String → Bytes → Bytes → ℕ → ℕ → ℕ → Step
  remove : String → Step
  touch : String → ℕ → Step
  put : String → Bytes → ℕ → Step
  ack : String → ℤ → Step
  publish : String → String → List (Option (ℤ × String)) → ℕ → Step
  fetch : String → Step
  upload : String → String → Bytes → ℕ → Step
  discard : String → Step
  clean : ℕ → ℕ → ℕ → Step

-- The state after a step, and whether the operation raised.
unfoldable pub step : Step → Database → Database
step (create id r w now messages bytes) db = (create_mailbox id r w now messages bytes db).1
step (remove id) db = (delete_mailbox id db).1
step (touch id now) db = (touch_mailbox id now db).1
step (put id ct now) db = (put_message id ct now db).1
step (ack id upto) db = (ack_messages id upto db).1
step (publish id payload opks now) db = (publish_bundle id payload opks now db).1
step (fetch id) db = (fetch_bundle id db).1
step (upload chunk id ct now) db = (put_blob chunk id ct now db).1
step (discard chunk) db = (delete_blob chunk db).1
step (clean now mailbox_ttl blob_ttl) db = (housekeeping now mailbox_ttl blob_ttl db).1

unfoldable pub run : List Step → Database → Database
run [] db = db
run (s ∷ steps) db = run steps (step s db)

-- The one-time prekey that a step hands to a client, by its bundle and its number.
unfoldable pub handed : Step → Database → List (String × ℤ)
handed (fetch id) db = elim (fetch_bundle id db).0 [
  | ok (payload, some (opk_id, opk)) ↦ (id, opk_id) ∷ []
  | _ ↦ []
]
handed _ db = []

unfoldable pub hand_outs : List Step → Database → List (String × ℤ)
unfolding handed step
hand_outs [] db = []
hand_outs (s ∷ steps) db = handed s db ++ hand_outs steps (step s db)
