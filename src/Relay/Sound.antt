-- ===== src/Relay/Sound.antt =====
-- The invariant of the relay's tables (noknowledge/server/db.py), kept by every operation.
pub mod Observe
pub mod Rows
pub mod Put
pub mod Boxes
pub mod Traffic
pub mod Upload
pub mod Exact
pub mod Always
use noknowledge.Base.{ℕ, ◌≤◌, ◌<◌, String, ◌≡◌, none, some, true, List, [], ◌∷◌, All, count, length}
use noknowledge.Relay.Schema.{Mailbox, Message, Blob, Database}
use noknowledge.Relay.Mailboxes.{has_id, in_mailbox, blob_in_mailbox, find_mailbox}
use noknowledge.Relay.Messages.{message_count, used_bytes}

-- The messages of one mailbox stand in the table in the order of their numbers.
abbrev pub Ascending : List Message → Type 0
Ascending [] = Unit
Ascending (r ∷ rs) =
    All (λ (r' : Message). in_mailbox r.mailbox_id r' ≡ true → r.seq < r'.seq) rs × Ascending rs

abbrev pub Below : String → ℕ → Message → Type 0
Below id n r = in_mailbox id r ≡ true → r.seq < n

pub record IsSound (db : Database) : Type 0 where
  pub quota :
      (id : String) (m : Mailbox)
      → find_mailbox id db ≡ some m
      → (message_count id db ≤ m.max_messages) × (used_bytes id db ≤ m.max_bytes)
  pub no_orphans :
      (id : String) → find_mailbox id db ≡ none → (message_count id db ≤ 0) × (used_bytes id db ≤ 0)
  pub numbered :
      (id : String) (m : Mailbox)
      → find_mailbox id db ≡ some m
      → All (Below id m.next_seq) db.messages
  pub unique : (id : String) → count (has_id id) db.mailboxes ≤ 1
  pub ascending : Ascending db.messages

-- The size of every row is the length of its ciphertext, and no chunk, an empty one included,
-- belongs to a mailbox that does not exist.
pub record IsExact (db : Database) : Type 0 where
  pub sized : All (λ (r : Message). r.size ≡ length r.ciphertext) db.messages
  pub chunks_sized : All (λ (b : Blob). b.size ≡ length b.ciphertext) db.blobs
  pub owned : (id : String) → find_mailbox id db ≡ none → count (blob_in_mailbox id) db.blobs ≤ 0
