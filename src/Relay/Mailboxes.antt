-- ===== src/Relay/Mailboxes.antt =====
-- noknowledge/server/db.py: `create_mailbox`, `get_mailbox`, `require_mailbox`, `delete_mailbox`
-- and `touch_mailbox`.
use noknowledge.Base.{
  ℕ, String, Bytes, Bool, Option, none, some, [], ◌∷◌, ◌++◌, ◌==◌, eq_String, delete, update, first,
  count,
}
use noknowledge.Base.Outcome.{ok, err, pure, raise, gets, modify, ◌>>=◌}
use noknowledge.Relay.Schema.{
  Mailbox, Message, Blob, Database, Transaction, connect, mailbox_not_found, integrity_error,
}

-- WHERE id = ?, and WHERE mailbox_id = ? in the two tables that belong to a mailbox.
abbrev pub has_id : String → Mailbox → Bool
has_id mailbox_id row = row.id == mailbox_id

abbrev pub in_mailbox : String → Message → Bool
in_mailbox mailbox_id row = row.mailbox_id == mailbox_id

abbrev pub blob_in_mailbox : String → Blob → Bool
blob_in_mailbox mailbox_id row = row.mailbox_id == mailbox_id

abbrev pub find_mailbox : String → Database → Option Mailbox
find_mailbox mailbox_id db = first (has_id mailbox_id) db.mailboxes

unfoldable pub create_mailbox : String → Bytes → Bytes → ℕ → ℕ → ℕ → Transaction Unit
unfolding connect
create_mailbox mailbox_id read_token_hash write_token_hash now max_messages max_bytes =
    connect λ db. elim (find_mailbox mailbox_id db) [
      | some _ ↦ (err integrity_error, db)
      | none ↦ (
        ok tt,
        record db {
          mailboxes =
              db.mailboxes
              ++ record {
                id = mailbox_id;
                read_token_hash = read_token_hash;
                write_token_hash = write_token_hash;
                created_at = now;
                last_seen = now;
                max_messages = max_messages;
                max_bytes = max_bytes;
                next_seq = 1;
              }
                ∷ [];
        },
      )
    ]

unfoldable pub get_mailbox : String → Transaction (Option Mailbox)
unfolding connect
get_mailbox mailbox_id = connect (gets (find_mailbox mailbox_id))

unfoldable pub require_mailbox : String → Transaction Mailbox
unfolding get_mailbox
require_mailbox mailbox_id = do
  row ← get_mailbox mailbox_id
  elim row [ none ↦ raise mailbox_not_found | some m ↦ pure m ]

-- The rows of the mailbox go from all three tables.
unfoldable pub drop_mailbox : String → Database → Database
drop_mailbox mailbox_id db = record db {
  messages = delete (in_mailbox mailbox_id) db.messages;
  blobs = delete (blob_in_mailbox mailbox_id) db.blobs;
  mailboxes = delete (has_id mailbox_id) db.mailboxes;
}

-- Returns how many messages and blobs went.
unfoldable pub delete_mailbox : String → Transaction (ℕ × ℕ)
unfolding connect drop_mailbox
delete_mailbox mailbox_id = connect λ db. (
  ok (count (in_mailbox mailbox_id) db.messages, count (blob_in_mailbox mailbox_id) db.blobs),
  drop_mailbox mailbox_id db,
)

unfoldable pub touch_mailbox : String → ℕ → Transaction Unit
unfolding connect
touch_mailbox mailbox_id now = connect (
    modify λ db. record db {
      mailboxes = update (has_id mailbox_id) (λ m. record m { last_seen = now }) db.mailboxes;
    })
