-- ===== src/Relay/Messages.antt =====
-- noknowledge/server/db.py: `usage`, `put_message`, `get_messages` and `ack_messages`.
use noknowledge.Base.{
  ℕ, ◌+◌, String, Bytes, Bool, ◌&&◌, ◌||◌, none, some, List, [], ◌∷◌, ◌++◌, ◌==◌, eq_String, eq_ℕ,
  ltb, leb, if◌then◌else◌, length, take, select, delete, update, first, count, sum, order_by,
}
use noknowledge.Base.Int.{ℤ, leb_ℤ, ltb_ℤ}
use noknowledge.Base.Outcome.{ok, err}
use noknowledge.Relay.Schema.{
  Mailbox, Message, Database, Transaction, connect, mailbox_not_found, quota_exceeded,
  integrity_error,
}
use noknowledge.Relay.Mailboxes.{has_id, in_mailbox, blob_in_mailbox, find_mailbox}

-- How many messages a mailbox holds, and how many bytes with its blobs.
abbrev pub message_count : String → Database → ℕ
message_count mailbox_id db = count (in_mailbox mailbox_id) db.messages

abbrev pub used_bytes : String → Database → ℕ
used_bytes mailbox_id db =
    sum (in_mailbox mailbox_id) (λ m. m.size) db.messages
    + sum (blob_in_mailbox mailbox_id) (λ b. b.size) db.blobs

unfoldable pub usage : String → Database → ℕ × ℕ
usage mailbox_id db = (message_count mailbox_id db, used_bytes mailbox_id db)

abbrev pub message_row : Mailbox → Bytes → ℕ → Message
message_row mailbox ciphertext now = record {
  mailbox_id = mailbox.id;
  seq = mailbox.next_seq;
  ciphertext = ciphertext;
  created_at = now;
  size = length ciphertext;
}

-- The two statements that store a message.
unfoldable pub write_message : Mailbox → Bytes → ℕ → Database → Database
write_message mailbox ciphertext now db = record db {
  messages = db.messages ++ message_row mailbox ciphertext now ∷ [];
  mailboxes =
      update (has_id mailbox.id)
        (λ m. record m { last_seen = now; next_seq = mailbox.next_seq + 1 }) db.mailboxes;
}

-- UNIQUE (mailbox_id, seq) refuses a number that is taken.
unfoldable pub store_message : Mailbox → Bytes → ℕ → Transaction ℕ
unfolding write_message
store_message mailbox ciphertext now db =
    elim (first (λ m. in_mailbox mailbox.id m && m.seq == mailbox.next_seq) db.messages) [
      | some _ ↦ (err integrity_error, db)
      | none ↦ (ok mailbox.next_seq, write_message mailbox ciphertext now db)
    ]

unfoldable pub put_message : String → Bytes → ℕ → Transaction ℕ
unfolding connect usage store_message
put_message mailbox_id ciphertext now = connect λ db. elim (find_mailbox mailbox_id db) [
  | none ↦ (err mailbox_not_found, db)
  | some mailbox ↦
      let (held, used) = usage mailbox_id db in
      if leb mailbox.max_messages held || ltb mailbox.max_bytes (used + length ciphertext)
      then (err quota_exceeded, db)
      else store_message mailbox ciphertext now db
]

-- The rows of a mailbox after `after_seq`, in the order of their numbers, `limit` at most.
unfoldable pub page : String → ℤ → ℕ → Database → List Message
page mailbox_id after_seq limit db = take limit (
    order_by (λ m. m.seq)
      (select (λ m. in_mailbox mailbox_id m && ltb_ℤ after_seq m.seq) db.messages))

unfoldable pub get_messages : String → ℤ → ℕ → Transaction (List Message)
unfolding connect page
get_messages mailbox_id after_seq limit =
    connect λ db. (ok (page mailbox_id after_seq limit db), db)

abbrev pub acked : String → ℤ → Message → Bool
acked mailbox_id upto_seq m = in_mailbox mailbox_id m && leb_ℤ m.seq upto_seq

-- Returns how many messages went.
unfoldable pub ack_messages : String → ℤ → Transaction ℕ
unfolding connect
ack_messages mailbox_id upto_seq = connect λ db. (
  ok (count (acked mailbox_id upto_seq) db.messages),
  record db { messages = delete (acked mailbox_id upto_seq) db.messages },
)
