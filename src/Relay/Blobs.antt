-- ===== src/Relay/Blobs.antt =====
-- noknowledge/server/db.py: `put_blob`, `get_blob` and `delete_blob`.
use noknowledge.Base.{
  ℕ, ◌+◌, String, Bytes, Bool, none, some, [], ◌∷◌, ◌++◌, ◌==◌, eq_String, ltb, if◌then◌else◌,
  length, delete, first,
}
use noknowledge.Base.Outcome.{ok, err, modify}
use noknowledge.Relay.Schema.{
  Blob, Transaction, connect, mailbox_not_found, quota_exceeded, blob_not_found, integrity_error,
}
use noknowledge.Relay.Mailboxes.{find_mailbox}
use noknowledge.Relay.Messages.{usage}

abbrev pub has_chunk : String → Blob → Bool
has_chunk chunk_id row = row.chunk_id == chunk_id

abbrev pub blob_row : String → String → Bytes → ℕ → Blob
blob_row chunk_id mailbox_id ciphertext now = record {
  chunk_id = chunk_id;
  mailbox_id = mailbox_id;
  ciphertext = ciphertext;
  size = length ciphertext;
  created_at = now;
}

-- The primary key of `blobs` refuses a chunk id that is taken.
unfoldable pub store_blob : String → String → Bytes → ℕ → Transaction Unit
store_blob chunk_id mailbox_id ciphertext now db = elim (first (has_chunk chunk_id) db.blobs) [
  | some _ ↦ (err integrity_error, db)
  | none ↦
      (ok tt, record db { blobs = db.blobs ++ blob_row chunk_id mailbox_id ciphertext now ∷ [] })
]

unfoldable pub put_blob : String → String → Bytes → ℕ → Transaction Unit
unfolding connect usage store_blob
put_blob chunk_id mailbox_id ciphertext now = connect λ db. elim (find_mailbox mailbox_id db) [
  | none ↦ (err mailbox_not_found, db)
  | some mailbox ↦
      let (_, used) = usage mailbox_id db in
      if ltb mailbox.max_bytes (used + length ciphertext)
      then (err quota_exceeded, db)
      else store_blob chunk_id mailbox_id ciphertext now db
]

unfoldable pub get_blob : String → Transaction Blob
unfolding connect
get_blob chunk_id = connect λ db. elim (first (has_chunk chunk_id) db.blobs) [
  | none ↦ (err blob_not_found, db)
  | some row ↦ (ok row, db)
]

unfoldable pub delete_blob : String → Transaction Unit
unfolding connect
delete_blob chunk_id =
    connect (modify λ db. record db { blobs = delete (has_chunk chunk_id) db.blobs })
