-- ===== src/Relay/Sound/Upload.antt =====
-- `put_blob` keeps the tables sound: what it adds fits into the quota of its mailbox.
use noknowledge.Base.{
  ℕ, ◌+◌, ◌≤◌, String, Bytes, ◌≡◌, some, [], ◌∷◌, ◌++◌, arith, ◌==◌, eq_String, eq_law, inl, inr,
  if◌then◌else◌, first, sum, ltb, length, sum-append, Option-cases, Bool-cases,
}
use noknowledge.Base.Outcome.{ok, err}
use noknowledge.Relay.Schema.{
  RelayError, mailbox_not_found, quota_exceeded, integrity_error, Mailbox, Database,
}
use noknowledge.Relay.Mailboxes.{blob_in_mailbox, find_mailbox}
use noknowledge.Relay.Messages.{used_bytes}
use noknowledge.Relay.Blobs.{has_chunk, blob_row, put_blob}
use noknowledge.Relay.Sound.{IsSound}

module _ (chunk id : String) (ct : Bytes) (now : ℕ) (db : Database) where
  abbrev pub with_blob : Database
  with_blob = record db { blobs = db.blobs ++ blob_row chunk id ct now ∷ [] }

  -- What a call of `put_blob` does: nothing, or one row under the quota.
  pub data Uploaded : Type 0 where
    refused : (e : RelayError) → put_blob chunk id ct now db ≡ (err e, db) → Uploaded
    uploaded :
        (m : Mailbox)
        → find_mailbox id db ≡ some m
        → used_bytes id db + length ct ≤ m.max_bytes
        → put_blob chunk id ct now db ≡ (ok tt, with_blob)
        → Uploaded

  pub put_blob-Uploaded : Uploaded
  unfolding put_blob
  put_blob-Uploaded = elim (Option-cases (find_mailbox id db)) [
    | inl e ↦ refused mailbox_not_found (ground arith)
    | inr (m, e) ↦ elim (Bool-cases (ltb m.max_bytes (used_bytes id db + length ct))) [
      | inl full ↦ refused quota_exceeded (ground arith)
      | inr room ↦ elim (Option-cases (first (has_chunk chunk) db.blobs)) [
        | inl new ↦ uploaded m e (ground arith) (ground arith)
        | inr (r, old) ↦ refused integrity_error (ground arith)
      ]
    ]
  ]

  used-with_blob :
      (j : String) → used_bytes j with_blob ≡ used_bytes j db + (if id == j then length ct else 0)
  unfolding sum
  used-with_blob j =
      ground (
        arith,
        sum-append (blob_in_mailbox j) (λ b. b.size) db.blobs (blob_row chunk id ct now ∷ []),
      )

  with_blob-IsSound :
      (m : Mailbox)
      → find_mailbox id db ≡ some m
      → used_bytes id db + length ct ≤ m.max_bytes
      → IsSound db
      → IsSound with_blob
  with_blob-IsSound m found fits h = record {
    quota = λ j x e. ground (arith, used-with_blob j, eq_law id j, h.quota j x);
    no_orphans = λ j e. ground (arith, used-with_blob j, eq_law id j, h.no_orphans j);
    numbered = h.numbered;
    unique = h.unique;
    ascending = h.ascending;
  }

  pub put_blob-IsSound : IsSound db → IsSound (put_blob chunk id ct now db).1
  put_blob-IsSound h = elim put_blob-Uploaded [
    | refused x e ↦ rw e h
    | uploaded m found fits e ↦ rw e (with_blob-IsSound m found fits h)
  ]
