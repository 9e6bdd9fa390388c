-- ===== src/Relay/Sound/Exact.antt =====
-- Every operation of `Database` writes rows with the size of what they hold, and leaves no chunk of
-- a mailbox that does not exist.
use noknowledge.Base.{
  ℕ, String, Bytes, ◌≡◌, refl, Bool, some, List, [], ◌∷◌, arith, ◌==◌, eq_String, eq_law, inl, inr,
  count, delete, All-append, count-append, count-delete_sub, count-delete-le, Option-cases,
  Bool-cases,
}
use noknowledge.Base.Int.{ℤ}
use noknowledge.Relay.Schema.{Mailbox, Blob, Database}
use noknowledge.Relay.Mailboxes.{
  in_mailbox, blob_in_mailbox, find_mailbox, drop_mailbox, create_mailbox, touch_mailbox,
}
use noknowledge.Relay.Messages.{message_row, write_message, put_message, acked, ack_messages}
use noknowledge.Relay.Blobs.{has_chunk, blob_row, put_blob, delete_blob}
use noknowledge.Relay.Housekeeping.{drop_all, stale_ids, housekeeping}
use noknowledge.Relay.Sound.{IsExact}
use noknowledge.Relay.Sound.Observe.{same_key, find-drop_mailbox, find-update}
use noknowledge.Relay.Sound.Rows.{All-delete}
use noknowledge.Relay.Sound.Boxes.{fresh_row, with_row, find-with_row}
use noknowledge.Relay.Sound.Put.{put_message-Stored, refused, stored, find-write_message}
use noknowledge.Relay.Sound.Upload.{put_blob-Uploaded, with_blob}
use noknowledge.Relay.Sound.Upload

module _ (k : String) (db : Database) (h : IsExact db) where
  pub drop_mailbox-IsExact : IsExact (drop_mailbox k db)
  unfolding drop_mailbox
  drop_mailbox-IsExact = record {
    sized = All-delete _ (in_mailbox k) db.messages h.sized;
    chunks_sized = All-delete _ (blob_in_mailbox k) db.blobs h.chunks_sized;
    owned = λ j e. elim (Bool-cases (j == k)) [
      | inl same ↦ omega (
        arith,
        count-delete_sub (blob_in_mailbox j) (blob_in_mailbox k) db.blobs
            (λ b. same_key b.mailbox_id j k same),
      )
      | inr other ↦ omega (
        arith,
        count-delete-le (blob_in_mailbox j) (blob_in_mailbox k) db.blobs,
        h.owned j (ground (arith, find-drop_mailbox k j db, other)),
      )
    ];
  }

  pub touch_mailbox-IsExact : (now : ℕ) → IsExact (touch_mailbox k now db).1
  unfolding touch_mailbox
  touch_mailbox-IsExact now = record {
    sized = h.sized;
    chunks_sized = h.chunks_sized;
    owned = λ j e.
        let moved = find-update k j db (λ m. record m { last_seen = now }) (λ _. refl) in
        elim (Option-cases (find_mailbox j db)) [
          | inl gone ↦ h.owned j gone
          | inr (y, found) ↦ absurd (ground arith)
        ];
  }

pub create_mailbox-IsExact :
    (id : String) (r w : Bytes) (now messages bytes : ℕ) (db : Database)
    → IsExact db
    → IsExact (create_mailbox id r w now messages bytes db).1
unfolding create_mailbox
create_mailbox-IsExact id r w now messages bytes db h = elim (Option-cases (find_mailbox id db)) [
  | inl free ↦
      let m = fresh_row id r w now messages bytes in
      let made : (create_mailbox id r w now messages bytes db).1 ≡ with_row m db = ground arith in
      rw made (record {
        sized = h.sized;
        chunks_sized = h.chunks_sized;
        owned = λ j e. h.owned j (ground (arith, find-with_row m db free j));
      })
  | inr (m, taken) ↦
      let kept : (create_mailbox id r w now messages bytes db).1 ≡ db = ground arith in rw kept h
]

module _ (db : Database) (h : IsExact db) where
  write_message-IsExact :
      (id : String) (m : Mailbox) (ct : Bytes) (now : ℕ)
      → find_mailbox id db ≡ some m
      → IsExact (write_message m ct now db)
  unfolding write_message
  write_message-IsExact id m ct now found = record {
    sized = All-append _ db.messages (message_row m ct now ∷ []) h.sized (refl, tt);
    chunks_sized = h.chunks_sized;
    owned = λ j e. h.owned j (ground (arith, find-write_message id m ct now db found j));
  }

  pub put_message-IsExact :
      (id : String) (ct : Bytes) (now : ℕ) → IsExact (put_message id ct now db).1
  put_message-IsExact id ct now = elim (put_message-Stored id ct now db) [
    | refused x e ↦ rw e h
    | stored m found few fits e ↦ rw e (write_message-IsExact id m ct now found)
  ]

  pub ack_messages-IsExact : (id : String) (upto : ℤ) → IsExact (ack_messages id upto db).1
  unfolding ack_messages
  ack_messages-IsExact id upto = record {
    sized = All-delete _ (acked id upto) db.messages h.sized;
    chunks_sized = h.chunks_sized;
    owned = h.owned;
  }

  pub put_blob-IsExact :
      (chunk id : String) (ct : Bytes) (now : ℕ) → IsExact (put_blob chunk id ct now db).1
  unfolding count
  put_blob-IsExact chunk id ct now = elim (put_blob-Uploaded chunk id ct now db) [
    | Upload.refused x e ↦ rw e h
    | Upload.uploaded m found fits e ↦ rw e (record {
      sized = h.sized;
      chunks_sized =
          All-append _ db.blobs (blob_row chunk id ct now ∷ []) h.chunks_sized (refl, tt);
      owned = λ j k. ground (
        arith,
        count-append (blob_in_mailbox j) db.blobs (blob_row chunk id ct now ∷ []),
        eq_law id j,
        found,
        h.owned j k,
      );
    })
  ]

  delete_blobs-IsExact : (q : Blob → Bool) → IsExact (record db { blobs = delete q db.blobs })
  delete_blobs-IsExact q = record {
    sized = h.sized;
    chunks_sized = All-delete _ q db.blobs h.chunks_sized;
    owned = λ j e. omega (arith, count-delete-le (blob_in_mailbox j) q db.blobs, h.owned j e);
  }

  pub delete_blob-IsExact : (chunk : String) → IsExact (delete_blob chunk db).1
  unfolding delete_blob
  delete_blob-IsExact chunk = delete_blobs-IsExact (has_chunk chunk)

  -- What writes none of the three tables.
  pub same-IsExact :
      (db' : Database)
      → (db'.mailboxes ≡ db.mailboxes) × (db'.messages ≡ db.messages) × (db'.blobs ≡ db.blobs)
      → IsExact db'
  same-IsExact db' (a, b, c) = record {
    sized = rw b h.sized;
    chunks_sized = rw c h.chunks_sized;
    owned = λ j. rw (a, c) (h.owned j);
  }

drop_all-IsExact :
    (ids : List String) (m b : ℕ) (db : Database) → IsExact db → IsExact (drop_all ids (m, b, db)).2
unfolding drop_all
drop_all-IsExact [] m b db h = h
drop_all-IsExact (id ∷ ids) m b db h =
    drop_all-IsExact ids _ _ (drop_mailbox id db) (drop_mailbox-IsExact id db h)

pub housekeeping-IsExact :
    (now mailbox_ttl blob_ttl : ℕ) (db : Database)
    → IsExact db
    → IsExact (housekeeping now mailbox_ttl blob_ttl db).1
unfolding housekeeping
housekeeping-IsExact now mailbox_ttl blob_ttl db h =
    delete_blobs-IsExact _ (drop_all-IsExact (stale_ids now mailbox_ttl db) 0 0 db h) _
