-- ===== src/Relay/Sound/Traffic.antt =====
-- Acknowledgements, blobs, prekeys and housekeeping keep the tables sound.
use noknowledge.Base.{
  ℕ, ◌≤◌, String, ◌≡◌, refl, Bool, Option, none, some, List, [], ◌∷◌, arith, eq_String, sum, delete,
  count-delete-le, sum-delete-le,
}
use noknowledge.Base.Int.{ℤ}
use noknowledge.Relay.Schema.{Blob, Database, connect}
use noknowledge.Relay.Mailboxes.{in_mailbox, blob_in_mailbox, drop_mailbox}
use noknowledge.Relay.Messages.{message_count, used_bytes, acked, ack_messages}
use noknowledge.Relay.Prekeys.{publish_bundle, fetch_bundle, put_payload, add_all, add_one_time}
use noknowledge.Relay.Blobs.{has_chunk, delete_blob}
use noknowledge.Relay.Housekeeping.{drop_all, stale_ids, housekeeping}
use noknowledge.Relay.Sound.{IsSound}
use noknowledge.Relay.Sound.Boxes.{drop_mailbox-IsSound}
use noknowledge.Relay.Sound.Rows.{All-delete, Ascending-delete}

module _ (db : Database) (h : IsSound db) where
  pub ack_messages-IsSound : (id : String) (upto : ℤ) → IsSound (ack_messages id upto db).1
  unfolding ack_messages
  ack_messages-IsSound id upto = record {
    quota = λ j x e. omega (arith, h.quota j x e, count_less j, used_less j);
    no_orphans = λ j e. omega (arith, h.no_orphans j e, count_less j, used_less j);
    numbered = λ j x e. All-delete _ (acked id upto) db.messages (h.numbered j x e);
    unique = h.unique;
    ascending = Ascending-delete (acked id upto) db.messages h.ascending;
  }
    where
      count_less : (j : String) → message_count j (ack_messages id upto db).1 ≤ message_count j db
      count_less j = count-delete-le (in_mailbox j) (acked id upto) db.messages

      used_less : (j : String) → used_bytes j (ack_messages id upto db).1 ≤ used_bytes j db
      used_less j =
          omega (arith, sum-delete-le (in_mailbox j) (acked id upto) (λ m. m.size) db.messages)

  delete_blobs-IsSound : (q : Blob → Bool) → IsSound (record db { blobs = delete q db.blobs })
  delete_blobs-IsSound q = record {
    quota = λ j x e. omega (arith, h.quota j x e, used_less j);
    no_orphans = λ j e. omega (arith, h.no_orphans j e, used_less j);
    numbered = h.numbered;
    unique = h.unique;
    ascending = h.ascending;
  }
    where
      used_less :
          (j : String)
          → sum (blob_in_mailbox j) (λ b. b.size) (delete q db.blobs)
            ≤ sum (blob_in_mailbox j) (λ b. b.size) db.blobs
      used_less j = sum-delete-le (blob_in_mailbox j) q (λ b. b.size) db.blobs

  pub delete_blob-IsSound : (chunk : String) → IsSound (delete_blob chunk db).1
  unfolding delete_blob
  delete_blob-IsSound chunk = delete_blobs-IsSound (has_chunk chunk)

  -- The mailboxes, messages and blobs are all that soundness is about.
  same-IsSound :
      (db' : Database)
      → db'.mailboxes ≡ db.mailboxes
      → db'.messages ≡ db.messages
      → db'.blobs ≡ db.blobs
      → IsSound db'
  same-IsSound db' a b c = record {
    quota = λ j x. rw (a, b, c) (h.quota j x);
    no_orphans = λ j. rw (a, b, c) (h.no_orphans j);
    numbered = λ j x. rw (a, b) (h.numbered j x);
    unique = λ j. rw a (h.unique j);
    ascending = rw b h.ascending;
  }

-- The prekey operations leave the other tables alone.
add_all-keeps :
    (id : String) (opks : List (Option (ℤ × String))) (db : Database)
    → ((add_all id opks db).1.mailboxes ≡ db.mailboxes)
      × ((add_all id opks db).1.messages ≡ db.messages)
      × ((add_all id opks db).1.blobs ≡ db.blobs)
unfolding add_all
add_all-keeps id [] db = (refl, refl, refl)
add_all-keeps id (none ∷ opks) db = (refl, refl, refl)
add_all-keeps id (some (k, v) ∷ opks) db =
    ground (arith, add_all-keeps id opks (add_one_time id k v db))

put_payload-keeps :
    (id payload : String) (now : ℕ) (db : Database)
    → ((put_payload id payload now db).mailboxes ≡ db.mailboxes)
      × ((put_payload id payload now db).messages ≡ db.messages)
      × ((put_payload id payload now db).blobs ≡ db.blobs)
unfolding put_payload
put_payload-keeps id payload now db = ground arith

pub publish_bundle-keeps :
    (id payload : String) (opks : List (Option (ℤ × String))) (now : ℕ) (db : Database)
    → ((publish_bundle id payload opks now db).1.mailboxes ≡ db.mailboxes)
      × ((publish_bundle id payload opks now db).1.messages ≡ db.messages)
      × ((publish_bundle id payload opks now db).1.blobs ≡ db.blobs)
unfolding connect
publish_bundle-keeps id payload opks now db =
    let kept = add_all-keeps id opks (put_payload id payload now db) in
    let before = put_payload-keeps id payload now db in unfold publish_bundle in ground arith

pub fetch_bundle-keeps :
    (id : String) (db : Database)
    → ((fetch_bundle id db).1.mailboxes ≡ db.mailboxes)
      × ((fetch_bundle id db).1.messages ≡ db.messages)
      × ((fetch_bundle id db).1.blobs ≡ db.blobs)
unfolding fetch_bundle
fetch_bundle-keeps id db = ground arith

module _ (db : Database) (h : IsSound db) where
  pub publish_bundle-IsSound :
      (id payload : String) (opks : List (Option (ℤ × String))) (now : ℕ)
      → IsSound (publish_bundle id payload opks now db).1
  publish_bundle-IsSound id payload opks now =
      let (a, b, c) = publish_bundle-keeps id payload opks now db in same-IsSound db h _ a b c

  pub fetch_bundle-IsSound : (id : String) → IsSound (fetch_bundle id db).1
  fetch_bundle-IsSound id = let (a, b, c) = fetch_bundle-keeps id db in same-IsSound db h _ a b c

-- The loop of `housekeeping`, and its sweep.
drop_all-IsSound :
    (ids : List String) (m b : ℕ) (db : Database) → IsSound db → IsSound (drop_all ids (m, b, db)).2
unfolding drop_all
drop_all-IsSound [] m b db h = h
drop_all-IsSound (id ∷ ids) m b db h =
    drop_all-IsSound ids _ _ (drop_mailbox id db) (drop_mailbox-IsSound id db h)

pub housekeeping-IsSound :
    (now mailbox_ttl blob_ttl : ℕ) (db : Database)
    → IsSound db
    → IsSound (housekeeping now mailbox_ttl blob_ttl db).1
unfolding housekeeping
housekeeping-IsSound now mailbox_ttl blob_ttl db h =
    delete_blobs-IsSound _ (drop_all-IsSound (stale_ids now mailbox_ttl db) 0 0 db h) _
