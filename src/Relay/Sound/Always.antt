-- ===== src/Relay/Sound/Always.antt =====
-- Every operation of `Database` keeps the tables sound, so every relay has sound tables.
use noknowledge.Base.{List, [], ◌∷◌, arith}
use noknowledge.Relay.Schema.{Database, empty_database}
use noknowledge.Relay.Run.{
  Step, create, remove, touch, put, ack, publish, fetch, upload, discard, clean, step, run,
}
use noknowledge.Relay.Sound.{IsSound, IsExact}
use noknowledge.Relay.Sound.Boxes.{
  create_mailbox-IsSound, delete_mailbox-IsSound, touch_mailbox-IsSound,
}
use noknowledge.Relay.Sound.Put.{put_message-IsSound}
use noknowledge.Relay.Sound.Upload.{put_blob-IsSound}
use noknowledge.Relay.Sound.Traffic.{
  ack_messages-IsSound, publish_bundle-IsSound, fetch_bundle-IsSound, delete_blob-IsSound,
  housekeeping-IsSound, publish_bundle-keeps, fetch_bundle-keeps,
}
use noknowledge.Relay.Mailboxes.{delete_mailbox}
use noknowledge.Relay.Sound.Exact.{
  drop_mailbox-IsExact, create_mailbox-IsExact, touch_mailbox-IsExact, put_message-IsExact,
  ack_messages-IsExact, put_blob-IsExact, delete_blob-IsExact, same-IsExact, housekeeping-IsExact,
}
use noknowledge.Base.{first, count, sum}

pub step-IsSound : (s : Step) (db : Database) → IsSound db → IsSound (step s db)
unfolding step
step-IsSound (create id r w now messages bytes) db h =
    create_mailbox-IsSound id r w now messages bytes db h
step-IsSound (remove id) db h = delete_mailbox-IsSound id db h
step-IsSound (touch id now) db h = touch_mailbox-IsSound id db h now
step-IsSound (put id ct now) db h = put_message-IsSound id ct now db h
step-IsSound (ack id upto) db h = ack_messages-IsSound db h id upto
step-IsSound (publish id payload opks now) db h = publish_bundle-IsSound db h id payload opks now
step-IsSound (fetch id) db h = fetch_bundle-IsSound db h id
step-IsSound (upload chunk id ct now) db h = put_blob-IsSound chunk id ct now db h
step-IsSound (discard chunk) db h = delete_blob-IsSound db h chunk
step-IsSound (clean now mailbox_ttl blob_ttl) db h =
    housekeeping-IsSound now mailbox_ttl blob_ttl db h

pub empty-IsSound : IsSound empty_database
unfolding first count sum
empty-IsSound = record {
  quota = λ id m e. ground arith;
  no_orphans = λ id e. omega arith;
  numbered = λ id m e. tt;
  unique = λ id. omega arith;
  ascending = tt;
}

pub run_from-IsSound : (steps : List Step) (db : Database) → IsSound db → IsSound (run steps db)
unfolding run
run_from-IsSound [] db h = h
run_from-IsSound (s ∷ steps) db h = run_from-IsSound steps (step s db) (step-IsSound s db h)

step-IsExact : (s : Step) (db : Database) → IsExact db → IsExact (step s db)
unfolding step delete_mailbox
step-IsExact (create id r w now messages bytes) db h =
    create_mailbox-IsExact id r w now messages bytes db h
step-IsExact (remove id) db h = drop_mailbox-IsExact id db h
step-IsExact (touch id now) db h = touch_mailbox-IsExact id db h now
step-IsExact (put id ct now) db h = put_message-IsExact db h id ct now
step-IsExact (ack id upto) db h = ack_messages-IsExact db h id upto
step-IsExact (publish id payload opks now) db h =
    same-IsExact db h _ (publish_bundle-keeps id payload opks now db)
step-IsExact (fetch id) db h = same-IsExact db h _ (fetch_bundle-keeps id db)
step-IsExact (upload chunk id ct now) db h = put_blob-IsExact db h chunk id ct now
step-IsExact (discard chunk) db h = delete_blob-IsExact db h chunk
step-IsExact (clean now mailbox_ttl blob_ttl) db h =
    housekeeping-IsExact now mailbox_ttl blob_ttl db h

run_from-IsExact : (steps : List Step) (db : Database) → IsExact db → IsExact (run steps db)
unfolding run
run_from-IsExact [] db h = h
run_from-IsExact (s ∷ steps) db h = run_from-IsExact steps (step s db) (step-IsExact s db h)

empty-IsExact : IsExact empty_database
unfolding count
empty-IsExact = record { sized = tt; chunks_sized = tt; owned = λ id e. omega arith }

-- Whatever operations a relay has run since its tables were created, in whatever order, no mailbox
-- holds more messages or more bytes (blobs included) than its quota, where the size of each message
-- and of each blob that is counted is the length of its ciphertext. No message and no blob belongs
-- to a mailbox that does not exist, the messages of a mailbox stand in the order of their numbers,
-- the next number of a mailbox is above all of them, and no two mailboxes have one id.
pub run-IsSound :
    (steps : List Step) → IsSound (run steps empty_database) × IsExact (run steps empty_database)
run-IsSound steps = (
  run_from-IsSound steps empty_database empty-IsSound,
  run_from-IsExact steps empty_database empty-IsExact,
)
