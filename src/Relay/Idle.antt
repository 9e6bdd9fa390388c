-- ===== src/Relay/Idle.antt =====
-- What `housekeeping` of noknowledge/server/db.py removes and what it leaves.
use noknowledge.Base.{
  ℕ, ◌+◌, ◌≤◌, String, ◌≡◌, refl, inl, inr, Bool, true, false, none, some, List, [], ◌∷◌, map,
  arith, ◌==◌, eq_String, eq_law, if◌then◌else◌, select, first, count, Bool-cases,
  count_of_first-none, none_of_count, select-delete_nil, ◌∙◌, select-delete_sub,
  select-delete_disjoint,
}
use noknowledge.Relay.Schema.{Mailbox, Blob, Database}
use noknowledge.Relay.Mailboxes.{has_id, in_mailbox, blob_in_mailbox, find_mailbox, drop_mailbox}
use noknowledge.Relay.Housekeeping.{
  is_idle, drop_all, is_stray, sweep_blobs, stale_ids, housekeeping,
}
use noknowledge.Relay.Queue.{queue}
use noknowledge.Relay.Sound.{IsSound}
use noknowledge.Relay.Sound.Observe.{find-drop_mailbox, same_key, other_key}

listed : String → List String → Bool
listed j [] = false
listed j (id ∷ ids) = if j == id then true else listed j ids

abbrev pub blobs_of : String → Database → List Blob
blobs_of j db = select (blob_in_mailbox j) db.blobs

module _ (j k : String) (db : Database) where
  queue-drop_mailbox : queue j (drop_mailbox k db) ≡ (if j == k then [] else queue j db)
  unfolding drop_mailbox
  queue-drop_mailbox = elim (Bool-cases (j == k)) [
    | inl e ↦ rw e (select-delete_sub _ _ db.messages (λ m. same_key m.mailbox_id j k e))
    | inr e ↦ rw e (select-delete_disjoint _ _ db.messages (λ m. other_key m.mailbox_id j k e))
  ]

  blobs-drop_mailbox : blobs_of j (drop_mailbox k db) ≡ (if j == k then [] else blobs_of j db)
  unfolding drop_mailbox
  blobs-drop_mailbox = elim (Bool-cases (j == k)) [
    | inl e ↦ rw e (select-delete_sub _ _ db.blobs (λ m. same_key m.mailbox_id j k e))
    | inr e ↦ rw e (select-delete_disjoint _ _ db.blobs (λ m. other_key m.mailbox_id j k e))
  ]

module _ (j : String) where
  -- The loop removes the mailboxes that are listed and nothing of the others.
  drop_all-effect :
      (ids : List String) (m b : ℕ) (db : Database)
      → (find_mailbox j (drop_all ids (m, b, db)).2
          ≡ (if listed j ids then none else find_mailbox j db))
        × (queue j (drop_all ids (m, b, db)).2 ≡ (if listed j ids then [] else queue j db))
        × (blobs_of j (drop_all ids (m, b, db)).2 ≡ (if listed j ids then [] else blobs_of j db))
  unfolding drop_all listed
  drop_all-effect [] m b db = (refl, refl, refl)
  drop_all-effect (id ∷ ids) m b db =
      let (f, q, s) =
        drop_all-effect ids (m + count (in_mailbox id) db.messages)
          (b + count (blob_in_mailbox id) db.blobs) (drop_mailbox id db) in
      ground
        (arith, find-drop_mailbox id j db, queue-drop_mailbox j id db, blobs-drop_mailbox j id db)

-- With one row to an id, a mailbox's id is listed as stale exactly if its row is idle.
listed-stale :
    (now ttl : ℕ) (j : String) (ms : List Mailbox)
    → count (has_id j) ms ≤ 1
    → listed j (map (λ m. m.id) (select (is_idle now ttl) ms))
      ≡ elim (first (has_id j) ms) [ none ↦ false | some m ↦ is_idle now ttl m ]
unfolding listed select first count
listed-stale now ttl j [] one = refl
listed-stale now ttl j (m ∷ ms) one = ground (
  arith,
  listed-stale now ttl j ms,
  count_of_first-none (has_id j) ms,
  none_of_count (has_id j) ms,
  eq_law m.id j,
  eq_law j m.id,
)

-- `housekeeping` in sound tables: a mailbox whose `last_seen` is longer ago than the time to live is
-- gone, with all its messages and blobs; every other mailbox keeps its row, its messages and its
-- blobs, to the last one.
pub housekeeping-effect :
    (now mailbox_ttl blob_ttl : ℕ) (db : Database) (j : String) (m : Mailbox)
    → IsSound db
    → find_mailbox j db ≡ some m
    → let db' = (housekeeping now mailbox_ttl blob_ttl db).1 in
      (find_mailbox j db' ≡ (if is_idle now mailbox_ttl m then none else some m))
      × (queue j db' ≡ (if is_idle now mailbox_ttl m then [] else queue j db))
      × (blobs_of j db' ≡ (if is_idle now mailbox_ttl m then [] else blobs_of j db))
unfolding housekeeping sweep_blobs
housekeeping-effect now mailbox_ttl blob_ttl db j m h found =
    let stale = stale_ids now mailbox_ttl db in
    let db' : Database = (drop_all stale (0, 0, db)).2 in
    let (f, q, s) = drop_all-effect j stale 0 0 db in
    let listing = listed-stale now mailbox_ttl j db.mailboxes (h.unique j) in
    (
      ground arith,
      ground arith,
      elim (Bool-cases (is_idle now mailbox_ttl m)) [
        | inl idle ↦ rw idle (
            select-delete_nil (blob_in_mailbox j) (is_stray now blob_ttl db') db'.blobs
              (ground arith))
        | inr busy ↦
            let there : find_mailbox j db' ≡ some m = ground arith in
            let whole : blobs_of j db' ≡ blobs_of j db = ground arith in
            rw busy (
              select-delete_disjoint (blob_in_mailbox j) (is_stray now blob_ttl db') db'.blobs
                (λ b e. ground (arith, eq_law b.mailbox_id j))
              ∙ whole)
      ],
    )
