-- ===== src/Relay/Sound/Put.antt =====
-- `put_message` keeps the tables sound, and a number that it gives out is new.
use noknowledge.Base.{
  ℕ, ◌+◌, ◌≤◌, ◌<◌, String, Bytes, ◌≡◌, refl, ◌&&◌, ◌||◌, none, some, [], ◌∷◌, arith, ◌==◌,
  eq_String, eq_ℕ, eq_law, ltb, leb, inl, inr, if◌then◌else◌, length, first, count, sum,
  count-append, sum-append, count-update, All, All-append, Option-cases, Bool-cases,
}
use noknowledge.Base.Outcome.{ok, err}
use noknowledge.Relay.Schema.{
  RelayError, mailbox_not_found, quota_exceeded, integrity_error, Mailbox, Database,
}
use noknowledge.Relay.Mailboxes.{in_mailbox, has_id, find_mailbox}
use noknowledge.Relay.Messages.{message_count, used_bytes, message_row, write_message, put_message}
use noknowledge.Relay.Sound.{IsSound, Below}
use noknowledge.Relay.Sound.Observe.{find-update, found_id}
use noknowledge.Relay.Sound.Rows.{Below-suc, Ascending-append}

-- What a call of `put_message` does: nothing, or both statements under the quota.
pub data Stored (id : String) (ct : Bytes) (now : ℕ) (db : Database) : Type 0 where
  refused : (e : RelayError) → put_message id ct now db ≡ (err e, db) → Stored id ct now db
  stored :
      (m : Mailbox)
      → find_mailbox id db ≡ some m
      → message_count id db < m.max_messages
      → used_bytes id db + length ct ≤ m.max_bytes
      → put_message id ct now db ≡ (ok m.next_seq, write_message m ct now db)
      → Stored id ct now db

pub put_message-Stored : (id : String) (ct : Bytes) (now : ℕ) (db : Database) → Stored id ct now db
unfolding put_message
put_message-Stored id ct now db = elim (Option-cases (find_mailbox id db)) [
  | inl e ↦ refused mailbox_not_found (ground arith)
  | inr (m, e) ↦
      elim (Bool-cases (
        leb m.max_messages (message_count id db)
        || ltb m.max_bytes (used_bytes id db + length ct))) [
          | inl full ↦ refused quota_exceeded (ground arith)
          | inr room ↦
              elim (Option-cases
                (first (λ r. in_mailbox m.id r && r.seq == m.next_seq) db.messages)) [
                  | inl new ↦ stored m e (ground arith) (ground arith) (ground arith)
                  | inr (r, old) ↦ refused integrity_error (ground arith)
                ]
        ]
]

module _ (id : String) (m : Mailbox) (ct : Bytes) (now : ℕ) (db : Database)
    (found : find_mailbox id db ≡ some m) where
  count-write_message :
      (j : String)
      → message_count j (write_message m ct now db)
        ≡ message_count j db + (if m.id == j then 1 else 0)
  unfolding write_message count
  count-write_message j = count-append (in_mailbox j) db.messages (message_row m ct now ∷ [])

  used-write_message :
      (j : String)
      → used_bytes j (write_message m ct now db)
        ≡ used_bytes j db + (if m.id == j then length ct else 0)
  unfolding write_message sum
  used-write_message j =
      ground
        (arith, sum-append (in_mailbox j) (λ r. r.size) db.messages (message_row m ct now ∷ []))

  pub find-write_message :
      (j : String)
      → find_mailbox j (write_message m ct now db) ≡ (
          if m.id == j
          then some (record m { last_seen = now; next_seq = m.next_seq + 1 })
          else find_mailbox j db)
  unfolding write_message
  find-write_message j =
      let moved =
        find-update m.id j db (λ x. record x { last_seen = now; next_seq = m.next_seq + 1 })
          (λ _. refl) in
      let same : m.id ≡ id = found_id id db m found in
      elim (Option-cases (find_mailbox j db)) [
        | inl e ↦ ground (arith, eq_law m.id j)
        | inr (x, e) ↦ ground (arith, eq_law m.id j, eq_law x.id m.id, found_id j db x e)
      ]

  module _ (h : IsSound db) (few : message_count id db < m.max_messages)
      (fits : used_bytes id db + length ct ≤ m.max_bytes) where
    write_message-quota :
        (j : String) (x : Mailbox)
        → find_mailbox j (write_message m ct now db) ≡ some x
        → (message_count j (write_message m ct now db) ≤ x.max_messages)
          × (used_bytes j (write_message m ct now db) ≤ x.max_bytes)
    write_message-quota j x e = ground (
      arith,
      found_id id db m found,
      eq_law m.id j,
      find-write_message j,
      count-write_message j,
      used-write_message j,
      h.quota j x,
    )

    write_message-no_orphans :
        (j : String)
        → find_mailbox j (write_message m ct now db) ≡ none
        → (message_count j (write_message m ct now db) ≤ 0)
          × (used_bytes j (write_message m ct now db) ≤ 0)
    write_message-no_orphans j e =
        ground
          (arith, find-write_message j, count-write_message j, used-write_message j, h.no_orphans j)

    write_message-numbered :
        (j : String) (x : Mailbox)
        → find_mailbox j (write_message m ct now db) ≡ some x
        → All (Below j x.next_seq) (write_message m ct now db).messages
    unfolding write_message
    write_message-numbered j x e =
        let same : m.id ≡ id = found_id id db m found in
        elim (Bool-cases (m.id == j)) [
          | inl here ↦
              let to_id : j ≡ id = ground (arith, eq_law m.id j) in
              let next : x.next_seq ≡ m.next_seq + 1 = ground (arith, find-write_message j) in
              rw (to_id, next)
                (All-append _ db.messages (message_row m ct now ∷ [])
                  (Below-suc id m.next_seq db.messages (h.numbered id m found))
                  ((λ _. omega arith), tt))
          | inr there ↦
              All-append _ db.messages (message_row m ct now ∷ [])
                (h.numbered j x (ground (arith, find-write_message j))) ((λ k. cc), tt)
        ]

    pub write_message-IsSound : IsSound (write_message m ct now db)
    unfolding write_message
    write_message-IsSound = record {
      quota = write_message-quota;
      no_orphans = write_message-no_orphans;
      numbered = write_message-numbered;
      unique = λ j.
          rw
            (count-update (has_id j) (has_id m.id)
              (λ x. record x { last_seen = now; next_seq = m.next_seq + 1 }) db.mailboxes
              (λ _. refl))
            (h.unique j);
      ascending =
          Ascending-append db.messages (message_row m ct now) h.ascending
            (rw (found_id id db m found) (h.numbered id m found));
    }

-- `put_message` keeps the tables sound, whatever its result.
pub put_message-IsSound :
    (id : String) (ct : Bytes) (now : ℕ) (db : Database)
    → IsSound db
    → IsSound (put_message id ct now db).1
put_message-IsSound id ct now db h = elim (put_message-Stored id ct now db) [
  | refused x e ↦ rw e h
  | stored m found few fits e ↦ rw e (write_message-IsSound id m ct now db found h few fits)
]
