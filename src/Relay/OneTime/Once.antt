-- ===== src/Relay/OneTime/Once.antt =====
-- No one-time prekey is handed out twice, whatever operations the relay runs in between.
use noknowledge.Base.{
  ◌∙◌, ℕ, ◌≤◌, ◌<◌, String, ◌≡◌, refl, ◌⊎◌, inl, inr, Bool, true, false, ◌&&◌, Option, none, some,
  List, [], ◌∷◌, arith, ◌==◌, eq_String, eq_law, first, count, count-append, count_of_first-none,
  Option-cases, Bool-cases,
}
use noknowledge.Base.Int.{ℤ, eq_ℤ}
use noknowledge.Base.Outcome.{Result, ok, err}
use noknowledge.Relay.Schema.{RelayError, OneTimePrekey, Database, empty_database, connect}
use noknowledge.Relay.Mailboxes.{create_mailbox, delete_mailbox, touch_mailbox, drop_mailbox}
use noknowledge.Relay.Messages.{put_message, ack_messages}
use noknowledge.Relay.Blobs.{put_blob, delete_blob}
use noknowledge.Relay.Housekeeping.{drop_all, housekeeping, stale_ids}
use noknowledge.Relay.Prekeys.{
  has_bundle, has_key, is_unused, add_one_time, add_all, put_payload, publish_bundle, next_one_time,
  fetch_bundle,
}
use noknowledge.Relay.Run.{
  Step, create, remove, touch, put, ack, publish, fetch, upload, discard, clean, step, handed,
  hand_outs,
}
use noknowledge.Relay.OneTime.{
  Has, Has-head?, Has-order_by, Has-select, is_open, IsSpent, key-marked, open-marked-le, key-pos,
  open-pos, open-marked,
}

module _ (b : String) (k : ℤ) where
  -- Publishing
  add_one_time-count :
      (b' : String) (k' : ℤ) (v : String) (db : Database)
      → count (has_key b k) db.one_time ≤ 1
      → (count (has_key b k) (add_one_time b' k' v db).one_time ≤ 1)
        × (count (has_key b k) db.one_time ≤ count (has_key b k) (add_one_time b' k' v db).one_time)
        × (0 < count (has_key b k) db.one_time
            → count (is_open b k) (add_one_time b' k' v db).one_time
              ≡ count (is_open b k) db.one_time)
  unfolding add_one_time count
  add_one_time-count b' k' v db one = elim (Option-cases (first (has_key b' k') db.one_time)) [
    | inr (r, old) ↦ ground arith
    | inl new ↦
        let row : OneTimePrekey = record {
          id = db.next_id;
          bundle_id = b';
          opk_id = k';
          opk = v;
          used = false;
        } in
        ground (
          arith,
          count_of_first-none (has_key b' k') db.one_time,
          count-append (has_key b k) db.one_time (row ∷ []),
          count-append (is_open b k) db.one_time (row ∷ []),
          eq_law b b',
          eq_law b' b,
          eq_law k' k,
        )
  ]

  add_all-count :
      (b' : String) (opks : List (Option (ℤ × String))) (db : Database)
      → count (has_key b k) db.one_time ≤ 1
      → (count (has_key b k) (add_all b' opks db).1.one_time ≤ 1)
        × (count (has_key b k) db.one_time ≤ count (has_key b k) (add_all b' opks db).1.one_time)
        × (0 < count (has_key b k) db.one_time
            → count (is_open b k) (add_all b' opks db).1.one_time ≡ count (is_open b k) db.one_time)
  unfolding add_all
  add_all-count b' [] db one = (one, omega arith, λ _. refl)
  add_all-count b' (none ∷ opks) db one = (one, omega arith, λ _. refl)
  add_all-count b' (some (k', v) ∷ opks) db one =
      let (one', grows, same) = add_one_time-count b' k' v db one in
      let (one'', grows', same') = add_all-count b' opks (add_one_time b' k' v db) one' in
      (one'', omega arith, λ pos. same' (omega arith) ∙ same pos)

-- A step keeps the keys apart, and what is spent stays spent.
abbrev Keeps : Database → Database → Type 0
Keeps db db' =
    (b : String) (k : ℤ)
    → count (has_key b k) db.one_time ≤ 1
    → (count (has_key b k) db'.one_time ≤ 1) × (IsSpent b k db → IsSpent b k db')

same-Keeps : (db db' : Database) → db'.one_time ≡ db.one_time → Keeps db db'
same-Keeps db db' e b k one = (rw e one, λ spent. rw e spent)

put_payload-one_time :
    (id payload : String) (now : ℕ) (db : Database)
    → (put_payload id payload now db).one_time ≡ db.one_time
unfolding put_payload
put_payload-one_time id payload now db = ground arith

publish-commits :
    (id payload : String) (opks : List (Option (ℤ × String))) (now : ℕ) (db : Database)
    → ((publish_bundle id payload opks now db).1 ≡ db)
      ⊎ ((publish_bundle id payload opks now db).1
          ≡ (add_all id opks (put_payload id payload now db)).1)
unfolding connect
publish-commits id payload opks now db = unfold publish_bundle in ground arith

publish-Keeps :
    (id payload : String) (opks : List (Option (ℤ × String))) (now : ℕ) (db : Database)
    → Keeps db (publish_bundle id payload opks now db).1
publish-Keeps id payload opks now db b k one =
    let same = put_payload-one_time id payload now db in
    let (one', grows, still) =
      add_all-count b k id opks (put_payload id payload now db) (rw same one) in
    elim (publish-commits id payload opks now db) [
      | inl e ↦ rw e (one, λ spent. spent)
      | inr e ↦ rw e (one', λ spent. ground (arith, still))
    ]

-- Fetching
fetch-Keeps : (id : String) (db : Database) → Keeps db (fetch_bundle id db).1
unfolding fetch_bundle
fetch-Keeps id db b k one = elim (Option-cases (first (has_bundle id) db.bundles)) [
  | inl e ↦ ground arith
  | inr (row, e) ↦ elim (Option-cases (next_one_time id db)) [
    | inl e' ↦ ground arith
    | inr (r, e') ↦
        ground (arith, key-marked b k r.id db.one_time, open-marked-le b k r.id db.one_time)
  ]
]

next_one_time-Has :
    (id : String) (db : Database) (r : OneTimePrekey)
    → next_one_time id db ≡ some r
    → Has r db.one_time × (is_unused id r ≡ true)
unfolding next_one_time
next_one_time-Has id db r e =
    Has-select (is_unused id) db.one_time r (Has-order_by (λ r. r.id) _ r (Has-head? _ r e))

-- What a fetch hands out was not spent before, and is spent after.
fetch-hands :
    (id : String) (db : Database) (k : ℤ) (payload opk : String)
    → count (has_key id k) db.one_time ≤ 1
    → (fetch_bundle id db).0 ≡ ok (payload, some (k, opk))
    → (¬ (IsSpent id k db)) × IsSpent id k (fetch_bundle id db).1
fetch-hands id db k payload opk one given = elim (Option-cases (first (has_bundle id) db.bundles)) [
  | inl e ↦ absurd (unfold fetch_bundle in ground arith)
  | inr (row, e) ↦ elim (Option-cases (next_one_time id db)) [
    | inl e' ↦ absurd (unfold fetch_bundle next_one_time in ground arith)
    | inr (r, e') ↦
        let (has, unused) = next_one_time-Has id db r e' in
        let number : r.opk_id ≡ k = unfold fetch_bundle in ground arith in
        let its_key : has_key id k r ≡ true = ground (arith, eq_law r.opk_id k) in
        let its_open : is_open id k r ≡ true = ground arith in
        (
          (λ spent. omega (arith, spent.1, open-pos id k db.one_time r has its_open)),
          unfold fetch_bundle in
              ground (
                arith,
                key-marked id k r.id db.one_time,
                key-pos id k db.one_time r has its_key,
                open-marked id k db.one_time r has its_key one,
              ),
        )
  ]
]

-- The other operations leave the one-time prekeys alone.
drop_all-one_time :
    (ids : List String) (m b : ℕ) (db : Database)
    → (drop_all ids (m, b, db)).2.one_time ≡ db.one_time
unfolding drop_all
drop_all-one_time [] m b db = refl
drop_all-one_time (id ∷ ids) m b db = drop_all-one_time ids _ _ (drop_mailbox id db)

step-Keeps : (s : Step) (db : Database) → Keeps db (step s db)
unfolding step
step-Keeps (publish id payload opks now) db = publish-Keeps id payload opks now db
step-Keeps (fetch id) db = fetch-Keeps id db
step-Keeps (create id r w now messages bytes) db =
    same-Keeps db (create_mailbox id r w now messages bytes db).1
      (unfold create_mailbox in ground arith)
step-Keeps (remove id) db = same-Keeps db (delete_mailbox id db).1 (unfold delete_mailbox in refl)
step-Keeps (touch id now) db =
    same-Keeps db (touch_mailbox id now db).1 (unfold touch_mailbox in refl)
step-Keeps (put id ct now) db =
    same-Keeps db (put_message id ct now db).1 (unfold put_message in ground arith)
step-Keeps (ack id upto) db =
    same-Keeps db (ack_messages id upto db).1 (unfold ack_messages in refl)
step-Keeps (upload chunk id ct now) db =
    same-Keeps db (put_blob chunk id ct now db).1 (unfold put_blob in ground arith)
step-Keeps (discard chunk) db = same-Keeps db (delete_blob chunk db).1 (unfold delete_blob in refl)
step-Keeps (clean now mailbox_ttl blob_ttl) db =
    same-Keeps db (housekeeping now mailbox_ttl blob_ttl db).1
      (unfold housekeeping in drop_all-one_time (stale_ids now mailbox_ttl db) 0 0 db)

abbrev pub is_key : String → ℤ → String × ℤ → Bool
is_key b k (b', k') = b' == b && k' == k

-- A step that hands out a key finds it unspent and leaves it spent.
step-hands :
    (b : String) (k : ℤ) (s : Step) (db : Database)
    → count (has_key b k) db.one_time ≤ 1
    → (count (is_key b k) (handed s db) ≡ 0)
      ⊎ ((count (is_key b k) (handed s db) ≡ 1) × (¬ (IsSpent b k db)) × IsSpent b k (step s db))
unfolding count handed step
step-hands b k (fetch id) db one = go (fetch_bundle id db).0 refl
  where
    go :
        (r : Result RelayError (String × Option (ℤ × String)))
        → (fetch_bundle id db).0 ≡ r
        → (count (is_key b k) (handed (fetch id) db) ≡ 0)
          ⊎ ((count (is_key b k) (handed (fetch id) db) ≡ 1)
              × (¬ (IsSpent b k db))
              × IsSpent b k (step (fetch id) db))
    go (err x) e = inl (ground arith)
    go (ok (payload, none)) e = inl (ground arith)
    go (ok (payload, some (k', v))) e = elim (Bool-cases (is_key b k (id, k'))) [
      | inr other ↦ inl (ground arith)
      | inl same ↦
          let to_id : b ≡ id = ground (arith, eq_law id b) in
          let to_key : k ≡ k' = ground (arith, eq_law k' k) in
          let (unspent, spent) = fetch-hands id db k' payload v (rw (to_id, to_key) at one) e in
          inr (ground arith, rw (to_id, to_key) unspent, rw (to_id, to_key) spent)
    ]
step-hands b k _ db one = inl refl

module _ (b : String) (k : ℤ) where
  -- Once a key is spent, no later step hands it out.
  spent_hands_nothing :
      (steps : List Step) (db : Database)
      → count (has_key b k) db.one_time ≤ 1
      → IsSpent b k db
      → count (is_key b k) (hand_outs steps db) ≡ 0
  unfolding hand_outs count
  spent_hands_nothing [] db one spent = refl
  spent_hands_nothing (s ∷ steps) db one spent =
      let (one', stays) = step-Keeps s db b k one in
      let rest = spent_hands_nothing steps (step s db) one' (stays spent) in
      let parts = count-append (is_key b k) (handed s db) (hand_outs steps (step s db)) in
      elim (step-hands b k s db one) [
        | inl zero_here ↦ omega arith
        | inr (one_here, unspent, _) ↦ absurd (unspent spent)
      ]

  hands_once :
      (steps : List Step) (db : Database)
      → count (has_key b k) db.one_time ≤ 1
      → count (is_key b k) (hand_outs steps db) ≤ 1
  unfolding hand_outs count
  hands_once [] db one = omega arith
  hands_once (s ∷ steps) db one =
      let (one', stays) = step-Keeps s db b k one in
      let parts = count-append (is_key b k) (handed s db) (hand_outs steps (step s db)) in
      elim (step-hands b k s db one) [
        | inl zero_here ↦ omega (arith, hands_once steps (step s db) one')
        | inr (one_here, _, spent) ↦ omega (arith, spent_hands_nothing steps (step s db) one' spent)
      ]

-- Whatever operations a relay runs, with bundles republished as often as one likes and every
-- bundle fetched by anybody in any order, it hands out each one-time prekey of each bundle at most
-- once.
pub one_time_once :
    (steps : List Step) (b : String) (k : ℤ)
    → count (is_key b k) (hand_outs steps empty_database) ≤ 1
unfolding count
one_time_once steps b k = hands_once b k steps empty_database (omega arith)
