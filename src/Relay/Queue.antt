-- ===== src/Relay/Queue.antt =====
-- A mailbox as a queue: what `put_message`, `get_messages` and `ack_messages` of
-- noknowledge/server/db.py do to the list of one mailbox's messages.
use noknowledge.Base.{
  ℕ, ◌<◌, String, Bytes, ◌≡◌, refl, ap, ◌∙◌, Bool, true, false, ◌&&◌, some, List, [], ◌∷◌, ◌++◌,
  arith, ◌==◌, eq_String, eq_law, eq_self, inl, inr, if◌then◌else◌, length, take, select, count,
  delete, insert_by, order_by, select-append, select-delete_disjoint, All, Bool-cases,
}
use mathlib.Core.List.{append-nil}
use noknowledge.Base.Int.{ℤ, leb_ℤ, ltb_ℤ}
use noknowledge.Base.Outcome.{ok}
use noknowledge.Relay.Schema.{Mailbox, Message, Database}
use noknowledge.Relay.Mailboxes.{in_mailbox, find_mailbox}
use noknowledge.Relay.Messages.{
  message_row, write_message, put_message, get_messages, acked, ack_messages,
}
use noknowledge.Relay.Sound.{IsSound, Ascending, Below}
use noknowledge.Relay.Sound.Observe.{found_id}
use noknowledge.Relay.Sound.Put.{put_message-Stored, refused, stored}

-- The messages of one mailbox, in the order of the table.
abbrev pub queue : String → Database → List Message
queue id db = select (in_mailbox id) db.messages

abbrev Increasing : List Message → Type 0
Increasing [] = Unit
Increasing (r ∷ rs) = All (λ (r' : Message). r.seq < r'.seq) rs × Increasing rs

select-All :
    (id : String) (n : ℕ) (q : Message → Bool) (rs : List Message)
    → All (λ (r : Message). in_mailbox id r ≡ true → n < r.seq) rs
    → All (λ (r : Message). n < r.seq) (select (λ r. in_mailbox id r && q r) rs)
unfolding select
select-All id n q [] h = tt
select-All id n q (r ∷ rs) h = ground (arith, select-All id n q rs h.1)

select-Increasing :
    (id : String) (q : Message → Bool) (rs : List Message)
    → Ascending rs
    → Increasing (select (λ r. in_mailbox id r && q r) rs)
unfolding select
select-Increasing id q [] h = tt
select-Increasing id q (r ∷ rs) h = elim (Bool-cases (in_mailbox id r && q r)) [
  | inl e ↦
      let same : r.mailbox_id ≡ id = ground (arith, eq_law r.mailbox_id id) in
      rw e (select-All id r.seq q rs (rw same at h.0), select-Increasing id q rs h.1)
  | inr e ↦ rw e (select-Increasing id q rs h.1)
]

-- Rows that stand in order stay as they are under ORDER BY.
insert_by-of-All :
    (r : Message) (rs : List Message)
    → All (λ (r' : Message). r.seq < r'.seq) rs
    → insert_by (λ m. m.seq) r rs ≡ r ∷ rs
unfolding insert_by
insert_by-of-All r [] h = refl
insert_by-of-All r (x ∷ xs) h = ground arith

order_by-of-Increasing : (rs : List Message) → Increasing rs → order_by (λ m. m.seq) rs ≡ rs
unfolding order_by
order_by-of-Increasing [] h = refl
order_by-of-Increasing (r ∷ rs) h =
    ap (insert_by (λ m. m.seq) r) (order_by-of-Increasing rs h.1) ∙ insert_by-of-All r rs h.0

select-select :
    {A : Type 0} (p q : A → Bool) (xs : List A)
    → select (λ a. p a && q a) xs ≡ select q (select p xs)
unfolding select
select-select p q [] = refl
select-select p q (x ∷ xs) = ground (arith, select-select p q xs)

-- In sound tables `get_messages` returns the first `limit` messages of the queue whose number is
-- above `after_seq`, and changes nothing.
pub get_messages-queue :
    (id : String) (after : ℤ) (limit : ℕ) (db : Database)
    → IsSound db
    → get_messages id after limit db
      ≡ (ok (take limit (select (λ m. ltb_ℤ after m.seq) (queue id db))), db)
unfolding get_messages
get_messages-queue id after limit db h =
    let sorted =
      order_by-of-Increasing _
        (select-Increasing id (λ m. ltb_ℤ after m.seq) db.messages h.ascending) in
    rw (sorted, select-select (in_mailbox id) (λ m. ltb_ℤ after m.seq) db.messages)

-- Deleting among the rows of one mailbox, and among those of another.
module _ {A : Type 0} (p q : A → Bool) where
  select-delete_and :
      (xs : List A) → select p (delete (λ a. p a && q a) xs) ≡ delete q (select p xs)
  unfolding select delete
  select-delete_and [] = refl
  select-delete_and (x ∷ xs) = ground (arith, select-delete_and xs)

  count-select_and : (xs : List A) → count (λ a. p a && q a) xs ≡ count q (select p xs)
  unfolding count select
  count-select_and [] = refl
  count-select_and (x ∷ xs) = ground (arith, count-select_and xs)

pub All-select {κ} :
    {A : Type 0} (P : A → Type κ) (q : A → Bool) (xs : List A) → All P xs → All P (select q xs)
unfolding select
All-select P q [] h = tt
All-select P q (x ∷ xs) h =
    elim (q x) as (λ b. All P (if b then x ∷ select q xs else select q xs)) [
      | true ↦ (h.0, All-select P q xs h.1)
      | false ↦ All-select P q xs h.1
    ]

delete-append :
    {A : Type 0} (p : A → Bool) (xs ys : List A) → delete p (xs ++ ys) ≡ delete p xs ++ delete p ys
unfolding delete
delete-append p [] ys = refl
delete-append p (x ∷ xs) ys = ground (arith, delete-append p xs ys)

pub select-Below :
    (id : String) (n : ℕ) (rs : List Message)
    → All (Below id n) rs
    → All (λ (r : Message). r.seq < n) (select (in_mailbox id) rs)
unfolding select
select-Below id n [] h = tt
select-Below id n (r ∷ rs) h = ground (arith, select-Below id n rs h.1)

module _ (id : String) (ct : Bytes) (now : ℕ) (db : Database) (seq : ℕ)
    (accepted : (put_message id ct now db).0 ≡ ok seq) where
  -- What an accepted message was accepted as.
  pub accepted-Stored :
      (m : Mailbox) × (find_mailbox id db ≡ some m)
      × (m.id ≡ id)
      × (m.next_seq ≡ seq)
      × ((put_message id ct now db).1 ≡ write_message m ct now db)
  accepted-Stored = elim (put_message-Stored id ct now db) [
    | refused x e ↦ absurd (ground arith)
    | stored m found few fits e ↦ (m, found, found_id id db m found, ground arith, ground arith)
  ]

  -- The row that `put_message` wrote.
  abbrev pub row : Message
  row = record { mailbox_id = id; seq = seq; ciphertext = ct; created_at = now; size = length ct }

  -- A message that `put_message` accepts comes last in the queue of its mailbox, under the number
  -- that the call returned, and the queues of the other mailboxes stay as they are.
  pub put_message-queue :
      (queue id (put_message id ct now db).1 ≡ queue id db ++ row ∷ [])
      × ((j : String) → (id == j) ≡ false → queue j (put_message id ct now db).1 ≡ queue j db)
  unfolding write_message select
  put_message-queue =
      let (m, found, same, number, e) = accepted-Stored in
      let parts =
        λ (j : String). select-append (in_mailbox j) db.messages (message_row m ct now ∷ []) in
      let written : message_row m ct now ≡ row = ground arith in
      (rw (e, parts id, written, eq_self id), λ j other. rw (e, parts j, same, other, append-nil))

  -- The number of an accepted message is above those of all messages that the mailbox held.
  pub put_message-above : IsSound db → All (λ r. r.seq < seq) (queue id db)
  put_message-above h =
      let (m, found, same, number, e) = accepted-Stored in
      rw (← number) (select-Below id m.next_seq db.messages (h.numbered id m found))

-- `ack_messages` takes from the queue the messages up to the given number, returns how many they
-- were, and leaves the queues of the other mailboxes as they are.
pub ack_messages-queue :
    (id : String) (upto : ℤ) (db : Database)
    → (queue id (ack_messages id upto db).1 ≡ delete (λ m. leb_ℤ m.seq upto) (queue id db))
      × ((ack_messages id upto db).0 ≡ ok (count (λ m. leb_ℤ m.seq upto) (queue id db)))
      × ((j : String) → (id == j) ≡ false → queue j (ack_messages id upto db).1 ≡ queue j db)
unfolding ack_messages
ack_messages-queue id upto db = (
  select-delete_and (in_mailbox id) (λ m. leb_ℤ m.seq upto) db.messages,
  ap ok (count-select_and (in_mailbox id) (λ m. leb_ℤ m.seq upto) db.messages),
  λ j other.
      select-delete_disjoint (in_mailbox j) (acked id upto) db.messages
        (λ m e. ground (arith, eq_law m.mailbox_id j, eq_law m.mailbox_id id, eq_law id j)),
)
