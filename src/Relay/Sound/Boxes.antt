-- ===== src/Relay/Sound/Boxes.antt =====
-- The operations on mailboxes keep the tables sound: creation, deletion, `touch_mailbox`.
use noknowledge.Base.{
  ℕ, ◌≤◌, String, Bytes, ◌≡◌, refl, none, some, List, [], ◌∷◌, ◌++◌, arith, ◌==◌, eq_String, eq_law,
  inl, inr, if◌then◌else◌, first, count, All, first-append, count-append, count-delete-le,
  count-update, count_of_first-none, Option-cases, Bool-cases,
}
use noknowledge.Relay.Schema.{Mailbox, Message, Database}
use noknowledge.Relay.Mailboxes.{
  has_id, in_mailbox, find_mailbox, drop_mailbox, create_mailbox, delete_mailbox, touch_mailbox,
}
use noknowledge.Relay.Messages.{message_count, used_bytes}
use noknowledge.Relay.Sound.{IsSound, Below}
use noknowledge.Relay.Sound.Observe.{
  find-drop_mailbox, count-drop_mailbox, used-drop_mailbox, find-update,
}
use noknowledge.Relay.Sound.Rows.{All-delete, Ascending-delete}

module _ (k : String) (db : Database) (h : IsSound db) where
  drop_mailbox-quota :
      (j : String) (x : Mailbox)
      → find_mailbox j (drop_mailbox k db) ≡ some x
      → (message_count j (drop_mailbox k db) ≤ x.max_messages)
        × (used_bytes j (drop_mailbox k db) ≤ x.max_bytes)
  drop_mailbox-quota j x e = ground (
    arith,
    find-drop_mailbox k j db,
    count-drop_mailbox k j db,
    used-drop_mailbox k j db,
    h.quota j x,
  )

  drop_mailbox-no_orphans :
      (j : String)
      → find_mailbox j (drop_mailbox k db) ≡ none
      → (message_count j (drop_mailbox k db) ≤ 0) × (used_bytes j (drop_mailbox k db) ≤ 0)
  drop_mailbox-no_orphans j e = ground (
    arith,
    find-drop_mailbox k j db,
    count-drop_mailbox k j db,
    used-drop_mailbox k j db,
    h.no_orphans j,
  )

  drop_mailbox-numbered :
      (j : String) (x : Mailbox)
      → find_mailbox j (drop_mailbox k db) ≡ some x
      → All (Below j x.next_seq) (drop_mailbox k db).messages
  unfolding drop_mailbox
  drop_mailbox-numbered j x e =
      All-delete _ (in_mailbox k) db.messages
        (h.numbered j x (ground (arith, find-drop_mailbox k j db)))

  pub drop_mailbox-IsSound : IsSound (drop_mailbox k db)
  unfolding drop_mailbox
  drop_mailbox-IsSound = record {
    quota = drop_mailbox-quota;
    no_orphans = drop_mailbox-no_orphans;
    numbered = drop_mailbox-numbered;
    unique = λ j. omega (arith, h.unique j, count-delete-le (has_id j) (has_id k) db.mailboxes);
    ascending = Ascending-delete (in_mailbox k) db.messages h.ascending;
  }

  pub delete_mailbox-IsSound : IsSound (delete_mailbox k db).1
  unfolding delete_mailbox
  delete_mailbox-IsSound = drop_mailbox-IsSound

  find-touch_mailbox :
      (now : ℕ) (j : String) (x : Mailbox)
      → find_mailbox j (touch_mailbox k now db).1 ≡ some x
      → (y : Mailbox) × (find_mailbox j db ≡ some y)
        × (y.max_messages ≡ x.max_messages)
        × (y.max_bytes ≡ x.max_bytes)
        × (y.next_seq ≡ x.next_seq)
  unfolding touch_mailbox
  find-touch_mailbox now j x e =
      let moved = find-update k j db (λ m. record m { last_seen = now }) (λ _. refl) in
      elim (Option-cases (find_mailbox j db)) [
        | inl gone ↦ absurd (ground arith)
        | inr (y, found) ↦ (y, found, ground arith, ground arith, ground arith)
      ]

  touch_mailbox-none :
      (now : ℕ) (j : String)
      → find_mailbox j (touch_mailbox k now db).1 ≡ none
      → find_mailbox j db ≡ none
  unfolding touch_mailbox
  touch_mailbox-none now j e =
      let moved = find-update k j db (λ m. record m { last_seen = now }) (λ _. refl) in ground arith

  pub touch_mailbox-IsSound : (now : ℕ) → IsSound (touch_mailbox k now db).1
  unfolding touch_mailbox
  touch_mailbox-IsSound now = record {
    quota = λ j x e.
        let (y, found, a, b, c) = find-touch_mailbox now j x e in ground (arith, h.quota j y);
    no_orphans = λ j e. h.no_orphans j (touch_mailbox-none now j e);
    numbered = λ j x e.
        let (y, found, a, b, c) = find-touch_mailbox now j x e in rw (← c) (h.numbered j y found);
    unique = λ j.
        rw
          (count-update (has_id j) (has_id k) (λ x. record x { last_seen = now }) db.mailboxes
            (λ _. refl))
          (h.unique j);
    ascending = h.ascending;
  }

-- A mailbox that does not exist has no messages and no blobs, so a new one starts empty.
abbrev pub fresh_row : String → Bytes → Bytes → ℕ → ℕ → ℕ → Mailbox
fresh_row id r w now messages bytes = record {
  id = id;
  read_token_hash = r;
  write_token_hash = w;
  created_at = now;
  last_seen = now;
  max_messages = messages;
  max_bytes = bytes;
  next_seq = 1;
}

abbrev pub with_row : Mailbox → Database → Database
with_row m db = record db { mailboxes = db.mailboxes ++ m ∷ [] }

no_message-Below :
    (id : String) (n : ℕ) (rs : List Message) → count (in_mailbox id) rs ≤ 0 → All (Below id n) rs
unfolding count
no_message-Below id n [] h = tt
no_message-Below id n (r ∷ rs) h = ((λ e. ground arith), no_message-Below id n rs (ground arith))

module _ (m : Mailbox) (db : Database) (free : find_mailbox m.id db ≡ none) where
  pub find-with_row :
      (j : String)
      → find_mailbox j (with_row m db) ≡ (if m.id == j then some m else find_mailbox j db)
  unfolding first
  find-with_row j =
      let e = first-append (has_id j) db.mailboxes (m ∷ []) in ground (arith, eq_law m.id j)

  with_row-IsSound : IsSound db → m.next_seq ≡ 1 → IsSound (with_row m db)
  with_row-IsSound h one = record {
    quota = λ j x e. ground (arith, find-with_row j, eq_law m.id j, h.quota j x, h.no_orphans j);
    no_orphans = λ j e. ground (arith, find-with_row j, h.no_orphans j);
    numbered = λ j x e. elim (Bool-cases (m.id == j)) [
      | inl here ↦
          no_message-Below j x.next_seq db.messages (ground (arith, eq_law m.id j, h.no_orphans j))
      | inr there ↦ h.numbered j x (ground (arith, find-with_row j))
    ];
    unique = λ j.
        unfold count in
        ground (
          arith,
          count-append (has_id j) db.mailboxes (m ∷ []),
          count_of_first-none (has_id j) db.mailboxes,
          eq_law m.id j,
          h.unique j,
        );
    ascending = h.ascending;
  }

pub create_mailbox-IsSound :
    (id : String) (r w : Bytes) (now messages bytes : ℕ) (db : Database)
    → IsSound db
    → IsSound (create_mailbox id r w now messages bytes db).1
unfolding create_mailbox
create_mailbox-IsSound id r w now messages bytes db h = elim (Option-cases (find_mailbox id db)) [
  | inl free ↦
      let made : (create_mailbox id r w now messages bytes db).1
          ≡ with_row (fresh_row id r w now messages bytes) db =
        ground arith in
      rw made (with_row-IsSound (fresh_row id r w now messages bytes) db free h refl)
  | inr (m, taken) ↦
      let kept : (create_mailbox id r w now messages bytes db).1 ≡ db = ground arith in rw kept h
]
