-- ===== src/Relay/Sound/Observe.antt =====
-- What each change of the tables does to what can be observed of a mailbox: its row, how many
-- messages it holds, and how many bytes it uses.
use noknowledge.Base.{
  String, ◌≡◌, true, false, none, some, arith, ◌==◌, eq_String, eq_law, if◌then◌else◌, Bool-cases,
  inl, inr, update, first, count-delete_sub, count-delete_disjoint, sum-delete_sub,
  sum-delete_disjoint, first-delete_sub, first-delete_disjoint, first-update, first-eq-true,
}
use noknowledge.Relay.Schema.{Mailbox, Database}
use noknowledge.Relay.Mailboxes.{has_id, in_mailbox, blob_in_mailbox, find_mailbox, drop_mailbox}
use noknowledge.Relay.Messages.{message_count, used_bytes}

-- One text cannot equal two keys, and equals both of two equal keys.
pub same_key : (x j k : String) → (j == k) ≡ true → (x == j) ≡ true → (x == k) ≡ true
same_key x j k = ground (arith, eq_law x j, eq_law x k, eq_law j k)

pub other_key : (x j k : String) → (j == k) ≡ false → (x == j) ≡ true → (x == k) ≡ false
other_key x j k = ground (arith, eq_law x j, eq_law x k, eq_law j k)

pub found_id : (j : String) (db : Database) (x : Mailbox) → find_mailbox j db ≡ some x → x.id ≡ j
found_id j db x e = (eq_law x.id j).0 (first-eq-true (has_id j) db.mailboxes x e)

module _ (k j : String) (db : Database) where
  pub find-drop_mailbox :
      find_mailbox j (drop_mailbox k db) ≡ (if j == k then none else find_mailbox j db)
  unfolding drop_mailbox
  find-drop_mailbox = elim (Bool-cases (j == k)) [
    | inl e ↦ rw e (first-delete_sub _ _ db.mailboxes (λ m. same_key m.id j k e))
    | inr e ↦ rw e (first-delete_disjoint _ _ db.mailboxes (λ m. other_key m.id j k e))
  ]

  pub count-drop_mailbox :
      message_count j (drop_mailbox k db) ≡ (if j == k then 0 else message_count j db)
  unfolding drop_mailbox
  count-drop_mailbox = elim (Bool-cases (j == k)) [
    | inl e ↦ rw e (count-delete_sub _ _ db.messages (λ m. same_key m.mailbox_id j k e))
    | inr e ↦ rw e (count-delete_disjoint _ _ db.messages (λ m. other_key m.mailbox_id j k e))
  ]

  pub used-drop_mailbox : used_bytes j (drop_mailbox k db) ≡ (if j == k then 0 else used_bytes j db)
  unfolding drop_mailbox
  used-drop_mailbox = elim (Bool-cases (j == k)) [
    | inl e ↦ rw e (
        omega (
          arith,
          sum-delete_sub (in_mailbox j) (in_mailbox k) (λ m. m.size) db.messages
              (λ m. same_key m.mailbox_id j k e),
          sum-delete_sub (blob_in_mailbox j) (blob_in_mailbox k) (λ m. m.size) db.blobs
              (λ m. same_key m.mailbox_id j k e),
        ))
    | inr e ↦ rw e (
        omega (
          arith,
          sum-delete_disjoint (in_mailbox j) (in_mailbox k) (λ m. m.size) db.messages
              (λ m. other_key m.mailbox_id j k e),
          sum-delete_disjoint (blob_in_mailbox j) (blob_in_mailbox k) (λ m. m.size) db.blobs
              (λ m. other_key m.mailbox_id j k e),
        ))
  ]

  -- An UPDATE of one mailbox's row that keeps its id.
  pub find-update :
      (f : Mailbox → Mailbox)
      → ((m : Mailbox) → (f m).id ≡ m.id)
      → first (has_id j) (update (has_id k) f db.mailboxes)
        ≡ elim (find_mailbox j db) [ none ↦ none | some m ↦ some (if m.id == k then f m else m) ]
  find-update f h = first-update (has_id j) (has_id k) f db.mailboxes (λ m. rw (h m))
