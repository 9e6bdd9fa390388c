-- ===== src/Core/Inbox.antt =====
-- noknowledge/core/client.py: what becomes of an envelope once it is opened, the round of `sync`,
-- and the outbox. The sessions with the peers are an interface here: what a receipt or a mirror
-- writes, and how a blob is handled, come as arguments.
pub mod Once
use Prim.Native.String.{◌++◌ as text_append}
use noknowledge.Base.{
  ℕ, suc, ◌+◌, max, String, Bytes, Bool, true, false, ◌&&◌, ◌||◌, not, Option, none, some, List, [],
  ◌∷◌, ◌++◌, ◌==◌, eq_String, eq_ℕ, if◌then◌else◌, ltb,
}
use noknowledge.Base.Int.{ℤ, pos}
use noknowledge.Base.Outcome.{Result, ok, err, Action}
use noknowledge.Local.Schema.{Message, OutboxEntry, Contact, LocalStore}
use noknowledge.Local.Messages.{
  add_message, get_message, update_message, find_by_remote_id, state_field,
}
use noknowledge.Local.Contacts.{get_contact}
use noknowledge.Local.Outbox.{
  OutboxError, outbox_add, outbox_list, outbox_mark_sent, outbox_remove_for_message,
}
use noknowledge.Core.History.Items.{or_text}
use noknowledge.Core.Dicts.{Dict, get_key, set_key}

-- An opened envelope. `of` and `receipt` are the fields of a receipt's body.
pub record Envelope : Type 0 where
  pub kind : Option String
  pub id : Option String
  pub body : Option String
  pub of : Option String
  pub receipt : Option String
  pub ts : Option ℕ

-- What the sessions do with the store: a receipt that is sent, by contact, message and kind, and
-- a state that is mirrored. Neither raises.
pub record Peers : Type 0 where
  pub send_receipt : String → String → String → LocalStore → LocalStore
  pub mirror_state : String → Message → LocalStore → LocalStore

module _ (peers : Peers) (like : String → String → Bool) (identity_id : String) where
  abbrev pub received_message : ℕ → String → String → String → String → Envelope → Message
  received_message now new_id contact_id kind envelope_id envelope = record {
    id = new_id;
    identity_id = identity_id;
    contact_id = contact_id;
    direction = "received";
    kind = kind;
    body = some (or_text envelope.body "{}");
    remote_id = some envelope_id;
    ts = pos (elim envelope.ts [ none ↦ now | some t ↦ if t == 0 then now else t ]);
    state = some "received";
    meta = none;
  }

  -- A text or a file: stored once for the id that its sender gave it.
  unfoldable pub process_content :
      ℕ → String → String → String → Envelope → LocalStore → Option Message × LocalStore
  process_content now new_id contact_id kind envelope store =
      let envelope_id = or_text envelope.id "" in
      if envelope_id == ""
      then (none, store)
      else elim (find_by_remote_id identity_id envelope_id (some "received") store) [
        | some _ ↦ (none, store)
        | none ↦
            let added =
              add_message (received_message now new_id contact_id kind envelope_id envelope)
                store in
            let told = peers.send_receipt contact_id envelope_id "delivered" added in
            (get_message new_id told, told)
      ]

  unfoldable pub process_receipt : String → Envelope → LocalStore → Option Message × LocalStore
  process_receipt contact_id envelope store =
      let target = or_text envelope.of "" in
      if target == ""
      then (none, store)
      else let changed = outbox_remove_for_message like target (
          update_message target (state_field (some (or_text envelope.receipt "read")) ∷ [])
            store) in
        elim (get_message target changed) [
          | none ↦ (none, changed)
          | some row ↦ (none, peers.mirror_state contact_id row changed)
        ]

  unfoldable pub process_envelope :
      ℕ → String → String → Envelope → LocalStore → Option Message × LocalStore
  process_envelope now new_id contact_id envelope store =
      let kind = or_text envelope.kind "" in
      if kind == "text" || kind == "file"
      then process_content now new_id contact_id kind envelope store
      else if kind == "receipt"
      then process_receipt contact_id envelope store
      else (none, store)

-- A blob of the own inbox, as the relays gave it.
pub record Fetched : Type 0 where
  pub relay : String
  pub seq : ℕ
  pub blob : Bytes

-- `max_seq[relay] = max(max_seq.get(relay, 0), seq)`
unfoldable pub note_seq : Fetched → Dict ℕ → Dict ℕ
note_seq item seqs =
    set_key item.relay (max (elim (get_key item.relay seqs) [ none ↦ 0 | some seq ↦ seq ]) item.seq)
      seqs

-- `handle` is the handling of a blob, of a device record or of a message; an exception of it is
-- swallowed.
module _ {S M : Type 0} (handle : Bytes → S → Result String (Option M) × S) where
  -- The number of a blob is noted before it is handled.
  unfoldable pub handle_one : Fetched → List M × Dict ℕ × S → List M × Dict ℕ × S
  handle_one item (messages, seqs, t) =
      let (r, t') = handle item.blob t in
      (
        elim r [ ok (some m) ↦ messages ++ m ∷ [] | ok none ↦ messages | err _ ↦ messages ],
        note_seq item seqs,
        t',
      )

  unfoldable pub handle_all : List Fetched → List M × Dict ℕ × S → List M × Dict ℕ × S
  handle_all [] acc = acc
  handle_all (item ∷ items) acc = handle_all items (handle_one item acc)

  -- The new messages, what is acknowledged, and the state: nothing is acknowledged where nothing
  -- was fetched.
  unfoldable pub sync : List Fetched → S → List M × Dict ℕ × S
  sync fetched s = handle_all fetched ([], [], s)

-- The row for one copy of a message, on its way to one device.
unfoldable pub queued :
    String → String → String → String → String → String → String → ℕ → OutboxEntry
queued identity_id contact_id message_id device_id mailbox_id relays payload now = record {
  id = text_append message_id (text_append ":" device_id);
  identity_id = identity_id;
  contact_id = contact_id;
  mailbox_id = mailbox_id;
  relay = some relays;
  payload = payload;
  seq = some 1;
  created_at = now;
}

-- `Client._queue_outbox`, for the copies of messages that were sent, one after another.
pub record Copy : Type 0 where
  pub contact_id : String
  pub message_id : String
  pub device_id : String
  pub mailbox_id : String
  pub relays : String
  pub payload : String
  pub now : ℕ

unfoldable pub queue_outbox : String → Copy → Action LocalStore OutboxError Unit
unfolding queued
queue_outbox identity_id c =
    outbox_add (
      queued identity_id c.contact_id c.message_id c.device_id c.mailbox_id c.relays c.payload
        c.now)

-- Such calls in a row, each on the store that the call before it left.
unfoldable pub queue_all : String → List Copy → LocalStore → LocalStore
queue_all identity_id [] store = store
queue_all identity_id (c ∷ copies) store =
    queue_all identity_id copies (queue_outbox identity_id c store).1

-- `device_for` finds a cached device of a contact by its mailbox, and `put` sends a payload there.
module _ {D : Type 0} (device_for : Contact → String → Option D) (put : D → String → Bool)
    (identity_id : String) where
  unfoldable pub flush_entry : OutboxEntry → ℕ × LocalStore → ℕ × LocalStore
  flush_entry entry (sent, store) = elim entry.seq [
    | some (suc n) ↦ (sent, store)
    | _ ↦ elim (get_contact identity_id entry.contact_id store) [
      | none ↦ (sent, store)
      | some contact ↦ elim (device_for contact entry.mailbox_id) [
        | none ↦ (sent, store)
        | some device ↦
            if put device entry.payload
            then (suc sent, outbox_mark_sent entry.id store)
            else (sent, store)
      ]
    ]
  ]

  unfoldable pub flush_entries : List OutboxEntry → ℕ × LocalStore → ℕ × LocalStore
  flush_entries [] acc = acc
  flush_entries (entry ∷ entries) acc = flush_entries entries (flush_entry entry acc)

  unfoldable pub flush_outbox : LocalStore → ℕ × LocalStore
  flush_outbox store = flush_entries (outbox_list identity_id none store) (0, store)
