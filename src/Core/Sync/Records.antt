-- ===== src/Core/Sync/Records.antt =====
-- noknowledge/core/sync.py: the handling of a sibling's record. An error leaves what was written
-- before it.
use noknowledge.Base.{
  ℕ, suc, String, Bytes, false, Option, none, some, [], ◌∷◌, ◌==◌, eq_String, eq_ℕ, if◌then◌else◌,
  ltb,
}
use noknowledge.Base.Outcome.{Result, ok, err}
use noknowledge.Local.Schema.{Message, LocalStore}
use noknowledge.Local.Messages.{find_by_remote_id, get_message, update_message, state_field}
use noknowledge.Core.History.Items.{ContactItem, MessageItem, state_rank, or_text}
use noknowledge.Core.History.Merge.{
  Index, Merging, message_index, new_counts, merge_contacts, merge_messages, merge_chunks,
}
use noknowledge.Core.Channel.{
  DeviceHeader, DevicePrimitives, chain_start, chain_add, hexdigest, parse_record, open_record,
}
use noknowledge.Core.Sync.{
  Incoming, Payload, StateChange, Device, mark_approved, mark_seen, incoming_request,
}
use noknowledge.Crypto.Primitives.{Primitives}
use noknowledge.Core.Sync.Entries.{
  Reply, requested, approved, mirrored, mirror_ignored, unknown_message, state_moved, state_newer,
  unknown_mirror, ignored, item_from, number, set_incoming, entry_of, handle_offer, handle_complete,
}

module _ (decode : Bytes → Option Bytes) (digest : Option String → String) (d : DevicePrimitives)
    (identity_id : String) (random_id : ℕ → String) where
  -- `history.merge_messages` of one item, with the index that is given.
  unfoldable pub merge_one : MessageItem → Index → Device → Merging
  merge_one item known s =
      merge_messages digest identity_id random_id (item ∷ [])
        (record { store = s.store; known = known; counts = new_counts; drawn = s.drawn })

  -- The merge of a back-fill item, of each kind.
  unfoldable pub merge_contact_item : ℕ → Payload → Device → Result String Reply × Device
  merge_contact_item now item s =
      let (r, store) = merge_contacts decode identity_id now (item.as_contact ∷ []) s.store 0 in
      elim r [
        | err e ↦ (err e, record s { store = store })
        | ok _ ↦ (ok (item_from "contact"), record s { store = store })
      ]

  unfoldable pub merge_message_item : Payload → Device → Result String Reply × Device
  merge_message_item item s =
      let known : Index = elim s.index [
        | none ↦ message_index digest identity_id s.store
        | some index ↦ index
      ] in
      let merged = merge_one item.as_message known s in
      (
        ok (item_from "message"),
        record s { store = merged.store; index = some merged.known; drawn = merged.drawn },
      )

  unfoldable pub merge_chunk_item : ℕ → Payload → Device → Result String Reply × Device
  merge_chunk_item now item s =
      let (r, store) = merge_chunks decode now (item.as_chunk ∷ []) s.store 0 in
      elim r [
        | err e ↦ (err e, record s { store = store })
        | ok _ ↦ (ok (item_from "chunk"), record s { store = store })
      ]

  unfoldable pub merge_item : ℕ → Payload → Device → Result String Reply × Device
  merge_item now item s =
      let kind = or_text item.kind "" in
      if kind == "contact"
      then merge_contact_item now item s
      else if kind == "message"
      then merge_message_item item s
      else if kind == "chunk"
      then merge_chunk_item now item s
      else (err "unknown history item", s)

  unfoldable pub next_entry : String → Bytes → ℕ → Incoming → Incoming
  next_entry transfer plaintext seq entry = record entry {
    transfer = transfer;
    received = suc entry.received;
    chain = hexdigest d (chain_add d plaintext seq (chain_start d transfer entry.chain));
    done = false;
  }

  unfoldable pub apply_item :
      ℕ → String → String → Bytes → Payload → ℕ → Device → Result String Reply × Device
  apply_item now device_id transfer plaintext item seq s =
      let (r, s') = merge_item now item s in
      elim r [
        | err e ↦ (err e, s')
        | ok reply ↦ (
          ok reply,
          set_incoming device_id (next_entry transfer plaintext seq (entry_of device_id transfer s))
              s',
        )
      ]

  -- The message that a state is for: by its remote id, or else by its id.
  unfoldable pub target_of : StateChange → LocalStore → Option Message
  target_of change store =
      let by_id =
        if or_text change.id "" == "" then none else get_message (or_text change.id "") store in
      if or_text change.remote_id "" == ""
      then by_id
      else elim (find_by_remote_id identity_id (or_text change.remote_id "") none store) [
        | none ↦ by_id
        | some m ↦ some m
      ]

  unfoldable pub apply_state : StateChange → LocalStore → Reply × LocalStore
  apply_state change store = elim (target_of change store) [
    | none ↦ (unknown_message, store)
    | some m ↦
        let state = or_text change.state "" in
        if ltb (state_rank m.state) (state_rank (some state))
        then (state_moved, update_message m.id (state_field (some state) ∷ []) store)
        else (state_newer, store)
  ]

  abbrev pub no_change : StateChange
  no_change = record { id = none; remote_id = none; state = none }

  unfoldable pub merge_optional : ℕ → Option ContactItem → LocalStore → Result String ℕ × LocalStore
  merge_optional now none store = (ok 0, store)
  merge_optional now (some contact) store =
      merge_contacts decode identity_id now (contact ∷ []) store 0

  -- `merge_messages` skips an item without a contact, and reads `[None]` as an exception.
  unfoldable pub apply_message : ℕ → Payload → Device → Result String Reply × Device
  apply_message now payload s =
      let (r, store) = merge_optional now payload.contact s.store in
      elim r [
        | err e ↦ (err e, record s { store = store })
        | ok _ ↦ elim payload.message [
          | none ↦ (err "uncaught", record s { store = store })
          | some message ↦
              let merged =
                merge_one message (message_index digest identity_id store)
                  (record s { store = store }) in
              (
                ok (if merged.counts.messages == 0 then mirror_ignored else mirrored),
                record s { store = merged.store; drawn = merged.drawn },
              )
        ]
      ]

  unfoldable pub apply_mirror : ℕ → Payload → Device → Result String Reply × Device
  apply_mirror now payload s =
      let kind = or_text payload.kind "" in
      let change : StateChange = elim payload.change [ none ↦ no_change | some change ↦ change ] in
      if kind == "mirror"
      then apply_message now payload s
      else if kind == "state"
      then (ok (apply_state change s.store).0, record s { store = (apply_state change s.store).1 })
      else (ok unknown_mirror, s)

  unfoldable pub handle_approval : ℕ → String → String → DeviceHeader → Device → Reply × Device
  handle_approval now device_id transfer header s =
      let (fresh, sync) = mark_seen transfer s.sync in
      (
        approved,
        record s {
          sync =
              if fresh
              then mark_approved now device_id transfer header.since header.until sync
              else sync;
        },
      )

  -- The kinds of records
  abbrev pub request_kind : ℕ
  request_kind = 1

  abbrev pub approval_kind : ℕ
  approval_kind = 5

  abbrev pub offer_kind : ℕ
  offer_kind = 2

  abbrev pub item_kind : ℕ
  item_kind = 3

  abbrev pub complete_kind : ℕ
  complete_kind = 4

  abbrev pub mirror_kind : ℕ
  mirror_kind = 6

  -- `loads` is `_loads`, `none` its SyncError.
  unfoldable pub with_payload :
      Option Payload
      → Device
      → (Payload → Result String Reply × Device)
      → Result String Reply × Device
  with_payload none s f = (err "device record payload is malformed", s)
  with_payload (some payload) s f = f payload

  -- What is done with a record once it is opened.
  unfoldable pub dispatch :
      ℕ → String → ℕ → DeviceHeader → Bytes → Option Payload → Device → Result String Reply × Device
  unfolding number
  dispatch now device_id kind header plaintext payload s =
      let transfer = or_text header.transfer "" in
      if kind == request_kind
      then with_payload payload s (λ request. (
        ok requested,
        record s { sync = incoming_request now device_id transfer request.since s.sync },
      ))
      else if kind == approval_kind
      then (
        ok (handle_approval now device_id transfer header s).0,
        (handle_approval now device_id transfer header s).1,
      )
      else if kind == offer_kind
      then with_payload payload s (λ offer. (
        ok (handle_offer device_id transfer offer s).0,
        (handle_offer device_id transfer offer s).1,
      ))
      else if kind == item_kind
      then with_payload payload s
          (λ item. apply_item now device_id transfer plaintext item (number header.seq) s)
      else if kind == complete_kind
      then with_payload payload s (λ complete.
        (ok (handle_complete device_id complete s).0, (handle_complete device_id complete s).1))
      else if kind == mirror_kind
      then with_payload payload s (λ mirror. apply_mirror now mirror s)
      else (ok ignored, s)

  -- A sibling as `_locate_device` and `fetch_device_keys` find it: in the account's list, with
  -- its signing key if it has published keys.
  unfoldable pub handle_record :
      Primitives
      → (String → Option (Option Bytes))
      → (Bytes → Option Payload)
      → Bytes
      → ℕ
      → Bytes
      → Device
      → Result String Reply × Device
  handle_record p sibling loads sagree now blob s = elim (parse_record p d blob) [
    | err e ↦ (err e, s)
    | ok (_, header, _) ↦
        let device_id = or_text header.from "" in
        elim (sibling device_id) [
          | none ↦ (err "record from unknown device", s)
          | some none ↦ (err "no sync keys for device", s)
          | some (some sdev) ↦ elim (open_record p d blob sagree sdev device_id) [
            | err e ↦ (err e, s)
            | ok (kind, header', plaintext) ↦
                dispatch now device_id kind header' plaintext (loads plaintext) s
          ]
        ]
  ]
