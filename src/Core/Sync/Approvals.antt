-- ===== src/Core/Sync/Approvals.antt =====
-- noknowledge/core/sync.py: which devices a device sends its messages to, whatever records it
-- handles.
use noknowledge.Base.{
  ℕ, String, Bytes, Bool, true, false, ◌&&◌, ◌||◌, not, Option, List, [], ◌∷◌, ◌++◌, ◌==◌,
  eq_String, eq_ℕ, if◌then◌else◌, select, ◌≡◌, ap, arith, inl, inr, Bool-cases, Option-cases,
  eq_law, eq_self,
}
use noknowledge.Core.Dicts.{Dict, get_key, set_key, has, get_key-set_key, get_key-set_key_other}
use noknowledge.Core.History.Items.{or_text}
use noknowledge.Core.Channel.{DeviceHeader, DevicePrimitives}
use noknowledge.Core.Sync.{
  SyncState, Payload, Device, mark_approved, mark_seen, contains, last_of, max_seen_transfers,
  incoming_request, mirror_targets,
}
use noknowledge.Core.Sync.Records.{
  with_payload, handle_approval, apply_item, apply_mirror, apply_message, merge_item,
  merge_contact_item, merge_message_item, merge_chunk_item, dispatch,
}
use noknowledge.Core.Sync.Entries.{handle_offer, handle_complete, number}

-- A record as it is handled, once it is opened.
pub record Opened : Type 0 where
  pub now : ℕ
  pub device_id : String
  pub kind : ℕ
  pub header : DeviceHeader
  pub plaintext : Bytes
  pub payload : Option Payload

module _ (decode : Bytes → Option Bytes) (digest : Option String → String) (d : DevicePrimitives)
    (identity_id : String) (random_id : ℕ → String) where
  unfoldable pub handle_opened : List Opened → Device → Device
  handle_opened [] s = s
  handle_opened (r ∷ rs) s =
      handle_opened rs
        (dispatch decode digest d identity_id random_id r.now r.device_id r.kind r.header
          r.plaintext r.payload s).1

  merge_contact_item-sync :
      (now : ℕ) (item : Payload) (s : Device)
      → (merge_contact_item decode digest d identity_id random_id now item s).1.sync ≡ s.sync
  unfolding merge_contact_item
  merge_contact_item-sync now item s = ground arith

  merge_chunk_item-sync :
      (now : ℕ) (item : Payload) (s : Device)
      → (merge_chunk_item decode digest d identity_id random_id now item s).1.sync ≡ s.sync
  unfolding merge_chunk_item
  merge_chunk_item-sync now item s = ground arith

  merge_item-sync :
      (now : ℕ) (item : Payload) (s : Device)
      → (merge_item decode digest d identity_id random_id now item s).1.sync ≡ s.sync
  unfolding merge_item merge_message_item
  merge_item-sync now item s =
      ground (arith, merge_contact_item-sync now item s, merge_chunk_item-sync now item s)

  abbrev pub Kept : Device → Device → Type 0
  Kept s s' = (s'.sync.approved ≡ s.sync.approved) × (s'.sync.seen ≡ s.sync.seen)

  apply_item-Kept :
      (now : ℕ) (device_id transfer : String) (plaintext : Bytes) (item : Payload) (seq : ℕ)
      (s : Device)
      → Kept s
          (apply_item decode digest d identity_id random_id now device_id transfer plaintext item
            seq s).1
  unfolding apply_item
  apply_item-Kept now device_id transfer plaintext item seq s = ground (
    arith,
    merge_item-sync now item s,
    ap (λ (t : SyncState). t.approved) (merge_item-sync now item s),
    ap (λ (t : SyncState). t.seen) (merge_item-sync now item s),
  )

  apply_mirror-Kept :
      (now : ℕ) (mirror : Payload) (s : Device)
      → Kept s (apply_mirror decode digest d identity_id random_id now mirror s).1
  unfolding apply_mirror apply_message
  apply_mirror-Kept now mirror s = ground arith

  offer-Kept :
      (device_id transfer : String) (offer : Payload) (s : Device)
      → Kept s (handle_offer device_id transfer offer s).1
  unfolding handle_offer
  offer-Kept device_id transfer offer s = ground arith

  complete-Kept :
      (device_id : String) (complete : Payload) (s : Device)
      → Kept s (handle_complete device_id complete s).1
  unfolding handle_complete
  complete-Kept device_id complete s = ground arith

  -- No record but an APPROVAL changes the approvals or the transfers seen.
  dispatch-Kept :
      (r : Opened) (s : Device)
      → (r.kind == 5) ≡ false
      → Kept s
          (dispatch decode digest d identity_id random_id r.now r.device_id r.kind r.header
            r.plaintext r.payload s).1
  unfolding dispatch with_payload incoming_request
  dispatch-Kept r s h = elim (Option-cases r.payload) [
    | inl e ↦ ground (arith, e)
    | inr (payload, e) ↦
        let transfer = or_text r.header.transfer "" in
        ground (
          arith,
          e,
          offer-Kept r.device_id transfer payload s,
          complete-Kept r.device_id payload s,
          apply_item-Kept r.now r.device_id transfer r.plaintext payload (number r.header.seq) s,
          apply_mirror-Kept r.now payload s,
        )
  ]

  approval :
      (r : Opened) (s : Device)
      → (r.kind == 5) ≡ true
      → (dispatch decode digest d identity_id random_id r.now r.device_id r.kind r.header
          r.plaintext r.payload s).1
        ≡ (handle_approval decode digest d identity_id random_id r.now r.device_id
            (or_text r.header.transfer "")
            r.header
            s).1
  unfolding dispatch
  approval r s h = ground (arith, (eq_law r.kind 5).0 h)

  has_set :
      {V : Type 0} (x key : String) (v : V) (dict : Dict V)
      → has x (set_key key v dict) ≡ (key == x || has x dict)
  has_set x key v dict = elim (Bool-cases (key == x)) [
    | inl e ↦ ground (
      arith,
      get_key-set_key key v dict,
      ap (λ k. get_key k (set_key key v dict)) ((eq_law key x).0 e),
    )
    | inr e ↦ ground (arith, get_key-set_key_other key x v dict e)
  ]

  has-mark_approved :
      (x : String) (now : ℕ) (device_id transfer : String) (since until : Option ℕ) (s : SyncState)
      → has x (mark_approved now device_id transfer since until s).approved
        ≡ (device_id == x || has x s.approved)
  unfolding mark_approved
  has-mark_approved x now device_id transfer since until s = has_set x device_id _ s.approved

  -- An APPROVAL approves its sender, if its transfer was not seen.
  has-handle_approval :
      (x : String) (now : ℕ) (device_id transfer : String) (header : DeviceHeader) (s : Device)
      → has x
          (handle_approval decode digest d identity_id random_id now device_id transfer header
            s).1.sync.approved
        ≡ (if contains transfer s.sync.seen
            then has x s.sync.approved
            else (device_id == x || has x s.sync.approved))
  unfolding handle_approval mark_seen
  has-handle_approval x now device_id transfer header s =
      let sync = record s.sync {
        seen = last_of max_seen_transfers (s.sync.seen ++ transfer ∷ []);
      } in
      ground (arith, has-mark_approved x now device_id transfer header.since header.until sync)

  -- One record.
  approvals-step :
      (x : String) (r : Opened) (s : Device)
      → has x
          (dispatch decode digest d identity_id random_id r.now r.device_id r.kind r.header
            r.plaintext r.payload s).1.sync.approved
        ≡ true
      → (has x s.sync.approved || (r.kind == 5 && r.device_id == x)) ≡ true
  approvals-step x r s h = elim (Bool-cases (r.kind == 5)) [
    | inl k ↦ ground (
      arith,
      ap (λ (t : Device). has x t.sync.approved) (approval r s k),
      has-handle_approval x r.now r.device_id (or_text r.header.transfer "") r.header s,
    )
    | inr k ↦ ground (arith, ap (has x) (dispatch-Kept r s k).0)
  ]

  -- Some record is an APPROVAL of the device.
  unfoldable pub vouched : String → List Opened → Bool
  vouched x [] = false
  vouched x (r ∷ rs) = (r.kind == 5 && r.device_id == x) || vouched x rs

  handle_opened-approvals :
      (x : String) (rs : List Opened) (s : Device)
      → has x (handle_opened rs s).sync.approved ≡ true
      → (has x s.sync.approved || vouched x rs) ≡ true
  unfolding handle_opened vouched
  handle_opened-approvals x [] s h = ground (arith, h)
  handle_opened-approvals x (r ∷ rs) s h =
      let s' =
        (dispatch decode digest d identity_id random_id r.now r.device_id r.kind r.header
          r.plaintext r.payload s).1 in
      elim (Bool-cases (has x s'.sync.approved)) [
        | inl k ↦ ground (arith, approvals-step x r s k)
        | inr k ↦ ground (arith, handle_opened-approvals x rs s' h, k)
      ]

  contains-select :
      (p : String → Bool) (x : String) (xs : List String)
      → contains x (select p xs) ≡ (p x && contains x xs)
  unfolding contains select
  contains-select p x [] = ground arith
  contains-select p x (y ∷ ys) = elim (Bool-cases (x == y)) [
    | inl e ↦ ground (arith, contains-select p x ys, ap p ((eq_law x y).0 e))
    | inr e ↦ ground (arith, contains-select p x ys)
  ]

  -- The devices that a mirror of a message goes to, after any records were handled: each is in the
  -- account's list, is not this device, and was approved before or has sent an APPROVAL.
  pub mirror_targets-handle_opened :
      (x mine : String) (devices : List String) (rs : List Opened) (s : Device)
      → contains x (mirror_targets mine devices (handle_opened rs s).sync) ≡ true
      → (contains x devices ≡ true)
        × ((x == mine) ≡ false)
        × ((has x s.sync.approved || vouched x rs) ≡ true)
  unfolding mirror_targets
  mirror_targets-handle_opened x mine devices rs s h =
      let after = (handle_opened rs s).sync in
      let others = select (λ (y : String). not (y == mine)) devices in
      let one = contains-select (λ y. has y after.approved) x others in
      let two = contains-select (λ y. not (y == mine)) x devices in
      elim (Bool-cases (has x after.approved)) [
        | inl k ↦ ground (arith, one, two, k, h, handle_opened-approvals x rs s k)
        | inr k ↦ ground (arith, one, two, k, h)
      ]

  -- Another device of the account that sends an APPROVAL of a transfer that was not seen gets the
  -- mirrors of the device that handles it, though nobody approved it there.
  pub approval-grants :
      (mine : String) (devices : List String) (r : Opened) (s : Device)
      → contains r.device_id devices ≡ true
      → (r.device_id == mine) ≡ false
      → (r.kind == 5) ≡ true
      → contains (or_text r.header.transfer "") s.sync.seen ≡ false
      → contains r.device_id (mirror_targets mine devices (handle_opened (r ∷ []) s).sync) ≡ true
  unfolding mirror_targets handle_opened
  approval-grants mine devices r s listed other k fresh =
      let x = r.device_id in
      let after = (handle_opened (r ∷ []) s).sync in
      let others = select (λ (y : String). not (y == mine)) devices in
      ground (
        arith,
        contains-select (λ y. has y after.approved) x others,
        contains-select (λ y. not (y == mine)) x devices,
        listed,
        other,
        ap (λ (t : Device). has x t.sync.approved) (approval r s k),
        has-handle_approval x r.now x (or_text r.header.transfer "") r.header s,
        fresh,
        eq_self x,
      )
