-- ===== src/Core/Sync/Tests.antt =====
-- Concrete runs of the sync of devices.
use text.Mathlib.Text.{◌==◌ as str_eq}
use noknowledge.Base.{
  ℕ, Bytes, String, true, false, ◌≡◌, refl, Option, none, some, List, [], ◌∷◌, ◌||◌, eq_String,
  eq_ℕ, select,
}
use noknowledge.Local.Schema.{empty_store}
use noknowledge.Local.Messages.{list_all_messages}
use noknowledge.Core.Dicts.{get_key, set_key, has}
use noknowledge.Core.History.Items.{or_text}
use noknowledge.Core.History.Merge.{merge_messages, merge_message, message_index, index_of}
use noknowledge.Core.Channel.{DeviceHeader, DevicePrimitives, hexdigest}
use noknowledge.Core.Sync.{SyncState, Payload, Device, mirror_targets, contains}
use noknowledge.Core.Sync.Records.{
  apply_item, merge_item, merge_message_item, merge_one, next_entry,
}
use noknowledge.Core.Sync.Entries.{handle_offer, handle_complete, finished, incomplete}
use noknowledge.Core.Sync.Approvals.{
  Opened, handle_opened, vouched, mirror_targets-handle_opened, approval-grants,
}
use noknowledge.Core.Sync.Transfer.{receive_items, sent_chain, handle_complete-receive_items}

abbrev primitives : DevicePrimitives
primitives = record {
  dumps = λ h. [];
  loads = λ b. none;
  utf8 = λ t. [];
  agreement_public = λ k. k;
  sign = λ k m. [];
  verify = λ k s m. true;
  sha256 = λ b. 7 ∷ [];
  hex = λ b. "07";
  from_hex = λ t. 7 ∷ [];
}

abbrev decode : Bytes → Option Bytes
decode b = some b

abbrev digest : Option String → String
digest body = "d"

abbrev random_id : ℕ → String
random_id n = "r"

abbrev new_device : Device
new_device = record {
  store = empty_store;
  sync = record { approved = []; requests = []; incoming = []; seen = [] };
  index = none;
  drawn = 0;
}

abbrev approval_header : DeviceHeader
approval_header = record {
  v = some 1;
  transfer = some "t1";
  from = some "laptop";
  eph = none;
  ts = none;
  seq = none;
  count = none;
  chain = none;
  since = some 0;
  until = some 9;
  sig = none;
}

abbrev approval_record : Opened
approval_record = record {
  now = 10;
  device_id = "laptop";
  kind = 5;
  header = approval_header;
  plaintext = [];
  payload = none;
}

abbrev devices : List String
devices = "phone" ∷ "laptop" ∷ []

abbrev after : SyncState
after =
    (handle_opened decode digest primitives "me" random_id (approval_record ∷ []) new_device).sync

approval-grants_example : contains "laptop" (mirror_targets "phone" devices after) ≡ true
unfolding contains
approval-grants_example =
    approval-grants decode digest primitives "me" random_id "phone" devices approval_record
      new_device refl refl refl refl

mirror_targets-handle_opened_example :
    (contains "laptop" devices ≡ true)
    × (str_eq "laptop" "phone" ≡ false)
    × ((has "laptop" new_device.sync.approved
          || vouched decode digest primitives "me" random_id "laptop" (approval_record ∷ []))
        ≡ true)
mirror_targets-handle_opened_example =
    mirror_targets-handle_opened decode digest primitives "me" random_id "laptop" "phone" devices
      (approval_record ∷ []) new_device approval-grants_example

abbrev no_payload : Payload
no_payload = record {
  since = none;
  count = none;
  skipped = none;
  chain = none;
  kind = none;
  as_contact = record {
    id = none;
    isign = none;
    idh = none;
    bundle = none;
    inbox = none;
    relays = none;
    nickname = none;
    verified = false;
    created_at = 0;
  };
  as_message = record {
    id = none;
    contact_id = none;
    direction = none;
    kind = none;
    body = none;
    remote_id = none;
    ts = none;
    state = none;
  };
  as_chunk = record { id = none; ct = none };
  contact = none;
  message = none;
  change = none;
}

abbrev message_payload : Payload
message_payload = record no_payload { kind = some "message" }

abbrev offered_device : Device
offered_device = (handle_offer "laptop" "t2" (record no_payload { count = some 1 }) new_device).1

abbrev arrived : Device
arrived = record new_device {
  sync = record new_device.sync {
    incoming =
        (
          "laptop",
          record {
            transfer = "t2";
            received = 1;
            expected = 1;
            skipped = 0;
            chain = "07";
            done = false;
            complete = false;
          },
        )
        ∷ [];
  };
  index = some [];
}

received :
    receive_items decode digest primitives "me" random_id 3 "laptop" "t2"
      ((1 ∷ [], message_payload) ∷ [])
      1
      offered_device
    ≡ some arrived
unfolding receive_items apply_item merge_item or_text merge_message_item merge_one handle_offer
    set_key merge_messages next_entry merge_message get_key hexdigest message_index index_of
    list_all_messages select
received = refl

abbrev complete_one : Payload
complete_one = record no_payload { count = some 1; chain = some "07" }

abbrev complete_none : Payload
complete_none = record no_payload { count = some 0; chain = some "07" }

handle_complete-receive_items_example :
    ((handle_complete "laptop" complete_one arrived).0 ≡ finished 1 1)
    × ((handle_complete "laptop" complete_none offered_device).0 ≡ incomplete 0 0)
unfolding sent_chain hexdigest
handle_complete-receive_items_example =
    handle_complete-receive_items decode digest primitives "me" random_id (λ b. refl) (λ b. refl) 3
      "laptop" "t2" (record no_payload { count = some 1 }) complete_one complete_none (1 ∷ [])
      message_payload [] new_device arrived received refl refl refl refl
