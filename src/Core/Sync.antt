-- ===== src/Core/Sync.antt =====
-- noknowledge/core/sync.py: what a device keeps of its siblings, in the state of its store, and
-- how it handles their records. The network and the clock are arguments. A JSON object of the
-- payloads is one record: a field that is missing is `none`.
pub mod Entries
pub mod Records
pub mod Approvals
pub mod Transfer
mod Tests
use noknowledge.Base.{
  ℕ, suc, zero, ◌+◌, ◌-◌, String, Bytes, Bool, true, false, ◌&&◌, ◌||◌, not, Option, none, some,
  List, [], ◌∷◌, ◌++◌, ◌==◌, eq_String, eq_ℕ, if◌then◌else◌, ltb, leb, drop, length, select,
}
use noknowledge.Base.Outcome.{Result, ok, err}
use noknowledge.Local.Schema.{LocalStore}
use noknowledge.Local.Messages.{find_by_remote_id, get_message, update_message, state_field}
use noknowledge.Core.Dicts.{Dict, get_key, set_key, pop_key, has}
use noknowledge.Core.History.Items.{ContactItem, MessageItem, ChunkItem, state_rank, or_text}
use noknowledge.Core.History.Merge.{
  Index, Merging, message_index, new_counts, merge_contacts, merge_messages, merge_chunks,
}
use noknowledge.Core.Channel.{
  DeviceHeader, DevicePrimitives, chain_start, chain_add, hexdigest, parse_record, open_record,
  shown, or_nought,
}
use noknowledge.Crypto.Primitives.{Primitives}

pub record Approval : Type 0 where
  pub transfer : String
  pub since : ℕ
  pub until : ℕ
  pub ts : ℕ

pub record Request : Type 0 where
  pub transfer : String
  pub since : ℕ
  pub ts : ℕ

-- An entry of `sync_incoming`
pub record Incoming : Type 0 where
  pub transfer : String
  pub received : ℕ
  pub expected : ℕ
  pub skipped : ℕ
  pub chain : String
  pub done : Bool
  pub complete : Bool

pub record SyncState : Type 0 where
  pub approved : Dict Approval
  pub requests : Dict Request
  pub incoming : Dict Incoming
  pub seen : List String

abbrev pub max_seen_transfers : ℕ
max_seen_transfers = 200

unfoldable pub mark_approved : ℕ → String → String → Option ℕ → Option ℕ → SyncState → SyncState
unfolding or_nought
mark_approved now device_id transfer since until s = record s {
  approved =
      set_key device_id
        (record {
          transfer = transfer;
          since = elim since [ none ↦ 0 | some t ↦ t ];
          until = elim until [ none ↦ now | some t ↦ if t == 0 then now else t ];
          ts = now;
        })
        s.approved;
}

unfoldable pub revoke_approval : String → SyncState → SyncState
revoke_approval device_id s = record s { approved = pop_key device_id s.approved }

unfoldable pub contains : String → List String → Bool
contains x [] = false
contains x (y ∷ ys) = x == y || contains x ys

-- `seen[-n:]`
unfoldable pub last_of : ℕ → List String → List String
last_of n xs = drop (length xs - n) xs

unfoldable pub mark_seen : String → SyncState → Bool × SyncState
mark_seen transfer s =
    if contains transfer s.seen
    then (false, s)
    else (true, record s { seen = last_of max_seen_transfers (s.seen ++ transfer ∷ []) })

unfoldable pub incoming_request : ℕ → String → String → Option ℕ → SyncState → SyncState
incoming_request now device_id transfer since s = record s {
  requests =
      set_key device_id
        (record { transfer = transfer; since = elim since [ none ↦ 0 | some t ↦ t ]; ts = now })
        s.requests;
}

unfoldable pub deny_device : String → SyncState → SyncState
deny_device device_id s = record s { requests = pop_key device_id s.requests }

-- The siblings that a mirror goes to, of those in our own signed list.
unfoldable pub mirror_targets : String → List String → SyncState → List String
mirror_targets mine devices s =
    select (λ device. has device s.approved) (select (λ device. not (device == mine)) devices)

pub record StateChange : Type 0 where
  pub id : Option String
  pub remote_id : Option String
  pub state : Option String

-- A payload; `as_contact`, `as_message` and `as_chunk` are the object itself, read as an item.
pub record Payload : Type 0 where
  pub since : Option ℕ
  pub count : Option ℕ
  pub skipped : Option ℕ
  pub chain : Option String
  pub kind : Option String
  pub as_contact : ContactItem
  pub as_message : MessageItem
  pub as_chunk : ChunkItem
  pub contact : Option ContactItem
  pub message : Option MessageItem
  pub change : Option StateChange

-- What a record changes: `index` is `_sync_message_index`.
pub record Device : Type 0 where
  pub store : LocalStore
  pub sync : SyncState
  pub index : Option Index
  pub drawn : ℕ
