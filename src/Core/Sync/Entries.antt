-- ===== src/Core/Sync/Entries.antt =====
-- noknowledge/core/sync.py: what a device keeps of a back-fill that comes in.
use noknowledge.Base.{
  ℕ, String, true, false, ◌&&◌, Option, none, some, ◌==◌, eq_String, eq_ℕ, if◌then◌else◌, leb,
}
use noknowledge.Core.Dicts.{get_key, set_key}
use noknowledge.Core.History.Items.{or_text}
use noknowledge.Core.Sync.{Incoming, Payload, Device}

-- The description that is returned.
pub data Reply : Type 0 where
  requested approved offered mirrored mirror_ignored unknown_message state_moved state_newer : Reply
  unknown_mirror ignored : Reply
  item_from : String → Reply
  incomplete finished : ℕ → ℕ → Reply

-- `v or 0`, `v or ""`
unfoldable pub number : Option ℕ → ℕ
number none = 0
number (some n) = n

abbrev pub set_incoming : String → Incoming → Device → Device
set_incoming device_id entry s = record s {
  sync = record s.sync { incoming = set_key device_id entry s.sync.incoming };
}

abbrev pub no_entry : String → Incoming
no_entry transfer = record {
  transfer = transfer;
  received = 0;
  expected = 0;
  skipped = 0;
  chain = "";
  done = false;
  complete = false;
}

unfoldable pub entry_of : String → String → Device → Incoming
entry_of device_id transfer s = elim (get_key device_id s.sync.incoming) [
  | none ↦ no_entry transfer
  | some entry ↦ entry
]

unfoldable pub handle_offer : String → String → Payload → Device → Reply × Device
unfolding number entry_of
handle_offer device_id transfer offer s = (
  offered,
  set_incoming device_id
      (record {
        transfer = transfer;
        received = 0;
        expected = number offer.count;
        skipped = number offer.skipped;
        chain = "";
        done = false;
        complete = false;
      })
      (record s {
        index = elim (get_key device_id s.sync.incoming) [
          | none ↦ none
          | some previous ↦ if previous.transfer == transfer then s.index else none
        ];
      }),
)

unfoldable pub handle_complete : String → Payload → Device → Reply × Device
handle_complete device_id complete s =
    let entry = entry_of device_id "" s in
    let expected = number complete.count in
    let whole = leb expected entry.received && entry.chain == or_text complete.chain "" in
    (
      if whole then finished entry.received expected else incomplete entry.received expected,
      set_incoming device_id (record entry { done = true; expected = expected; complete = whole })
          s,
    )
