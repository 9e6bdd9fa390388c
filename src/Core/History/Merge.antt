-- ===== src/Core/History/Merge.antt =====
-- noknowledge/core/history.py: the merge of a bundle into the local store. `known` is a dict: what
-- was set last is found first.
use noknowledge.Base.{
  ℕ, suc, String, Bytes, Bool, true, false, Option, none, some, List, [], ◌∷◌, ◌==◌, eq_String,
  eq_ℕ, if◌then◌else◌, ltb,
}
use noknowledge.Base.Outcome.{Result, ok, err, ◌>>=?◌}
use noknowledge.Local.Schema.{Contact, Message, LocalStore}
use noknowledge.Local.Contacts.{get_contact, upsert_contact}
use noknowledge.Local.Messages.{
  add_message, get_message, list_all_messages, update_message, state_field,
}
use noknowledge.Local.Cache.{has_local_blob, put_local_blob}
use noknowledge.Core.History.Items.{
  ContactItem, MessageItem, ChunkItem, MessageKey, eq_Key, state_rank, or_text, or_zero,
  message_key, key_of,
}

pub record Counts : Type 0 where
  pub contacts : ℕ
  pub messages : ℕ
  pub updates : ℕ
  pub chunks : ℕ

unfoldable pub new_counts : Counts
new_counts = record { contacts = 0; messages = 0; updates = 0; chunks = 0 }

abbrev pub Index : Type 0
Index = List (MessageKey × Message)

unfoldable pub lookup : MessageKey → Index → Option Message
lookup key [] = none
lookup key ((k, m) ∷ known) = if key == k then some m else lookup key known

-- What the merge changes: the store, the index and the counts; and how many ids it has drawn.
pub record Merging : Type 0 where
  pub store : LocalStore
  pub known : Index
  pub counts : Counts
  pub drawn : ℕ

module _ (digest : Option String → String) where
  unfoldable pub index_of : List Message → Index → Index
  index_of [] known = known
  index_of (m ∷ ms) known = index_of ms ((key_of digest m, m) ∷ known)

  unfoldable pub message_index : String → LocalStore → Index
  message_index identity_id store = index_of (list_all_messages identity_id store) []

-- `random_id n` is the n-th id that `os.urandom(16).hex()` gives.
module _ (digest : Option String → String) (identity_id : String) (random_id : ℕ → String) where
  -- A message that is known moves forward only; the row in the index stays as it was.
  unfoldable pub advance : Message → MessageItem → Merging → Merging
  advance existing item s =
      if ltb (state_rank existing.state) (state_rank item.state)
      then record s {
        store = update_message existing.id (state_field item.state ∷ []) s.store;
        counts = record s.counts { updates = suc s.counts.updates };
      }
      else s

  -- `str(item.get("id") or os.urandom(16).hex())`
  unfoldable pub new_id : MessageItem → Merging → String × ℕ
  new_id item s = elim item.id [
    | none ↦ (random_id s.drawn, suc s.drawn)
    | some id ↦ if id == "" then (random_id s.drawn, suc s.drawn) else (id, s.drawn)
  ]

  unfoldable pub new_message : String → String → MessageItem → Message
  new_message id contact_id item = record {
    id = id;
    identity_id = identity_id;
    contact_id = contact_id;
    direction = or_text item.direction "received";
    kind = or_text item.kind "text";
    body = item.body;
    remote_id = item.remote_id;
    ts = or_zero item.ts;
    state = item.state;
    meta = none;
  }

  unfoldable pub insert : String → MessageItem → Merging → Merging
  insert contact_id item s =
      let (id, drawn) = new_id item s in
      let store = add_message (new_message id contact_id item) s.store in
      record {
        store = store;
        known = elim (get_message id store) [
          | none ↦ s.known
          | some m ↦ (message_key digest item, m) ∷ s.known
        ];
        counts = record s.counts { messages = suc s.counts.messages };
        drawn = drawn;
      }

  unfoldable pub merge_message : MessageItem → Merging → Merging
  merge_message item s = elim item.contact_id [
    | none ↦ s
    | some contact_id ↦
        if contact_id == "" then s else elim (lookup (message_key digest item) s.known) [
          | none ↦ insert contact_id item s
          | some existing ↦ advance existing item s
        ]
  ]

  unfoldable pub merge_messages : List MessageItem → Merging → Merging
  merge_messages [] s = s
  merge_messages (item ∷ items) s = merge_messages items (merge_message item s)

-- `decode` is `b64d`, `none` an exception of it. A contact without keys is malformed.
module _ (decode : Bytes → Option Bytes) (identity_id : String) where
  unfoldable pub read_keys : ContactItem → Option (Bytes × Bytes)
  read_keys item = elim item.isign [
    | none ↦ none
    | some isign ↦ elim (decode isign) [
      | none ↦ none
      | some isign ↦ elim item.idh [
        | none ↦ none
        | some idh ↦ elim (decode idh) [ none ↦ none | some idh ↦ some (isign, idh) ]
      ]
    ]
  ]

  unfoldable pub new_contact : ℕ → String → ContactItem → Bytes → Bytes → Contact
  new_contact now contact_id item isign idh = record {
    identity_id = identity_id;
    id = contact_id;
    nickname = item.nickname;
    isign = isign;
    idh = idh;
    bundle_id = item.bundle;
    inbox = or_text item.inbox "{}";
    relays = or_text item.relays "[]";
    session = none;
    verified = item.verified;
    created_at = if item.created_at == 0 then now else item.created_at;
  }

  -- The error is a HistoryError.
  unfoldable pub merge_contact : ℕ → ContactItem → LocalStore → Result String Bool × LocalStore
  merge_contact now item store =
      let contact_id = or_text item.id "" in
      if contact_id == ""
      then (ok false, store)
      else elim (get_contact identity_id contact_id store) [
        | some _ ↦ (ok false, store)
        | none ↦ elim (read_keys item) [
          | none ↦ (err "malformed contact in history bundle", store)
          | some (isign, idh) ↦
              (ok true, upsert_contact (new_contact now contact_id item isign idh) store)
        ]
      ]

module _ (decode : Bytes → Option Bytes) (identity_id : String) where
  -- An error leaves the contacts before it merged.
  unfoldable pub merge_contacts :
      ℕ → List ContactItem → LocalStore → ℕ → Result String ℕ × LocalStore
  merge_contacts now [] store added = (ok added, store)
  merge_contacts now (item ∷ items) store added =
      let (r, store') = merge_contact decode identity_id now item store in
      elim r [
        | err e ↦ (err e, store')
        | ok new ↦ merge_contacts now items store' (if new then suc added else added)
      ]

module _ (decode : Bytes → Option Bytes) where
  unfoldable pub merge_chunks : ℕ → List ChunkItem → LocalStore → ℕ → Result String ℕ × LocalStore
  merge_chunks now [] store added = (ok added, store)
  merge_chunks now (item ∷ items) store added =
      let chunk_id = or_text item.id "" in
      if chunk_id == "" then merge_chunks now items store added else elim (item.ct >>=? decode) [
        | none ↦ (err "malformed attachment chunk in history bundle", store)
        | some ciphertext ↦
            if has_local_blob chunk_id store
            then merge_chunks now items store added
            else merge_chunks now items (put_local_blob now chunk_id ciphertext store) (suc added)
      ]

pub record Bundle : Type 0 where
  pub contact_items : List ContactItem
  pub message_items : List MessageItem
  pub chunk_items : List ChunkItem

module _ (decode : Bytes → Option Bytes) (digest : Option String → String) (identity_id : String)
    (random_id : ℕ → String) where
  unfoldable pub merge_bundle : ℕ → Bundle → LocalStore → Result String Counts × LocalStore
  merge_bundle now bundle store =
      let (r, store') = merge_contacts decode identity_id now bundle.contact_items store 0 in
      elim r [
        | err e ↦ (err e, store')
        | ok contacts ↦
            let s = merge_messages digest identity_id random_id bundle.message_items (record {
              store = store';
              known = message_index digest identity_id store';
              counts = record new_counts { contacts = contacts };
              drawn = 0;
            }) in
            let (r', store'') = merge_chunks decode now bundle.chunk_items s.store 0 in
            elim r' [
              | err e ↦ (err e, store'')
              | ok chunks ↦ (ok (record s.counts { chunks = chunks }), store'')
            ]
      ]
