-- ===== src/Core/History/Build.antt =====
-- noknowledge/core/history.py: the collection of a bundle, with its budget for attachments.
use noknowledge.Base.{
  ℕ, ◌+◌, String, Bytes, Bool, false, ◌&&◌, ◌||◌, Option, none, some, List, [], ◌∷◌, ◌++◌, ◌==◌,
  eq_String, eq_ℕ, if◌then◌else◌, ltb, select, map, length,
}
use noknowledge.Base.Int.{ℤ}
use noknowledge.Local.Schema.{Message, LocalStore}
use noknowledge.Local.Contacts.{list_contacts}
use noknowledge.Local.Messages.{list_all_messages, int_leb}
use noknowledge.Local.Cache.{get_local_blob}
use noknowledge.Core.History.Items.{MessageItem, contact_item, message_item}
use noknowledge.Core.History.Merge.{Bundle}

-- Why a chunk is not in the bundle.
pub data Reason : Type 0 where
  not_held over_budget : Reason

-- The attachments as they are collected; `seen` are the ids met.
pub record Collected : Type 0 where
  pub seen : List String
  pub used : ℕ
  pub chunks : List (String × Bytes)
  pub skipped : List (String × Reason)

abbrev pub nothing : Collected
nothing = record { seen = []; used = 0; chunks = []; skipped = [] }

unfoldable pub contains : String → List String → Bool
contains x [] = false
contains x (y ∷ ys) = x == y || contains x ys

unfoldable pub add_chunk : LocalStore → ℕ → String → Collected → Collected
add_chunk store budget_bytes chunk_id c =
    if chunk_id == "" || contains chunk_id c.seen then c else elim (get_local_blob chunk_id store) [
      | none ↦ record c {
        seen = chunk_id ∷ c.seen;
        skipped = c.skipped ++ (chunk_id, not_held) ∷ [];
      }
      | some ciphertext ↦
          if ltb budget_bytes (c.used + length ciphertext)
          then record c {
            seen = chunk_id ∷ c.seen;
            skipped = c.skipped ++ (chunk_id, over_budget) ∷ [];
          }
          else record c {
            seen = chunk_id ∷ c.seen;
            used = c.used + length ciphertext;
            chunks = c.chunks ++ (chunk_id, ciphertext) ∷ [];
          }
    ]

unfoldable pub add_chunks : LocalStore → ℕ → List String → Collected → Collected
add_chunks store budget_bytes [] c = c
add_chunks store budget_bytes (chunk_id ∷ ids) c =
    add_chunks store budget_bytes ids (add_chunk store budget_bytes chunk_id c)

-- `chunk_ids` reads the ids of the attachment in a body.
unfoldable pub collect_chunks :
    (Option String → List String) → LocalStore → ℕ → List MessageItem → Collected → Collected
collect_chunks chunk_ids store budget_bytes [] c = c
collect_chunks chunk_ids store budget_bytes (item ∷ items) c =
    collect_chunks chunk_ids store budget_bytes items
      (add_chunks store budget_bytes (chunk_ids item.body) c)

unfoldable pub messages_within : String → ℤ → ℤ → LocalStore → List MessageItem
messages_within identity_id since_ms until_ms store =
    map (λ (m : Message). message_item m.contact_id m)
      (select (λ m. int_leb since_ms m.ts && int_leb m.ts until_ms)
        (list_all_messages identity_id store))

-- `b64e` is applied to keys and chunks. The skipped chunks come beside the bundle.
unfoldable pub build_bundle :
    (Bytes → Bytes)
    → (Option String → List String)
    → String
    → ℤ
    → ℤ
    → ℕ
    → Bool
    → LocalStore
    → Bundle × List (String × Reason)
build_bundle b64e chunk_ids identity_id since_ms until_ms budget_bytes include_attachments store =
    let messages = messages_within identity_id since_ms until_ms store in
    let collected =
      if include_attachments
      then collect_chunks chunk_ids store budget_bytes messages nothing
      else nothing in
    (
      record {
        contact_items = map (contact_item b64e) (list_contacts identity_id store);
        message_items = messages;
        chunk_items =
            map (λ (c : String × Bytes). record { id = some c.0; ct = some (b64e c.1) })
              collected.chunks;
      },
      collected.skipped,
    )
