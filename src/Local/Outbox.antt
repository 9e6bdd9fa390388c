-- ===== src/Local/Outbox.antt =====
-- noknowledge/core/store.py: the messages that wait to be sent.
use noknowledge.Base.{
  ℕ, String, Bool, true, ◌&&◌, ◌||◌, Option, none, some, List, [], ◌∷◌, ◌++◌, ◌==◌, eq_String,
  select, delete, update, first, count, order_by,
}
use noknowledge.Base.Outcome.{Action, ok, err}
use noknowledge.Local.Schema.{OutboxEntry, LocalStore}

abbrev pub is_entry : String → OutboxEntry → Bool
is_entry id e = e.id == id

-- SQLite's error for an id that is taken.
pub data OutboxError : Type 0 where
  duplicate_id : OutboxError

unfoldable pub outbox_add : OutboxEntry → Action LocalStore OutboxError Unit
outbox_add entry store = elim (first (is_entry entry.id) store.outbox) [
  | some _ ↦ (err duplicate_id, store)
  | none ↦ (ok tt, record store { outbox = store.outbox ++ entry ∷ [] })
]

-- An empty contact id counts as none.
abbrev pub for_contact : Option String → OutboxEntry → Bool
for_contact none e = true
for_contact (some contact_id) e = contact_id == "" || e.contact_id == contact_id

unfoldable pub outbox_list : String → Option String → LocalStore → List OutboxEntry
outbox_list identity_id contact_id store =
    order_by (λ e. e.created_at)
      (select (λ e. e.identity_id == identity_id && for_contact contact_id e) store.outbox)

unfoldable pub outbox_remove : String → LocalStore → LocalStore
outbox_remove entry_id store = record store { outbox = delete (is_entry entry_id) store.outbox }

-- `like id message_id` is SQLite's `id LIKE '<message_id>:%'`.
unfoldable pub outbox_remove_for_message :
    (String → String → Bool) → String → LocalStore → LocalStore
outbox_remove_for_message like message_id store = record store {
  outbox = delete (λ e. is_entry message_id e || like e.id message_id) store.outbox;
}

unfoldable pub outbox_mark_sent : String → LocalStore → LocalStore
outbox_mark_sent entry_id store = record store {
  outbox = update (is_entry entry_id) (λ e. record e { seq = some 1 }) store.outbox;
}

unfoldable pub outbox_count : String → LocalStore → ℕ
outbox_count identity_id store = count (λ e. e.identity_id == identity_id) store.outbox
