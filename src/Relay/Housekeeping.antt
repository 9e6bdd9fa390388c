-- ===== src/Relay/Housekeeping.antt =====
-- noknowledge/server/db.py: `housekeeping` and `stats`.
use noknowledge.Base.{
  ℕ, ◌+◌, String, Bool, true, false, ◌&&◌, Option, none, some, List, [], ◌∷◌, map, ltb, length,
  select, delete, count, sum,
}
use noknowledge.Base.Outcome.{ok}
use noknowledge.Relay.Schema.{Mailbox, Message, Blob, Database, Transaction, connect}
use noknowledge.Relay.Mailboxes.{in_mailbox, blob_in_mailbox, find_mailbox, drop_mailbox}

pub record Removed : Type 0 where
  pub mailboxes : ℕ
  pub messages : ℕ
  pub blobs : ℕ

-- `last_seen < now - mailbox_ttl` over the integers.
abbrev pub is_idle : ℕ → ℕ → Mailbox → Bool
is_idle now mailbox_ttl m = ltb (m.last_seen + mailbox_ttl) now

-- The loop over the stale mailboxes.
unfoldable pub drop_all : List String → ℕ × ℕ × Database → ℕ × ℕ × Database
unfolding drop_mailbox
drop_all [] s = s
drop_all (id ∷ ids) (messages, blobs, db) = drop_all ids (
  messages + count (in_mailbox id) db.messages,
  blobs + count (blob_in_mailbox id) db.blobs,
  drop_mailbox id db,
)

abbrev pub is_none {ℓ} : {A : Type ℓ} → Option A → Bool
is_none none = true
is_none (some _) = false

-- created_at < ? AND mailbox_id NOT IN (SELECT id FROM mailboxes)
abbrev pub is_stray : ℕ → ℕ → Database → Blob → Bool
is_stray now blob_ttl db b =
    ltb (b.created_at + blob_ttl) now && is_none (find_mailbox b.mailbox_id db)

unfoldable pub sweep_blobs : ℕ → ℕ → Database → Database
sweep_blobs now blob_ttl db = record db { blobs = delete (is_stray now blob_ttl db) db.blobs }

abbrev pub stale_ids : ℕ → ℕ → Database → List String
stale_ids now mailbox_ttl db = map (λ m. m.id) (select (is_idle now mailbox_ttl) db.mailboxes)

unfoldable pub housekeeping : ℕ → ℕ → ℕ → Transaction Removed
unfolding connect drop_all sweep_blobs
housekeeping now mailbox_ttl blob_ttl = connect λ db.
    let stale = stale_ids now mailbox_ttl db in
    let (messages, blobs, db') = drop_all stale (0, 0, db) in
    (
      ok (record {
        mailboxes = length stale;
        messages = messages;
        blobs = blobs + count (is_stray now blob_ttl db') db'.blobs;
      }),
      sweep_blobs now blob_ttl db',
    )

pub record Stats : Type 0 where
  pub mailboxes : ℕ
  pub messages : ℕ
  pub blobs : ℕ
  pub bytes : ℕ
  pub prekey_bundles : ℕ

unfoldable pub stats : Transaction Stats
unfolding connect
stats = connect λ db. (
  ok (record {
    mailboxes = length db.mailboxes;
    messages = length db.messages;
    blobs = length db.blobs;
    bytes =
        sum (λ _. true) (λ (m : Message). m.size) db.messages
        + sum (λ _. true) (λ (b : Blob). b.size) db.blobs;
    prekey_bundles = length db.bundles;
  }),
  db,
)
