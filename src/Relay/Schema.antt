-- ===== src/Relay/Schema.antt =====
-- noknowledge/server/db.py: the tables of the relay and `Database._connect`.
-- A table is the list of its rows in the order of insertion. Times are whole seconds.
use noknowledge.Base.{ℕ, String, Bytes, Bool, List, []}
use noknowledge.Base.Int.{ℤ}
use noknowledge.Base.Outcome.{ok, err, Action}

pub record Mailbox : Type 0 where
  pub id : String
  pub read_token_hash : Bytes
  pub write_token_hash : Bytes
  pub created_at : ℕ
  pub last_seen : ℕ
  pub max_messages : ℕ
  pub max_bytes : ℕ
  pub next_seq : ℕ

-- The row id of a message is read by no statement, so it is left out.
pub record Message : Type 0 where
  pub mailbox_id : String
  pub seq : ℕ
  pub ciphertext : Bytes
  pub created_at : ℕ
  pub size : ℕ

-- A bundle's payload is the JSON text that the relay stores and never looks into.
pub record PrekeyBundle : Type 0 where
  pub bundle_id : String
  pub payload : String
  pub created_at : ℕ

pub record OneTimePrekey : Type 0 where
  pub id : ℕ
  pub bundle_id : String
  pub opk_id : ℤ
  pub opk : String
  pub used : Bool

pub record Blob : Type 0 where
  pub chunk_id : String
  pub mailbox_id : String
  pub ciphertext : Bytes
  pub size : ℕ
  pub created_at : ℕ

-- `next_id` is the AUTOINCREMENT counter of `prekey_one_time`.
pub record Database : Type 0 where
  pub mailboxes : List Mailbox
  pub messages : List Message
  pub bundles : List PrekeyBundle
  pub one_time : List OneTimePrekey
  pub next_id : ℕ
  pub blobs : List Blob

abbrev pub empty_database : Database
empty_database = record {
  mailboxes = [];
  messages = [];
  bundles = [];
  one_time = [];
  next_id = 1;
  blobs = [];
}

-- server/errors.py; `integrity_error` is SQLite's, for a duplicate key, and `malformed` stands for
-- the KeyError, TypeError or ValueError of a one-time prekey that has not the expected fields.
pub data RelayError : Type 0 where
  mailbox_not_found bundle_not_found blob_not_found quota_exceeded : RelayError
  integrity_error malformed : RelayError

abbrev pub Transaction : Type 0 → Type 0
Transaction = Action Database RelayError

-- `with self._connect()`: commit at the end, roll back when the body raises.
unfoldable pub connect : {A : Type 0} → Transaction A → Transaction A
connect body db = let (r, db') = body db in elim r [ ok a ↦ (ok a, db') | err e ↦ (err e, db) ]
