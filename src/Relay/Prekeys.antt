-- ===== src/Relay/Prekeys.antt =====
-- noknowledge/server/db.py: `publish_bundle` and `fetch_bundle`.
use noknowledge.Base.{
  ℕ, suc, String, Bool, true, false, not, ◌&&◌, Option, none, some, List, [], ◌∷◌, ◌++◌, ◌==◌,
  eq_String, eq_ℕ, select, update, first, order_by,
}
use noknowledge.Base.Int.{ℤ, eq_ℤ}
use noknowledge.Base.Outcome.{ok, err}
use noknowledge.Relay.Schema.{
  PrekeyBundle, OneTimePrekey, Database, Transaction, connect, bundle_not_found, malformed,
}

abbrev pub has_bundle : String → PrekeyBundle → Bool
has_bundle bundle_id row = row.bundle_id == bundle_id

-- UNIQUE (bundle_id, opk_id)
abbrev pub has_key : String → ℤ → OneTimePrekey → Bool
has_key bundle_id opk_id row = row.bundle_id == bundle_id && row.opk_id == opk_id

abbrev pub is_unused : String → OneTimePrekey → Bool
is_unused bundle_id row = row.bundle_id == bundle_id && not row.used

-- INSERT ... ON CONFLICT (bundle_id) DO UPDATE SET payload
unfoldable pub put_payload : String → String → ℕ → Database → Database
put_payload bundle_id payload now db = elim (first (has_bundle bundle_id) db.bundles) [
  | none ↦ record db {
    bundles =
        db.bundles ++ record { bundle_id = bundle_id; payload = payload; created_at = now } ∷ [];
  }
  | some _ ↦ record db {
    bundles = update (has_bundle bundle_id) (λ b. record b { payload = payload }) db.bundles;
  }
]

-- INSERT OR IGNORE INTO prekey_one_time
unfoldable pub add_one_time : String → ℤ → String → Database → Database
add_one_time bundle_id opk_id opk db = elim (first (has_key bundle_id opk_id) db.one_time) [
  | some _ ↦ db
  | none ↦ record db {
    one_time =
        db.one_time
        ++ record {
          id = db.next_id;
          bundle_id = bundle_id;
          opk_id = opk_id;
          opk = opk;
          used = false;
        }
          ∷ [];
    next_id = suc db.next_id;
  }
]

-- The loop over the one-time prekeys; `none` is an entry on which `int(opk["opk_id"])` or
-- `opk["opk"]` raises.
unfoldable pub add_all : String → List (Option (ℤ × String)) → Transaction Unit
unfolding add_one_time
add_all bundle_id [] db = (ok tt, db)
add_all bundle_id (none ∷ opks) db = (err malformed, db)
add_all bundle_id (some (opk_id, opk) ∷ opks) db =
    add_all bundle_id opks (add_one_time bundle_id opk_id opk db)

unfoldable pub publish_bundle : String → String → List (Option (ℤ × String)) → ℕ → Transaction Unit
unfolding connect put_payload add_all
publish_bundle bundle_id payload opks now =
    connect λ db. add_all bundle_id opks (put_payload bundle_id payload now db)

abbrev pub head? {ℓ} : {A : Type ℓ} → List A → Option A
head? [] = none
head? (x ∷ xs) = some x

-- SELECT ... WHERE bundle_id = ? AND used = 0 ORDER BY id ASC LIMIT 1
unfoldable pub next_one_time : String → Database → Option OneTimePrekey
next_one_time bundle_id db = head? (order_by (λ r. r.id) (select (is_unused bundle_id) db.one_time))

unfoldable pub mark_used : ℕ → Database → Database
mark_used id db = record db {
  one_time = update (λ r. r.id == id) (λ r. record r { used = true }) db.one_time;
}

-- The payload, and at most one one-time prekey, which is spent.
unfoldable pub fetch_bundle : String → Transaction (String × Option (ℤ × String))
unfolding connect next_one_time mark_used
fetch_bundle bundle_id = connect λ db. elim (first (has_bundle bundle_id) db.bundles) [
  | none ↦ (err bundle_not_found, db)
  | some row ↦ elim (next_one_time bundle_id db) [
    | none ↦ (ok (row.payload, none), db)
    | some opk ↦ (ok (row.payload, some (opk.opk_id, opk.opk)), mark_used opk.id db)
  ]
]
