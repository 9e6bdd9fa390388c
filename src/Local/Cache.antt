-- ===== src/Local/Cache.antt =====
-- noknowledge/core/store.py: the cache of attachment chunks, and its limit.
use noknowledge.Base.{
  ℕ, zero, suc, ◌+◌, ◌-◌, ◌≤◌, String, Bytes, Bool, true, false, Option, none, some, List, [], ◌∷◌,
  ◌++◌, ◌==◌, eq_String, eq_self, ltb, leb, if◌then◌else◌, length, delete, first, count, sum, ◌≡◌,
  refl, arith, inl, inr, Bool-cases, Option-cases,
}
use noknowledge.Local.Schema.{LocalBlob, LocalStore}

abbrev pub is_chunk : String → LocalBlob → Bool
is_chunk chunk_id b = b.chunk_id == chunk_id

abbrev pub every : LocalBlob → Bool
every _ = true

abbrev pub local_blob_cap_bytes : ℕ
local_blob_cap_bytes = 2147483648

unfoldable pub get_local_blob : String → LocalStore → Option Bytes
get_local_blob chunk_id store = elim (first (is_chunk chunk_id) store.local_blobs) [
  | none ↦ none
  | some b ↦ some b.ciphertext
]

unfoldable pub has_local_blob : String → LocalStore → Bool
has_local_blob chunk_id store = elim (first (is_chunk chunk_id) store.local_blobs) [
  | none ↦ false
  | some _ ↦ true
]

unfoldable pub local_blob_count : LocalStore → ℕ
local_blob_count store = count every store.local_blobs

unfoldable pub local_blob_bytes : LocalStore → ℕ
local_blob_bytes store = sum every (λ b. b.size) store.local_blobs

-- ORDER BY created_at LIMIT 1
unfoldable pub oldest : List LocalBlob → Option LocalBlob
oldest [] = none
oldest (b ∷ bs) =
    let rest = oldest bs in
    elim rest [ none ↦ some b | some c ↦ if leb b.created_at c.created_at then some b else some c ]

-- `while total > cap`; each round takes a row, so there are no more rounds than rows.
unfoldable pub prune_loop : ℕ → ℕ → ℕ → List LocalBlob → List LocalBlob
unfolding oldest
prune_loop zero cap total rows = rows
prune_loop (suc rounds) cap total rows = elim (oldest rows) [
  | none ↦ rows
  | some b ↦
      let rest = prune_loop rounds cap (total - b.size) (delete (is_chunk b.chunk_id) rows) in
      if ltb cap total then rest else rows
]

-- Returns how many rows went.
unfoldable pub prune_local_blobs : ℕ → LocalStore → ℕ × LocalStore
unfolding prune_loop local_blob_bytes local_blob_count
prune_local_blobs cap store =
    let kept = prune_loop (local_blob_count store) cap (local_blob_bytes store) store.local_blobs in
    (count every store.local_blobs - count every kept, record store { local_blobs = kept })

-- INSERT ... ON CONFLICT DO NOTHING
unfoldable pub insert_blob : ℕ → String → Bytes → LocalStore → LocalStore
insert_blob now chunk_id ciphertext store = elim (first (is_chunk chunk_id) store.local_blobs) [
  | some _ ↦ store
  | none ↦ record store {
    local_blobs =
        store.local_blobs
        ++ record {
          chunk_id = chunk_id;
          ciphertext = ciphertext;
          size = length ciphertext;
          created_at = now;
        }
          ∷ [];
  }
]

unfoldable pub put_local_blob : ℕ → String → Bytes → LocalStore → LocalStore
unfolding prune_local_blobs insert_blob
put_local_blob now chunk_id ciphertext store =
    (prune_local_blobs local_blob_cap_bytes (insert_blob now chunk_id ciphertext store)).1

delete_lem :
    (p : LocalBlob → Bool) (rows : List LocalBlob)
    → (sum every (λ b. b.size) (delete p rows) ≤ sum every (λ b. b.size) rows)
      × (count every (delete p rows) ≤ count every rows)
unfolding delete sum count
delete_lem p [] = (omega arith, omega arith)
delete_lem p (c ∷ cs) = ground (arith, delete_lem p cs)

-- The oldest row is one of the rows, so deleting it takes its size away.
oldest_lem :
    (p : LocalBlob → Bool) (rows : List LocalBlob) (b : LocalBlob)
    → oldest rows ≡ some b
    → p b ≡ true
    → (sum every (λ b. b.size) (delete p rows) + b.size ≤ sum every (λ b. b.size) rows)
      × (suc (count every (delete p rows)) ≤ count every rows)
unfolding oldest delete sum count
oldest_lem p [] b h k = ground arith
oldest_lem p (c ∷ cs) b h k = elim (Option-cases (oldest cs)) [
  | inl e ↦ ground (arith, delete_lem p cs)
  | inr (d, e) ↦ elim (Bool-cases (leb c.created_at d.created_at)) [
    | inl older ↦ ground (arith, delete_lem p cs)
    | inr newer ↦ ground (arith, oldest_lem p cs b)
  ]
]

none-oldest : (rows : List LocalBlob) → oldest rows ≡ none → sum every (λ b. b.size) rows ≡ 0
unfolding oldest sum
none-oldest [] h = refl
none-oldest (c ∷ cs) h = elim (Option-cases (oldest cs)) [
  | inl e ↦ ground arith
  | inr (d, e) ↦ ground arith
]

no_rows :
    (cap : ℕ) (rows : List LocalBlob) → count every rows ≤ 0 → sum every (λ b. b.size) rows ≤ cap
unfolding count sum
no_rows cap [] h = omega arith
no_rows cap (c ∷ cs) h = ground arith

prune_loop-le :
    (rounds cap total : ℕ) (rows : List LocalBlob)
    → sum every (λ b. b.size) rows ≤ total
    → count every rows ≤ rounds
    → sum every (λ b. b.size) (prune_loop rounds cap total rows) ≤ cap
unfolding prune_loop
prune_loop-le zero cap total rows h k = no_rows cap rows k
prune_loop-le (suc rounds) cap total rows h k = elim (Option-cases (oldest rows)) [
  | inl e ↦ ground (arith, none-oldest rows e)
  | inr (b, e) ↦ elim (Bool-cases (ltb cap total)) [
    | inl more ↦
        let less = oldest_lem (is_chunk b.chunk_id) rows b e (eq_self b.chunk_id) in
        let kept = delete (is_chunk b.chunk_id) rows in
        let rest = prune_loop-le rounds cap (total - b.size) kept (omega arith) (omega arith) in
        ground arith
    | inr fits ↦ ground arith
  ]
]

prune_local_blobs-within :
    (cap : ℕ) (store : LocalStore) → local_blob_bytes (prune_local_blobs cap store).1 ≤ cap
unfolding prune_local_blobs local_blob_bytes local_blob_count
prune_local_blobs-within cap store =
    prune_loop-le (local_blob_count store) cap (local_blob_bytes store) store.local_blobs
      (omega arith) (omega arith)

-- After a chunk is cached, whatever was there before, the cache is within its limit.
pub put_local_blob-within :
    (now : ℕ) (chunk_id : String) (ciphertext : Bytes) (store : LocalStore)
    → local_blob_bytes (put_local_blob now chunk_id ciphertext store) ≤ local_blob_cap_bytes
unfolding put_local_blob
put_local_blob-within now chunk_id ciphertext store =
    prune_local_blobs-within local_blob_cap_bytes (insert_blob now chunk_id ciphertext store)
