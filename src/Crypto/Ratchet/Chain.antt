-- ===== src/Crypto/Ratchet/Chain.antt =====
-- A receiving chain of the ratchet: the keys along it, and what a session keeps of them.
use noknowledge.Base.{
  ℕ, zero, suc, ◌+◌, ◌<◌, Bytes, Bool, true, not, ◌&&◌, ◌≡◌, refl, Option, none, some, List, [],
  ◌∷◌, ◌==◌, eq_ℕ, eq_Bytes, eq_law, eq_self, ltb, if◌then◌else◌, arith, delete, first, ap, ◌∙◌,
}
use noknowledge.Base.Int.{ℤ, pos, eq_ℤ}
use noknowledge.Crypto.Primitives.{Primitives}
use noknowledge.Crypto.Kdf.{kdf_ck}
use noknowledge.Crypto.Ratchet.{RatchetState, SkippedKey, is_key, put_key, or_empty, skip_loop}

-- The chain key after `n` steps, and the message key that follows it.
unfoldable pub chain_at : Primitives → Bytes → ℕ → Bytes
unfolding kdf_ck
chain_at p chain zero = chain
chain_at p chain (suc n) = (kdf_ck p (chain_at p chain n)).1

abbrev pub key_at : Primitives → Bytes → ℕ → Bytes
key_at p chain n = (kdf_ck p (chain_at p chain n)).0

abbrev pub key_of : Option SkippedKey → Option Bytes
key_of none = none
key_of (some e) = some e.key

abbrev pub held : Bytes → ℤ → List SkippedKey → Option Bytes
held dh n es = key_of (first (is_key dh n) es)

pub held-put_key :
    (dh : Bytes) (m n : ℤ) (key : Bytes) (es : List SkippedKey)
    → held dh m (put_key dh n key es) ≡ (if m == n then some key else held dh m es)
unfolding put_key first
held-put_key dh m n key [] = ground (arith, eq_self dh, eq_law m n, eq_law n m)
held-put_key dh m n key (e ∷ es) = ground (
  arith,
  held-put_key dh m n key es,
  eq_self dh,
  eq_law m n,
  eq_law n m,
  eq_law e.dh dh,
  eq_law e.number n,
  eq_law e.number m,
)

pub held-delete :
    (dh : Bytes) (m n : ℤ) (es : List SkippedKey)
    → held dh m (delete (is_key dh n) es) ≡ (if m == n then none else held dh m es)
unfolding delete first
held-delete dh m n [] = ground (arith)
held-delete dh m n (e ∷ es) =
    ground
      (arith, held-delete dh m n es, eq_law m n, eq_law n m, eq_law e.number n, eq_law e.number m)

-- The session follows the chain that starts at `chain` for the remote key `dh`, and has delivered
-- the messages that `seen` holds: it keeps the keys of the others below its count.
pub record Follows (p : Primitives) (dh chain : Bytes) (seen : ℕ → Bool) (s : RatchetState)
    : Type 0 where
  pub remote : s.dh_remote ≡ some dh
  pub receiving : s.receiving_chain ≡ some (chain_at p chain s.recv_count)
  pub keys :
      (i : ℕ)
      → held dh (pos i) s.skipped
        ≡ (if ltb i s.recv_count && not (seen i) then some (key_at p chain i) else none)
  pub below : (i : ℕ) → seen i ≡ true → i < s.recv_count

module _ (p : Primitives) (dh chain : Bytes) (seen : ℕ → Bool) where
  -- One round of the loop.
  abbrev skipped_one : RatchetState → RatchetState
  skipped_one s = record s {
    receiving_chain = some (chain_at p chain (suc s.recv_count));
    skipped =
        put_key (or_empty s.dh_remote) (pos s.recv_count) (key_at p chain s.recv_count) s.skipped;
    recv_count = suc s.recv_count;
  }

  skip_one-Follows :
      (s : RatchetState) → Follows p dh chain seen s → Follows p dh chain seen (skipped_one s)
  skip_one-Follows s f = record {
    remote = f.remote;
    receiving = refl;
    keys = λ i. rw (ap or_empty f.remote) (
        ground (
          arith,
          held-put_key dh (pos i) (pos s.recv_count) (key_at p chain s.recv_count) s.skipped,
          f.keys i,
          f.below i,
        ));
    below = λ i h. ground (arith, f.below i h);
  }

  pub skip_loop-Follows :
      (rounds : ℕ) (s : RatchetState)
      → Follows p dh chain seen s
      → Follows p dh chain seen (skip_loop p rounds (chain_at p chain s.recv_count) s)
        × ((skip_loop p rounds (chain_at p chain s.recv_count) s).recv_count
            ≡ s.recv_count + rounds)
  unfolding skip_loop chain_at
  skip_loop-Follows zero s f = (f, omega arith)
  skip_loop-Follows (suc rounds) s f =
      let rest = skip_loop-Follows rounds (skipped_one s) (skip_one-Follows s f) in
      (rest.0, rest.1 ∙ omega arith)
