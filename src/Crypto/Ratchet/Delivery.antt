-- ===== src/Crypto/Ratchet/Delivery.antt =====
-- What a session returns on the messages of one chain, in whatever order they arrive.
pub mod Session
use noknowledge.Base.{
  ℕ, zero, suc, ◌+◌, ◌-◌, ◌<◌, ◌≤◌, Bytes, Bool, true, false, not, ◌&&◌, ◌||◌, ◌≡◌, refl, ◌∙◌, ap,
  ◌⊎◌, inl, inr, Option, none, some, List, [], ◌∷◌, ◌==◌, eq_ℕ, eq_Bytes, eq_law, eq_self, ltb, leb,
  if◌then◌else◌, arith, delete, first, length, Bool-cases, Option-cases,
}
use noknowledge.Base.Int.{ℤ, pos, eq_ℤ, int_eq}
use noknowledge.Base.Outcome.{Result, ok, err}
use noknowledge.Crypto.Primitives.{Primitives, Header, Laws}
use noknowledge.Crypto.Kdf.{kdf_ck}
use noknowledge.Crypto.Aead.{decrypt as aead_decrypt}
use noknowledge.Crypto.Ratchet.{
  RatchetState, RatchetError, SkippedKey, duplicate_message, skipped_too_far, is_key, is_remote,
  max_skip, associated_data, skip_keys, skip_loop, next_key, message_key, enter_chain,
  decrypt_steps, decrypt,
}
use noknowledge.Crypto.Ratchet.Chain.{
  chain_at, key_at, key_of, held, held-delete, Follows, skip_loop-Follows,
}

-- The specification. `next` is one more than the highest number delivered.
abbrev pub after : ℕ → ℕ → ℕ
after next n = if ltb n next then next else suc n

abbrev pub with_number : ℕ → (ℕ → Bool) → ℕ → Bool
with_number n seen i = i == n || seen i

abbrev pub verdict : ℕ → (ℕ → Bool) → ℕ → Option RatchetError
verdict next seen n =
    if seen n
    then some duplicate_message
    else if ltb (next + max_skip) n
    then some skipped_too_far
    else none

held_none : (o : Option SkippedKey) → key_of o ≡ none → o ≡ none
held_none none h = refl
held_none (some e) h = ground arith

held_some :
    (o : Option SkippedKey) (key : Bytes)
    → key_of o ≡ some key
    → (e : SkippedKey) × (o ≡ some e) × (e.key ≡ key)
held_some none key h = ground arith
held_some (some e) key h = (e, refl, ground arith)

module _ (p : Primitives) (dh chain : Bytes) (seen : ℕ → Bool) (s : RatchetState)
    (f : Follows p dh chain seen s) (n : ℕ) where
  pub seen_key : seen n ≡ true → message_key p dh (pos n) s ≡ (err duplicate_message, s)
  unfolding message_key
  seen_key h =
      let low = f.below n h in
      let e = held_none (first (is_key dh (pos n)) s.skipped) (ground (arith, f.keys n)) in
      ground arith

  pub far_key :
      seen n ≡ false
      → ltb (s.recv_count + max_skip) n ≡ true
      → message_key p dh (pos n) s ≡ (err skipped_too_far, s)
  unfolding message_key
  far_key h far =
      let e = held_none (first (is_key dh (pos n)) s.skipped) (ground (arith, f.keys n)) in
      ground arith

  -- A message that was skipped: its key leaves the cache.
  unfoldable pub popped : RatchetState
  popped = record s { skipped = delete (is_key dh (pos n)) s.skipped }

  pub old_key :
      seen n ≡ false
      → n < s.recv_count
      → message_key p dh (pos n) s ≡ (ok (key_at p chain n), popped)
  unfolding message_key popped
  old_key h low =
      let (e, found, same) =
        held_some (first (is_key dh (pos n)) s.skipped) (key_at p chain n)
          (ground (arith, f.keys n)) in
      ground arith

  pub popped-Follows : n < s.recv_count → Follows p dh chain (with_number n seen) popped
  unfolding popped
  popped-Follows low = record {
    remote = f.remote;
    receiving = f.receiving;
    keys = λ i. ground (arith, held-delete dh (pos i) (pos n) s.skipped, f.keys i);
    below = λ i h. ground (arith, f.below i);
  }

  -- A message ahead of the count.
  unfoldable pub ahead : RatchetState
  ahead = skip_loop p (n - s.recv_count) (chain_at p chain s.recv_count) s

  ahead-Follows : s.recv_count ≤ n → Follows p dh chain seen ahead × (ahead.recv_count ≡ n)
  unfolding ahead
  ahead-Follows high =
      let (g, e) = skip_loop-Follows p dh chain seen (n - s.recv_count) s f in (g, e ∙ omega arith)

  unfoldable pub advanced : RatchetState
  advanced = record ahead { receiving_chain = some (chain_at p chain (suc n)); recv_count = suc n }

  skips : ltb (s.recv_count + max_skip) n ≡ false → skip_keys p (pos n) s ≡ (ok tt, ahead)
  unfolding skip_keys ahead
  skips near = ground (arith, f.receiving)

  next : s.recv_count ≤ n → next_key p ahead ≡ (ok (key_at p chain n), advanced)
  unfolding next_key advanced chain_at
  next high =
      let (g, c) = ahead-Follows high in
      let at : ahead.receiving_chain ≡ some (chain_at p chain n) =
        g.receiving ∙ ap (λ i. some (chain_at p chain i)) c in
      ground (arith, at, c)

  pub new_key :
      seen n ≡ false
      → s.recv_count ≤ n
      → ltb (s.recv_count + max_skip) n ≡ false
      → message_key p dh (pos n) s ≡ (ok (key_at p chain n), advanced)
  unfolding message_key
  new_key h high near =
      let e = held_none (first (is_key dh (pos n)) s.skipped) (ground (arith, f.keys n)) in
      let one = skips near in let two = next high in ground arith

  pub advanced-Follows : s.recv_count ≤ n → Follows p dh chain (with_number n seen) advanced
  unfolding advanced
  advanced-Follows high =
      let (g, c) = ahead-Follows high in
      record {
        remote = g.remote;
        receiving = refl;
        keys = λ i. ground (arith, c, g.keys i, g.below i);
        below = λ i h. ground (arith, c, g.below i);
      }
