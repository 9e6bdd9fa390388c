-- ===== src/Crypto/Ratchet/Delivery/Session.antt =====
-- Whole sequences of deliveries, against the specification.
use noknowledge.Base.{
  ℕ, ◌+◌, ◌≤◌, Bytes, Bool, true, false, ◌≡◌, refl, sym, ◌∙◌, ap, inl, inr, none, some, List, [],
  ◌∷◌, eq_Bytes, eq_self, ltb, ltb→lt, arith, length, Bool-cases,
}
use noknowledge.Base.Int.{ℤ, pos}
use noknowledge.Base.Outcome.{Result, ok, err}
use noknowledge.Crypto.Primitives.{Primitives, Header, Laws}
use noknowledge.Crypto.Kdf.{kdf_ck}
use noknowledge.Crypto.Aead.{decrypt as aead_decrypt}
use noknowledge.Crypto.Ratchet.{
  RatchetState, RatchetError, max_skip, associated_data, message_key, enter_chain, decrypt_steps,
  decrypt,
}
use noknowledge.Crypto.Ratchet.Chain.{key_at, Follows, chain_at}
use noknowledge.Crypto.Ratchet.Delivery.{
  after, with_number, verdict, seen_key, far_key, old_key, popped, popped-Follows, new_key,
  advanced, advanced-Follows,
}

-- A message of a chain, and what is sent of it.
pub record Message : Type 0 where
  pub number : ℕ
  pub pn : ℤ
  pub nonce : Bytes
  pub plaintext : Bytes
  pub context : Bytes

abbrev pub header : Primitives → Bytes → Message → Header
header p dh m = record { dh = p.b64e dh; pn = m.pn; n = pos m.number }

abbrev pub ciphertext : Primitives → Bytes → Bytes → Message → Bytes
ciphertext p dh chain m =
    p.seal (key_at p chain m.number) m.nonce m.plaintext
      (associated_data p (header p dh m) m.context)

module _ (p : Primitives) (fresh : Bytes × Bytes) (dh chain : Bytes) where
  abbrev pub deliver : Message → RatchetState → Result RatchetError Bytes × RatchetState
  deliver m = decrypt p fresh (some (header p dh m)) m.nonce (ciphertext p dh chain m) m.context

  -- The results of deliveries in a row.
  unfoldable pub deliveries : List Message → RatchetState → List (Result RatchetError Bytes)
  unfolding decrypt
  deliveries [] s = []
  deliveries (m ∷ ms) s = let (r, s') = deliver m s in r ∷ deliveries ms s'

-- What they should be: each number once, and none that is more than `max_skip` ahead.
unfoldable pub spec_deliveries : List Message → ℕ → (ℕ → Bool) → List (Result RatchetError Bytes)
spec_deliveries [] next seen = []
spec_deliveries (m ∷ ms) next seen =
    let later = spec_deliveries ms (after next m.number) (with_number m.number seen) in
    let same = spec_deliveries ms next seen in
    elim (verdict next seen m.number) [ none ↦ ok m.plaintext ∷ later | some e ↦ err e ∷ same ]

abbrev pub AllNonces : List Message → Type 0
AllNonces [] = Unit
AllNonces (m ∷ ms) = (length m.nonce ≡ 12) × AllNonces ms

module _ (p : Primitives) (laws : Laws p) (fresh : Bytes × Bytes) (dh chain : Bytes)
    (seen : ℕ → Bool) (s : RatchetState) (f : Follows p dh chain seen s) (m : Message) where
  entered : enter_chain p fresh dh m.pn s ≡ (ok tt, s)
  unfolding enter_chain
  entered = let a = f.remote in let b = f.receiving in ground (arith, eq_self dh)

  pub opened :
      length m.nonce ≡ 12
      → aead_decrypt p
          (key_at p chain m.number)
          m.nonce
          (ciphertext p dh chain m)
          (associated_data p (header p dh m) m.context)
        ≡ some m.plaintext
  unfolding aead_decrypt kdf_ck
  opened h =
      let ad = associated_data p (header p dh m) m.context in
      let key = key_at p chain m.number in
      ground (
        arith,
        laws.opens key m.nonce m.plaintext ad,
        laws.hmac_size (chain_at p chain m.number) (1 ∷ []),
      )

  pub delivered :
      (s' : RatchetState)
      → length m.nonce ≡ 12
      → message_key p dh (pos m.number) s ≡ (ok (key_at p chain m.number), s')
      → deliver p fresh dh chain m s ≡ (ok m.plaintext, s')
  unfolding decrypt decrypt_steps
  delivered s' h e = ground (arith, laws.decodes dh, entered, opened h)

  pub not_delivered :
      (e : RatchetError)
      → message_key p dh (pos m.number) s ≡ (err e, s)
      → deliver p fresh dh chain m s ≡ (err e, s)
  unfolding decrypt decrypt_steps
  not_delivered e h = ground (arith, laws.decodes dh, entered)

module _ (next : ℕ) (seen : ℕ → Bool) (m : Message) (ms : List Message) where
  pub spec_refuses :
      (e : RatchetError)
      → verdict next seen m.number ≡ some e
      → spec_deliveries (m ∷ ms) next seen ≡ err e ∷ spec_deliveries ms next seen
  unfolding spec_deliveries
  spec_refuses e h = ground arith

  pub spec_accepts :
      verdict next seen m.number ≡ none
      → spec_deliveries (m ∷ ms) next seen
        ≡ ok m.plaintext ∷ spec_deliveries ms (after next m.number) (with_number m.number seen)
  unfolding spec_deliveries
  spec_accepts h = ground arith

module _ (p : Primitives) (fresh : Bytes × Bytes) (dh chain : Bytes) (m : Message)
    (ms : List Message) where
  -- The induction step, for a message that is delivered and for one that is not.
  pub step :
      (s s' : RatchetState) (r : Result RatchetError Bytes)
      (rest : List (Result RatchetError Bytes))
      → deliver p fresh dh chain m s ≡ (r, s')
      → deliveries p fresh dh chain ms s' ≡ rest
      → deliveries p fresh dh chain (m ∷ ms) s ≡ r ∷ rest
  unfolding deliveries
  step s s' r rest one more = ground arith

pub at_least : (a b : ℕ) → ltb a b ≡ false → b ≤ a
at_least a b h = ground arith

module _ (p : Primitives) (dh chain : Bytes) (seen : ℕ → Bool) (s : RatchetState)
    (f : Follows p dh chain seen s) (n : ℕ) where
  popped_count :
      ltb n s.recv_count ≡ true → (popped p dh chain seen s f n).recv_count ≡ after s.recv_count n
  unfolding popped
  popped_count low = rw low

  pub advanced_count :
      ltb n s.recv_count ≡ false
      → (advanced p dh chain seen s f n).recv_count ≡ after s.recv_count n
  unfolding advanced
  advanced_count high = rw high

follow :
    (p : Primitives) (laws : Laws p) (fresh : Bytes × Bytes) (dh chain : Bytes) (ms : List Message)
    (seen : ℕ → Bool) (s : RatchetState)
    → Follows p dh chain seen s
    → AllNonces ms
    → deliveries p fresh dh chain ms s ≡ spec_deliveries ms s.recv_count seen
unfolding deliveries spec_deliveries
follow p laws fresh dh chain [] seen s f h = refl
follow p laws fresh dh chain (m ∷ ms) seen s f (h, hs) =
    let n = m.number in
    elim (Bool-cases (seen n)) [
      | inl old ↦
          step p fresh dh chain m ms s s _ _
            (not_delivered p laws fresh dh chain seen s f m _ (seen_key p dh chain seen s f n old))
            (follow p laws fresh dh chain ms seen s f hs)
          ∙ sym (spec_refuses s.recv_count seen m ms _ (ground arith))
      | inr new ↦ elim (Bool-cases (ltb (s.recv_count + max_skip) n)) [
        | inl far ↦
            step p fresh dh chain m ms s s _ _
              (not_delivered p laws fresh dh chain seen s f m _
                (far_key p dh chain seen s f n new far))
              (follow p laws fresh dh chain ms seen s f hs)
            ∙ sym (spec_refuses s.recv_count seen m ms _ (ground arith))
        | inr near ↦ elim (Bool-cases (ltb n s.recv_count)) [
          | inl low ↦
              let s' = popped p dh chain seen s f n in
              step p fresh dh chain m ms s s' _ _
                (delivered p laws fresh dh chain seen s f m s' h
                  (old_key p dh chain seen s f n new (ltb→lt _ _ low)))
                (follow p laws fresh dh chain ms (with_number n seen) s'
                    (popped-Follows p dh chain seen s f n (ltb→lt _ _ low)) hs
                  ∙ ap (λ k. spec_deliveries ms k (with_number n seen))
                      (popped_count p dh chain seen s f n low))
              ∙ sym (spec_accepts s.recv_count seen m ms (ground arith))
          | inr high ↦
              let s' = advanced p dh chain seen s f n in
              step p fresh dh chain m ms s s' _ _
                (delivered p laws fresh dh chain seen s f m s' h
                  (new_key p dh chain seen s f n new (at_least _ _ high) near))
                (follow p laws fresh dh chain ms (with_number n seen) s'
                    (advanced-Follows p dh chain seen s f n (at_least _ _ high)) hs
                  ∙ ap (λ k. spec_deliveries ms k (with_number n seen))
                      (advanced_count p dh chain seen s f n high))
              ∙ sym (spec_accepts s.recv_count seen m ms (ground arith))
        ]
      ]
    ]

-- A session that follows a chain delivers each message of it once, in whatever order they come and
-- however often: the first time with the plaintext, later as a duplicate. A message whose number is
-- more than 1000 above the next number, the one after the highest number delivered, is refused and
-- changes nothing.
pub deliveries-eq-spec :
    (p : Primitives) (fresh : Bytes × Bytes) (dh chain : Bytes) (seen : ℕ → Bool) (s : RatchetState)
    (ms : List Message)
    → Laws p
    → Follows p dh chain seen s
    → AllNonces ms
    → deliveries p fresh dh chain ms s ≡ spec_deliveries ms s.recv_count seen
deliveries-eq-spec p fresh dh chain seen s ms laws f h = follow p laws fresh dh chain ms seen s f h
