-- ===== src/Crypto/Ratchet/Forged.antt =====
-- noknowledge/crypto/ratchet.py: messages that were made up by someone else, among those of a chain.
use noknowledge.Base.{
  ℕ, Bytes, Bool, ◌≡◌, refl, sym, ap, ◌∙◌, Option, none, some, List, [], ◌∷◌, All, subst, arith,
  inl, inr, Option-cases,
}
use noknowledge.Base.Outcome.{Result, err, Result-cases}
use noknowledge.Crypto.Primitives.{Primitives, Header, Laws}
use noknowledge.Crypto.Aead.{decrypt as aead_decrypt}
use noknowledge.Crypto.Ratchet.{
  RatchetState, RatchetError, malformed_header, aead_error, associated_data, enter_chain,
  message_key, decrypt_steps, decrypt,
}
use noknowledge.Crypto.Ratchet.Chain.{Follows}
use noknowledge.Crypto.Ratchet.Delivery.Session.{
  Message, AllNonces, deliver, deliveries, spec_deliveries, deliveries-eq-spec,
}

-- What a relay hands over: a message of the chain, or any header, nonce, ciphertext and context.
pub data Arrival : Type 0 where
  genuine : Message → Arrival
  forged : Option Header → Bytes → Bytes → Bytes → Arrival

abbrev pub genuine_of : List Arrival → List Message
genuine_of [] = []
genuine_of (genuine m ∷ es) = m ∷ genuine_of es
genuine_of (forged h nonce ct context ∷ es) = genuine_of es

module _ (p : Primitives) where
  -- No key opens what is forged.
  abbrev pub AllForged : List Arrival → Type 0
  AllForged [] = Unit
  AllForged (genuine m ∷ es) = AllForged es
  AllForged (forged h nonce ct context ∷ es) =
      ((key ad : Bytes) → aead_decrypt p key nonce ct ad ≡ none) × AllForged es

  module _ (fresh : Bytes × Bytes) where
    -- The results of all that arrives: those of the messages of the chain, and beside them those of
    -- what is forged.
    unfoldable pub arrivals :
        Bytes
        → Bytes
        → List Arrival
        → RatchetState
        → List (Result RatchetError Bytes) × List (Result RatchetError Bytes)
    unfolding decrypt
    arrivals dh chain [] s = ([], [])
    arrivals dh chain (genuine m ∷ es) s =
        let (r, s') = deliver p fresh dh chain m s in
        let (rs, fs) = arrivals dh chain es s' in (r ∷ rs, fs)
    arrivals dh chain (forged h nonce ct context ∷ es) s =
        let (r, s') = decrypt p fresh h nonce ct context s in
        let (rs, fs) = arrivals dh chain es s' in (rs, r ∷ fs)

    steps_fail :
        (h : Option Header) (nonce ct context : Bytes) (s : RatchetState)
        → ((key ad : Bytes) → aead_decrypt p key nonce ct ad ≡ none)
        → (e : RatchetError) × ((decrypt_steps p fresh h nonce ct context s).0 ≡ err e)
    unfolding decrypt_steps
    steps_fail none nonce ct context s f = (malformed_header, refl)
    steps_fail (some header) nonce ct context s f = elim (Option-cases (p.b64d header.dh)) [
      | inl d ↦ (malformed_header, ground (arith, d))
      | inr (remote, d) ↦
          let entered = enter_chain p fresh remote header.pn s in
          elim (Result-cases entered.0) [
            | inr (e, r) ↦ (e, ground (arith, d, r))
            | inl (_, r) ↦ elim (Result-cases (message_key p remote header.n entered.1).0) [
              | inr (e, k) ↦ (e, ground (arith, d, r, k))
              | inl (key, k) ↦
                  (aead_error, ground (arith, d, r, k, f key (associated_data p header context)))
            ]
          ]
    ]

    -- What is forged fails, and leaves the session as it was.
    forged-fails :
        (h : Option Header) (nonce ct context : Bytes) (s : RatchetState)
        → ((key ad : Bytes) → aead_decrypt p key nonce ct ad ≡ none)
        → (e : RatchetError) × (decrypt p fresh h nonce ct context s ≡ (err e, s))
    unfolding decrypt
    forged-fails h nonce ct context s f =
        let (e, k) = steps_fail h nonce ct context s f in (e, ground (arith, k))

    -- An error.
    abbrev pub Fails : Result RatchetError Bytes → Type 0
    Fails r = (e : RatchetError) × (r ≡ err e)

    arrivals-deliveries :
        (dh chain : Bytes) (es : List Arrival) (s : RatchetState)
        → AllForged es
        → ((arrivals dh chain es s).0 ≡ deliveries p fresh dh chain (genuine_of es) s)
          × All Fails (arrivals dh chain es s).1
    unfolding arrivals deliveries
    arrivals-deliveries dh chain [] s h = (refl, tt)
    arrivals-deliveries dh chain (genuine m ∷ es) s h =
        let (r, s') = deliver p fresh dh chain m s in
        let (rest, fails) = arrivals-deliveries dh chain es s' h in (ap (λ rs. r ∷ rs) rest, fails)
    arrivals-deliveries dh chain (forged k nonce ct context ∷ es) s h =
        let (e, same) = forged-fails k nonce ct context s h.0 in
        let (rest, fails) = arrivals-deliveries dh chain es s h.1 in
        (
          ap (λ (x : Result RatchetError Bytes × RatchetState). (arrivals dh chain es x.1).0) same
              ∙ rest,
          (
            (e, ap (λ (x : Result RatchetError Bytes × RatchetState). x.0) same),
            subst (λ (x : RatchetState). All Fails (arrivals dh chain es x).1)
                (sym (ap (λ (x : Result RatchetError Bytes × RatchetState). x.1) same)) fails,
          ),
        )

-- Between the messages of a chain, in whatever order they come, anyone puts headers and ciphertexts
-- that no key opens. Each of these is an error, wherever its header makes the session go before it
-- fails, and the messages of the chain are delivered as if none of them had come.
pub arrivals-eq-spec :
    (p : Primitives) (fresh : Bytes × Bytes) (dh chain : Bytes) (seen : ℕ → Bool) (s : RatchetState)
    (es : List Arrival)
    → Laws p
    → Follows p dh chain seen s
    → AllNonces (genuine_of es)
    → AllForged p es
    → ((arrivals p fresh dh chain es s).0 ≡ spec_deliveries (genuine_of es) s.recv_count seen)
      × All (Fails p fresh) (arrivals p fresh dh chain es s).1
arrivals-eq-spec p fresh dh chain seen s es laws f n h =
    let (same, fails) = arrivals-deliveries p fresh dh chain es s h in
    (same ∙ deliveries-eq-spec p fresh dh chain seen s (genuine_of es) laws f n, fails)
