-- ===== src/Crypto/Ratchet/Handshake.antt =====
-- The first chain of a session: what the initiator sends, and the responder that has seen nothing.
use noknowledge.Base.{
  ℕ, Bytes, Bool, false, ◌≡◌, refl, sym, ap, ◌∙◌, inl, inr, some, List, [], ◌∷◌, eq_Bytes, ltb,
  arith, length, first, Bool-cases,
}
use noknowledge.Base.Int.{ℤ, pos}
use noknowledge.Base.Outcome.{ok, err}
use noknowledge.Crypto.Primitives.{Primitives, Laws}
use noknowledge.Crypto.Kdf.{kdf_rk}
use noknowledge.Crypto.Ratchet.{
  RatchetState, RatchetError, max_skip, initiator, responder, derive, dh_ratchet, enter_chain,
  message_key, decrypt, decrypt_steps,
}
use noknowledge.Crypto.Ratchet.Sending.{sends, spec_sends, sends-eq-spec}
use noknowledge.Crypto.Ratchet.Chain.{Follows, chain_at, key_at}
use noknowledge.Crypto.Ratchet.Delivery.{with_number, far_key, new_key, advanced, advanced-Follows}
use noknowledge.Crypto.Ratchet.Delivery.Session.{
  Message, AllNonces, deliver, deliveries, spec_deliveries, opened, spec_refuses, spec_accepts,
  step, advanced_count, deliveries-eq-spec,
}

abbrev pub none_seen : ℕ → Bool
none_seen _ = false

-- The first chain that both sides derive from the session key and the shared secret.
abbrev pub first_chain : Primitives → Bytes → Bytes → Bytes
first_chain p session_key secret = (kdf_rk p session_key secret).1

module _ (p : Primitives) (laws : Laws p) (private public : Bytes)
    (session_key own own_public remote secret secret' : Bytes)
    (agreed : p.exchange own remote ≡ some secret)
    (next : p.exchange private remote ≡ some secret') where
  abbrev chain : Bytes
  chain = first_chain p session_key secret

  abbrev start : RatchetState
  start = responder session_key own own_public

  -- The state after the step to the first chain.
  unfoldable entered : RatchetState
  entered = record (responder session_key own own_public) {
    root_key = (kdf_rk p (kdf_rk p session_key secret).0 secret').0;
    sending_chain = some (kdf_rk p (kdf_rk p session_key secret).0 secret').1;
    receiving_chain = some (first_chain p session_key secret);
    dh_self_private = some private;
    dh_self_public = some public;
    dh_remote = some remote;
  }

  enters : (pn : ℤ) → enter_chain p (private, public) remote pn start ≡ (ok tt, entered)
  unfolding enter_chain dh_ratchet derive responder entered
  enters pn = ground arith

  entered-Follows : Follows p remote chain none_seen entered
  unfolding entered responder chain_at first
  entered-Follows = record {
    remote = refl;
    receiving = refl;
    keys = λ i. ground arith;
    below = λ i h. ground arith;
  }

  module _ (m : Message) where
    delivered_first :
        (s' : RatchetState)
        → length m.nonce ≡ 12
        → message_key p remote (pos m.number) entered ≡ (ok (key_at p chain m.number), s')
        → deliver p (private, public) remote chain m start ≡ (ok m.plaintext, s')
    unfolding decrypt decrypt_steps
    delivered_first s' h e =
        let open_it =
          opened p laws (private, public) remote chain none_seen entered entered-Follows m h in
        let step_in = enters m.pn in ground (arith, laws.decodes remote)

    refused_first :
        (e : RatchetError)
        → message_key p remote (pos m.number) entered ≡ (err e, entered)
        → deliver p (private, public) remote chain m start ≡ (err e, start)
    unfolding decrypt decrypt_steps
    refused_first e h = let step_in = enters m.pn in ground (arith, laws.decodes remote)

  counts : entered.recv_count ≡ 0
  unfolding entered responder
  counts = refl

  -- A responder that has seen nothing of a session delivers what the initiator sends on its first
  -- chain as a session in the middle of a chain does: each message once, in whatever order they
  -- come, and none that is more than 1000 above the next
  -- number.
  pub first_deliveries-eq-spec :
      (ms : List Message)
      → AllNonces ms
      → deliveries p (private, public) remote chain ms start ≡ spec_deliveries ms 0 none_seen
  unfolding deliveries spec_deliveries entered responder
  first_deliveries-eq-spec [] h = refl
  first_deliveries-eq-spec (m ∷ ms) (h, hs) =
      let n = m.number in
      let fresh : Bytes × Bytes = (private, public) in
      elim (Bool-cases (ltb max_skip n)) [
        | inl far ↦
            step p fresh remote chain m ms start start _ _
              (refused_first m _ (
                far_key p remote chain none_seen entered entered-Follows n refl
                  (ground (arith, counts))))
              (first_deliveries-eq-spec ms hs)
            ∙ sym (spec_refuses 0 none_seen m ms _ (ground arith))
        | inr near ↦
            let s' = advanced p remote chain none_seen entered entered-Follows n in
            let f =
              advanced-Follows p remote chain none_seen entered entered-Follows n
                (omega (arith, counts)) in
            step p fresh remote chain m ms start s' _ _
              (delivered_first m s' h (
                new_key p remote chain none_seen entered entered-Follows n refl
                  (omega (arith, counts)) (ground (arith, counts))))
              (deliveries-eq-spec p fresh remote chain (with_number n none_seen) s' ms laws f hs
                ∙ ap (λ k. spec_deliveries ms k (with_number n none_seen))
                    (advanced_count p remote chain none_seen entered entered-Follows n
                      (ground (arith, counts))))
            ∙ sym (spec_accepts 0 none_seen m ms (ground arith))
      ]

module _ (p : Primitives) (private public session_key remote secret : Bytes) (s : RatchetState)
    (agreed : p.exchange private remote ≡ some secret)
    (started : initiator p (private, public) session_key remote ≡ ok s) where
  starts :
      (s.dh_self_public ≡ some public)
      × (s.sending_chain ≡ some (first_chain p session_key secret))
      × (s.send_count ≡ 0)
      × (s.prev_send_count ≡ 0)
  unfolding initiator
  starts = ground arith

  -- What an initiator encrypts first is the first chain, numbered from 0: the chain that its
  -- session key and the shared secret give, which is the one that the responder derives.
  pub first_sends-eq-spec :
      (ms : List Message)
      → Laws p
      → sends p ms s ≡ spec_sends p public (first_chain p session_key secret) 0 0 ms
  unfolding chain_at
  first_sends-eq-spec ms laws =
      let (k, c, zero_sent, zero_before) = starts in
      sends-eq-spec p public (first_chain p session_key secret) ms s laws k
        (c ∙ ap (λ n. some (chain_at p (first_chain p session_key secret) n)) (sym zero_sent))
      ∙ rw (zero_sent, zero_before) refl
