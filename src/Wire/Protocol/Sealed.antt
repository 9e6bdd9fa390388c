-- ===== src/Wire/Protocol/Sealed.antt =====
-- noknowledge/wire/protocol.py: an envelope from `seal` to `unseal`, through the padding, the
-- ratchets of both sides and the object on the relay.
use noknowledge.Base.{
  ℕ, suc, ◌+◌, ◌≤◌, Bytes, Bool, true, false, ◌≡◌, refl, ap, arith, Option, some, [], eq_ℕ, eq_self,
  inl, inr, Bool-cases, ltb, length,
}
use noknowledge.Base.Int.{ℤ, pos}
use noknowledge.Base.Outcome.{ok, err}
use noknowledge.Crypto.Primitives.{Primitives, Laws}
use noknowledge.Crypto.Padding.{
  bucket_size, in_alphabet, Plain, pad_envelope, unpad_envelope, pad_envelope-length,
}
use noknowledge.Crypto.Ratchet.{RatchetState, max_skip, message_key, duplicate_message}
use noknowledge.Crypto.Ratchet.Chain.{Follows, chain_at, key_at}
use noknowledge.Crypto.Ratchet.Delivery.{
  with_number, seen_key, old_key, popped, popped-Follows, new_key, advanced, advanced-Follows,
}
use noknowledge.Crypto.Ratchet.Delivery.Session.{
  Message, header, ciphertext, deliver, delivered, not_delivered,
}
use noknowledge.Crypto.Ratchet.Sending.{sends_one}
use noknowledge.Wire.Protocol.{
  WireJson, Parsed, not_opened, wire_object, build_wire, has_version, limit_of, wire_fields,
  parse_wire, read_opened, seal, open_wire, unseal,
}

-- The key of a message that was not seen and is not too far ahead.
unseen_key :
    (p : Primitives) (dh chain : Bytes) (seen : ℕ → Bool) (r : RatchetState)
    → Follows p dh chain seen r
    → (n : ℕ) → seen n ≡ false
    → n ≤ r.recv_count + max_skip
    → (r' : RatchetState) × (message_key p dh (pos n) r ≡ (ok (key_at p chain n), r'))
      × Follows p dh chain (with_number n seen) r'
unseen_key p dh chain seen r f n h near = elim (Bool-cases (ltb n r.recv_count)) [
  | inl low ↦ (
    popped p dh chain seen r f n,
    old_key p dh chain seen r f n h (ground (arith, low)),
    popped-Follows p dh chain seen r f n (ground (arith, low)),
  )
  | inr high ↦ (
    advanced p dh chain seen r f n,
    new_key p dh chain seen r f n h (ground (arith, high)) (ground (arith, near)),
    advanced-Follows p dh chain seen r f n (ground (arith, high)),
  )
]

module _ {I E B : Type 0} (p : Primitives) (laws : Laws p) (j : WireJson I E B) where
  abbrev parsed : Bytes → Bytes → Bytes → Message → Option I → Parsed I
  parsed sid dh chain m init = record {
    sid = some (p.b64e sid);
    hdr = some (header p dh m);
    nonce = some (p.b64e m.nonce);
    ct = some (p.b64e (ciphertext p dh chain m));
    init = init;
  }

  unpads :
      (envelope : E) (text pad : Bytes)
      → j.envelope_loads text ≡ some (some (envelope, some pad))
      → unpad_envelope j.envelope_loads text ≡ ok envelope
  unfolding unpad_envelope
  unpads envelope text pad h = ground (arith, h)

  opens_with :
      (fresh : Bytes × Bytes) (sid dh chain : Bytes) (m : Message) (init : Option I)
      (r r' : RatchetState) (envelope : E)
      → m.context ≡ j.context init
      → unpad_envelope j.envelope_loads m.plaintext ≡ ok envelope
      → deliver p fresh dh chain m r ≡ (ok m.plaintext, r')
      → open_wire p j fresh (parsed sid dh chain m init) r ≡ (ok (envelope, sid, init), r')
  unfolding open_wire read_opened
  opens_with fresh sid dh chain m init r r' envelope c u d = ground (
    arith,
    c,
    u,
    d,
    laws.decodes sid,
    laws.decodes m.nonce,
    laws.decodes (ciphertext p dh chain m),
  )

  refuses :
      (fresh : Bytes × Bytes) (sid dh chain : Bytes) (m : Message) (init : Option I)
      (r : RatchetState)
      → m.context ≡ j.context init
      → deliver p fresh dh chain m r ≡ (err duplicate_message, r)
      → open_wire p j fresh (parsed sid dh chain m init) r ≡ (err not_opened, r)
  unfolding open_wire
  refuses fresh sid dh chain m init r c d =
      ground (arith, c, d, laws.decodes m.nonce, laws.decodes (ciphertext p dh chain m))

  abbrev blob_of : Bytes → Bytes → Bytes → Message → Option I → B
  blob_of sid dh chain m init =
      build_wire p j sid (header p dh m) m.nonce (ciphertext p dh chain m) init

  -- JSON reads back the objects of `build_wire`.
  abbrev pub ReadsBack : Type 0
  ReadsBack =
      (sid dh nonce ct : Bytes) (pn n : ℤ) (init : Option I)
      → let w = wire_object p j sid (record { dh = p.b64e dh; pn = pn; n = n }) nonce ct init in
        j.loads (j.dumps w) ≡ some (some w)

  parses :
      ReadsBack
      → (sid dh chain : Bytes) (m : Message) (init : Option I)
      → parse_wire p j (blob_of sid dh chain m init) ≡ ok (parsed sid dh chain m init)
  unfolding parse_wire build_wire wire_fields has_version
  parses law sid dh chain m init =
      rw (law sid dh m.nonce (ciphertext p dh chain m) m.pn (pos m.number) init, parse_wire) refl

  -- The message that a session sends next.
  abbrev sent : RatchetState → Bytes → Bytes → Option I → Message
  sent s fresh_nonce text init = record {
    number = s.send_count;
    pn = pos s.prev_send_count;
    nonce = fresh_nonce;
    plaintext = text;
    context = j.context init;
  }

  seals :
      (choice : ℕ → ℕ) (fresh_nonce : Bytes) (envelope : E) (sid : Bytes) (init : Option I)
      (limit : ℕ) (dh chain text : Bytes) (s : RatchetState)
      → pad_envelope (j.envelope_json envelope) choice bucket_size (some limit) ≡ ok text
      → s.dh_self_public ≡ some dh
      → s.sending_chain ≡ some (chain_at p chain s.send_count)
      → (s' : RatchetState) × (seal p j choice fresh_nonce envelope sid init (some limit) s
          ≡ (ok (blob_of sid dh chain (sent s fresh_nonce text init) init), s'))
  unfolding seal limit_of
  seals choice fresh_nonce envelope sid init limit dh chain text s e k c = (
    record s {
      sending_chain = some (chain_at p chain (suc s.send_count));
      send_count = suc s.send_count;
    },
    let e' = sends_one p laws dh chain (sent s fresh_nonce text init) s k c in
        rw (seal, e, e')
          (ap (λ x. (ok (blob_of sid dh chain (sent s fresh_nonce text init) init), x.1)) e'),
  )

  -- An envelope that fits the limit, whose JSON takes letters and digits of the pad as they are and
  -- is read back, is sealed by a session on its sending chain. A session that
  -- follows that chain, has not seen the number and expects a number at most 1000 below it opens the blob to
  -- the envelope, the session id and the handshake header that were sealed. When the same blob
  -- comes again, it is refused and changes nothing.
  pub unseal-seal :
      ReadsBack
      → ((e : E) (pad : Bytes)
          → Plain pad
          → j.envelope_loads (j.envelope_json e pad) ≡ some (some (e, some pad)))
      → ((e : E) (pad : Bytes)
          → Plain pad
          → length (j.envelope_json e pad) ≡ length (j.envelope_json e []) + length pad)
      → (choice : ℕ → ℕ) → ((i : ℕ) → in_alphabet (choice i) ≡ true)
      → (fresh_nonce : Bytes) (envelope : E) (sid : Bytes) (init : Option I) (limit : ℕ)
      → length fresh_nonce ≡ 12
      → length (j.envelope_json envelope []) ≤ limit
      → (fresh : Bytes × Bytes) (dh chain : Bytes) (seen : ℕ → Bool) (s r : RatchetState)
      → s.dh_self_public ≡ some dh
      → s.sending_chain ≡ some (chain_at p chain s.send_count)
      → Follows p dh chain seen r
      → seen s.send_count ≡ false
      → s.send_count ≤ r.recv_count + max_skip
      → (blob : B) × (s' : RatchetState) × (r' : RatchetState) × (seal p j choice fresh_nonce
            envelope sid init
            (some limit)
            s
          ≡ (ok blob, s'))
        × (unseal p j fresh blob r ≡ (ok (envelope, sid, init), r'))
        × (unseal p j fresh blob r' ≡ (err not_opened, r'))
  unfolding unseal
  unseal-seal loads reads grows choice choices fresh_nonce envelope sid init limit size fits fresh
        dh chain seen s r k c f new near =
      let n = s.send_count in
      let (pad, plain, e, _) =
        pad_envelope-length (j.envelope_json envelope) choice limit (grows envelope) choices fits in
      let text = j.envelope_json envelope pad in
      let m = sent s fresh_nonce text init in
      let (s', sealed) = seals choice fresh_nonce envelope sid init limit dh chain text s e k c in
      let (r', key, g) = unseen_key p dh chain seen r f n new near in
      let got = delivered p laws fresh dh chain seen r f m r' size key in
      let again =
        not_delivered p laws fresh dh chain (with_number n seen) r' g m duplicate_message
          (seen_key p dh chain (with_number n seen) r' g n (ground (arith, eq_self n))) in
      let parse = parses loads sid dh chain m init in
      (
        blob_of sid dh chain m init,
        s',
        r',
        sealed,
        rw (unseal, parse)
            (opens_with fresh sid dh chain m init r r' envelope refl
              (unpads envelope text pad (reads envelope pad plain)) got),
        rw (unseal, parse) (refuses fresh sid dh chain m init r' refl again),
      )
