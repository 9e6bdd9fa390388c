-- ===== src/Crypto/Ratchet/Sending.antt =====
-- The sending side of a chain.
use noknowledge.Base.{ℕ, suc, Bytes, ◌≡◌, refl, some, List, [], ◌∷◌, eq_Bytes, arith}
use noknowledge.Base.Int.{pos}
use noknowledge.Base.Outcome.{Result, ok}
use noknowledge.Crypto.Primitives.{Primitives, Header, Laws}
use noknowledge.Crypto.Kdf.{kdf_ck}
use noknowledge.Crypto.Aead.{encrypt as aead_encrypt}
use noknowledge.Crypto.Ratchet.{RatchetState, RatchetError, encrypt}
use noknowledge.Crypto.Ratchet.Chain.{chain_at}
use noknowledge.Crypto.Ratchet.Delivery.Session.{Message, header, ciphertext}

module _ (p : Primitives) where
  -- Encryptions in a row; the number and the count `pn` of each message are not read.
  unfoldable pub sends :
      List Message → RatchetState → List (Result RatchetError (Header × Bytes × Bytes))
  unfolding encrypt
  sends [] s = []
  sends (m ∷ ms) s = let (r, s') = encrypt p m.nonce m.plaintext m.context s in r ∷ sends ms s'

  -- The messages of the chain, from number `n` on.
  unfoldable pub spec_sends :
      Bytes → Bytes → ℕ → ℕ → List Message → List (Result RatchetError (Header × Bytes × Bytes))
  spec_sends dh chain pn n [] = []
  spec_sends dh chain pn n (m ∷ ms) =
      let m' = record m { number = n; pn = pos pn } in
      ok (header p dh m', m.nonce, ciphertext p dh chain m') ∷ spec_sends dh chain pn (suc n) ms

  pub sends_one :
      (laws : Laws p) (dh chain : Bytes) (m : Message) (s : RatchetState)
      → s.dh_self_public ≡ some dh
      → s.sending_chain ≡ some (chain_at p chain s.send_count)
      → encrypt p m.nonce m.plaintext m.context s ≡ (
        ok (
          header p dh (record m { number = s.send_count; pn = pos s.prev_send_count }),
          m.nonce,
          ciphertext p dh chain (record m { number = s.send_count; pn = pos s.prev_send_count }),
        ),
        record s {
          sending_chain = some (chain_at p chain (suc s.send_count));
          send_count = suc s.send_count;
        },
      )
  unfolding encrypt kdf_ck aead_encrypt chain_at
  sends_one laws dh chain m s k c =
      ground (arith, laws.hmac_size (chain_at p chain s.send_count) (1 ∷ []))

  -- Encryptions in a row send the messages of the sending chain under consecutive numbers, each
  -- with the key that the receiver finds at its number.
  pub sends-eq-spec :
      (dh chain : Bytes) (ms : List Message) (s : RatchetState)
      → Laws p
      → s.dh_self_public ≡ some dh
      → s.sending_chain ≡ some (chain_at p chain s.send_count)
      → sends ms s ≡ spec_sends dh chain s.prev_send_count s.send_count ms
  unfolding sends spec_sends
  sends-eq-spec dh chain [] s laws k c = refl
  sends-eq-spec dh chain (m ∷ ms) s laws k c =
      let s' = record s {
        sending_chain = some (chain_at p chain (suc s.send_count));
        send_count = suc s.send_count;
      } in
      let one = sends_one laws dh chain m s k c in
      let rest = sends-eq-spec dh chain ms s' laws k refl in ground arith
