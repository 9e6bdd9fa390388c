-- ===== src/Wire/Protocol/Tests.antt =====
-- A concrete run of the wire protocol: the first message of a chain, and its replay.
use noknowledge.Base.{ℕ, Bytes, Bool, false, ◌≡◌, refl, Option, none, some, [], ◌∷◌, arith, first}
use noknowledge.Base.Outcome.{ok, err}
use noknowledge.Crypto.Toy.{plain, plain-Laws, repeat}
use noknowledge.Crypto.Ratchet.{RatchetState}
use noknowledge.Crypto.Ratchet.Chain.{Follows, chain_at}
use noknowledge.Crypto.Padding.{in_alphabet}
use noknowledge.Wire.Protocol.{WireMessage, WireJson, not_opened, seal, unseal}
use noknowledge.Wire.Protocol.Sealed.{unseal-seal}

abbrev read : Bytes → Option (Option (ℕ × Option Bytes))
read [] = none
read (n ∷ pad) = some (some (n, some pad))

abbrev context_of : Option ℕ → Bytes
context_of none = []
context_of (some n) = n ∷ []

-- An envelope is a number, and a blob is the object that it is read to.
abbrev json : WireJson ℕ ℕ (WireMessage ℕ)
json = record {
  dumps = λ w. w;
  loads = λ w. some (some w);
  context = context_of;
  envelope_json = λ n pad. n ∷ pad;
  envelope_loads = read;
}

abbrev chain : Bytes
chain = 3 ∷ []

abbrev session : RatchetState
session = record {
  root_key = 0 ∷ [];
  sending_chain = some chain;
  receiving_chain = some chain;
  dh_self_private = some (4 ∷ []);
  dh_self_public = some (8 ∷ []);
  dh_remote = some (8 ∷ []);
  send_count = 0;
  recv_count = 0;
  prev_send_count = 2;
  skipped = [];
}

abbrev nothing : ℕ → Bool
nothing _ = false

session-Follows : Follows plain (8 ∷ []) chain nothing session
unfolding chain_at first
session-Follows = record {
  remote = refl;
  receiving = refl;
  keys = λ i. ground arith;
  below = λ i h. ground arith;
}

unseal-seal_example :
    (blob : WireMessage ℕ) × (s' : RatchetState) × (r' : RatchetState) × (seal plain json
        (λ i. 97)
        (repeat 12 0)
        70
        (9 ∷ [])
        (some 5)
        (some 2048)
        session
      ≡ (ok blob, s'))
    × (unseal plain json (6 ∷ [], 7 ∷ []) blob session ≡ (ok (70, 9 ∷ [], some 5), r'))
    × (unseal plain json (6 ∷ [], 7 ∷ []) blob r' ≡ (err not_opened, r'))
unfolding chain_at in_alphabet
unseal-seal_example =
    unseal-seal plain plain-Laws json (λ sid dh nonce ct pn n init. refl) (λ e pad h. refl)
      (λ e pad h. omega arith) (λ i. 97) (λ i. refl) (repeat 12 0) 70 (9 ∷ []) (some 5) 2048 refl
      (omega arith) (6 ∷ [], 7 ∷ []) (8 ∷ []) chain nothing session session refl refl
      session-Follows refl (omega arith)
