-- ===== src/Crypto/Tests.antt =====
-- Concrete runs of the ratchet and of the padding, with primitives that compute. They are not
-- secret, but they have the laws of `Laws`.
use noknowledge.Base.{
  All, length-append, ◌||◌, ◌==◌, if◌then◌else◌, ℕ, zero, suc, ◌+◌, ◌*◌, ◌/◌, min, Bytes, Bool,
  false, ◌≡◌, refl, Option, none, some, List, [], ◌∷◌, ◌++◌, arith, eq_ℕ, length, first, bytes_eq,
}
use noknowledge.Base.Int.{pos, eq_ℤ}
use noknowledge.Base.Outcome.{ok}
use noknowledge.Crypto.Primitives.{Primitives, Laws}
use noknowledge.Crypto.Padding.{bucket_size, in_alphabet, Plain, pad_envelope, pad_envelope-length}
use noknowledge.Crypto.Ratchet.{RatchetState, initiator, responder}
use noknowledge.Crypto.Ratchet.Saved.{to_dict, from_dict, from_dict-to_dict}
use noknowledge.Crypto.Ratchet.Chain.{Follows, chain_at}
use noknowledge.Crypto.Ratchet.Delivery.Session.{
  Message, deliveries, spec_deliveries, deliveries-eq-spec,
}
use noknowledge.Crypto.Kdf.{kdf_rk}
use noknowledge.Crypto.Ratchet.Handshake.{
  first_chain, none_seen, first_deliveries-eq-spec, first_sends-eq-spec,
}
use noknowledge.Crypto.Aead.{decrypt as aead_decrypt}
use noknowledge.Crypto.Ratchet.Forged.{
  Arrival, genuine, forged, genuine_of, arrivals, Fails, arrivals-eq-spec,
}
use noknowledge.Crypto.Ratchet.Sending.{sends, spec_sends, sends-eq-spec}

abbrev repeat : ℕ → ℕ → Bytes
repeat zero b = []
repeat (suc n) b = b ∷ repeat n b

length-repeat : (n b : ℕ) → length (repeat n b) ≡ n
length-repeat zero b = refl
length-repeat (suc n) b = rw (length-repeat n b)

abbrev head : Bytes → ℕ
head [] = 0
head (b ∷ bs) = b

abbrev toy_hmac : Bytes → Bytes → Bytes
toy_hmac key message = repeat 32 (head key + head message)

abbrev untag : Bytes → Option Bytes
untag [] = none
untag (_ ∷ b) = some b

abbrev toy : Primitives
toy = record {
  hkdf = λ ikm salt info n. repeat n 5;
  hmac = toy_hmac;
  seal = λ key nonce plaintext ad. plaintext;
  unseal = λ key nonce ciphertext ad. some ciphertext;
  exchange = λ private public. some (private ++ public);
  b64e = λ b. 1 ∷ b;
  b64d = untag;
  header_json = λ context header. context;
}

toy-Laws : Laws toy
unfolding bytes_eq
toy-Laws = record {
  hmac_size = λ key message. length-repeat 32 (head key + head message);
  opens = λ key nonce plaintext ad. refl;
  decodes = λ b. refl;
  not_empty = λ b bs. refl;
}

abbrev remote : Bytes
remote = 8 ∷ []

abbrev chain : Bytes
chain = 3 ∷ []

abbrev session : RatchetState
session = record {
  root_key = 0 ∷ [];
  sending_chain = some chain;
  receiving_chain = some chain;
  dh_self_private = some (4 ∷ []);
  dh_self_public = some remote;
  dh_remote = some remote;
  send_count = 0;
  recv_count = 0;
  prev_send_count = 2;
  skipped = [];
}

abbrev nothing : ℕ → Bool
nothing _ = false

session-Follows : Follows toy remote chain nothing session
unfolding chain_at first
session-Follows = record {
  remote = refl;
  receiving = refl;
  keys = λ i. ground arith;
  below = λ i h. ground arith;
}

abbrev message : ℕ → Bytes → Message
message number plaintext = record {
  number = number;
  pn = pos 0;
  nonce = repeat 12 0;
  plaintext = plaintext;
  context = [];
}

-- Out of order, with a replay and with a message from too far ahead.
abbrev messages : List Message
messages =
    message 2 (20 ∷ []) ∷ message 0 (10 ∷ []) ∷ message 2 (20 ∷ []) ∷ message 5000 (9 ∷ []) ∷ []

abbrev fresh : Bytes × Bytes
fresh = (6 ∷ [], 7 ∷ [])

deliveries-eq-spec_example :
    deliveries toy fresh remote chain messages session ≡ spec_deliveries messages 0 nothing
deliveries-eq-spec_example =
    deliveries-eq-spec toy fresh remote chain nothing session messages toy-Laws session-Follows
      (refl, (refl, (refl, (refl, tt))))

sends-eq-spec_example : sends toy messages session ≡ spec_sends toy remote chain 2 0 messages
unfolding chain_at
sends-eq-spec_example = sends-eq-spec toy remote chain messages session toy-Laws refl refl

-- A cipher that marks what it sealed, and opens nothing that is empty.
abbrev tagged : Primitives
tagged = record toy {
  seal = λ key nonce plaintext ad. 0 ∷ plaintext;
  unseal = λ key nonce ciphertext ad. untag ciphertext;
}

tagged-Laws : Laws tagged
unfolding bytes_eq
tagged-Laws = record {
  hmac_size = λ key message. length-repeat 32 (head key + head message);
  opens = λ key nonce plaintext ad. refl;
  decodes = λ b. refl;
  not_empty = λ b bs. refl;
}

tagged-Follows : Follows tagged remote chain nothing session
unfolding chain_at first
tagged-Follows = record {
  remote = refl;
  receiving = refl;
  keys = λ i. ground arith;
  below = λ i h. ground arith;
}

-- A forged message names the number of the message that comes after it.
abbrev mixed : List Arrival
mixed =
    genuine (message 1 (20 ∷ []))
    ∷ forged (some (record { dh = 1 ∷ remote; pn = pos 0; n = pos 2 })) (repeat 12 0) [] []
    ∷ genuine (message 2 (10 ∷ []))
    ∷ []

nothing_opens : (key ad : Bytes) → aead_decrypt tagged key (repeat 12 0) [] ad ≡ none
unfolding aead_decrypt
nothing_opens key ad = ground arith

arrivals-eq-spec_example :
    ((arrivals tagged fresh remote chain mixed session).0
      ≡ spec_deliveries (genuine_of mixed) 0 nothing)
    × All (Fails tagged fresh) (arrivals tagged fresh remote chain mixed session).1
arrivals-eq-spec_example =
    arrivals-eq-spec tagged fresh remote chain nothing session mixed tagged-Laws tagged-Follows
      (refl, (refl, tt)) (nothing_opens, tt)

abbrev secret_key : Bytes
secret_key = 1 ∷ []

first_deliveries-eq-spec_example :
    deliveries toy
      (6 ∷ [], 7 ∷ [])
      remote
      (first_chain toy secret_key (4 ∷ 8 ∷ []))
      messages
      (responder secret_key (4 ∷ []) (5 ∷ []))
    ≡ spec_deliveries messages 0 none_seen
first_deliveries-eq-spec_example =
    first_deliveries-eq-spec toy toy-Laws (6 ∷ []) (7 ∷ []) secret_key (4 ∷ []) (5 ∷ []) remote
      (4 ∷ 8 ∷ []) (6 ∷ 8 ∷ []) refl refl messages (refl, (refl, (refl, (refl, tt))))

abbrev beginning : RatchetState
beginning = record {
  root_key = repeat 32 5;
  sending_chain = some (repeat 32 5);
  receiving_chain = none;
  dh_self_private = some (8 ∷ []);
  dh_self_public = some (9 ∷ []);
  dh_remote = some (5 ∷ []);
  send_count = 0;
  recv_count = 0;
  prev_send_count = 0;
  skipped = [];
}

begins : initiator toy (8 ∷ [], 9 ∷ []) secret_key (5 ∷ []) ≡ ok beginning
unfolding initiator kdf_rk
begins = refl

first_sends-eq-spec_example :
    sends toy messages beginning
    ≡ spec_sends toy (9 ∷ []) (first_chain toy secret_key (8 ∷ 5 ∷ [])) 0 0 messages
first_sends-eq-spec_example =
    first_sends-eq-spec toy (8 ∷ []) (9 ∷ []) secret_key (5 ∷ []) (8 ∷ 5 ∷ []) beginning refl begins
      messages toy-Laws

from_dict-to_dict_example : from_dict toy (to_dict toy session) ≡ some session
from_dict-to_dict_example =
    from_dict-to_dict toy toy-Laws session (ground arith) (ground arith) (ground arith)
      (ground arith) (ground arith)

-- JSON text: quotation marks and backslashes are escaped.
abbrev escape : Bytes → Bytes
escape [] = []
escape (b ∷ bs) = if b == 34 || b == 92 then 92 ∷ b ∷ escape bs else b ∷ escape bs

length-escape : (pad : Bytes) → Plain pad → length (escape pad) ≡ length pad
unfolding in_alphabet
length-escape [] h = refl
length-escape (b ∷ bs) h = ground (arith, h.0, length-escape bs h.1)

-- {"pad":"..."}
abbrev envelope : Bytes → Bytes
envelope pad = 123 ∷ 34 ∷ 112 ∷ 97 ∷ 100 ∷ 34 ∷ 58 ∷ 34 ∷ (escape pad ++ 34 ∷ 125 ∷ [])

pad_envelope-length_example :
    (pad : Bytes) × Plain pad
    × (pad_envelope envelope (λ i. 65) bucket_size (some 2048) ≡ ok (envelope pad))
    × (length (envelope pad) ≡ min 2048 ((length (envelope []) / 256 + 1) * 256))
unfolding in_alphabet
pad_envelope-length_example =
    pad_envelope-length envelope (λ i. 65) 2048
      (λ pad h. omega (arith, length-append (escape pad) (34 ∷ 125 ∷ []), length-escape pad h))
      (λ i. refl) (omega arith)
