-- ===== src/Crypto/Ratchet.antt =====
-- noknowledge/crypto/ratchet.py: the Double Ratchet. The methods are actions on `RatchetState`.
pub mod Saved
pub mod Chain
pub mod Delivery
pub mod Sending
pub mod Handshake
pub mod Forged
use noknowledge.Base.{
  ℕ, zero, suc, ◌+◌, ◌-◌, Bytes, Bool, true, not, ◌&&◌, ◌||◌, Option, none, some, List, [], ◌∷◌,
  ◌++◌, ◌==◌, eq_ℕ, eq_Bytes, ltb, if◌then◌else◌, delete, first,
}
use noknowledge.Base.Int.{ℤ, pos, negsuc, ltb_ℤ, eq_ℤ}
use noknowledge.Base.Outcome.{Result, ok, err, Action, pure, raise, gets, modify, ◌>>=◌, ◌>>◌}
use noknowledge.Crypto.Primitives.{Primitives, Header}
use noknowledge.Crypto.Kdf.{kdf_rk, kdf_ck}
use noknowledge.Crypto.Aead.{encrypt as aead_encrypt, decrypt as aead_decrypt}

abbrev pub max_skip : ℕ
max_skip = 1000

-- b"nk/v1/msg"
abbrev pub ad_domain : Bytes
ad_domain = 110 ∷ 107 ∷ 47 ∷ 118 ∷ 49 ∷ 47 ∷ 109 ∷ 115 ∷ 103 ∷ []

-- An entry of `skipped`; the text `f"{b64e(dh)}:{number}"` that is its key in the source stands
-- for the pair of its parts.
pub record SkippedKey : Type 0 where
  pub dh : Bytes
  pub number : ℤ
  pub key : Bytes

abbrev pub is_key : Bytes → ℤ → SkippedKey → Bool
is_key dh number e = e.dh == dh && e.number == number

-- `skipped[...] = key`
unfoldable pub put_key : Bytes → ℤ → Bytes → List SkippedKey → List SkippedKey
put_key dh number key [] = record { dh = dh; number = number; key = key } ∷ []
put_key dh number key (e ∷ es) =
    let rest = put_key dh number key es in
    if is_key dh number e then record e { key = key } ∷ es else e ∷ rest

pub record RatchetState : Type 0 where
  pub root_key : Bytes
  pub sending_chain : Option Bytes
  pub receiving_chain : Option Bytes
  pub dh_self_private : Option Bytes
  pub dh_self_public : Option Bytes
  pub dh_remote : Option Bytes
  pub send_count : ℕ
  pub recv_count : ℕ
  pub prev_send_count : ℕ
  pub skipped : List SkippedKey

-- `invalid_key` is X25519's error, `aead_error` that of noknowledge/crypto/aead.py.
pub data RatchetError : Type 0 where
  no_sending_chain malformed_header no_local_key duplicate_message : RatchetError
  skipped_too_far invalid_key aead_error : RatchetError

abbrev pub Session : Type 0 → Type 0
Session = Action RatchetState RatchetError

abbrev pub or_empty : Option Bytes → Bytes
or_empty none = []
or_empty (some b) = b

-- A fresh key pair, private and public, is an argument.
unfoldable pub initiator :
    Primitives → Bytes × Bytes → Bytes → Bytes → Result RatchetError RatchetState
unfolding kdf_rk
initiator p (private, public) session_key remote = elim (p.exchange private remote) [
  | none ↦ err invalid_key
  | some secret ↦
      let (root_key, chain) = kdf_rk p session_key secret in
      ok (record {
        root_key = root_key;
        sending_chain = some chain;
        receiving_chain = none;
        dh_self_private = some private;
        dh_self_public = some public;
        dh_remote = some remote;
        send_count = 0;
        recv_count = 0;
        prev_send_count = 0;
        skipped = [];
      })
]

unfoldable pub responder : Bytes → Bytes → Bytes → RatchetState
responder session_key signed_prekey_private signed_prekey_public = record {
  root_key = session_key;
  sending_chain = none;
  receiving_chain = none;
  dh_self_private = some signed_prekey_private;
  dh_self_public = some signed_prekey_public;
  dh_remote = none;
  send_count = 0;
  recv_count = 0;
  prev_send_count = 0;
  skipped = [];
}

abbrev pub associated_data : Primitives → Header → Bytes → Bytes
associated_data p header ad_context = ad_domain ++ p.header_json ad_context header

abbrev pub header_of : Primitives → RatchetState → Header
header_of p s = record {
  dh = p.b64e (or_empty s.dh_self_public);
  pn = pos s.prev_send_count;
  n = pos s.send_count;
}

-- The chain advances before the cipher is called, the count after it.
unfoldable pub encrypt : Primitives → Bytes → Bytes → Bytes → Session (Header × Bytes × Bytes)
unfolding kdf_ck aead_encrypt
encrypt p fresh_nonce plaintext ad_context s = elim s.sending_chain [
  | none ↦ (err no_sending_chain, s)
  | some chain ↦
      let (message_key, next) = kdf_ck p chain in
      let header = header_of p s in
      elim (aead_encrypt p fresh_nonce message_key plaintext
        (associated_data p header ad_context)) [
          | none ↦ (err aead_error, record s { sending_chain = some next })
          | some (nonce, ciphertext) ↦ (
            ok (header, nonce, ciphertext),
            record s { sending_chain = some next; send_count = suc s.send_count },
          )
        ]
]

-- `while recv_count < until`, so many rounds; the chain that each leaves is passed on.
unfoldable pub skip_loop : Primitives → ℕ → Bytes → RatchetState → RatchetState
unfolding kdf_ck put_key
skip_loop p zero chain s = s
skip_loop p (suc rounds) chain s =
    let (message_key, next) = kdf_ck p chain in
    skip_loop p rounds next (record s {
      receiving_chain = some next;
      skipped = put_key (or_empty s.dh_remote) (pos s.recv_count) message_key s.skipped;
      recv_count = suc s.recv_count;
    })

-- A negative bound skips as little as 0 does.
abbrev pub bound : ℤ → ℕ
bound (pos n) = n
bound (negsuc _) = 0

unfoldable pub skip_keys : Primitives → ℤ → Session Unit
unfolding skip_loop
skip_keys p until s = elim s.receiving_chain [
  | none ↦ (ok tt, s)
  | some chain ↦
      if ltb (s.recv_count + max_skip) (bound until)
      then (err skipped_too_far, s)
      else (ok tt, skip_loop p (bound until - s.recv_count) chain s)
]

-- `_dh`, and then `kdf_rk` with the root key.
unfoldable pub derive : Primitives → Bytes → Bytes → Bytes → Option (Bytes × Bytes)
unfolding kdf_rk
derive p root_key private remote = elim (p.exchange private remote) [
  | none ↦ none
  | some secret ↦ some (kdf_rk p root_key secret)
]

unfoldable pub dh_ratchet : Primitives → Bytes × Bytes → Bytes → Session Unit
unfolding derive
dh_ratchet p (private, public) remote s =
    let s1 = record s {
      prev_send_count = s.send_count;
      send_count = 0;
      recv_count = 0;
      dh_remote = some remote;
    } in
    elim s.dh_self_private [
      | none ↦ (err no_local_key, s1)
      | some own ↦ elim (derive p s.root_key own remote) [
        | none ↦ (err invalid_key, s1)
        | some (root_key, receiving) ↦
            let s2 = record s1 {
              root_key = root_key;
              receiving_chain = some receiving;
              dh_self_private = some private;
              dh_self_public = some public;
            } in
            elim (derive p root_key private remote) [
              | none ↦ (err invalid_key, s2)
              | some (root_key', sending) ↦
                  (ok tt, record s2 { root_key = root_key'; sending_chain = some sending })
            ]
      ]
    ]

-- `self.state.dh_remote == remote_dh`
abbrev pub is_remote : Bytes → RatchetState → Bool
is_remote remote s = elim s.dh_remote [ none ↦ not true | some dh ↦ dh == remote ]

-- The step to the chain of the message, unless it is the chain in use.
unfoldable pub enter_chain : Primitives → Bytes × Bytes → Bytes → ℤ → Session Unit
unfolding skip_keys dh_ratchet
enter_chain p fresh remote prev_count s = elim s.receiving_chain [
  | none ↦ dh_ratchet p fresh remote s
  | some chain ↦
      if is_remote remote s
      then (ok tt, s)
      else (skip_keys p prev_count >> dh_ratchet p fresh remote) s
]

-- The key after the skipped ones. Without a chain the source would fail in `kdf_ck`; `enter_chain` has
-- made one.
unfoldable pub next_key : Primitives → Session Bytes
unfolding kdf_ck
next_key p s = elim s.receiving_chain [
  | none ↦ (err aead_error, s)
  | some chain ↦
      let (message_key, next) = kdf_ck p chain in
      (ok message_key, record s { receiving_chain = some next; recv_count = suc s.recv_count })
]

-- The key of a message: popped from `skipped`, or next on the chain after those that it skips.
unfoldable pub message_key : Primitives → Bytes → ℤ → Session Bytes
unfolding skip_keys next_key
message_key p remote number s = elim (first (is_key remote number) s.skipped) [
  | some e ↦ (ok e.key, record s { skipped = delete (is_key remote number) s.skipped })
  | none ↦
      if ltb_ℤ number s.recv_count
      then (err duplicate_message, s)
      else if ltb (s.recv_count + max_skip) (bound number)
      then (err skipped_too_far, s)
      else (skip_keys p number >> next_key p) s
]

-- `none` is a header on which the reading of the three fields raises.
unfoldable pub decrypt_steps :
    Primitives → Bytes × Bytes → Option Header → Bytes → Bytes → Bytes → Session Bytes
unfolding enter_chain message_key aead_decrypt
decrypt_steps p fresh none nonce ciphertext ad_context = raise malformed_header
decrypt_steps p fresh (some header) nonce ciphertext ad_context = elim (p.b64d header.dh) [
  | none ↦ raise malformed_header
  | some remote ↦ do
    enter_chain p fresh remote header.pn
    key ← message_key p remote header.n
    elim (aead_decrypt p key nonce ciphertext (associated_data p header ad_context)) [
      | none ↦ raise aead_error
      | some plaintext ↦ pure plaintext
    ]
]

-- Any failure restores the state.
unfoldable pub decrypt :
    Primitives → Bytes × Bytes → Option Header → Bytes → Bytes → Bytes → Session Bytes
unfolding decrypt_steps
decrypt p fresh header nonce ciphertext ad_context s =
    let (r, s') = decrypt_steps p fresh header nonce ciphertext ad_context s in
    elim r [ ok plaintext ↦ (ok plaintext, s') | err e ↦ (err e, s) ]
