-- ===== src/Crypto/X3dh/Tests.antt =====
-- Concrete runs of the handshake.
use noknowledge.Base.{ℕ, Bytes, true, ◌≡◌, refl, none, some, List, [], ◌∷◌, bytes_eq, eq_ℕ}
use noknowledge.Base.Outcome.{ok}
use noknowledge.Base.Slices.{to_bytes4}
use noknowledge.Crypto.Toy.{plain, plain-Laws, signatures, repeat, length-repeat}
use noknowledge.Crypto.Prekeys.{
  Identity, PrekeyBundle, make_bundle, spk_signature, spk_message, verify_bundle, to_public_dict,
  from_public,
}
use noknowledge.Crypto.X3dh.{
  Initiation, InitDict, AuthPrimitives, initiate, exchange_all, first_opk, session_key, respond,
  build_auth, verify_auth,
}
use noknowledge.Crypto.X3dh.Agreement.{
  from_public-to_public_dict, respond-initiate, verify_auth-build_auth,
}

abbrev alice : Identity
alice = record { ed = 1 ∷ []; x = 2 ∷ [] }

abbrev keys : List (ℕ × Bytes)
keys = (3, 6 ∷ []) ∷ []

abbrev bundle : PrekeyBundle
bundle = record {
  bundle_id = repeat 16 9;
  isign = repeat 32 1;
  idh = repeat 32 2;
  spk_id = 7;
  spk = repeat 32 2;
  spk_sig = repeat 64 3;
  opks = (3, repeat 32 2) ∷ [];
}

abbrev initiation : Initiation
initiation = record {
  ek_public = repeat 32 2;
  ek_private = 5 ∷ [];
  spk_id = 7;
  opk_id = some 3;
  sk = repeat 32 5;
}

bundle-made :
    make_bundle signatures alice (repeat 16 9) 7 (repeat 32 2) ((3, repeat 32 2) ∷ []) ≡ ok bundle
unfolding make_bundle spk_signature spk_message to_bytes4
bundle-made = refl

initiated : exchange_all plain signatures (5 ∷ []) bundle ≡ some initiation
unfolding exchange_all first_opk session_key bytes_eq
initiated = refl

from_public-to_public_dict_example :
    from_public plain (to_public_dict plain bundle) (repeat 32 1) (repeat 32 2) ≡ ok bundle
from_public-to_public_dict_example = from_public-to_public_dict plain plain-Laws bundle [] refl

respond-initiate_example :
    (verify_bundle signatures bundle (repeat 32 1) ≡ none)
    × (initiate plain signatures (5 ∷ []) bundle (repeat 32 1) (repeat 32 2) ≡ ok initiation)
    × (respond plain signatures (2 ∷ []) (4 ∷ []) (some (6 ∷ [])) (repeat 32 2)
        ≡ some (repeat 32 5))
    × (initiation.opk_id ≡ some 3)
    × (initiation.spk_id ≡ 7)
unfolding bytes_eq
respond-initiate_example =
    respond-initiate plain signatures (λ k m. refl) (λ k. length-repeat 32 1)
      (λ k. length-repeat 32 2) (λ k m. length-repeat 64 3) (λ a b. refl) alice (repeat 16 9)
      (4 ∷ []) (5 ∷ []) 7 keys bundle initiation refl bundle-made initiated

abbrev parts : AuthPrimitives
parts = record { sha256 = λ b. b; init_json = λ init. init.ek; compute_identity_id = λ ed x. "id" }

abbrev init : InitDict
init = record { ek = 8 ∷ []; spk_id = 7; opk_id = some 3 }

verify_auth-build_auth_example :
    verify_auth plain signatures parts
      (build_auth plain signatures parts alice (repeat 16 4) init (repeat 32 5))
      (repeat 16 4)
      init
      (repeat 32 5)
    ≡ true
verify_auth-build_auth_example =
    verify_auth-build_auth plain signatures (λ k m. refl) (λ k. length-repeat 32 1)
      (λ k. length-repeat 32 2) (λ k m. length-repeat 64 3) (λ a b. refl) parts plain-Laws alice
      (repeat 16 4) (repeat 32 5) init
