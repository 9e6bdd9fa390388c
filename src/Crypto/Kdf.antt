-- ===== src/Crypto/Kdf.antt =====
-- noknowledge/crypto/kdf.py: the two key derivations of the ratchet.
use noknowledge.Base.{Bytes, [], ◌∷◌, take, drop}
use noknowledge.Crypto.Primitives.{Primitives}

-- b"nk/ratchet-root/v1"
abbrev pub root_info : Bytes
root_info =
    110 ∷ 107 ∷ 47 ∷ 114 ∷ 97 ∷ 116 ∷ 99 ∷ 104 ∷ 101 ∷ 116 ∷ 45 ∷ 114 ∷ 111 ∷ 111 ∷ 116 ∷ 47 ∷ 118
    ∷ 49 ∷ []

unfoldable pub kdf_rk : Primitives → Bytes → Bytes → Bytes × Bytes
kdf_rk p root_key dh_output =
    let out = p.hkdf dh_output root_key root_info 64 in (take 32 out, drop 32 out)

unfoldable pub kdf_ck : Primitives → Bytes → Bytes × Bytes
kdf_ck p chain_key = (p.hmac chain_key (1 ∷ []), p.hmac chain_key (2 ∷ []))
