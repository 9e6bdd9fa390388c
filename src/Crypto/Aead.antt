-- ===== src/Crypto/Aead.antt =====
-- noknowledge/crypto/aead.py; `none` is an AEADError.
use noknowledge.Base.{Bytes, not, ◌||◌, Option, none, some, ◌==◌, eq_ℕ, if◌then◌else◌, length}
use noknowledge.Crypto.Primitives.{Primitives}

-- `nonce` is what `os.urandom` returns.
unfoldable pub encrypt : Primitives → Bytes → Bytes → Bytes → Bytes → Option (Bytes × Bytes)
encrypt p nonce key plaintext ad =
    if not (length key == 32) then none else some (nonce, p.seal key nonce plaintext ad)

unfoldable pub decrypt : Primitives → Bytes → Bytes → Bytes → Bytes → Option Bytes
decrypt p key nonce ciphertext ad =
    if not (length key == 32) || not (length nonce == 12)
    then none
    else p.unseal key nonce ciphertext ad
