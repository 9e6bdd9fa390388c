-- ===== src/Crypto.antt =====
-- The cryptographic core of the client: noknowledge/crypto.
pub mod Primitives
pub mod Aead
pub mod Kdf
pub mod Padding
pub mod Prekeys
pub mod X3dh
pub mod Toy
pub mod Ratchet
mod Tests
