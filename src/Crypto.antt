-- ===== src/Crypto.antt =====
-- The crypto package.
pub mod Sm2Ciphertext
pub mod Sm2
pub mod Sm3
pub mod Suite
pub mod Primitives
pub mod Aead
pub mod Hkdf
pub mod Dh
