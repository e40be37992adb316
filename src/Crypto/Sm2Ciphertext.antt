-- ===== src/Crypto/Sm2Ciphertext.antt =====
-- crypto/sm2_ciphertext.py: the wire formats of an SM2 ciphertext.
pub mod Der
pub mod Format
pub mod Decrypt
