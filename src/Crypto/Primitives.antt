-- ===== src/Crypto/Primitives.antt =====
-- What the program calls and this repository does not hold: the cryptography and argon2 packages
-- and the hashes under `hmac`. Each function comes with what is documented of it. The two AEADs are
-- deterministic: they open exactly what they seal.
use sip_protocol.Prelude.{ℕ, ◌+◌, ◌≡◌, List, Option, Result, ok, length}
use sip_protocol.Python.Bytes.{IsBytes}
use sip_protocol.Crypto.Suite.{Suite}

abbrev pub Bytes : Type 0
Bytes = List ℕ

pub record Primitives : Type 0 where
  -- `ChaCha20Poly1305(key).encrypt(nonce, data, aad)`: the ciphertext, then a tag of 16 bytes
  pub chacha_encrypt : Bytes → Bytes → Bytes → Option Bytes → Result Bytes
  pub chacha_decrypt : Bytes → Bytes → Bytes → Option Bytes → Result Bytes
  pub chacha_total :
      (key nonce plain : Bytes) (aad : Option Bytes)
      → length key ≡ 32
      → length nonce ≡ 12
      → (sealed : Bytes) × (chacha_encrypt key nonce plain aad ≡ ok sealed)
  pub chacha_length :
      (key nonce plain sealed : Bytes) (aad : Option Bytes)
      → chacha_encrypt key nonce plain aad ≡ ok sealed
      → length sealed ≡ length plain + 16
  pub chacha_bytes :
      (key nonce plain sealed : Bytes) (aad : Option Bytes)
      → chacha_encrypt key nonce plain aad ≡ ok sealed
      → IsBytes plain
      → IsBytes sealed
  pub chacha_open :
      (key nonce plain sealed : Bytes) (aad : Option Bytes)
      → chacha_encrypt key nonce plain aad ≡ ok sealed
      → chacha_decrypt key nonce sealed aad ≡ ok plain
  pub chacha_only :
      (key nonce plain sealed : Bytes) (aad : Option Bytes)
      → chacha_decrypt key nonce sealed aad ≡ ok plain
      → chacha_encrypt key nonce plain aad ≡ ok sealed
  -- SM4 in GCM mode: the ciphertext, and the tag of 16 bytes
  pub sm4_encrypt : Bytes → Bytes → Bytes → Option Bytes → Result (Bytes × Bytes)
  pub sm4_decrypt : Bytes → Bytes → Bytes → Bytes → Option Bytes → Result Bytes
  pub sm4_total :
      (key nonce plain : Bytes) (aad : Option Bytes)
      → length key ≡ 16
      → length nonce ≡ 12
      → (sealed : Bytes × Bytes) × (sm4_encrypt key nonce plain aad ≡ ok sealed)
  pub sm4_length :
      (key nonce plain ct tag : Bytes) (aad : Option Bytes)
      → sm4_encrypt key nonce plain aad ≡ ok (ct, tag)
      → (length ct ≡ length plain) × (length tag ≡ 16)
  pub sm4_bytes :
      (key nonce plain ct tag : Bytes) (aad : Option Bytes)
      → sm4_encrypt key nonce plain aad ≡ ok (ct, tag)
      → IsBytes plain
      → IsBytes ct × IsBytes tag
  pub sm4_open :
      (key nonce plain ct tag : Bytes) (aad : Option Bytes)
      → sm4_encrypt key nonce plain aad ≡ ok (ct, tag)
      → sm4_decrypt key nonce tag ct aad ≡ ok plain
  pub sm4_only :
      (key nonce plain ct tag : Bytes) (aad : Option Bytes)
      → sm4_decrypt key nonce tag ct aad ≡ ok plain
      → sm4_encrypt key nonce plain aad ≡ ok (ct, tag)
  -- `HKDF(algorithm, length, salt, info).derive(ikm)`, with SHA256 or SM3 by the suite
  pub hkdf_derive : Suite → Bytes → Bytes → ℕ → Bytes → Bytes
  pub length-hkdf_derive :
      (s : Suite) (salt info : Bytes) (n : ℕ) (ikm : Bytes)
      → length (hkdf_derive s salt info n ikm) ≡ n
  -- `hmac.new(key, data, digestmod(suite)).digest()`
  pub hmac_digest : Suite → Bytes → Bytes → Bytes
  pub hmac_digest-IsBytes : (s : Suite) (key message : Bytes) → IsBytes (hmac_digest s key message)
  -- Argon2id with the program's cost parameters and salt
  pub argon2_hash : Bytes → Bytes
  -- X25519: the public key of a private key, and the exchange
  pub x25519_public : Bytes → Bytes
  pub x25519_exchange : Bytes → Bytes → Result Bytes
  pub length-x25519_public : (private : Bytes) → length (x25519_public private) ≡ 32
  pub x25519_public-IsBytes : (private : Bytes) → IsBytes (x25519_public private)
  pub x25519_exchange_comm :
      (a b : Bytes) → x25519_exchange a (x25519_public b) ≡ x25519_exchange b (x25519_public a)
