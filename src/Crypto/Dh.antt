-- ===== src/Crypto/Dh.antt =====
-- crypto/dh.py: key pairs, exchange and wire format by suite.
use sip_protocol.Prelude.{
  ℕ, ◌≡◌, List, [], ◌∷◌, Result, ok, err, value_error, type_error, no_entropy, suite_negotiation,
  ◌>>=◌, ◌>>◌, guard, require, length, ◌==◌,
}
use sip_protocol.Crypto.Suite.{Suite, en, zh, public_key_length}
use sip_protocol.Crypto.Primitives.{Bytes, Primitives}
use sip_protocol.Crypto.Sm2.{Point}
use sip_protocol.Crypto.Sm2

pub data PrivateKey : Type 0 where
  x25519_private : Bytes → PrivateKey
  sm2_private : ℕ → PrivateKey

pub data PublicKey : Type 0 where
  x25519_key : Bytes → PublicKey
  sm2_key : Point → PublicKey

-- one key for X25519 from the first draw
unfoldable pub first_draw : List Bytes → Result Bytes
first_draw [] = err no_entropy
first_draw (draw ∷ draws) = ok draw

module _ (p : Primitives) where
  -- `generate_keypair` over the random draws that it makes
  unfoldable pub generate_keypair : List Bytes → Suite → Result (PrivateKey × PublicKey)
  unfolding first_draw
  generate_keypair draws en = do
    private ← first_draw draws
    ok (x25519_private private, x25519_key (p.x25519_public private))
  generate_keypair draws zh = do
    d ← require (Sm2.generate draws) no_entropy
    point ← Sm2.public_key d
    ok (sm2_private d, sm2_key point)

  -- `dh_exchange`; keys of two suites do not fit
  unfoldable pub dh_exchange : PrivateKey → PublicKey → Result Bytes
  dh_exchange (x25519_private a) (x25519_key b) = p.x25519_exchange a b
  dh_exchange (x25519_private a) (sm2_key q) = err type_error
  dh_exchange (sm2_private d) (x25519_key b) = err value_error
  dh_exchange (sm2_private d) (sm2_key q) = Sm2.exchange d q

-- `serialize_public_key`
unfoldable pub serialize_public_key : PublicKey → Result Bytes
serialize_public_key (x25519_key b) = ok b
serialize_public_key (sm2_key q) = Sm2.public_bytes q

-- `serialize_private_key`
unfoldable pub serialize_private_key : PrivateKey → Result Bytes
serialize_private_key (x25519_private a) = ok a
serialize_private_key (sm2_private d) = Sm2.private_bytes d

unfoldable pub parse_raw : Bytes → Suite → Result PublicKey
parse_raw raw en = ok (x25519_key raw)
parse_raw raw zh = do q ← Sm2.from_public_bytes raw; ok (sm2_key q)

-- `parse_public_key`
unfoldable pub parse_public_key : Bytes → Suite → Result PublicKey
unfolding parse_raw
parse_public_key raw s = do
  guard (length raw == public_key_length s) suite_negotiation
  parse_raw raw s

pub parse-serialize_x25519 :
    (b : Bytes)
    → length b ≡ 32
    → (do raw ← serialize_public_key (x25519_key b); parse_public_key raw en) ≡ ok (x25519_key b)
unfolding serialize_public_key parse_public_key
parse-serialize_x25519 b h = rw h
