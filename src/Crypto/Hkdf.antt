-- ===== src/Crypto/Hkdf.antt =====
-- crypto/hkdf.py: key derivation by suite, and the three keys of a session.
use sip_protocol.Prelude.{
  ℕ, ◌≡◌, ◌++◌, length, take, drop, slice, codes, arith, length-take, length-drop,
}
use sip_protocol.Crypto.Suite.{Suite, en, zh, aead_key_length}
use sip_protocol.Crypto.Primitives.{Bytes, Primitives}

-- `{"encryption_key": …, "auth_key": …, "replay_key": …}`
pub record Keys : Type 0 where
  pub encryption_key : Bytes
  pub auth_key : Bytes
  pub replay_key : Bytes

-- `_okm_length`
abbrev pub okm_length : Suite → ℕ
okm_length zh = 80
okm_length en = 96

-- the three slices of the derived bytes
unfoldable pub split_keys : Bytes → Suite → Keys
split_keys okm zh = record {
  encryption_key = take 16 okm;
  auth_key = slice okm 16 48;
  replay_key = slice okm 48 80;
}
split_keys okm en = record {
  encryption_key = take 32 okm;
  auth_key = slice okm 32 64;
  replay_key = slice okm 64 96;
}

module _ (p : Primitives) where
  -- `hkdf`
  unfoldable pub hkdf : Bytes → Bytes → Bytes → ℕ → Suite → Bytes
  hkdf ikm salt info n s = p.hkdf_derive s salt info n ikm

  -- `derive_keys_triple_dh`
  unfoldable pub derive_keys_triple_dh :
      Bytes → Bytes → Bytes → Bytes → Bytes → Bytes → Suite → Keys
  unfolding hkdf split_keys
  derive_keys_triple_dh shared_1 shared_2 shared_3 psk_hash nonce_a nonce_b s =
      let ikm = shared_1 ++ (shared_2 ++ (shared_3 ++ (psk_hash ++ (nonce_a ++ nonce_b)))) in
      split_keys (hkdf ikm (codes "SIPHandshake") (codes "session-keys") (okm_length s) s) s

  -- `derive_keys`, the single exchange that is kept for compatibility
  unfoldable pub derive_keys : Bytes → Bytes → Bytes → Bytes → Suite → Keys
  unfolding hkdf split_keys
  derive_keys shared_secret psk_hash nonce_a nonce_b s =
      let ikm = shared_secret ++ (psk_hash ++ (nonce_a ++ nonce_b)) in
      split_keys (hkdf ikm (codes "SIPHandshake") (codes "session-keys") (okm_length s) s) s

-- The slices of derived bytes of the suite's length: a cipher key of the suite's length, two keys
-- of 32 bytes.
pub split_keys-partition :
    (okm : Bytes) (s : Suite)
    → length okm ≡ okm_length s
    → (length (split_keys okm s).encryption_key ≡ aead_key_length s)
      × (length (split_keys okm s).auth_key ≡ 32)
      × (length (split_keys okm s).replay_key ≡ 32)
unfolding split_keys
split_keys-partition okm en h = (
  omega (arith, length-take 32 okm),
  omega (arith, length-take 32 (drop 32 okm), length-drop 32 okm),
  omega (arith, length-take 32 (drop 64 okm), length-drop 64 okm),
)
split_keys-partition okm zh h = (
  omega (arith, length-take 16 okm),
  omega (arith, length-take 32 (drop 16 okm), length-drop 16 okm),
  omega (arith, length-take 32 (drop 48 okm), length-drop 48 okm),
)
