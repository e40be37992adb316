-- ===== src/Crypto/Aead.antt =====
-- crypto/xchacha20_poly1305.py and crypto/sm4_gcm.py: AEAD by suite.
use mathlib.Core.Path.{subst}
use sip_protocol.Prelude.{
  ℕ, ◌≡◌, ap, sym, ◌∙◌, ◌++◌, Option, Result, ok, ◌>>=◌, length, take, drop, arith,
  take-append-drop, length-take, length-drop, unbind, ok-injective, length-append, take-append,
  drop-append, All-take, All-drop,
}
use sip_protocol.Python.Bytes.{IsByte, IsBytes}
use sip_protocol.Crypto.Suite.{Suite, en, zh, aead_key_length}
use sip_protocol.Crypto.Primitives.{Bytes, Primitives}

abbrev pub nonce_length : ℕ
nonce_length = 12

abbrev pub tag_length : ℕ
tag_length = 16

module _ (p : Primitives) where
  -- `encrypt_xchacha20_poly1305`: the ciphertext is cut off at the length of the plaintext.
  unfoldable pub aead_encrypt :
      Bytes → Bytes → Bytes → Option Bytes → Suite → Result (Bytes × Bytes)
  aead_encrypt key plain nonce aad zh = p.sm4_encrypt key nonce plain aad
  aead_encrypt key plain nonce aad en = do
    sealed ← p.chacha_encrypt key nonce plain aad
    ok (take (length plain) sealed, drop (length plain) sealed)

  -- `decrypt_xchacha20_poly1305`
  unfoldable pub aead_decrypt : Bytes → Bytes → Bytes → Bytes → Option Bytes → Suite → Result Bytes
  aead_decrypt key ct nonce tag aad zh = p.sm4_decrypt key nonce tag ct aad
  aead_decrypt key ct nonce tag aad en = p.chacha_decrypt key nonce (ct ++ tag) aad

  -- What sealing returns: a ciphertext as long as the plaintext, and a tag of 16 bytes.
  pub record IsSealed (plain ct tag : Bytes) : Type 0 where
    pub ct_length : length ct ≡ length plain
    pub tag_length_eq : length tag ≡ tag_length
    pub ct_bytes : IsBytes plain → IsBytes ct
    pub tag_bytes : IsBytes plain → IsBytes tag

  pub aead_encrypt-IsSealed :
      (key plain nonce ct tag : Bytes) (aad : Option Bytes) (s : Suite)
      → aead_encrypt key plain nonce aad s ≡ ok (ct, tag)
      → IsSealed plain ct tag
  unfolding aead_encrypt
  aead_encrypt-IsSealed key plain nonce ct tag aad zh h =
      let lens = p.sm4_length key nonce plain ct tag aad h in
      let bytes = p.sm4_bytes key nonce plain ct tag aad h in
      record {
        ct_length = lens.0;
        tag_length_eq = lens.1;
        ct_bytes = λ b. (bytes b).0;
        tag_bytes = λ b. (bytes b).1;
      }
  aead_encrypt-IsSealed key plain nonce ct tag aad en h =
      unbind (p.chacha_encrypt key nonce plain aad) h λ sealed e h1.
        let n = length plain in
        let pair = ok-injective h1 in
        let len = p.chacha_length key nonce plain sealed aad e in
        let bytes = p.chacha_bytes key nonce plain sealed aad e in
        let is_ct : take n sealed ≡ ct = ap (λ (t : Bytes × Bytes). t.0) pair in
        let is_tag : drop n sealed ≡ tag = ap (λ (t : Bytes × Bytes). t.1) pair in
        record {
          ct_length = omega (arith, ap length is_ct, length-take n sealed);
          tag_length_eq = omega (arith, ap length is_tag, length-drop n sealed);
          ct_bytes = λ b. subst IsBytes is_ct (All-take IsByte n sealed (bytes b));
          tag_bytes = λ b. subst IsBytes is_tag (All-drop IsByte n sealed (bytes b));
        }

  -- With a key of the suite's length and a nonce of 12 bytes sealing raises nothing.
  pub aead_encrypt_total :
      (key plain nonce : Bytes) (aad : Option Bytes) (s : Suite)
      → length key ≡ aead_key_length s
      → length nonce ≡ nonce_length
      → (sealed : Bytes × Bytes) × (aead_encrypt key plain nonce aad s ≡ ok sealed)
  unfolding aead_encrypt
  aead_encrypt_total key plain nonce aad zh hk hn = p.sm4_total key nonce plain aad hk hn
  aead_encrypt_total key plain nonce aad en hk hn =
      let (sealed, e) = p.chacha_total key nonce plain aad hk hn in
      ((take (length plain) sealed, drop (length plain) sealed), rw e)

  -- What was sealed is opened.
  pub aead_decrypt-encrypt :
      (key plain nonce ct tag : Bytes) (aad : Option Bytes) (s : Suite)
      → aead_encrypt key plain nonce aad s ≡ ok (ct, tag)
      → aead_decrypt key ct nonce tag aad s ≡ ok plain
  unfolding aead_encrypt aead_decrypt
  aead_decrypt-encrypt key plain nonce ct tag aad zh h = p.sm4_open key nonce plain ct tag aad h
  aead_decrypt-encrypt key plain nonce ct tag aad en h =
      unbind (p.chacha_encrypt key nonce plain aad) h λ sealed e h1.
        let n = length plain in
        let pair = ok-injective h1 in
        let whole : ct ++ tag ≡ sealed =
          sym (ap (λ (t : Bytes × Bytes). t.0 ++ t.1) pair) ∙ take-append-drop n sealed in
        rw (aead_decrypt, whole) (p.chacha_open key nonce plain sealed aad e)

  -- Only what sealing returns is opened, given a tag of 16 bytes.
  pub aead_encrypt-decrypt :
      (key plain nonce ct tag : Bytes) (aad : Option Bytes) (s : Suite)
      → length tag ≡ tag_length
      → aead_decrypt key ct nonce tag aad s ≡ ok plain
      → aead_encrypt key plain nonce aad s ≡ ok (ct, tag)
  unfolding aead_encrypt aead_decrypt
  aead_encrypt-decrypt key plain nonce ct tag aad zh ht h = p.sm4_only key nonce plain ct tag aad h
  aead_encrypt-decrypt key plain nonce ct tag aad en ht h =
      let e = p.chacha_only key nonce plain (ct ++ tag) aad h in
      let len : length ct ≡ length plain =
        omega
          (arith, p.chacha_length key nonce plain (ct ++ tag) aad e, length-append ct tag, ht) in
      rw (e, take-append (length plain) ct tag len, drop-append (length plain) ct tag len)
