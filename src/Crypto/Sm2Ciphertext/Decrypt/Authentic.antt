-- ===== src/Crypto/Sm2Ciphertext/Decrypt/Authentic.antt =====
-- Decryption returns what was encrypted, and only what the digest c3 vouches for.
use mathlib.Core.Path.{subst}
use sip_protocol.Prelude.{
  ℕ, ◌+◌, ◌^◌, ◌<◌, ◌≡◌, ap, sym, ◌∙◌, List, [], true, false, not, ◌&&◌, some, ok, arith, length,
  ltb, Bool-cases, inl, inr, length-append, list_eq, list_eq_refl, unbind, guard, guard-eq-ok,
  ok-injective, sm2_decrypt, zero_keystream,
}
use sip_protocol.Python.Bytes.{IsBytes, to_bytes, digits, length-digits}
use sip_protocol.Crypto.Sm3.{Sm3}
use sip_protocol.Crypto.Sm2.{
  Point, make_public_key, from_public_bytes, make_private_key, exchange_point, scalar_mult, finite,
}
use sip_protocol.Crypto.Sm2Ciphertext.Der.{is_empty, lstrip_zeros}
use sip_protocol.Crypto.Sm2Ciphertext.Der.RoundTrip.{AreComponents}
use sip_protocol.Crypto.Sm2Ciphertext.Format.{Format, to_components, from_components}
use sip_protocol.Crypto.Sm2Ciphertext.Format.RoundTrip.{
  to_components_of_written, to_components-AreComponents,
}
use sip_protocol.Crypto.Sm2Ciphertext.Decrypt.{
  xor_bytes, kdf, c3_input, check_c3, verify_c3, open_c2, shared_point, c1_point,
  decrypt_ciphertext, make_derive,
}
use sip_protocol.Crypto.Sm2Ciphertext.Decrypt.Keystream.{
  kdf_total, xor_bytes-xor_bytes, length-xor_bytes,
}

-- The coordinates of a shared point are 32 bytes each.
length-to_bytes : (k n : ℕ) (bs : List ℕ) → to_bytes k n ≡ ok bs → length bs ≡ k
unfolding to_bytes
length-to_bytes k n bs h = elim (Bool-cases (ltb n (256 ^ k))) [
  | inl l ↦
      ap length (sym (ok-injective (rw l at h)))
      ∙ (let e : length (digits k n []) ≡ k = omega (arith, length-digits k n []) in e)
  | inr l ↦ absurd (cc (rw l at h))
]

length-exchange_point :
    (d : ℕ) (p : Point) (shared : List ℕ) → exchange_point d p ≡ ok shared → length shared ≡ 64
unfolding exchange_point
length-exchange_point d p shared h = unbind (scalar_mult d p) h λ o _ h1.
    unbind (finite o) h1 λ q _ h2. unbind (to_bytes 32 q.0) h2 λ xs ex h3.
      unbind (to_bytes 32 q.1) h3 λ ys ey h4.
        ap length (sym (ok-injective h4))
        ∙ omega
            (arith, length-append xs ys, length-to_bytes 32 q.0 xs ex, length-to_bytes 32 q.1 ys ey)

make_private_key-eq : (d key : ℕ) → make_private_key d ≡ ok key → key ≡ d
unfolding make_private_key
make_private_key-eq d key h = ground arith

-- The shared point that the tool derives for `verify_c3` is the one of the decryption.
make_derive-shared_point :
    (d : ℕ) (c1 shared : List ℕ)
    → length c1 ≡ 64
    → shared_point d (c1_point c1) ≡ ok shared
    → (make_derive d c1 ≡ ok shared) × (length shared ≡ 64)
unfolding make_derive from_public_bytes shared_point
make_derive-shared_point d c1 shared l1 h = unbind (make_private_key d) h λ key ek h1.
    unbind (make_public_key (c1_point c1)) h1 λ peer ep h2.
      let same = make_private_key-eq d key ek in
      (
        rw ((let e : length c1 + 1 ≡ 65 = omega (arith, l1) in e), ep, ← same) h2,
        length-exchange_point key peer shared h2,
      )

module _ (sm3 : Sm3) where
  -- Encryption as GM/T 0003.4 has it, given the shared point and the key stream: the masked message and the digest.
  abbrev pub encrypted : List ℕ → List ℕ → List ℕ → List ℕ × List ℕ
  encrypted shared keystream msg = (xor_bytes msg keystream, sm3.digest (c3_input shared msg))

  open_encrypted :
      (shared keystream msg : List ℕ)
      → IsBytes msg
      → IsBytes keystream
      → length keystream ≡ length msg
      → kdf sm3 shared (length msg) ≡ ok keystream
      → is_empty (lstrip_zeros keystream) ≡ false
      → open_c2 sm3 shared (xor_bytes msg keystream) (sm3.digest (c3_input shared msg)) ≡ ok msg
  unfolding open_c2
  open_encrypted shared keystream msg mb kb len e nonzero =
      let back : xor_bytes (xor_bytes msg keystream) keystream ≡ msg =
        xor_bytes-xor_bytes msg keystream mb kb (omega (arith, len)) in
      rw
        (
          length-xor_bytes msg keystream (omega (arith, len)),
          e,
          nonzero,
          back,
          list_eq_refl (sm3.digest (c3_input shared msg)),
        )
        (ground arith)

  pub decrypt_ciphertext-encrypted :
      (d : ℕ) (c1 shared keystream msg ct : List ℕ) (f : Format)
      → length c1 ≡ 64
      → IsBytes c1
      → shared_point d (c1_point c1) ≡ ok shared
      → IsBytes msg
      → 0 < length msg
      → length msg < 2 ^ 31
      → kdf sm3 shared (length msg) ≡ ok keystream
      → is_empty (lstrip_zeros keystream) ≡ false
      → from_components
          (c1, (encrypted shared keystream msg).0, (encrypted shared keystream msg).1)
          f
        ≡ ok ct
      → decrypt_ciphertext sm3 ct f d ≡ ok msg
  unfolding decrypt_ciphertext
  decrypt_ciphertext-encrypted d c1 shared keystream msg ct f l1 b1 point mb pos bound e nonzero h =
      let (ks, made, len, kb) = kdf_total sm3 shared (length msg) bound in
      let same : ks ≡ keystream = ok-injective (sym made ∙ e) in
      let len' : length keystream ≡ length msg = ap length (sym same) ∙ len in
      let c2 = xor_bytes msg keystream in
      let c3 = sm3.digest (c3_input shared msg) in
      let parts : AreComponents c1 c2 c3 = record {
        c1_length = l1;
        c1_bytes = b1;
        c3_length = sm3.length-digest (c3_input shared msg);
        c2_nonempty = omega (arith, length-xor_bytes msg keystream (omega (arith, len')));
        c2_bound = omega (arith, length-xor_bytes msg keystream (omega (arith, len')));
      } in
      rw (to_components_of_written c1 c2 c3 ct f parts h, point)
        (open_encrypted shared keystream msg mb (subst IsBytes same kb) len' e nonzero)

  check_c3_of_open :
      (shared c2 c3 msg : List ℕ)
      → length shared ≡ 64
      → open_c2 sm3 shared c2 c3 ≡ ok msg
      → check_c3 sm3 sm3.digest shared c2 c3 ≡ ok true
  unfolding open_c2 check_c3
  check_c3_of_open shared c2 c3 msg len h = unbind (kdf sm3 shared (length c2)) h λ ks e h1.
      unbind (guard (not (not (is_empty c2) && is_empty (lstrip_zeros ks))) zero_keystream) h1
        λ _ _ h2.
          unbind (guard (list_eq (sm3.digest (c3_input shared (xor_bytes c2 ks))) c3) sm2_decrypt)
            h2 λ _ g _. rw (len, e) (ap ok (guard-eq-ok _ _ g))

  -- Whatever the ciphertext of fewer than 2^62 bytes, a plaintext that the decryption returns is
  -- vouched for by c3: the check `verify_c3`, with the key's own derivation and SM3, returns True
  -- on the same input.
  pub verify_c3_of_decrypt :
      (ct msg : List ℕ) (f : Format) (d : ℕ)
      → IsBytes ct
      → length ct < 2 ^ 62
      → decrypt_ciphertext sm3 ct f d ≡ ok msg
      → verify_c3 sm3 ct f (some (make_derive d)) sm3.digest ≡ ok true
  unfolding decrypt_ciphertext verify_c3
  verify_c3_of_decrypt ct msg f d bytes bound h = unbind (to_components ct f) h λ parts read h1.
      unbind (shared_point d (c1_point parts.0)) h1 λ shared point h2.
        let are = to_components-AreComponents ct parts.0 parts.1 parts.2 f bytes bound read in
        let (derived, len) = make_derive-shared_point d parts.0 shared are.c1_length point in
        rw (read, derived) (check_c3_of_open shared parts.1 parts.2 msg len h2)
