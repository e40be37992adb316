-- ===== src/Interop/Documented.antt =====
-- What is documented of the primitives that the library takes whole and the reference builds: the
-- HMAC with SM3 is that of RFC 2104, HKDF is that of RFC 5869. And that the reference builds these two.
use mathlib.Core.Path.{subst}
use sip_protocol.Prelude.{
  ℕ, zero, suc, ◌+◌, ◌-◌, ◌≤◌, ◌/◌, ◌≡◌, refl, ap, sym, ◌∙◌, [], ◌∷◌, ◌++◌, Bool-cases, inl, inr,
  true, false, ok, leb, ltb, lt→ltb, ltb→lt, arith, length, replicate,
}
use sip_protocol.Crypto.Suite.{Suite, en, zh}
use sip_protocol.Crypto.Primitives.{Bytes, Primitives}
use sip_protocol.Crypto.Sm3.{Sm3}
use sip_protocol.Interop.Rfc.{pad, block_key, block, blocks, rounds, length-blocks}
use sip_protocol.Interop.Rfc
use sip_protocol.Interop.Hkdf.{norm_key, hmac_sm3, hmac_digest, hkdf_loop, hkdf_for_suite}

pub record AreDocumented (p : Primitives) (sm3 : Sm3) : Type 0 where
  pub hmac_rfc2104 :
      (key message : Bytes) → p.hmac_digest zh key message ≡ Rfc.hmac sm3.digest key message
  pub length-hmac_digest :
      (s : Suite) (key message : Bytes) → length (p.hmac_digest s key message) ≡ 32
  -- up to the 255 digests that RFC 5869 allows
  pub hkdf_rfc5869 :
      (s : Suite) (salt info ikm : Bytes) (n : ℕ)
      → n ≤ 8160
      → p.hkdf_derive s salt info n ikm ≡ Rfc.hkdf (p.hmac_digest s) salt info n ikm

pad-replicate : (n : ℕ) (bs : Bytes) → pad n bs ≡ bs ++ replicate (n - length bs) 0
pad-replicate zero [] = refl
pad-replicate zero (b ∷ bs) =
    let none_left : 0 - length bs ≡ 0 - length (b ∷ bs) = omega arith in
    ap (λ t. b ∷ t) (pad-replicate zero bs ∙ ap (λ k. bs ++ replicate k 0) none_left)
pad-replicate (suc n) [] =
    let one_left : suc (n - 0) ≡ suc n - 0 = omega arith in
    ap (λ t. 0 ∷ t) (pad-replicate n []) ∙ ap (λ k. replicate k 0) one_left
pad-replicate (suc n) (b ∷ bs) =
    let same_left : n - length bs ≡ suc n - length (b ∷ bs) = omega arith in
    ap (λ t. b ∷ t) (pad-replicate n bs ∙ ap (λ k. bs ++ replicate k 0) same_left)

block_key-norm_key : (sm3 : Sm3) (key : Bytes) → norm_key sm3 key ≡ block_key sm3.digest key
unfolding norm_key
block_key-norm_key sm3 key = elim (Bool-cases (ltb 64 (length key))) [
  | inl e ↦
      let long : leb (length key) 64 ≡ false = ground (arith, e) in
      rw (e, long) (sym (pad-replicate 64 (sm3.digest key)))
  | inr e ↦
      let short : leb (length key) 64 ≡ true = ground (arith, e) in
      rw (e, short) (sym (pad-replicate 64 key))
]

-- The reference's HMAC with SM3 is that of RFC 2104.
hmac_sm3-hmac :
    (sm3 : Sm3) (key message : Bytes) → hmac_sm3 sm3 key message ≡ Rfc.hmac sm3.digest key message
unfolding hmac_sm3
hmac_sm3-hmac sm3 key message = rw (hmac_sm3, block_key-norm_key sm3 key) refl

module _ {p : Primitives} {sm3 : Sm3} where
  pub hmac_digest-agrees :
      AreDocumented p sm3
      → (key message : Bytes) (s : Suite)
      → hmac_digest p sm3 key message s ≡ p.hmac_digest s key message
  unfolding hmac_digest
  hmac_digest-agrees d key message en = refl
  hmac_digest-agrees d key message zh =
      hmac_sm3-hmac sm3 key message ∙ sym (d.hmac_rfc2104 key message)

  -- From the state after i rounds, the loop of the reference makes the blocks that are left.
  hkdf_loop-blocks :
      AreDocumented p sm3
      → (fuel : ℕ) (s : Suite) (prk info : Bytes) (n i : ℕ) → n ≤ 8160
      → i ≤ (n + 31) / 32
      → (n + 31) / 32 ≤ i + fuel
      → hkdf_loop p sm3 fuel s prk info n
          (blocks (p.hmac_digest s) prk info i)
          (block (p.hmac_digest s) prk info i)
          (i + 1)
        ≡ ok (blocks (p.hmac_digest s) prk info ((n + 31) / 32))
  unfolding hkdf_loop
  hkdf_loop-blocks d zero s prk info n i small low high =
      let full : i ≡ (n + 31) / 32 = omega (arith, low, high) in
      ap (λ j. ok (blocks (p.hmac_digest s) prk info j)) full
  hkdf_loop-blocks d (suc fuel) s prk info n i small low high =
      let len = length-blocks (p.hmac_digest s) prk info i (d.length-hmac_digest s) in
      elim (Bool-cases (ltb (length (blocks (p.hmac_digest s) prk info i)) n)) [
        | inr e ↦
            let full : i ≡ (n + 31) / 32 = ground (arith, e, len, low) in
            rw (hkdf_loop, e) (ap (λ j. ok (blocks (p.hmac_digest s) prk info j)) full)
        | inl e ↦
            let below = ltb→lt (length (blocks (p.hmac_digest s) prk info i)) n e in
            let room : ltb (i + 1) 256 ≡ true =
              lt→ltb (i + 1) 256 (omega (arith, below, len, small)) in
            let counted : suc i + 1 ≡ i + 1 + 1 = omega arith in
            rw
              (
                hkdf_loop,
                e,
                room,
                hmac_digest-agrees d prk
                    (block (p.hmac_digest s) prk info i ++ (info ++ ((i + 1) ∷ []))) s,
              )
              (subst
                (λ c.
                  hkdf_loop p sm3 fuel s prk info n (blocks (p.hmac_digest s) prk info (suc i))
                    (block (p.hmac_digest s) prk info (suc i)) c
                  ≡ ok (blocks (p.hmac_digest s) prk info ((n + 31) / 32)))
                counted
                (hkdf_loop-blocks d fuel s prk info n (suc i) small (omega (arith, below, len))
                  (omega (arith, high))))
      ]

  -- The reference's HKDF is that of RFC 5869, which the library's is documented to be.
  pub hkdf_for_suite-agrees :
      AreDocumented p sm3
      → (s : Suite) (salt info ikm : Bytes) (n : ℕ) → n ≤ 8160
      → hkdf_for_suite p sm3 ikm salt info n s ≡ ok (p.hkdf_derive s salt info n ikm)
  unfolding hkdf_for_suite
  hkdf_for_suite-agrees d s salt info ikm n small =
      rw
        (
          hmac_digest-agrees d salt ikm s,
          hkdf_loop-blocks d n s (p.hmac_digest s salt ikm) info n 0 small (omega arith)
              (omega arith),
        )
        (ap ok (sym (d.hkdf_rfc5869 s salt info ikm n small)))
