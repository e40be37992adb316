-- ===== src/Crypto/Sm2Ciphertext/Decrypt/Keystream.antt =====
-- The key stream has the length that is asked for, and masking twice is the identity.
use Prim.Native.Nat.{bit_xor}
use mathlib.Core.Path.{ap₂}
use sip_protocol.Prelude.{
  every_below, of_every_below, ℕ, zero, suc, ◌+◌, ◌^◌, ◌<◌, ◌≤◌, ◌≡◌, refl, ap, List, [], ◌∷◌, ◌++◌,
  true, ◌&&◌, ok, arith, length, take, ltb, ◌==◌, Bool-cases, inl, inr, length-append, length-take,
  All-append, All-take,
}
use sip_protocol.Python.Bytes.{IsByte, IsBytes, to_bytes-digits, digits}
use sip_protocol.Crypto.Sm3.{Sm3}
use sip_protocol.Crypto.Sm2Ciphertext.Decrypt.{xor_bytes, kdf_loop, kdf}

xor_table :
    every_below
      (λ x. every_below (λ y. bit_xor (bit_xor x y) y == x && ltb (bit_xor x y) 256) 256)
      256
    ≡ true
unfolding every_below
xor_table = refl

xor_entry :
    (x y : ℕ) → x < 256 → y < 256 → (bit_xor (bit_xor x y) y == x && ltb (bit_xor x y) 256) ≡ true
xor_entry x y hx hy =
    of_every_below (λ y. bit_xor (bit_xor x y) y == x && ltb (bit_xor x y) 256) 256 y hy
      (of_every_below _ 256 x hx xor_table)

xor-xor : (x y : ℕ) → x < 256 → y < 256 → bit_xor (bit_xor x y) y ≡ x
xor-xor x y hx hy = ground (arith, xor_entry x y hx hy)

pub xor_bytes-xor_bytes :
    (xs ys : List ℕ)
    → IsBytes xs
    → IsBytes ys
    → length xs ≤ length ys
    → xor_bytes (xor_bytes xs ys) ys ≡ xs
unfolding xor_bytes
xor_bytes-xor_bytes [] ys hx hy l = refl
xor_bytes-xor_bytes (x ∷ xs) [] hx hy l = absurd (omega arith)
xor_bytes-xor_bytes (x ∷ xs) (y ∷ ys) hx hy l =
    ap₂ (λ a rest. a ∷ rest) (xor-xor x y hx.0 hy.0)
      (xor_bytes-xor_bytes xs ys hx.1 hy.1 (omega arith))

pub length-xor_bytes :
    (xs ys : List ℕ) → length xs ≤ length ys → length (xor_bytes xs ys) ≡ length xs
unfolding xor_bytes
length-xor_bytes [] ys l = refl
length-xor_bytes (x ∷ xs) [] l = absurd (omega arith)
length-xor_bytes (x ∷ xs) (y ∷ ys) l = ap suc (length-xor_bytes xs ys (omega arith))

module _ (sm3 : Sm3) where
  kdf_loop_total :
      (fuel : ℕ) (z : List ℕ) (klen ct : ℕ) (out : List ℕ)
      → klen ≤ length out + fuel
      → ct + fuel < 2 ^ 32
      → IsBytes out
      → (r : List ℕ) × (kdf_loop sm3 fuel z klen ct out ≡ ok r) × (klen ≤ length r) × IsBytes r
  unfolding kdf_loop
  kdf_loop_total zero z klen ct out enough small bytes = (out, refl, omega arith, bytes)
  kdf_loop_total (suc fuel) z klen ct out enough small bytes =
      elim (Bool-cases (ltb (length out) klen)) [
        | inl more ↦
            let block = sm3.digest (z ++ digits 4 ct []) in
            let (r, e, long, rb) =
              kdf_loop_total fuel z klen (ct + 1) (out ++ block)
                (omega (arith, length-append out block, sm3.length-digest (z ++ digits 4 ct [])))
                (omega arith)
                (All-append IsByte out block bytes (sm3.digest-IsBytes (z ++ digits 4 ct []))) in
            (r, rw (more, kdf_loop, to_bytes-digits 4 ct (omega arith)) e, long, rb)
        | inr done ↦ (out, rw (done, kdf_loop), ground arith, bytes)
      ]

  -- For fewer than 2^31 bytes the key stream is made, of bytes, and has the length that is asked
  -- for.
  pub kdf_total :
      (z : List ℕ) (klen : ℕ)
      → klen < 2 ^ 31
      → (ks : List ℕ) × (kdf sm3 z klen ≡ ok ks) × (length ks ≡ klen) × IsBytes ks
  unfolding kdf
  kdf_total z klen bound =
      let (out, e, long, bytes) = kdf_loop_total klen z klen 1 [] (omega arith) (omega arith) tt in
      (take klen out, rw e, omega (arith, length-take klen out), All-take IsByte klen out bytes)
