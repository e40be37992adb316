-- ===== src/Crypto/Sm2Ciphertext/Der/Coordinate.antt =====
-- The INTEGER of a coordinate: minimal when written, padded to 32 bytes when read.
use native.Mathlib.Nat.{pow-suc}
use sip_protocol.Prelude.{
  ℕ, suc, ◌+◌, ◌*◌, ◌^◌, ◌<◌, ◌≤◌, ◌≡◌, refl, ap, ◌∙◌, List, [], ◌∷◌, false, ok, err,
  overflow_error, arith, length, ◌==◌, Bool-cases, inl, inr, ==_eq, leb-true,
}
use sip_protocol.Python.Bytes.{
  IsBytes, from_bytes, from_bytes_acc, to_bytes-from_bytes, to_bytes_overflow,
}
use sip_protocol.Crypto.Sm2Ciphertext.Der.{
  coord_len, lstrip_zeros, high_bit, keep_positive, minimal_integer, redundant_zero,
  der_decode_coordinate,
}

from_bytes-lstrip_zeros : (bs : List ℕ) → from_bytes (lstrip_zeros bs) ≡ from_bytes bs
unfolding lstrip_zeros from_bytes
from_bytes-lstrip_zeros [] = refl
from_bytes-lstrip_zeros (b ∷ bs) = elim (Bool-cases (b == 0)) [
  | inl z ↦ rw z (
      from_bytes-lstrip_zeros bs
      ∙ ap (λ t. from_bytes_acc t bs) (let e : 0 ≡ 0 + b = omega (arith, ==_eq b 0 z) in e))
  | inr z ↦ rw z
]

from_bytes-keep_positive : (bs : List ℕ) → from_bytes (keep_positive bs) ≡ from_bytes bs
unfolding keep_positive from_bytes
from_bytes-keep_positive [] = refl
from_bytes-keep_positive (b ∷ bs) = elim (Bool-cases (high_bit b)) [ inl h ↦ rw h | inr h ↦ rw h ]

-- The stripped coordinate has the value of the coordinate.
pub from_bytes-minimal_integer : (bs : List ℕ) → from_bytes (minimal_integer bs) ≡ from_bytes bs
unfolding minimal_integer
from_bytes-minimal_integer bs =
    from_bytes-keep_positive (lstrip_zeros bs) ∙ from_bytes-lstrip_zeros bs

length-lstrip_zeros : (bs : List ℕ) → length (lstrip_zeros bs) ≤ length bs
unfolding lstrip_zeros
length-lstrip_zeros [] = omega arith
length-lstrip_zeros (b ∷ bs) = ground (arith, length-lstrip_zeros bs)

length-keep_positive : (bs : List ℕ) → length (keep_positive bs) ≤ length bs + 1
unfolding keep_positive
length-keep_positive [] = omega arith
length-keep_positive (b ∷ bs) = ground arith

pub length-minimal_integer : (bs : List ℕ) → length (minimal_integer bs) ≤ length bs + 1
unfolding minimal_integer
length-minimal_integer bs =
    omega (arith, length-keep_positive (lstrip_zeros bs), length-lstrip_zeros bs)

-- A stripped list does not start with a zero, so the zero that `keep_positive` adds is needed.
redundant_zero-keep_positive :
    (bs : List ℕ) → redundant_zero (keep_positive (lstrip_zeros bs)) ≡ false
unfolding redundant_zero keep_positive lstrip_zeros
redundant_zero-keep_positive [] = refl
redundant_zero-keep_positive (b ∷ bs) = elim (Bool-cases (b == 0)) [
  | inl z ↦ rw z (redundant_zero-keep_positive bs)
  | inr z ↦ rw z (no_zero b bs z)
]
  where
    no_zero :
        (b : ℕ) (bs : List ℕ) → (b == 0) ≡ false → redundant_zero (keep_positive (b ∷ bs)) ≡ false
    no_zero b [] z = ground arith
    no_zero b (b' ∷ bs) z = ground arith

redundant_zero-minimal_integer : (bs : List ℕ) → redundant_zero (minimal_integer bs) ≡ false
unfolding minimal_integer
redundant_zero-minimal_integer bs = redundant_zero-keep_positive bs

-- A coordinate of 32 bytes is read back from the INTEGER that it was written as.
pub der_decode_coordinate-minimal :
    (coord : List ℕ)
    → IsBytes coord
    → length coord ≡ coord_len
    → der_decode_coordinate (minimal_integer coord) ≡ ok coord
unfolding der_decode_coordinate
der_decode_coordinate-minimal coord h len =
    rw
      (
        leb-true (length (minimal_integer coord)) 33 (omega (arith, length-minimal_integer coord)),
        redundant_zero-minimal_integer coord,
        from_bytes-minimal_integer coord,
        ← len,
      )
      (to_bytes-from_bytes coord h)

-- A value of 33 bytes whose first byte is not zero passes the checks, and `to_bytes` raises.
from_bytes_acc-le : (bs : List ℕ) (a : ℕ) → a * 256 ^ length bs ≤ from_bytes_acc a bs
unfolding from_bytes_acc
from_bytes_acc-le [] a = omega arith
from_bytes_acc-le (b ∷ bs) a =
    omega
      (arith, from_bytes_acc-le bs (a * 256 + b), ap (λ (t : ℕ). a * t) (pow-suc 256 (length bs)))

from_bytes-ge :
    (b : ℕ) (bs : List ℕ) → 0 < b → length bs ≡ coord_len → 256 ^ 32 ≤ from_bytes (b ∷ bs)
unfolding from_bytes
from_bytes-ge b bs pos len =
    let low : (0 + b) * 256 ^ 32 ≤ from_bytes_acc (0 + b) bs =
      rw len at (from_bytes_acc-le bs (0 + b)) in
    omega arith

redundant_zero-pos : (b : ℕ) (bs : List ℕ) → 0 < b → redundant_zero (b ∷ bs) ≡ false
unfolding redundant_zero
redundant_zero-pos b [] pos = refl
redundant_zero-pos b (b' ∷ bs) pos = ground arith

pub der_decode_coordinate_overflow :
    (b : ℕ) (bs : List ℕ)
    → 0 < b
    → length bs ≡ coord_len
    → der_decode_coordinate (b ∷ bs) ≡ err overflow_error
unfolding der_decode_coordinate
der_decode_coordinate_overflow b bs pos len = rw (
  leb-true (suc (length bs)) 33 (omega (arith, len)),
  redundant_zero-pos b bs pos,
  to_bytes_overflow 32 (from_bytes (b ∷ bs)) (from_bytes-ge b bs pos len),
)
