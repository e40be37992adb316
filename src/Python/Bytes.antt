-- ===== src/Python/Bytes.antt =====
-- `int.from_bytes`, `int.to_bytes` and `int.bit_length`, big-endian.
use native.Mathlib.Nat.{pow-suc, add-zero}
use mathlib.Core.Path.{ap, ap₂, ◌∙◌}
use sip_protocol.Prelude.{
  ℕ, zero, suc, ◌+◌, ◌*◌, ◌/◌, ◌%◌, ◌^◌, ◌≤◌, ◌<◌, ◌≡◌, refl, sym, List, [], ◌∷◌, ◌++◌, true, false,
  arith, Result, ok, err, overflow_error, length, All, ltb, lt→ltb, ◌==◌, ==_eq, ltb-false,
  if◌then◌else◌, Bool-cases, inl, inr,
}
use mathlib.Core.List.{append-nil}

abbrev pub IsByte : ℕ → Type 0
IsByte b = b < 256

abbrev pub IsBytes : List ℕ → Type 0
IsBytes bs = All IsByte bs

unfoldable pub from_bytes_acc : ℕ → List ℕ → ℕ
from_bytes_acc a [] = a
from_bytes_acc a (b ∷ bs) = from_bytes_acc (a * 256 + b) bs

-- `int.from_bytes(bs, "big")`
unfoldable pub from_bytes : List ℕ → ℕ
unfolding from_bytes_acc
from_bytes bs = from_bytes_acc 0 bs

unfoldable pub digits : ℕ → ℕ → List ℕ → List ℕ
digits zero n acc = acc
digits (suc k) n acc = digits k (n / 256) ((n % 256) ∷ acc)

-- `n.to_bytes(k, "big")`
unfoldable pub to_bytes : ℕ → ℕ → Result (List ℕ)
unfolding digits
to_bytes k n = if ltb n (256 ^ k) then ok (digits k n []) else err overflow_error

unfoldable pub bits : ℕ → ℕ → ℕ
bits zero n = 0
bits (suc fuel) n = elim (n == 0) [ true ↦ 0 | false ↦ suc (bits fuel (n / 2)) ]

-- `n.bit_length()`: each round halves, so `n` rounds are enough.
unfoldable pub bit_length : ℕ → ℕ
unfolding bits
bit_length n = bits n n

pub length-digits : (k n : ℕ) (acc : List ℕ) → length (digits k n acc) ≡ k + length acc
unfolding digits
length-digits zero n acc = omega arith
length-digits (suc k) n acc = omega (arith, length-digits k (n / 256) ((n % 256) ∷ acc))

pub digits-IsBytes : (k n : ℕ) (acc : List ℕ) → IsBytes acc → IsBytes (digits k n acc)
unfolding digits
digits-IsBytes zero n acc h = h
digits-IsBytes (suc k) n acc h = digits-IsBytes k (n / 256) ((n % 256) ∷ acc) (omega arith, h)

from_bytes_acc-digits :
    (k n : ℕ) (acc : List ℕ)
    → n < 256 ^ k
    → from_bytes_acc 0 (digits k n acc) ≡ from_bytes_acc n acc
unfolding from_bytes_acc digits
from_bytes_acc-digits zero n acc h =
    ap (λ t. from_bytes_acc t acc) (let z : 0 ≡ n = omega arith in z)
from_bytes_acc-digits (suc k) n acc h =
    from_bytes_acc-digits k (n / 256) ((n % 256) ∷ acc) (omega (arith, pow-suc 256 k))
    ∙ ap (λ t. from_bytes_acc t acc) (let z : n / 256 * 256 + n % 256 ≡ n = omega arith in z)

digits-from_bytes_acc :
    (bs : List ℕ) (k a : ℕ) (acc : List ℕ)
    → IsBytes bs
    → digits (length bs + k) (from_bytes_acc a bs) acc ≡ digits k a (bs ++ acc)
unfolding from_bytes_acc digits
digits-from_bytes_acc [] k a acc h = ap (λ t. digits t a acc) (let z : 0 + k ≡ k = omega arith in z)
digits-from_bytes_acc (b ∷ bs) k a acc h =
    ap (λ t. digits t (from_bytes_acc (a * 256 + b) bs) acc)
      (let z : suc (length bs) + k ≡ length bs + suc k = omega arith in z)
    ∙ digits-from_bytes_acc bs (suc k) (a * 256 + b) acc h.1
    ∙ ap₂ (λ s t. digits k s (t ∷ (bs ++ acc)))
        (let z : (a * 256 + b) / 256 ≡ a = omega (arith, h.0) in z)
        (let z : (a * 256 + b) % 256 ≡ b = omega (arith, h.0) in z)

from_bytes_acc-lt :
    (bs : List ℕ) (a m : ℕ) → IsBytes bs → a < m → from_bytes_acc a bs < m * 256 ^ length bs
unfolding from_bytes_acc
from_bytes_acc-lt [] a m h l = omega arith
from_bytes_acc-lt (b ∷ bs) a m h l =
    let step : from_bytes_acc (a * 256 + b) bs < (m * 256) * 256 ^ length bs =
      from_bytes_acc-lt bs (a * 256 + b) (m * 256) h.1 (omega (arith, h.0)) in
    omega (arith, step, ap (λ (t : ℕ). m * t) (pow-suc 256 (length bs)))

-- A number below `256 ^ k` survives `to_bytes` and `from_bytes`.
pub from_bytes-digits : (k n : ℕ) → n < 256 ^ k → from_bytes (digits k n []) ≡ n
unfolding from_bytes
from_bytes-digits k n h = from_bytes_acc-digits k n [] h

-- Bytes survive `from_bytes` and `to_bytes` at their own length.
pub digits-from_bytes : (bs : List ℕ) → IsBytes bs → digits (length bs) (from_bytes bs) [] ≡ bs
unfolding from_bytes digits
digits-from_bytes bs h =
    ap (λ t. digits t (from_bytes bs) []) (sym (add-zero (length bs)))
    ∙ digits-from_bytes_acc bs 0 0 [] h
    ∙ append-nil bs

pub from_bytes-lt : (bs : List ℕ) → IsBytes bs → from_bytes bs < 256 ^ length bs
unfolding from_bytes
from_bytes-lt bs h = omega (arith, from_bytes_acc-lt bs 0 1 h (omega arith))

pub from_bytes-zero_cons : (bs : List ℕ) → from_bytes (0 ∷ bs) ≡ from_bytes bs
unfolding from_bytes
from_bytes-zero_cons bs = refl

pub to_bytes-digits : (k n : ℕ) → n < 256 ^ k → to_bytes k n ≡ ok (digits k n [])
unfolding to_bytes
to_bytes-digits k n h = rw (lt→ltb n (256 ^ k) h)

pub to_bytes_overflow : (k n : ℕ) → 256 ^ k ≤ n → to_bytes k n ≡ err overflow_error
unfolding to_bytes
to_bytes_overflow k n h = rw (ltb-false n (256 ^ k) h)

pub to_bytes-from_bytes : (bs : List ℕ) → IsBytes bs → to_bytes (length bs) (from_bytes bs) ≡ ok bs
to_bytes-from_bytes bs h =
    to_bytes-digits (length bs) (from_bytes bs) (from_bytes-lt bs h)
    ∙ ap ok (digits-from_bytes bs h)

-- `bit_length`: the number is below that power of two, and no smaller power is enough.
bits-lt : (fuel n : ℕ) → n ≤ fuel → n < 2 ^ bits fuel n
unfolding bits
bits-lt zero n h = omega arith
bits-lt (suc fuel) n h = elim (Bool-cases (n == 0)) [
  | inl z ↦ rw (z, bits) (omega (arith, ==_eq n 0 z))
  | inr z ↦
      rw (z, bits)
        (omega (arith, bits-lt fuel (n / 2) (ground arith), pow-suc 2 (bits fuel (n / 2))))
]

bits-le : (fuel n k : ℕ) → n < 2 ^ k → bits fuel n ≤ k
unfolding bits
bits-le zero n k h = omega arith
bits-le (suc fuel) n zero h = ground arith
bits-le (suc fuel) n (suc k) h = elim (Bool-cases (n == 0)) [
  | inl z ↦ rw (z, bits) (omega arith)
  | inr z ↦ rw (z, bits) (omega (arith, bits-le fuel (n / 2) k (omega (arith, pow-suc 2 k))))
]

two_pow-le : (b : ℕ) → 2 ^ b ≤ 256 ^ ((b + 7) / 8)
two_pow-le zero = omega arith
two_pow-le (suc zero) = omega arith
two_pow-le (suc (suc zero)) = omega arith
two_pow-le (suc (suc (suc zero))) = omega arith
two_pow-le (suc (suc (suc (suc zero)))) = omega arith
two_pow-le (suc (suc (suc (suc (suc zero))))) = omega arith
two_pow-le (suc (suc (suc (suc (suc (suc zero)))))) = omega arith
two_pow-le (suc (suc (suc (suc (suc (suc (suc zero))))))) = omega arith
two_pow-le (suc (suc (suc (suc (suc (suc (suc (suc b)))))))) =
    let e : (suc (suc (suc (suc (suc (suc (suc (suc b))))))) + 7) / 8 ≡ suc ((b + 7) / 8) =
      omega arith in
    rw e (simp pow-suc (omega (arith, two_pow-le b)))

-- The byte count `(n.bit_length() + 7) // 8` is enough for `n`.
pub lt-byte_count : (n : ℕ) → n < 256 ^ ((bit_length n + 7) / 8)
unfolding bit_length
lt-byte_count n = omega (arith, bits-lt n n (omega arith), two_pow-le (bits n n))

pub bit_length-le : (n k : ℕ) → n < 2 ^ k → bit_length n ≤ k
unfolding bit_length
bit_length-le n k h = bits-le n n k h

pub bit_length-pos : (n : ℕ) → 0 < n → 0 < bit_length n
unfolding bit_length bits
bit_length-pos zero h = h
bit_length-pos (suc n) h = ground arith
