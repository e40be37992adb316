-- ===== src/Crypto/Sm2.antt =====
-- crypto/sm2.py: the curve sm2p256v1 in affine coordinates, and its keys.
pub mod Keys
use sip_protocol.Prelude.{
  ℕ, zero, suc, ◌+◌, ◌-◌, ◌*◌, ◌/◌, ◌%◌, ◌^◌, List, [], ◌∷◌, ◌++◌, Bool, true, false, not, ◌&&◌,
  ◌||◌, Option, none, some, Result, ok, err, value_error, ◌>>=◌, ◌>>◌, guard, length, take, drop,
  ltb, leb, ◌==◌, if◌then◌else◌,
}
use sip_protocol.Python.Bytes.{from_bytes, to_bytes, bit_length}

abbrev pub prime : ℕ
prime = 0xFFFFFFFEFFFFFFFFFFFFFFFFFFFFFFFFFFFFFFFF00000000FFFFFFFFFFFFFFFF

abbrev pub curve_a : ℕ
curve_a = 0xFFFFFFFEFFFFFFFFFFFFFFFFFFFFFFFFFFFFFFFF00000000FFFFFFFFFFFFFFFC

abbrev pub curve_b : ℕ
curve_b = 0x28E9FA9E9D9F5E344D5A9E4BCF6509A7F39789F515AB8F92DDBCBD414D940E93

abbrev pub order : ℕ
order = 0xFFFFFFFEFFFFFFFFFFFFFFFFFFFFFFFF7203DF6B21C6052B53BBF40939D54123

abbrev pub Point : Type 0
Point = ℕ × ℕ

abbrev pub generator : Point
generator = (
  0x32C4AE2C1F1981195F9904466A39C9948FE30BBFF2660BE1715A4589334C74C7,
  0xBC3736A2F4F6779C59BDCEE36B692153D0A9877CC62A474002DF32E52139F0A0,
)

abbrev pub public_key_length : ℕ
public_key_length = 65

abbrev pub private_key_length : ℕ
private_key_length = 32

-- `(a - b) % _P`, which Python keeps at 0 or above
unfoldable pub sub_mod : ℕ → ℕ → ℕ
sub_mod a b = (a % prime + prime - b % prime) % prime

unfoldable pub pow_mod : ℕ → ℕ → ℕ → ℕ → ℕ
pow_mod zero base e acc = acc
pow_mod (suc fuel) base e acc =
    pow_mod fuel (base * base % prime) (e / 2) (if e % 2 == 0 then acc else acc * base % prime)

-- `pow(a, -1, _P)`: ValueError where `a` is 0 modulo the prime, else the power `_P - 2`.
unfoldable pub inverse_mod : ℕ → Result ℕ
unfolding pow_mod
inverse_mod a =
    if a % prime == 0 then err value_error else ok (pow_mod 256 (a % prime) (prime - 2) 1)

-- `_on_curve`
unfoldable pub on_curve : Point → Bool
unfolding sub_mod
on_curve (x, y) = sub_mod (y * y) (x ^ 3 + curve_a * x + curve_b) == 0

-- the end of `_point_add`, from the slope
unfoldable pub add_slope : ℕ → Point → Point → Option Point
unfolding sub_mod
add_slope slope (x1, y1) (x2, y2) =
    let x3 = sub_mod (slope * slope) (x1 + x2) in some (x3, sub_mod (slope * sub_mod x1 x3) y1)

-- `_point_add`; `none` is the point at infinity
unfoldable pub point_add : Option Point → Option Point → Result (Option Point)
unfolding add_slope inverse_mod
point_add none q = ok q
point_add (some p) none = ok (some p)
point_add (some (x1, y1)) (some (x2, y2)) =
    if x1 == x2
    then if (y1 + y2) % prime == 0 then ok none else (do
      inverse ← inverse_mod (2 * y1)
      ok (add_slope ((3 * x1 * x1 + curve_a) * inverse % prime) (x1, y1) (x2, y2)))
    else (do
      inverse ← inverse_mod (sub_mod x2 x1)
      ok (add_slope (sub_mod y2 y1 * inverse % prime) (x1, y1) (x2, y2)))

-- the loop of `_scalar_mult`; it halves `k`, so the bit length of `k` is enough fuel
unfoldable pub scalar_mult_loop : ℕ → ℕ → Option Point → Option Point → Result (Option Point)
unfolding point_add
scalar_mult_loop zero k result addend = ok result
scalar_mult_loop (suc fuel) k result addend = elim (k == 0) [
  | true ↦ ok result
  | false ↦ do
    result' ← (if k % 2 == 1 then point_add result addend else ok result)
    addend' ← point_add addend addend
    scalar_mult_loop fuel (k / 2) result' addend'
]

unfoldable pub scalar_mult : ℕ → Point → Result (Option Point)
unfolding scalar_mult_loop
scalar_mult k p = scalar_mult_loop (bit_length k) k none (some p)

-- `SM2PublicKey(point)`: the key is its point.
unfoldable pub make_public_key : Point → Result Point
unfolding on_curve
make_public_key point = if on_curve point then ok point else err value_error

-- `SM2PublicKey.public_bytes`
unfoldable pub public_bytes : Point → Result (List ℕ)
public_bytes (x, y) = do xs ← to_bytes 32 x; ys ← to_bytes 32 y; ok (0x04 ∷ (xs ++ ys))

-- `SM2PublicKey.from_public_bytes`
unfoldable pub from_public_bytes : List ℕ → Result Point
unfolding make_public_key
from_public_bytes [] = err value_error
from_public_bytes (b ∷ rest) =
    if length rest + 1 == public_key_length && b == 0x04
    then make_public_key (from_bytes (take 32 rest), from_bytes (drop 32 rest))
    else err value_error

-- `SM2PrivateKey(scalar)`: the key is its scalar.
unfoldable pub make_private_key : ℕ → Result ℕ
make_private_key d = if leb 1 d && ltb d order then ok d else err value_error

-- `SM2PrivateKey.from_private_bytes`
unfoldable pub from_private_bytes : List ℕ → Result ℕ
unfolding make_private_key
from_private_bytes bs =
    if length bs == private_key_length then make_private_key (from_bytes bs) else err value_error

-- `SM2PrivateKey.private_bytes`
unfoldable pub private_bytes : ℕ → Result (List ℕ)
private_bytes d = to_bytes private_key_length d

-- `SM2PrivateKey.generate` over the draws of `os.urandom`: the first scalar in range; `none` if
-- the draws end before one is.
unfoldable pub generate : List (List ℕ) → Option ℕ
generate [] = none
generate (draw ∷ draws) =
    let rest = generate draws in
    let d = from_bytes draw in if leb 1 d && ltb d order then some d else rest

-- a result that must not be the point at infinity
unfoldable pub finite : Option Point → Result Point
finite none = err value_error
finite (some p) = ok p

-- `SM2PrivateKey.public_key`
unfoldable pub public_key : ℕ → Result Point
unfolding finite make_public_key
public_key d = do p ← scalar_mult d generator; q ← finite p; make_public_key q

-- `SM2PrivateKey.exchange`
unfoldable pub exchange : ℕ → Point → Result (List ℕ)
unfolding finite
exchange d peer = do p ← scalar_mult d peer; q ← finite p; to_bytes 32 q.0

-- `SM2PrivateKey.exchange_point`
unfoldable pub exchange_point : ℕ → Point → Result (List ℕ)
unfolding finite
exchange_point d peer = do
  p ← scalar_mult d peer
  q ← finite p
  xs ← to_bytes 32 q.0
  ys ← to_bytes 32 q.1
  ok (xs ++ ys)
