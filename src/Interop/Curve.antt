-- ===== src/Interop/Curve.antt =====
-- reference_impl.py: the curve of SM2 in Jacobian coordinates, multiplied from the highest bit on.
use sip_protocol.Prelude.{
  ℕ, zero, suc, ◌+◌, ◌*◌, ◌/◌, ◌%◌, ◌^◌, List, [], ◌∷◌, ◌++◌, Bool, ◌&&◌, Option, none, some,
  Result, ok, err, ◌>>=◌, ◌>>◌, guard, require, value_error, assertion_error, length, take, drop,
  leb, ltb, ◌==◌, if◌then◌else◌,
}
use sip_protocol.Python.Bytes.{from_bytes, to_bytes, bit_length}
use sip_protocol.Crypto.Primitives.{Bytes}
use sip_protocol.Crypto.Sm2.{prime, curve_a, curve_b, order, generator, Point, sub_mod, inverse_mod}

-- `(X, Y, Z)` for the point `(X/Z², Y/Z³)`
abbrev pub Jacobian : Type 0
Jacobian = ℕ × ℕ × ℕ

-- `_jac_double`; `none` is the point at infinity
unfoldable pub jac_double : Option Jacobian → Option Jacobian
unfolding sub_mod
jac_double none = none
jac_double (some (x1, y1, z1)) =
    let yy = y1 * y1 % prime in
    let s = 4 * x1 * yy % prime in
    let m = (3 * x1 * x1 + curve_a * (z1 ^ 4 % prime)) % prime in
    let x3 = sub_mod (m * m) (2 * s) in
    if y1 == 0
    then none
    else some (x3, sub_mod (m * sub_mod s x3) (8 * yy * yy), 2 * y1 * z1 % prime)

-- `_jac_add` of two points with different x-coordinates
unfoldable pub add_distinct : Jacobian → Jacobian → ℕ → ℕ → ℕ → ℕ → Jacobian
unfolding sub_mod
add_distinct (x1, y1, z1) (x2, y2, z2) u1 u2 s1 s2 =
    let h = sub_mod u2 u1 in
    let i = 4 * h * h % prime in
    let j = h * i % prime in
    let r = 2 * sub_mod s2 s1 % prime in
    let v = u1 * i % prime in
    let x3 = sub_mod (r * r) (j + 2 * v) in
    (x3, sub_mod (r * sub_mod v x3) (2 * s1 * j), 2 * h * z1 * z2 % prime)

-- `_jac_add`
unfoldable pub jac_add : Option Jacobian → Option Jacobian → Option Jacobian
unfolding jac_double add_distinct
jac_add none q = q
jac_add (some p) none = some p
jac_add (some (x1, y1, z1)) (some (x2, y2, z2)) =
    let z1z1 = z1 * z1 % prime in
    let z2z2 = z2 * z2 % prime in
    let u1 = x1 * z2z2 % prime in
    let u2 = x2 * z1z1 % prime in
    let s1 = y1 * z2 * z2z2 % prime in
    let s2 = y2 * z1 * z1z1 % prime in
    if u1 == u2
    then if s1 == s2 then jac_double (some (x1, y1, z1)) else none
    else some (add_distinct (x1, y1, z1) (x2, y2, z2) u1 u2 s1 s2)

-- `_jac_to_affine`
unfoldable pub jac_to_affine : Option Jacobian → Result (Option Point)
unfolding inverse_mod
jac_to_affine none = ok none
jac_to_affine (some (x, y, z)) = if z == 0 then ok none else (do
  z_inv ← inverse_mod z
  ok (some (x * z_inv * z_inv % prime, y * (z_inv ^ 3 % prime) % prime)))

-- `bin(k)[2:]`, the highest bit first
unfoldable pub binary : ℕ → ℕ → List Bool → List Bool
binary zero k bits = bits
binary (suc fuel) k bits = binary fuel (k / 2) ((k % 2 == 1) ∷ bits)

unfoldable pub mult_bits : List Bool → Option Jacobian → Option Jacobian → Option Jacobian
unfolding jac_add
mult_bits [] addend result = result
mult_bits (bit ∷ bits) addend result =
    let doubled = jac_double result in
    mult_bits bits addend (if bit then jac_add doubled addend else doubled)

-- `_sm2_scalar_mult`
unfoldable pub sm2_scalar_mult : ℕ → Point → Result (Option Point)
unfolding binary mult_bits jac_to_affine
sm2_scalar_mult k (x, y) =
    jac_to_affine (mult_bits (binary (bit_length k) k []) (some (x, y, 1)) none)

-- `_sm2_on_curve`
unfoldable pub sm2_on_curve : Point → Bool
unfolding sub_mod
sm2_on_curve (x, y) = sub_mod (y * y) (x * x * x + curve_a * x + curve_b) == 0

-- `b"\x04" + x.to_bytes(32, "big") + y.to_bytes(32, "big")`
unfoldable pub point_bytes : Point → Result Bytes
point_bytes (x, y) = do xs ← to_bytes 32 x; ys ← to_bytes 32 y; ok (0x04 ∷ (xs ++ ys))

-- `sm2_pub_of`
unfoldable pub sm2_pub_of : Bytes → Result Bytes
unfolding sm2_scalar_mult point_bytes
sm2_pub_of private = do
  found ← sm2_scalar_mult (from_bytes private) generator
  point ← require found assertion_error
  point_bytes point

-- the first draw that is a scalar of the curve
unfoldable pub draw_scalar : List Bytes → Option ℕ
draw_scalar [] = none
draw_scalar (draw ∷ draws) =
    let scalar = from_bytes draw in
    let rest = draw_scalar draws in if leb 1 scalar && ltb scalar order then some scalar else rest

-- the checks of `sm2_dh` on the peer's key
unfoldable pub read_point : Bytes → Result Point
unfolding sm2_on_curve
read_point [] = err value_error
read_point (b ∷ rest) = do
  guard ((length rest + 1 == 65) && (b == 0x04)) value_error
  let point : Point = (from_bytes (take 32 rest), from_bytes (take 32 (drop 32 rest)))
  guard (sm2_on_curve point) value_error
  ok point

-- `sm2_dh`
unfoldable pub sm2_dh : Bytes → Bytes → Result Bytes
unfolding read_point sm2_scalar_mult
sm2_dh private peer = do
  point ← read_point peer
  found ← sm2_scalar_mult (from_bytes private) point
  shared ← require found value_error
  to_bytes 32 shared.0
