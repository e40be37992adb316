-- ===== src/Crypto/Sm2/Keys.antt =====
-- The keys of SM2 through their wire formats.
use sip_protocol.Prelude.{
  ℕ, ◌+◌, ◌^◌, ◌<◌, ◌≤◌, ◌≡◌, refl, List, [], ◌∷◌, ◌++◌, true, ok, some, arith, ◌>>=◌, length,
  leb-true, lt→ltb, length-append, take-append, drop-append,
}
use sip_protocol.Python.Bytes.{digits, to_bytes-digits, from_bytes-digits, length-digits}
use sip_protocol.Crypto.Sm2.{
  order, on_curve, make_public_key, public_bytes, from_public_bytes, make_private_key,
  from_private_bytes, private_bytes, generate, generator,
}

test_generator : on_curve generator ≡ true
unfolding on_curve
test_generator = refl

-- A point on the curve, with coordinates of 256 bits, survives `public_bytes` and
-- `from_public_bytes`.
pub from_public_bytes-public_bytes :
    (x y : ℕ)
    → x < 2 ^ 256
    → y < 2 ^ 256
    → on_curve (x, y) ≡ true
    → (do raw ← public_bytes (x, y); from_public_bytes raw) ≡ ok (x, y)
unfolding public_bytes from_public_bytes make_public_key
from_public_bytes-public_bytes x y hx hy curve =
    let xs = digits 32 x [] in
    let ys = digits 32 y [] in
    let lx : length xs ≡ 32 = omega (arith, length-digits 32 x []) in
    let ly : length ys ≡ 32 = omega (arith, length-digits 32 y []) in
    rw (
      to_bytes-digits 32 x hx,
      to_bytes-digits 32 y hy,
      (let e : length (xs ++ ys) + 1 ≡ 65 = omega (arith, length-append xs ys) in e),
      take-append 32 xs ys lx,
      drop-append 32 xs ys lx,
      from_bytes-digits 32 x hx,
      from_bytes-digits 32 y hy,
      curve,
    )

-- A scalar in [1, n) survives `private_bytes` and `from_private_bytes`.
pub from_private_bytes-private_bytes :
    (d : ℕ) → 1 ≤ d → d < order → (do raw ← private_bytes d; from_private_bytes raw) ≡ ok d
unfolding private_bytes from_private_bytes make_private_key
from_private_bytes-private_bytes d pos lt =
    let len : length (digits 32 d []) ≡ 32 = omega (arith, length-digits 32 d []) in
    let big : d < 256 ^ 32 = omega arith in
    rw (
      to_bytes-digits 32 d big,
      len,
      from_bytes-digits 32 d big,
      leb-true 1 d pos,
      lt→ltb d order lt,
    )

-- A generated scalar is in [1, n), whatever is drawn.
pub generate_bounds :
    (draws : List (List ℕ)) (d : ℕ) → generate draws ≡ some d → (1 ≤ d) × (d < order)
unfolding generate
generate_bounds [] d h = absurd (cc)
generate_bounds (draw ∷ draws) d h = ground (arith, generate_bounds draws d)
