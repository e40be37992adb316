-- ===== src/Python/Base64.antt =====
-- `base64.b64encode` and `base64.b64decode` (not validating, as the program calls it).
use sip_protocol.Prelude.{
  ℕ, zero, suc, ◌+◌, ◌-◌, ◌*◌, ◌/◌, ◌%◌, ◌<◌, ◌≡◌, refl, List, [], ◌∷◌, Bool, true, false, ◌&&◌,
  Option, none, some, Result, ok, err, value_error, ◌>>=◌, arith, ltb, leb, ◌==◌, if◌then◌else◌,
}
use sip_protocol.Python.Bytes.{IsBytes}

-- the character of a value below 64: A-Z, a-z, 0-9, + and /
unfoldable pub b64_char : ℕ → ℕ
b64_char v =
    if ltb v 26
    then 65 + v
    else if ltb v 52
    then 71 + v
    else if ltb v 62
    then v - 4
    else if v == 62
    then 43
    else 47

unfoldable pub b64_value : ℕ → Option ℕ
b64_value c =
    if leb 65 c && leb c 90
    then some (c - 65)
    else if leb 97 c && leb c 122
    then some (c - 71)
    else if leb 48 c && leb c 57
    then some (c + 4)
    else if c == 43
    then some 62
    else if c == 47
    then some 63
    else none

unfoldable pub b64encode : List ℕ → List ℕ
unfolding b64_char
b64encode [] = []
b64encode (a ∷ []) = b64_char (a / 4) ∷ b64_char (a % 4 * 16) ∷ 61 ∷ 61 ∷ []
b64encode (a ∷ b ∷ []) =
    b64_char (a / 4) ∷ b64_char (a % 4 * 16 + b / 16) ∷ b64_char (b % 16 * 4) ∷ 61 ∷ []
b64encode (a ∷ b ∷ c ∷ bs) =
    b64_char (a / 4)
    ∷ b64_char (a % 4 * 16 + b / 16)
    ∷ b64_char (b % 16 * 4 + c / 64)
    ∷ b64_char (c % 64)
    ∷ b64encode bs

-- One character of data, as `binascii.a2b_base64` takes it: the byte that it completes, the next
-- position in the group of four, and the bits that are left over.
unfoldable pub take_bits : ℕ → ℕ → ℕ → Option ℕ × ℕ × ℕ
take_bits zero left v = (none, 1, v)
take_bits (suc zero) left v = (some (left * 4 + v / 16), 2, v % 16)
take_bits (suc (suc zero)) left v = (some (left * 16 + v / 4), 3, v % 4)
take_bits (suc (suc (suc q))) left v = (some (left * 64 + v), 0, 0)

unfoldable pub put_byte : Option ℕ → Result (List ℕ) → Result (List ℕ)
put_byte none rest = rest
put_byte (some b) rest = do bs ← rest; ok (b ∷ bs)

-- The loop of `binascii.a2b_base64`: other characters are passed over, and enough padding ends it.
unfoldable pub b64_loop : ℕ → ℕ → ℕ → List ℕ → Result (List ℕ)
unfolding b64_value take_bits put_byte
b64_loop q left pads [] = if q == 0 then ok [] else err value_error
b64_loop q left pads (c ∷ cs) = elim (c == 61) [
  | true ↦ elim (leb 2 q && leb 4 (q + (pads + 1))) [
    | true ↦ ok []
    | false ↦ b64_loop q left (if leb 2 q then pads + 1 else pads) cs
  ]
  | false ↦ elim (b64_value c) [
    | none ↦ b64_loop q left pads cs
    | some v ↦
        put_byte (take_bits q left v).0
          (b64_loop (take_bits q left v).1 (take_bits q left v).2 0 cs)
  ]
]

unfoldable pub is_ascii : List ℕ → Bool
is_ascii [] = true
is_ascii (c ∷ cs) = ltb c 128 && is_ascii cs

-- `base64.b64decode(text)`; a text that is not ASCII raises ValueError.
unfoldable pub b64decode : List ℕ → Result (List ℕ)
unfolding b64_loop is_ascii
b64decode text = if is_ascii text then b64_loop 0 0 0 text else err value_error

b64_value-char : (v : ℕ) → v < 64 → b64_value (b64_char v) ≡ some v
unfolding b64_value b64_char
b64_value-char v h = ground arith

char_is_data : (v : ℕ) → v < 64 → (b64_char v == 61) ≡ false
unfolding b64_char
char_is_data v h = ground arith

char-lt : (v : ℕ) → v < 64 → ltb (b64_char v) 128 ≡ true
unfolding b64_char
char-lt v h = ground arith

-- A character of data in the loop.
loop_char :
    (q left pads v : ℕ) (cs : List ℕ)
    → v < 64
    → b64_loop q left pads (b64_char v ∷ cs)
      ≡ put_byte
          (take_bits q left v).0
          (b64_loop (take_bits q left v).1 (take_bits q left v).2 0 cs)
unfolding b64_loop
loop_char q left pads v cs h = rw (b64_loop, char_is_data v h, b64_value-char v h)

loop-encode : (pads : ℕ) (bs : List ℕ) → IsBytes bs → b64_loop 0 0 pads (b64encode bs) ≡ ok bs
unfolding b64encode b64_loop
loop-encode pads [] h = refl
loop-encode pads (a ∷ []) h = rw (
  loop_char 0 0 pads (a / 4) _ (omega (arith, h.0)),
  loop_char 1 (a / 4) 0 (a % 4 * 16) _ (omega arith),
  (let e : a / 4 * 4 + a % 4 * 16 / 16 ≡ a = omega arith in e),
)
loop-encode pads (a ∷ b ∷ []) h = rw (
  loop_char 0 0 pads (a / 4) _ (omega (arith, h.0)),
  loop_char 1 (a / 4) 0 (a % 4 * 16 + b / 16) _ (omega (arith, h.1.0)),
  loop_char 2 ((a % 4 * 16 + b / 16) % 16) 0 (b % 16 * 4) _ (omega arith),
  (let e : a / 4 * 4 + (a % 4 * 16 + b / 16) / 16 ≡ a = omega (arith, h.1.0) in e),
  (let e : (a % 4 * 16 + b / 16) % 16 * 16 + b % 16 * 4 / 4 ≡ b = omega (arith, h.1.0) in e),
)
loop-encode pads (a ∷ b ∷ c ∷ bs) h = rw (
  loop_char 0 0 pads (a / 4) _ (omega (arith, h.0)),
  loop_char 1 (a / 4) 0 (a % 4 * 16 + b / 16) _ (omega (arith, h.1.0)),
  loop_char 2 ((a % 4 * 16 + b / 16) % 16) 0 (b % 16 * 4 + c / 64) _ (omega (arith, h.1.1.0)),
  loop_char 3 ((b % 16 * 4 + c / 64) % 4) 0 (c % 64) _ (omega arith),
  loop-encode 0 bs h.1.1.1,
  (let e : a / 4 * 4 + (a % 4 * 16 + b / 16) / 16 ≡ a = omega (arith, h.1.0) in e),
  (let e : (a % 4 * 16 + b / 16) % 16 * 16 + (b % 16 * 4 + c / 64) / 4 ≡ b =
        omega (arith, h.1.0, h.1.1.0) in
      e),
  (let e : (b % 16 * 4 + c / 64) % 4 * 64 + c % 64 ≡ c = omega (arith, h.1.1.0) in e),
)

is_ascii-encode : (bs : List ℕ) → IsBytes bs → is_ascii (b64encode bs) ≡ true
unfolding b64encode is_ascii
is_ascii-encode [] h = refl
is_ascii-encode (a ∷ []) h =
    rw (char-lt (a / 4) (omega (arith, h.0)), char-lt (a % 4 * 16) (omega arith))
is_ascii-encode (a ∷ b ∷ []) h = rw (
  char-lt (a / 4) (omega (arith, h.0)),
  char-lt (a % 4 * 16 + b / 16) (omega (arith, h.1.0)),
  char-lt (b % 16 * 4) (omega arith),
)
is_ascii-encode (a ∷ b ∷ c ∷ bs) h = rw (
  char-lt (a / 4) (omega (arith, h.0)),
  char-lt (a % 4 * 16 + b / 16) (omega (arith, h.1.0)),
  char-lt (b % 16 * 4 + c / 64) (omega (arith, h.1.1.0)),
  char-lt (c % 64) (omega arith),
  is_ascii-encode bs h.1.1.1,
)

-- Bytes survive `b64encode` and `b64decode`.
pub b64decode-b64encode : (bs : List ℕ) → IsBytes bs → b64decode (b64encode bs) ≡ ok bs
unfolding b64decode
b64decode-b64encode bs h = rw (is_ascii-encode bs h) (loop-encode 0 bs h)
