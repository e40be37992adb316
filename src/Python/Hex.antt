-- ===== src/Python/Hex.antt =====
-- `bytes.hex` and `bytes.fromhex`.
use sip_protocol.Prelude.{
  ℕ, ◌+◌, ◌-◌, ◌*◌, ◌/◌, ◌%◌, ◌<◌, ◌≡◌, refl, List, [], ◌∷◌, Bool, true, false, ◌&&◌, ◌||◌, Option,
  none, some, Result, ok, err, value_error, ◌>>=◌, arith, ltb, leb, ◌==◌, if◌then◌else◌, length,
}
use sip_protocol.Python.Bytes.{IsBytes}

unfoldable pub hex_digit : ℕ → ℕ
hex_digit d = if ltb d 10 then 48 + d else 87 + d

-- `bs.hex()`
unfoldable pub hex : List ℕ → List ℕ
unfolding hex_digit
hex [] = []
hex (b ∷ bs) = hex_digit (b / 16) ∷ hex_digit (b % 16) ∷ hex bs

unfoldable pub digit_value : ℕ → Option ℕ
digit_value c =
    if leb 48 c && leb c 57
    then some (c - 48)
    else if leb 97 c && leb c 102
    then some (c - 87)
    else if leb 65 c && leb c 70
    then some (c - 55)
    else none

unfoldable pub is_space : ℕ → Bool
is_space c = c == 32 || leb 9 c && leb c 13

unfoldable pub hex_pair : Option ℕ → Option ℕ → Result ℕ
hex_pair none l = err value_error
hex_pair (some h) none = err value_error
hex_pair (some h) (some l) = ok (h * 16 + l)

-- `bytes.fromhex(text)`: white space may stand between bytes.
unfoldable pub fromhex : List ℕ → Result (List ℕ)
unfolding digit_value is_space hex_pair
fromhex [] = ok []
fromhex (c ∷ []) = if is_space c then ok [] else err value_error
fromhex (c ∷ c' ∷ cs) = elim (is_space c) [
  | true ↦ fromhex (c' ∷ cs)
  | false ↦ do b ← hex_pair (digit_value c) (digit_value c'); rest ← fromhex cs; ok (b ∷ rest)
]

digit_value-hex_digit : (d : ℕ) → d < 16 → digit_value (hex_digit d) ≡ some d
unfolding digit_value hex_digit
digit_value-hex_digit d h = ground arith

is_space-hex_digit : (d : ℕ) → d < 16 → is_space (hex_digit d) ≡ false
unfolding is_space hex_digit
is_space-hex_digit d h = ground arith

-- Bytes survive `hex` and `fromhex`.
pub fromhex-hex : (bs : List ℕ) → IsBytes bs → fromhex (hex bs) ≡ ok bs
unfolding fromhex hex hex_pair
fromhex-hex [] h = refl
fromhex-hex (b ∷ bs) h = rw (
  fromhex,
  is_space-hex_digit (b / 16) (omega (arith, h.0)),
  digit_value-hex_digit (b / 16) (omega (arith, h.0)),
  digit_value-hex_digit (b % 16) (omega arith),
  fromhex-hex bs h.1,
  (let e : b / 16 * 16 + b % 16 ≡ b = omega arith in e),
)

pub length-hex : (bs : List ℕ) → length (hex bs) ≡ 2 * length bs
unfolding hex
length-hex [] = omega arith
length-hex (b ∷ bs) = omega (arith, length-hex bs)
