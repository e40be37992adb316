-- ===== src/Python/Json.antt =====
-- `str(n)` for a number, and `json.dumps` of a flat object of strings and numbers, with Python's
-- default separators and escapes. The text is ASCII, so its `encode()` has the same numbers.
use sip_protocol.Prelude.{
  ℕ, zero, suc, ◌+◌, ◌-◌, ◌/◌, ◌%◌, ◌≡◌, refl, List, [], ◌∷◌, ◌++◌, true, false, ◌&&◌, ltb, leb,
  ◌==◌, if◌then◌else◌, codes,
}
use sip_protocol.Python.Hex.{hex_digit}

unfoldable pub decimal_loop : ℕ → ℕ → List ℕ → List ℕ
decimal_loop zero n acc = acc
decimal_loop (suc fuel) n acc = elim (n / 10 == 0) [
  | true ↦ (48 + n % 10) ∷ acc
  | false ↦ decimal_loop fuel (n / 10) ((48 + n % 10) ∷ acc)
]

-- `str(n)`: a number has fewer digits than itself and one more.
unfoldable pub decimal : ℕ → List ℕ
unfolding decimal_loop
decimal n = decimal_loop (suc n) n []

-- `\uXXXX`
unfoldable pub escape_unit : ℕ → List ℕ
unfolding hex_digit
escape_unit u =
    92
    ∷ 117
    ∷ hex_digit (u / 4096)
    ∷ hex_digit (u / 256 % 16)
    ∷ hex_digit (u / 16 % 16)
    ∷ hex_digit (u % 16)
    ∷ []

unfoldable pub escape_char : ℕ → List ℕ
unfolding escape_unit
escape_char c =
    if c == 34
    then 92 ∷ 34 ∷ []
    else if c == 92
    then 92 ∷ 92 ∷ []
    else if c == 10
    then 92 ∷ b'n' ∷ []
    else if c == 13
    then 92 ∷ b'r' ∷ []
    else if c == 9
    then 92 ∷ b't' ∷ []
    else if c == 12
    then 92 ∷ b'f' ∷ []
    else if c == 8
    then 92 ∷ b'b' ∷ []
    else if leb 32 c && leb c 126
    then c ∷ []
    else if ltb c 0x10000
    then escape_unit c
    else escape_unit (0xD800 + (c - 0x10000) / 1024) ++ escape_unit (0xDC00 + (c - 0x10000) % 1024)

unfoldable pub escape : List ℕ → List ℕ
unfolding escape_char
escape [] = []
escape (c ∷ cs) = escape_char c ++ escape cs

pub data Value : Type 0 where
  text : List ℕ → Value
  number : ℕ → Value

unfoldable pub dump_value : Value → List ℕ
unfolding escape decimal
dump_value (text t) = 34 ∷ (escape t ++ (34 ∷ []))
dump_value (number n) = decimal n

unfoldable pub dump_fields : List (List ℕ × Value) → List ℕ
unfolding dump_value
dump_fields [] = codes "}"
dump_fields ((k, v) ∷ []) = 34 ∷ (escape k ++ (codes "\": " ++ (dump_value v ++ codes "}")))
dump_fields ((k, v) ∷ f ∷ fs) =
    34 ∷ (escape k ++ (codes "\": " ++ (dump_value v ++ (codes ", " ++ dump_fields (f ∷ fs)))))

-- `json.dumps(d)`
unfoldable pub dumps : List (List ℕ × Value) → List ℕ
unfolding dump_fields
dumps fields = b'{' ∷ dump_fields fields

test_dumps :
    dumps ((codes "nonce", text (codes "0a")) ∷ (codes "timestamp", number 120) ∷ [])
    ≡ codes "{\"nonce\": \"0a\", \"timestamp\": 120}"
unfolding dumps
test_dumps = refl
