-- ===== src/Python/Utf8.antt =====
-- `str.encode()` and `bytes.decode()`: UTF-8, strict.
use mathlib.Core.Path.{subst}
use sip_protocol.Python.Bytes.{IsByte, IsBytes}
use sip_protocol.Prelude.{
  All-append, unbind, ok-injective, ℕ, zero, suc, ◌+◌, ◌-◌, ◌*◌, ◌/◌, ◌%◌, ◌<◌, ◌≡◌, refl, ap, ◌∙◌,
  ltb→lt, List, [], ◌∷◌, ◌++◌, Bool, true, false, ◌&&◌, not, Option, none, some, Result, ok, err,
  value_error, ◌>>=◌, arith, ltb, leb, if◌then◌else◌, All, Bool-cases, inl, inr, Option-cases, ◌≤◌,
}
use sip_protocol.Python.Bytes.{IsByte, IsBytes}

unfoldable pub is_surrogate : ℕ → Bool
is_surrogate c = leb 0xD800 c && leb c 0xDFFF

-- A code point that can be encoded.
pub record IsScalar (c : ℕ) : Type 0 where
  pub below : c < 0x110000
  pub no_surrogate : is_surrogate c ≡ false

abbrev pub IsText : List ℕ → Type 0
IsText cs = All IsScalar cs

unfoldable pub encode_char : ℕ → List ℕ
encode_char c =
    if ltb c 0x80
    then c ∷ []
    else if ltb c 0x800
    then (0xC0 + c / 64) ∷ (0x80 + c % 64) ∷ []
    else if ltb c 0x10000
    then (0xE0 + c / 4096) ∷ (0x80 + c / 64 % 64) ∷ (0x80 + c % 64) ∷ []
    else (0xF0 + c / 262144) ∷ (0x80 + c / 4096 % 64) ∷ (0x80 + c / 64 % 64) ∷ (0x80 + c % 64) ∷ []

-- `text.encode()`; a surrogate raises UnicodeEncodeError, which is a ValueError.
unfoldable pub encode : List ℕ → Result (List ℕ)
unfolding encode_char is_surrogate
encode [] = ok []
encode (c ∷ cs) = do
  rest ← encode cs
  if is_surrogate c then err value_error else ok (encode_char c ++ rest)

unfoldable pub is_tail : ℕ → Bool
is_tail b = leb 0x80 b && ltb b 0xC0

unfoldable pub with_char : ℕ → Result (List ℕ) → Result (List ℕ)
with_char c rest = do cs ← rest; ok (c ∷ cs)

-- The bytes that a first byte asks for, the bits that it brings, and the least code point that may
-- be written with so many bytes.
unfoldable pub start_char : ℕ → Option (ℕ × ℕ × ℕ)
start_char b =
    if ltb b 0x80
    then some (0, b, 0)
    else if leb 0xC0 b && ltb b 0xE0
    then some (1, b - 0xC0, 0x80)
    else if leb 0xE0 b && ltb b 0xF0
    then some (2, b - 0xE0, 0x800)
    else if leb 0xF0 b && ltb b 0xF8
    then some (3, b - 0xF0, 0x10000)
    else none

unfoldable pub is_valid_char : ℕ → ℕ → Bool
unfolding is_surrogate
is_valid_char c low = leb low c && (ltb c 0x110000 && not (is_surrogate c))

-- The characters that a byte string stands for: `need` more bytes belong to the current one.
unfoldable pub decode_loop : ℕ → ℕ → ℕ → List ℕ → Result (List ℕ)
unfolding is_tail start_char
decode_loop zero c low [] = if is_valid_char c low then ok (c ∷ []) else err value_error
decode_loop (suc need) c low [] = err value_error
decode_loop zero c low (b ∷ bs) = elim (start_char b) [
  | none ↦ err value_error
  | some s ↦
      let rest = decode_loop s.0 s.1 s.2 bs in
      if is_valid_char c low then with_char c rest else err value_error
]
decode_loop (suc need) c low (b ∷ bs) = elim (is_tail b) [
  | true ↦ decode_loop need (c * 64 + (b - 0x80)) low bs
  | false ↦ err value_error
]

-- `raw.decode()`, strict; a malformed sequence raises UnicodeDecodeError, which is a ValueError.
unfoldable pub decode : List ℕ → Result (List ℕ)
unfolding decode_loop
decode [] = ok []
decode (b ∷ bs) = elim (start_char b) [
  | none ↦ err value_error
  | some s ↦ decode_loop s.0 s.1 s.2 bs
]

valid : (c low : ℕ) → IsScalar c → low ≤ c → is_valid_char c low ≡ true
unfolding is_valid_char
valid c low h le = ground (arith, h.below, h.no_surrogate)

tail_byte : (v : ℕ) → v < 64 → is_tail (0x80 + v) ≡ true
unfolding is_tail
tail_byte v h = ground arith

decode-eq :
    (b : ℕ) (bs : List ℕ) {s : ℕ × ℕ × ℕ}
    → start_char b ≡ some s
    → decode (b ∷ bs) ≡ decode_loop s.0 s.1 s.2 bs
unfolding decode
decode-eq b bs e = rw (e, decode)

decode_loop-tail :
    (need c low v : ℕ) (bs : List ℕ)
    → v < 64
    → decode_loop (suc need) c low ((0x80 + v) ∷ bs) ≡ decode_loop need (c * 64 + v) low bs
unfolding decode_loop
decode_loop-tail need c low v bs h =
    rw (decode_loop, tail_byte v h, (let e : 0x80 + v - 0x80 ≡ v = omega arith in e))

-- What is left of a text after its first character has been gathered.
decode_loop-next :
    (c low : ℕ) (bs cs : List ℕ)
    → IsScalar c
    → low ≤ c
    → decode bs ≡ ok cs
    → decode_loop 0 c low bs ≡ ok (c ∷ cs)
unfolding decode decode_loop with_char
decode_loop-next c low [] cs h le e = rw (valid c low h le) (ground arith)
decode_loop-next c low (b ∷ bs) cs h le e = elim (Option-cases (start_char b)) [
  | inl bad ↦ absurd (cc (rw (bad, decode) at e))
  | inr (s, good) ↦ rw (decode_loop, good, valid c low h le, (rw (good, decode) at e))
]

start_two : (v : ℕ) → v < 32 → start_char (0xC0 + v) ≡ some (1, v, 0x80)
unfolding start_char
start_two v h = ground arith

start_three : (v : ℕ) → v < 16 → start_char (0xE0 + v) ≡ some (2, v, 0x800)
unfolding start_char
start_three v h = ground arith

start_four : (v : ℕ) → v < 8 → start_char (0xF0 + v) ≡ some (3, v, 0x10000)
unfolding start_char
start_four v h = ground arith

start_one : (c : ℕ) → c < 0x80 → start_char c ≡ some (0, c, 0)
unfolding start_char
start_one c h = ground arith

module _ (c : ℕ) (bs cs : List ℕ) (h : IsScalar c) (e : decode bs ≡ ok cs) where
  decode_one : c < 0x80 → decode (c ∷ bs) ≡ ok (c ∷ cs)
  decode_one l = decode-eq c bs (start_one c l) ∙ decode_loop-next c 0 bs cs h (omega arith) e

  decode_two : 0x80 ≤ c → c < 0x800 → decode ((0xC0 + c / 64) ∷ (0x80 + c % 64) ∷ bs) ≡ ok (c ∷ cs)
  decode_two l u =
      decode-eq (0xC0 + c / 64) _ (start_two (c / 64) (omega arith))
      ∙ decode_loop-tail 0 (c / 64) 0x80 (c % 64) bs (omega arith)
      ∙ ap (λ t. decode_loop 0 t 0x80 bs) (let z : c / 64 * 64 + c % 64 ≡ c = omega arith in z)
      ∙ decode_loop-next c 0x80 bs cs h l e

  decode_three :
      0x800 ≤ c
      → c < 0x10000
      → decode ((0xE0 + c / 4096) ∷ (0x80 + c / 64 % 64) ∷ (0x80 + c % 64) ∷ bs) ≡ ok (c ∷ cs)
  decode_three l u =
      decode-eq (0xE0 + c / 4096) _ (start_three (c / 4096) (omega arith))
      ∙ decode_loop-tail 1 (c / 4096) 0x800 (c / 64 % 64) _ (omega arith)
      ∙ decode_loop-tail 0 (c / 4096 * 64 + c / 64 % 64) 0x800 (c % 64) bs (omega arith)
      ∙ ap (λ t. decode_loop 0 t 0x800 bs)
          (let z : (c / 4096 * 64 + c / 64 % 64) * 64 + c % 64 ≡ c = omega arith in z)
      ∙ decode_loop-next c 0x800 bs cs h l e

  decode_four :
      0x10000 ≤ c
      → decode (
          (0xF0 + c / 262144)
          ∷ (0x80 + c / 4096 % 64)
          ∷ (0x80 + c / 64 % 64)
          ∷ (0x80 + c % 64)
          ∷ bs)
        ≡ ok (c ∷ cs)
  decode_four l =
      decode-eq (0xF0 + c / 262144) _ (start_four (c / 262144) (omega (arith, h.below)))
      ∙ decode_loop-tail 2 (c / 262144) 0x10000 (c / 4096 % 64) _ (omega arith)
      ∙ decode_loop-tail 1 (c / 262144 * 64 + c / 4096 % 64) 0x10000 (c / 64 % 64) _ (omega arith)
      ∙ decode_loop-tail 0 ((c / 262144 * 64 + c / 4096 % 64) * 64 + c / 64 % 64) 0x10000 (c % 64)
          bs (omega arith)
      ∙ ap (λ t. decode_loop 0 t 0x10000 bs)
          (let z : ((c / 262144 * 64 + c / 4096 % 64) * 64 + c / 64 % 64) * 64 + c % 64 ≡ c =
              omega arith in
            z)
      ∙ decode_loop-next c 0x10000 bs cs h l e

  decode-char : decode (encode_char c ++ bs) ≡ ok (c ∷ cs)
  unfolding encode_char
  decode-char = elim (Bool-cases (ltb c 0x80)) [
    | inl a ↦ rw a (decode_one (ltb→lt c 0x80 a))
    | inr a ↦ rw a (elim (Bool-cases (ltb c 0x800)) [
      | inl b ↦ rw b (decode_two (ground arith) (ltb→lt c 0x800 b))
      | inr b ↦ rw b (elim (Bool-cases (ltb c 0x10000)) [
        | inl d ↦ rw d (decode_three (ground arith) (ltb→lt c 0x10000 d))
        | inr d ↦ rw d (decode_four (ground arith))
      ])
    ])
  ]

-- A text of scalar values is encoded, and decoded to itself.
pub decode-encode :
    (cs : List ℕ) → IsText cs → (bs : List ℕ) × (encode cs ≡ ok bs) × (decode bs ≡ ok cs)
unfolding encode
decode-encode [] h = ([], refl, unfold decode in refl)
decode-encode (c ∷ cs) h =
    let (bs, e, d) = decode-encode cs h.1 in
    (encode_char c ++ bs, rw (e, h.0.no_surrogate), decode-char c bs cs h.0 d)

encode_char-IsBytes : (c : ℕ) → c < 0x110000 → IsBytes (encode_char c)
unfolding encode_char
encode_char-IsBytes c h = ground arith

-- Encoding a text gives bytes.
pub encode-IsBytes : (cs bs : List ℕ) → IsText cs → encode cs ≡ ok bs → IsBytes bs
unfolding encode
encode-IsBytes [] bs h e = subst IsBytes (ok-injective e) tt
encode-IsBytes (c ∷ cs) bs h e = unbind (encode cs) e λ rest er e1.
    subst IsBytes (ok-injective (rw h.0.no_surrogate at e1)) (
      All-append IsByte (encode_char c) rest (encode_char-IsBytes c h.0.below)
        (encode-IsBytes cs rest h.1 er))
