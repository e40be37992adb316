-- ===== src/Tools/Input/Base64.antt =====
-- The tools' decoding of the texts that they print.
use sip_protocol.Prelude.{
  ℕ, ◌+◌, ◌*◌, ◌/◌, ◌%◌, ◌<◌, ◌≤◌, ◌≡◌, refl, ap, ◌∙◌, List, [], ◌∷◌, ◌++◌, map, Bool, true, false,
  Bool-cases, inl, inr, ok, err, value_error, length, if◌then◌else◌, ◌==◌, ◌||◌, ◌&&◌, arith,
}
use sip_protocol.Python.Base64.{b64_char, b64_value, b64encode, b64decode-b64encode}
use sip_protocol.Python.Bytes.{IsBytes}
use sip_protocol.Python.Hex.{hex, hex_digit, fromhex-hex}
use sip_protocol.Tools.Input.{
  is_split_space, remove_spaces, starts_0x, to_standard, is_data, is_strict, decode_b64, strip_0x,
  decode_hex,
}

visible : (c : ℕ) → 33 ≤ c → c < 128 → is_split_space c ≡ false
unfolding is_split_space
visible c l h = ground (arith, l, h)

char-bounds : (v : ℕ) → v < 64 → (33 ≤ b64_char v) × (b64_char v < 128)
unfolding b64_char
char-bounds v h = (ground (arith, h), ground (arith, h))

char-standard : (v : ℕ) → v < 64 → to_standard (b64_char v) ≡ b64_char v
unfolding b64_char to_standard
char-standard v h = ground (arith, h)

char-data : (v : ℕ) → v < 64 → is_data (b64_value (b64_char v)) ≡ true
unfolding b64_char b64_value is_data
char-data v h = ground (arith, h)

char-kept :
    (v : ℕ) (cs : List ℕ) → v < 64 → remove_spaces (b64_char v ∷ cs) ≡ b64_char v ∷ remove_spaces cs
unfolding remove_spaces
char-kept v cs h = let (l, u) = char-bounds v h in rw (visible (b64_char v) l u) refl

char-strict : (v : ℕ) (cs : List ℕ) → v < 64 → is_strict (b64_char v ∷ cs) ≡ is_strict cs
unfolding is_strict
char-strict v cs h = rw (char-data v h) refl

-- the values of the characters of one to three bytes
bounds_of :
    (a b c : ℕ)
    → a < 256
    → b < 256
    → (a / 4 < 64)
      × (a % 4 * 16 < 64)
      × (a % 4 * 16 + b / 16 < 64)
      × (b % 16 * 4 < 64)
      × (b % 16 * 4 + c / 64 % 4 < 64)
      × (c % 64 < 64)
bounds_of a b c ha hb =
    (omega (arith, ha), omega arith, omega (arith, hb), omega arith, omega arith, omega arith)

third : (b c : ℕ) → c < 256 → b % 16 * 4 + c / 64 < 64
third b c hc = omega (arith, hc)

remove_spaces-b64encode : (bs : List ℕ) → IsBytes bs → remove_spaces (b64encode bs) ≡ b64encode bs
unfolding b64encode remove_spaces is_split_space
remove_spaces-b64encode [] h = refl
remove_spaces-b64encode (a ∷ []) (ha, h) =
    let k = bounds_of a 0 0 ha (omega arith) in
    rw
      (
        char-kept (a / 4) (b64_char (a % 4 * 16) ∷ 61 ∷ 61 ∷ []) k.0,
        char-kept (a % 4 * 16) (61 ∷ 61 ∷ []) k.1,
      )
      refl
remove_spaces-b64encode (a ∷ b ∷ []) (ha, (hb, h)) =
    let k = bounds_of a b 0 ha hb in
    rw
      (
        char-kept (a / 4) (b64_char (a % 4 * 16 + b / 16) ∷ b64_char (b % 16 * 4) ∷ 61 ∷ []) k.0,
        char-kept (a % 4 * 16 + b / 16) (b64_char (b % 16 * 4) ∷ 61 ∷ []) k.2,
        char-kept (b % 16 * 4) (61 ∷ []) k.3,
      )
      refl
remove_spaces-b64encode (a ∷ b ∷ c ∷ bs) (ha, (hb, (hc, h))) =
    let k = bounds_of a b c ha hb in
    rw
      (
        char-kept (a / 4)
            (b64_char (a % 4 * 16 + b / 16)
              ∷ b64_char (b % 16 * 4 + c / 64)
              ∷ b64_char (c % 64)
              ∷ b64encode bs)
            k.0,
        char-kept (a % 4 * 16 + b / 16)
            (b64_char (b % 16 * 4 + c / 64) ∷ b64_char (c % 64) ∷ b64encode bs) k.2,
        char-kept (b % 16 * 4 + c / 64) (b64_char (c % 64) ∷ b64encode bs) (third b c hc),
        char-kept (c % 64) (b64encode bs) k.5,
        remove_spaces-b64encode bs h,
      )
      refl

standard-b64encode : (bs : List ℕ) → IsBytes bs → map to_standard (b64encode bs) ≡ b64encode bs
unfolding b64encode
standard-b64encode [] h = refl
standard-b64encode (a ∷ []) (ha, h) =
    let k = bounds_of a 0 0 ha (omega arith) in
    let e : to_standard 61 ≡ 61 = unfold to_standard in refl in
    rw (char-standard (a / 4) k.0, char-standard (a % 4 * 16) k.1, e) refl
standard-b64encode (a ∷ b ∷ []) (ha, (hb, h)) =
    let k = bounds_of a b 0 ha hb in
    let e : to_standard 61 ≡ 61 = unfold to_standard in refl in
    rw
      (
        char-standard (a / 4) k.0,
        char-standard (a % 4 * 16 + b / 16) k.2,
        char-standard (b % 16 * 4) k.3,
        e,
      )
      refl
standard-b64encode (a ∷ b ∷ c ∷ bs) (ha, (hb, (hc, h))) =
    let k = bounds_of a b c ha hb in
    rw
      (
        char-standard (a / 4) k.0,
        char-standard (a % 4 * 16 + b / 16) k.2,
        char-standard (b % 16 * 4 + c / 64) (third b c hc),
        char-standard (c % 64) k.5,
        standard-b64encode bs h,
      )
      refl

strict-b64encode : (bs : List ℕ) → IsBytes bs → is_strict (b64encode bs) ≡ true
unfolding b64encode
strict-b64encode [] h = unfold is_strict in refl
strict-b64encode (a ∷ []) (ha, h) =
    let k = bounds_of a 0 0 ha (omega arith) in
    let e : is_strict (61 ∷ 61 ∷ []) ≡ true = unfold is_strict b64_value in refl in
    char-strict (a / 4) (b64_char (a % 4 * 16) ∷ 61 ∷ 61 ∷ []) k.0
    ∙ char-strict (a % 4 * 16) (61 ∷ 61 ∷ []) k.1
    ∙ e
strict-b64encode (a ∷ b ∷ []) (ha, (hb, h)) =
    let k = bounds_of a b 0 ha hb in
    let e : is_strict (61 ∷ []) ≡ true = unfold is_strict b64_value in refl in
    char-strict (a / 4) (b64_char (a % 4 * 16 + b / 16) ∷ b64_char (b % 16 * 4) ∷ 61 ∷ []) k.0
    ∙ char-strict (a % 4 * 16 + b / 16) (b64_char (b % 16 * 4) ∷ 61 ∷ []) k.2
    ∙ char-strict (b % 16 * 4) (61 ∷ []) k.3
    ∙ e
strict-b64encode (a ∷ b ∷ c ∷ bs) (ha, (hb, (hc, h))) =
    let k = bounds_of a b c ha hb in
    char-strict (a / 4)
      (b64_char (a % 4 * 16 + b / 16)
        ∷ b64_char (b % 16 * 4 + c / 64)
        ∷ b64_char (c % 64)
        ∷ b64encode bs)
      k.0
    ∙ char-strict (a % 4 * 16 + b / 16)
        (b64_char (b % 16 * 4 + c / 64) ∷ b64_char (c % 64) ∷ b64encode bs) k.2
    ∙ char-strict (b % 16 * 4 + c / 64) (b64_char (c % 64) ∷ b64encode bs) (third b c hc)
    ∙ char-strict (c % 64) (b64encode bs) k.5
    ∙ strict-b64encode bs h

whole-b64encode : (bs : List ℕ) → length (b64encode bs) % 4 ≡ 0
unfolding b64encode
whole-b64encode [] = refl
whole-b64encode (a ∷ []) = refl
whole-b64encode (a ∷ b ∷ []) = refl
whole-b64encode (a ∷ b ∷ c ∷ bs) = omega (arith, whole-b64encode bs)

append_nothing : (xs : List ℕ) → xs ++ [] ≡ xs
append_nothing [] = refl
append_nothing (x ∷ xs) = ap (λ t. x ∷ t) (append_nothing xs)

-- The base64 text of bytes is decoded to the bytes by the channel `--b64`, unless it happens to begin
-- with `0x`: then it is refused, as a text of the other channel.
pub decode_b64-b64encode :
    (bs : List ℕ)
    → IsBytes bs
    → decode_b64 (b64encode bs) ≡ (if starts_0x (b64encode bs) then err value_error else ok bs)
unfolding decode_b64
decode_b64-b64encode bs h = elim (Bool-cases (starts_0x (b64encode bs))) [
  | inl e ↦ rw (remove_spaces-b64encode bs h, e) refl
  | inr e ↦
      rw
        (
          remove_spaces-b64encode bs h,
          e,
          whole-b64encode bs,
          standard-b64encode bs h,
          append_nothing (b64encode bs),
          strict-b64encode bs h,
          b64decode-b64encode bs h,
        )
        refl
]

hex_char-bounds : (d : ℕ) → d < 16 → (48 ≤ hex_digit d) × (hex_digit d < 103)
unfolding hex_digit
hex_char-bounds d h = (ground (arith, h), ground (arith, h))

hex_kept :
    (d : ℕ) (cs : List ℕ)
    → d < 16
    → remove_spaces (hex_digit d ∷ cs) ≡ hex_digit d ∷ remove_spaces cs
unfolding remove_spaces
hex_kept d cs h =
    let (l, u) = hex_char-bounds d h in
    rw (visible (hex_digit d) (omega (arith, l)) (omega (arith, u))) refl

pub remove_spaces-hex : (bs : List ℕ) → IsBytes bs → remove_spaces (hex bs) ≡ hex bs
unfolding hex remove_spaces
remove_spaces-hex [] h = refl
remove_spaces-hex (b ∷ bs) (hb, h) =
    rw
      (
        hex_kept (b / 16) (hex_digit (b % 16) ∷ hex bs) (omega (arith, hb)),
        hex_kept (b % 16) (hex bs) (omega arith),
        remove_spaces-hex bs h,
      )
      refl

no_x : (d : ℕ) → d < 16 → (hex_digit d == 120 || hex_digit d == 88) ≡ false
unfolding hex_digit
no_x d h = ground (arith, h)

pub starts_0x-hex : (bs : List ℕ) → IsBytes bs → starts_0x (hex bs) ≡ false
unfolding hex starts_0x
starts_0x-hex [] h = refl
starts_0x-hex (b ∷ bs) (hb, h) =
    rw (no_x (b % 16) (omega arith)) (and_false (hex_digit (b / 16) == 48))
  where
    and_false : (b : Bool) → (b && false) ≡ false
    and_false true = refl
    and_false false = refl

-- The hexadecimal text of bytes is decoded to the bytes.
pub decode_hex-hex : (bs : List ℕ) → IsBytes bs → decode_hex (hex bs) ≡ ok bs
unfolding decode_hex strip_0x
decode_hex-hex bs h = rw (remove_spaces-hex bs h, starts_0x-hex bs h) (fromhex-hex bs h)
