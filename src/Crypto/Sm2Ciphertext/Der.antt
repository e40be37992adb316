-- ===== src/Crypto/Sm2Ciphertext/Der.antt =====
-- crypto/sm2_ciphertext.py: the DER encoder and decoder of an SM2 ciphertext.
pub mod Lengths
pub mod Coordinate
pub mod Shape
pub mod RoundTrip
use Prim.Native.Nat.{bit_and, bit_or}
use sip_protocol.Prelude.{
  ℕ, ◌+◌, ◌/◌, List, [], ◌∷◌, ◌++◌, Bool, true, false, not, ◌&&◌, ◌||◌, Option, none, some, Result,
  ok, err, sm2_format, value_error, ◌>>=◌, ◌>>◌, guard, require, length, take, drop, slice,
  get_elem?, ltb, leb, ◌==◌, if◌then◌else◌,
}
use sip_protocol.Python.Bytes.{from_bytes, to_bytes, bit_length}

abbrev pub c1_len : ℕ
c1_len = 64

abbrev pub c3_len : ℕ
c3_len = 32

abbrev pub tag_integer : ℕ
tag_integer = 0x02

abbrev pub tag_octet_string : ℕ
tag_octet_string = 0x04

abbrev pub tag_sequence : ℕ
tag_sequence = 0x30

abbrev pub coord_len : ℕ
coord_len = 32

-- `_der_encode_length`; `bytes([x])` raises ValueError for an `x` above 255.
unfoldable pub der_encode_length : ℕ → Result (List ℕ)
der_encode_length n = if ltb n 0x80 then ok (n ∷ []) else do
  payload ← to_bytes ((bit_length n + 7) / 8) n
  guard (ltb (bit_or 0x80 (length payload)) 256) value_error
  ok (bit_or 0x80 (length payload) ∷ payload)

unfoldable pub der_tlv : ℕ → List ℕ → Result (List ℕ)
der_tlv tag value = do len ← der_encode_length (length value); ok (tag ∷ (len ++ value))

-- `coord.lstrip(b"\x00")`
unfoldable pub lstrip_zeros : List ℕ → List ℕ
lstrip_zeros [] = []
lstrip_zeros (b ∷ bs) = let rest = lstrip_zeros bs in if b == 0 then rest else b ∷ bs

-- `b & 0x80` as a test
unfoldable pub high_bit : ℕ → Bool
high_bit b = not (bit_and b 0x80 == 0)

-- the `0x00` that keeps an INTEGER positive; the argument is never empty
unfoldable pub keep_positive : List ℕ → List ℕ
keep_positive [] = 0 ∷ []
keep_positive (b ∷ bs) = if high_bit b then 0 ∷ (b ∷ bs) else b ∷ bs

unfoldable pub minimal_integer : List ℕ → List ℕ
unfolding lstrip_zeros keep_positive
minimal_integer coord = keep_positive (lstrip_zeros coord)

unfoldable pub der_encode_coordinate : List ℕ → Result (List ℕ)
der_encode_coordinate coord = der_tlv tag_integer (minimal_integer coord)

unfoldable pub der_encode : List ℕ → List ℕ → List ℕ → Result (List ℕ)
der_encode c1 c2 c3 = do
  x ← der_encode_coordinate (take coord_len c1)
  y ← der_encode_coordinate (drop coord_len c1)
  h ← der_tlv tag_octet_string c3
  m ← der_tlv tag_octet_string c2
  der_tlv tag_sequence (x ++ (y ++ (h ++ m)))

unfoldable pub long_length : List ℕ → ℕ → ℕ → Result (ℕ × ℕ)
long_length ct offset size =
    if size == 0 || ltb (length ct) (offset + 1 + size)
    then err sm2_format
    else let n = from_bytes (slice ct (offset + 1) (offset + 1 + size)) in
      if ltb n 0x80 then err sm2_format else ok (n, offset + 1 + size)

-- `get_elem?` is `none` exactly where the source finds `offset >= len(data)`.
unfoldable pub der_decode_length : List ℕ → ℕ → Result (ℕ × ℕ)
unfolding long_length
der_decode_length ct offset = do
  first ← require (get_elem? ct offset) sm2_format
  if ltb first 0x80 then ok (first, offset + 1) else long_length ct offset (bit_and first 0x7f)

unfoldable pub der_decode_tlv : List ℕ → ℕ → ℕ → Result (List ℕ × ℕ)
der_decode_tlv ct offset tag = do
  b ← require (get_elem? ct offset) sm2_format
  guard (b == tag) sm2_format
  (len, value_at) ← der_decode_length ct (offset + 1)
  guard (leb (value_at + len) (length ct)) sm2_format
  ok (slice ct value_at (value_at + len), value_at + len)

-- `len(value) > 1 and value[0] == 0 and not value[1] & 0x80`
unfoldable pub redundant_zero : List ℕ → Bool
redundant_zero [] = false
redundant_zero (b ∷ []) = false
redundant_zero (b ∷ b' ∷ bs) = b == 0 && not (high_bit b')

-- `int.to_bytes(32, "big")` raises OverflowError for a number of 33 bytes.
unfoldable pub der_decode_coordinate : List ℕ → Result (List ℕ)
unfolding redundant_zero
der_decode_coordinate value = do
  guard (leb (length value) (coord_len + 1)) sm2_format
  guard (not (redundant_zero value)) sm2_format
  to_bytes coord_len (from_bytes value)

-- `not c2` for a list
abbrev pub is_empty {ℓ} : {A : Type ℓ} → List A → Bool
is_empty [] = true
is_empty (x ∷ xs) = false

abbrev pub Components : Type 0
Components = List ℕ × List ℕ × List ℕ

unfoldable pub der_decode : List ℕ → Result Components
der_decode ct = do
  (body, end) ← der_decode_tlv ct 0 tag_sequence
  guard (end == length ct) sm2_format
  (x, off_x) ← der_decode_tlv body 0 tag_integer
  (y, off_y) ← der_decode_tlv body off_x tag_integer
  (c3, off_c3) ← der_decode_tlv body off_y tag_octet_string
  (c2, off_c2) ← der_decode_tlv body off_c3 tag_octet_string
  guard (off_c2 == length body) sm2_format
  guard (length c3 == c3_len) sm2_format
  guard (not (is_empty c2)) sm2_format
  c1x ← der_decode_coordinate x
  c1y ← der_decode_coordinate y
  ok (c1x ++ c1y, c2, c3)
