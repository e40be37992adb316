-- ===== src/Crypto/Sm2Ciphertext/Format.antt =====
-- crypto/sm2_ciphertext.py: the five wire formats, their detection and their conversion.
pub mod RoundTrip
use sip_protocol.Prelude.{
  ℕ, ◌+◌, ◌-◌, List, [], ◌∷◌, ◌++◌, Bool, true, false, not, ◌&&◌, ◌||◌, Option, none, some, Error,
  Result, ok, err, sm2_format, ◌>>=◌, ◌>>◌, guard, require, length, take, drop, slice, ltb, leb,
  ◌==◌, if◌then◌else◌, list_eq, codes,
}
use sip_protocol.Crypto.Sm2Ciphertext.Der.{
  c1_len, c3_len, tag_sequence, Components, der_encode, der_decode,
}

-- `KNOWN_FORMATS`
pub data Format : Type 0 where
  c1c2c3 c1c3c2 c1c2c3_04 c1c3c2_04 der : Format

-- The text of a format. `known_format` is `fmt in KNOWN_FORMATS`, with the format that it names.
unfoldable pub format_text : Format → List ℕ
format_text c1c2c3 = codes "C1C2C3"
format_text c1c3c2 = codes "C1C3C2"
format_text c1c2c3_04 = codes "C1C2C3+04"
format_text c1c3c2_04 = codes "C1C3C2+04"
format_text der = codes "DER"

unfoldable pub known_format : List ℕ → Result Format
unfolding format_text
known_format text =
    if list_eq text (format_text c1c2c3)
    then ok c1c2c3
    else if list_eq text (format_text c1c3c2)
    then ok c1c3c2
    else if list_eq text (format_text c1c2c3_04)
    then ok c1c2c3_04
    else if list_eq text (format_text c1c3c2_04)
    then ok c1c3c2_04
    else if list_eq text (format_text der)
    then ok der
    else err sm2_format

-- `_split_raw`: the parts c1, c2 and c3 of a ciphertext with no prefix, by its length.
unfoldable pub split_raw : List ℕ → Bool → Result Components
split_raw ct c3_first =
    if ltb (length ct) (c1_len + c3_len + 1)
    then err sm2_format
    else if c3_first
    then ok (take c1_len ct, drop (c1_len + c3_len) ct, slice ct c1_len (c1_len + c3_len))
    else ok (take c1_len ct, slice ct c1_len (length ct - c3_len), drop (length ct - c3_len) ct)

-- the first byte of a format that declares the prefix, taken off
unfoldable pub strip_04 : List ℕ → Result (List ℕ)
strip_04 [] = err sm2_format
strip_04 (b ∷ ct) = if b == 0x04 then ok ct else err sm2_format

-- `_to_components`, `_strip_prefix` included
unfoldable pub to_components : List ℕ → Format → Result Components
unfolding split_raw strip_04
to_components ct c1c2c3 = split_raw ct false
to_components ct c1c3c2 = split_raw ct true
to_components ct c1c2c3_04 = do raw ← strip_04 ct; split_raw raw false
to_components ct c1c3c2_04 = do raw ← strip_04 ct; split_raw raw true
to_components ct der = der_decode ct

-- `_from_components`, `_c1c2c3_to_bytes` included
unfoldable pub from_components : Components → Format → Result (List ℕ)
from_components (c1, c2, c3) c1c2c3 = ok (c1 ++ (c2 ++ c3))
from_components (c1, c2, c3) c1c3c2 = ok (c1 ++ (c3 ++ c2))
from_components (c1, c2, c3) c1c2c3_04 = ok (0x04 ∷ (c1 ++ (c2 ++ c3)))
from_components (c1, c2, c3) c1c3c2_04 = ok (0x04 ∷ (c1 ++ (c3 ++ c2)))
from_components (c1, c2, c3) der = der_encode c1 c2 c3

unfoldable pub convert_known : List ℕ → Format → Format → Result (List ℕ)
convert_known ct from to = do parts ← to_components ct from; from_components parts to

-- `convert`
unfoldable pub convert : List ℕ → List ℕ → List ℕ → Result (List ℕ)
unfolding known_format convert_known
convert ct from_fmt to_fmt = do
  from ← known_format from_fmt
  to ← known_format to_fmt
  convert_known ct from to

-- `detect_format` below the DER attempt
unfoldable pub detect_raw : List ℕ → Result Format
detect_raw [] = err sm2_format
detect_raw (b ∷ ct) =
    if b == 0x04 && leb (c1_len + c3_len + 1) (length ct)
    then ok c1c2c3_04
    else if leb (c1_len + c3_len + 1) (length ct + 1)
    then ok c1c2c3
    else err sm2_format

-- `except Sm2CiphertextFormatError: pass`: any other exception goes on to the caller.
unfoldable pub after_der : List ℕ → Result Components → Result Format
unfolding detect_raw
after_der ct (ok parts) = ok der
after_der ct (err Error.sm2_format) = detect_raw ct
after_der ct (err e) = err e

unfoldable pub starts_with_sequence : List ℕ → Bool
starts_with_sequence [] = false
starts_with_sequence (b ∷ ct) = b == tag_sequence

-- `detect_format`
unfoldable pub detect_format : List ℕ → Result Format
unfolding after_der starts_with_sequence
detect_format ct = if starts_with_sequence ct then after_der ct (der_decode ct) else detect_raw ct
