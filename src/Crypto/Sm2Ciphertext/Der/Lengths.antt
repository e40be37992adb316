-- ===== src/Crypto/Sm2Ciphertext/Der/Lengths.antt =====
-- Lengths and elements of DER: what the encoder writes, the decoder reads back.
use Prim.Native.Nat.{bit_and, bit_or}
use mathlib.Core.List.{append_assoc}
use sip_protocol.Prelude.{
  every_below, of_every_below, ℕ, ◌+◌, ◌/◌, ◌^◌, ◌<◌, ◌≤◌, ◌≡◌, refl, ap, ◌∙◌, List, [], ◌∷◌, ◌++◌,
  true, ok, arith, length, drop, slice, ltb, ◌==◌, if◌then◌else◌, Bool-cases, inl, inr, ==_eq,
  ==_self, ltb-false, leb-true, get_elem?_of_drop, drop_after, slice_at, length_of_drop,
  length-append,
}
use sip_protocol.Python.Bytes.{
  digits, to_bytes-digits, length-digits, lt-byte_count, bit_length, bit_length-le, bit_length-pos,
  from_bytes, from_bytes-digits,
}
use sip_protocol.Crypto.Sm2Ciphertext.Der.{
  der_encode_length, der_decode_length, long_length, der_tlv, der_decode_tlv,
}

-- the bits of the first byte of a long length, over the sizes that occur
or_table : every_below (λ x. bit_or 0x80 x == 128 + x) 128 ≡ true
unfolding every_below
or_table = refl

and_table : every_below (λ x. bit_and (128 + x) 0x7f == x) 128 ≡ true
unfolding every_below
and_table = refl

pub bit_or_size : (x : ℕ) → x < 128 → bit_or 0x80 x ≡ 128 + x
bit_or_size x h = ==_eq _ _ (of_every_below _ 128 x h or_table)

pub bit_and_size : (x : ℕ) → x < 128 → bit_and (128 + x) 0x7f ≡ x
bit_and_size x h = ==_eq _ _ (of_every_below _ 128 x h and_table)

-- The byte count of a length, and that it fits the seven bits.
abbrev pub count : ℕ → ℕ
count n = (bit_length n + 7) / 8

count-lt : (n : ℕ) → n < 2 ^ 64 → count n < 128
count-lt n h = omega (arith, bit_length-le n 64 h)

-- What `der_encode_length` writes, with its errors gone.
abbrev pub length_bytes : ℕ → List ℕ
length_bytes n = if ltb n 0x80 then n ∷ [] else (128 + count n) ∷ digits (count n) n []

pub der_encode_length-eq : (n : ℕ) → n < 2 ^ 64 → der_encode_length n ≡ ok (length_bytes n)
unfolding der_encode_length
der_encode_length-eq n h = ground (
  arith,
  to_bytes-digits (count n) n (lt-byte_count n),
  length-digits (count n) n [],
  bit_or_size (count n) (count-lt n h),
  count-lt n h,
)

pub length_bytes-le : (n : ℕ) → n < 2 ^ 64 → length (length_bytes n) ≤ 128
length_bytes-le n h = ground (arith, count-lt n h, length-digits (count n) n [])

drop_next :
    (o : ℕ) (ct : List ℕ) (b : ℕ) (rest : List ℕ) → drop o ct ≡ b ∷ rest → drop (o + 1) ct ≡ rest
drop_next o ct b rest h = drop_after o ct (b ∷ []) rest h

long_length-digits :
    (ct rest : List ℕ) (o n : ℕ)
    → 128 ≤ n
    → drop o ct ≡ (128 + count n) ∷ (digits (count n) n [] ++ rest)
    → long_length ct o (count n) ≡ ok (n, o + 1 + count n)
unfolding long_length
long_length-digits ct rest o n big h =
    let ds = digits (count n) n [] in
    let tail : drop (o + 1) ct ≡ ds ++ rest = drop_next o ct (128 + count n) (ds ++ rest) h in
    let len : length ds ≡ count n = omega (arith, length-digits (count n) n []) in
    let cut : slice ct (o + 1) (o + 1 + count n) ≡ ds =
      slice_at (o + 1) (count n) ct ds rest len tail in
    let value : from_bytes (slice ct (o + 1) (o + 1 + count n)) ≡ n =
      ap from_bytes cut ∙ from_bytes-digits (count n) n (lt-byte_count n) in
    let pos : 0 < count n = omega (arith, bit_length-pos n (omega arith)) in
    let fits : o + 1 + count n ≤ length ct =
      omega (arith, length_of_drop o ct _ h (omega arith), length-append ds rest, len) in
    ground (arith, value, pos, fits)

-- A length that was written is read back, and the offset moves past it.
pub der_decode_length-encode :
    (ct rest : List ℕ) (o n : ℕ)
    → n < 2 ^ 64
    → drop o ct ≡ length_bytes n ++ rest
    → der_decode_length ct o ≡ ok (n, o + length (length_bytes n))
unfolding der_decode_length
der_decode_length-encode ct rest o n lt h = elim (Bool-cases (ltb n 128)) [
  | inl short ↦
      let at : drop o ct ≡ n ∷ rest = rw short at h in rw (short, get_elem?_of_drop o ct at, short)
  | inr long ↦
      let at : drop o ct ≡ (128 + count n) ∷ (digits (count n) n [] ++ rest) = rw long at h in
      rw
        (
          long,
          get_elem?_of_drop o ct at,
          ltb-false (128 + count n) 128 (omega arith),
          bit_and_size (count n) (count-lt n lt),
          long_length-digits ct rest o n (ground arith) at,
        )
        (ground (arith, length-digits (count n) n []))
]

-- What `der_tlv` writes, with its errors gone.
abbrev pub tlv : ℕ → List ℕ → List ℕ
tlv tag value = tag ∷ (length_bytes (length value) ++ value)

pub der_tlv-eq :
    (tag : ℕ) (value : List ℕ) → length value < 2 ^ 64 → der_tlv tag value ≡ ok (tlv tag value)
unfolding der_tlv
der_tlv-eq tag value h = rw (der_encode_length-eq (length value) h)

-- An element that was written is read back, and the offset moves past it.
pub der_decode_tlv-encode :
    (ct rest : List ℕ) (o tag : ℕ) (value : List ℕ)
    → length value < 2 ^ 64
    → drop o ct ≡ tlv tag value ++ rest
    → der_decode_tlv ct o tag ≡ ok (value, o + length (tlv tag value))
unfolding der_decode_tlv
der_decode_tlv-encode ct rest o tag value lt h =
    let lb = length_bytes (length value) in
    let e1 : drop (o + 1) ct ≡ lb ++ (value ++ rest) =
      drop_next o ct tag ((lb ++ value) ++ rest) h ∙ append_assoc lb value rest in
    let e2 : drop (o + 1 + length lb) ct ≡ value ++ rest =
      drop_after (o + 1) ct lb (value ++ rest) e1 in
    let fits : o + 1 + length lb + length value ≤ length ct = omega (
      arith,
      length_of_drop o ct (tlv tag value ++ rest) h (omega arith),
      length-append lb value,
      length-append (lb ++ value) rest,
    ) in
    rw
      (
        get_elem?_of_drop o ct h,
        ==_self tag,
        der_decode_length-encode ct (value ++ rest) (o + 1) (length value) lt e1,
        leb-true _ _ fits,
        slice_at (o + 1 + length lb) (length value) ct value rest refl e2,
      )
      (ground (arith, length-append lb value))
