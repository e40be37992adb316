-- ===== src/Crypto/Sm2Ciphertext/Der/RoundTrip.antt =====
-- The DER encoder and decoder as a pair, and what the decoder accepts.
use mathlib.Core.List.{append-nil}
use sip_protocol.Prelude.{
  ℕ, ◌+◌, ◌^◌, ◌<◌, ◌≤◌, ◌≡◌, refl, sym, ap, ◌∙◌, List, [], ◌∷◌, ◌++◌, false, ok, err,
  overflow_error, arith, ◌>>=◌, length, take, drop, ==_self, length-append, length-take,
  length-drop, take-append-drop, All-take, All-drop, drop_after, drop-append,
}
use sip_protocol.Python.Bytes.{IsByte, IsBytes}
use sip_protocol.Crypto.Sm2Ciphertext.Der.{
  c1_len, c3_len, coord_len, tag_integer, tag_octet_string, tag_sequence, minimal_integer,
  der_encode_coordinate, der_encode, der_decode_tlv, der_decode_coordinate, der_decode, is_empty,
}
use sip_protocol.Crypto.Sm2Ciphertext.Der.Lengths.{
  tlv, length_bytes, length_bytes-le, der_tlv-eq, der_decode_tlv-encode,
}
use sip_protocol.Crypto.Sm2Ciphertext.Der.Coordinate.{
  length-minimal_integer, der_decode_coordinate-minimal, der_decode_coordinate_overflow,
}

-- The body of the SEQUENCE over four values, and the whole.
abbrev pub body_of : List ℕ → List ℕ → List ℕ → List ℕ → List ℕ
body_of x y c3 c2 =
    tlv tag_integer x ++ (tlv tag_integer y ++ (tlv tag_octet_string c3 ++ tlv tag_octet_string c2))

abbrev pub sequence_of : List ℕ → List ℕ → List ℕ → List ℕ → List ℕ
sequence_of x y c3 c2 = tlv tag_sequence (body_of x y c3 c2)

-- What an SM2 ciphertext is made of; the bound on c2 is above any length that a process can hold.
pub record AreComponents (c1 c2 c3 : List ℕ) : Type 0 where
  pub c1_length : length c1 ≡ c1_len
  pub c1_bytes : IsBytes c1
  pub c3_length : length c3 ≡ c3_len
  pub c2_nonempty : 0 < length c2
  pub c2_bound : length c2 < 2 ^ 62

length-tlv-le : (tag : ℕ) (v : List ℕ) → length v < 2 ^ 64 → length (tlv tag v) ≤ length v + 129
length-tlv-le tag v h =
    omega (arith, length-append (length_bytes (length v)) v, length_bytes-le (length v) h)

length-body_of-lt :
    (x y c3 c2 : List ℕ)
    → length x ≤ 33
    → length y ≤ 33
    → length c3 ≡ c3_len
    → length c2 < 2 ^ 62
    → length (body_of x y c3 c2) < 2 ^ 64
length-body_of-lt x y c3 c2 hx hy h3 h2 =
    let tx = tlv tag_integer x in
    let ty = tlv tag_integer y in
    let t3 = tlv tag_octet_string c3 in
    let t2 = tlv tag_octet_string c2 in
    omega (
      arith,
      length-append tx (ty ++ (t3 ++ t2)),
      length-append ty (t3 ++ t2),
      length-append t3 t2,
      length-tlv-le tag_integer x (omega arith),
      length-tlv-le tag_integer y (omega arith),
      length-tlv-le tag_octet_string c3 (omega arith),
      length-tlv-le tag_octet_string c2 (omega arith),
    )

-- Reading an element, at an offset that is given another way.
read_tlv :
    (ct rest : List ℕ) (o next tag : ℕ) (value : List ℕ)
    → length value < 2 ^ 64
    → drop o ct ≡ tlv tag value ++ rest
    → o + length (tlv tag value) ≡ next
    → der_decode_tlv ct o tag ≡ ok (value, next)
read_tlv ct rest o next tag value lt h e =
    der_decode_tlv-encode ct rest o tag value lt h ∙ ap (λ t. ok (value, t)) e

-- On a SEQUENCE of the four elements the decoder is left with the checks on the coordinates.
pub der_decode-sequence_of :
    (x y c3 c2 : List ℕ)
    → length x ≤ 33
    → length y ≤ 33
    → length c3 ≡ c3_len
    → 0 < length c2
    → length c2 < 2 ^ 62
    → der_decode (sequence_of x y c3 c2)
      ≡ (do c1x ← der_decode_coordinate x; c1y ← der_decode_coordinate y; ok (c1x ++ c1y, c2, c3))
unfolding der_decode
der_decode-sequence_of x y c3 c2 hx hy h3 pos h2 =
    let tx = tlv tag_integer x in
    let ty = tlv tag_integer y in
    let t3 = tlv tag_octet_string c3 in
    let t2 = tlv tag_octet_string c2 in
    let body = body_of x y c3 c2 in
    let ct = sequence_of x y c3 c2 in
    let d1 : drop (length tx) body ≡ ty ++ (t3 ++ t2) =
      drop-append (length tx) tx (ty ++ (t3 ++ t2)) refl in
    let d2 : drop (length tx + length ty) body ≡ t3 ++ t2 =
      drop_after (length tx) body ty (t3 ++ t2) d1 in
    let d3 : drop (length tx + length ty + length t3) body ≡ t2 ++ [] =
      drop_after (length tx + length ty) body t3 t2 d2 ∙ sym (append-nil t2) in
    let total : length tx + length ty + length t3 + length t2 ≡ length body = omega (
      arith,
      length-append tx (ty ++ (t3 ++ t2)),
      length-append ty (t3 ++ t2),
      length-append t3 t2,
    ) in
    rw (
      read_tlv ct [] 0 (length ct) tag_sequence body (length-body_of-lt x y c3 c2 hx hy h3 h2)
          (sym (append-nil ct)) (omega arith),
      ==_self (length ct),
      read_tlv body (ty ++ (t3 ++ t2)) 0 (length tx) tag_integer x (omega arith) refl (omega arith),
      read_tlv body (t3 ++ t2) (length tx) (length tx + length ty) tag_integer y (omega arith) d1
          refl,
      read_tlv body t2 (length tx + length ty) (length tx + length ty + length t3) tag_octet_string
          c3 (omega arith) d2 refl,
      read_tlv body [] (length tx + length ty + length t3) (length body) tag_octet_string c2
          (omega arith) d3 total,
      ==_self (length body),
      h3,
      nonempty c2 pos,
    )
  where
    nonempty : (l : List ℕ) → 0 < length l → is_empty l ≡ false
    nonempty [] h = absurd (omega arith)
    nonempty (z ∷ l) h = refl

-- What `der_encode` writes, with its errors gone.
pub encoded : List ℕ → List ℕ → List ℕ → List ℕ
encoded c1 c2 c3 =
    sequence_of (minimal_integer (take coord_len c1)) (minimal_integer (drop coord_len c1)) c3 c2

module _ (c1 c2 c3 : List ℕ) (ok_parts : AreComponents c1 c2 c3) where
  length-half_x : length (take coord_len c1) ≡ coord_len
  length-half_x = omega (arith, length-take coord_len c1, ok_parts.c1_length)

  length-half_y : length (drop coord_len c1) ≡ coord_len
  length-half_y = omega (arith, length-drop coord_len c1, ok_parts.c1_length)

  pub der_encode-eq : der_encode c1 c2 c3 ≡ ok (encoded c1 c2 c3)
  unfolding der_encode der_encode_coordinate encoded
  der_encode-eq =
      let x = minimal_integer (take coord_len c1) in
      let y = minimal_integer (drop coord_len c1) in
      let hx : length x ≤ 33 =
        omega (arith, length-minimal_integer (take coord_len c1), length-half_x) in
      let hy : length y ≤ 33 =
        omega (arith, length-minimal_integer (drop coord_len c1), length-half_y) in
      rw (
        der_tlv-eq tag_integer x (omega arith),
        der_tlv-eq tag_integer y (omega arith),
        der_tlv-eq tag_octet_string c3 (omega (arith, ok_parts.c3_length)),
        der_tlv-eq tag_octet_string c2 (omega (arith, ok_parts.c2_bound)),
        der_tlv-eq tag_sequence (body_of x y c3 c2)
            (length-body_of-lt x y c3 c2 hx hy ok_parts.c3_length ok_parts.c2_bound),
      )

  pub der_decode-encoded : der_decode (encoded c1 c2 c3) ≡ ok (c1, c2, c3)
  unfolding encoded
  der_decode-encoded = rw (
    der_decode-sequence_of (minimal_integer (take coord_len c1))
        (minimal_integer (drop coord_len c1)) c3 c2
        (omega (arith, length-minimal_integer (take coord_len c1), length-half_x))
        (omega (arith, length-minimal_integer (drop coord_len c1), length-half_y))
        ok_parts.c3_length ok_parts.c2_nonempty ok_parts.c2_bound,
    der_decode_coordinate-minimal (take coord_len c1)
        (All-take IsByte coord_len c1 ok_parts.c1_bytes) length-half_x,
    der_decode_coordinate-minimal (drop coord_len c1)
        (All-drop IsByte coord_len c1 ok_parts.c1_bytes) length-half_y,
    take-append-drop coord_len c1,
  )

-- For components of the right lengths (c1 of 64 bytes, c3 of 32, c2 not empty) the encoder raises
-- nothing, and the decoder returns the three components that it was given.
pub der_decode-der_encode :
    (c1 c2 c3 : List ℕ)
    → AreComponents c1 c2 c3
    → (do ct ← der_encode c1 c2 c3; der_decode ct) ≡ ok (c1, c2, c3)
der_decode-der_encode c1 c2 c3 h = rw (der_encode-eq c1 c2 c3 h) (der_decode-encoded c1 c2 c3 h)

-- A SEQUENCE whose first coordinate is an INTEGER of 33 bytes that starts with a nonzero byte,
-- with a second one of at most 33, a c3 of 32 and a c2 of 1 to 2^62 - 1, passes every check of the
-- decoder, which then raises OverflowError.
pub der_decode_overflow :
    (b : ℕ) (bs y c3 c2 : List ℕ)
    → 0 < b
    → length bs ≡ coord_len
    → length y ≤ 33
    → length c3 ≡ c3_len
    → 0 < length c2
    → length c2 < 2 ^ 62
    → der_decode (sequence_of (b ∷ bs) y c3 c2) ≡ err overflow_error
der_decode_overflow b bs y c3 c2 pos len hy h3 ne h2 = rw (
  der_decode-sequence_of (b ∷ bs) y c3 c2 (omega (arith, len)) hy h3 ne h2,
  der_decode_coordinate_overflow b bs pos len,
)
