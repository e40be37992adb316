-- ===== src/Crypto/Sm2Ciphertext/Der/Shape.antt =====
-- What the DER decoder accepts has components of the right lengths.
use mathlib.Core.Path.{subst}
use sip_protocol.Prelude.{
  ℕ, ◌-◌, ◌^◌, ◌<◌, ◌≤◌, ◌≡◌, refl, sym, ap, List, [], ◌∷◌, ◌++◌, true, not, ok, arith, unbind,
  ok-injective, guard, guard-eq-ok, sm2_format, ◌==◌, ==_eq, length, drop, slice, ltb, Bool-cases,
  inl, inr, length-append, length-take, length-drop, All-append,
}
use sip_protocol.Python.Bytes.{IsByte, IsBytes, to_bytes, from_bytes, digits-IsBytes, length-digits}
use sip_protocol.Crypto.Sm2Ciphertext.Der.{
  c3_len, der_decode, der_decode_tlv, der_decode_coordinate, Components, is_empty, tag_sequence,
  tag_integer, tag_octet_string,
}
use sip_protocol.Crypto.Sm2Ciphertext.Der.RoundTrip.{AreComponents}

abbrev Coordinate : List ℕ → Type 0
Coordinate c = (length c ≡ 32) × IsBytes c

to_bytes-Coordinate : (n : ℕ) (c : List ℕ) → to_bytes 32 n ≡ ok c → Coordinate c
unfolding to_bytes
to_bytes-Coordinate n c h = elim (Bool-cases (ltb n (256 ^ 32))) [
  | inl l ↦
      subst Coordinate (ok-injective (rw l at h))
        (omega (arith, length-digits 32 n []), digits-IsBytes 32 n [] tt)
  | inr l ↦ absurd (cc (rw l at h))
]

der_decode_coordinate-Coordinate : (v c : List ℕ) → der_decode_coordinate v ≡ ok c → Coordinate c
unfolding der_decode_coordinate
der_decode_coordinate-Coordinate v c h = to_bytes-Coordinate (from_bytes v) c (ground arith)

length-slice-le : (ct : List ℕ) (a b : ℕ) → length (slice ct a b) ≤ length ct
length-slice-le ct a b = omega (arith, length-take (b - a) (drop a ct), length-drop a ct)

length-der_decode_tlv :
    (ct v : List ℕ) (o tag next : ℕ) → der_decode_tlv ct o tag ≡ ok (v, next) → length v ≤ length ct
unfolding der_decode_tlv
length-der_decode_tlv ct v o tag next h = grind (arith, length-slice-le)

-- The c2 of a decoded ciphertext and its c3, from the checks; the c1 from its two coordinates.
record IsDecoded (ct : List ℕ) (parts : Components) : Type 0 where
  c1x : List ℕ
  c1y : List ℕ
  c1x_ok : Coordinate c1x
  c1y_ok : Coordinate c1y
  c1_eq : parts.0 ≡ c1x ++ c1y
  c3_ok : length parts.2 ≡ 32
  c2_ok : 0 < length parts.1
  c2_le : length parts.1 ≤ length ct

der_decode-IsDecoded :
    (ct : List ℕ) (parts : Components) → der_decode ct ≡ ok parts → IsDecoded ct parts
unfolding der_decode
der_decode-IsDecoded ct parts h = unbind (der_decode_tlv ct 0 tag_sequence) h λ be read_body h1.
    unbind (guard (be.1 == length ct) sm2_format) h1 λ _ _ h2.
      unbind (der_decode_tlv be.0 0 tag_integer) h2 λ rx _ h3.
        unbind (der_decode_tlv be.0 rx.1 tag_integer) h3 λ ry _ h4.
          unbind (der_decode_tlv be.0 ry.1 tag_octet_string) h4 λ r3 _ h5.
            unbind (der_decode_tlv be.0 r3.1 tag_octet_string) h5 λ r2 read_2 h6.
              unbind (guard (r2.1 == length be.0) sm2_format) h6 λ _ _ h7.
                unbind (guard (length r3.0 == c3_len) sm2_format) h7 λ _ g3 h8.
                  unbind (guard (not (is_empty r2.0)) sm2_format) h8 λ _ g2 h9.
                    unbind (der_decode_coordinate rx.0) h9 λ cx read_cx h10.
                      unbind (der_decode_coordinate ry.0) h10 λ cy read_cy h11.
                        subst (IsDecoded ct) (ok-injective h11) (record {
                          c1x = cx;
                          c1y = cy;
                          c1x_ok = der_decode_coordinate-Coordinate rx.0 cx read_cx;
                          c1y_ok = der_decode_coordinate-Coordinate ry.0 cy read_cy;
                          c1_eq = refl;
                          c3_ok = ==_eq _ _ (guard-eq-ok _ _ g3);
                          c2_ok = nonempty r2.0 (guard-eq-ok _ _ g2);
                          c2_le = omega (
                            arith,
                            length-der_decode_tlv be.0 r2.0 r3.1 tag_octet_string r2.1 read_2,
                            length-der_decode_tlv ct be.0 0 tag_sequence be.1 read_body,
                          );
                        })
  where
    nonempty : (l : List ℕ) → not (is_empty l) ≡ true → 0 < length l
    nonempty [] h = absurd (cc)
    nonempty (z ∷ l) h = omega arith

-- What the decoder accepts of fewer than 2^62 bytes has a c1 of 64 bytes, a c3 of 32 and a c2 that
-- is not empty.
pub der_decode-AreComponents :
    (ct c1 c2 c3 : List ℕ)
    → length ct < 2 ^ 62
    → der_decode ct ≡ ok (c1, c2, c3)
    → AreComponents c1 c2 c3
der_decode-AreComponents ct c1 c2 c3 bound h =
    let d = der_decode-IsDecoded ct (c1, c2, c3) h in
    record {
      c1_length =
          omega (arith, ap length d.c1_eq, length-append d.c1x d.c1y, d.c1x_ok.0, d.c1y_ok.0);
      c1_bytes = subst IsBytes (sym d.c1_eq) (All-append IsByte d.c1x d.c1y d.c1x_ok.1 d.c1y_ok.1);
      c3_length = d.c3_ok;
      c2_nonempty = d.c2_ok;
      c2_bound = omega (arith, d.c2_le);
    }
