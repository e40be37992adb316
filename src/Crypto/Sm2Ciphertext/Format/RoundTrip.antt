-- ===== src/Crypto/Sm2Ciphertext/Format/RoundTrip.antt =====
-- Conversion between the formats loses nothing.
use mathlib.Core.Path.{subst}
use sip_protocol.Prelude.{
  ℕ, ◌+◌, ◌-◌, ◌^◌, ◌<◌, ◌≤◌, ◌≡◌, refl, sym, ap, ◌∙◌, List, [], ◌∷◌, ◌++◌, Bool, true, false, ok,
  ok-injective, if◌then◌else◌, ◌==◌, list_eq, arith, ◌>>=◌, unbind, length, take, drop, slice,
  ==_eq, ltb, Bool-cases, inl, inr, ltb-false, length-append, length-take, length-drop,
  take-append-drop, All-take, take-append, drop-append, drop-add,
}
use sip_protocol.Python.Bytes.{IsByte, IsBytes}
use sip_protocol.Crypto.Sm2Ciphertext.Der.{Components}
use sip_protocol.Crypto.Sm2Ciphertext.Der.RoundTrip.{
  AreComponents, der_encode-eq, der_decode-encoded,
}
use sip_protocol.Crypto.Sm2Ciphertext.Der.Shape.{der_decode-AreComponents}
use sip_protocol.Crypto.Sm2Ciphertext.Format.{
  Format, c1c2c3, c1c3c2, c1c2c3_04, c1c3c2_04, der, split_raw, strip_04, to_components,
  from_components, convert, known_format, format_text, convert_known,
}

-- Cutting what was put together, in both orders.
module _ (c1 c2 c3 : List ℕ) (parts : AreComponents c1 c2 c3) where
  length-joined : length (c1 ++ (c2 ++ c3)) ≡ 96 + length c2
  length-joined =
      omega
        (arith, length-append c1 (c2 ++ c3), length-append c2 c3, parts.c1_length, parts.c3_length)

  length-joined_new : length (c1 ++ (c3 ++ c2)) ≡ 96 + length c2
  length-joined_new =
      omega
        (arith, length-append c1 (c3 ++ c2), length-append c3 c2, parts.c1_length, parts.c3_length)

  split_raw_old : split_raw (c1 ++ (c2 ++ c3)) false ≡ ok (c1, c2, c3)
  unfolding split_raw
  split_raw_old =
      let n = length c2 in
      let t : drop 64 (c1 ++ (c2 ++ c3)) ≡ c2 ++ c3 =
        drop-append 64 c1 (c2 ++ c3) parts.c1_length in
      let cut : length (c1 ++ (c2 ++ c3)) - 32 ≡ 64 + n = omega (arith, length-joined) in
      let last : drop (64 + n) (c1 ++ (c2 ++ c3)) ≡ c3 =
        drop-add 64 n (c1 ++ (c2 ++ c3)) ∙ ap (drop n) t ∙ drop-append n c2 c3 refl in
      rw (
        ltb-false (length (c1 ++ (c2 ++ c3))) 97 (omega (arith, length-joined, parts.c2_nonempty)),
        cut,
        take-append 64 c1 (c2 ++ c3) parts.c1_length,
        t,
        last,
        (let e : 64 + n - 64 ≡ n = omega arith in e),
        take-append n c2 c3 refl,
      )

  split_raw_new : split_raw (c1 ++ (c3 ++ c2)) true ≡ ok (c1, c2, c3)
  unfolding split_raw
  split_raw_new =
      let t : drop 64 (c1 ++ (c3 ++ c2)) ≡ c3 ++ c2 =
        drop-append 64 c1 (c3 ++ c2) parts.c1_length in
      let last : drop 96 (c1 ++ (c3 ++ c2)) ≡ c2 =
        drop-add 64 32 (c1 ++ (c3 ++ c2)) ∙ ap (drop 32) t ∙ drop-append 32 c3 c2 parts.c3_length in
      rw (
        ltb-false (length (c1 ++ (c3 ++ c2))) 97
            (omega (arith, length-joined_new, parts.c2_nonempty)),
        take-append 64 c1 (c3 ++ c2) parts.c1_length,
        last,
        t,
        take-append 32 c3 c2 parts.c3_length,
      )

  -- Components that are written in a format are read back from it.
  pub to_components-from_components :
      (f : Format) → (do ct ← from_components (c1, c2, c3) f; to_components ct f) ≡ ok (c1, c2, c3)
  unfolding from_components to_components
  to_components-from_components c1c2c3 = split_raw_old
  to_components-from_components c1c3c2 = split_raw_new
  to_components-from_components c1c2c3_04 = split_raw_old
  to_components-from_components c1c3c2_04 = split_raw_new
  to_components-from_components der =
      rw (der_encode-eq c1 c2 c3 parts) (der_decode-encoded c1 c2 c3 parts)

-- What a raw ciphertext is cut into: components of the right lengths, that join to it again.
abbrev Joins : List ℕ → Bool → Components → Type 0
Joins ct c3_first (c1, c2, c3) =
    AreComponents c1 c2 c3 × (c1 ++ (if c3_first then c3 ++ c2 else c2 ++ c3) ≡ ct)

module _ (ct : List ℕ) (bytes : IsBytes ct) (bound : length ct < 2 ^ 62) where
  split_raw_old-Joins :
      97 ≤ length ct
      → Joins ct false (take 64 ct, slice ct 64 (length ct - 32), drop (length ct - 32) ct)
  split_raw_old-Joins long =
      let n = length ct - 96 in
      let cut : length ct - 32 ≡ 64 + n = omega arith in
      let e : length ct - 32 - 64 ≡ n = omega arith in
      let tail : drop (length ct - 32) ct ≡ drop n (drop 64 ct) =
        ap (λ t. drop t ct) cut ∙ drop-add 64 n ct in
      (
        record {
          c1_length = omega (arith, length-take 64 ct);
          c1_bytes = All-take IsByte 64 ct bytes;
          c3_length = omega (arith, length-drop (length ct - 32) ct);
          c2_nonempty =
              omega (arith, length-take (length ct - 32 - 64) (drop 64 ct), length-drop 64 ct);
          c2_bound =
              omega (arith, length-take (length ct - 32 - 64) (drop 64 ct), length-drop 64 ct);
        },
        rw (e, tail, take-append-drop n (drop 64 ct), take-append-drop 64 ct),
      )

  split_raw_new-Joins : 97 ≤ length ct → Joins ct true (take 64 ct, drop 96 ct, slice ct 64 96)
  split_raw_new-Joins long = (
    record {
      c1_length = omega (arith, length-take 64 ct);
      c1_bytes = All-take IsByte 64 ct bytes;
      c3_length = omega (arith, length-take 32 (drop 64 ct), length-drop 64 ct);
      c2_nonempty = omega (arith, length-drop 96 ct);
      c2_bound = omega (arith, length-drop 96 ct);
    },
    rw (drop-add 64 32 ct, take-append-drop 32 (drop 64 ct), take-append-drop 64 ct),
  )

  split_raw-Joins : (b : Bool) (parts : Components) → split_raw ct b ≡ ok parts → Joins ct b parts
  unfolding split_raw
  split_raw-Joins b parts h = elim (Bool-cases (ltb (length ct) 97)) [
    | inl short ↦ absurd (cc (rw short at h))
    | inr long ↦ by_order b parts (ground arith) (rw long at h)
  ]
    where
      by_order :
          (b : Bool) (parts : Components)
          → 97 ≤ length ct
          → (if b
              then ok (take 64 ct, drop 96 ct, slice ct 64 96)
              else ok (take 64 ct, slice ct 64 (length ct - 32), drop (length ct - 32) ct))
            ≡ ok parts
          → Joins ct b parts
      by_order true parts long e = subst (Joins ct true) (ok-injective e) (split_raw_new-Joins long)
      by_order false parts long e =
          subst (Joins ct false) (ok-injective e) (split_raw_old-Joins long)

-- The formats but DER.
pub data IsRaw : Format → Type 0 where
  raw_old : IsRaw c1c2c3
  raw_new : IsRaw c1c3c2
  raw_old_04 : IsRaw c1c2c3_04
  raw_new_04 : IsRaw c1c3c2_04

-- What a raw format is read to: components, from which the format writes the same bytes.
pub data Reads (ct : List ℕ) (f : Format) : Components → Type 0 where
  reads :
      (c1 c2 c3 : List ℕ)
      → AreComponents c1 c2 c3
      → from_components (c1, c2, c3) f ≡ ok ct
      → Reads ct f (c1, c2, c3)

to_components-Reads :
    (ct : List ℕ) (f : Format) (parts : Components)
    → IsRaw f
    → IsBytes ct
    → length ct < 2 ^ 62
    → to_components ct f ≡ ok parts
    → Reads ct f parts
unfolding to_components from_components strip_04
to_components-Reads ct c1c2c3 (c1, c2, c3) r bytes bound h =
    let j = split_raw-Joins ct bytes bound false (c1, c2, c3) h in reads c1 c2 c3 j.0 (ap ok j.1)
to_components-Reads ct c1c3c2 (c1, c2, c3) r bytes bound h =
    let j = split_raw-Joins ct bytes bound true (c1, c2, c3) h in reads c1 c2 c3 j.0 (ap ok j.1)
to_components-Reads [] c1c2c3_04 (c1, c2, c3) r bytes bound h = absurd (cc)
to_components-Reads (b ∷ ct) c1c2c3_04 (c1, c2, c3) r bytes bound h = elim (Bool-cases (b == 4)) [
  | inl e ↦
      let j = split_raw-Joins ct bytes.1 (omega arith) false (c1, c2, c3) (rw e at h) in
      reads c1 c2 c3 j.0 (rw (j.1, ==_eq b 4 e))
  | inr e ↦ absurd (cc (rw e at h))
]
to_components-Reads [] c1c3c2_04 (c1, c2, c3) r bytes bound h = absurd (cc)
to_components-Reads (b ∷ ct) c1c3c2_04 (c1, c2, c3) r bytes bound h = elim (Bool-cases (b == 4)) [
  | inl e ↦
      let j = split_raw-Joins ct bytes.1 (omega arith) true (c1, c2, c3) (rw e at h) in
      reads c1 c2 c3 j.0 (rw (j.1, ==_eq b 4 e))
  | inr e ↦ absurd (cc (rw e at h))
]
to_components-Reads ct der parts r bytes bound h = not_der r
  where
    not_der : IsRaw der → Reads ct der parts
    not_der q = elim q [ ]

known_format-format_text : (f : Format) → known_format (format_text f) ≡ ok f
unfolding known_format list_eq
known_format-format_text c1c2c3 = refl
known_format-format_text c1c3c2 = refl
known_format-format_text c1c2c3_04 = refl
known_format-format_text c1c3c2_04 = refl
known_format-format_text der = refl

pub convert-eq :
    (ct : List ℕ) (f g : Format) → convert ct (format_text f) (format_text g) ≡ convert_known ct f g
unfolding convert
convert-eq ct f g = rw (known_format-format_text f, known_format-format_text g)

-- Written in `g`, the components are what `g` reads.
pub to_components_of_written :
    (c1 c2 c3 ct : List ℕ) (g : Format)
    → AreComponents c1 c2 c3
    → from_components (c1, c2, c3) g ≡ ok ct
    → to_components ct g ≡ ok (c1, c2, c3)
to_components_of_written c1 c2 c3 ct g parts h =
    rw h at (to_components-from_components c1 c2 c3 parts g)

convert_back_known :
    (ct ct' : List ℕ) (f g : Format) (parts : Components)
    → Reads ct f parts
    → from_components parts g ≡ ok ct'
    → convert_known ct' g f ≡ ok ct
unfolding convert_known
convert_back_known ct ct' f g parts (reads c1 c2 c3 are back) h =
    rw (to_components_of_written c1 c2 c3 ct' g are h) back

-- A ciphertext of fewer than 2^62 bytes in one of the four raw formats that is converted to any of
-- the five formats is converted back to the very same bytes.
pub convert_back :
    (ct ct' : List ℕ) (f g : Format)
    → IsRaw f
    → IsBytes ct
    → length ct < 2 ^ 62
    → convert ct (format_text f) (format_text g) ≡ ok ct'
    → convert ct' (format_text g) (format_text f) ≡ ok ct
unfolding convert_known
convert_back ct ct' f g raw bytes bound h =
    unbind (to_components ct f) (sym (convert-eq ct f g) ∙ h) λ parts read written.
      convert-eq ct' g f
      ∙ convert_back_known ct ct' f g parts (to_components-Reads ct f parts raw bytes bound read)
          written

of_Reads : {ct c1 c2 c3 : List ℕ} {f : Format} → Reads ct f (c1, c2, c3) → AreComponents c1 c2 c3
of_Reads (reads c1 c2 c3 are back) = are

pub to_components-AreComponents :
    (ct c1 c2 c3 : List ℕ) (f : Format)
    → IsBytes ct
    → length ct < 2 ^ 62
    → to_components ct f ≡ ok (c1, c2, c3)
    → AreComponents c1 c2 c3
unfolding to_components
to_components-AreComponents ct c1 c2 c3 c1c2c3 bytes bound h =
    of_Reads (to_components-Reads ct c1c2c3 (c1, c2, c3) raw_old bytes bound h)
to_components-AreComponents ct c1 c2 c3 c1c3c2 bytes bound h =
    of_Reads (to_components-Reads ct c1c3c2 (c1, c2, c3) raw_new bytes bound h)
to_components-AreComponents ct c1 c2 c3 c1c2c3_04 bytes bound h =
    of_Reads (to_components-Reads ct c1c2c3_04 (c1, c2, c3) raw_old_04 bytes bound h)
to_components-AreComponents ct c1 c2 c3 c1c3c2_04 bytes bound h =
    of_Reads (to_components-Reads ct c1c3c2_04 (c1, c2, c3) raw_new_04 bytes bound h)
to_components-AreComponents ct c1 c2 c3 der bytes bound h =
    der_decode-AreComponents ct c1 c2 c3 bound h

-- Conversion of fewer than 2^62 bytes from any format to any format, where it succeeds, leaves the
-- three components that are read from them as they are.
pub to_components-convert :
    (ct ct' : List ℕ) (f g : Format)
    → IsBytes ct
    → length ct < 2 ^ 62
    → convert ct (format_text f) (format_text g) ≡ ok ct'
    → to_components ct' g ≡ to_components ct f
unfolding convert_known
to_components-convert ct ct' f g bytes bound h =
    unbind (to_components ct f) (sym (convert-eq ct f g) ∙ h) λ parts read written.
      to_components_of_written parts.0 parts.1 parts.2 ct' g
        (to_components-AreComponents ct parts.0 parts.1 parts.2 f bytes bound read) written
      ∙ sym read
