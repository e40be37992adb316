-- ===== src/Tools/Sm2cvt/RoundTrip.antt =====
-- `convert` through the command line, there and back.
use sip_protocol.Prelude.{
  ℕ, ◌<◌, ◌^◌, ◌≡◌, refl, ap, sym, ◌∙◌, List, [], ◌∷◌, Bool, true, false, ◌&&◌, none, some, ok, err,
  length, unbind, sm2_format, list_eq,
}
use sip_protocol.Python.Bytes.{IsBytes}
use sip_protocol.Python.Hex.{hex}
use sip_protocol.Crypto.Sm2Ciphertext.Format.{
  Format, c1c2c3, c1c3c2, c1c2c3_04, c1c3c2_04, der, format_text, convert, convert_known,
  to_components, split_raw, strip_04,
}
use sip_protocol.Crypto.Sm2Ciphertext.Format.RoundTrip.{IsRaw, convert_back, convert-eq}
use sip_protocol.Crypto.Sm2Ciphertext.Der.{der_decode, der_decode_tlv}
use sip_protocol.Crypto.Sm3.{Sm3}
use sip_protocol.Tools.Input.{World, Source, remove_spaces, strip_0x, read_text}
use sip_protocol.Tools.Input.Base64.{decode_hex-hex, remove_spaces-hex, starts_0x-hex}
use sip_protocol.Tools.Sm2cvt.{
  line, convert_to, is_empty_text, decode_given, load_ciphertext, text_out, write_text, cmd_convert,
  handle, report, main,
}

-- a text of hexadecimal digits as the argument
abbrev pub given : List ℕ → Source
given t = record { argument = some t; file = none; hex_channel = false; b64_channel = false }

hex_not_dash : (b : ℕ) (bs : List ℕ) → list_eq (hex (b ∷ bs)) (45 ∷ []) ≡ false
unfolding hex list_eq
hex_not_dash b bs = and_false _
  where
    and_false : (c : Bool) → (c && false) ≡ false
    and_false true = refl
    and_false false = refl

read_given :
    (world : World) (b : ℕ) (bs : List ℕ)
    → read_text world (some (hex (b ∷ bs))) none ≡ ok (hex (b ∷ bs))
unfolding read_text
read_given world b bs = rw (read_text, hex_not_dash b bs) refl

decode_given-hex :
    (b : ℕ) (bs : List ℕ) → IsBytes (b ∷ bs) → decode_given (hex (b ∷ bs)) false ≡ ok (b ∷ bs)
unfolding decode_given
decode_given-hex b bs h =
    let shown : is_empty_text (strip_0x (remove_spaces (hex (b ∷ bs)))) ≡ false =
      ap (λ t. is_empty_text (strip_0x t)) (remove_spaces-hex (b ∷ bs) h) ∙ seen b bs h in
    rw (shown) (decode_hex-hex (b ∷ bs) h)
  where
    stripped : (b : ℕ) (bs : List ℕ) → IsBytes (b ∷ bs) → strip_0x (hex (b ∷ bs)) ≡ hex (b ∷ bs)
    stripped b bs h = unfold strip_0x in rw (starts_0x-hex (b ∷ bs) h) refl

    seen :
        (b : ℕ) (bs : List ℕ) → IsBytes (b ∷ bs) → is_empty_text (strip_0x (hex (b ∷ bs))) ≡ false
    seen b bs h = ap is_empty_text (stripped b bs h) ∙ unfold is_empty_text hex in refl

-- What is printed is read back.
load_ciphertext-hex :
    (world : World) (b : ℕ) (bs : List ℕ)
    → IsBytes (b ∷ bs)
    → load_ciphertext world (given (hex (b ∷ bs))) ≡ ok (b ∷ bs)
unfolding load_ciphertext
load_ciphertext-hex world b bs h = rw (read_given world b bs) (decode_given-hex b bs h)

nothing_read : (f : Format) → to_components [] f ≡ err sm2_format
unfolding to_components split_raw strip_04 der_decode der_decode_tlv
nothing_read c1c2c3 = refl
nothing_read c1c3c2 = refl
nothing_read c1c2c3_04 = refl
nothing_read c1c3c2_04 = refl
nothing_read der = refl

no_empty : (f g : Format) (ct : List ℕ) → ¬ (convert [] (format_text f) (format_text g) ≡ ok ct)
unfolding convert_known
no_empty f g ct h = unbind (to_components [] f) (sym (convert-eq [] f g) ∙ h) λ parts read written.
    absurd (let k : err sm2_format ≡ ok parts = sym (nothing_read f) ∙ read in cc)

-- `sip-sm2cvt convert` there and back: where a ciphertext in a raw format was read and converted,
-- and the hexadecimal line that is printed is given to `convert` with the formats exchanged, the
-- exit code is 0 and the line printed is the original ciphertext.
pub main-convert_back :
    (sm3 : Sm3) (world : World) (f g : Format) (source : Source) (ct ct' : List ℕ)
    → IsRaw f
    → IsBytes ct
    → length ct < 2 ^ 62
    → IsBytes ct'
    → load_ciphertext world source ≡ ok ct
    → convert ct (format_text f) (format_text g) ≡ ok ct'
    → (main sm3 world (convert_to f g source none false)
        ≡ ok record { exit_code = 0; stdout = line (hex ct') })
      × (main sm3 world (convert_to g f (given (hex ct')) none false)
          ≡ ok record { exit_code = 0; stdout = line (hex ct) })
unfolding main handle cmd_convert report write_text text_out
main-convert_back sm3 world f g source ct [] raw bytes bound bytes' hl hc =
    absurd (no_empty g f ct (convert_back ct [] f g raw bytes bound hc))
main-convert_back sm3 world f g source ct (b ∷ bs) raw bytes bound bytes' hl hc = (
  rw (hl, hc) refl,
  rw (load_ciphertext-hex world b bs bytes', convert_back ct (b ∷ bs) f g raw bytes bound hc) refl,
)
