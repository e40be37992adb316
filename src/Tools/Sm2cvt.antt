-- ===== src/Tools/Sm2cvt.antt =====
-- tools/sm2cvt.py: the commands on SM2 ciphertexts.
pub mod RoundTrip
use sip_protocol.Prelude.{
  ℕ, List, [], ◌∷◌, ◌++◌, Bool, true, false, not, Option, none, some, Error, Result, ok, err, ◌>>=◌,
  ◌>>◌, guard, value_error, sm2_format, sm2_decrypt, zero_keystream, file_not_found, is_value_error,
  length, ◌==◌, if◌then◌else◌,
}
use sip_protocol.Python.Base64.{b64encode}
use sip_protocol.Python.Bytes.{from_bytes}
use sip_protocol.Python.Hex.{hex}
use sip_protocol.Crypto.Primitives.{Bytes}
use sip_protocol.Crypto.Sm2.{private_key_length, from_private_bytes}
use sip_protocol.Crypto.Sm2Ciphertext.Format.{Format, format_text, convert, detect_format}
use sip_protocol.Crypto.Sm2Ciphertext.Decrypt.{verify_c3, decrypt_ciphertext, make_derive}
use sip_protocol.Crypto.Sm3.{Sm3}
use sip_protocol.Tools.Input.{
  World, Source, remove_spaces, strip_0x, decode_b64, decode_hex, read_text,
}

-- What a command prints on standard output: a text, or one of the verdicts, of which the
-- last is that of a key stream of zeros.
pub data Printed : Type 0 where
  nothing : Printed
  line : List ℕ → Printed
  c3_passed : Format → Printed
  c3_failed : Printed
  keystream_failed : Printed

-- the exit code, and what is printed
pub record Outcome : Type 0 where
  pub exit_code : ℕ
  pub stdout : Printed

-- the four commands of `_build_parser`, which admits only known formats
pub data Command : Type 0 where
  detect : Source → Command
  convert_to : Format → Format → Source → Option (List ℕ) → Bool → Command
  verify : Format → List ℕ → Source → Command
  decrypt_as : Format → List ℕ → Source → Bool → Command

unfoldable pub is_empty_text : List ℕ → Bool
is_empty_text [] = true
is_empty_text (c ∷ cs) = false

-- a text of hexadecimal digits, where nothing but the prefix `0x` counts as empty
unfoldable pub decode_given : List ℕ → Bool → Result Bytes
decode_given t true = do guard (not (is_empty_text (remove_spaces t))) value_error; decode_b64 t
decode_given t false = do
  guard (not (is_empty_text (strip_0x (remove_spaces t)))) value_error
  decode_hex t

-- `_load_ciphertext`
unfoldable pub load_ciphertext : World → Source → Result Bytes
unfolding decode_given
load_ciphertext world source = do
  t ← read_text world source.argument source.file
  decode_given t source.b64_channel

-- `_parse_privkey`
unfoldable pub parse_privkey : List ℕ → Result Bytes
parse_privkey privkey_hex = do
  raw ← decode_hex privkey_hex
  guard (length raw == private_key_length) value_error
  ok raw

-- `base64.b64encode(out).decode("ascii") if args.out_b64 else out.hex()`
unfoldable pub text_out : Bytes → Bool → List ℕ
text_out bs true = b64encode bs
text_out bs false = hex bs

unfoldable pub write_text : World → Option (List ℕ) → List ℕ → Result Outcome
write_text world none t = ok record { exit_code = 0; stdout = line t }
write_text world (some path) t = do
  world.write_file path (t ++ (10 ∷ []))
  ok record { exit_code = 0; stdout = nothing }

-- what `_cmd_verify` prints
unfoldable pub verdict : Bool → Format → Outcome
verdict true fmt = record { exit_code = 0; stdout = c3_passed fmt }
verdict false fmt = record { exit_code = 1; stdout = c3_failed }

-- `_cmd_detect`
unfoldable pub cmd_detect : World → Source → Result Outcome
cmd_detect world source = do
  ct ← load_ciphertext world source
  fmt ← detect_format ct
  ok record { exit_code = 0; stdout = line (format_text fmt) }

-- `_cmd_convert`
unfoldable pub cmd_convert :
    World → Format → Format → Source → Option (List ℕ) → Bool → Result Outcome
unfolding text_out write_text
cmd_convert world from to source out out_b64 = do
  ct ← load_ciphertext world source
  converted ← convert ct (format_text from) (format_text to)
  write_text world out (text_out converted out_b64)

module _ (sm3 : Sm3) where
  -- `_cmd_verify`
  unfoldable pub cmd_verify : World → Format → List ℕ → Source → Result Outcome
  cmd_verify world fmt privkey source = do
    raw ← parse_privkey privkey
    priv ← from_private_bytes raw
    ct ← load_ciphertext world source
    passed ← verify_c3 sm3 ct fmt (some (make_derive priv)) sm3.digest
    ok (verdict passed fmt)

  -- what `_cmd_decrypt` prints
  unfoldable pub decrypted : Result Bytes → Bool → Result Outcome
  unfolding text_out
  decrypted (ok msg) out_b64 = ok record { exit_code = 0; stdout = line (text_out msg out_b64) }
  decrypted (err Error.sm2_decrypt) out_b64 = ok record { exit_code = 1; stdout = c3_failed }
  decrypted (err Error.zero_keystream) out_b64 =
      ok record { exit_code = 1; stdout = keystream_failed }
  decrypted (err e) out_b64 = err e

  -- `_cmd_decrypt`
  unfoldable pub cmd_decrypt : World → Format → List ℕ → Source → Bool → Result Outcome
  unfolding decrypted
  cmd_decrypt world fmt privkey source out_b64 = do
    raw ← parse_privkey privkey
    ct ← load_ciphertext world source
    decrypted (decrypt_ciphertext sm3 ct fmt (from_bytes raw)) out_b64

  unfoldable pub handle : World → Command → Result Outcome
  unfolding cmd_detect cmd_convert cmd_verify cmd_decrypt
  handle world (detect source) = cmd_detect world source
  handle world (convert_to from to source out out_b64) =
      cmd_convert world from to source out out_b64
  handle world (verify fmt privkey source) = cmd_verify world fmt privkey source
  handle world (decrypt_as fmt privkey source out_b64) =
      cmd_decrypt world fmt privkey source out_b64

  -- `except (Sm2CiphertextFormatError, ValueError, OSError)`
  unfoldable pub is_reported : Error → Bool
  is_reported Error.sm2_format = true
  is_reported Error.file_not_found = true
  is_reported e = is_value_error e

  unfoldable pub report : Result Outcome → Result Outcome
  unfolding is_reported
  report (ok outcome) = ok outcome
  report (err e) = if is_reported e then ok record { exit_code = 2; stdout = nothing } else err e

  -- `main`
  unfoldable pub main : World → Command → Result Outcome
  unfolding report handle
  main world command = report (handle world command)
