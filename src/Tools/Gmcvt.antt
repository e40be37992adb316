-- ===== src/Tools/Gmcvt.antt =====
-- tools/gmcvt.py: digests, MACs and derived keys of the Chinese suite.
use sip_protocol.Prelude.{
  ℕ, ◌-◌, List, [], ◌∷◌, Bool, true, false, ◌&&◌, Error, Result, ok, err, ◌>>=◌, ◌>>◌, guard,
  value_error, is_value_error, length, take, drop, leb, list_eq, if◌then◌else◌,
}
use sip_protocol.Python.Hex.{hex}
use sip_protocol.Python.Utf8
use sip_protocol.Crypto.Suite.{zh}
use sip_protocol.Crypto.Primitives.{Bytes, Primitives}
use sip_protocol.Crypto.Hkdf.{hkdf}
use sip_protocol.Crypto.Sm3.{Sm3}
use sip_protocol.Tools.Input.{World, Source, read_text, decode_b64, decode_hex}
use sip_protocol.Tools.Sm2cvt.{Outcome, line, nothing}

-- `HKDF_SM3_MAX_LENGTH`
abbrev pub hkdf_sm3_max_length : ℕ
hkdf_sm3_max_length = 8160

-- the three commands
pub data HashCommand : Type 0 where
  sm3_hash : Source → HashCommand
  hmac_of : List ℕ → Source → HashCommand
  hkdf_of : List ℕ → List ℕ → ℕ → Source → HashCommand

unfoldable pub ends_with : List ℕ → List ℕ → Bool
ends_with t suffix =
    leb (length suffix) (length t) && list_eq (drop (length t - length suffix) t) suffix

-- `_strip_trailing_newline`
unfoldable pub strip_trailing_newline : List ℕ → List ℕ
unfolding ends_with
strip_trailing_newline t =
    if ends_with t (13 ∷ 10 ∷ [])
    then take (length t - 2) t
    else if ends_with t (10 ∷ [])
    then take (length t - 1) t
    else t

unfoldable pub decode_message : List ℕ → Bool → Bool → Result Bytes
unfolding strip_trailing_newline
decode_message t hex_channel true = decode_b64 t
decode_message t true false = decode_hex t
decode_message t false false = Utf8.encode (strip_trailing_newline t)

-- `_load_message`
unfoldable pub load_message : World → Source → Result Bytes
unfolding decode_message
load_message world source = do
  t ← read_text world source.argument source.file
  decode_message t source.hex_channel source.b64_channel

unfoldable pub print_hex : Bytes → Outcome
print_hex bs = record { exit_code = 0; stdout = line (hex bs) }

module _ (p : Primitives) (sm3 : Sm3) where
  -- `_cmd_sm3`
  unfoldable pub cmd_sm3 : World → Source → Result Outcome
  cmd_sm3 world source = do message ← load_message world source; ok (print_hex (sm3.digest message))

  -- `_cmd_hmac_sm3`
  unfoldable pub cmd_hmac_sm3 : World → List ℕ → Source → Result Outcome
  cmd_hmac_sm3 world key_text source = do
    key ← decode_hex key_text
    message ← load_message world source
    ok (print_hex (p.hmac_digest zh key message))

  -- `_cmd_hkdf_sm3`
  unfoldable pub cmd_hkdf_sm3 : World → List ℕ → List ℕ → ℕ → Source → Result Outcome
  cmd_hkdf_sm3 world salt_text info_text n source = do
    guard (leb 1 n && leb n hkdf_sm3_max_length) value_error
    ikm ← load_message world source
    salt ← decode_hex salt_text
    info ← decode_hex info_text
    ok (print_hex (hkdf p ikm salt info n zh))

  unfoldable pub handle_hash : World → HashCommand → Result Outcome
  unfolding cmd_sm3 cmd_hmac_sm3 cmd_hkdf_sm3
  handle_hash world (sm3_hash source) = cmd_sm3 world source
  handle_hash world (hmac_of key source) = cmd_hmac_sm3 world key source
  handle_hash world (hkdf_of salt info n source) = cmd_hkdf_sm3 world salt info n source

  -- `except (ValueError, OSError)`
  unfoldable pub is_usage : Error → Bool
  is_usage Error.file_not_found = true
  is_usage e = is_value_error e

  unfoldable pub report_hash : Result Outcome → Result Outcome
  unfolding is_usage
  report_hash (ok outcome) = ok outcome
  report_hash (err e) = if is_usage e then ok record { exit_code = 2; stdout = nothing } else err e

  -- `main`
  unfoldable pub main_hash : World → HashCommand → Result Outcome
  unfolding report_hash handle_hash
  main_hash world command = report_hash (handle_hash world command)
