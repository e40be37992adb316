-- ===== src/Tests/Tools.antt =====
-- Runs of the command lines.
use sip_protocol.Prelude.{
  value_error, file_not_found, if◌then◌else◌, ℕ, ◌≡◌, refl, List, [], ◌∷◌, false, none, ok, err,
  codes, arith, list_eq,
}
use sip_protocol.Python.Hex.{hex_digit, hex, digit_value, is_space, hex_pair, fromhex}
use sip_protocol.Python.Base64.{
  b64_char, b64_value, b64encode, take_bits, put_byte, b64_loop, is_ascii, b64decode,
}
use sip_protocol.Crypto.Sm2Ciphertext.Format.{
  format_text, known_format, split_raw, strip_04, to_components, from_components, convert_known,
  convert, detect_raw, after_der, starts_with_sequence, detect_format, c1c2c3, c1c2c3_04,
}
use sip_protocol.Tools.Input.{
  is_split_space, remove_spaces, starts_0x, read_file_or_stdin, read_text, to_standard, is_data,
  is_padding, is_strict, decode_b64, strip_0x, decode_hex, World,
}
use sip_protocol.Tools.Sm2cvt.{
  is_empty_text, decode_given, load_ciphertext, parse_privkey, text_out, write_text, verdict,
  cmd_detect, cmd_convert, cmd_verify, decrypted, cmd_decrypt, handle, is_reported, report, main,
  line, convert_to,
}
use sip_protocol.Crypto.Sm2Ciphertext.Format.RoundTrip.{raw_old}
use sip_protocol.Tools.Input.Base64.{decode_b64-b64encode}
use sip_protocol.Tools.Sm2cvt.RoundTrip.{given, main-convert_back}
use sip_protocol.Tests.Toys.{toy_sm3}
use sip_protocol.Tests.Crypto.{raw, raw-IsBytes}

abbrev no_files : World
no_files = record {
  stdin = ok [];
  read_file = λ path. err file_not_found;
  write_file = λ path t. err file_not_found;
}

abbrev raw_hex : List ℕ
raw_hex = hex raw

loaded : load_ciphertext no_files (given raw_hex) ≡ ok raw
unfolding list_eq hex_digit hex digit_value is_space hex_pair fromhex b64_char b64_value b64encode
    take_bits put_byte b64_loop is_ascii b64decode format_text known_format split_raw strip_04
    to_components from_components convert_known convert detect_raw after_der starts_with_sequence
    detect_format is_split_space remove_spaces starts_0x read_file_or_stdin read_text to_standard
    is_data is_padding is_strict decode_b64 strip_0x decode_hex is_empty_text decode_given
    load_ciphertext parse_privkey text_out write_text verdict cmd_detect cmd_convert cmd_verify
    decrypted cmd_decrypt handle is_reported report main
loaded = refl

prefixed : convert raw (format_text c1c2c3) (format_text c1c2c3_04) ≡ ok (4 ∷ raw)
unfolding list_eq hex_digit hex digit_value is_space hex_pair fromhex b64_char b64_value b64encode
    take_bits put_byte b64_loop is_ascii b64decode format_text known_format split_raw strip_04
    to_components from_components convert_known convert detect_raw after_der starts_with_sequence
    detect_format is_split_space remove_spaces starts_0x read_file_or_stdin read_text to_standard
    is_data is_padding is_strict decode_b64 strip_0x decode_hex is_empty_text decode_given
    load_ciphertext parse_privkey text_out write_text verdict cmd_detect cmd_convert cmd_verify
    decrypted cmd_decrypt handle is_reported report main
prefixed = refl

main-convert_back_example :
    (main toy_sm3 no_files (convert_to c1c2c3 c1c2c3_04 (given raw_hex) none false)
      ≡ ok record { exit_code = 0; stdout = line (hex (4 ∷ raw)) })
    × (main toy_sm3 no_files (convert_to c1c2c3_04 c1c2c3 (given (hex (4 ∷ raw))) none false)
        ≡ ok record { exit_code = 0; stdout = line (hex raw) })
main-convert_back_example =
    main-convert_back toy_sm3 no_files c1c2c3 c1c2c3_04 (given raw_hex) raw (4 ∷ raw) raw_old
      raw-IsBytes (omega arith) (omega arith, raw-IsBytes) loaded prefixed

-- The bytes D3 10, whose base64 text is `0xA=`.
abbrev unlucky : List ℕ
unlucky = 0xD3 ∷ 0x10 ∷ []

decode_b64-b64encode_example :
    decode_b64 (b64encode unlucky)
    ≡ (if starts_0x (b64encode unlucky) then err value_error else ok unlucky)
decode_b64-b64encode_example = decode_b64-b64encode unlucky (omega arith)

test_refused : decode_b64 (codes "0xA=") ≡ err value_error
unfolding list_eq hex_digit hex digit_value is_space hex_pair fromhex b64_char b64_value b64encode
    take_bits put_byte b64_loop is_ascii b64decode format_text known_format split_raw strip_04
    to_components from_components convert_known convert detect_raw after_der starts_with_sequence
    detect_format is_split_space remove_spaces starts_0x read_file_or_stdin read_text to_standard
    is_data is_padding is_strict decode_b64 strip_0x decode_hex is_empty_text decode_given
    load_ciphertext parse_privkey text_out write_text verdict cmd_detect cmd_convert cmd_verify
    decrypted cmd_decrypt handle is_reported report main
test_refused = refl

test_unlucky : b64encode unlucky ≡ codes "0xA="
unfolding list_eq hex_digit hex digit_value is_space hex_pair fromhex b64_char b64_value b64encode
    take_bits put_byte b64_loop is_ascii b64decode format_text known_format split_raw strip_04
    to_components from_components convert_known convert detect_raw after_der starts_with_sequence
    detect_format is_split_space remove_spaces starts_0x read_file_or_stdin read_text to_standard
    is_data is_padding is_strict decode_b64 strip_0x decode_hex is_empty_text decode_given
    load_ciphertext parse_privkey text_out write_text verdict cmd_detect cmd_convert cmd_verify
    decrypted cmd_decrypt handle is_reported report main
test_unlucky = refl
