-- ===== src/Tests/Rekey.antt =====
-- Runs of a change of keys.
use sip_protocol.Prelude.{
  ◌<◌, ◌≡◌, ◌⊎◌, refl, [], ◌∷◌, Bool, true, false, none, some, ok, codes, arith, list_eq,
}
use sip_protocol.Python.Hex.{hex_digit, hex, digit_value, is_space, hex_pair, fromhex}
use sip_protocol.Python.Base64.{
  b64_char, b64_value, b64encode, take_bits, put_byte, b64_loop, is_ascii, b64decode,
}
use sip_protocol.Python.Utf8.{
  is_surrogate, encode_char, encode, is_tail, with_char, start_char, is_valid_char, decode_loop,
  decode,
}
use sip_protocol.Python.Json.{
  decimal_loop, decimal, escape_unit, escape_char, escape, dump_value, dump_fields, dumps,
}
use sip_protocol.Crypto.Suite.{suite_text, validate_suite, match_offer, negotiate_suite, en}
use sip_protocol.Crypto.Hkdf.{split_keys, hkdf, derive_keys_triple_dh, derive_keys, Keys}
use sip_protocol.Crypto.Dh.{
  first_draw, generate_keypair, dh_exchange, serialize_public_key, serialize_private_key, parse_raw,
  parse_public_key,
}
use sip_protocol.Crypto.Aead.{aead_encrypt, aead_decrypt}
use sip_protocol.Protocol.Message.{
  as_value_error, suite_field, compare_text, generate_replay_tag, verify_replay_tag, optional_tag,
  encrypt_message, decrypt_message,
}
use sip_protocol.Protocol.Handshake.{
  is_version, is_fresh, open_message, read_key, read_nonce, auth_bytes, complete_bytes,
  identity_pair, exchange_three, initiate_handshake, respond_handshake, complete_handshake,
}
use sip_protocol.Protocol.Rekey.{
  make_manager, check, caught, request_text, response_text, is_next, sign, create_rekey_request,
  validate_rekey_request, derive_new_keys, answer_request, save_answer, continue_request,
  checked_sequence, process_rekey_request, validate_rekey_response, process_rekey_response,
  apply_new_keys, RekeyManager, RekeyRequest, RekeyResponse, RekeyInputs,
}
use sip_protocol.Protocol.Rekey.Agreement.{process_rekey_response-request}
use sip_protocol.Protocol.Rekey.Sequence.{
  process_rekey_request_sequence, process_rekey_request_replay, process_rekey_response_once,
}
use sip_protocol.Tests.Toys.{toy_primitives, get_ok}

abbrev no_keys : Keys
no_keys = record { encryption_key = []; auth_key = []; replay_key = [] }

-- Two managers after the same handshake.
abbrev session_keys : Keys
session_keys = record { encryption_key = 1 ∷ []; auth_key = 2 ∷ []; replay_key = 3 ∷ [] }

abbrev manager : Bool → RekeyManager
manager is_initiator = record {
  keys = session_keys;
  rekey_count = 0;
  rekey_sequence = 0;
  is_initiator = is_initiator;
  suite = en;
  temp_new_ephemeral_private_key = none;
  temp_new_ephemeral_nonce = none;
  temp_new_keys = none;
}

abbrev rekey_a : RekeyInputs
rekey_a = record { draws = (5 ∷ []) ∷ []; nonce = 1 ∷ 2 ∷ []; read_at = 0; made_at = 1000 }

abbrev rekey_b : RekeyInputs
rekey_b = record { draws = (7 ∷ []) ∷ []; nonce = 3 ∷ 4 ∷ []; read_at = 1500; made_at = 1600 }

abbrev blank_request : RekeyRequest
blank_request = record {
  version = none;
  timestamp = none;
  sequence = none;
  ephemeral_pub = none;
  nonce = none;
  reason = none;
  key_lifetime = none;
  signature = none;
}

abbrev blank_response : RekeyResponse
blank_response = record {
  version = none;
  timestamp = none;
  sequence = none;
  ephemeral_pub = none;
  nonce = none;
  signature = none;
}

abbrev requested : RekeyRequest × RekeyManager
requested =
    get_ok (create_rekey_request toy_primitives rekey_a (manager true) (codes "scheduled") 3600)
      (blank_request, manager true)

abbrev answered : RekeyManager × RekeyResponse
answered =
    let r = process_rekey_request toy_primitives rekey_b (manager false) requested.0 in
    (r.0, get_ok r.1 blank_response)

requested-ok :
    create_rekey_request toy_primitives rekey_a (manager true) (codes "scheduled") 3600
    ≡ ok requested
unfolding list_eq hex_digit hex digit_value is_space hex_pair fromhex b64_char b64_value b64encode
    take_bits put_byte b64_loop is_ascii b64decode is_surrogate encode_char encode is_tail with_char
    start_char is_valid_char decode_loop decode decimal_loop decimal escape_unit escape_char escape
    dump_value dump_fields dumps suite_text validate_suite match_offer negotiate_suite split_keys
    hkdf derive_keys_triple_dh derive_keys first_draw generate_keypair dh_exchange
    serialize_public_key serialize_private_key parse_raw parse_public_key aead_encrypt aead_decrypt
    as_value_error suite_field compare_text generate_replay_tag verify_replay_tag optional_tag
    encrypt_message decrypt_message is_version is_fresh open_message read_key read_nonce auth_bytes
    complete_bytes identity_pair exchange_three initiate_handshake respond_handshake
    complete_handshake make_manager check caught request_text response_text is_next sign
    create_rekey_request validate_rekey_request derive_new_keys answer_request save_answer
    continue_request checked_sequence process_rekey_request validate_rekey_response
    process_rekey_response apply_new_keys
requested-ok = refl

answered-ok :
    process_rekey_request toy_primitives rekey_b (manager false) requested.0
    ≡ (answered.0, ok answered.1)
unfolding list_eq hex_digit hex digit_value is_space hex_pair fromhex b64_char b64_value b64encode
    take_bits put_byte b64_loop is_ascii b64decode is_surrogate encode_char encode is_tail with_char
    start_char is_valid_char decode_loop decode decimal_loop decimal escape_unit escape_char escape
    dump_value dump_fields dumps suite_text validate_suite match_offer negotiate_suite split_keys
    hkdf derive_keys_triple_dh derive_keys first_draw generate_keypair dh_exchange
    serialize_public_key serialize_private_key parse_raw parse_public_key aead_encrypt aead_decrypt
    as_value_error suite_field compare_text generate_replay_tag verify_replay_tag optional_tag
    encrypt_message decrypt_message is_version is_fresh open_message read_key read_nonce auth_bytes
    complete_bytes identity_pair exchange_three initiate_handshake respond_handshake
    complete_handshake make_manager check caught request_text response_text is_next sign
    create_rekey_request validate_rekey_request derive_new_keys answer_request save_answer
    continue_request checked_sequence process_rekey_request validate_rekey_response
    process_rekey_response apply_new_keys
answered-ok = refl

process_rekey_response-request_example :
    (new_keys : Keys) × (used : RekeyManager) × (process_rekey_response toy_primitives 1700
        requested.1 answered.1
      ≡ ok (new_keys, used))
    × (answered.0.temp_new_keys ≡ some new_keys)
process_rekey_response-request_example =
    process_rekey_response-request toy_primitives rekey_a rekey_b (manager true) requested.1
      (manager false) answered.0 (codes "scheduled") 3600 1700 requested.0 answered.1 (omega arith)
      (omega arith) refl refl refl requested-ok answered-ok (unfold is_fresh in refl)

process_rekey_request_sequence_example :
    (requested.0.sequence ≡ some answered.0.rekey_sequence)
    × (((manager false).rekey_sequence ≡ 0) ⊎ (0 < answered.0.rekey_sequence))
process_rekey_request_sequence_example =
    process_rekey_request_sequence toy_primitives rekey_b (manager false) answered.0 requested.0
      answered.1 answered-ok

sequence_zero : requested.0.sequence ≡ some 0
unfolding list_eq hex_digit hex digit_value is_space hex_pair fromhex b64_char b64_value b64encode
    take_bits put_byte b64_loop is_ascii b64decode is_surrogate encode_char encode is_tail with_char
    start_char is_valid_char decode_loop decode decimal_loop decimal escape_unit escape_char escape
    dump_value dump_fields dumps suite_text validate_suite match_offer negotiate_suite split_keys
    hkdf derive_keys_triple_dh derive_keys first_draw generate_keypair dh_exchange
    serialize_public_key serialize_private_key parse_raw parse_public_key aead_encrypt aead_decrypt
    as_value_error suite_field compare_text generate_replay_tag verify_replay_tag optional_tag
    encrypt_message decrypt_message is_version is_fresh open_message read_key read_nonce auth_bytes
    complete_bytes identity_pair exchange_three initiate_handshake respond_handshake
    complete_handshake make_manager check caught request_text response_text is_next sign
    create_rekey_request validate_rekey_request derive_new_keys answer_request save_answer
    continue_request checked_sequence process_rekey_request validate_rekey_response
    process_rekey_response apply_new_keys
sequence_zero = refl

process_rekey_request_replay_example :
    validate_rekey_request toy_primitives 1700 answered.0 requested.0
    ≡ validate_rekey_request toy_primitives 1700 (manager false) requested.0
process_rekey_request_replay_example =
    process_rekey_request_replay toy_primitives rekey_b (manager false) answered.0 requested.0
      requested.0 answered.1 1700 answered-ok sequence_zero

-- The answered request is valid for the manager that answered it.
test_replay : validate_rekey_request toy_primitives 1700 answered.0 requested.0 ≡ ok true
unfolding list_eq hex_digit hex digit_value is_space hex_pair fromhex b64_char b64_value b64encode
    take_bits put_byte b64_loop is_ascii b64decode is_surrogate encode_char encode is_tail with_char
    start_char is_valid_char decode_loop decode decimal_loop decimal escape_unit escape_char escape
    dump_value dump_fields dumps suite_text validate_suite match_offer negotiate_suite split_keys
    hkdf derive_keys_triple_dh derive_keys first_draw generate_keypair dh_exchange
    serialize_public_key serialize_private_key parse_raw parse_public_key aead_encrypt aead_decrypt
    as_value_error suite_field compare_text generate_replay_tag verify_replay_tag optional_tag
    encrypt_message decrypt_message is_version is_fresh open_message read_key read_nonce auth_bytes
    complete_bytes identity_pair exchange_three initiate_handshake respond_handshake
    complete_handshake make_manager check caught request_text response_text is_next sign
    create_rekey_request validate_rekey_request derive_new_keys answer_request save_answer
    continue_request checked_sequence process_rekey_request validate_rekey_response
    process_rekey_response apply_new_keys
test_replay = refl

abbrev used : Keys × RekeyManager
used =
    get_ok (process_rekey_response toy_primitives 1700 requested.1 answered.1)
      (no_keys, manager true)

used-ok : process_rekey_response toy_primitives 1700 requested.1 answered.1 ≡ ok used
unfolding list_eq hex_digit hex digit_value is_space hex_pair fromhex b64_char b64_value b64encode
    take_bits put_byte b64_loop is_ascii b64decode is_surrogate encode_char encode is_tail with_char
    start_char is_valid_char decode_loop decode decimal_loop decimal escape_unit escape_char escape
    dump_value dump_fields dumps suite_text validate_suite match_offer negotiate_suite split_keys
    hkdf derive_keys_triple_dh derive_keys first_draw generate_keypair dh_exchange
    serialize_public_key serialize_private_key parse_raw parse_public_key aead_encrypt aead_decrypt
    as_value_error suite_field compare_text generate_replay_tag verify_replay_tag optional_tag
    encrypt_message decrypt_message is_version is_fresh open_message read_key read_nonce auth_bytes
    complete_bytes identity_pair exchange_three initiate_handshake respond_handshake
    complete_handshake make_manager check caught request_text response_text is_next sign
    create_rekey_request validate_rekey_request derive_new_keys answer_request save_answer
    continue_request checked_sequence process_rekey_request validate_rekey_response
    process_rekey_response apply_new_keys
used-ok = refl

process_rekey_response_once_example :
    ¬ (process_rekey_response toy_primitives 1701 used.1 answered.1 ≡ ok used)
process_rekey_response_once_example =
    process_rekey_response_once toy_primitives 1700 1701 requested.1 used.1 answered.1 answered.1
      used.0 used used-ok
