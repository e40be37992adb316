-- ===== src/Tests/Interop.antt =====
-- Runs of the library against the reference.
use sip_protocol.Prelude.{
  replicate, ℕ, ◌<◌, ◌≡◌, refl, [], ◌∷◌, true, none, some, ok, codes, arith, list_eq,
}
use sip_protocol.Python.Hex.{hex_digit, hex, digit_value, is_space, hex_pair, fromhex}
use sip_protocol.Python.Base64.{
  b64_char, b64_value, b64encode, take_bits, put_byte, b64_loop, is_ascii, b64decode,
}
use sip_protocol.Python.Utf8.{
  is_surrogate, encode_char, encode, is_tail, with_char, start_char, is_valid_char, decode_loop,
  decode,
}
use sip_protocol.Python.Json.{
  decimal_loop, decimal, escape_unit, escape_char, escape, dump_value, dump_fields, dumps,
}
use sip_protocol.Python.Bytes.{from_bytes_acc, from_bytes, digits, to_bytes, bits, bit_length}
use sip_protocol.Crypto.Suite.{suite_text, validate_suite, match_offer, negotiate_suite, en, zh}
use sip_protocol.Crypto.Hkdf.{split_keys, hkdf, derive_keys_triple_dh, derive_keys, Keys}
use sip_protocol.Crypto.Dh.{
  first_draw, generate_keypair, dh_exchange, serialize_public_key, serialize_private_key, parse_raw,
  parse_public_key,
}
use sip_protocol.Crypto.Aead.{aead_encrypt, aead_decrypt}
use sip_protocol.Protocol.Message.{
  as_value_error, suite_field, compare_text, generate_replay_tag, verify_replay_tag, optional_tag,
  encrypt_message, decrypt_message, Message,
}
use sip_protocol.Protocol.Handshake.{
  is_version, is_fresh, open_message, read_key, read_nonce, auth_bytes, complete_bytes,
  identity_pair, exchange_three, initiate_handshake, respond_handshake, complete_handshake, Inputs,
  Hello, Auth, AgentState, Session,
}
use sip_protocol.Protocol.Rekey.{
  make_manager, check, caught, request_text, response_text, is_next, sign, create_rekey_request,
  validate_rekey_request, derive_new_keys, answer_request, save_answer, continue_request,
  checked_sequence, process_rekey_request, validate_rekey_response, process_rekey_response,
  apply_new_keys, RekeyInputs, RekeyManager, RekeyRequest, RekeyResponse,
}
use sip_protocol.Interop.Hkdf.{norm_key, hmac_sm3, hmac_digest, hkdf_loop, hkdf_for_suite}
use sip_protocol.Interop.Handshake.{
  accept_suite, agree_suite, zh_field, check_time, auth_transcript, complete_transcript,
  choose_nonce, generate_pair, pub_of, choose_pair, x25519_dh, dh_for_suite, initiator_start,
  slice_keys, derive_session_keys, initiator_finish, responder_handle_hello, RefInputs,
}
use sip_protocol.Interop.Messages.{
  make_session, aead_seal, aead_open, make_replay_tag, seal_message, encrypt, check_tag,
  open_checked, advance_session, decrypt, RefSession,
}
use sip_protocol.Interop.Rekey.{
  make_rekey, signed_request, signed_response, check_sequence, derive_rekey_keys, create_request,
  process_response, reference_rekey_request,
}
use sip_protocol.Crypto.Dh.{x25519_private, x25519_key}
use sip_protocol.Crypto.Primitives.{Bytes}
use sip_protocol.Python.Bytes.{IsBytes}
use sip_protocol.Python.Utf8.{IsScalar}
use sip_protocol.Protocol.Handshake.Agreement.{held_private, held_public}
use sip_protocol.Interop.HandshakeAgreement.{complete_handshake-responder_handle_hello}
use sip_protocol.Interop.MessagesAgreement.{encrypt-encrypt_message, decrypt-encrypt_message}
use sip_protocol.Interop.RekeyParts.{responder_of}
use sip_protocol.Interop.RekeyAgreement.{process_rekey_response-reference_rekey_request}
use sip_protocol.Tests.Toys.{toy_sm3, get_ok}
use sip_protocol.Tests.Documented.{documented_primitives, documented}

abbrev key_of : ℕ → Bytes
key_of n = replicate 32 n

abbrev psk : Bytes
psk = codes "shared"

abbrev inputs_a : Inputs
inputs_a = record {
  identity_draws = [];
  ephemeral_draws = key_of 5 ∷ [];
  nonce = 1 ∷ 2 ∷ [];
  read_at = 0;
  made_at = 1000;
}

abbrev inputs_b : RefInputs
inputs_b = record {
  identity_priv = some (key_of 6);
  ephemeral_priv = none;
  identity_draws = [];
  ephemeral_draws = key_of 7 ∷ [];
  nonce = some (3 ∷ 4 ∷ []);
  nonce_draw = [];
  check_timestamp = true;
  read_at = 1500;
  made_at = 1600;
}

abbrev blank_state : AgentState
blank_state = record {
  identity_private_key = x25519_private [];
  identity_public_key = x25519_key [];
  ephemeral_private_key = x25519_private [];
  ephemeral_public_key = x25519_key [];
  psk = [];
  nonce = [];
  suite = [];
}

abbrev blank_hello : Hello
blank_hello = record {
  version = none;
  timestamp = none;
  identity_pub = none;
  ephemeral_pub = none;
  nonce = none;
  suite = none;
}

abbrev blank_auth : Auth
blank_auth = record {
  version = none;
  timestamp = none;
  identity_pub = none;
  ephemeral_pub = none;
  nonce = none;
  signature = none;
  suite = none;
}

abbrev no_keys : Keys
no_keys = record { encryption_key = []; auth_key = []; replay_key = [] }

abbrev initiated : Hello × AgentState
initiated =
    get_ok
      (initiate_handshake documented_primitives inputs_a psk (held_private (some (key_of 9)))
        (held_public documented_primitives (some (key_of 9))) (suite_text en))
      (blank_hello, blank_state)

abbrev responded : Auth × Keys
responded =
    get_ok
      (responder_handle_hello documented_primitives toy_sm3 inputs_b initiated.0 psk
        (suite_text en))
      (blank_auth, no_keys)

initiated-ok :
    initiate_handshake documented_primitives inputs_a psk
      (held_private (some (key_of 9)))
      (held_public documented_primitives (some (key_of 9)))
      (suite_text en)
    ≡ ok initiated
unfolding list_eq hex_digit hex digit_value is_space hex_pair fromhex b64_char b64_value b64encode
    take_bits put_byte b64_loop is_ascii b64decode is_surrogate encode_char encode is_tail with_char
    start_char is_valid_char decode_loop decode decimal_loop decimal escape_unit escape_char escape
    dump_value dump_fields dumps from_bytes_acc from_bytes digits to_bytes bits bit_length
    suite_text validate_suite match_offer negotiate_suite split_keys hkdf derive_keys_triple_dh
    derive_keys first_draw generate_keypair dh_exchange serialize_public_key serialize_private_key
    parse_raw parse_public_key aead_encrypt aead_decrypt as_value_error suite_field compare_text
    generate_replay_tag verify_replay_tag optional_tag encrypt_message decrypt_message is_version
    is_fresh open_message read_key read_nonce auth_bytes complete_bytes identity_pair exchange_three
    initiate_handshake respond_handshake complete_handshake make_manager check caught request_text
    response_text is_next sign create_rekey_request validate_rekey_request derive_new_keys
    answer_request save_answer continue_request checked_sequence process_rekey_request
    validate_rekey_response process_rekey_response apply_new_keys norm_key hmac_sm3 hmac_digest
    hkdf_loop hkdf_for_suite accept_suite agree_suite zh_field check_time auth_transcript
    complete_transcript choose_nonce generate_pair pub_of choose_pair x25519_dh dh_for_suite
    initiator_start slice_keys derive_session_keys initiator_finish responder_handle_hello
    make_session aead_seal aead_open make_replay_tag seal_message encrypt check_tag open_checked
    advance_session decrypt make_rekey signed_request signed_response check_sequence
    derive_rekey_keys create_request process_response reference_rekey_request
initiated-ok = refl

responded-ok :
    responder_handle_hello documented_primitives toy_sm3 inputs_b initiated.0 psk (suite_text en)
    ≡ ok responded
unfolding list_eq hex_digit hex digit_value is_space hex_pair fromhex b64_char b64_value b64encode
    take_bits put_byte b64_loop is_ascii b64decode is_surrogate encode_char encode is_tail with_char
    start_char is_valid_char decode_loop decode decimal_loop decimal escape_unit escape_char escape
    dump_value dump_fields dumps from_bytes_acc from_bytes digits to_bytes bits bit_length
    suite_text validate_suite match_offer negotiate_suite split_keys hkdf derive_keys_triple_dh
    derive_keys first_draw generate_keypair dh_exchange serialize_public_key serialize_private_key
    parse_raw parse_public_key aead_encrypt aead_decrypt as_value_error suite_field compare_text
    generate_replay_tag verify_replay_tag optional_tag encrypt_message decrypt_message is_version
    is_fresh open_message read_key read_nonce auth_bytes complete_bytes identity_pair exchange_three
    initiate_handshake respond_handshake complete_handshake make_manager check caught request_text
    response_text is_next sign create_rekey_request validate_rekey_request derive_new_keys
    answer_request save_answer continue_request checked_sequence process_rekey_request
    validate_rekey_response process_rekey_response apply_new_keys norm_key hmac_sm3 hmac_digest
    hkdf_loop hkdf_for_suite accept_suite agree_suite zh_field check_time auth_transcript
    complete_transcript choose_nonce generate_pair pub_of choose_pair x25519_dh dh_for_suite
    initiator_start slice_keys derive_session_keys initiator_finish responder_handle_hello
    make_session aead_seal aead_open make_replay_tag seal_message encrypt check_tag open_checked
    advance_session decrypt make_rekey signed_request signed_response check_sequence
    derive_rekey_keys create_request process_response reference_rekey_request
responded-ok = refl

chosen-IsBytes : IsBytes (choose_nonce inputs_b.nonce inputs_b.nonce_draw)
unfolding choose_nonce
chosen-IsBytes = omega arith

complete_handshake-responder_handle_hello_example :
    (session : Session) × (complete_handshake documented_primitives 1700 1800 responded.0
        initiated.1
      ≡ ok (responded.1, session))
    × (session.keys ≡ responded.1)
complete_handshake-responder_handle_hello_example =
    complete_handshake-responder_handle_hello documented_primitives toy_sm3 documented psk inputs_a
      inputs_b (some (key_of 9)) initiated.0 initiated.1 responded.0 responded.1 1700 1800 refl
      (omega arith) chosen-IsBytes initiated-ok responded-ok (unfold is_fresh in refl)

-- messages of the suite ZH
abbrev keys : Keys
keys = record {
  encryption_key = codes "cipher";
  auth_key = codes "auth";
  replay_key = codes "replay";
}

abbrev session : RefSession
session = record {
  keys = keys;
  agent_id = codes "a";
  suite = zh;
  send_counter = 6;
  recv_counter = 2;
}

encrypt-encrypt_message_example :
    (encrypt documented_primitives toy_sm3
      (codes "some_nonce_1")
      1000
      session
      (codes "hi")
      (codes "b")).1
    ≡ encrypt_message documented_primitives
        (codes "some_nonce_1")
        1000
        (codes "cipher")
        (codes "hi")
        (codes "a")
        (codes "b")
        7
        (some (codes "replay"))
        (suite_text zh)
encrypt-encrypt_message_example =
    encrypt-encrypt_message documented_primitives toy_sm3 documented (codes "some_nonce_1") 1000
      session (codes "hi") (codes "b")

abbrev blank : Message
blank = record {
  version = none;
  message_type = none;
  timestamp = none;
  sender_id = none;
  recipient_id = none;
  message_counter = none;
  iv = none;
  payload = none;
  auth_tag = none;
  suite = none;
  replay_tag = none;
}

abbrev message : Message
message =
    get_ok
      (encrypt_message documented_primitives (codes "some_nonce_1") 1000 (codes "cipher")
        (codes "hi") (codes "a") (codes "b") 7 (some (codes "replay")) (suite_text zh))
      blank

message-ok :
    encrypt_message documented_primitives
      (codes "some_nonce_1")
      1000
      (codes "cipher")
      (codes "hi")
      (codes "a")
      (codes "b")
      7
      (some (codes "replay"))
      (suite_text zh)
    ≡ ok message
unfolding list_eq hex_digit hex digit_value is_space hex_pair fromhex b64_char b64_value b64encode
    take_bits put_byte b64_loop is_ascii b64decode is_surrogate encode_char encode is_tail with_char
    start_char is_valid_char decode_loop decode decimal_loop decimal escape_unit escape_char escape
    dump_value dump_fields dumps from_bytes_acc from_bytes digits to_bytes bits bit_length
    suite_text validate_suite match_offer negotiate_suite split_keys hkdf derive_keys_triple_dh
    derive_keys first_draw generate_keypair dh_exchange serialize_public_key serialize_private_key
    parse_raw parse_public_key aead_encrypt aead_decrypt as_value_error suite_field compare_text
    generate_replay_tag verify_replay_tag optional_tag encrypt_message decrypt_message is_version
    is_fresh open_message read_key read_nonce auth_bytes complete_bytes identity_pair exchange_three
    initiate_handshake respond_handshake complete_handshake make_manager check caught request_text
    response_text is_next sign create_rekey_request validate_rekey_request derive_new_keys
    answer_request save_answer continue_request checked_sequence process_rekey_request
    validate_rekey_response process_rekey_response apply_new_keys norm_key hmac_sm3 hmac_digest
    hkdf_loop hkdf_for_suite accept_suite agree_suite zh_field check_time auth_transcript
    complete_transcript choose_nonce generate_pair pub_of choose_pair x25519_dh dh_for_suite
    initiator_start slice_keys derive_session_keys initiator_finish responder_handle_hello
    make_session aead_seal aead_open make_replay_tag seal_message encrypt check_tag open_checked
    advance_session decrypt make_rekey signed_request signed_response check_sequence
    derive_rekey_keys create_request process_response reference_rekey_request
message-ok = refl

ascii-IsScalar : (c : ℕ) → c < 128 → IsScalar c
unfolding is_surrogate
ascii-IsScalar c h = record { below = omega (arith, h); no_surrogate = ground (arith, h) }

decrypt-encrypt_message_example :
    decrypt documented_primitives toy_sm3 session message
    ≡ (record session { recv_counter = 7 }, ok (codes "hi"))
decrypt-encrypt_message_example =
    decrypt-encrypt_message documented_primitives toy_sm3 documented (codes "some_nonce_1") 1000 7
      session (codes "hi") (codes "a") (codes "b") zh message (omega arith)
      (ascii-IsScalar 104 (omega arith), (ascii-IsScalar 105 (omega arith), tt)) (omega arith)
      message-ok

-- a change of keys
abbrev rekey_a : RekeyInputs
rekey_a = record { draws = key_of 5 ∷ []; nonce = 1 ∷ 2 ∷ []; read_at = 0; made_at = 1000 }

abbrev blank_request : RekeyRequest
blank_request = record {
  version = none;
  timestamp = none;
  sequence = none;
  ephemeral_pub = none;
  nonce = none;
  reason = none;
  key_lifetime = none;
  signature = none;
}

abbrev blank_response : RekeyResponse
blank_response = record {
  version = none;
  timestamp = none;
  sequence = none;
  ephemeral_pub = none;
  nonce = none;
  signature = none;
}

abbrev requested : RekeyRequest × RekeyManager
requested =
    get_ok
      (create_rekey_request documented_primitives rekey_a (responder_of keys 0) (codes "scheduled")
        3600)
      (blank_request, responder_of keys 0)

abbrev replied : RekeyResponse × Keys
replied =
    get_ok
      (reference_rekey_request documented_primitives toy_sm3 inputs_b keys requested.0 0
        (suite_text en))
      (blank_response, no_keys)

requested-ok :
    create_rekey_request documented_primitives rekey_a
      (responder_of keys 0)
      (codes "scheduled")
      3600
    ≡ ok requested
unfolding list_eq hex_digit hex digit_value is_space hex_pair fromhex b64_char b64_value b64encode
    take_bits put_byte b64_loop is_ascii b64decode is_surrogate encode_char encode is_tail with_char
    start_char is_valid_char decode_loop decode decimal_loop decimal escape_unit escape_char escape
    dump_value dump_fields dumps from_bytes_acc from_bytes digits to_bytes bits bit_length
    suite_text validate_suite match_offer negotiate_suite split_keys hkdf derive_keys_triple_dh
    derive_keys first_draw generate_keypair dh_exchange serialize_public_key serialize_private_key
    parse_raw parse_public_key aead_encrypt aead_decrypt as_value_error suite_field compare_text
    generate_replay_tag verify_replay_tag optional_tag encrypt_message decrypt_message is_version
    is_fresh open_message read_key read_nonce auth_bytes complete_bytes identity_pair exchange_three
    initiate_handshake respond_handshake complete_handshake make_manager check caught request_text
    response_text is_next sign create_rekey_request validate_rekey_request derive_new_keys
    answer_request save_answer continue_request checked_sequence process_rekey_request
    validate_rekey_response process_rekey_response apply_new_keys norm_key hmac_sm3 hmac_digest
    hkdf_loop hkdf_for_suite accept_suite agree_suite zh_field check_time auth_transcript
    complete_transcript choose_nonce generate_pair pub_of choose_pair x25519_dh dh_for_suite
    initiator_start slice_keys derive_session_keys initiator_finish responder_handle_hello
    make_session aead_seal aead_open make_replay_tag seal_message encrypt check_tag open_checked
    advance_session decrypt make_rekey signed_request signed_response check_sequence
    derive_rekey_keys create_request process_response reference_rekey_request
requested-ok = refl

replied-ok :
    reference_rekey_request documented_primitives toy_sm3 inputs_b keys requested.0 0
      (suite_text en)
    ≡ ok replied
unfolding list_eq hex_digit hex digit_value is_space hex_pair fromhex b64_char b64_value b64encode
    take_bits put_byte b64_loop is_ascii b64decode is_surrogate encode_char encode is_tail with_char
    start_char is_valid_char decode_loop decode decimal_loop decimal escape_unit escape_char escape
    dump_value dump_fields dumps from_bytes_acc from_bytes digits to_bytes bits bit_length
    suite_text validate_suite match_offer negotiate_suite split_keys hkdf derive_keys_triple_dh
    derive_keys first_draw generate_keypair dh_exchange serialize_public_key serialize_private_key
    parse_raw parse_public_key aead_encrypt aead_decrypt as_value_error suite_field compare_text
    generate_replay_tag verify_replay_tag optional_tag encrypt_message decrypt_message is_version
    is_fresh open_message read_key read_nonce auth_bytes complete_bytes identity_pair exchange_three
    initiate_handshake respond_handshake complete_handshake make_manager check caught request_text
    response_text is_next sign create_rekey_request validate_rekey_request derive_new_keys
    answer_request save_answer continue_request checked_sequence process_rekey_request
    validate_rekey_response process_rekey_response apply_new_keys norm_key hmac_sm3 hmac_digest
    hkdf_loop hkdf_for_suite accept_suite agree_suite zh_field check_time auth_transcript
    complete_transcript choose_nonce generate_pair pub_of choose_pair x25519_dh dh_for_suite
    initiator_start slice_keys derive_session_keys initiator_finish responder_handle_hello
    make_session aead_seal aead_open make_replay_tag seal_message encrypt check_tag open_checked
    advance_session decrypt make_rekey signed_request signed_response check_sequence
    derive_rekey_keys create_request process_response reference_rekey_request
replied-ok = refl

process_rekey_response-reference_rekey_request_example :
    (used : RekeyManager) × (process_rekey_response documented_primitives 1700 requested.1 replied.0
      ≡ ok (replied.1, used))
process_rekey_response-reference_rekey_request_example =
    process_rekey_response-reference_rekey_request documented_primitives toy_sm3 documented rekey_a
      inputs_b (responder_of keys 0) requested.1 keys replied.1 (codes "scheduled") 3600 1700 0
      requested.0 replied.0 refl (omega arith) chosen-IsBytes refl refl requested-ok replied-ok
      (unfold is_fresh in refl)
