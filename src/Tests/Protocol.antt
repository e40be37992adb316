-- ===== src/Tests/Protocol.antt =====
-- Runs of messages and of the handshake.
use sip_protocol.Prelude.{
  ℕ, ◌<◌, ◌≡◌, ◌↔◌, refl, List, [], ◌∷◌, ◌++◌, true, none, some, ok, codes, arith, list_eq,
}
use sip_protocol.Python.Hex.{hex_digit, hex, digit_value, is_space, hex_pair, fromhex}
use sip_protocol.Python.Base64.{
  b64_char, b64_value, b64encode, take_bits, put_byte, b64_loop, is_ascii, b64decode,
}
use sip_protocol.Python.Utf8.{
  is_surrogate, encode_char, encode, is_tail, with_char, start_char, is_valid_char, decode_loop,
  decode,
}
use sip_protocol.Python.Json.{
  decimal_loop, decimal, escape_unit, escape_char, escape, dump_value, dump_fields, dumps,
}
use sip_protocol.Crypto.Suite.{suite_text, validate_suite, match_offer, negotiate_suite, Suite, en}
use sip_protocol.Crypto.Hkdf.{split_keys, hkdf, derive_keys_triple_dh, derive_keys, Keys}
use sip_protocol.Crypto.Dh.{
  first_draw, generate_keypair, dh_exchange, serialize_public_key, serialize_private_key, parse_raw,
  parse_public_key, x25519_private, x25519_key,
}
use sip_protocol.Crypto.Aead.{aead_encrypt, aead_decrypt}
use sip_protocol.Protocol.Message.{
  as_value_error, suite_field, compare_text, generate_replay_tag, verify_replay_tag, optional_tag,
  encrypt_message, decrypt_message, Message,
}
use sip_protocol.Protocol.Handshake.{
  is_version, is_fresh, open_message, read_key, read_nonce, auth_bytes, complete_bytes,
  identity_pair, exchange_three, initiate_handshake, respond_handshake, complete_handshake, Inputs,
  Hello, Auth, AgentState, Remote, Session,
}
use sip_protocol.Protocol.Rekey.{
  make_manager, check, caught, request_text, response_text, is_next, sign, create_rekey_request,
  validate_rekey_request, derive_new_keys, answer_request, save_answer, continue_request,
  checked_sequence, process_rekey_request, validate_rekey_response, process_rekey_response,
  apply_new_keys,
}
use sip_protocol.Crypto.Primitives.{Bytes}
use sip_protocol.Protocol.Message.RoundTrip.{encrypt_message_total}
use sip_protocol.Protocol.Message.ReplayTag.{verify_replay_tag_collision}
use sip_protocol.Python.Utf8
use sip_protocol.Python.Utf8.{IsText, IsScalar}
use sip_protocol.Protocol.Handshake.Accepted.{IsAcceptable, complete_handshake_checked}
use sip_protocol.Protocol.Handshake.Agreement.{
  held_private, held_public, complete_handshake-respond,
}
use sip_protocol.Tests.Toys.{toy_primitives, get_ok}

abbrev iv : Bytes
iv = codes "some_nonce_1"

abbrev key : Bytes
key = codes "an encryption key of 32 bytes..."

ascii-IsScalar : (c : ℕ) → c < 128 → IsScalar c
unfolding is_surrogate
ascii-IsScalar c h = record { below = omega (arith, h); no_surrogate = ground (arith, h) }

hi-IsText : IsText (codes "hi")
hi-IsText = (ascii-IsScalar 104 (omega arith), (ascii-IsScalar 105 (omega arith), tt))

sender-IsText : IsText (codes "a" ++ (58 ∷ decimal 7))
unfolding decimal
sender-IsText = (
  ascii-IsScalar 97 (omega arith),
  (ascii-IsScalar 58 (omega arith), (ascii-IsScalar 55 (omega arith), tt)),
)

encrypt_message_total_example :
    (m : Message) × (encrypt_message toy_primitives iv 1000 key
        (codes "hi")
        (codes "a")
        (codes "bob")
        7
        (some key)
        (suite_text en)
      ≡ ok m)
    × (decrypt_message toy_primitives key m ≡ ok (codes "hi"))
encrypt_message_total_example =
    encrypt_message_total toy_primitives iv key 1000 7 (codes "hi") (codes "a") (codes "bob")
      (some key) en (omega arith) refl refl hi-IsText sender-IsText

abbrev tag_7 : List ℕ
tag_7 = get_ok (generate_replay_tag toy_primitives key (codes "a") 7 (suite_text en)) []

tag_7-ok : generate_replay_tag toy_primitives key (codes "a") 7 (suite_text en) ≡ ok tag_7
unfolding list_eq hex_digit hex digit_value is_space hex_pair fromhex b64_char b64_value b64encode
    take_bits put_byte b64_loop is_ascii b64decode is_surrogate encode_char encode is_tail with_char
    start_char is_valid_char decode_loop decode decimal_loop decimal escape_unit escape_char escape
    dump_value dump_fields dumps suite_text validate_suite match_offer negotiate_suite split_keys
    hkdf derive_keys_triple_dh derive_keys first_draw generate_keypair dh_exchange
    serialize_public_key serialize_private_key parse_raw parse_public_key aead_encrypt aead_decrypt
    as_value_error suite_field compare_text generate_replay_tag verify_replay_tag optional_tag
    encrypt_message decrypt_message is_version is_fresh open_message read_key read_nonce auth_bytes
    complete_bytes identity_pair exchange_three initiate_handshake respond_handshake
    complete_handshake make_manager check caught request_text response_text is_next sign
    create_rekey_request validate_rekey_request derive_new_keys answer_request save_answer
    continue_request checked_sequence process_rekey_request validate_rekey_response
    process_rekey_response apply_new_keys
tag_7-ok = refl

-- the stand-in for HMAC does not tell texts of one length apart
tag_7-accepted : verify_replay_tag toy_primitives key (codes "a") 8 tag_7 (suite_text en) ≡ ok true
unfolding list_eq hex_digit hex digit_value is_space hex_pair fromhex b64_char b64_value b64encode
    take_bits put_byte b64_loop is_ascii b64decode is_surrogate encode_char encode is_tail with_char
    start_char is_valid_char decode_loop decode decimal_loop decimal escape_unit escape_char escape
    dump_value dump_fields dumps suite_text validate_suite match_offer negotiate_suite split_keys
    hkdf derive_keys_triple_dh derive_keys first_draw generate_keypair dh_exchange
    serialize_public_key serialize_private_key parse_raw parse_public_key aead_encrypt aead_decrypt
    as_value_error suite_field compare_text generate_replay_tag verify_replay_tag optional_tag
    encrypt_message decrypt_message is_version is_fresh open_message read_key read_nonce auth_bytes
    complete_bytes identity_pair exchange_three initiate_handshake respond_handshake
    complete_handshake make_manager check caught request_text response_text is_next sign
    create_rekey_request validate_rekey_request derive_new_keys answer_request save_answer
    continue_request checked_sequence process_rekey_request validate_rekey_response
    process_rekey_response apply_new_keys
tag_7-accepted = refl

counters_differ : ¬ ((codes "a" ≡ codes "a") × (◌≡◌ {A = ℕ} 7 8))
counters_differ h = omega (arith, h.1)

verify_replay_tag_collision_example :
    (s : Suite) × (signed : Bytes) × (claimed : Bytes) × (validate_suite (suite_text en) ≡ ok s)
    × (Utf8.encode (codes "a" ++ (58 ∷ decimal 7)) ≡ ok signed)
    × (Utf8.encode (codes "a" ++ (58 ∷ decimal 8)) ≡ ok claimed)
    × ¬ (signed ≡ claimed)
    × (toy_primitives.hmac_digest s key signed ≡ toy_primitives.hmac_digest s key claimed)
verify_replay_tag_collision_example =
    verify_replay_tag_collision toy_primitives key (codes "a") (codes "a") 7 8 tag_7 (suite_text en)
      (ascii-IsScalar 97 (omega arith), tt) (ascii-IsScalar 97 (omega arith), tt) counters_differ
      tag_7-ok tag_7-accepted

abbrev inputs_a : Inputs
inputs_a = record {
  identity_draws = [];
  ephemeral_draws = (5 ∷ []) ∷ [];
  nonce = 1 ∷ 2 ∷ [];
  read_at = 0;
  made_at = 1000;
}

abbrev inputs_b : Inputs
inputs_b = record {
  identity_draws = (6 ∷ []) ∷ [];
  ephemeral_draws = (7 ∷ []) ∷ [];
  nonce = 3 ∷ 4 ∷ [];
  read_at = 1500;
  made_at = 1600;
}

abbrev psk : Bytes
psk = codes "shared"

abbrev blank_state : AgentState
blank_state = record {
  identity_private_key = x25519_private [];
  identity_public_key = x25519_key [];
  ephemeral_private_key = x25519_private [];
  ephemeral_public_key = x25519_key [];
  psk = [];
  nonce = [];
  suite = [];
}

abbrev blank_hello : Hello
blank_hello = record {
  version = none;
  timestamp = none;
  identity_pub = none;
  ephemeral_pub = none;
  nonce = none;
  suite = none;
}

abbrev blank_auth : Auth
blank_auth = record {
  version = none;
  timestamp = none;
  identity_pub = none;
  ephemeral_pub = none;
  nonce = none;
  signature = none;
  suite = none;
}

abbrev no_keys : Keys
no_keys = record { encryption_key = []; auth_key = []; replay_key = [] }

abbrev initiated : Hello × AgentState
initiated =
    get_ok
      (initiate_handshake toy_primitives inputs_a psk (held_private (some (9 ∷ [])))
        (held_public toy_primitives (some (9 ∷ []))) (suite_text en))
      (blank_hello, blank_state)

abbrev responded : Auth × AgentState × Remote × Keys
responded =
    get_ok
      (respond_handshake toy_primitives inputs_b initiated.0 psk (held_private none)
        (held_public toy_primitives none) (suite_text en))
      (
        blank_auth,
        blank_state,
        record { identity_pub = x25519_key []; ephemeral_pub = x25519_key []; nonce = [] },
        no_keys,
      )

initiated-ok :
    initiate_handshake toy_primitives inputs_a psk
      (held_private (some (9 ∷ [])))
      (held_public toy_primitives (some (9 ∷ [])))
      (suite_text en)
    ≡ ok initiated
unfolding list_eq hex_digit hex digit_value is_space hex_pair fromhex b64_char b64_value b64encode
    take_bits put_byte b64_loop is_ascii b64decode is_surrogate encode_char encode is_tail with_char
    start_char is_valid_char decode_loop decode decimal_loop decimal escape_unit escape_char escape
    dump_value dump_fields dumps suite_text validate_suite match_offer negotiate_suite split_keys
    hkdf derive_keys_triple_dh derive_keys first_draw generate_keypair dh_exchange
    serialize_public_key serialize_private_key parse_raw parse_public_key aead_encrypt aead_decrypt
    as_value_error suite_field compare_text generate_replay_tag verify_replay_tag optional_tag
    encrypt_message decrypt_message is_version is_fresh open_message read_key read_nonce auth_bytes
    complete_bytes identity_pair exchange_three initiate_handshake respond_handshake
    complete_handshake make_manager check caught request_text response_text is_next sign
    create_rekey_request validate_rekey_request derive_new_keys answer_request save_answer
    continue_request checked_sequence process_rekey_request validate_rekey_response
    process_rekey_response apply_new_keys
initiated-ok = refl

responded-ok :
    respond_handshake toy_primitives inputs_b initiated.0 psk
      (held_private none)
      (held_public toy_primitives none)
      (suite_text en)
    ≡ ok responded
unfolding list_eq hex_digit hex digit_value is_space hex_pair fromhex b64_char b64_value b64encode
    take_bits put_byte b64_loop is_ascii b64decode is_surrogate encode_char encode is_tail with_char
    start_char is_valid_char decode_loop decode decimal_loop decimal escape_unit escape_char escape
    dump_value dump_fields dumps suite_text validate_suite match_offer negotiate_suite split_keys
    hkdf derive_keys_triple_dh derive_keys first_draw generate_keypair dh_exchange
    serialize_public_key serialize_private_key parse_raw parse_public_key aead_encrypt aead_decrypt
    as_value_error suite_field compare_text generate_replay_tag verify_replay_tag optional_tag
    encrypt_message decrypt_message is_version is_fresh open_message read_key read_nonce auth_bytes
    complete_bytes identity_pair exchange_three initiate_handshake respond_handshake
    complete_handshake make_manager check caught request_text response_text is_next sign
    create_rekey_request validate_rekey_request derive_new_keys answer_request save_answer
    continue_request checked_sequence process_rekey_request validate_rekey_response
    process_rekey_response apply_new_keys
responded-ok = refl

complete_handshake-respond_example :
    (session : Session) × (complete_handshake toy_primitives 1700 1800 responded.0 initiated.1
      ≡ ok (responded.3, session))
    × (session.keys ≡ responded.3)
complete_handshake-respond_example =
    complete_handshake-respond toy_primitives psk inputs_a inputs_b (some (9 ∷ [])) none initiated.0
      initiated.1 responded.1 responded.0 responded.2 responded.3 1700 1800 (omega arith)
      (omega arith) initiated-ok responded-ok (unfold is_fresh in refl)

abbrev blank_session : Session
blank_session = record {
  keys = no_keys;
  suite = [];
  complete_timestamp = 0;
  complete_signature = [];
}

abbrev completed : Keys × Session
completed =
    get_ok (complete_handshake toy_primitives 1700 1800 responded.0 initiated.1)
      (no_keys, blank_session)

completed-ok : complete_handshake toy_primitives 1700 1800 responded.0 initiated.1 ≡ ok completed
unfolding list_eq hex_digit hex digit_value is_space hex_pair fromhex b64_char b64_value b64encode
    take_bits put_byte b64_loop is_ascii b64decode is_surrogate encode_char encode is_tail with_char
    start_char is_valid_char decode_loop decode decimal_loop decimal escape_unit escape_char escape
    dump_value dump_fields dumps suite_text validate_suite match_offer negotiate_suite split_keys
    hkdf derive_keys_triple_dh derive_keys first_draw generate_keypair dh_exchange
    serialize_public_key serialize_private_key parse_raw parse_public_key aead_encrypt aead_decrypt
    as_value_error suite_field compare_text generate_replay_tag verify_replay_tag optional_tag
    encrypt_message decrypt_message is_version is_fresh open_message read_key read_nonce auth_bytes
    complete_bytes identity_pair exchange_three initiate_handshake respond_handshake
    complete_handshake make_manager check caught request_text response_text is_next sign
    create_rekey_request validate_rekey_request derive_new_keys answer_request save_answer
    continue_request checked_sequence process_rekey_request validate_rekey_response
    process_rekey_response apply_new_keys
completed-ok = refl

complete_handshake_checked_example :
    ((session : Session) × (complete_handshake toy_primitives 1700 1800 responded.0 initiated.1
        ≡ ok (completed.0, session))
      × (session.keys ≡ completed.0))
    ↔ IsAcceptable toy_primitives 1700 responded.0 initiated.1 completed.0
complete_handshake_checked_example =
    complete_handshake_checked toy_primitives 1700 1800 responded.0 initiated.1 completed.0
