-- ===== src/Tests/Transport.antt =====
-- Runs of transport/.
use sip_protocol.Prelude.{
  ℕ, ◌<◌, ◌≡◌, refl, ◌>>=◌, List, [], ◌∷◌, false, Option, none, some, Result, ok, err, get_default,
  codes, arith, list_eq, runtime_error,
}
use sip_protocol.Python.Hex.{hex_digit, hex, digit_value, is_space, hex_pair, fromhex}
use sip_protocol.Python.Base64.{
  b64_char, b64_value, b64encode, take_bits, put_byte, b64_loop, is_ascii, b64decode,
}
use sip_protocol.Python.Utf8.{
  is_surrogate, encode_char, encode, is_tail, with_char, start_char, is_valid_char, decode_loop,
  decode,
}
use sip_protocol.Python.Json.{
  decimal_loop, decimal, escape_unit, escape_char, escape, dump_value, dump_fields, dumps,
}
use sip_protocol.Crypto.Suite.{suite_text, validate_suite, match_offer, negotiate_suite, en}
use sip_protocol.Crypto.Hkdf.{split_keys, hkdf, derive_keys_triple_dh, derive_keys, Keys}
use sip_protocol.Crypto.Dh.{
  first_draw, generate_keypair, dh_exchange, serialize_public_key, serialize_private_key, parse_raw,
  parse_public_key,
}
use sip_protocol.Crypto.Aead.{aead_encrypt, aead_decrypt}
use sip_protocol.Protocol.Message.{
  as_value_error, suite_field, compare_text, generate_replay_tag, verify_replay_tag, optional_tag,
  encrypt_message, decrypt_message, Message,
}
use sip_protocol.Protocol.Handshake.{
  is_version, is_fresh, open_message, read_key, read_nonce, auth_bytes, complete_bytes,
  identity_pair, exchange_three, initiate_handshake, respond_handshake, complete_handshake, Inputs,
}
use sip_protocol.Protocol.Rekey.{
  make_manager, check, caught, request_text, response_text, is_next, sign, create_rekey_request,
  validate_rekey_request, derive_new_keys, answer_request, save_answer, continue_request,
  checked_sequence, process_rekey_request, validate_rekey_response, process_rekey_response,
  apply_new_keys, RekeyInputs, RekeyRequest, RekeyResponse,
}
use sip_protocol.Session.{
  new_session, secret_text, session_dict, read_secret, read_session, serialize, deserialize,
  update_last_activity,
}
use sip_protocol.Transport.Message.{
  action_text, type_text, parse_type, priority_value, parse_priority, to_dict, type_field,
  priority_field, has_no_other, from_dict, to_json, from_json, parse_raw_message, is_expired,
  is_max_hops_reached, increment_hop, make_message, create_reply, create_text_message,
  create_control_message, create_encrypted_message, Envelope, Stamp, encrypted_message,
  text_payload, encrypted_payload, normal, envelope_version,
}
use sip_protocol.Transport.Channel.{
  make_channel, is_established, is_idle, is_handshaking, is_rekeying, fail, session_of,
  update_session_keys, close, create_heartbeat, create_disconnect, Channel, ChannelConfig,
  no_handshake, established, rekeying, closed, idle,
}
use sip_protocol.Transport.Channel.Handshake.{
  hello_of, auth_of, initiated, initiate, responded, respond_to_handshake, completed, complete_with,
  complete,
}
use sip_protocol.Transport.Channel.Send.{
  non_empty, choose_recipient, is_rekey_due, rekey_started, request_rekey, initiate_rekey,
  check_since, check_rekey_needed, wrap_message, seal_text, send_checked, send_to, send, SendInputs,
}
use sip_protocol.Transport.Channel.Receive.{
  text_of, message_of, action_of, error_message, error_of, handle_control_message, check_replay_tag,
  open_payload, receive_checked, advance, receive_counted, receive_typed, receive,
}
use sip_protocol.Transport.Channel.Rekey.{
  switch_keys, use_response, response_with, finish_rekey, answered_keys, answer_rekey, save_keys,
  handle_rekey_request,
}
use sip_protocol.Crypto.Primitives.{Bytes}
use sip_protocol.Python.Utf8.{IsText, IsScalar}
use sip_protocol.Protocol.Handshake.Agreement.{held_private, held_public}
use sip_protocol.Session.{SessionState, new_session}
use sip_protocol.Transport.Channel.Steps.{Reach, here, next, responds, updates, closes}
use sip_protocol.Transport.Channel.Soundness.{IsSound}
use sip_protocol.Transport.Channel.Invariant.{Reach-made-IsSound, close_final}
use sip_protocol.Transport.Channel.Replay.{receive_counter, receive_replay, receive_stripped, took}
use sip_protocol.Transport.Channel.Agreement.{complete-respond_to_handshake}
use sip_protocol.Transport.Channel.Exchange.{Sends, silent, receive_all, receive_all-Sends}
use sip_protocol.Transport.Channel.Exchange
use sip_protocol.Transport.Channel.Trigger.{IsDue, finish_rekey-IsDue}
use sip_protocol.Transport.Message.RoundTrip.{parse_raw_message-to_json}
use sip_protocol.Session.RoundTrip.{AreKept, kept, unset, in_bytes, deserialize-serialize}
use sip_protocol.Tests.Toys.{toy_primitives, get_ok}
use sip_protocol.Tests.Json.{toy_envelope_json, toy_session_json}

abbrev limits : ChannelConfig
limits = record { rekey_after_messages = 1; rekey_after_seconds = 3600; message_ttl_ms = 300000 }

abbrev stamp_at : ℕ → Stamp
stamp_at now = record { new_id = codes "id"; now = now }

abbrev channel_of : List ℕ → Option Bytes → Channel
channel_of name held = record {
  agent_id = name;
  psk = codes "shared";
  config = limits;
  state = idle;
  remote_agent_id = none;
  suite = suite_text en;
  identity_private_key = held_private held;
  identity_public_key = held_public toy_primitives held;
  session_keys = none;
  session_state = none;
  send_counter = 0;
  recv_counter = 0;
  handshake_state = no_handshake;
  messages_sent = 0;
  messages_received = 0;
  established_at = none;
  last_rekey_at = none;
  errors = 0;
  rekey_completed = 0;
  pending_rekey_request = none;
}

abbrev alice : Channel
alice = channel_of (codes "a") (some (9 ∷ []))

abbrev bob : Channel
bob = channel_of (codes "b") none

abbrev inputs_a : Inputs
inputs_a = record {
  identity_draws = [];
  ephemeral_draws = (5 ∷ []) ∷ [];
  nonce = 1 ∷ 2 ∷ [];
  read_at = 0;
  made_at = 1000;
}

abbrev inputs_b : Inputs
inputs_b = record {
  identity_draws = (6 ∷ []) ∷ [];
  ephemeral_draws = (7 ∷ []) ∷ [];
  nonce = 3 ∷ 4 ∷ [];
  read_at = 1500;
  made_at = 1600;
}

abbrev blank_envelope : Envelope
blank_envelope = record {
  id = codes "x";
  version = envelope_version;
  message_type = encrypted_message;
  sender_id = codes "a";
  recipient_id = codes "b";
  timestamp = 1000;
  payload = text_payload none;
  priority = normal;
  metadata = [];
  correlation_id = none;
  hop_count = 0;
  max_hops = 10;
}

abbrev opened : Channel × Result Envelope
opened = initiate toy_primitives inputs_a (stamp_at 1000) alice

abbrev hello : Envelope
hello = get_ok opened.1 blank_envelope

abbrev answered : Channel × Result Envelope
answered = respond_to_handshake toy_primitives inputs_b (stamp_at 1600) bob hello

abbrev auth : Envelope
auth = get_ok answered.1 blank_envelope

opened-ok : initiate toy_primitives inputs_a (stamp_at 1000) alice ≡ (opened.0, ok hello)
unfolding list_eq hex_digit hex digit_value is_space hex_pair fromhex b64_char b64_value b64encode
    take_bits put_byte b64_loop is_ascii b64decode is_surrogate encode_char encode is_tail with_char
    start_char is_valid_char decode_loop decode decimal_loop decimal escape_unit escape_char escape
    dump_value dump_fields dumps suite_text validate_suite match_offer negotiate_suite split_keys
    hkdf derive_keys_triple_dh derive_keys first_draw generate_keypair dh_exchange
    serialize_public_key serialize_private_key parse_raw parse_public_key aead_encrypt aead_decrypt
    as_value_error suite_field compare_text generate_replay_tag verify_replay_tag optional_tag
    encrypt_message decrypt_message is_version is_fresh open_message read_key read_nonce auth_bytes
    complete_bytes identity_pair exchange_three initiate_handshake respond_handshake
    complete_handshake make_manager check caught request_text response_text is_next sign
    create_rekey_request validate_rekey_request derive_new_keys answer_request save_answer
    continue_request checked_sequence process_rekey_request validate_rekey_response
    process_rekey_response apply_new_keys new_session secret_text session_dict read_secret
    read_session serialize deserialize update_last_activity action_text type_text parse_type
    priority_value parse_priority to_dict type_field priority_field has_no_other from_dict to_json
    from_json parse_raw_message is_expired is_max_hops_reached increment_hop make_message
    create_reply create_text_message create_control_message create_encrypted_message make_channel
    is_established is_idle is_handshaking is_rekeying fail session_of update_session_keys close
    create_heartbeat create_disconnect hello_of auth_of initiated initiate responded
    respond_to_handshake completed complete_with complete non_empty choose_recipient is_rekey_due
    rekey_started request_rekey initiate_rekey check_since check_rekey_needed wrap_message seal_text
    send_checked send_to send text_of message_of action_of error_message error_of
    handle_control_message check_replay_tag open_payload receive_checked advance receive_counted
    receive_typed receive switch_keys use_response response_with finish_rekey answered_keys
    answer_rekey save_keys handle_rekey_request
opened-ok = refl

answered-ok :
    respond_to_handshake toy_primitives inputs_b (stamp_at 1600) bob hello ≡ (answered.0, ok auth)
unfolding list_eq hex_digit hex digit_value is_space hex_pair fromhex b64_char b64_value b64encode
    take_bits put_byte b64_loop is_ascii b64decode is_surrogate encode_char encode is_tail with_char
    start_char is_valid_char decode_loop decode decimal_loop decimal escape_unit escape_char escape
    dump_value dump_fields dumps suite_text validate_suite match_offer negotiate_suite split_keys
    hkdf derive_keys_triple_dh derive_keys first_draw generate_keypair dh_exchange
    serialize_public_key serialize_private_key parse_raw parse_public_key aead_encrypt aead_decrypt
    as_value_error suite_field compare_text generate_replay_tag verify_replay_tag optional_tag
    encrypt_message decrypt_message is_version is_fresh open_message read_key read_nonce auth_bytes
    complete_bytes identity_pair exchange_three initiate_handshake respond_handshake
    complete_handshake make_manager check caught request_text response_text is_next sign
    create_rekey_request validate_rekey_request derive_new_keys answer_request save_answer
    continue_request checked_sequence process_rekey_request validate_rekey_response
    process_rekey_response apply_new_keys new_session secret_text session_dict read_secret
    read_session serialize deserialize update_last_activity action_text type_text parse_type
    priority_value parse_priority to_dict type_field priority_field has_no_other from_dict to_json
    from_json parse_raw_message is_expired is_max_hops_reached increment_hop make_message
    create_reply create_text_message create_control_message create_encrypted_message make_channel
    is_established is_idle is_handshaking is_rekeying fail session_of update_session_keys close
    create_heartbeat create_disconnect hello_of auth_of initiated initiate responded
    respond_to_handshake completed complete_with complete non_empty choose_recipient is_rekey_due
    rekey_started request_rekey initiate_rekey check_since check_rekey_needed wrap_message seal_text
    send_checked send_to send text_of message_of action_of error_message error_of
    handle_control_message check_replay_tag open_payload receive_checked advance receive_counted
    receive_typed receive switch_keys use_response response_with finish_rekey answered_keys
    answer_rekey save_keys handle_rekey_request
answered-ok = refl

complete-respond_to_handshake_example :
    ((complete toy_primitives 1700 opened.0 auth).1 ≡ ok tt)
    × ((complete toy_primitives 1700 opened.0 auth).0.state ≡ established)
    × (answered.0.state ≡ established)
    × (keys : Keys) × ((complete toy_primitives 1700 opened.0 auth).0.session_keys ≡ some keys)
    × (answered.0.session_keys ≡ some keys)
complete-respond_to_handshake_example =
    complete-respond_to_handshake toy_primitives inputs_a inputs_b (stamp_at 1000) (stamp_at 1600)
      (some (9 ∷ [])) none alice opened.0 bob answered.0 hello auth 1700 (omega arith) (omega arith)
      refl refl refl (refl, refl) (refl, refl) opened-ok answered-ok (unfold is_fresh in refl)

abbrev keys : Keys
keys = record {
  encryption_key = codes "cipher";
  auth_key = codes "auth";
  replay_key = codes "replay";
}

-- A channel that was opened at 1000 and sent so many messages.
abbrev open_channel : List ℕ → List ℕ → ℕ → Channel
open_channel name remote sent = record (channel_of name none) {
  state = established;
  remote_agent_id = some remote;
  session_keys = some keys;
  send_counter = sent;
  established_at = some 1000;
}

abbrev rekey_a : RekeyInputs
rekey_a = record { draws = (5 ∷ []) ∷ []; nonce = 1 ∷ 2 ∷ []; read_at = 0; made_at = 1000 }

abbrev rekey_b : RekeyInputs
rekey_b = record { draws = (7 ∷ []) ∷ []; nonce = 3 ∷ 4 ∷ []; read_at = 1500; made_at = 1600 }

abbrev send_inputs : ℕ → SendInputs
send_inputs now = record { iv = codes "some_nonce_1"; rekey = rekey_a; stamp = stamp_at now }

abbrev sender : Channel
sender = open_channel (codes "a") (codes "b") 0

abbrev receiver : Channel
receiver = open_channel (codes "b") (codes "a") 0

abbrev sent_1 : Channel × Result Envelope
sent_1 = send toy_primitives (send_inputs 2000) sender (codes "hi") none

abbrev message_1 : Envelope
message_1 = get_ok sent_1.1 blank_envelope

abbrev sent_2 : Channel × Result Envelope
sent_2 = send toy_primitives (send_inputs 2100) sent_1.0 (codes "hi") none

abbrev message_2 : Envelope
message_2 = get_ok sent_2.1 blank_envelope

sent_1-ok :
    send toy_primitives (send_inputs 2000) sender (codes "hi") none ≡ (sent_1.0, ok message_1)
unfolding list_eq hex_digit hex digit_value is_space hex_pair fromhex b64_char b64_value b64encode
    take_bits put_byte b64_loop is_ascii b64decode is_surrogate encode_char encode is_tail with_char
    start_char is_valid_char decode_loop decode decimal_loop decimal escape_unit escape_char escape
    dump_value dump_fields dumps suite_text validate_suite match_offer negotiate_suite split_keys
    hkdf derive_keys_triple_dh derive_keys first_draw generate_keypair dh_exchange
    serialize_public_key serialize_private_key parse_raw parse_public_key aead_encrypt aead_decrypt
    as_value_error suite_field compare_text generate_replay_tag verify_replay_tag optional_tag
    encrypt_message decrypt_message is_version is_fresh open_message read_key read_nonce auth_bytes
    complete_bytes identity_pair exchange_three initiate_handshake respond_handshake
    complete_handshake make_manager check caught request_text response_text is_next sign
    create_rekey_request validate_rekey_request derive_new_keys answer_request save_answer
    continue_request checked_sequence process_rekey_request validate_rekey_response
    process_rekey_response apply_new_keys new_session secret_text session_dict read_secret
    read_session serialize deserialize update_last_activity action_text type_text parse_type
    priority_value parse_priority to_dict type_field priority_field has_no_other from_dict to_json
    from_json parse_raw_message is_expired is_max_hops_reached increment_hop make_message
    create_reply create_text_message create_control_message create_encrypted_message make_channel
    is_established is_idle is_handshaking is_rekeying fail session_of update_session_keys close
    create_heartbeat create_disconnect hello_of auth_of initiated initiate responded
    respond_to_handshake completed complete_with complete non_empty choose_recipient is_rekey_due
    rekey_started request_rekey initiate_rekey check_since check_rekey_needed wrap_message seal_text
    send_checked send_to send text_of message_of action_of error_message error_of
    handle_control_message check_replay_tag open_payload receive_checked advance receive_counted
    receive_typed receive switch_keys use_response response_with finish_rekey answered_keys
    answer_rekey save_keys handle_rekey_request
sent_1-ok = refl

sent_2-ok :
    send toy_primitives (send_inputs 2100) sent_1.0 (codes "hi") none ≡ (sent_2.0, ok message_2)
unfolding list_eq hex_digit hex digit_value is_space hex_pair fromhex b64_char b64_value b64encode
    take_bits put_byte b64_loop is_ascii b64decode is_surrogate encode_char encode is_tail with_char
    start_char is_valid_char decode_loop decode decimal_loop decimal escape_unit escape_char escape
    dump_value dump_fields dumps suite_text validate_suite match_offer negotiate_suite split_keys
    hkdf derive_keys_triple_dh derive_keys first_draw generate_keypair dh_exchange
    serialize_public_key serialize_private_key parse_raw parse_public_key aead_encrypt aead_decrypt
    as_value_error suite_field compare_text generate_replay_tag verify_replay_tag optional_tag
    encrypt_message decrypt_message is_version is_fresh open_message read_key read_nonce auth_bytes
    complete_bytes identity_pair exchange_three initiate_handshake respond_handshake
    complete_handshake make_manager check caught request_text response_text is_next sign
    create_rekey_request validate_rekey_request derive_new_keys answer_request save_answer
    continue_request checked_sequence process_rekey_request validate_rekey_response
    process_rekey_response apply_new_keys new_session secret_text session_dict read_secret
    read_session serialize deserialize update_last_activity action_text type_text parse_type
    priority_value parse_priority to_dict type_field priority_field has_no_other from_dict to_json
    from_json parse_raw_message is_expired is_max_hops_reached increment_hop make_message
    create_reply create_text_message create_control_message create_encrypted_message make_channel
    is_established is_idle is_handshaking is_rekeying fail session_of update_session_keys close
    create_heartbeat create_disconnect hello_of auth_of initiated initiate responded
    respond_to_handshake completed complete_with complete non_empty choose_recipient is_rekey_due
    rekey_started request_rekey initiate_rekey check_since check_rekey_needed wrap_message seal_text
    send_checked send_to send text_of message_of action_of error_message error_of
    handle_control_message check_replay_tag open_payload receive_checked advance receive_counted
    receive_typed receive switch_keys use_response response_with finish_rekey answered_keys
    answer_rekey save_keys handle_rekey_request
sent_2-ok = refl

ascii-IsScalar : (c : ℕ) → c < 128 → IsScalar c
unfolding is_surrogate
ascii-IsScalar c h = record { below = omega (arith, h); no_surrogate = ground (arith, h) }

hi-IsText : IsText (codes "hi")
hi-IsText = (ascii-IsScalar 104 (omega arith), (ascii-IsScalar 105 (omega arith), tt))

not_expired-1 : is_expired 2050 300000 message_1 ≡ false
unfolding list_eq hex_digit hex digit_value is_space hex_pair fromhex b64_char b64_value b64encode
    take_bits put_byte b64_loop is_ascii b64decode is_surrogate encode_char encode is_tail with_char
    start_char is_valid_char decode_loop decode decimal_loop decimal escape_unit escape_char escape
    dump_value dump_fields dumps suite_text validate_suite match_offer negotiate_suite split_keys
    hkdf derive_keys_triple_dh derive_keys first_draw generate_keypair dh_exchange
    serialize_public_key serialize_private_key parse_raw parse_public_key aead_encrypt aead_decrypt
    as_value_error suite_field compare_text generate_replay_tag verify_replay_tag optional_tag
    encrypt_message decrypt_message is_version is_fresh open_message read_key read_nonce auth_bytes
    complete_bytes identity_pair exchange_three initiate_handshake respond_handshake
    complete_handshake make_manager check caught request_text response_text is_next sign
    create_rekey_request validate_rekey_request derive_new_keys answer_request save_answer
    continue_request checked_sequence process_rekey_request validate_rekey_response
    process_rekey_response apply_new_keys new_session secret_text session_dict read_secret
    read_session serialize deserialize update_last_activity action_text type_text parse_type
    priority_value parse_priority to_dict type_field priority_field has_no_other from_dict to_json
    from_json parse_raw_message is_expired is_max_hops_reached increment_hop make_message
    create_reply create_text_message create_control_message create_encrypted_message make_channel
    is_established is_idle is_handshaking is_rekeying fail session_of update_session_keys close
    create_heartbeat create_disconnect hello_of auth_of initiated initiate responded
    respond_to_handshake completed complete_with complete non_empty choose_recipient is_rekey_due
    rekey_started request_rekey initiate_rekey check_since check_rekey_needed wrap_message seal_text
    send_checked send_to send text_of message_of action_of error_message error_of
    handle_control_message check_replay_tag open_payload receive_checked advance receive_counted
    receive_typed receive switch_keys use_response response_with finish_rekey answered_keys
    answer_rekey save_keys handle_rekey_request
not_expired-1 = refl

not_expired-2 : is_expired 2150 300000 message_2 ≡ false
unfolding list_eq hex_digit hex digit_value is_space hex_pair fromhex b64_char b64_value b64encode
    take_bits put_byte b64_loop is_ascii b64decode is_surrogate encode_char encode is_tail with_char
    start_char is_valid_char decode_loop decode decimal_loop decimal escape_unit escape_char escape
    dump_value dump_fields dumps suite_text validate_suite match_offer negotiate_suite split_keys
    hkdf derive_keys_triple_dh derive_keys first_draw generate_keypair dh_exchange
    serialize_public_key serialize_private_key parse_raw parse_public_key aead_encrypt aead_decrypt
    as_value_error suite_field compare_text generate_replay_tag verify_replay_tag optional_tag
    encrypt_message decrypt_message is_version is_fresh open_message read_key read_nonce auth_bytes
    complete_bytes identity_pair exchange_three initiate_handshake respond_handshake
    complete_handshake make_manager check caught request_text response_text is_next sign
    create_rekey_request validate_rekey_request derive_new_keys answer_request save_answer
    continue_request checked_sequence process_rekey_request validate_rekey_response
    process_rekey_response apply_new_keys new_session secret_text session_dict read_secret
    read_session serialize deserialize update_last_activity action_text type_text parse_type
    priority_value parse_priority to_dict type_field priority_field has_no_other from_dict to_json
    from_json parse_raw_message is_expired is_max_hops_reached increment_hop make_message
    create_reply create_text_message create_control_message create_encrypted_message make_channel
    is_established is_idle is_handshaking is_rekeying fail session_of update_session_keys close
    create_heartbeat create_disconnect hello_of auth_of initiated initiate responded
    respond_to_handshake completed complete_with complete non_empty choose_recipient is_rekey_due
    rekey_started request_rekey initiate_rekey check_since check_rekey_needed wrap_message seal_text
    send_checked send_to send text_of message_of action_of error_message error_of
    handle_control_message check_replay_tag open_payload receive_checked advance receive_counted
    receive_typed receive switch_keys use_response response_with finish_rekey answered_keys
    answer_rekey save_keys handle_rekey_request
not_expired-2 = refl

receive_all-Sends_example :
    receive_all toy_primitives receiver ((2050, message_1) ∷ (2150, message_2) ∷ [])
    ≡ ok (codes "hi") ∷ ok (codes "hi") ∷ []
receive_all-Sends_example =
    receive_all-Sends toy_primitives en keys sender sent_2.0 receiver
      ((send_inputs 2000, codes "hi") ∷ (send_inputs 2100, codes "hi") ∷ [])
      ((2050, message_1) ∷ (2150, message_2) ∷ []) refl refl refl refl (omega arith)
      ((omega arith, hi-IsText), ((omega arith, hi-IsText), tt))
      (not_expired-1, (not_expired-2, tt))
      (Exchange.sends (send_inputs 2000) (codes "hi") none 2050 message_1 sent_1-ok
        (Exchange.sends (send_inputs 2100) (codes "hi") none 2150 message_2 sent_2-ok silent))

abbrev blank_request : RekeyRequest
blank_request = record {
  version = none;
  timestamp = none;
  sequence = none;
  ephemeral_pub = none;
  nonce = none;
  reason = none;
  key_lifetime = none;
  signature = none;
}

abbrev blank_response : RekeyResponse
blank_response = record {
  version = none;
  timestamp = none;
  sequence = none;
  ephemeral_pub = none;
  nonce = none;
  signature = none;
}

-- sender and receiver change their keys
abbrev asking : Channel
asking = (initiate_rekey toy_primitives rekey_a 2300 sender).0

abbrev request : RekeyRequest
request = get_default asking.pending_rekey_request blank_request

abbrev replied : Channel × Result RekeyResponse
replied = handle_rekey_request toy_primitives rekey_b receiver request

abbrev response : RekeyResponse
response = get_ok replied.1 blank_response

-- the same request from a channel whose messages are spent, which then goes on to send
abbrev spent : Channel
spent = open_channel (codes "a") (codes "b") 4

abbrev spent_asking : Channel
spent_asking = (initiate_rekey toy_primitives rekey_a 2300 spent).0

abbrev renewed : Channel
renewed = (finish_rekey toy_primitives 1700 spent_asking response).0

abbrev waiting : Channel
waiting = update_session_keys renewed keys

abbrev sent_3 : Channel × Result Envelope
sent_3 = send toy_primitives (send_inputs 2400) waiting (codes "hi") none

abbrev message_3 : Envelope
message_3 = get_ok sent_3.1 blank_envelope

spent_asking-IsDue : IsDue spent_asking
unfolding list_eq hex_digit hex digit_value is_space hex_pair fromhex b64_char b64_value b64encode
    take_bits put_byte b64_loop is_ascii b64decode is_surrogate encode_char encode is_tail with_char
    start_char is_valid_char decode_loop decode decimal_loop decimal escape_unit escape_char escape
    dump_value dump_fields dumps suite_text validate_suite match_offer negotiate_suite split_keys
    hkdf derive_keys_triple_dh derive_keys first_draw generate_keypair dh_exchange
    serialize_public_key serialize_private_key parse_raw parse_public_key aead_encrypt aead_decrypt
    as_value_error suite_field compare_text generate_replay_tag verify_replay_tag optional_tag
    encrypt_message decrypt_message is_version is_fresh open_message read_key read_nonce auth_bytes
    complete_bytes identity_pair exchange_three initiate_handshake respond_handshake
    complete_handshake make_manager check caught request_text response_text is_next sign
    create_rekey_request validate_rekey_request derive_new_keys answer_request save_answer
    continue_request checked_sequence process_rekey_request validate_rekey_response
    process_rekey_response apply_new_keys new_session secret_text session_dict read_secret
    read_session serialize deserialize update_last_activity action_text type_text parse_type
    priority_value parse_priority to_dict type_field priority_field has_no_other from_dict to_json
    from_json parse_raw_message is_expired is_max_hops_reached increment_hop make_message
    create_reply create_text_message create_control_message create_encrypted_message make_channel
    is_established is_idle is_handshaking is_rekeying fail session_of update_session_keys close
    create_heartbeat create_disconnect hello_of auth_of initiated initiate responded
    respond_to_handshake completed complete_with complete non_empty choose_recipient is_rekey_due
    rekey_started request_rekey initiate_rekey check_since check_rekey_needed wrap_message seal_text
    send_checked send_to send text_of message_of action_of error_message error_of
    handle_control_message check_replay_tag open_payload receive_checked advance receive_counted
    receive_typed receive switch_keys use_response response_with finish_rekey answered_keys
    answer_rekey save_keys handle_rekey_request
spent_asking-IsDue = (omega arith, 999, refl)

renewed-ok : finish_rekey toy_primitives 1700 spent_asking response ≡ (renewed, ok tt)
unfolding list_eq hex_digit hex digit_value is_space hex_pair fromhex b64_char b64_value b64encode
    take_bits put_byte b64_loop is_ascii b64decode is_surrogate encode_char encode is_tail with_char
    start_char is_valid_char decode_loop decode decimal_loop decimal escape_unit escape_char escape
    dump_value dump_fields dumps suite_text validate_suite match_offer negotiate_suite split_keys
    hkdf derive_keys_triple_dh derive_keys first_draw generate_keypair dh_exchange
    serialize_public_key serialize_private_key parse_raw parse_public_key aead_encrypt aead_decrypt
    as_value_error suite_field compare_text generate_replay_tag verify_replay_tag optional_tag
    encrypt_message decrypt_message is_version is_fresh open_message read_key read_nonce auth_bytes
    complete_bytes identity_pair exchange_three initiate_handshake respond_handshake
    complete_handshake make_manager check caught request_text response_text is_next sign
    create_rekey_request validate_rekey_request derive_new_keys answer_request save_answer
    continue_request checked_sequence process_rekey_request validate_rekey_response
    process_rekey_response apply_new_keys new_session secret_text session_dict read_secret
    read_session serialize deserialize update_last_activity action_text type_text parse_type
    priority_value parse_priority to_dict type_field priority_field has_no_other from_dict to_json
    from_json parse_raw_message is_expired is_max_hops_reached increment_hop make_message
    create_reply create_text_message create_control_message create_encrypted_message make_channel
    is_established is_idle is_handshaking is_rekeying fail session_of update_session_keys close
    create_heartbeat create_disconnect hello_of auth_of initiated initiate responded
    respond_to_handshake completed complete_with complete non_empty choose_recipient is_rekey_due
    rekey_started request_rekey initiate_rekey check_since check_rekey_needed wrap_message seal_text
    send_checked send_to send text_of message_of action_of error_message error_of
    handle_control_message check_replay_tag open_payload receive_checked advance receive_counted
    receive_typed receive switch_keys use_response response_with finish_rekey answered_keys
    answer_rekey save_keys handle_rekey_request
renewed-ok = refl

sent_3-ok :
    send toy_primitives (send_inputs 2400) waiting (codes "hi") none ≡ (sent_3.0, ok message_3)
unfolding list_eq hex_digit hex digit_value is_space hex_pair fromhex b64_char b64_value b64encode
    take_bits put_byte b64_loop is_ascii b64decode is_surrogate encode_char encode is_tail with_char
    start_char is_valid_char decode_loop decode decimal_loop decimal escape_unit escape_char escape
    dump_value dump_fields dumps suite_text validate_suite match_offer negotiate_suite split_keys
    hkdf derive_keys_triple_dh derive_keys first_draw generate_keypair dh_exchange
    serialize_public_key serialize_private_key parse_raw parse_public_key aead_encrypt aead_decrypt
    as_value_error suite_field compare_text generate_replay_tag verify_replay_tag optional_tag
    encrypt_message decrypt_message is_version is_fresh open_message read_key read_nonce auth_bytes
    complete_bytes identity_pair exchange_three initiate_handshake respond_handshake
    complete_handshake make_manager check caught request_text response_text is_next sign
    create_rekey_request validate_rekey_request derive_new_keys answer_request save_answer
    continue_request checked_sequence process_rekey_request validate_rekey_response
    process_rekey_response apply_new_keys new_session secret_text session_dict read_secret
    read_session serialize deserialize update_last_activity action_text type_text parse_type
    priority_value parse_priority to_dict type_field priority_field has_no_other from_dict to_json
    from_json parse_raw_message is_expired is_max_hops_reached increment_hop make_message
    create_reply create_text_message create_control_message create_encrypted_message make_channel
    is_established is_idle is_handshaking is_rekeying fail session_of update_session_keys close
    create_heartbeat create_disconnect hello_of auth_of initiated initiate responded
    respond_to_handshake completed complete_with complete non_empty choose_recipient is_rekey_due
    rekey_started request_rekey initiate_rekey check_since check_rekey_needed wrap_message seal_text
    send_checked send_to send text_of message_of action_of error_message error_of
    handle_control_message check_replay_tag open_payload receive_checked advance receive_counted
    receive_typed receive switch_keys use_response response_with finish_rekey answered_keys
    answer_rekey save_keys handle_rekey_request
sent_3-ok = refl

finish_rekey-IsDue_example :
    IsDue sent_3.0
    × (sent_3.0.state ≡ rekeying)
    × (send toy_primitives (send_inputs 2500) sent_3.0 (codes "hi") none
        ≡ (sent_3.0, err runtime_error))
finish_rekey-IsDue_example =
    finish_rekey-IsDue toy_primitives (send_inputs 2400) (send_inputs 2500) 1700 spent_asking
      renewed waiting sent_3.0 response (codes "hi") (codes "hi") none none message_3
      spent_asking-IsDue renewed-ok (next here (updates renewed keys)) sent_3-ok

-- A message with the counter 7, received after one with the counter 3.
abbrev blank : Message
blank = record {
  version = none;
  message_type = none;
  timestamp = none;
  sender_id = none;
  recipient_id = none;
  message_counter = none;
  iv = none;
  payload = none;
  auth_tag = none;
  suite = none;
  replay_tag = none;
}

abbrev message : Message
message =
    get_ok
      (encrypt_message toy_primitives (codes "some_nonce_1") 1000 (codes "cipher") (codes "hi")
        (codes "a") (codes "b") 7 (some (codes "replay")) (suite_text en))
      blank

abbrev envelope : Envelope
envelope = record blank_envelope { payload = encrypted_payload message }

abbrev before : Channel
before = record receiver { recv_counter = 3 }

abbrev after : Channel
after = took before 7

received-ok : receive toy_primitives 1200 before envelope ≡ (after, ok (codes "hi"))
unfolding list_eq hex_digit hex digit_value is_space hex_pair fromhex b64_char b64_value b64encode
    take_bits put_byte b64_loop is_ascii b64decode is_surrogate encode_char encode is_tail with_char
    start_char is_valid_char decode_loop decode decimal_loop decimal escape_unit escape_char escape
    dump_value dump_fields dumps suite_text validate_suite match_offer negotiate_suite split_keys
    hkdf derive_keys_triple_dh derive_keys first_draw generate_keypair dh_exchange
    serialize_public_key serialize_private_key parse_raw parse_public_key aead_encrypt aead_decrypt
    as_value_error suite_field compare_text generate_replay_tag verify_replay_tag optional_tag
    encrypt_message decrypt_message is_version is_fresh open_message read_key read_nonce auth_bytes
    complete_bytes identity_pair exchange_three initiate_handshake respond_handshake
    complete_handshake make_manager check caught request_text response_text is_next sign
    create_rekey_request validate_rekey_request derive_new_keys answer_request save_answer
    continue_request checked_sequence process_rekey_request validate_rekey_response
    process_rekey_response apply_new_keys new_session secret_text session_dict read_secret
    read_session serialize deserialize update_last_activity action_text type_text parse_type
    priority_value parse_priority to_dict type_field priority_field has_no_other from_dict to_json
    from_json parse_raw_message is_expired is_max_hops_reached increment_hop make_message
    create_reply create_text_message create_control_message create_encrypted_message make_channel
    is_established is_idle is_handshaking is_rekeying fail session_of update_session_keys close
    create_heartbeat create_disconnect hello_of auth_of initiated initiate responded
    respond_to_handshake completed complete_with complete non_empty choose_recipient is_rekey_due
    rekey_started request_rekey initiate_rekey check_since check_rekey_needed wrap_message seal_text
    send_checked send_to send text_of message_of action_of error_message error_of
    handle_control_message check_replay_tag open_payload receive_checked advance receive_counted
    receive_typed receive switch_keys use_response response_with finish_rekey answered_keys
    answer_rekey save_keys handle_rekey_request
received-ok = refl

receive_counter_example : (3 < 7) × (after ≡ took before (get_default message.message_counter 0))
receive_counter_example =
    receive_counter toy_primitives 1200 before after envelope message (codes "hi") (refl, refl)
      received-ok

receive_replay_example : ¬ (
    receive toy_primitives 1300 (update_session_keys after keys) envelope
    ≡ (after, ok (codes "hi")))
receive_replay_example =
    receive_replay toy_primitives 1200 1300 before after (update_session_keys after keys) after
      envelope envelope message message (codes "hi") (codes "hi") (refl, refl) (refl, refl)
      (omega arith) received-ok (next here (updates after keys))

counter_seven : get_default message.message_counter 0 < 8
unfolding list_eq hex_digit hex digit_value is_space hex_pair fromhex b64_char b64_value b64encode
    take_bits put_byte b64_loop is_ascii b64decode is_surrogate encode_char encode is_tail with_char
    start_char is_valid_char decode_loop decode decimal_loop decimal escape_unit escape_char escape
    dump_value dump_fields dumps suite_text validate_suite match_offer negotiate_suite split_keys
    hkdf derive_keys_triple_dh derive_keys first_draw generate_keypair dh_exchange
    serialize_public_key serialize_private_key parse_raw parse_public_key aead_encrypt aead_decrypt
    as_value_error suite_field compare_text generate_replay_tag verify_replay_tag optional_tag
    encrypt_message decrypt_message is_version is_fresh open_message read_key read_nonce auth_bytes
    complete_bytes identity_pair exchange_three initiate_handshake respond_handshake
    complete_handshake make_manager check caught request_text response_text is_next sign
    create_rekey_request validate_rekey_request derive_new_keys answer_request save_answer
    continue_request checked_sequence process_rekey_request validate_rekey_response
    process_rekey_response apply_new_keys new_session secret_text session_dict read_secret
    read_session serialize deserialize update_last_activity action_text type_text parse_type
    priority_value parse_priority to_dict type_field priority_field has_no_other from_dict to_json
    from_json parse_raw_message is_expired is_max_hops_reached increment_hop make_message
    create_reply create_text_message create_control_message create_encrypted_message make_channel
    is_established is_idle is_handshaking is_rekeying fail session_of update_session_keys close
    create_heartbeat create_disconnect hello_of auth_of initiated initiate responded
    respond_to_handshake completed complete_with complete non_empty choose_recipient is_rekey_due
    rekey_started request_rekey initiate_rekey check_since check_rekey_needed wrap_message seal_text
    send_checked send_to send text_of message_of action_of error_message error_of
    handle_control_message check_replay_tag open_payload receive_checked advance receive_counted
    receive_typed receive switch_keys use_response response_with finish_rekey answered_keys
    answer_rekey save_keys handle_rekey_request
counter_seven = omega arith

receive_stripped_example :
    (receive toy_primitives 1200 after (record envelope {
      payload = encrypted_payload (record message { replay_tag = none; message_counter = some 8 });
    })).1
    ≡ ok (codes "hi")
receive_stripped_example =
    receive_stripped toy_primitives 1200 8 before after envelope message (codes "hi") (refl, refl)
      received-ok counter_seven

-- A channel that is made, opened by the other side and closed.
made-ok : make_channel (codes "b") (codes "shared") limits none none (suite_text en) ≡ ok bob
unfolding list_eq hex_digit hex digit_value is_space hex_pair fromhex b64_char b64_value b64encode
    take_bits put_byte b64_loop is_ascii b64decode is_surrogate encode_char encode is_tail with_char
    start_char is_valid_char decode_loop decode decimal_loop decimal escape_unit escape_char escape
    dump_value dump_fields dumps suite_text validate_suite match_offer negotiate_suite split_keys
    hkdf derive_keys_triple_dh derive_keys first_draw generate_keypair dh_exchange
    serialize_public_key serialize_private_key parse_raw parse_public_key aead_encrypt aead_decrypt
    as_value_error suite_field compare_text generate_replay_tag verify_replay_tag optional_tag
    encrypt_message decrypt_message is_version is_fresh open_message read_key read_nonce auth_bytes
    complete_bytes identity_pair exchange_three initiate_handshake respond_handshake
    complete_handshake make_manager check caught request_text response_text is_next sign
    create_rekey_request validate_rekey_request derive_new_keys answer_request save_answer
    continue_request checked_sequence process_rekey_request validate_rekey_response
    process_rekey_response apply_new_keys new_session secret_text session_dict read_secret
    read_session serialize deserialize update_last_activity action_text type_text parse_type
    priority_value parse_priority to_dict type_field priority_field has_no_other from_dict to_json
    from_json parse_raw_message is_expired is_max_hops_reached increment_hop make_message
    create_reply create_text_message create_control_message create_encrypted_message make_channel
    is_established is_idle is_handshaking is_rekeying fail session_of update_session_keys close
    create_heartbeat create_disconnect hello_of auth_of initiated initiate responded
    respond_to_handshake completed complete_with complete non_empty choose_recipient is_rekey_due
    rekey_started request_rekey initiate_rekey check_since check_rekey_needed wrap_message seal_text
    send_checked send_to send text_of message_of action_of error_message error_of
    handle_control_message check_replay_tag open_payload receive_checked advance receive_counted
    receive_typed receive switch_keys use_response response_with finish_rekey answered_keys
    answer_rekey save_keys handle_rekey_request
made-ok = refl

abbrev reached : Reach toy_primitives bob (close answered.0)
reached = next (next here (responds inputs_b (stamp_at 1600) bob hello)) (closes answered.0)

Reach-made-IsSound_example : IsSound (close answered.0)
Reach-made-IsSound_example =
    Reach-made-IsSound toy_primitives (codes "b") (codes "shared") limits none none (suite_text en)
      bob (close answered.0) made-ok reached

close_final_example :
    ((update_session_keys (close answered.0) keys).state ≡ closed)
    × ((update_session_keys (close answered.0) keys).session_keys ≡ none)
close_final_example =
    close_final toy_primitives answered.0 (update_session_keys (close answered.0) keys)
      (next here (updates (close answered.0) keys))

-- texts of envelopes and of sessions
parse_raw_message-to_json_example :
    parse_raw_message toy_envelope_json (stamp_at 5) (to_json toy_envelope_json envelope)
    ≡ ok envelope
parse_raw_message-to_json_example =
    parse_raw_message-to_json toy_envelope_json (stamp_at 5) envelope refl

abbrev session : SessionState
session = session_of 1600 bob (codes "a") keys

session-AreKept : AreKept session
unfolding list_eq hex_digit hex digit_value is_space hex_pair fromhex b64_char b64_value b64encode
    take_bits put_byte b64_loop is_ascii b64decode is_surrogate encode_char encode is_tail with_char
    start_char is_valid_char decode_loop decode decimal_loop decimal escape_unit escape_char escape
    dump_value dump_fields dumps suite_text validate_suite match_offer negotiate_suite split_keys
    hkdf derive_keys_triple_dh derive_keys first_draw generate_keypair dh_exchange
    serialize_public_key serialize_private_key parse_raw parse_public_key aead_encrypt aead_decrypt
    as_value_error suite_field compare_text generate_replay_tag verify_replay_tag optional_tag
    encrypt_message decrypt_message is_version is_fresh open_message read_key read_nonce auth_bytes
    complete_bytes identity_pair exchange_three initiate_handshake respond_handshake
    complete_handshake make_manager check caught request_text response_text is_next sign
    create_rekey_request validate_rekey_request derive_new_keys answer_request save_answer
    continue_request checked_sequence process_rekey_request validate_rekey_response
    process_rekey_response apply_new_keys new_session secret_text session_dict read_secret
    read_session serialize deserialize update_last_activity action_text type_text parse_type
    priority_value parse_priority to_dict type_field priority_field has_no_other from_dict to_json
    from_json parse_raw_message is_expired is_max_hops_reached increment_hop make_message
    create_reply create_text_message create_control_message create_encrypted_message make_channel
    is_established is_idle is_handshaking is_rekeying fail session_of update_session_keys close
    create_heartbeat create_disconnect hello_of auth_of initiated initiate responded
    respond_to_handshake completed complete_with complete non_empty choose_recipient is_rekey_due
    rekey_started request_rekey initiate_rekey check_since check_rekey_needed wrap_message seal_text
    send_checked send_to send text_of message_of action_of error_message error_of
    handle_control_message check_replay_tag open_payload receive_checked advance receive_counted
    receive_typed receive switch_keys use_response response_with finish_rekey answered_keys
    answer_rekey save_keys handle_rekey_request
session-AreKept = record {
  encryption_kept = kept (codes "cipher") (omega arith);
  auth_kept = kept (codes "auth") (omega arith);
  replay_kept = kept (codes "replay") (omega arith);
  psk_kept = unset;
  salt_kept = unset;
}

deserialize-serialize_example :
    (do t ← serialize toy_session_json session; deserialize toy_session_json t)
    ≡ ok (record session {
      encryption_key = in_bytes session.encryption_key;
      auth_key = in_bytes session.auth_key;
      replay_key = in_bytes session.replay_key;
      psk_hash = in_bytes session.psk_hash;
      salt = in_bytes session.salt;
    })
deserialize-serialize_example = deserialize-serialize toy_session_json session session-AreKept
