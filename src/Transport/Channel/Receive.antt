-- ===== src/Transport/Channel/Receive.antt =====
-- Receiving on a channel.
use sip_protocol.Prelude.{
  ℕ, ◌+◌, List, [], ◌∷◌, ◌++◌, not, Option, none, some, Result, ok, err, ◌>>=◌, ◌>>◌, guard,
  require, get_default, value_error, runtime_error, assertion_error, ltb, list_eq, if◌then◌else◌,
  codes,
}
use sip_protocol.Crypto.Suite.{en, suite_text, validate_suite}
use sip_protocol.Crypto.Primitives.{Primitives}
use sip_protocol.Crypto.Hkdf.{Keys}
use sip_protocol.Protocol.Message.{Message, as_value_error, verify_replay_tag, decrypt_message}
use sip_protocol.Transport.Message.{
  Envelope, MessageType, text_message, encrypted_message, control_message, Payload, ControlData,
  text_payload, encrypted_payload, control_payload, no_data, hello_data, auth_data, error_data,
  is_expired, is_max_hops_reached,
}
use sip_protocol.Transport.Channel.{Channel, is_established, close}

abbrev no_message : Message
no_message = record {
  version = none;
  message_type = none;
  timestamp = none;
  sender_id = none;
  recipient_id = none;
  message_counter = none;
  iv = none;
  payload = none;
  auth_tag = none;
  suite = none;
  replay_tag = none;
}

-- `payload.get(k)` for the keys that receiving reads
unfoldable pub text_of : Payload → Option (List ℕ)
text_of (text_payload t) = t
text_of (encrypted_payload message) = none
text_of (control_payload action part) = none

unfoldable pub message_of : Payload → Message
message_of (encrypted_payload message) = message
message_of (text_payload t) = no_message
message_of (control_payload action part) = no_message

unfoldable pub action_of : Payload → Option (List ℕ)
action_of (control_payload action part) = action
action_of (text_payload t) = none
action_of (encrypted_payload message) = none

unfoldable pub error_message : ControlData → Option (List ℕ)
error_message (error_data m) = m
error_message no_data = none
error_message (hello_data hello) = none
error_message (auth_data auth) = none

unfoldable pub error_of : Payload → Option (List ℕ)
unfolding error_message
error_of (control_payload action part) = error_message part
error_of (text_payload t) = none
error_of (encrypted_payload message) = none

-- `_handle_control_message`, on the action and on the message of its error data
unfoldable pub handle_control_message :
    Channel → List ℕ → Option (List ℕ) → Channel × Result (List ℕ)
handle_control_message channel action reason =
    if list_eq action (codes "heartbeat")
    then (channel, ok (codes "[heartbeat]"))
    else if list_eq action (codes "disconnect")
    then (close channel, ok (codes "[disconnect]"))
    else if list_eq action (codes "error")
    then (
      channel,
      ok (codes "[error: " ++ (get_default reason (codes "unknown error") ++ codes "]")),
    )
    else (channel, ok (codes "[control: " ++ (action ++ codes "]")))

module _ (p : Primitives) where
  -- `if replay_tag and self._session_keys`: an absent or empty tag is not looked at.
  unfoldable pub check_replay_tag :
      Option Keys → Option (List ℕ) → List ℕ → ℕ → Option (List ℕ) → Result (Unit {0})
  check_replay_tag keys none sender counter suite = ok tt
  check_replay_tag keys (some []) sender counter suite = ok tt
  check_replay_tag none (some (c ∷ tag)) sender counter suite = ok tt
  check_replay_tag (some keys) (some (c ∷ tag)) sender counter suite = do
    s ← validate_suite (get_default suite (suite_text en))
    valid ← verify_replay_tag p keys.replay_key sender counter (c ∷ tag) (suite_text s)
    guard valid value_error

  -- `decrypt_message` under the session's key; every error becomes ValueError
  unfoldable pub open_payload : Option Keys → Message → Result (List ℕ)
  unfolding as_value_error
  open_payload keys message =
      as_value_error (do
        current ← require keys assertion_error
        decrypt_message p current.encryption_key message)

  -- the checks of `receive` before it decrypts, and the counter of the message
  unfoldable pub receive_checked : ℕ → Channel → Envelope → Message → Result ℕ
  receive_checked now channel envelope message = do
    guard (not (is_expired now channel.config.message_ttl_ms envelope)) value_error
    guard (not (is_max_hops_reached envelope)) value_error
    check_replay_tag channel.session_keys message.replay_tag
        (get_default message.sender_id envelope.sender_id) (get_default message.message_counter 0)
        message.suite
    guard (ltb channel.recv_counter (get_default message.message_counter 0)) value_error
    ok (get_default message.message_counter 0)

  unfoldable pub advance : Channel → ℕ → Result (List ℕ) → Channel × Result (List ℕ)
  advance channel counter (err e) = (record channel { errors = channel.errors + 1 }, err e)
  advance channel counter (ok plaintext) = (
    record channel { recv_counter = counter; messages_received = channel.messages_received + 1 },
    ok plaintext,
  )

  unfoldable pub receive_counted : Channel → Message → Result ℕ → Channel × Result (List ℕ)
  unfolding advance
  receive_counted channel message (err e) = (channel, err e)
  receive_counted channel message (ok counter) =
      advance channel counter (open_payload channel.session_keys message)

  unfoldable pub receive_typed : ℕ → Channel → Envelope → MessageType → Channel × Result (List ℕ)
  unfolding receive_counted handle_control_message text_of message_of action_of error_of
  receive_typed now channel envelope control_message =
      handle_control_message channel (get_default (action_of envelope.payload) [])
        (error_of envelope.payload)
  receive_typed now channel envelope text_message =
      (channel, ok (get_default (text_of envelope.payload) []))
  receive_typed now channel envelope encrypted_message =
      receive_counted channel (message_of envelope.payload)
        (receive_checked now channel envelope (message_of envelope.payload))

  -- `receive`
  unfoldable pub receive : ℕ → Channel → Envelope → Channel × Result (List ℕ)
  unfolding receive_typed
  receive now channel envelope =
      if is_established channel.state
      then receive_typed now channel envelope envelope.message_type
      else (channel, err runtime_error)
