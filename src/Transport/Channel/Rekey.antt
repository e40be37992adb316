-- ===== src/Transport/Channel/Rekey.antt =====
-- The messages of a change of keys on a channel.
use sip_protocol.Prelude.{
  ℕ, ◌+◌, false, Option, none, some, Result, ok, err, ◌>>=◌, require, value_error, assertion_error,
  attribute_error,
}
use sip_protocol.Crypto.Primitives.{Primitives}
use sip_protocol.Crypto.Hkdf.{Keys}
use sip_protocol.Protocol.Rekey.{
  RekeyManager, RekeyRequest, RekeyResponse, RekeyInputs, make_manager, process_rekey_request,
  process_rekey_response, apply_new_keys,
}
use sip_protocol.Transport.Channel.{
  Channel, HandshakeState, no_handshake, initiating, responding, rekey_pending, established,
}

module _ (p : Primitives) where
  -- what follows `manager.process_rekey_response`: the channel's keys are asserted after the
  -- manager has applied the new ones
  unfoldable pub switch_keys :
      Channel → RekeyRequest → Option Keys → RekeyManager → Channel × Result (Unit {0})
  switch_keys channel request none manager =
      (record channel { handshake_state = rekey_pending manager request }, err assertion_error)
  switch_keys channel request (some old) manager = (
    record channel {
      session_keys = some manager.keys;
      handshake_state = no_handshake;
      pending_rekey_request = none;
      state = established;
      rekey_completed = channel.rekey_completed + 1;
    },
    ok tt,
  )

  unfoldable pub use_response :
      Channel → RekeyRequest → Result (Keys × RekeyManager) → Channel × Result (Unit {0})
  unfolding switch_keys
  use_response channel request (err e) = (channel, err e)
  use_response channel request (ok (new_keys, manager)) =
      switch_keys channel request channel.session_keys (apply_new_keys manager new_keys)

  unfoldable pub response_with :
      ℕ → Channel → RekeyResponse → HandshakeState → Channel × Result (Unit {0})
  unfolding use_response
  response_with now channel response (rekey_pending manager request) =
      use_response channel request (process_rekey_response p now manager response)
  response_with now channel response no_handshake = (channel, err value_error)
  response_with now channel response (initiating agent_state) = (channel, err value_error)
  response_with now channel response (responding agent_state remote) = (channel, err value_error)

  -- `process_rekey_response`
  unfoldable pub finish_rekey : ℕ → Channel → RekeyResponse → Channel × Result (Unit {0})
  unfolding response_with
  finish_rekey now channel response = response_with now channel response channel.handshake_state

  -- the answer of `handle_rekey_request`, with the keys that it makes
  unfoldable pub answered_keys : RekeyManager × Result RekeyResponse → Result (RekeyResponse × Keys)
  answered_keys (manager, answer) = do
    response ← answer
    new_keys ← require manager.temp_new_keys attribute_error
    ok (response, (apply_new_keys manager new_keys).keys)

  unfoldable pub answer_rekey : RekeyInputs → Channel → RekeyRequest → Result (RekeyResponse × Keys)
  unfolding answered_keys
  answer_rekey inputs channel request = do
    keys ← require channel.session_keys assertion_error
    responder ← make_manager keys 0 (some channel.suite) false
    answered_keys (process_rekey_request p inputs responder request)

  unfoldable pub save_keys :
      Channel → Result (RekeyResponse × Keys) → Channel × Result RekeyResponse
  save_keys channel (err e) = (channel, err e)
  save_keys channel (ok (response, new_keys)) = (
    record channel { session_keys = some new_keys; rekey_completed = channel.rekey_completed + 1 },
    ok response,
  )

  -- `handle_rekey_request`
  unfoldable pub handle_rekey_request :
      RekeyInputs → Channel → RekeyRequest → Channel × Result RekeyResponse
  unfolding save_keys answer_rekey
  handle_rekey_request inputs channel request =
      save_keys channel (answer_rekey inputs channel request)
