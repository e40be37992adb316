-- ===== src/Transport/Channel/Send.antt =====
-- Sending on a channel, and the change of keys that it may start.
use sip_protocol.Prelude.{
  ℕ, zero, suc, ◌+◌, ◌*◌, List, [], ◌∷◌, Bool, true, ◌||◌, Option, none, some, Result, ok, err,
  ◌>>=◌, require, value_error, runtime_error, assertion_error, leb, if◌then◌else◌, codes,
}
use sip_protocol.Crypto.Primitives.{Bytes, Primitives}
use sip_protocol.Protocol.Message.{Message, encrypt_message}
use sip_protocol.Protocol.Rekey.{
  RekeyManager, RekeyRequest, RekeyInputs, make_manager, create_rekey_request,
}
use sip_protocol.Transport.Message.{Envelope, Stamp, create_encrypted_message}
use sip_protocol.Transport.Channel.{Channel, rekeying, rekey_pending, is_established, is_rekeying}

-- What sending draws and reads: the IV, what a change of keys needs, and the stamp of the message.
pub record SendInputs : Type 0 where
  pub iv : Bytes
  pub rekey : RekeyInputs
  pub stamp : Stamp

-- `recipient_id or self.remote_agent_id`, where an empty text counts as none
unfoldable pub non_empty : Option (List ℕ) → Option (List ℕ)
non_empty none = none
non_empty (some []) = none
non_empty (some (c ∷ cs)) = some (c ∷ cs)

unfoldable pub choose_recipient : Option (List ℕ) → Option (List ℕ) → Option (List ℕ)
unfolding non_empty
choose_recipient (some (c ∷ cs)) remote = some (c ∷ cs)
choose_recipient (some []) remote = non_empty remote
choose_recipient none remote = non_empty remote

-- the three tests of `_check_rekey_needed`, on the time since the channel was established
unfoldable pub is_rekey_due : ℕ → Channel → ℕ → Bool
is_rekey_due now channel since =
    leb channel.config.rekey_after_messages channel.send_counter
    || (leb channel.config.rekey_after_messages channel.recv_counter
        || leb (since + 1000 * channel.config.rekey_after_seconds) now)

module _ (p : Primitives) where
  unfoldable pub rekey_started :
      ℕ → Channel → Result (RekeyRequest × RekeyManager) → Channel × Result (Unit {0})
  rekey_started now channel (err e) = (channel, err e)
  rekey_started now channel (ok (request, manager)) = (
    record channel {
      handshake_state = rekey_pending manager request;
      last_rekey_at = some now;
      pending_rekey_request = some request;
    },
    ok tt,
  )

  -- the request of `_initiate_rekey`
  unfoldable pub request_rekey : RekeyInputs → Channel → Result (RekeyRequest × RekeyManager)
  request_rekey inputs channel = do
    keys ← require channel.session_keys assertion_error
    manager ← make_manager keys 0 (some channel.suite) true
    create_rekey_request p inputs manager (codes "scheduled") 3600

  -- `_initiate_rekey`, with the request stored by its caller
  unfoldable pub initiate_rekey : RekeyInputs → ℕ → Channel → Channel × Result (Unit {0})
  unfolding rekey_started request_rekey
  initiate_rekey inputs now channel =
      rekey_started now (record channel { state = rekeying }) (request_rekey inputs channel)

  -- `_check_rekey_needed`, on the time of establishment, where none and 0 count as not established
  unfoldable pub check_since : RekeyInputs → ℕ → Channel → Option ℕ → Channel × Result (Unit {0})
  unfolding initiate_rekey is_rekey_due
  check_since inputs now channel none = (channel, ok tt)
  check_since inputs now channel (some zero) = (channel, ok tt)
  check_since inputs now channel (some (suc since)) =
      if is_rekeying channel.state
      then (channel, ok tt)
      else if is_rekey_due now channel (suc since)
      then initiate_rekey inputs now channel
      else (channel, ok tt)

  unfoldable pub check_rekey_needed : RekeyInputs → ℕ → Channel → Channel × Result (Unit {0})
  unfolding check_since
  check_rekey_needed inputs now channel = check_since inputs now channel channel.established_at

  unfoldable pub wrap_message :
      Stamp → Channel → List ℕ → Result Message → Channel × Result Envelope
  wrap_message stamp channel recipient (err e) = (channel, err e)
  wrap_message stamp channel recipient (ok message) = (
    record channel { messages_sent = channel.messages_sent + 1 },
    ok (create_encrypted_message stamp channel.agent_id recipient message none),
  )

  -- the encryption of `send`, on the counter that it raised
  unfoldable pub seal_text : SendInputs → Channel → List ℕ → List ℕ → Result Message
  seal_text inputs channel t recipient = do
    keys ← require channel.session_keys assertion_error
    encrypt_message p inputs.iv inputs.stamp.now keys.encryption_key t channel.agent_id recipient
        channel.send_counter (some keys.replay_key) channel.suite

  unfoldable pub send_checked :
      SendInputs → List ℕ → List ℕ → Channel × Result (Unit {0}) → Channel × Result Envelope
  unfolding wrap_message seal_text
  send_checked inputs t recipient (channel, err e) = (channel, err e)
  send_checked inputs t recipient (channel, ok u) =
      let counted = record channel { send_counter = channel.send_counter + 1 } in
      wrap_message inputs.stamp counted recipient (seal_text inputs counted t recipient)

  unfoldable pub send_to :
      SendInputs → Channel → List ℕ → Option (List ℕ) → Channel × Result Envelope
  unfolding send_checked check_rekey_needed
  send_to inputs channel t none = (channel, err value_error)
  send_to inputs channel t (some recipient) =
      send_checked inputs t recipient (check_rekey_needed inputs.rekey inputs.stamp.now channel)

  -- `send`
  unfoldable pub send : SendInputs → Channel → List ℕ → Option (List ℕ) → Channel × Result Envelope
  unfolding send_to choose_recipient
  send inputs channel t recipient_id =
      if is_established channel.state
      then send_to inputs channel t (choose_recipient recipient_id channel.remote_agent_id)
      else (channel, err runtime_error)
