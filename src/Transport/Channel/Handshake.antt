-- ===== src/Transport/Channel/Handshake.antt =====
-- The handshake of a channel. What a payload lacks of a handshake message is a missing key of it.
use sip_protocol.Prelude.{
  ℕ, [], none, some, Result, ok, err, ◌>>◌, guard, runtime_error, assertion_error, key_error,
  version_negotiation, if◌then◌else◌,
}
use sip_protocol.Crypto.Primitives.{Primitives}
use sip_protocol.Crypto.Hkdf.{Keys}
use sip_protocol.Protocol.Handshake.{
  Inputs, Hello, Auth, AgentState, Remote, Session, is_version, initiate_handshake,
  respond_handshake, complete_handshake,
}
use sip_protocol.Transport.Message.{
  Envelope, Stamp, Payload, text_payload, encrypted_payload, control_payload, no_data, hello_data,
  auth_data, error_data, handshake_init, handshake_complete, create_control_message,
}
use sip_protocol.Transport.Channel.{
  Channel, HandshakeState, no_handshake, initiating, responding, rekey_pending, handshaking,
  established, is_idle, is_handshaking, fail, session_of,
}

abbrev no_hello : Hello
no_hello = record {
  version = none;
  timestamp = none;
  identity_pub = none;
  ephemeral_pub = none;
  nonce = none;
  suite = none;
}

abbrev no_auth : Auth
no_auth = record {
  version = none;
  timestamp = none;
  identity_pub = none;
  ephemeral_pub = none;
  nonce = none;
  signature = none;
  suite = none;
}

-- `payload.get("data", payload)`, read as a Hello: the keys of other dicts that it shares
unfoldable pub hello_of : Payload → Hello
hello_of (control_payload action (hello_data hello)) = hello
hello_of (control_payload action (auth_data auth)) = record no_hello {
  version = auth.version;
  timestamp = auth.timestamp;
  identity_pub = auth.identity_pub;
  suite = auth.suite;
}
hello_of (control_payload action (error_data m)) = no_hello
hello_of (control_payload action no_data) = no_hello
hello_of (text_payload t) = no_hello
hello_of (encrypted_payload message) = record no_hello {
  version = message.version;
  timestamp = message.timestamp;
  suite = message.suite;
}

-- the same, read as an Auth
unfoldable pub auth_of : Payload → Auth
auth_of (control_payload action (hello_data hello)) = record no_auth {
  version = hello.version;
  timestamp = hello.timestamp;
  identity_pub = hello.identity_pub;
  suite = hello.suite;
}
auth_of (control_payload action (auth_data auth)) = auth
auth_of (control_payload action (error_data m)) = no_auth
auth_of (control_payload action no_data) = no_auth
auth_of (text_payload t) = no_auth
auth_of (encrypted_payload message) = record no_auth {
  version = message.version;
  timestamp = message.timestamp;
  suite = message.suite;
}

module _ (p : Primitives) where
  unfoldable pub initiated :
      Stamp → Channel → Result (Hello × AgentState) → Channel × Result Envelope
  initiated stamp channel (err e) = (fail channel, err e)
  initiated stamp channel (ok (hello, agent_state)) = (
    record channel {
      handshake_state = initiating agent_state;
      identity_private_key = some agent_state.identity_private_key;
      identity_public_key = some agent_state.identity_public_key;
    },
    ok (create_control_message stamp channel.agent_id [] handshake_init (hello_data hello) none),
  )

  -- `initiate`
  unfoldable pub initiate : Inputs → Stamp → Channel → Channel × Result Envelope
  unfolding initiated
  initiate inputs stamp channel =
      if is_idle channel.state
      then initiated stamp (record channel { state = handshaking })
          (initiate_handshake p inputs channel.psk channel.identity_private_key
            channel.identity_public_key channel.suite)
      else (channel, err runtime_error)

  unfoldable pub responded :
      Stamp
      → Channel
      → Envelope
      → Result (Auth × AgentState × Remote × Keys)
      → Channel × Result Envelope
  responded stamp channel message (err e) = (fail channel, err e)
  responded stamp channel message (ok (auth, agent_state, remote, keys)) = (
    record channel {
      state = established;
      handshake_state = responding agent_state remote;
      identity_private_key = some agent_state.identity_private_key;
      identity_public_key = some agent_state.identity_public_key;
      session_keys = some keys;
      session_state = some (session_of stamp.now channel message.sender_id keys);
      established_at = some stamp.now;
    },
    ok (
        create_control_message stamp channel.agent_id message.sender_id handshake_complete
          (auth_data auth) (some message.id)),
  )

  -- `respond_to_handshake`
  unfoldable pub respond_to_handshake :
      Inputs → Stamp → Channel → Envelope → Channel × Result Envelope
  unfolding responded hello_of
  respond_to_handshake inputs stamp channel message =
      if is_idle channel.state
      then responded stamp
          (record channel { state = handshaking; remote_agent_id = some message.sender_id }) message
          (respond_handshake p inputs (hello_of message.payload) channel.psk
            channel.identity_private_key channel.identity_public_key channel.suite)
      else (channel, err runtime_error)

  unfoldable pub completed :
      ℕ → Channel → Envelope → Result (Keys × Session) → Channel × Result (Unit {0})
  completed now channel message (err e) = (fail channel, err e)
  completed now channel message (ok (keys, session)) = (
    record channel {
      state = established;
      session_keys = some keys;
      session_state = some (session_of now channel message.sender_id keys);
      remote_agent_id = some message.sender_id;
      established_at = some now;
      handshake_state = no_handshake;
    },
    ok tt,
  )

  -- `complete_handshake(handshake_auth, self._handshake_state)`: the state of a change of keys is a
  -- dict without the key that is read after the version.
  unfoldable pub complete_with : ℕ → Auth → HandshakeState → Result (Keys × Session)
  complete_with now auth no_handshake = err assertion_error
  complete_with now auth (initiating agent_state) = complete_handshake p now now auth agent_state
  complete_with now auth (responding agent_state remote) =
      complete_handshake p now now auth agent_state
  complete_with now auth (rekey_pending manager request) = do
    guard (is_version auth.version) version_negotiation
    err key_error

  -- `complete_handshake`
  unfoldable pub complete : ℕ → Channel → Envelope → Channel × Result (Unit {0})
  unfolding completed complete_with auth_of
  complete now channel message =
      if is_handshaking channel.state
      then completed now channel message
          (complete_with now (auth_of message.payload) channel.handshake_state)
      else (channel, err runtime_error)
