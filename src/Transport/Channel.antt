-- ===== src/Transport/Channel.antt =====
-- transport/encrypted_channel.py: the state of an `EncryptedChannel`, and the operations that touch
-- nothing else. The clock is read in milliseconds. Callbacks and the counts of bytes are not
-- modelled. An operation that can fail after it changed the channel returns the channel beside its
-- result.
pub mod Handshake
pub mod Send
pub mod Receive
pub mod Rekey
pub mod Steps
pub mod Soundness
pub mod Later
pub mod Invariant
pub mod Replay
pub mod Agreement
pub mod Sent
pub mod Exchange
pub mod Trigger
pub mod Renewal
use sip_protocol.Prelude.{
  ℕ, zero, suc, ◌+◌, List, [], ◌∷◌, Bool, true, false, Option, none, some, Result, ok, err, ◌>>=◌,
  get_default,
}
use sip_protocol.Crypto.Suite.{validate_suite}
use sip_protocol.Crypto.Primitives.{Bytes}
use sip_protocol.Crypto.Hkdf.{Keys}
use sip_protocol.Crypto.Dh.{PrivateKey, PublicKey}
use sip_protocol.Protocol.Handshake.{AgentState, Remote}
use sip_protocol.Protocol.Rekey.{RekeyManager, RekeyRequest}
use sip_protocol.Session.{SessionState, as_bytes, new_session}
use sip_protocol.Transport.Message.{
  Envelope, Stamp, heartbeat, disconnect, no_data, create_control_message,
}

-- `ChannelState`
pub data ChannelState : Type 0 where
  idle handshaking established rekeying closed error : ChannelState

-- `ChannelConfig`, of which the channel reads these three
pub record ChannelConfig : Type 0 where
  pub rekey_after_messages : ℕ
  pub rekey_after_seconds : ℕ
  pub message_ttl_ms : ℕ

-- `_handshake_state`: none, the state of a handshake, or a change of keys under way
pub data HandshakeState : Type 0 where
  no_handshake : HandshakeState
  initiating : AgentState → HandshakeState
  responding : AgentState → Remote → HandshakeState
  rekey_pending : RekeyManager → RekeyRequest → HandshakeState

-- `EncryptedChannel`, with its statistics
pub record Channel : Type 0 where
  pub agent_id : List ℕ
  pub psk : Bytes
  pub config : ChannelConfig
  pub state : ChannelState
  pub remote_agent_id : Option (List ℕ)
  pub suite : List ℕ
  pub identity_private_key : Option PrivateKey
  pub identity_public_key : Option PublicKey
  pub session_keys : Option Keys
  pub session_state : Option SessionState
  pub send_counter : ℕ
  pub recv_counter : ℕ
  pub handshake_state : HandshakeState
  pub messages_sent : ℕ
  pub messages_received : ℕ
  pub established_at : Option ℕ
  pub last_rekey_at : Option ℕ
  pub errors : ℕ
  pub rekey_completed : ℕ
  pub pending_rekey_request : Option RekeyRequest

-- `__init__`
unfoldable pub make_channel :
    List ℕ → Bytes → ChannelConfig → Option PrivateKey → Option PublicKey → List ℕ → Result Channel
make_channel agent_id psk config private public suite = do
  s ← validate_suite suite
  ok record {
    agent_id = agent_id;
    psk = psk;
    config = config;
    state = idle;
    remote_agent_id = none;
    suite = suite;
    identity_private_key = private;
    identity_public_key = public;
    session_keys = none;
    session_state = none;
    send_counter = 0;
    recv_counter = 0;
    handshake_state = no_handshake;
    messages_sent = 0;
    messages_received = 0;
    established_at = none;
    last_rekey_at = none;
    errors = 0;
    rekey_completed = 0;
    pending_rekey_request = none;
  }

-- `is_established`, and the other states that guards test
unfoldable pub is_established : ChannelState → Bool
is_established established = true
is_established other = false

unfoldable pub is_idle : ChannelState → Bool
is_idle idle = true
is_idle other = false

unfoldable pub is_handshaking : ChannelState → Bool
is_handshaking handshaking = true
is_handshaking other = false

unfoldable pub is_rekeying : ChannelState → Bool
is_rekeying rekeying = true
is_rekeying other = false

-- `except Exception`: the state ERROR, and one error more
unfoldable pub fail : Channel → Channel
fail channel = record channel { state = error; errors = channel.errors + 1 }

-- The `SessionState` that a handshake makes.
unfoldable pub session_of : ℕ → Channel → List ℕ → Keys → SessionState
unfolding new_session
session_of now channel remote keys = record (new_session now now) {
  agent_id = channel.agent_id;
  remote_agent_id = remote;
  encryption_key = as_bytes keys.encryption_key;
  auth_key = as_bytes keys.auth_key;
  replay_key = as_bytes keys.replay_key;
  suite = channel.suite;
}

-- `update_session_keys`, with all three keys
unfoldable pub update_session_keys : Channel → Keys → Channel
update_session_keys channel keys = record channel { session_keys = replaced channel.session_keys }
  where
    replaced : Option Keys → Option Keys
    replaced none = none
    replaced (some old) = some keys

-- `close`
unfoldable pub close : Channel → Channel
close channel = record channel {
  state = closed;
  session_keys = none;
  session_state = none;
  handshake_state = no_handshake;
}

-- `create_heartbeat`, `create_disconnect`
unfoldable pub create_heartbeat : Stamp → Channel → Envelope
create_heartbeat stamp channel =
    create_control_message stamp channel.agent_id (get_default channel.remote_agent_id []) heartbeat
      no_data none

unfoldable pub create_disconnect : Stamp → Channel → Envelope
create_disconnect stamp channel =
    create_control_message stamp channel.agent_id (get_default channel.remote_agent_id [])
      disconnect no_data none
