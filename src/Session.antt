-- ===== src/Session.antt =====
-- managers/session.py: `SessionState` and its text. The JSON text is a parameter: two functions on
-- dictionaries of this shape, the first of which writes ASCII, as json.dumps does by default.
pub mod RoundTrip
use sip_protocol.Prelude.{
  ℕ, ◌≡◌, List, [], Option, none, some, Result, ok, err, ◌>>=◌, require, get_default, value_error,
  key_error, list_eq, if◌then◌else◌, codes,
}
use sip_protocol.Python.Base64.{b64encode, b64decode}
use sip_protocol.Python.Utf8.{IsText}
use sip_protocol.Python.Utf8
use sip_protocol.Crypto.Primitives.{Bytes}
use sip_protocol.Protocol.Message.{protocol_version}

abbrev pub default_suite : List ℕ
default_suite = codes "EN"

-- A key of a session is `""` at first and bytes later.
pub data Secret : Type 0 where
  as_text : List ℕ → Secret
  as_bytes : Bytes → Secret

-- `SessionState`
pub record SessionState : Type 0 where
  pub version : List ℕ
  pub agent_id : List ℕ
  pub remote_agent_id : List ℕ
  pub remote_public_key : List ℕ
  pub encryption_key : Secret
  pub auth_key : Secret
  pub replay_key : Secret
  pub message_counter : ℕ
  pub psk_hash : Secret
  pub salt : Secret
  pub local_nonce : List ℕ
  pub remote_nonce : List ℕ
  pub suite : List ℕ
  pub created_at : ℕ
  pub last_activity_at : ℕ

-- `__init__` at two readings of the clock
unfoldable pub new_session : ℕ → ℕ → SessionState
new_session created now = record {
  version = protocol_version;
  agent_id = [];
  remote_agent_id = [];
  remote_public_key = [];
  encryption_key = as_text [];
  auth_key = as_text [];
  replay_key = as_text [];
  message_counter = 0;
  psk_hash = as_text [];
  salt = as_text [];
  local_nonce = [];
  remote_nonce = [];
  suite = default_suite;
  created_at = created;
  last_activity_at = now;
}

-- `state_dict`, each key present or not
pub record SessionDict : Type 0 where
  pub version : Option (List ℕ)
  pub agent_id : Option (List ℕ)
  pub remote_agent_id : Option (List ℕ)
  pub remote_public_key : Option (List ℕ)
  pub encryption_key : Option (List ℕ)
  pub auth_key : Option (List ℕ)
  pub replay_key : Option (List ℕ)
  pub message_counter : Option ℕ
  pub psk_hash : Option (List ℕ)
  pub salt : Option (List ℕ)
  pub local_nonce : Option (List ℕ)
  pub remote_nonce : Option (List ℕ)
  pub created_at : Option ℕ
  pub last_activity_at : Option ℕ
  pub suite : Option (List ℕ)

pub record SessionJson : Type 0 where
  pub dumps : SessionDict → List ℕ
  pub loads : List ℕ → Option SessionDict
  pub loads-dumps : (d : SessionDict) → loads (dumps d) ≡ some d
  pub dumps-IsText : (d : SessionDict) → IsText (dumps d)

-- `base64.b64encode(key).decode() if isinstance(key, bytes) else key`
unfoldable pub secret_text : Secret → List ℕ
secret_text (as_text t) = t
secret_text (as_bytes bs) = b64encode bs

-- The dictionary that `serialize` writes: the suite only where it is not EN.
unfoldable pub session_dict : SessionState → SessionDict
unfolding secret_text
session_dict s = record {
  version = some s.version;
  agent_id = some s.agent_id;
  remote_agent_id = some s.remote_agent_id;
  remote_public_key = some s.remote_public_key;
  encryption_key = some (secret_text s.encryption_key);
  auth_key = some (secret_text s.auth_key);
  replay_key = some (secret_text s.replay_key);
  message_counter = some s.message_counter;
  psk_hash = some (secret_text s.psk_hash);
  salt = some (secret_text s.salt);
  local_nonce = some s.local_nonce;
  remote_nonce = some s.remote_nonce;
  created_at = some s.created_at;
  last_activity_at = some s.last_activity_at;
  suite = if list_eq s.suite default_suite then none else some s.suite;
}

-- `base64.b64decode(state_dict[k])` of a text that must be there
unfoldable pub read_secret : Option (List ℕ) → Result Secret
read_secret field = do t ← require field key_error; bs ← b64decode t; ok (as_bytes bs)

-- what `deserialize` makes of the dictionary
unfoldable pub read_session : SessionDict → Result SessionState
unfolding read_secret
read_session d = do
  version ← require d.version key_error
  agent_id ← require d.agent_id key_error
  remote_agent_id ← require d.remote_agent_id key_error
  remote_public_key ← require d.remote_public_key key_error
  encryption_key ← read_secret d.encryption_key
  auth_key ← read_secret d.auth_key
  replay_key ← read_secret d.replay_key
  message_counter ← require d.message_counter key_error
  psk_hash ← read_secret d.psk_hash
  salt ← read_secret d.salt
  local_nonce ← require d.local_nonce key_error
  remote_nonce ← require d.remote_nonce key_error
  created_at ← require d.created_at key_error
  last_activity_at ← require d.last_activity_at key_error
  ok record {
    version = version;
    agent_id = agent_id;
    remote_agent_id = remote_agent_id;
    remote_public_key = remote_public_key;
    encryption_key = encryption_key;
    auth_key = auth_key;
    replay_key = replay_key;
    message_counter = message_counter;
    psk_hash = psk_hash;
    salt = salt;
    local_nonce = local_nonce;
    remote_nonce = remote_nonce;
    suite = get_default d.suite default_suite;
    created_at = created_at;
    last_activity_at = last_activity_at;
  }

module _ (json : SessionJson) where
  -- `serialize`
  unfoldable pub serialize : SessionState → Result (List ℕ)
  unfolding session_dict
  serialize s = do raw ← Utf8.encode (json.dumps (session_dict s)); ok (b64encode raw)

  -- `deserialize`
  unfoldable pub deserialize : List ℕ → Result SessionState
  unfolding read_session
  deserialize serialized = do
    raw ← b64decode serialized
    t ← Utf8.decode raw
    d ← require (json.loads t) value_error
    read_session d

-- `update_last_activity`
unfoldable pub update_last_activity : ℕ → SessionState → SessionState
update_last_activity now s = record s { last_activity_at = now }
