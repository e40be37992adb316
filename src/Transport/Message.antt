-- ===== src/Transport/Message.antt =====
-- transport/message.py: the envelope of every message between agents. A payload is the dict that the
-- message's maker put there; the JSON text of an envelope is a parameter, a pair of inverse functions
-- on the dictionaries that `to_dict` makes. Metadata is a dict of texts.
pub mod RoundTrip
use sip_protocol.Prelude.{
  ℕ, zero, suc, ◌+◌, ◌≡◌, List, [], ◌∷◌, Bool, true, false, Option, none, some, Error, Result, ok,
  err, ◌>>=◌, ◌>>◌, guard, require, get_default, value_error, message_schema, type_error,
  is_value_error, ltb, leb, list_eq, if◌then◌else◌, codes,
}
use sip_protocol.Protocol.Message.{Message}
use sip_protocol.Protocol.Handshake.{Hello, Auth}

abbrev pub envelope_version : List ℕ
envelope_version = codes "SIP-TRANSPORT-1.0"

pub data MessageType : Type 0 where
  text_message encrypted_message control_message : MessageType

pub data MessagePriority : Type 0 where
  low normal high urgent : MessagePriority

pub data ControlAction : Type 0 where
  hello heartbeat heartbeat_ack disconnect ack error_action : ControlAction
  handshake_init handshake_complete rekey_request rekey_response : ControlAction

-- the value of an action
unfoldable pub action_text : ControlAction → List ℕ
action_text hello = codes "hello"
action_text heartbeat = codes "heartbeat"
action_text heartbeat_ack = codes "heartbeat_ack"
action_text disconnect = codes "disconnect"
action_text ack = codes "ack"
action_text error_action = codes "error"
action_text handshake_init = codes "handshake_init"
action_text handshake_complete = codes "handshake_complete"
action_text rekey_request = codes "rekey_request"
action_text rekey_response = codes "rekey_response"

-- the "data" of a control message: absent, a handshake message, or a dict with its "message"
pub data ControlData : Type 0 where
  no_data : ControlData
  hello_data : Hello → ControlData
  auth_data : Auth → ControlData
  error_data : Option (List ℕ) → ControlData

pub data Payload : Type 0 where
  text_payload : Option (List ℕ) → Payload
  encrypted_payload : Message → Payload
  control_payload : Option (List ℕ) → ControlData → Payload

-- `AgentMessage`
pub record Envelope : Type 0 where
  pub id : List ℕ
  pub version : List ℕ
  pub message_type : MessageType
  pub sender_id : List ℕ
  pub recipient_id : List ℕ
  pub timestamp : ℕ
  pub payload : Payload
  pub priority : MessagePriority
  pub metadata : List (List ℕ × List ℕ)
  pub correlation_id : Option (List ℕ)
  pub hop_count : ℕ
  pub max_hops : ℕ

-- the dictionary of an envelope, each key present or not, and the keys that are no field
pub record EnvelopeDict : Type 0 where
  pub id : Option (List ℕ)
  pub version : Option (List ℕ)
  pub message_type : Option (List ℕ)
  pub sender_id : Option (List ℕ)
  pub recipient_id : Option (List ℕ)
  pub timestamp : Option ℕ
  pub payload : Option Payload
  pub priority : Option ℕ
  pub metadata : Option (List (List ℕ × List ℕ))
  pub correlation_id : Option (List ℕ)
  pub hop_count : Option ℕ
  pub max_hops : Option ℕ
  pub other_keys : List (List ℕ)

-- `json.dumps` and `json.loads` on such dictionaries
pub record EnvelopeJson : Type 0 where
  pub dumps : EnvelopeDict → List ℕ
  pub loads : List ℕ → Option EnvelopeDict
  pub loads-dumps : (d : EnvelopeDict) → loads (dumps d) ≡ some d

-- what making a message draws and reads: its id and the time in milliseconds
pub record Stamp : Type 0 where
  pub new_id : List ℕ
  pub now : ℕ

-- the values of the two enumerations, and the members that they name
unfoldable pub type_text : MessageType → List ℕ
type_text text_message = codes "text"
type_text encrypted_message = codes "encrypted"
type_text control_message = codes "control"

unfoldable pub parse_type : List ℕ → Result MessageType
unfolding type_text
parse_type t =
    if list_eq t (type_text text_message)
    then ok text_message
    else if list_eq t (type_text encrypted_message)
    then ok encrypted_message
    else if list_eq t (type_text control_message)
    then ok control_message
    else err value_error

unfoldable pub priority_value : MessagePriority → ℕ
priority_value low = 0
priority_value normal = 1
priority_value high = 2
priority_value urgent = 3

unfoldable pub parse_priority : ℕ → Result MessagePriority
parse_priority zero = ok low
parse_priority (suc zero) = ok normal
parse_priority (suc (suc zero)) = ok high
parse_priority (suc (suc (suc zero))) = ok urgent
parse_priority (suc (suc (suc (suc n)))) = err value_error

-- `to_dict`: an absent correlation id is left out
unfoldable pub to_dict : Envelope → EnvelopeDict
to_dict m = record {
  id = some m.id;
  version = some m.version;
  message_type = some (type_text m.message_type);
  sender_id = some m.sender_id;
  recipient_id = some m.recipient_id;
  timestamp = some m.timestamp;
  payload = some m.payload;
  priority = some (priority_value m.priority);
  metadata = some m.metadata;
  correlation_id = m.correlation_id;
  hop_count = some m.hop_count;
  max_hops = some m.max_hops;
  other_keys = [];
}

-- a field of an enumeration: a missing one takes the default of the class
unfoldable pub type_field : Option (List ℕ) → Result MessageType
type_field none = ok text_message
type_field (some t) = parse_type t

unfoldable pub priority_field : Option ℕ → Result MessagePriority
priority_field none = ok normal
priority_field (some n) = parse_priority n

-- `cls(**data)` refuses a key that is no field
unfoldable pub has_no_other : List (List ℕ) → Bool
has_no_other [] = true
has_no_other (k ∷ ks) = false

-- `from_dict`
unfoldable pub from_dict : Stamp → EnvelopeDict → Result Envelope
unfolding type_field priority_field has_no_other
from_dict stamp d = do
  guard (list_eq (get_default d.version envelope_version) envelope_version) message_schema
  message_type ← type_field d.message_type
  priority ← priority_field d.priority
  guard (has_no_other d.other_keys) type_error
  ok record {
    id = get_default d.id stamp.new_id;
    version = get_default d.version envelope_version;
    message_type = message_type;
    sender_id = get_default d.sender_id [];
    recipient_id = get_default d.recipient_id [];
    timestamp = get_default d.timestamp stamp.now;
    payload = get_default d.payload (text_payload none);
    priority = priority;
    metadata = get_default d.metadata [];
    correlation_id = d.correlation_id;
    hop_count = get_default d.hop_count 0;
    max_hops = get_default d.max_hops 10;
  }

module _ (json : EnvelopeJson) where
  -- `to_json`
  unfoldable pub to_json : Envelope → List ℕ
  to_json m = json.dumps (to_dict m)

  -- `from_json`; what is no JSON raises JSONDecodeError, a ValueError
  unfoldable pub from_json : Stamp → List ℕ → Result Envelope
  unfolding from_dict
  from_json stamp raw = do d ← require (json.loads raw) value_error; from_dict stamp d

  -- `parse_raw_message`
  unfoldable pub parse_raw_message : Stamp → List ℕ → Result Envelope
  unfolding from_json
  parse_raw_message stamp raw = elim (from_json stamp raw) [
    | ok m ↦ ok m
    | err e ↦ if is_value_error e then err value_error else err e
  ]

-- `is_expired`
unfoldable pub is_expired : ℕ → ℕ → Envelope → Bool
is_expired now ttl_ms m = ltb (m.timestamp + ttl_ms) now

-- `is_max_hops_reached`
unfoldable pub is_max_hops_reached : Envelope → Bool
is_max_hops_reached m = leb m.max_hops m.hop_count

-- `increment_hop`
unfoldable pub increment_hop : Envelope → Envelope
increment_hop m = record m { hop_count = m.hop_count + 1 }

-- a message of the class, with its defaults
unfoldable pub make_message :
    Stamp
    → MessageType
    → List ℕ
    → List ℕ
    → Payload
    → MessagePriority
    → List (List ℕ × List ℕ)
    → Option (List ℕ)
    → Envelope
make_message stamp message_type sender_id recipient_id payload priority metadata correlation_id =
    record {
      id = stamp.new_id;
      version = envelope_version;
      message_type = message_type;
      sender_id = sender_id;
      recipient_id = recipient_id;
      timestamp = stamp.now;
      payload = payload;
      priority = priority;
      metadata = metadata;
      correlation_id = correlation_id;
      hop_count = 0;
      max_hops = 10;
    }

-- `create_reply`
unfoldable pub create_reply : Stamp → Envelope → Payload → Option MessageType → Envelope
unfolding make_message
create_reply stamp m payload message_type =
    record (make_message stamp (get_default message_type m.message_type) m.recipient_id m.sender_id
      payload m.priority [] (some m.id)) { version = m.version }

-- `create_text_message`
unfoldable pub create_text_message :
    Stamp → List ℕ → List ℕ → List ℕ → Option (List (List ℕ × List ℕ)) → MessagePriority → Envelope
unfolding make_message
create_text_message stamp sender_id recipient_id t metadata priority =
    make_message stamp text_message sender_id recipient_id (text_payload (some t)) priority
      (get_default metadata []) none

-- `create_control_message`
unfoldable pub create_control_message :
    Stamp → List ℕ → List ℕ → ControlAction → ControlData → Option (List ℕ) → Envelope
unfolding make_message action_text
create_control_message stamp sender_id recipient_id action data_part correlation_id =
    make_message stamp control_message sender_id recipient_id
      (control_payload (some (action_text action)) data_part) high [] correlation_id

-- `create_encrypted_message`
unfoldable pub create_encrypted_message :
    Stamp → List ℕ → List ℕ → Message → Option (List (List ℕ × List ℕ)) → Envelope
unfolding make_message
create_encrypted_message stamp sender_id recipient_id message metadata =
    make_message stamp encrypted_message sender_id recipient_id (encrypted_payload message) normal
      (get_default metadata []) none
