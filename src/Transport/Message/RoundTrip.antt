-- ===== src/Transport/Message/RoundTrip.antt =====
-- Envelopes through their dictionaries and their text.
use sip_protocol.Prelude.{◌≡◌, refl, ok, list_eq, list_eq_refl}
use sip_protocol.Transport.Message.{
  MessageType, text_message, encrypted_message, control_message, MessagePriority, low, normal, high,
  urgent, Envelope, EnvelopeJson, Stamp, envelope_version, type_text, parse_type, type_field,
  priority_value, parse_priority, priority_field, has_no_other, to_dict, from_dict, to_json,
  from_json, parse_raw_message,
}

parse_type-type_text : (t : MessageType) → parse_type (type_text t) ≡ ok t
unfolding parse_type type_text list_eq
parse_type-type_text text_message = refl
parse_type-type_text encrypted_message = refl
parse_type-type_text control_message = refl

parse_priority-priority_value : (q : MessagePriority) → parse_priority (priority_value q) ≡ ok q
unfolding parse_priority priority_value
parse_priority-priority_value low = refl
parse_priority-priority_value normal = refl
parse_priority-priority_value high = refl
parse_priority-priority_value urgent = refl

from_dict-to_dict :
    (stamp : Stamp) (m : Envelope)
    → m.version ≡ envelope_version
    → from_dict stamp (to_dict m) ≡ ok m
unfolding from_dict to_dict type_field priority_field has_no_other
from_dict-to_dict stamp m h =
    rw
      (
        h,
        list_eq_refl envelope_version,
        parse_type-type_text m.message_type,
        parse_priority-priority_value m.priority,
      )
      refl

from_json-to_json :
    (json : EnvelopeJson) (stamp : Stamp) (m : Envelope)
    → m.version ≡ envelope_version
    → from_json json stamp (to_json json m) ≡ ok m
unfolding from_json to_json
from_json-to_json json stamp m h = rw (json.loads-dumps (to_dict m)) (from_dict-to_dict stamp m h)

-- An envelope of this version is read back from its text as it was, whenever it is read: parsing
-- draws no new id and takes no new time.
pub parse_raw_message-to_json :
    (json : EnvelopeJson) (stamp : Stamp) (m : Envelope)
    → m.version ≡ envelope_version
    → parse_raw_message json stamp (to_json json m) ≡ ok m
unfolding parse_raw_message
parse_raw_message-to_json json stamp m h =
    rw (parse_raw_message, from_json-to_json json stamp m h) refl
