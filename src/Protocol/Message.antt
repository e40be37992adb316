-- ===== src/Protocol/Message.antt =====
-- protocol/message.py. A message is a dict, so each key that the code reads may be missing. The
-- random IV and the clock are arguments.
pub mod RoundTrip
pub mod ReplayTag
use sip_protocol.Prelude.{
  ℕ, List, [], ◌∷◌, ◌++◌, Bool, true, false, Option, none, some, Result, ok, err, ◌>>=◌, ◌>>◌,
  guard, require, get_default, key_error, value_error, type_error, list_eq, if◌then◌else◌, codes,
}
use sip_protocol.Python.Base64.{b64encode, b64decode, is_ascii}
use sip_protocol.Python.Hex.{hex}
use sip_protocol.Python.Json.{decimal}
use sip_protocol.Python.Utf8
use sip_protocol.Crypto.Suite.{Suite, en, suite_text, validate_suite}
use sip_protocol.Crypto.Primitives.{Bytes, Primitives}
use sip_protocol.Crypto.Aead.{aead_encrypt, aead_decrypt}

pub record Message : Type 0 where
  pub version : Option (List ℕ)
  pub message_type : Option (List ℕ)
  pub timestamp : Option ℕ
  pub sender_id : Option (List ℕ)
  pub recipient_id : Option (List ℕ)
  pub message_counter : Option ℕ
  pub iv : Option (List ℕ)
  pub payload : Option (List ℕ)
  pub auth_tag : Option (List ℕ)
  pub suite : Option (List ℕ)
  pub replay_tag : Option (List ℕ)

abbrev pub protocol_version : List ℕ
protocol_version = codes "SIP-1.0"

-- `except Exception as error: raise ValueError(…)`
unfoldable pub as_value_error : {A : Type 0} → Result A → Result A
as_value_error (ok a) = ok a
as_value_error (err e) = err value_error

-- `if suite != SUITE_EN: message["suite"] = suite`
unfoldable pub suite_field : List ℕ → Option (List ℕ)
unfolding suite_text
suite_field suite = if list_eq suite (suite_text en) then none else some suite

-- `hmac.compare_digest` of a digest in hexadecimal with a text: a text that is not ASCII raises
-- TypeError.
unfoldable pub compare_text : List ℕ → List ℕ → Result Bool
compare_text expected given = if is_ascii given then ok (list_eq expected given) else err type_error

module _ (p : Primitives) where
  -- `generate_replay_tag`
  unfoldable pub generate_replay_tag : Bytes → List ℕ → ℕ → List ℕ → Result (List ℕ)
  generate_replay_tag replay_key sender_id message_counter suite = do
    s ← validate_suite suite
    data_bytes ← Utf8.encode (sender_id ++ (58 ∷ decimal message_counter))
    ok (hex (p.hmac_digest s replay_key data_bytes))

  -- `verify_replay_tag`
  unfoldable pub verify_replay_tag : Bytes → List ℕ → ℕ → List ℕ → List ℕ → Result Bool
  unfolding compare_text
  verify_replay_tag replay_key sender_id message_counter tag suite = do
    expected ← generate_replay_tag replay_key sender_id message_counter suite
    compare_text expected tag

  -- the tag where a replay key is given
  unfoldable pub optional_tag : Option Bytes → List ℕ → ℕ → List ℕ → Result (Option (List ℕ))
  optional_tag none sender_id message_counter suite = ok none
  optional_tag (some replay_key) sender_id message_counter suite = do
    tag ← generate_replay_tag replay_key sender_id message_counter suite
    ok (some tag)

  -- `encrypt_message`, with the IV that it draws and the time in milliseconds
  unfoldable pub encrypt_message :
      Bytes → ℕ → Bytes → List ℕ → List ℕ → List ℕ → ℕ → Option Bytes → List ℕ → Result Message
  unfolding optional_tag suite_field
  encrypt_message iv now key plaintext sender_id recipient_id message_counter replay_key suite = do
    s ← validate_suite suite
    plain ← Utf8.encode plaintext
    (ct, auth_tag) ← aead_encrypt p key plain iv none s
    tag ← optional_tag replay_key sender_id message_counter suite
    ok record {
      version = some protocol_version;
      message_type = some (codes "message");
      timestamp = some now;
      sender_id = some sender_id;
      recipient_id = some recipient_id;
      message_counter = some message_counter;
      iv = some (b64encode iv);
      payload = some (b64encode ct);
      auth_tag = some (b64encode auth_tag);
      suite = suite_field suite;
      replay_tag = tag;
    }

  -- `decrypt_message`
  unfoldable pub decrypt_message : Bytes → Message → Result (List ℕ)
  unfolding as_value_error suite_text
  decrypt_message key message = do
    s ← validate_suite (get_default message.suite (suite_text en))
    iv_text ← require message.iv key_error
    iv ← b64decode iv_text
    payload_text ← require message.payload key_error
    ct ← b64decode payload_text
    tag_text ← require message.auth_tag key_error
    auth_tag ← b64decode tag_text
    as_value_error (do plain ← aead_decrypt p key ct iv auth_tag none s; Utf8.decode plain)
