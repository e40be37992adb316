-- ===== src/Protocol/Rekey.antt =====
-- protocol/rekey.py: `RekeyManager`. The session state is its three keys and the count of changes;
-- wiping a bytearray in place is not modelled. A step that can fail after it changed the manager
-- returns the manager beside its result.
pub mod Sequence
pub mod Steps
pub mod Agreement
use sip_protocol.Prelude.{
  ℕ, zero, suc, ◌+◌, List, [], ◌∷◌, ◌++◌, Bool, true, false, not, ◌&&◌, Option, none, some, Result,
  ok, err, ◌>>=◌, ◌>>◌, guard, require, get_default, key_error, value_error, attribute_error, ltb,
  leb, ◌==◌, list_eq, if◌then◌else◌, codes,
}
use sip_protocol.Python.Base64.{b64encode, b64decode}
use sip_protocol.Python.Json.{decimal}
use sip_protocol.Python.Utf8
use sip_protocol.Crypto.Suite.{Suite, en, suite_text, validate_suite}
use sip_protocol.Crypto.Primitives.{Bytes, Primitives}
use sip_protocol.Crypto.Hkdf.{Keys, hkdf, split_keys, okm_length}
use sip_protocol.Crypto.Dh.{
  PrivateKey, PublicKey, generate_keypair, dh_exchange, serialize_public_key, parse_public_key,
}
use sip_protocol.Protocol.Message.{protocol_version}
use sip_protocol.Protocol.Handshake.{is_version, is_fresh}

-- `RekeyManager` with its session state
pub record RekeyManager : Type 0 where
  pub keys : Keys
  pub rekey_count : ℕ
  pub rekey_sequence : ℕ
  pub is_initiator : Bool
  pub suite : Suite
  pub temp_new_ephemeral_private_key : Option PrivateKey
  pub temp_new_ephemeral_nonce : Option Bytes
  pub temp_new_keys : Option Keys

-- `Rekey_Request`, with the parts of its `request`
pub record RekeyRequest : Type 0 where
  pub version : Option (List ℕ)
  pub timestamp : Option ℕ
  pub sequence : Option ℕ
  pub ephemeral_pub : Option (List ℕ)
  pub nonce : Option (List ℕ)
  pub reason : Option (List ℕ)
  pub key_lifetime : Option ℕ
  pub signature : Option (List ℕ)

-- `Rekey_Response`, with the parts of its `response`
pub record RekeyResponse : Type 0 where
  pub version : Option (List ℕ)
  pub timestamp : Option ℕ
  pub sequence : Option ℕ
  pub ephemeral_pub : Option (List ℕ)
  pub nonce : Option (List ℕ)
  pub signature : Option (List ℕ)

-- what a step draws, and the times at which it reads a message and makes one
pub record RekeyInputs : Type 0 where
  pub draws : List Bytes
  pub nonce : Bytes
  pub read_at : ℕ
  pub made_at : ℕ

-- `__init__`
unfoldable pub make_manager : Keys → ℕ → Option (List ℕ) → Bool → Result RekeyManager
unfolding suite_text
make_manager keys rekey_count suite is_initiator = do
  s ← validate_suite (get_default suite (suite_text en))
  ok record {
    keys = keys;
    rekey_count = rekey_count;
    rekey_sequence = 0;
    is_initiator = is_initiator;
    suite = s;
    temp_new_ephemeral_private_key = none;
    temp_new_ephemeral_nonce = none;
    temp_new_keys = none;
  }

-- `if not b: return False`
unfoldable pub check : Bool → Result Bool → Result Bool
check b rest = if b then rest else ok false

-- `except (ValueError, KeyError, AttributeError): return False`
unfoldable pub caught : Result Bool → Result Bool
caught (ok b) = ok b
caught (err value_error) = ok false
caught (err key_error) = ok false
caught (err attribute_error) = ok false
caught (err e) = err e

-- the text that a request signs; it opens with the length of a nonce
unfoldable pub request_text : List ℕ → List ℕ → List ℕ → ℕ → List ℕ
request_text ephemeral_pub nonce reason key_lifetime =
    codes "16:"
    ++ (ephemeral_pub ++ (58 ∷ (nonce ++ (58 ∷ (reason ++ (58 ∷ decimal key_lifetime))))))

-- the text that a response signs
unfoldable pub response_text : List ℕ → List ℕ → List ℕ
response_text ephemeral_pub nonce = codes "16:" ++ (ephemeral_pub ++ (58 ∷ nonce))

-- `self.rekey_sequence > 0 and request["sequence"] <= self.rekey_sequence`, negated
unfoldable pub is_next : ℕ → Option ℕ → Result Bool
is_next zero sequence = ok true
is_next (suc n) sequence = do q ← require sequence key_error; ok (not (leb q (suc n)))

module _ (p : Primitives) where
  -- `hmac.new(self.session_state["auth_key"], text.encode(), digestmod(self.suite)).digest()`
  unfoldable pub sign : RekeyManager → List ℕ → Result Bytes
  sign manager t = do
    signed ← Utf8.encode t
    ok (p.hmac_digest manager.suite manager.keys.auth_key signed)

  -- `create_rekey_request`
  unfoldable pub create_rekey_request :
      RekeyInputs → RekeyManager → List ℕ → ℕ → Result (RekeyRequest × RekeyManager)
  create_rekey_request inputs manager reason key_lifetime = do
    (private, public) ← generate_keypair p inputs.draws manager.suite
    raw ← serialize_public_key public
    signature ←
        sign manager (request_text (b64encode raw) (b64encode inputs.nonce) reason key_lifetime)
    ok (
      record {
        version = some protocol_version;
        timestamp = some inputs.made_at;
        sequence = some manager.rekey_sequence;
        ephemeral_pub = some (b64encode raw);
        nonce = some (b64encode inputs.nonce);
        reason = some reason;
        key_lifetime = some key_lifetime;
        signature = some (b64encode signature);
      },
      record manager {
        temp_new_ephemeral_private_key = some private;
        temp_new_ephemeral_nonce = some inputs.nonce;
        rekey_sequence = manager.rekey_sequence + 1;
      },
    )

  -- `validate_rekey_request`
  unfoldable pub validate_rekey_request : ℕ → RekeyManager → RekeyRequest → Result Bool
  unfolding check caught
  validate_rekey_request now manager request = caught (
      check (is_version request.version) (do
        sent ← require request.timestamp key_error
        check (is_fresh now sent) (do
          signature_text ← require request.signature key_error
          signature ← b64decode signature_text
          ephemeral_pub ← require request.ephemeral_pub key_error
          nonce ← require request.nonce key_error
          reason ← require request.reason key_error
          key_lifetime ← require request.key_lifetime key_error
          expected ← sign manager (request_text ephemeral_pub nonce reason key_lifetime)
          check (list_eq signature expected) (is_next manager.rekey_sequence request.sequence))))

  -- `_derive_new_keys`
  unfoldable pub derive_new_keys : RekeyManager → Bytes → Bytes → Bytes → Keys
  derive_new_keys manager shared_secret initiator_nonce responder_nonce =
      let combined =
        shared_secret
        ++ (manager.keys.encryption_key
            ++ (manager.keys.auth_key
                ++ (manager.keys.replay_key ++ (initiator_nonce ++ responder_nonce)))) in
      split_keys
        (hkdf p combined (codes "SIPRekey") (codes "SIP-rekey") (okm_length manager.suite)
          manager.suite)
        manager.suite

  -- `process_rekey_request` after the new sequence number: the answer, the key that it made and the
  -- new session keys
  unfoldable pub answer_request :
      RekeyInputs → RekeyManager → RekeyRequest → Result (RekeyResponse × PrivateKey × Keys)
  answer_request inputs manager request = do
    (private, public) ← generate_keypair p inputs.draws manager.suite
    raw ← serialize_public_key public
    peer_text ← require request.ephemeral_pub key_error
    peer_raw ← b64decode peer_text
    peer ← parse_public_key peer_raw manager.suite
    shared_secret ← dh_exchange p private peer
    nonce_text ← require request.nonce key_error
    initiator_nonce ← b64decode nonce_text
    let new_keys = derive_new_keys manager shared_secret initiator_nonce inputs.nonce
    signature ← sign manager (response_text (b64encode raw) (b64encode inputs.nonce))
    ok (
      record {
        version = some protocol_version;
        timestamp = some inputs.made_at;
        sequence = request.sequence;
        ephemeral_pub = some (b64encode raw);
        nonce = some (b64encode inputs.nonce);
        signature = some (b64encode signature);
      },
      private,
      new_keys,
    )

  unfoldable pub save_answer :
      RekeyInputs
      → RekeyManager
      → Result (RekeyResponse × PrivateKey × Keys)
      → RekeyManager × Result RekeyResponse
  save_answer inputs manager (err e) = (manager, err e)
  save_answer inputs manager (ok (response, private, new_keys)) = (
    record manager {
      temp_new_keys = some new_keys;
      temp_new_ephemeral_private_key = some private;
      temp_new_ephemeral_nonce = some inputs.nonce;
    },
    ok response,
  )

  -- the rest of `process_rekey_request`, on what the checks returned
  unfoldable pub continue_request :
      RekeyInputs → RekeyManager → RekeyRequest → Result ℕ → RekeyManager × Result RekeyResponse
  unfolding save_answer
  continue_request inputs manager request (err e) = (manager, err e)
  continue_request inputs manager request (ok sequence) =
      let current = record manager { rekey_sequence = sequence } in
      save_answer inputs current (answer_request inputs current request)

  unfoldable pub checked_sequence : ℕ → RekeyManager → RekeyRequest → Result ℕ
  checked_sequence now manager request = do
    valid ← validate_rekey_request now manager request
    guard valid value_error
    require request.sequence key_error

  -- `process_rekey_request`
  unfoldable pub process_rekey_request :
      RekeyInputs → RekeyManager → RekeyRequest → RekeyManager × Result RekeyResponse
  unfolding continue_request
  process_rekey_request inputs manager request =
      continue_request inputs manager request (checked_sequence inputs.read_at manager request)

  -- `validate_rekey_response`; `self.rekey_sequence - 1` is -1, no sequence number, at 0
  unfoldable pub validate_rekey_response : ℕ → RekeyManager → RekeyResponse → Result Bool
  unfolding check caught
  validate_rekey_response now manager response = caught (
      check (is_version response.version) (do
        sent ← require response.timestamp key_error
        check (is_fresh now sent) (do
          signature_text ← require response.signature key_error
          signature ← b64decode signature_text
          ephemeral_pub ← require response.ephemeral_pub key_error
          nonce ← require response.nonce key_error
          expected ← sign manager (response_text ephemeral_pub nonce)
          check (list_eq signature expected) (do
            sequence ← require response.sequence key_error
            ok (sequence + 1 == manager.rekey_sequence)))))

  -- `process_rekey_response`: the manager changes only when the response is used
  unfoldable pub process_rekey_response :
      ℕ → RekeyManager → RekeyResponse → Result (Keys × RekeyManager)
  process_rekey_response now manager response = do
    valid ← validate_rekey_response now manager response
    guard valid value_error
    peer_text ← require response.ephemeral_pub key_error
    peer_raw ← b64decode peer_text
    peer ← parse_public_key peer_raw manager.suite
    private ← require manager.temp_new_ephemeral_private_key attribute_error
    shared_secret ← dh_exchange p private peer
    initiator_nonce ← require manager.temp_new_ephemeral_nonce attribute_error
    nonce_text ← require response.nonce key_error
    responder_nonce ← b64decode nonce_text
    ok (
      derive_new_keys manager shared_secret initiator_nonce responder_nonce,
      record manager { temp_new_ephemeral_private_key = none; temp_new_ephemeral_nonce = none },
    )

-- `apply_new_keys`
unfoldable pub apply_new_keys : RekeyManager → Keys → RekeyManager
apply_new_keys manager new_keys = record manager {
  keys = new_keys;
  rekey_count = manager.rekey_count + 1;
}
