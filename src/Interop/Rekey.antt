-- ===== src/Interop/Rekey.antt =====
-- reference_impl.py: the change of keys. A step that can fail after it changed its state returns the
-- state beside its result.
use sip_protocol.Prelude.{
  ℕ, zero, suc, ◌+◌, List, ◌∷◌, ◌++◌, Bool, not, Option, none, some, Result, ok, ◌>>=◌, ◌>>◌, guard,
  require, value_error, key_error, type_error, leb, ◌==◌, list_eq, codes,
}
use sip_protocol.Python.Base64.{b64encode, b64decode}
use sip_protocol.Python.Json.{decimal}
use sip_protocol.Python.Utf8
use sip_protocol.Crypto.Suite.{Suite}
use sip_protocol.Crypto.Primitives.{Bytes, Primitives}
use sip_protocol.Crypto.Hkdf.{Keys}
use sip_protocol.Crypto.Sm3.{Sm3}
use sip_protocol.Protocol.Message.{protocol_version}
use sip_protocol.Protocol.Handshake.{is_version}
use sip_protocol.Protocol.Rekey.{RekeyRequest, RekeyResponse}
use sip_protocol.Interop.Hkdf.{hmac_digest, hkdf_for_suite}
use sip_protocol.Interop.Handshake.{
  RefInputs, accept_suite, check_time, choose_nonce, generate_pair, choose_pair, dh_for_suite,
  slice_keys, reference_length,
}

-- `ReferenceRekey`
pub record RefRekey : Type 0 where
  pub keys : Keys
  pub suite : Suite
  pub sequence : ℕ
  pub eph_priv : Option Bytes
  pub nonce : Option Bytes

-- `__init__`
unfoldable pub make_rekey : Keys → List ℕ → Result RefRekey
make_rekey keys suite = do
  s ← accept_suite suite
  ok record { keys = keys; suite = s; sequence = 0; eph_priv = none; nonce = none }

-- the signed texts of a request and of a response
unfoldable pub signed_request : List ℕ → List ℕ → List ℕ → ℕ → List ℕ
signed_request eph_b64 nonce_b64 reason key_lifetime =
    codes "16:" ++ (eph_b64 ++ (58 ∷ (nonce_b64 ++ (58 ∷ (reason ++ (58 ∷ decimal key_lifetime))))))

unfoldable pub signed_response : List ℕ → List ℕ → List ℕ
signed_response eph_b64 nonce_b64 = codes "16:" ++ (eph_b64 ++ (58 ∷ nonce_b64))

-- `seen_sequence > 0 and request["sequence"] <= seen_sequence`
unfoldable pub check_sequence : ℕ → Option ℕ → Result (Unit {0})
check_sequence zero sequence = ok tt
check_sequence (suc n) sequence = do
  q ← require sequence key_error
  guard (not (leb q (suc n))) value_error

module _ (p : Primitives) (sm3 : Sm3) where
  -- `derive_rekey_keys`, after its check of the suite
  unfoldable pub derive_rekey_keys : Bytes → Keys → Bytes → Bytes → Suite → Result Keys
  derive_rekey_keys shared old nonce_req nonce_resp s = do
    let ikm =
        shared
        ++ (old.encryption_key ++ (old.auth_key ++ (old.replay_key ++ (nonce_req ++ nonce_resp))))
    okm ←
        hkdf_for_suite p sm3 ikm (codes "SIPRekey") (codes "SIP-rekey") (reference_length p sm3 s) s
    ok (slice_keys p sm3 okm s)

  -- `create_request`: key pair and nonce are drawn, and the state changes only when all is made
  unfoldable pub create_request :
      RefInputs → RefRekey → List ℕ → ℕ → Result (RekeyRequest × RefRekey)
  create_request inputs state reason key_lifetime = do
    (eph_priv, eph_pub) ← generate_pair p inputs.ephemeral_draws state.suite
    signed ←
        Utf8.encode
          (signed_request (b64encode eph_pub) (b64encode inputs.nonce_draw) reason key_lifetime)
    ok (
      record {
        version = some protocol_version;
        timestamp = some inputs.made_at;
        sequence = some state.sequence;
        ephemeral_pub = some (b64encode eph_pub);
        nonce = some (b64encode inputs.nonce_draw);
        reason = some reason;
        key_lifetime = some key_lifetime;
        signature = some (b64encode (hmac_digest p sm3 state.keys.auth_key signed state.suite));
      },
      record state {
        eph_priv = some eph_priv;
        nonce = some inputs.nonce_draw;
        sequence = state.sequence + 1;
      },
    )

  -- `process_response`; a missing own key or nonce is None where bytes are expected
  unfoldable pub process_response : Bool → ℕ → RefRekey → RekeyResponse → Result Keys
  process_response check_timestamp now state response = do
    guard (is_version response.version) value_error
    check_time check_timestamp now response.timestamp
    sequence ← require response.sequence key_error
    guard (sequence + 1 == state.sequence) value_error
    eph_b64 ← require response.ephemeral_pub key_error
    nonce_b64 ← require response.nonce key_error
    signed ← Utf8.encode (signed_response eph_b64 nonce_b64)
    signature_text ← require response.signature key_error
    signature ← b64decode signature_text
    guard (list_eq signature (hmac_digest p sm3 state.keys.auth_key signed state.suite)) value_error
    peer_pub ← b64decode eph_b64
    eph_priv ← require state.eph_priv type_error
    shared ← dh_for_suite p eph_priv peer_pub state.suite
    nonce_resp ← b64decode nonce_b64
    nonce ← require state.nonce type_error
    derive_rekey_keys shared state.keys nonce nonce_resp state.suite

  -- `handle_rekey_request`
  unfoldable pub reference_rekey_request :
      RefInputs → Keys → RekeyRequest → ℕ → List ℕ → Result (RekeyResponse × Keys)
  reference_rekey_request inputs keys request seen_sequence suite = do
    s ← accept_suite suite
    guard (is_version request.version) value_error
    check_time inputs.check_timestamp inputs.read_at request.timestamp
    check_sequence seen_sequence request.sequence
    eph_text ← require request.ephemeral_pub key_error
    nonce_text ← require request.nonce key_error
    reason ← require request.reason key_error
    key_lifetime ← require request.key_lifetime key_error
    signed ← Utf8.encode (signed_request eph_text nonce_text reason key_lifetime)
    signature_text ← require request.signature key_error
    signature ← b64decode signature_text
    guard (list_eq signature (hmac_digest p sm3 keys.auth_key signed s)) value_error
    (eph_priv, eph_pub) ← choose_pair p inputs.ephemeral_priv inputs.ephemeral_draws s
    let n_resp = choose_nonce inputs.nonce inputs.nonce_draw
    peer ← b64decode eph_text
    shared ← dh_for_suite p eph_priv peer s
    nonce_req ← b64decode nonce_text
    new_keys ← derive_rekey_keys shared keys nonce_req n_resp s
    answer ← Utf8.encode (signed_response (b64encode eph_pub) (b64encode n_resp))
    sequence ← require request.sequence key_error
    ok (
      record {
        version = some protocol_version;
        timestamp = some inputs.made_at;
        sequence = some sequence;
        ephemeral_pub = some (b64encode eph_pub);
        nonce = some (b64encode n_resp);
        signature = some (b64encode (hmac_digest p sm3 keys.auth_key answer s));
      },
      new_keys,
    )
