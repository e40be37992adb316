-- ===== src/Protocol/Handshake.antt =====
-- protocol/handshake.py: the three steps of the handshake. What is drawn and the clock are
-- arguments; `negotiate_suite` stands in Crypto/Suite.
pub mod Steps
pub mod Accepted
pub mod Agreement
use sip_protocol.Prelude.{
  ℕ, ◌+◌, List, [], ◌∷◌, ◌++◌, Bool, true, false, ◌&&◌, Option, none, some, Result, ok, err, ◌>>=◌,
  ◌>>◌, guard, require, get_default, key_error, value_error, version_negotiation, leb, list_eq,
  codes,
}
use sip_protocol.Python.Base64.{b64encode, b64decode}
use sip_protocol.Python.Hex.{hex, fromhex}
use sip_protocol.Python.Json.{text, number, dumps}
use sip_protocol.Crypto.Suite.{Suite, en, suite_text, validate_suite, negotiate_suite}
use sip_protocol.Crypto.Primitives.{Bytes, Primitives}
use sip_protocol.Crypto.Hkdf.{Keys, derive_keys_triple_dh}
use sip_protocol.Crypto.Dh.{
  PrivateKey, PublicKey, generate_keypair, dh_exchange, serialize_public_key, parse_public_key,
}
use sip_protocol.Protocol.Message.{protocol_version, suite_field}

-- What a step draws and reads from the system: the draws of the two key pairs, the nonce, and the
-- time, in milliseconds, at which the message is read and at which the answer is made.
pub record Inputs : Type 0 where
  pub identity_draws : List Bytes
  pub ephemeral_draws : List Bytes
  pub nonce : Bytes
  pub read_at : ℕ
  pub made_at : ℕ

-- `Handshake_Hello`
pub record Hello : Type 0 where
  pub version : Option (List ℕ)
  pub timestamp : Option ℕ
  pub identity_pub : Option (List ℕ)
  pub ephemeral_pub : Option (List ℕ)
  pub nonce : Option (List ℕ)
  pub suite : Option (List ℕ)

-- `Handshake_Auth`, with the two keys of its `auth_data`
pub record Auth : Type 0 where
  pub version : Option (List ℕ)
  pub timestamp : Option ℕ
  pub identity_pub : Option (List ℕ)
  pub ephemeral_pub : Option (List ℕ)
  pub nonce : Option (List ℕ)
  pub signature : Option (List ℕ)
  pub suite : Option (List ℕ)

-- `agent_state`
pub record AgentState : Type 0 where
  pub identity_private_key : PrivateKey
  pub identity_public_key : PublicKey
  pub ephemeral_private_key : PrivateKey
  pub ephemeral_public_key : PublicKey
  pub psk : Bytes
  pub nonce : Bytes
  pub suite : List ℕ

-- what the responder's state has besides
pub record Remote : Type 0 where
  pub identity_pub : PublicKey
  pub ephemeral_pub : PublicKey
  pub nonce : Bytes

-- `session_state` of `complete_handshake`, with the signature and time of `Handshake_Complete`
pub record Session : Type 0 where
  pub keys : Keys
  pub suite : List ℕ
  pub complete_timestamp : ℕ
  pub complete_signature : List ℕ

-- `d.get("version") == PROTOCOL_VERSION`
unfoldable pub is_version : Option (List ℕ) → Bool
is_version none = false
is_version (some v) = list_eq v protocol_version

-- not `abs(now - t) > 5 * 60 * 1000`
unfoldable pub is_fresh : ℕ → ℕ → Bool
is_fresh now t = leb now (t + 300000) && leb t (now + 300000)

-- the checks that open `respond_handshake` and `complete_handshake`
unfoldable pub open_message :
    ℕ → Option (List ℕ) → Option (List ℕ) → Option ℕ → List ℕ → Result Suite
unfolding is_version is_fresh suite_text
open_message now version suite timestamp local = do
  guard (is_version version) version_negotiation
  s ← negotiate_suite (get_default suite (suite_text en)) local
  sent ← require timestamp key_error
  guard (is_fresh now sent) value_error
  ok s

-- `parse_public_key(bytes.fromhex(d[k]), suite)`
unfoldable pub read_key : Option (List ℕ) → Suite → Result PublicKey
read_key field s = do t ← require field key_error; raw ← fromhex t; parse_public_key raw s

-- `bytes.fromhex(d["nonce"])`
unfoldable pub read_nonce : Option (List ℕ) → Result Bytes
read_nonce field = do t ← require field key_error; fromhex t

-- `json.dumps(auth_data).encode()`
unfoldable pub auth_bytes : List ℕ → List ℕ → ℕ → Bytes
auth_bytes ephemeral_pub nonce timestamp = dumps (
    (codes "ephemeral_pub", text ephemeral_pub)
    ∷ (codes "nonce", text nonce)
    ∷ (codes "timestamp", number timestamp)
    ∷ [])

unfoldable pub complete_bytes : Bytes
complete_bytes = dumps ((codes "status", text (codes "verified")) ∷ [])

module _ (p : Primitives) where
  -- the identity keys that were given, or new ones where one of the two is missing
  unfoldable pub identity_pair :
      List Bytes → Option PrivateKey → Option PublicKey → Suite → Result (PrivateKey × PublicKey)
  identity_pair draws (some private) (some public) s = ok (private, public)
  identity_pair draws (some private) none s = generate_keypair p draws s
  identity_pair draws none public s = generate_keypair p draws s

  -- the three exchanges, in the order in which both sides make them
  unfoldable pub exchange_three :
      PrivateKey → PrivateKey → PublicKey → PublicKey → Result (Bytes × Bytes × Bytes)
  exchange_three identity ephemeral remote_identity remote_ephemeral = do
    shared_1 ← dh_exchange p identity remote_ephemeral
    shared_2 ← dh_exchange p ephemeral remote_identity
    shared_3 ← dh_exchange p ephemeral remote_ephemeral
    ok (shared_1, shared_2, shared_3)

  -- `initiate_handshake`
  unfoldable pub initiate_handshake :
      Inputs → Bytes → Option PrivateKey → Option PublicKey → List ℕ → Result (Hello × AgentState)
  initiate_handshake inputs psk private public suite = do
    s ← validate_suite suite
    (identity_private, identity_public) ← identity_pair inputs.identity_draws private public s
    (ephemeral_private, ephemeral_public) ← generate_keypair p inputs.ephemeral_draws s
    identity_raw ← serialize_public_key identity_public
    ephemeral_raw ← serialize_public_key ephemeral_public
    ok (
      record {
        version = some protocol_version;
        timestamp = some inputs.made_at;
        identity_pub = some (hex identity_raw);
        ephemeral_pub = some (hex ephemeral_raw);
        nonce = some (hex inputs.nonce);
        suite = suite_field suite;
      },
      record {
        identity_private_key = identity_private;
        identity_public_key = identity_public;
        ephemeral_private_key = ephemeral_private;
        ephemeral_public_key = ephemeral_public;
        psk = psk;
        nonce = inputs.nonce;
        suite = suite;
      },
    )

  -- `respond_handshake`
  unfoldable pub respond_handshake :
      Inputs
      → Hello
      → Bytes
      → Option PrivateKey
      → Option PublicKey
      → List ℕ
      → Result (Auth × AgentState × Remote × Keys)
  respond_handshake inputs hello psk private public local = do
    s ← open_message inputs.read_at hello.version hello.suite hello.timestamp local
    remote_identity ← read_key hello.identity_pub s
    remote_ephemeral ← read_key hello.ephemeral_pub s
    remote_nonce ← read_nonce hello.nonce
    (identity_private, identity_public) ← identity_pair inputs.identity_draws private public s
    (ephemeral_private, ephemeral_public) ← generate_keypair p inputs.ephemeral_draws s
    identity_raw ← serialize_public_key identity_public
    ephemeral_raw ← serialize_public_key ephemeral_public
    (shared_1, shared_2, shared_3) ←
        exchange_three identity_private ephemeral_private remote_identity remote_ephemeral
    let keys =
        derive_keys_triple_dh p shared_2 shared_1 shared_3 (p.argon2_hash psk) remote_nonce
          inputs.nonce s
    let signature =
        p.hmac_digest s keys.auth_key
          (auth_bytes (hex ephemeral_raw) (hex inputs.nonce) inputs.made_at)
    ok (
      record {
        version = some protocol_version;
        timestamp = some inputs.made_at;
        identity_pub = some (hex identity_raw);
        ephemeral_pub = some (hex ephemeral_raw);
        nonce = some (hex inputs.nonce);
        signature = some (b64encode signature);
        suite = suite_field (suite_text s);
      },
      record {
        identity_private_key = identity_private;
        identity_public_key = identity_public;
        ephemeral_private_key = ephemeral_private;
        ephemeral_public_key = ephemeral_public;
        psk = psk;
        nonce = inputs.nonce;
        suite = suite_text s;
      },
      record {
        identity_pub = remote_identity;
        ephemeral_pub = remote_ephemeral;
        nonce = remote_nonce;
      },
      keys,
    )

  -- `complete_handshake`, which reads the message at one time and makes its own at a later one
  unfoldable pub complete_handshake : ℕ → ℕ → Auth → AgentState → Result (Keys × Session)
  complete_handshake read_at made_at auth state = do
    s ← open_message read_at auth.version auth.suite auth.timestamp state.suite
    remote_identity ← read_key auth.identity_pub s
    remote_ephemeral ← read_key auth.ephemeral_pub s
    remote_nonce ← read_nonce auth.nonce
    signature_text ← require auth.signature key_error
    signature ← b64decode signature_text
    (shared_1, shared_2, shared_3) ←
        exchange_three state.identity_private_key state.ephemeral_private_key remote_identity
          remote_ephemeral
    let keys =
        derive_keys_triple_dh p shared_1 shared_2 shared_3 (p.argon2_hash state.psk) state.nonce
          remote_nonce s
    ephemeral_text ← require auth.ephemeral_pub key_error
    nonce_text ← require auth.nonce key_error
    sent ← require auth.timestamp key_error
    let expected = p.hmac_digest s keys.auth_key (auth_bytes ephemeral_text nonce_text sent)
    guard (list_eq signature expected) value_error
    ok (
      keys,
      record {
        keys = keys;
        suite = suite_text s;
        complete_timestamp = made_at;
        complete_signature = b64encode (p.hmac_digest s keys.auth_key complete_bytes);
      },
    )
