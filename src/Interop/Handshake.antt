-- ===== src/Interop/Handshake.antt =====
-- reference_impl.py: suites, key pairs, the key schedule and the handshake. The messages are those of
-- protocol/handshake.py. What is drawn and the clock are arguments; a text of ASCII and its bytes
-- have the same numbers.
use sip_protocol.Prelude.{
  ℕ, List, [], ◌∷◌, ◌++◌, Bool, true, false, Option, none, some, Result, ok, err, ◌>>=◌, ◌>>◌,
  guard, require, get_default, value_error, key_error, no_entropy, length, slice, list_eq, ◌==◌,
  if◌then◌else◌, codes,
}
use sip_protocol.Python.Base64.{b64encode, b64decode}
use sip_protocol.Python.Bytes.{to_bytes}
use sip_protocol.Python.Hex.{hex, fromhex}
use sip_protocol.Python.Json.{decimal}
use sip_protocol.Crypto.Suite.{Suite, en, zh, suite_text}
use sip_protocol.Crypto.Primitives.{Bytes, Primitives}
use sip_protocol.Crypto.Hkdf.{Keys}
use sip_protocol.Crypto.Sm3.{Sm3}
use sip_protocol.Protocol.Message.{protocol_version}
use sip_protocol.Protocol.Handshake.{Hello, Auth, is_version, is_fresh}
use sip_protocol.Interop.Hkdf.{hmac_digest, hkdf_for_suite}
use sip_protocol.Interop.Curve.{sm2_pub_of, draw_scalar, sm2_dh}

-- `validate_suite`, with the suite that the text names
unfoldable pub accept_suite : List ℕ → Result Suite
unfolding suite_text
accept_suite suite =
    if list_eq suite (suite_text en)
    then ok en
    else if list_eq suite (suite_text zh)
    then ok zh
    else err value_error

-- `negotiate_suite`
unfoldable pub agree_suite : List ℕ → Suite → Result (Unit {0})
unfolding suite_text
agree_suite offered local = do
  s ← accept_suite offered
  guard (list_eq offered (suite_text local)) value_error

-- `if suite == SUITE_ZH: d["suite"] = SUITE_ZH`
unfoldable pub zh_field : Suite → Option (List ℕ)
unfolding suite_text
zh_field en = none
zh_field zh = some (suite_text zh)

-- `check_timestamp and abs(now - d["timestamp"]) > TIMESTAMP_TOLERANCE_MS`
unfoldable pub check_time : Bool → ℕ → Option ℕ → Result (Unit {0})
unfolding is_fresh
check_time false now timestamp = ok tt
check_time true now timestamp = do
  sent ← require timestamp key_error
  guard (is_fresh now sent) value_error

-- `auth_transcript`
unfoldable pub auth_transcript : List ℕ → List ℕ → ℕ → Bytes
auth_transcript ephemeral_pub_hex nonce_hex timestamp =
    codes "{\"ephemeral_pub\": \""
    ++ (ephemeral_pub_hex
        ++ (codes "\", \"nonce\": \""
            ++ (nonce_hex ++ (codes "\", \"timestamp\": " ++ (decimal timestamp ++ codes "}")))))

-- `complete_transcript`
unfoldable pub complete_transcript : Bytes
complete_transcript = codes "{\"status\": \"verified\"}"

-- The keys that a caller may give, what is drawn where it gives none, whether times are checked, and
-- the times.
pub record RefInputs : Type 0 where
  pub identity_priv : Option Bytes
  pub ephemeral_priv : Option Bytes
  pub identity_draws : List Bytes
  pub ephemeral_draws : List Bytes
  pub nonce : Option Bytes
  pub nonce_draw : Bytes
  pub check_timestamp : Bool
  pub read_at : ℕ
  pub made_at : ℕ

-- `nonce or os.urandom(…)`
unfoldable pub choose_nonce : Option Bytes → Bytes → Bytes
choose_nonce none draw = draw
choose_nonce (some []) draw = draw
choose_nonce (some (b ∷ bs)) draw = b ∷ bs

-- the initiator's state
pub record RefState : Type 0 where
  pub psk : Bytes
  pub identity_priv : Bytes
  pub ephemeral_priv : Bytes
  pub nonce : Bytes
  pub suite : Suite

module _ (p : Primitives) where
  -- `generate_ephemeral` and `generate_ephemeral_sm2`
  unfoldable pub generate_pair : List Bytes → Suite → Result (Bytes × Bytes)
  unfolding draw_scalar
  generate_pair [] s = err no_entropy
  generate_pair (draw ∷ draws) en = ok (draw, p.x25519_public draw)
  generate_pair (draw ∷ draws) zh = do
    scalar ← require (draw_scalar (draw ∷ draws)) no_entropy
    private ← to_bytes 32 scalar
    public ← sm2_pub_of private
    ok (private, public)

  -- `pub_of`: X25519 takes a private key of 32 bytes.
  unfoldable pub pub_of : Bytes → Suite → Result Bytes
  pub_of private zh = sm2_pub_of private
  pub_of private en = do guard (length private == 32) value_error; ok (p.x25519_public private)

  -- `gen() if priv is None else (priv, pub_of(priv))`
  unfoldable pub choose_pair : Option Bytes → List Bytes → Suite → Result (Bytes × Bytes)
  unfolding generate_pair pub_of
  choose_pair none draws s = generate_pair draws s
  choose_pair (some private) draws s = do public ← pub_of private s; ok (private, public)

  -- `x25519_dh`
  unfoldable pub x25519_dh : Bytes → Bytes → Result Bytes
  x25519_dh private peer = do
    guard (length private == 32) value_error
    guard (length peer == 32) value_error
    p.x25519_exchange private peer

  -- `dh_for_suite`
  unfoldable pub dh_for_suite : Bytes → Bytes → Suite → Result Bytes
  unfolding x25519_dh
  dh_for_suite private peer zh = sm2_dh private peer
  dh_for_suite private peer en = x25519_dh private peer

  -- `initiator_start`
  unfoldable pub initiator_start : RefInputs → Bytes → List ℕ → Result (Hello × RefState)
  unfolding choose_pair zh_field choose_nonce
  initiator_start inputs psk suite = do
    s ← accept_suite suite
    (identity_priv, identity_pub) ← choose_pair inputs.identity_priv inputs.identity_draws s
    (ephemeral_priv, ephemeral_pub) ← choose_pair inputs.ephemeral_priv inputs.ephemeral_draws s
    let nonce = choose_nonce inputs.nonce inputs.nonce_draw
    ok (
      record {
        version = some protocol_version;
        timestamp = some inputs.made_at;
        identity_pub = some (hex identity_pub);
        ephemeral_pub = some (hex ephemeral_pub);
        nonce = some (hex nonce);
        suite = zh_field s;
      },
      record {
        psk = psk;
        identity_priv = identity_priv;
        ephemeral_priv = ephemeral_priv;
        nonce = nonce;
        suite = s;
      },
    )

  module _ (sm3 : Sm3) where
    -- the three slices of the derived bytes
    unfoldable pub slice_keys : Bytes → Suite → Keys
    slice_keys okm zh = record {
      encryption_key = slice okm 0 16;
      auth_key = slice okm 16 48;
      replay_key = slice okm 48 80;
    }
    slice_keys okm en = record {
      encryption_key = slice okm 0 32;
      auth_key = slice okm 32 64;
      replay_key = slice okm 64 96;
    }

    abbrev pub reference_length : Suite → ℕ
    reference_length zh = 80
    reference_length en = 96

    -- `derive_session_keys`, after its check of the suite
    unfoldable pub derive_session_keys :
        Bytes → Bytes → Bytes → Bytes → Bytes → Bytes → Suite → Result Keys
    unfolding slice_keys
    derive_session_keys k1 k2 k3 psk nonce_i nonce_r s = do
      let ikm = k1 ++ (k2 ++ (k3 ++ (p.argon2_hash psk ++ (nonce_i ++ nonce_r))))
      okm ←
          hkdf_for_suite p sm3 ikm (codes "SIPHandshake") (codes "session-keys")
            (reference_length s) s
      ok (slice_keys okm s)

    -- `initiator_finish`
    unfoldable pub initiator_finish : Bool → ℕ → Auth → RefState → Result Keys
    unfolding derive_session_keys
    initiator_finish check_timestamp now auth state = do
      guard (is_version auth.version) value_error
      agree_suite (get_default auth.suite (suite_text en)) state.suite
      check_time check_timestamp now auth.timestamp
      ephemeral_text ← require auth.ephemeral_pub key_error
      e ← fromhex ephemeral_text
      nonce_text ← require auth.nonce key_error
      nonce_r ← fromhex nonce_text
      k1 ← dh_for_suite state.identity_priv e state.suite
      identity_text ← require auth.identity_pub key_error
      identity ← fromhex identity_text
      k2 ← dh_for_suite state.ephemeral_priv identity state.suite
      k3 ← dh_for_suite state.ephemeral_priv e state.suite
      keys ← derive_session_keys k1 k2 k3 state.psk state.nonce nonce_r state.suite
      sent ← require auth.timestamp key_error
      signature_text ← require auth.signature key_error
      signature ← b64decode signature_text
      guard
          (list_eq signature (
            hmac_digest p sm3 keys.auth_key (auth_transcript ephemeral_text nonce_text sent)
              state.suite))
          value_error
      ok keys

    -- `responder_handle_hello`
    unfoldable pub responder_handle_hello :
        RefInputs → Hello → Bytes → List ℕ → Result (Auth × Keys)
    unfolding derive_session_keys
    responder_handle_hello inputs hello psk suite = do
      s ← accept_suite suite
      guard (is_version hello.version) value_error
      agree_suite (get_default hello.suite (suite_text en)) s
      check_time inputs.check_timestamp inputs.read_at hello.timestamp
      ephemeral_text ← require hello.ephemeral_pub key_error
      e ← fromhex ephemeral_text
      nonce_text ← require hello.nonce key_error
      nonce_i ← fromhex nonce_text
      (identity_priv, identity_pub) ← choose_pair inputs.identity_priv inputs.identity_draws s
      (ephemeral_priv, ephemeral_pub) ← choose_pair inputs.ephemeral_priv inputs.ephemeral_draws s
      let nonce_r = choose_nonce inputs.nonce inputs.nonce_draw
      identity_text ← require hello.identity_pub key_error
      identity ← fromhex identity_text
      k1 ← dh_for_suite ephemeral_priv identity s
      k2 ← dh_for_suite identity_priv e s
      k3 ← dh_for_suite ephemeral_priv e s
      keys ← derive_session_keys k1 k2 k3 psk nonce_i nonce_r s
      let signature =
          hmac_digest p sm3 keys.auth_key
            (auth_transcript (hex ephemeral_pub) (hex nonce_r) inputs.made_at) s
      ok (
        record {
          version = some protocol_version;
          timestamp = some inputs.made_at;
          identity_pub = some (hex identity_pub);
          ephemeral_pub = some (hex ephemeral_pub);
          nonce = some (hex nonce_r);
          signature = some (b64encode signature);
          suite = zh_field s;
        },
        keys,
      )
