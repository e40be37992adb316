-- ===== src/Interop/Messages.antt =====
-- reference_impl.py: sealing, and the messages of a `ReferenceSession`. A step that can fail after it
-- changed the session returns the session beside its result.
use sip_protocol.Prelude.{
  ℕ, ◌+◌, List, ◌∷◌, ◌++◌, Option, none, some, Result, ok, err, ◌>>=◌, ◌>>◌, guard, require,
  get_default, value_error, key_error, length, take, drop, ltb, codes,
}
use sip_protocol.Python.Base64.{b64encode, b64decode}
use sip_protocol.Python.Hex.{hex}
use sip_protocol.Python.Json.{decimal}
use sip_protocol.Python.Utf8
use sip_protocol.Crypto.Suite.{Suite, en, zh, suite_text}
use sip_protocol.Crypto.Primitives.{Bytes, Primitives}
use sip_protocol.Crypto.Hkdf.{Keys}
use sip_protocol.Crypto.Sm3.{Sm3}
use sip_protocol.Protocol.Message.{Message, protocol_version, compare_text}
use sip_protocol.Protocol.Handshake.{is_version}
use sip_protocol.Interop.Hkdf.{hmac_digest}
use sip_protocol.Interop.Handshake.{accept_suite, zh_field}

-- `ReferenceSession`
pub record RefSession : Type 0 where
  pub keys : Keys
  pub agent_id : List ℕ
  pub suite : Suite
  pub send_counter : ℕ
  pub recv_counter : ℕ

-- `__init__`
unfoldable pub make_session : Keys → List ℕ → List ℕ → Result RefSession
unfolding accept_suite
make_session keys agent_id suite = do
  s ← accept_suite suite
  ok record { keys = keys; agent_id = agent_id; suite = s; send_counter = 0; recv_counter = 0 }

module _ (p : Primitives) (sm3 : Sm3) where
  -- `aead_seal`
  unfoldable pub aead_seal : Bytes → Bytes → Bytes → Option Bytes → Suite → Result (Bytes × Bytes)
  aead_seal key nonce plaintext aad zh = p.sm4_encrypt key nonce plaintext aad
  aead_seal key nonce plaintext aad en = do
    sealed ← p.chacha_encrypt key nonce plaintext aad
    ok (take (length plaintext) sealed, drop (length plaintext) sealed)

  -- `aead_open`
  unfoldable pub aead_open : Bytes → Bytes → Bytes → Bytes → Option Bytes → Suite → Result Bytes
  aead_open key nonce ciphertext tag aad zh = p.sm4_decrypt key nonce tag ciphertext aad
  aead_open key nonce ciphertext tag aad en = p.chacha_decrypt key nonce (ciphertext ++ tag) aad

  -- `replay_tag`
  unfoldable pub make_replay_tag : Bytes → List ℕ → ℕ → Suite → Result (List ℕ)
  make_replay_tag replay_key sender_id counter s = do
    data_bytes ← Utf8.encode (sender_id ++ (58 ∷ decimal counter))
    ok (hex (hmac_digest p sm3 replay_key data_bytes s))

  -- the message of `encrypt`, on the counter that it raised
  unfoldable pub seal_message : Bytes → ℕ → RefSession → List ℕ → List ℕ → Result Message
  unfolding aead_seal make_replay_tag zh_field
  seal_message iv now session plaintext recipient_id = do
    plain ← Utf8.encode plaintext
    (ciphertext, tag) ← aead_seal session.keys.encryption_key iv plain none session.suite
    replay_tag ←
        make_replay_tag session.keys.replay_key session.agent_id session.send_counter session.suite
    ok record {
      version = some protocol_version;
      message_type = some (codes "message");
      timestamp = some now;
      sender_id = some session.agent_id;
      recipient_id = some recipient_id;
      message_counter = some session.send_counter;
      iv = some (b64encode iv);
      payload = some (b64encode ciphertext);
      auth_tag = some (b64encode tag);
      suite = zh_field session.suite;
      replay_tag = some replay_tag;
    }

  -- `encrypt`, with the nonce that it is given or draws
  unfoldable pub encrypt : Bytes → ℕ → RefSession → List ℕ → List ℕ → RefSession × Result Message
  unfolding seal_message
  encrypt iv now session plaintext recipient_id =
      let counted = record session { send_counter = session.send_counter + 1 } in
      (counted, seal_message iv now counted plaintext recipient_id)

  -- the test of the replay tag, where the message has one
  unfoldable pub check_tag : RefSession → Message → Suite → Option (List ℕ) → Result (Unit {0})
  unfolding make_replay_tag compare_text
  check_tag session message s none = ok tt
  check_tag session message s (some tag) = do
    sender_id ← require message.sender_id key_error
    counter ← require message.message_counter key_error
    expected ← make_replay_tag session.keys.replay_key sender_id counter s
    same ← compare_text expected tag
    guard same value_error

  -- the bytes that `decrypt` opens, and the counter that it takes over
  unfoldable pub open_checked : RefSession → Message → Result (Bytes × ℕ)
  unfolding check_tag aead_open
  open_checked session message = do
    guard (is_version message.version) value_error
    s ← accept_suite (get_default message.suite (suite_text en))
    check_tag session message s message.replay_tag
    counter ← require message.message_counter key_error
    guard (ltb session.recv_counter counter) value_error
    iv_text ← require message.iv key_error
    iv ← b64decode iv_text
    payload_text ← require message.payload key_error
    ciphertext ← b64decode payload_text
    tag_text ← require message.auth_tag key_error
    tag ← b64decode tag_text
    plain ← aead_open session.keys.encryption_key iv ciphertext tag none s
    ok (plain, counter)

  unfoldable pub advance_session : RefSession → Result (Bytes × ℕ) → RefSession × Result (List ℕ)
  advance_session session (err e) = (session, err e)
  advance_session session (ok (plain, counter)) =
      (record session { recv_counter = counter }, Utf8.decode plain)

  -- `decrypt`
  unfoldable pub decrypt : RefSession → Message → RefSession × Result (List ℕ)
  unfolding advance_session open_checked
  decrypt session message = advance_session session (open_checked session message)
