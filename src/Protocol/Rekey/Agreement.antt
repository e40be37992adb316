-- ===== src/Protocol/Rekey/Agreement.antt =====
-- The two sides of a change of keys in the suite EN.
use mathlib.Core.Path.{subst}
use sip_protocol.Prelude.{
  ℕ, ◌+◌, ◌≡◌, refl, ap, ◌∙◌, sym, List, true, some, ok, unbind, ok-injective, list_eq_refl,
  ==_self,
}
use sip_protocol.Python.Base64.{b64encode, b64decode, b64decode-b64encode}
use sip_protocol.Python.Bytes.{IsBytes}
use sip_protocol.Python.Utf8
use sip_protocol.Crypto.Suite.{en}
use sip_protocol.Crypto.Primitives.{Bytes, Primitives}
use sip_protocol.Crypto.Hkdf.{Keys}
use sip_protocol.Crypto.Dh.{PublicKey, x25519_private, x25519_key, dh_exchange, parse_public_key}
use sip_protocol.Protocol.Message.{protocol_version}
use sip_protocol.Protocol.Handshake.{is_version, is_fresh}
use sip_protocol.Protocol.Rekey.{
  RekeyManager, RekeyRequest, RekeyResponse, RekeyInputs, check, caught, sign, response_text,
  derive_new_keys, create_rekey_request, process_rekey_request, validate_rekey_response,
  process_rekey_response,
}
use sip_protocol.Protocol.Rekey.Sequence.{process_rekey_request-Answered}
use sip_protocol.Protocol.Rekey.Steps.{created, replied}

module _ (p : Primitives) where
  -- Signing and deriving read the keys and the suite of a manager only.
  sign_same :
      (m n : RekeyManager) (t : List ℕ)
      → m.keys ≡ n.keys
      → m.suite ≡ n.suite
      → sign p m t ≡ sign p n t
  unfolding sign
  sign_same m n t hk hs = rw (hk, hs) refl

  derive_new_keys_same :
      (m n : RekeyManager) (shared x y : Bytes)
      → m.keys ≡ n.keys
      → m.suite ≡ n.suite
      → derive_new_keys p m shared x y ≡ derive_new_keys p n shared x y
  unfolding derive_new_keys
  derive_new_keys_same m n shared x y hk hs = rw (hk, hs) refl

  signature_read :
      (m : RekeyManager) (t : List ℕ) (signature : Bytes)
      → sign p m t ≡ ok signature
      → b64decode (b64encode signature) ≡ ok signature
  unfolding sign
  signature_read m t signature h = unbind (Utf8.encode t) h λ signed hs h1.
      subst (λ x. b64decode (b64encode x) ≡ ok x) (ok-injective h1)
        (b64decode-b64encode (p.hmac_digest m.suite m.keys.auth_key signed)
          (p.hmac_digest-IsBytes m.suite m.keys.auth_key signed))

  -- A response whose parts can be read is used by the manager that made the request.
  used :
      (now sent sequence : ℕ) (m : RekeyManager) (response : RekeyResponse)
      (peer_raw secret nonce signature shared own : Bytes) (peer : PublicKey)
      → m.suite ≡ en
      → m.temp_new_ephemeral_private_key ≡ some (x25519_private secret)
      → m.temp_new_ephemeral_nonce ≡ some own
      → m.rekey_sequence ≡ sequence + 1
      → is_fresh now sent ≡ true
      → response.version ≡ some protocol_version
      → response.timestamp ≡ some sent
      → response.sequence ≡ some sequence
      → response.ephemeral_pub ≡ some (b64encode peer_raw)
      → response.nonce ≡ some (b64encode nonce)
      → response.signature ≡ some (b64encode signature)
      → b64decode (b64encode peer_raw) ≡ ok peer_raw
      → b64decode (b64encode nonce) ≡ ok nonce
      → b64decode (b64encode signature) ≡ ok signature
      → parse_public_key peer_raw en ≡ ok peer
      → sign p m (response_text (b64encode peer_raw) (b64encode nonce)) ≡ ok signature
      → dh_exchange p (x25519_private secret) peer ≡ ok shared
      → (next : RekeyManager) × (process_rekey_response p now m response
          ≡ ok (derive_new_keys p m shared own nonce, next))
  unfolding process_rekey_response validate_rekey_response check caught is_version
  used now sent sequence m response peer_raw secret nonce signature shared own peer ms mp mn mq
        fresh fv ft fq fe fn fs re rn rs pe signed hx =
      rw
        (
          fv,
          list_eq_refl protocol_version,
          ft,
          fresh,
          fs,
          rs,
          fe,
          fn,
          signed,
          list_eq_refl signature,
          fq,
          mq,
          ==_self (sequence + 1),
          re,
          ms,
          pe,
          mp,
          hx,
          mn,
          rn,
        )
        (_, refl)

  -- In the suite EN, between two managers with the same keys, with nonces of bytes: where the
  -- responder answers the initiator's request and the answer is fresh when it is read, the
  -- initiator uses it, and both have the same new keys.
  pub process_rekey_response-request :
      (inputs_a inputs_b : RekeyInputs) (a requested b next : RekeyManager) (reason : List ℕ)
      (key_lifetime read_at : ℕ) (request : RekeyRequest) (response : RekeyResponse)
      → IsBytes inputs_a.nonce
      → IsBytes inputs_b.nonce
      → a.keys ≡ b.keys
      → a.suite ≡ en
      → b.suite ≡ en
      → create_rekey_request p inputs_a a reason key_lifetime ≡ ok (request, requested)
      → process_rekey_request p inputs_b b request ≡ (next, ok response)
      → is_fresh read_at inputs_b.made_at ≡ true
      → (new_keys : Keys) × (used : RekeyManager) × (process_rekey_response p read_at requested
            response
          ≡ ok (new_keys, used))
        × (next.temp_new_keys ≡ some new_keys)
  process_rekey_response-request inputs_a inputs_b a requested b next reason key_lifetime read_at
        request response hna hnb hk ha hb hc hp fresh =
      let c = created p inputs_a a requested reason key_lifetime request ha hc in
      let g = process_rekey_request-Answered p inputs_b b next request response hp in
      let m = record b { rekey_sequence = g.sequence } in
      let r =
        replied p inputs_b m request c.secret c.raw inputs_a.nonce response g.private g.new_keys hb
          c.ephemeral_field c.read_raw c.parse_peer c.nonce_field hna g.answered in
      let keys_eq : requested.keys ≡ b.keys = ap (λ t. t.keys) c.next_eq ∙ hk in
      let suite_eq : requested.suite ≡ b.suite = ap (λ t. t.suite) c.next_eq ∙ ha ∙ sym hb in
      let made = response_text (b64encode r.raw) (b64encode inputs_b.nonce) in
      let (used_manager, done) =
        used read_at inputs_b.made_at a.rekey_sequence requested response r.raw c.secret
          inputs_b.nonce r.signature r.shared inputs_a.nonce (x25519_key (p.x25519_public r.secret))
          (suite_eq ∙ hb) (ap (λ t. t.temp_new_ephemeral_private_key) c.next_eq)
          (ap (λ t. t.temp_new_ephemeral_nonce) c.next_eq) (ap (λ t. t.rekey_sequence) c.next_eq)
          fresh r.version_field r.timestamp_field (r.sequence_field ∙ c.sequence_field)
          r.ephemeral_field r.nonce_field r.signature_field r.read_raw
          (b64decode-b64encode inputs_b.nonce hnb) (signature_read m made r.signature r.signed)
          r.parse_peer (sign_same requested m made keys_eq suite_eq ∙ r.signed)
          (unfold dh_exchange in (p.x25519_exchange_comm c.secret r.secret ∙ r.exchanged)) in
      (
        g.new_keys,
        used_manager,
        done
            ∙ ap (λ t. ok (t, used_manager))
                (derive_new_keys_same requested m r.shared inputs_a.nonce inputs_b.nonce keys_eq
                    suite_eq
                  ∙ sym r.keys_eq),
        ap (λ t. t.temp_new_keys) g.next_eq,
      )
