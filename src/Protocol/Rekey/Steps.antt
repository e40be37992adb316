-- ===== src/Protocol/Rekey/Steps.antt =====
-- What a request and its answer carry in the suite EN.
use mathlib.Core.Path.{subst}
use sip_protocol.Prelude.{
  ℕ, ◌+◌, ◌≡◌, refl, ap, ◌∙◌, sym, List, some, ok, require, key_error, unbind, ok-injective,
}
use sip_protocol.Python.Base64.{b64encode, b64decode, b64decode-b64encode}
use sip_protocol.Python.Bytes.{IsBytes}
use sip_protocol.Crypto.Suite.{en}
use sip_protocol.Crypto.Primitives.{Bytes, Primitives}
use sip_protocol.Crypto.Hkdf.{Keys}
use sip_protocol.Crypto.Dh.{
  PrivateKey, PublicKey, x25519_private, x25519_key, generate_keypair, dh_exchange,
  serialize_public_key, parse_public_key, parse_raw,
}
use sip_protocol.Protocol.Message.{protocol_version}
use sip_protocol.Protocol.Handshake.Agreement.{generate_keypair-IsPair}
use sip_protocol.Protocol.Rekey.{
  RekeyManager, RekeyRequest, RekeyResponse, RekeyInputs, sign, request_text, response_text,
  derive_new_keys, create_rekey_request, answer_request,
}

module _ (p : Primitives) where
  -- What a public key of X25519 is in a message.
  pub read_back :
      (secret raw : Bytes) (public : PublicKey)
      → public ≡ x25519_key (p.x25519_public secret)
      → serialize_public_key public ≡ ok raw
      → (b64decode (b64encode raw) ≡ ok raw) × (parse_public_key raw en ≡ ok public)
  unfolding serialize_public_key parse_public_key parse_raw
  read_back secret raw public e h =
      let same : p.x25519_public secret ≡ raw = ok-injective (rw e at h) in
      subst (λ t. (b64decode (b64encode t) ≡ ok t) × (parse_public_key t en ≡ ok public)) same
        (
          b64decode-b64encode (p.x25519_public secret) (p.x25519_public-IsBytes secret),
          rw (p.length-x25519_public secret, e),
        )

  -- The initiator's request in the suite EN.
  pub record Created (inputs : RekeyInputs) (manager next : RekeyManager) (request : RekeyRequest)
      : Type 0 where
    pub secret : Bytes
    pub raw : Bytes
    pub read_raw : b64decode (b64encode raw) ≡ ok raw
    pub parse_peer : parse_public_key raw en ≡ ok (x25519_key (p.x25519_public secret))
    pub ephemeral_field : request.ephemeral_pub ≡ some (b64encode raw)
    pub nonce_field : request.nonce ≡ some (b64encode inputs.nonce)
    pub sequence_field : request.sequence ≡ some manager.rekey_sequence
    pub next_eq : next ≡ record manager {
      temp_new_ephemeral_private_key = some (x25519_private secret);
      temp_new_ephemeral_nonce = some inputs.nonce;
      rekey_sequence = manager.rekey_sequence + 1;
    }

  pub created :
      (inputs : RekeyInputs) (manager next : RekeyManager) (reason : List ℕ) (key_lifetime : ℕ)
      (request : RekeyRequest)
      → manager.suite ≡ en
      → create_rekey_request p inputs manager reason key_lifetime ≡ ok (request, next)
      → Created inputs manager next request
  unfolding create_rekey_request
  created inputs manager next reason key_lifetime request hs h =
      unbind (generate_keypair p inputs.draws manager.suite) h λ keys hk h1.
        unbind (serialize_public_key keys.1) h1 λ raw hr h2.
          unbind
            (sign p manager
              (request_text (b64encode raw) (b64encode inputs.nonce) reason key_lifetime))
            h2
            λ signature hsig h3.
              let pair =
                generate_keypair-IsPair p inputs.draws keys
                  (subst (λ t. generate_keypair p inputs.draws t ≡ ok keys) hs hk) in
              let (read_raw, parse_peer) = read_back pair.secret raw keys.1 pair.public_eq hr in
              subst (λ t. Created inputs manager t.1 t.0) (ok-injective h3)
                record {
                  secret = pair.secret;
                  raw = raw;
                  read_raw = read_raw;
                  parse_peer = parse_peer ∙ ap ok pair.public_eq;
                  ephemeral_field = refl;
                  nonce_field = refl;
                  sequence_field = refl;
                  next_eq =
                      ap
                        (λ t. record manager {
                          temp_new_ephemeral_private_key = some t;
                          temp_new_ephemeral_nonce = some inputs.nonce;
                          rekey_sequence = manager.rekey_sequence + 1;
                        })
                        pair.private_eq;
                }

  -- The responder's answer to it.
  pub record Replied (inputs : RekeyInputs) (manager : RekeyManager) (request : RekeyRequest)
      (peer nonce : Bytes) (response : RekeyResponse) (new_keys : Keys) : Type 0 where
    pub secret : Bytes
    pub raw : Bytes
    pub shared : Bytes
    pub signature : Bytes
    pub read_raw : b64decode (b64encode raw) ≡ ok raw
    pub parse_peer : parse_public_key raw en ≡ ok (x25519_key (p.x25519_public secret))
    pub exchanged : p.x25519_exchange secret (p.x25519_public peer) ≡ ok shared
    pub keys_eq : new_keys ≡ derive_new_keys p manager shared nonce inputs.nonce
    pub signed :
        sign p manager (response_text (b64encode raw) (b64encode inputs.nonce)) ≡ ok signature
    pub version_field : response.version ≡ some protocol_version
    pub timestamp_field : response.timestamp ≡ some inputs.made_at
    pub sequence_field : response.sequence ≡ request.sequence
    pub ephemeral_field : response.ephemeral_pub ≡ some (b64encode raw)
    pub nonce_field : response.nonce ≡ some (b64encode inputs.nonce)
    pub signature_field : response.signature ≡ some (b64encode signature)

  pub replied :
      (inputs : RekeyInputs) (manager : RekeyManager) (request : RekeyRequest)
      (peer peer_raw nonce : Bytes) (response : RekeyResponse) (private : PrivateKey)
      (new_keys : Keys)
      → manager.suite ≡ en
      → request.ephemeral_pub ≡ some (b64encode peer_raw)
      → b64decode (b64encode peer_raw) ≡ ok peer_raw
      → parse_public_key peer_raw en ≡ ok (x25519_key (p.x25519_public peer))
      → request.nonce ≡ some (b64encode nonce)
      → IsBytes nonce
      → answer_request p inputs manager request ≡ ok (response, private, new_keys)
      → Replied inputs manager request peer nonce response new_keys
  unfolding answer_request
  replied inputs manager request peer peer_raw nonce response private new_keys hs fe re pe fn hn h =
      unbind (generate_keypair p inputs.draws manager.suite) h λ keys hk h1.
        unbind (serialize_public_key keys.1) h1 λ raw hr h2.
          unbind (require request.ephemeral_pub key_error) h2 λ peer_text e3 h3.
            unbind (b64decode peer_text) h3 λ got_raw e4 h4.
              unbind (parse_public_key got_raw manager.suite) h4 λ got_peer e5 h5.
                unbind (dh_exchange p keys.0 got_peer) h5 λ shared e6 h6.
                  unbind (require request.nonce key_error) h6 λ nonce_text e7 h7.
                    unbind (b64decode nonce_text) h7 λ got_nonce e8 h8.
                      unbind
                        (sign p manager (response_text (b64encode raw) (b64encode inputs.nonce))) h8
                        λ signature e9 h9.
                          let pair =
                            generate_keypair-IsPair p inputs.draws keys
                              (subst (λ t. generate_keypair p inputs.draws t ≡ ok keys) hs hk) in
                          let (read_raw, parse_own) =
                            read_back pair.secret raw keys.1 pair.public_eq hr in
                          let text_eq : b64encode peer_raw ≡ peer_text =
                            ok-injective (rw fe at e3) in
                          let raw_eq : peer_raw ≡ got_raw =
                            ok-injective (sym re ∙ ap b64decode text_eq ∙ e4) in
                          let peer_eq : got_peer ≡ x25519_key (p.x25519_public peer) =
                            ok-injective (
                              sym e5
                              ∙ ap (parse_public_key got_raw) hs
                              ∙ ap (λ t. parse_public_key t en) (sym raw_eq)
                              ∙ pe) in
                          let nonce_text_eq : b64encode nonce ≡ nonce_text =
                            ok-injective (rw fn at e7) in
                          let nonce_eq : got_nonce ≡ nonce = ok-injective (
                            sym e8
                            ∙ ap b64decode (sym nonce_text_eq)
                            ∙ b64decode-b64encode nonce hn) in
                          subst (λ t. Replied inputs manager request peer nonce t.0 t.2)
                            (ok-injective h9)
                            record {
                              secret = pair.secret;
                              raw = raw;
                              shared = shared;
                              signature = signature;
                              read_raw = read_raw;
                              parse_peer = parse_own ∙ ap ok pair.public_eq;
                              exchanged =
                                  unfold dh_exchange in (rw (pair.private_eq, peer_eq) at e6);
                              keys_eq =
                                  ap (λ t. derive_new_keys p manager shared t inputs.nonce)
                                    nonce_eq;
                              signed = e9;
                              version_field = refl;
                              timestamp_field = refl;
                              sequence_field = refl;
                              ephemeral_field = refl;
                              nonce_field = refl;
                              signature_field = refl;
                            }
