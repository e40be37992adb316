-- ===== src/Protocol/Handshake/Agreement.antt =====
-- The two sides of a handshake of the suite EN.
use mathlib.Core.Path.{subst}
use sip_protocol.Prelude.{
  ℕ, ◌≡◌, refl, ap, ◌∙◌, sym, List, true, Option, none, some, ok, unbind, ok-injective,
}
use sip_protocol.Python.Base64.{b64encode, b64decode-b64encode}
use sip_protocol.Python.Bytes.{IsBytes}
use sip_protocol.Python.Hex.{hex, fromhex-hex}
use sip_protocol.Crypto.Suite.{en, suite_text}
use sip_protocol.Crypto.Primitives.{Bytes, Primitives}
use sip_protocol.Crypto.Hkdf.{Keys, derive_keys_triple_dh}
use sip_protocol.Crypto.Dh.{
  PrivateKey, PublicKey, x25519_private, x25519_key, first_draw, generate_keypair, dh_exchange,
  serialize_public_key, parse_public_key, parse_raw,
}
use sip_protocol.Protocol.Handshake.{
  Inputs, Hello, Auth, AgentState, Remote, Session, is_fresh, read_key, read_nonce, auth_bytes,
  identity_pair, exchange_three, initiate_handshake, respond_handshake, complete_handshake,
}
use sip_protocol.Protocol.Handshake.Accepted.{accepted}
use sip_protocol.Protocol.Handshake.Steps.{
  initiate_handshake-Initiated, respond_handshake-Responded, open_message-accepts,
}

-- An identity that an agent may keep: nothing, or an X25519 key with its public key.
abbrev pub held_private : Option Bytes → Option PrivateKey
held_private none = none
held_private (some a) = some (x25519_private a)

module _ (p : Primitives) where
  abbrev pub held_public : Option Bytes → Option PublicKey
  held_public none = none
  held_public (some a) = some (x25519_key (p.x25519_public a))

  -- A key pair of X25519, by the bytes of its private key.
  pub record IsPair (private : PrivateKey) (public : PublicKey) : Type 0 where
    pub secret : Bytes
    pub private_eq : private ≡ x25519_private secret
    pub public_eq : public ≡ x25519_key (p.x25519_public secret)

  pub generate_keypair-IsPair :
      (draws : List Bytes) (keys : PrivateKey × PublicKey)
      → generate_keypair p draws en ≡ ok keys
      → IsPair keys.0 keys.1
  unfolding generate_keypair
  generate_keypair-IsPair draws keys h = unbind (first_draw draws) h λ private hd h1.
      subst (λ t. IsPair t.0 t.1) (ok-injective h1)
        record { secret = private; private_eq = refl; public_eq = refl }

  identity_pair-IsPair :
      (draws : List Bytes) (held : Option Bytes) (keys : PrivateKey × PublicKey)
      → identity_pair p draws (held_private held) (held_public held) en ≡ ok keys
      → IsPair keys.0 keys.1
  unfolding identity_pair
  identity_pair-IsPair draws none keys h = generate_keypair-IsPair draws keys h
  identity_pair-IsPair draws (some a) keys h =
      subst (λ t. IsPair t.0 t.1) (ok-injective h)
        record { secret = a; private_eq = refl; public_eq = refl }

  -- The public key of a pair, read from the text that carries it.
  read_key-hex :
      (secret raw : Bytes) (public : PublicKey)
      → public ≡ x25519_key (p.x25519_public secret)
      → serialize_public_key public ≡ ok raw
      → read_key (some (hex raw)) en ≡ ok (x25519_key (p.x25519_public secret))
  unfolding read_key serialize_public_key parse_public_key parse_raw
  read_key-hex secret raw public e h =
      let same : p.x25519_public secret ≡ raw = ok-injective (rw e at h) in
      subst (λ t. read_key (some (hex t)) en ≡ ok (x25519_key (p.x25519_public secret))) same
        (rw (
          fromhex-hex (p.x25519_public secret) (p.x25519_public-IsBytes secret),
          p.length-x25519_public secret,
        ))

  -- The exchanges of the other side, with the first two in the other order.
  exchange_three_comm :
      (a e b f r1 r2 r3 : Bytes)
      → exchange_three p
          (x25519_private a)
          (x25519_private e)
          (x25519_key (p.x25519_public b))
          (x25519_key (p.x25519_public f))
        ≡ ok (r1, r2, r3)
      → exchange_three p
          (x25519_private b)
          (x25519_private f)
          (x25519_key (p.x25519_public a))
          (x25519_key (p.x25519_public e))
        ≡ ok (r2, r1, r3)
  unfolding exchange_three dh_exchange
  exchange_three_comm a e b f r1 r2 r3 h =
      unbind (p.x25519_exchange a (p.x25519_public f)) h λ s1 h1 k1.
        unbind (p.x25519_exchange e (p.x25519_public b)) k1 λ s2 h2 k2.
          unbind (p.x25519_exchange e (p.x25519_public f)) k2 λ s3 h3 k3.
            rw
              (
                p.x25519_exchange_comm b e,
                h2,
                p.x25519_exchange_comm f a,
                h1,
                p.x25519_exchange_comm f e,
                h3,
              )
              (ap (λ t. ok (t.1, t.0, t.2)) (ok-injective k3))

  read_nonce-hex : (nonce : Bytes) → IsBytes nonce → read_nonce (some (hex nonce)) ≡ ok nonce
  unfolding read_nonce
  read_nonce-hex nonce h = fromhex-hex nonce h

  -- In the suite EN, with the same secret on both sides, nonces of bytes, and the answer fresh
  -- when it is read: the initiator of a hello that the responder answers accepts the answer, and
  -- both have the same keys. Either side may use an identity key that it holds with its public
  -- key, or none.
  pub complete_handshake-respond :
      (psk : Bytes) (inputs_a inputs_b : Inputs) (held_a held_b : Option Bytes) (hello : Hello)
      (state_a state_b : AgentState) (auth : Auth) (remote : Remote) (keys : Keys)
      (read_at made_at : ℕ)
      → IsBytes inputs_a.nonce
      → IsBytes inputs_b.nonce
      → initiate_handshake p inputs_a psk (held_private held_a) (held_public held_a) (suite_text en)
        ≡ ok (hello, state_a)
      → respond_handshake p inputs_b hello psk
          (held_private held_b)
          (held_public held_b)
          (suite_text en)
        ≡ ok (auth, state_b, remote, keys)
      → is_fresh read_at inputs_b.made_at ≡ true
      → (session : Session) × (complete_handshake p read_at made_at auth state_a
          ≡ ok (keys, session))
        × (session.keys ≡ keys)
  complete_handshake-respond psk inputs_a inputs_b held_a held_b hello state_a state_b auth remote
        keys read_at made_at hna hnb ha hb fresh =
      let a =
        initiate_handshake-Initiated p inputs_a psk (held_private held_a) (held_public held_a) en
          hello state_a ha in
      let b =
        respond_handshake-Responded p inputs_b psk (held_private held_b) (held_public held_b) en
          hello auth state_b remote keys hb in
      let ida =
        identity_pair-IsPair inputs_a.identity_draws held_a
          (state_a.identity_private_key, state_a.identity_public_key) a.identity in
      let idb =
        identity_pair-IsPair inputs_b.identity_draws held_b
          (state_b.identity_private_key, state_b.identity_public_key) b.identity in
      let epa =
        generate_keypair-IsPair inputs_a.ephemeral_draws
          (state_a.ephemeral_private_key, state_a.ephemeral_public_key) a.ephemeral in
      let epb =
        generate_keypair-IsPair inputs_b.ephemeral_draws
          (state_b.ephemeral_private_key, state_b.ephemeral_public_key) b.ephemeral in
      let remote_identity : remote.identity_pub ≡ x25519_key (p.x25519_public ida.secret) =
        ok-injective (
          sym b.read_identity
          ∙ ap (λ t. read_key t en) a.carries.identity_field
          ∙ read_key-hex ida.secret a.carries.identity_raw state_a.identity_public_key ida.public_eq
              a.carries.serialize_identity) in
      let remote_ephemeral : remote.ephemeral_pub ≡ x25519_key (p.x25519_public epa.secret) =
        ok-injective (
          sym b.read_ephemeral
          ∙ ap (λ t. read_key t en) a.carries.ephemeral_field
          ∙ read_key-hex epa.secret a.carries.ephemeral_raw state_a.ephemeral_public_key
              epa.public_eq a.carries.serialize_ephemeral) in
      let remote_nonce : remote.nonce ≡ inputs_a.nonce = ok-injective (
        sym b.read_remote_nonce
        ∙ ap read_nonce a.carries.nonce_field
        ∙ ap (λ t. read_nonce (some (hex t))) a.nonce_eq
        ∙ read_nonce-hex inputs_a.nonce hna) in
      let secrets =
        exchange_three_comm idb.secret epb.secret ida.secret epa.secret b.shared_1 b.shared_2
          b.shared_3
          (rw (idb.private_eq, epb.private_eq, remote_identity, remote_ephemeral) at b.exchanged) in
      let agreed : derive_keys_triple_dh p b.shared_2 b.shared_1 b.shared_3
            (p.argon2_hash state_a.psk) state_a.nonce inputs_b.nonce en
          ≡ keys =
        rw (a.psk_eq, a.nonce_eq, b.keys_eq, remote_nonce, b.nonce_eq) in
      let signature =
        p.hmac_digest en keys.auth_key
          (auth_bytes (hex b.carries.ephemeral_raw) (hex state_b.nonce) inputs_b.made_at) in
      accepted p read_at made_at inputs_b.made_at auth state_a
        (x25519_key (p.x25519_public idb.secret)) (x25519_key (p.x25519_public epb.secret))
        inputs_b.nonce (hex b.carries.ephemeral_raw) (hex state_b.nonce) (b64encode signature)
        b.shared_2 b.shared_1 b.shared_3 keys en
        (rw (b.version_field, b.suite_eq, b.timestamp_field, a.state_suite)
          (open_message-accepts read_at inputs_b.made_at en fresh))
        (ap (λ t. read_key t en) b.carries.identity_field
          ∙ read_key-hex idb.secret b.carries.identity_raw state_b.identity_public_key idb.public_eq
              b.carries.serialize_identity)
        (ap (λ t. read_key t en) b.carries.ephemeral_field
          ∙ read_key-hex epb.secret b.carries.ephemeral_raw state_b.ephemeral_public_key
              epb.public_eq b.carries.serialize_ephemeral)
        (ap read_nonce b.carries.nonce_field
          ∙ ap (λ t. read_nonce (some (hex t))) b.nonce_eq
          ∙ read_nonce-hex inputs_b.nonce hnb)
        (rw (ida.private_eq, epa.private_eq) secrets) agreed b.carries.ephemeral_field
        b.carries.nonce_field b.timestamp_field b.signature_field
        (b64decode-b64encode signature (p.hmac_digest-IsBytes en keys.auth_key _))
