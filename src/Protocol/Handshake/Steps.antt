-- ===== src/Protocol/Handshake/Steps.antt =====
-- What the steps of a handshake leave behind when they succeed.
use mathlib.Core.Path.{subst}
use sip_protocol.Prelude.{
  ℕ, ◌≡◌, refl, ap, ◌∙◌, sym, List, true, Option, some, ok, guard, require, get_default, key_error,
  value_error, version_negotiation, unbind, ok-injective, list_eq, list_eq_refl,
}
use sip_protocol.Python.Base64.{b64encode}
use sip_protocol.Python.Hex.{hex}
use sip_protocol.Crypto.Suite.{
  Suite, en, zh, suite_text, validate_suite, validate_suite-suite_text, negotiate_suite,
  negotiate_suite_same, negotiate_suite_agreed,
}
use sip_protocol.Crypto.Primitives.{Bytes, Primitives}
use sip_protocol.Crypto.Hkdf.{Keys, derive_keys_triple_dh}
use sip_protocol.Crypto.Dh.{PrivateKey, PublicKey, generate_keypair, serialize_public_key}
use sip_protocol.Protocol.Message.{protocol_version, suite_field}
use sip_protocol.Protocol.Handshake.{
  Inputs, Hello, Auth, AgentState, Remote, is_version, is_fresh, open_message, read_key, read_nonce,
  auth_bytes, identity_pair, exchange_three, initiate_handshake, respond_handshake,
}

-- The public keys of a state, as a message carries them.
pub record Carries (identity_pub ephemeral_pub nonce : Option (List ℕ)) (state : AgentState)
    : Type 0 where
  pub identity_raw : Bytes
  pub ephemeral_raw : Bytes
  pub serialize_identity : serialize_public_key state.identity_public_key ≡ ok identity_raw
  pub serialize_ephemeral : serialize_public_key state.ephemeral_public_key ≡ ok ephemeral_raw
  pub identity_field : identity_pub ≡ some (hex identity_raw)
  pub ephemeral_field : ephemeral_pub ≡ some (hex ephemeral_raw)
  pub nonce_field : nonce ≡ some (hex state.nonce)

-- The opening checks return the local suite, and pass where the message names it and is fresh.
pub open_message-local :
    (now : ℕ) (version suite : Option (List ℕ)) (timestamp : Option ℕ) (s s' : Suite)
    → open_message now version suite timestamp (suite_text s) ≡ ok s'
    → s' ≡ s
unfolding open_message
open_message-local now version suite timestamp s s' h =
    unbind (guard (is_version version) version_negotiation) h λ u hu h1.
      unbind (negotiate_suite (get_default suite (suite_text en)) (suite_text s)) h1 λ agreed ha h2.
        unbind (require timestamp key_error) h2 λ sent hsent h3.
          unbind (guard (is_fresh now sent) value_error) h3 λ v hv h4.
            let (offered, named) =
              negotiate_suite_agreed (get_default suite (suite_text en)) (suite_text s) agreed ha in
            ok-injective (
              sym h4
              ∙ sym (validate_suite-suite_text agreed)
              ∙ ap validate_suite (sym named)
              ∙ validate_suite-suite_text s)

pub get_default-suite_field :
    (s : Suite) → get_default (suite_field (suite_text s)) (suite_text en) ≡ suite_text s
unfolding suite_field suite_text list_eq
get_default-suite_field en = refl
get_default-suite_field zh = refl

pub open_message-accepts :
    (now sent : ℕ) (s : Suite)
    → is_fresh now sent ≡ true
    → open_message now
        (some protocol_version)
        (suite_field (suite_text s))
        (some sent)
        (suite_text s)
      ≡ ok s
unfolding open_message is_version
open_message-accepts now sent s h =
    rw (list_eq_refl protocol_version, get_default-suite_field s, negotiate_suite_same s, h)

module _ (p : Primitives) (inputs : Inputs) (psk : Bytes) (private : Option PrivateKey)
    (public : Option PublicKey) (s : Suite) where
  pub record Initiated (hello : Hello) (state : AgentState) : Type 0 where
    pub version_field : hello.version ≡ some protocol_version
    pub suite_eq : hello.suite ≡ suite_field (suite_text s)
    pub carries : Carries hello.identity_pub hello.ephemeral_pub hello.nonce state
    pub psk_eq : state.psk ≡ psk
    pub nonce_eq : state.nonce ≡ inputs.nonce
    pub state_suite : state.suite ≡ suite_text s
    pub identity :
        identity_pair p inputs.identity_draws private public s
        ≡ ok (state.identity_private_key, state.identity_public_key)
    pub ephemeral :
        generate_keypair p inputs.ephemeral_draws s
        ≡ ok (state.ephemeral_private_key, state.ephemeral_public_key)

  pub initiate_handshake-Initiated :
      (hello : Hello) (state : AgentState)
      → initiate_handshake p inputs psk private public (suite_text s) ≡ ok (hello, state)
      → Initiated hello state
  unfolding initiate_handshake
  initiate_handshake-Initiated hello state h = unbind (validate_suite (suite_text s)) h λ s' hs h1.
      let same : s' ≡ s = ok-injective (sym hs ∙ validate_suite-suite_text s) in
      unbind (identity_pair p inputs.identity_draws private public s') h1 λ ids hids h2.
        unbind (generate_keypair p inputs.ephemeral_draws s') h2 λ ephs hephs h3.
          unbind (serialize_public_key ids.1) h3 λ identity_raw hir h4.
            unbind (serialize_public_key ephs.1) h4 λ ephemeral_raw her h5.
              subst (λ t. Initiated t.0 t.1) (ok-injective h5)
                record {
                  version_field = refl;
                  suite_eq = refl;
                  carries = record {
                    identity_raw = identity_raw;
                    ephemeral_raw = ephemeral_raw;
                    serialize_identity = hir;
                    serialize_ephemeral = her;
                    identity_field = refl;
                    ephemeral_field = refl;
                    nonce_field = refl;
                  };
                  psk_eq = refl;
                  nonce_eq = refl;
                  state_suite = refl;
                  identity =
                      subst (λ t. identity_pair p inputs.identity_draws private public t ≡ ok ids)
                        same hids;
                  ephemeral =
                      subst (λ t. generate_keypair p inputs.ephemeral_draws t ≡ ok ephs) same hephs;
                }

  -- The responder's side, with the three secrets that it computed.
  pub record Responded (hello : Hello) (auth : Auth) (state : AgentState) (remote : Remote)
      (keys : Keys) : Type 0 where
    pub version_field : auth.version ≡ some protocol_version
    pub suite_eq : auth.suite ≡ suite_field (suite_text s)
    pub timestamp_field : auth.timestamp ≡ some inputs.made_at
    pub carries : Carries auth.identity_pub auth.ephemeral_pub auth.nonce state
    pub nonce_eq : state.nonce ≡ inputs.nonce
    pub identity :
        identity_pair p inputs.identity_draws private public s
        ≡ ok (state.identity_private_key, state.identity_public_key)
    pub ephemeral :
        generate_keypair p inputs.ephemeral_draws s
        ≡ ok (state.ephemeral_private_key, state.ephemeral_public_key)
    pub read_identity : read_key hello.identity_pub s ≡ ok remote.identity_pub
    pub read_ephemeral : read_key hello.ephemeral_pub s ≡ ok remote.ephemeral_pub
    pub read_remote_nonce : read_nonce hello.nonce ≡ ok remote.nonce
    pub shared_1 : Bytes
    pub shared_2 : Bytes
    pub shared_3 : Bytes
    pub exchanged :
        exchange_three p state.identity_private_key state.ephemeral_private_key remote.identity_pub
          remote.ephemeral_pub
        ≡ ok (shared_1, shared_2, shared_3)
    pub keys_eq :
        keys
        ≡ derive_keys_triple_dh p shared_2 shared_1 shared_3
            (p.argon2_hash psk)
            remote.nonce
            state.nonce
            s
    pub signature_field :
        auth.signature
        ≡ some (
            b64encode (
              p.hmac_digest s keys.auth_key
                (auth_bytes (hex carries.ephemeral_raw) (hex state.nonce) inputs.made_at)))

  pub respond_handshake-Responded :
      (hello : Hello) (auth : Auth) (state : AgentState) (remote : Remote) (keys : Keys)
      → respond_handshake p inputs hello psk private public (suite_text s)
        ≡ ok (auth, state, remote, keys)
      → Responded hello auth state remote keys
  unfolding respond_handshake
  respond_handshake-Responded hello auth state remote keys h =
      unbind (open_message inputs.read_at hello.version hello.suite hello.timestamp (suite_text s))
        h
        λ s' hs h1.
          let same =
            open_message-local inputs.read_at hello.version hello.suite hello.timestamp s s' hs in
          unbind (read_key hello.identity_pub s') h1 λ remote_identity hri h2.
            unbind (read_key hello.ephemeral_pub s') h2 λ remote_ephemeral hre h3.
              unbind (read_nonce hello.nonce) h3 λ remote_nonce hrn h4.
                unbind (identity_pair p inputs.identity_draws private public s') h4 λ ids hids h5.
                  unbind (generate_keypair p inputs.ephemeral_draws s') h5 λ ephs hephs h6.
                    unbind (serialize_public_key ids.1) h6 λ identity_raw hir h7.
                      unbind (serialize_public_key ephs.1) h7 λ ephemeral_raw her h8.
                        unbind (exchange_three p ids.0 ephs.0 remote_identity remote_ephemeral) h8
                          λ secrets hsecrets h9.
                            subst (λ t. Responded hello t.0 t.1 t.2 t.3) (ok-injective h9)
                              record {
                                version_field = refl;
                                suite_eq = ap (λ t. suite_field (suite_text t)) same;
                                timestamp_field = refl;
                                carries = record {
                                  identity_raw = identity_raw;
                                  ephemeral_raw = ephemeral_raw;
                                  serialize_identity = hir;
                                  serialize_ephemeral = her;
                                  identity_field = refl;
                                  ephemeral_field = refl;
                                  nonce_field = refl;
                                };
                                nonce_eq = refl;
                                identity =
                                    subst
                                      (λ t.
                                        identity_pair p inputs.identity_draws private public t
                                        ≡ ok ids)
                                      same hids;
                                ephemeral =
                                    subst
                                      (λ t. generate_keypair p inputs.ephemeral_draws t ≡ ok ephs)
                                      same hephs;
                                read_identity =
                                    subst (λ t. read_key hello.identity_pub t ≡ ok remote_identity)
                                      same hri;
                                read_ephemeral =
                                    subst
                                      (λ t. read_key hello.ephemeral_pub t ≡ ok remote_ephemeral)
                                      same hre;
                                read_remote_nonce = hrn;
                                shared_1 = secrets.0;
                                shared_2 = secrets.1;
                                shared_3 = secrets.2;
                                exchanged = hsecrets;
                                keys_eq =
                                    ap
                                      (λ t.
                                        derive_keys_triple_dh p secrets.1 secrets.0 secrets.2
                                          (p.argon2_hash psk) remote_nonce inputs.nonce t)
                                      same;
                                signature_field =
                                    ap
                                      (λ t. some (
                                        b64encode (
                                          p.hmac_digest t
                                            (derive_keys_triple_dh p secrets.1 secrets.0 secrets.2
                                              (p.argon2_hash psk) remote_nonce inputs.nonce
                                              s').auth_key
                                            (auth_bytes (hex ephemeral_raw) (hex inputs.nonce)
                                              inputs.made_at))))
                                      same;
                              }
