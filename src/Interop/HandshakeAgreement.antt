-- ===== src/Interop/HandshakeAgreement.antt =====
-- Handshakes between the library and the reference, in the suite EN.
use mathlib.Core.Path.{subst}
use sip_protocol.Prelude.{
  ℕ, ◌≡◌, refl, ap, sym, ◌∙◌, List, true, Option, some, ok, guard, require, get_default, unbind,
  ok-injective, guard-eq-ok, value_error, key_error,
}
use sip_protocol.Python.Base64.{b64encode}
use sip_protocol.Python.Bytes.{IsBytes}
use sip_protocol.Python.Hex.{hex, fromhex}
use sip_protocol.Crypto.Suite.{en, suite_text}
use sip_protocol.Crypto.Primitives.{Bytes, Primitives}
use sip_protocol.Crypto.Sm3.{Sm3}
use sip_protocol.Crypto.Hkdf.{Keys, derive_keys_triple_dh}
use sip_protocol.Crypto.Dh.{dh_exchange, serialize_public_key}
use sip_protocol.Protocol.Message.{protocol_version}
use sip_protocol.Protocol.Handshake.{
  Inputs, Hello, Auth, AgentState, Remote, Session, is_version, is_fresh, open_message,
  exchange_three, initiate_handshake, respond_handshake, complete_handshake,
}
use sip_protocol.Protocol.Handshake.Agreement.{
  held_private, held_public, complete_handshake-respond,
}
use sip_protocol.Interop.Hkdf.{hmac_digest}
use sip_protocol.Interop.Handshake.{
  RefInputs, accept_suite, agree_suite, zh_field, check_time, auth_transcript, choose_nonce,
  choose_pair, dh_for_suite, derive_session_keys, responder_handle_hello,
}
use sip_protocol.Interop.Documented.{AreDocumented, hmac_digest-agrees}
use sip_protocol.Interop.MessagesAgreement.{zh_field-suite_field, accept_suite-suite_text}
use sip_protocol.Interop.HandshakeParts.{
  auth_transcript-auth_bytes, as_inputs, choose_pair-identity, choose_pair-ephemeral,
  dh_for_suite-ok, derive_session_keys-agrees, opened, key_read, nonce_read,
}

module _ (p : Primitives) (sm3 : Sm3) where
  -- What the reference answers from its parts, the library answers too.
  answered :
      AreDocumented p sm3
      → (i : RefInputs) (hello : Hello) (psk e identity nonce_i : Bytes)
        (identity_text ephemeral_text nonce_text : List ℕ) (id_pair eph_pair : Bytes × Bytes)
        (k1 k2 k3 : Bytes)
      → open_message i.read_at hello.version hello.suite hello.timestamp (suite_text en) ≡ ok en
      → require hello.identity_pub key_error ≡ ok identity_text
      → fromhex identity_text ≡ ok identity
      → require hello.ephemeral_pub key_error ≡ ok ephemeral_text
      → fromhex ephemeral_text ≡ ok e
      → require hello.nonce key_error ≡ ok nonce_text
      → fromhex nonce_text ≡ ok nonce_i
      → choose_pair p i.identity_priv i.identity_draws en ≡ ok id_pair
      → choose_pair p i.ephemeral_priv i.ephemeral_draws en ≡ ok eph_pair
      → IsBytes (choose_nonce i.nonce i.nonce_draw)
      → dh_for_suite p eph_pair.0 identity en ≡ ok k1
      → dh_for_suite p id_pair.0 e en ≡ ok k2
      → dh_for_suite p eph_pair.0 e en ≡ ok k3
      → (agent_state : AgentState) × (remote : Remote) × (respond_handshake p
            (as_inputs i)
            hello
            psk
            (held_private i.identity_priv)
            (held_public p i.identity_priv)
            (suite_text en)
          ≡ ok (
            record {
              version = some protocol_version;
              timestamp = some i.made_at;
              identity_pub = some (hex id_pair.1);
              ephemeral_pub = some (hex eph_pair.1);
              nonce = some (hex (choose_nonce i.nonce i.nonce_draw));
              signature = some (
                  b64encode (
                    hmac_digest p sm3
                      (derive_keys_triple_dh p k1 k2 k3
                        (p.argon2_hash psk)
                        nonce_i
                        (choose_nonce i.nonce i.nonce_draw)
                        en).auth_key
                      (auth_transcript
                        (hex eph_pair.1)
                        (hex (choose_nonce i.nonce i.nonce_draw))
                        i.made_at)
                      en));
              suite = zh_field en;
            },
            agent_state,
            remote,
            derive_keys_triple_dh p k1 k2 k3
                (p.argon2_hash psk)
                nonce_i
                (choose_nonce i.nonce i.nonce_draw)
                en,
          ))
  unfolding respond_handshake exchange_three dh_exchange serialize_public_key
  answered d i hello psk e identity nonce_i identity_text ephemeral_text nonce_text id_pair eph_pair
        k1 k2 k3 ho t1 t2 e1 e2 n1 n2 hid heph hnb x1 x2 x3 =
      let (len1, y1) = dh_for_suite-ok p eph_pair.0 identity k1 x1 in
      let (len2, y2) = dh_for_suite-ok p id_pair.0 e k2 x2 in
      let (len3, y3) = dh_for_suite-ok p eph_pair.0 e k3 x3 in
      let (id_eq, id_ok) =
        choose_pair-identity p i.identity_priv i.identity_draws id_pair.0 id_pair.1 hid in
      let (public_eq, eph_ok) =
        choose_pair-ephemeral p i.ephemeral_priv i.ephemeral_draws eph_pair.0 eph_pair.1 heph in
      let hb = subst IsBytes (sym public_eq) (p.x25519_public-IsBytes eph_pair.0) in
      rw
        (
          ho,
          key_read hello.identity_pub identity_text identity t1 t2 len1,
          key_read hello.ephemeral_pub ephemeral_text e e1 e2 len2,
          nonce_read hello.nonce nonce_text nonce_i n1 n2,
          id_ok,
          eph_ok,
          y2,
          y1,
          y3,
          auth_transcript-auth_bytes eph_pair.1 (choose_nonce i.nonce i.nonce_draw) i.made_at hb
              hnb,
          zh_field-suite_field en,
          hmac_digest-agrees d,
        )
        (_, _, refl)

  -- With the primitives as documented, in the suite EN, where the reference checks times and answers a Hello with nonces of bytes, the
  -- library answers it with the same Auth, signature included, and derives the same keys.
  pub respond_handshake-responder_handle_hello :
      AreDocumented p sm3
      → (i : RefInputs) (hello : Hello) (psk : Bytes) (auth : Auth) (keys : Keys)
      → i.check_timestamp ≡ true
      → IsBytes (choose_nonce i.nonce i.nonce_draw)
      → responder_handle_hello p sm3 i hello psk (suite_text en) ≡ ok (auth, keys)
      → (agent_state : AgentState) × (remote : Remote) × (respond_handshake p
            (as_inputs i)
            hello
            psk
            (held_private i.identity_priv)
            (held_public p i.identity_priv)
            (suite_text en)
          ≡ ok (auth, agent_state, remote, keys))
  unfolding responder_handle_hello
  respond_handshake-responder_handle_hello d i hello psk auth keys checks hnb h =
      let nonce_r = choose_nonce i.nonce i.nonce_draw in
      unbind (accept_suite (suite_text en)) h λ s hs h1.
        let same : s ≡ en = ok-injective (sym hs ∙ accept_suite-suite_text en) in
        let h1' = rw same at h1 in
        unbind (guard (is_version hello.version) value_error) h1' λ u1 hv h2.
          unbind (agree_suite (get_default hello.suite (suite_text en)) en) h2 λ u2 ha h3.
            unbind (check_time i.check_timestamp i.read_at hello.timestamp) h3 λ u3 ht h4.
              let ho =
                opened i.read_at hello.version hello.suite hello.timestamp
                  (guard-eq-ok (is_version hello.version) value_error hv) ha (rw checks at ht) in
              unbind (require hello.ephemeral_pub key_error) h4 λ ephemeral_text e1 h5.
                unbind (fromhex ephemeral_text) h5 λ e e2 h6.
                  unbind (require hello.nonce key_error) h6 λ nonce_text n1 h7.
                    unbind (fromhex nonce_text) h7 λ nonce_i n2 h8.
                      unbind (choose_pair p i.identity_priv i.identity_draws en) h8
                        λ id_pair hid h9.
                          unbind (choose_pair p i.ephemeral_priv i.ephemeral_draws en) h9
                            λ eph_pair heph h10.
                              unbind (require hello.identity_pub key_error) h10
                                λ identity_text t1 h11.
                                  unbind (fromhex identity_text) h11 λ identity t2 h12.
                                    unbind (dh_for_suite p eph_pair.0 identity en) h12 λ k1 x1 h13.
                                      unbind (dh_for_suite p id_pair.0 e en) h13 λ k2 x2 h14.
                                        unbind (dh_for_suite p eph_pair.0 e en) h14 λ k3 x3 h15.
                                          unbind
                                            (derive_session_keys p sm3 k1 k2 k3 psk nonce_i nonce_r
                                              en)
                                            h15
                                            λ found hk h16.
                                              let keys_eq : found
                                                  ≡ derive_keys_triple_dh p k1 k2 k3
                                                      (p.argon2_hash psk) nonce_i nonce_r en =
                                                ok-injective (
                                                  sym hk
                                                  ∙ derive_session_keys-agrees p sm3 d k1 k2 k3 psk
                                                      nonce_i nonce_r en) in
                                              let (agent_state, remote, done) =
                                                answered d i hello psk e identity nonce_i
                                                  identity_text ephemeral_text nonce_text id_pair
                                                  eph_pair k1 k2 k3 ho t1 t2 e1 e2 n1 n2 hid heph
                                                  hnb x1 x2 x3 in
                                              (
                                                agent_state,
                                                remote,
                                                done
                                                    ∙ ap
                                                        (λ (t : Auth × Keys).
                                                          ok (t.0, agent_state, remote, t.1))
                                                        (ok-injective (rw keys_eq at h16)),
                                              )

  -- Where the primitives are documented as RFC 2104 and RFC 5869 have them, the library opens a
  -- handshake and the reference, which checks times, answers, in the suite EN, with nonces of bytes:
  -- where the answer is fresh when the library reads it, the library completes the handshake with
  -- the reference's keys.
  pub complete_handshake-responder_handle_hello :
      AreDocumented p sm3
      → (psk : Bytes) (inputs : Inputs) (i : RefInputs) (held : Option Bytes) (hello : Hello)
        (agent_state : AgentState) (auth : Auth) (keys : Keys) (read_at made_at : ℕ)
      → i.check_timestamp ≡ true
      → IsBytes inputs.nonce
      → IsBytes (choose_nonce i.nonce i.nonce_draw)
      → initiate_handshake p inputs psk (held_private held) (held_public p held) (suite_text en)
        ≡ ok (hello, agent_state)
      → responder_handle_hello p sm3 i hello psk (suite_text en) ≡ ok (auth, keys)
      → is_fresh read_at i.made_at ≡ true
      → (session : Session) × (complete_handshake p read_at made_at auth agent_state
          ≡ ok (keys, session))
        × (session.keys ≡ keys)
  complete_handshake-responder_handle_hello d psk inputs i held hello agent_state auth keys read_at
        made_at checks hna hnb ha hb fresh =
      let (state_b, remote, answer) =
        respond_handshake-responder_handle_hello d i hello psk auth keys checks hnb hb in
      complete_handshake-respond p psk inputs (as_inputs i) held i.identity_priv hello agent_state
        state_b auth remote keys read_at made_at hna hnb ha answer fresh
