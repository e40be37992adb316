-- ===== src/Protocol/Handshake/Accepted.antt =====
-- Which answers to a handshake the initiator accepts.
use mathlib.Core.Path.{subst}
use sip_protocol.Prelude.{
  ◌↔◌, ◌≤◌, ◌+◌, true, arith, unbind, none, version_negotiation, guard, require, get_default,
  key_error, ℕ, ◌≡◌, refl, ap, ◌∙◌, sym, List, true, Option, none, some, ok, guard, require,
  key_error, value_error, unbind, ok-injective, guard-eq-ok, list_eq, list_eq_refl, list_eq-eq,
  require-eq-ok,
}
use sip_protocol.Python.Base64.{b64decode}
use sip_protocol.Protocol.Message.{protocol_version}
use sip_protocol.Crypto.Suite.{
  negotiate_suite, negotiate_suite_same, negotiate_suite_agreed, Suite, en, suite_text,
}
use sip_protocol.Crypto.Primitives.{Bytes, Primitives}
use sip_protocol.Crypto.Hkdf.{Keys, derive_keys_triple_dh}
use sip_protocol.Crypto.Dh.{PublicKey}
use sip_protocol.Protocol.Handshake.{
  is_version, Auth, AgentState, Session, is_fresh, open_message, read_key, read_nonce, auth_bytes,
  exchange_three, complete_handshake,
}

module _ (p : Primitives) where
  -- The initiator accepts an answer whose parts can be read and whose signature is the right one.
  pub accepted :
      (read_at made_at sent : ℕ) (auth : Auth) (state : AgentState) (identity ephemeral : PublicKey)
      (nonce ephemeral_text nonce_text signature_text r1 r2 r3 : Bytes) (keys : Keys) (s : Suite)
      → open_message read_at auth.version auth.suite auth.timestamp state.suite ≡ ok s
      → read_key auth.identity_pub s ≡ ok identity
      → read_key auth.ephemeral_pub s ≡ ok ephemeral
      → read_nonce auth.nonce ≡ ok nonce
      → exchange_three p state.identity_private_key state.ephemeral_private_key identity ephemeral
        ≡ ok (r1, r2, r3)
      → derive_keys_triple_dh p r1 r2 r3 (p.argon2_hash state.psk) state.nonce nonce s ≡ keys
      → auth.ephemeral_pub ≡ some ephemeral_text
      → auth.nonce ≡ some nonce_text
      → auth.timestamp ≡ some sent
      → auth.signature ≡ some signature_text
      → b64decode signature_text
        ≡ ok (p.hmac_digest s keys.auth_key (auth_bytes ephemeral_text nonce_text sent))
      → (session : Session) × (complete_handshake p read_at made_at auth state ≡ ok (keys, session))
        × (session.keys ≡ keys)
  unfolding complete_handshake
  accepted read_at made_at sent auth state identity ephemeral nonce ephemeral_text nonce_text
        signature_text r1 r2 r3 keys s ho hi he hn hx hk fe fn ft fs hd =
      let signature = p.hmac_digest s keys.auth_key (auth_bytes ephemeral_text nonce_text sent) in
      rw (ho, hi, he, hn, fs, hd, hx, fe, fn, ft, hk, list_eq_refl signature) (_, refl, refl)

  -- An answer that the initiator accepts: of the protocol's version and of its own suite, not more
  -- than five minutes from its clock, with keys and a nonce that can be read, and signed under the key
  -- that is derived from the three exchanges, over the answer's own ephemeral key, nonce and time.
  pub record IsAcceptable (read_at : ℕ) (auth : Auth) (state : AgentState) (keys : Keys)
      : Type 0 where
    pub suite : Suite
    pub sent : ℕ
    pub identity : PublicKey
    pub ephemeral : PublicKey
    pub nonce : Bytes
    pub shared : Bytes × Bytes × Bytes
    pub ephemeral_text : List ℕ
    pub nonce_text : List ℕ
    pub signature_text : List ℕ
    pub version_field : auth.version ≡ some protocol_version
    pub own_suite : state.suite ≡ suite_text suite
    pub named_suite : get_default auth.suite (suite_text en) ≡ suite_text suite
    pub timestamp_field : auth.timestamp ≡ some sent
    pub not_old : read_at ≤ sent + 300000
    pub not_early : sent ≤ read_at + 300000
    pub ephemeral_field : auth.ephemeral_pub ≡ some ephemeral_text
    pub nonce_field : auth.nonce ≡ some nonce_text
    pub signature_field : auth.signature ≡ some signature_text
    pub identity_eq : read_key auth.identity_pub suite ≡ ok identity
    pub ephemeral_eq : read_key auth.ephemeral_pub suite ≡ ok ephemeral
    pub nonce_eq : read_nonce auth.nonce ≡ ok nonce
    pub exchanged :
        exchange_three p state.identity_private_key state.ephemeral_private_key identity ephemeral
        ≡ ok shared
    pub keys_eq :
        derive_keys_triple_dh p shared.0 shared.1 shared.2
          (p.argon2_hash state.psk)
          state.nonce
          nonce
          suite
        ≡ keys
    pub signed :
        b64decode signature_text
        ≡ ok (p.hmac_digest suite keys.auth_key (auth_bytes ephemeral_text nonce_text sent))

  version_of : (v : Option (List ℕ)) → is_version v ≡ true → v ≡ some protocol_version
  unfolding is_version
  version_of none h = absurd (cc)
  version_of (some v) h = ap some (list_eq-eq v protocol_version h)

  acceptable-opens :
      (read_at sent : ℕ) (version named : Option (List ℕ)) (timestamp : Option ℕ) (own : List ℕ)
      (s : Suite)
      → version ≡ some protocol_version
      → own ≡ suite_text s
      → get_default named (suite_text en) ≡ suite_text s
      → timestamp ≡ some sent
      → read_at ≤ sent + 300000
      → sent ≤ read_at + 300000
      → open_message read_at version named timestamp own ≡ ok s
  unfolding open_message is_version
  acceptable-opens read_at sent version named timestamp own s hv ho hn ht old early =
      let fresh : is_fresh read_at sent ≡ true = unfold is_fresh in ground (arith, old, early) in
      rw (hv, ho, hn, ht, list_eq_refl protocol_version, negotiate_suite_same s, fresh) refl

  -- What the opening checks have seen to.
  opened :
      (read_at : ℕ) (version named : Option (List ℕ)) (timestamp : Option ℕ) (own : List ℕ)
      (s : Suite)
      → open_message read_at version named timestamp own ≡ ok s
      → (version ≡ some protocol_version)
        × (own ≡ suite_text s)
        × (get_default named (suite_text en) ≡ suite_text s)
        × ((sent : ℕ)
            → timestamp ≡ some sent
            → (read_at ≤ sent + 300000) × (sent ≤ read_at + 300000))
  unfolding open_message is_fresh
  opened read_at version named timestamp own s h =
      unbind (guard (is_version version) version_negotiation) h λ u hv h1.
        unbind (negotiate_suite (get_default named (suite_text en)) own) h1 λ agreed ha h2.
          unbind (require timestamp key_error) h2 λ sent ht h3.
            unbind (guard (is_fresh read_at sent) value_error) h3 λ v hf h4.
              let same : agreed ≡ s = ok-injective h4 in
              let (offered, local) =
                negotiate_suite_agreed (get_default named (suite_text en)) own agreed ha in
              let fresh : is_fresh read_at sent ≡ true =
                guard-eq-ok (is_fresh read_at sent) value_error hf in
              let near : (read_at ≤ sent + 300000) × (sent ≤ read_at + 300000) =
                ground (arith, fresh) in
              (
                version_of version (guard-eq-ok (is_version version) version_negotiation hv),
                local ∙ ap suite_text same,
                offered ∙ ap suite_text same,
                λ other e.
                    let told = require-eq-ok timestamp key_error ht in
                    let equal : sent ≡ other = ap (λ o. get_default o sent) (sym told ∙ e) in
                    subst (λ n. (read_at ≤ n + 300000) × (n ≤ read_at + 300000)) equal near,
              )

  checked :
      (read_at made_at : ℕ) (auth : Auth) (state : AgentState) (keys : Keys) (session : Session)
      → complete_handshake p read_at made_at auth state ≡ ok (keys, session)
      → IsAcceptable read_at auth state keys
  unfolding complete_handshake
  checked read_at made_at auth state keys session h =
      unbind (open_message read_at auth.version auth.suite auth.timestamp state.suite) h λ s hs h1.
        unbind (read_key auth.identity_pub s) h1 λ identity hi h2.
          unbind (read_key auth.ephemeral_pub s) h2 λ ephemeral he h3.
            unbind (read_nonce auth.nonce) h3 λ nonce hn h4.
              unbind (require auth.signature key_error) h4 λ signature_text ht h5.
                unbind (b64decode signature_text) h5 λ signature hd h6.
                  unbind
                    (exchange_three p state.identity_private_key state.ephemeral_private_key
                      identity ephemeral)
                    h6
                    λ secrets hx h7.
                      unbind (require auth.ephemeral_pub key_error) h7 λ ephemeral_text fe h8.
                        unbind (require auth.nonce key_error) h8 λ nonce_text fn h9.
                          unbind (require auth.timestamp key_error) h9 λ sent ft h10.
                            let derived =
                              derive_keys_triple_dh p secrets.0 secrets.1 secrets.2
                                (p.argon2_hash state.psk) state.nonce nonce s in
                            let expected =
                              p.hmac_digest s derived.auth_key
                                (auth_bytes ephemeral_text nonce_text sent) in
                            unbind (guard (list_eq signature expected) value_error) h10 λ u hu h11.
                              let same : derived ≡ keys = ap (λ t. t.0) (ok-injective h11) in
                              let right =
                                list_eq-eq signature expected
                                  (guard-eq-ok (list_eq signature expected) value_error hu) in
                              let (version, own, named, near) =
                                opened read_at auth.version auth.suite auth.timestamp state.suite s
                                  hs in
                              let times = near sent (require-eq-ok auth.timestamp key_error ft) in
                              record {
                                suite = s;
                                sent = sent;
                                identity = identity;
                                ephemeral = ephemeral;
                                nonce = nonce;
                                shared = secrets;
                                ephemeral_text = ephemeral_text;
                                nonce_text = nonce_text;
                                signature_text = signature_text;
                                version_field = version;
                                own_suite = own;
                                named_suite = named;
                                timestamp_field = require-eq-ok auth.timestamp key_error ft;
                                not_old = times.0;
                                not_early = times.1;
                                ephemeral_field = require-eq-ok auth.ephemeral_pub key_error fe;
                                nonce_field = require-eq-ok auth.nonce key_error fn;
                                signature_field = require-eq-ok auth.signature key_error ht;
                                identity_eq = hi;
                                ephemeral_eq = he;
                                nonce_eq = hn;
                                exchanged = hx;
                                keys_eq = same;
                                signed =
                                    hd
                                    ∙ ap ok right
                                    ∙ ap
                                        (λ (k : Keys). ok (
                                          p.hmac_digest s k.auth_key
                                            (auth_bytes ephemeral_text nonce_text sent)))
                                        same;
                              }

  -- The initiator accepts an answer, with these keys, exactly where the answer is of the protocol's
  -- version and of its own suite, its time is at most five minutes from the initiator's clock, its keys
  -- and its nonce can be read, these keys are those that are derived from the three exchanges, and its
  -- signature is the HMAC of its own ephemeral key, nonce and time under the derived authentication
  -- key. The session then has these keys.
  pub complete_handshake_checked :
      (read_at made_at : ℕ) (auth : Auth) (state : AgentState) (keys : Keys)
      → ((session : Session) × (complete_handshake p read_at made_at auth state
            ≡ ok (keys, session))
          × (session.keys ≡ keys))
        ↔ IsAcceptable read_at auth state keys
  complete_handshake_checked read_at made_at auth state keys = (
    λ (session, h, same_keys). checked read_at made_at auth state keys session h,
    λ a.
        accepted read_at made_at a.sent auth state a.identity a.ephemeral a.nonce a.ephemeral_text
          a.nonce_text a.signature_text a.shared.0 a.shared.1 a.shared.2 keys a.suite
          (acceptable-opens read_at a.sent auth.version auth.suite auth.timestamp state.suite
            a.suite a.version_field a.own_suite a.named_suite a.timestamp_field a.not_old
            a.not_early)
          a.identity_eq a.ephemeral_eq a.nonce_eq a.exchanged a.keys_eq a.ephemeral_field
          a.nonce_field a.timestamp_field a.signature_field a.signed,
  )
