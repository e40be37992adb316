-- ===== src/Interop/HandshakeParts.antt =====
-- The parts of a handshake in the library and in the reference: transcripts, draws of keys, exchanges
-- of keys, the key schedule and the fields of a message.
use sip_protocol.Prelude.{
  ℕ, ◌/◌, ◌%◌, ◌<◌, ◌≡◌, refl, ap, sym, ◌∙◌, List, [], ◌∷◌, ◌++◌, true, Option, none, some, ok,
  guard, require, get_default, unbind, ok-injective, guard-eq-ok, list_eq, list_eq-eq, length, ◌==◌,
  arith, codes, value_error, key_error,
}
use sip_protocol.Python.Bytes.{IsBytes}
use sip_protocol.Python.Hex.{hex, hex_digit, fromhex}
use sip_protocol.Python.Json.{escape, escape_char, dump_value, dump_fields, dumps}
use sip_protocol.Crypto.Suite.{Suite, en, zh, suite_text, negotiate_suite, negotiate_suite_same}
use sip_protocol.Crypto.Primitives.{Bytes, Primitives}
use sip_protocol.Crypto.Sm3.{Sm3}
use sip_protocol.Crypto.Hkdf.{split_keys, hkdf, derive_keys_triple_dh}
use sip_protocol.Crypto.Dh.{
  x25519_private, x25519_key, generate_keypair, first_draw, parse_public_key, parse_raw,
}
use sip_protocol.Protocol.Handshake.{
  Inputs, is_version, is_fresh, open_message, read_key, read_nonce, auth_bytes, identity_pair,
}
use sip_protocol.Protocol.Handshake.Agreement.{held_private, held_public}
use sip_protocol.Interop.Handshake.{
  RefInputs, accept_suite, agree_suite, check_time, auth_transcript, choose_nonce, generate_pair,
  pub_of, choose_pair, x25519_dh, dh_for_suite, slice_keys, derive_session_keys,
}
use sip_protocol.Interop.Documented.{hkdf_for_suite-agrees, AreDocumented}

hex_digit_plain : (d : ℕ) → d < 16 → escape_char (hex_digit d) ≡ hex_digit d ∷ []
unfolding escape_char hex_digit
hex_digit_plain d h = ground (arith, h)

escape-hex : (bs : Bytes) → IsBytes bs → escape (hex bs) ≡ hex bs
unfolding escape hex
escape-hex [] h = refl
escape-hex (b ∷ bs) h =
    rw
      (
        escape,
        hex_digit_plain (b / 16) (omega (arith, h.0)),
        hex_digit_plain (b % 16) (omega arith),
        escape-hex bs h.1,
      )
      refl

append_assoc : (xs ys zs : Bytes) → (xs ++ ys) ++ zs ≡ xs ++ (ys ++ zs)
append_assoc [] ys zs = refl
append_assoc (x ∷ xs) ys zs = ap (λ t. x ∷ t) (append_assoc xs ys zs)

-- What the reference writes out by hand is what json.dumps writes.
pub auth_transcript-auth_bytes :
    (ephemeral nonce : Bytes) (timestamp : ℕ)
    → IsBytes ephemeral
    → IsBytes nonce
    → auth_transcript (hex ephemeral) (hex nonce) timestamp
      ≡ auth_bytes (hex ephemeral) (hex nonce) timestamp
unfolding auth_transcript auth_bytes dumps dump_fields dump_value escape escape_char
auth_transcript-auth_bytes ephemeral nonce timestamp he hn =
    rw
      (
        auth_bytes,
        escape-hex ephemeral he,
        escape-hex nonce hn,
        append_assoc (hex ephemeral) (34 ∷ []),
        append_assoc (hex nonce) (34 ∷ []),
      )
      refl

-- the draws of the ephemeral key, where a given one comes first
abbrev pub drawn : Option Bytes → List Bytes → List Bytes
drawn none draws = draws
drawn (some private) draws = private ∷ draws

-- The same draws and times, as the library takes them.
abbrev pub as_inputs : RefInputs → Inputs
as_inputs i = record {
  identity_draws = i.identity_draws;
  ephemeral_draws = drawn i.ephemeral_priv i.ephemeral_draws;
  nonce = choose_nonce i.nonce i.nonce_draw;
  read_at = i.read_at;
  made_at = i.made_at;
}

agree_suite-negotiate :
    (offered : List ℕ) (s : Suite)
    → agree_suite offered s ≡ ok tt
    → negotiate_suite offered (suite_text s) ≡ ok s
unfolding agree_suite
agree_suite-negotiate offered s h = unbind (accept_suite offered) h λ t ht h1.
    let same =
      list_eq-eq offered (suite_text s)
        (guard-eq-ok (list_eq offered (suite_text s)) value_error h1) in
    ap (λ x. negotiate_suite x (suite_text s)) same ∙ negotiate_suite_same s

-- The opening checks of the library pass where those of the reference do.
pub opened :
    (now : ℕ) (version suite : Option (List ℕ)) (timestamp : Option ℕ)
    → is_version version ≡ true
    → agree_suite (get_default suite (suite_text en)) en ≡ ok tt
    → check_time true now timestamp ≡ ok tt
    → open_message now version suite timestamp (suite_text en) ≡ ok en
unfolding open_message check_time
opened now version suite timestamp hv ha ht = unbind (require timestamp key_error) ht λ sent hs h1.
    rw
      (
        hv,
        agree_suite-negotiate (get_default suite (suite_text en)) en ha,
        hs,
        guard-eq-ok (is_fresh now sent) value_error h1,
      )
      refl

pub key_read :
    (field : Option (List ℕ)) (t : List ℕ) (raw : Bytes)
    → require field key_error ≡ ok t
    → fromhex t ≡ ok raw
    → (length raw == 32) ≡ true
    → read_key field en ≡ ok (x25519_key raw)
unfolding read_key parse_public_key parse_raw
key_read field t raw hf ht len = rw (hf, ht, len) refl

pub nonce_read :
    (field : Option (List ℕ)) (t : List ℕ) (raw : Bytes)
    → require field key_error ≡ ok t
    → fromhex t ≡ ok raw
    → read_nonce field ≡ ok raw
unfolding read_nonce
nonce_read field t raw hf ht = rw (hf, ht) refl

module _ (p : Primitives) where
  -- A pair of the reference is a pair of X25519 keys.
  generate_pair-ok :
      (draws : List Bytes) (private public : Bytes)
      → generate_pair p draws en ≡ ok (private, public)
      → (public ≡ p.x25519_public private)
        × (generate_keypair p draws en ≡ ok (x25519_private private, x25519_key public))
  unfolding generate_pair generate_keypair first_draw
  generate_pair-ok [] private public h = absurd (cc)
  generate_pair-ok (draw ∷ draws) private public h =
      let pair = ok-injective h in
      let same : draw ≡ private = ap (λ t. t.0) pair in
      (
        sym (ap (λ t. t.1) pair) ∙ ap p.x25519_public same,
        ap (λ t. ok (x25519_private t.0, x25519_key t.1)) pair,
      )

  given_pair :
      (a : Bytes) (draws : List Bytes) (private public : Bytes)
      → choose_pair p (some a) draws en ≡ ok (private, public)
      → ◌≡◌ {A = Bytes × Bytes} (a, p.x25519_public a) (private, public)
  unfolding choose_pair pub_of
  given_pair a draws private public h = unbind (pub_of p a en) h λ found hf h1.
      unbind (guard (length a == 32) value_error) hf
        λ u hu h2. ap (λ t. (a, t)) (ok-injective h2) ∙ ok-injective h1

  pub choose_pair-identity :
      (held : Option Bytes) (draws : List Bytes) (private public : Bytes)
      → choose_pair p held draws en ≡ ok (private, public)
      → (public ≡ p.x25519_public private)
        × (identity_pair p draws (held_private held) (held_public p held) en
            ≡ ok (x25519_private private, x25519_key public))
  unfolding choose_pair pub_of identity_pair
  choose_pair-identity none draws private public h = generate_pair-ok draws private public h
  choose_pair-identity (some a) draws private public h =
      let pair = given_pair a draws private public h in
      (
        sym (ap (λ t. t.1) pair) ∙ ap (λ t. p.x25519_public t.0) pair,
        ap (λ t. ok (x25519_private t.0, x25519_key t.1)) pair,
      )

  pub choose_pair-ephemeral :
      (held : Option Bytes) (draws : List Bytes) (private public : Bytes)
      → choose_pair p held draws en ≡ ok (private, public)
      → (public ≡ p.x25519_public private)
        × (generate_keypair p (drawn held draws) en
            ≡ ok (x25519_private private, x25519_key public))
  unfolding choose_pair pub_of generate_keypair first_draw
  choose_pair-ephemeral none draws private public h = generate_pair-ok draws private public h
  choose_pair-ephemeral (some a) draws private public h =
      let pair = given_pair a draws private public h in
      (
        sym (ap (λ t. t.1) pair) ∙ ap (λ t. p.x25519_public t.0) pair,
        ap (λ t. ok (x25519_private t.0, x25519_key t.1)) pair,
      )

  pub dh_for_suite-ok :
      (private peer shared : Bytes)
      → dh_for_suite p private peer en ≡ ok shared
      → ((length peer == 32) ≡ true) × (p.x25519_exchange private peer ≡ ok shared)
  unfolding dh_for_suite x25519_dh
  dh_for_suite-ok private peer shared h =
      unbind (guard (length private == 32) value_error) h λ u hu h1.
        unbind (guard (length peer == 32) value_error) h1
          λ v hv h2. (guard-eq-ok (length peer == 32) value_error hv, h2)

module _ (p : Primitives) (sm3 : Sm3) where
  -- The reference's key schedule is the library's, in both suites.
  pub derive_session_keys-agrees :
      AreDocumented p sm3
      → (k1 k2 k3 psk nonce_i nonce_r : Bytes) (s : Suite)
      → derive_session_keys p sm3 k1 k2 k3 psk nonce_i nonce_r s
        ≡ ok (derive_keys_triple_dh p k1 k2 k3 (p.argon2_hash psk) nonce_i nonce_r s)
  unfolding derive_session_keys derive_keys_triple_dh slice_keys split_keys hkdf
  derive_session_keys-agrees d k1 k2 k3 psk nonce_i nonce_r en =
      rw
        (hkdf_for_suite-agrees d en (codes "SIPHandshake") (codes "session-keys")
          (k1 ++ (k2 ++ (k3 ++ (p.argon2_hash psk ++ (nonce_i ++ nonce_r))))) 96 (omega arith))
        refl
  derive_session_keys-agrees d k1 k2 k3 psk nonce_i nonce_r zh =
      rw
        (hkdf_for_suite-agrees d zh (codes "SIPHandshake") (codes "session-keys")
          (k1 ++ (k2 ++ (k3 ++ (p.argon2_hash psk ++ (nonce_i ++ nonce_r))))) 80 (omega arith))
        refl
