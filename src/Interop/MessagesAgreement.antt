-- ===== src/Interop/MessagesAgreement.antt =====
-- Messages between the library and the reference.
use mathlib.Core.Path.{subst}
use sip_protocol.Prelude.{
  ℕ, ◌+◌, ◌<◌, ◌≡◌, refl, ap, sym, ◌∙◌, List, ◌∷◌, ◌++◌, Option, none, some, Result, ok, err, ◌>>=◌,
  get_default, unbind, ok-injective, list_eq, list_eq_refl, lt→ltb, codes,
}
use sip_protocol.Python.Base64.{b64encode, b64decode-b64encode}
use sip_protocol.Python.Bytes.{IsBytes}
use sip_protocol.Python.Hex.{hex}
use sip_protocol.Python.Json.{decimal}
use sip_protocol.Python.Utf8.{IsText, decode-encode, encode-IsBytes}
use sip_protocol.Python.Utf8
use sip_protocol.Crypto.Suite.{Suite, en, zh, suite_text, validate_suite, validate_suite-suite_text}
use sip_protocol.Crypto.Primitives.{Bytes, Primitives}
use sip_protocol.Crypto.Sm3.{Sm3}
use sip_protocol.Crypto.Aead.{
  aead_encrypt, aead_decrypt, aead_encrypt-IsSealed, aead_decrypt-encrypt,
}
use sip_protocol.Protocol.Message.{
  Message, suite_field, protocol_version, generate_replay_tag, verify_replay_tag, optional_tag,
  encrypt_message,
}
use sip_protocol.Protocol.Message.RoundTrip.{get_default-suite_field, verify_replay_tag-generate}
use sip_protocol.Protocol.Handshake.{is_version}
use sip_protocol.Interop.Handshake.{accept_suite, zh_field}
use sip_protocol.Interop.Messages.{
  RefSession, aead_seal, aead_open, make_replay_tag, seal_message, encrypt, check_tag, open_checked,
  advance_session, decrypt,
}
use sip_protocol.Interop.Documented.{AreDocumented, hmac_digest-agrees}

-- Chains of results, step by step.
bind_ext :
    {A B : Type 0} (m : Result A) (f g : A → Result B)
    → ((a : A) → f a ≡ g a)
    → (m >>= f) ≡ (m >>= g)
bind_ext (err e) f g h = refl
bind_ext (ok a) f g h = h a

bind_some :
    {A B : Type 0} (m : Result A) (f : Option A → Result B)
    → (m >>= λ a. f (some a)) ≡ ((do a ← m; ok (some a)) >>= f)
bind_some (err e) f = refl
bind_some (ok a) f = refl

pub zh_field-suite_field : (s : Suite) → zh_field s ≡ suite_field (suite_text s)
unfolding zh_field suite_field suite_text list_eq
zh_field-suite_field en = refl
zh_field-suite_field zh = refl

pub accept_suite-suite_text : (s : Suite) → accept_suite (suite_text s) ≡ ok s
unfolding accept_suite list_eq
accept_suite-suite_text en = refl
accept_suite-suite_text zh = refl

module _ (p : Primitives) (sm3 : Sm3) where
  aead_seal-aead_encrypt :
      (key nonce plain : Bytes) (s : Suite)
      → aead_seal p sm3 key nonce plain none s ≡ aead_encrypt p key plain nonce none s
  unfolding aead_seal aead_encrypt
  aead_seal-aead_encrypt key nonce plain en = refl
  aead_seal-aead_encrypt key nonce plain zh = refl

  aead_open-aead_decrypt :
      (key nonce ct tag : Bytes) (s : Suite)
      → aead_open p sm3 key nonce ct tag none s ≡ aead_decrypt p key ct nonce tag none s
  unfolding aead_open aead_decrypt
  aead_open-aead_decrypt key nonce ct tag en = refl
  aead_open-aead_decrypt key nonce ct tag zh = refl

  make_replay_tag-generate :
      AreDocumented p sm3
      → (replay_key : Bytes) (sender : List ℕ) (counter : ℕ) (s : Suite)
      → make_replay_tag p sm3 replay_key sender counter s
        ≡ generate_replay_tag p replay_key sender counter (suite_text s)
  unfolding make_replay_tag generate_replay_tag
  make_replay_tag-generate d replay_key sender counter s = rw (validate_suite-suite_text s) (
      bind_ext (Utf8.encode (sender ++ (58 ∷ decimal counter))) _ _
        λ data_bytes. ap (λ t. ok (hex t)) (hmac_digest-agrees d replay_key data_bytes s))

  -- Where the primitives are documented as RFC 2104 and RFC 5869 have them, the reference makes exactly
  -- the library's message, or raises the library's error: the same fields, tags included, in both
  -- suites.
  pub encrypt-encrypt_message :
      AreDocumented p sm3
      → (iv : Bytes) (now : ℕ) (session : RefSession) (plaintext recipient : List ℕ)
      → (encrypt p sm3 iv now session plaintext recipient).1
        ≡ encrypt_message p iv now session.keys.encryption_key plaintext session.agent_id recipient
            (session.send_counter + 1)
            (some session.keys.replay_key)
            (suite_text session.suite)
  unfolding encrypt seal_message encrypt_message optional_tag
  encrypt-encrypt_message d iv now session plaintext recipient =
      let s = session.suite in
      rw
        (
          validate_suite-suite_text s,
          zh_field-suite_field s,
          make_replay_tag-generate d session.keys.replay_key session.agent_id
              (session.send_counter + 1) s,
        )
        (bind_ext (Utf8.encode plaintext) _ _ λ plain.
          rw (aead_seal-aead_encrypt session.keys.encryption_key iv plain s) (
            bind_ext (aead_encrypt p session.keys.encryption_key plain iv none s) _ _ λ sealed.
              bind_some
                (generate_replay_tag p session.keys.replay_key session.agent_id
                  (session.send_counter + 1) (suite_text s))
                (λ tag. ok record {
                  version = some protocol_version;
                  message_type = some (codes "message");
                  timestamp = some now;
                  sender_id = some session.agent_id;
                  recipient_id = some recipient;
                  message_counter = some (session.send_counter + 1);
                  iv = some (b64encode iv);
                  payload = some (b64encode sealed.0);
                  auth_tag = some (b64encode sealed.1);
                  suite = suite_field (suite_text s);
                  replay_tag = tag;
                })))

  check_tag-optional_tag :
      AreDocumented p sm3
      → (session : RefSession) (m : Message) (sender : List ℕ) (counter : ℕ) (s : Suite)
        (tag : Option (List ℕ))
      → m.sender_id ≡ some sender
      → m.message_counter ≡ some counter
      → optional_tag p (some session.keys.replay_key) sender counter (suite_text s) ≡ ok tag
      → check_tag p sm3 session m s tag ≡ ok tt
  unfolding check_tag optional_tag verify_replay_tag
  check_tag-optional_tag d session m sender counter s none hs hc h = refl
  check_tag-optional_tag d session m sender counter s (some tag) hs hc h =
      let key = session.keys.replay_key in
      unbind (generate_replay_tag p key sender counter (suite_text s)) h λ made hm h1.
        let same : made ≡ tag = ap (λ o. get_default o made) (ok-injective h1) in
        let valid =
          (verify_replay_tag-generate p key sender counter tag (suite_text s)).1
            (hm ∙ ap ok same) in
        unbind (generate_replay_tag p key sender counter (suite_text s)) valid
          λ expected he compared.
            rw (hs, hc, make_replay_tag-generate d key sender counter s, he, compared) refl

  advance_opened :
      (session : RefSession) (m : Message) (plain : Bytes) (counter : ℕ) (t : List ℕ)
      → open_checked p sm3 session m ≡ ok (plain, counter)
      → Utf8.decode plain ≡ ok t
      → decrypt p sm3 session m ≡ (record session { recv_counter = counter }, ok t)
  unfolding decrypt advance_session
  advance_opened session m plain counter t h hd = rw (decrypt, h, hd) refl

  -- Where the primitives are documented as RFC 2104 and RFC 5869 have them: what the library encrypts
  -- under the session's keys, from a text that can be encoded and with an IV of bytes, a replay tag and
  -- a counter above the session's, the reference decrypts to the plaintext, whatever the suite, and
  -- takes the counter over.
  pub decrypt-encrypt_message :
      AreDocumented p sm3
      → (iv : Bytes) (now counter : ℕ) (session : RefSession) (plaintext sender recipient : List ℕ)
        (s : Suite) (m : Message)
      → IsBytes iv
      → IsText plaintext
      → session.recv_counter < counter
      → encrypt_message p iv now session.keys.encryption_key plaintext sender recipient counter
          (some session.keys.replay_key)
          (suite_text s)
        ≡ ok m
      → decrypt p sm3 session m ≡ (record session { recv_counter = counter }, ok plaintext)
  unfolding open_checked encrypt_message is_version
  decrypt-encrypt_message d iv now counter session plaintext sender recipient s m hiv ht above h =
      let key = session.keys.encryption_key in
      let (plain, enc, dec) = decode-encode plaintext ht in
      unbind (validate_suite (suite_text s)) h λ s' hs h1.
        let same : s ≡ s' = ok-injective (sym (validate_suite-suite_text s) ∙ hs) in
        unbind (Utf8.encode plaintext) h1 λ plain' he h2.
          let same_plain : plain ≡ plain' = ok-injective (sym enc ∙ he) in
          unbind (aead_encrypt p key plain' iv none s') h2 λ sealed hsealed h3.
            unbind (optional_tag p (some session.keys.replay_key) sender counter (suite_text s)) h3
              λ tag htag h4.
                let bytes = encode-IsBytes plaintext plain' ht he in
                let good =
                  aead_encrypt-IsSealed p key plain' iv sealed.0 sealed.1 none s' hsealed in
                let made : Message = record {
                  version = some protocol_version;
                  message_type = some (codes "message");
                  timestamp = some now;
                  sender_id = some sender;
                  recipient_id = some recipient;
                  message_counter = some counter;
                  iv = some (b64encode iv);
                  payload = some (b64encode sealed.0);
                  auth_tag = some (b64encode sealed.1);
                  suite = suite_field (suite_text s);
                  replay_tag = tag;
                } in
                let checked =
                  check_tag-optional_tag d session made sender counter s' tag refl refl (
                    subst
                      (λ x.
                        optional_tag p (some session.keys.replay_key) sender counter (suite_text x)
                        ≡ ok tag)
                      same htag) in
                let suite_read =
                  ap accept_suite (get_default-suite_field s)
                  ∙ accept_suite-suite_text s
                  ∙ ap ok same in
                subst
                  (λ x.
                    decrypt p sm3 session x
                    ≡ (record session { recv_counter = counter }, ok plaintext))
                  (ok-injective h4)
                  (advance_opened session made plain' counter plaintext
                    (rw
                      (
                        list_eq_refl protocol_version,
                        suite_read,
                        checked,
                        lt→ltb session.recv_counter counter above,
                        b64decode-b64encode iv hiv,
                        b64decode-b64encode sealed.0 (good.ct_bytes bytes),
                        b64decode-b64encode sealed.1 (good.tag_bytes bytes),
                        aead_open-aead_decrypt key iv sealed.0 sealed.1 s',
                        aead_decrypt-encrypt p key plain' iv sealed.0 sealed.1 none s' hsealed,
                      )
                      refl)
                    (ap Utf8.decode (sym same_plain) ∙ dec))
