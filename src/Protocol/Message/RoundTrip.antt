-- ===== src/Protocol/Message/RoundTrip.antt =====
-- Messages through `encrypt_message` and `decrypt_message`, and the replay tags.
use sip_protocol.Prelude.{
  ℕ, ◌≡◌, refl, ap, ◌∙◌, sym, List, [], ◌∷◌, ◌++◌, true, Option, none, some, ok, get_default,
  length, list_eq, list_eq-eq, list_eq_refl, list_eq, unbind, ok-injective, Bool-cases, inl, inr,
  arith, lt→ltb, ◌<◌, ◌/◌, ◌%◌, ◌↔◌,
}
use mathlib.Core.Path.{subst}
use sip_protocol.Python.Json.{decimal}
use sip_protocol.Python.Base64.{is_ascii, b64decode-b64encode}
use sip_protocol.Python.Bytes.{IsBytes}
use sip_protocol.Python.Hex.{hex, hex_digit}
use sip_protocol.Python.Utf8.{IsText, decode-encode, encode-IsBytes}
use sip_protocol.Python.Utf8
use sip_protocol.Crypto.Suite.{
  Suite, en, zh, suite_text, validate_suite, validate_suite-suite_text, aead_key_length,
}
use sip_protocol.Crypto.Primitives.{Bytes, Primitives}
use sip_protocol.Crypto.Aead.{
  aead_encrypt, nonce_length, aead_encrypt-IsSealed, aead_encrypt_total, aead_decrypt-encrypt,
}
use sip_protocol.Protocol.Message.{
  Message, suite_field, as_value_error, compare_text, generate_replay_tag, verify_replay_tag,
  optional_tag, encrypt_message, decrypt_message,
}

pub get_default-suite_field :
    (s : Suite) → get_default (suite_field (suite_text s)) (suite_text en) ≡ suite_text s
unfolding suite_field suite_text list_eq
get_default-suite_field en = refl
get_default-suite_field zh = refl

compare_text-eq :
    (expected given : List ℕ) → compare_text expected given ≡ ok true → expected ≡ given
unfolding compare_text
compare_text-eq expected given h = elim (Bool-cases (is_ascii given)) [
  | inl e ↦ list_eq-eq expected given (ok-injective (rw e at h))
  | inr e ↦ absurd (cc (rw e at h))
]

hex_digit-lt : (d : ℕ) → d < 16 → hex_digit d < 128
unfolding hex_digit
hex_digit-lt d h = ground arith

is_ascii-hex : (bs : List ℕ) → IsBytes bs → is_ascii (hex bs) ≡ true
unfolding is_ascii hex
is_ascii-hex [] h = refl
is_ascii-hex (b ∷ bs) h = rw (
  is_ascii,
  lt→ltb (hex_digit (b / 16)) 128 (hex_digit-lt (b / 16) (omega (arith, h.0))),
  lt→ltb (hex_digit (b % 16)) 128 (hex_digit-lt (b % 16) (omega arith)),
  is_ascii-hex bs h.1,
)

compare_text-hex :
    (p : Primitives) (replay_key : Bytes) (sender : List ℕ) (counter : ℕ) (tag suite : List ℕ)
    → generate_replay_tag p replay_key sender counter suite ≡ ok tag
    → compare_text tag tag ≡ ok true
unfolding compare_text generate_replay_tag
compare_text-hex p replay_key sender counter tag suite h =
    unbind (validate_suite suite) h λ s hs h1.
      unbind (Utf8.encode (sender ++ (58 ∷ decimal counter))) h1 λ data_bytes hd h2.
        subst (λ t. compare_text t t ≡ ok true) (ok-injective h2)
          (let made = p.hmac_digest s replay_key data_bytes in
            rw (
              is_ascii-hex made (p.hmac_digest-IsBytes s replay_key data_bytes),
              list_eq_refl (hex made),
            ))

module _ (p : Primitives) where
  -- What is encrypted decrypts, with the same key, to the plaintext, whatever the rest of the
  -- arguments were: the suite is read back from the message.
  pub decrypt_message-encrypt :
      (iv key : Bytes) (now counter : ℕ) (plaintext sender recipient : List ℕ)
      (replay_key : Option Bytes) (s : Suite) (m : Message)
      → IsBytes iv
      → IsText plaintext
      → encrypt_message p iv now key plaintext sender recipient counter replay_key (suite_text s)
        ≡ ok m
      → decrypt_message p key m ≡ ok plaintext
  unfolding encrypt_message decrypt_message as_value_error
  decrypt_message-encrypt iv key now counter plaintext sender recipient replay_key s m hiv ht h =
      let (plain, enc, dec) = decode-encode plaintext ht in
      unbind (validate_suite (suite_text s)) h λ s' hs h1.
        let same : s ≡ s' = ok-injective (sym (validate_suite-suite_text s) ∙ hs) in
        unbind (Utf8.encode plaintext) h1 λ plain' he h2.
          let same_plain : plain ≡ plain' = ok-injective (sym enc ∙ he) in
          unbind (aead_encrypt p key plain' iv none s') h2 λ sealed hsealed h3.
            unbind (optional_tag p replay_key sender counter (suite_text s)) h3 λ tag htag h4.
              let bytes = encode-IsBytes plaintext plain' ht he in
              let good = aead_encrypt-IsSealed p key plain' iv sealed.0 sealed.1 none s' hsealed in
              subst (λ t. decrypt_message p key t ≡ ok plaintext) (ok-injective h4)
                (rw (
                  get_default-suite_field s,
                  hs,
                  b64decode-b64encode iv hiv,
                  b64decode-b64encode sealed.0 (good.ct_bytes bytes),
                  b64decode-b64encode sealed.1 (good.tag_bytes bytes),
                  aead_decrypt-encrypt p key plain' iv sealed.0 sealed.1 none s' hsealed,
                  sym same_plain,
                  dec,
                ))

  optional_tag_total :
      (replay_key : Option Bytes) (sender : List ℕ) (counter : ℕ) (s : Suite)
      → IsText (sender ++ (58 ∷ decimal counter))
      → (tag : Option (List ℕ)) × (optional_tag p replay_key sender counter (suite_text s) ≡ ok tag)
  unfolding optional_tag generate_replay_tag
  optional_tag_total none sender counter s h = (none, refl)
  optional_tag_total (some key) sender counter s h =
      let (data_bytes, enc, dec) = decode-encode (sender ++ (58 ∷ decimal counter)) h in
      rw (validate_suite-suite_text s, enc) (_, refl)

  -- With a key and an IV of bytes of the suite's lengths, and a plaintext and a sender's name that
  -- can be encoded, encryption succeeds, and what it returns decrypts to the plaintext.
  pub encrypt_message_total :
      (iv key : Bytes) (now counter : ℕ) (plaintext sender recipient : List ℕ)
      (replay_key : Option Bytes) (s : Suite)
      → IsBytes iv
      → length iv ≡ nonce_length
      → length key ≡ aead_key_length s
      → IsText plaintext
      → IsText (sender ++ (58 ∷ decimal counter))
      → (m : Message) × (encrypt_message p iv now key plaintext sender recipient counter replay_key
            (suite_text s)
          ≡ ok m)
        × (decrypt_message p key m ≡ ok plaintext)
  encrypt_message_total iv key now counter plaintext sender recipient replay_key s hiv len hkey ht
        hs =
      let (plain, enc, dec) = decode-encode plaintext ht in
      let (sealed, hsealed) = aead_encrypt_total p key plain iv none s hkey len in
      let (tag, htag) = optional_tag_total replay_key sender counter s hs in
      let (m, done) : (m : Message) × (encrypt_message p iv now key plaintext sender recipient
              counter replay_key (suite_text s)
            ≡ ok m) =
        unfold encrypt_message in rw (validate_suite-suite_text s, enc, hsealed, htag) (_, refl) in
      (
        m,
        done,
        decrypt_message-encrypt iv key now counter plaintext sender recipient replay_key s m hiv ht
            done,
      )

  -- A replay tag is accepted exactly where it is the tag that the same arguments generate.
  pub verify_replay_tag-generate :
      (replay_key : Bytes) (sender : List ℕ) (counter : ℕ) (tag suite : List ℕ)
      → (verify_replay_tag p replay_key sender counter tag suite ≡ ok true)
        ↔ (generate_replay_tag p replay_key sender counter suite ≡ ok tag)
  unfolding verify_replay_tag
  verify_replay_tag-generate replay_key sender counter tag suite = (
    (λ h.
        unbind (generate_replay_tag p replay_key sender counter suite) h
          λ expected made compared. made ∙ ap ok (compare_text-eq expected tag compared)),
    (λ h. rw h (compare_text-hex p replay_key sender counter tag suite h)),
  )
