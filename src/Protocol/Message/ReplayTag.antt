-- ===== src/Protocol/Message/ReplayTag.antt =====
-- What a replay tag binds.
use mathlib.Core.Path.{subst}
use sip_protocol.Prelude.{
  ℕ, ◌≡◌, ◌<◌, refl, ap, ◌∙◌, sym, List, [], ◌∷◌, ◌++◌, All, All-append, ok, true, unbind,
  ok-injective, arith, drop,
}
use sip_protocol.Python.Json.{decimal}
use sip_protocol.Python.Decimal.{decimal-below, decimal-injective}
use sip_protocol.Python.Hex.{fromhex, fromhex-hex}
use sip_protocol.Python.Utf8.{IsText, IsScalar, is_surrogate, decode-encode}
use sip_protocol.Python.Utf8
use sip_protocol.Crypto.Suite.{Suite, validate_suite}
use sip_protocol.Crypto.Primitives.{Bytes, Primitives}
use sip_protocol.Protocol.Message.{generate_replay_tag, verify_replay_tag}
use sip_protocol.Protocol.Message.RoundTrip.{verify_replay_tag-generate}

abbrev head : List ℕ → ℕ
head [] = 0
head (x ∷ xs) = x

-- No colon stands among the digits.
no_colon : (xs ds : List ℕ) → ¬ (All (λ c. c < 58) (xs ++ (58 ∷ ds)))
no_colon [] ds h = omega (arith, h.0)
no_colon (x ∷ xs) ds h = no_colon xs ds h.1

-- The last colon parts the two: what follows it are digits.
last_colon :
    (xs ys ds es : List ℕ)
    → All (λ c. c < 58) ds
    → All (λ c. c < 58) es
    → xs ++ (58 ∷ ds) ≡ ys ++ (58 ∷ es)
    → (xs ≡ ys) × (ds ≡ es)
last_colon [] [] ds es hd he h = (refl, ap (drop 1) h)
last_colon [] (y ∷ ys) ds es hd he h =
    absurd (no_colon ys es (subst (All (λ c. c < 58)) (ap (drop 1) h) hd))
last_colon (x ∷ xs) [] ds es hd he h =
    absurd (no_colon xs ds (subst (All (λ c. c < 58)) (sym (ap (drop 1) h)) he))
last_colon (x ∷ xs) (y ∷ ys) ds es hd he h =
    let (fronts, ends) = last_colon xs ys ds es hd he (ap (drop 1) h) in
    (ap (λ t. t ∷ xs) (ap head h) ∙ ap (λ t. y ∷ t) fronts, ends)

digit-IsText : (cs : List ℕ) → All (λ c. c < 58) cs → IsText cs
unfolding is_surrogate
digit-IsText [] h = tt
digit-IsText (c ∷ cs) h =
    (record { below = omega (arith, h.0); no_surrogate = ground (arith, h.0) }, digit-IsText cs h.1)

abbrev tagged_text : List ℕ → ℕ → List ℕ
tagged_text sender counter = sender ++ (58 ∷ decimal counter)

tagged-IsText :
    (sender : List ℕ) (counter : ℕ) → IsText sender → IsText (tagged_text sender counter)
unfolding is_surrogate
tagged-IsText sender counter h = All-append IsScalar sender (58 ∷ decimal counter) h (
  record { below = omega arith; no_surrogate = refl },
  digit-IsText (decimal counter) (decimal-below counter),
)

-- Texts with the same encoding are the same.
encode-injective :
    (xs ys bs : List ℕ)
    → IsText xs
    → IsText ys
    → Utf8.encode xs ≡ ok bs
    → Utf8.encode ys ≡ ok bs
    → xs ≡ ys
encode-injective xs ys bs hx hy ex ey =
    let (bx, ea, da) = decode-encode xs hx in
    let (bz, ec, dc) = decode-encode ys hy in
    let same : bx ≡ bz = ok-injective (sym ea ∙ ex ∙ sym ey ∙ ec) in
    ok-injective (sym da ∙ ap Utf8.decode same ∙ dc)

module _ (p : Primitives) where
  -- Of what a tag is made.
  made_of :
      (replay_key : Bytes) (sender : List ℕ) (counter : ℕ) (tag suite : List ℕ)
      → generate_replay_tag p replay_key sender counter suite ≡ ok tag
      → (s : Suite) × (data_bytes : Bytes) × (validate_suite suite ≡ ok s)
        × (Utf8.encode (tagged_text sender counter) ≡ ok data_bytes)
        × (fromhex tag ≡ ok (p.hmac_digest s replay_key data_bytes))
  unfolding generate_replay_tag
  made_of replay_key sender counter tag suite h = unbind (validate_suite suite) h λ s hs h1.
      unbind (Utf8.encode (tagged_text sender counter)) h1 λ data_bytes hd h2.
        let mac = p.hmac_digest s replay_key data_bytes in
        (
          s,
          data_bytes,
          hs,
          hd,
          ap fromhex (sym (ok-injective h2))
              ∙ fromhex-hex mac (p.hmac_digest-IsBytes s replay_key data_bytes),
        )

  -- A replay tag binds its sender and its counter, as far as the HMAC binds its text, for senders'
  -- names that can be encoded: where the tag that is generated for one sender and counter is accepted
  -- for another sender or another counter,
  -- under the same key and in the same suite, the HMAC has the same digest for two different byte
  -- strings, the encodings of `sender:counter` on either side. No sender's name, colons included,
  -- makes the two the same.
  pub verify_replay_tag_collision :
      (replay_key : Bytes) (sender other : List ℕ) (counter next : ℕ) (tag suite : List ℕ)
      → IsText sender
      → IsText other
      → ¬ ((sender ≡ other) × (counter ≡ next))
      → generate_replay_tag p replay_key sender counter suite ≡ ok tag
      → verify_replay_tag p replay_key other next tag suite ≡ ok true
      → (s : Suite) × (signed claimed : Bytes) × (validate_suite suite ≡ ok s)
        × (Utf8.encode (sender ++ (58 ∷ decimal counter)) ≡ ok signed)
        × (Utf8.encode (other ++ (58 ∷ decimal next)) ≡ ok claimed)
        × ¬ (signed ≡ claimed)
        × (p.hmac_digest s replay_key signed ≡ p.hmac_digest s replay_key claimed)
  verify_replay_tag_collision replay_key sender other counter next tag suite hs ho differ made
        verified =
      let (s, signed, valid, encoded, read) = made_of replay_key sender counter tag suite made in
      let (s', claimed, valid', encoded', read') =
        made_of replay_key other next tag suite
          ((verify_replay_tag-generate p replay_key other next tag suite).0 verified) in
      let same : s' ≡ s = ok-injective (sym valid' ∙ valid) in
      let apart : ¬ (signed ≡ claimed) = λ e.
        let texts =
          encode-injective (tagged_text sender counter) (tagged_text other next) claimed
            (tagged-IsText sender counter hs) (tagged-IsText other next ho) (encoded ∙ ap ok e)
            encoded' in
        let (senders, digits) =
          last_colon sender other (decimal counter) (decimal next) (decimal-below counter)
            (decimal-below next) texts in
        differ (senders, decimal-injective counter next digits) in
      (
        s,
        signed,
        claimed,
        valid,
        encoded,
        encoded',
        apart,
        ok-injective (sym read ∙ read' ∙ ap (λ t. ok (p.hmac_digest t replay_key claimed)) same),
      )
