-- ===== src/Crypto/Suite.antt =====
-- crypto/suite.py, and `negotiate_suite` of protocol/handshake.py.
use sip_protocol.Prelude.{
  ℕ, List, ◌≡◌, refl, Bool, true, false, Result, ok, err, value_error, suite_negotiation, ◌>>=◌, ap,
  ◌∙◌, ok-injective, unbind, list_eq, list_eq-eq, Bool-cases, inl, inr, codes, if◌then◌else◌,
}

-- `SUPPORTED_SUITES`
pub data Suite : Type 0 where
  en zh : Suite

-- `SUITE_EN`, `SUITE_ZH`
unfoldable pub suite_text : Suite → List ℕ
suite_text en = codes "EN"
suite_text zh = codes "ZH"

-- `validate_suite`, with the suite that the text names
unfoldable pub validate_suite : List ℕ → Result Suite
unfolding suite_text
validate_suite text =
    if list_eq text (suite_text en)
    then ok en
    else if list_eq text (suite_text zh)
    then ok zh
    else err value_error

-- `PUBLIC_KEY_LENGTH`, `AEAD_KEY_LENGTH`
abbrev pub public_key_length : Suite → ℕ
public_key_length en = 32
public_key_length zh = 65

abbrev pub aead_key_length : Suite → ℕ
aead_key_length en = 32
aead_key_length zh = 16

abbrev pub suite_eq : Suite → Suite → Bool
suite_eq en en = true
suite_eq en zh = false
suite_eq zh en = false
suite_eq zh zh = true

-- the tests of `negotiate_suite` on what the peer offers
unfoldable pub match_offer : Result Suite → Suite → Result Suite
match_offer (err e) local = err suite_negotiation
match_offer (ok offered) local = if suite_eq offered local then ok local else err suite_negotiation

-- `negotiate_suite`
unfoldable pub negotiate_suite : List ℕ → List ℕ → Result Suite
unfolding validate_suite match_offer
negotiate_suite offered local = do
  mine ← validate_suite local
  match_offer (validate_suite offered) mine

pub validate_suite-suite_text : (s : Suite) → validate_suite (suite_text s) ≡ ok s
unfolding validate_suite list_eq
validate_suite-suite_text en = refl
validate_suite-suite_text zh = refl

pub negotiate_suite_same : (s : Suite) → negotiate_suite (suite_text s) (suite_text s) ≡ ok s
unfolding negotiate_suite list_eq
negotiate_suite_same en = refl
negotiate_suite_same zh = refl

validate_suite-eq : (text : List ℕ) (s : Suite) → validate_suite text ≡ ok s → text ≡ suite_text s
unfolding validate_suite
validate_suite-eq text s h = elim (Bool-cases (list_eq text (suite_text en))) [
  | inl e ↦ list_eq-eq text (suite_text en) e ∙ ap suite_text (ok-injective (rw e at h))
  | inr e ↦ elim (Bool-cases (list_eq text (suite_text zh))) [
    | inl z ↦ list_eq-eq text (suite_text zh) z ∙ ap suite_text (ok-injective (rw (e, z) at h))
    | inr z ↦ absurd (cc (rw (e, z) at h))
  ]
]

match_offer-eq :
    (offered : Result Suite) (local s : Suite)
    → match_offer offered local ≡ ok s
    → (offered ≡ ok s) × (local ≡ s)
unfolding match_offer
match_offer-eq (err e) local s h = absurd (cc)
match_offer-eq (ok en) en s h = (h, ok-injective h)
match_offer-eq (ok en) zh s h = absurd (cc)
match_offer-eq (ok zh) en s h = absurd (cc)
match_offer-eq (ok zh) zh s h = (h, ok-injective h)

-- Negotiation succeeds only where both sides name the same known suite, and then returns it: there
-- is no fallback from one suite to the other.
pub negotiate_suite_agreed :
    (offered local : List ℕ) (s : Suite)
    → negotiate_suite offered local ≡ ok s
    → (offered ≡ suite_text s) × (local ≡ suite_text s)
unfolding negotiate_suite
negotiate_suite_agreed offered local s h = unbind (validate_suite local) h λ mine valid h1.
    let (o, m) = match_offer-eq (validate_suite offered) mine s h1 in
    (validate_suite-eq offered s o, validate_suite-eq local s (valid ∙ ap ok m))
