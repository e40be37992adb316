-- ===== src/Protocol/Rekey/Sequence.antt =====
-- The sequence numbers of rekey requests, and the use of a response.
use sip_protocol.Prelude.{
  ℕ, zero, suc, ◌<◌, ◌≡◌, ◌⊎◌, inl, inr, refl, ap, ◌∙◌, sym, Bool, true, false, not, none, some,
  Result, ok, err, guard, require, key_error, value_error, attribute_error, unbind, ok-injective,
  guard-eq-ok, require-eq-ok, leb, arith, list_eq,
}
use sip_protocol.Python.Base64.{b64decode}
use sip_protocol.Crypto.Primitives.{Primitives}
use sip_protocol.Crypto.Hkdf.{Keys}
use sip_protocol.Crypto.Dh.{PrivateKey, dh_exchange, parse_public_key}
use sip_protocol.Protocol.Handshake.{is_version, is_fresh}
use sip_protocol.Protocol.Rekey.{
  RekeyManager, RekeyRequest, RekeyResponse, RekeyInputs, check, caught, is_next, sign,
  request_text, answer_request, save_answer, continue_request, checked_sequence,
  validate_rekey_request, process_rekey_request, validate_rekey_response, process_rekey_response,
}

-- What processing a request leaves when it answers.
pub record Answered (p : Primitives) (inputs : RekeyInputs) (manager next : RekeyManager)
    (request : RekeyRequest) (response : RekeyResponse) : Type 0 where
  pub sequence : ℕ
  pub private : PrivateKey
  pub new_keys : Keys
  pub checked : checked_sequence p inputs.read_at manager request ≡ ok sequence
  pub answered :
      answer_request p inputs (record manager { rekey_sequence = sequence }) request
      ≡ ok (response, private, new_keys)
  pub next_eq : next ≡ record manager {
    rekey_sequence = sequence;
    temp_new_keys = some new_keys;
    temp_new_ephemeral_private_key = some private;
    temp_new_ephemeral_nonce = some inputs.nonce;
  }

module _ (p : Primitives) (inputs : RekeyInputs) (manager next : RekeyManager)
    (request : RekeyRequest) (response : RekeyResponse) where
  save_answer-Answered :
      (sequence : ℕ)
      → checked_sequence p inputs.read_at manager request ≡ ok sequence
      → (r : Result (RekeyResponse × PrivateKey × Keys))
      → answer_request p inputs (record manager { rekey_sequence = sequence }) request ≡ r
      → save_answer p inputs (record manager { rekey_sequence = sequence }) r ≡ (next, ok response)
      → Answered p inputs manager next request response
  unfolding save_answer
  save_answer-Answered sequence hc (err e) hr h =
      absurd (let e : err e ≡ ok response = ap (λ t. t.1) h in cc)
  save_answer-Answered sequence hc (ok (given, private, new_keys)) hr h = record {
    sequence = sequence;
    private = private;
    new_keys = new_keys;
    checked = hc;
    answered = hr ∙ ap (λ t. ok (t, private, new_keys)) (ok-injective (ap (λ t. t.1) h));
    next_eq = sym (ap (λ t. t.0) h);
  }

  continue_request-Answered :
      (r : Result ℕ)
      → checked_sequence p inputs.read_at manager request ≡ r
      → continue_request p inputs manager request r ≡ (next, ok response)
      → Answered p inputs manager next request response
  unfolding continue_request
  continue_request-Answered (err e) hc h =
      absurd (let e : err e ≡ ok response = ap (λ t. t.1) h in cc)
  continue_request-Answered (ok sequence) hc h =
      save_answer-Answered sequence hc
        (answer_request p inputs (record manager { rekey_sequence = sequence }) request) refl h

  pub process_rekey_request-Answered :
      process_rekey_request p inputs manager request ≡ (next, ok response)
      → Answered p inputs manager next request response
  unfolding process_rekey_request
  process_rekey_request-Answered h =
      continue_request-Answered (checked_sequence p inputs.read_at manager request) refl h

caught-true : (r : Result Bool) → caught r ≡ ok true → r ≡ ok true
unfolding caught
caught-true (ok b) h = h
caught-true (err value_error) h = absurd (cc)
caught-true (err key_error) h = absurd (cc)
caught-true (err attribute_error) h = absurd (cc)
caught-true (err e) h = h

check-true :
    (b : Bool) (rest : Result Bool) → check b rest ≡ ok true → (b ≡ true) × (rest ≡ ok true)
unfolding check
check-true true rest h = (refl, h)
check-true false rest h = absurd (cc)

is_next-true : (n q : ℕ) → is_next n (some q) ≡ ok true → (n ≡ 0) ⊎ (n < q)
unfolding is_next
is_next-true zero q h = inl refl
is_next-true (suc n) q h =
    inr (let e : not (leb q (suc n)) ≡ true = ok-injective h in ground (arith, e))

-- A request that validates has a sequence number above the manager's, if that is not 0.
validated :
    (p : Primitives) (now : ℕ) (manager : RekeyManager) (request : RekeyRequest) (q : ℕ)
    → request.sequence ≡ some q
    → validate_rekey_request p now manager request ≡ ok true
    → (manager.rekey_sequence ≡ 0) ⊎ (manager.rekey_sequence < q)
unfolding validate_rekey_request
validated p now manager request q hq h =
    let (v, h1) = check-true (is_version request.version) _ (caught-true _ h) in
    unbind (require request.timestamp key_error) h1 λ sent hsent h2.
      let (f, h3) = check-true (is_fresh now sent) _ h2 in
      unbind (require request.signature key_error) h3 λ signature_text e4 h4.
        unbind (b64decode signature_text) h4 λ signature e5 h5.
          unbind (require request.ephemeral_pub key_error) h5 λ ephemeral_pub e6 h6.
            unbind (require request.nonce key_error) h6 λ nonce e7 h7.
              unbind (require request.reason key_error) h7 λ reason e8 h8.
                unbind (require request.key_lifetime key_error) h8 λ key_lifetime e9 h9.
                  unbind (sign p manager (request_text ephemeral_pub nonce reason key_lifetime)) h9
                    λ expected e10 h10.
                      let (same, h11) = check-true (list_eq signature expected) _ h10 in
                      is_next-true manager.rekey_sequence q (rw hq at h11)

module _ (p : Primitives) where
  -- Processing a request takes over its sequence number, and that number is above the manager's
  -- unless the manager's was 0.
  pub process_rekey_request_sequence :
      (inputs : RekeyInputs) (manager next : RekeyManager) (request : RekeyRequest)
      (response : RekeyResponse)
      → process_rekey_request p inputs manager request ≡ (next, ok response)
      → (request.sequence ≡ some next.rekey_sequence)
        × ((manager.rekey_sequence ≡ 0) ⊎ (manager.rekey_sequence < next.rekey_sequence))
  unfolding checked_sequence
  process_rekey_request_sequence inputs manager next request response h =
      let a = process_rekey_request-Answered p inputs manager next request response h in
      unbind (validate_rekey_request p inputs.read_at manager request) a.checked λ valid hv h1.
        unbind (guard valid value_error) h1 λ u hu h2.
          let found = require-eq-ok request.sequence key_error h2 in
          let current : next.rekey_sequence ≡ a.sequence = ap (λ t. t.rekey_sequence) a.next_eq in
          rw current (
            found,
            validated p inputs.read_at manager request a.sequence found
                (hv ∙ ap ok (guard-eq-ok valid value_error hu)),
          )

  -- After a processed request whose number is 0 the same manager still takes exactly the requests
  -- that it took before: the answered request itself again, while its time is fresh.
  pub process_rekey_request_replay :
      (inputs : RekeyInputs) (manager next : RekeyManager) (request other : RekeyRequest)
      (response : RekeyResponse) (now : ℕ)
      → process_rekey_request p inputs manager request ≡ (next, ok response)
      → request.sequence ≡ some 0
      → validate_rekey_request p now next other ≡ validate_rekey_request p now manager other
  unfolding validate_rekey_request sign
  process_rekey_request_replay inputs manager next request other response now h zero_sequence =
      let a = process_rekey_request-Answered p inputs manager next request response h in
      let (found, order) = process_rekey_request_sequence inputs manager next request response h in
      let still : next.rekey_sequence ≡ 0 = cc in
      let before : manager.rekey_sequence ≡ 0 = elim order [
        | inl e ↦ e
        | inr l ↦ absurd (omega (arith, still, l))
      ] in
      let current : a.sequence ≡ 0 = sym (ap (λ t. t.rekey_sequence) a.next_eq) ∙ still in
      rw (a.next_eq, current, before) refl

  -- A response that was used leaves no key behind: the manager uses no further response.
  pub process_rekey_response_once :
      (now later : ℕ) (manager next : RekeyManager) (response other : RekeyResponse) (keys : Keys)
      (again : Keys × RekeyManager)
      → process_rekey_response p now manager response ≡ ok (keys, next)
      → ¬ (process_rekey_response p later next other ≡ ok again)
  unfolding process_rekey_response
  process_rekey_response_once now later manager next response other keys again h h' =
      let cleared : next.temp_new_ephemeral_private_key ≡ none =
        unbind (validate_rekey_response p now manager response) h λ valid hv h1.
          unbind (guard valid value_error) h1 λ u hu h2.
            unbind (require response.ephemeral_pub key_error) h2 λ peer_text e3 h3.
              unbind (b64decode peer_text) h3 λ peer_raw e4 h4.
                unbind (parse_public_key peer_raw manager.suite) h4 λ peer e5 h5.
                  unbind (require manager.temp_new_ephemeral_private_key attribute_error) h5
                    λ private e6 h6. unbind (dh_exchange p private peer) h6 λ shared e7 h7.
                      unbind (require manager.temp_new_ephemeral_nonce attribute_error) h7
                        λ nonce e8 h8.
                          unbind (require response.nonce key_error) h8 λ nonce_text e9 h9.
                            unbind (b64decode nonce_text) h9 λ responder e10 h10.
                              sym
                                (ap (λ t. t.1.temp_new_ephemeral_private_key) (ok-injective h10)) in
      unbind (validate_rekey_response p later next other) h' λ valid hv h1.
        unbind (guard valid value_error) h1 λ u hu h2.
          unbind (require other.ephemeral_pub key_error) h2 λ peer_text e3 h3.
            unbind (b64decode peer_text) h3 λ peer_raw e4 h4.
              unbind (parse_public_key peer_raw next.suite) h4 λ peer e5 h5.
                unbind (require next.temp_new_ephemeral_private_key attribute_error) h5
                  λ private e6 h6. absurd (
                    let e = require-eq-ok next.temp_new_ephemeral_private_key attribute_error e6 in
                    cc)
