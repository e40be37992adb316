-- ===== src/Interop/RekeyAgreement.antt =====
-- Changes of keys between the library and the reference, in the suite EN.
use sip_protocol.Prelude.{
  ℕ, ◌≡◌, refl, ap, sym, ◌∙◌, List, true, some, ok, guard, require, get_default, unbind,
  ok-injective, list_eq, value_error, key_error,
}
use sip_protocol.Python.Base64.{b64encode, b64decode}
use sip_protocol.Python.Bytes.{IsBytes}
use sip_protocol.Python.Utf8
use sip_protocol.Crypto.Suite.{en, suite_text}
use sip_protocol.Crypto.Primitives.{Primitives}
use sip_protocol.Crypto.Sm3.{Sm3}
use sip_protocol.Crypto.Hkdf.{Keys}
use sip_protocol.Protocol.Handshake.{is_version, is_fresh}
use sip_protocol.Protocol.Rekey.{
  RekeyManager, RekeyRequest, RekeyResponse, RekeyInputs, create_rekey_request, derive_new_keys,
  process_rekey_request, process_rekey_response,
}
use sip_protocol.Protocol.Rekey.Agreement.{process_rekey_response-request}
use sip_protocol.Interop.Hkdf.{hmac_digest}
use sip_protocol.Interop.Handshake.{
  RefInputs, accept_suite, check_time, choose_nonce, choose_pair, dh_for_suite,
}
use sip_protocol.Interop.Rekey.{
  check_sequence, signed_request, signed_response, derive_rekey_keys, reference_rekey_request,
}
use sip_protocol.Interop.Documented.{AreDocumented}
use sip_protocol.Interop.MessagesAgreement.{accept_suite-suite_text}
use sip_protocol.Interop.RekeyParts.{
  as_rekey_inputs, responder_of, derive_rekey_keys-agrees, checked, answered,
}

module _ (p : Primitives) (sm3 : Sm3) where
  -- In the suite EN, where the reference checks times and answers a request, the library's responder
  -- with the same keys and the same last sequence number gives the same answer, signature included,
  -- and makes the same new keys.
  pub process_rekey_request-reference_rekey_request :
      AreDocumented p sm3
      → (i : RefInputs) (keys new_keys : Keys) (request : RekeyRequest) (seen : ℕ)
        (response : RekeyResponse)
      → i.check_timestamp ≡ true
      → reference_rekey_request p sm3 i keys request seen (suite_text en) ≡ ok (response, new_keys)
      → (next : RekeyManager) × (process_rekey_request p
            (as_rekey_inputs i)
            (responder_of keys seen)
            request
          ≡ (next, ok response))
        × (next.temp_new_keys ≡ some new_keys)
  unfolding reference_rekey_request
  process_rekey_request-reference_rekey_request d i keys new_keys request seen response checks h =
      let n_resp = choose_nonce i.nonce i.nonce_draw in
      unbind (accept_suite (suite_text en)) h λ s hs h1.
        let same : s ≡ en = ok-injective (sym hs ∙ accept_suite-suite_text en) in
        let h1' = rw same at h1 in
        unbind (guard (is_version request.version) value_error) h1' λ u1 hv h2.
          unbind (check_time i.check_timestamp i.read_at request.timestamp) h2 λ u2 ht h3.
            unbind (check_sequence seen request.sequence) h3 λ u3 hq h4.
              unbind (require request.ephemeral_pub key_error) h4 λ eph_text he h5.
                unbind (require request.nonce key_error) h5 λ nonce_text hn h6.
                  unbind (require request.reason key_error) h6 λ reason hr h7.
                    unbind (require request.key_lifetime key_error) h7 λ key_lifetime hl h8.
                      unbind (Utf8.encode (signed_request eph_text nonce_text reason key_lifetime))
                        h8
                        λ signed hg h9.
                          unbind (require request.signature key_error) h9 λ signature_text hst h10.
                            unbind (b64decode signature_text) h10 λ signature hd h11.
                              unbind
                                (guard
                                  (list_eq signature (hmac_digest p sm3 keys.auth_key signed en))
                                  value_error)
                                h11
                                λ u4 hc h12.
                                  unbind (choose_pair p i.ephemeral_priv i.ephemeral_draws en) h12
                                    λ pair hp h13. unbind (b64decode eph_text) h13 λ peer hpeer h14.
                                      unbind (dh_for_suite p pair.0 peer en) h14 λ shared hx h15.
                                        unbind (b64decode nonce_text) h15 λ nonce_req hnr h16.
                                          unbind
                                            (derive_rekey_keys p sm3 shared keys nonce_req n_resp
                                              en)
                                            h16
                                            λ found hk h17.
                                              unbind
                                                (Utf8.encode (
                                                  signed_response (b64encode pair.1)
                                                    (b64encode n_resp)))
                                                h17
                                                λ answer ha h18.
                                                  unbind (require request.sequence key_error) h18
                                                    λ sequence hsq h19.
                                                      let keys_eq : found
                                                          ≡ derive_new_keys p
                                                            (responder_of keys seen) shared
                                                            nonce_req n_resp =
                                                        ok-injective (
                                                          sym hk
                                                          ∙ derive_rekey_keys-agrees p sm3 d
                                                            (responder_of keys seen) shared
                                                            nonce_req n_resp) in
                                                      let passed =
                                                        checked p sm3 d i.read_at sequence seen keys
                                                          request eph_text nonce_text reason
                                                          signature_text key_lifetime signed
                                                          signature hv (rw checks at ht) hq he hn hr
                                                          hl hg hst hd hc hsq in
                                                      let (next, done, made) =
                                                        answered p sm3 d i keys request sequence
                                                          seen eph_text nonce_text pair peer shared
                                                          nonce_req answer passed hsq hp he hpeer hx
                                                          hn hnr ha in
                                                      let result = ok-injective h19 in
                                                      (
                                                        next,
                                                        done
                                                            ∙ ap
                                                            (λ (t : RekeyResponse × Keys).
                                                            (next, ok t.0))
                                                            result,
                                                        made
                                                            ∙ ap some (sym keys_eq)
                                                            ∙ ap
                                                            (λ (t : RekeyResponse × Keys). some t.1)
                                                            result,
                                                      )

  -- Where the primitives are documented as RFC 2104 and RFC 5869 have them, the library asks for new
  -- keys and the reference, which checks times, answers, in the suite EN, with the same keys and with
  -- nonces of bytes: where the answer is fresh when the library reads it, the library uses it and both
  -- have the same new keys.
  pub process_rekey_response-reference_rekey_request :
      AreDocumented p sm3
      → (inputs : RekeyInputs) (i : RefInputs) (a requested : RekeyManager) (keys new_keys : Keys)
        (reason : List ℕ) (key_lifetime read_at seen : ℕ) (request : RekeyRequest)
        (response : RekeyResponse)
      → i.check_timestamp ≡ true
      → IsBytes inputs.nonce
      → IsBytes (choose_nonce i.nonce i.nonce_draw)
      → a.keys ≡ keys
      → a.suite ≡ en
      → create_rekey_request p inputs a reason key_lifetime ≡ ok (request, requested)
      → reference_rekey_request p sm3 i keys request seen (suite_text en) ≡ ok (response, new_keys)
      → is_fresh read_at i.made_at ≡ true
      → (used : RekeyManager) × (process_rekey_response p read_at requested response
          ≡ ok (new_keys, used))
  process_rekey_response-reference_rekey_request d inputs i a requested keys new_keys reason
        key_lifetime read_at seen request response checks hna hnb hk hs hc hr fresh =
      let (next, processed, made) =
        process_rekey_request-reference_rekey_request d i keys new_keys request seen response checks
          hr in
      let (derived, used, done, both) =
        process_rekey_response-request p inputs (as_rekey_inputs i) a requested
          (responder_of keys seen) next reason key_lifetime read_at request response hna hnb hk hs
          refl hc processed fresh in
      let same : derived ≡ new_keys = ap (λ o. get_default o derived) (sym both ∙ made) in
      (used, done ∙ ap (λ t. ok (t, used)) same)
