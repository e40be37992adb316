-- ===== src/Interop/RekeyParts.antt =====
-- The parts of a change of keys in the library and in the reference: the key schedule, the checks of
-- a request, and its answer.
use sip_protocol.Prelude.{
  ℕ, zero, suc, ◌≡◌, refl, sym, List, ◌++◌, true, false, not, Option, none, some, ok, ◌>>=◌, guard,
  require, unbind, guard-eq-ok, require-eq-ok, list_eq, leb, arith, codes, value_error, key_error,
}
use sip_protocol.Python.Base64.{b64encode, b64decode}
use sip_protocol.Python.Utf8
use sip_protocol.Crypto.Suite.{Suite, en, zh}
use sip_protocol.Crypto.Primitives.{Bytes, Primitives}
use sip_protocol.Crypto.Sm3.{Sm3}
use sip_protocol.Crypto.Hkdf.{Keys, split_keys, hkdf, okm_length}
use sip_protocol.Crypto.Dh.{dh_exchange, serialize_public_key, parse_public_key, parse_raw}
use sip_protocol.Protocol.Message.{protocol_version}
use sip_protocol.Protocol.Handshake.{is_version, is_fresh}
use sip_protocol.Protocol.Rekey.{
  RekeyManager, RekeyRequest, RekeyInputs, check, caught, request_text, response_text, is_next,
  sign, validate_rekey_request, derive_new_keys, answer_request, save_answer, continue_request,
  checked_sequence, process_rekey_request,
}
use sip_protocol.Interop.Hkdf.{hkdf_for_suite, hmac_digest}
use sip_protocol.Interop.Handshake.{
  RefInputs, check_time, choose_nonce, choose_pair, dh_for_suite, slice_keys, reference_length,
}
use sip_protocol.Interop.Rekey.{check_sequence, signed_request, signed_response, derive_rekey_keys}
use sip_protocol.Interop.Documented.{hkdf_for_suite-agrees, AreDocumented, hmac_digest-agrees}
use sip_protocol.Interop.HandshakeParts.{drawn, choose_pair-ephemeral, dh_for_suite-ok}

-- The same draws and times, as the library takes them.
abbrev pub as_rekey_inputs : RefInputs → RekeyInputs
as_rekey_inputs i = record {
  draws = drawn i.ephemeral_priv i.ephemeral_draws;
  nonce = choose_nonce i.nonce i.nonce_draw;
  read_at = i.read_at;
  made_at = i.made_at;
}

-- The library's responder with these keys, in the suite EN.
abbrev pub responder_of : Keys → ℕ → RekeyManager
responder_of keys sequence = record {
  keys = keys;
  rekey_count = 0;
  rekey_sequence = sequence;
  is_initiator = false;
  suite = en;
  temp_new_ephemeral_private_key = none;
  temp_new_ephemeral_nonce = none;
  temp_new_keys = none;
}

check_sequence-is_next : (n : ℕ) (o : Option ℕ) → check_sequence n o ≡ ok tt → is_next n o ≡ ok true
unfolding check_sequence is_next
check_sequence-is_next zero o h = refl
check_sequence-is_next (suc n) o h =
    unbind (require o key_error) h
      λ q hq h1. rw (hq, guard-eq-ok (not (leb q (suc n))) value_error h1) refl

module _ (p : Primitives) (sm3 : Sm3) where
  -- The reference derives the same new keys as the library, in both suites.
  pub derive_rekey_keys-agrees :
      AreDocumented p sm3
      → (manager : RekeyManager) (shared nonce_req nonce_resp : Bytes)
      → derive_rekey_keys p sm3 shared manager.keys nonce_req nonce_resp manager.suite
        ≡ ok (derive_new_keys p manager shared nonce_req nonce_resp)
  unfolding derive_rekey_keys derive_new_keys slice_keys split_keys hkdf
  derive_rekey_keys-agrees d manager shared nonce_req nonce_resp = for_suite manager.suite (
      shared
      ++ (manager.keys.encryption_key
          ++ (manager.keys.auth_key ++ (manager.keys.replay_key ++ (nonce_req ++ nonce_resp)))))
    where
      for_suite :
          (s : Suite) (ikm : Bytes)
          → (do
            okm ←
                hkdf_for_suite p sm3 ikm
                  (codes "SIPRekey")
                  (codes "SIP-rekey")
                  (reference_length p sm3 s)
                  s
            ok (slice_keys p sm3 okm s))
            ≡ ok (split_keys (hkdf p ikm (codes "SIPRekey") (codes "SIP-rekey") (okm_length s) s) s)
      for_suite en ikm =
          rw
            (hkdf_for_suite-agrees d en (codes "SIPRekey") (codes "SIP-rekey") ikm 96 (omega arith))
            refl
      for_suite zh ikm =
          rw
            (hkdf_for_suite-agrees d zh (codes "SIPRekey") (codes "SIP-rekey") ikm 80 (omega arith))
            refl

  -- A request that passes the reference's checks passes the library's.
  pub checked :
      AreDocumented p sm3
      → (now sequence seen : ℕ) (keys : Keys) (request : RekeyRequest)
        (eph_text nonce_text reason signature_text : List ℕ) (key_lifetime : ℕ)
        (signed signature : Bytes)
      → guard (is_version request.version) value_error ≡ ok tt
      → check_time true now request.timestamp ≡ ok tt
      → check_sequence seen request.sequence ≡ ok tt
      → require request.ephemeral_pub key_error ≡ ok eph_text
      → require request.nonce key_error ≡ ok nonce_text
      → require request.reason key_error ≡ ok reason
      → require request.key_lifetime key_error ≡ ok key_lifetime
      → Utf8.encode (signed_request eph_text nonce_text reason key_lifetime) ≡ ok signed
      → require request.signature key_error ≡ ok signature_text
      → b64decode signature_text ≡ ok signature
      → guard (list_eq signature (hmac_digest p sm3 keys.auth_key signed en)) value_error ≡ ok tt
      → require request.sequence key_error ≡ ok sequence
      → checked_sequence p now (responder_of keys seen) request ≡ ok sequence
  unfolding checked_sequence validate_rekey_request check caught sign check_time signed_request
      request_text
  checked d now sequence seen keys request eph_text nonce_text reason signature_text key_lifetime
        signed signature hv ht hq he hn hr hl hs hg hd same hseq =
      unbind (require request.timestamp key_error) ht λ sent hsent h1.
        rw
          (
            guard-eq-ok (is_version request.version) value_error hv,
            hsent,
            guard-eq-ok (is_fresh now sent) value_error h1,
            require-eq-ok request.signature key_error hg,
            hd,
            require-eq-ok request.ephemeral_pub key_error he,
            require-eq-ok request.nonce key_error hn,
            require-eq-ok request.reason key_error hr,
            require-eq-ok request.key_lifetime key_error hl,
            hs,
            sym (hmac_digest-agrees d keys.auth_key signed en),
            guard-eq-ok (list_eq signature (hmac_digest p sm3 keys.auth_key signed en)) value_error
                same,
            check_sequence-is_next seen request.sequence hq,
            require-eq-ok request.sequence key_error hseq,
          )
          refl

  -- What the reference answers from its parts, the library answers too.
  pub answered :
      AreDocumented p sm3
      → (i : RefInputs) (keys : Keys) (request : RekeyRequest) (sequence seen : ℕ)
        (eph_text nonce_text : List ℕ) (pair : Bytes × Bytes) (peer shared nonce_req answer : Bytes)
      → checked_sequence p i.read_at (responder_of keys seen) request ≡ ok sequence
      → require request.sequence key_error ≡ ok sequence
      → choose_pair p i.ephemeral_priv i.ephemeral_draws en ≡ ok pair
      → require request.ephemeral_pub key_error ≡ ok eph_text
      → b64decode eph_text ≡ ok peer
      → dh_for_suite p pair.0 peer en ≡ ok shared
      → require request.nonce key_error ≡ ok nonce_text
      → b64decode nonce_text ≡ ok nonce_req
      → Utf8.encode
          (signed_response (b64encode pair.1) (b64encode (choose_nonce i.nonce i.nonce_draw)))
        ≡ ok answer
      → (next : RekeyManager) × (process_rekey_request p
            (as_rekey_inputs i)
            (responder_of keys seen)
            request
          ≡ (
            next,
            ok record {
              version = some protocol_version;
              timestamp = some i.made_at;
              sequence = some sequence;
              ephemeral_pub = some (b64encode pair.1);
              nonce = some (b64encode (choose_nonce i.nonce i.nonce_draw));
              signature = some (b64encode (hmac_digest p sm3 keys.auth_key answer en));
            },
          ))
        × (next.temp_new_keys
            ≡ some (
                derive_new_keys p
                  (responder_of keys seen)
                  shared
                  nonce_req
                  (choose_nonce i.nonce i.nonce_draw)))
  unfolding process_rekey_request continue_request save_answer answer_request sign
      serialize_public_key parse_public_key parse_raw dh_exchange signed_response response_text
      derive_new_keys
  answered d i keys request sequence seen eph_text nonce_text pair peer shared nonce_req answer hq
        hseq hp he hd hx hn hm ha =
      let (public_eq, drawn_ok) =
        choose_pair-ephemeral p i.ephemeral_priv i.ephemeral_draws pair.0 pair.1 hp in
      let (len, exchanged) = dh_for_suite-ok p pair.0 peer shared hx in
      rw
        (
          process_rekey_request,
          hq,
          drawn_ok,
          require-eq-ok request.ephemeral_pub key_error he,
          hd,
          len,
          exchanged,
          require-eq-ok request.nonce key_error hn,
          hm,
          ha,
          require-eq-ok request.sequence key_error hseq,
          hmac_digest-agrees d keys.auth_key answer en,
        )
        (_, refl, refl)
