-- ===== src/Tests/Crypto.antt =====
-- Runs of crypto/ and managers/nonce.py.
use sip_protocol.Prelude.{
  ℕ, ◌^◌, ◌<◌, ◌≡◌, refl, List, [], ◌∷◌, ◌++◌, true, false, some, ok, err, overflow_error, codes,
  ◌>>=◌, arith, length, list_eq, replicate,
}
use sip_protocol.Python.Bytes.{
  from_bytes_acc, from_bytes, digits, to_bytes, bits, bit_length, IsBytes,
}
use sip_protocol.Crypto.Suite.{suite_text, validate_suite, match_offer, negotiate_suite, zh}
use sip_protocol.Crypto.Hkdf.{split_keys, hkdf, derive_keys_triple_dh, derive_keys}
use sip_protocol.Crypto.Sm2.{
  sub_mod, pow_mod, inverse_mod, on_curve, add_slope, point_add, scalar_mult_loop, scalar_mult,
  make_public_key, public_bytes, from_public_bytes, make_private_key, from_private_bytes,
  private_bytes, generate, finite, public_key, exchange, exchange_point, generator,
}
use sip_protocol.Crypto.Sm2Ciphertext.Der.{
  der_encode_length, der_tlv, lstrip_zeros, high_bit, keep_positive, minimal_integer,
  der_encode_coordinate, der_encode, long_length, der_decode_length, der_decode_tlv, redundant_zero,
  der_decode_coordinate, der_decode, is_empty, Components,
}
use sip_protocol.Crypto.Sm2Ciphertext.Format.{
  format_text, known_format, split_raw, strip_04, to_components, from_components, convert_known,
  convert, detect_raw, after_der, starts_with_sequence, detect_format, c1c2c3, der,
}
use sip_protocol.Crypto.Sm2Ciphertext.Decrypt.{
  xor_bytes, shared_point, kdf_loop, kdf, check_c3, verify_c3, open_c2, sm2_decrypt_parts,
  decrypt_ciphertext, make_derive, c1_point,
}
use sip_protocol.Nonce.{
  contains, check_and_add, validate_nonce, generate_nonce, NonceManager, empty, capacity,
}
use sip_protocol.Crypto.Suite.{negotiate_suite_agreed}
use sip_protocol.Crypto.Sm2.Keys.{from_public_bytes-public_bytes, from_private_bytes-private_bytes}
use sip_protocol.Crypto.Sm2Ciphertext.Der.RoundTrip.{
  AreComponents, sequence_of, der_decode-der_encode, der_decode_overflow,
}
use sip_protocol.Crypto.Sm2Ciphertext.Der.Shape.{der_decode-AreComponents}
use sip_protocol.Crypto.Sm2Ciphertext.Format.RoundTrip.{
  raw_old, convert_back, to_components-convert,
}
use sip_protocol.Crypto.Sm2Ciphertext.Decrypt.Keystream.{kdf_total}
use sip_protocol.Crypto.Sm2Ciphertext.Decrypt.Authentic.{
  encrypted, decrypt_ciphertext-encrypted, verify_c3_of_decrypt,
}
use sip_protocol.Nonce.Window.{run, last_of, run-last_of, check_and_add_replay}
use sip_protocol.Nonce.Fresh.{generate_nonce-fresh}
use sip_protocol.Tests.Toys.{toy_sm3, get_ok, replicate-IsBytes}

abbrev pub raw : List ℕ
raw = replicate 98 7

pub raw-IsBytes : IsBytes raw
raw-IsBytes = replicate-IsBytes 98 7 (omega arith)

abbrev pub as_der : List ℕ
as_der = get_ok (convert raw (format_text c1c2c3) (format_text der)) []

pub as_der-ok : convert raw (format_text c1c2c3) (format_text der) ≡ ok as_der
unfolding list_eq from_bytes_acc from_bytes digits to_bytes bits bit_length suite_text
    validate_suite match_offer negotiate_suite split_keys hkdf derive_keys_triple_dh derive_keys
    sub_mod pow_mod inverse_mod on_curve add_slope point_add scalar_mult_loop scalar_mult
    make_public_key public_bytes from_public_bytes make_private_key from_private_bytes private_bytes
    generate finite public_key exchange exchange_point der_encode_length der_tlv lstrip_zeros
    high_bit keep_positive minimal_integer der_encode_coordinate der_encode long_length
    der_decode_length der_decode_tlv redundant_zero der_decode_coordinate der_decode format_text
    known_format split_raw strip_04 to_components from_components convert_known convert detect_raw
    after_der starts_with_sequence detect_format xor_bytes shared_point kdf_loop kdf check_c3
    verify_c3 open_c2 sm2_decrypt_parts decrypt_ciphertext make_derive contains check_and_add
    validate_nonce generate_nonce
as_der-ok = refl

convert_back_example : convert as_der (format_text der) (format_text c1c2c3) ≡ ok raw
convert_back_example =
    convert_back raw as_der c1c2c3 der raw_old raw-IsBytes (omega arith) as_der-ok

to_components-convert_example : to_components as_der der ≡ to_components raw c1c2c3
to_components-convert_example =
    to_components-convert raw as_der c1c2c3 der raw-IsBytes (omega arith) as_der-ok

abbrev point : List ℕ
point = digits 32 generator.0 [] ++ digits 32 generator.1 []

abbrev message : List ℕ
message = codes "ok"

abbrev keystream : List ℕ
keystream = get_ok (kdf toy_sm3 point 2) []

abbrev ciphertext : List ℕ
ciphertext =
    get_ok
      (from_components
        (
          point,
          (encrypted toy_sm3 point keystream message).0,
          (encrypted toy_sm3 point keystream message).1,
        )
        der)
      []

point-IsBytes : IsBytes point
unfolding list_eq from_bytes_acc from_bytes digits to_bytes bits bit_length suite_text
    validate_suite match_offer negotiate_suite split_keys hkdf derive_keys_triple_dh derive_keys
    sub_mod pow_mod inverse_mod on_curve add_slope point_add scalar_mult_loop scalar_mult
    make_public_key public_bytes from_public_bytes make_private_key from_private_bytes private_bytes
    generate finite public_key exchange exchange_point der_encode_length der_tlv lstrip_zeros
    high_bit keep_positive minimal_integer der_encode_coordinate der_encode long_length
    der_decode_length der_decode_tlv redundant_zero der_decode_coordinate der_decode format_text
    known_format split_raw strip_04 to_components from_components convert_known convert detect_raw
    after_der starts_with_sequence detect_format xor_bytes shared_point kdf_loop kdf check_c3
    verify_c3 open_c2 sm2_decrypt_parts decrypt_ciphertext make_derive contains check_and_add
    validate_nonce generate_nonce
point-IsBytes = omega arith

point-shared : shared_point 1 (c1_point point) ≡ ok point
unfolding list_eq from_bytes_acc from_bytes digits to_bytes bits bit_length suite_text
    validate_suite match_offer negotiate_suite split_keys hkdf derive_keys_triple_dh derive_keys
    sub_mod pow_mod inverse_mod on_curve add_slope point_add scalar_mult_loop scalar_mult
    make_public_key public_bytes from_public_bytes make_private_key from_private_bytes private_bytes
    generate finite public_key exchange exchange_point der_encode_length der_tlv lstrip_zeros
    high_bit keep_positive minimal_integer der_encode_coordinate der_encode long_length
    der_decode_length der_decode_tlv redundant_zero der_decode_coordinate der_decode format_text
    known_format split_raw strip_04 to_components from_components convert_known convert detect_raw
    after_der starts_with_sequence detect_format xor_bytes shared_point kdf_loop kdf check_c3
    verify_c3 open_c2 sm2_decrypt_parts decrypt_ciphertext make_derive contains check_and_add
    validate_nonce generate_nonce
point-shared = refl

point-length : length point ≡ 64
unfolding list_eq from_bytes_acc from_bytes digits to_bytes bits bit_length suite_text
    validate_suite match_offer negotiate_suite split_keys hkdf derive_keys_triple_dh derive_keys
    sub_mod pow_mod inverse_mod on_curve add_slope point_add scalar_mult_loop scalar_mult
    make_public_key public_bytes from_public_bytes make_private_key from_private_bytes private_bytes
    generate finite public_key exchange exchange_point der_encode_length der_tlv lstrip_zeros
    high_bit keep_positive minimal_integer der_encode_coordinate der_encode long_length
    der_decode_length der_decode_tlv redundant_zero der_decode_coordinate der_decode format_text
    known_format split_raw strip_04 to_components from_components convert_known convert detect_raw
    after_der starts_with_sequence detect_format xor_bytes shared_point kdf_loop kdf check_c3
    verify_c3 open_c2 sm2_decrypt_parts decrypt_ciphertext make_derive contains check_and_add
    validate_nonce generate_nonce
point-length = refl

keystream-ok : kdf toy_sm3 point (length message) ≡ ok keystream
unfolding list_eq from_bytes_acc from_bytes digits to_bytes bits bit_length suite_text
    validate_suite match_offer negotiate_suite split_keys hkdf derive_keys_triple_dh derive_keys
    sub_mod pow_mod inverse_mod on_curve add_slope point_add scalar_mult_loop scalar_mult
    make_public_key public_bytes from_public_bytes make_private_key from_private_bytes private_bytes
    generate finite public_key exchange exchange_point der_encode_length der_tlv lstrip_zeros
    high_bit keep_positive minimal_integer der_encode_coordinate der_encode long_length
    der_decode_length der_decode_tlv redundant_zero der_decode_coordinate der_decode format_text
    known_format split_raw strip_04 to_components from_components convert_known convert detect_raw
    after_der starts_with_sequence detect_format xor_bytes shared_point kdf_loop kdf check_c3
    verify_c3 open_c2 sm2_decrypt_parts decrypt_ciphertext make_derive contains check_and_add
    validate_nonce generate_nonce
keystream-ok = refl

keystream-nonzero : is_empty (lstrip_zeros keystream) ≡ false
unfolding list_eq from_bytes_acc from_bytes digits to_bytes bits bit_length suite_text
    validate_suite match_offer negotiate_suite split_keys hkdf derive_keys_triple_dh derive_keys
    sub_mod pow_mod inverse_mod on_curve add_slope point_add scalar_mult_loop scalar_mult
    make_public_key public_bytes from_public_bytes make_private_key from_private_bytes private_bytes
    generate finite public_key exchange exchange_point der_encode_length der_tlv lstrip_zeros
    high_bit keep_positive minimal_integer der_encode_coordinate der_encode long_length
    der_decode_length der_decode_tlv redundant_zero der_decode_coordinate der_decode format_text
    known_format split_raw strip_04 to_components from_components convert_known convert detect_raw
    after_der starts_with_sequence detect_format xor_bytes shared_point kdf_loop kdf check_c3
    verify_c3 open_c2 sm2_decrypt_parts decrypt_ciphertext make_derive contains check_and_add
    validate_nonce generate_nonce
keystream-nonzero = refl

ciphertext-ok :
    from_components
      (
        point,
        (encrypted toy_sm3 point keystream message).0,
        (encrypted toy_sm3 point keystream message).1,
      )
      der
    ≡ ok ciphertext
unfolding list_eq from_bytes_acc from_bytes digits to_bytes bits bit_length suite_text
    validate_suite match_offer negotiate_suite split_keys hkdf derive_keys_triple_dh derive_keys
    sub_mod pow_mod inverse_mod on_curve add_slope point_add scalar_mult_loop scalar_mult
    make_public_key public_bytes from_public_bytes make_private_key from_private_bytes private_bytes
    generate finite public_key exchange exchange_point der_encode_length der_tlv lstrip_zeros
    high_bit keep_positive minimal_integer der_encode_coordinate der_encode long_length
    der_decode_length der_decode_tlv redundant_zero der_decode_coordinate der_decode format_text
    known_format split_raw strip_04 to_components from_components convert_known convert detect_raw
    after_der starts_with_sequence detect_format xor_bytes shared_point kdf_loop kdf check_c3
    verify_c3 open_c2 sm2_decrypt_parts decrypt_ciphertext make_derive contains check_and_add
    validate_nonce generate_nonce
ciphertext-ok = refl

decrypt_ciphertext-encrypted_example : decrypt_ciphertext toy_sm3 ciphertext der 1 ≡ ok message
decrypt_ciphertext-encrypted_example =
    decrypt_ciphertext-encrypted toy_sm3 1 point point keystream message ciphertext der point-length
      point-IsBytes point-shared (omega arith) (omega arith) (omega arith) keystream-ok
      keystream-nonzero ciphertext-ok

ciphertext-IsBytes : IsBytes ciphertext
unfolding list_eq from_bytes_acc from_bytes digits to_bytes bits bit_length suite_text
    validate_suite match_offer negotiate_suite split_keys hkdf derive_keys_triple_dh derive_keys
    sub_mod pow_mod inverse_mod on_curve add_slope point_add scalar_mult_loop scalar_mult
    make_public_key public_bytes from_public_bytes make_private_key from_private_bytes private_bytes
    generate finite public_key exchange exchange_point der_encode_length der_tlv lstrip_zeros
    high_bit keep_positive minimal_integer der_encode_coordinate der_encode long_length
    der_decode_length der_decode_tlv redundant_zero der_decode_coordinate der_decode format_text
    known_format split_raw strip_04 to_components from_components convert_known convert detect_raw
    after_der starts_with_sequence detect_format xor_bytes shared_point kdf_loop kdf check_c3
    verify_c3 open_c2 sm2_decrypt_parts decrypt_ciphertext make_derive contains check_and_add
    validate_nonce generate_nonce
ciphertext-IsBytes = omega arith

ciphertext_short : length ciphertext < 2 ^ 62
unfolding list_eq from_bytes_acc from_bytes digits to_bytes bits bit_length suite_text
    validate_suite match_offer negotiate_suite split_keys hkdf derive_keys_triple_dh derive_keys
    sub_mod pow_mod inverse_mod on_curve add_slope point_add scalar_mult_loop scalar_mult
    make_public_key public_bytes from_public_bytes make_private_key from_private_bytes private_bytes
    generate finite public_key exchange exchange_point der_encode_length der_tlv lstrip_zeros
    high_bit keep_positive minimal_integer der_encode_coordinate der_encode long_length
    der_decode_length der_decode_tlv redundant_zero der_decode_coordinate der_decode format_text
    known_format split_raw strip_04 to_components from_components convert_known convert detect_raw
    after_der starts_with_sequence detect_format xor_bytes shared_point kdf_loop kdf check_c3
    verify_c3 open_c2 sm2_decrypt_parts decrypt_ciphertext make_derive contains check_and_add
    validate_nonce generate_nonce
ciphertext_short = omega arith

verify_c3_of_decrypt_example :
    verify_c3 toy_sm3 ciphertext der (some (make_derive 1)) toy_sm3.digest ≡ ok true
verify_c3_of_decrypt_example =
    verify_c3_of_decrypt toy_sm3 ciphertext message der 1 ciphertext-IsBytes ciphertext_short
      decrypt_ciphertext-encrypted_example

abbrev parts : Components
parts = (replicate 64 200, 5 ∷ [], replicate 32 9)

parts-AreComponents : AreComponents parts.0 parts.1 parts.2
parts-AreComponents = record {
  c1_length = refl;
  c1_bytes = replicate-IsBytes 64 200 (omega arith);
  c3_length = refl;
  c2_nonempty = omega arith;
  c2_bound = omega arith;
}

der_decode-der_encode_example :
    (do ct ← der_encode parts.0 parts.1 parts.2; der_decode ct) ≡ ok (parts.0, parts.1, parts.2)
der_decode-der_encode_example = der_decode-der_encode parts.0 parts.1 parts.2 parts-AreComponents

abbrev decoded : Components
decoded = get_ok (der_decode as_der) ([], [], [])

decoded-ok : der_decode as_der ≡ ok decoded
unfolding list_eq from_bytes_acc from_bytes digits to_bytes bits bit_length suite_text
    validate_suite match_offer negotiate_suite split_keys hkdf derive_keys_triple_dh derive_keys
    sub_mod pow_mod inverse_mod on_curve add_slope point_add scalar_mult_loop scalar_mult
    make_public_key public_bytes from_public_bytes make_private_key from_private_bytes private_bytes
    generate finite public_key exchange exchange_point der_encode_length der_tlv lstrip_zeros
    high_bit keep_positive minimal_integer der_encode_coordinate der_encode long_length
    der_decode_length der_decode_tlv redundant_zero der_decode_coordinate der_decode format_text
    known_format split_raw strip_04 to_components from_components convert_known convert detect_raw
    after_der starts_with_sequence detect_format xor_bytes shared_point kdf_loop kdf check_c3
    verify_c3 open_c2 sm2_decrypt_parts decrypt_ciphertext make_derive contains check_and_add
    validate_nonce generate_nonce
decoded-ok = refl

as_der_short : length as_der < 2 ^ 62
unfolding list_eq from_bytes_acc from_bytes digits to_bytes bits bit_length suite_text
    validate_suite match_offer negotiate_suite split_keys hkdf derive_keys_triple_dh derive_keys
    sub_mod pow_mod inverse_mod on_curve add_slope point_add scalar_mult_loop scalar_mult
    make_public_key public_bytes from_public_bytes make_private_key from_private_bytes private_bytes
    generate finite public_key exchange exchange_point der_encode_length der_tlv lstrip_zeros
    high_bit keep_positive minimal_integer der_encode_coordinate der_encode long_length
    der_decode_length der_decode_tlv redundant_zero der_decode_coordinate der_decode format_text
    known_format split_raw strip_04 to_components from_components convert_known convert detect_raw
    after_der starts_with_sequence detect_format xor_bytes shared_point kdf_loop kdf check_c3
    verify_c3 open_c2 sm2_decrypt_parts decrypt_ciphertext make_derive contains check_and_add
    validate_nonce generate_nonce
as_der_short = omega arith

der_decode-AreComponents_example : AreComponents decoded.0 decoded.1 decoded.2
der_decode-AreComponents_example =
    der_decode-AreComponents as_der decoded.0 decoded.1 decoded.2 as_der_short decoded-ok

der_decode_overflow_example :
    der_decode (sequence_of (1 ∷ replicate 32 0) (replicate 33 1) (replicate 32 9) (5 ∷ []))
    ≡ err overflow_error
der_decode_overflow_example =
    der_decode_overflow 1 (replicate 32 0) (replicate 33 1) (replicate 32 9) (5 ∷ []) (omega arith)
      refl (omega arith) refl (omega arith) (omega arith)

kdf_total_example : (ks : List ℕ) × (kdf toy_sm3 point 40 ≡ ok ks) × (length ks ≡ 40) × IsBytes ks
kdf_total_example = kdf_total toy_sm3 point 40 (omega arith)

zh_ok : negotiate_suite (codes "ZH") (codes "ZH") ≡ ok zh
unfolding list_eq from_bytes_acc from_bytes digits to_bytes bits bit_length suite_text
    validate_suite match_offer negotiate_suite split_keys hkdf derive_keys_triple_dh derive_keys
    sub_mod pow_mod inverse_mod on_curve add_slope point_add scalar_mult_loop scalar_mult
    make_public_key public_bytes from_public_bytes make_private_key from_private_bytes private_bytes
    generate finite public_key exchange exchange_point der_encode_length der_tlv lstrip_zeros
    high_bit keep_positive minimal_integer der_encode_coordinate der_encode long_length
    der_decode_length der_decode_tlv redundant_zero der_decode_coordinate der_decode format_text
    known_format split_raw strip_04 to_components from_components convert_known convert detect_raw
    after_der starts_with_sequence detect_format xor_bytes shared_point kdf_loop kdf check_c3
    verify_c3 open_c2 sm2_decrypt_parts decrypt_ciphertext make_derive contains check_and_add
    validate_nonce generate_nonce
zh_ok = refl

negotiate_suite_agreed_example : (codes "ZH" ≡ suite_text zh) × (codes "ZH" ≡ suite_text zh)
negotiate_suite_agreed_example = negotiate_suite_agreed (codes "ZH") (codes "ZH") zh zh_ok

generator-on_curve : on_curve generator ≡ true
unfolding list_eq from_bytes_acc from_bytes digits to_bytes bits bit_length suite_text
    validate_suite match_offer negotiate_suite split_keys hkdf derive_keys_triple_dh derive_keys
    sub_mod pow_mod inverse_mod on_curve add_slope point_add scalar_mult_loop scalar_mult
    make_public_key public_bytes from_public_bytes make_private_key from_private_bytes private_bytes
    generate finite public_key exchange exchange_point der_encode_length der_tlv lstrip_zeros
    high_bit keep_positive minimal_integer der_encode_coordinate der_encode long_length
    der_decode_length der_decode_tlv redundant_zero der_decode_coordinate der_decode format_text
    known_format split_raw strip_04 to_components from_components convert_known convert detect_raw
    after_der starts_with_sequence detect_format xor_bytes shared_point kdf_loop kdf check_c3
    verify_c3 open_c2 sm2_decrypt_parts decrypt_ciphertext make_derive contains check_and_add
    validate_nonce generate_nonce
generator-on_curve = refl

from_public_bytes-public_bytes_example :
    (do encoded ← public_bytes (generator.0, generator.1); from_public_bytes encoded)
    ≡ ok (generator.0, generator.1)
from_public_bytes-public_bytes_example =
    from_public_bytes-public_bytes generator.0 generator.1 (omega arith) (omega arith)
      generator-on_curve

from_private_bytes-private_bytes_example :
    (do encoded ← private_bytes 77; from_private_bytes encoded) ≡ ok 77
from_private_bytes-private_bytes_example =
    from_private_bytes-private_bytes 77 (omega arith) (omega arith)

drawn : generate (replicate 32 0 ∷ (replicate 31 0 ++ (5 ∷ [])) ∷ []) ≡ some 5
unfolding list_eq from_bytes_acc from_bytes digits to_bytes bits bit_length suite_text
    validate_suite match_offer negotiate_suite split_keys hkdf derive_keys_triple_dh derive_keys
    sub_mod pow_mod inverse_mod on_curve add_slope point_add scalar_mult_loop scalar_mult
    make_public_key public_bytes from_public_bytes make_private_key from_private_bytes private_bytes
    generate finite public_key exchange exchange_point der_encode_length der_tlv lstrip_zeros
    high_bit keep_positive minimal_integer der_encode_coordinate der_encode long_length
    der_decode_length der_decode_tlv redundant_zero der_decode_coordinate der_decode format_text
    known_format split_raw strip_04 to_components from_components convert_known convert detect_raw
    after_der starts_with_sequence detect_format xor_bytes shared_point kdf_loop kdf check_c3
    verify_c3 open_c2 sm2_decrypt_parts decrypt_ciphertext make_derive contains check_and_add
    validate_nonce generate_nonce
drawn = refl

abbrev nonces : List (List ℕ)
nonces = codes "a" ∷ codes "b" ∷ codes "a" ∷ []

run-last_of_example : ((run empty nonces).0).used_nonces ≡ last_of capacity (run empty nonces).1
run-last_of_example = run-last_of nonces

first_accepted : (check_and_add empty (codes "c")).1 ≡ true
unfolding list_eq from_bytes_acc from_bytes digits to_bytes bits bit_length suite_text
    validate_suite match_offer negotiate_suite split_keys hkdf derive_keys_triple_dh derive_keys
    sub_mod pow_mod inverse_mod on_curve add_slope point_add scalar_mult_loop scalar_mult
    make_public_key public_bytes from_public_bytes make_private_key from_private_bytes private_bytes
    generate finite public_key exchange exchange_point der_encode_length der_tlv lstrip_zeros
    high_bit keep_positive minimal_integer der_encode_coordinate der_encode long_length
    der_decode_length der_decode_tlv redundant_zero der_decode_coordinate der_decode format_text
    known_format split_raw strip_04 to_components from_components convert_known convert detect_raw
    after_der starts_with_sequence detect_format xor_bytes shared_point kdf_loop kdf check_c3
    verify_c3 open_c2 sm2_decrypt_parts decrypt_ciphertext make_derive contains check_and_add
    validate_nonce generate_nonce
first_accepted = refl

check_and_add_replay_example :
    check_and_add (run (check_and_add empty (codes "c")).0 nonces).0 (codes "c")
    ≡ ((run (check_and_add empty (codes "c")).0 nonces).0, false)
check_and_add_replay_example =
    check_and_add_replay empty (codes "c") nonces first_accepted (omega arith)

abbrev with_b : NonceManager
with_b = record { used_nonces = codes "b" ∷ [] }

abbrev with_both : NonceManager
with_both = record { used_nonces = codes "b" ∷ codes "a" ∷ [] }

generated_a : generate_nonce with_b (codes "b" ∷ codes "a" ∷ []) ≡ some (codes "a", with_both)
unfolding list_eq from_bytes_acc from_bytes digits to_bytes bits bit_length suite_text
    validate_suite match_offer negotiate_suite split_keys hkdf derive_keys_triple_dh derive_keys
    sub_mod pow_mod inverse_mod on_curve add_slope point_add scalar_mult_loop scalar_mult
    make_public_key public_bytes from_public_bytes make_private_key from_private_bytes private_bytes
    generate finite public_key exchange exchange_point der_encode_length der_tlv lstrip_zeros
    high_bit keep_positive minimal_integer der_encode_coordinate der_encode long_length
    der_decode_length der_decode_tlv redundant_zero der_decode_coordinate der_decode format_text
    known_format split_raw strip_04 to_components from_components convert_known convert detect_raw
    after_der starts_with_sequence detect_format xor_bytes shared_point kdf_loop kdf check_c3
    verify_c3 open_c2 sm2_decrypt_parts decrypt_ciphertext make_derive contains check_and_add
    validate_nonce generate_nonce
generated_a = refl

generate_nonce-fresh_example :
    ((check_and_add with_b (codes "a")).1 ≡ true)
    × (check_and_add with_both (codes "a") ≡ (with_both, false))
    × (with_both.used_nonces ≡ with_b.used_nonces ++ (codes "a" ∷ []))
generate_nonce-fresh_example =
    generate_nonce-fresh with_b with_both (codes "b" ∷ codes "a" ∷ []) (codes "a") generated_a
