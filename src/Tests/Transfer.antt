-- ===== src/Tests/Transfer.antt =====
-- An artifact of one chunk.
use sip_protocol.Prelude.{◌≡◌, refl, [], ◌∷◌, ok, codes, arith, length, list_eq, ◌≤◌}
use sip_protocol.Python.Hex.{hex_digit, hex, digit_value, is_space, hex_pair, fromhex}
use sip_protocol.Python.Bytes.{from_bytes_acc, from_bytes, digits, to_bytes, bits, bit_length}
use sip_protocol.Crypto.Hkdf.{split_keys, hkdf, derive_keys_triple_dh, derive_keys}
use sip_protocol.Crypto.Aead.{aead_encrypt, aead_decrypt}
use sip_protocol.FileTransfer.Format.{
  validate_chunk_size, chunk_count, nonnegative, corrupted, validate_header, expected_chunk_length,
  is_format, to_json_bytes, from_json_bytes, derive_header_key, derive_chunk_key, pack_u32,
  chunk_aad, read_exact, frame, read_frame, prefix, read_prefix, ArtifactHeader,
}
use sip_protocol.FileTransfer.Packer.{
  seal_chunk, write_chunks, write_artifact, pack_file, PackInputs, header_of,
}
use sip_protocol.Crypto.Suite.{en}
use sip_protocol.Crypto.Primitives.{Bytes}
use sip_protocol.FileTransfer.Unpacker.{unpack_file}
use sip_protocol.FileTransfer.RoundTrip.{AreInputs, unpack_file-pack_file}
use sip_protocol.Tests.Toys.{toy_primitives, toy_json, get_ok, dump_header, put_int, put_text}

abbrev inputs : PackInputs
inputs = record {
  file_id = 1 ∷ 2 ∷ 3 ∷ 4 ∷ 5 ∷ 6 ∷ 7 ∷ 8 ∷ 9 ∷ 10 ∷ 11 ∷ 12 ∷ 13 ∷ 14 ∷ 15 ∷ 255 ∷ [];
  header_nonce = codes "header_nonce";
  nonces = λ i. codes "some_nonce_1";
  file_name = codes "a.txt";
  mime_type = codes "text/plain";
  created_at = codes "2026";
}

abbrev master : Bytes
master = codes "master key"

abbrev content : Bytes
content = codes "the content of a file"

abbrev header : ArtifactHeader
header = header_of inputs (length content) 1024

inputs-AreInputs : AreInputs inputs
inputs-AreInputs = record {
  id_bytes = omega arith;
  id_length = refl;
  header_nonce_length = refl;
  nonces_length = λ i. refl;
}

abbrev packed : ArtifactHeader × Bytes
packed =
    get_ok (pack_file toy_primitives toy_json master inputs (length content) 1024 en content)
      (header, [])

packed-ok :
    pack_file toy_primitives toy_json master inputs (length content) 1024 en content ≡ ok packed
unfolding list_eq dump_header put_int put_text hex_digit hex digit_value is_space hex_pair fromhex
    from_bytes_acc from_bytes digits to_bytes bits bit_length split_keys hkdf derive_keys_triple_dh
    derive_keys aead_encrypt aead_decrypt validate_chunk_size chunk_count nonnegative corrupted
    validate_header expected_chunk_length is_format to_json_bytes from_json_bytes derive_header_key
    derive_chunk_key pack_u32 chunk_aad read_exact frame read_frame prefix read_prefix seal_chunk
    write_chunks write_artifact pack_file
packed-ok = refl

short_header : length (to_json_bytes toy_json header) ≤ 65536
unfolding list_eq dump_header put_int put_text hex_digit hex digit_value is_space hex_pair fromhex
    from_bytes_acc from_bytes digits to_bytes bits bit_length split_keys hkdf derive_keys_triple_dh
    derive_keys aead_encrypt aead_decrypt validate_chunk_size chunk_count nonnegative corrupted
    validate_header expected_chunk_length is_format to_json_bytes from_json_bytes derive_header_key
    derive_chunk_key pack_u32 chunk_aad read_exact frame read_frame prefix read_prefix seal_chunk
    write_chunks write_artifact pack_file
short_header = omega arith

unpack_file-pack_file_example :
    unpack_file toy_primitives toy_json master en packed.1 ≡ ok (packed.0, content)
unpack_file-pack_file_example =
    unpack_file-pack_file toy_primitives toy_json master en inputs 1024 content packed.1 packed.0
      inputs-AreInputs (unfold chunk_count in omega arith) short_header packed-ok
