-- ===== src/FileTransfer/Unpacker.antt =====
-- filetransfer/unpacker.py: the file of an artifact. Paths and temporary files are not modelled:
-- the result is what `os.replace` puts in place, and an error leaves no file.
use sip_protocol.Prelude.{
  ℕ, zero, suc, ◌+◌, [], ◌++◌, some, Error, Result, ok, err, artifact_corrupted, chunk_integrity,
  ◌>>=◌, ◌>>◌, guard, length, ◌==◌,
}
use sip_protocol.Python.Hex.{fromhex}
use sip_protocol.Crypto.Suite.{Suite}
use sip_protocol.Crypto.Primitives.{Bytes, Primitives}
use sip_protocol.Crypto.Aead.{aead_decrypt, nonce_length, tag_length}
use sip_protocol.Crypto.Sm2Ciphertext.Der.{is_empty}
use sip_protocol.FileTransfer.Format.{
  ArtifactHeader, HeaderJson, magic, from_json_bytes, derive_header_key, derive_chunk_key,
  chunk_aad, read_exact, read_prefix, read_frame, expected_chunk_length,
}

-- `except InvalidTag as error: raise …`
unfoldable pub on_invalid_tag : Error → Result Bytes → Result Bytes
on_invalid_tag e (ok plain) = ok plain
on_invalid_tag e (err Error.invalid_tag) = err e
on_invalid_tag e (err other) = err other

module _ (p : Primitives) (json : HeaderJson) (master : Bytes) (s : Suite) where
  -- `_read_header`: the header, its tag and the reader after it
  unfoldable pub read_header : Bytes → Result (ArtifactHeader × Bytes × Bytes)
  unfolding on_invalid_tag
  read_header src = do
    (n, r1) ← read_prefix src
    (nonce, r2) ← read_exact r1 nonce_length
    (ct, r3) ← read_exact r2 n
    (tag, r4) ← read_exact r3 tag_length
    plain ←
        on_invalid_tag artifact_corrupted
          (aead_decrypt p (derive_header_key p master s) ct nonce tag (some magic) s)
    h ← from_json_bytes json plain
    ok (h, tag, r4)

  -- one round of the loop of `_verify_chunks`: the plaintext, its tag and the reader after it
  unfoldable pub open_chunk :
      ArtifactHeader → Bytes → ℕ → Bytes → Bytes → Result (Bytes × Bytes × Bytes)
  unfolding on_invalid_tag
  open_chunk h id index prev_tag src = do
    (f, rest) ← read_frame src (expected_chunk_length h index)
    aad ← chunk_aad id index prev_tag
    plain ←
        on_invalid_tag (chunk_integrity index)
          (aead_decrypt p (derive_chunk_key p master id index s) f.ct f.nonce f.tag (some aad) s)
    ok (plain, f.tag, rest)

  -- `for index in range(total_chunks)`, over the rounds left: the bytes written and the reader
  unfoldable pub verify_loop :
      ArtifactHeader → Bytes → ℕ → ℕ → Bytes → Bytes → Result (Bytes × Bytes)
  verify_loop h id zero index prev_tag src = ok ([], src)
  verify_loop h id (suc left) index prev_tag src = do
    (plain, tag, r1) ← open_chunk h id index prev_tag src
    (out, r2) ← verify_loop h id left (index + 1) tag r1
    ok (plain ++ out, r2)

  -- `_verify_chunks`
  unfoldable pub verify_chunks : ArtifactHeader → Bytes → Bytes → Result (Bytes × Bytes)
  unfolding verify_loop
  verify_chunks h prev_tag src = do
    id ← fromhex h.file_id
    (out, rest) ← verify_loop h id h.total_chunks 0 prev_tag src
    guard (length out == h.total_size) artifact_corrupted
    ok (out, rest)

  -- `unpack_file`, `_ensure_eof` included: the header and the file
  unfoldable pub unpack_file : Bytes → Result (ArtifactHeader × Bytes)
  unfolding read_header verify_chunks
  unpack_file artifact = do
    (h, tag, src) ← read_header artifact
    (out, rest) ← verify_chunks h tag src
    guard (is_empty rest) artifact_corrupted
    ok (h, out)
