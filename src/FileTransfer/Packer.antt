-- ===== src/FileTransfer/Packer.antt =====
-- filetransfer/packer.py: the artifact of a file. The random file id and nonces, the time and the
-- guessed MIME type are arguments; a failing disk is not modelled.
use sip_protocol.Prelude.{
  ℕ, zero, suc, ◌+◌, [], ◌∷◌, ◌++◌, some, Result, ok, file_transfer, file_too_large, ◌>>=◌, ◌>>◌,
  guard, length, take, drop, leb, ◌==◌,
}
use sip_protocol.Python.Hex.{fromhex, hex}
use sip_protocol.Crypto.Suite.{Suite}
use sip_protocol.Crypto.Primitives.{Bytes, Primitives}
use sip_protocol.Crypto.Aead.{aead_encrypt}
use sip_protocol.FileTransfer.Format.{
  ArtifactHeader, HeaderJson, magic, max_file_size, validate_chunk_size, chunk_count, to_json_bytes,
  derive_header_key, derive_chunk_key, chunk_aad, frame, prefix,
}

-- What `pack_file` draws or asks the system for; `nonces i` is the nonce of chunk `i`.
pub record PackInputs : Type 0 where
  pub file_id : Bytes
  pub header_nonce : Bytes
  pub nonces : ℕ → Bytes
  pub file_name : Bytes
  pub mime_type : Bytes
  pub created_at : Bytes

module _ (p : Primitives) (master : Bytes) (file_id : Bytes) (s : Suite) (nonces : ℕ → Bytes) where
  -- one round of the loop: the frame of a chunk, and its tag
  unfoldable pub seal_chunk : ℕ → Bytes → Bytes → Result (Bytes × Bytes)
  seal_chunk index prev_tag plain = do
    aad ← chunk_aad file_id index prev_tag
    (ct, tag) ←
        aead_encrypt p (derive_chunk_key p master file_id index s) plain (nonces index) (some aad) s
    ok (frame (nonces index) ct tag, tag)

  -- `while True: plaintext = src.read(chunk_size)`: the bytes written and the chunks counted. Each
  -- round reads a byte at least, so the length of the file is enough fuel.
  unfoldable pub write_chunks : ℕ → ℕ → ℕ → Bytes → Bytes → Result (Bytes × ℕ)
  write_chunks zero chunk_size index prev_tag src = ok ([], 0)
  write_chunks (suc fuel) chunk_size index prev_tag [] = ok ([], 0)
  write_chunks (suc fuel) chunk_size index prev_tag (b ∷ src) = do
    (out, tag) ← seal_chunk index prev_tag (take chunk_size (b ∷ src))
    (rest, n) ← write_chunks fuel chunk_size (index + 1) tag (drop chunk_size (b ∷ src))
    ok (out ++ rest, n + 1)

-- the header that `pack_file` makes
abbrev pub header_of : PackInputs → ℕ → ℕ → ArtifactHeader
header_of inputs total_size chunk_size = record {
  file_id = hex inputs.file_id;
  file_name = inputs.file_name;
  mime_type = inputs.mime_type;
  total_size = total_size;
  chunk_size = chunk_size;
  total_chunks = chunk_count total_size chunk_size;
  created_at = inputs.created_at;
}

module _ (p : Primitives) (json : HeaderJson) (master : Bytes) where
  -- `_write_artifact` on a source that holds `content`: the artifact and the chunks written
  unfoldable pub write_artifact : PackInputs → ArtifactHeader → Suite → Bytes → Result (Bytes × ℕ)
  write_artifact inputs h s content = do
    id ← fromhex h.file_id
    (header_ct, header_tag) ←
        aead_encrypt p (derive_header_key p master s) (to_json_bytes json h) inputs.header_nonce
          (some magic) s
    start ← prefix (length header_ct)
    (chunks, written) ←
        write_chunks p master id s inputs.nonces (length content) h.chunk_size 0 header_tag content
    ok (start ++ (frame inputs.header_nonce header_ct header_tag ++ chunks), written)

  -- `pack_file`; `total_size` is what `os.path.getsize` said before the file was read
  unfoldable pub pack_file : PackInputs → ℕ → ℕ → Suite → Bytes → Result (ArtifactHeader × Bytes)
  unfolding write_artifact
  pack_file inputs total_size chunk_size s content = do
    validate_chunk_size chunk_size
    guard (leb total_size max_file_size) file_too_large
    let h = header_of inputs total_size chunk_size
    (artifact, written) ← write_artifact inputs h s content
    guard (written == h.total_chunks) file_transfer
    ok (h, artifact)
