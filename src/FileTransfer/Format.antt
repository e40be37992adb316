-- ===== src/FileTransfer/Format.antt =====
-- filetransfer/format.py: the layout of an artifact, its header and its key schedule. A writer is
-- the list of the bytes written, a reader the list of the bytes left.
use sip_protocol.Prelude.{
  ℕ, ◌+◌, ◌-◌, ◌*◌, ◌/◌, ◌%◌, ◌^◌, ◌≡◌, [], ◌++◌, Bool, false, ◌&&◌, Option, none, some, Result, ok,
  err, artifact_corrupted, struct_error, ◌>>=◌, ◌>>◌, guard, require, get_default, length, take,
  drop, ltb, leb, ◌==◌, if◌then◌else◌, list_eq, codes,
}
use sip_protocol.Python.Bytes.{digits, from_bytes}
use sip_protocol.Python.Hex.{fromhex}
use sip_protocol.Python.Json.{decimal}
use sip_protocol.Crypto.Suite.{Suite, aead_key_length}
use sip_protocol.Crypto.Primitives.{Bytes, Primitives}
use sip_protocol.Crypto.Aead.{nonce_length, tag_length}
use sip_protocol.Crypto.Hkdf.{hkdf}

abbrev pub magic : Bytes
magic = codes "SIPFT1.0"

abbrev pub header_format : ℕ
header_format = 1

abbrev pub file_id_length : ℕ
file_id_length = 16

abbrev pub max_header_length : ℕ
max_header_length = 64 * 1024

abbrev pub max_total_chunks : ℕ
max_total_chunks = 65536

abbrev pub min_chunk_size : ℕ
min_chunk_size = 1024

abbrev pub max_chunk_size : ℕ
max_chunk_size = 16 * 1024 * 1024

abbrev pub max_file_size : ℕ
max_file_size = 5 * 1024 * 1024 * 1024

-- A number of a JSON text; `negsuc n` is -(n + 1).
pub data ℤ : Type 0 where
  pos : ℕ → ℤ
  negsuc : ℕ → ℤ

-- `ArtifactHeader`, once it is validated
pub record ArtifactHeader : Type 0 where
  pub file_id : Bytes
  pub file_name : Bytes
  pub mime_type : Bytes
  pub total_size : ℕ
  pub chunk_size : ℕ
  pub total_chunks : ℕ
  pub created_at : Bytes

-- The dictionary of the header's JSON text, each key present or not.
pub record HeaderDict : Type 0 where
  pub format : Option ℤ
  pub file_id : Option Bytes
  pub file_name : Option Bytes
  pub mime_type : Option Bytes
  pub total_size : Option ℤ
  pub chunk_size : Option ℤ
  pub total_chunks : Option ℤ
  pub created_at : Option Bytes

-- `json.dumps(…).encode("utf-8")` and `json.loads(raw.decode("utf-8"))` on such dictionaries.
pub record HeaderJson : Type 0 where
  pub dumps : HeaderDict → Bytes
  pub loads : Bytes → Option HeaderDict
  pub loads-dumps : (d : HeaderDict) → loads (dumps d) ≡ some d

-- `validate_chunk_size`
unfoldable pub validate_chunk_size : ℕ → Result (Unit {0})
validate_chunk_size n = guard (leb min_chunk_size n && leb n max_chunk_size) artifact_corrupted

-- the number of chunks of a file
unfoldable pub chunk_count : ℕ → ℕ → ℕ
chunk_count total size = if total == 0 then 0 else (total + size - 1) / size

-- a number that must not be negative; every check on the header raises the same error
unfoldable pub nonnegative : ℤ → Result ℕ
nonnegative (pos n) = ok n
nonnegative (negsuc n) = err artifact_corrupted

-- `except ValueError`
unfoldable pub corrupted : Result Bytes → Result Bytes
corrupted (ok bs) = ok bs
corrupted (err e) = err artifact_corrupted

-- `_validate_header`
unfoldable pub validate_header : ArtifactHeader → Result (Unit {0})
unfolding corrupted validate_chunk_size chunk_count
validate_header h = do
  id ← corrupted (fromhex h.file_id)
  guard (length id == file_id_length) artifact_corrupted
  guard (leb h.total_chunks max_total_chunks) artifact_corrupted
  validate_chunk_size h.chunk_size
  guard (h.total_chunks == chunk_count h.total_size h.chunk_size) artifact_corrupted

-- `expected_chunk_length`
unfoldable pub expected_chunk_length : ArtifactHeader → ℕ → ℕ
expected_chunk_length h index =
    if h.total_size == 0
    then 0
    else if ltb index (h.total_size / h.chunk_size)
    then h.chunk_size
    else h.total_size % h.chunk_size

unfoldable pub is_format : Option ℤ → Bool
is_format (some (pos n)) = n == header_format
is_format (some (negsuc n)) = false
is_format none = false

module _ (json : HeaderJson) where
  -- `to_json_bytes`
  unfoldable pub to_json_bytes : ArtifactHeader → Bytes
  to_json_bytes h = json.dumps (record {
    format = some (pos header_format);
    file_id = some h.file_id;
    file_name = some h.file_name;
    mime_type = some h.mime_type;
    total_size = some (pos h.total_size);
    chunk_size = some (pos h.chunk_size);
    total_chunks = some (pos h.total_chunks);
    created_at = some h.created_at;
  })

  -- `from_json_bytes`
  unfoldable pub from_json_bytes : Bytes → Result ArtifactHeader
  unfolding is_format nonnegative validate_header
  from_json_bytes raw = do
    d ← require (json.loads raw) artifact_corrupted
    guard (is_format d.format) artifact_corrupted
    total_size ← nonnegative (get_default d.total_size (pos 0))
    chunk_size ← nonnegative (get_default d.chunk_size (pos 0))
    total_chunks ← nonnegative (get_default d.total_chunks (pos 0))
    let h : ArtifactHeader = record {
      file_id = get_default d.file_id [];
      file_name = get_default d.file_name [];
      mime_type = get_default d.mime_type (codes "application/octet-stream");
      total_size = total_size;
      chunk_size = chunk_size;
      total_chunks = total_chunks;
      created_at = get_default d.created_at [];
    }
    validate_header h
    ok h

module _ (p : Primitives) where
  -- `derive_header_key`
  unfoldable pub derive_header_key : Bytes → Suite → Bytes
  derive_header_key master s =
      hkdf p master (codes "SIP-FileTransfer") (codes "header") (aead_key_length s) s

  -- `derive_chunk_key`
  unfoldable pub derive_chunk_key : Bytes → Bytes → ℕ → Suite → Bytes
  derive_chunk_key master file_id index s =
      hkdf p master file_id (codes "chunk:" ++ decimal index) (aead_key_length s) s

-- `struct.pack(">I", n)`
unfoldable pub pack_u32 : ℕ → Result Bytes
pack_u32 n = if ltb n (256 ^ 4) then ok (digits 4 n []) else err struct_error

-- `chunk_aad`
unfoldable pub chunk_aad : Bytes → ℕ → Bytes → Result Bytes
unfolding pack_u32
chunk_aad file_id index prev_tag = do i ← pack_u32 index; ok (magic ++ (file_id ++ (i ++ prev_tag)))

-- `read_exact`: the bytes read and the reader after them
unfoldable pub read_exact : Bytes → ℕ → Result (Bytes × Bytes)
read_exact reader n =
    if ltb (length (take n reader)) n
    then err artifact_corrupted
    else ok (take n reader, drop n reader)

-- `write_frame`
unfoldable pub frame : Bytes → Bytes → Bytes → Bytes
frame nonce ct tag = nonce ++ (ct ++ tag)

pub record Frame : Type 0 where
  pub nonce : Bytes
  pub ct : Bytes
  pub tag : Bytes

-- `read_frame`
unfoldable pub read_frame : Bytes → ℕ → Result (Frame × Bytes)
unfolding read_exact
read_frame reader n = do
  (nonce, r1) ← read_exact reader nonce_length
  (ct, r2) ← read_exact r1 n
  (tag, r3) ← read_exact r2 tag_length
  ok (record { nonce = nonce; ct = ct; tag = tag }, r3)

-- `write_prefix`
unfoldable pub prefix : ℕ → Result Bytes
unfolding pack_u32
prefix n = do raw ← pack_u32 n; ok (magic ++ raw)

-- `read_prefix`: the length of the header and the reader after the prefix
unfoldable pub read_prefix : Bytes → Result (ℕ × Bytes)
unfolding read_exact
read_prefix reader = do
  (m, r1) ← read_exact reader 8
  guard (list_eq m magic) artifact_corrupted
  (raw, r2) ← read_exact r1 4
  guard (leb (from_bytes raw) max_header_length) artifact_corrupted
  ok (from_bytes raw, r2)
