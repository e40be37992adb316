-- ===== src/FileTransfer/RoundTrip/Chunks.antt =====
-- The chunks of a file, and its header.
use mathlib.Core.List.{append_assoc}
use mathlib.Core.Path.{subst}
use native.Mathlib.Numerals.{add-one}
use sip_protocol.Prelude.{
  ℕ, zero, suc, ◌+◌, ◌-◌, ◌*◌, ◌<◌, ◌≤◌, ◌≡◌, refl, [], ◌∷◌, ◌++◌, ok, unbind, ok-injective, length,
  take, drop, leb-true, arith, length-drop, take-append-drop, ==_self,
}
use sip_protocol.Python.Bytes.{IsBytes}
use sip_protocol.Python.Hex.{fromhex-hex}
use sip_protocol.Crypto.Suite.{Suite}
use sip_protocol.Crypto.Primitives.{Bytes, Primitives}
use sip_protocol.Crypto.Aead.{nonce_length}
use sip_protocol.FileTransfer.Format.{
  ArtifactHeader, HeaderJson, to_json_bytes, from_json_bytes, validate_header, chunk_count,
  min_chunk_size, max_chunk_size, max_total_chunks,
}
use sip_protocol.FileTransfer.Packer.{PackInputs, seal_chunk, write_chunks, header_of}
use sip_protocol.FileTransfer.Unpacker.{verify_loop}
use sip_protocol.FileTransfer.RoundTrip.Frames.{expected_chunk_length-eq, open_chunk-seal_chunk}

next_total :
    (index size n left total : ℕ)
    → left ≡ n - size
    → 0 < left
    → index * size + n ≡ total
    → (index + 1) * size + left ≡ total
next_total index size n left total e pos h = omega arith

module _ (p : Primitives) (json : HeaderJson) (master id : Bytes) (s : Suite) (nonces : ℕ → Bytes)
    (nonces_ok : (i : ℕ) → length (nonces i) ≡ nonce_length) where
  -- The chunks that were written are verified, whatever follows them.
  pub verify_loop-write_chunks :
      (h : ArtifactHeader) (fuel index n : ℕ) (prev content out rest : Bytes)
      → 0 < h.chunk_size
      → length content ≤ fuel
      → (0 < length content → index * h.chunk_size + length content ≡ h.total_size)
      → write_chunks p master id s nonces fuel h.chunk_size index prev content ≡ ok (out, n)
      → verify_loop p json master s h id n index prev (out ++ rest) ≡ ok (content, rest)
  unfolding write_chunks verify_loop
  verify_loop-write_chunks h zero index n prev [] out rest pos enough total e =
      subst
        (λ (t : Bytes × ℕ).
          verify_loop p json master s h id t.1 index prev (t.0 ++ rest) ≡ ok ([], rest))
        (ok-injective e) refl
  verify_loop-write_chunks h zero index n prev (b ∷ content) out rest pos enough total e =
      absurd (omega arith)
  verify_loop-write_chunks h (suc fuel) index n prev [] out rest pos enough total e =
      subst
        (λ (t : Bytes × ℕ).
          verify_loop p json master s h id t.1 index prev (t.0 ++ rest) ≡ ok ([], rest))
        (ok-injective e) refl
  verify_loop-write_chunks h (suc fuel) index n prev (b ∷ src) out rest pos enough total e =
      let content = b ∷ src in
      let size = h.chunk_size in
      let now = take size content in
      let later = drop size content in
      unbind (seal_chunk p master id s nonces index prev now) e λ first sealed e1.
        unbind (write_chunks p master id s nonces fuel size (index + 1) first.1 later) e1
          λ others written e2.
            subst
              (λ (t : Bytes × ℕ).
                verify_loop p json master s h id t.1 index prev (t.0 ++ rest) ≡ ok (content, rest))
              (ok-injective e2)
              (rw (
                add-one others.1,
                append_assoc first.0 others.0 rest,
                open_chunk-seal_chunk p json master id s nonces h index prev now first.0 first.1
                    (others.0 ++ rest) (nonces_ok index)
                    (expected_chunk_length-eq h index content pos (omega arith)
                      (total (omega arith)))
                    sealed,
                verify_loop-write_chunks h fuel (index + 1) others.1 first.1 later others.0 rest pos
                    (omega (arith, length-drop size content))
                    (λ left.
                      next_total index size (length content) (length later) h.total_size
                        (length-drop size content) left (total (omega arith)))
                    written,
                take-append-drop size content,
              ))

-- The header that the packer makes passes the unpacker's checks, if it has at most 65536 chunks.
module _ (inputs : PackInputs) (total size : ℕ) where
  pub validate_header-header_of :
      IsBytes inputs.file_id
      → length inputs.file_id ≡ 16
      → min_chunk_size ≤ size
      → size ≤ max_chunk_size
      → chunk_count total size ≤ max_total_chunks
      → validate_header (header_of inputs total size) ≡ ok tt
  unfolding validate_header
  validate_header-header_of bytes len low high few = rw (
    fromhex-hex inputs.file_id bytes,
    len,
    leb-true (chunk_count total size) max_total_chunks few,
    leb-true min_chunk_size size low,
    leb-true size max_chunk_size high,
    ==_self (chunk_count total size),
  )

  pub from_json_bytes-to_json_bytes :
      (json : HeaderJson)
      → validate_header (header_of inputs total size) ≡ ok tt
      → from_json_bytes json (to_json_bytes json (header_of inputs total size))
        ≡ ok (header_of inputs total size)
  unfolding from_json_bytes to_json_bytes
  from_json_bytes-to_json_bytes json valid = rw (json.loads-dumps, valid)
