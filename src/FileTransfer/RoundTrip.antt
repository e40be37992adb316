-- ===== src/FileTransfer/RoundTrip.antt =====
-- What `pack_file` writes, `unpack_file` reads back.
mod Frames
mod Chunks
use mathlib.Core.List.{append_assoc, append-nil}
use mathlib.Core.Path.{subst}
use Frames.{read_exact-append, read_prefix-prefix}
use Chunks.{verify_loop-write_chunks, validate_header-header_of, from_json_bytes-to_json_bytes}
use sip_protocol.Prelude.{
  ℕ, zero, suc, ◌+◌, ◌-◌, ◌*◌, ◌/◌, ◌%◌, ◌^◌, ◌<◌, ◌≤◌, ◌≡◌, refl, ap, sym, ◌∙◌, List, [], ◌∷◌,
  ◌++◌, Bool, true, false, ◌&&◌, Option, some, Result, ok, err, ◌>>=◌, unbind, ok-injective, guard,
  guard-eq-ok, length, take, drop, leb, leb-true, arith, length-append, length-take, length-drop,
  take-append-drop, ◌==◌, ==_eq, ==_self, artifact_corrupted, file_too_large, file_transfer,
}
use sip_protocol.Python.Bytes.{IsBytes}
use sip_protocol.Python.Hex.{fromhex, hex, fromhex-hex}
use sip_protocol.Crypto.Suite.{Suite}
use sip_protocol.Crypto.Primitives.{Bytes, Primitives}
use sip_protocol.Crypto.Aead.{
  aead_encrypt, aead_encrypt-IsSealed, aead_decrypt-encrypt, nonce_length,
}
use sip_protocol.FileTransfer.Format.{
  ArtifactHeader, HeaderJson, magic, frame, prefix, to_json_bytes, from_json_bytes, validate_header,
  validate_chunk_size, chunk_count, derive_header_key, min_chunk_size, max_chunk_size,
  max_total_chunks, max_file_size,
}
use sip_protocol.FileTransfer.Packer.{
  PackInputs, write_chunks, write_artifact, header_of, pack_file,
}
use sip_protocol.FileTransfer.Unpacker.{
  verify_loop, verify_chunks, read_header, unpack_file, on_invalid_tag,
}

-- What the system gives the packer: an id of 16 bytes and nonces of 12.
pub record AreInputs (inputs : PackInputs) : Type 0 where
  pub id_bytes : IsBytes inputs.file_id
  pub id_length : length inputs.file_id ≡ 16
  pub header_nonce_length : length inputs.header_nonce ≡ nonce_length
  pub nonces_length : (i : ℕ) → length (inputs.nonces i) ≡ nonce_length

chunk_size_bounds :
    (n : ℕ) {u : Unit {0}}
    → validate_chunk_size n ≡ ok u
    → (min_chunk_size ≤ n) × (n ≤ max_chunk_size)
unfolding validate_chunk_size
chunk_size_bounds n h = ground arith

module _ (p : Primitives) (json : HeaderJson) (master : Bytes) (s : Suite) where
  read_header-written :
      (h : ArtifactHeader) (nonce ct tag start chunks : Bytes)
      → aead_encrypt p (derive_header_key p master s) (to_json_bytes json h) nonce (some magic) s
        ≡ ok (ct, tag)
      → prefix (length ct) ≡ ok start
      → length nonce ≡ nonce_length
      → length (to_json_bytes json h) ≤ 65536
      → from_json_bytes json (to_json_bytes json h) ≡ ok h
      → read_header p json master s (start ++ (frame nonce ct tag ++ chunks)) ≡ ok (h, tag, chunks)
  unfolding read_header frame
  read_header-written h nonce ct tag start chunks enc pre hn small back =
      let key = derive_header_key p master s in
      let plain = to_json_bytes json h in
      let are = aead_encrypt-IsSealed p key plain nonce ct tag (some magic) s enc in
      rw (
        append_assoc nonce (ct ++ tag) chunks,
        append_assoc ct tag chunks,
        read_prefix-prefix (length ct) start (nonce ++ (ct ++ (tag ++ chunks)))
            (omega (arith, are.ct_length)) pre,
        read_exact-append 12 nonce (ct ++ (tag ++ chunks)) hn,
        read_exact-append (length ct) ct (tag ++ chunks) refl,
        read_exact-append 16 tag chunks are.tag_length_eq,
        aead_decrypt-encrypt p key plain nonce ct tag (some magic) s enc,
        on_invalid_tag,
        back,
      )

  verify_chunks-written :
      (h : ArtifactHeader) (id prev content chunks : Bytes) (nonces : ℕ → Bytes)
      → ((i : ℕ) → length (nonces i) ≡ nonce_length)
      → fromhex h.file_id ≡ ok id
      → 0 < h.chunk_size
      → length content ≡ h.total_size
      → write_chunks p master id s nonces (length content) h.chunk_size 0 prev content
        ≡ ok (chunks, h.total_chunks)
      → verify_chunks p json master s h prev chunks ≡ ok (content, [])
  unfolding verify_chunks
  verify_chunks-written h id prev content chunks nonces nonces_ok read_id pos size wrote =
      let loop : verify_loop p json master s h id h.total_chunks 0 prev chunks ≡ ok (content, []) =
        ap (verify_loop p json master s h id h.total_chunks 0 prev) (sym (append-nil chunks))
        ∙ verify_loop-write_chunks p json master id s nonces nonces_ok h (length content) 0
            h.total_chunks prev content chunks [] pos (omega arith) (λ _. omega (arith, size))
            wrote in
      rw (read_id, loop, size, ==_self h.total_size)

  unpack_written :
      (inputs : PackInputs) (size written : ℕ) (content artifact : Bytes)
      → AreInputs inputs
      → 0 < size
      → validate_header (header_of inputs (length content) size) ≡ ok tt
      → length (to_json_bytes json (header_of inputs (length content) size)) ≤ 65536
      → write_artifact p json master inputs (header_of inputs (length content) size) s content
        ≡ ok (artifact, written)
      → written ≡ chunk_count (length content) size
      → unpack_file p json master s artifact ≡ ok (header_of inputs (length content) size, content)
  unfolding write_artifact unpack_file
  unpack_written inputs size written content artifact are pos valid small e count =
      let h = header_of inputs (length content) size in
      let id = inputs.file_id in
      let back = from_json_bytes-to_json_bytes inputs (length content) size json valid in
      unbind (fromhex h.file_id) e λ id' read_id e1.
        let same : id' ≡ id = ok-injective (sym read_id ∙ fromhex-hex id are.id_bytes) in
        unbind
          (aead_encrypt p (derive_header_key p master s) (to_json_bytes json h) inputs.header_nonce
            (some magic) s)
          e1
          λ sealed enc e2. unbind (prefix (length sealed.0)) e2 λ start pre e3.
            unbind
              (write_chunks p master id' s inputs.nonces (length content) size 0 sealed.1 content)
              e3
              λ chunks wrote e4.
                let pair = ok-injective e4 in
                let n_eq : chunks.1 ≡ chunk_count (length content) size =
                  ap (λ (t : Bytes × ℕ). t.1) pair ∙ count in
                subst (λ (t : Bytes). unpack_file p json master s t ≡ ok (h, content))
                  (ap (λ (t : Bytes × ℕ). t.0) pair)
                  (rw (
                    read_header-written h inputs.header_nonce sealed.0 sealed.1 start chunks.0 enc
                        pre are.header_nonce_length small back,
                    verify_chunks-written h id' sealed.1 content chunks.0 inputs.nonces
                        are.nonces_length read_id pos refl
                        (wrote ∙ ap (λ t. ok (chunks.0, t)) n_eq),
                  ))

  -- The artifact that `pack_file` makes of a file that does not change meanwhile is unpacked, with
  -- the same key and suite, to the same header and content: where the file id has 16 bytes, the
  -- nonces have 12, the header is at most 64 KB and the file has at most 65536 chunks.
  pub unpack_file-pack_file :
      (inputs : PackInputs) (size : ℕ) (content artifact : Bytes) (h : ArtifactHeader)
      → AreInputs inputs
      → chunk_count (length content) size ≤ max_total_chunks
      → length (to_json_bytes json (header_of inputs (length content) size)) ≤ 65536
      → pack_file p json master inputs (length content) size s content ≡ ok (h, artifact)
      → unpack_file p json master s artifact ≡ ok (h, content)
  unfolding pack_file
  unpack_file-pack_file inputs size content artifact h are few small e =
      let expected = header_of inputs (length content) size in
      unbind (validate_chunk_size size) e λ _ size_ok e1.
        unbind (guard (leb (length content) max_file_size) file_too_large) e1 λ _ _ e2.
          unbind (write_artifact p json master inputs expected s content) e2 λ aw wrote e3.
            unbind (guard (aw.1 == expected.total_chunks) file_transfer) e3 λ _ count e4.
              let (low, high) = chunk_size_bounds size size_ok in
              subst
                (λ (t : ArtifactHeader × Bytes).
                  unpack_file p json master s t.1 ≡ ok (t.0, content))
                (ok-injective e4)
                (unpack_written inputs size aw.1 content aw.0 are (omega (arith, low))
                  (validate_header-header_of inputs (length content) size are.id_bytes are.id_length
                    low high few)
                  small wrote (==_eq _ _ (guard-eq-ok _ _ count)))
