-- ===== src/FileTransfer/RoundTrip/Frames.antt =====
-- Frames and prefixes: reading what was written.
use mathlib.Core.Path.{subst}
use mathlib.Core.List.{append_assoc}
use sip_protocol.Prelude.{
  ℕ, ◌+◌, ◌*◌, ◌/◌, ◌%◌, ◌^◌, ◌<◌, ◌≤◌, ◌≡◌, refl, ap, sym, ◌∙◌, [], ◌++◌, true, some, ok, unbind,
  ok-injective, length, take, leb, leb-true, ltb-false, lt→ltb, list_eq, list_eq_refl, arith,
  length-take, take-append, drop-append, Bool-cases, inl, inr,
}
use sip_protocol.Python.Bytes.{digits, from_bytes, length-digits, from_bytes-digits}
use sip_protocol.Crypto.Suite.{Suite}
use sip_protocol.Crypto.Primitives.{Bytes, Primitives}
use sip_protocol.Crypto.Aead.{
  aead_encrypt, aead_encrypt-IsSealed, aead_decrypt-encrypt, nonce_length, tag_length,
}
use sip_protocol.FileTransfer.Format.{
  ArtifactHeader, HeaderJson, magic, frame, read_exact, read_frame, pack_u32, prefix, read_prefix,
  chunk_aad, expected_chunk_length, derive_chunk_key,
}
use sip_protocol.FileTransfer.Packer.{seal_chunk}
use sip_protocol.FileTransfer.Unpacker.{open_chunk, on_invalid_tag}

pub read_exact-append :
    (n : ℕ) (xs ys : Bytes) → length xs ≡ n → read_exact (xs ++ ys) n ≡ ok (xs, ys)
unfolding read_exact
read_exact-append n xs ys h =
    rw (take-append n xs ys h, drop-append n xs ys h, ltb-false (length xs) n (omega (arith, h)))

-- A frame that was written is read back.
pub read_frame-frame :
    (nonce ct tag rest : Bytes)
    → length nonce ≡ nonce_length
    → length tag ≡ tag_length
    → read_frame (frame nonce ct tag ++ rest) (length ct)
      ≡ ok (record { nonce = nonce; ct = ct; tag = tag }, rest)
unfolding read_frame frame
read_frame-frame nonce ct tag rest hn ht = rw (
  append_assoc nonce (ct ++ tag) rest,
  append_assoc ct tag rest,
  read_exact-append 12 nonce (ct ++ (tag ++ rest)) hn,
  read_exact-append (length ct) ct (tag ++ rest) refl,
  read_exact-append 16 tag rest ht,
)

read_prefix_parts :
    (m raw rest : Bytes)
    → length m ≡ 8
    → list_eq m magic ≡ true
    → length raw ≡ 4
    → from_bytes raw ≤ 65536
    → read_prefix (m ++ (raw ++ rest)) ≡ ok (from_bytes raw, rest)
unfolding read_prefix
read_prefix_parts m raw rest hm same hr small = rw (
  read_exact-append 8 m (raw ++ rest) hm,
  same,
  read_exact-append 4 raw rest hr,
  leb-true (from_bytes raw) 65536 small,
)

-- A prefix that was written for a header of up to 64 KB is read back.
pub read_prefix-prefix :
    (n : ℕ) (start rest : Bytes)
    → n ≤ 65536
    → prefix n ≡ ok start
    → read_prefix (start ++ rest) ≡ ok (n, rest)
unfolding prefix pack_u32
read_prefix-prefix n start rest small h =
    let raw = digits 4 n [] in
    let value : from_bytes raw ≡ n = from_bytes-digits 4 n (omega arith) in
    let made : magic ++ raw ≡ start = ok-injective (rw (lt→ltb n (256 ^ 4) (omega arith)) at h) in
    ap read_prefix (ap (λ t. t ++ rest) (sym made) ∙ append_assoc magic raw rest)
    ∙ read_prefix_parts magic raw rest refl (list_eq_refl magic)
        (omega (arith, length-digits 4 n [])) (omega (arith, value))
    ∙ ap (λ t. ok (t, rest)) value

div-gt : (n d q : ℕ) → 0 < d → (q + 1) * d ≤ n → q < n / d
div-gt n d q pos h = grind arith

div_last : (n d q r : ℕ) → r < d → q * d + r ≡ n → n / d ≡ q
div_last n d q r lt e = grind arith

mod_last : (n d q r : ℕ) → r < d → q * d + r ≡ n → n % d ≡ r
mod_last n d q r lt e = grind arith

div-le : (n d q : ℕ) → 0 < d → n < (q + 1) * d → n / d ≤ q
div-le n d q pos h = grind arith

-- The length that the header gives for chunk `index` is the one that the packer read for it.
pub expected_chunk_length-eq :
    (h : ArtifactHeader) (index : ℕ) (content : Bytes)
    → 0 < h.chunk_size
    → 0 < length content
    → index * h.chunk_size + length content ≡ h.total_size
    → expected_chunk_length h index ≡ length (take h.chunk_size content)
unfolding expected_chunk_length
expected_chunk_length-eq h index content pos some_left total =
    let n = length content in
    elim (Bool-cases (leb h.chunk_size n)) [
      | inl full ↦
          let le : h.chunk_size ≤ n = ground arith in
          let q : index < h.total_size / h.chunk_size =
            div-gt h.total_size h.chunk_size index pos (omega arith) in
          ground (arith, q, length-take h.chunk_size content)
      | inr last ↦
          let lt : n < h.chunk_size = ground arith in
          let q : h.total_size / h.chunk_size ≡ index =
            div_last h.total_size h.chunk_size index n lt total in
          let r : h.total_size % h.chunk_size ≡ n =
            mod_last h.total_size h.chunk_size index n lt total in
          ground (arith, q, r, length-take h.chunk_size content)
    ]

module _ (p : Primitives) (json : HeaderJson) (master id : Bytes) (s : Suite)
    (nonces : ℕ → Bytes) where
  -- A chunk that was sealed is opened, where the header gives its length.
  pub open_chunk-seal_chunk :
      (h : ArtifactHeader) (index : ℕ) (prev plain out tag rest : Bytes)
      → length (nonces index) ≡ nonce_length
      → expected_chunk_length h index ≡ length plain
      → seal_chunk p master id s nonces index prev plain ≡ ok (out, tag)
      → open_chunk p json master s h id index prev (out ++ rest) ≡ ok (plain, tag, rest)
  unfolding seal_chunk open_chunk
  open_chunk-seal_chunk h index prev plain out tag rest hn len e =
      unbind (chunk_aad id index prev) e λ aad made e1.
        unbind
          (aead_encrypt p (derive_chunk_key p master id index s) plain (nonces index) (some aad) s)
          e1
          λ sealed enc e2.
            let ct = sealed.0 in
            let tg = sealed.1 in
            let key = derive_chunk_key p master id index s in
            let are = aead_encrypt-IsSealed p key plain (nonces index) ct tg (some aad) s enc in
            subst
              (λ (t : Bytes × Bytes).
                open_chunk p json master s h id index prev (t.0 ++ rest) ≡ ok (plain, t.1, rest))
              (ok-injective e2)
              (rw (
                (let l : expected_chunk_length h index ≡ length ct =
                      omega (arith, len, are.ct_length) in
                    l),
                read_frame-frame (nonces index) ct tg rest hn are.tag_length_eq,
                made,
                aead_decrypt-encrypt p key plain (nonces index) ct tg (some aad) s enc,
                on_invalid_tag,
              ))
