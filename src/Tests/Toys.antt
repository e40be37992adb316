-- ===== src/Tests/Toys.antt =====
-- Stand-ins for the code that this repository calls and does not hold. They keep every law that is
-- asked of it and are of no use for anything else.
use sip_protocol.Prelude.{
  ℕ, zero, suc, ◌+◌, ◌%◌, ◌<◌, ◌≡◌, refl, ap, ◌∙◌, sym, [], ◌∷◌, ◌++◌, Option, none, some, Result,
  ok, err, invalid_tag, ◌>>◌, guard, length, take, drop, replicate, list_eq, list_eq_refl,
  list_eq-eq, arith, length-replicate, length-append, take-append, drop-append, take-append-drop,
  unbind, ok-injective, guard-eq-ok, All-append,
}
use sip_protocol.Python.Bytes.{IsByte, IsBytes}
use sip_protocol.Crypto.Sm3.{Sm3}
use sip_protocol.Crypto.Primitives.{Bytes, Primitives}
use sip_protocol.FileTransfer.Format.{HeaderJson, HeaderDict, ℤ, pos, negsuc}

pub replicate-IsBytes : (n b : ℕ) → b < 256 → IsBytes (replicate n b)
replicate-IsBytes zero b h = tt
replicate-IsBytes (suc n) b h = (h, replicate-IsBytes n b h)

abbrev mix : ℕ → Bytes
mix n = replicate 32 (n % 256)

pub mix-IsBytes : (n : ℕ) → IsBytes (mix n)
mix-IsBytes n = replicate-IsBytes 32 (n % 256) (omega arith)

abbrev zero_tag : Bytes
zero_tag = replicate 16 0

-- A tag of zeros before the plaintext, or beside it.
abbrev open_chacha : Bytes → Result Bytes
open_chacha sealed = do guard (list_eq (take 16 sealed) zero_tag) invalid_tag; ok (drop 16 sealed)

abbrev open_sm4 : Bytes → Bytes → Result Bytes
open_sm4 tag ct = do guard (list_eq tag zero_tag) invalid_tag; ok ct

pub open_chacha-sealed : (plain : Bytes) → open_chacha (zero_tag ++ plain) ≡ ok plain
open_chacha-sealed plain = rw (list_eq_refl zero_tag) refl

pub open_chacha_only :
    (plain sealed : Bytes) → open_chacha sealed ≡ ok plain → ok (zero_tag ++ plain) ≡ ok sealed
open_chacha_only plain sealed h =
    unbind (guard (list_eq (take 16 sealed) zero_tag) invalid_tag) h λ u hu h1.
      let front = list_eq-eq (take 16 sealed) zero_tag (guard-eq-ok _ _ hu) in
      ap ok (
        ap (λ t. t ++ plain) (sym front)
        ∙ ap (λ t. take 16 sealed ++ t) (sym (ok-injective h1))
        ∙ take-append-drop 16 sealed)

abbrev seal_sm4 : Bytes → Result (Bytes × Bytes)
seal_sm4 plain = ok (plain, zero_tag)

pub open_sm4_only :
    (plain ct tag : Bytes) → open_sm4 tag ct ≡ ok plain → seal_sm4 plain ≡ ok (ct, tag)
open_sm4_only plain ct tag h =
    unbind (guard (list_eq tag zero_tag) invalid_tag) h
      λ u hu h1. rw (ok-injective h1, list_eq-eq tag zero_tag (guard-eq-ok _ _ hu)) refl

abbrev first : Bytes → ℕ
first [] = 0
first (b ∷ bs) = b

abbrev pub toy_primitives : Primitives
toy_primitives = record {
  chacha_encrypt = λ key nonce plain aad. ok (zero_tag ++ plain);
  chacha_decrypt = λ key nonce sealed aad. open_chacha sealed;
  chacha_total = λ key nonce plain aad hk hn. (zero_tag ++ plain, refl);
  chacha_length = λ key nonce plain sealed aad h.
      omega (arith, ap length (ok-injective h), length-append zero_tag plain);
  chacha_bytes = λ key nonce plain sealed aad h b.
      rw (sym (ok-injective h))
        (All-append IsByte zero_tag plain (replicate-IsBytes 16 0 (omega arith)) b);
  chacha_open = λ key nonce plain sealed aad h.
      ap open_chacha (sym (ok-injective h)) ∙ open_chacha-sealed plain;
  chacha_only = λ key nonce plain sealed aad h. open_chacha_only plain sealed h;
  sm4_encrypt = λ key nonce plain aad. seal_sm4 plain;
  sm4_decrypt = λ key nonce tag ct aad. open_sm4 tag ct;
  sm4_total = λ key nonce plain aad hk hn. ((plain, zero_tag), refl);
  sm4_length = λ key nonce plain ct tag aad h.
      (ap (λ t. length t.0) (sym (ok-injective h)), ap (λ t. length t.1) (sym (ok-injective h)));
  sm4_bytes = λ key nonce plain ct tag aad h b. (
    rw (ap (λ t. t.0) (sym (ok-injective h))) b,
    rw (ap (λ t. t.1) (sym (ok-injective h))) (replicate-IsBytes 16 0 (omega arith)),
  );
  sm4_open = λ key nonce plain ct tag aad h.
      ap (λ t. open_sm4 t.1 t.0) (sym (ok-injective h)) ∙ rw (list_eq_refl zero_tag) refl;
  sm4_only = λ key nonce plain ct tag aad h. open_sm4_only plain ct tag h;
  hkdf_derive = λ s salt info n ikm. replicate n ((length ikm + first ikm) % 256);
  length-hkdf_derive = λ s salt info n ikm. length-replicate n ((length ikm + first ikm) % 256);
  hmac_digest = λ s key message. mix (length message + first key);
  hmac_digest-IsBytes = λ s key message. mix-IsBytes (length message + first key);
  argon2_hash = λ psk. mix (length psk);
  x25519_public = λ private. mix (first private);
  x25519_exchange = λ private public. ok (mix (first private + first public));
  length-x25519_public = λ private. refl;
  x25519_public-IsBytes = λ private. mix-IsBytes (first private);
  x25519_exchange_comm = λ a b.
      ap (λ t. ok (replicate 32 t))
        (let e : (first a + first b % 256) % 256 ≡ (first b + first a % 256) % 256 = omega arith in
          e);
}

abbrev pub toy_sm3 : Sm3
toy_sm3 = record {
  digest = λ bs. mix (length bs + 1);
  length-digest = λ bs. refl;
  digest-IsBytes = λ bs. mix-IsBytes (length bs + 1);
}

-- A header's dictionary as a flat list of numbers.
unfoldable pub put_text : Option Bytes → Bytes → Bytes
put_text none rest = 0 ∷ rest
put_text (some xs) rest = 1 ∷ length xs ∷ (xs ++ rest)

unfoldable get_text : Bytes → Option Bytes × Bytes
get_text [] = (none, [])
get_text (zero ∷ rest) = (none, rest)
get_text (suc z ∷ []) = (none, [])
get_text (suc z ∷ n ∷ rest) = (some (take n rest), drop n rest)

get_text-put : (o : Option Bytes) (rest : Bytes) → get_text (put_text o rest) ≡ (o, rest)
unfolding get_text put_text
get_text-put none rest = refl
get_text-put (some xs) rest =
    rw (take-append (length xs) xs rest refl, drop-append (length xs) xs rest refl) refl

unfoldable pub put_int : Option ℤ → Bytes → Bytes
put_int none rest = 0 ∷ rest
put_int (some (pos n)) rest = 1 ∷ n ∷ rest
put_int (some (negsuc n)) rest = 2 ∷ n ∷ rest

unfoldable get_int : Bytes → Option ℤ × Bytes
get_int [] = (none, [])
get_int (zero ∷ rest) = (none, rest)
get_int (suc z ∷ []) = (none, [])
get_int (suc zero ∷ n ∷ rest) = (some (pos n), rest)
get_int (suc (suc z) ∷ n ∷ rest) = (some (negsuc n), rest)

get_int-put : (o : Option ℤ) (rest : Bytes) → get_int (put_int o rest) ≡ (o, rest)
unfolding get_int put_int
get_int-put none rest = refl
get_int-put (some (pos n)) rest = refl
get_int-put (some (negsuc n)) rest = refl

unfoldable pub dump_header : HeaderDict → Bytes
unfolding put_text put_int
dump_header d = put_int d.format (
    put_text d.file_id (
      put_text d.file_name (
        put_text d.mime_type (
          put_int d.total_size
            (put_int d.chunk_size (put_int d.total_chunks (put_text d.created_at [])))))))

unfoldable pub load_header : Bytes → Option HeaderDict
unfolding get_text get_int
load_header bs =
    let a = get_int bs in
    let b = get_text a.1 in
    let c = get_text b.1 in
    let d = get_text c.1 in
    let e = get_int d.1 in
    let f = get_int e.1 in
    let g = get_int f.1 in
    let h = get_text g.1 in
    some record {
      format = a.0;
      file_id = b.0;
      file_name = c.0;
      mime_type = d.0;
      total_size = e.0;
      chunk_size = f.0;
      total_chunks = g.0;
      created_at = h.0;
    }

pub load_header-dump : (d : HeaderDict) → load_header (dump_header d) ≡ some d
unfolding load_header dump_header
load_header-dump d =
    rw
      (
        get_int-put d.format (
            put_text d.file_id (
              put_text d.file_name (
                put_text d.mime_type (
                  put_int d.total_size
                    (put_int d.chunk_size (put_int d.total_chunks (put_text d.created_at []))))))),
        get_text-put d.file_id (
            put_text d.file_name (
              put_text d.mime_type (
                put_int d.total_size
                  (put_int d.chunk_size (put_int d.total_chunks (put_text d.created_at [])))))),
        get_text-put d.file_name (
            put_text d.mime_type (
              put_int d.total_size
                (put_int d.chunk_size (put_int d.total_chunks (put_text d.created_at []))))),
        get_text-put d.mime_type (
            put_int d.total_size
              (put_int d.chunk_size (put_int d.total_chunks (put_text d.created_at [])))),
        get_int-put d.total_size
            (put_int d.chunk_size (put_int d.total_chunks (put_text d.created_at []))),
        get_int-put d.chunk_size (put_int d.total_chunks (put_text d.created_at [])),
        get_int-put d.total_chunks (put_text d.created_at []),
        get_text-put d.created_at [],
      )
      refl

abbrev pub toy_json : HeaderJson
toy_json = record { dumps = dump_header; loads = load_header; loads-dumps = load_header-dump }

-- The result of a run that returns one.
abbrev pub get_ok : {A : Type 0} → Result A → A → A
get_ok (ok a) d = a
get_ok (err e) d = d
