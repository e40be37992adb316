-- ===== src/Crypto/Sm2Ciphertext/Decrypt.antt =====
-- crypto/sm2_ciphertext.py: the key stream, the check of c3 and the decryption.
pub mod Keystream
pub mod Authentic
use Prim.Native.Nat.{bit_xor}
use sip_protocol.Prelude.{
  ℕ, zero, suc, ◌+◌, List, [], ◌∷◌, ◌++◌, Bool, true, false, not, ◌&&◌, Option, none, some, Result,
  ok, err, value_error, sm2_format, sm2_decrypt, zero_keystream, ◌>>=◌, ◌>>◌, guard, length, take,
  drop, ltb, ◌==◌, if◌then◌else◌, list_eq,
}
use sip_protocol.Python.Bytes.{from_bytes, to_bytes}
use sip_protocol.Crypto.Sm3.{Sm3}
use sip_protocol.Crypto.Sm2.{
  Point, make_public_key, from_public_bytes, make_private_key, exchange_point,
}
use sip_protocol.Crypto.Sm2Ciphertext.Der.{c1_len, Components, lstrip_zeros, is_empty}
use sip_protocol.Crypto.Sm2Ciphertext.Format.{Format, to_components}

-- `bytes(a ^ b for a, b in zip(xs, ys))`
unfoldable pub xor_bytes : List ℕ → List ℕ → List ℕ
xor_bytes [] ys = []
xor_bytes (x ∷ xs) [] = []
xor_bytes (x ∷ xs) (y ∷ ys) = bit_xor x y ∷ xor_bytes xs ys

-- the input of the digest c3: Hash(x2 ‖ M ‖ y2)
abbrev pub c3_input : List ℕ → List ℕ → List ℕ
c3_input shared msg = take 32 shared ++ (msg ++ drop 32 shared)

-- `SM2PrivateKey(d).exchange_point(SM2PublicKey(point))`
unfoldable pub shared_point : ℕ → Point → Result (List ℕ)
shared_point d point = do
  key ← make_private_key d
  peer ← make_public_key point
  exchange_point key peer

abbrev pub c1_point : List ℕ → Point
c1_point c1 = (from_bytes (take 32 c1), from_bytes (drop 32 c1))

module _ (sm3 : Sm3) where
  -- the loop of `_kdf`; each round adds 32 bytes, so `klen` rounds are enough
  unfoldable pub kdf_loop : ℕ → List ℕ → ℕ → ℕ → List ℕ → Result (List ℕ)
  kdf_loop zero z klen ct out = ok out
  kdf_loop (suc fuel) z klen ct out = elim (ltb (length out) klen) [
    | true ↦ do
      counter ← to_bytes 4 ct
      kdf_loop fuel z klen (ct + 1) (out ++ sm3.digest (z ++ counter))
    | false ↦ ok out
  ]

  -- `_kdf`
  unfoldable pub kdf : List ℕ → ℕ → Result (List ℕ)
  kdf z klen = do out ← kdf_loop klen z klen 1 []; ok (take klen out)

  unfoldable pub check_c3 : (List ℕ → List ℕ) → List ℕ → List ℕ → List ℕ → Result Bool
  check_c3 hasher shared c2 c3 = do
    guard (length shared == c1_len) sm2_format
    keystream ← kdf shared (length c2)
    ok (list_eq (hasher (c3_input shared (xor_bytes c2 keystream))) c3)

  -- `verify_c3`; `none` is a `derive` that is None
  unfoldable pub verify_c3 :
      List ℕ → Format → Option (List ℕ → Result (List ℕ)) → (List ℕ → List ℕ) → Result Bool
  unfolding check_c3
  verify_c3 ct fmt none hasher = err value_error
  verify_c3 ct fmt (some derive) hasher = do
    (c1, c2, c3) ← to_components ct fmt
    shared ← derive c1
    check_c3 hasher shared c2 c3

  -- `sm2_decrypt` from the shared point on
  unfoldable pub open_c2 : List ℕ → List ℕ → List ℕ → Result (List ℕ)
  open_c2 shared c2 c3 = do
    keystream ← kdf shared (length c2)
    guard (not (not (is_empty c2) && is_empty (lstrip_zeros keystream))) zero_keystream
    guard (list_eq (sm3.digest (c3_input shared (xor_bytes c2 keystream))) c3) sm2_decrypt
    ok (xor_bytes c2 keystream)

  -- `sm2_decrypt`
  unfoldable pub sm2_decrypt_parts : ℕ → Point → List ℕ → List ℕ → Result (List ℕ)
  unfolding shared_point open_c2
  sm2_decrypt_parts d point c2 c3 = do shared ← shared_point d point; open_c2 shared c2 c3

  -- `decrypt_ciphertext`
  unfoldable pub decrypt_ciphertext : List ℕ → Format → ℕ → Result (List ℕ)
  unfolding sm2_decrypt_parts
  decrypt_ciphertext ct fmt d = do
    (c1, c2, c3) ← to_components ct fmt
    sm2_decrypt_parts d (c1_point c1) c2 c3

-- `_make_derive` of tools/sm2cvt.py
unfoldable pub make_derive : ℕ → List ℕ → Result (List ℕ)
make_derive d c1 = do peer ← from_public_bytes (0x04 ∷ c1); exchange_point d peer
