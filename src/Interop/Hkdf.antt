-- ===== src/Interop/Hkdf.antt =====
-- reference_impl.py: HMAC and HKDF by suite, after RFC 2104 and RFC 5869.
use Prim.Native.Nat.{bit_xor}
use sip_protocol.Prelude.{
  ℕ, zero, suc, ◌+◌, ◌-◌, [], ◌∷◌, ◌++◌, map, true, false, Result, ok, err, ◌>>=◌, value_error,
  length, take, replicate, ltb, leb, if◌then◌else◌,
}
use sip_protocol.Crypto.Suite.{Suite, en, zh}
use sip_protocol.Crypto.Primitives.{Bytes, Primitives}
use sip_protocol.Crypto.Sm3.{Sm3}

abbrev pub block_size : ℕ
block_size = 64

-- a key that is longer than a block is hashed; then zeros fill the block
unfoldable pub norm_key : Sm3 → Bytes → Bytes
norm_key sm3 key =
    let norm = if leb (length key) block_size then key else sm3.digest key in
    norm ++ replicate (block_size - length norm) 0

-- `hmac_digest` of the suite ZH
unfoldable pub hmac_sm3 : Sm3 → Bytes → Bytes → Bytes
unfolding norm_key
hmac_sm3 sm3 key message =
    let inner = sm3.digest (map (λ b. bit_xor b 0x36) (norm_key sm3 key) ++ message) in
    sm3.digest (map (λ b. bit_xor b 0x5C) (norm_key sm3 key) ++ inner)

module _ (p : Primitives) (sm3 : Sm3) where
  -- `hmac_digest`
  unfoldable pub hmac_digest : Bytes → Bytes → Suite → Bytes
  unfolding hmac_sm3
  hmac_digest key message zh = hmac_sm3 sm3 key message
  hmac_digest key message en = p.hmac_digest en key message

  -- the loop of `hkdf_sha256` and `hkdf_sm3`; `bytes([counter])` raises from 256 on
  unfoldable pub hkdf_loop : ℕ → Suite → Bytes → Bytes → ℕ → Bytes → Bytes → ℕ → Result Bytes
  hkdf_loop zero s prk info n okm block counter = ok okm
  hkdf_loop (suc fuel) s prk info n okm block counter = elim (ltb (length okm) n) [
    | false ↦ ok okm
    | true ↦ elim (ltb counter 256) [
      | false ↦ err value_error
      | true ↦
          let next_block = hmac_digest prk (block ++ (info ++ (counter ∷ []))) s in
          hkdf_loop fuel s prk info n (okm ++ next_block) next_block (counter + 1)
    ]
  ]

  -- `hkdf_for_suite`: a round adds a byte or more, so the length that is asked for is enough fuel.
  unfoldable pub hkdf_for_suite : Bytes → Bytes → Bytes → ℕ → Suite → Result Bytes
  unfolding hkdf_loop
  hkdf_for_suite ikm salt info n s = do
    okm ← hkdf_loop n s (hmac_digest salt ikm s) info n [] [] 1
    ok (take n okm)
