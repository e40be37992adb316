-- ===== src/Interop/Rfc.antt =====
-- HMAC after RFC 2104 and HKDF after RFC 5869, for hashes with blocks of 64 bytes and digests of 32,
-- as SHA-256 and SM3 have them. What the implementations are compared with, and no code of theirs.
use Prim.Native.Nat.{bit_xor}
use sip_protocol.Prelude.{
  ℕ, zero, suc, ◌+◌, ◌*◌, ◌/◌, ◌≡◌, refl, [], ◌∷◌, ◌++◌, map, ltb, if◌then◌else◌, arith, length,
  length-append, take, length-take,
}
use sip_protocol.Crypto.Primitives.{Bytes}

-- the bytes, filled with zeros up to this length
abbrev pub pad : ℕ → Bytes → Bytes
pad zero bs = bs
pad (suc n) [] = 0 ∷ pad n []
pad (suc n) (b ∷ bs) = b ∷ pad n bs

abbrev pub xor_with : ℕ → Bytes → Bytes
xor_with mask bs = map (λ b. bit_xor b mask) bs

-- RFC 2104, section 2: H(K XOR opad, H(K XOR ipad, text)), where a key longer than a block is hashed.
abbrev pub block_key : (Bytes → Bytes) → Bytes → Bytes
block_key digest key = pad 64 (if ltb 64 (length key) then digest key else key)

abbrev pub hmac : (Bytes → Bytes) → Bytes → Bytes → Bytes
hmac digest key text =
    digest
      (xor_with 92 (block_key digest key) ++ digest (xor_with 54 (block_key digest key) ++ text))

module _ (mac : Bytes → Bytes → Bytes) where
  -- RFC 5869, section 2.3: T(0) is empty, T(i + 1) = HMAC-Hash(PRK, T(i) | info | i + 1).
  abbrev pub block : Bytes → Bytes → ℕ → Bytes
  block prk info zero = []
  block prk info (suc i) = mac prk (block prk info i ++ (info ++ ((i + 1) ∷ [])))

  -- T(1) | T(2) | … | T(n)
  abbrev pub blocks : Bytes → Bytes → ℕ → Bytes
  blocks prk info zero = []
  blocks prk info (suc n) = blocks prk info n ++ block prk info (suc n)

  -- N = ceil(L / HashLen)
  abbrev pub rounds : ℕ → ℕ
  rounds n = (n + 31) / 32

  -- the first L octets, under PRK = HMAC-Hash(salt, IKM)
  abbrev pub hkdf : Bytes → Bytes → ℕ → Bytes → Bytes
  hkdf salt info n ikm = take n (blocks (mac salt ikm) info (rounds n))

  pub length-blocks :
      (prk info : Bytes) (n : ℕ)
      → ((key text : Bytes) → length (mac key text) ≡ 32)
      → length (blocks prk info n) ≡ 32 * n
  length-blocks prk info zero h = refl
  length-blocks prk info (suc n) h = omega (
    arith,
    length-append (blocks prk info n) (block prk info (suc n)),
    length-blocks prk info n h,
    h prk (block prk info n ++ (info ++ ((n + 1) ∷ []))),
  )

  -- HKDF returns as many bytes as are asked for.
  pub length-hkdf :
      (salt info : Bytes) (n : ℕ) (ikm : Bytes)
      → ((key text : Bytes) → length (mac key text) ≡ 32)
      → length (hkdf salt info n ikm) ≡ n
  length-hkdf salt info n ikm h = omega (
    arith,
    length-take n (blocks (mac salt ikm) info (rounds n)),
    length-blocks (mac salt ikm) info (rounds n) h,
  )
