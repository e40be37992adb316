-- ===== src/Crypto/Sm3.antt =====
-- crypto/sm3.py: `sm3_hash` calls the hash of the cryptography package, which is not in this
-- repository. It is taken with what is documented of it: 32 bytes, for every input.
use sip_protocol.Prelude.{ℕ, ◌≡◌, List, length}
use sip_protocol.Python.Bytes.{IsBytes}

pub record Sm3 : Type 0 where
  pub digest : List ℕ → List ℕ
  pub length-digest : (bs : List ℕ) → length (digest bs) ≡ 32
  pub digest-IsBytes : (bs : List ℕ) → IsBytes (digest bs)
