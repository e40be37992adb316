-- ===== src/Tests/Documented.antt =====
-- Primitives that do what is documented of them: HMAC and HKDF by the RFCs.
use sip_protocol.Prelude.{◌≡◌, refl, length}
use sip_protocol.Python.Bytes.{IsBytes}
use sip_protocol.Crypto.Suite.{Suite, en, zh}
use sip_protocol.Crypto.Primitives.{Bytes, Primitives}
use sip_protocol.Interop.Rfc
use sip_protocol.Interop.Documented.{AreDocumented}
use sip_protocol.Tests.Toys.{toy_primitives, toy_sm3}

abbrev digest_of : Suite → Bytes → Bytes → Bytes
digest_of en key message = toy_primitives.hmac_digest en key message
digest_of zh key message = Rfc.hmac toy_sm3.digest key message

pub digest_of-IsBytes : (s : Suite) (key message : Bytes) → IsBytes (digest_of s key message)
digest_of-IsBytes en key message = toy_primitives.hmac_digest-IsBytes en key message
digest_of-IsBytes zh key message = toy_sm3.digest-IsBytes _

abbrev hmac_primitives : Primitives
hmac_primitives = record toy_primitives {
  hmac_digest = digest_of;
  hmac_digest-IsBytes = digest_of-IsBytes;
}

pub length-digest_of : (s : Suite) (key message : Bytes) → length (digest_of s key message) ≡ 32
length-digest_of en key message = refl
length-digest_of zh key message = refl

abbrev pub documented_primitives : Primitives
documented_primitives = record hmac_primitives {
  hkdf_derive = λ s salt info n ikm. Rfc.hkdf (digest_of s) salt info n ikm;
  length-hkdf_derive =
      λ s salt info n ikm. Rfc.length-hkdf (digest_of s) salt info n ikm (length-digest_of s);
}

pub documented : AreDocumented documented_primitives toy_sm3
documented = record {
  hmac_rfc2104 = λ key message. refl;
  length-hmac_digest = length-digest_of;
  hkdf_rfc5869 = λ s salt info ikm n small. refl;
}
