-- ===== src/Interop.antt =====
-- scripts/interop/reference_impl.py: a second implementation of the protocol, written from its
-- specification without the library, and what the two have to do with each other. The parts that the
-- two take from other packages are the same parameters; HKDF and the HMAC with SM3 are built here.
pub mod Hkdf
pub mod Curve
pub mod Handshake
pub mod Messages
pub mod Rfc
pub mod Documented
pub mod HandshakeParts
pub mod HandshakeAgreement
pub mod MessagesAgreement
pub mod Rekey
pub mod RekeyParts
pub mod RekeyAgreement
