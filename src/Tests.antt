-- ===== src/Tests.antt =====
-- Concrete runs of the development's theorems, on stand-ins for the third-party code.
pub mod Toys
pub mod Json
pub mod Documented
pub mod Crypto
pub mod Protocol
pub mod Rekey
pub mod Transfer
pub mod Transport
pub mod Interop
pub mod Tools
