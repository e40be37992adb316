-- ===== src/Protocol.antt =====
-- src/sip_protocol/protocol: encrypted messages, the handshake and the change of keys.
pub mod Message
pub mod Handshake
pub mod Rekey
