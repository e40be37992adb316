-- ===== src/Transport.antt =====
-- src/sip_protocol/transport: the envelopes of messages and the encrypted channel.
pub mod Message
pub mod Channel
