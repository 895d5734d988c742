-- ===== src/Protocol.antt =====
-- protocol/: messages, their envelopes and their frames on a stream of bytes.
pub mod Message
pub mod Envelope
pub mod Framing
