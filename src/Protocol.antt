-- ===== src/Protocol.antt =====
-- internal/protocol: the envelope, the frames and the Node command payloads.
pub mod Envelope
pub mod Command
pub mod Frame
pub mod FrameLaws
