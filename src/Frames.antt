-- ===== src/Frames.antt =====
-- The frames of the wire protocol: internal/protocol/protocol.go.
pub mod Codec
pub mod RoundTrip
pub mod Errors
mod Examples
