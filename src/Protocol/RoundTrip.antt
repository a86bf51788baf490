-- ===== src/Protocol/RoundTrip.antt =====
-- Frames that are written are read back (core/protocol/go/send.go).
pub mod Written
pub mod Quoted
pub mod Objects
pub mod Skipped
pub mod Wrapped
pub mod Parsed
pub mod Frames
