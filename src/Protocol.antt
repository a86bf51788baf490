-- ===== src/Protocol.antt =====
-- The wire protocol (core/protocol/go): frames of JSON, and the checks on their fields.
pub mod Json
pub mod Types
pub mod Checks
pub mod Strict
pub mod Media
pub mod Message
pub mod Frame
pub mod Send
pub mod Numbers
pub mod Magnitudes
pub mod Intent
pub mod Results
pub mod Compared
pub mod Correlated
pub mod Terminates
pub mod RoundTrip
