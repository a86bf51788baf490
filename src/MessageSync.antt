-- ===== src/MessageSync.antt =====
-- The reading of a conversation's messages after a sequence number (server/sync/message).
pub mod Types
pub mod Service
pub mod Rows
pub mod Assembled
pub mod Pages
pub mod Reading
pub mod Fits
pub mod Accepted
pub mod Served
