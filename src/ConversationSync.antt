-- ===== src/ConversationSync.antt =====
-- The sync of an account's conversation list (server/sync/conversation).
pub mod Types
pub mod Cursor
pub mod Codec
pub mod Validate
pub mod Assemble
pub mod Json
pub mod Service
pub mod Render
pub mod Operations
pub mod Delta
pub mod Directory
