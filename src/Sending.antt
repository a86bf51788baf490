-- ===== src/Sending.antt =====
-- The sending of messages (server/message, server/conversation, server/storage/message): a service
-- that answers a request with an acknowledgement, and the transaction that stores it.
pub mod Types
pub mod Service
pub mod Repository
pub mod Transaction
pub mod Sent
pub mod Resent
pub mod Frozen
pub mod Failed
