-- ===== src/ConversationSync/Delta.antt =====
-- What holds of the delta pages of server/sync/conversation/service.go.
pub mod Runs
pub mod Assembled
pub mod Brought
pub mod Pages
pub mod Answers
pub mod Rounds
pub mod Complete
