-- ===== src/ConversationSync/Directory.antt =====
-- Pages of the directory, which `BeginBootstrap` and `ContinueBootstrap` answer
-- (server/sync/conversation/service.go).
pub mod Listed
pub mod Assembled
pub mod Checked
pub mod Pages
pub mod Answers
