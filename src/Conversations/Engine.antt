-- ===== src/Conversations/Engine.antt =====
-- src/conversations/conversation-engine.ts: a turn of a conversation, from the request to the saved
-- answer.
pub mod Stored
pub mod Context
pub mod Program
pub mod Prepare
pub mod Execute
pub mod Release
pub mod Anonymous
