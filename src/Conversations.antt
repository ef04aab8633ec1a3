-- ===== src/Conversations.antt =====
-- src/conversations
pub mod PageRegistry
pub mod Aggregate
pub mod Pages
pub mod Queue
pub mod Normalized
pub mod Prompts
pub mod RequestMessages
pub mod RequestTranscript
pub mod RequestContext
pub mod Engine
