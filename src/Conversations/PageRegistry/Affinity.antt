-- ===== src/Conversations/PageRegistry/Affinity.antt =====
-- A conversation keeps its page: bindings of src/conversations/page-registry.ts over its sessions.
use chatgpt_web_gateway.Text.{Text}
use chatgpt_web_gateway.Conversations.PageRegistry.Others.{Others}
