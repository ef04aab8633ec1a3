-- ===== src/Context/Sync/Tests.antt =====
-- A second question to a stored conversation.
use chatgpt_web_gateway.Base.{◌≡◌, refl, false, none, some, [], ◌∷◌}
use chatgpt_web_gateway.Text.{text, text_eq}
use chatgpt_web_gateway.Context.Sync.{
  text_part, user_role, ContextMessage, restore_mode, PersistedContextSnapshot,
  PlanContextSyncOptions, plan_context_sync, sync_runs,
}
use chatgpt_web_gateway.Context.Sync.Laws.{Decided, plan_context_sync-Decided}

abbrev question : ContextMessage
question = record {
  role = user_role;
  content = text_part (text "2+2?") ∷ [];
  tool_call_id = none;
  tool_calls = none;
}

abbrev stored : PersistedContextSnapshot
stored = record {
  instructions = [];
  messages = record question { tool_calls = some [] } ∷ [];
  conversation_url = some (text "u");
}

abbrev asks_again : PlanContextSyncOptions
asks_again = record {
  instructions = [];
  messages = question ∷ question ∷ [];
  persisted = some stored;
  has_warm_page = false;
}

restored :
    plan_context_sync asks_again ≡ record { mode = restore_mode; append_messages = question ∷ [] }
unfolding sync_runs text_eq
restored = refl

plan_context_sync-Decided_example : Decided asks_again stored (plan_context_sync asks_again)
plan_context_sync-Decided_example = plan_context_sync-Decided asks_again stored refl
