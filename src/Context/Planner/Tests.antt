-- ===== src/Context/Planner/Tests.antt =====
-- Plans at concrete conversations, with a digest that writes a value out.
use chatgpt_web_gateway.Base.{◌≡◌, ◌↔◌, refl, true, false, none, some, [], ◌∷◌, arith}
use chatgpt_web_gateway.Base.Results.{returned, thrown}
use chatgpt_web_gateway.Text.{text, text_eq}
use chatgpt_web_gateway.Context.{
  user, CanonicalMessage, text_message, tool_call_message, tool_result_message,
  CanonicalInstructions, CanonicalConversationRequest, CanonicalStoredConversation, full,
  incremental, clean, in_flight, append_plan, restore_plan, rebuild_plan, checkpoint_uncertain,
}
use chatgpt_web_gateway.Context.Fingerprint.{fingerprint_canonical}
use chatgpt_web_gateway.Context.Spelled.{spelled, spelled_runs}
use chatgpt_web_gateway.Context.Multimodal.{fingerprint_canonical_message}
use chatgpt_web_gateway.Context.Planner.{
  validate_pending, last_message, plan_context_sync, pending_turn, instructions_value,
  same_instructions, pairwise_same, same_message, differ, is_blank, completed_call, plan_runs,
  pending_start,
}
use chatgpt_web_gateway.Context.Planner.Pending.{IsTurn, validate_pending_iff}
use chatgpt_web_gateway.Context.Planner.Modes.{
  Planned, Continues, IsUnsynced, plan_context_sync-Planned,
}
use chatgpt_web_gateway.Context.Planner.Transcript.{
  SameTranscript, web_messages, plan-SameTranscript,
}
use chatgpt_web_gateway.Context.Planner.Total.{
  IsReturned, plan_context_sync-IsReturned, plan_context_sync-Continues,
}

abbrev no_instructions : CanonicalInstructions
no_instructions = record { system = []; developer = [] }

abbrev question : CanonicalMessage
question = text_message user (text "2+2?")

abbrev asks : CanonicalMessage
asks =
    tool_call_message []
      (record { external_call_id = text "c1"; name = text "add"; arguments = text "{}" } ∷ [])

abbrev answers : CanonicalMessage
answers = tool_result_message (text "c1") (text "4")

abbrev stored_talk : CanonicalStoredConversation
stored_talk = record {
  instructions = no_instructions;
  messages = question ∷ asks ∷ [];
  tool_fingerprint = none;
  conversation_url = some (text "https://chatgpt.com/c/1");
  status = clean;
  synced_message_count = 2;
}

abbrev with_result : CanonicalConversationRequest
with_result = record {
  instructions = no_instructions;
  messages = question ∷ asks ∷ answers ∷ [];
  mode = full;
  tool_fingerprint = none;
}

abbrev with_question : CanonicalConversationRequest
with_question = record {
  instructions = no_instructions;
  messages = question ∷ [];
  mode = incremental;
  tool_fingerprint = none;
}

with_result_planned :
    plan_context_sync spelled (some stored_talk) with_result true
    ≡ returned (append_plan (answers ∷ []))
unfolding plan_runs fingerprint_canonical_message fingerprint_canonical spelled_runs text_eq
with_result_planned = refl

uncertain_planned :
    plan_context_sync spelled
      (some (record stored_talk { status = in_flight; synced_message_count = 1 }))
      with_question
      true
    ≡ returned (rebuild_plan checkpoint_uncertain (question ∷ []) (question ∷ []))
unfolding plan_runs
uncertain_planned = refl

answered_twice :
    validate_pending (answers ∷ []) (question ∷ asks ∷ answers ∷ []) ≡ thrown completed_call
unfolding validate_pending text_eq
answered_twice = refl

validate_pending_iff_example :
    (validate_pending (answers ∷ []) (question ∷ asks ∷ []) ≡ returned tt)
    ↔ IsTurn (answers ∷ []) (question ∷ asks ∷ [])
validate_pending_iff_example = validate_pending_iff (answers ∷ []) (question ∷ asks ∷ [])

plan_context_sync-Planned_example :
    Planned spelled (some stored_talk) with_result true (append_plan (answers ∷ []))
plan_context_sync-Planned_example =
    plan_context_sync-Planned spelled (some stored_talk) with_result true
      (append_plan (answers ∷ [])) with_result_planned

plan-SameTranscript_example :
    SameTranscript spelled
      (web_messages (some stored_talk) (append_plan (answers ∷ [])))
      with_result.messages
plan-SameTranscript_example =
    plan-SameTranscript spelled (some stored_talk) with_result true (append_plan (answers ∷ []))
      refl with_result_planned

question_last : last_message with_question.messages ≡ some question
unfolding last_message
question_last = refl

plan_context_sync-IsReturned_example :
    IsReturned (plan_context_sync spelled (some stored_talk) with_question false)
plan_context_sync-IsReturned_example =
    plan_context_sync-IsReturned spelled (some stored_talk) with_question false question
      question_last refl

result_pending : pending_turn with_result ≡ returned (answers ∷ [])
unfolding pending_turn pending_start
result_pending = refl

result_accepted : validate_pending (answers ∷ []) (question ∷ asks ∷ []) ≡ returned tt
unfolding validate_pending text_eq
result_accepted = refl

stored_talk-Continues : Continues spelled stored_talk with_result
unfolding same_instructions fingerprint_canonical spelled_runs text_eq differ is_blank
    instructions_value
stored_talk-Continues = record {
  clean_status = refl;
  all_synced = refl;
  url = refl;
  instructions = refl;
  tools = refl;
}

result-IsUnsynced : IsUnsynced spelled full stored_talk with_result (answers ∷ [])
unfolding pairwise_same same_message fingerprint_canonical_message fingerprint_canonical
    spelled_runs text_eq
result-IsUnsynced = (omega arith, refl, refl)

plan_context_sync-Continues_example :
    plan_context_sync spelled (some stored_talk) with_result false
    ≡ returned (restore_plan (answers ∷ []))
plan_context_sync-Continues_example =
    plan_context_sync-Continues spelled stored_talk with_result false (answers ∷ []) result_pending
      ((validate_pending_iff (answers ∷ []) (question ∷ asks ∷ [])).0 result_accepted)
      stored_talk-Continues result-IsUnsynced
