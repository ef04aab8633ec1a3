-- ===== src/Conversations/Engine/Execute.antt =====
-- src/conversations/conversation-engine.ts: executeConversation.
pub mod Tests
use chatgpt_web_gateway.Base.{
  ℕ, zero, suc, ◌+◌, ◌-◌, Bool, true, false, not, Option, none, some, List, [], ◌∷◌, ◌++◌, ◌==◌,
  if◌then◌else◌, length, map,
}
use chatgpt_web_gateway.Base.Results.{Result, returned, thrown}
use chatgpt_web_gateway.Text.{Text, text}
use chatgpt_web_gateway.Text.Maps.{TextMap, set}
use chatgpt_web_gateway.Context.{
  CanonicalMessage, CanonicalConversationRequest, CanonicalStoredConversation, CanonicalToolCall,
  ContextSyncPlan, fresh_plan, append_plan, restore_plan, rebuild_plan,
}
use chatgpt_web_gateway.Context.Planner.{plan_context_sync}
use chatgpt_web_gateway.Context.Uploads.{select_upload_attachment_references}
use chatgpt_web_gateway.Tools.Parser.{
  ParsedCall, ParsedAssistantOutput, text_output, tool_calls, parse_assistant_output,
}
use chatgpt_web_gateway.Structured.{validate_structured_assistant_text}
use chatgpt_web_gateway.Conversations.Aggregate.{
  PersistenceAttachmentBinding, ConversationAggregate, AssistantAggregateResult, text_result,
  tool_calls_result,
}
use chatgpt_web_gateway.Conversations.Aggregate.Build.{
  AggregateInput, build_final_conversation_aggregate,
}
use chatgpt_web_gateway.Conversations.Normalized.{NormalizedRequest, ResolvedAttachmentSemantic}
use chatgpt_web_gateway.Conversations.RequestContext.{
  to_canonical_phase7_conversation_request, to_canonical_phase7_streaming_conversation_request,
}
use chatgpt_web_gateway.Conversations.Engine.Stored.{
  ResolvedAttachment, canonical_stored_conversation,
}
use chatgpt_web_gateway.Conversations.Engine.Context.{
  authoritative_messages, semantic_map, attachment_bindings, PromptMode, context_prompt,
  append_prompt, create_in_flight_conversation, final_conversation_record, build_prompt,
}
use chatgpt_web_gateway.Conversations.Engine.Program.{
  EngineError, request_failed, planning_failed, stored_failed, tools_failed, protocol_failed,
  structured_failed, binding_failed, conversation_restore_failed, Operation, resolve_all,
  retain_stored, stage, release_retained, release_current, acquire, open_fresh, complete, fail,
  mark_sync_in_flight, open_conversation, save, send_text, Event, PreparedAttachment,
  ChatGptTextResult, Engine, Local, Run, give, raise, ◌>>=◌, from, call, update, read, finally_do,
  on_error,
}
use chatgpt_web_gateway.Conversations.Engine.Prepare.{
  PreparedConversationContext, event_if, release, has_attachments, filenames_from, stored_of,
  affinity_of, canonical_of, plan_of, prepare_without_resolver, retain, stage_uploads,
  prepare_resolved, prepare_conversation_context,
}

pub data NormalizedExecutionResult : Type 0 where
  text_execution : (answer conversation_url : Text) (completed_at : ℕ) → NormalizedExecutionResult
  tool_call_execution :
      (calls : List CanonicalToolCall) (conversation_url : Text) (completed_at : ℕ)
      → NormalizedExecutionResult

unfoldable pub url_of : Option ConversationAggregate → Option Text
url_of none = none
url_of (some aggregate) = aggregate.conversation.chatgpt_conversation_url

-- value.replaceAll('-', '')
unfoldable pub without_dashes : Text → Text
without_dashes [] = []
without_dashes (c ∷ cs) = let rest = without_dashes cs in if c == 45 then rest else c ∷ rest

-- completed ? undefined : session
unfoldable pub open_session : (completed : Bool) → Option ℕ → Option ℕ
open_session true session = none
open_session false session = session

module _ (e : Engine) where
  unfoldable pub restore_page : (session : ℕ) → Option Text → Run PromptMode
  unfolding raise call give
  restore_page session none = raise conversation_restore_failed
  restore_page session (some []) = raise conversation_restore_failed
  restore_page session (some (c ∷ cs)) =
      call (open_conversation (c ∷ cs)) (e.on_open_conversation session (c ∷ cs)) >>= λ restored.
      if restored
      then give append_prompt
      else (call open_fresh (e.on_open_fresh session) >>= λ _. give context_prompt)

  unfoldable pub prepare_page : (session : ℕ) → ContextSyncPlan → Option Text → Run PromptMode
  unfolding restore_page call give
  prepare_page session (fresh_plan history pending) url =
      call open_fresh (e.on_open_fresh session) >>= λ _. give context_prompt
  prepare_page session (rebuild_plan reason history pending) url =
      call open_fresh (e.on_open_fresh session) >>= λ _. give context_prompt
  prepare_page session (append_plan pending) url = restore_page session url
  prepare_page session (restore_plan pending) url = restore_page session url

  unfoldable pub start_checkpoint :
      Option ConversationAggregate
      → (conversation_id : Text) (conversation_key : Option Text) → NormalizedRequest
      → (started_at : ℕ) → Run ConversationAggregate
  unfolding call give from
  start_checkpoint (some existing) conversation_id key request started_at =
      call mark_sync_in_flight (e.on_mark_sync_in_flight conversation_id started_at) >>= λ _.
      give existing
  start_checkpoint none conversation_id key request started_at =
      from tools_failed
        (create_in_flight_conversation e.digest e.hex conversation_id key request started_at)
      >>= λ initial. call (save initial) (e.on_save initial) >>= λ _. give initial

  -- parsed.calls.map, with the ids drawn so far
  unfoldable pub number_calls : ℕ → List ParsedCall → List CanonicalToolCall
  unfolding without_dashes
  number_calls drawn [] = []
  number_calls drawn (c ∷ cs) =
      record {
        external_call_id = text "call_" ++ without_dashes (e.random_uuid drawn);
        name = c.name;
        arguments = c.arguments;
      }
      ∷ number_calls (suc drawn) cs

  unfoldable pub finish_answer :
      NormalizedRequest → ParsedAssistantOutput → Run AssistantAggregateResult
  unfolding number_calls from read update give
  finish_answer request (text_output t) =
      from structured_failed
        (validate_structured_assistant_text e.parse e.compile t request.structured)
      >>= λ _. give (text_result t)
  finish_answer request (tool_calls calls) = read (λ s. number_calls s.drawn calls) >>= λ numbered.
      update (λ s. record s { drawn = s.drawn + length calls }) >>= λ _.
      give (tool_calls_result numbered)

  unfoldable pub parse_assistant_result : Text → NormalizedRequest → Run AssistantAggregateResult
  unfolding finish_answer from
  parse_assistant_result t request =
      from protocol_failed
        (parse_assistant_output e.parse e.stringify request.tools request.tool_choice t)
      >>= λ parsed. finish_answer request parsed

  unfoldable pub execution_result : AssistantAggregateResult → Text → ℕ → NormalizedExecutionResult
  execution_result (text_result t) url completed_at = text_execution t url completed_at
  execution_result (tool_calls_result calls) url completed_at =
      tool_call_execution calls url completed_at

  unfoldable pub build_final_result :
      Option ConversationAggregate
      → (initial : ConversationAggregate) → NormalizedRequest
      → PreparedConversationContext
      → AssistantAggregateResult
      → (conversation_url : Text) (completed_at : ℕ) → Run NormalizedExecutionResult
  unfolding from call give execution_result
  build_final_result existing initial request context answer url completed_at =
      from tools_failed (final_conversation_record e.digest e.hex existing initial request)
      >>= λ conversation.
          from binding_failed (
            build_final_conversation_aggregate e.digest e.record_uuid (record {
              stored = existing;
              stored_canonical_messages = messages_of context.stored;
              conversation = conversation;
              authoritative_messages =
                  authoritative_messages context.canonical_request context.plan context.stored;
              attachment_bindings = context.persistence_bindings;
              assistant_result = answer;
              conversation_url = url;
              completed_at = completed_at;
            }))
          >>= λ aggregate. call (save aggregate) (e.on_save aggregate) >>= λ _.
              give (execution_result answer url completed_at)
    where
      messages_of : Option CanonicalStoredConversation → List CanonicalMessage
      messages_of none = []
      messages_of (some stored) = stored.messages

  unfoldable pub fail_open : Option ℕ → Run (Unit {0})
  unfolding call give
  fail_open none = give tt
  fail_open (some session) = call fail (e.on_fail session)

  -- if (!completed) await session?.fail()
  unfoldable pub fail_session : Run (Unit {0})
  unfolding read fail_open open_session
  fail_session = read (λ s. open_session s.completed s.session) >>= λ session. fail_open session

  module _ (existing : Option ConversationAggregate) (conversation_id : Text)
      (conversation_key : Option Text) (request : NormalizedRequest) where
    -- The end of the try block
    unfoldable pub complete_session :
        (session : ℕ) → NormalizedExecutionResult → Run NormalizedExecutionResult
    unfolding call update give
    complete_session session final = call complete (e.on_complete session) >>= λ _.
        update (λ s. record s { completed = true }) >>= λ _. give final

    -- The try block, from the acquired session on
    unfoldable pub execute_on_page :
        (session : ℕ) → PreparedConversationContext → Run NormalizedExecutionResult
    unfolding call read from prepare_page start_checkpoint parse_assistant_result build_final_result
        complete_session
    execute_on_page session context =
        prepare_page session context.plan (url_of existing) >>= λ mode.
        read (λ s. e.now s.trace) >>= λ started_at.
        start_checkpoint existing conversation_id conversation_key request started_at >>= λ initial.
        from tools_failed (
          build_prompt e.stringify mode request context.canonical_request context.plan
            context.stored context.upload_filename_by_reference)
        >>= λ prompt.
            call (send_text prompt) (e.on_send_text session prompt context.prepared_uploads)
            >>= λ result. read (λ s. e.now s.trace) >>= λ completed_at.
                parse_assistant_result result.text_answer request >>= λ answer.
                build_final_result existing initial request context answer result.conversation_url
                  completed_at
                >>= λ final. complete_session session final

    -- The try block, once the context is prepared
    unfoldable pub execute_turn : PreparedConversationContext → Run NormalizedExecutionResult
    unfolding call update execute_on_page
    execute_turn context = call acquire (e.on_acquire conversation_id) >>= λ session.
        update (λ s. record s { session = some session }) >>= λ _. execute_on_page session context

    unfoldable pub execute_prepared : PreparedConversationContext → Run NormalizedExecutionResult
    unfolding execute_turn finally_do fail_session update release
    execute_prepared context =
        finally_do (execute_turn context) (finally_do fail_session (update release))

  -- existing?.conversation.id ?? options.randomUuid()
  unfoldable pub conversation_id_of : Option ConversationAggregate → Run Text
  unfolding give read update
  conversation_id_of (some existing) = give existing.conversation.id
  conversation_id_of none = read (λ s. e.random_uuid s.drawn) >>= λ id.
      update (λ s. record s { drawn = suc s.drawn }) >>= λ _. give id

  unfoldable pub execute_conversation :
      Option ConversationAggregate
      → (conversation_key : Option Text) → NormalizedRequest
      → Run NormalizedExecutionResult
  unfolding conversation_id_of prepare_conversation_context execute_prepared
  execute_conversation existing key request = conversation_id_of existing >>= λ id.
      prepare_conversation_context e existing id false request >>= λ context.
      execute_prepared existing id key request context
