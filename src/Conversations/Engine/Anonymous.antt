-- ===== src/Conversations/Engine/Anonymous.antt =====
-- src/conversations/conversation-engine.ts: anonymousContinuation, the stored conversation that a request
-- without a key goes on with. Nothing is awaited, so the calls so far are one trace; the store's answer
-- to loadAnonymousBySyncedMessageCount is the parameter load.
pub mod Unique
pub mod Tests
use chatgpt_web_gateway.Base.{
  ℕ, Bool, true, false, not, ◌||◌, Option, none, some, List, [], ◌∷◌, ◌++◌, ◌==◌, if◌then◌else◌,
  length,
}
use chatgpt_web_gateway.Base.Results.{Result, returned, thrown, ◌>>=◌}
use chatgpt_web_gateway.Text.{Text, text}
use chatgpt_web_gateway.Context.{
  CanonicalConversationRequest, CanonicalStoredConversation, ConversationRequestMode, incremental,
  full, ContextSyncPlan, fresh_plan, append_plan, restore_plan, rebuild_plan,
}
use chatgpt_web_gateway.Context.Planner.{PlanningError, plan_context_sync}
use chatgpt_web_gateway.Conversations.Aggregate.{ConversationAggregate}
use chatgpt_web_gateway.Conversations.Normalized.{NormalizedRequest, RequestError}
use chatgpt_web_gateway.Conversations.RequestContext.{
  to_canonical_phase7_conversation_request, to_canonical_phase7_streaming_conversation_request,
}
use chatgpt_web_gateway.Conversations.Engine.Stored.{StoredError, canonical_stored_conversation}
use chatgpt_web_gateway.Conversations.Engine.Context.{request_history_length}
use chatgpt_web_gateway.Conversations.Engine.Program.{Engine, Event}

-- plan.mode === 'APPEND' || plan.mode === 'RESTORE'
pub is_continued_plan : ContextSyncPlan → Bool
is_continued_plan (append_plan pending) = true
is_continued_plan (restore_plan pending) = true
is_continued_plan (fresh_plan history pending) = false
is_continued_plan (rebuild_plan reason history pending) = false

pub is_full : ConversationRequestMode → Bool
is_full full = true
is_full incremental = false

-- `anonymous:${conversationId}`
pub anonymous_queue_key : Text → Text
anonymous_queue_key conversation_id = text "anonymous:" ++ conversation_id

module _ (e : Engine) (trace : List Event) (request : NormalizedRequest) where
  -- From the stored conversation on; one that cannot be read is passed over.
  pub plan_continues :
      CanonicalConversationRequest
      → ConversationAggregate
      → Result StoredError CanonicalStoredConversation
      → Result PlanningError Bool
  unfolding is_continued_plan
  plan_continues canonical candidate (thrown error) = returned false
  plan_continues canonical candidate (returned stored) =
      plan_context_sync e.digest (some stored) canonical
        (e.has_affinity candidate.conversation.id trace)
      >>= λ plan. returned (is_continued_plan plan)

  -- Whether the loop takes a candidate; the planner may throw.
  pub candidate_continues :
      CanonicalConversationRequest → ConversationAggregate → Result PlanningError Bool
  unfolding plan_continues
  candidate_continues canonical candidate =
      if not (length candidate.attachments == 0)
      then returned false
      else plan_continues canonical candidate (canonical_stored_conversation candidate [])

  -- The loop, with the match so far: a second match leaves none.
  pub match_from :
      CanonicalConversationRequest
      → Option ConversationAggregate
      → List ConversationAggregate
      → Result PlanningError (Option ConversationAggregate)
  unfolding candidate_continues
  match_from canonical found [] = returned found
  match_from canonical none (candidate ∷ more) =
      candidate_continues canonical candidate >>= λ continues.
      let taken = match_from canonical (some candidate) more in
      let passed = match_from canonical none more in if continues then taken else passed
  match_from canonical (some other) (candidate ∷ more) =
      candidate_continues canonical candidate >>= λ continues.
      let passed = match_from canonical (some other) more in
      if continues then returned none else passed

  pub canonical_anonymous : Result RequestError CanonicalConversationRequest
  canonical_anonymous =
      if request.stream
      then to_canonical_phase7_streaming_conversation_request e.parse e.compile e.digest e.hex
          request none
      else to_canonical_phase7_conversation_request e.parse e.compile e.digest e.hex request none

  pub continuation_of :
      (load : ℕ → List ConversationAggregate)
      → Result RequestError CanonicalConversationRequest
      → Result PlanningError (Option ConversationAggregate)
  unfolding is_full match_from request_history_length
  continuation_of load (thrown error) = returned none
  continuation_of load (returned canonical) =
      let count = request_history_length canonical in
      if not (is_full canonical.mode) || count == 0
      then returned none
      else match_from canonical none (load count)

  pub anonymous_continuation :
      (load : ℕ → List ConversationAggregate) → Result PlanningError (Option ConversationAggregate)
  unfolding canonical_anonymous continuation_of
  anonymous_continuation load =
      if not (length request.attachments == 0)
      then returned none
      else continuation_of load canonical_anonymous

-- Names what a continuation computes through, for tests.
unfoldable pub anonymous_runs : Unit {0}
unfolding is_continued_plan is_full anonymous_queue_key plan_continues candidate_continues
    match_from canonical_anonymous continuation_of anonymous_continuation
anonymous_runs = tt
