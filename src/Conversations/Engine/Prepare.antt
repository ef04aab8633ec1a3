-- ===== src/Conversations/Engine/Prepare.antt =====
-- src/conversations/conversation-engine.ts: prepareConversationContext, and the release of what it holds.
use chatgpt_web_gateway.Base.{
  Bool, true, false, not, Option, none, some, List, [], ◌∷◌, ◌==◌, if◌then◌else◌, length,
}
use chatgpt_web_gateway.Text.{Text}
use chatgpt_web_gateway.Text.Maps.{TextMap, set}
use chatgpt_web_gateway.Context.{
  CanonicalConversationRequest, CanonicalStoredConversation, ContextSyncPlan,
}
use chatgpt_web_gateway.Context.Planner.{plan_context_sync}
use chatgpt_web_gateway.Context.Uploads.{select_upload_attachment_references}
use chatgpt_web_gateway.Conversations.Aggregate.{
  PersistenceAttachmentBinding, ConversationAggregate,
}
use chatgpt_web_gateway.Conversations.Normalized.{NormalizedRequest, ResolvedAttachmentSemantic}
use chatgpt_web_gateway.Conversations.RequestContext.{
  to_canonical_phase7_conversation_request, to_canonical_phase7_streaming_conversation_request,
}
use chatgpt_web_gateway.Conversations.Engine.Stored.{
  ResolvedAttachment, canonical_stored_conversation,
}
use chatgpt_web_gateway.Conversations.Engine.Context.{semantic_map, attachment_bindings}
use chatgpt_web_gateway.Conversations.Engine.Program.{
  request_failed, planning_failed, stored_failed, Operation, resolve_all, retain_stored, stage,
  release_retained, release_current, Event, PreparedAttachment, Engine, Local, Run, give, ◌>>=◌,
  from, call, update, read, on_error,
}

pub record PreparedConversationContext : Type 0 where
  pub canonical_request : CanonicalConversationRequest
  pub stored : Option CanonicalStoredConversation
  pub plan : ContextSyncPlan
  pub prepared_uploads : List PreparedAttachment
  pub upload_filename_by_reference : TextMap Text
  pub persistence_bindings : TextMap PersistenceAttachmentBinding

unfoldable pub event_if : Bool → Operation → List Event → List Event
event_if true operation trace = record { operation = operation; succeeded = true } ∷ trace
event_if false operation trace = trace

-- context.release(): the errors of both handles are dropped, and only the first call does anything.
unfoldable pub release : Local → Local
unfolding event_if
release s = if s.released then s else record s {
  released = true;
  trace = event_if s.current release_current (event_if s.retained release_retained s.trace);
}

unfoldable pub has_attachments : Option ConversationAggregate → Bool
has_attachments none = false
has_attachments (some aggregate) = not (length aggregate.attachments == 0)

-- prepared.map((item) => [item.localAttachmentId, item.uploadFilename])
unfoldable pub filenames_from : TextMap Text → List PreparedAttachment → TextMap Text
unfolding set
filenames_from names [] = names
filenames_from names (item ∷ items) =
    filenames_from (set item.local_attachment_id item.upload_filename names) items

module _ (e : Engine) where
  unfoldable pub stored_of :
      Option ConversationAggregate
      → List ResolvedAttachment
      → Run (Option CanonicalStoredConversation)
  unfolding give from
  stored_of none retained = give none
  stored_of (some aggregate) retained =
      from stored_failed (canonical_stored_conversation aggregate retained) >>= λ stored.
      give (some stored)

  unfoldable pub affinity_of : Option ConversationAggregate → Text → Run Bool
  unfolding give read
  affinity_of none conversation_id = give false
  affinity_of (some aggregate) conversation_id = read (λ s. e.has_affinity conversation_id s.trace)

  unfoldable pub canonical_of :
      (streaming : Bool)
      → NormalizedRequest
      → Option (TextMap ResolvedAttachmentSemantic)
      → Run CanonicalConversationRequest
  unfolding from
  canonical_of streaming request resolved = from request_failed (
      if streaming
      then to_canonical_phase7_streaming_conversation_request e.parse e.compile e.digest e.hex
          request resolved
      else to_canonical_phase7_conversation_request e.parse e.compile e.digest e.hex request
          resolved)

  unfoldable pub plan_of :
      Option ConversationAggregate
      → Text
      → Option CanonicalStoredConversation
      → CanonicalConversationRequest
      → Run ContextSyncPlan
  unfolding affinity_of from
  plan_of existing conversation_id stored canonical =
      affinity_of existing conversation_id >>= λ affinity.
      from planning_failed (plan_context_sync e.digest stored canonical affinity)

  module _ (existing : Option ConversationAggregate) (conversation_id : Text) (streaming : Bool)
      (request : NormalizedRequest) where
    unfoldable pub prepare_without_resolver : Run PreparedConversationContext
    unfolding canonical_of stored_of plan_of give
    prepare_without_resolver = canonical_of streaming request none >>= λ canonical.
        stored_of existing [] >>= λ stored.
        plan_of existing conversation_id stored canonical >>= λ plan. give (record {
          canonical_request = canonical;
          stored = stored;
          plan = plan;
          prepared_uploads = [];
          upload_filename_by_reference = [];
          persistence_bindings = [];
        })

    unfoldable pub retain : Run (List ResolvedAttachment)
    unfolding has_attachments call update give
    retain =
        if has_attachments existing
        then (call retain_stored e.on_retain_stored >>= λ retained.
            update (λ s. record s { retained = true }) >>= λ _. give retained)
        else give []

    unfoldable pub stage_uploads : ContextSyncPlan → Run (List PreparedAttachment)
    unfolding call give
    stage_uploads plan =
        let references = select_upload_attachment_references plan in
        if length references == 0 then give [] else call stage (e.on_stage references)

    unfoldable pub prepare_resolved :
        (current : List ResolvedAttachment) → Run PreparedConversationContext
    unfolding retain canonical_of stored_of plan_of stage_uploads from give filenames_from
    prepare_resolved current = retain >>= λ retained.
        canonical_of streaming request (some (semantic_map current)) >>= λ canonical.
        stored_of existing retained >>= λ stored.
        plan_of existing conversation_id stored canonical >>= λ plan.
        stage_uploads plan >>= λ prepared.
        from stored_failed (attachment_bindings current existing retained) >>= λ bindings.
        give (record {
          canonical_request = canonical;
          stored = stored;
          plan = plan;
          prepared_uploads = prepared;
          upload_filename_by_reference = filenames_from [] prepared;
          persistence_bindings = bindings;
        })

    unfoldable pub prepare_conversation_context : Run PreparedConversationContext
    unfolding prepare_without_resolver call update on_error release prepare_resolved
    prepare_conversation_context =
        if not e.has_resolver
        then prepare_without_resolver
        else (call resolve_all e.on_resolve_all >>= λ current.
            update (λ s. record s { current = true }) >>= λ _.
            on_error (prepare_resolved current) (update release))
