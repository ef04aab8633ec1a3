-- ===== src/Conversations/Engine/Release/Neutral.antt =====
-- The steps of src/conversations/conversation-engine.ts that take and give back nothing.
use chatgpt_web_gateway.Base.{
  ℕ, ◌≡◌, refl, ap, ◌∙◌, Bool, true, false, Option, none, some, List, [], ◌∷◌, length,
  if◌then◌else◌, ◌==◌,
}
use chatgpt_web_gateway.Base.Results.{Result, returned, thrown}
use chatgpt_web_gateway.Text.{Text}
use chatgpt_web_gateway.Text.Maps.{TextMap}
use chatgpt_web_gateway.Context.{
  CanonicalConversationRequest, CanonicalStoredConversation, ContextSyncPlan, fresh_plan,
  append_plan, restore_plan, rebuild_plan,
}
use chatgpt_web_gateway.Context.Uploads.{select_upload_attachment_references}
use chatgpt_web_gateway.Tools.Parser.{ParsedAssistantOutput, text_output, tool_calls}
use chatgpt_web_gateway.Conversations.Aggregate.{ConversationAggregate, AssistantAggregateResult}
use chatgpt_web_gateway.Conversations.Normalized.{NormalizedRequest, ResolvedAttachmentSemantic}
use chatgpt_web_gateway.Conversations.Engine.Stored.{ResolvedAttachment}
use chatgpt_web_gateway.Conversations.Engine.Program.{
  EngineError, call_failed, Operation, stage, open_fresh, mark_sync_in_flight, open_conversation,
  save, Event, Engine, Local, Run, give, raise, next, ◌>>=◌, from, is_returned, call, update, read,
}
use chatgpt_web_gateway.Conversations.Engine.Prepare.{
  PreparedConversationContext, stored_of, affinity_of, canonical_of, plan_of,
  prepare_without_resolver, stage_uploads,
}
use chatgpt_web_gateway.Conversations.Engine.Execute.{
  restore_page, prepare_page, start_checkpoint, finish_answer, parse_assistant_result,
  build_final_result, conversation_id_of,
}
use chatgpt_web_gateway.Conversations.Engine.Release.{other, handle_of, entered, Ledger, ledger}

-- What is held, and what has been opened and closed.
pub record Tally : Type 0 where
  pub calls : Ledger
  pub current : Bool
  pub retained : Bool
  pub released : Bool
  pub session : Option ℕ
  pub completed : Bool

abbrev pub tally : Local → Tally
tally s = record {
  calls = ledger s.trace;
  current = s.current;
  retained = s.retained;
  released = s.released;
  session = s.session;
  completed = s.completed;
}

pub record IsNeutral {A : Type 0} (m : Run A) : Type 0 where
  pub same : (s : Local) → tally ((m s).1) ≡ tally s

pub from-state :
    {E A : Type 0} (wrap : E → EngineError) (r : Result E A) (s : Local) → (from wrap r s).1 ≡ s
unfolding from
from-state wrap (returned a) s = refl
from-state wrap (thrown e) s = refl

pub from-IsNeutral :
    {E A : Type 0} (wrap : E → EngineError) (r : Result E A) → IsNeutral (from wrap r)
from-IsNeutral wrap r = record { same = λ s. ap tally (from-state wrap r s) }

pub next-IsNeutral :
    {A B : Type 0} (k : A → Run B)
    → ((a : A) → IsNeutral (k a))
    → (r : Result EngineError A) (s : Local) → tally ((next k r s).1) ≡ tally s
unfolding next
next-IsNeutral k h (returned a) s = (h a).same s
next-IsNeutral k h (thrown e) s = refl

pub bind-IsNeutral :
    {A B : Type 0} (m : Run A) (k : A → Run B)
    → IsNeutral m
    → ((a : A) → IsNeutral (k a))
    → IsNeutral (m >>= k)
unfolding ◌>>=◌
bind-IsNeutral m k hm hk = record {
  same = λ s. next-IsNeutral k hk ((m s).0) ((m s).1) ∙ hm.same s;
}

pub call-IsNeutral :
    {A : Type 0} (op : Operation) (answer : List Event → Result Text A)
    → ((b : Bool) → handle_of op b ≡ other)
    → IsNeutral (call op answer)
unfolding call ledger
call-IsNeutral op answer h = record {
  same = λ s.
      let r = answer s.trace in
      ap tally (
        from-state call_failed r
          (record s { trace = record { operation = op; succeeded = is_returned r } ∷ s.trace }))
      ∙ ap (λ x. record (tally s) { calls = entered x (ledger s.trace) }) (h (is_returned r));
}

pub give-IsNeutral : {A : Type 0} (a : A) → IsNeutral (give a)
unfolding give
give-IsNeutral a = record { same = λ s. refl }

pub raise-IsNeutral : {A : Type 0} (e : EngineError) → IsNeutral (raise {A = A} e)
unfolding raise
raise-IsNeutral e = record { same = λ s. refl }

pub read-IsNeutral : {A : Type 0} (f : Local → A) → IsNeutral (read f)
unfolding read
read-IsNeutral f = record { same = λ s. refl }

pub if-IsNeutral :
    {A : Type 0} (b : Bool) (m n : Run A)
    → IsNeutral m
    → IsNeutral n
    → IsNeutral (if b then m else n)
if-IsNeutral true m n hm hn = hm
if-IsNeutral false m n hm hn = hn

-- Drawing an id takes nothing.
pub drawn-IsNeutral : (f : Local → ℕ) → IsNeutral (update (λ s. record s { drawn = f s }))
unfolding update
drawn-IsNeutral f = record { same = λ s. refl }

module _ (e : Engine) where
  pub stored_of-IsNeutral :
      (existing : Option ConversationAggregate) (retained : List ResolvedAttachment)
      → IsNeutral (stored_of e existing retained)
  unfolding stored_of
  stored_of-IsNeutral none retained = give-IsNeutral none
  stored_of-IsNeutral (some aggregate) retained =
      bind-IsNeutral _ _ (from-IsNeutral _ _) (λ stored. give-IsNeutral (some stored))

  affinity_of-IsNeutral :
      (existing : Option ConversationAggregate) (id : Text) → IsNeutral (affinity_of e existing id)
  unfolding affinity_of
  affinity_of-IsNeutral none id = give-IsNeutral false
  affinity_of-IsNeutral (some aggregate) id = read-IsNeutral _

  pub plan_of-IsNeutral :
      (existing : Option ConversationAggregate) (id : Text)
      (stored : Option CanonicalStoredConversation) (canonical : CanonicalConversationRequest)
      → IsNeutral (plan_of e existing id stored canonical)
  unfolding plan_of
  plan_of-IsNeutral existing id stored canonical =
      bind-IsNeutral _ _ (affinity_of-IsNeutral existing id) (λ affinity. from-IsNeutral _ _)

  pub canonical_of-IsNeutral :
      (streaming : Bool) (request : NormalizedRequest)
      (resolved : Option (TextMap ResolvedAttachmentSemantic))
      → IsNeutral (canonical_of e streaming request resolved)
  unfolding canonical_of
  canonical_of-IsNeutral streaming request resolved = from-IsNeutral _ _

  module _ (existing : Option ConversationAggregate) (id : Text) (streaming : Bool)
      (request : NormalizedRequest) where
    pub prepare_without_resolver-IsNeutral :
        IsNeutral (prepare_without_resolver e existing id streaming request)
    unfolding prepare_without_resolver
    prepare_without_resolver-IsNeutral =
        bind-IsNeutral _ _ (canonical_of-IsNeutral streaming request none) (λ canonical.
          bind-IsNeutral _ _ (stored_of-IsNeutral existing []) (λ stored.
            bind-IsNeutral _ _ (plan_of-IsNeutral existing id stored canonical)
              (λ plan. give-IsNeutral _)))

    pub stage_uploads-IsNeutral :
        (plan : ContextSyncPlan) → IsNeutral (stage_uploads e existing id streaming request plan)
    unfolding stage_uploads
    stage_uploads-IsNeutral plan =
        let references = select_upload_attachment_references plan in
        if-IsNeutral (length references == 0) (give []) (call stage (e.on_stage references))
          (give-IsNeutral []) (call-IsNeutral stage (e.on_stage references) (λ b. refl))

  restore_page-IsNeutral :
      (session : ℕ) (url : Option Text) → IsNeutral (restore_page e session url)
  unfolding restore_page
  restore_page-IsNeutral session none = raise-IsNeutral _
  restore_page-IsNeutral session (some []) = raise-IsNeutral _
  restore_page-IsNeutral session (some (c ∷ cs)) =
      bind-IsNeutral _ _ (call-IsNeutral (open_conversation (c ∷ cs)) _ (λ b. refl)) (λ restored.
        if-IsNeutral restored _ _ (give-IsNeutral _)
          (bind-IsNeutral _ _ (call-IsNeutral open_fresh _ (λ b. refl)) (λ u. give-IsNeutral _)))

  pub prepare_page-IsNeutral :
      (session : ℕ) (plan : ContextSyncPlan) (url : Option Text)
      → IsNeutral (prepare_page e session plan url)
  unfolding prepare_page
  prepare_page-IsNeutral session (fresh_plan history pending) url =
      bind-IsNeutral _ _ (call-IsNeutral open_fresh _ (λ b. refl)) (λ u. give-IsNeutral _)
  prepare_page-IsNeutral session (rebuild_plan reason history pending) url =
      bind-IsNeutral _ _ (call-IsNeutral open_fresh _ (λ b. refl)) (λ u. give-IsNeutral _)
  prepare_page-IsNeutral session (append_plan pending) url = restore_page-IsNeutral session url
  prepare_page-IsNeutral session (restore_plan pending) url = restore_page-IsNeutral session url

  pub start_checkpoint-IsNeutral :
      (existing : Option ConversationAggregate) (id : Text) (key : Option Text)
      (request : NormalizedRequest) (started_at : ℕ)
      → IsNeutral (start_checkpoint e existing id key request started_at)
  unfolding start_checkpoint
  start_checkpoint-IsNeutral (some existing) id key request started_at =
      bind-IsNeutral _ _ (call-IsNeutral mark_sync_in_flight _ (λ b. refl))
        (λ u. give-IsNeutral existing)
  start_checkpoint-IsNeutral none id key request started_at =
      bind-IsNeutral _ _ (from-IsNeutral _ _) (λ initial.
        bind-IsNeutral _ _ (call-IsNeutral (save initial) _ (λ b. refl))
          (λ u. give-IsNeutral initial))

  finish_answer-IsNeutral :
      (request : NormalizedRequest) (parsed : ParsedAssistantOutput)
      → IsNeutral (finish_answer e request parsed)
  unfolding finish_answer
  finish_answer-IsNeutral request (text_output t) =
      bind-IsNeutral _ _ (from-IsNeutral _ _) (λ u. give-IsNeutral _)
  finish_answer-IsNeutral request (tool_calls calls) =
      bind-IsNeutral _ _ (read-IsNeutral _)
        (λ numbered. bind-IsNeutral _ _ (drawn-IsNeutral _) (λ u. give-IsNeutral _))

  pub parse_assistant_result-IsNeutral :
      (t : Text) (request : NormalizedRequest) → IsNeutral (parse_assistant_result e t request)
  unfolding parse_assistant_result
  parse_assistant_result-IsNeutral t request =
      bind-IsNeutral _ _ (from-IsNeutral _ _) (λ parsed. finish_answer-IsNeutral request parsed)

  pub build_final_result-IsNeutral :
      (existing : Option ConversationAggregate) (initial : ConversationAggregate)
      (request : NormalizedRequest) (context : PreparedConversationContext)
      (answer : AssistantAggregateResult) (url : Text) (completed_at : ℕ)
      → IsNeutral (build_final_result e existing initial request context answer url completed_at)
  unfolding build_final_result
  build_final_result-IsNeutral existing initial request context answer url completed_at =
      bind-IsNeutral _ _ (from-IsNeutral _ _) (λ conversation.
        bind-IsNeutral _ _ (from-IsNeutral _ _) (λ aggregate.
          bind-IsNeutral _ _ (call-IsNeutral (save aggregate) _ (λ b. refl))
            (λ u. give-IsNeutral _)))

  pub conversation_id_of-IsNeutral :
      (existing : Option ConversationAggregate) → IsNeutral (conversation_id_of e existing)
  unfolding conversation_id_of
  conversation_id_of-IsNeutral (some existing) = give-IsNeutral _
  conversation_id_of-IsNeutral none =
      bind-IsNeutral _ _ (read-IsNeutral _)
        (λ id. bind-IsNeutral _ _ (drawn-IsNeutral _) (λ u. give-IsNeutral id))
