-- ===== src/Conversations/Engine/Release/Prepared.antt =====
-- src/conversations/conversation-engine.ts: what is prepared is held, or has been given back.
use chatgpt_web_gateway.Base.{
  suc, ◌≡◌, sym, ap, ◌∙◌, subst, Bool, true, false, not, Option, some, List, ◌∷◌, if◌then◌else◌,
  arith,
}
use chatgpt_web_gateway.Base.Results.{Result, returned, thrown}
use chatgpt_web_gateway.Text.{Text}
use chatgpt_web_gateway.Conversations.Aggregate.{ConversationAggregate}
use chatgpt_web_gateway.Conversations.Normalized.{NormalizedRequest}
use chatgpt_web_gateway.Conversations.Engine.Context.{semantic_map}
use chatgpt_web_gateway.Conversations.Engine.Stored.{ResolvedAttachment}
use chatgpt_web_gateway.Conversations.Engine.Program.{
  EngineError, call_failed, resolve_all, retain_stored, Engine, Local, Run, give, next, ◌>>=◌, from,
  call, update, is_returned, after, cleaned, on_error,
}
use chatgpt_web_gateway.Conversations.Engine.Prepare.{
  release, retain, has_attachments, prepare_resolved, prepare_conversation_context,
}
use chatgpt_web_gateway.Conversations.Engine.Release.{ledger}
use chatgpt_web_gateway.Conversations.Engine.Release.Neutral.{
  Tally, tally, from-IsNeutral, give-IsNeutral, bind-IsNeutral, prepare_without_resolver-IsNeutral,
  canonical_of-IsNeutral, stored_of-IsNeutral, plan_of-IsNeutral, stage_uploads-IsNeutral,
}
use chatgpt_web_gateway.Conversations.Engine.Release.Leads.{
  bit, Ready, Left, neutral-Leads, bind-Leads, release-Settled, Settled, Leads,
}

-- Before anything is held
pub record Start (t : Tally) : Type 0 where
  pub ready : Ready t
  pub settled : Settled t
  pub no_current : t.current ≡ false
  pub no_retained : t.retained ≡ false

unfoldable pub Unretained : Tally → Type 0
Unretained t = Ready t × (t.retained ≡ false)

pub Unretained-Ready : (t : Tally) → Unretained t → Ready t
unfolding Unretained
Unretained-Ready t (r, _) = r

pub Ready-same : (t : Tally) → Ready t → Ready t
Ready-same t r = r

pub Ready-Left : (t : Tally) → Ready t → Left t
unfolding Ready Left
Ready-Left t (h, i) = (h, ground (arith, i.completions, i.failures, i.acquired))

-- What is prepared is ready for a turn, and what is not has been given back.
unfoldable pub Prepared : {A : Type 0} → Result EngineError A → Tally → Type 0
Prepared (returned a) t = Ready t
Prepared (thrown e) t = Settled t

pub Start-Prepared : {A : Type 0} (r : Result EngineError A) (t : Tally) → Start t → Prepared r t
unfolding Prepared
Start-Prepared (returned a) t s = s.ready
Start-Prepared (thrown e) t s = s.settled

pub retain-Leads :
    {B : Type 0} (k : List ResolvedAttachment → Run B) (r : Result Text (List ResolvedAttachment))
    (s : Local)
    → Unretained (tally s)
    → Ready (
        tally (
          ((from call_failed r >>= λ retained.
          update (λ x. record x { retained = true }) >>= λ _. give retained)
            (record s {
              trace = record { operation = retain_stored; succeeded = is_returned r } ∷ s.trace;
            })).1))
unfolding Unretained Ready from ◌>>=◌ next update give is_returned ledger bit
retain-Leads k (thrown x) s ((h, i), n) = (h, i)
retain-Leads k (returned a) s ((h, i), n) = (
  record {
    opened_current = h.opened_current;
    opened_retained = ap suc (h.opened_retained ∙ ap bit n);
    closed_current = h.closed_current;
    closed_retained = h.closed_retained;
    not_released = h.not_released;
  },
  record {
    session = i.session;
    completed = i.completed;
    acquired = i.acquired;
    completions = i.completions;
    failures = i.failures;
  },
)

pub cleaned-Prepared :
    {A : Type 0} (r : Result EngineError A) (s : Local)
    → Ready (tally s)
    → Prepared ((cleaned (update release) r s).0) (tally ((cleaned (update release) r s).1))
unfolding cleaned update after Prepared
cleaned-Prepared (returned a) s p = p
cleaned-Prepared (thrown e) s p = release-Settled s (Ready-Left (tally s) p)

pub next-Settled :
    {A B : Type 0} (k : A → Run B) (r : Result EngineError A) (s : Local)
    → Prepared r (tally s)
    → ((a : A) → Leads Ready Settled (k a))
    → Settled (tally ((next k r s).1))
unfolding Prepared next
next-Settled k (returned a) s p go = (go a).leads s p
next-Settled k (thrown e) s p go = p

pub if-Leads :
    {A : Type 0} {P Q : Tally → Type 0} (b : Bool) (m n : Run A)
    → Leads P Q m
    → Leads P Q n
    → Leads P Q (if b then m else n)
if-Leads true m n hm hn = hm
if-Leads false m n hm hn = hn

pub record IsPrepared {A : Type 0} (m : Run A) : Type 0 where
  pub prepares : (s : Local) → Start (tally s) → Prepared ((m s).0) (tally ((m s).1))

pub if-IsPrepared :
    {A : Type 0} (b : Bool) (m n : Run A)
    → IsPrepared m
    → IsPrepared n
    → IsPrepared (if b then m else n)
if-IsPrepared true m n hm hn = hm
if-IsPrepared false m n hm hn = hn

module _ (e : Engine) (existing : Option ConversationAggregate) (id : Text) (streaming : Bool)
    (request : NormalizedRequest) where
  pub retain-Ready : Leads Unretained Ready (retain e existing id streaming request)
  unfolding retain call ◌>>=◌ give
  retain-Ready =
      if-Leads (has_attachments existing) _ _
        (record { leads = λ s p. retain-Leads give (e.on_retain_stored s.trace) s p })
        (record { leads = λ s p. Unretained-Ready (tally s) p })

  pub prepare_resolved-Ready :
      (current : List ResolvedAttachment)
      → Leads Unretained Ready (prepare_resolved e existing id streaming request current)
  unfolding prepare_resolved
  prepare_resolved-Ready current =
      bind-Leads Unretained Ready Ready _ _ retain-Ready Ready-same (λ retained.
        neutral-Leads Ready _ (
          bind-IsNeutral _ _
            (canonical_of-IsNeutral e streaming request (some (semantic_map current)))
            (λ canonical. bind-IsNeutral _ _ (stored_of-IsNeutral e existing retained) (λ stored.
              bind-IsNeutral _ _ (plan_of-IsNeutral e existing id stored canonical) (λ plan.
                bind-IsNeutral _ _ (stage_uploads-IsNeutral e existing id streaming request plan)
                  (λ prepared.
                    bind-IsNeutral _ _ (from-IsNeutral _ _) (λ bindings. give-IsNeutral _)))))))

  pub resolve-Prepared :
      (r : Result Text (List ResolvedAttachment)) (s : Local)
      → Start (tally s)
      → let x =
          (from call_failed r >>= λ current. update (λ x. record x { current = true }) >>= λ _.
          on_error (prepare_resolved e existing id streaming request current) (update release))
            (record s {
              trace = record { operation = resolve_all; succeeded = is_returned r } ∷ s.trace;
            }) in
        Prepared x.0 (tally x.1)
  unfolding from ◌>>=◌ next is_returned ledger Prepared update on_error Unretained Ready bit
  resolve-Prepared (thrown x) s p = p.settled
  resolve-Prepared (returned current) s p =
      let (h, i) = p.ready in
      let s2 : Local = record s {
        trace = record { operation = resolve_all; succeeded = true } ∷ s.trace;
        current = true;
      } in
      let x = prepare_resolved e existing id streaming request current s2 in
      cleaned-Prepared x.0 x.1 (
        (prepare_resolved-Ready current).leads s2 (
          (
            record {
              opened_current = ap suc (h.opened_current ∙ ap bit p.no_current);
              opened_retained = h.opened_retained;
              closed_current = h.closed_current;
              closed_retained = h.closed_retained;
              not_released = h.not_released;
            },
            record {
              session = i.session;
              completed = i.completed;
              acquired = i.acquired;
              completions = i.completions;
              failures = i.failures;
            },
          ),
          p.no_retained,
        ))

  pub prepare-IsPrepared : IsPrepared (prepare_conversation_context e existing id streaming request)
  unfolding prepare_conversation_context call ◌>>=◌
  prepare-IsPrepared =
      if-IsPrepared (not e.has_resolver) _ _
        (record {
          prepares = λ s p.
              let x = prepare_without_resolver-IsNeutral e existing id streaming request in
              Start-Prepared _ _ (subst Start (sym (x.same s)) p);
        })
        (record { prepares = λ s p. resolve-Prepared (e.on_resolve_all s.trace) s p })
