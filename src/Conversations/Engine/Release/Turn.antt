-- ===== src/Conversations/Engine/Release/Turn.antt =====
-- A turn of src/conversations/conversation-engine.ts that is at work completes or fails its session.
use chatgpt_web_gateway.Base.{
  ℕ, suc, ◌≡◌, refl, sym, ap, ◌∙◌, subst, inl, inr, true, Option, none, some, ◌∷◌, arith,
}
use chatgpt_web_gateway.Base.Results.{Result, returned, thrown}
use chatgpt_web_gateway.Text.{Text}
use chatgpt_web_gateway.Conversations.Aggregate.{ConversationAggregate}
use chatgpt_web_gateway.Conversations.Normalized.{NormalizedRequest}
use chatgpt_web_gateway.Conversations.Engine.Program.{
  call_failed, acquire, complete, fail, Engine, Local, Run, give, next, ◌>>=◌, from, call, update,
  read, is_returned, after, finally_do,
}
use chatgpt_web_gateway.Conversations.Engine.Prepare.{PreparedConversationContext, release}
use chatgpt_web_gateway.Conversations.Engine.Execute.{
  NormalizedExecutionResult, fail_open, open_session, fail_session, complete_session,
  execute_on_page, execute_turn, execute_prepared,
}
use chatgpt_web_gateway.Conversations.Engine.Release.{ledger}
use chatgpt_web_gateway.Conversations.Engine.Release.Neutral.{
  tally, from-state, from-IsNeutral, read-IsNeutral, prepare_page-IsNeutral,
  start_checkpoint-IsNeutral, call-IsNeutral, parse_assistant_result-IsNeutral,
  build_final_result-IsNeutral,
}
use chatgpt_web_gateway.Conversations.Engine.Release.Leads.{
  Ready, AtWork, Ended, Left, after-state, release-Settled, Ended-Left, AtWork-both, at_work,
  Settled, Leads,
}

module _ (e : Engine) where
  -- The end of the try block: the session completes, or is still at work.
  pub complete_session-Leads :
      {B : Type 0} (session : ℕ) (final : B) (r : Result Text (Unit {0})) (s : Local)
      → AtWork (tally s)
      → Ended (
          tally (
            ((from call_failed r >>= λ _.
            update (λ x. record x { completed = true }) >>= λ _. give final)
              (record s {
                trace = record { operation = complete; succeeded = is_returned r } ∷ s.trace;
              })).1))
  unfolding AtWork Ended from ◌>>=◌ next update give is_returned ledger
  complete_session-Leads session final (returned u) s (h, w) = (
    record {
      opened_current = h.opened_current;
      opened_retained = h.opened_retained;
      closed_current = h.closed_current;
      closed_retained = h.closed_retained;
      not_released = h.not_released;
    },
    inr (
        inr (record {
          completed = refl;
          acquired = w.acquired;
          completions = ap suc w.completions;
          failures = w.failures;
        })),
  )
  complete_session-Leads session final (thrown x) s (h, w) = (h, inr (inl w))

  pub acquire-Leads :
      {B : Type 0} (k : ℕ → Run B) (r : Result Text ℕ) (s : Local)
      → ((session : ℕ) → Leads AtWork Ended (k session))
      → Ready (tally s)
      → Ended (
          tally (
            ((from call_failed r >>= λ session.
            update (λ x. record x { session = some session }) >>= λ _. k session)
              (record s {
                trace = record { operation = acquire; succeeded = is_returned r } ∷ s.trace;
              })).1))
  unfolding Ready AtWork Ended from ◌>>=◌ next update is_returned ledger
  acquire-Leads k (thrown x) s go (h, i) = (h, inl i)
  acquire-Leads k (returned session) s go (h, i) =
      (go session).leads
        (record s {
          trace = record { operation = acquire; succeeded = true } ∷ s.trace;
          session = some session;
        })
        (
          record {
            opened_current = h.opened_current;
            opened_retained = h.opened_retained;
            closed_current = h.closed_current;
            closed_retained = h.closed_retained;
            not_released = h.not_released;
          },
          record {
            session = (session, refl);
            completed = i.completed;
            acquired = ap suc i.acquired;
            completions = i.completions;
            failures = i.failures;
          },
        )

  module _ (existing : Option ConversationAggregate) (id : Text) (key : Option Text)
      (request : NormalizedRequest) where
    pub complete_session-Ended :
        (session : ℕ) (final : NormalizedExecutionResult)
        → Leads AtWork Ended (complete_session e existing id key request session final)
    unfolding complete_session call ◌>>=◌
    complete_session-Ended session final = record {
      leads = λ s p. complete_session-Leads session final (e.on_complete session s.trace) s p;
    }

    pub execute_on_page-Ended :
        (session : ℕ) (context : PreparedConversationContext)
        → Leads AtWork Ended (execute_on_page e existing id key request session context)
    unfolding execute_on_page
    execute_on_page-Ended session context =
        at_work _ _ (prepare_page-IsNeutral e session context.plan _) (λ mode.
          at_work _ _ (read-IsNeutral _) (λ started_at.
            at_work _ _ (start_checkpoint-IsNeutral e existing id key request started_at)
              (λ initial. at_work _ _ (from-IsNeutral _ _) (λ prompt.
                at_work _ _ (call-IsNeutral _ _ (λ b. refl)) (λ result.
                  at_work _ _ (read-IsNeutral _) (λ completed_at.
                    at_work _ _ (parse_assistant_result-IsNeutral e result.text_answer request)
                      (λ answer.
                        at_work _ _
                          (build_final_result-IsNeutral e existing initial request context answer
                            result.conversation_url completed_at)
                          (λ final. complete_session-Ended session final))))))))

    pub execute_turn-Ended :
        (context : PreparedConversationContext)
        → Leads Ready Ended (execute_turn e existing id key request context)
    unfolding execute_turn call ◌>>=◌
    execute_turn-Ended context = record {
      leads = λ s p.
          acquire-Leads (λ session. execute_on_page e existing id key request session context)
            (e.on_acquire id s.trace) s (λ session. execute_on_page-Ended session context) p;
    }

  pub fail-Left :
      (session : ℕ) (r : Result Text (Unit {0})) (s : Local)
      → AtWork (tally s)
      → Left (
          tally (
            (from call_failed r (record s {
              trace = record { operation = fail; succeeded = is_returned r } ∷ s.trace;
            })).1))
  unfolding AtWork Left ledger
  fail-Left session r s (h, w) =
      subst (λ x. Left (tally x))
        (sym (
          from-state call_failed r (record s {
            trace = record { operation = fail; succeeded = is_returned r } ∷ s.trace;
          })))
        (
          record {
            opened_current = h.opened_current;
            opened_retained = h.opened_retained;
            closed_current = h.closed_current;
            closed_retained = h.closed_retained;
            not_released = h.not_released;
          },
          ground (arith, w.completions, w.failures, w.acquired),
        )

  pub fail_open-Left :
      (s : Local) (o : Option ℕ)
      → open_session s.completed s.session ≡ o
      → Ended (tally s)
      → Left (tally ((fail_open e o s).1))
  unfolding fail_open open_session Ended call give
  fail_open-Left s none h (held, inl i) =
      Ended-Left (tally s) (held, ground (arith, i.completions, i.failures, i.acquired))
  fail_open-Left s none h (held, inr (inl w)) =
      let (n, o) = w.session in
      absurd (cc (sym h ∙ ap (λ c. open_session c s.session) w.completed ∙ o))
  fail_open-Left s none h (held, inr (inr d)) =
      Ended-Left (tally s) (held, ground (arith, d.completions, d.failures, d.acquired))
  fail_open-Left s (some n) h (held, inl i) =
      absurd (cc (sym h ∙ ap (λ c. open_session c s.session) i.completed ∙ i.session))
  fail_open-Left s (some n) h (held, inr (inl w)) =
      fail-Left n (e.on_fail n s.trace) s (AtWork-both (tally s) held w)
  fail_open-Left s (some n) h (held, inr (inr d)) =
      absurd (cc (sym h ∙ ap (λ c. open_session c s.session) d.completed))

  pub fail_session-Left : Leads Ended Left (fail_session e)
  unfolding fail_session read ◌>>=◌ next
  fail_session-Left = record {
    leads = λ s p. fail_open-Left s (open_session s.completed s.session) refl p;
  }

  pub execute_prepared-Settled :
      (existing : Option ConversationAggregate) (id : Text) (key : Option Text)
      (request : NormalizedRequest) (context : PreparedConversationContext)
      → Leads Ready Settled (execute_prepared e existing id key request context)
  unfolding execute_prepared finally_do update
  execute_prepared-Settled existing id key request context = record {
    leads = λ s p.
        let turn = execute_turn e existing id key request context s in
        let closed = fail_session e (turn.1) in
        let ended = (execute_turn-Ended existing id key request context).leads s p in
        let left = fail_session-Left.leads (turn.1) ended in
        let inner = after-state closed.0 (returned tt, release closed.1) in
        let outer = after-state turn.0 (after closed.0 (returned tt, release closed.1)) in
        subst (λ x. Settled (tally x)) (sym (outer ∙ inner)) (release-Settled closed.1 left);
  }
