-- ===== src/Conversations/Engine/Release/Settled.antt =====
-- After a turn of src/conversations/conversation-engine.ts nothing is held.
use chatgpt_web_gateway.Base.{refl, false, Option}
use chatgpt_web_gateway.Text.{Text}
use chatgpt_web_gateway.Conversations.Aggregate.{ConversationAggregate}
use chatgpt_web_gateway.Conversations.Normalized.{NormalizedRequest}
use chatgpt_web_gateway.Conversations.Engine.Program.{Engine, before, ◌>>=◌}
use chatgpt_web_gateway.Conversations.Engine.Prepare.{prepare_conversation_context}
use chatgpt_web_gateway.Conversations.Engine.Execute.{execute_prepared, execute_conversation}
use chatgpt_web_gateway.Conversations.Engine.Release.{ledger, IsBalanced}
use chatgpt_web_gateway.Conversations.Engine.Release.Neutral.{
  Tally, tally, conversation_id_of-IsNeutral,
}
use chatgpt_web_gateway.Conversations.Engine.Release.Leads.{
  bit, Ready, neutral-Leads, bind-Leads, Settled, Leads,
}
use chatgpt_web_gateway.Conversations.Engine.Release.Turn.{execute_prepared-Settled}
use chatgpt_web_gateway.Conversations.Engine.Release.Prepared.{
  next-Settled, prepare-IsPrepared, Start,
}

before-Start : Start (tally before)
unfolding Ready ledger bit
before-Start = record {
  ready = (
    record {
      opened_current = refl;
      opened_retained = refl;
      closed_current = refl;
      closed_retained = refl;
      not_released = refl;
    },
    record {
      session = refl;
      completed = refl;
      acquired = refl;
      completions = refl;
      failures = refl;
    },
  );
  settled = record { current_closed = refl; retained_closed = refl; session_closed = refl };
  no_current = refl;
  no_retained = refl;
}

Start-Settled : (t : Tally) → Start t → Settled t
Start-Settled t s = s.settled

-- From the prepared context on
turn-Settled :
    (e : Engine) (existing : Option ConversationAggregate) (key : Option Text)
    (request : NormalizedRequest) (id : Text)
    → Leads Start Settled (
        prepare_conversation_context e existing id false request >>= λ context.
        execute_prepared e existing id key request context)
unfolding ◌>>=◌
turn-Settled e existing key request id = record {
  leads = λ s p.
      let x = prepare_conversation_context e existing id false request s in
      next-Settled (λ context. execute_prepared e existing id key request context) x.0 x.1
        ((prepare-IsPrepared e existing id false request).prepares s p)
        (λ context. execute_prepared-Settled e existing id key request context);
}

-- However its calls are answered, a turn that ends, in a result or in an error, has given back the
-- resolved and the retained attachments once each, if it had them, and has completed or failed the
-- session that it acquired.
pub execute_conversation-IsBalanced :
    (e : Engine) (existing : Option ConversationAggregate) (key : Option Text)
    (request : NormalizedRequest)
    → IsBalanced ((execute_conversation e existing key request before).1.trace)
unfolding execute_conversation
execute_conversation-IsBalanced e existing key request =
    let t =
      (bind-Leads Start Start Settled _ _
          (neutral-Leads Start _ (conversation_id_of-IsNeutral e existing)) Start-Settled
          (λ id. turn-Settled e existing key request id)).leads
        before before-Start in
    record {
      current_closed = t.current_closed;
      retained_closed = t.retained_closed;
      session_closed = t.session_closed;
    }
