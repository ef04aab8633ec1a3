-- ===== src/Conversations/Engine/Release.antt =====
-- What a turn of src/conversations/conversation-engine.ts takes, it gives back, whatever its calls answer.
pub mod Neutral
pub mod Leads
pub mod Turn
pub mod Prepared
pub mod Settled
use chatgpt_web_gateway.Base.{
  ℕ, zero, suc, ◌+◌, ◌≡◌, refl, sym, ap, ◌∙◌, subst, ◌⊎◌, inl, inr, Bool, true, false, not, ◌&&◌,
  Option, none, some, List, [], ◌∷◌, arith, if◌then◌else◌,
}
use chatgpt_web_gateway.Base.Results.{Result, returned, thrown}
use chatgpt_web_gateway.Conversations.Engine.Program.{
  EngineError, Operation, resolve_all, retain_stored, stage, release_retained, release_current,
  acquire, open_fresh, complete, fail, mark_sync_in_flight, open_conversation, save, send_text,
  Event, Local,
}

-- The handles that calls take and give back
pub data Handle : Type 0 where
  opens_current opens_retained opens_session closes_current closes_retained completes fails other :
      Handle

-- What a call is for the ledger; a session that fails is given back even if the call throws.
abbrev pub handle_of : Operation → Bool → Handle
handle_of resolve_all true = opens_current
handle_of retain_stored true = opens_retained
handle_of acquire true = opens_session
handle_of release_current b = closes_current
handle_of release_retained b = closes_retained
handle_of complete true = completes
handle_of fail b = fails
handle_of resolve_all false = other
handle_of retain_stored false = other
handle_of acquire false = other
handle_of complete false = other
handle_of stage b = other
handle_of open_fresh b = other
handle_of mark_sync_in_flight b = other
handle_of (open_conversation url) b = other
handle_of (save aggregate) b = other
handle_of (send_text prompt) b = other

-- How often each was called.
pub record Ledger : Type 0 where
  pub opened_current : ℕ
  pub closed_current : ℕ
  pub opened_retained : ℕ
  pub closed_retained : ℕ
  pub acquired : ℕ
  pub completions : ℕ
  pub failures : ℕ

abbrev pub entered : Handle → Ledger → Ledger
entered opens_current l = record l { opened_current = suc l.opened_current }
entered closes_current l = record l { closed_current = suc l.closed_current }
entered opens_retained l = record l { opened_retained = suc l.opened_retained }
entered closes_retained l = record l { closed_retained = suc l.closed_retained }
entered opens_session l = record l { acquired = suc l.acquired }
entered completes l = record l { completions = suc l.completions }
entered fails l = record l { failures = suc l.failures }
entered other l = l

pub ledger : List Event → Ledger
ledger [] = record {
  opened_current = 0;
  closed_current = 0;
  opened_retained = 0;
  closed_retained = 0;
  acquired = 0;
  completions = 0;
  failures = 0;
}
ledger (event ∷ events) = entered (handle_of event.operation event.succeeded) (ledger events)

-- Nothing is held any more: every handle was closed once, and every session completed or failed.
pub record IsBalanced (events : List Event) : Type 0 where
  pub current_closed : (ledger events).closed_current ≡ (ledger events).opened_current
  pub retained_closed : (ledger events).closed_retained ≡ (ledger events).opened_retained
  pub session_closed :
      (ledger events).completions + (ledger events).failures ≡ (ledger events).acquired
