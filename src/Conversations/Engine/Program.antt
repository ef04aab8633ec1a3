-- ===== src/Conversations/Engine/Program.antt =====
-- src/conversations/conversation-engine.ts: the engine as a program over the calls it makes of its page
-- registry, driver, store and attachment resolver. Each call is answered by a function of all calls
-- before it, so that a theorem on every engine holds whatever they answer. A handle is a number.
use chatgpt_web_gateway.Base.{ℕ, Bool, true, false, Option, none, List, [], ◌∷◌}
use chatgpt_web_gateway.Base.Results.{Result, returned, thrown}
use chatgpt_web_gateway.Text.{Text}
use chatgpt_web_gateway.Context.{AttachmentKind}
use chatgpt_web_gateway.Context.Fingerprint.{Json, Digest}
use chatgpt_web_gateway.Context.Planner.{PlanningError}
use chatgpt_web_gateway.Tools.{ToolProtocolErrorCode}
use chatgpt_web_gateway.Tools.Canonicalize.{ToolError}
use chatgpt_web_gateway.Structured.{StructuredOutputErrorCode}
use chatgpt_web_gateway.Conversations.Aggregate.{ConversationAggregate}
use chatgpt_web_gateway.Conversations.Aggregate.Build.{MissingBinding}
use chatgpt_web_gateway.Conversations.Normalized.{RequestError}
use chatgpt_web_gateway.Conversations.Engine.Stored.{ResolvedAttachment, StoredError}

pub data EngineError : Type 0 where
  request_failed : RequestError → EngineError
  planning_failed : PlanningError → EngineError
  stored_failed : StoredError → EngineError
  tools_failed : ToolError → EngineError
  protocol_failed : ToolProtocolErrorCode → EngineError
  structured_failed : StructuredOutputErrorCode → EngineError
  binding_failed : MissingBinding → EngineError
  conversation_restore_failed : EngineError
  -- what a call threw, by its code
  call_failed : Text → EngineError

pub data Operation : Type 0 where
  resolve_all retain_stored stage release_retained release_current : Operation
  acquire open_fresh complete fail mark_sync_in_flight : Operation
  open_conversation : (url : Text) → Operation
  save : ConversationAggregate → Operation
  send_text : (prompt : Text) → Operation

-- A call, and whether it returned
pub record Event : Type 0 where
  pub operation : Operation
  pub succeeded : Bool

-- src/attachments/staging.ts: what the engine reads of a prepared attachment
pub record PreparedAttachment : Type 0 where
  pub local_attachment_id : Text
  pub kind : AttachmentKind
  pub staging_path : Text
  pub upload_filename : Text

pub record ChatGptTextResult : Type 0 where
  pub text_answer : Text
  pub conversation_url : Text

-- CreateConversationEngineOptions, with the libraries that the engine's parts call. The calls so far,
-- the newest first, decide what a call answers.
pub record Engine : Type 1 where
  pub digest : Digest
  pub hex : digest.Hash → Text
  pub parse : Text → Option Json
  pub stringify : Json → Text
  pub compile : Json → Option (Json → Bool)
  pub random_uuid : ℕ → Text
  pub record_uuid : ℕ → Text
  pub has_resolver : Bool
  pub on_resolve_all : List Event → Result Text (List ResolvedAttachment)
  pub on_retain_stored : List Event → Result Text (List ResolvedAttachment)
  pub on_stage : List Text → List Event → Result Text (List PreparedAttachment)
  pub has_affinity : Text → List Event → Bool
  pub on_acquire : Text → List Event → Result Text ℕ
  pub on_open_fresh : ℕ → List Event → Result Text (Unit {0})
  pub on_open_conversation : ℕ → Text → List Event → Result Text Bool
  pub on_send_text : ℕ → Text → List PreparedAttachment → List Event → Result Text ChatGptTextResult
  pub on_mark_sync_in_flight : Text → ℕ → List Event → Result Text (Unit {0})
  pub on_save : ConversationAggregate → List Event → Result Text (Unit {0})
  pub on_complete : ℕ → List Event → Result Text (Unit {0})
  pub on_fail : ℕ → List Event → Result Text (Unit {0})
  pub now : List Event → ℕ

-- The variables of a turn: the handles it holds, and whether it has released them and has completed.
pub record Local : Type 0 where
  pub trace : List Event
  pub drawn : ℕ
  pub current : Bool
  pub retained : Bool
  pub released : Bool
  pub session : Option ℕ
  pub completed : Bool

abbrev pub Run : Type 0 → Type 0
Run A = Local → Result EngineError A × Local

abbrev pub before : Local
before = record {
  trace = [];
  drawn = 0;
  current = false;
  retained = false;
  released = false;
  session = none;
  completed = false;
}

unfoldable pub give : {A : Type 0} → A → Run A
give a s = (returned a, s)

unfoldable pub raise : {A : Type 0} → EngineError → Run A
raise e s = (thrown e, s)

unfoldable pub next :
    {A B : Type 0} → (A → Run B) → Result EngineError A → Local → Result EngineError B × Local
next k (returned a) s = k a s
next k (thrown e) s = (thrown e, s)

infixl 5 ◌>>=◌
unfoldable pub ◌>>=◌ : {A B : Type 0} → Run A → (A → Run B) → Run B
unfolding next
(m >>= k) s = let (r, s') = m s in next k r s'

-- Evaluates what cannot wait, and may throw.
unfoldable pub from : {E A : Type 0} → (E → EngineError) → Result E A → Run A
from wrap (returned a) s = (returned a, s)
from wrap (thrown e) s = (thrown (wrap e), s)

unfoldable pub is_returned : {A : Type 0} → Result Text A → Bool
is_returned (returned a) = true
is_returned (thrown e) = false

unfoldable pub call : {A : Type 0} → Operation → (List Event → Result Text A) → Run A
unfolding is_returned from
call operation answer s =
    let r = answer s.trace in
    from call_failed r
      (record s { trace = record { operation = operation; succeeded = is_returned r } ∷ s.trace })

unfoldable pub update : (Local → Local) → Run (Unit {0})
update f s = (returned tt, f s)

unfoldable pub read : {A : Type 0} → (Local → A) → Run A
read f s = (returned (f s), s)

-- An error of the cleanup takes the place of the body's result.
unfoldable pub after :
    {A : Type 0}
    → Result EngineError A
    → Result EngineError (Unit {0}) × Local
    → Result EngineError A × Local
after r (returned u, s) = (r, s)
after r (thrown e, s) = (thrown e, s)

-- try { body } finally { cleanup }
unfoldable pub finally_do : {A : Type 0} → Run A → Run (Unit {0}) → Run A
unfolding after
finally_do body cleanup s = let (r, s') = body s in after r (cleanup s')

unfoldable pub cleaned :
    {A : Type 0} → Run (Unit {0}) → Result EngineError A → Local → Result EngineError A × Local
unfolding after
cleaned cleanup (returned a) s = (returned a, s)
cleaned cleanup (thrown e) s = after (thrown e) (cleanup s)

-- try { body } catch (error) { cleanup; throw error }
unfoldable pub on_error : {A : Type 0} → Run A → Run (Unit {0}) → Run A
unfolding cleaned
on_error body cleanup s = let (r, s') = body s in cleaned cleanup r s'
