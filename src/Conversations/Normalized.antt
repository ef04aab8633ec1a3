-- ===== src/Conversations/Normalized.antt =====
-- src/api/normalized.ts: the request that a route hands on; with the errors of
-- src/conversations/errors.ts and what the checks of a request throw.
use chatgpt_web_gateway.Base.{Bool, true, false, Option, List}
use chatgpt_web_gateway.Base.Results.{Result, returned, thrown}
use chatgpt_web_gateway.Text.{Text}
use chatgpt_web_gateway.Context.{AttachmentKind, Role}
use chatgpt_web_gateway.Context.Canonicalize.{CanonicalInstructionInput}
use chatgpt_web_gateway.Tools.Parser.{NormalizedTool, NormalizedToolChoice}
use chatgpt_web_gateway.Structured.{NormalizedStructuredOutput}
use chatgpt_web_gateway.Conversations.Aggregate.{NormalizedContentPart}

pub record NormalizedToolCall : Type 0 where
  pub id : Text
  pub name : Text
  pub arguments : Text

pub record NormalizedMessage : Type 0 where
  pub role : Role
  pub content : List NormalizedContentPart
  pub tool_call_id : Option Text
  pub tool_calls : Option (List NormalizedToolCall)

pub data OutputMode : Type 0 where
  text_mode image_mode : OutputMode

-- Of an attachment, the id: its kind and source are the resolver's.
pub record NormalizedRequest : Type 0 where
  pub conversation_key : Option Text
  pub instructions : List CanonicalInstructionInput
  pub messages : List NormalizedMessage
  pub tools : List NormalizedTool
  pub tool_choice : NormalizedToolChoice
  pub attachments : List Text
  pub output_mode : OutputMode
  pub stream : Bool
  pub structured : Option NormalizedStructuredOutput

pub record ResolvedAttachmentSemantic : Type 0 where
  pub kind : AttachmentKind
  pub sha256 : Text
  pub filename : Text
  pub mime_type : Option Text

pub data RequestPhase : Type 0 where
  phase4 phase5 phase6 phase7 : RequestPhase

-- The errors of the phases by their codes, and an error without a code.
pub data RequestError : Type 0 where
  unsupported_request : RequestPhase → RequestError
  invalid_conversation_request : RequestPhase → RequestError
  other_error : RequestError

unfoldable pub is_phase7 : RequestPhase → Bool
is_phase7 phase7 = true
is_phase7 phase4 = false
is_phase7 phase5 = false
is_phase7 phase6 = false

unfoldable pub is_phase4 : RequestPhase → Bool
is_phase4 phase4 = true
is_phase4 phase5 = false
is_phase4 phase6 = false
is_phase4 phase7 = false

-- if (condition) throw error
unfoldable pub throw_if : Bool → RequestError → Result RequestError (Unit {0})
throw_if true error = thrown error
throw_if false error = returned tt

-- try { … } catch { throw error }
unfoldable pub or_throw : {E A : Type 0} → Result E A → RequestError → Result RequestError A
or_throw (returned a) error = returned a
or_throw (thrown e) error = thrown error
