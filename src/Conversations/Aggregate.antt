-- ===== src/Conversations/Aggregate.antt =====
-- src/conversations/aggregate-builder.ts, with the records of src/persistence/types.ts that it
-- builds. randomUUID is the parameter uuid, which gives an id for each number drawn; a record that is
-- built says how many have been drawn. Of a conversation, the start of an unfinished turn is left out.
pub mod Build
use chatgpt_web_gateway.Base.{
  ℕ, zero, suc, ◌+◌, ◌-◌, Bool, true, false, not, ◌&&◌, ◌||◌, Option, none, some, List, [], ◌∷◌,
  ◌++◌, leb, ltb, ◌==◌, if◌then◌else◌, map, length, take, any,
}
use chatgpt_web_gateway.Base.Results.{Result, returned, thrown, ◌>>=◌}
use chatgpt_web_gateway.Text.{Text, text, text_eq}
use chatgpt_web_gateway.Context.{
  AttachmentKind, SyncStatus, clean, Speaker, user, assistant, CanonicalContentPart, text_part,
  attachment_part, CanonicalToolCall, CanonicalMessage, text_message, multimodal_message,
  tool_call_message, tool_result_message, Role, user_role, assistant_role, tool_role, role_of,
}
use chatgpt_web_gateway.Context.Canonicalize.{CanonicalInstructionInput}
use chatgpt_web_gateway.Tools.Parser.{NormalizedTool, NormalizedToolChoice}
use chatgpt_web_gateway.Context.Fingerprint.{Digest}
use chatgpt_web_gateway.Context.Multimodal.{fingerprint_canonical_message}

pub data NormalizedContentPart : Type 0 where
  text_content : Text → NormalizedContentPart
  attachment_content : (attachment_id : Text) → NormalizedContentPart

pub data AttachmentSourceRecord : Type 0 where
  url data_url base64 file_id : AttachmentSourceRecord

pub record PersistenceAttachmentBinding : Type 0 where
  pub local_attachment_id : Text
  pub kind : AttachmentKind
  pub source : AttachmentSourceRecord
  pub file : Text

pub record MessageRecord : Type 0 where
  pub id : Text
  pub conversation_id : Text
  pub sequence : ℕ
  pub role : Role
  pub content : List NormalizedContentPart
  pub tool_call_id : Option Text
  pub created_at : ℕ
  pub updated_at : ℕ

pub record ToolCallRecord : Type 0 where
  pub id : Text
  pub conversation_id : Text
  pub message_id : Text
  pub external_call_id : Text
  pub name : Text
  pub arguments_text : Text
  pub created_at : ℕ

pub record AttachmentRecord : Type 0 where
  pub id : Text
  pub conversation_id : Text
  pub message_id : Text
  pub local_attachment_id : Text
  pub kind : AttachmentKind
  pub source : AttachmentSourceRecord
  pub file : Text
  pub created_at : ℕ

pub record ConversationRecord : Type 0 where
  pub id : Text
  pub conversation_key : Option Text
  pub chatgpt_conversation_url : Option Text
  pub instructions : List CanonicalInstructionInput
  pub tools : List NormalizedTool
  pub tool_choice : NormalizedToolChoice
  pub tool_fingerprint : Option Text
  pub status : SyncStatus
  pub synced_message_count : ℕ
  pub created_at : ℕ
  pub updated_at : ℕ
  pub last_used_at : ℕ

pub record ConversationAggregate : Type 0 where
  pub conversation : ConversationRecord
  pub messages : List MessageRecord
  pub tool_calls : List ToolCallRecord
  pub attachments : List AttachmentRecord

pub data AssistantAggregateResult : Type 0 where
  text_result : Text → AssistantAggregateResult
  tool_calls_result : List CanonicalToolCall → AssistantAggregateResult

-- parts.join('\n')
unfoldable pub canonicalize_text : List Text → Text
canonicalize_text [] = []
canonicalize_text (part ∷ []) = part
canonicalize_text (part ∷ next ∷ more) = part ++ (10 ∷ canonicalize_text (next ∷ more))

-- The texts of a record's parts, unless one is not text
pub texts_of : List NormalizedContentPart → Option (List Text)
texts_of [] = some []
texts_of (attachment_content a ∷ more) = none
texts_of (text_content t ∷ more) =
    let rest = texts_of more in
    elim rest as (λ x. Option (List Text)) [ none ↦ none | some ts ↦ some (t ∷ ts) ]

unfoldable pub calls_of : Text → List ToolCallRecord → List ToolCallRecord
calls_of message [] = []
calls_of message (call ∷ more) =
    let rest = calls_of message more in
    if text_eq call.message_id message then call ∷ rest else rest

unfoldable pub attachments_of : Text → List AttachmentRecord → List AttachmentRecord
attachments_of message [] = []
attachments_of message (item ∷ more) =
    let rest = attachments_of message more in
    if text_eq item.message_id message then item ∷ rest else rest

unfoldable pub canonical_call : ToolCallRecord → CanonicalToolCall
canonical_call call = record {
  external_call_id = call.external_call_id;
  name = call.name;
  arguments = call.arguments_text;
}

pub assistant_message : List CanonicalToolCall → Text → CanonicalMessage
assistant_message [] t = text_message assistant t
assistant_message (call ∷ calls) t = tool_call_message t (call ∷ calls)

-- !record.toolCallId holds of a missing and of an empty one.
pub stored_result : Option Text → Text → Option CanonicalMessage
stored_result none t = none
stored_result (some []) t = none
stored_result (some (c ∷ cs)) t = some (tool_result_message (c ∷ cs) t)

pub stored_by_role : Role → Option Text → List CanonicalToolCall → Text → Option CanonicalMessage
unfolding stored_result assistant_message
stored_by_role tool_role call_id calls t = stored_result call_id t
stored_by_role assistant_role call_id calls t = some (assistant_message calls t)
stored_by_role user_role call_id calls t = some (text_message user t)

pub stored_canonical_message : MessageRecord → ConversationAggregate → Option CanonicalMessage
unfolding texts_of stored_by_role canonicalize_text calls_of canonical_call
stored_canonical_message m aggregate = elim (texts_of m.content) as (λ x. Option CanonicalMessage) [
  | none ↦ none
  | some ts ↦
      stored_by_role m.role m.tool_call_id (map canonical_call (calls_of m.id aggregate.tool_calls))
        (canonicalize_text ts)
]

pub assistant_canonical : AssistantAggregateResult → CanonicalMessage
assistant_canonical (text_result t) = text_message assistant t
assistant_canonical (tool_calls_result calls) = tool_call_message [] calls

-- Names what a stored message computes through, for tests.
unfoldable pub stored_runs : Unit {0}
unfolding canonicalize_text texts_of calls_of attachments_of canonical_call assistant_message
    stored_result stored_by_role stored_canonical_message assistant_canonical
stored_runs = tt
