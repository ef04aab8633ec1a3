-- ===== src/Conversations/Engine/Context.antt =====
-- src/conversations/conversation-engine.ts: what a turn reads of the request, its plan and the stored
-- conversation, and the records it starts and ends with.
pub mod Laws
pub mod Tests
use chatgpt_web_gateway.Base.{
  ℕ, zero, suc, ◌+◌, ◌-◌, Bool, true, false, not, Option, none, some, List, [], ◌∷◌, ◌++◌, ◌==◌,
  if◌then◌else◌, length, take,
}
use chatgpt_web_gateway.Base.Results.{Result, returned, thrown, ◌>>=◌, ◌>>◌}
use chatgpt_web_gateway.Text.{Text}
use chatgpt_web_gateway.Text.Maps.{TextMap, set}
use chatgpt_web_gateway.Context.{
  CanonicalMessage, CanonicalConversationRequest, ConversationRequestMode, incremental, full,
  CanonicalStoredConversation, in_flight, ContextSyncPlan, fresh_plan, append_plan, restore_plan,
  rebuild_plan,
}
use chatgpt_web_gateway.Context.Fingerprint.{Json, Digest}
use chatgpt_web_gateway.Context.Planner.{is_tool, is_user, last_message, tool_at, scan_back}
use chatgpt_web_gateway.Tools.Canonicalize.{ToolError, fingerprint_tools}
use chatgpt_web_gateway.Conversations.Aggregate.{
  PersistenceAttachmentBinding, AttachmentRecord, ConversationRecord, ConversationAggregate,
}
use chatgpt_web_gateway.Conversations.Normalized.{NormalizedRequest, ResolvedAttachmentSemantic}
use chatgpt_web_gateway.Conversations.Prompts.{
  tool_names_from_messages, ContextPromptInput, build_context_prompt, build_append_prompt,
}
use chatgpt_web_gateway.Conversations.Engine.Stored.{
  ResolvedAttachment, StoredError, count_mismatch, stored_attachment_reference,
}

unfoldable pub pending_of : ContextSyncPlan → List CanonicalMessage
pending_of (fresh_plan history pending) = pending
pending_of (append_plan pending) = pending
pending_of (restore_plan pending) = pending
pending_of (rebuild_plan reason history pending) = pending

-- messages.slice(0, -count): nothing for a count of 0
unfoldable pub slice_before_last : ℕ → List CanonicalMessage → List CanonicalMessage
slice_before_last count messages =
    if count == 0 then [] else take (length messages - count) messages

-- stored?.messages.slice(0, stored.sync.syncedMessageCount) ?? []
unfoldable pub confirmed_messages : Option CanonicalStoredConversation → List CanonicalMessage
confirmed_messages none = []
confirmed_messages (some stored) = take stored.synced_message_count stored.messages

unfoldable pub continued_history :
    ConversationRequestMode
    → CanonicalConversationRequest
    → (pending : List CanonicalMessage) → Option CanonicalStoredConversation
    → List CanonicalMessage
unfolding slice_before_last confirmed_messages
continued_history full request pending stored = slice_before_last (length pending) request.messages
continued_history incremental request pending stored = confirmed_messages stored

unfoldable pub context_history :
    CanonicalConversationRequest
    → ContextSyncPlan
    → Option CanonicalStoredConversation
    → List CanonicalMessage
unfolding continued_history
context_history request (fresh_plan history pending) stored = history
context_history request (rebuild_plan reason history pending) stored = history
context_history request (append_plan pending) stored =
    continued_history request.mode request pending stored
context_history request (restore_plan pending) stored =
    continued_history request.mode request pending stored

unfoldable pub continued_messages :
    ConversationRequestMode
    → CanonicalConversationRequest
    → (pending : List CanonicalMessage) → Option CanonicalStoredConversation
    → List CanonicalMessage
unfolding confirmed_messages
continued_messages full request pending stored = request.messages
continued_messages incremental request pending stored = confirmed_messages stored ++ pending

unfoldable pub authoritative_messages :
    CanonicalConversationRequest
    → ContextSyncPlan
    → Option CanonicalStoredConversation
    → List CanonicalMessage
unfolding continued_messages
authoritative_messages request (fresh_plan history pending) stored = history ++ pending
authoritative_messages request (rebuild_plan reason history pending) stored = history ++ pending
authoritative_messages request (append_plan pending) stored =
    continued_messages request.mode request pending stored
authoritative_messages request (restore_plan pending) stored =
    continued_messages request.mode request pending stored

-- toolNameMap does what toolNamesFromMessages of prompts.ts does.
unfoldable pub tool_name_map : List CanonicalMessage → TextMap Text
unfolding tool_names_from_messages
tool_name_map messages = tool_names_from_messages messages

unfoldable pub semantic_of : ResolvedAttachment → ResolvedAttachmentSemantic
semantic_of item = record {
  kind = item.kind;
  sha256 = item.sha256;
  filename = item.filename;
  mime_type = item.mime_type;
}

unfoldable pub semantics_from :
    TextMap ResolvedAttachmentSemantic
    → List ResolvedAttachment
    → TextMap ResolvedAttachmentSemantic
unfolding semantic_of set
semantics_from semantics [] = semantics
semantics_from semantics (item ∷ items) =
    semantics_from (set item.local_attachment_id (semantic_of item) semantics) items

unfoldable pub semantic_map : List ResolvedAttachment → TextMap ResolvedAttachmentSemantic
unfolding semantics_from
semantic_map resolved = semantics_from [] resolved

unfoldable pub current_bindings :
    TextMap PersistenceAttachmentBinding
    → List ResolvedAttachment
    → TextMap PersistenceAttachmentBinding
unfolding set
current_bindings bindings [] = bindings
current_bindings bindings (item ∷ items) =
    current_bindings
      (set item.local_attachment_id
        (record {
          local_attachment_id = item.local_attachment_id;
          kind = item.kind;
          source = item.source;
          file = item.file_id;
        })
        bindings)
      items

unfoldable pub retained_bindings :
    TextMap PersistenceAttachmentBinding
    → List AttachmentRecord
    → List ResolvedAttachment
    → TextMap PersistenceAttachmentBinding
unfolding set stored_attachment_reference
retained_bindings bindings [] retained = bindings
retained_bindings bindings (r ∷ rs) [] = bindings
retained_bindings bindings (r ∷ rs) (f ∷ fs) =
    retained_bindings
      (set (stored_attachment_reference r.id)
        (record {
          local_attachment_id = r.local_attachment_id;
          kind = r.kind;
          source = r.source;
          file = f.file_id;
        })
        bindings)
      rs fs

unfoldable pub attachment_bindings :
    (current : List ResolvedAttachment)
    → Option ConversationAggregate
    → (retained : List ResolvedAttachment)
    → Result StoredError (TextMap PersistenceAttachmentBinding)
unfolding current_bindings retained_bindings
attachment_bindings current none retained = returned (current_bindings [] current)
attachment_bindings current (some aggregate) retained =
    if not (length aggregate.attachments == length retained)
    then thrown count_mismatch
    else returned (retained_bindings (current_bindings [] current) aggregate.attachments retained)

unfoldable pub length_to_last : List CanonicalMessage → Option CanonicalMessage → ℕ
unfolding scan_back
length_to_last messages none = 0
length_to_last messages (some last) =
    if is_user last
    then length messages - 1
    else if not (is_tool last)
    then 0
    else scan_back messages (length messages - 1)

unfoldable pub request_history_length : CanonicalConversationRequest → ℕ
unfolding length_to_last last_message
request_history_length request = length_to_last request.messages (last_message request.messages)

pub data PromptMode : Type 0 where
  context_prompt append_prompt : PromptMode

module _ (d : Digest) (hex : d.Hash → Text) where
  unfoldable pub hash_text : Option d.Hash → Option Text
  hash_text none = none
  hash_text (some hash) = some (hex hash)

  unfoldable pub fingerprint_of : NormalizedRequest → Result ToolError (Option Text)
  unfolding hash_text
  fingerprint_of request =
      fingerprint_tools d request.tools request.tool_choice >>= λ hash. returned (hash_text hash)

  unfoldable pub create_in_flight_conversation :
      (conversation_id : Text) (conversation_key : Option Text)
      → NormalizedRequest
      → (started_at : ℕ) → Result ToolError ConversationAggregate
  unfolding fingerprint_of
  create_in_flight_conversation conversation_id conversation_key request started_at =
      fingerprint_of request >>= λ fingerprint. returned (record {
        conversation = record {
          id = conversation_id;
          conversation_key = conversation_key;
          chatgpt_conversation_url = none;
          instructions = request.instructions;
          tools = request.tools;
          tool_choice = request.tool_choice;
          tool_fingerprint = fingerprint;
          status = in_flight;
          synced_message_count = 0;
          created_at = started_at;
          updated_at = started_at;
          last_used_at = started_at;
        };
        messages = [];
        tool_calls = [];
        attachments = [];
      })

  unfoldable pub conversation_or :
      Option ConversationAggregate → ConversationAggregate → ConversationRecord
  conversation_or none initial = initial.conversation
  conversation_or (some existing) initial = existing.conversation

  unfoldable pub final_conversation_record :
      Option ConversationAggregate
      → (initial : ConversationAggregate) → NormalizedRequest
      → Result ToolError ConversationRecord
  unfolding fingerprint_of conversation_or
  final_conversation_record existing initial request = fingerprint_of request >>= λ fingerprint.
      returned (record (conversation_or existing initial) {
        instructions = request.instructions;
        tools = request.tools;
        tool_choice = request.tool_choice;
        tool_fingerprint = fingerprint;
      })

module _ (stringify : Json → Text) where
  unfoldable pub build_prompt :
      PromptMode
      → NormalizedRequest
      → CanonicalConversationRequest
      → ContextSyncPlan
      → Option CanonicalStoredConversation
      → (upload_filename_by_reference : TextMap Text) → Result ToolError Text
  unfolding context_history pending_of tool_name_map build_context_prompt build_append_prompt
  build_prompt append_prompt request canonical plan stored files =
      let names = tool_name_map (context_history canonical plan stored ++ pending_of plan) in
      returned (
        build_append_prompt stringify (pending_of plan) files
          (if length request.tools == 0 then none else some request.tool_choice) request.structured
          names)
  build_prompt context_prompt request canonical plan stored files =
      let history = context_history canonical plan stored in
      build_context_prompt stringify (record {
        instructions = canonical.instructions;
        tools = request.tools;
        tool_choice = some request.tool_choice;
        structured_output = request.structured;
        history = history;
        pending = pending_of plan;
        upload_filename_by_reference = files;
        tool_name_by_call_id = tool_name_map (history ++ pending_of plan);
      })
