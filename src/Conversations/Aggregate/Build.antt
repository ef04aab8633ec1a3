-- ===== src/Conversations/Aggregate/Build.antt =====
-- src/conversations/aggregate-builder.ts: createMessage and buildFinalConversationAggregate. The
-- parameter d is the digest that compares messages.
pub mod Laws
pub mod Kept
pub mod Tests
use chatgpt_web_gateway.Base.{
  ℕ, zero, suc, ◌+◌, ◌-◌, Bool, true, false, not, ◌&&◌, ◌||◌, Option, none, some, List, [], ◌∷◌,
  ◌++◌, leb, ltb, ◌==◌, if◌then◌else◌, map, length,
}
use chatgpt_web_gateway.Base.Results.{Result, returned, thrown, ◌>>=◌}
use chatgpt_web_gateway.Text.{Text, text, text_eq}
use chatgpt_web_gateway.Context.{
  clean, CanonicalContentPart, text_part, attachment_part, CanonicalToolCall, CanonicalMessage,
  text_message, multimodal_message, tool_call_message, tool_result_message, role_of,
}
use chatgpt_web_gateway.Context.Fingerprint.{Digest}
use chatgpt_web_gateway.Context.Multimodal.{fingerprint_canonical_message}
use chatgpt_web_gateway.Conversations.Aggregate.{
  NormalizedContentPart, text_content, attachment_content, PersistenceAttachmentBinding,
  MessageRecord, ToolCallRecord, AttachmentRecord, ConversationRecord, ConversationAggregate,
  AssistantAggregateResult, stored_canonical_message, assistant_canonical, calls_of, attachments_of,
}

-- new Error(`Missing persistence attachment binding: ${reference}`)
pub data MissingBinding : Type 0 where
  missing_binding : (reference : Text) → MissingBinding

-- attachmentBindings.get(reference)
pub binding_of :
    List (Text × PersistenceAttachmentBinding)
    → Text
    → Result MissingBinding PersistenceAttachmentBinding
binding_of [] reference = thrown (missing_binding reference)
binding_of ((k, b) ∷ more) reference =
    if text_eq k reference then returned b else binding_of more reference

pub content_for_parts :
    List (Text × PersistenceAttachmentBinding)
    → List CanonicalContentPart
    → Result MissingBinding (List NormalizedContentPart)
unfolding binding_of
content_for_parts bindings [] = returned []
content_for_parts bindings (text_part t ∷ parts) =
    content_for_parts bindings parts >>= λ rest. returned (text_content t ∷ rest)
content_for_parts bindings (attachment_part reference k s f m ∷ parts) =
    binding_of bindings reference >>= λ b. content_for_parts bindings parts >>= λ rest.
    returned (attachment_content b.local_attachment_id ∷ rest)

pub content_for_canonical_message :
    List (Text × PersistenceAttachmentBinding)
    → CanonicalMessage
    → Result MissingBinding (List NormalizedContentPart)
unfolding content_for_parts
content_for_canonical_message bindings (tool_result_message i t) = returned (text_content t ∷ [])
content_for_canonical_message bindings (tool_call_message [] calls) = returned []
content_for_canonical_message bindings (tool_call_message (c ∷ cs) calls) =
    returned (text_content (c ∷ cs) ∷ [])
content_for_canonical_message bindings (text_message speaker t) = returned (text_content t ∷ [])
content_for_canonical_message bindings (multimodal_message speaker content) =
    content_for_parts bindings content

pub tool_call_id_of : CanonicalMessage → Option Text
tool_call_id_of (tool_result_message i t) = some i
tool_call_id_of (tool_call_message t calls) = none
tool_call_id_of (text_message speaker t) = none
tool_call_id_of (multimodal_message speaker content) = none

pub record Created : Type 0 where
  pub message : MessageRecord
  pub tool_calls : List ToolCallRecord
  pub attachments : List AttachmentRecord
  -- the number of ids drawn so far
  pub drawn : ℕ

module _ (uuid : ℕ → Text) (conversation_id : Text) (completed_at : ℕ) where
  pub create_calls : (message_id : Text) (drawn : ℕ) → List CanonicalToolCall → List ToolCallRecord
  create_calls message_id drawn [] = []
  create_calls message_id drawn (call ∷ calls) =
      record {
        id = uuid drawn;
        conversation_id = conversation_id;
        message_id = message_id;
        external_call_id = call.external_call_id;
        name = call.name;
        arguments_text = call.arguments;
        created_at = completed_at;
      }
      ∷ create_calls message_id (drawn + 1) calls

  pub create_tool_calls : (message_id : Text) (drawn : ℕ) → CanonicalMessage → List ToolCallRecord
  unfolding create_calls
  create_tool_calls message_id drawn (tool_call_message t calls) =
      create_calls message_id drawn calls
  create_tool_calls message_id drawn (tool_result_message i t) = []
  create_tool_calls message_id drawn (text_message speaker t) = []
  create_tool_calls message_id drawn (multimodal_message speaker content) = []

  pub attachments_for_parts :
      List (Text × PersistenceAttachmentBinding)
      → (message_id : Text) (drawn : ℕ) → List CanonicalContentPart
      → Result MissingBinding (List AttachmentRecord)
  unfolding binding_of
  attachments_for_parts bindings message_id drawn [] = returned []
  attachments_for_parts bindings message_id drawn (text_part t ∷ parts) =
      attachments_for_parts bindings message_id drawn parts
  attachments_for_parts bindings message_id drawn (attachment_part reference k s f m ∷ parts) =
      binding_of bindings reference >>= λ b.
      attachments_for_parts bindings message_id (drawn + 1) parts >>= λ rest. returned (
        record {
          id = uuid drawn;
          conversation_id = conversation_id;
          message_id = message_id;
          local_attachment_id = b.local_attachment_id;
          kind = b.kind;
          source = b.source;
          file = b.file;
          created_at = completed_at;
        }
        ∷ rest)

  pub create_attachments :
      List (Text × PersistenceAttachmentBinding)
      → (message_id : Text) (drawn : ℕ) → CanonicalMessage
      → Result MissingBinding (List AttachmentRecord)
  unfolding attachments_for_parts
  create_attachments bindings message_id drawn (multimodal_message speaker content) =
      attachments_for_parts bindings message_id drawn content
  create_attachments bindings message_id drawn (tool_call_message t calls) = returned []
  create_attachments bindings message_id drawn (tool_result_message i t) = returned []
  create_attachments bindings message_id drawn (text_message speaker t) = returned []

  pub create_message :
      List (Text × PersistenceAttachmentBinding)
      → (drawn sequence : ℕ) → CanonicalMessage
      → Result MissingBinding Created
  unfolding content_for_canonical_message create_attachments create_tool_calls tool_call_id_of
  create_message bindings drawn sequence message =
      content_for_canonical_message bindings message >>= λ content.
      create_attachments bindings (uuid drawn) (drawn + 1) message >>= λ attachments.
      let calls = create_tool_calls (uuid drawn) (drawn + 1) message in
      returned (record {
        message = record {
          id = uuid drawn;
          conversation_id = conversation_id;
          sequence = sequence;
          role = role_of message;
          content = content;
          tool_call_id = tool_call_id_of message;
          created_at = completed_at;
          updated_at = completed_at;
        };
        tool_calls = calls;
        attachments = attachments;
        drawn = drawn + 1 + length calls + length attachments;
      })

pub same_message : (d : Digest) → Option CanonicalMessage → CanonicalMessage → Bool
unfolding fingerprint_canonical_message
same_message d none right = false
same_message d (some left) right =
    d.same_hash (fingerprint_canonical_message d left) (fingerprint_canonical_message d right)

-- storedCanonicalMessages?.[index] ?? storedCanonicalMessage(record), and the rest of the list
pub canonical_at :
    List CanonicalMessage → MessageRecord → ConversationAggregate → Option CanonicalMessage
unfolding stored_canonical_message
canonical_at [] m stored = stored_canonical_message m stored
canonical_at (c ∷ cs) m stored = some c

pub rest_of : List CanonicalMessage → List CanonicalMessage
rest_of [] = []
rest_of (c ∷ cs) = cs

pub common_prefix :
    (d : Digest) (stored : ConversationAggregate)
    → List CanonicalMessage
    → List MessageRecord
    → List CanonicalMessage
    → ℕ
unfolding same_message canonical_at rest_of
common_prefix d stored canonical [] authoritative = 0
common_prefix d stored canonical (m ∷ ms) [] = 0
common_prefix d stored canonical (m ∷ ms) (a ∷ as') =
    let rest = common_prefix d stored (rest_of canonical) ms as' in
    if same_message d (canonical_at canonical m stored) a then suc rest else 0

pub longest_common_prefix :
    (d : Digest) → Option ConversationAggregate → List CanonicalMessage → List CanonicalMessage → ℕ
unfolding common_prefix
longest_common_prefix d none canonical authoritative = 0
longest_common_prefix d (some stored) canonical authoritative =
    common_prefix d stored canonical stored.messages authoritative

-- The records of the messages so far
pub record Built : Type 0 where
  pub messages : List MessageRecord
  pub tool_calls : List ToolCallRecord
  pub attachments : List AttachmentRecord

pub no_records : Built
no_records = record { messages = []; tool_calls = []; attachments = [] }

module _ (uuid : ℕ → Text) (conversation_id : Text) (completed_at : ℕ)
    (bindings : List (Text × PersistenceAttachmentBinding)) where
  -- The loop where no stored message is reused any more
  pub create_rest : (drawn sequence : ℕ) → List CanonicalMessage → Result MissingBinding Built
  unfolding create_message no_records
  create_rest drawn sequence [] = returned no_records
  create_rest drawn sequence (m ∷ ms) =
      create_message uuid conversation_id completed_at bindings drawn sequence m >>= λ created.
      create_rest created.drawn (sequence + 1) ms >>= λ rest. returned (record {
        messages = created.message ∷ rest.messages;
        tool_calls = created.tool_calls ++ rest.tool_calls;
        attachments = created.attachments ++ rest.attachments;
      })

  -- The loop: the first messages, reusable in number, are kept from the stored ones.
  pub build_from :
      (stored : ConversationAggregate) (reusable sequence : ℕ)
      → List MessageRecord
      → List CanonicalMessage
      → Result MissingBinding Built
  unfolding create_rest calls_of attachments_of no_records
  build_from stored zero sequence existing ms = create_rest 0 sequence ms
  build_from stored (suc n) sequence existing [] = returned no_records
  build_from stored (suc n) sequence [] (m ∷ ms) = create_rest 0 sequence (m ∷ ms)
  build_from stored (suc n) sequence (e ∷ es) (m ∷ ms) =
      build_from stored n (sequence + 1) es ms >>= λ rest. returned (record {
        messages =
            record e { conversation_id = conversation_id; sequence = sequence } ∷ rest.messages;
        tool_calls = calls_of e.id stored.tool_calls ++ rest.tool_calls;
        attachments = attachments_of e.id stored.attachments ++ rest.attachments;
      })

  pub build_records :
      (reusable : ℕ)
      → Option ConversationAggregate
      → List CanonicalMessage
      → Result MissingBinding Built
  unfolding build_from create_rest
  build_records reusable none messages = create_rest 0 0 messages
  build_records reusable (some stored) messages =
      build_from stored reusable 0 stored.messages messages

pub record AggregateInput : Type 0 where
  pub stored : Option ConversationAggregate
  pub stored_canonical_messages : List CanonicalMessage
  pub conversation : ConversationRecord
  pub authoritative_messages : List CanonicalMessage
  pub attachment_bindings : List (Text × PersistenceAttachmentBinding)
  pub assistant_result : AssistantAggregateResult
  pub conversation_url : Text
  pub completed_at : ℕ

pub final_canonical_messages : AggregateInput → List CanonicalMessage
unfolding assistant_canonical
final_canonical_messages input =
    input.authoritative_messages ++ (assistant_canonical input.assistant_result ∷ [])

pub reusable_prefix : (d : Digest) → AggregateInput → ℕ
unfolding longest_common_prefix
reusable_prefix d input =
    longest_common_prefix d input.stored input.stored_canonical_messages
      input.authoritative_messages

pub build_final_conversation_aggregate :
    (d : Digest) (uuid : ℕ → Text) → AggregateInput → Result MissingBinding ConversationAggregate
unfolding build_records reusable_prefix final_canonical_messages
build_final_conversation_aggregate d uuid input =
    build_records uuid input.conversation.id input.completed_at input.attachment_bindings
      (reusable_prefix d input) input.stored (final_canonical_messages input)
    >>= λ built. returned (record {
      conversation = record input.conversation {
        chatgpt_conversation_url = some input.conversation_url;
        status = clean;
        synced_message_count = length built.messages;
        updated_at = input.completed_at;
        last_used_at = input.completed_at;
      };
      messages = built.messages;
      tool_calls = built.tool_calls;
      attachments = built.attachments;
    })

-- Names what an aggregate computes through, for tests.
unfoldable pub aggregate_runs : Unit {0}
unfolding binding_of content_for_parts content_for_canonical_message tool_call_id_of create_calls
    create_tool_calls attachments_for_parts create_attachments create_message same_message
    canonical_at rest_of common_prefix longest_common_prefix no_records create_rest build_from
    build_records final_canonical_messages reusable_prefix build_final_conversation_aggregate
aggregate_runs = tt
