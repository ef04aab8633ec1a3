-- ===== src/Conversations/RequestContext.antt =====
-- src/conversations/request-context.ts: the checks of a request and its canonical form. JSON.parse and
-- Ajv are parameters, and so are the digest and its text.
pub mod Transcript
pub mod Results
pub mod Accepted
pub mod Planned
pub mod Tests
use chatgpt_web_gateway.Base.{
  ℕ, Bool, true, false, not, ◌&&◌, ◌||◌, Option, none, some, List, [], ◌∷◌, ◌++◌, map, ◌==◌,
  if◌then◌else◌, length, any, every,
}
use chatgpt_web_gateway.Base.Results.{Result, returned, thrown, ◌>>=◌, ◌>>◌}
use chatgpt_web_gateway.Text.{Text, trim}
use chatgpt_web_gateway.Text.Sets.{has}
use chatgpt_web_gateway.Text.Maps.{TextMap, get}
use chatgpt_web_gateway.Context.{
  AttachmentKind, Speaker, user, assistant, CanonicalContentPart, text_part, attachment_part,
  CanonicalToolCall, CanonicalMessage, text_message, multimodal_message, tool_call_message,
  tool_result_message, CanonicalConversationRequest, ConversationRequestMode, incremental, full,
  Role, user_role, assistant_role, tool_role, role_of,
}
use chatgpt_web_gateway.Context.Canonicalize.{CanonicalInstructionInput, canonicalize_instructions}
use chatgpt_web_gateway.Context.Fingerprint.{Json, Digest}
use chatgpt_web_gateway.Context.Planner.{is_tool, is_user, last_message}
use chatgpt_web_gateway.Context.Uploads.{has_meaningful_canonical_user_content}
use chatgpt_web_gateway.Tools.Parser.{
  NormalizedTool, NormalizedToolChoice, auto_choice, none_choice, required_choice, function_choice,
  as_record,
}
use chatgpt_web_gateway.Tools.Canonicalize.{fingerprint_tools, validate_tool_choice}
use chatgpt_web_gateway.Structured.{
  NormalizedStructuredOutput, validate_structured_output_definition,
}
use chatgpt_web_gateway.Conversations.Aggregate.{
  NormalizedContentPart, text_content, attachment_content, canonicalize_text,
}
use chatgpt_web_gateway.Conversations.Normalized.{
  NormalizedToolCall, NormalizedMessage, OutputMode, text_mode, image_mode, NormalizedRequest,
  ResolvedAttachmentSemantic, RequestPhase, phase4, phase5, phase6, phase7, RequestError,
  unsupported_request, invalid_conversation_request, other_error, is_phase7, is_phase4, throw_if,
  or_throw,
}
use chatgpt_web_gateway.Conversations.RequestMessages.{
  text_or_empty, is_attachment, text_of, or_empty, blank_id, id_text, is_tool_role, speaker_of,
  flush_text, find_semantic, content_from, encodes_object, canonical_calls, canonical_tool_message,
  canonicalize_request_message,
}
use chatgpt_web_gateway.Conversations.RequestTranscript.{
  add_calls, known_after, completed_after, transcript_from, tool_only, is_missing,
  validate_phase7_transcript,
}

-- The last two guards
unfoldable pub validate_last :
    RequestPhase → Option CanonicalMessage → Result RequestError (Unit {0})
unfolding throw_if
validate_last phase none = thrown (invalid_conversation_request phase)
validate_last phase (some last) =
    throw_if (not (is_user last) && not (is_tool last)) (invalid_conversation_request phase)
    >> throw_if (is_user last && not (has_meaningful_canonical_user_content last))
        (invalid_conversation_request phase)

unfoldable pub request_mode : List CanonicalMessage → ConversationRequestMode
unfolding tool_only
request_mode messages = if length messages == 1 || tool_only messages then incremental else full

unfoldable pub is_text_mode : OutputMode → Bool
is_text_mode text_mode = true
is_text_mode image_mode = false

unfoldable pub is_auto : NormalizedToolChoice → Bool
is_auto auto_choice = true
is_auto none_choice = false
is_auto required_choice = false
is_auto (function_choice name) = false

unfoldable pub is_enabled : Option (TextMap ResolvedAttachmentSemantic) → Bool
is_enabled none = false
is_enabled (some resolved) = true

-- resolvedAttachments ?? new Map()
unfoldable pub or_no_semantics :
    Option (TextMap ResolvedAttachmentSemantic) → TextMap ResolvedAttachmentSemantic
or_no_semantics none = []
or_no_semantics (some resolved) = resolved

unfoldable pub is_given : Option NormalizedStructuredOutput → Bool
is_given none = false
is_given (some output) = true

unfoldable pub is_given_id : Option Text → Bool
is_given_id none = false
is_given_id (some id) = true

-- The catch of the callback: an error with a code goes on, any other becomes one.
unfoldable pub coded : {A : Type 0} → RequestPhase → Result RequestError A → Result RequestError A
coded phase (returned a) = returned a
coded phase (thrown other_error) = thrown (invalid_conversation_request phase)
coded phase (thrown (unsupported_request p)) = thrown (unsupported_request p)
coded phase (thrown (invalid_conversation_request p)) = thrown (invalid_conversation_request p)

unfoldable pub canonical_request :
    NormalizedRequest → List CanonicalMessage → Option Text → CanonicalConversationRequest
unfolding canonicalize_instructions request_mode
canonical_request request messages fingerprint = record {
  instructions = canonicalize_instructions request.instructions;
  messages = messages;
  mode = request_mode messages;
  tool_fingerprint = fingerprint;
}

module _ (parse : Text → Option Json) (compile : Json → Option (Json → Bool)) (d : Digest)
    (hex : d.Hash → Text) where
  unfoldable pub validate_tools : RequestPhase → NormalizedRequest → Result RequestError (Unit {0})
  unfolding is_phase7 throw_if or_throw is_auto
  validate_tools phase request =
      if not (is_phase7 phase)
      then (throw_if (not (length request.tools == 0)) (unsupported_request phase)
          >> throw_if (not (is_auto request.tool_choice)) (unsupported_request phase))
      else or_throw (validate_tool_choice request.tools request.tool_choice)
          (invalid_conversation_request phase)

  unfoldable pub validate_structured :
      RequestPhase → NormalizedRequest → Result RequestError (Unit {0})
  unfolding is_given is_phase7 throw_if or_throw
  validate_structured phase request =
      if not (is_given request.structured)
      then returned tt
      else throw_if (not (is_phase7 phase)) (unsupported_request phase)
        >> or_throw (validate_structured_output_definition parse compile request.structured)
            (invalid_conversation_request phase)

  -- The callback of request.messages.map
  unfoldable pub request_message :
      Option (TextMap ResolvedAttachmentSemantic)
      → RequestPhase
      → NormalizedMessage
      → Result RequestError CanonicalMessage
  unfolding is_phase7 is_tool_role is_given_id or_empty throw_if is_attachment is_enabled
      or_no_semantics coded canonicalize_request_message
  request_message resolved phase message =
      throw_if (not (is_phase7 phase) && is_tool_role message.role) (unsupported_request phase)
      >> (throw_if
            (not (is_phase7 phase)
              && (is_given_id message.tool_call_id
                  || not (length (or_empty message.tool_calls) == 0)))
            (unsupported_request phase)
          >> (throw_if (any is_attachment message.content && not (is_enabled resolved))
                (unsupported_request phase)
              >> coded phase
                  (canonicalize_request_message parse (or_no_semantics resolved) phase message)))

  unfoldable pub request_messages :
      Option (TextMap ResolvedAttachmentSemantic)
      → RequestPhase
      → List NormalizedMessage
      → Result RequestError (List CanonicalMessage)
  unfolding request_message
  request_messages resolved phase [] = returned []
  request_messages resolved phase (message ∷ messages) =
      request_message resolved phase message >>= λ m.
      request_messages resolved phase messages >>= λ ms. returned (m ∷ ms)

  unfoldable pub hex_of : Option d.Hash → Option Text
  hex_of none = none
  hex_of (some hash) = some (hex hash)

  unfoldable pub request_fingerprint :
      RequestPhase → NormalizedRequest → Result RequestError (Option Text)
  unfolding is_phase7 or_throw hex_of
  request_fingerprint phase request =
      if not (is_phase7 phase)
      then returned none
      else or_throw (fingerprint_tools d request.tools request.tool_choice) other_error
        >>= λ fingerprint. returned (hex_of fingerprint)

  -- From the messages on
  unfoldable pub accept_messages :
      NormalizedRequest
      → RequestPhase
      → List CanonicalMessage
      → Result RequestError CanonicalConversationRequest
  unfolding validate_phase7_transcript is_phase7 validate_last request_fingerprint canonical_request
  accept_messages request phase messages =
      (if is_phase7 phase then validate_phase7_transcript request messages phase else returned tt)
      >> (validate_last phase (last_message messages)
          >> (request_fingerprint phase request >>= λ fingerprint.
              returned (canonical_request request messages fingerprint)))

  -- The guards before the messages
  unfoldable pub check_request :
      NormalizedRequest
      → RequestPhase
      → Option (TextMap ResolvedAttachmentSemantic)
      → Result RequestError (Unit {0})
  unfolding is_text_mode is_phase4 is_enabled throw_if validate_tools validate_structured
  check_request request phase resolved =
      throw_if (not (is_text_mode request.output_mode)) (unsupported_request phase)
      >> (throw_if (is_phase4 phase && request.stream) (unsupported_request phase)
          >> (throw_if (not (length request.attachments == 0) && not (is_enabled resolved))
                (unsupported_request phase)
              >> (validate_tools phase request >> validate_structured phase request)))

  unfoldable pub canonical_conversation_request :
      NormalizedRequest
      → RequestPhase
      → Option (TextMap ResolvedAttachmentSemantic)
      → Result RequestError CanonicalConversationRequest
  unfolding check_request request_messages accept_messages
  canonical_conversation_request request phase resolved =
      check_request request phase resolved
      >> (request_messages resolved phase request.messages >>= λ messages.
          accept_messages request phase messages)

  pub to_canonical_conversation_request :
      NormalizedRequest
      → Option (TextMap ResolvedAttachmentSemantic)
      → Result RequestError CanonicalConversationRequest
  unfolding canonical_conversation_request is_enabled
  to_canonical_conversation_request request resolved =
      canonical_conversation_request request (if is_enabled resolved then phase6 else phase4)
        resolved

  pub to_canonical_streaming_conversation_request :
      NormalizedRequest
      → Option (TextMap ResolvedAttachmentSemantic)
      → Result RequestError CanonicalConversationRequest
  unfolding canonical_conversation_request is_enabled throw_if
  to_canonical_streaming_conversation_request request resolved =
      throw_if (not request.stream) (invalid_conversation_request phase5)
      >> canonical_conversation_request request (if is_enabled resolved then phase6 else phase5)
          resolved

  unfoldable pub to_canonical_phase7_conversation_request :
      NormalizedRequest
      → Option (TextMap ResolvedAttachmentSemantic)
      → Result RequestError CanonicalConversationRequest
  unfolding canonical_conversation_request
  to_canonical_phase7_conversation_request request resolved =
      canonical_conversation_request request phase7 resolved

  unfoldable pub to_canonical_phase7_streaming_conversation_request :
      NormalizedRequest
      → Option (TextMap ResolvedAttachmentSemantic)
      → Result RequestError CanonicalConversationRequest
  unfolding canonical_conversation_request throw_if
  to_canonical_phase7_streaming_conversation_request request resolved =
      throw_if (not request.stream) (invalid_conversation_request phase7)
      >> canonical_conversation_request request phase7 resolved
