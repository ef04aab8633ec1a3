-- ===== src/Conversations/RequestMessages.antt =====
-- src/conversations/request-context.ts: the messages of a request in canonical form. JSON.parse is a
-- parameter.
use chatgpt_web_gateway.Base.{
  Bool, true, false, not, ◌&&◌, ◌||◌, Option, none, some, List, [], ◌∷◌, ◌++◌, map, ◌==◌,
  if◌then◌else◌, length, any,
}
use chatgpt_web_gateway.Base.Results.{Result, returned, thrown, ◌>>=◌, ◌>>◌}
use chatgpt_web_gateway.Text.{Text, trim}
use chatgpt_web_gateway.Text.Sets.{has}
use chatgpt_web_gateway.Text.Maps.{TextMap, get}
use chatgpt_web_gateway.Context.{
  Speaker, user, assistant, CanonicalContentPart, text_part, attachment_part, CanonicalToolCall,
  CanonicalMessage, text_message, multimodal_message, tool_call_message, tool_result_message, Role,
  user_role, assistant_role, tool_role,
}
use chatgpt_web_gateway.Context.Fingerprint.{Json}
use chatgpt_web_gateway.Tools.Parser.{as_record}
use chatgpt_web_gateway.Conversations.Aggregate.{
  NormalizedContentPart, text_content, attachment_content, canonicalize_text,
}
use chatgpt_web_gateway.Conversations.Normalized.{
  NormalizedToolCall, NormalizedMessage, ResolvedAttachmentSemantic, RequestPhase, RequestError,
  invalid_conversation_request, other_error, is_phase7, throw_if,
}

-- part.type === 'text' ? part.text : ''
unfoldable pub text_or_empty : NormalizedContentPart → Text
text_or_empty (text_content t) = t
text_or_empty (attachment_content a) = []

unfoldable pub is_attachment : NormalizedContentPart → Bool
is_attachment (attachment_content a) = true
is_attachment (text_content t) = false

unfoldable pub text_of : List NormalizedContentPart → Text
unfolding text_or_empty canonicalize_text
text_of content = canonicalize_text (map text_or_empty content)

-- value ?? []
unfoldable pub or_empty : Option (List NormalizedToolCall) → List NormalizedToolCall
or_empty none = []
or_empty (some calls) = calls

-- !id || id.trim().length === 0
unfoldable pub blank_id : Option Text → Bool
unfolding trim
blank_id none = true
blank_id (some id) = length (trim id) == 0

unfoldable pub id_text : Option Text → Text
id_text none = []
id_text (some id) = id

unfoldable pub is_tool_role : Role → Bool
is_tool_role tool_role = true
is_tool_role user_role = false
is_tool_role assistant_role = false

-- role as 'user' | 'assistant': the guards of the caller leave no other.
unfoldable pub speaker_of : Role → Speaker
speaker_of assistant_role = assistant
speaker_of user_role = user
speaker_of tool_role = user

-- if (pendingText.length > 0) content.push(…)
unfoldable pub flush_text : List Text → List CanonicalContentPart
unfolding canonicalize_text
flush_text [] = []
flush_text (t ∷ ts) = text_part (canonicalize_text (t ∷ ts)) ∷ []

unfoldable pub find_semantic :
    TextMap ResolvedAttachmentSemantic → Text → Result RequestError ResolvedAttachmentSemantic
unfolding get
find_semantic resolved id =
    elim (get resolved id) as (λ x. Result RequestError ResolvedAttachmentSemantic) [
      | none ↦ thrown other_error
      | some semantic ↦ returned semantic
    ]

-- The loop over the parts, with the texts that are not flushed
unfoldable pub content_from :
    TextMap ResolvedAttachmentSemantic
    → (pending_text : List Text) → List NormalizedContentPart
    → Result RequestError (List CanonicalContentPart)
unfolding flush_text find_semantic
content_from resolved pending_text [] = returned (flush_text pending_text)
content_from resolved pending_text (text_content t ∷ parts) =
    content_from resolved (pending_text ++ (t ∷ [])) parts
content_from resolved pending_text (attachment_content id ∷ parts) =
    find_semantic resolved id >>= λ semantic. content_from resolved [] parts >>= λ content.
    returned (
      flush_text pending_text
      ++ (attachment_part id semantic.kind semantic.sha256 semantic.filename semantic.mime_type
          ∷ content))

module _ (parse : Text → Option Json) where
  -- The arguments parse, to an object.
  unfoldable pub encodes_object : Text → Bool
  unfolding as_record
  encodes_object arguments = elim (parse arguments) as (λ x. Bool) [
    | none ↦ false
    | some value ↦ elim (as_record value) as (λ x. Bool) [ none ↦ false | some fields ↦ true ]
  ]

  -- The callback of toolCalls.map, with the ids seen
  unfoldable pub canonical_calls :
      RequestPhase
      → (seen : List Text) → List NormalizedToolCall
      → Result RequestError (List CanonicalToolCall)
  unfolding trim encodes_object throw_if
  canonical_calls phase seen [] = returned []
  canonical_calls phase seen (call ∷ calls) =
      throw_if (length (trim call.id) == 0 || length (trim call.name) == 0)
        (invalid_conversation_request phase)
      >> (throw_if (has seen call.id) (invalid_conversation_request phase)
          >> (throw_if (not (encodes_object call.arguments)) (invalid_conversation_request phase)
              >> (canonical_calls phase (call.id ∷ seen) calls >>= λ rest. returned (
                  record {
                    external_call_id = call.id;
                    name = call.name;
                    arguments = call.arguments;
                  }
                  ∷ rest))))

  unfoldable pub canonical_tool_message :
      RequestPhase → NormalizedMessage → Result RequestError CanonicalMessage
  unfolding blank_id id_text text_of throw_if canonical_calls or_empty is_tool_role
  canonical_tool_message phase message =
      let result : Result RequestError CanonicalMessage =
        throw_if (blank_id message.tool_call_id) (invalid_conversation_request phase)
        >> returned
            (tool_result_message (id_text message.tool_call_id) (text_of message.content)) in
      let calls : Result RequestError CanonicalMessage =
        canonical_calls phase [] (or_empty message.tool_calls) >>= λ calls.
        returned (tool_call_message (text_of message.content) calls) in
      if is_tool_role message.role then result else calls

  unfoldable pub canonicalize_request_message :
      TextMap ResolvedAttachmentSemantic
      → RequestPhase
      → NormalizedMessage
      → Result RequestError CanonicalMessage
  unfolding is_phase7 is_tool_role or_empty canonical_tool_message is_attachment speaker_of text_of
      content_from
  canonicalize_request_message resolved phase message =
      if is_phase7 phase
        && (is_tool_role message.role || not (length (or_empty message.tool_calls) == 0))
      then canonical_tool_message phase message
      else if not (any is_attachment message.content)
      then returned (text_message (speaker_of message.role) (text_of message.content))
      else content_from resolved [] message.content >>= λ content.
          returned (multimodal_message (speaker_of message.role) content)
