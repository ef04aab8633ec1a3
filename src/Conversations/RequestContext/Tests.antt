-- ===== src/Conversations/RequestContext/Tests.antt =====
-- Requests made canonical (src/conversations/request-context.ts), with a digest that writes values out.
use mathlib.Core.List.{Mem, Nodup}
use chatgpt_web_gateway.Base.{
  ◌≡◌, refl, Bool, true, false, ◌||◌, Option, none, some, List, [], ◌∷◌, ◌++◌,
}
use chatgpt_web_gateway.Base.Results.{returned, thrown}
use chatgpt_web_gateway.Text.{Text, text, text_eq, trim, trim_start, is_space}
use chatgpt_web_gateway.Context.{
  user_role, assistant_role, tool_role, user, CanonicalMessage, text_message, tool_call_message,
  tool_result_message, full, CanonicalConversationRequest, RebuildReason,
}
use chatgpt_web_gateway.Context.Fingerprint.{Json, obj, end}
use chatgpt_web_gateway.Context.Spelled.{spelled}
use chatgpt_web_gateway.Context.Canonicalize.{canonicalize_instructions, push_instructions}
use chatgpt_web_gateway.Context.Uploads.{has_meaningful_canonical_user_content, upload_runs}
use chatgpt_web_gateway.Context.Planner.{
  last_message, is_tool, known_calls, completed_calls, plan_context_sync, rebuild,
}
use chatgpt_web_gateway.Context.Planner.Total.{IsReturned}
use chatgpt_web_gateway.Tools.Parser.{auto_choice}
use chatgpt_web_gateway.Tools.Canonicalize.{canonical_tool_runs}
use chatgpt_web_gateway.Structured.{structured_runs}
use chatgpt_web_gateway.Conversations.Aggregate.{text_content, canonicalize_text}
use chatgpt_web_gateway.Conversations.Normalized.{
  NormalizedMessage, NormalizedRequest, text_mode, phase7, phase4, invalid_conversation_request,
  unsupported_request, throw_if, or_throw, is_phase7, is_phase4,
}
use chatgpt_web_gateway.Conversations.RequestMessages.{
  text_or_empty, is_attachment, text_of, or_empty, blank_id, id_text, is_tool_role, speaker_of,
  encodes_object, canonical_calls, canonical_tool_message, canonicalize_request_message,
}
use chatgpt_web_gateway.Conversations.RequestTranscript.{
  add_calls, known_after, completed_after, transcript_from, tool_only, is_missing,
  validate_phase7_transcript,
}
use chatgpt_web_gateway.Conversations.RequestContext.{
  validate_last, request_mode, is_text_mode, is_auto, is_enabled, or_no_semantics, is_given,
  is_given_id, coded, validate_tools, validate_structured, request_message, request_messages,
  hex_of, request_fingerprint, canonical_request, accept_messages, check_request,
  canonical_conversation_request, to_canonical_conversation_request,
  to_canonical_phase7_conversation_request,
}
use chatgpt_web_gateway.Conversations.RequestContext.Accepted.{phase7-Answered}
use chatgpt_web_gateway.Conversations.RequestContext.Planned.{phase7-IsReturned}

abbrev parse_object : Text → Option Json
parse_object t = some (obj end)

abbrev no_schema : Json → Option (Json → Bool)
no_schema schema = none

abbrev hello : NormalizedMessage
hello = record {
  role = user_role;
  content = text_content (text "hi") ∷ [];
  tool_call_id = none;
  tool_calls = none;
}

abbrev asks : NormalizedMessage
asks = record {
  role = assistant_role;
  content = [];
  tool_call_id = none;
  tool_calls = some (record { id = text "c"; name = text "f"; arguments = text "{}" } ∷ []);
}

abbrev answers : NormalizedMessage
answers = record {
  role = tool_role;
  content = text_content (text "4") ∷ [];
  tool_call_id = some (text "c");
  tool_calls = none;
}

abbrev request_of : List NormalizedMessage → NormalizedRequest
request_of messages = record {
  conversation_key = none;
  instructions = [];
  messages = messages;
  tools = [];
  tool_choice = auto_choice;
  attachments = [];
  output_mode = text_mode;
  stream = false;
  structured = none;
}

abbrev accepted : CanonicalConversationRequest
accepted = record {
  instructions = record { system = []; developer = [] };
  messages =
      text_message user (text "hi")
      ∷ tool_call_message []
          (record { external_call_id = text "c"; name = text "f"; arguments = text "{}" } ∷ [])
      ∷ tool_result_message (text "c") (text "4")
      ∷ [];
  mode = full;
  tool_fingerprint = none;
}

unfoldable request_runs : Unit {0}
unfolding throw_if or_throw is_phase7 is_phase4 text_or_empty is_attachment text_of or_empty
    blank_id id_text is_tool_role speaker_of encodes_object canonical_calls canonical_tool_message
    canonicalize_request_message add_calls known_after completed_after transcript_from tool_only
    is_missing validate_phase7_transcript validate_last request_mode is_text_mode is_auto is_enabled
    or_no_semantics is_given is_given_id coded validate_tools validate_structured request_message
    request_messages hex_of request_fingerprint canonical_request accept_messages check_request
    canonical_conversation_request to_canonical_conversation_request
    to_canonical_phase7_conversation_request canonicalize_text canonicalize_instructions
    push_instructions trim trim_start is_space text_eq upload_runs canonical_tool_runs
    structured_runs last_message
request_runs = tt

accepts :
    to_canonical_phase7_conversation_request parse_object no_schema spelled
      (λ h. h)
      (request_of (hello ∷ asks ∷ answers ∷ []))
      none
    ≡ returned accepted
unfolding request_runs
accepts = refl

-- The result of a call that nobody asked for
unasked :
    to_canonical_phase7_conversation_request parse_object no_schema spelled
      (λ h. h)
      (request_of (hello ∷ answers ∷ []))
      none
    ≡ thrown (invalid_conversation_request phase7)
unfolding request_runs
unasked = refl

early :
    to_canonical_conversation_request parse_object no_schema spelled
      (λ h. h)
      (request_of (hello ∷ answers ∷ []))
      none
    ≡ thrown (unsupported_request phase4)
unfolding request_runs
early = refl

phase7-Answered_example :
    Nodup (completed_calls accepted.messages)
    × ((xs ys : List CanonicalMessage) (id t : Text)
        → accepted.messages ≡ xs ++ (tool_result_message id t ∷ ys)
        → Mem id (known_calls xs))
    × ((last : CanonicalMessage) × (last_message accepted.messages ≡ some last)
        × ((is_tool last || has_meaningful_canonical_user_content last) ≡ true))
unfolding request_runs
phase7-Answered_example =
    phase7-Answered parse_object no_schema spelled (λ h. h)
      (request_of (hello ∷ asks ∷ answers ∷ [])) none accepted refl refl

phase7-IsReturned_example :
    ((affinity : Bool) → IsReturned (plan_context_sync spelled none accepted affinity))
    × ((reason : RebuildReason) (stored_history : List CanonicalMessage)
        → IsReturned (rebuild reason stored_history accepted))
unfolding request_runs
phase7-IsReturned_example =
    phase7-IsReturned parse_object no_schema spelled (λ h. h)
      (request_of (hello ∷ asks ∷ answers ∷ [])) none accepted refl refl
