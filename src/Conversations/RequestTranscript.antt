-- ===== src/Conversations/RequestTranscript.antt =====
-- src/conversations/request-context.ts: the calls and results of a transcript.
use chatgpt_web_gateway.Base.{
  Bool, true, false, not, ◌&&◌, Option, none, some, List, [], ◌∷◌, ◌==◌, length, every,
}
use chatgpt_web_gateway.Base.Results.{Result, returned, ◌>>=◌, ◌>>◌}
use chatgpt_web_gateway.Text.{Text}
use chatgpt_web_gateway.Text.Sets.{has}
use chatgpt_web_gateway.Context.{
  CanonicalToolCall, CanonicalMessage, text_message, multimodal_message, tool_call_message,
  tool_result_message,
}
use chatgpt_web_gateway.Context.Planner.{is_tool, is_user}
use chatgpt_web_gateway.Conversations.Normalized.{
  NormalizedRequest, RequestPhase, RequestError, invalid_conversation_request, throw_if,
}

unfoldable pub add_calls :
    RequestPhase → (known : List Text) → List CanonicalToolCall → Result RequestError (List Text)
unfolding throw_if
add_calls phase known [] = returned known
add_calls phase known (call ∷ calls) =
    throw_if (has known call.external_call_id) (invalid_conversation_request phase)
    >> add_calls phase (call.external_call_id ∷ known) calls

-- if (message.role === 'assistant' && 'toolCalls' in message)
unfoldable pub known_after :
    RequestPhase → (known : List Text) → CanonicalMessage → Result RequestError (List Text)
unfolding add_calls
known_after phase known (tool_call_message t calls) = add_calls phase known calls
known_after phase known (text_message s t) = returned known
known_after phase known (multimodal_message s ps) = returned known
known_after phase known (tool_result_message i t) = returned known

-- if (message.role === 'tool')
unfoldable pub completed_after :
    RequestPhase
    → (incremental_tool_only : Bool) (known completed : List Text) → CanonicalMessage
    → Result RequestError (List Text)
unfolding throw_if
completed_after phase only known completed (tool_result_message i t) =
    throw_if (has completed i) (invalid_conversation_request phase)
    >> (throw_if (not (has known i) && not only) (invalid_conversation_request phase)
        >> returned (i ∷ completed))
completed_after phase only known completed (text_message s t) = returned completed
completed_after phase only known completed (multimodal_message s ps) = returned completed
completed_after phase only known completed (tool_call_message t calls) = returned completed

-- The loop; previous_tool says that previousRole === 'tool'.
unfoldable pub transcript_from :
    RequestPhase
    → (incremental_tool_only previous_tool : Bool) (known completed : List Text)
    → List CanonicalMessage
    → Result RequestError (Unit {0})
unfolding known_after completed_after throw_if
transcript_from phase only previous_tool known completed [] = returned tt
transcript_from phase only previous_tool known completed (m ∷ ms) =
    known_after phase known m >>= λ known'.
    completed_after phase only known' completed m >>= λ completed'.
    throw_if (is_user m && previous_tool) (invalid_conversation_request phase)
    >> transcript_from phase only (is_tool m) known' completed' ms

-- messages.length > 0 && messages.every((message) => message.role === 'tool')
unfoldable pub tool_only : List CanonicalMessage → Bool
tool_only messages = not (length messages == 0) && every is_tool messages

unfoldable pub is_missing : Option Text → Bool
is_missing none = true
is_missing (some key) = false

unfoldable pub validate_phase7_transcript :
    NormalizedRequest → List CanonicalMessage → RequestPhase → Result RequestError (Unit {0})
unfolding tool_only transcript_from throw_if is_missing
validate_phase7_transcript request messages phase =
    transcript_from phase (tool_only messages) false [] [] messages
    >> throw_if (tool_only messages && is_missing request.conversation_key)
        (invalid_conversation_request phase)
