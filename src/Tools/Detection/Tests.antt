-- ===== src/Tools/Detection/Tests.antt =====
-- Answers in small deltas.
use chatgpt_web_gateway.Base.{◌≡◌, ◌↔◌, ◌⊎◌, refl, true, false, [], ◌∷◌, ◌++◌}
use mathlib.Core.List
use chatgpt_web_gateway.Base.Results.{returned, thrown}
use chatgpt_web_gateway.Text.{text, includes, trim_start, is_space, starts_with, ends_with, text_eq}
use chatgpt_web_gateway.Tools.{chatgpt_tool_protocol_invalid, tool_protocol_start}
use chatgpt_web_gateway.Tools.Detection.{
  ToolDetectionBuffer, create_tool_detection_buffer, push, finish, pending, text_output,
  detection_runs,
}
use chatgpt_web_gateway.Tools.Detection.Stream.{Pushed, created, pushed}
use chatgpt_web_gateway.Tools.Detection.Answers.{
  Finished, push_streams, push_throws_iff, finish-Finished,
}

-- "Hi <<" holds back what may be the start of the marker.
abbrev greeted : ToolDetectionBuffer
greeted = record { enabled = true; state = text_output; buffer = text "<<" }

greets :
    push (text "Hi <<") (create_tool_detection_buffer true) ≡ (greeted, returned (text "Hi " ∷ []))
unfolding detection_runs includes trim_start is_space starts_with ends_with text_eq
greets = refl

said : Pushed (text "Hi <<") (text "Hi ") greeted
unfolding mathlib.Core.List.flatten
said = pushed (text "Hi <<") (text "Hi " ∷ []) created greets

push_streams_example :
    (text "Hi " ++ text "<<" ≡ text "Hi <<")
    × (includes tool_protocol_start (text "Hi ") ≡ false)
    × ((text_output ≡ text_output) ⊎ (text "Hi " ≡ []))
push_streams_example = push_streams (text "Hi <<") (text "Hi ") greeted said

push_throws_iff_example :
    ((push (text "<EXTERNAL_FUNCTION_REQUESTS_V1>>>") greeted).1
      ≡ thrown chatgpt_tool_protocol_invalid)
    ↔ (includes tool_protocol_start (text "Hi <<" ++ text "<EXTERNAL_FUNCTION_REQUESTS_V1>>>")
        ≡ true)
push_throws_iff_example =
    push_throws_iff (text "Hi <<") (text "Hi ") (text "<EXTERNAL_FUNCTION_REQUESTS_V1>>>") greeted
      said refl

finish-Finished_example : Finished (text "Hi <<") (text "Hi ") (finish greeted)
finish-Finished_example = finish-Finished (text "Hi <<") (text "Hi ") greeted said

-- Another delta lets the held text through.
goes_on : push (text "3") greeted ≡ (record greeted { buffer = [] }, returned (text "<<3" ∷ []))
unfolding detection_runs includes trim_start is_space starts_with ends_with text_eq
goes_on = refl

cut : (finish (record greeted { state = pending })).1 ≡ thrown chatgpt_tool_protocol_invalid
unfolding detection_runs includes trim_start is_space starts_with ends_with text_eq
cut = refl
