-- ===== src/Tools/Parser/Tests.antt =====
-- Answers parsed with a JSON.parse that knows one payload.
use chatgpt_web_gateway.Base.{◌≡◌, refl, Option, none, some, [], ◌∷◌, if◌then◌else◌}
use chatgpt_web_gateway.Base.Results.{returned, thrown}
use chatgpt_web_gateway.Text.{
  Text, text, text_eq, starts_with, ends_with, includes, trim, trim_start, is_space,
}
use chatgpt_web_gateway.Context.Fingerprint.{Json, str, arr, obj, nil, cons, end, field}
use chatgpt_web_gateway.Context.Spelled.{written, spelled_runs}
use chatgpt_web_gateway.Tools.{
  chatgpt_tool_required, chatgpt_tool_unknown, chatgpt_tool_protocol_invalid,
}
use chatgpt_web_gateway.Tools.Parser.{
  NormalizedTool, auto_choice, required_choice, function_choice, tool_calls, parse_assistant_output,
  parser_runs,
}
use chatgpt_web_gateway.Tools.Parser.Laws.{Parsed, parse-Parsed}

abbrev payload : Json
payload = obj (
    field (text "requests")
      (arr (
        cons (obj (field (text "arguments") (obj end) (field (text "name") (str (text "add")) end)))
          nil))
      end)

abbrev parse_one : Text → Option Json
parse_one t = if text_eq t (text "P") then some payload else none

abbrev add_tool : NormalizedTool
add_tool = record { name = text "add"; description = none; parameters = obj end }

abbrev sub_tool : NormalizedTool
sub_tool = record add_tool { name = text "sub" }

abbrev answer : Text
answer = text " <<<EXTERNAL_FUNCTION_REQUESTS_V1>>>P <<<END_EXTERNAL_FUNCTION_REQUESTS_V1>>>"

parsed :
    parse_assistant_output parse_one written (add_tool ∷ []) (function_choice (text "add")) answer
    ≡ returned (tool_calls (record { name = text "add"; arguments = text "{}" } ∷ []))
unfolding parser_runs spelled_runs text_eq starts_with ends_with includes trim trim_start is_space
parsed = refl

unknown :
    parse_assistant_output parse_one written (sub_tool ∷ []) auto_choice answer
    ≡ thrown chatgpt_tool_unknown
unfolding parser_runs spelled_runs text_eq starts_with ends_with includes trim trim_start is_space
unknown = refl

required :
    parse_assistant_output parse_one written (sub_tool ∷ []) required_choice (text "4")
    ≡ thrown chatgpt_tool_required
unfolding parser_runs text_eq starts_with includes
required = refl

half_marked :
    parse_assistant_output parse_one written
      (sub_tool ∷ [])
      auto_choice
      (text "a <<<EXTERNAL_FUNCTION_REQUESTS_V1>>>")
    ≡ thrown chatgpt_tool_protocol_invalid
unfolding parser_runs text_eq starts_with ends_with includes trim trim_start is_space
half_marked = refl

parse-Parsed_example :
    Parsed
      (add_tool ∷ [])
      (function_choice (text "add"))
      answer
      (tool_calls (record { name = text "add"; arguments = text "{}" } ∷ []))
parse-Parsed_example =
    parse-Parsed parse_one written (add_tool ∷ []) (function_choice (text "add")) answer
      (tool_calls (record { name = text "add"; arguments = text "{}" } ∷ [])) parsed
