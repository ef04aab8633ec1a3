-- ===== src/Tools/Prompt.antt =====
-- src/tools/prompt.ts: what a prompt says of the functions that an answer may ask for.
use chatgpt_web_gateway.Base.{Bool, true, false, List, ◌++◌}
use chatgpt_web_gateway.Base.Results.{Result, returned, ◌>>=◌}
use chatgpt_web_gateway.Text.{Text, text}
use chatgpt_web_gateway.Context.Fingerprint.{
  Json, str, bool, arr, obj, Items, nil, cons, Fields, end, field,
}
use chatgpt_web_gateway.Context.Multimodal.{items_of}
use chatgpt_web_gateway.Tools.{tool_protocol_start, tool_protocol_end}
use chatgpt_web_gateway.Tools.Parser.{
  NormalizedTool, NormalizedToolChoice, auto_choice, none_choice, required_choice, function_choice,
}
use chatgpt_web_gateway.Tools.Canonicalize.{ToolError, canonicalize_tools, tool_value}

policy : (mode : Text) (required : Bool) (allowed : Json) → Fields
policy mode required allowed = field (text "mode") (str mode) (
    field (text "require_function_request") (bool required)
      (field (text "allowed_functions") allowed end))

unfoldable pub build_tool_policy : NormalizedToolChoice → Json
unfolding policy
build_tool_policy (function_choice name) = obj (
    field (text "mode") (str (text "function")) (
      field (text "name") (str name) (
        field (text "require_function_request") (bool true)
          (field (text "allowed_functions") (arr (cons (str name) nil)) end))))
build_tool_policy required_choice = obj (policy (text "required") true (str (text "declared")))
build_tool_policy none_choice = obj (policy (text "none") false (arr nil))
build_tool_policy auto_choice = obj (policy (text "auto") false (str (text "declared")))

unfoldable pub policy_task : NormalizedToolChoice → Text
policy_task (function_choice name) =
    text "Create an external function request for "
    ++ (name ++ text ". Extract its arguments from pending; do not execute the function.")
policy_task required_choice =
    text
      "Create one or more external function requests for the declared functions; do not execute them."
policy_task none_choice = text "Answer normally without creating external function requests."
policy_task auto_choice =
    text
      "Answer normally unless an external function is needed; when one is needed, create an external function request instead of executing it."

protocol_rules : Items
protocol_rules =
    cons
      (str (
        text
          "The declared functions are external operations run by another program. They are not ChatGPT tools, and you do not execute them."))
      (cons
        (str (
          text
            "If pending asks to call or use a declared function, represent that as an external function request instead of saying the function is unavailable."))
        (cons
          (str (
            text
              "For a normal answer, output only the normal answer and never output either protocol marker."))
          (cons
            (str (
              text
                "For external function requests, the entire assistant output must be exactly one protocol envelope, with only optional whitespace outside the markers."))
            (cons
              (str (
                text
                  "Do not wrap the protocol envelope in Markdown fences or add prose before or after it."))
              (cons
                (str (
                  text
                    "requests must contain 1 to 16 entries and every name must be a declared allowed function."))
                (cons (str (text "Each arguments value must be a JSON object.")) (
                  cons
                    (str (
                      text
                        "After writing requests, stop and wait for external function results. Never fabricate external function results."))
                    nil)))))))

protocol_value : Json
unfolding protocol_rules tool_protocol_start tool_protocol_end
protocol_value = obj (
    field (text "start") (str tool_protocol_start) (
      field (text "end") (str tool_protocol_end) (
        field (text "envelope")
          (obj (
            field (text "requests")
              (arr (
                cons
                  (obj (
                    field (text "name") (str (text "function_name"))
                      (field (text "arguments") (obj end) end)))
                  nil))
              end))
          (field (text "rules") (arr protocol_rules) end))))

unfoldable pub build_tool_context :
    List NormalizedTool → NormalizedToolChoice → Result ToolError Json
unfolding build_tool_policy policy_task protocol_value items_of
build_tool_context tools choice = canonicalize_tools tools >>= λ canonical. returned (
    obj (
      field (text "definitions") (arr (items_of tool_value canonical)) (
        field (text "policy") (build_tool_policy choice) (
          field (text "task") (str (policy_task choice))
            (field (text "protocol") protocol_value end)))))

pub build_tool_result_data : (tool_call_id name output : Text) → Json
build_tool_result_data tool_call_id name output = obj (
    field (text "request_id") (str tool_call_id)
      (field (text "name") (str name) (field (text "result") (str output) end)))
