-- ===== src/Tools/Canonicalize/Tests.antt =====
-- Tools made canonical (src/tools/canonicalize.ts).
use chatgpt_web_gateway.Base.{◌≡◌, refl, true, none, [], ◌∷◌}
use chatgpt_web_gateway.Base.Results.{returned, thrown}
use chatgpt_web_gateway.Text.{Text, text, text_eq, trim, trim_start, is_space}
use chatgpt_web_gateway.Text.Points.{points}
use chatgpt_web_gateway.Context.Fingerprint.{
  obj, field, null, end, bool, stabilize, compare_code_points, code_point, compare_points,
  put_field, insert_field,
}
use chatgpt_web_gateway.Tools.Parser.{NormalizedTool, function_choice, required_choice}
use chatgpt_web_gateway.Tools.Canonicalize.{
  canonicalize_tools, validate_tool_choice, canonical_tool_runs, name_empty, name_duplicate,
  required_without_tools, function_missing,
}
use chatgpt_web_gateway.Tools.Canonicalize.Laws.{AreNamed, IsOffered, validate_tool_choice_iff}

abbrev tool_named : Text → NormalizedTool
tool_named name = record {
  name = name;
  description = none;
  parameters = obj (field (text "b") null (field (text "a") (bool true) end));
}

-- The tools are sorted, and the keys of their parameters too.
sorted :
    canonicalize_tools (tool_named (text "sub") ∷ tool_named (text "add") ∷ [])
    ≡ returned (
        record {
          name = text "add";
          description = none;
          parameters = obj (field (text "a") (bool true) (field (text "b") null end));
        }
        ∷ record {
          name = text "sub";
          description = none;
          parameters = obj (field (text "a") (bool true) (field (text "b") null end));
        }
        ∷ [])
unfolding canonical_tool_runs stabilize compare_code_points code_point compare_points put_field
    insert_field points text_eq trim trim_start is_space
sorted = refl

blank : validate_tool_choice (tool_named (text " ") ∷ []) required_choice ≡ thrown name_empty
unfolding canonical_tool_runs trim trim_start is_space
blank = refl

twice :
    validate_tool_choice (tool_named (text "a") ∷ tool_named (text "a") ∷ []) required_choice
    ≡ thrown name_duplicate
unfolding canonical_tool_runs trim trim_start is_space text_eq
twice = refl

nothing : validate_tool_choice [] required_choice ≡ thrown required_without_tools
unfolding canonical_tool_runs
nothing = refl

absent :
    validate_tool_choice (tool_named (text "a") ∷ []) (function_choice (text "b"))
    ≡ thrown function_missing
unfolding canonical_tool_runs trim trim_start is_space text_eq
absent = refl

validate_tool_choice_iff_example :
    AreNamed (tool_named (text "a") ∷ [])
    × IsOffered (tool_named (text "a") ∷ []) (function_choice (text "a"))
unfolding canonical_tool_runs trim trim_start is_space text_eq
validate_tool_choice_iff_example =
    (validate_tool_choice_iff (tool_named (text "a") ∷ []) (function_choice (text "a"))).0 refl
