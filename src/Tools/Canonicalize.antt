-- ===== src/Tools/Canonicalize.antt =====
-- src/tools/canonicalize.ts: the tools of a request in an order of their names, and their
-- fingerprint.
pub mod Laws
pub mod Tests
use Prim.Native.Nat.{compare, Ordering}
use chatgpt_web_gateway.Base.{
  Bool, true, false, not, Option, none, some, List, [], ◌∷◌, ◌==◌, if◌then◌else◌, length, any,
}
use chatgpt_web_gateway.Base.Results.{Result, returned, thrown, ◌>>=◌, ◌>>◌}
use chatgpt_web_gateway.Text.{Text, text, text_eq, trim}
use chatgpt_web_gateway.Text.Sets.{has}
use chatgpt_web_gateway.Context.Fingerprint.{
  Json, str, number, arr, obj, Fields, end, field, Digest, fingerprint_canonical,
  compare_code_points, stabilize,
}
use chatgpt_web_gateway.Context.Multimodal.{optional_field, items_of}
use chatgpt_web_gateway.Tools.Parser.{
  NormalizedTool, NormalizedToolChoice, auto_choice, none_choice, required_choice, function_choice,
}

pub record CanonicalFunctionTool : Type 0 where
  pub name : Text
  pub description : Option Text
  pub parameters : Json

-- The messages of the errors.
pub data ToolError : Type 0 where
  name_empty name_duplicate required_without_tools function_without_tools function_missing :
      ToolError

pub canonical_tool : NormalizedTool → CanonicalFunctionTool
unfolding stabilize
canonical_tool tool = record {
  name = tool.name;
  description = tool.description;
  parameters = stabilize tool.parameters;
}

-- The callback of tools.map, with the names met so far
pub canonical_from :
    (names : List Text) → List NormalizedTool → Result ToolError (List CanonicalFunctionTool)
unfolding canonical_tool trim
canonical_from names [] = returned []
canonical_from names (tool ∷ tools) =
    let rest = canonical_from (tool.name ∷ names) tools in
    if length (trim tool.name) == 0
    then thrown name_empty
    else if has names tool.name
    then thrown name_duplicate
    else rest >>= λ canonical. returned (canonical_tool tool ∷ canonical)

-- The comparison is negative.
pub is_before : Ordering → Bool
is_before Ordering.lt = true
is_before Ordering.eq = false
is_before Ordering.gt = false

-- One step of the stable sort by names
pub insert_tool : CanonicalFunctionTool → List CanonicalFunctionTool → List CanonicalFunctionTool
unfolding is_before compare_code_points
insert_tool t [] = t ∷ []
insert_tool t (u ∷ us) =
    let rest = insert_tool t us in
    if is_before (compare_code_points u.name t.name) then u ∷ rest else t ∷ u ∷ us

pub sort_tools : List CanonicalFunctionTool → List CanonicalFunctionTool
unfolding insert_tool
sort_tools [] = []
sort_tools (t ∷ ts) = insert_tool t (sort_tools ts)

pub canonicalize_tools : List NormalizedTool → Result ToolError (List CanonicalFunctionTool)
unfolding canonical_from sort_tools
canonicalize_tools tools = canonical_from [] tools >>= λ canonical. returned (sort_tools canonical)

pub tool_value : CanonicalFunctionTool → Json
unfolding optional_field
tool_value tool = obj (
    field (text "type") (str (text "function")) (
      field (text "name") (str tool.name) (
        optional_field (text "description") tool.description
          (field (text "parameters") tool.parameters end))))

pub choice_value : NormalizedToolChoice → Json
choice_value auto_choice = obj (field (text "mode") (str (text "auto")) end)
choice_value none_choice = obj (field (text "mode") (str (text "none")) end)
choice_value required_choice = obj (field (text "mode") (str (text "required")) end)
choice_value (function_choice name) =
    obj (field (text "mode") (str (text "function")) (field (text "name") (str name) end))

-- The value that is hashed, where there are tools
pub policy_value : List CanonicalFunctionTool → NormalizedToolChoice → Json
unfolding tool_value choice_value items_of
policy_value tools choice = obj (
    field (text "privateProtocolVersion") (number (text "2")) (
      field (text "tools") (arr (items_of tool_value tools))
        (field (text "functionPolicy") (choice_value choice) end)))

pub fingerprint_tools :
    (d : Digest) → List NormalizedTool → NormalizedToolChoice → Result ToolError (Option d.Hash)
unfolding canonicalize_tools policy_value fingerprint_canonical
fingerprint_tools d tools choice =
    let printed = canonicalize_tools tools >>= λ canonical.
    returned (some (fingerprint_canonical d (policy_value canonical choice))) in
    if length tools == 0 then returned none else printed

-- canonical.some((tool) => tool.name === name)
pub has_tool : List CanonicalFunctionTool → Text → Bool
has_tool canonical name = any (λ tool. text_eq tool.name name) canonical

-- What is checked of the choice, of the canonical tools
pub check_choice : List CanonicalFunctionTool → NormalizedToolChoice → Result ToolError (Unit {0})
unfolding has_tool
check_choice canonical auto_choice = returned tt
check_choice canonical none_choice = returned tt
check_choice canonical required_choice =
    if length canonical == 0 then thrown required_without_tools else returned tt
check_choice canonical (function_choice name) =
    if length canonical == 0
    then thrown function_without_tools
    else if not (has_tool canonical name)
    then thrown function_missing
    else returned tt

pub validate_tool_choice : List NormalizedTool → NormalizedToolChoice → Result ToolError (Unit {0})
unfolding canonicalize_tools check_choice
validate_tool_choice tools choice =
    canonicalize_tools tools >>= λ canonical. check_choice canonical choice

-- Names what the canonical tools compute through, for tests.
unfoldable pub canonical_tool_runs : Unit {0}
unfolding canonical_tool canonical_from is_before insert_tool sort_tools canonicalize_tools
    tool_value choice_value policy_value fingerprint_tools has_tool check_choice
    validate_tool_choice compare_code_points optional_field items_of
canonical_tool_runs = tt
