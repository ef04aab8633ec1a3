-- ===== src/Tools/Parser.antt =====
-- src/tools/parser.ts, with the tools and the tool choice of src/api/normalized.ts. JSON.parse and
-- JSON.stringify are the parameters parse, which gives nothing where it throws, and stringify.
pub mod Laws
pub mod Tests
use chatgpt_web_gateway.Base.{
  ℕ, zero, suc, ◌+◌, ◌-◌, Bool, true, false, not, ◌&&◌, ◌||◌, Option, none, some, List, [], ◌∷◌,
  leb, ltb, ◌==◌, if◌then◌else◌, map, length, take, drop,
}
use chatgpt_web_gateway.Base.Results.{Result, returned, thrown, ◌>>=◌, ◌>>◌}
use chatgpt_web_gateway.Text.{Text, text, text_eq, starts_with, ends_with, includes, trim}
use chatgpt_web_gateway.Text.Sets.{has}
use chatgpt_web_gateway.Context.Fingerprint.{
  Json, undefined, null, bool, number, str, arr, obj, Items, nil, cons, Fields, end, field,
}
use chatgpt_web_gateway.Tools.{
  ToolProtocolErrorCode, chatgpt_tool_required, chatgpt_tool_protocol_invalid, chatgpt_tool_unknown,
  chatgpt_tool_forbidden, tool_protocol_start, tool_protocol_end,
}

pub record NormalizedTool : Type 0 where
  pub name : Text
  pub description : Option Text
  pub parameters : Json

pub data NormalizedToolChoice : Type 0 where
  auto_choice none_choice required_choice : NormalizedToolChoice
  function_choice : (name : Text) → NormalizedToolChoice

pub record ParsedCall : Type 0 where
  pub name : Text
  pub arguments : Text

pub data ParsedAssistantOutput : Type 0 where
  text_output : Text → ParsedAssistantOutput
  tool_calls : List ParsedCall → ParsedAssistantOutput

-- The order of Array.prototype.sort on strings
pub code_units_before : Text → Text → Bool
code_units_before s [] = false
code_units_before [] (y ∷ ys) = true
code_units_before (x ∷ xs) (y ∷ ys) = ltb x y || (x == y && code_units_before xs ys)

pub insert_key : Text → List Text → List Text
unfolding code_units_before
insert_key k [] = k ∷ []
insert_key k (x ∷ xs) = if code_units_before x k then x ∷ insert_key k xs else k ∷ x ∷ xs

pub sort_keys : List Text → List Text
unfolding insert_key
sort_keys [] = []
sort_keys (k ∷ ks) = insert_key k (sort_keys ks)

pub keys_of : Fields → List Text
keys_of end = []
keys_of (field k v fs) = k ∷ keys_of fs

-- keys.every((key, index) => key === target[index])
pub each_same : List Text → List Text → Bool
each_same [] target = true
each_same (k ∷ ks) [] = false
each_same (k ∷ ks) (t ∷ ts) = text_eq k t && each_same ks ts

pub exact_keys : Fields → List Text → Bool
unfolding keys_of sort_keys each_same
exact_keys value expected =
    let keys = sort_keys (keys_of value) in
    let target = sort_keys expected in length keys == length target && each_same keys target

pub property : Fields → Text → Json
property end k = undefined
property (field key v fs) k = if text_eq key k then v else property fs k

-- isRecord: the fields of an object that is no array and not null
unfoldable pub as_record : Json → Option Fields
as_record (obj fs) = some fs
as_record undefined = none
as_record null = none
as_record (bool b) = none
as_record (number n) = none
as_record (str t) = none
as_record (arr xs) = none

pub list_of : Items → List Json
list_of nil = []
list_of (cons x xs) = x ∷ list_of xs

-- Array.isArray
pub as_array : Json → Option (List Json)
unfolding list_of
as_array (arr xs) = some (list_of xs)
as_array (obj fs) = none
as_array undefined = none
as_array null = none
as_array (bool b) = none
as_array (number n) = none
as_array (str t) = none

pub as_string : Json → Option Text
as_string (str t) = some t
as_string (obj fs) = none
as_string undefined = none
as_string null = none
as_string (bool b) = none
as_string (number n) = none
as_string (arr xs) = none

pub or_invalid : {A : Type 0} → Option A → Result ToolProtocolErrorCode A
or_invalid none = thrown chatgpt_tool_protocol_invalid
or_invalid (some a) = returned a

pub check : Bool → ToolProtocolErrorCode → Result ToolProtocolErrorCode (Unit {0})
check true code = returned tt
check false code = thrown code

-- toolChoice.mode === 'required' || toolChoice.mode === 'function'
pub must_call : NormalizedToolChoice → Bool
must_call auto_choice = false
must_call none_choice = false
must_call required_choice = true
must_call (function_choice name) = true

unfoldable pub may_call : NormalizedToolChoice → Bool
may_call none_choice = false
may_call auto_choice = true
may_call required_choice = true
may_call (function_choice name) = true

-- toolChoice.mode !== 'function' || name === toolChoice.name
pub allows_name : NormalizedToolChoice → Text → Bool
allows_name (function_choice forced) name = text_eq name forced
allows_name auto_choice name = true
allows_name none_choice name = true
allows_name required_choice name = true

module _ (parse : Text → Option Json) (stringify : Json → Text) where
  -- The callback of payload.requests.map
  pub parse_request :
      (known : List Text) → NormalizedToolChoice → Json → Result ToolProtocolErrorCode ParsedCall
  unfolding or_invalid as_record check exact_keys property as_string trim allows_name
  parse_request known choice value = or_invalid (as_record value) >>= λ fields.
      check (exact_keys fields (text "name" ∷ text "arguments" ∷ [])) chatgpt_tool_protocol_invalid
      >> (or_invalid (as_string (property fields (text "name"))) >>= λ name.
          check (not (length (trim name) == 0)) chatgpt_tool_protocol_invalid
          >> (or_invalid (as_record (property fields (text "arguments"))) >>= λ arguments.
              check (has known name) chatgpt_tool_unknown
              >> (check (allows_name choice name) chatgpt_tool_forbidden
                  >> returned (record { name = name; arguments = stringify (obj arguments) }))))

  pub parse_requests :
      (known : List Text)
      → NormalizedToolChoice
      → List Json
      → Result ToolProtocolErrorCode (List ParsedCall)
  unfolding parse_request
  parse_requests known choice [] = returned []
  parse_requests known choice (value ∷ values) = parse_request known choice value >>= λ call.
      parse_requests known choice values >>= λ calls. returned (call ∷ calls)

  -- From the text between the markers on
  pub parse_payload :
      (tools : List NormalizedTool)
      → NormalizedToolChoice
      → (payload_text : Text) → Result ToolProtocolErrorCode ParsedAssistantOutput
  unfolding check or_invalid as_record exact_keys as_array property may_call parse_requests
  parse_payload tools choice payload_text =
      check (not (length payload_text == 0)) chatgpt_tool_protocol_invalid
      >> (or_invalid (parse payload_text) >>= λ payload.
          or_invalid (as_record payload) >>= λ fields.
          check (exact_keys fields (text "requests" ∷ [])) chatgpt_tool_protocol_invalid
          >> (or_invalid (as_array (property fields (text "requests"))) >>= λ requests.
              check (leb 1 (length requests) && leb (length requests) 16)
                chatgpt_tool_protocol_invalid
              >> (check (may_call choice) chatgpt_tool_forbidden
                  >> (parse_requests (map (λ tool. tool.name) tools) choice requests >>= λ calls.
                      returned (tool_calls calls)))))

  pub parse_marked :
      (tools : List NormalizedTool)
      → NormalizedToolChoice
      → (trimmed : Text) → Result ToolProtocolErrorCode ParsedAssistantOutput
  unfolding check starts_with ends_with trim parse_payload
  parse_marked tools choice trimmed =
      check (starts_with tool_protocol_start trimmed && ends_with tool_protocol_end trimmed)
        chatgpt_tool_protocol_invalid
      >> parse_payload tools choice (
          trim (
            drop (length tool_protocol_start)
              (take (length trimmed - length tool_protocol_end) trimmed)))

  pub parse_offered :
      (tools : List NormalizedTool)
      → NormalizedToolChoice
      → Text
      → Result ToolProtocolErrorCode ParsedAssistantOutput
  unfolding includes must_call parse_marked trim
  parse_offered tools choice t =
      if not (includes tool_protocol_start t || includes tool_protocol_end t)
      then (if must_call choice then thrown chatgpt_tool_required else returned (text_output t))
      else parse_marked tools choice (trim t)

  pub parse_assistant_output :
      (tools : List NormalizedTool)
      → NormalizedToolChoice
      → Text
      → Result ToolProtocolErrorCode ParsedAssistantOutput
  unfolding parse_offered
  parse_assistant_output tools choice t =
      if length tools == 0 then returned (text_output t) else parse_offered tools choice t

-- Names what a parse computes through, for tests.
unfoldable pub parser_runs : Unit {0}
unfolding code_units_before insert_key sort_keys keys_of each_same exact_keys property as_record
    list_of as_array as_string or_invalid check must_call may_call allows_name parse_request
    parse_requests parse_payload parse_marked parse_offered parse_assistant_output
    tool_protocol_start tool_protocol_end
parser_runs = tt
