-- ===== src/Structured.antt =====
-- src/structured/output.ts. JSON.parse and Ajv are parameters: parse gives nothing where it throws,
-- and so does compile, whose value is the validator of a schema.
use chatgpt_web_gateway.Base.{Bool, Option, none, some, if◌then◌else◌}
use chatgpt_web_gateway.Base.Results.{Result, returned, thrown, ◌>>=◌}
use chatgpt_web_gateway.Text.{Text, text}
use chatgpt_web_gateway.Context.Fingerprint.{Json, str, bool, obj, Fields, end, field}
use chatgpt_web_gateway.Context.Multimodal.{optional_field}
use chatgpt_web_gateway.Tools.Parser.{as_record}

pub data StructuredOutputErrorCode : Type 0 where
  schema_invalid output_invalid : StructuredOutputErrorCode

-- src/api/normalized.ts
pub data NormalizedStructuredOutput : Type 0 where
  json_object : NormalizedStructuredOutput
  json_schema :
      (name : Text) (description : Option Text) (schema : Json) (strict : Option Bool)
      → NormalizedStructuredOutput

or_else_throw :
    {A : Type 0} → StructuredOutputErrorCode → Option A → Result StructuredOutputErrorCode A
or_else_throw code none = thrown code
or_else_throw code (some a) = returned a

strict_field : Option Bool → Fields → Fields
strict_field none fs = fs
strict_field (some b) fs = field (text "strict") (bool b) fs

json_object_task : Text
json_object_task =
    text
      "Return exactly one valid JSON object as the entire answer. Do not use Markdown fences or prose outside the JSON object."

json_schema_task : Text
json_schema_task =
    text
      "Return exactly one valid JSON object matching this schema as the entire answer. Do not use Markdown fences or prose outside the JSON object."

pub build_structured_output_policy : NormalizedStructuredOutput → Json
unfolding optional_field strict_field json_object_task json_schema_task
build_structured_output_policy json_object = obj (
    field (text "type") (str (text "json_object")) (field (text "task") (str json_object_task) end))
build_structured_output_policy (json_schema name description schema strict) = obj (
    field (text "type") (str (text "json_schema")) (
      field (text "name") (str name) (
        optional_field (text "description") description (
          field (text "schema") schema
            (strict_field strict (field (text "task") (str json_schema_task) end))))))

module _ (parse : Text → Option Json) (compile : Json → Option (Json → Bool)) where
  -- objectJson
  pub object_json : Text → Result StructuredOutputErrorCode Json
  unfolding or_else_throw as_record
  object_json t = or_else_throw output_invalid (parse t) >>= λ parsed.
      or_else_throw output_invalid (as_record parsed) >>= λ fields. returned (obj fields)

  pub schema_validator : Json → Result StructuredOutputErrorCode (Json → Bool)
  unfolding or_else_throw
  schema_validator schema = or_else_throw schema_invalid (compile schema)

  pub validate_structured_output_definition :
      Option NormalizedStructuredOutput → Result StructuredOutputErrorCode (Unit {0})
  validate_structured_output_definition none = returned tt
  validate_structured_output_definition (some json_object) = returned tt
  validate_structured_output_definition (some (json_schema name description schema strict)) =
      schema_validator schema >>= λ validate. returned tt

  -- What is checked of the parsed object
  pub validate_parsed :
      Json → NormalizedStructuredOutput → Result StructuredOutputErrorCode (Unit {0})
  validate_parsed parsed json_object = returned tt
  validate_parsed parsed (json_schema name description schema strict) =
      schema_validator schema >>= λ validate.
      if validate parsed then returned tt else thrown output_invalid

  pub validate_structured_assistant_text :
      Text → Option NormalizedStructuredOutput → Result StructuredOutputErrorCode (Unit {0})
  validate_structured_assistant_text t none = returned tt
  validate_structured_assistant_text t (some output) =
      object_json t >>= λ parsed. validate_parsed parsed output

-- Names what structured output computes through, for tests.
unfoldable pub structured_runs : Unit {0}
unfolding or_else_throw object_json schema_validator validate_structured_output_definition
    validate_parsed validate_structured_assistant_text as_record
structured_runs = tt
