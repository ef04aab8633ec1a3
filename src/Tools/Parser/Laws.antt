-- ===== src/Tools/Parser/Laws.antt =====
-- What parseAssistantOutput of src/tools/parser.ts can return.
use chatgpt_web_gateway.Base.{
  ◌-◌, ◌≤◌, ◌≡◌, refl, subst, ◌⊎◌, Bool, true, false, not, ◌&&◌, ◌||◌, Option, List, [], ◌∷◌, arith,
  leb, ◌==◌, inl, inr, Bool-cases, map, length, All, take, drop,
}
use chatgpt_web_gateway.Base.Results.{Result, returned, ◌>>◌, bind-eq-returned}
use chatgpt_web_gateway.Text.{Text, text, starts_with, ends_with, includes, trim}
use chatgpt_web_gateway.Text.Sets.{has}
use chatgpt_web_gateway.Context.Fingerprint.{Json}
use chatgpt_web_gateway.Tools.{
  ToolProtocolErrorCode, chatgpt_tool_protocol_invalid, chatgpt_tool_unknown,
  chatgpt_tool_forbidden, tool_protocol_start, tool_protocol_end,
}
use chatgpt_web_gateway.Tools.Parser.{
  NormalizedTool, NormalizedToolChoice, ParsedCall, ParsedAssistantOutput, text_output, tool_calls,
  exact_keys, property, as_record, as_array, as_string, or_invalid, check, must_call, may_call,
  allows_name, parse_request, parse_requests, parse_payload, parse_marked, parse_offered,
  parse_assistant_output,
}

-- A call that the tools and the choice allow.
pub record IsAllowed (known : List Text) (choice : NormalizedToolChoice) (call : ParsedCall)
    : Type 0 where
  pub known_name : has known call.name ≡ true
  pub allowed_name : allows_name choice call.name ≡ true
  pub named : (length (trim call.name) == 0) ≡ false

pub data Parsed (tools : List NormalizedTool) (choice : NormalizedToolChoice) (t : Text)
    : ParsedAssistantOutput → Type 0 where
  as_text :
      (length tools ≡ 0)
        ⊎ (((includes tool_protocol_start t || includes tool_protocol_end t) ≡ false)
            × (must_call choice ≡ false))
      → Parsed tools choice t (text_output t)
  as_calls :
      {calls : List ParsedCall}
      → may_call choice ≡ true
      → 1 ≤ length calls
      → length calls ≤ 16
      → All (IsAllowed (map (λ tool. tool.name) tools) choice) calls
      → Parsed tools choice t (tool_calls calls)

returned_same :
    {A : Type 0} (x y : A)
    → ◌≡◌ {A = Result ToolProtocolErrorCode A} (returned x) (returned y)
    → x ≡ y
returned_same x y h = cc

check-returned :
    {A : Type 0} (b : Bool) (code : ToolProtocolErrorCode) (k : Result ToolProtocolErrorCode A)
    (a : A)
    → (check b code >> k) ≡ returned a
    → (b ≡ true) × (k ≡ returned a)
unfolding check
check-returned true code k a h = (refl, h)
check-returned false code k a h = cc

module _ (parse : Text → Option Json) (stringify : Json → Text) where
  parse_request-IsAllowed :
      (known : List Text) (choice : NormalizedToolChoice) (value : Json) (call : ParsedCall)
      → parse_request parse stringify known choice value ≡ returned call
      → IsAllowed known choice call
  unfolding parse_request
  parse_request-IsAllowed known choice value call h =
      let (fields, _, h1) = bind-eq-returned (or_invalid (as_record value)) _ call h in
      let (_, h2) =
        check-returned (exact_keys fields (text "name" ∷ text "arguments" ∷ []))
          chatgpt_tool_protocol_invalid _ call h1 in
      let (name, _, h3) =
        bind-eq-returned (or_invalid (as_string (property fields (text "name")))) _ call h2 in
      let (blank, h4) =
        check-returned (not (length (trim name) == 0)) chatgpt_tool_protocol_invalid _ call h3 in
      let (arguments, _, h5) =
        bind-eq-returned (or_invalid (as_record (property fields (text "arguments")))) _ call h4 in
      let (k, h6) = check-returned (has known name) chatgpt_tool_unknown _ call h5 in
      let (a, h7) = check-returned (allows_name choice name) chatgpt_tool_forbidden _ call h6 in
      let some_name : (length (trim name) == 0) ≡ false = ground arith in
      subst (IsAllowed known choice) (returned_same _ call h7)
        (record { known_name = k; allowed_name = a; named = some_name })

  parse_requests-IsAllowed :
      (known : List Text) (choice : NormalizedToolChoice) (values : List Json)
      (calls : List ParsedCall)
      → parse_requests parse stringify known choice values ≡ returned calls
      → All (IsAllowed known choice) calls × (length calls ≡ length values)
  unfolding parse_requests
  parse_requests-IsAllowed known choice [] calls h =
      subst (λ cs. All (IsAllowed known choice) cs × (length cs ≡ 0)) (returned_same _ calls h)
        (tt, refl)
  parse_requests-IsAllowed known choice (v ∷ vs) calls h =
      let (call, hc, h1) =
        bind-eq-returned (parse_request parse stringify known choice v) _ calls h in
      let (rest, hr, h2) =
        bind-eq-returned (parse_requests parse stringify known choice vs) _ calls h1 in
      let (all, len) = parse_requests-IsAllowed known choice vs rest hr in
      subst (λ cs. All (IsAllowed known choice) cs × (length cs ≡ length (v ∷ vs)))
        (returned_same _ calls h2)
        ((parse_request-IsAllowed known choice v call hc, all), omega (arith, len))

  parse_payload-Parsed :
      (tools : List NormalizedTool) (choice : NormalizedToolChoice) (t payload_text : Text)
      (out : ParsedAssistantOutput)
      → parse_payload parse stringify tools choice payload_text ≡ returned out
      → Parsed tools choice t out
  unfolding parse_payload
  parse_payload-Parsed tools choice t payload_text out h =
      let (_, h1) =
        check-returned (not (length payload_text == 0)) chatgpt_tool_protocol_invalid _ out h in
      let (payload, _, h2) = bind-eq-returned (or_invalid (parse payload_text)) _ out h1 in
      let (fields, _, h3) = bind-eq-returned (or_invalid (as_record payload)) _ out h2 in
      let (_, h4) =
        check-returned (exact_keys fields (text "requests" ∷ [])) chatgpt_tool_protocol_invalid _
          out h3 in
      let (requests, _, h5) =
        bind-eq-returned (or_invalid (as_array (property fields (text "requests")))) _ out h4 in
      let (few, h6) =
        check-returned (leb 1 (length requests) && leb (length requests) 16)
          chatgpt_tool_protocol_invalid _ out h5 in
      let (may, h7) = check-returned (may_call choice) chatgpt_tool_forbidden _ out h6 in
      let (calls, hc, h8) =
        bind-eq-returned
          (parse_requests parse stringify (map (λ tool. tool.name) tools) choice requests) _ out
          h7 in
      let (all, len) =
        parse_requests-IsAllowed (map (λ tool. tool.name) tools) choice requests calls hc in
      let at_least : 1 ≤ length calls = ground arith in
      let at_most : length calls ≤ 16 = ground arith in
      subst (Parsed tools choice t) (returned_same _ out h8) (as_calls may at_least at_most all)

  parse_marked-Parsed :
      (tools : List NormalizedTool) (choice : NormalizedToolChoice) (t trimmed : Text)
      (out : ParsedAssistantOutput)
      → parse_marked parse stringify tools choice trimmed ≡ returned out
      → Parsed tools choice t out
  unfolding parse_marked
  parse_marked-Parsed tools choice t trimmed out h =
      let inner = trim (
        drop (length tool_protocol_start)
          (take (length trimmed - length tool_protocol_end) trimmed)) in
      let (_, h1) =
        check-returned
          (starts_with tool_protocol_start trimmed && ends_with tool_protocol_end trimmed)
          chatgpt_tool_protocol_invalid (parse_payload parse stringify tools choice inner) out h in
      parse_payload-Parsed tools choice t inner out h1

  -- An answer that parses is the text itself, if no tool is offered, or if it holds neither marker
  -- and no call is required; or else it is 1 to 16 calls, where calls are not forbidden, each of a
  -- tool that is offered, has a name that is not blank, and is the tool that the choice forces, if it
  -- forces one. This holds whatever JSON.parse and JSON.stringify do.
  pub parse-Parsed :
      (tools : List NormalizedTool) (choice : NormalizedToolChoice) (t : Text)
      (out : ParsedAssistantOutput)
      → parse_assistant_output parse stringify tools choice t ≡ returned out
      → Parsed tools choice t out
  unfolding parse_assistant_output parse_offered
  parse-Parsed tools choice t out h = elim (Bool-cases (length tools == 0)) [
    | inl z ↦
        subst (Parsed tools choice t) (returned_same _ out (ground arith))
          (as_text (inl (ground arith)))
    | inr n ↦ elim (Bool-cases (includes tool_protocol_start t || includes tool_protocol_end t)) [
      | inl m ↦ parse_marked-Parsed tools choice t (trim t) out (ground arith)
      | inr m ↦ elim (Bool-cases (must_call choice)) [
        | inl r ↦ absurd (ground arith)
        | inr r ↦
            let same : returned (text_output t) ≡ returned out = ground arith in
            subst (Parsed tools choice t) (returned_same (text_output t) out same)
              (as_text (inr (m, r)))
      ]
    ]
  ]
