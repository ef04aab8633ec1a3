-- ===== src/Conversations/Engine/Anonymous/Tests.antt =====
-- A request without a key and the conversations it may go on with
-- (src/conversations/conversation-engine.ts).
use chatgpt_web_gateway.Base.{◌≡◌, refl, ℕ, none, some, [], ◌∷◌}
use chatgpt_web_gateway.Base.Results.{returned}
use chatgpt_web_gateway.Text.{Text, text}
use chatgpt_web_gateway.Text.Points.{points}
use chatgpt_web_gateway.Context.{
  Role, user_role, assistant_role, clean, CanonicalConversationRequest,
}
use chatgpt_web_gateway.Context.Fingerprint.{
  stabilize, put_field, insert_field, compare_code_points, code_point, compare_points,
  fingerprint_canonical,
}
use chatgpt_web_gateway.Context.Multimodal.{
  fingerprint_canonical_message, message_value, speaker_name,
}
use chatgpt_web_gateway.Tools.Parser.{auto_choice}
use chatgpt_web_gateway.Conversations.Aggregate.{MessageRecord, ConversationAggregate, text_content}
use chatgpt_web_gateway.Conversations.Normalized.{NormalizedMessage, NormalizedRequest}
use chatgpt_web_gateway.Conversations.Engine.Execute.Tests.{page, hello, engine_runs}
use chatgpt_web_gateway.Conversations.Engine.Anonymous.{
  canonical_anonymous, anonymous_continuation, anonymous_runs,
}
use chatgpt_web_gateway.Conversations.Engine.Anonymous.Unique.{
  IsOnly, anonymous_continuation-IsOnly,
}

abbrev said : Role → Text → NormalizedMessage
said role t = record {
  role = role;
  content = text_content t ∷ [];
  tool_call_id = none;
  tool_calls = none;
}

abbrev request : NormalizedRequest
request = record hello {
  messages =
      said user_role (text "a") ∷ said assistant_role (text "b") ∷ said user_role (text "c") ∷ [];
}

abbrev stored : Text → ℕ → Role → Text → MessageRecord
stored id sequence role t = record {
  id = id;
  conversation_id = text "k";
  sequence = sequence;
  role = role;
  content = text_content t ∷ [];
  tool_call_id = none;
  created_at = 1;
  updated_at = 1;
}

abbrev talk : ConversationAggregate
talk = record {
  conversation = record {
    id = text "k";
    conversation_key = none;
    chatgpt_conversation_url = some (text "/c/1");
    instructions = [];
    tools = [];
    tool_choice = auto_choice;
    tool_fingerprint = none;
    status = clean;
    synced_message_count = 2;
    created_at = 1;
    updated_at = 1;
    last_used_at = 1;
  };
  messages =
      stored (text "m") 0 user_role (text "a") ∷ stored (text "n") 1 assistant_role (text "b") ∷ [];
  tool_calls = [];
  attachments = [];
}

one_match : anonymous_continuation page [] request (λ count. talk ∷ []) ≡ returned (some talk)
unfolding engine_runs anonymous_runs stabilize put_field insert_field compare_code_points code_point
    compare_points fingerprint_canonical points fingerprint_canonical_message message_value
    speaker_name
one_match = refl

-- Two that fit: none is taken.
two_matches : anonymous_continuation page [] request (λ count. talk ∷ talk ∷ []) ≡ returned none
unfolding engine_runs anonymous_runs stabilize put_field insert_field compare_code_points code_point
    compare_points fingerprint_canonical points fingerprint_canonical_message message_value
    speaker_name
two_matches = refl

anonymous_continuation-IsOnly_example :
    (canonical : CanonicalConversationRequest) × (canonical_anonymous page [] request
      ≡ returned canonical)
    × IsOnly page [] request canonical (talk ∷ []) talk
anonymous_continuation-IsOnly_example =
    anonymous_continuation-IsOnly page [] request (λ count. talk ∷ []) talk one_match
