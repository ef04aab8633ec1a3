-- ===== src/Conversations/Engine/Context/Tests.antt =====
-- What a turn of src/conversations/conversation-engine.ts saves, for a stored conversation that goes on.
use chatgpt_web_gateway.Base.{◌≡◌, refl, true, none, some, [], ◌∷◌}
use chatgpt_web_gateway.Text.{text, text_eq}
use chatgpt_web_gateway.Text.Points.{points}
use chatgpt_web_gateway.Context.{
  CanonicalConversationRequest, CanonicalStoredConversation, text_message, user, assistant,
  incremental, clean, append_plan,
}
use chatgpt_web_gateway.Context.Fingerprint.{
  stabilize, put_field, insert_field, compare_code_points, code_point, compare_points,
  fingerprint_canonical,
}
use chatgpt_web_gateway.Context.Spelled.{spelled, spelled_runs}
use chatgpt_web_gateway.Context.Planner.{plan_runs, last_message}
use chatgpt_web_gateway.Context.Planner.Transcript.{web_messages, SameTranscript}
use chatgpt_web_gateway.Conversations.Engine.Context.{
  authoritative_messages, continued_messages, confirmed_messages,
}
use chatgpt_web_gateway.Conversations.Engine.Context.Laws.{authoritative-SameTranscript}

abbrev talk : CanonicalStoredConversation
talk = record {
  instructions = record { system = []; developer = [] };
  messages = text_message user (text "a") ∷ text_message assistant (text "b") ∷ [];
  tool_fingerprint = none;
  conversation_url = some (text "/c/1");
  status = clean;
  synced_message_count = 2;
}

abbrev goes_on : CanonicalConversationRequest
goes_on = record {
  instructions = record { system = []; developer = [] };
  messages = text_message user (text "c") ∷ [];
  mode = incremental;
  tool_fingerprint = none;
}

saved :
    authoritative_messages goes_on (append_plan (text_message user (text "c") ∷ [])) (some talk)
    ≡ text_message user (text "a")
      ∷ text_message assistant (text "b")
      ∷ text_message user (text "c")
      ∷ []
unfolding authoritative_messages continued_messages confirmed_messages
saved = refl

authoritative-SameTranscript_example :
    SameTranscript spelled
      (web_messages (some talk) (append_plan (text_message user (text "c") ∷ [])))
      (authoritative_messages goes_on (append_plan (text_message user (text "c") ∷ [])) (some talk))
unfolding plan_runs spelled_runs text_eq last_message stabilize put_field insert_field
    compare_code_points code_point compare_points fingerprint_canonical points
authoritative-SameTranscript_example =
    authoritative-SameTranscript spelled (some talk) goes_on true
      (append_plan (text_message user (text "c") ∷ [])) refl
