-- ===== src/Conversations/Aggregate/Build/Tests.antt =====
-- A stored question that a second turn continues.
use chatgpt_web_gateway.Base.{ℕ, ◌≡◌, refl, none, some, [], ◌∷◌, length}
use chatgpt_web_gateway.Base.Results.{returned, thrown}
use chatgpt_web_gateway.Text.{Text, text, text_eq}
use chatgpt_web_gateway.Context.{
  clean, in_flight, image, user, user_role, attachment_part, text_message, multimodal_message,
}
use chatgpt_web_gateway.Context.Fingerprint.{fingerprint_canonical}
use chatgpt_web_gateway.Context.Multimodal.{fingerprint_canonical_message}
use chatgpt_web_gateway.Context.Spelled.{spelled, spelled_runs}
use chatgpt_web_gateway.Tools.Parser.{auto_choice}
use chatgpt_web_gateway.Conversations.Aggregate.{
  text_content, data_url, MessageRecord, ConversationRecord, ConversationAggregate,
  tool_calls_result, stored_runs,
}
use chatgpt_web_gateway.Conversations.Aggregate.Build.{
  AggregateInput, reusable_prefix, missing_binding, build_final_conversation_aggregate,
  aggregate_runs,
}
use chatgpt_web_gateway.Conversations.Aggregate.Build.Laws.{IsNumbered, IsOwned, build-IsSynced}

abbrev drawn_id : ℕ → Text
drawn_id n = n ∷ []

abbrev talk : ConversationRecord
talk = record {
  id = text "c";
  conversation_key = none;
  chatgpt_conversation_url = none;
  instructions = [];
  tools = [];
  tool_choice = auto_choice;
  tool_fingerprint = none;
  status = in_flight;
  synced_message_count = 1;
  created_at = 1;
  updated_at = 1;
  last_used_at = 1;
}

abbrev asked : MessageRecord
asked = record {
  id = text "m1";
  conversation_id = text "c";
  sequence = 0;
  role = user_role;
  content = text_content (text "2+2?") ∷ [];
  tool_call_id = none;
  created_at = 1;
  updated_at = 1;
}

abbrev stored_talk : ConversationAggregate
stored_talk = record {
  conversation = talk;
  messages = asked ∷ [];
  tool_calls = [];
  attachments = [];
}

abbrev second_turn : AggregateInput
second_turn = record {
  stored = some stored_talk;
  stored_canonical_messages = [];
  conversation = talk;
  authoritative_messages =
      text_message user (text "2+2?")
      ∷ multimodal_message user
          (attachment_part (text "a") image (text "00") (text "x.png") none ∷ [])
      ∷ [];
  attachment_bindings =
      (
        text "a",
        record { local_attachment_id = text "l"; kind = image; source = data_url; file = text "f" },
      )
      ∷ [];
  assistant_result =
      tool_calls_result
        (record { external_call_id = text "k"; name = text "add"; arguments = text "{}" } ∷ []);
  conversation_url = text "u";
  completed_at = 9;
}

-- An attachment without a binding
unbound :
    build_final_conversation_aggregate spelled drawn_id
      (record second_turn { attachment_bindings = [] })
    ≡ thrown (missing_binding (text "a"))
unfolding aggregate_runs stored_runs spelled_runs fingerprint_canonical_message
    fingerprint_canonical text_eq
unbound = refl

built :
    (a : ConversationAggregate) × (build_final_conversation_aggregate spelled drawn_id second_turn
      ≡ returned a)
unfolding aggregate_runs stored_runs spelled_runs fingerprint_canonical_message
    fingerprint_canonical text_eq
built = (_, refl)

one_reused : reusable_prefix spelled second_turn ≡ 1
unfolding aggregate_runs stored_runs spelled_runs fingerprint_canonical_message
    fingerprint_canonical text_eq
one_reused = refl

build-IsSynced_example :
    (length built.0.messages ≡ 3)
    × IsNumbered (text "c") 0 built.0.messages
    × IsOwned built.0.messages built.0.tool_calls built.0.attachments
    × (built.0.conversation.status ≡ clean)
    × (built.0.conversation.synced_message_count ≡ length built.0.messages)
build-IsSynced_example = build-IsSynced spelled drawn_id second_turn built.0 built.1
