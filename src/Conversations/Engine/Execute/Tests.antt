-- ===== src/Conversations/Engine/Execute/Tests.antt =====
-- Turns of src/conversations/conversation-engine.ts with a page that answers.
use chatgpt_web_gateway.Base.{◌≡◌, refl, true, false, none, some, [], ◌∷◌, length}
use chatgpt_web_gateway.Base.Results.{returned, thrown}
use chatgpt_web_gateway.Text.{text, text_eq, trim, trim_start, is_space}
use chatgpt_web_gateway.Text.Maps.{set, get}
use chatgpt_web_gateway.Context.{user_role}
use chatgpt_web_gateway.Context.Fingerprint.{obj, end}
use chatgpt_web_gateway.Context.Spelled.{spelled, spelled_runs, written}
use chatgpt_web_gateway.Tools.Parser.{auto_choice, parser_runs}
use chatgpt_web_gateway.Tools.Canonicalize.{canonical_tool_runs}
use chatgpt_web_gateway.Structured.{structured_runs}
use chatgpt_web_gateway.Context.Uploads.{upload_runs}
use chatgpt_web_gateway.Context.Planner.{plan_runs, last_message}
use chatgpt_web_gateway.Context.Canonicalize.{canonicalize_instructions, push_instructions}
use chatgpt_web_gateway.Conversations.Aggregate.{
  stored_runs, canonicalize_text, calls_of, attachments_of, canonical_call,
}
use chatgpt_web_gateway.Conversations.Aggregate.Build.{aggregate_runs}
use chatgpt_web_gateway.Conversations.Aggregate.{text_content}
use chatgpt_web_gateway.Conversations.Normalized.{NormalizedRequest, text_mode}
use chatgpt_web_gateway.Conversations.Engine.Program.{Engine, before}
use chatgpt_web_gateway.Conversations.Engine.Execute.{text_execution}
use chatgpt_web_gateway.Conversations.Normalized.{is_phase7, is_phase4, throw_if, or_throw}
use chatgpt_web_gateway.Conversations.RequestMessages.{
  text_or_empty, is_attachment, text_of, or_empty, blank_id, id_text, is_tool_role, speaker_of,
  flush_text, find_semantic, content_from, encodes_object, canonical_calls, canonical_tool_message,
  canonicalize_request_message,
}
use chatgpt_web_gateway.Conversations.RequestTranscript.{
  add_calls, known_after, completed_after, transcript_from, tool_only, is_missing,
  validate_phase7_transcript,
}
use chatgpt_web_gateway.Conversations.RequestContext.{
  validate_last, request_mode, is_text_mode, is_auto, is_enabled, or_no_semantics, is_given,
  is_given_id, coded, canonical_request, validate_tools, validate_structured, request_message,
  request_messages, hex_of, request_fingerprint, accept_messages, check_request,
  canonical_conversation_request, to_canonical_phase7_conversation_request,
  to_canonical_phase7_streaming_conversation_request,
}
use chatgpt_web_gateway.Conversations.Prompts.{
  name_calls, names_from, tool_names_from_messages, set_all, merged_tool_names, is_none_choice,
  texts_in, not_empty, direct_user_text, direct_user_prompt, upper_role, plain_texts,
  ends_with_user, section, history_sections, pending_sections, join_sections, structured_field,
  lacks_output, choice_or_auto, is_auto_choice, or_else_text, function_fields, state_prompt,
  build_context_prompt, policy_field, lacks_choice, build_append_prompt,
}
use chatgpt_web_gateway.Conversations.Engine.Stored.{
  stored_attachment_reference, stored_throw_if, zip_retained, retained_by_attachment_record,
  by_local_id, found_or, stored_part, stored_content_from, no_id, id_of, is_user_role,
  canonical_stored_message, canonical_stored_messages, canonical_stored_conversation,
}
use chatgpt_web_gateway.Conversations.Engine.Context.{
  pending_of, slice_before_last, confirmed_messages, continued_history, context_history,
  continued_messages, authoritative_messages, tool_name_map, semantic_of, semantics_from,
  semantic_map, current_bindings, retained_bindings, attachment_bindings, length_to_last,
  request_history_length, hash_text, fingerprint_of, create_in_flight_conversation, conversation_or,
  final_conversation_record, build_prompt,
}
use chatgpt_web_gateway.Conversations.Engine.Program.{
  give, raise, next, ◌>>=◌, from, is_returned, call, update, read, after, finally_do, cleaned,
  on_error,
}
use chatgpt_web_gateway.Conversations.Engine.Prepare.{
  event_if, release, has_attachments, filenames_from, stored_of, affinity_of, canonical_of, plan_of,
  prepare_without_resolver, retain, stage_uploads, prepare_resolved, prepare_conversation_context,
}
use chatgpt_web_gateway.Conversations.Engine.Execute.{
  url_of, without_dashes, open_session, restore_page, prepare_page, start_checkpoint, number_calls,
  finish_answer, parse_assistant_result, execution_result, build_final_result, fail_open,
  fail_session, complete_session, execute_on_page, execute_turn, execute_prepared,
  conversation_id_of, execute_conversation,
}
use chatgpt_web_gateway.Conversations.Engine.Release.{IsBalanced}
use chatgpt_web_gateway.Conversations.Engine.Release.Settled.{execute_conversation-IsBalanced}

abbrev pub page : Engine
page = record {
  digest = spelled;
  hex = λ h. h;
  parse = λ t. some (obj end);
  stringify = written;
  compile = λ schema. none;
  random_uuid = λ n. text "c-1";
  record_uuid = λ n. n ∷ [];
  has_resolver = true;
  on_resolve_all = λ trace. returned [];
  on_retain_stored = λ trace. returned [];
  on_stage = λ references trace. returned [];
  has_affinity = λ id trace. false;
  on_acquire = λ id trace. returned 7;
  on_open_fresh = λ session trace. returned tt;
  on_open_conversation = λ session url trace. returned true;
  on_send_text = λ session prompt uploads trace.
      returned (record { text_answer = text "hi"; conversation_url = text "/c/1" });
  on_mark_sync_in_flight = λ id at trace. returned tt;
  on_save = λ aggregate trace. returned tt;
  on_complete = λ session trace. returned tt;
  on_fail = λ session trace. thrown (text "gone");
  now = λ trace. length trace;
}

abbrev pub hello : NormalizedRequest
hello = record {
  conversation_key = none;
  instructions = [];
  messages =
      record {
        role = user_role;
        content = text_content (text "hi") ∷ [];
        tool_call_id = none;
        tool_calls = none;
      }
      ∷ [];
  tools = [];
  tool_choice = auto_choice;
  attachments = [];
  output_mode = text_mode;
  stream = false;
  structured = none;
}

execute_conversation-IsBalanced_example :
    IsBalanced ((execute_conversation page none none hello before).1.trace)
execute_conversation-IsBalanced_example = execute_conversation-IsBalanced page none none hello

unfoldable pub engine_runs : Unit {0}
unfolding is_phase7 is_phase4 throw_if or_throw text_or_empty is_attachment text_of or_empty
    blank_id id_text is_tool_role speaker_of flush_text find_semantic content_from encodes_object
    canonical_calls canonical_tool_message canonicalize_request_message add_calls known_after
    completed_after transcript_from tool_only is_missing validate_phase7_transcript validate_last
    request_mode is_text_mode is_auto is_enabled or_no_semantics is_given is_given_id coded
    canonical_request validate_tools validate_structured request_message request_messages hex_of
    request_fingerprint accept_messages check_request canonical_conversation_request
    to_canonical_phase7_conversation_request to_canonical_phase7_streaming_conversation_request
    name_calls names_from tool_names_from_messages set_all merged_tool_names is_none_choice texts_in
    not_empty direct_user_text direct_user_prompt upper_role plain_texts ends_with_user section
    history_sections pending_sections join_sections structured_field lacks_output choice_or_auto
    is_auto_choice or_else_text function_fields state_prompt build_context_prompt policy_field
    lacks_choice build_append_prompt stored_attachment_reference stored_throw_if zip_retained
    retained_by_attachment_record by_local_id found_or stored_part stored_content_from no_id id_of
    is_user_role canonical_stored_message canonical_stored_messages canonical_stored_conversation
    pending_of slice_before_last confirmed_messages continued_history context_history
    continued_messages authoritative_messages tool_name_map semantic_of semantics_from semantic_map
    current_bindings retained_bindings attachment_bindings length_to_last request_history_length
    hash_text fingerprint_of create_in_flight_conversation conversation_or final_conversation_record
    build_prompt give raise next ◌>>=◌ from is_returned call update read after finally_do cleaned
    on_error event_if release has_attachments url_of filenames_from without_dashes open_session
    stored_of affinity_of canonical_of plan_of prepare_without_resolver retain stage_uploads
    prepare_resolved prepare_conversation_context restore_page prepare_page start_checkpoint
    number_calls finish_answer parse_assistant_result execution_result build_final_result fail_open
    fail_session complete_session execute_on_page execute_turn execute_prepared conversation_id_of
    execute_conversation parser_runs canonical_tool_runs structured_runs upload_runs plan_runs
    last_message canonicalize_instructions push_instructions stored_runs canonicalize_text calls_of
    attachments_of canonical_call aggregate_runs set get trim trim_start is_space text_eq
    spelled_runs
engine_runs = tt

answered :
    (execute_conversation page none none hello before).0
    ≡ returned (text_execution (text "hi") (text "/c/1") 5)
unfolding engine_runs
answered = refl
