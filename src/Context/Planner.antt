-- ===== src/Context/Planner.antt =====
-- src/context/planner.ts: which part of a request goes to the web conversation, and whether the
-- conversation there is appended to, restored, or built anew.
pub mod Turns
pub mod Pending
pub mod Modes
pub mod Transcript
pub mod Total
pub mod Tests
use chatgpt_web_gateway.Base.{
  ℕ, zero, suc, ◌-◌, Bool, true, false, not, ◌&&◌, ◌||◌, Option, none, some, List, [], ◌∷◌, ◌++◌,
  map, leb, ltb, ◌==◌, if◌then◌else◌, length, take, drop, every, any,
}
use chatgpt_web_gateway.Base.Results.{Result, returned, thrown, ◌>>=◌, ◌>>◌}
use chatgpt_web_gateway.Text.{Text, text, text_eq}
use chatgpt_web_gateway.Text.Sets.{has}
use chatgpt_web_gateway.Context.{
  ConversationRequestMode, incremental, full, CanonicalToolCall, CanonicalMessage, text_message,
  multimodal_message, tool_call_message, tool_result_message, CanonicalInstructions,
  CanonicalConversationRequest, SyncStatus, clean, in_flight, CanonicalStoredConversation,
  RebuildReason, checkpoint_uncertain, checkpoint_mismatch, instructions_changed, tools_changed,
  history_diverged, multiple_unsynced_turns, conversation_url_missing, ContextSyncPlan, fresh_plan,
  append_plan, restore_plan, rebuild_plan, Role, user_role, assistant_role, tool_role, role_of,
}
use chatgpt_web_gateway.Context.Fingerprint.{
  Json, str, arr, obj, nil, cons, field, end, Items, Digest, fingerprint_canonical,
}
use chatgpt_web_gateway.Context.Multimodal.{fingerprint_canonical_message}

-- The messages of ContextSyncPlanningError.
pub data PlanningError : Type 0 where
  no_pending_turn wrong_last_turn wrong_pending_turn : PlanningError
  duplicate_results unknown_call completed_call : PlanningError

abbrev pub is_tool : CanonicalMessage → Bool
is_tool m = elim (role_of m) [ tool_role ↦ true | _ ↦ false ]

abbrev pub is_user : CanonicalMessage → Bool
is_user m = elim (role_of m) [ user_role ↦ true | _ ↦ false ]

-- messages[index]?.role === 'tool'
unfoldable pub tool_at : List CanonicalMessage → ℕ → Bool
tool_at [] i = false
tool_at (m ∷ ms) zero = is_tool m
tool_at (m ∷ ms) (suc i) = tool_at ms i

-- while (start > 0 && messages[start - 1]?.role === 'tool') start -= 1
unfoldable pub scan_back : List CanonicalMessage → ℕ → ℕ
unfolding tool_at
scan_back messages zero = zero
scan_back messages (suc start) =
    if tool_at messages start then scan_back messages start else suc start

-- messages.at(-1)
unfoldable pub last_message : List CanonicalMessage → Option CanonicalMessage
last_message [] = none
last_message (m ∷ []) = some m
last_message (m ∷ n ∷ ms) = last_message (n ∷ ms)

unfoldable pub start_from : List CanonicalMessage → Option CanonicalMessage → Result PlanningError ℕ
unfolding scan_back
start_from messages none = thrown no_pending_turn
start_from messages (some last) =
    if is_user last
    then returned (length messages - 1)
    else if not (is_tool last)
    then thrown wrong_last_turn
    else returned (scan_back messages (length messages - 1))

unfoldable pub pending_start : CanonicalConversationRequest → Result PlanningError ℕ
unfolding start_from last_message
pending_start request = start_from request.messages (last_message request.messages)

unfoldable pub pending_turn :
    CanonicalConversationRequest → Result PlanningError (List CanonicalMessage)
pending_turn request = pending_start request >>= λ start. returned (drop start request.messages)

unfoldable pub request_history :
    CanonicalConversationRequest → Result PlanningError (List CanonicalMessage)
request_history request = pending_start request >>= λ start. returned (take start request.messages)

-- The ids of the calls in a transcript, and of the calls that have a result.
unfoldable pub known_calls : List CanonicalMessage → List Text
known_calls [] = []
known_calls (tool_call_message t calls ∷ ms) =
    map (λ (call : CanonicalToolCall). call.external_call_id) calls ++ known_calls ms
known_calls (_ ∷ ms) = known_calls ms

unfoldable pub completed_calls : List CanonicalMessage → List Text
completed_calls [] = []
completed_calls (tool_result_message i t ∷ ms) = i ∷ completed_calls ms
completed_calls (_ ∷ ms) = completed_calls ms

-- The loop over the pending results.
unfoldable pub check_results :
    (known completed seen : List Text) → List CanonicalMessage → Result PlanningError (Unit {0})
check_results known completed seen [] = returned tt
check_results known completed seen (tool_result_message i t ∷ ms) =
    let rest = check_results known completed (i ∷ seen) ms in
    if has seen i
    then thrown duplicate_results
    else if not (has known i)
    then thrown unknown_call
    else if has completed i
    then thrown completed_call
    else rest
check_results known completed seen (_ ∷ ms) = check_results known completed seen ms

unfoldable pub is_user_turn : List CanonicalMessage → Bool
is_user_turn (m ∷ []) = is_user m
is_user_turn _ = false

unfoldable pub validate_pending :
    (pending prior : List CanonicalMessage) → Result PlanningError (Unit {0})
unfolding is_user_turn check_results known_calls completed_calls
validate_pending pending prior =
    if is_user_turn pending
    then returned tt
    else if length pending == 0 || any (λ m. not (is_tool m)) pending
    then thrown wrong_pending_turn
    else check_results (known_calls prior) (completed_calls prior) [] pending

pub texts_value : List Text → Items
texts_value [] = nil
texts_value (t ∷ ts) = cons (str t) (texts_value ts)

pub instructions_value : CanonicalInstructions → Json
unfolding texts_value
instructions_value i = obj (
    field (text "system") (arr (texts_value i.system))
      (field (text "developer") (arr (texts_value i.developer)) end))

-- left !== right of optional strings
pub differ : Option Text → Option Text → Bool
differ none none = false
differ none (some b) = true
differ (some a) none = true
differ (some a) (some b) = not (text_eq a b)

-- !stored.conversationUrl
pub is_blank : Option Text → Bool
is_blank none = true
is_blank (some []) = true
is_blank (some (c ∷ cs)) = false

unfoldable pub fresh : CanonicalConversationRequest → Result PlanningError ContextSyncPlan
fresh request = do
  history ← request_history request
  pending ← pending_turn request
  validate_pending pending history
  returned (fresh_plan history pending)

unfoldable pub rebuild_history :
    ConversationRequestMode
    → List CanonicalMessage
    → CanonicalConversationRequest
    → Result PlanningError (List CanonicalMessage)
rebuild_history full stored_history request = request_history request
rebuild_history incremental stored_history request = returned stored_history

unfoldable pub rebuild :
    RebuildReason
    → List CanonicalMessage
    → CanonicalConversationRequest
    → Result PlanningError ContextSyncPlan
rebuild reason stored_history request = do
  pending ← pending_turn request
  history ← rebuild_history request.mode stored_history request
  validate_pending pending history
  returned (rebuild_plan reason history pending)

unfoldable pub append_or_restore :
    CanonicalConversationRequest
    → List CanonicalMessage
    → Bool
    → Result PlanningError ContextSyncPlan
append_or_restore request prior has_affinity_page = do
  pending ← pending_turn request
  validate_pending pending prior
  returned (if has_affinity_page then append_plan pending else restore_plan pending)

module _ (d : Digest) where
  pub same_message : CanonicalMessage → CanonicalMessage → Bool
  same_message left right =
      d.same_hash (fingerprint_canonical_message d left) (fingerprint_canonical_message d right)

  pub same_instructions : CanonicalInstructions → CanonicalInstructions → Bool
  same_instructions left right =
      d.same_hash (fingerprint_canonical d (instructions_value left))
        (fingerprint_canonical d (instructions_value right))

  -- every((message, index) => sameMessage(message, others[index])), for at least as many others
  pub pairwise_same : List CanonicalMessage → List CanonicalMessage → Bool
  pairwise_same [] others = true
  pairwise_same (m ∷ ms) [] = false
  pairwise_same (m ∷ ms) (n ∷ ns) = same_message m n && pairwise_same ms ns

  pub has_prefix : (messages prefix : List CanonicalMessage) → Bool
  has_prefix messages prefix =
      if ltb (length messages) (length prefix) then false else pairwise_same prefix messages

  -- The last part of planContextSync, for a full request whose prefix is the stored transcript.
  pub plan_unsynced :
      CanonicalStoredConversation
      → CanonicalConversationRequest
      → Bool
      → Result PlanningError ContextSyncPlan
  plan_unsynced stored request has_affinity_page =
      let unsynced = drop (length stored.messages) request.messages in
      pending_turn request >>= λ pending.
      if not (length unsynced == length pending) || not (pairwise_same unsynced pending)
      then rebuild multiple_unsynced_turns stored.messages request
      else append_or_restore request stored.messages has_affinity_page

  pub plan_by_mode :
      ConversationRequestMode
      → CanonicalStoredConversation
      → CanonicalConversationRequest
      → Bool
      → Result PlanningError ContextSyncPlan
  plan_by_mode incremental stored request has_affinity_page =
      append_or_restore request stored.messages has_affinity_page
  plan_by_mode full stored request has_affinity_page =
      if not (has_prefix request.messages stored.messages)
      then rebuild history_diverged stored.messages request
      else plan_unsynced stored request has_affinity_page

  pub confirmed_prefix : CanonicalStoredConversation → List CanonicalMessage
  confirmed_prefix stored = take stored.synced_message_count stored.messages

  -- The guards on a clean checkpoint.
  pub plan_clean :
      CanonicalStoredConversation
      → CanonicalConversationRequest
      → Bool
      → Result PlanningError ContextSyncPlan
  plan_clean stored request has_affinity_page =
      if not (stored.synced_message_count == length stored.messages)
      then rebuild checkpoint_mismatch (confirmed_prefix stored) request
      else if is_blank stored.conversation_url
      then rebuild conversation_url_missing stored.messages request
      else if not (same_instructions stored.instructions request.instructions)
      then rebuild instructions_changed stored.messages request
      else if differ stored.tool_fingerprint request.tool_fingerprint
      then rebuild tools_changed stored.messages request
      else plan_by_mode request.mode stored request has_affinity_page

  pub plan_stored :
      SyncStatus
      → CanonicalStoredConversation
      → CanonicalConversationRequest
      → Bool
      → Result PlanningError ContextSyncPlan
  plan_stored in_flight stored request has_affinity_page =
      rebuild checkpoint_uncertain (confirmed_prefix stored) request
  plan_stored clean stored request has_affinity_page = plan_clean stored request has_affinity_page

  unfoldable pub plan_context_sync :
      Option CanonicalStoredConversation
      → CanonicalConversationRequest
      → Bool
      → Result PlanningError ContextSyncPlan
  unfolding plan_stored
  plan_context_sync none request has_affinity_page = fresh request
  plan_context_sync (some stored) request has_affinity_page =
      plan_stored stored.status stored request has_affinity_page

-- Names what a run of the planner computes through, for tests.
unfoldable pub plan_runs : Unit {0}
unfolding plan_context_sync plan_stored plan_clean plan_by_mode plan_unsynced confirmed_prefix
    has_prefix pairwise_same same_message same_instructions append_or_restore rebuild
    rebuild_history fresh is_blank differ instructions_value texts_value validate_pending
    pending_turn request_history pending_start fingerprint_canonical_message
plan_runs = tt
