-- ===== src/Context/Planner/Modes.antt =====
-- What the plan of src/context/planner.ts does to the conversation, mode by mode.
use chatgpt_web_gateway.Base.{
  ◌≤◌, ◌≡◌, refl, sym, ap, ◌∙◌, subst, inl, inr, Bool, true, false, not, ◌||◌, Option, none, some,
  List, arith, Bool-cases, length, drop, ◌==◌, ==_iff, if◌then◌else◌, Prefix, Prefix-refl,
  Prefix-take,
}
use chatgpt_web_gateway.Base.Results.{returned, ◌>>◌, bind-eq-returned}
use chatgpt_web_gateway.Context.{
  CanonicalMessage, CanonicalConversationRequest, CanonicalStoredConversation,
  ConversationRequestMode, full, incremental, ContextSyncPlan, fresh_plan, append_plan,
  restore_plan, rebuild_plan, RebuildReason, SyncStatus, clean, in_flight, checkpoint_uncertain,
  checkpoint_mismatch, instructions_changed, tools_changed, history_diverged,
  multiple_unsynced_turns, conversation_url_missing,
}
use chatgpt_web_gateway.Context.Fingerprint.{Digest}
use chatgpt_web_gateway.Context.Planner.{
  pending_turn, request_history, validate_pending, fresh, rebuild_history, rebuild,
  append_or_restore, same_instructions, differ, is_blank, pairwise_same, has_prefix, plan_unsynced,
  plan_by_mode, confirmed_prefix, plan_clean, plan_stored, plan_context_sync,
}
use chatgpt_web_gateway.Context.Planner.Turns.{pending_turn-drop, drop_eq_of_length}
use chatgpt_web_gateway.Context.Planner.Pending.{IsTurn, validate_pending_iff}

validated :
    {A : Type 0} (pending prior : List CanonicalMessage) (plan plan' : A)
    → (validate_pending pending prior >> returned plan) ≡ returned plan'
    → IsTurn pending prior × (plan ≡ plan')
validated pending prior plan plan' e =
    let (u, v, r) = bind-eq-returned (validate_pending pending prior) _ _ e in
    ((validate_pending_iff pending prior).0 v, ground arith)

fresh-returned :
    (request : CanonicalConversationRequest) (plan : ContextSyncPlan)
    → fresh request ≡ returned plan
    → (history : List CanonicalMessage) × (pending : List CanonicalMessage) × (plan
        ≡ fresh_plan history pending)
      × (request_history request ≡ returned history)
      × (pending_turn request ≡ returned pending)
      × IsTurn pending history
unfolding fresh
fresh-returned request plan e =
    let (history, h, e1) = bind-eq-returned (request_history request) _ _ e in
    let (pending, p, e2) = bind-eq-returned (pending_turn request) _ _ e1 in
    let (turn, same) = validated pending history _ plan e2 in
    (history, pending, sym same, h, p, turn)

rebuild-returned :
    (reason : RebuildReason) (stored_history : List CanonicalMessage)
    (request : CanonicalConversationRequest) (plan : ContextSyncPlan)
    → rebuild reason stored_history request ≡ returned plan
    → (history : List CanonicalMessage) × (pending : List CanonicalMessage) × (plan
        ≡ rebuild_plan reason history pending)
      × (rebuild_history request.mode stored_history request ≡ returned history)
      × (pending_turn request ≡ returned pending)
      × IsTurn pending history
unfolding rebuild
rebuild-returned reason stored_history request plan e =
    let (pending, p, e1) = bind-eq-returned (pending_turn request) _ _ e in
    let (history, h, e2) =
      bind-eq-returned (rebuild_history request.mode stored_history request) _ _ e1 in
    let (turn, same) = validated pending history _ plan e2 in
    (history, pending, sym same, h, p, turn)

append_or_restore-returned :
    (request : CanonicalConversationRequest) (prior : List CanonicalMessage) (affinity : Bool)
    (plan : ContextSyncPlan)
    → append_or_restore request prior affinity ≡ returned plan
    → (pending : List CanonicalMessage) × (plan
        ≡ (if affinity then append_plan pending else restore_plan pending))
      × (pending_turn request ≡ returned pending)
      × IsTurn pending prior
unfolding append_or_restore
append_or_restore-returned request prior affinity plan e =
    let (pending, p, e1) = bind-eq-returned (pending_turn request) _ _ e in
    let (turn, same) = validated pending prior _ plan e1 in (pending, sym same, p, turn)

-- The transcript that a rebuilt conversation starts with: that of a full request, or else the
-- stored one as far as it is confirmed.
abbrev pub IsRebuilt :
    ConversationRequestMode
    → CanonicalStoredConversation
    → CanonicalConversationRequest
    → List CanonicalMessage
    → Type 0
IsRebuilt full stored request history = request_history request ≡ returned history
IsRebuilt incremental stored request history = Prefix history stored.messages

module _ (d : Digest) where
  -- The stored conversation may go on with the request.
  pub record Continues (stored : CanonicalStoredConversation)
      (request : CanonicalConversationRequest) : Type 0 where
    pub clean_status : stored.status ≡ clean
    pub all_synced : stored.synced_message_count ≡ length stored.messages
    pub url : is_blank stored.conversation_url ≡ false
    pub instructions : same_instructions d stored.instructions request.instructions ≡ true
    pub tools : differ stored.tool_fingerprint request.tool_fingerprint ≡ false

  -- What a continued conversation lacks of the request is its pending turn.
  abbrev pub IsUnsynced :
      ConversationRequestMode
      → CanonicalStoredConversation
      → CanonicalConversationRequest
      → List CanonicalMessage
      → Type 0
  IsUnsynced incremental stored request pending = Unit {0}
  IsUnsynced full stored request pending =
      (length stored.messages ≤ length request.messages)
      × (pairwise_same d stored.messages request.messages ≡ true)
      × (pending ≡ drop (length stored.messages) request.messages)

  -- The three kinds of plan, and when each is made.
  pub data Planned (stored : Option CanonicalStoredConversation)
      (request : CanonicalConversationRequest) (affinity : Bool) (plan : ContextSyncPlan)
      : Type 0 where
    is_fresh :
        (history pending : List CanonicalMessage)
        → stored ≡ none
        → plan ≡ fresh_plan history pending
        → request_history request ≡ returned history
        → pending_turn request ≡ returned pending
        → IsTurn pending history
        → Planned stored request affinity plan
    is_rebuild :
        (s : CanonicalStoredConversation) (reason : RebuildReason)
        (history pending : List CanonicalMessage)
        → stored ≡ some s
        → plan ≡ rebuild_plan reason history pending
        → IsRebuilt request.mode s request history
        → pending_turn request ≡ returned pending
        → IsTurn pending history
        → Planned stored request affinity plan
    is_continued :
        (s : CanonicalStoredConversation) (pending : List CanonicalMessage)
        → stored ≡ some s
        → plan ≡ (if affinity then append_plan pending else restore_plan pending)
        → Continues s request
        → IsUnsynced request.mode s request pending
        → pending_turn request ≡ returned pending
        → IsTurn pending s.messages
        → Planned stored request affinity plan

  module _ (s : CanonicalStoredConversation) (request : CanonicalConversationRequest)
      (affinity : Bool) (plan : ContextSyncPlan) where
    rebuild_history-IsRebuilt :
        (mode : ConversationRequestMode) (stored_history history : List CanonicalMessage)
        → Prefix stored_history s.messages
        → rebuild_history mode stored_history request ≡ returned history
        → IsRebuilt mode s request history
    unfolding rebuild_history
    rebuild_history-IsRebuilt full stored_history history p e = e
    rebuild_history-IsRebuilt incremental stored_history history p e =
        let same : stored_history ≡ history = ground arith in
        subst (λ h. Prefix h s.messages) same p

    rebuild-Planned :
        (reason : RebuildReason) (stored_history : List CanonicalMessage)
        → Prefix stored_history s.messages
        → rebuild reason stored_history request ≡ returned plan
        → Planned (some s) request affinity plan
    rebuild-Planned reason stored_history p e =
        let (history, pending, same, h, q, turn) =
          rebuild-returned reason stored_history request plan e in
        is_rebuild s reason history pending refl same
          (rebuild_history-IsRebuilt request.mode stored_history history p h) q turn

    continue-Planned :
        Continues s request
        → ((pending : List CanonicalMessage)
            → pending_turn request ≡ returned pending
            → IsUnsynced request.mode s request pending)
        → append_or_restore request s.messages affinity ≡ returned plan
        → Planned (some s) request affinity plan
    continue-Planned c unsynced e =
        let (pending, same, q, turn) =
          append_or_restore-returned request s.messages affinity plan e in
        is_continued s pending refl same c (unsynced pending q) q turn

    -- The last guard of a full request.
    plan_unsynced-Planned :
        Continues s request
        → request.mode ≡ full
        → has_prefix d request.messages s.messages ≡ true
        → plan_unsynced d s request affinity ≡ returned plan
        → Planned (some s) request affinity plan
    unfolding plan_unsynced has_prefix
    plan_unsynced-Planned c mode prefix e =
        let unsynced = drop (length s.messages) request.messages in
        let (pending, q, e1) = bind-eq-returned (pending_turn request) _ _ e in
        elim (Bool-cases
          (not (length unsynced == length pending) || not (pairwise_same d unsynced pending))) [
            | inl several ↦
                rebuild-Planned multiple_unsynced_turns s.messages (Prefix-refl s.messages)
                  (ground arith)
            | inr one ↦
                let (start, cut) = pending_turn-drop request pending q in
                let same_length : length unsynced ≡ length (drop start request.messages) =
                  (==_iff (length unsynced) (length pending)).0 (ground arith) ∙ ap length cut in
                let last : pending ≡ unsynced =
                  cut
                  ∙ sym
                      (drop_eq_of_length (length s.messages) start request.messages same_length) in
                let long : length s.messages ≤ length request.messages = ground arith in
                let agrees : pairwise_same d s.messages request.messages ≡ true = ground arith in
                continue-Planned c
                  (λ pending' q'.
                    let same : pending ≡ pending' = ground arith in
                    subst (λ m. IsUnsynced m s request pending') (sym mode)
                      (long, agrees, sym same ∙ last))
                  (ground arith)
          ]

    plan_by_mode-Planned :
        (mode : ConversationRequestMode)
        → Continues s request
        → request.mode ≡ mode
        → plan_by_mode d mode s request affinity ≡ returned plan
        → Planned (some s) request affinity plan
    unfolding plan_by_mode
    plan_by_mode-Planned incremental c m e =
        continue-Planned c (λ pending q. subst (λ x. IsUnsynced x s request pending) (sym m) tt) e
    plan_by_mode-Planned full c m e = elim (Bool-cases (has_prefix d request.messages s.messages)) [
      | inl prefix ↦ plan_unsynced-Planned c m prefix (ground arith)
      | inr diverged ↦
          rebuild-Planned history_diverged s.messages (Prefix-refl s.messages) (ground arith)
    ]

    plan_clean-Planned :
        s.status ≡ clean
        → plan_clean d s request affinity ≡ returned plan
        → Planned (some s) request affinity plan
    unfolding plan_clean confirmed_prefix
    plan_clean-Planned status e =
        let whole = Prefix-refl s.messages in
        elim (Bool-cases (s.synced_message_count == length s.messages)) [
          | inr short ↦
              rebuild-Planned checkpoint_mismatch _ (Prefix-take s.synced_message_count s.messages)
                (ground arith)
          | inl synced ↦ elim (Bool-cases (is_blank s.conversation_url)) [
            | inl blank ↦ rebuild-Planned conversation_url_missing s.messages whole (ground arith)
            | inr url ↦
                elim (Bool-cases (same_instructions d s.instructions request.instructions)) [
                  | inr changed ↦
                      rebuild-Planned instructions_changed s.messages whole (ground arith)
                  | inl instructions ↦
                      elim (Bool-cases (differ s.tool_fingerprint request.tool_fingerprint)) [
                        | inl changed ↦
                            rebuild-Planned tools_changed s.messages whole (ground arith)
                        | inr tools ↦
                            plan_by_mode-Planned request.mode
                              (record {
                                clean_status = status;
                                all_synced = (==_iff _ _).0 synced;
                                url = url;
                                instructions = instructions;
                                tools = tools;
                              })
                              refl (ground arith)
                      ]
                ]
          ]
        ]

    plan_stored-Planned :
        (status : SyncStatus)
        → s.status ≡ status
        → plan_stored d status s request affinity ≡ returned plan
        → Planned (some s) request affinity plan
    unfolding plan_stored confirmed_prefix
    plan_stored-Planned clean q e = plan_clean-Planned q e
    plan_stored-Planned in_flight q e =
        rebuild-Planned checkpoint_uncertain _ (Prefix-take s.synced_message_count s.messages) e

  -- A plan is fresh only with nothing stored; it continues the stored conversation only from a
  -- clean, fully synced checkpoint with a URL and unchanged instructions and tools, and, for a
  -- full request, only if the request is the stored transcript and the pending turn; or else it
  -- rebuilds, from the request's own history if that is full, and from a prefix of the stored
  -- messages if it is not. Each plan sends the request's pending turn, which is a valid turn
  -- after that history.
  pub plan_context_sync-Planned :
      (stored : Option CanonicalStoredConversation) (request : CanonicalConversationRequest)
      (affinity : Bool) (plan : ContextSyncPlan)
      → plan_context_sync d stored request affinity ≡ returned plan
      → Planned stored request affinity plan
  unfolding plan_context_sync
  plan_context_sync-Planned none request affinity plan e =
      let (history, pending, same, h, q, turn) = fresh-returned request plan e in
      is_fresh history pending refl same h q turn
  plan_context_sync-Planned (some s) request affinity plan e =
      plan_stored-Planned s request affinity plan s.status refl e
