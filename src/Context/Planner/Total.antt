-- ===== src/Context/Planner/Total.antt =====
-- src/context/planner.ts makes a plan for every request that ends with a user message, and
-- continues the stored conversation whenever it may.
use chatgpt_web_gateway.Base.{
  ◌≡◌, refl, ap, ◌∙◌, Bool, true, false, not, Option, none, some, List, [], ◌∷◌, arith, length,
  drop, ◌==◌, ==_refl, ltb, if◌then◌else◌,
}
use chatgpt_web_gateway.Base.Results.{Result, returned}
use chatgpt_web_gateway.Context.{
  CanonicalMessage, CanonicalConversationRequest, CanonicalStoredConversation,
  ConversationRequestMode, full, incremental, fresh_plan, append_plan, restore_plan, rebuild_plan,
  SyncStatus, clean, in_flight, RebuildReason, checkpoint_mismatch, conversation_url_missing,
  instructions_changed, tools_changed,
}
use chatgpt_web_gateway.Context.Fingerprint.{Digest}
use chatgpt_web_gateway.Context.Planner.{
  PlanningError, is_user, last_message, pending_turn, validate_pending, fresh, rebuild_history,
  rebuild, append_or_restore, same_instructions, differ, is_blank, pairwise_same, has_prefix,
  plan_unsynced, plan_by_mode, plan_clean, confirmed_prefix, plan_stored, plan_context_sync,
}
use chatgpt_web_gateway.Context.Planner.Turns.{request_history_of_pending, pending_turn_of_user}
use chatgpt_web_gateway.Context.Planner.Pending.{IsTurn, validate_pending_iff}
use chatgpt_web_gateway.Context.Planner.Modes.{Continues, IsUnsynced}
use chatgpt_web_gateway.Context.Planner.Transcript.{pairwise_same_self}

abbrev pub IsReturned : {A : Type 0} → Result PlanningError A → Type 0
IsReturned {A} r = (a : A) × (r ≡ returned a)

IsReturned-if :
    {A : Type 0} (b : Bool) (x y : Result PlanningError A)
    → IsReturned x
    → IsReturned y
    → IsReturned (if b then x else y)
IsReturned-if true x y hx hy = hx
IsReturned-if false x y hx hy = hy

module _ (request : CanonicalConversationRequest) (last : CanonicalMessage)
    (ends : last_message request.messages ≡ some last) (user : is_user last ≡ true) where
  validate_pending_user :
      (prior : List CanonicalMessage) → validate_pending (last ∷ []) prior ≡ returned tt
  unfolding validate_pending
  validate_pending_user prior = rw user

  rebuild_history-IsReturned :
      (mode : ConversationRequestMode) (stored_history : List CanonicalMessage)
      → IsReturned (rebuild_history mode stored_history request)
  unfolding rebuild_history
  rebuild_history-IsReturned full stored_history =
      request_history_of_pending request (last ∷ []) (pending_turn_of_user request last ends user)
  rebuild_history-IsReturned incremental stored_history = (stored_history, refl)

  fresh-IsReturned : IsReturned (fresh request)
  unfolding fresh
  fresh-IsReturned =
      let pending = pending_turn_of_user request last ends user in
      let (history, h) = request_history_of_pending request (last ∷ []) pending in
      (fresh_plan history (last ∷ []), rw (h, pending, validate_pending_user history))

  rebuild-IsReturned :
      (reason : RebuildReason) (stored_history : List CanonicalMessage)
      → IsReturned (rebuild reason stored_history request)
  unfolding rebuild
  rebuild-IsReturned reason stored_history =
      let pending = pending_turn_of_user request last ends user in
      let (history, h) = rebuild_history-IsReturned request.mode stored_history in
      (rebuild_plan reason history (last ∷ []), rw (pending, h, validate_pending_user history))

  append_or_restore-IsReturned :
      (prior : List CanonicalMessage) (affinity : Bool)
      → IsReturned (append_or_restore request prior affinity)
  unfolding append_or_restore
  append_or_restore-IsReturned prior affinity =
      let pending = pending_turn_of_user request last ends user in
      (
        (if affinity then append_plan (last ∷ []) else restore_plan (last ∷ [])),
        rw (pending, validate_pending_user prior),
      )

  module _ (d : Digest) (s : CanonicalStoredConversation) (affinity : Bool) where
    plan_unsynced-IsReturned : IsReturned (plan_unsynced d s request affinity)
    unfolding plan_unsynced
    plan_unsynced-IsReturned =
        rw (pending_turn_of_user request last ends user)
          (IsReturned-if _ _ _ (rebuild-IsReturned _ _) (append_or_restore-IsReturned _ _))

    plan_by_mode-IsReturned :
        (mode : ConversationRequestMode) → IsReturned (plan_by_mode d mode s request affinity)
    unfolding plan_by_mode
    plan_by_mode-IsReturned incremental = append_or_restore-IsReturned _ _
    plan_by_mode-IsReturned full =
        IsReturned-if _ _ _ (rebuild-IsReturned _ _) plan_unsynced-IsReturned

    plan_stored-IsReturned :
        (status : SyncStatus) → IsReturned (plan_stored d status s request affinity)
    unfolding plan_stored plan_clean
    plan_stored-IsReturned in_flight = rebuild-IsReturned _ _
    plan_stored-IsReturned clean =
        let whole = λ (reason : RebuildReason). rebuild-IsReturned reason s.messages in
        IsReturned-if (not (s.synced_message_count == length s.messages)) _ _
          (rebuild-IsReturned checkpoint_mismatch (confirmed_prefix d s))
          (IsReturned-if (is_blank s.conversation_url) _ _ (whole conversation_url_missing) (
            IsReturned-if (not (same_instructions d s.instructions request.instructions)) _ _
              (whole instructions_changed)
              (IsReturned-if (differ s.tool_fingerprint request.tool_fingerprint) _ _
                (whole tools_changed) (plan_by_mode-IsReturned request.mode))))

-- Every request that ends with a user message gets a plan.
pub plan_context_sync-IsReturned :
    (d : Digest) (stored : Option CanonicalStoredConversation)
    (request : CanonicalConversationRequest) (affinity : Bool) (last : CanonicalMessage)
    → last_message request.messages ≡ some last
    → is_user last ≡ true
    → IsReturned (plan_context_sync d stored request affinity)
unfolding plan_context_sync
plan_context_sync-IsReturned d none request affinity last ends user =
    fresh-IsReturned request last ends user
plan_context_sync-IsReturned d (some s) request affinity last ends user =
    plan_stored-IsReturned request last ends user d s affinity s.status

module _ (d : Digest) (s : CanonicalStoredConversation) (request : CanonicalConversationRequest)
    (affinity : Bool) (pending : List CanonicalMessage)
    (turn : pending_turn request ≡ returned pending) (valid : IsTurn pending s.messages) where
  append_or_restore_lem :
      append_or_restore request s.messages affinity
      ≡ returned (if affinity then append_plan pending else restore_plan pending)
  unfolding append_or_restore
  append_or_restore_lem = rw (turn, (validate_pending_iff pending s.messages).1 valid)

  plan_by_mode_lem :
      (mode : ConversationRequestMode)
      → IsUnsynced d mode s request pending
      → plan_by_mode d mode s request affinity
        ≡ returned (if affinity then append_plan pending else restore_plan pending)
  unfolding plan_by_mode plan_unsynced has_prefix
  plan_by_mode_lem incremental u = append_or_restore_lem
  plan_by_mode_lem full (long, agrees, last) =
      let unsynced = drop (length s.messages) request.messages in
      let as_long : (length unsynced == length pending) ≡ true =
        rw last (==_refl (length unsynced)) in
      let same : pairwise_same d unsynced pending ≡ true =
        rw last (pairwise_same_self d unsynced) in
      let not_short : ltb (length request.messages) (length s.messages) ≡ false = ground arith in
      rw (not_short, agrees, turn, as_long, same) append_or_restore_lem

  -- A stored conversation that may go on with the request, whose pending turn is valid after it,
  -- is continued: appended to on its page if it has one, else restored.
  pub plan_context_sync-Continues :
      Continues d s request
      → IsUnsynced d request.mode s request pending
      → plan_context_sync d (some s) request affinity
        ≡ returned (if affinity then append_plan pending else restore_plan pending)
  unfolding plan_context_sync plan_stored plan_clean
  plan_context_sync-Continues c u =
      let synced : (s.synced_message_count == length s.messages) ≡ true =
        rw c.all_synced (==_refl (length s.messages)) in
      let guarded : plan_clean d s request affinity
          ≡ plan_by_mode d request.mode s request affinity =
        rw (synced, c.url, c.instructions, c.tools) in
      ap (λ status. plan_stored d status s request affinity) c.clean_status
      ∙ guarded
      ∙ plan_by_mode_lem request.mode u
