-- ===== src/Context/Planner/Transcript.antt =====
-- What the web conversation holds after a plan of src/context/planner.ts, when the plan continues
-- the stored conversation, and when there is a plan at all.
use chatgpt_web_gateway.Base.{
  ◌≤◌, ◌≡◌, refl, subst, Bool, true, false, Option, none, some, List, [], ◌∷◌, ◌++◌, arith, length,
  drop, length-append, length-drop, if◌then◌else◌,
}
use chatgpt_web_gateway.Base.Results.{returned}
use chatgpt_web_gateway.Context.{
  CanonicalMessage, CanonicalConversationRequest, CanonicalStoredConversation, full,
  ContextSyncPlan, fresh_plan, append_plan, restore_plan, rebuild_plan,
}
use chatgpt_web_gateway.Context.Fingerprint.{Digest}
use chatgpt_web_gateway.Context.Multimodal.{fingerprint_canonical_message}
use chatgpt_web_gateway.Context.Planner.{same_message, pairwise_same, plan_context_sync}
use chatgpt_web_gateway.Context.Planner.Turns.{history-append-pending}
use chatgpt_web_gateway.Context.Planner.Modes.{
  IsRebuilt, IsUnsynced, Planned, is_fresh, is_rebuild, is_continued, plan_context_sync-Planned,
}

-- The messages of the web conversation after a plan: a continued one holds the stored messages.
abbrev pub web_messages :
    Option CanonicalStoredConversation → ContextSyncPlan → List CanonicalMessage
web_messages stored (fresh_plan history pending) = history ++ pending
web_messages stored (rebuild_plan reason history pending) = history ++ pending
web_messages none (append_plan pending) = pending
web_messages none (restore_plan pending) = pending
web_messages (some s) (append_plan pending) = s.messages ++ pending
web_messages (some s) (restore_plan pending) = s.messages ++ pending

module _ (d : Digest) where
  -- Two transcripts of one length whose messages have the same fingerprints.
  abbrev pub SameTranscript : List CanonicalMessage → List CanonicalMessage → Type 0
  SameTranscript xs ys = (length xs ≡ length ys) × (pairwise_same d xs ys ≡ true)

  pub pairwise_same_self : (ms : List CanonicalMessage) → pairwise_same d ms ms ≡ true
  unfolding pairwise_same same_message
  pairwise_same_self [] = refl
  pairwise_same_self (m ∷ ms) =
      let here =
        (d.same_hash_iff (fingerprint_canonical_message d m) (fingerprint_canonical_message d m)).1
          refl in
      rw (here, pairwise_same_self ms)

  pairwise_same-append :
      (xs ms : List CanonicalMessage)
      → pairwise_same d xs ms ≡ true
      → pairwise_same d (xs ++ drop (length xs) ms) ms ≡ true
  unfolding pairwise_same
  pairwise_same-append [] ms h = pairwise_same_self ms
  pairwise_same-append (x ∷ xs) [] h = cc
  pairwise_same-append (x ∷ xs) (m ∷ ms) h = ground (arith, pairwise_same-append xs ms)

  pub SameTranscript-of_eq : (xs ys : List CanonicalMessage) → xs ≡ ys → SameTranscript xs ys
  SameTranscript-of_eq xs ys e = subst (SameTranscript xs) e (refl, pairwise_same_self xs)

  pub SameTranscript-of_unsynced :
      (xs ms : List CanonicalMessage)
      → length xs ≤ length ms
      → pairwise_same d xs ms ≡ true
      → SameTranscript (xs ++ drop (length xs) ms) ms
  SameTranscript-of_unsynced xs ms long agrees = (
    omega (arith, length-append {0} xs (drop (length xs) ms), length-drop {0} (length xs) ms),
    pairwise_same-append xs ms agrees,
  )

  Planned-SameTranscript :
      (stored : Option CanonicalStoredConversation) (request : CanonicalConversationRequest)
      (affinity : Bool) (plan : ContextSyncPlan)
      → request.mode ≡ full
      → Planned d stored request affinity plan
      → SameTranscript (web_messages stored plan) request.messages
  Planned-SameTranscript stored request affinity plan mode
        (is_fresh history pending none_stored same h q turn) =
      rw same (SameTranscript-of_eq _ _ (history-append-pending request history pending h q))
  Planned-SameTranscript stored request affinity plan mode
        (is_rebuild s reason history pending some_stored same h q turn) =
      let own = subst (λ m. IsRebuilt m s request history) mode h in
      rw same (SameTranscript-of_eq _ _ (history-append-pending request history pending own q))
  Planned-SameTranscript stored request affinity plan mode
        (is_continued s pending some_stored same c unsynced q turn) =
      let (long, agrees, last) = subst (λ m. IsUnsynced d m s request pending) mode unsynced in
      rw (some_stored, same) (continued affinity last long agrees)
    where
      continued :
          (a : Bool)
          → pending ≡ drop (length s.messages) request.messages
          → length s.messages ≤ length request.messages
          → pairwise_same d s.messages request.messages ≡ true
          → SameTranscript
              (web_messages (some s) (if a then append_plan pending else restore_plan pending))
              request.messages
      continued true last long agrees =
          rw last (SameTranscript-of_unsynced s.messages request.messages long agrees)
      continued false last long agrees =
          rw last (SameTranscript-of_unsynced s.messages request.messages long agrees)

  -- Whatever the plan for a full request, the web conversation holds the request's transcript once
  -- it is carried out: as many messages, and message by message the same fingerprints.
  pub plan-SameTranscript :
      (stored : Option CanonicalStoredConversation) (request : CanonicalConversationRequest)
      (affinity : Bool) (plan : ContextSyncPlan)
      → request.mode ≡ full
      → plan_context_sync d stored request affinity ≡ returned plan
      → SameTranscript (web_messages stored plan) request.messages
  plan-SameTranscript stored request affinity plan mode e =
      Planned-SameTranscript stored request affinity plan mode
        (plan_context_sync-Planned d stored request affinity plan e)
