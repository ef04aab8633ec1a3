-- ===== src/Conversations/Engine/Context/Laws.antt =====
-- What src/conversations/conversation-engine.ts saves and writes into a prompt, against what the planner
-- (src/context/planner.ts) makes of the web conversation.
use chatgpt_web_gateway.Base.{
  ℕ, zero, suc, ◌-◌, ◌≡◌, refl, sym, ap, subst, inl, inr, Bool, true, false, Option, none, some,
  List, [], ◌∷◌, ◌++◌, arith, Bool-cases, length, take, drop, take-append-drop, length-drop, ◌==◌,
  if◌then◌else◌,
}
use chatgpt_web_gateway.Base.Results.{returned}
use chatgpt_web_gateway.Context.{
  CanonicalMessage, CanonicalConversationRequest, ConversationRequestMode, incremental, full,
  CanonicalStoredConversation, ContextSyncPlan, append_plan, restore_plan,
}
use chatgpt_web_gateway.Context.Fingerprint.{Digest}
use chatgpt_web_gateway.Context.Planner.{
  is_tool, is_user, last_message, start_from, pending_start, pending_turn, plan_context_sync,
}
use chatgpt_web_gateway.Context.Planner.Turns.{pending_turn-drop}
use chatgpt_web_gateway.Context.Planner.Pending.{IsTurn}
use chatgpt_web_gateway.Context.Planner.Modes.{
  Planned, IsUnsynced, is_fresh, is_rebuild, is_continued, plan_context_sync-Planned,
}
use chatgpt_web_gateway.Context.Planner.Transcript.{
  web_messages, SameTranscript, SameTranscript-of_eq, SameTranscript-of_unsynced,
}
use chatgpt_web_gateway.Conversations.Engine.Context.{
  pending_of, slice_before_last, confirmed_messages, continued_history, context_history,
  continued_messages, authoritative_messages, length_to_last, request_history_length,
}

length_to_last-start_from :
    (messages : List CanonicalMessage) (last : Option CanonicalMessage) (start : ℕ)
    → start_from messages last ≡ returned start
    → length_to_last messages last ≡ start
unfolding start_from length_to_last
length_to_last-start_from messages none start h = cc
length_to_last-start_from messages (some last) start h = elim (Bool-cases (is_user last)) [
  | inl u ↦ ground arith
  | inr n ↦ elim (Bool-cases (is_tool last)) [ inl t ↦ ground arith | inr o ↦ ground arith ]
]

-- The engine counts the history of a request as the planner cuts it.
pub request_history_length-pending_start :
    (request : CanonicalConversationRequest) (start : ℕ)
    → pending_start request ≡ returned start
    → request_history_length request ≡ start
unfolding pending_start request_history_length
request_history_length-pending_start request start h =
    length_to_last-start_from request.messages (last_message request.messages) start h

turn_not_empty :
    (pending prior : List CanonicalMessage) → IsTurn pending prior → (length pending == 0) ≡ false
turn_not_empty [] prior (inl (m, e, r)) = absurd (ground (arith, e))
turn_not_empty [] prior (inr t) = absurd (t.some_result refl)
turn_not_empty (m ∷ ms) prior t = ground arith

before_last-append :
    (start : ℕ) (ms : List CanonicalMessage)
    → (length (drop start ms) == 0) ≡ false
    → slice_before_last (length (drop start ms)) ms ++ drop start ms ≡ ms
unfolding slice_before_last
before_last-append start ms some_message =
    let at : length ms - length (drop start ms) ≡ start = ground (arith, length-drop start ms) in
    rw (some_message, at) (take-append-drop start ms)

continued_append :
    (mode : ConversationRequestMode) (request : CanonicalConversationRequest)
    (pending : List CanonicalMessage) (stored : Option CanonicalStoredConversation)
    → pending_turn request ≡ returned pending
    → (length pending == 0) ≡ false
    → continued_history mode request pending stored ++ pending
      ≡ continued_messages mode request pending stored
unfolding continued_history continued_messages
continued_append incremental request pending stored p some_message = refl
continued_append full request pending stored p some_message =
    let (start, e) = pending_turn-drop request pending p in
    rw e (
      before_last-append start request.messages
        (subst (λ ms. (length ms == 0) ≡ false) e some_message))

-- The history that a prompt is built from, and the pending turn, are the messages that are saved.
pub context_history-append-pending :
    (d : Digest) (stored : Option CanonicalStoredConversation)
    (request : CanonicalConversationRequest) (affinity : Bool) (plan : ContextSyncPlan)
    → plan_context_sync d stored request affinity ≡ returned plan
    → context_history request plan stored ++ pending_of plan
      ≡ authoritative_messages request plan stored
unfolding context_history authoritative_messages pending_of
context_history-append-pending d stored request affinity plan h =
    cut (plan_context_sync-Planned d stored request affinity plan h)
  where
    agrees : ContextSyncPlan → Type 0
    agrees p =
        context_history request p stored ++ pending_of p ≡ authoritative_messages request p stored

    kept :
        (a : Bool) (pending : List CanonicalMessage)
        → pending_turn request ≡ returned pending
        → (length pending == 0) ≡ false
        → agrees (if a then append_plan pending else restore_plan pending)
    kept true pending p m = continued_append request.mode request pending stored p m
    kept false pending p m = continued_append request.mode request pending stored p m

    cut : Planned d stored request affinity plan → agrees plan
    cut (is_fresh history pending none_stored same h q turn) = rw same refl
    cut (is_rebuild s reason history pending some_stored same h q turn) = rw same refl
    cut (is_continued s pending some_stored same c unsynced q turn) =
        subst agrees (sym same) (kept affinity pending q (turn_not_empty pending s.messages turn))

take-all : (n : ℕ) (ms : List CanonicalMessage) → n ≡ length ms → take n ms ≡ ms
take-all n [] e = rw e refl
take-all zero (m ∷ ms) e = absurd (omega arith)
take-all (suc n) (m ∷ ms) e = ap (λ l. m ∷ l) (take-all n ms (omega arith))

module _ (d : Digest) where
  continued_same :
      (mode : ConversationRequestMode) (request : CanonicalConversationRequest)
      (pending : List CanonicalMessage) (s : CanonicalStoredConversation)
      → s.synced_message_count ≡ length s.messages
      → IsUnsynced d mode s request pending
      → SameTranscript d (s.messages ++ pending) (continued_messages mode request pending (some s))
  unfolding continued_messages confirmed_messages
  continued_same incremental request pending s synced u =
      SameTranscript-of_eq d _ _
        (ap (λ l. l ++ pending) (sym (take-all s.synced_message_count s.messages synced)))
  continued_same full request pending s synced (long, agrees, last) =
      rw last (SameTranscript-of_unsynced d s.messages request.messages long agrees)

  -- What is saved of a turn is, message by message up to fingerprints, what the web conversation holds
  -- before the answer.
  pub authoritative-SameTranscript :
      (stored : Option CanonicalStoredConversation) (request : CanonicalConversationRequest)
      (affinity : Bool) (plan : ContextSyncPlan)
      → plan_context_sync d stored request affinity ≡ returned plan
      → SameTranscript d (web_messages stored plan) (authoritative_messages request plan stored)
  unfolding authoritative_messages
  authoritative-SameTranscript stored request affinity plan h =
      saved (plan_context_sync-Planned d stored request affinity plan h)
    where
      IsSaved : Option CanonicalStoredConversation → ContextSyncPlan → Type 0
      IsSaved s p = SameTranscript d (web_messages s p) (authoritative_messages request p s)

      kept :
          (a : Bool) (s : CanonicalStoredConversation) (pending : List CanonicalMessage)
          → s.synced_message_count ≡ length s.messages
          → IsUnsynced d request.mode s request pending
          → IsSaved (some s) (if a then append_plan pending else restore_plan pending)
      kept true s pending e u = continued_same request.mode request pending s e u
      kept false s pending e u = continued_same request.mode request pending s e u

      saved : Planned d stored request affinity plan → IsSaved stored plan
      saved (is_fresh history pending none_stored same h q turn) =
          subst (IsSaved stored) (sym same)
            (SameTranscript-of_eq d (history ++ pending) (history ++ pending) refl)
      saved (is_rebuild s reason history pending some_stored same h q turn) =
          subst (IsSaved stored) (sym same)
            (SameTranscript-of_eq d (history ++ pending) (history ++ pending) refl)
      saved (is_continued s pending some_stored same c unsynced q turn) =
          subst (λ o. IsSaved o plan) (sym some_stored)
            (subst (IsSaved (some s)) (sym same) (kept affinity s pending c.all_synced unsynced))
