-- ===== src/Conversations/RequestContext/Planned.antt =====
-- The planner (src/context/planner.ts) has a plan for what src/conversations/request-context.ts accepts.
use chatgpt_web_gateway.Base.{
  ℕ, zero, suc, ◌-◌, ◌≤◌, ◌≡◌, refl, sym, ap, subst, Bool, true, false, not, Option, none, some,
  List, [], ◌∷◌, ◌++◌, arith, inl, inr, Bool-cases, any, every, length, take, drop,
  take-append-drop, length-drop, ◌==◌,
}
use chatgpt_web_gateway.Base.Results.{returned}
use chatgpt_web_gateway.Text.{Text}
use chatgpt_web_gateway.Context.{
  user, assistant, CanonicalMessage, text_message, multimodal_message, tool_call_message,
  tool_result_message, CanonicalConversationRequest, ConversationRequestMode, incremental, full,
  RebuildReason, fresh_plan, rebuild_plan,
}
use chatgpt_web_gateway.Context.Planner.{
  is_tool, is_user, known_calls, completed_calls, is_user_turn, validate_pending, last_message,
  tool_at, scan_back, start_from, pending_start, pending_turn, request_history, fresh, rebuild,
  rebuild_history, plan_context_sync,
}
use chatgpt_web_gateway.Context.Planner.Turns.{drop-length_pred}
use chatgpt_web_gateway.Context.Planner.Total.{IsReturned}
use chatgpt_web_gateway.Text.Maps.{TextMap}
use chatgpt_web_gateway.Context.Fingerprint.{Json, Digest}
use chatgpt_web_gateway.Conversations.RequestContext.{
  request_mode, to_canonical_phase7_conversation_request,
}
use chatgpt_web_gateway.Conversations.RequestContext.Accepted.{IsAccepted, phase7-IsAccepted}
use chatgpt_web_gateway.Conversations.Normalized.{
  NormalizedRequest, ResolvedAttachmentSemantic, phase7, RequestPhase,
}
use chatgpt_web_gateway.Conversations.RequestTranscript.{transcript_from, tool_only}
use chatgpt_web_gateway.Conversations.RequestContext.Results.{results_pass}
use chatgpt_web_gateway.Conversations.RequestContext.Transcript.{transcript_from-Reached}

drop-tool_at :
    (ms : List CanonicalMessage) (i : ℕ)
    → tool_at ms i ≡ true
    → every is_tool (drop (suc i) ms) ≡ true
    → every is_tool (drop i ms) ≡ true
unfolding tool_at
drop-tool_at [] i t h = cc
drop-tool_at (m ∷ ms) zero t h = ground arith
drop-tool_at (m ∷ ms) (suc i) t h = drop-tool_at ms i t h

-- What the planner goes back over are tool results.
drop-scan_back :
    (ms : List CanonicalMessage) (start : ℕ)
    → every is_tool (drop start ms) ≡ true
    → every is_tool (drop (scan_back ms start) ms) ≡ true
unfolding scan_back
drop-scan_back ms zero h = h
drop-scan_back ms (suc start) h = elim (Bool-cases (tool_at ms start)) [
  | inl t ↦ rw t (drop-scan_back ms start (drop-tool_at ms start t h))
  | inr n ↦ rw n h
]

scan_back_le : (ms : List CanonicalMessage) (start : ℕ) → scan_back ms start ≤ start
unfolding scan_back
scan_back_le ms zero = omega arith
scan_back_le ms (suc start) = ground (arith, scan_back_le ms start)

tools_no_user : (ms : List CanonicalMessage) → every is_tool ms ≡ true → is_user_turn ms ≡ false
unfolding is_user_turn
tools_no_user [] h = refl
tools_no_user (m ∷ n ∷ ms) h = refl
tools_no_user (text_message user t ∷ []) h = cc
tools_no_user (text_message assistant t ∷ []) h = cc
tools_no_user (multimodal_message user t ∷ []) h = cc
tools_no_user (multimodal_message assistant t ∷ []) h = cc
tools_no_user (tool_call_message s t ∷ []) h = cc
tools_no_user (tool_result_message j t ∷ []) h = refl

no_other :
    (ms : List CanonicalMessage) → every is_tool ms ≡ true → any (λ m. not (is_tool m)) ms ≡ false
no_other [] h = refl
no_other (m ∷ ms) h = ground (arith, no_other ms (ground arith))

-- A transcript that is accepted and ends with a tool result: its last results are a turn.
results-validate_pending :
    (phase : RequestPhase) (history pending : List CanonicalMessage)
    → transcript_from phase false false [] [] (history ++ pending) ≡ returned tt
    → every is_tool pending ≡ true
    → (length pending == 0) ≡ false
    → validate_pending pending history ≡ returned tt
unfolding validate_pending
results-validate_pending phase history pending h tools some_result =
    let r = transcript_from-Reached phase false false [] [] history pending h in
    let pass =
      results_pass phase r.previous_tool r.known' r.completed' (known_calls history)
        (completed_calls history) [] pending (λ i. r.knows i) (λ i. ground (arith, r.completes i))
        tools r.rest in
    rw (tools_no_user pending tools, some_result, no_other pending tools) pass

-- The two parts of an accepted request, cut where the planner does.
record IsCut (request : CanonicalConversationRequest) : Type 0 where
  pending : List CanonicalMessage
  history : List CanonicalMessage
  is_pending : pending_turn request ≡ returned pending
  is_history : request_history request ≡ returned history
  valid : validate_pending pending history ≡ returned tt
  valid_of_user :
      (length request.messages == 1) ≡ true
      → (prior : List CanonicalMessage) → validate_pending pending prior ≡ returned tt

user-IsCut :
    (request : CanonicalConversationRequest) (last : CanonicalMessage)
    → last_message request.messages ≡ some last
    → is_user last ≡ true
    → IsCut request
unfolding pending_turn request_history pending_start start_from validate_pending is_user_turn
user-IsCut request last e u =
    let one = drop-length_pred request.messages last e in
    let start : pending_start request ≡ returned (length request.messages - 1) = rw (e, u) refl in
    record {
      pending = last ∷ [];
      history = take (length request.messages - 1) request.messages;
      is_pending = rw start (ap returned one);
      is_history = rw start refl;
      valid = rw u refl;
      valid_of_user = λ o prior. rw u refl;
    }

one_left :
    (n : ℕ) (ms : List CanonicalMessage)
    → n ≤ length ms - 1
    → (length ms == 0) ≡ false
    → (length (drop n ms) == 0) ≡ false
one_left n ms h e = ground (arith, length-drop n ms)

tool-IsCut :
    (phase : RequestPhase) (request : CanonicalConversationRequest) (last : CanonicalMessage)
    → transcript_from phase false false [] [] request.messages ≡ returned tt
    → last_message request.messages ≡ some last
    → is_user last ≡ false
    → is_tool last ≡ true
    → (length request.messages == 0) ≡ false
    → (length request.messages == 1) ≡ false
    → IsCut request
unfolding pending_turn request_history pending_start start_from
tool-IsCut phase request last h e nu t some_message more =
    let one = drop-length_pred request.messages last e in
    let n = scan_back request.messages (length request.messages - 1) in
    let start : pending_start request ≡ returned n = rw (e, nu, t) refl in
    let tools : every is_tool (drop n request.messages) ≡ true =
      drop-scan_back request.messages (length request.messages - 1) (rw (one, t) refl) in
    let left =
      one_left n request.messages (scan_back_le request.messages (length request.messages - 1))
        some_message in
    let whole = take-append-drop n request.messages in
    record {
      pending = drop n request.messages;
      history = take n request.messages;
      is_pending = rw start refl;
      is_history = rw start refl;
      valid =
          results-validate_pending phase (take n request.messages) (drop n request.messages)
            (subst (λ ms. transcript_from phase false false [] [] ms ≡ returned tt) (sym whole) h)
            tools left;
      valid_of_user = λ o prior. cc;
    }

no_messages :
    (ms : List CanonicalMessage) (last : CanonicalMessage)
    → last_message ms ≡ some last
    → (length ms == 0) ≡ false
unfolding last_message
no_messages [] last e = cc
no_messages (m ∷ ms) last e = ground arith

one_message :
    (ms : List CanonicalMessage) (last : CanonicalMessage)
    → last_message ms ≡ some last
    → is_tool last ≡ true
    → tool_only ms ≡ false
    → (length ms == 1) ≡ false
unfolding last_message tool_only
one_message [] last e t o = cc
one_message (m ∷ []) last e t o =
    let same : some m ≡ some last = e in let tool : is_tool m ≡ true = ground arith in ground arith
one_message (m ∷ n ∷ ms) last e t o = ground arith

IsAccepted-IsCut :
    (request : NormalizedRequest) (r : CanonicalConversationRequest)
    → IsAccepted request r
    → tool_only r.messages ≡ false
    → IsCut r
IsAccepted-IsCut request r a some_other = elim (Bool-cases (is_user a.last)) [
  | inl u ↦ user-IsCut r a.last a.ends u
  | inr n ↦
      let role = a.last_role in
      let t : is_tool a.last ≡ true = ground arith in
      tool-IsCut phase7 r a.last
        (subst (λ o. transcript_from phase7 o false [] [] r.messages ≡ returned tt) some_other
          a.transcript)
        a.ends n t (no_messages r.messages a.last a.ends)
        (one_message r.messages a.last a.ends t some_other)
]

IsCut-fresh : (r : CanonicalConversationRequest) → IsCut r → IsReturned (fresh r)
unfolding fresh
IsCut-fresh r c = (fresh_plan c.history c.pending, rw (c.is_history, c.is_pending, c.valid) refl)

IsCut-rebuild_history :
    (r : CanonicalConversationRequest) (stored_history : List CanonicalMessage) (c : IsCut r)
    (mode : ConversationRequestMode)
    → mode ≡ request_mode r.messages
    → tool_only r.messages ≡ false
    → (history : List CanonicalMessage) × (rebuild_history mode stored_history r ≡ returned history)
      × (validate_pending c.pending history ≡ returned tt)
unfolding rebuild_history request_mode
IsCut-rebuild_history r stored_history c full m o = (c.history, c.is_history, c.valid)
IsCut-rebuild_history r stored_history c incremental m o =
    let one : (length r.messages == 1) ≡ true = ground arith in
    (stored_history, refl, c.valid_of_user one stored_history)

IsCut-rebuild :
    (r : CanonicalConversationRequest) (reason : RebuildReason)
    (stored_history : List CanonicalMessage)
    → IsCut r
    → r.mode ≡ request_mode r.messages
    → tool_only r.messages ≡ false
    → IsReturned (rebuild reason stored_history r)
unfolding rebuild
IsCut-rebuild r reason stored_history c m o =
    let (history, h, v) = IsCut-rebuild_history r stored_history c r.mode m o in
    (rebuild_plan reason history c.pending, rw (c.is_pending, h, v) refl)

-- A request that phase 7 accepts, and that is not tool results only, has a plan when nothing is stored,
-- and whenever the planner rebuilds, whatever the reason and the stored history.
pub phase7-IsReturned :
    (parse : Text → Option Json) (compile : Json → Option (Json → Bool)) (d : Digest)
    (hex : d.Hash → Text) (request : NormalizedRequest)
    (resolved : Option (TextMap ResolvedAttachmentSemantic)) (r : CanonicalConversationRequest)
    → to_canonical_phase7_conversation_request parse compile d hex request resolved ≡ returned r
    → tool_only r.messages ≡ false
    → ((affinity : Bool) → IsReturned (plan_context_sync d none r affinity))
      × ((reason : RebuildReason) (stored_history : List CanonicalMessage)
          → IsReturned (rebuild reason stored_history r))
unfolding plan_context_sync
phase7-IsReturned parse compile d hex request resolved r h some_other =
    let a = phase7-IsAccepted parse compile d hex request resolved r h in
    let c = IsAccepted-IsCut request r a some_other in
    (
      (λ affinity. IsCut-fresh r c),
      λ reason stored_history. IsCut-rebuild r reason stored_history c a.has_mode some_other,
    )
