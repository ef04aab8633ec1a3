-- ===== src/Conversations/RequestContext/Results.antt =====
-- The results in a transcript that src/conversations/request-context.ts accepts.
use mathlib.Core.Logic.Or
use mathlib.Core.List.{Mem, mem-cons, Nodup, Nodup-cons, Nodup-nil, not-mem-nil}
use chatgpt_web_gateway.Base.{
  ◌≡◌, refl, sym, ap, ◌∙◌, subst, Bool, true, false, not, ◌&&◌, ◌||◌, List, [], ◌∷◌, ◌++◌, arith,
  every, All,
}
use chatgpt_web_gateway.Base.Results.{returned, ◌>>◌}
use chatgpt_web_gateway.Text.{Text, text_eq}
use chatgpt_web_gateway.Text.Laws.{text_eq_refl}
use chatgpt_web_gateway.Text.Sets.{has, Mem_of_has, not_mem_of_has}
use chatgpt_web_gateway.Context.{
  user, assistant, CanonicalMessage, text_message, multimodal_message, tool_call_message,
  tool_result_message,
}
use chatgpt_web_gateway.Context.Planner.{is_tool, known_calls, completed_calls, check_results}
use chatgpt_web_gateway.Conversations.Normalized.{
  RequestPhase, invalid_conversation_request, throw_if,
}
use chatgpt_web_gateway.Conversations.RequestTranscript.{
  known_after, completed_after, transcript_from,
}
use chatgpt_web_gateway.Conversations.RequestContext.Transcript.{
  throw_if_then, Taken, transcript_from-Taken, transcript_from-Reached,
}

-- Pending results that the loop takes pass the planner's loop.
pub results_pass :
    (phase : RequestPhase) (previous_tool : Bool) (k c known completed seen : List Text)
    (ms : List CanonicalMessage)
    → ((i : Text) → has k i ≡ has known i)
    → ((i : Text) → has c i ≡ (has completed i || has seen i))
    → every is_tool ms ≡ true
    → transcript_from phase false previous_tool k c ms ≡ returned tt
    → check_results known completed seen ms ≡ returned tt
unfolding check_results known_after completed_after
results_pass phase previous_tool k c known completed seen [] hk hc a h = refl
results_pass phase previous_tool k c known completed seen (text_message user t ∷ ms) hk hc a h = cc
results_pass phase previous_tool k c known completed seen (text_message assistant t ∷ ms) hk hc a
      h =
    cc
results_pass phase previous_tool k c known completed seen (multimodal_message user t ∷ ms) hk hc a
      h =
    cc
results_pass phase previous_tool k c known completed seen (multimodal_message assistant t ∷ ms) hk
      hc a h =
    cc
results_pass phase previous_tool k c known completed seen (tool_call_message s t ∷ ms) hk hc a h =
    cc
results_pass phase previous_tool k c known completed seen (tool_result_message j t ∷ ms) hk hc a h =
    let step = transcript_from-Taken phase false previous_tool k c (tool_result_message j t) ms h in
    let same : k ≡ step.known' = ground (arith, step.knows) in
    let (new, more) =
      throw_if_then (has c j) (invalid_conversation_request phase)
        (throw_if (not (has step.known' j) && not false) (invalid_conversation_request phase)
          >> returned (j ∷ c))
        step.completed' step.completes in
    let (called, last) =
      throw_if_then (not (has step.known' j) && not false) (invalid_conversation_request phase)
        (returned (j ∷ c)) step.completed' more in
    let added : j ∷ c ≡ step.completed' = ground (arith, last) in
    let is_known : has known j ≡ true = ground (arith, hk j, ap (λ x. has x j) same, called) in
    let rest =
      results_pass phase true step.known' step.completed' known completed (j ∷ seen) ms
        (λ i. ap (λ x. has x i) (sym same) ∙ hk i)
        (λ i.
          ap (λ x. has x i) (sym added)
          ∙ ap (λ b. text_eq i j || b) (hc i)
          ∙ or_swap (text_eq i j) (has completed i) (has seen i))
        (ground arith) step.rest in
    ground (arith, hc j, new, is_known, rest)
  where
    or_swap : (a b c : Bool) → (a || (b || c)) ≡ (b || (a || c))
    or_swap true true c = refl
    or_swap true false c = refl
    or_swap false b c = refl

All-fresh :
    (j : Text) (completed names : List Text)
    → All (λ i. has (j ∷ completed) i ≡ false) names
    → (¬ Mem j names) × All (λ i. has completed i ≡ false) names
All-fresh j completed [] h = ((λ m. not-mem-nil m), tt)
All-fresh j completed (n ∷ ns) (p, h) =
    let (new, rest) = All-fresh j completed ns h in
    let self = text_eq_refl n in
    (
      (λ m.
          Or.elim (λ x y. absurd x) (mem-cons.0 m)
            (λ e. let other : text_eq n j ≡ true = ap (text_eq n) e ∙ self in ground arith) new),
      (ground arith, rest),
    )

result_taken :
    (phase : RequestPhase) (only : Bool) (known completed : List Text) (j t : Text)
    (completed' : List Text)
    → completed_after phase only known completed (tool_result_message j t) ≡ returned completed'
    → (has completed j ≡ false) × (completed' ≡ j ∷ completed)
unfolding completed_after throw_if
result_taken phase only known completed j t c' h = (ground arith, ground arith)

result_called :
    (phase : RequestPhase) (known completed : List Text) (j t : Text) (completed' : List Text)
    → completed_after phase false known completed (tool_result_message j t) ≡ returned completed'
    → has known j ≡ true
unfolding completed_after throw_if
result_called phase known completed j t c' h = ground arith

known_same :
    (phase : RequestPhase) (known : List Text) (j t : Text) (known' : List Text)
    → known_after phase known (tool_result_message j t) ≡ returned known'
    → known ≡ known'
unfolding known_after
known_same phase known j t k' h = ground arith

-- A message that is no result completes nothing.
kept :
    (phase : RequestPhase) (only : Bool) {previous_tool : Bool} (known completed : List Text)
    (m : CanonicalMessage) (ms : List CanonicalMessage)
    (t : Taken phase only previous_tool known completed m ms)
    → completed_after phase only t.known' completed m ≡ returned completed
    → Nodup (completed_calls ms) × All (λ i. has t.completed' i ≡ false) (completed_calls ms)
    → Nodup (completed_calls ms) × All (λ i. has completed i ≡ false) (completed_calls ms)
kept phase only known completed m ms t e (d, a) =
    let one = t.completes in
    let same : t.completed' ≡ completed = ground arith in
    (d, subst (λ c. All (λ i. has c i ≡ false) (completed_calls ms)) same a)

-- No call has two results, and none has one from before.
pub completed_calls-Nodup :
    (phase : RequestPhase) (only previous_tool : Bool) (known completed : List Text)
    (ms : List CanonicalMessage)
    → transcript_from phase only previous_tool known completed ms ≡ returned tt
    → Nodup (completed_calls ms) × All (λ i. has completed i ≡ false) (completed_calls ms)
unfolding completed_calls completed_after
completed_calls-Nodup phase only previous_tool known completed [] h = (Nodup-nil, tt)
completed_calls-Nodup phase only previous_tool known completed (text_message s t ∷ ms) h =
    let taken =
      transcript_from-Taken phase only previous_tool known completed (text_message s t) ms h in
    kept phase only known completed (text_message s t) ms taken refl
      (completed_calls-Nodup phase only _ taken.known' taken.completed' ms taken.rest)
completed_calls-Nodup phase only previous_tool known completed (multimodal_message s t ∷ ms) h =
    let taken =
      transcript_from-Taken phase only previous_tool known completed (multimodal_message s t) ms
        h in
    kept phase only known completed (multimodal_message s t) ms taken refl
      (completed_calls-Nodup phase only _ taken.known' taken.completed' ms taken.rest)
completed_calls-Nodup phase only previous_tool known completed (tool_call_message s t ∷ ms) h =
    let taken =
      transcript_from-Taken phase only previous_tool known completed (tool_call_message s t) ms h in
    kept phase only known completed (tool_call_message s t) ms taken refl
      (completed_calls-Nodup phase only _ taken.known' taken.completed' ms taken.rest)
completed_calls-Nodup phase only previous_tool known completed (tool_result_message j t ∷ ms) h =
    let taken =
      transcript_from-Taken phase only previous_tool known completed (tool_result_message j t) ms
        h in
    let (d, a) =
      completed_calls-Nodup phase only true taken.known' taken.completed' ms taken.rest in
    let (new, added) =
      result_taken phase only taken.known' completed j t taken.completed' taken.completes in
    let (other, rest) =
      All-fresh j completed (completed_calls ms)
        (subst (λ c. All (λ i. has c i ≡ false) (completed_calls ms)) added a) in
    (Nodup-cons.1 (other, d), (new, rest))

-- A result answers a call that came before it and that no result has answered.
pub result-Mem :
    (phase : RequestPhase) (xs ys : List CanonicalMessage) (j t : Text)
    → transcript_from phase false false [] [] (xs ++ (tool_result_message j t ∷ ys)) ≡ returned tt
    → Mem j (known_calls xs) × (¬ Mem j (completed_calls xs))
result-Mem phase xs ys j t h =
    let r = transcript_from-Reached phase false false [] [] xs (tool_result_message j t ∷ ys) h in
    let taken =
      transcript_from-Taken phase false r.previous_tool r.known' r.completed'
        (tool_result_message j t) ys r.rest in
    let same : r.known' ≡ taken.known' = known_same phase r.known' j t taken.known' taken.knows in
    let called =
      result_called phase taken.known' r.completed' j t taken.completed' taken.completes in
    let (new, _) =
      result_taken phase false taken.known' r.completed' j t taken.completed' taken.completes in
    (
      Mem_of_has (known_calls xs) j (ground (arith, r.knows j, ap (λ x. has x j) same, called)),
      not_mem_of_has (completed_calls xs) j (ground (arith, r.completes j, new)),
    )
