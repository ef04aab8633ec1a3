-- ===== src/Conversations/Queue/Progress.antt =====
-- No line of src/conversations/conversation-queue.ts stalls.
use chatgpt_web_gateway.Base.{
  ℕ, ◌≡◌, refl, sym, ap, ◌∙◌, subst, true, some, List, [], ◌∷◌, inl, inr,
}
use chatgpt_web_gateway.Text.{Text}
use chatgpt_web_gateway.Conversations.Queue.{
  Outcome, success, failure, fulfilled, current_of, tail_of, waiting, running, settled, Job,
  ConversationQueue, create_conversation_queue, find, is_ready, begin_work, settle_work, Step,
  begins, settles, Reach, here, next,
}
use chatgpt_web_gateway.Conversations.Queue.Line.{line}
use chatgpt_web_gateway.Conversations.Queue.Fifo.{lines, Leaves-own, queue-FifoStep}
use chatgpt_web_gateway.Conversations.Queue.Ordered.{Reach-IsOrdered}
use chatgpt_web_gateway.Conversations.Queue.Heads.{IsAble, line-IsAble, find-number, find-set_phase}

-- Whoever heads the line, if anyone does, runs or may begin.
abbrev pub HeadIsAble : List ℕ → Text → List Job → Type 0
HeadIsAble [] key js = Unit
HeadIsAble (n ∷ rest) key js = (j : Job) × IsAble n key js j

line-HeadIsAble :
    (key : Text) (q : ConversationQueue) (ns : List ℕ)
    → Reach create_conversation_queue q
    → line key q.jobs ≡ ns
    → HeadIsAble ns key q.jobs
line-HeadIsAble key q [] r h = tt
line-HeadIsAble key q (n ∷ rest) r h =
    let (j, able, _) = line-IsAble key n rest q.jobs (Reach-IsOrdered r).chained h in (j, able)

-- The queue goes on to a state in which the work at the head has settled with the outcome, its tail is
-- fulfilled, it has left the line, and the work behind it runs or may begin.
pub record Serves (q : ConversationQueue) (key : Text) (n : ℕ) (rest : List ℕ) (outcome : Outcome)
    : Type 0 where
  pub later : ConversationQueue
  pub reached : Reach q later
  pub settled_so : (j : Job) × (find n later.jobs ≡ some j) × (j.phase ≡ settled outcome)
  pub tail_done : tail_of (current_of (settled outcome)) ≡ fulfilled
  pub own : line key later.jobs ≡ rest
  pub behind : HeadIsAble rest key later.jobs

Reach-step : {q r s : ConversationQueue} → Step q r → Reach r s → Reach q s
Reach-step s here = next here s
Reach-step s (next r t) = next (Reach-step s r) t

-- The tail is fulfilled in both cases.
tail_of_settled : (outcome : Outcome) → tail_of (current_of (settled outcome)) ≡ fulfilled
unfolding tail_of current_of
tail_of_settled success = refl
tail_of_settled failure = refl

-- The head's work runs.
running-Serves :
    (q : ConversationQueue) (j : Job) (rest : List ℕ) (outcome : Outcome)
    → Reach create_conversation_queue q
    → line j.key q.jobs ≡ j.number ∷ rest
    → find j.number q.jobs ≡ some j
    → j.phase ≡ running
    → Serves q j.key j.number rest outcome
unfolding settle_work
running-Serves q j rest outcome r h f p =
    let step = settles j outcome f p in
    let after = settle_work j.number outcome q in
    let left = queue-FifoStep q after r step in
    let own : line j.key after.jobs ≡ rest =
      ap tail_of_line (sym (Leaves-own j.key j.number (lines q) (lines after) left) ∙ h) in
    record {
      later = after;
      reached = next here step;
      settled_so = (_, find-set_phase j.number (settled outcome) j q.jobs f, refl);
      tail_done = tail_of_settled outcome;
      own = own;
      behind = line-HeadIsAble j.key after rest (next r step) own;
    }
  where
    tail_of_line : List ℕ → List ℕ
    tail_of_line [] = []
    tail_of_line (_ ∷ ns) = ns

-- The head's work begins, and then runs.
ready-Serves :
    (q : ConversationQueue) (j : Job) (rest : List ℕ) (outcome : Outcome)
    → Reach create_conversation_queue q
    → line j.key q.jobs ≡ j.number ∷ rest
    → find j.number q.jobs ≡ some j
    → j.phase ≡ waiting
    → is_ready j.previous q.jobs ≡ true
    → Serves q j.key j.number rest outcome
unfolding begin_work
ready-Serves q j rest outcome r h f w p =
    let step = begins j f w p in
    let begun = begin_work j.number q in
    let same = queue-FifoStep q begun r step in
    let job : Job = record j { phase = running } in
    let served =
      running-Serves begun job rest outcome (next r step) (same.all j.key ∙ h)
        (find-set_phase j.number running j q.jobs f) refl in
    record {
      later = served.later;
      reached = Reach-step step served.reached;
      settled_so = served.settled_so;
      tail_done = tail_of_settled outcome;
      own = served.own;
      behind = served.behind;
    }

-- No line of a reachable queue stalls, whether work succeeds or fails: the job at the head of a
-- line runs or its start is fulfilled, and for either outcome of its work the queue can go on to
-- a state in which the work has settled with that outcome, the tail made for it is fulfilled, the
-- line is what was behind it, and the next job of the line, if there is one, runs or has a start
-- that is fulfilled.
pub head_may_run :
    (q : ConversationQueue) (key : Text) (n : ℕ) (rest : List ℕ) (outcome : Outcome)
    → Reach create_conversation_queue q
    → line key q.jobs ≡ n ∷ rest
    → HeadIsAble (n ∷ rest) key q.jobs × Serves q key n rest outcome
head_may_run q key n rest outcome r h =
    let (j, able) = line-HeadIsAble key q (n ∷ rest) r h in
    let number = find-number n j q.jobs able.found in
    let found = subst (λ m. find m q.jobs ≡ some j) (sym number) able.found in
    let heads =
      subst (λ k. line k q.jobs ≡ j.number ∷ rest) (sym able.of_key)
        (h ∙ ap (λ m. m ∷ rest) (sym number)) in
    let served : Serves q j.key j.number rest outcome = elim able.may_run [
      | inl p ↦ running-Serves q j rest outcome r heads found p
      | inr (w, p) ↦ ready-Serves q j rest outcome r heads found w p
    ] in
    (
      (j, able),
      subst (λ m. Serves q key m rest outcome) number
          (subst (λ k. Serves q k j.number rest outcome) able.of_key served),
    )
