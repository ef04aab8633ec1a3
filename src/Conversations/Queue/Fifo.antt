-- ===== src/Conversations/Queue/Fifo.antt =====
-- src/conversations/conversation-queue.ts is a first-in first-out line for each key.
use chatgpt_web_gateway.Base.{
  ℕ, ◌≡◌, refl, sym, ap, ◌∙◌, subst, ◌⊎◌, true, some, List, [], ◌∷◌, ◌++◌, arith, length, inl, inr,
  append-nil, Bool-cases, if◌then◌else◌,
}
use chatgpt_web_gateway.Text.{Text, text_eq}
use chatgpt_web_gateway.Text.Laws.{text_eq_iff, text_eq_refl}
use chatgpt_web_gateway.Text.Maps.{get, set}
use chatgpt_web_gateway.Conversations.Queue.{
  Outcome, success, waiting, running, settled, Job, ConversationQueue, create_conversation_queue,
  set_phase, is_settled, find, is_ready, begin_work, settle_work, forget_tail, close, Step, runs,
  begins, settles, forgets, closes, Reach,
}
use chatgpt_web_gateway.Conversations.Queue.Line.{line, line-set_phase_running}
use chatgpt_web_gateway.Conversations.Queue.Turns.{
  IsOnTurn, ready-IsOnTurn, IsOnTurn-line, IsOnTurn-other, IsOnTurn-unsettled,
}
use chatgpt_web_gateway.Conversations.Queue.Ordered.{
  IsOrdered, run-some, running-IsOnTurn, Reach-IsOrdered,
}

abbrev pub lines : ConversationQueue → Text → List ℕ
lines q key = line key q.jobs

-- Every line is as before.
pub record Stays (before after : Text → List ℕ) : Type 0 where
  pub all : (k : Text) → after k ≡ before k

-- The number joins the end of the key's line, and the lines of other keys are as before.
pub record Joins (key : Text) (n : ℕ) (before after : Text → List ℕ) : Type 0 where
  pub all : (k : Text) → after k ≡ (if text_eq key k then before k ++ (n ∷ []) else before k)

-- The number leaves the head of the key's line, and the lines of other keys are as before.
pub record Leaves (key : Text) (n : ℕ) (before after : Text → List ℕ) : Type 0 where
  pub all : (k : Text) → before k ≡ (if text_eq key k then n ∷ after k else after k)

pub Leaves-own :
    (key : Text) (n : ℕ) (before after : Text → List ℕ)
    → Leaves key n before after
    → before key ≡ n ∷ after key
Leaves-own key n before after l =
    subst (λ t. before key ≡ (if t then n ∷ after key else after key)) (text_eq_refl key)
      (l.all key)

-- What each step does to the lines of a first-in first-out queue with keys.
abbrev pub FifoStep : (q q' : ConversationQueue) → Step q q' → Type 0
FifoStep q _ (runs key {q'} h) = Joins key (length q.jobs) (lines q) (lines q')
FifoStep q _ (begins j f w p) = Stays (lines q) (lines (begin_work j.number q))
FifoStep q _ (settles j outcome f s) =
    Leaves j.key j.number (lines q) (lines (settle_work j.number outcome q))
FifoStep q _ (forgets j f s) = Stays (lines q) (lines (forget_tail j.key j.number q))
FifoStep q _ closes = Stays (lines q) (lines (close q))

run-Joins :
    (key : Text) (q : ConversationQueue)
    → Joins key (length q.jobs) (lines q) (
        lines (record q {
          jobs =
              record {
                number = length q.jobs;
                key = key;
                previous = get q.tails key;
                phase = waiting;
              }
              ∷ q.jobs;
          tails = set key (length q.jobs) q.tails;
        }))
unfolding line is_settled
run-Joins key q = record {
  all = λ k. elim (Bool-cases (text_eq key k)) [
    | inl e ↦ rw e refl
    | inr n ↦ rw n (append-nil (line k q.jobs))
  ];
}

pub settle-Leaves :
    (q : ConversationQueue) (j : Job) (outcome : Outcome)
    → IsOrdered q
    → IsOnTurn j.number j.key q.jobs
    → Leaves j.key j.number (lines q) (lines (settle_work j.number outcome q))
unfolding settle_work
settle-Leaves q j outcome o t =
    let (rest, old, new) = IsOnTurn-line j.number j.key outcome q.jobs o.chained t in
    let own = old ∙ ap (λ l. j.number ∷ l) (sym new) in
    record {
      all = λ k. elim (Bool-cases (text_eq j.key k)) [
        | inl e ↦
            let same : j.key ≡ k = (text_eq_iff j.key k).0 e in
            rw e (
              subst
                (λ z.
                  line z q.jobs ≡ j.number ∷ line z (set_phase j.number (settled outcome) q.jobs))
                same own)
        | inr d ↦
            rw d (sym (IsOnTurn-other j.number j.key k (settled outcome) q.jobs o.chained t d))
      ];
    }

-- Each step of a reachable queue acts on its lines as on first-in first-out lines, one for each
-- key: a run that is accepted joins its new number at the end of its key's line; work that
-- settles, with a value or an error, leaves from the head of its key's line; and in both cases
-- the lines of other keys stay. Work that begins, a tail's finally and close leave every line as
-- it is.
pub queue-FifoStep :
    (q q' : ConversationQueue)
    → Reach create_conversation_queue q
    → (s : Step q q') → FifoStep q q' s
unfolding begin_work forget_tail close
queue-FifoStep q _ r (runs key {q'} h) =
    let (same, _) = run-some key q q' h in
    subst (λ z. Joins key (length q.jobs) (lines q) (lines z)) (sym same) (run-Joins key q)
queue-FifoStep q _ r (begins j f w p) =
    let o = Reach-IsOrdered r in
    let t = ready-IsOnTurn j.number j q.jobs o.chained f w p in
    record {
      all = λ k.
          line-set_phase_running k j.number q.jobs
            (IsOnTurn-unsettled j.number j.key q.jobs o.chained t);
    }
queue-FifoStep q _ r (settles j outcome f s) =
    let o = Reach-IsOrdered r in settle-Leaves q j outcome o (running-IsOnTurn j q o f s)
queue-FifoStep q _ r (forgets j f s) = record { all = λ k. ground arith }
queue-FifoStep q _ r closes = record { all = λ k. refl }

-- Work runs, or may begin, only at the head of its key's line.
pub runs_at_head :
    (q : ConversationQueue) (j : Job)
    → Reach create_conversation_queue q
    → find j.number q.jobs ≡ some j
    → (j.phase ≡ running) ⊎ ((j.phase ≡ waiting) × (is_ready j.previous q.jobs ≡ true))
    → (rest : List ℕ) × (line j.key q.jobs ≡ j.number ∷ rest)
runs_at_head q j r f (inl s) =
    let o = Reach-IsOrdered r in
    let (rest, old, _) =
      IsOnTurn-line j.number j.key success q.jobs o.chained (running-IsOnTurn j q o f s) in
    (rest, old)
runs_at_head q j r f (inr (w, p)) =
    let o = Reach-IsOrdered r in
    let (rest, old, _) =
      IsOnTurn-line j.number j.key success q.jobs o.chained
        (ready-IsOnTurn j.number j q.jobs o.chained f w p) in
    (rest, old)
