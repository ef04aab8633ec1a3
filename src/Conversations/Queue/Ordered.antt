-- ===== src/Conversations/Queue/Ordered.antt =====
-- The jobs and the tails of src/conversations/conversation-queue.ts stay in order over its steps.
use chatgpt_web_gateway.Base.{
  ℕ, ◌≡◌, refl, sym, ap, ◌∙◌, subst, true, false, Option, none, some, List, [], ◌∷◌, arith, ◌==◌,
  length, inl, inr, Bool-cases,
}
use chatgpt_web_gateway.Text.{Text, text_eq}
use chatgpt_web_gateway.Text.Laws.{text_eq_iff}
use chatgpt_web_gateway.Text.Maps.{get, set, get-set, get-remove}
use chatgpt_web_gateway.Conversations.Queue.{
  Outcome, Phase, waiting, running, settled, Job, ConversationQueue, create_conversation_queue,
  is_settled, is_waiting, settled_at, set_phase, find, run, begin_work, settle_work, is_tail,
  forget_tail, close, Step, runs, begins, settles, forgets, closes, Reach, here, next,
}
use chatgpt_web_gateway.Conversations.Queue.Line.{
  all_settled, latest, AreChained, latest-set_phase, all_settled-settle, all_settled-begin,
  latest-settled,
}
use chatgpt_web_gateway.Conversations.Queue.Turns.{
  IsOnTurn, found-IsOnTurn, ready-IsOnTurn, IsOnTurn-unsettled, set_phase-AreChained,
}

-- The jobs follow each other, and the map holds the newest job of each key that has an unsettled one.
pub record IsOrdered (q : ConversationQueue) : Type 0 where
  pub chained : AreChained q.jobs
  pub no_tail : (k : Text) → get q.tails k ≡ none → all_settled k q.jobs ≡ true
  pub has_tail : (k : Text) (p : ℕ) → get q.tails k ≡ some p → latest k q.jobs ≡ some p

create-IsOrdered : IsOrdered create_conversation_queue
unfolding create_conversation_queue get all_settled
create-IsOrdered = record { chained = tt; no_tail = λ k e. refl; has_tail = λ k p e. cc }

pub run-some :
    (key : Text) (q q' : ConversationQueue)
    → run key q ≡ some q'
    → (q' ≡ record q {
      jobs =
          record { number = length q.jobs; key = key; previous = get q.tails key; phase = waiting }
          ∷ q.jobs;
      tails = set key (length q.jobs) q.tails;
    })
      × (q.closed ≡ false)
unfolding run
run-some key q q' h = elim (Bool-cases q.closed) [
  | inl c ↦ absurd (ground arith)
  | inr o ↦ (ground arith, o)
]

run-IsOrdered :
    (key : Text) (q : ConversationQueue)
    → IsOrdered q
    → IsOrdered (record q {
      jobs =
          record { number = length q.jobs; key = key; previous = get q.tails key; phase = waiting }
          ∷ q.jobs;
      tails = set key (length q.jobs) q.tails;
    })
unfolding all_settled latest is_settled is_waiting
run-IsOrdered key q o = record {
  chained = (
    record {
      numbered = refl;
      unblocked = o.no_tail key;
      blocked = o.has_tail key;
      started = λ w. cc;
    },
    o.chained,
  );
  no_tail = λ k e. let g = get-set key (length q.jobs) q.tails k in ground (arith, o.no_tail k);
  has_tail =
      λ k p e. let g = get-set key (length q.jobs) q.tails k in ground (arith, o.has_tail k p);
}

phase-IsOrdered :
    (n : ℕ) (key : Text) (phase : Phase) (q : ConversationQueue)
    → ((k : Text) (is : List Job)
        → settled_at n is ≡ false
        → all_settled k is ≡ true
        → all_settled k (set_phase n phase is) ≡ true)
    → IsOnTurn n key q.jobs
    → IsOrdered q
    → IsOrdered (record q { jobs = set_phase n phase q.jobs })
phase-IsOrdered n key phase q keep t o = record {
  chained = set_phase-AreChained n key phase q.jobs keep o.chained t;
  no_tail = λ k e. keep k q.jobs (IsOnTurn-unsettled n key q.jobs o.chained t) (o.no_tail k e);
  has_tail = λ k p e. latest-set_phase k n phase q.jobs ∙ o.has_tail k p e;
}

find-settled_at :
    (n : ℕ) (j : Job) (js : List Job)
    → find n js ≡ some j
    → is_settled j.phase ≡ true
    → settled_at n js ≡ true
unfolding find settled_at
find-settled_at n j [] h s = cc
find-settled_at n j (i ∷ js) h s = elim (Bool-cases (i.number == n)) [
  | inl e ↦
      let same : i ≡ j = ground arith in
      let phase : is_settled i.phase ≡ true = ap (λ z. is_settled z.phase) same ∙ s in ground arith
  | inr o ↦ ground (arith, find-settled_at n j js (ground arith) s)
]

is_tail-some : (o : Option ℕ) (n : ℕ) → is_tail o n ≡ true → o ≡ some n
unfolding is_tail
is_tail-some none n h = cc
is_tail-some (some p) n h = ground arith

forget-IsOrdered :
    (j : Job) (q : ConversationQueue)
    → find j.number q.jobs ≡ some j
    → is_settled j.phase ≡ true
    → IsOrdered q
    → IsOrdered (forget_tail j.key j.number q)
unfolding forget_tail
forget-IsOrdered j q h s o = elim (Bool-cases (is_tail (get q.tails j.key) j.number)) [
  | inr n ↦ rw n o
  | inl e ↦
      let newest = is_tail-some (get q.tails j.key) j.number e in
      let (_, all) =
        latest-settled j.key j.number q.jobs o.chained (o.has_tail j.key j.number newest) in
      let done = all (find-settled_at j.number j q.jobs h s) in
      rw e (record {
        chained = o.chained;
        no_tail = λ k g. elim (Bool-cases (text_eq j.key k)) [
          | inl m ↦
              let same : j.key ≡ k = (text_eq_iff j.key k).0 m in
              subst (λ z. all_settled z q.jobs ≡ true) same done
          | inr m ↦ o.no_tail k (ground (arith, get-remove j.key q.tails k))
        ];
        has_tail = λ k p g. elim (Bool-cases (text_eq j.key k)) [
          | inl m ↦ absurd (ground (arith, get-remove j.key q.tails k))
          | inr m ↦ o.has_tail k p (ground (arith, get-remove j.key q.tails k))
        ];
      })
]

begin_keeps :
    (n : ℕ) (k : Text) (is : List Job)
    → settled_at n is ≡ false
    → all_settled k is ≡ true
    → all_settled k (set_phase n running is) ≡ true
begin_keeps n k is s a = all_settled-begin k n is s a

settle_keeps :
    (n : ℕ) (outcome : Outcome) (k : Text) (is : List Job)
    → settled_at n is ≡ false
    → all_settled k is ≡ true
    → all_settled k (set_phase n (settled outcome) is) ≡ true
settle_keeps n outcome k is s a = all_settled-settle k n outcome is a

pub running-IsOnTurn :
    (j : Job) (q : ConversationQueue)
    → IsOrdered q
    → find j.number q.jobs ≡ some j
    → j.phase ≡ running
    → IsOnTurn j.number j.key q.jobs
unfolding is_settled is_waiting
running-IsOnTurn j q o f r = found-IsOnTurn j.number j q.jobs o.chained f (rw r refl) (rw r refl)

Step-IsOrdered : {q q' : ConversationQueue} → Step q q' → IsOrdered q → IsOrdered q'
unfolding begin_work settle_work close
Step-IsOrdered {q} (runs key {q'} h) o =
    let (same, _) = run-some key q q' h in subst IsOrdered (sym same) (run-IsOrdered key q o)
Step-IsOrdered {q} (begins j f w r) o =
    phase-IsOrdered j.number j.key running q (begin_keeps j.number)
      (ready-IsOnTurn j.number j q.jobs o.chained f w r) o
Step-IsOrdered {q} (settles j outcome f r) o =
    phase-IsOrdered j.number j.key (settled outcome) q (settle_keeps j.number outcome)
      (running-IsOnTurn j q o f r) o
Step-IsOrdered {q} (forgets j f s) o = forget-IsOrdered j q f s o
Step-IsOrdered {q} closes o = record {
  chained = o.chained;
  no_tail = o.no_tail;
  has_tail = o.has_tail;
}

pub Reach-IsOrdered : {q : ConversationQueue} → Reach create_conversation_queue q → IsOrdered q
Reach-IsOrdered here = create-IsOrdered
Reach-IsOrdered (next r s) = Step-IsOrdered s (Reach-IsOrdered r)
