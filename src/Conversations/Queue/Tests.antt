-- ===== src/Conversations/Queue/Tests.antt =====
-- Two calls with one key.
use chatgpt_web_gateway.Base.{ℕ, ◌≡◌, refl, inl, true, false, Option, none, some, List, [], ◌∷◌}
use chatgpt_web_gateway.Text.{text, text_eq}
use chatgpt_web_gateway.Text.Maps.{get, set}
use chatgpt_web_gateway.Conversations.Queue.{
  failure, waiting, running, settled, Job, ConversationQueue, create_conversation_queue, run,
  forget_tail, Step, runs, begins, settles, Reach, here, next, queue_runs,
}
use chatgpt_web_gateway.Conversations.Queue.Line.{line}
use chatgpt_web_gateway.Conversations.Queue.Fifo.{FifoStep, queue-FifoStep, runs_at_head}
use chatgpt_web_gateway.Conversations.Queue.Progress.{HeadIsAble, Serves, head_may_run}

abbrev job : ℕ → Option ℕ → Job
job n previous = record { number = n; key = text "a"; previous = previous; phase = waiting }

abbrev one : ConversationQueue
one = record { tails = (text "a", 0) ∷ []; jobs = job 0 none ∷ []; closed = false }

abbrev two : ConversationQueue
two = record { tails = (text "a", 1) ∷ []; jobs = job 1 (some 0) ∷ job 0 none ∷ []; closed = false }

abbrev started : ConversationQueue
started = record two { jobs = job 1 (some 0) ∷ record (job 0 none) { phase = running } ∷ [] }

abbrev first_done : ConversationQueue
first_done = record two {
  jobs = job 1 (some 0) ∷ record (job 0 none) { phase = settled failure } ∷ [];
}

first_run : run (text "a") create_conversation_queue ≡ some one
unfolding queue_runs get set text_eq
first_run = refl

second_run : run (text "a") one ≡ some two
unfolding queue_runs get set text_eq
second_run = refl

refused : run (text "a") (record one { closed = true }) ≡ none
unfolding queue_runs
refused = refl

-- The tail of the first job is not the key's tail any more.
forgotten : forget_tail (text "a") 0 first_done ≡ first_done
unfolding queue_runs get text_eq
forgotten = refl

to_two : Reach create_conversation_queue two
to_two = next (next here (runs (text "a") first_run)) (runs (text "a") second_run)

to_started : Reach create_conversation_queue started
unfolding queue_runs
to_started = next to_two (begins (job 0 none) refl refl refl)

to_first_done : Reach create_conversation_queue first_done
unfolding queue_runs
to_first_done =
    next to_started (settles (record (job 0 none) { phase = running }) failure refl refl)

first_fails : Step started first_done
unfolding queue_runs
first_fails = settles (record (job 0 none) { phase = running }) failure refl refl

queue-FifoStep_example : FifoStep started first_done first_fails
unfolding first_fails
queue-FifoStep_example = queue-FifoStep started first_done to_started first_fails

runs_at_head_example : (rest : List ℕ) × (line (text "a") started.jobs ≡ 0 ∷ rest)
unfolding queue_runs
runs_at_head_example =
    runs_at_head started (record (job 0 none) { phase = running }) to_started refl (inl refl)

-- The work before it has failed, and so will this.
head_may_run_example :
    HeadIsAble (1 ∷ []) (text "a") first_done.jobs × Serves first_done (text "a") 1 [] failure
unfolding line queue_runs text_eq
head_may_run_example = head_may_run first_done (text "a") 1 [] failure to_first_done refl
