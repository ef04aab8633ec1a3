-- ===== src/Conversations/Queue.antt =====
-- src/conversations/conversation-queue.ts. Each call of run makes three promises, start, current and
-- tail: their states follow from the phase of the call's job, and a tail is named by the job's number.
-- The jobs are kept newest first.
pub mod Line
pub mod Turns
pub mod Ordered
pub mod Fifo
pub mod Heads
pub mod Progress
pub mod Tests
use chatgpt_web_gateway.Base.{
  ℕ, ◌≡◌, Bool, true, false, not, ◌&&◌, ◌||◌, Option, none, some, List, [], ◌∷◌, ◌==◌,
  if◌then◌else◌, length,
}
use chatgpt_web_gateway.Text.{Text, text_eq}
use chatgpt_web_gateway.Text.Maps.{TextMap, get, set, remove}

-- How the work's promise settles: with a value, or with an error.
pub data Outcome : Type 0 where
  success failure : Outcome

pub data Phase : Type 0 where
  waiting running : Phase
  settled : Outcome → Phase

pub data PromiseState : Type 0 where
  pending fulfilled rejected : PromiseState

pub record Job : Type 0 where
  pub number : ℕ
  pub key : Text
  -- the tail that the start of the work waits for
  pub previous : Option ℕ
  pub phase : Phase

pub record ConversationQueue : Type 0 where
  pub tails : TextMap ℕ
  pub jobs : List Job
  pub closed : Bool

pub create_conversation_queue : ConversationQueue
create_conversation_queue = record { tails = []; jobs = []; closed = false }

pub is_settled : Phase → Bool
is_settled (settled outcome) = true
is_settled running = false
is_settled waiting = false

pub is_waiting : Phase → Bool
is_waiting waiting = true
is_waiting running = false
is_waiting (settled outcome) = false

-- current, which start.then(work) gives: it takes over how the work settles.
pub current_of : Phase → PromiseState
current_of waiting = pending
current_of running = pending
current_of (settled success) = fulfilled
current_of (settled failure) = rejected

-- current.then(() => undefined, () => undefined)
pub tail_of : PromiseState → PromiseState
tail_of pending = pending
tail_of fulfilled = fulfilled
tail_of rejected = fulfilled

-- previous.catch(() => undefined)
start_of : PromiseState → PromiseState
start_of pending = pending
start_of fulfilled = fulfilled
start_of rejected = fulfilled

is_fulfilled : PromiseState → Bool
is_fulfilled fulfilled = true
is_fulfilled rejected = false
is_fulfilled pending = false

-- A start that waits for the tail of a job in this phase lets its own work run.
pub lets_run : Phase → Bool
unfolding is_fulfilled start_of tail_of current_of
lets_run phase = is_fulfilled (start_of (tail_of (current_of phase)))

-- As above, for the job with this number
pub let_run_by : ℕ → List Job → Bool
unfolding lets_run
let_run_by n [] = false
let_run_by n (j ∷ js) = (j.number == n && lets_run j.phase) || let_run_by n js

-- The promise of the job's tail has settled.
pub settled_at : ℕ → List Job → Bool
unfolding is_settled
settled_at n [] = false
settled_at n (j ∷ js) = (j.number == n && is_settled j.phase) || settled_at n js

pub set_phase : ℕ → Phase → List Job → List Job
set_phase n phase [] = []
set_phase n phase (j ∷ js) =
    let rest = set_phase n phase js in
    if j.number == n then record j { phase = phase } ∷ rest else j ∷ rest

pub find : ℕ → List Job → Option Job
find n [] = none
find n (j ∷ js) = let rest = find n js in if j.number == n then some j else rest

-- run(key, work) up to its return; none where it rejects
pub run : Text → ConversationQueue → Option ConversationQueue
unfolding get set
run key q =
    let number = length q.jobs in
    let job : Job = record {
      number = number;
      key = key;
      previous = get q.tails key;
      phase = waiting;
    } in
    if q.closed
    then none
    else some (record q { jobs = job ∷ q.jobs; tails = set key number q.tails })

-- start is fulfilled: there was no previous tail, and start came of a resolved promise, or that tail
-- lets the work run.
pub is_ready : Option ℕ → List Job → Bool
unfolding is_fulfilled start_of let_run_by
is_ready none jobs = is_fulfilled (start_of fulfilled)
is_ready (some tail) jobs = let_run_by tail jobs

-- start.then(work)
pub begin_work : ℕ → ConversationQueue → ConversationQueue
unfolding set_phase
begin_work n q = record q { jobs = set_phase n running q.jobs }

-- The work's promise settles, with a value or with an error; current and the tail follow it.
pub settle_work : ℕ → Outcome → ConversationQueue → ConversationQueue
unfolding set_phase
settle_work n outcome q = record q { jobs = set_phase n (settled outcome) q.jobs }

pub is_tail : Option ℕ → ℕ → Bool
is_tail none n = false
is_tail (some tail) n = tail == n

-- tail.finally
pub forget_tail : Text → ℕ → ConversationQueue → ConversationQueue
unfolding get remove is_tail
forget_tail key n q =
    if is_tail (get q.tails key) n then record q { tails = remove key q.tails } else q

pub close : ConversationQueue → ConversationQueue
close q = record q { closed = true }

pub pending_key_count : ConversationQueue → ℕ
pending_key_count q = length q.tails

-- The calls of a queue and what its promises do, in any order.
pub data Step (q : ConversationQueue) : ConversationQueue → Type 0 where
  runs : (key : Text) {q' : ConversationQueue} → run key q ≡ some q' → Step q q'
  begins :
      (j : Job)
      → find j.number q.jobs ≡ some j
      → j.phase ≡ waiting
      → is_ready j.previous q.jobs ≡ true
      → Step q (begin_work j.number q)
  settles :
      (j : Job) (outcome : Outcome)
      → find j.number q.jobs ≡ some j
      → j.phase ≡ running
      → Step q (settle_work j.number outcome q)
  forgets :
      (j : Job)
      → find j.number q.jobs ≡ some j
      → is_settled j.phase ≡ true
      → Step q (forget_tail j.key j.number q)
  closes : Step q (close q)

pub data Reach (q : ConversationQueue) : ConversationQueue → Type 0 where
  here : Reach q q
  next : {r s : ConversationQueue} → Reach q r → Step r s → Reach q s

-- Names what a run of the queue computes through, for tests.
unfoldable pub queue_runs : Unit {0}
unfolding create_conversation_queue is_settled is_waiting current_of tail_of start_of is_fulfilled
    lets_run let_run_by settled_at set_phase find run is_ready begin_work settle_work is_tail
    forget_tail close pending_key_count
queue_runs = tt
