-- ===== src/Stream/TextStream/Tests.antt =====
-- A scripted page, client and clock, and the properties of src/stream applied to it.
use chatgpt_web_gateway.Base.{
  ℕ, ◌+◌, ◌-◌, ◌≤◌, ◌<◌, ◌≡◌, ◌≢◌, ◌↔◌, refl, true, false, none, some, List, [], ◌∷◌, ◌++◌, arith,
  length, take, All, Prefix,
}
use chatgpt_web_gateway.Text.{Text, text, trim}
use chatgpt_web_gateway.Text.Points.{points, join}
use chatgpt_web_gateway.Stream.{
  Snapshot, returned, failed, stream_diverged, Outcome, ok, normalize_assistant_text,
}
use chatgpt_web_gateway.Stream.StablePrefix.{
  StablePrefixState, window, common_points, observe_stable_prefix, flush_stable_prefix,
  longest_common_prefix, create_stable_prefix_state,
}
use chatgpt_web_gateway.Stream.StablePrefix.Common.{
  longest_common_prefix-Prefix, common_points_greatest,
}
use chatgpt_web_gateway.Stream.StablePrefix.Laws.{
  observe_grows, observe_delta_stable, flush_complete,
}
use chatgpt_web_gateway.Stream.Completion.Agreement.{IsSettled, Latest}
use chatgpt_web_gateway.Stream.TextStream.{
  Streamer, stream_assistant_text, deliver, on_snapshot, watcher, finish, flush, report,
}
use chatgpt_web_gateway.Stream.TextStream.Delivery.{Channel, Running, stream_delivered, stream_ends}
use chatgpt_web_gateway.Stream.Completion.{wait_runs}

-- What the page will show, what the client got, the snapshots shown so far, and the time.
record Stage : Type 0 where
  script : List Snapshot
  sent : Text
  log : List Snapshot
  time : ℕ

abbrev missing : Snapshot
missing = record { exists = false; text = []; completion_marker_present = false }

abbrev growing : Text → Snapshot
growing t = record { exists = true; text = t; completion_marker_present = false }

abbrev complete : Text → Snapshot
complete t = record { exists = true; text = t; completion_marker_present = true }

show_next : List Snapshot → Stage → Outcome Stage Snapshot
show_next [] w = ok missing (record w { log = missing ∷ w.log })
show_next (a ∷ rest) w = ok a (record w { script = rest; log = a ∷ w.log })

abbrev staged : Streamer Stage
staged = record {
  observe = λ w. show_next w.script w;
  on_delta = λ delta w. ok tt (record w { sent = w.sent ++ delta });
  aborted = λ w. false;
  now = λ w. w.time;
  sleep = λ ms w. record w { time = w.time + ms };
  poll_interval_ms = none;
  stable_samples = some 2;
  holdback_code_points = some 1;
  timeout_ms = some 2000;
}

show_next-facts :
    (script : List Snapshot) (w : Stage) (a : Snapshot) (w' : Stage)
    → show_next script w ≡ ok a w'
    → (w'.sent ≡ w.sent) × (w'.log ≡ a ∷ w.log) × (w'.time ≡ w.time)
unfolding show_next
show_next-facts [] w a w' e = ground arith
show_next-facts (b ∷ rest) w a w' e = ground arith

staged-Channel : Channel staged (λ w. w.sent) (λ w. w.log)
staged-Channel = record {
  observes = λ w a w' e. let f = show_next-facts w.script w a w' e in (f.0, f.1);
  delivers = λ delta w u w' e. (ground arith, ground arith);
  sleeps = λ ms w. (refl, refl);
}

staged-Running : Running staged
staged-Running = record {
  sleeps = λ ms w. omega arith;
  observes = λ w a w' e. let f = show_next-facts w.script w a w' e in omega arith;
  delivers = λ delta w u w' e. ground arith;
}

abbrev opening : Stage
opening = record {
  script =
      missing
      ∷ growing (text "Hel")
      ∷ growing (text "Hello")
      ∷ complete (text "Hello!")
      ∷ complete (text "Hello!")
      ∷ complete (text "Hello!")
      ∷ [];
  sent = [];
  log = [];
  time = 0;
}

abbrev greeting : Stage
greeting = record {
  script = [];
  sent = text "Hello!";
  log =
      complete (text "Hello!")
      ∷ complete (text "Hello!")
      ∷ complete (text "Hello!")
      ∷ growing (text "Hello")
      ∷ growing (text "Hel")
      ∷ missing
      ∷ [];
  time = 800;
}

greeting_streams : stream_assistant_text staged 20 opening ≡ some (ok (text "Hello!") greeting)
unfolding stream_assistant_text wait_runs watcher on_snapshot report deliver finish flush show_next
    trim normalize_assistant_text create_stable_prefix_state observe_stable_prefix
    flush_stable_prefix
greeting_streams = refl

stream_delivered_example :
    (text "Hello!" ≡ [] ++ text "Hello!")
    × Latest (IsSettled (text "Hello!")) 3 greeting.log
    × (0 < length (trim (text "Hello!")))
stream_delivered_example =
    stream_delivered staged (λ w. w.sent) (λ w. w.log) staged-Channel 20 opening (text "Hello!")
      greeting greeting_streams

stream_ends_example : stream_assistant_text staged 2002 opening ≢ none
stream_ends_example = stream_ends staged staged-Running 2002 opening (omega arith) (omega arith)

-- A grinning face is one code point of two units; a text may end in its first unit.
abbrev smile : Text
smile = 104 ∷ 105 ∷ 0xd83d ∷ 0xde00 ∷ []

abbrev half_smile : Text
half_smile = 104 ∷ 105 ∷ 0xd83d ∷ []

longest_common_prefix_test : longest_common_prefix (smile ∷ half_smile ∷ []) ≡ text "hi"
unfolding longest_common_prefix
longest_common_prefix_test = refl

longest_common_prefix-Prefix_example :
    All (Prefix (longest_common_prefix (smile ∷ half_smile ∷ []))) (smile ∷ half_smile ∷ [])
longest_common_prefix-Prefix_example = longest_common_prefix-Prefix (smile ∷ half_smile ∷ [])

common_points_greatest_example : Prefix (points (text "hi")) (common_points smile (half_smile ∷ []))
unfolding points
common_points_greatest_example =
    common_points_greatest (points (text "hi")) smile (half_smile ∷ [])
      (((0xd83d ∷ 0xde00 ∷ []) ∷ [], refl), (((0xd83d ∷ []) ∷ [], refl), tt))

abbrev halfway : StablePrefixState
halfway = record {
  emitted = text "He";
  samples = text "Hel" ∷ text "Hell" ∷ [];
  stable_samples = 2;
  holdback_code_points = 1;
}

abbrev further : StablePrefixState
further = record halfway { emitted = text "Hel"; samples = text "Hell" ∷ text "Hello" ∷ [] }

further_observed : observe_stable_prefix halfway (text "Hello") ≡ returned (further, text "l")
unfolding observe_stable_prefix
further_observed = refl

observe_grows_example :
    (further.emitted ≡ halfway.emitted ++ text "l")
    × Prefix halfway.emitted (text "Hello")
    × (further.stable_samples ≡ halfway.stable_samples)
    × (further.holdback_code_points ≡ halfway.holdback_code_points)
observe_grows_example = observe_grows halfway (text "Hello") further (text "l") further_observed

l_not_empty : text "l" ≢ []
l_not_empty = λ e. cc

observe_delta_stable_example :
    (further.samples ≡ window halfway (text "Hello"))
    × (halfway.stable_samples ≤ length further.samples)
    × All (Prefix further.emitted) further.samples
    × (let shared = points (longest_common_prefix further.samples) in
        further.emitted ≡ join (take (length shared - halfway.holdback_code_points) shared))
observe_delta_stable_example =
    observe_delta_stable halfway (text "Hello") further (text "l") further_observed l_not_empty

flush_complete_example :
    ((state' : StablePrefixState) (delta : Text)
      → flush_stable_prefix further (text "Hello") ≡ returned (state', delta)
      → (state'.emitted ≡ text "Hello") × (further.emitted ++ delta ≡ text "Hello"))
    × ((flush_stable_prefix further (text "Hello") ≡ failed stream_diverged)
        ↔ ¬ Prefix further.emitted (text "Hello"))
flush_complete_example = flush_complete further (text "Hello")
