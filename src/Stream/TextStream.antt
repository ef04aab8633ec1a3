-- ===== src/Stream/TextStream.antt =====
-- src/stream/text-stream.ts: the wait for an Assistant turn, joined to the stable prefix, which
-- decides what goes to the client while the turn grows.
pub mod Delivery
pub mod Tests
use chatgpt_web_gateway.Base.{ℕ, Bool, not, Option, none, some, ltb, if◌then◌else◌, length}
use chatgpt_web_gateway.Text.{Text}
use chatgpt_web_gateway.Stream.{
  Snapshot, Result, returned, failed, Outcome, ok, err, ◌>>=◌, normalize_assistant_text,
}
use chatgpt_web_gateway.Stream.StablePrefix.{
  StablePrefixState, create_stable_prefix_state, observe_stable_prefix, flush_stable_prefix,
}
use chatgpt_web_gateway.Stream.Completion.{Watcher, wait_for_streaming_completion}

-- StreamAssistantTextOptions
pub record Streamer (W : Type 0) : Type 0 where
  pub observe : W → Outcome W Snapshot
  pub on_delta : Text → W → Outcome W (Unit {0})
  pub aborted : W → Bool
  pub now : W → ℕ
  pub sleep : ℕ → W → W
  pub poll_interval_ms : Option ℕ
  pub stable_samples : Option ℕ
  pub holdback_code_points : Option ℕ
  pub timeout_ms : Option ℕ

-- value ?? fallback
abbrev or_default : Option ℕ → ℕ → ℕ
or_default none fallback = fallback
or_default (some value) fallback = value

-- The world of the wait: the variable stableState beside the world outside.
pub record Session (W : Type 0) : Type 0 where
  pub stable : StablePrefixState
  pub world : W

abbrev lift : {W A : Type 0} → StablePrefixState → Outcome W A → Outcome (Session W) A
lift st (ok a w) = ok a (record { stable = st; world = w })
lift st (err e w) = err e (record { stable = st; world = w })

module _ {W : Type 0} (o : Streamer W) where
  -- if (delta.length > 0) await options.onDelta(delta)
  deliver : Text → W → Outcome W (Unit {0})
  deliver delta w = if ltb 0 (length delta) then o.on_delta delta w else ok tt w

  report : Result (StablePrefixState × Text) → Session W → Outcome (Session W) (Unit {0})
  report (failed e) s = err e s
  report (returned (st, delta)) s = lift st (deliver delta s.world)

  on_snapshot : Snapshot → Session W → Outcome (Session W) (Unit {0})
  unfolding report
  on_snapshot seen s =
      if not seen.exists
      then ok tt s
      else report (observe_stable_prefix s.stable (normalize_assistant_text seen.text)) s

  watcher : Watcher (Session W)
  watcher = record {
    observe = λ s. lift s.stable (o.observe s.world);
    on_snapshot = on_snapshot;
    aborted = λ s. o.aborted s.world;
    now = λ s. o.now s.world;
    sleep = λ ms s. record s { world = o.sleep ms s.world };
    poll_interval_ms = or_default o.poll_interval_ms 200;
    stable_samples = or_default o.stable_samples 3;
    timeout_ms = or_default o.timeout_ms 240000;
  }

  flush : Result (StablePrefixState × Text) → W → Outcome W Text
  flush (failed e) w = err e w
  flush (returned (st, delta)) w = deliver delta w >>= λ _ w'. ok st.emitted w'

  finish : Option (Outcome (Session W) Text) → Option (Outcome W Text)
  finish none = none
  finish (some (err e s)) = some (err e s.world)
  finish (some (ok final s)) = some (flush (flush_stable_prefix s.stable final) s.world)

  start : ℕ → Result StablePrefixState → W → Option (Outcome W Text)
  start fuel (failed e) w = some (err e w)
  start fuel (returned st) w =
      finish (wait_for_streaming_completion watcher fuel (record { stable = st; world = w }))

  -- `none` means that the fuel of the wait ran out.
  pub stream_assistant_text : ℕ → W → Option (Outcome W Text)
  unfolding start
  stream_assistant_text fuel w =
      start fuel
        (create_stable_prefix_state (or_default o.stable_samples 3)
          (or_default o.holdback_code_points 64))
        w
