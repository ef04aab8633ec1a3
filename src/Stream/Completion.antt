-- ===== src/Stream/Completion.antt =====
-- src/stream/completion.ts: the polling loop that waits until an Assistant turn is complete. The
-- page, the snapshot callback, the abort signal and the clock are arguments of the loop in the
-- source (WaitForStreamingCompletionOptions), and so they are here. The loop runs on fuel.
pub mod Bound
pub mod Agreement
pub mod Keeps
use chatgpt_web_gateway.Base.{
  ℕ, zero, suc, ◌+◌, ◌-◌, ◌≡◌, refl, ◌⊎◌, inl, inr, arith, Bool, true, false, not, ◌&&◌, Option,
  none, some, [], ltb, leb, if◌then◌else◌, length,
}
use chatgpt_web_gateway.Text.{Text, text_eq, trim}
use chatgpt_web_gateway.Stream.{
  Snapshot, Failure, stream_diverged, generation_timeout, response_missing, stream_aborted, Outcome,
  ok, err, ◌>>=◌, normalize_assistant_text,
}

-- WaitForStreamingCompletionOptions; a missing onSnapshot is one that does nothing.
pub record Watcher (W : Type 0) : Type 0 where
  pub observe : W → Outcome W Snapshot
  pub on_snapshot : Snapshot → W → Outcome W (Unit {0})
  pub aborted : W → Bool
  pub now : W → ℕ
  pub sleep : ℕ → W → W
  pub poll_interval_ms : ℕ
  pub stable_samples : ℕ
  pub timeout_ms : ℕ

-- The variables of the loop.
pub record Watch : Type 0 where
  pub saw_turn : Bool
  pub stable_text : Text
  pub consecutive_stable : ℕ

abbrev pub initial_watch : Watch
initial_watch = record { saw_turn = false; stable_text = []; consecutive_stable = 0 }

-- The variables once a turn has been seen.
abbrev watching : Text → ℕ → Watch
watching text count = record { saw_turn = true; stable_text = text; consecutive_stable = count }

-- How a pass through the loop's body ends: at its end, or by return.
pub data Pass : Type 0 where
  again : Watch → Pass
  finished : Text → Pass

module _ {W : Type 0} (o : Watcher W) where
  throw_if_aborted : W → Outcome W (Unit {0})
  throw_if_aborted w = if o.aborted w then err stream_aborted w else ok tt w

  throw_if_aborted-ok :
      (w : W) (u : Unit {0}) (w' : W)
      → throw_if_aborted w ≡ ok u w'
      → (w ≡ w') × (o.aborted w ≡ false)
  unfolding throw_if_aborted
  throw_if_aborted-ok w u w' e = ground arith

  -- An observation and its callback.
  observe_once : W → Outcome W Snapshot
  observe_once w = o.observe w >>= λ seen w1. o.on_snapshot seen w1 >>= λ _ w2. ok seen w2

  pause : Watch → W → Outcome W Pass
  pause s w = ok (again s) (o.sleep o.poll_interval_ms w)

  -- The final observation, once the text has been stable for long enough.
  decide : Text → Snapshot → W → Outcome W Pass
  decide text final w =
      if not final.exists
      then err stream_diverged w
      else if final.completion_marker_present && text_eq (normalize_assistant_text final.text) text
      then ok (finished (normalize_assistant_text final.text)) w
      else pause (watching (normalize_assistant_text final.text) 0) w

  confirm : Text → W → Outcome W Pass
  confirm text w = throw_if_aborted w >>= λ _ w0. observe_once w0 >>= decide text

  count_stable : Watch → Text → ℕ
  count_stable s text = if text_eq text s.stable_text then s.consecutive_stable + 1 else 1

  -- The part of the body that follows an observation.
  weigh : Watch → Snapshot → W → Outcome W Pass
  weigh s seen w =
      let text = normalize_assistant_text seen.text in
      let stable = count_stable s text in
      if not seen.exists
      then if s.saw_turn
        then err stream_diverged w
        else pause (record s { consecutive_stable = 0 }) w
      else if seen.completion_marker_present && ltb 0 (length (trim text))
      then if leb o.stable_samples stable then confirm text w else pause (watching text stable) w
      else pause (watching text 0) w

  body : Watch → W → Outcome W Pass
  body s w = throw_if_aborted w >>= λ _ w0. observe_once w0 >>= weigh s

  -- What the loop does after a pass through its body, with the rest of the loop.
  next_pass : (Watch → W → Option (Outcome W Text)) → Outcome W Pass → Option (Outcome W Text)
  next_pass rest (err e w) = some (err e w)
  next_pass rest (ok (finished text) w) = some (ok text w)
  next_pass rest (ok (again s) w) = rest s w

  next_pass-ok :
      (rest : Watch → W → Option (Outcome W Text)) (p : Outcome W Pass) (text : Text) (w' : W)
      → next_pass rest p ≡ some (ok text w')
      → (p ≡ ok (finished text) w')
        ⊎ ((s : Watch) × (w : W) × (p ≡ ok (again s) w) × (rest s w ≡ some (ok text w')))
  unfolding next_pass
  next_pass-ok rest (err f w) text w' e = absurd (ground arith)
  next_pass-ok rest (ok (finished t) w) text w' e = inl (ground arith)
  next_pass-ok rest (ok (again s) w) text w' e = inr (s, w, refl, e)

  -- `none` means that the fuel ran out.
  wait_loop : ℕ → ℕ → Watch → W → Option (Outcome W Text)
  wait_loop zero started_at s w = none
  wait_loop (suc fuel) started_at s w = elim (leb (o.now w - started_at) o.timeout_ms) [
    | false ↦ some (err (if s.saw_turn then generation_timeout else response_missing) w)
    | true ↦ next_pass (wait_loop fuel started_at) (body s w)
  ]

  pub wait_for_streaming_completion : ℕ → W → Option (Outcome W Text)
  wait_for_streaming_completion fuel w = wait_loop fuel (o.now w) initial_watch w

-- Names what a run of the wait computes through, for tests.
unfoldable pub wait_runs : Unit {0}
unfolding wait_for_streaming_completion wait_loop next_pass body weigh confirm decide pause
    observe_once throw_if_aborted count_stable
wait_runs = tt
