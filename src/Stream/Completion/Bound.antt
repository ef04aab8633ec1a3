-- ===== src/Stream/Completion/Bound.antt =====
-- The wait of src/stream/completion.ts ends.
use chatgpt_web_gateway.Base.{
  ℕ, zero, suc, ◌+◌, ◌-◌, ◌≤◌, ◌<◌, ◌≡◌, refl, inl, inr, ◌≢◌, false, Option, none, arith,
  Bool-cases, leb,
}
use chatgpt_web_gateway.Text.{Text}
use chatgpt_web_gateway.Stream.{Snapshot, Outcome, ok, err, bind-eq-ok}
use chatgpt_web_gateway.Stream.Completion.{
  Watcher, Watch, Pass, again, finished, throw_if_aborted-ok, observe_once, pause, decide, confirm,
  weigh, body, wait_loop, next_pass, initial_watch, wait_for_streaming_completion,
}

module _ {W : Type 0} (o : Watcher W) where
  -- The clock does not run backwards, and a sleep takes at least its time.
  pub record Progress : Type 0 where
    pub sleeps : (ms : ℕ) (w : W) → o.now w + ms ≤ o.now (o.sleep ms w)
    pub observes : (w : W) (a : Snapshot) (w' : W) → o.observe w ≡ ok a w' → o.now w ≤ o.now w'
    pub reports :
        (a : Snapshot) (w : W) (u : Unit {0}) (w' : W)
        → o.on_snapshot a w ≡ ok u w'
        → o.now w ≤ o.now w'

  module _ (p : Progress) where
    observe_once-now :
        (w : W) (a : Snapshot) (w' : W) → observe_once o w ≡ ok a w' → o.now w ≤ o.now w'
    unfolding observe_once
    observe_once-now w a w' e =
        let (seen, w1, e1, e2) = bind-eq-ok _ _ _ _ e in
        let (u, w2, e3, e4) = bind-eq-ok _ _ _ _ e2 in
        let f1 = p.observes w seen w1 e1 in let f2 = p.reports seen w1 u w2 e3 in ground arith

    pause-now :
        (s : Watch) (w : W) (s' : Watch) (w' : W)
        → pause o s w ≡ ok (again s') w'
        → o.now w + o.poll_interval_ms ≤ o.now w'
    unfolding pause
    pause-now s w s' w' e = ground (arith, p.sleeps o.poll_interval_ms w)

    decide-now :
        (t : Text) (a : Snapshot) (w : W) (s' : Watch) (w' : W)
        → decide o t a w ≡ ok (again s') w'
        → o.now w + o.poll_interval_ms ≤ o.now w'
    unfolding decide pause
    decide-now t a w s' w' e = ground (arith, p.sleeps o.poll_interval_ms w)

    confirm-now :
        (t : Text) (w : W) (s' : Watch) (w' : W)
        → confirm o t w ≡ ok (again s') w'
        → o.now w + o.poll_interval_ms ≤ o.now w'
    unfolding confirm
    confirm-now t w s' w' e =
        let (u, w0, e0, e1) = bind-eq-ok _ _ _ _ e in
        let (seen, w1, e2, e3) = bind-eq-ok _ _ _ _ e1 in
        let (same, _) = throw_if_aborted-ok o w u w0 e0 in
        let f1 = observe_once-now w0 seen w1 e2 in
        let f2 = decide-now t seen w1 s' w' e3 in ground arith

    weigh-now :
        (s : Watch) (a : Snapshot) (w : W) (s' : Watch) (w' : W)
        → weigh o s a w ≡ ok (again s') w'
        → o.now w + o.poll_interval_ms ≤ o.now w'
    unfolding weigh pause
    weigh-now s a w s' w' e = grind (arith, p.sleeps o.poll_interval_ms w, confirm-now)

    body-now :
        (s : Watch) (w : W) (s' : Watch) (w' : W)
        → body o s w ≡ ok (again s') w'
        → o.now w + o.poll_interval_ms ≤ o.now w'
    unfolding body
    body-now s w s' w' e =
        let (u, w0, e0, e1) = bind-eq-ok _ _ _ _ e in
        let (seen, w1, e2, e3) = bind-eq-ok _ _ _ _ e1 in
        let (same, _) = throw_if_aborted-ok o w u w0 e0 in
        let f1 = observe_once-now w0 seen w1 e2 in
        let f2 = weigh-now s seen w1 s' w' e3 in ground arith

    next_pass-ne-none :
        (rest : Watch → W → Option (Outcome W Text)) (r : Outcome W Pass)
        → ((s : Watch) (w : W) → r ≡ ok (again s) w → rest s w ≢ none)
        → next_pass o rest r ≢ none
    unfolding next_pass
    next_pass-ne-none rest (err e w) h = λ e. cc
    next_pass-ne-none rest (ok (finished text) w) h = λ e. cc
    next_pass-ne-none rest (ok (again s) w) h = h s w refl

    wait_loop-ends :
        (fuel start : ℕ) (s : Watch) (w : W)
        → 0 < o.poll_interval_ms
        → start + o.timeout_ms < o.now w + fuel
        → wait_loop o (suc fuel) start s w ≢ none
    unfolding wait_loop
    wait_loop-ends zero start s w pos h =
        let late : leb (o.now w - start) o.timeout_ms ≡ false = ground arith in
        rw (late, wait_loop) (λ e. cc)
    wait_loop-ends (suc fuel) start s w pos h =
        elim (Bool-cases (leb (o.now w - start) o.timeout_ms)) [
          | inr late ↦ rw (late, wait_loop) (λ e. cc)
          | inl early ↦
              rw (early, wait_loop)
                (next_pass-ne-none (wait_loop o (suc fuel) start) (body o s w) (λ s' w' e.
                  wait_loop-ends fuel start s' w' pos
                    (let later = body-now s w s' w' e in omega arith)))
        ]

    -- With a clock that runs and a positive poll interval, one round for each millisecond of the
    -- timeout, and two more, are always enough: the wait returns, or fails with an error.
    pub wait_ends :
        (fuel : ℕ) (w : W)
        → 0 < o.poll_interval_ms
        → o.timeout_ms + 2 ≤ fuel
        → wait_for_streaming_completion o fuel w ≢ none
    unfolding wait_for_streaming_completion
    wait_ends zero w pos h = absurd (omega arith)
    wait_ends (suc fuel) w pos h = wait_loop-ends fuel (o.now w) initial_watch w pos (omega arith)
