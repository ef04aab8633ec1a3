-- ===== src/Stream/Completion/Keeps.antt =====
-- A property of worlds that every callback of src/stream/completion.ts keeps when it returns holds
-- after the wait.
use chatgpt_web_gateway.Base.{
  ℕ, zero, suc, ◌-◌, ◌≡◌, subst, inl, inr, some, arith, Bool-cases, leb, not, ◌&&◌, ltb, length,
}
use chatgpt_web_gateway.Text.{Text, text_eq, trim}
use chatgpt_web_gateway.Stream.{Snapshot, ok, bind-eq-ok, normalize_assistant_text}
use chatgpt_web_gateway.Stream.Completion.{
  Watcher, Watch, Pass, again, finished, throw_if_aborted-ok, observe_once, pause, decide, confirm,
  count_stable, weigh, body, wait_loop, next_pass-ok, initial_watch, wait_for_streaming_completion,
}

module _ {W : Type 0} (o : Watcher W) (I : W → Type 0) where
  pub record Kept : Type 0 where
    pub observes : (w : W) (a : Snapshot) (w' : W) → I w → o.observe w ≡ ok a w' → I w'
    pub reports :
        (a : Snapshot) (w : W) (u : Unit {0}) (w' : W) → I w → o.on_snapshot a w ≡ ok u w' → I w'
    pub sleeps : (ms : ℕ) (w : W) → I w → I (o.sleep ms w)

  module _ (k : Kept) where
    observe_once-keeps : (w : W) (a : Snapshot) (w' : W) → I w → observe_once o w ≡ ok a w' → I w'
    unfolding observe_once
    observe_once-keeps w a w' i e =
        let (seen, w1, e1, e2) = bind-eq-ok _ _ _ _ e in
        let (u, w2, e3, e4) = bind-eq-ok _ _ _ _ e2 in
        let same : w2 ≡ w' = ground arith in
        subst I same (k.reports seen w1 u w2 (k.observes w seen w1 i e1) e3)

    pause-keeps : (s : Watch) (w : W) (r : Pass) (w' : W) → I w → pause o s w ≡ ok r w' → I w'
    unfolding pause
    pause-keeps s w r w' i e =
        let slept : o.sleep o.poll_interval_ms w ≡ w' = ground arith in
        subst I slept (k.sleeps o.poll_interval_ms w i)

    decide-keeps :
        (t : Text) (a : Snapshot) (w : W) (r : Pass) (w' : W)
        → I w
        → decide o t a w ≡ ok r w'
        → I w'
    unfolding decide pause
    decide-keeps t a w r w' i e = elim (Bool-cases a.exists) [
      | inr gone ↦ absurd (ground arith)
      | inl here ↦
          elim (Bool-cases
            (a.completion_marker_present && text_eq (normalize_assistant_text a.text) t)) [
              | inl agrees ↦ let same : w ≡ w' = ground arith in subst I same i
              | inr differs ↦
                  let slept : o.sleep o.poll_interval_ms w ≡ w' = ground arith in
                  subst I slept (k.sleeps o.poll_interval_ms w i)
            ]
    ]

    confirm-keeps : (t : Text) (w : W) (r : Pass) (w' : W) → I w → confirm o t w ≡ ok r w' → I w'
    unfolding confirm
    confirm-keeps t w r w' i e =
        let (u, w0, e0, e1) = bind-eq-ok _ _ _ _ e in
        let (seen, w1, e2, e3) = bind-eq-ok _ _ _ _ e1 in
        let (same, _) = throw_if_aborted-ok o w u w0 e0 in
        decide-keeps t seen w1 r w' (observe_once-keeps w0 seen w1 (subst I same i) e2) e3

    weigh-keeps :
        (s : Watch) (a : Snapshot) (w : W) (r : Pass) (w' : W)
        → I w
        → weigh o s a w ≡ ok r w'
        → I w'
    unfolding weigh pause
    weigh-keeps s a w r w' i e =
        let text = normalize_assistant_text a.text in
        let confirms =
          not (not a.exists)
          && (a.completion_marker_present && ltb 0 (length (trim text)))
          && leb o.stable_samples (count_stable o s text) in
        elim (Bool-cases confirms) [
          | inl b ↦ confirm-keeps text w r w' i (ground arith)
          | inr b ↦
              let slept : o.sleep o.poll_interval_ms w ≡ w' = ground arith in
              subst I slept (k.sleeps o.poll_interval_ms w i)
        ]

    body-keeps : (s : Watch) (w : W) (r : Pass) (w' : W) → I w → body o s w ≡ ok r w' → I w'
    unfolding body
    body-keeps s w r w' i e =
        let (u, w0, e0, e1) = bind-eq-ok _ _ _ _ e in
        let (seen, w1, e2, e3) = bind-eq-ok _ _ _ _ e1 in
        let (same, _) = throw_if_aborted-ok o w u w0 e0 in
        weigh-keeps s seen w1 r w' (observe_once-keeps w0 seen w1 (subst I same i) e2) e3

    wait_loop-keeps :
        (fuel start : ℕ) (s : Watch) (w : W) (text : Text) (w' : W)
        → I w
        → wait_loop o fuel start s w ≡ some (ok text w')
        → I w'
    unfolding wait_loop
    wait_loop-keeps zero start s w text w' i e = absurd (ground arith)
    wait_loop-keeps (suc fuel) start s w text w' i e =
        elim (Bool-cases (leb (o.now w - start) o.timeout_ms)) [
          | inr late ↦ absurd (ground arith)
          | inl early ↦
              elim (next_pass-ok o (wait_loop o fuel start) (body o s w) text w'
                (rw (early, wait_loop) at e)) [
                  | inl done ↦ body-keeps s w (finished text) w' i done
                  | inr (s', v, more, rest) ↦
                      wait_loop-keeps fuel start s' v text w' (body-keeps s w (again s') v i more)
                        rest
                ]
        ]

    pub wait_keeps :
        (fuel : ℕ) (w : W) (text : Text) (w' : W)
        → I w
        → wait_for_streaming_completion o fuel w ≡ some (ok text w')
        → I w'
    unfolding wait_for_streaming_completion
    wait_keeps fuel w text w' i e = wait_loop-keeps fuel (o.now w) initial_watch w text w' i e
