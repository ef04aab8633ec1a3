-- ===== src/Stream/Completion/Agreement.antt =====
-- What src/stream/completion.ts has seen when it returns a text.
use chatgpt_web_gateway.Base.{
  ℕ, zero, suc, ◌≤◌, ◌<◌, ◌≡◌, refl, sym, ap, ◌∙◌, subst, inl, inr, true, some, ◌&&◌, [], List, ◌∷◌,
  arith, Bool-cases, leb, ltb, leb→le, ◌-◌, length, take, All,
}
use chatgpt_web_gateway.Text.{Text, text_eq, trim}
use chatgpt_web_gateway.Text.Laws.{text_eq_iff}
use chatgpt_web_gateway.Stream.{Snapshot, ok, bind-eq-ok, normalize_assistant_text}
use chatgpt_web_gateway.Stream.Completion.{
  Watcher, Watch, Pass, again, finished, throw_if_aborted-ok, observe_once, pause, decide, confirm,
  count_stable, weigh, body, wait_loop, next_pass-ok, initial_watch, watching,
  wait_for_streaming_completion,
}

-- A snapshot of a complete turn with a text.
pub record IsSettled (text : Text) (seen : Snapshot) : Type 0 where
  pub exists : seen.exists ≡ true
  pub marker : seen.completion_marker_present ≡ true
  pub reads : normalize_assistant_text seen.text ≡ text

-- The first k of a list exist and satisfy P.
abbrev pub Latest : {A : Type 0} → (A → Type 0) → ℕ → List A → Type 0
Latest P k xs = (k ≤ length xs) × All P (take k xs)

Latest-cons :
    {A : Type 0} (P : A → Type 0) (k : ℕ) (x : A) (xs : List A)
    → P x
    → Latest P k xs
    → Latest P (suc k) (x ∷ xs)
Latest-cons P k x xs p (h, a) = (omega arith, (p, a))

Latest-le :
    {A : Type 0} (P : A → Type 0) (j k : ℕ) (xs : List A) → j ≤ k → Latest P k xs → Latest P j xs
Latest-le P zero k xs h l = (omega arith, tt)
Latest-le P (suc j) zero xs h l = absurd (omega arith)
Latest-le P (suc j) (suc k) [] h (l, a) = absurd (omega arith)
Latest-le P (suc j) (suc k) (x ∷ xs) h (l, (p, a)) =
    Latest-cons P j x xs p (Latest-le P j k xs (omega arith) (omega arith, a))

module _ {W : Type 0} (o : Watcher W) (log : W → List Snapshot) where
  -- The log of a world lists the snapshots observed so far, the newest first.
  pub record Logged : Type 0 where
    pub observes : (w : W) (a : Snapshot) (w' : W) → o.observe w ≡ ok a w' → log w' ≡ a ∷ log w
    pub reports :
        (a : Snapshot) (w : W) (u : Unit {0}) (w' : W)
        → o.on_snapshot a w ≡ ok u w'
        → log w' ≡ log w
    pub sleeps : (ms : ℕ) (w : W) → log (o.sleep ms w) ≡ log w

  -- The loop invariant: the stable text was read from the last snapshots, as many as counted.
  Counted : Watch → W → Type 0
  Counted s w = Latest (IsSettled s.stable_text) s.consecutive_stable (log w)

  -- What holds of a returned text.
  abbrev pub IsAgreed : Text → W → Type 0
  IsAgreed text w =
      Latest (IsSettled text) (suc o.stable_samples) (log w) × (0 < length (trim text))

  -- What each way to end a pass establishes.
  Established : Pass → W → Type 0
  Established (again s) w = Counted s w
  Established (finished text) w = IsAgreed text w

  module _ (l : Logged) where
    observe_once-log :
        (w : W) (a : Snapshot) (w' : W) → observe_once o w ≡ ok a w' → log w' ≡ a ∷ log w
    unfolding observe_once
    observe_once-log w a w' e =
        let (seen, w1, e1, e2) = bind-eq-ok _ _ _ _ e in
        let (u, w2, e3, e4) = bind-eq-ok _ _ _ _ e2 in
        let f1 = l.observes w seen w1 e1 in let f2 = l.reports seen w1 u w2 e3 in ground arith

    pause-Established :
        (s : Watch) (w : W) (r : Pass) (w' : W)
        → Counted s w
        → pause o s w ≡ ok r w'
        → Established r w'
    unfolding pause Counted Established
    pause-Established s w (again s') w' c e =
        let same : s ≡ s' = ground arith in
        let slept : log w ≡ log w' = sym (l.sleeps o.poll_interval_ms w) ∙ ap log (ground arith) in
        subst (λ xs. Latest (IsSettled s'.stable_text) s'.consecutive_stable xs) slept
          (subst (λ (z : Watch). Latest (IsSettled z.stable_text) z.consecutive_stable (log w)) same
            c)
    pause-Established s w (finished t) w' c e = absurd (ground arith)

    -- A pass that starts to count afresh.
    restart-Established :
        (text : Text) (w : W) (r : Pass) (w' : W)
        → pause o (watching text 0) w ≡ ok r w'
        → Established r w'
    unfolding Counted
    restart-Established text w r w' e =
        pause-Established (watching text 0) w r w' (omega arith, tt) e

    decide-Established :
        (text : Text) (final : Snapshot) (w0 w : W) (r : Pass) (w' : W)
        → 0 < length (trim text)
        → Latest (IsSettled text) o.stable_samples (log w0)
        → log w ≡ final ∷ log w0
        → decide o text final w ≡ ok r w'
        → Established r w'
    unfolding decide Established
    decide-Established text final w0 w r w' some_text latest seen e =
        elim (Bool-cases final.exists) [
          | inr gone ↦ absurd (ground arith)
          | inl here ↦
              elim (Bool-cases (
                final.completion_marker_present
                && text_eq (normalize_assistant_text final.text) text)) [
                  | inr differs ↦
                      restart-Established (normalize_assistant_text final.text) w r w'
                        (ground arith)
                  | inl agrees ↦
                      let reads : normalize_assistant_text final.text ≡ text =
                        (text_eq_iff _ _).0 (ground arith) in
                      let confirmed : Latest (IsSettled text) (suc o.stable_samples) (log w) =
                        subst (Latest (IsSettled text) (suc o.stable_samples)) (sym seen) (
                          Latest-cons (IsSettled text) o.stable_samples final (log w0)
                            (record { exists = here; marker = ground arith; reads = reads })
                            latest) in
                      let result : finished text ≡ r = ground arith in
                      let here' : w ≡ w' = ground arith in
                      subst (Established r) here'
                        (subst (λ q. Established q w) result (confirmed, some_text))
                ]
        ]

    confirm-Established :
        (text : Text) (w : W) (r : Pass) (w' : W)
        → 0 < length (trim text)
        → Latest (IsSettled text) o.stable_samples (log w)
        → confirm o text w ≡ ok r w'
        → Established r w'
    unfolding confirm
    confirm-Established text w r w' some_text latest e =
        let (u, w0, e0, e1) = bind-eq-ok _ _ _ _ e in
        let (seen, w1, e2, e3) = bind-eq-ok _ _ _ _ e1 in
        let (same, _) = throw_if_aborted-ok o w u w0 e0 in
        decide-Established text seen w w1 r w' some_text latest
          (observe_once-log w0 seen w1 e2 ∙ ap (λ x. seen ∷ log x) (sym same)) e3

    count_stable-Latest :
        (s : Watch) (seen : Snapshot) (w0 w : W)
        → Counted s w0
        → log w ≡ seen ∷ log w0
        → seen.exists ≡ true
        → seen.completion_marker_present ≡ true
        → Latest
            (IsSettled (normalize_assistant_text seen.text))
            (count_stable o s (normalize_assistant_text seen.text))
            (log w)
    unfolding count_stable Counted
    count_stable-Latest s seen w0 w c logged here marked =
        let text = normalize_assistant_text seen.text in
        let settled : IsSettled text seen = record {
          exists = here;
          marker = marked;
          reads = refl;
        } in
        elim (Bool-cases (text_eq text s.stable_text)) [
          | inl same ↦
              let count : count_stable o s text ≡ suc s.consecutive_stable = ground arith in
              let reads : s.stable_text ≡ text = sym ((text_eq_iff _ _).0 same) in
              subst (λ k. Latest (IsSettled text) k (log w)) (sym count)
                (subst (Latest (IsSettled text) (suc s.consecutive_stable)) (sym logged) (
                  Latest-cons (IsSettled text) s.consecutive_stable seen (log w0) settled
                    (subst (λ t. Latest (IsSettled t) s.consecutive_stable (log w0)) reads c)))
          | inr other ↦
              let count : count_stable o s text ≡ 1 = ground arith in
              subst (λ k. Latest (IsSettled text) k (log w)) (sym count)
                (subst (Latest (IsSettled text) 1) (sym logged)
                  (Latest-cons (IsSettled text) 0 seen (log w0) settled (omega arith, tt)))
        ]

    weigh-Established :
        (s : Watch) (seen : Snapshot) (w0 w : W) (r : Pass) (w' : W)
        → Counted s w0
        → log w ≡ seen ∷ log w0
        → weigh o s seen w ≡ ok r w'
        → Established r w'
    unfolding weigh Counted
    weigh-Established s seen w0 w r w' c logged e =
        let text = normalize_assistant_text seen.text in
        let stable = count_stable o s text in
        elim (Bool-cases seen.exists) [
          | inr gone ↦ elim (Bool-cases s.saw_turn) [
            | inl lost ↦ absurd (ground arith)
            | inr waiting ↦
                pause-Established (record s { consecutive_stable = 0 }) w r w' (omega arith, tt)
                  (ground arith)
          ]
          | inl here ↦
              elim (Bool-cases (seen.completion_marker_present && ltb 0 (length (trim text)))) [
                | inr partial ↦ restart-Established text w r w' (ground arith)
                | inl complete ↦
                    let counted : Latest (IsSettled text) stable (log w) =
                      count_stable-Latest s seen w0 w c logged here (ground arith) in
                    elim (Bool-cases (leb o.stable_samples stable)) [
                      | inr few ↦
                          pause-Established (watching text stable) w r w' counted (ground arith)
                      | inl enough ↦
                          confirm-Established text w r w' (ground arith)
                            (Latest-le (IsSettled text) o.stable_samples stable (log w)
                              (leb→le _ _ enough) counted)
                            (ground arith)
                    ]
              ]
        ]

    body-Established :
        (s : Watch) (w : W) (r : Pass) (w' : W)
        → Counted s w
        → body o s w ≡ ok r w'
        → Established r w'
    unfolding body
    body-Established s w r w' c e =
        let (u, w0, e0, e1) = bind-eq-ok _ _ _ _ e in
        let (seen, w1, e2, e3) = bind-eq-ok _ _ _ _ e1 in
        let (same, _) = throw_if_aborted-ok o w u w0 e0 in
        weigh-Established s seen w w1 r w' c
          (observe_once-log w0 seen w1 e2 ∙ ap (λ x. seen ∷ log x) (sym same)) e3

    wait_loop-IsAgreed :
        (fuel start : ℕ) (s : Watch) (w : W) (text : Text) (w' : W)
        → Counted s w
        → wait_loop o fuel start s w ≡ some (ok text w')
        → IsAgreed text w'
    unfolding wait_loop Established
    wait_loop-IsAgreed zero start s w text w' c e = cc
    wait_loop-IsAgreed (suc fuel) start s w text w' c e =
        elim (Bool-cases (leb (o.now w - start) o.timeout_ms)) [
          | inr late ↦ absurd (ground arith)
          | inl early ↦
              elim (next_pass-ok o (wait_loop o fuel start) (body o s w) text w'
                (rw (early, wait_loop) at e)) [
                  | inl done ↦ body-Established s w (finished text) w' c done
                  | inr (s', v, more, rest) ↦
                      wait_loop-IsAgreed fuel start s' v text w'
                        (body-Established s w (again s') v c more) rest
                ]
        ]

    -- A text is returned only if the last observation and the stableSamples before it all show a
    -- turn that exists, is marked complete and reads as this text, which is not blank.
    pub wait-IsAgreed :
        (fuel : ℕ) (w : W) (text : Text) (w' : W)
        → wait_for_streaming_completion o fuel w ≡ some (ok text w')
        → IsAgreed text w'
    unfolding wait_for_streaming_completion Counted
    wait-IsAgreed fuel w text w' e =
        wait_loop-IsAgreed fuel (o.now w) initial_watch w text w' (omega arith, tt) e
