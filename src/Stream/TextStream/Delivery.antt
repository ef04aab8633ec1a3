-- ===== src/Stream/TextStream/Delivery.antt =====
-- What a client has received when src/stream/text-stream.ts returns, and that it does return.
use chatgpt_web_gateway.Base.{
  ℕ, suc, ◌+◌, ◌≤◌, ◌<◌, ◌≡◌, ◌≢◌, refl, sym, ap, ◌∙◌, subst, inl, inr, Option, none, some, List,
  [], ◌∷◌, ◌++◌, append_assoc, append-nil, arith, Bool-cases, length,
}
use chatgpt_web_gateway.Text.{Text, trim}
use chatgpt_web_gateway.Stream.{
  Snapshot, Result, returned, failed, Outcome, ok, err, bind-eq-ok, normalize_assistant_text,
}
use chatgpt_web_gateway.Stream.StablePrefix.{
  StablePrefixState, create_stable_prefix_state, observe_stable_prefix, flush_stable_prefix,
}
use chatgpt_web_gateway.Stream.StablePrefix.Laws.{observe_grows, flush_complete}
use chatgpt_web_gateway.Stream.Completion.{wait_for_streaming_completion}
use chatgpt_web_gateway.Stream.Completion.Agreement.{IsSettled, Latest, Logged, wait-IsAgreed}
use chatgpt_web_gateway.Stream.Completion.Keeps.{Kept, wait_keeps}
use chatgpt_web_gateway.Stream.Completion.Bound.{Progress, wait_ends}
use chatgpt_web_gateway.Stream.TextStream.{
  Streamer, Session, or_default, lift, deliver, report, on_snapshot, watcher, flush, finish, start,
  stream_assistant_text,
}

module _ {W : Type 0} (o : Streamer W) (sent : W → Text) (log : W → List Snapshot) where
  -- The client appends each delta to what it was sent; a snapshot observed goes to the log.
  pub record Channel : Type 0 where
    pub observes :
        (w : W) (a : Snapshot) (w' : W)
        → o.observe w ≡ ok a w'
        → (sent w' ≡ sent w) × (log w' ≡ a ∷ log w)
    pub delivers :
        (delta : Text) (w : W) (u : Unit {0}) (w' : W)
        → o.on_delta delta w ≡ ok u w'
        → (sent w' ≡ sent w ++ delta) × (log w' ≡ log w)
    pub sleeps : (ms : ℕ) (w : W) → (sent (o.sleep ms w) ≡ sent w) × (log (o.sleep ms w) ≡ log w)

  module _ (c : Channel) where
    deliver-sent :
        (delta : Text) (w : W) (u : Unit {0}) (w' : W)
        → deliver o delta w ≡ ok u w'
        → (sent w' ≡ sent w ++ delta) × (log w' ≡ log w)
    unfolding deliver
    deliver-sent [] w u w' e =
        let same : w ≡ w' = ground arith in
        (ap sent (sym same) ∙ sym (append-nil (sent w)), ap log (sym same))
    deliver-sent (d ∷ ds) w u w' e = c.delivers (d ∷ ds) w u w' (ground arith)

    lift-ok :
        {A : Type 0} (st : StablePrefixState) (m : Outcome W A) (a : A) (s' : Session W)
        → lift st m ≡ ok a s'
        → (m ≡ ok a s'.world) × (s'.stable ≡ st)
    lift-ok st (ok b w) a s' e = (ground arith, ground arith)
    lift-ok st (err f w) a s' e = absurd (ground arith)

    report-ok :
        (r : Result (StablePrefixState × Text)) (s : Session W) (u : Unit {0}) (s' : Session W)
        → report o r s ≡ ok u s'
        → (delta : Text) × (r ≡ returned (s'.stable, delta))
          × (deliver o delta s.world ≡ ok u s'.world)
    unfolding report
    report-ok (failed f) s u s' e = absurd (ground arith)
    report-ok (returned (st, delta)) s u s' e =
        let (sent_ok, same) = lift-ok st (deliver o delta s.world) u s' e in
        (delta, ground arith, sent_ok)

    -- A snapshot sends the client just what it adds to the emitted text.
    on_snapshot-sent :
        (a : Snapshot) (s : Session W) (u : Unit {0}) (s' : Session W)
        → on_snapshot o a s ≡ ok u s'
        → (delta : Text) × (sent s'.world ≡ sent s.world ++ delta)
          × (s'.stable.emitted ≡ s.stable.emitted ++ delta)
          × (log s'.world ≡ log s.world)
    unfolding on_snapshot
    on_snapshot-sent a s u s' e = elim (Bool-cases a.exists) [
      | inr gone ↦
          let same : s ≡ s' = ground arith in
          (
            [],
            ap (λ (x : Session W). sent x.world) (sym same) ∙ sym (append-nil (sent s.world)),
            ap (λ (x : Session W). x.stable.emitted) (sym same) ∙ sym (append-nil s.stable.emitted),
            ap (λ (x : Session W). log x.world) (sym same),
          )
      | inl here ↦
          let text = normalize_assistant_text a.text in
          let (delta, observed, delivered) =
            report-ok (observe_stable_prefix s.stable text) s u s' (ground arith) in
          let (now_sent, same_log) = deliver-sent delta s.world u s'.world delivered in
          (delta, now_sent, (observe_grows s.stable text s'.stable delta observed).0, same_log)
    ]

    -- After the text sent before, the client holds what the stable prefix has let out.
    Holds : Text → Session W → Type 0
    Holds before s = sent s.world ≡ before ++ s.stable.emitted

    on_snapshot-Holds :
        (before : Text) (a : Snapshot) (s : Session W) (u : Unit {0}) (s' : Session W)
        → Holds before s
        → on_snapshot o a s ≡ ok u s'
        → Holds before s'
    unfolding Holds
    on_snapshot-Holds before a s u s' h e =
        let (delta, now_sent, grown, _) = on_snapshot-sent a s u s' e in
        now_sent
        ∙ ap (λ t. t ++ delta) h
        ∙ append_assoc before s.stable.emitted delta
        ∙ ap (◌++◌ before) (sym grown)

    watcher-Kept : (before : Text) → Kept (watcher o) (Holds before)
    unfolding watcher Holds
    watcher-Kept before = record {
      observes = λ s a s' h e.
          let (seen, same) = lift-ok s.stable (o.observe s.world) a s' e in
          (c.observes s.world a s'.world seen).0
          ∙ h
          ∙ ap (λ (x : StablePrefixState). before ++ x.emitted) (sym same);
      reports = λ a s u s' h e. on_snapshot-Holds before a s u s' h e;
      sleeps = λ ms s h. (c.sleeps ms s.world).0 ∙ h;
    }

    watcher-Logged : Logged (watcher o) (λ s. log s.world)
    unfolding watcher
    watcher-Logged = record {
      observes = λ s a s' e.
          (c.observes s.world a s'.world (lift-ok s.stable (o.observe s.world) a s' e).0).1;
      reports = λ a s u s' e. (on_snapshot-sent a s u s' e).3;
      sleeps = λ ms s. (c.sleeps ms s.world).1;
    }

    flush-sent :
        (st : StablePrefixState) (final : Text) (before : Text) (w : W) (text : Text) (w' : W)
        → sent w ≡ before ++ st.emitted
        → flush o (flush_stable_prefix st final) w ≡ ok text w'
        → (text ≡ final) × (sent w' ≡ before ++ text) × (log w' ≡ log w)
    unfolding flush
    flush-sent st final before w text w' h e = go (flush_stable_prefix st final) refl e
      where
        go :
            (r : Result (StablePrefixState × Text))
            → flush_stable_prefix st final ≡ r
            → flush o r w ≡ ok text w'
            → (text ≡ final) × (sent w' ≡ before ++ text) × (log w' ≡ log w)
        go (failed f) q e = absurd (ground arith)
        go (returned (st', delta)) q e =
            let (u, w1, delivered, out) = bind-eq-ok _ _ _ _ e in
            let (emitted, whole) = (flush_complete st final).0 st' delta q in
            let (now_sent, same_log) = deliver-sent delta w u w1 delivered in
            let final_text : text ≡ final = ground arith in
            let same : w1 ≡ w' = ground arith in
            (
              final_text,
              ap sent (sym same)
                  ∙ now_sent
                  ∙ ap (λ t. t ++ delta) h
                  ∙ append_assoc before st.emitted delta
                  ∙ ap (◌++◌ before) (whole ∙ sym final_text),
              ap log (sym same) ∙ same_log,
            )

    finish-sent :
        (r : Option (Outcome (Session W) Text)) (text : Text) (w' : W)
        → finish o r ≡ some (ok text w')
        → (final : Text) × (s : Session W) × (r ≡ some (ok final s))
          × (flush o (flush_stable_prefix s.stable final) s.world ≡ ok text w')
    unfolding finish
    finish-sent none text w' e = absurd (ground arith)
    finish-sent (some (err f s)) text w' e = absurd (ground arith)
    finish-sent (some (ok final s)) text w' e = (final, s, refl, ground arith)

    start-sent :
        (fuel : ℕ) (r : Result StablePrefixState) (w : W) (text : Text) (w' : W)
        → ((st : StablePrefixState) → r ≡ returned st → st.emitted ≡ [])
        → start o fuel r w ≡ some (ok text w')
        → (sent w' ≡ sent w ++ text)
          × Latest (IsSettled text) (suc (or_default o.stable_samples 3)) (log w')
          × (0 < length (trim text))
    unfolding start Holds watcher
    start-sent fuel (failed f) w text w' h e = absurd (ground arith)
    start-sent fuel (returned st) w text w' h e =
        let s0 : Session W = record { stable = st; world = w } in
        let (final, s, waited, flushed) =
          finish-sent (wait_for_streaming_completion (watcher o) fuel s0) text w' e in
        let held =
          wait_keeps (watcher o) (Holds (sent w)) (watcher-Kept (sent w)) fuel s0 final s
            (sym (ap (◌++◌ (sent w)) (h st refl) ∙ append-nil (sent w))) waited in
        let (agreed, some_text) =
          wait-IsAgreed (watcher o) (λ x. log x.world) watcher-Logged fuel s0 final s waited in
        let (same, now_sent, same_log) =
          flush-sent s.stable final (sent w) s.world text w' held flushed in
        (
          now_sent,
          subst (λ t. Latest (IsSettled t) (suc (or_default o.stable_samples 3)) (log w'))
              (sym same)
              (subst (Latest (IsSettled final) (suc (or_default o.stable_samples 3))) (sym same_log)
                agreed),
          subst (λ t. 0 < length (trim t)) (sym same) some_text,
        )

    create-emitted :
        (n h : ℕ) (st : StablePrefixState)
        → create_stable_prefix_state n h ≡ returned st
        → st.emitted ≡ []
    unfolding create_stable_prefix_state
    create-emitted n h st e = ground arith

    -- When streamAssistantText returns a text, the deltas handed to the client add up to exactly
    -- this text, and the last stableSamples + 1 observations all show an existing, completed turn
    -- that normalises to this non-blank text.
    pub stream_delivered :
        (fuel : ℕ) (w : W) (text : Text) (w' : W)
        → stream_assistant_text o fuel w ≡ some (ok text w')
        → (sent w' ≡ sent w ++ text)
          × Latest (IsSettled text) (suc (or_default o.stable_samples 3)) (log w')
          × (0 < length (trim text))
    unfolding stream_assistant_text
    stream_delivered fuel w text w' e =
        start-sent fuel _ w text w' (λ st created. create-emitted _ _ st created) e

module _ {W : Type 0} (o : Streamer W) where
  -- The clock does not run backwards, and a sleep takes at least its time.
  pub record Running : Type 0 where
    pub sleeps : (ms : ℕ) (w : W) → o.now w + ms ≤ o.now (o.sleep ms w)
    pub observes : (w : W) (a : Snapshot) (w' : W) → o.observe w ≡ ok a w' → o.now w ≤ o.now w'
    pub delivers :
        (delta : Text) (w : W) (u : Unit {0}) (w' : W)
        → o.on_delta delta w ≡ ok u w'
        → o.now w ≤ o.now w'

  lift-ok_world :
      {A : Type 0} (st : StablePrefixState) (m : Outcome W A) (a : A) (s' : Session W)
      → lift st m ≡ ok a s'
      → m ≡ ok a s'.world
  lift-ok_world st (ok b w) a s' e = ground arith
  lift-ok_world st (err f w) a s' e = absurd (ground arith)

  module _ (c : Running) where
    deliver-now :
        (delta : Text) (w : W) (u : Unit {0}) (w' : W)
        → deliver o delta w ≡ ok u w'
        → o.now w ≤ o.now w'
    unfolding deliver
    deliver-now [] w u w' e = ground arith
    deliver-now (d ∷ ds) w u w' e = c.delivers (d ∷ ds) w u w' (ground arith)

    report-now :
        (r : Result (StablePrefixState × Text)) (s : Session W) (u : Unit {0}) (s' : Session W)
        → report o r s ≡ ok u s'
        → o.now s.world ≤ o.now s'.world
    unfolding report
    report-now (failed f) s u s' e = absurd (ground arith)
    report-now (returned (st, delta)) s u s' e =
        deliver-now delta s.world u s'.world (lift-ok_world st (deliver o delta s.world) u s' e)

    on_snapshot-now :
        (a : Snapshot) (s : Session W) (u : Unit {0}) (s' : Session W)
        → on_snapshot o a s ≡ ok u s'
        → o.now s.world ≤ o.now s'.world
    unfolding on_snapshot
    on_snapshot-now a s u s' e = elim (Bool-cases a.exists) [
      | inr gone ↦ ground arith
      | inl here ↦
          report-now (observe_stable_prefix s.stable (normalize_assistant_text a.text)) s u s'
            (ground arith)
    ]

    watcher-Progress : Progress (watcher o)
    unfolding watcher
    watcher-Progress = record {
      sleeps = λ ms s. c.sleeps ms s.world;
      observes = λ s a s' e.
          c.observes s.world a s'.world (lift-ok_world s.stable (o.observe s.world) a s' e);
      reports = on_snapshot-now;
    }

    finish-ne-none : (r : Option (Outcome (Session W) Text)) → r ≢ none → finish o r ≢ none
    unfolding finish
    finish-ne-none none h = absurd (h refl)
    finish-ne-none (some (err f s)) h = λ e. cc
    finish-ne-none (some (ok t s)) h = λ e. cc

    start-ne-none :
        (fuel : ℕ) (r : Result StablePrefixState) (w : W)
        → 0 < or_default o.poll_interval_ms 200
        → or_default o.timeout_ms 240000 + 2 ≤ fuel
        → start o fuel r w ≢ none
    unfolding start watcher
    start-ne-none fuel (failed f) w pos h = λ e. cc
    start-ne-none fuel (returned st) w pos h =
        finish-ne-none _ (wait_ends (watcher o) watcher-Progress fuel _ pos h)

    -- With a clock that runs and a positive poll interval the stream ends, with a text or an
    -- error, within timeout + 2 rounds.
    pub stream_ends :
        (fuel : ℕ) (w : W)
        → 0 < or_default o.poll_interval_ms 200
        → or_default o.timeout_ms 240000 + 2 ≤ fuel
        → stream_assistant_text o fuel w ≢ none
    unfolding stream_assistant_text
    stream_ends fuel w pos h = start-ne-none fuel _ w pos h
