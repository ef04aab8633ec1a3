-- ===== src/Stream/StablePrefix/Laws.antt =====
-- What src/stream/stable-prefix.ts promises of the text that it lets out.
use chatgpt_web_gateway.Base.{
  ◌-◌, ◌≤◌, ◌≡◌, sym, inl, inr, ◌⊎◌, ◌↔◌, [], ◌++◌, arith, Bool-cases, ltb, length, take, drop, All,
  ◌≢◌, append-nil, All-mono, drop-length, Prefix, Prefix-refl, Prefix-trans, append-drop_of_Prefix,
}
use chatgpt_web_gateway.Text.{Text, starts_with}
use chatgpt_web_gateway.Text.Laws.{starts_with-Prefix, Prefix-starts_with}
use chatgpt_web_gateway.Text.Points.{points, join, join-take-points}
use chatgpt_web_gateway.Stream.{returned, failed, stream_diverged}
use chatgpt_web_gateway.Stream.StablePrefix.{
  StablePrefixState, window, committable, next_emitted, longest_common_prefix,
  observe_stable_prefix, flush_stable_prefix,
}
use chatgpt_web_gateway.Stream.StablePrefix.Common.{longest_common_prefix-Prefix}

next_emitted-Prefix :
    (state : StablePrefixState) (stable : Text) → Prefix state.emitted (next_emitted state stable)
unfolding next_emitted
next_emitted-Prefix state stable =
    elim (Bool-cases (starts_with state.emitted (committable state.holdback_code_points stable))) [
      | inl e ↦ rw e (starts_with-Prefix _ _ e)
      | inr e ↦ rw e (Prefix-refl _)
    ]

next_emitted_cases :
    (state : StablePrefixState) (stable : Text)
    → (next_emitted state stable
        ≡ join (take (length (points stable) - state.holdback_code_points) (points stable)))
      ⊎ (next_emitted state stable ≡ state.emitted)
unfolding next_emitted
next_emitted_cases state stable = ground arith

abbrev stable_text : StablePrefixState → Text → Text
stable_text state text = longest_common_prefix (window state text)

-- An observation that is not refused found the emitted text at the start of the new one, and either
-- the window is not full yet, or the emitted text is at the start of the stable text.
observe_cases :
    (state : StablePrefixState) (text : Text) (state' : StablePrefixState) (delta : Text)
    → observe_stable_prefix state text ≡ returned (state', delta)
    → Prefix state.emitted text
      × (state'.samples ≡ window state text)
      × (state'.stable_samples ≡ state.stable_samples)
      × (state'.holdback_code_points ≡ state.holdback_code_points)
      × (((state'.emitted ≡ state.emitted) × (delta ≡ []))
          ⊎ (Prefix state.emitted (stable_text state text)
              × (state.stable_samples ≤ length (window state text))
              × (state'.emitted ≡ next_emitted state (stable_text state text))
              × (delta
                  ≡ drop (length state.emitted) (next_emitted state (stable_text state text)))))
unfolding observe_stable_prefix
observe_cases state text state' delta e =
    let here = starts_with state.emitted text in
    let full = ltb (length (window state text)) state.stable_samples in
    let there = starts_with state.emitted (stable_text state text) in
    elim (Bool-cases here) [
      | inr no_prefix ↦ absurd (ground arith)
      | inl prefix ↦ elim (Bool-cases full) [
        | inl short ↦ (
          starts_with-Prefix _ _ prefix,
          ground arith,
          ground arith,
          ground arith,
          inl (ground arith, ground arith),
        )
        | inr long ↦ elim (Bool-cases there) [
          | inr lost ↦ absurd (ground arith)
          | inl kept ↦ (
            starts_with-Prefix _ _ prefix,
            ground arith,
            ground arith,
            ground arith,
            inr (starts_with-Prefix _ _ kept, ground arith, ground arith, ground arith),
          )
        ]
      ]
    ]

module _ (state : StablePrefixState) (text : Text) (state' : StablePrefixState) (delta : Text) where
  -- An accepted observation appends its delta to the emitted text, which is a prefix of the
  -- observed text, and keeps the settings.
  pub observe_grows :
      observe_stable_prefix state text ≡ returned (state', delta)
      → (state'.emitted ≡ state.emitted ++ delta)
        × Prefix state.emitted text
        × (state'.stable_samples ≡ state.stable_samples)
        × (state'.holdback_code_points ≡ state.holdback_code_points)
  observe_grows e =
      let (here, samples, stable, holdback, step) = observe_cases state text state' delta e in
      (grown step, here, stable, holdback)
    where
      grown :
          ((state'.emitted ≡ state.emitted) × (delta ≡ []))
            ⊎ (Prefix state.emitted (stable_text state text)
                × (state.stable_samples ≤ length (window state text))
                × (state'.emitted ≡ next_emitted state (stable_text state text))
                × (delta
                    ≡ drop (length state.emitted) (next_emitted state (stable_text state text))))
          → state'.emitted ≡ state.emitted ++ delta
      grown (inl (same, nothing)) = rw (same, nothing) (sym (append-nil state.emitted))
      grown (inr (_, _, emitted, cut)) =
          rw (emitted, cut)
            (sym (
              append-drop_of_Prefix state.emitted _
                (next_emitted-Prefix state (stable_text state text))))

  -- Text is let out only when the window is full, all samples of the window begin with all text
  -- let out, and the holdback is kept.
  pub observe_delta_stable :
      observe_stable_prefix state text ≡ returned (state', delta)
      → delta ≢ []
      → (state'.samples ≡ window state text)
        × (state.stable_samples ≤ length state'.samples)
        × All (Prefix state'.emitted) state'.samples
        × (let shared = points (longest_common_prefix state'.samples) in
            state'.emitted ≡ join (take (length shared - state.holdback_code_points) shared))
  observe_delta_stable e some_text =
      let (here, samples, _, _, step) = observe_cases state text state' delta e in
      released samples step
    where
      released :
          state'.samples ≡ window state text
          → ((state'.emitted ≡ state.emitted) × (delta ≡ []))
            ⊎ (Prefix state.emitted (stable_text state text)
                × (state.stable_samples ≤ length (window state text))
                × (state'.emitted ≡ next_emitted state (stable_text state text))
                × (delta
                    ≡ drop (length state.emitted) (next_emitted state (stable_text state text))))
          → (state'.samples ≡ window state text)
            × (state.stable_samples ≤ length state'.samples)
            × All (Prefix state'.emitted) state'.samples
            × (let shared = points (longest_common_prefix state'.samples) in
                state'.emitted ≡ join (take (length shared - state.holdback_code_points) shared))
      released samples (inl (_, nothing)) = absurd (some_text nothing)
      released samples (inr (_, full, emitted, cut)) =
          elim (next_emitted_cases state (stable_text state text)) [
            | inr kept ↦ absurd (some_text (rw (cut, kept) (drop-length state.emitted)))
            | inl new ↦ (
              samples,
              rw samples full,
              rw (samples, emitted, new)
                  (All-mono _ _ (window state text)
                    (λ sample p. Prefix-trans _ _ sample (join-take-points _ _) p)
                    (longest_common_prefix-Prefix (window state text))),
              rw (samples, emitted, new),
            )
          ]

-- The flush lets out the rest of the final text, and fails exactly when the final text does not
-- begin with the emitted text.
pub flush_complete :
    (state : StablePrefixState) (final : Text)
    → ((state' : StablePrefixState) (delta : Text)
        → flush_stable_prefix state final ≡ returned (state', delta)
        → (state'.emitted ≡ final) × (state.emitted ++ delta ≡ final))
      × ((flush_stable_prefix state final ≡ failed stream_diverged) ↔ ¬ Prefix state.emitted final)
unfolding flush_stable_prefix
flush_complete state final = elim (Bool-cases (starts_with state.emitted final)) [
  | inl e ↦ (
    (λ state' delta r. (
      ground arith,
      let cut : delta ≡ drop (length state.emitted) final = ground arith in
          rw cut (append-drop_of_Prefix _ _ (starts_with-Prefix _ _ e)),
    )),
    (λ r. absurd (ground arith), λ no_prefix. absurd (no_prefix (starts_with-Prefix _ _ e))),
  )
  | inr e ↦ (
    (λ state' delta r. absurd (ground arith)),
    (λ r p. cc (Prefix-starts_with _ _ p), λ _. ground arith),
  )
]
