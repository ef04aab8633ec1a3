-- ===== src/Stream/StablePrefix.antt =====
-- src/stream/stable-prefix.ts: the prefix of an Assistant turn that is safe to stream, because the
-- last samples agree on it and it ends some code points before their common end.
pub mod Common
pub mod Laws
use chatgpt_web_gateway.Base.{
  ℕ, zero, suc, ◌-◌, min, Bool, true, false, not, List, [], ◌∷◌, ◌++◌, map, ltb, ◌==◌,
  if◌then◌else◌, length, take, drop, take_last,
}
use chatgpt_web_gateway.Text.{Text, text_eq, starts_with}
use chatgpt_web_gateway.Text.Points.{points, join}
use chatgpt_web_gateway.Stream.{Result, returned, failed, stream_diverged, range_error}

pub record StablePrefixState : Type 0 where
  pub emitted : Text
  pub samples : List Text
  pub stable_samples : ℕ
  pub holdback_code_points : ℕ

-- while (index < length && first[index] === current[index]) index += 1
matching : ℕ → List Text → List Text → ℕ
unfolding text_eq
matching (suc n) (x ∷ xs) (y ∷ ys) = if text_eq x y then suc (matching n xs ys) else 0
matching _ _ _ = 0

-- The loop over the values after the first, from a length on.
narrow : List Text → ℕ → List (List Text) → ℕ
unfolding matching
narrow first len [] = len
narrow first len (current ∷ more) =
    let found = matching (min len (length current)) first current in
    if found == 0 then 0 else narrow first found more

pub common_points : Text → List Text → List Text
unfolding narrow points
common_points value more =
    take (narrow (points value) (length (points value)) (map points more)) (points value)

unfoldable pub longest_common_prefix : List Text → Text
unfolding common_points
longest_common_prefix [] = []
longest_common_prefix (value ∷ more) = join (common_points value more)

unfoldable pub create_stable_prefix_state : ℕ → ℕ → Result StablePrefixState
create_stable_prefix_state stable_samples holdback_code_points =
    if ltb stable_samples 1
    then failed range_error
    else returned (record {
      emitted = [];
      samples = [];
      stable_samples = stable_samples;
      holdback_code_points = holdback_code_points;
    })

-- The last stableSamples texts observed, the newest at the end.
abbrev pub window : StablePrefixState → Text → List Text
window state text = take_last state.stable_samples (state.samples ++ text ∷ [])

committable : ℕ → Text → Text
unfolding points
committable holdback stable = join (take (length (points stable) - holdback) (points stable))

-- The emitted text after a full window.
next_emitted : StablePrefixState → Text → Text
unfolding committable starts_with
next_emitted state stable =
    if starts_with state.emitted (committable state.holdback_code_points stable)
    then committable state.holdback_code_points stable
    else state.emitted

unfoldable pub observe_stable_prefix : StablePrefixState → Text → Result (StablePrefixState × Text)
unfolding next_emitted longest_common_prefix
observe_stable_prefix state text =
    let samples = window state text in
    let stable = longest_common_prefix samples in
    let emitted = next_emitted state stable in
    if not (starts_with state.emitted text)
    then failed stream_diverged
    else if ltb (length samples) state.stable_samples
    then returned (record state { samples = samples }, [])
    else if not (starts_with state.emitted stable)
    then failed stream_diverged
    else returned
        (record state { emitted = emitted; samples = samples }, drop (length state.emitted) emitted)

unfoldable pub flush_stable_prefix : StablePrefixState → Text → Result (StablePrefixState × Text)
unfolding starts_with
flush_stable_prefix state final =
    if starts_with state.emitted final
    then returned (
      record state { emitted = final; samples = window state final },
      drop (length state.emitted) final,
    )
    else failed stream_diverged
