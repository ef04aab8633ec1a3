-- ===== src/Tools/Detection/Stream.antt =====
-- What ToolDetectionBuffer of src/tools/detection-buffer.ts lets through of an answer that arrives
-- in deltas, whatever the deltas are.
use chatgpt_web_gateway.Base.{
  ◌-◌, ◌≡◌, refl, sym, ap, ◌∙◌, subst, true, false, ◌||◌, List, [], ◌∷◌, ◌++◌, arith, ◌==◌, length,
  take, drop, take_last, inl, inr, Bool-cases, take-append-drop, flatten, append_assoc, append-nil,
}
use mathlib.Core.List
use chatgpt_web_gateway.Base.Results.{returned}
use chatgpt_web_gateway.Text.{Text, starts_with, includes, trim_start}
use chatgpt_web_gateway.Tools.{tool_protocol_start}
use chatgpt_web_gateway.Tools.Detection.Overlap.{
  includes_held, marked-append, IsOther, IsOther-append,
}
use chatgpt_web_gateway.Tools.Detection.{
  ToolStreamClassification, pending, tool, text_output, ToolDetectionBuffer,
  longest_sentinel_prefix_suffix, create_tool_detection_buffer, emission, push_text, push_pending,
  push_enabled, push,
}

-- An enabled buffer, the text of the deltas it was given, and the text it has let through.
pub data Pushed : (given let_through : Text) → ToolDetectionBuffer → Type 0 where
  created : Pushed [] [] (create_tool_detection_buffer true)
  pushed :
      {t e : Text} {b b' : ToolDetectionBuffer} (delta : Text) (out : List Text)
      → Pushed t e b
      → push delta b ≡ (b', returned out)
      → Pushed (t ++ delta) (e ++ flatten out) b'

-- A marker in the whole text shows in what is kept of it, whatever follows.
abbrev Suffices : (t kept : Text) → Type 0
Suffices t kept =
    (d : Text)
    → includes tool_protocol_start (t ++ d) ≡ true
    → includes tool_protocol_start (kept ++ d) ≡ true

pub data Held (t e : Text) : ToolStreamClassification → Text → Type 0 where
  waits :
      e ≡ []
      → starts_with tool_protocol_start (trim_start t) ≡ false
      → (length (trim_start t) == 0 || starts_with (trim_start t) tool_protocol_start) ≡ true
      → Held t e pending t
  asks : e ≡ [] → starts_with tool_protocol_start (trim_start t) ≡ true → Held t e tool t
  flows :
      {kept : Text}
      → e ++ kept ≡ t
      → includes tool_protocol_start t ≡ false
      → Suffices t kept
      → IsOther t
      → Held t e text_output kept

abbrev pub HeldBy : Text → Text → ToolDetectionBuffer → Type 0
HeldBy t e b = (b.enabled ≡ true) × Held t e b.state b.buffer

pub flatten-emission : (t : Text) → flatten (emission t) ≡ t
unfolding emission mathlib.Core.List.flatten
flatten-emission [] = refl
flatten-emission (c ∷ cs) = append-nil (c ∷ cs)

-- The end of push keeps what a marker can need.
push_text_keeps :
    (t e : Text) (b : ToolDetectionBuffer)
    → e ++ b.buffer ≡ t
    → Suffices t b.buffer
    → includes tool_protocol_start b.buffer ≡ false
    → IsOther t
    → let held = longest_sentinel_prefix_suffix b.buffer in
      Held t
        (e ++ flatten (emission (take (length b.buffer - held) b.buffer)))
        text_output
        (take_last held b.buffer)
push_text_keeps t e b same enough absent other =
    let m = length b.buffer - longest_sentinel_prefix_suffix b.buffer in
    flows
      (rw
        (
          flatten-emission (take m b.buffer),
          append_assoc e (take m b.buffer) (drop m b.buffer),
          take-append-drop m b.buffer,
        )
        same)
      (elim (Bool-cases (includes tool_protocol_start t)) [
        | inl h ↦ absurd (
            ground (
              arith,
              subst (λ z. includes tool_protocol_start z ≡ true) (append-nil b.buffer)
                  (enough []
                    (subst (λ z. includes tool_protocol_start z ≡ true) (sym (append-nil t)) h)),
            ))
        | inr n ↦ n
      ])
      (λ d h. includes_held b.buffer d absent (enough d h)) other

push_text-HeldBy :
    (t e : Text) (b b' : ToolDetectionBuffer) (out : List Text)
    → b.enabled ≡ true
    → b.state ≡ text_output
    → e ++ b.buffer ≡ t
    → Suffices t b.buffer
    → IsOther t
    → push_text b ≡ (b', returned out)
    → HeldBy t (e ++ flatten out) b'
unfolding push_text
push_text-HeldBy t e b b' out en st same enough other h =
    elim (Bool-cases (includes tool_protocol_start b.buffer)) [
      | inl i ↦ absurd (ground arith)
      | inr n ↦
          let held = longest_sentinel_prefix_suffix b.buffer in
          let eb : record b { buffer = take_last held b.buffer } ≡ b' = ground arith in
          let eo : emission (take (length b.buffer - held) b.buffer) ≡ out = ground arith in
          subst (λ z. HeldBy t (e ++ flatten out) z) eb
            (subst (λ o. HeldBy t (e ++ flatten o) (record b { buffer = take_last held b.buffer }))
              eo
              (
                en,
                subst
                    (λ s.
                      Held t (e ++ flatten (emission (take (length b.buffer - held) b.buffer))) s
                        (take_last held b.buffer))
                    (sym st) (push_text_keeps t e b same enough n other),
              ))
    ]

HeldBy-push_pending :
    (t : Text) (b b' : ToolDetectionBuffer) (out : List Text)
    → b.enabled ≡ true
    → b.state ≡ pending
    → b.buffer ≡ t
    → push_pending b ≡ (b', returned out)
    → HeldBy t (flatten out) b'
unfolding push_pending mathlib.Core.List.flatten
HeldBy-push_pending t b b' out en st same h =
    elim (Bool-cases (starts_with tool_protocol_start (trim_start b.buffer))) [
      | inl s ↦
          let eb : record b { state = tool } ≡ b' = ground arith in
          let eo : [] ≡ out = ground arith in
          subst (λ z. HeldBy t (flatten out) z) eb
            (subst (λ o. HeldBy t (flatten o) (record b { state = tool })) eo
              (
                en,
                subst (λ x. Held t [] tool x) (sym same)
                    (asks refl
                      (subst (λ x. starts_with tool_protocol_start (trim_start x) ≡ true) same s)),
              ))
      | inr n ↦
          elim (Bool-cases (
            length (trim_start b.buffer) == 0
            || starts_with (trim_start b.buffer) tool_protocol_start)) [
              | inl w ↦
                  let eb : b ≡ b' = ground arith in
                  let eo : [] ≡ out = ground arith in
                  subst (λ z. HeldBy t (flatten out) z) eb
                    (subst (λ o. HeldBy t (flatten o) b) eo
                      (
                        en,
                        subst (λ x. Held t [] b.state x) (sym same)
                            (subst (λ s. Held t [] s t) (sym st)
                              (waits refl
                                (subst (λ x. starts_with tool_protocol_start (trim_start x) ≡ false)
                                  same n)
                                (subst
                                  (λ x.
                                    (length (trim_start x) == 0
                                      || starts_with (trim_start x) tool_protocol_start)
                                    ≡ true)
                                  same w))),
                      ))
              | inr m ↦
                  push_text-HeldBy t [] (record b { state = text_output }) b' out en refl same
                    (λ d h. subst (λ x. includes tool_protocol_start (x ++ d) ≡ true) (sym same) h)
                    (subst IsOther same
                      (record { not_blank = ground arith; not_begun = ground arith }))
                    (ground arith)
            ]
    ]

pub push_enabled-HeldBy :
    (t e d : Text) (s : ToolStreamClassification) (kept : Text) (b b' : ToolDetectionBuffer)
    (out : List Text)
    → Held t e s kept
    → b.enabled ≡ true
    → b.state ≡ s
    → b.buffer ≡ kept ++ d
    → (length d == 0) ≡ false
    → push_enabled s b ≡ (b', returned out)
    → HeldBy (t ++ d) (e ++ flatten out) b'
unfolding push_enabled mathlib.Core.List.flatten
push_enabled-HeldBy t e d pending kept b b' out (waits empty n w) en st same some h =
    rw empty (HeldBy-push_pending (t ++ d) b b' out en st same h)
push_enabled-HeldBy t e d tool kept b b' out (asks empty s) en st same some h =
    let eb : b ≡ b' = ground arith in
    let eo : [] ≡ out = ground arith in
    rw empty (
      subst (λ z. HeldBy (t ++ d) (flatten out) z) eb
        (subst (λ o. HeldBy (t ++ d) (flatten o) b) eo
          (
            en,
            subst (λ x. Held (t ++ d) [] b.state x) (sym same)
                (subst (λ c. Held (t ++ d) [] c (t ++ d)) (sym st)
                  (asks refl (marked-append t d s))),
          )))
push_enabled-HeldBy t e d text_output kept b b' out (flows whole absent enough other) en st same
      some h =
    push_text-HeldBy (t ++ d) e b b' out en st (rw (same, sym (append_assoc e kept d), whole) refl)
      (λ more i.
        subst (λ x. includes tool_protocol_start x ≡ true)
          (sym (append_assoc kept d more) ∙ ap (λ x. x ++ more) (sym same))
          (enough (d ++ more)
            (subst (λ x. includes tool_protocol_start x ≡ true) (append_assoc t d more) i)))
      (IsOther-append t d other) h
