-- ===== src/Tools/Detection/Answers.antt =====
-- What the reader of a tool detection buffer (src/tools/detection-buffer.ts) receives in all.
use chatgpt_web_gateway.Base.{
  ◌≡◌, refl, sym, ap, ◌∙◌, subst, ◌↔◌, ◌⊎◌, true, false, ◌||◌, List, [], ◌++◌, arith, ◌==◌, length,
  inl, inr, Bool-cases, flatten, append_assoc, append-nil,
}
use mathlib.Core.List
use chatgpt_web_gateway.Base.Results.{returned, thrown}
use chatgpt_web_gateway.Text.{Text, starts_with, includes, trim_start}
use chatgpt_web_gateway.Text.Search.{includes-append, includes_after}
use chatgpt_web_gateway.Tools.{chatgpt_tool_protocol_invalid, tool_protocol_start}
use chatgpt_web_gateway.Tools.Detection.Overlap.{
  includes_blank, not_start_empty, length_zero, IsOther,
}
use chatgpt_web_gateway.Tools.Detection.Stream.{
  Pushed, created, pushed, Held, HeldBy, waits, asks, flows, push_enabled-HeldBy, flatten-emission,
}
use chatgpt_web_gateway.Tools.Detection.{
  ToolStreamClassification, pending, tool, text_output, ToolDetectionBuffer, Answer,
  create_tool_detection_buffer, push_text, push_enabled, push, finish_text, finish_pending,
  finish_enabled, finish,
}

create-HeldBy : HeldBy [] [] (create_tool_detection_buffer true)
unfolding create_tool_detection_buffer trim_start
create-HeldBy = (refl, waits refl not_start_empty refl)

push-HeldBy :
    (t e d : Text) (b b' : ToolDetectionBuffer) (out : List Text)
    → HeldBy t e b
    → push d b ≡ (b', returned out)
    → HeldBy (t ++ d) (e ++ flatten out) b'
unfolding push mathlib.Core.List.flatten
push-HeldBy t e d b b' out (en, held) h = elim (Bool-cases (length d == 0)) [
  | inl z ↦
      let eb : b ≡ b' = ground arith in
      let eo : [] ≡ out = ground arith in
      let ed : d ≡ [] = length_zero d (ground arith) in
      rw (ed, append-nil t)
        (subst (λ x. HeldBy t (e ++ flatten out) x) eb
          (subst (λ o. HeldBy t (e ++ flatten o) b) eo (rw (append-nil e) (en, held))))
  | inr n ↦
      push_enabled-HeldBy t e d b.state b.buffer (record b { buffer = b.buffer ++ d }) b' out held
        en refl refl n (ground arith)
]

Pushed-HeldBy : (t e : Text) (b : ToolDetectionBuffer) → Pushed t e b → HeldBy t e b
Pushed-HeldBy _ _ _ created = create-HeldBy
Pushed-HeldBy _ _ _ (pushed {t} {e} {b} {b'} delta out p h) =
    push-HeldBy t e delta b b' out (Pushed-HeldBy t e b p) h

-- Absent from a text, the marker is absent from its start.
absent_before :
    (e kept t : Text)
    → e ++ kept ≡ t
    → includes tool_protocol_start t ≡ false
    → includes tool_protocol_start e ≡ false
absent_before e kept t same absent = elim (Bool-cases (includes tool_protocol_start e)) [
  | inl h ↦ absurd (
      ground (
        arith,
        subst (λ x. includes tool_protocol_start x ≡ true) same
            (includes-append tool_protocol_start e kept h),
      ))
  | inr n ↦ n
]

Held-Streamed :
    (t e kept : Text) (s : ToolStreamClassification)
    → Held t e s kept
    → (e ++ kept ≡ t) × (includes tool_protocol_start e ≡ false) × ((s ≡ text_output) ⊎ (e ≡ []))
unfolding includes
Held-Streamed t e _ _ (waits empty n w) =
    (ap (λ x. x ++ t) empty, rw empty not_start_empty, inr empty)
Held-Streamed t e _ _ (asks empty s) = (ap (λ x. x ++ t) empty, rw empty not_start_empty, inr empty)
Held-Streamed t e kept _ (flows same absent enough other) =
    (same, absent_before e kept t same absent, inl refl)

-- However an answer is cut into deltas, what an enabled buffer has let through and what it keeps
-- are the answer so far, what it has let through never holds the start marker, and unless the
-- answer counts as text it is nothing.
pub push_streams :
    (t e : Text) (b : ToolDetectionBuffer)
    → Pushed t e b
    → (e ++ b.buffer ≡ t)
      × (includes tool_protocol_start e ≡ false)
      × ((b.state ≡ text_output) ⊎ (e ≡ []))
push_streams t e b p = Held-Streamed t e b.buffer b.state (Pushed-HeldBy t e b p).1

Held-flows :
    (t e kept : Text) (s : ToolStreamClassification)
    → Held t e s kept
    → s ≡ text_output
    → (e ++ kept ≡ t)
      × (includes tool_protocol_start t ≡ false)
      × ((d : Text)
          → (includes tool_protocol_start (t ++ d) ≡ true)
            ↔ (includes tool_protocol_start (kept ++ d) ≡ true))
Held-flows t e _ _ (waits empty n w) h = cc
Held-flows t e _ _ (asks empty s) h = cc
Held-flows t e kept _ (flows same absent enough other) h = (
  same,
  absent,
  λ d. (
    enough d,
    λ i.
        subst (λ x. includes tool_protocol_start x ≡ true)
          (sym (append_assoc e kept d) ∙ ap (λ x. x ++ d) same)
          (includes_after tool_protocol_start e (kept ++ d) i),
  ),
)

push_enabled_text :
    (s : ToolStreamClassification) (b : ToolDetectionBuffer)
    → s ≡ text_output
    → push_enabled s b ≡ push_text b
unfolding push_enabled
push_enabled_text text_output b e = refl
push_enabled_text pending b e = cc
push_enabled_text tool b e = cc

push_throws_when :
    (delta : Text) (b : ToolDetectionBuffer)
    → b.enabled ≡ true
    → b.state ≡ text_output
    → (length delta == 0) ≡ false
    → ((push delta b).1 ≡ thrown chatgpt_tool_protocol_invalid)
      ↔ (includes tool_protocol_start (b.buffer ++ delta) ≡ true)
unfolding push push_text
push_throws_when delta b en st n =
    let here = push_enabled_text b.state (record b { buffer = b.buffer ++ delta }) st in
    ground arith

push_nothing :
    (delta : Text) (b : ToolDetectionBuffer)
    → (length delta == 0) ≡ true
    → push delta b ≡ (b, returned [])
unfolding push
push_nothing delta b z = ground arith

-- Once the answer counts as text, push throws exactly when the whole answer so far holds the start
-- marker, also where the marker began in an earlier delta.
pub push_throws_iff :
    (t e delta : Text) (b : ToolDetectionBuffer)
    → Pushed t e b
    → b.state ≡ text_output
    → ((push delta b).1 ≡ thrown chatgpt_tool_protocol_invalid)
      ↔ (includes tool_protocol_start (t ++ delta) ≡ true)
push_throws_iff t e delta b p s =
    let (en, held) = Pushed-HeldBy t e b p in
    let (same, absent, enough) = Held-flows t e b.buffer b.state held s in
    elim (Bool-cases (length delta == 0)) [
      | inl z ↦
          let none_thrown = push_nothing delta b z in
          let still : includes tool_protocol_start (t ++ delta) ≡ false =
            rw (length_zero delta (ground arith), append-nil t) absent in
          ground arith
      | inr n ↦ ground (arith, push_throws_when delta b en s n, enough delta)
    ]

-- Nothing but spaces
abbrev pub IsBlank : Text → Type 0
IsBlank t = (length (trim_start t) == 0) ≡ true

-- What finish makes of the whole answer.
pub data Finished (t e : Text) : Answer → Type 0 where
  as_text :
      {b : ToolDetectionBuffer} {out : List Text}
      → b.state ≡ text_output
      → e ++ flatten out ≡ t
      → includes tool_protocol_start t ≡ false
      → IsBlank t ⊎ IsOther t
      → Finished t e (b, returned out)
  as_tool_call :
      {b : ToolDetectionBuffer}
      → b.state ≡ tool
      → e ≡ []
      → b.buffer ≡ t
      → starts_with tool_protocol_start (trim_start t) ≡ true
      → Finished t e (b, returned [])
  cut_short :
      {b : ToolDetectionBuffer}
      → e ≡ []
      → (length (trim_start t) == 0) ≡ false
      → starts_with (trim_start t) tool_protocol_start ≡ true
      → starts_with tool_protocol_start (trim_start t) ≡ false
      → Finished t e (b, thrown chatgpt_tool_protocol_invalid)

finish_flowing :
    (t e : Text) (b : ToolDetectionBuffer)
    → b.state ≡ text_output
    → e ++ b.buffer ≡ t
    → includes tool_protocol_start t ≡ false
    → IsBlank t ⊎ IsOther t
    → Finished t e (finish_text b)
unfolding finish_text
finish_flowing t e b s same absent kind =
    elim (Bool-cases (includes tool_protocol_start b.buffer)) [
      | inl h ↦ absurd (
          ground (
            arith,
            subst (λ x. includes tool_protocol_start x ≡ true) same
                (includes_after tool_protocol_start e b.buffer h),
          ))
      | inr n ↦ rw n (as_text s (rw (flatten-emission b.buffer) same) absent kind)
    ]

finish_waiting :
    (e : Text) (b : ToolDetectionBuffer)
    → e ≡ []
    → starts_with tool_protocol_start (trim_start b.buffer) ≡ false
    → (length (trim_start b.buffer) == 0 || starts_with (trim_start b.buffer) tool_protocol_start)
      ≡ true
    → Finished b.buffer e (finish_pending b)
unfolding finish_pending
finish_waiting e b empty n w = elim (Bool-cases (length (trim_start b.buffer) == 0)) [
  | inl z ↦ rw z (
      finish_flowing b.buffer e (record b { state = text_output }) refl
        (ap (λ x. x ++ b.buffer) empty) (includes_blank b.buffer (ground arith)) (inl z))
  | inr nz ↦
      let marked : starts_with (trim_start b.buffer) tool_protocol_start ≡ true = ground arith in
      rw (nz, n, marked) (cut_short empty nz marked n)
]

finish_held :
    (t e : Text) (b : ToolDetectionBuffer) (s : ToolStreamClassification) (kept : Text)
    → Held t e s kept
    → b.state ≡ s
    → b.buffer ≡ kept
    → Finished t e (finish_enabled s b)
unfolding finish_enabled
finish_held t e b _ _ (waits empty n w) st same =
    subst (λ x. Finished x e (finish_pending b)) same
      (finish_waiting e b empty
        (subst (λ x. starts_with tool_protocol_start (trim_start x) ≡ false) (sym same) n)
        (subst
          (λ x.
            (length (trim_start x) == 0 || starts_with (trim_start x) tool_protocol_start) ≡ true)
          (sym same) w))
finish_held t e b _ _ (asks empty s) st same = as_tool_call st empty same s
finish_held t e b _ kept (flows whole absent enough other) st same =
    finish_flowing t e b st (rw same whole) absent (inr other)

finish_of_enabled :
    (b : ToolDetectionBuffer) → b.enabled ≡ true → finish b ≡ finish_enabled b.state b
unfolding finish
finish_of_enabled b en = ground arith

-- At the end, however it was cut, an answer that starts with the marker, spaces aside, is kept
-- whole and nothing of it is let through. One that is only the beginning of the marker, spaces
-- aside, is an error, and nothing of it was let through. Any other that no push refused is let
-- through whole: it does not hold the marker, and it is nothing but spaces or it is not how the
-- marker begins.
pub finish-Finished :
    (t e : Text) (b : ToolDetectionBuffer) → Pushed t e b → Finished t e (finish b)
finish-Finished t e b p =
    let (en, held) = Pushed-HeldBy t e b p in
    rw (finish_of_enabled b en) (finish_held t e b b.state b.buffer held refl refl)
