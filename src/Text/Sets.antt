-- ===== src/Text/Sets.antt =====
-- Set<string>: membership by ===.
use mathlib.Core.Logic.Or
use mathlib.Core.List.{Mem, mem-cons, not-mem-nil}
use chatgpt_web_gateway.Base.{
  ◌≡◌, Bool, true, false, inl, inr, List, [], ◌∷◌, arith, Bool-cases, any,
}
use chatgpt_web_gateway.Text.{Text, text_eq}
use chatgpt_web_gateway.Text.Laws.{text_eq_iff}

-- names.has(name)
abbrev pub has : List Text → Text → Bool
has names name = any (text_eq name) names

pub Mem_of_has : (names : List Text) (name : Text) → has names name ≡ true → Mem name names
Mem_of_has [] name h = cc
Mem_of_has (n ∷ ns) name h = elim (Bool-cases (text_eq name n)) [
  | inl e ↦ mem-cons.1 (Or.inl ((text_eq_iff name n).0 e))
  | inr e ↦ mem-cons.1 (Or.inr (Mem_of_has ns name (ground arith)))
]

pub not_mem_of_has : (names : List Text) (name : Text) → has names name ≡ false → ¬ Mem name names
not_mem_of_has [] name h m = not-mem-nil m
not_mem_of_has (n ∷ ns) name h m =
    Or.elim (λ x y. absurd x) (mem-cons.0 m) (λ e. cc ((text_eq_iff name n).1 e, h))
      (not_mem_of_has ns name (ground arith))

pub has-Mem : (names : List Text) (name : Text) → Mem name names → has names name ≡ true
has-Mem names name m = elim (Bool-cases (has names name)) [
  | inl e ↦ e
  | inr e ↦ absurd (not_mem_of_has names name e m)
]

pub has_not_mem : (names : List Text) (name : Text) → ¬ Mem name names → has names name ≡ false
has_not_mem names name h = elim (Bool-cases (has names name)) [
  | inl e ↦ absurd (h (Mem_of_has names name e))
  | inr e ↦ e
]
