-- ===== src/Text/Search.antt =====
-- Where a string includes another, and what a longer string adds.
use chatgpt_web_gateway.Base.{
  drop-append_length, ℕ, zero, suc, ◌+◌, ◌-◌, ◌≤◌, ◌≡◌, refl, sym, ap, ◌∙◌, subst, true, [], ◌∷◌,
  ◌++◌, arith, length, take, drop, inl, inr, Bool-cases,
}
use chatgpt_web_gateway.Text.{Text, starts_with, ends_with, includes}
use chatgpt_web_gateway.Text.Laws.{text_eq_refl}

pub includes-at :
    (p s : Text)
    → includes p s ≡ true
    → (i : ℕ) × (i ≤ length s) × (starts_with p (drop i s) ≡ true)
unfolding includes
includes-at p [] h = (0, omega arith, h)
includes-at p (c ∷ cs) h = elim (Bool-cases (starts_with p (c ∷ cs))) [
  | inl e ↦ (0, omega arith, e)
  | inr n ↦ let (i, l, e) = includes-at p cs (ground arith) in (suc i, omega arith, e)
]

pub includes_here : (p s : Text) → starts_with p s ≡ true → includes p s ≡ true
unfolding includes
includes_here p [] h = h
includes_here p (c ∷ cs) h = ground arith

pub includes_of_drop :
    (p : Text) (i : ℕ) (s : Text) → includes p (drop i s) ≡ true → includes p s ≡ true
unfolding includes
includes_of_drop p zero s h = h
includes_of_drop p (suc i) [] h = h
includes_of_drop p (suc i) (c ∷ cs) h = ground (arith, includes_of_drop p i cs h)

pub starts_with_of_append :
    (p s t : Text) → length p ≤ length s → starts_with p (s ++ t) ≡ true → starts_with p s ≡ true
unfolding starts_with
starts_with_of_append [] s t l h = refl
starts_with_of_append (x ∷ p) [] t l h = absurd (omega arith)
starts_with_of_append (x ∷ p) (c ∷ s) t l h =
    ground (arith, starts_with_of_append p s t (omega arith) (ground arith))

pub starts_with-append_more :
    (p s t : Text) → starts_with p s ≡ true → starts_with p (s ++ t) ≡ true
unfolding starts_with
starts_with-append_more [] s t h = refl
starts_with-append_more (x ∷ p) [] t h = cc
starts_with-append_more (x ∷ p) (c ∷ s) t h =
    ground (arith, starts_with-append_more p s t (ground arith))

-- A string that another one starts with, cut short, is a slice of it.
pub slice_of_starts_with :
    (p s t : Text) → length s ≤ length p → starts_with p (s ++ t) ≡ true → s ≡ take (length s) p
unfolding starts_with
slice_of_starts_with p [] t l h = refl
slice_of_starts_with [] (c ∷ s) t l h = absurd (omega arith)
slice_of_starts_with (x ∷ p) (c ∷ s) t l h =
    let tail = slice_of_starts_with p s t (omega arith) (ground arith) in ground arith

pub drop-append_le : (i : ℕ) (s t : Text) → i ≤ length s → drop i (s ++ t) ≡ drop i s ++ t
drop-append_le zero s t l = refl
drop-append_le (suc i) [] t l = absurd (omega arith)
drop-append_le (suc i) (c ∷ s) t l = drop-append_le i s t (omega arith)

drop_empty : (n : ℕ) → drop {A = ℕ} n [] ≡ []
drop_empty zero = refl
drop_empty (suc n) = refl

pub drop_twice : (i j : ℕ) (s : Text) → drop i (drop j s) ≡ drop (j + i) s
drop_twice i zero s = ap (λ k. drop k s) (omega arith)
drop_twice i (suc j) [] = drop_empty i ∙ sym (drop_empty (suc j + i))
drop_twice i (suc j) (c ∷ s) =
    let n : suc (j + i) ≡ suc j + i = omega arith in drop_twice i j s ∙ ap (λ k. drop k (c ∷ s)) n

pub includes-append : (p s t : Text) → includes p s ≡ true → includes p (s ++ t) ≡ true
unfolding includes
includes-append p [] [] h = h
includes-append [] [] (c ∷ t) h = includes_here [] (c ∷ t) (starts_with-append_more [] [] (c ∷ t) h)
includes-append (x ∷ p) [] (c ∷ t) h =
    includes_here (x ∷ p) (c ∷ t) (starts_with-append_more (x ∷ p) [] (c ∷ t) h)
includes-append p (c ∷ s) t h = elim (Bool-cases (starts_with p (c ∷ s))) [
  | inl e ↦ ground (arith, starts_with-append_more p (c ∷ s) t e)
  | inr n ↦ ground (arith, includes-append p s t (ground arith))
]

pub ends_with_of_drop :
    (p s : Text) (i : ℕ)
    → i ≤ length s
    → drop i s ≡ p
    → length p ≡ length s - i
    → ends_with p s ≡ true
unfolding ends_with
ends_with_of_drop p s i l e n =
    let at : length s - length p ≡ i = omega arith in rw (at, e) (ground (arith, text_eq_refl p))

pub includes_after : (p s t : Text) → includes p t ≡ true → includes p (s ++ t) ≡ true
includes_after p s t h =
    includes_of_drop p (length s) (s ++ t)
      (subst (λ x. includes p x ≡ true) (sym (drop-append_length s t)) h)
