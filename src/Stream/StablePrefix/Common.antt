-- ===== src/Stream/StablePrefix/Common.antt =====
-- longestCommonPrefix of src/stream/stable-prefix.ts against its specification.
use chatgpt_web_gateway.Base.{
  ℕ, zero, suc, ◌≤◌, min, ◌≡◌, refl, sym, ap, ◌∙◌, subst, inl, inr, true, false, List, [], ◌∷◌, map,
  arith, Bool-cases, ◌==◌, length, take, All, Prefix, take_of_take, length-take, take-append_length,
  length-append,
}
use chatgpt_web_gateway.Text.{Text}
use chatgpt_web_gateway.Text.Laws.{text_eq_iff}
use chatgpt_web_gateway.Text.Points.{points, join, join-take-points}
use chatgpt_web_gateway.Stream.StablePrefix.{matching, narrow, common_points, longest_common_prefix}

matching-le : (n : ℕ) (xs ys : List Text) → matching n xs ys ≤ n
unfolding matching
matching-le zero xs ys = omega arith
matching-le (suc n) [] ys = omega arith
matching-le (suc n) (x ∷ xs) [] = omega arith
matching-le (suc n) (x ∷ xs) (y ∷ ys) = ground (arith, matching-le n xs ys)

-- The scan stops inside what the two lists share.
take-matching :
    (n : ℕ) (xs ys : List Text) → take (matching n xs ys) xs ≡ take (matching n xs ys) ys
unfolding matching
take-matching zero xs ys = refl
take-matching (suc n) [] ys = refl
take-matching (suc n) (x ∷ xs) [] = refl
take-matching (suc n) (x ∷ xs) (y ∷ ys) = ground (arith, text_eq_iff x y, take-matching n xs ys)

-- And it does not stop earlier than it must.
le-matching :
    (k n : ℕ) (xs ys : List Text)
    → k ≤ n
    → k ≤ length xs
    → take k xs ≡ take k ys
    → k ≤ matching n xs ys
unfolding matching
le-matching zero n xs ys h l e = omega arith
le-matching (suc k) zero xs ys h l e = absurd (omega arith)
le-matching (suc k) (suc n) [] ys h l e = absurd (omega arith)
le-matching (suc k) (suc n) (x ∷ xs) [] h l e = cc
le-matching (suc k) (suc n) (x ∷ xs) (y ∷ ys) h l e =
    ground (arith, text_eq_iff x y, le-matching k n xs ys (omega arith) (omega arith))

narrow-le : (first : List Text) (len : ℕ) (more : List (List Text)) → narrow first len more ≤ len
unfolding narrow
narrow-le first len [] = omega arith
narrow-le first len (c ∷ cs) = ground (
  arith,
  matching-le (min len (length c)) first c,
  narrow-le first (matching (min len (length c)) first c) cs,
)

abbrev Agree : ℕ → List Text → List (List Text) → Type 0
Agree k first more = All (λ c. take k first ≡ take k c) more

Agree-zero : (first : List Text) (more : List (List Text)) → Agree 0 first more
Agree-zero first [] = tt
Agree-zero first (c ∷ cs) = (refl, Agree-zero first cs)

narrow_zero :
    (first : List Text) (len : ℕ) (c : List Text) (cs : List (List Text))
    → (matching (min len (length c)) first c == 0) ≡ true
    → narrow first len (c ∷ cs) ≡ 0
unfolding narrow
narrow_zero first len c cs h = ground arith

narrow_more :
    (first : List Text) (len : ℕ) (c : List Text) (cs : List (List Text))
    → (matching (min len (length c)) first c == 0) ≡ false
    → narrow first len (c ∷ cs) ≡ narrow first (matching (min len (length c)) first c) cs
unfolding narrow
narrow_more first len c cs h = ground arith

narrow-Agree :
    (first : List Text) (len : ℕ) (more : List (List Text))
    → Agree (narrow first len more) first more
narrow-Agree first len [] = tt
narrow-Agree first len (c ∷ cs) =
    let found = matching (min len (length c)) first c in
    elim (Bool-cases (found == 0)) [
      | inl e ↦
          subst (λ k. Agree k first (c ∷ cs)) (sym (narrow_zero first len c cs e))
            (refl, Agree-zero first cs)
      | inr e ↦
          subst (λ k. Agree k first (c ∷ cs)) (sym (narrow_more first len c cs e))
            (
              take_of_take _ found first c (narrow-le first found cs)
                  (take-matching (min len (length c)) first c),
              narrow-Agree first found cs,
            )
    ]

le-narrow :
    (k : ℕ) (first : List Text) (len : ℕ) (more : List (List Text))
    → k ≤ len
    → k ≤ length first
    → Agree k first more
    → k ≤ narrow first len more
unfolding narrow
le-narrow k first len [] h l a = h
le-narrow k first len (c ∷ cs) h l (e, a) =
    let reach : k ≤ length c = omega (arith, ap length e, length-take k first, length-take k c) in
    ground (
      arith,
      le-matching k (min len (length c)) first c (omega arith) l e,
      le-narrow k first (matching (min len (length c)) first c) cs,
    )

-- What a first list shares with each list of more, it shares as a prefix.
Agree-Prefix :
    (k : ℕ) (value : Text) (more : List Text)
    → Agree k (points value) (map points more)
    → All (Prefix (join (take k (points value)))) more
Agree-Prefix k value [] a = tt
Agree-Prefix k value (v ∷ vs) (e, a) =
    (subst (λ ps. Prefix (join ps) v) (sym e) (join-take-points k v), Agree-Prefix k value vs a)

-- longestCommonPrefix is a prefix of every value.
pub longest_common_prefix-Prefix :
    (values : List Text) → All (Prefix (longest_common_prefix values)) values
unfolding longest_common_prefix common_points
longest_common_prefix-Prefix [] = tt
longest_common_prefix-Prefix (value ∷ more) = (
  join-take-points (narrow (points value) (length (points value)) (map points more)) value,
  Agree-Prefix _ value more (narrow-Agree (points value) (length (points value)) (map points more)),
)

take_of_Prefix :
    (ps xs : List Text) → Prefix ps xs → (take (length ps) xs ≡ ps) × (length ps ≤ length xs)
take_of_Prefix ps xs (rest, e) = (
  ap (take (length ps)) e ∙ take-append_length ps rest,
  omega (arith, ap length e, length-append {0} ps rest),
)

Prefix-Agree :
    (ps first : List Text) (more : List Text)
    → Prefix ps first
    → All (λ v. Prefix ps (points v)) more
    → Agree (length ps) first (map points more)
Prefix-Agree ps first [] h a = tt
Prefix-Agree ps first (v ∷ vs) h (p, a) = (
  (take_of_Prefix ps first h).0 ∙ sym (take_of_Prefix ps (points v) p).0,
  Prefix-Agree ps first vs h a,
)

Prefix-take_of_le :
    (ps xs : List Text) (n : ℕ) → Prefix ps xs → length ps ≤ n → Prefix ps (take n xs)
Prefix-take_of_le [] xs n h l = (take n xs, refl)
Prefix-take_of_le (p ∷ ps) xs zero h l = absurd (omega arith)
Prefix-take_of_le (p ∷ ps) [] (suc n) (rest, e) l = cc
Prefix-take_of_le (p ∷ ps) (x ∷ xs) (suc n) (rest, e) l =
    let (r, e') = Prefix-take_of_le ps xs n (rest, ground arith) (omega arith) in (r, ground arith)

-- Every sequence of code points that all values begin with is a prefix of the common one.
pub common_points_greatest :
    (ps : List Text) (value : Text) (more : List Text)
    → All (λ v. Prefix ps (points v)) (value ∷ more)
    → Prefix ps (common_points value more)
unfolding common_points
common_points_greatest ps value more (h, a) = Prefix-take_of_le ps (points value) _ h (
    le-narrow (length ps) (points value) (length (points value)) (map points more)
      (take_of_Prefix ps (points value) h).1 (take_of_Prefix ps (points value) h).1
      (Prefix-Agree ps (points value) more h a))
