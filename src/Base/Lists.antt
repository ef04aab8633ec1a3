-- ===== src/Base/Lists.antt =====
-- Lists measured by native numbers, Boolean quantifiers and the predicate All.
use Prim.Native.Nat.{ℕ, zero, suc, ◌+◌, ◌-◌, ◌≤◌, min}
use mathlib.Core.Path.{◌≡◌, refl, sym, ap}
use mathlib.Core.Bool.{Bool, true, false, ◌&&◌, ◌||◌}
use mathlib.Core.List.{List, [], ◌∷◌, ◌++◌, append_assoc, append-nil}
use native.Mathlib.Omega.{arith}

module _ {ℓ} {A : Type ℓ} where
  abbrev pub length : List A → ℕ
  length [] = 0
  length (x ∷ xs) = suc (length xs)

  abbrev pub take : ℕ → List A → List A
  take zero xs = []
  take (suc n) [] = []
  take (suc n) (x ∷ xs) = x ∷ take n xs

  abbrev pub drop : ℕ → List A → List A
  drop zero xs = xs
  drop (suc n) [] = []
  drop (suc n) (x ∷ xs) = drop n xs

  pub length-append : (xs ys : List A) → length (xs ++ ys) ≡ length xs + length ys
  length-append [] ys = omega arith
  length-append (x ∷ xs) ys = omega (arith, length-append xs ys)

  pub take-append-drop : (n : ℕ) (xs : List A) → take n xs ++ drop n xs ≡ xs
  take-append-drop zero xs = refl
  take-append-drop (suc n) [] = refl
  take-append-drop (suc n) (x ∷ xs) = ap (◌∷◌ x) (take-append-drop n xs)

  pub length-take : (n : ℕ) (xs : List A) → length (take n xs) ≡ min n (length xs)
  length-take zero xs = omega arith
  length-take (suc n) [] = omega arith
  length-take (suc n) (x ∷ xs) = omega (arith, length-take n xs)

  pub length-drop : (n : ℕ) (xs : List A) → length (drop n xs) ≡ length xs - n
  length-drop zero xs = omega arith
  length-drop (suc n) [] = omega arith
  length-drop (suc n) (x ∷ xs) = omega (arith, length-drop n xs)

  pub take-append_length : (xs ys : List A) → take (length xs) (xs ++ ys) ≡ xs
  take-append_length [] ys = refl
  take-append_length (x ∷ xs) ys = ap (◌∷◌ x) (take-append_length xs ys)

  pub drop-append_length : (xs ys : List A) → drop (length xs) (xs ++ ys) ≡ ys
  drop-append_length [] ys = refl
  drop-append_length (x ∷ xs) ys = drop-append_length xs ys

  -- Array.prototype.every and some.
  abbrev pub every : (A → Bool) → List A → Bool
  every p [] = true
  every p (x ∷ xs) = p x && every p xs

  abbrev pub any : (A → Bool) → List A → Bool
  any p [] = false
  any p (x ∷ xs) = p x || any p xs

  -- The last n elements, Array.prototype.slice(-n) for a positive n.
  abbrev pub take_last : ℕ → List A → List A
  take_last n xs = drop (length xs - n) xs

  -- A predicate that holds of every element.
  abbrev pub All {κ} : (A → Type κ) → List A → Type κ
  All P [] = Unit
  All P (x ∷ xs) = P x × All P xs

  pub All-append {κ} : (P : A → Type κ) (xs ys : List A) → All P xs → All P ys → All P (xs ++ ys)
  All-append P [] ys hx hy = hy
  All-append P (x ∷ xs) ys hx hy = (hx.0, All-append P xs ys hx.1 hy)

  pub All-drop {κ} : (P : A → Type κ) (n : ℕ) (xs : List A) → All P xs → All P (drop n xs)
  All-drop P zero xs h = h
  All-drop P (suc n) [] h = h
  All-drop P (suc n) (x ∷ xs) h = All-drop P n xs h.1

  -- The prefix relation, with what follows the prefix.
  abbrev pub Prefix : List A → List A → Type ℓ
  Prefix p s = (rest : List A) × (s ≡ p ++ rest)

  pub Prefix-refl : (s : List A) → Prefix s s
  Prefix-refl s = ([], sym (append-nil s))

  pub Prefix-trans : (p q s : List A) → Prefix p q → Prefix q s → Prefix p s
  Prefix-trans p q s (r, e) (r', e') = (r ++ r', rw (e', e) (append_assoc p r r'))

  pub Prefix-take : (n : ℕ) (s : List A) → Prefix (take n s) s
  Prefix-take n s = (drop n s, sym (take-append-drop n s))

  -- What follows a prefix is the slice from its length on.
  pub append-drop_of_Prefix : (p s : List A) → Prefix p s → p ++ drop (length p) s ≡ s
  append-drop_of_Prefix p s (rest, e) = rw (e, drop-append_length p rest)

  -- Two lists that agree on their first m elements agree on fewer.
  pub take_of_take :
      (k m : ℕ) (xs ys : List A) → k ≤ m → take m xs ≡ take m ys → take k xs ≡ take k ys
  take_of_take zero m xs ys h e = refl
  take_of_take (suc k) (suc m) [] [] h e = refl
  take_of_take (suc k) (suc m) [] (y ∷ ys) h e = cc
  take_of_take (suc k) (suc m) (x ∷ xs) [] h e = cc
  take_of_take (suc k) (suc m) (x ∷ xs) (y ∷ ys) h e =
      ground (arith, take_of_take k m xs ys (omega arith))
  take_of_take (suc k) zero xs ys h e = absurd (omega arith)

  pub All-mono {κ μ} :
      (P : A → Type κ) (Q : A → Type μ) (xs : List A) → ((a : A) → P a → Q a) → All P xs → All Q xs
  All-mono P Q [] f h = tt
  All-mono P Q (x ∷ xs) f (p, h) = (f x p, All-mono P Q xs f h)

  pub drop-length : (xs : List A) → drop (length xs) xs ≡ []
  drop-length [] = refl
  drop-length (x ∷ xs) = drop-length xs
