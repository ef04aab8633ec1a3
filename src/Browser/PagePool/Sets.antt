-- ===== src/Browser/PagePool/Sets.antt =====
-- A Set of pages, as a list in the order of insertion.
use chatgpt_web_gateway.Base.{
  inl, inr, Bool-cases, ℕ, ◌+◌, ◌≤◌, ◌≡◌, refl, Bool, true, false, not, ◌&&◌, ◌||◌, List, [], ◌∷◌,
  arith, ◌==◌, if◌then◌else◌, length,
}

pub has : List ℕ → ℕ → Bool
has [] x = false
has (y ∷ ys) x = x == y || has ys x

pub add : ℕ → List ℕ → List ℕ
add x [] = x ∷ []
add x (y ∷ ys) = if x == y then y ∷ ys else y ∷ add x ys

pub delete : ℕ → List ℕ → List ℕ
delete x [] = []
delete x (y ∷ ys) = let rest = delete x ys in if x == y then rest else y ∷ rest

pub has-add : (x : ℕ) (ys : List ℕ) (z : ℕ) → has (add x ys) z ≡ (z == x || has ys z)
unfolding has add
has-add x [] z = refl
has-add x (y ∷ ys) z = ground (arith, has-add x ys z)

pub has-delete : (x : ℕ) (ys : List ℕ) (z : ℕ) → has (delete x ys) z ≡ (not (z == x) && has ys z)
unfolding has delete
has-delete x [] z = ground arith
has-delete x (y ∷ ys) z = ground (arith, has-delete x ys z)

pub length-add-le : (x : ℕ) (ys : List ℕ) → length (add x ys) ≤ length ys + 1
unfolding add
length-add-le x [] = omega arith
length-add-le x (y ∷ ys) = ground (arith, length-add-le x ys)

pub length-add_new : (x : ℕ) (ys : List ℕ) → has ys x ≡ false → length (add x ys) ≡ length ys + 1
unfolding has add
length-add_new x [] h = omega arith
length-add_new x (y ∷ ys) h = ground (arith, length-add_new x ys)

pub length-delete-le : (x : ℕ) (ys : List ℕ) → length (delete x ys) ≤ length ys
unfolding delete
length-delete-le x [] = omega arith
length-delete-le x (y ∷ ys) = ground (arith, length-delete-le x ys)

pub has_empty : (x : ℕ) → has [] x ≡ false
unfolding has
has_empty x = refl

pub has_cons : (x : ℕ) (ys : List ℕ) (z : ℕ) → has (x ∷ ys) z ≡ (z == x || has ys z)
unfolding has
has_cons x ys z = refl

pub delete_shortens : (x : ℕ) (ys : List ℕ) → has ys x ≡ true → length (delete x ys) + 1 ≤ length ys
unfolding has delete
delete_shortens x [] h = absurd (ground arith)
delete_shortens x (y ∷ ys) h = elim (Bool-cases (x == y)) [
  | inl e ↦ ground (arith, length-delete-le x ys)
  | inr n ↦ ground (arith, delete_shortens x ys (ground arith))
]

-- Names what a run of these sets computes through, for tests.
unfoldable pub set_runs : Unit {0}
unfolding has add delete
set_runs = tt
