-- ===== src/Conversations/PageRegistry/Order.antt =====
-- The sort by last use in src/conversations/page-registry.ts.
use mathlib.Core.Logic.Or
use mathlib.Core.List.{Mem, mem-cons}
use chatgpt_web_gateway.Base.{
  ◌≤◌, ◌≡◌, refl, sym, subst, Bool, true, false, List, [], ◌∷◌, arith, inl, inr, Bool-cases, All,
  All-mono,
}
use chatgpt_web_gateway.Text.{Text}
use chatgpt_web_gateway.Conversations.PageRegistry.{Entry, before, insert, sort}

pub All-Mem : (xs : List Entry) → All (λ e. Mem e xs) xs
All-Mem [] = tt
All-Mem (x ∷ xs) =
    (mem-cons.1 (Or.inl refl), All-mono _ _ xs (λ e m. mem-cons.1 (Or.inr m)) (All-Mem xs))

module _ (locale_before : Text → Text → Bool) where
  pub All-insert :
      (P : Entry → Type 0) (x : Entry) (xs : List Entry)
      → P x
      → All P xs
      → All P (insert locale_before x xs)
  unfolding insert
  All-insert P x [] p a = (p, tt)
  All-insert P x (y ∷ ys) p (q, a) = elim (Bool-cases (before locale_before y x)) [
    | inl b ↦ rw b (q, All-insert P x ys p a)
    | inr n ↦ rw n (p, (q, a))
  ]

  pub All-sort : (P : Entry → Type 0) (xs : List Entry) → All P xs → All P (sort locale_before xs)
  unfolding sort
  All-sort P [] a = tt
  All-sort P (x ∷ xs) (p, a) = All-insert P x (sort locale_before xs) p (All-sort P xs a)

  -- The entry was used no later than another.
  abbrev pub IsOlder : Entry → Entry → Type 0
  IsOlder x y = x.1.last_used_at ≤ y.1.last_used_at

  abbrev pub IsByAge : List Entry → Type 0
  IsByAge [] = Unit
  IsByAge (x ∷ xs) = All (IsOlder x) xs × IsByAge xs

  insert-IsByAge : (x : Entry) (ys : List Entry) → IsByAge ys → IsByAge (insert locale_before x ys)
  unfolding insert before
  insert-IsByAge x [] s = (tt, tt)
  insert-IsByAge x (y ∷ ys) (older, s) = elim (Bool-cases (before locale_before y x)) [
    | inl b ↦ rw b (All-insert (IsOlder y) x ys (ground arith) older, insert-IsByAge x ys s)
    | inr n ↦
        let first : IsOlder x y = ground arith in
        rw n ((first, All-mono (IsOlder y) (IsOlder x) ys (λ e h. omega arith) older), (older, s))
  ]

  -- Whatever the order of ids, the sort is by the time of last use.
  pub sort-IsByAge : (xs : List Entry) → IsByAge (sort locale_before xs)
  unfolding sort
  sort-IsByAge [] = tt
  sort-IsByAge (x ∷ xs) = insert-IsByAge x (sort locale_before xs) (sort-IsByAge xs)

  insert_later :
      (x y : Entry) (ys : List Entry)
      → before locale_before y x ≡ true
      → insert locale_before x (y ∷ ys) ≡ y ∷ insert locale_before x ys
  unfolding insert
  insert_later x y ys b = rw b refl

  insert_first :
      (x y : Entry) (ys : List Entry)
      → before locale_before y x ≡ false
      → insert locale_before x (y ∷ ys) ≡ x ∷ y ∷ ys
  unfolding insert
  insert_first x y ys n = rw n refl

  All-of_insert :
      (P : Entry → Type 0) (x : Entry) (ys : List Entry)
      → All P (insert locale_before x ys)
      → P x × All P ys
  unfolding insert
  All-of_insert P x [] a = a
  All-of_insert P x (y ∷ ys) a = elim (Bool-cases (before locale_before y x)) [
    | inl b ↦
        let (q, rest) = subst (All P) (insert_later x y ys b) a in
        let (p, more) = All-of_insert P x ys rest in (p, (q, more))
    | inr n ↦ subst (All P) (insert_first x y ys n) a
  ]

  pub All-of_sort :
      (P : Entry → Type 0) (xs : List Entry) → All P (sort locale_before xs) → All P xs
  unfolding sort
  All-of_sort P [] a = tt
  All-of_sort P (x ∷ xs) a =
      let (p, rest) = All-of_insert P x (sort locale_before xs) a in (p, All-of_sort P xs rest)

  -- The first entry of the sorted list was used no later than any.
  pub sort-least :
      (xs ys : List Entry) (y : Entry) → sort locale_before xs ≡ y ∷ ys → All (IsOlder y) xs
  sort-least xs ys y e =
      let s = subst IsByAge e (sort-IsByAge xs) in
      All-of_sort (IsOlder y) xs (subst (All (IsOlder y)) (sym e) (omega arith, s.0))
