-- ===== src/Conversations/Queue/Heads.antt =====
-- Who heads a line of src/conversations/conversation-queue.ts runs, or may begin.
use chatgpt_web_gateway.Base.{
  ℕ, ◌<◌, ◌≡◌, refl, sym, ap, ◌∙◌, subst, ◌⊎◌, true, false, not, ◌&&◌, Option, none, some, List, [],
  ◌∷◌, ◌++◌, arith, ◌==◌, ==_refl, length, inl, inr, Bool-cases, Option-cases,
}
use chatgpt_web_gateway.Text.{Text, text_eq}
use chatgpt_web_gateway.Text.Laws.{text_eq_iff}
use chatgpt_web_gateway.Conversations.Queue.{
  Phase, waiting, running, settled, Job, is_settled, settled_at, set_phase, find, is_ready,
}
use chatgpt_web_gateway.Conversations.Queue.Line.{
  is_ready-settled, is_ready-none, line, all_settled, latest, Follows, AreChained,
}

split_empty : (xs ys : List ℕ) → xs ++ ys ≡ [] → (xs ≡ []) × (ys ≡ [])
split_empty [] ys h = (refl, h)
split_empty (x ∷ xs) ys h = cc

List-cases : (xs : List ℕ) → (xs ≡ []) ⊎ ((m : ℕ) × (r : List ℕ) × (xs ≡ m ∷ r))
List-cases [] = inl refl
List-cases (m ∷ r) = inr (m, r, refl)

all_settled-line : (key : Text) (js : List Job) → line key js ≡ [] → all_settled key js ≡ true
unfolding line all_settled
all_settled-line key [] h = refl
all_settled-line key (j ∷ js) h =
    let (older, mine) = split_empty (line key js) _ h in
    ground (arith, all_settled-line key js older)

latest_is_settled :
    (key : Text) (p : ℕ) (js : List Job)
    → all_settled key js ≡ true
    → latest key js ≡ some p
    → settled_at p js ≡ true
unfolding latest all_settled settled_at
latest_is_settled key p [] a h = cc
latest_is_settled key p (j ∷ js) a h = elim (Bool-cases (text_eq j.key key)) [
  | inl e ↦ let mine : j.number ≡ p = ground arith in ground (arith, mine, ==_refl p)
  | inr n ↦ ground (arith, latest_is_settled key p js (ground arith) (ground arith))
]

-- A job in front: it runs, or its start has resolved.
pub record IsAble (n : ℕ) (key : Text) (js : List Job) (j : Job) : Type 0 where
  pub found : find n js ≡ some j
  pub of_key : j.key ≡ key
  pub may_run : (j.phase ≡ running) ⊎ ((j.phase ≡ waiting) × (is_ready j.previous js ≡ true))

phase_cases : (p : Phase) → (p ≡ running) ⊎ ((p ≡ waiting) ⊎ (is_settled p ≡ true))
unfolding is_settled
phase_cases running = inl refl
phase_cases waiting = inr (inl refl)
phase_cases (settled outcome) = inr (inr refl)

ready_more :
    (previous : Option ℕ) (i : Job) (js : List Job)
    → is_ready previous js ≡ true
    → is_ready previous (i ∷ js) ≡ true
unfolding settled_at
ready_more none i js h = is_ready-none (i ∷ js)
ready_more (some p) i js h = ground (arith, is_ready-settled p js, is_ready-settled p (i ∷ js))

pub IsAble-more :
    (n : ℕ) (key : Text) (i j : Job) (js : List Job)
    → (i.number == n) ≡ false
    → IsAble n key js j
    → IsAble n key (i ∷ js) j
unfolding find
IsAble-more n key i j js d a = record {
  found = let f = a.found in ground arith;
  of_key = a.of_key;
  may_run = elim a.may_run [ inl r ↦ inl r | inr (w, r) ↦ inr (w, ready_more j.previous i js r) ];
}

-- The newest job, when no older one of its key is unsettled
newest-IsAble :
    (key : Text) (i : Job) (js : List Job)
    → Follows i js
    → i.key ≡ key
    → is_settled i.phase ≡ false
    → all_settled key js ≡ true
    → IsAble i.number key (i ∷ js) i
unfolding find settled_at
newest-IsAble key i js f k u a = record {
  found = ground (arith, ==_refl i.number);
  of_key = k;
  may_run = elim (phase_cases i.phase) [
    | inl r ↦ inl r
    | inr (inr s) ↦ absurd (ground arith)
    | inr (inl w) ↦ inr (
      w,
      elim (Option-cases i.previous) [
        | inl e ↦ subst (λ z. is_ready z (i ∷ js) ≡ true) (sym e) (is_ready-none (i ∷ js))
        | inr (p, e) ↦
            let done =
              latest_is_settled key p js a (subst (λ z. latest z js ≡ some p) k (f.blocked p e)) in
            subst (λ z. is_ready z (i ∷ js) ≡ true) (sym e)
              (ground (arith, is_ready-settled p (i ∷ js)))
      ],
    )
  ];
}

pub line-IsAble :
    (key : Text) (n : ℕ) (rest : List ℕ) (js : List Job)
    → AreChained js
    → line key js ≡ n ∷ rest
    → (j : Job) × IsAble n key js j × (n < length js)
unfolding line
line-IsAble key n rest [] c h = cc
line-IsAble key n rest (i ∷ js) (f, c) h = elim (List-cases (line key js)) [
  | inr (m, r, e) ↦
      let same : m ≡ n = ground arith in
      let (j, able, lt) = line-IsAble key n r js c (e ∙ ap (λ z. z ∷ r) same) in
      let number = f.numbered in
      (j, IsAble-more n key i j js (ground (arith, lt)) able, omega (arith, lt))
  | inl e ↦ elim (Bool-cases (text_eq i.key key && not (is_settled i.phase))) [
    | inr gone ↦ absurd (ground arith)
    | inl stays ↦
        let mine : i.number ≡ n = ground arith in
        let number = f.numbered in
        (
          i,
          subst (λ z. IsAble z key (i ∷ js) i) mine
              (newest-IsAble key i js f ((text_eq_iff i.key key).0 (ground arith)) (ground arith)
                (all_settled-line key js e)),
          omega (arith, mine, number),
        )
  ]
]

pub find-number : (n : ℕ) (j : Job) (js : List Job) → find n js ≡ some j → j.number ≡ n
unfolding find
find-number n j [] h = cc
find-number n j (i ∷ js) h = elim (Bool-cases (i.number == n)) [
  | inl e ↦ let same : i ≡ j = ground arith in ground (arith, e, ap (λ z. z.number) same)
  | inr d ↦ find-number n j js (ground arith)
]

pub find-set_phase :
    (n : ℕ) (phase : Phase) (j : Job) (js : List Job)
    → find n js ≡ some j
    → find n (set_phase n phase js) ≡ some (record j { phase = phase })
unfolding find set_phase
find-set_phase n phase j [] h = cc
find-set_phase n phase j (i ∷ js) h = elim (Bool-cases (i.number == n)) [
  | inl e ↦
      let same : i ≡ j = ground arith in
      ground (arith, e, ap {A = Job} {B = Job} (λ z. record z { phase = phase }) same)
  | inr d ↦ ground (arith, d, find-set_phase n phase j js (ground arith))
]
