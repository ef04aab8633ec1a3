-- ===== src/Conversations/Queue/Turns.antt =====
-- Whose turn it is in src/conversations/conversation-queue.ts, and what every step keeps.
use chatgpt_web_gateway.Base.{
  ℕ, ◌<◌, ◌≡◌, refl, sym, ap, ◌∙◌, subst, true, false, not, ◌&&◌, Option, none, some, List, [], ◌∷◌,
  ◌++◌, arith, ◌==◌, if◌then◌else◌, length, inl, inr, Bool-cases,
}
use chatgpt_web_gateway.Text.{Text, text_eq}
use chatgpt_web_gateway.Text.Laws.{text_eq_iff, text_eq_refl}
use chatgpt_web_gateway.Conversations.Queue.{
  Outcome, Phase, waiting, settled, Job, is_settled, is_waiting, settled_at, set_phase, find,
  is_ready,
}
use chatgpt_web_gateway.Conversations.Queue.Line.{
  is_ready-settled, is_ready-none, line, all_settled, Follows, AreChained, line-settled,
  length-set_phase, latest-set_phase, settled_at_beyond, latest-settled, set_phase_beyond,
}

-- The jobs that came before job n with its key have all settled, and it has not.
pub data IsOnTurn (n : ℕ) (key : Text) : List Job → Type 0 where
  newest :
      (j : Job) (js : List Job)
      → j.number ≡ n
      → text_eq j.key key ≡ true
      → is_settled j.phase ≡ false
      → all_settled key js ≡ true
      → IsOnTurn n key (j ∷ js)
  older :
      (j : Job) (js : List Job)
      → (j.number == n) ≡ false
      → IsOnTurn n key js
      → IsOnTurn n key (j ∷ js)

-- A job found, which has started or may start, and which has not settled, is on turn.
pub found-IsOnTurn :
    (n : ℕ) (j : Job) (js : List Job)
    → AreChained js
    → find n js ≡ some j
    → is_settled j.phase ≡ false
    → is_waiting j.phase ≡ false
    → IsOnTurn n j.key js
unfolding find
found-IsOnTurn n j [] c h s w = cc
found-IsOnTurn n j (i ∷ js) (f, c) h s w = elim (Bool-cases (i.number == n)) [
  | inl e ↦
      let same : i ≡ j = ground arith in
      newest i js (ground arith) (rw same (text_eq_refl j.key)) (rw same s)
        (subst (λ z. all_settled z.key js ≡ true) same (f.started (rw same w)))
  | inr o ↦ older i js o (found-IsOnTurn n j js c (ground arith) s w)
]

find-previous :
    (n p : ℕ) (j : Job) (js : List Job)
    → AreChained js
    → find n js ≡ some j
    → j.previous ≡ some p
    → p < length js
unfolding find
find-previous n p j [] c h e = cc
find-previous n p j (i ∷ js) (f, c) h e = elim (Bool-cases (i.number == n)) [
  | inl m ↦
      let same : i ≡ j = ground arith in
      let (l, _) = latest-settled i.key p js c (f.blocked p (ap (λ z. z.previous) same ∙ e)) in
      omega (arith, l)
  | inr o ↦ omega (arith, find-previous n p j js c (ground arith) e)
]

-- What is ready among the newer jobs is ready among the older ones.
ready_before :
    (n : ℕ) (i j : Job) (js : List Job) (previous : Option ℕ)
    → i.number ≡ length js
    → AreChained js
    → find n js ≡ some j
    → j.previous ≡ previous
    → is_ready previous (i ∷ js) ≡ true
    → is_ready previous js ≡ true
unfolding settled_at
ready_before n i j js none m c h e r = is_ready-none js
ready_before n i j js (some p) m c h e r =
    ground (arith, find-previous n p j js c h e, is_ready-settled p js, is_ready-settled p (i ∷ js))

-- A job whose start has resolved waits for no unsettled job of its key.
ready_settled :
    (j : Job) (js : List Job) (previous : Option ℕ)
    → Follows j js
    → AreChained js
    → j.previous ≡ previous
    → is_ready previous (j ∷ js) ≡ true
    → all_settled j.key js ≡ true
unfolding settled_at
ready_settled j js none f c e r = f.unblocked e
ready_settled j js (some p) f c e r =
    let (l, all) = latest-settled j.key p js c (f.blocked p e) in
    let number = f.numbered in all (ground (arith, l, is_ready-settled p (j ∷ js)))

pub ready-IsOnTurn :
    (n : ℕ) (j : Job) (js : List Job)
    → AreChained js
    → find n js ≡ some j
    → j.phase ≡ waiting
    → is_ready j.previous js ≡ true
    → IsOnTurn n j.key js
unfolding find is_settled
ready-IsOnTurn n j [] c h w r = cc
ready-IsOnTurn n j (i ∷ js) (f, c) h w r = elim (Bool-cases (i.number == n)) [
  | inl e ↦
      let same : i ≡ j = ground arith in
      let fj = subst (λ z. Follows z js) same f in
      newest i js (ground arith) (rw same (text_eq_refl j.key)) (rw (same, w) refl) (
        ready_settled j js j.previous fj c refl
          (subst (λ z. is_ready j.previous (z ∷ js) ≡ true) same r))
  | inr o ↦
      let deeper : find n js ≡ some j = ground arith in
      older i js o (
        ready-IsOnTurn n j js c deeper w
          (ready_before n i j js j.previous f.numbered c deeper refl r))
]

-- Who is on turn heads the line, and is taken off it when it settles.
pub IsOnTurn-line :
    (n : ℕ) (key : Text) (outcome : Outcome) (js : List Job)
    → AreChained js
    → IsOnTurn n key js
    → (rest : List ℕ) × (line key js ≡ n ∷ rest)
      × (line key (set_phase n (settled outcome) js) ≡ rest)
unfolding line set_phase is_settled
IsOnTurn-line n key outcome _ c (newest j js e k u a) =
    let (f, cs) = c in
    let number = f.numbered in
    let same = set_phase_beyond n (settled outcome) js cs (omega (arith, e, number)) in
    ([], ground (arith, line-settled key js a), ground (arith, line-settled key js a, same))
IsOnTurn-line n key outcome _ c0 (older j js o t) =
    let (f, c) = c0 in
    let (rest, l, m) = IsOnTurn-line n key outcome js c t in
    (
      rest ++ (if text_eq j.key key && not (is_settled j.phase) then j.number ∷ [] else []),
      ground (arith, l),
      ground (arith, m),
    )

-- The other lines stay.
pub IsOnTurn-other :
    (n : ℕ) (key other : Text) (phase : Phase) (js : List Job)
    → AreChained js
    → IsOnTurn n key js
    → text_eq key other ≡ false
    → line other (set_phase n phase js) ≡ line other js
unfolding line set_phase
IsOnTurn-other n key other phase _ c0 (newest j js e k u a) d =
    let (f, c) = c0 in
    let same : j.key ≡ key = (text_eq_iff j.key key).0 k in
    let number = f.numbered in
    ground (arith, same, set_phase_beyond n phase js c (omega (arith, e, number)))
IsOnTurn-other n key other phase _ c0 (older j js o t) d =
    let (f, c) = c0 in ground (arith, IsOnTurn-other n key other phase js c t d)

-- A job that has started and not settled: nothing else of its key runs.
pub IsOnTurn-unsettled :
    (n : ℕ) (key : Text) (js : List Job)
    → AreChained js
    → IsOnTurn n key js
    → settled_at n js ≡ false
unfolding settled_at
IsOnTurn-unsettled n key _ c0 (newest j js e k u a) =
    let (f, c) = c0 in
    let number = f.numbered in ground (arith, settled_at_beyond n js c (omega (arith, e, number)))
IsOnTurn-unsettled n key _ c0 (older j js o t) =
    let (f, c) = c0 in ground (arith, IsOnTurn-unsettled n key js c t)

-- A job on turn begins or settles: the jobs still follow each other.
pub set_phase-AreChained :
    (n : ℕ) (key : Text) (phase : Phase) (js : List Job)
    → ((k : Text) (is : List Job)
        → settled_at n is ≡ false
        → all_settled k is ≡ true
        → all_settled k (set_phase n phase is) ≡ true)
    → AreChained js
    → IsOnTurn n key js
    → AreChained (set_phase n phase js)
unfolding set_phase
set_phase-AreChained n key phase _ keep c0 (newest j js e k u a) =
    let (f, c) = c0 in
    let number = f.numbered in
    let same : j.key ≡ key = (text_eq_iff j.key key).0 k in
    let rest = set_phase_beyond n phase js c (omega (arith, e, number)) in
    let hit : (j.number == n) ≡ true = ground arith in
    let all : all_settled j.key js ≡ true = ap (λ z. all_settled z js) same ∙ a in
    let kept : Follows (record j { phase = phase }) js = record {
      numbered = f.numbered;
      unblocked = f.unblocked;
      blocked = f.blocked;
      started = λ w. all;
    } in
    rw (rest, hit) (kept, c)
set_phase-AreChained n key phase _ keep c0 (older j js o t) =
    let (f, c) = c0 in
    let free = IsOnTurn-unsettled n key js c t in
    let kept : Follows j (set_phase n phase js) = record {
      numbered = f.numbered ∙ sym (length-set_phase n phase js);
      unblocked = λ p. keep j.key js free (f.unblocked p);
      blocked = λ p e. latest-set_phase j.key n phase js ∙ f.blocked p e;
      started = λ w. keep j.key js free (f.started w);
    } in
    rw o (kept, set_phase-AreChained n key phase js keep c t)
