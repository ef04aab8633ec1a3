-- ===== src/Conversations/Queue/Line.antt =====
-- The line of a key in src/conversations/conversation-queue.ts: its jobs that have not settled.
use chatgpt_web_gateway.Base.{
  ℕ, ◌≤◌, ◌<◌, ◌≡◌, refl, subst, Bool, true, false, not, ◌&&◌, ◌||◌, Option, none, some, List, [],
  ◌∷◌, ◌++◌, arith, if◌then◌else◌, length, inl, inr, Bool-cases,
}
use chatgpt_web_gateway.Text.{Text, text_eq}
use chatgpt_web_gateway.Text.Laws.{text_eq_iff}
use chatgpt_web_gateway.Conversations.Queue.{
  Outcome, success, failure, Phase, waiting, running, settled, let_run_by, is_ready, lets_run, Job,
  is_settled, is_waiting, settled_at, set_phase,
}

lets_run-settled : (phase : Phase) → lets_run phase ≡ is_settled phase
unfolding lets_run is_settled
lets_run-settled waiting = refl
lets_run-settled running = refl
lets_run-settled (settled success) = refl
lets_run-settled (settled failure) = refl

pub is_ready-settled :
    (tail : ℕ) (jobs : List Job) → is_ready (some tail) jobs ≡ settled_at tail jobs
unfolding is_ready let_run_by settled_at
is_ready-settled tail [] = refl
is_ready-settled tail (j ∷ js) = ground (arith, lets_run-settled j.phase, is_ready-settled tail js)

pub is_ready-none : (js : List Job) → is_ready none js ≡ true
unfolding is_ready
is_ready-none js = refl

-- The numbers of the key's jobs that have not settled, oldest first.
unfoldable pub line : Text → List Job → List ℕ
unfolding is_settled
line key [] = []
line key (j ∷ js) =
    line key js ++ (if text_eq j.key key && not (is_settled j.phase) then j.number ∷ [] else [])

unfoldable pub all_settled : Text → List Job → Bool
unfolding is_settled
all_settled key [] = true
all_settled key (j ∷ js) = (not (text_eq j.key key) || is_settled j.phase) && all_settled key js

-- The newest job of the key
unfoldable pub latest : Text → List Job → Option ℕ
latest key [] = none
latest key (j ∷ js) = let rest = latest key js in if text_eq j.key key then some j.number else rest

-- What the job before which others came waits for.
pub record Follows (j : Job) (earlier : List Job) : Type 0 where
  pub numbered : j.number ≡ length earlier
  pub unblocked : j.previous ≡ none → all_settled j.key earlier ≡ true
  pub blocked : (p : ℕ) → j.previous ≡ some p → latest j.key earlier ≡ some p
  pub started : is_waiting j.phase ≡ false → all_settled j.key earlier ≡ true

abbrev pub AreChained : List Job → Type 0
AreChained [] = Unit
AreChained (j ∷ js) = Follows j js × AreChained js

pub line-settled : (key : Text) (js : List Job) → all_settled key js ≡ true → line key js ≡ []
unfolding line all_settled
line-settled key [] h = refl
line-settled key (j ∷ js) h = ground (arith, line-settled key js)

-- A number that no job of the list has
pub set_phase_beyond :
    (n : ℕ) (phase : Phase) (js : List Job)
    → AreChained js
    → length js ≤ n
    → set_phase n phase js ≡ js
unfolding set_phase
set_phase_beyond n phase [] c l = refl
set_phase_beyond n phase (j ∷ js) (f, c) l =
    let number = f.numbered in ground (arith, set_phase_beyond n phase js c)

pub length-set_phase :
    (n : ℕ) (phase : Phase) (js : List Job) → length (set_phase n phase js) ≡ length js
unfolding set_phase
length-set_phase n phase [] = refl
length-set_phase n phase (j ∷ js) = ground (arith, length-set_phase n phase js)

pub latest-set_phase :
    (key : Text) (n : ℕ) (phase : Phase) (js : List Job)
    → latest key (set_phase n phase js) ≡ latest key js
unfolding set_phase latest
latest-set_phase key n phase [] = refl
latest-set_phase key n phase (j ∷ js) = ground (arith, latest-set_phase key n phase js)

pub all_settled-settle :
    (key : Text) (n : ℕ) (outcome : Outcome) (js : List Job)
    → all_settled key js ≡ true
    → all_settled key (set_phase n (settled outcome) js) ≡ true
unfolding set_phase all_settled is_settled
all_settled-settle key n outcome [] h = refl
all_settled-settle key n outcome (j ∷ js) h = ground (arith, all_settled-settle key n outcome js)

pub all_settled-begin :
    (key : Text) (n : ℕ) (js : List Job)
    → settled_at n js ≡ false
    → all_settled key js ≡ true
    → all_settled key (set_phase n running js) ≡ true
unfolding set_phase all_settled is_settled settled_at
all_settled-begin key n [] s h = refl
all_settled-begin key n (j ∷ js) s h = ground (arith, all_settled-begin key n js)

-- A number beyond the list is of no settled job.
pub settled_at_beyond :
    (n : ℕ) (js : List Job) → AreChained js → length js ≤ n → settled_at n js ≡ false
unfolding settled_at
settled_at_beyond n [] c l = refl
settled_at_beyond n (j ∷ js) (f, c) l =
    let number = f.numbered in ground (arith, settled_at_beyond n js c)

-- When the newest job of a key has settled, so have all of its jobs.
pub latest-settled :
    (key : Text) (p : ℕ) (js : List Job)
    → AreChained js
    → latest key js ≡ some p
    → (p < length js) × (settled_at p js ≡ true → all_settled key js ≡ true)
unfolding latest settled_at all_settled is_settled is_waiting
latest-settled key p [] c h = cc
latest-settled key p (j ∷ js) (f, c) h = elim (Bool-cases (text_eq j.key key)) [
  | inl e ↦
      let same : j.key ≡ key = (text_eq_iff j.key key).0 e in
      let number = f.numbered in
      let mine : j.number ≡ p = ground arith in
      (
        omega arith,
        λ s.
            let all : is_waiting j.phase ≡ false → all_settled key js ≡ true =
              subst (λ k. is_waiting j.phase ≡ false → all_settled k js ≡ true) same f.started in
            ground (arith, settled_at_beyond p js c),
      )
  | inr n ↦
      let (l, all) = latest-settled key p js c (ground arith) in
      let number = f.numbered in (omega arith, λ s. ground (arith, all))
]

pub line-set_phase_running :
    (key : Text) (n : ℕ) (js : List Job)
    → settled_at n js ≡ false
    → line key (set_phase n running js) ≡ line key js
unfolding line set_phase is_settled settled_at
line-set_phase_running key n [] s = refl
line-set_phase_running key n (j ∷ js) s = ground (arith, line-set_phase_running key n js)
