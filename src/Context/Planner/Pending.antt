-- ===== src/Context/Planner/Pending.antt =====
-- Which pending turns src/context/planner.ts accepts.
use mathlib.Core.Logic.Or
use mathlib.Core.List.{Mem, mem-cons, Nodup, Nodup-cons, Nodup-nil, mem-cons_self, not-mem-nil}
use chatgpt_web_gateway.Base.{
  ◌≡◌, ◌≢◌, ◌↔◌, ◌⊎◌, refl, sym, ap, subst, inl, inr, true, false, not, List, [], ◌∷◌, arith,
  Bool-cases, length, any, ◌==◌, All, All-mono,
}
use chatgpt_web_gateway.Base.Results.{returned}
use chatgpt_web_gateway.Text.{Text}
use chatgpt_web_gateway.Text.Sets.{has, Mem_of_has, not_mem_of_has, has-Mem, has_not_mem}
use chatgpt_web_gateway.Context.{
  CanonicalMessage, text_message, multimodal_message, tool_call_message, tool_result_message,
  user_role, tool_role, role_of,
}
use chatgpt_web_gateway.Context.Planner.{
  is_user, is_tool, known_calls, completed_calls, check_results, is_user_turn, validate_pending,
}

-- A turn of the client: one user message, or results for calls of the transcript before it, each
-- for a known call that has no result there, and no call twice.
pub record IsResultTurn (pending prior : List CanonicalMessage) : Type 0 where
  pub some_result : pending ≢ []
  pub results : All (λ m. role_of m ≡ tool_role) pending
  pub distinct : Nodup (completed_calls pending)
  pub open_calls :
      All
        (λ i. Mem i (known_calls prior) × (¬ Mem i (completed_calls prior)))
        (completed_calls pending)

abbrev pub IsUserTurn : List CanonicalMessage → Type 0
IsUserTurn pending = (m : CanonicalMessage) × (pending ≡ m ∷ []) × (role_of m ≡ user_role)

abbrev pub IsTurn : (pending prior : List CanonicalMessage) → Type 0
IsTurn pending prior = IsUserTurn pending ⊎ IsResultTurn pending prior

-- What fails a predicate that holds of all names is none of them.
not_mem_of_All :
    (P : Text → Type 0) (names : List Text) (name : Text)
    → ¬ P name
    → All P names
    → ¬ Mem name names
not_mem_of_All P [] name fails h m = not-mem-nil m
not_mem_of_All P (n ∷ ns) name fails (p, h) m =
    Or.elim (λ x y. absurd x) (mem-cons.0 m) (λ e. fails (subst P (sym e) p))
      (not_mem_of_All P ns name fails h)

check_results_sound :
    (known completed seen : List Text) (ms : List CanonicalMessage)
    → check_results known completed seen ms ≡ returned tt
    → Nodup (completed_calls ms)
      × All (λ i. Mem i known × (¬ Mem i completed) × (¬ Mem i seen)) (completed_calls ms)
unfolding check_results completed_calls
check_results_sound known completed seen [] e = (Nodup-nil, tt)
check_results_sound known completed seen (tool_result_message i t ∷ ms) e =
    let new : has seen i ≡ false = ground arith in
    let called : has known i ≡ true = ground arith in
    let unanswered : has completed i ≡ false = ground arith in
    let (distinct, rest) = check_results_sound known completed (i ∷ seen) ms (ground arith) in
    (
      Nodup-cons.1
          (not_mem_of_All _ (completed_calls ms) i (λ p. p.2 mem-cons_self) rest, distinct),
      (
        (
          Mem_of_has known i called,
          not_mem_of_has completed i unanswered,
          not_mem_of_has seen i new,
        ),
        All-mono _ _ (completed_calls ms) (λ j p. (p.0, p.1, λ m. p.2 (mem-cons.1 (Or.inr m))))
            rest,
      ),
    )
check_results_sound known completed seen (text_message s t ∷ ms) e =
    check_results_sound known completed seen ms e
check_results_sound known completed seen (multimodal_message s t ∷ ms) e =
    check_results_sound known completed seen ms e
check_results_sound known completed seen (tool_call_message s t ∷ ms) e =
    check_results_sound known completed seen ms e

All-seen :
    (known completed seen : List Text) (i : Text) (names : List Text)
    → ¬ Mem i names
    → All (λ j. Mem j known × (¬ Mem j completed) × (¬ Mem j seen)) names
    → All (λ j. Mem j known × (¬ Mem j completed) × (¬ Mem j (i ∷ seen))) names
All-seen known completed seen i [] new h = tt
All-seen known completed seen i (n ∷ ns) new (p, h) = (
  (
    p.0,
    p.1,
    λ m. Or.elim (λ x y. absurd x) (mem-cons.0 m) (λ e. new (mem-cons.1 (Or.inl (sym e)))) p.2,
  ),
  All-seen known completed seen i ns (λ m. new (mem-cons.1 (Or.inr m))) h,
)

check_results_complete :
    (known completed seen : List Text) (ms : List CanonicalMessage)
    → Nodup (completed_calls ms)
    → All (λ i. Mem i known × (¬ Mem i completed) × (¬ Mem i seen)) (completed_calls ms)
    → check_results known completed seen ms ≡ returned tt
unfolding check_results completed_calls
check_results_complete known completed seen [] d h = refl
check_results_complete known completed seen (tool_result_message i t ∷ ms) d
      ((called, unanswered, new), h) =
    let (other, rest) = Nodup-cons.0 d in
    rw (has_not_mem seen i new, has-Mem known i called, has_not_mem completed i unanswered)
      (check_results_complete known completed (i ∷ seen) ms rest
        (All-seen known completed seen i (completed_calls ms) other h))
check_results_complete known completed seen (text_message s t ∷ ms) d h =
    check_results_complete known completed seen ms d h
check_results_complete known completed seen (multimodal_message s t ∷ ms) d h =
    check_results_complete known completed seen ms d h
check_results_complete known completed seen (tool_call_message s t ∷ ms) d h =
    check_results_complete known completed seen ms d h

pub any-not_tool :
    (ms : List CanonicalMessage)
    → (any (λ m. not (is_tool m)) ms ≡ false) ↔ All (λ m. role_of m ≡ tool_role) ms
any-not_tool [] = ground arith
any-not_tool (m ∷ ms) = ground (arith, any-not_tool ms)

is_user_turn_iff :
    (pending : List CanonicalMessage) → (is_user_turn pending ≡ true) ↔ IsUserTurn pending
unfolding is_user_turn
is_user_turn_iff [] = ((λ e. absurd (cc)), λ t. absurd (ground (arith, t.1)))
is_user_turn_iff (m ∷ []) = ((λ e. (m, refl, ground arith)), λ t. user_of t)
  where
    user_of : IsUserTurn (m ∷ []) → is_user m ≡ true
    user_of (m', e, r) = ground arith
is_user_turn_iff (m ∷ n ∷ ms) = ((λ e. absurd (cc)), λ t. absurd (ground (arith, t.1)))

validate_pending-IsTurn :
    (pending prior : List CanonicalMessage)
    → validate_pending pending prior ≡ returned tt
    → IsTurn pending prior
unfolding validate_pending
validate_pending-IsTurn pending prior e = elim (Bool-cases (is_user_turn pending)) [
  | inl u ↦ inl ((is_user_turn_iff pending).0 u)
  | inr n ↦
      let some_result : (length pending == 0) ≡ false = ground arith in
      let no_other : any (λ m. not (is_tool m)) pending ≡ false = ground arith in
      let (distinct, open_calls) =
        check_results_sound (known_calls prior) (completed_calls prior) [] pending (ground arith) in
      inr (record {
        some_result =
            λ empty. cc (ap (λ (ms : List CanonicalMessage). length ms == 0) empty, some_result);
        results = (any-not_tool pending).0 no_other;
        distinct = distinct;
        open_calls = All-mono _ _ (completed_calls pending) (λ i p. (p.0, p.1)) open_calls;
      })
]

pub result_turn_not_user :
    (pending : List CanonicalMessage)
    → All (λ m. role_of m ≡ tool_role) pending
    → is_user_turn pending ≡ false
unfolding is_user_turn
result_turn_not_user [] h = refl
result_turn_not_user (m ∷ []) (h, _) = ground arith
result_turn_not_user (m ∷ n ∷ ms) h = refl

IsTurn-validate_pending :
    (pending prior : List CanonicalMessage)
    → IsTurn pending prior
    → validate_pending pending prior ≡ returned tt
unfolding validate_pending
IsTurn-validate_pending pending prior (inl u) = rw ((is_user_turn_iff pending).1 u)
IsTurn-validate_pending [] prior (inr t) = absurd (t.some_result refl)
IsTurn-validate_pending (m ∷ ms) prior (inr t) =
    let not_user = result_turn_not_user (m ∷ ms) t.results in
    let all_tools = (any-not_tool (m ∷ ms)).1 t.results in
    let accepted =
      check_results_complete (known_calls prior) (completed_calls prior) [] (m ∷ ms) t.distinct
        (All-mono _ _ (completed_calls (m ∷ ms)) (λ i p. (p.0, p.1, not-mem-nil)) t.open_calls) in
    ground arith

-- A pending turn is accepted exactly when it is one user message, or results, each for a known call
-- without a result in the transcript before it, and no call twice.
pub validate_pending_iff :
    (pending prior : List CanonicalMessage)
    → (validate_pending pending prior ≡ returned tt) ↔ IsTurn pending prior
validate_pending_iff pending prior =
    (validate_pending-IsTurn pending prior, IsTurn-validate_pending pending prior)
