-- ===== src/Conversations/Engine/Release/Leads.antt =====
-- What a turn of src/conversations/conversation-engine.ts holds, stage by stage.
use chatgpt_web_gateway.Base.{
  ℕ, suc, ◌+◌, ◌≡◌, refl, sym, ap, ◌∙◌, subst, ◌⊎◌, inl, inr, Bool, true, false, none, some,
  Bool-cases,
}
use chatgpt_web_gateway.Base.Results.{Result, returned, thrown}
use chatgpt_web_gateway.Conversations.Engine.Program.{EngineError, Local, Run, next, ◌>>=◌, after}
use chatgpt_web_gateway.Conversations.Engine.Prepare.{event_if, release}
use chatgpt_web_gateway.Conversations.Engine.Release.{ledger}
use chatgpt_web_gateway.Conversations.Engine.Release.Neutral.{Tally, tally, IsNeutral}

unfoldable pub bit : Bool → ℕ
bit true = 1
bit false = 0

-- The attachments that are held are those opened, and none has been given back.
pub record Holds (t : Tally) : Type 0 where
  pub opened_current : t.calls.opened_current ≡ bit t.current
  pub opened_retained : t.calls.opened_retained ≡ bit t.retained
  pub closed_current : t.calls.closed_current ≡ 0
  pub closed_retained : t.calls.closed_retained ≡ 0
  pub not_released : t.released ≡ false

-- No session yet, one that is at work, and one that has completed
pub record Idle (t : Tally) : Type 0 where
  pub session : t.session ≡ none
  pub completed : t.completed ≡ false
  pub acquired : t.calls.acquired ≡ 0
  pub completions : t.calls.completions ≡ 0
  pub failures : t.calls.failures ≡ 0

pub record Working (t : Tally) : Type 0 where
  pub session : (n : ℕ) × (t.session ≡ some n)
  pub completed : t.completed ≡ false
  pub acquired : t.calls.acquired ≡ 1
  pub completions : t.calls.completions ≡ 0
  pub failures : t.calls.failures ≡ 0

pub record Done (t : Tally) : Type 0 where
  pub completed : t.completed ≡ true
  pub acquired : t.calls.acquired ≡ 1
  pub completions : t.calls.completions ≡ 1
  pub failures : t.calls.failures ≡ 0

unfoldable pub Ready : Tally → Type 0
Ready t = Holds t × Idle t

unfoldable pub AtWork : Tally → Type 0
AtWork t = Holds t × Working t

unfoldable pub Ended : Tally → Type 0
Ended t = Holds t × (Idle t ⊎ (Working t ⊎ Done t))

-- Every session has completed or failed.
unfoldable pub Left : Tally → Type 0
Left t = Holds t × (t.calls.completions + t.calls.failures ≡ t.calls.acquired)

pub record Settled (t : Tally) : Type 0 where
  pub current_closed : t.calls.closed_current ≡ t.calls.opened_current
  pub retained_closed : t.calls.closed_retained ≡ t.calls.opened_retained
  pub session_closed : t.calls.completions + t.calls.failures ≡ t.calls.acquired

-- From a state of the first kind, the run ends in one of the second.
pub record Leads {A : Type 0} (P Q : Tally → Type 0) (m : Run A) : Type 0 where
  pub leads : (s : Local) → P (tally s) → Q (tally ((m s).1))

pub neutral-Leads : {A : Type 0} (P : Tally → Type 0) (m : Run A) → IsNeutral m → Leads P P m
neutral-Leads P m h = record { leads = λ s p. subst P (sym (h.same s)) p }

pub next-Leads :
    {A B : Type 0} (P Q : Tally → Type 0) (k : A → Run B)
    → ((t : Tally) → P t → Q t)
    → ((a : A) → Leads P Q (k a))
    → (r : Result EngineError A) (s : Local) → P (tally s)
    → Q (tally ((next k r s).1))
unfolding next
next-Leads P Q k stop go (returned a) s p = (go a).leads s p
next-Leads P Q k stop go (thrown e) s p = stop (tally s) p

pub bind-Leads :
    {A B : Type 0} (P R Q : Tally → Type 0) (m : Run A) (k : A → Run B)
    → Leads P R m
    → ((t : Tally) → R t → Q t)
    → ((a : A) → Leads R Q (k a))
    → Leads P Q (m >>= k)
unfolding ◌>>=◌
bind-Leads P R Q m k hm stop go = record {
  leads = λ s p. next-Leads R Q k stop go ((m s).0) ((m s).1) (hm.leads s p);
}

pub after-state :
    {A : Type 0} (r : Result EngineError A) (x : Result EngineError (Unit {0}) × Local)
    → (after r x).1 ≡ x.1
unfolding after
after-state r (returned u, s) = refl
after-state r (thrown e, s) = refl

pub release-Settled : (s : Local) → Left (tally s) → Settled (tally (release s))
unfolding release event_if Left ledger bit
release-Settled s (h, left) = elim (Bool-cases s.current) [
  | inl c ↦ elim (Bool-cases s.retained) [
    | inl t ↦
        rw (h.not_released, c, t)
          (record {
            current_closed = closed c h.closed_current h.opened_current;
            retained_closed = closed t h.closed_retained h.opened_retained;
            session_closed = left;
          })
    | inr n ↦
        rw (h.not_released, c, n)
          (record {
            current_closed = closed c h.closed_current h.opened_current;
            retained_closed = unopened n h.closed_retained h.opened_retained;
            session_closed = left;
          })
  ]
  | inr o ↦ elim (Bool-cases s.retained) [
    | inl t ↦
        rw (h.not_released, o, t)
          (record {
            current_closed = unopened o h.closed_current h.opened_current;
            retained_closed = closed t h.closed_retained h.opened_retained;
            session_closed = left;
          })
    | inr n ↦
        rw (h.not_released, o, n)
          (record {
            current_closed = unopened o h.closed_current h.opened_current;
            retained_closed = unopened n h.closed_retained h.opened_retained;
            session_closed = left;
          })
  ]
]
  where
    closed :
        {b : Bool} {closed_so_far opened : ℕ}
        → b ≡ true
        → closed_so_far ≡ 0
        → opened ≡ bit b
        → suc closed_so_far ≡ opened
    closed e z o = ap suc z ∙ sym (o ∙ ap bit e)

    unopened :
        {b : Bool} {closed_so_far opened : ℕ}
        → b ≡ false
        → closed_so_far ≡ 0
        → opened ≡ bit b
        → closed_so_far ≡ opened
    unopened e z o = z ∙ sym (o ∙ ap bit e)

pub Ended-Left :
    (t : Tally) → Holds t × ((t.calls.completions + t.calls.failures) ≡ t.calls.acquired) → Left t
unfolding Left
Ended-Left t h = h

pub Ready-Ended : (t : Tally) → Ready t → Ended t
unfolding Ready Ended
Ready-Ended t (h, i) = (h, inl i)

pub AtWork-Ended : (t : Tally) → AtWork t → Ended t
unfolding AtWork Ended
AtWork-Ended t (h, w) = (h, inr (inl w))

pub AtWork-both : (t : Tally) → Holds t → Working t → AtWork t
unfolding AtWork
AtWork-both t h w = (h, w)

-- A step at work that takes and gives back nothing
pub at_work :
    {A B : Type 0} (m : Run A) (k : A → Run B)
    → IsNeutral m
    → ((a : A) → Leads AtWork Ended (k a))
    → Leads AtWork Ended (m >>= k)
at_work m k h go = bind-Leads AtWork AtWork Ended m k (neutral-Leads AtWork m h) AtWork-Ended go
