-- ===== src/Conversations/PageRegistry/Timer.antt =====
-- When the timer of src/conversations/page-registry.ts fires.
use chatgpt_web_gateway.Base.{
  ℕ, ◌+◌, ◌-◌, ◌≤◌, ◌≡◌, refl, sym, ◌∙◌, subst, ◌⊎◌, Bool, true, false, Option, none, some, List,
  [], ◌∷◌, arith, inl, inr, Bool-cases, All, All-mono,
}
use chatgpt_web_gateway.Text.{Text}
use chatgpt_web_gateway.Conversations.PageRegistry.Order.{All-of_sort, sort-least}
use chatgpt_web_gateway.Conversations.PageRegistry.Eviction.{All-of_idle}
use chatgpt_web_gateway.Conversations.PageRegistry.{
  Binding, Entry, Registry, Session, reused, is_closed, get, set, remove, is_same, live_entries,
  delete_closed_bindings, idle_entries, sort, release_binding, delay_of, schedule_earliest_expiry,
  acquire_begin, acquire_named, acquire_bound, acquire_end, complete, complete_held, complete_bound,
  fail, fail_held, has_affinity, has_affinity_of,
}

-- The timer is set to fire no later than the entry expires.
abbrev pub FiresFor : (timeout now : ℕ) → Option ℕ → Entry → Type 0
FiresFor timeout now timer o =
    (delay : ℕ) × (timer ≡ some delay) × (delay ≤ o.1.last_used_at + timeout - now)

-- The timer, set at the time, is in time for each entry that is not busy.
pub record IsCovered (timeout now : ℕ) (r : Registry) : Type 0 where
  pub covers : All (λ o. (o.1.busy ≡ true) ⊎ FiresFor timeout now r.timer o) r.bindings

module _ (locale_before : Text → Text → Bool) (timeout now : ℕ) (dead : List ℕ) where
  delay_of-FiresFor :
      (xs ys : List Entry)
      → sort locale_before xs ≡ ys
      → All (FiresFor timeout now (delay_of locale_before timeout now ys)) xs
  unfolding delay_of
  delay_of-FiresFor xs [] e = All-of_sort locale_before _ xs (subst (All _) (sym e) tt)
  delay_of-FiresFor xs ((k, b) ∷ more) e =
      All-mono _ _ xs (λ o l. (b.last_used_at + timeout - now, refl, omega arith))
        (sort-least locale_before xs more (k, b) e)

  schedule-IsCovered :
      (r : Registry)
      → r.closed ≡ false
      → IsCovered timeout now (schedule_earliest_expiry locale_before timeout now dead r)
  unfolding schedule_earliest_expiry delete_closed_bindings
  schedule-IsCovered r o =
      let live = live_entries dead r.bindings in
      let cs = idle_entries live in
      rw o (record {
        covers =
            All-of_idle
              (FiresFor timeout now (delay_of locale_before timeout now (sort locale_before cs)))
              live (delay_of-FiresFor cs (sort locale_before cs) refl);
      })

  -- The calls that set the timer again, for a registry that is not closed.
  pub data Reschedules (r : Registry) : Registry → Type 0 where
    -- complete() of an active session whose binding is still its conversation's
    completes :
        (s : Session) (e : Entry)
        → s.active ≡ true
        → s.holds ≡ some e
        → is_same (get r.bindings e.0) e.1 ≡ true
        → Reschedules r (complete locale_before timeout now dead s r).1
    -- fail() of an active session of a conversation
    fails :
        (s : Session) (e : Entry)
        → s.active ≡ true
        → s.holds ≡ some e
        → Reschedules r (fail locale_before timeout now dead s r).1
    -- acquire that has the conversation's page
    reuses :
        (id : Text) (s : Session) {r' : Registry}
        → acquire_begin locale_before timeout now dead (some id) r ≡ reused s r'
        → Reschedules r r'
    -- acquire that has a new lease
    leases :
        (id : Text) (page : ℕ)
        → Reschedules r (acquire_end locale_before timeout now dead (some id) page r).1
    -- hasAffinity of a conversation whose page is closed
    misses :
        (id : Text) (b : Binding)
        → get r.bindings id ≡ some b
        → is_closed dead b.page ≡ true
        → Reschedules r (has_affinity locale_before timeout now dead id r).1
    -- the end of an eviction, or of an expiry
    sweeps : Reschedules r (schedule_earliest_expiry locale_before timeout now dead r)

  complete_bound-IsCovered :
      (e : Entry) (r : Registry)
      → r.closed ≡ false
      → is_same (get r.bindings e.0) e.1 ≡ true
      → IsCovered timeout now (complete_bound locale_before timeout now dead e r)
  unfolding complete_bound
  complete_bound-IsCovered (id, b) r o same = rw same (
      schedule-IsCovered
        (record r { bindings = set id (record b { busy = false; last_used_at = now }) r.bindings })
        o)

  release-closed :
      (id : Text) (b : Binding) (r : Registry) → (release_binding id b r).closed ≡ r.closed
  unfolding release_binding
  release-closed id b r = ground arith

  reused-IsCovered :
      (id : Text) (b : Binding) (s : Session) (r r' : Registry)
      → r.closed ≡ false
      → acquire_bound locale_before timeout now dead id b r ≡ reused s r'
      → IsCovered timeout now r'
  unfolding acquire_bound
  reused-IsCovered id b s r r' o h = elim (Bool-cases (is_closed dead b.page)) [
    | inl c ↦ absurd (ground arith)
    | inr a ↦ elim (Bool-cases b.busy) [
      | inl y ↦ absurd (ground arith)
      | inr n ↦
          let start = record r { bindings = set id (record b { busy = true }) r.bindings } in
          let same : schedule_earliest_expiry locale_before timeout now dead start ≡ r' =
            ground arith in
          subst (IsCovered timeout now) same (schedule-IsCovered start o)
    ]
  ]

  acquire_named-IsCovered :
      (id : Text) (found : Option Binding) (s : Session) (r r' : Registry)
      → r.closed ≡ false
      → acquire_named locale_before timeout now dead id found r ≡ reused s r'
      → IsCovered timeout now r'
  unfolding acquire_named
  acquire_named-IsCovered id none s r r' o h = cc
  acquire_named-IsCovered id (some b) s r r' o h = reused-IsCovered id b s r r' o h

  -- Right after each call that sets the timer of an open registry again, the timer fires no later
  -- than the first expiry of a binding that is left and not busy, and is off only if there is
  -- none. The calls are complete() of an active session whose binding is still its
  -- conversation's, fail() of an active session of a conversation, an acquire that has the
  -- conversation's page or a new lease for it, hasAffinity of a conversation whose page is
  -- closed, and the end of an eviction or an expiry.
  pub timer_covers :
      (r r' : Registry) → r.closed ≡ false → Reschedules r r' → IsCovered timeout now r'
  unfolding complete complete_held fail fail_held acquire_begin acquire_end has_affinity
      has_affinity_of
  timer_covers r _ o (completes s e on held same) =
      rw (on, held) (complete_bound-IsCovered e r o same)
  timer_covers r _ o (fails s (id, b) on held) =
      rw (on, held) (schedule-IsCovered (release_binding id b r) (release-closed id b r ∙ o))
  timer_covers r _ o (reuses id s {r'} h) =
      acquire_named-IsCovered id (get r.bindings id) s r r' o (ground arith)
  timer_covers r _ o (leases id page) =
      schedule-IsCovered
        (record r {
          bindings =
              set id
                (record {
                  identity = r.next_identity;
                  page = page;
                  busy = true;
                  last_used_at = now;
                })
                r.bindings;
          next_identity = r.next_identity + 1;
        })
        o
  timer_covers r _ o (misses id b g c) =
      rw (g, c) (schedule-IsCovered (record r { bindings = remove id r.bindings }) o)
  timer_covers r _ o sweeps = schedule-IsCovered r o
