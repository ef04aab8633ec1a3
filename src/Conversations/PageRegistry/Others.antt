-- ===== src/Conversations/PageRegistry/Others.antt =====
-- What src/conversations/page-registry.ts does for other conversations, between the calls of one.
use chatgpt_web_gateway.Base.{
  ℕ, ◌+◌, ◌≡◌, refl, sym, ap, ◌∙◌, subst, Bool, true, false, Option, none, some, List, arith,
  if◌then◌else◌, inl, inr, Bool-cases,
}
use chatgpt_web_gateway.Text.{Text, text_eq}
use chatgpt_web_gateway.Text.Laws.{text_eq_iff}
use chatgpt_web_gateway.Conversations.PageRegistry.{
  Binding, Entry, Registry, Session, LeaseCall, Begun, refused, reused, needs_lease, is_closed, get,
  is_same, delete_closed_bindings, release_binding, schedule_earliest_expiry, acquire_begin,
  acquire_named, acquire_bound, acquire_end, complete, complete_held, complete_bound, fail,
  fail_held, has_affinity, has_affinity_of, expire_begin, expire_next,
  evict_least_recently_used_idle,
}
use chatgpt_web_gateway.Conversations.PageRegistry.Bound.{
  IsBound, set-IsBound, remove-IsBound, sweep-IsBound, release-IsBound, either-IsBound,
  schedule-IsBound,
}

-- The session is the conversation's.
unfoldable pub is_of : Text → Option Entry → Bool
is_of id none = false
is_of id (some e) = text_eq e.0 id

module _ (locale_before : Text → Text → Bool) (timeout : ℕ) where
  -- A call, or the part of a call up to an await, that does not end the binding of the conversation
  -- to the page: it is another conversation's, or it only looks. The page is open meanwhile.
  pub data Elsewhere (id : Text) (page : ℕ) (r : Registry) : Registry → Type 0 where
    reuses :
        (now : ℕ) (dead : List ℕ) (other : Text) (s : Session) {r' : Registry}
        → is_closed dead page ≡ false
        → text_eq other id ≡ false
        → acquire_begin locale_before timeout now dead (some other) r ≡ reused s r'
        → Elsewhere id page r r'
    begins :
        (now : ℕ) (dead : List ℕ) (other : Text) (calls : List LeaseCall) {r' : Registry}
        → is_closed dead page ≡ false
        → text_eq other id ≡ false
        → acquire_begin locale_before timeout now dead (some other) r ≡ needs_lease calls r'
        → Elsewhere id page r r'
    leases :
        (now : ℕ) (dead : List ℕ) (other : Text) (other_page : ℕ)
        → is_closed dead page ≡ false
        → text_eq other id ≡ false
        → Elsewhere id page r
            (acquire_end locale_before timeout now dead (some other) other_page r).1
    completes :
        (now : ℕ) (dead : List ℕ) (s : Session)
        → is_closed dead page ≡ false
        → is_of id s.holds ≡ false
        → Elsewhere id page r (complete locale_before timeout now dead s r).1
    fails :
        (now : ℕ) (dead : List ℕ) (s : Session)
        → is_closed dead page ≡ false
        → is_of id s.holds ≡ false
        → Elsewhere id page r (fail locale_before timeout now dead s r).1
    asks :
        (now : ℕ) (dead : List ℕ) (any_id : Text)
        → is_closed dead page ≡ false
        → Elsewhere id page r (has_affinity locale_before timeout now dead any_id r).1
    -- an eviction that takes the binding of another conversation
    evicts :
        (dead : List ℕ) (other : Text) (c : Binding) (call : LeaseCall)
        → is_closed dead page ≡ false
        → text_eq other id ≡ false
        → evict_least_recently_used_idle locale_before dead r
          ≡ some (release_binding other c (delete_closed_bindings dead r), call)
        → Elsewhere id page r (release_binding other c (delete_closed_bindings dead r))
    -- the start of an expiry, and a round of it for another conversation
    expires :
        (now : ℕ) (dead : List ℕ)
        → is_closed dead page ≡ false
        → Elsewhere id page r (expire_begin locale_before timeout now dead r).0
    expires_other :
        (other : Text) (c : Binding)
        → text_eq other id ≡ false
        → Elsewhere id page r (expire_next locale_before (other, c) r).0
    -- the end of an eviction, or of an expiry
    reschedules :
        (now : ℕ) (dead : List ℕ)
        → is_closed dead page ≡ false
        → Elsewhere id page r (schedule_earliest_expiry locale_before timeout now dead r)

  pub data Others (id : Text) (page : ℕ) (r : Registry) : Registry → Type 0 where
    nothing : Others id page r r
    more : {s t : Registry} → Others id page r s → Elsewhere id page s t → Others id page r t

  -- Whatever acquire begins with, the conversation stays bound.
  Keeps : Text → Binding → Begun → Type 0
  Keeps id b (refused e) = Unit
  Keeps id b (reused s r) = IsBound id b r
  Keeps id b (needs_lease calls r) = IsBound id b r

  if-Keeps :
      (id : Text) (b : Binding) (test : Bool) (x y : Begun)
      → Keeps id b x
      → Keeps id b y
      → Keeps id b (if test then x else y)
  if-Keeps id b true x y k l = k
  if-Keeps id b false x y k l = l

  acquire_bound-Keeps :
      (now : ℕ) (dead : List ℕ) (id other : Text) (b c : Binding) (r : Registry)
      → is_closed dead b.page ≡ false
      → text_eq other id ≡ false
      → IsBound id b r
      → Keeps id b (acquire_bound locale_before timeout now dead other c r)
  unfolding acquire_bound Keeps
  acquire_bound-Keeps now dead id other b c r alive d i =
      if-Keeps id b (is_closed dead c.page) _ _ (remove-IsBound id other b r d i) (
        if-Keeps id b c.busy _ _ tt (
          schedule-IsBound locale_before timeout now dead id b _ alive
            (set-IsBound id other b (record c { busy = true }) r r.next_identity d i)))

  acquire_named-Keeps :
      (now : ℕ) (dead : List ℕ) (id other : Text) (b : Binding) (found : Option Binding)
      (r : Registry)
      → is_closed dead b.page ≡ false
      → text_eq other id ≡ false
      → IsBound id b r
      → Keeps id b (acquire_named locale_before timeout now dead other found r)
  unfolding acquire_named Keeps
  acquire_named-Keeps now dead id other b none r alive d i = i
  acquire_named-Keeps now dead id other b (some c) r alive d i =
      acquire_bound-Keeps now dead id other b c r alive d i

  acquire_begin-Keeps :
      (now : ℕ) (dead : List ℕ) (id other : Text) (b : Binding) (r : Registry)
      → is_closed dead b.page ≡ false
      → text_eq other id ≡ false
      → IsBound id b r
      → Keeps id b (acquire_begin locale_before timeout now dead (some other) r)
  unfolding acquire_begin Keeps
  acquire_begin-Keeps now dead id other b r alive d i =
      if-Keeps id b r.closed _ _ tt
        (acquire_named-Keeps now dead id other b (get r.bindings other) r alive d i)

  complete_held-IsBound :
      (now : ℕ) (dead : List ℕ) (id : Text) (b : Binding) (holds : Option Entry) (page : ℕ)
      (r : Registry)
      → is_closed dead b.page ≡ false
      → is_of id holds ≡ false
      → IsBound id b r
      → IsBound id b (complete_held locale_before timeout now dead holds page r).0
  unfolding complete_held complete_bound is_of
  complete_held-IsBound now dead id b none page r alive d i = i
  complete_held-IsBound now dead id b (some (other, c)) page r alive d i =
      either-IsBound id b (is_same (get r.bindings other) c) _ _
        (schedule-IsBound locale_before timeout now dead id b _ alive (
          set-IsBound id other b (record c { busy = false; last_used_at = now }) r r.next_identity d
            i))
        i

  fail_held-IsBound :
      (now : ℕ) (dead : List ℕ) (id : Text) (b : Binding) (holds : Option Entry) (page : ℕ)
      (r : Registry)
      → is_closed dead b.page ≡ false
      → is_of id holds ≡ false
      → IsBound id b r
      → IsBound id b (fail_held locale_before timeout now dead holds page r).0
  unfolding fail_held is_of
  fail_held-IsBound now dead id b none page r alive d i = i
  fail_held-IsBound now dead id b (some (other, c)) page r alive d i =
      schedule-IsBound locale_before timeout now dead id b _ alive
        (release-IsBound id other b c r d i)

  has_affinity_of-IsBound :
      (now : ℕ) (dead : List ℕ) (id any_id : Text) (b : Binding) (found : Option Binding)
      (r : Registry)
      → is_closed dead b.page ≡ false
      → get r.bindings any_id ≡ found
      → IsBound id b r
      → IsBound id b (has_affinity_of locale_before timeout now dead any_id found r).1
  unfolding has_affinity_of
  has_affinity_of-IsBound now dead id any_id b none r alive g i = i
  has_affinity_of-IsBound now dead id any_id b (some c) r alive g i =
      elim (Bool-cases (is_closed dead c.page)) [
        | inr n ↦ rw n i
        | inl e ↦ elim (Bool-cases (text_eq any_id id)) [
          | inr d ↦ rw e (
              schedule-IsBound locale_before timeout now dead id b _ alive
                (remove-IsBound id any_id b r d i))
          | inl m ↦
              let same : any_id ≡ id = (text_eq_iff any_id id).0 m in
              let found : get r.bindings any_id ≡ some b = ap (get r.bindings) same ∙ i.found in
              let own : c ≡ b = ground arith in
              let shut : is_closed dead b.page ≡ true =
                ap (λ z. is_closed dead z.page) (sym own) ∙ e in
              absurd (ground arith)
        ]
      ]

  expire_begin-open :
      (now : ℕ) (dead : List ℕ) (r : Registry)
      → r.closed ≡ false
      → (expire_begin locale_before timeout now dead r).0 ≡ delete_closed_bindings dead r
  unfolding expire_begin
  expire_begin-open now dead r o = ground arith

  pub Elsewhere-IsBound :
      (id : Text) (b : Binding) (r r' : Registry)
      → Elsewhere id b.page r r'
      → IsBound id b r
      → IsBound id b r'
  unfolding Keeps complete fail has_affinity acquire_end expire_begin expire_next
  Elsewhere-IsBound id b r _ (reuses now dead other s {r'} alive d h) i =
      subst (Keeps id b) h (acquire_begin-Keeps now dead id other b r alive d i)
  Elsewhere-IsBound id b r _ (begins now dead other calls {r'} alive d h) i =
      subst (Keeps id b) h (acquire_begin-Keeps now dead id other b r alive d i)
  Elsewhere-IsBound id b r _ (leases now dead other other_page alive d) i =
      schedule-IsBound locale_before timeout now dead id b _ alive (
        set-IsBound id other b
          (record {
            identity = r.next_identity;
            page = other_page;
            busy = true;
            last_used_at = now;
          })
          r (r.next_identity + 1) d i)
  Elsewhere-IsBound id b r _ (completes now dead s alive d) i = elim (Bool-cases s.active) [
    | inl on ↦ rw on (complete_held-IsBound now dead id b s.holds s.session_page r alive d i)
    | inr off ↦ rw off i
  ]
  Elsewhere-IsBound id b r _ (fails now dead s alive d) i = elim (Bool-cases s.active) [
    | inl on ↦ rw on (fail_held-IsBound now dead id b s.holds s.session_page r alive d i)
    | inr off ↦ rw off i
  ]
  Elsewhere-IsBound id b r _ (asks now dead any_id alive) i =
      has_affinity_of-IsBound now dead id any_id b (get r.bindings any_id) r alive refl i
  Elsewhere-IsBound id b r _ (evicts dead other c call alive d h) i =
      release-IsBound id other b c _ d (sweep-IsBound id b dead r alive i)
  Elsewhere-IsBound id b r _ (expires now dead alive) i =
      subst (IsBound id b) (sym (expire_begin-open now dead r i.still_open))
        (sweep-IsBound id b dead r alive i)
  Elsewhere-IsBound id b r _ (expires_other other c d) i = release-IsBound id other b c r d i
  Elsewhere-IsBound id b r _ (reschedules now dead alive) i =
      schedule-IsBound locale_before timeout now dead id b r alive i

  pub Others-IsBound :
      (id : Text) (b : Binding) (r r' : Registry)
      → Others id b.page r r'
      → IsBound id b r
      → IsBound id b r'
  Others-IsBound id b r _ nothing i = i
  Others-IsBound id b r r' (more {s} os e) i =
      Elsewhere-IsBound id b s r' e (Others-IsBound id b r s os i)
