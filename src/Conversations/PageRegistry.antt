-- ===== src/Conversations/PageRegistry.antt =====
-- src/conversations/page-registry.ts. A call is split where it awaits a lease; each part takes the
-- time and the pages that are closed, and returns the registry with the calls it makes on leases.
-- The order of two conversation ids is the parameter locale_before, localeCompare(left, right) < 0.
-- Object identity of bindings is a number. Times are numbers; setTimer is the delay it is given.
pub mod Keys
pub mod Order
pub mod Eviction
pub mod Timer
pub mod Bound
pub mod Others
pub mod Affinity
pub mod Tests
use chatgpt_web_gateway.Base.{
  ℕ, zero, suc, ◌+◌, ◌-◌, Bool, true, false, not, ◌&&◌, ◌||◌, Option, none, some, List, [], ◌∷◌,
  ◌++◌, leb, ltb, ◌==◌, if◌then◌else◌, any,
}
use chatgpt_web_gateway.Base.Results.{Result, returned, thrown}
use chatgpt_web_gateway.Text.{Text, text_eq}

-- A lease is named by its page.
pub record Binding : Type 0 where
  pub identity : ℕ
  pub page : ℕ
  pub busy : Bool
  pub last_used_at : ℕ

abbrev pub Entry : Type 0
Entry = Text × Binding

pub data LeaseCall : Type 0 where
  released closed_page : ℕ → LeaseCall

pub record Registry : Type 0 where
  -- in the order of insertion
  pub bindings : List Entry
  pub timer : Option ℕ
  pub closed : Bool
  pub next_identity : ℕ

pub data RegistryError : Type 0 where
  registry_closed affinity_busy : RegistryError

pub create_registry : Registry
create_registry = record { bindings = []; timer = none; closed = false; next_identity = 0 }

-- page.isClosed()
pub is_closed : (dead : List ℕ) → ℕ → Bool
is_closed dead page = any (λ p. p == page) dead

pub get : List Entry → Text → Option Binding
get [] id = none
get ((k, b) ∷ more) id = if text_eq k id then some b else get more id

pub remove : Text → List Entry → List Entry
remove id [] = []
remove id ((k, b) ∷ more) =
    let rest = remove id more in if text_eq k id then rest else (k, b) ∷ rest

pub set : Text → Binding → List Entry → List Entry
set id b [] = (id, b) ∷ []
set id b ((k, c) ∷ more) = if text_eq k id then (k, b) ∷ more else (k, c) ∷ set id b more

pub live_entries : (dead : List ℕ) → List Entry → List Entry
unfolding is_closed
live_entries dead [] = []
live_entries dead ((k, b) ∷ more) =
    let rest = live_entries dead more in if is_closed dead b.page then rest else (k, b) ∷ rest

pub delete_closed_bindings : (dead : List ℕ) → Registry → Registry
unfolding live_entries
delete_closed_bindings dead r = record r { bindings = live_entries dead r.bindings }

pub is_same : Option Binding → Binding → Bool
is_same none b = false
is_same (some c) b = c.identity == b.identity

-- The part of releaseBinding before its await
pub release_binding : Text → Binding → Registry → Registry
unfolding get remove is_same
release_binding id b r =
    if is_same (get r.bindings id) b then record r { bindings = remove id r.bindings } else r

pub idle_entries : List Entry → List Entry
idle_entries [] = []
idle_entries ((k, b) ∷ more) =
    let rest = idle_entries more in if b.busy then rest else (k, b) ∷ rest

pub expired_entries : (idle_timeout now : ℕ) → List Entry → List Entry
expired_entries idle_timeout now [] = []
expired_entries idle_timeout now ((k, b) ∷ more) =
    let rest = expired_entries idle_timeout now more in
    if not b.busy && leb (b.last_used_at + idle_timeout) now then (k, b) ∷ rest else rest

-- A session, with the binding it holds if it is a conversation's
pub record Session : Type 0 where
  pub session_page : ℕ
  pub holds : Option Entry
  pub active : Bool

-- acquire before its first await: it throws, has a session, or needs a lease of the pool, after
-- it has released the lease of a closed page.
pub data Begun : Type 0 where
  refused : RegistryError → Begun
  reused : Session → Registry → Begun
  needs_lease : List LeaseCall → Registry → Begun

-- The session ends with the first complete() or fail().
pub ended : Session → Session
ended s = record s { active = false }

module _ (locale_before : Text → Text → Bool) where
  pub before : Entry → Entry → Bool
  before (l, a) (r, b) =
      ltb a.last_used_at b.last_used_at || (a.last_used_at == b.last_used_at && locale_before l r)

  -- The stable sort by the time of last use, then by id
  pub insert : Entry → List Entry → List Entry
  unfolding before
  insert x [] = x ∷ []
  insert x (y ∷ ys) = if before y x then y ∷ insert x ys else x ∷ y ∷ ys

  pub sort : List Entry → List Entry
  unfolding insert
  sort [] = []
  sort (x ∷ xs) = insert x (sort xs)

  -- candidates[0] with its delay
  pub delay_of : (idle_timeout now : ℕ) → List Entry → Option ℕ
  delay_of idle_timeout now [] = none
  delay_of idle_timeout now ((k, b) ∷ more) = some (b.last_used_at + idle_timeout - now)

  pub schedule_earliest_expiry : (idle_timeout now : ℕ) (dead : List ℕ) → Registry → Registry
  unfolding delete_closed_bindings idle_entries sort delay_of
  schedule_earliest_expiry idle_timeout now dead r =
      if r.closed
      then record r { timer = none }
      else let swept = delete_closed_bindings dead r in
        record swept { timer = delay_of idle_timeout now (sort (idle_entries swept.bindings)) }

  -- expireIdleBindings up to its loop: the entries that the loop goes through
  pub expire_begin : (idle_timeout now : ℕ) (dead : List ℕ) → Registry → Registry × List Entry
  unfolding delete_closed_bindings sort expired_entries
  expire_begin idle_timeout now dead r =
      if r.closed
      then (r, [])
      else let swept = delete_closed_bindings dead r in
        (swept, sort (expired_entries idle_timeout now swept.bindings))

  -- One round of its loop
  pub expire_next : Entry → Registry → Registry × List LeaseCall
  unfolding release_binding
  expire_next (id, b) r = (release_binding id b r, closed_page b.page ∷ [])

  pub evict_candidate : List Entry → Registry → Option (Registry × LeaseCall)
  unfolding release_binding
  evict_candidate [] r = none
  evict_candidate ((id, b) ∷ more) r = some (release_binding id b r, released b.page)

  -- evictLeastRecentlyUsedIdle up to the await of release()
  pub evict_least_recently_used_idle : (dead : List ℕ) → Registry → Option (Registry × LeaseCall)
  unfolding delete_closed_bindings idle_entries sort evict_candidate
  evict_least_recently_used_idle dead r =
      let swept = delete_closed_bindings dead r in
      evict_candidate (sort (idle_entries swept.bindings)) swept

  pub acquire_bound : (idle_timeout now : ℕ) (dead : List ℕ) → Text → Binding → Registry → Begun
  unfolding is_closed remove set schedule_earliest_expiry
  acquire_bound idle_timeout now dead id b r =
      if is_closed dead b.page
      then needs_lease (released b.page ∷ []) (record r { bindings = remove id r.bindings })
      else if b.busy
      then refused affinity_busy
      else let taken = record b { busy = true } in
        reused (record { session_page = b.page; holds = some (id, taken); active = true })
          (schedule_earliest_expiry idle_timeout now dead
            (record r { bindings = set id taken r.bindings }))

  pub acquire_named :
      (idle_timeout now : ℕ) (dead : List ℕ) → Text → Option Binding → Registry → Begun
  unfolding acquire_bound
  acquire_named idle_timeout now dead id none r = needs_lease [] r
  acquire_named idle_timeout now dead id (some b) r = acquire_bound idle_timeout now dead id b r

  pub acquire_begin : (idle_timeout now : ℕ) (dead : List ℕ) → Option Text → Registry → Begun
  unfolding acquire_named get
  acquire_begin idle_timeout now dead none r =
      if r.closed then refused registry_closed else needs_lease [] r
  acquire_begin idle_timeout now dead (some id) r =
      if r.closed
      then refused registry_closed
      else acquire_named idle_timeout now dead id (get r.bindings id) r

  -- The rest of acquire, with the page of the pool's lease
  pub acquire_end :
      (idle_timeout now : ℕ) (dead : List ℕ) → Option Text → ℕ → Registry → Session × Registry
  unfolding set schedule_earliest_expiry
  acquire_end idle_timeout now dead none page r =
      (record { session_page = page; holds = none; active = true }, r)
  acquire_end idle_timeout now dead (some id) page r =
      let b : Binding = record {
        identity = r.next_identity;
        page = page;
        busy = true;
        last_used_at = now;
      } in
      (
        record { session_page = page; holds = some (id, b); active = true },
        schedule_earliest_expiry idle_timeout now dead
            (record r { bindings = set id b r.bindings; next_identity = r.next_identity + 1 }),
      )

  pub complete_bound : (idle_timeout now : ℕ) (dead : List ℕ) → Entry → Registry → Registry
  unfolding get set is_same schedule_earliest_expiry
  complete_bound idle_timeout now dead (id, b) r =
      if is_same (get r.bindings id) b
      then schedule_earliest_expiry idle_timeout now dead (record r {
        bindings = set id (record b { busy = false; last_used_at = now }) r.bindings;
      })
      else r

  pub complete_held :
      (idle_timeout now : ℕ) (dead : List ℕ)
      → Option Entry
      → ℕ
      → Registry
      → Registry × List LeaseCall
  unfolding complete_bound
  complete_held idle_timeout now dead none page r = (r, released page ∷ [])
  complete_held idle_timeout now dead (some e) page r =
      (complete_bound idle_timeout now dead e r, [])

  pub complete :
      (idle_timeout now : ℕ) (dead : List ℕ)
      → Session
      → Registry
      → Session × Registry × List LeaseCall
  unfolding complete_held ended
  complete idle_timeout now dead s r =
      let (after, calls) = complete_held idle_timeout now dead s.holds s.session_page r in
      if s.active then (ended s, after, calls) else (s, r, [])

  pub fail_held :
      (idle_timeout now : ℕ) (dead : List ℕ)
      → Option Entry
      → ℕ
      → Registry
      → Registry × List LeaseCall
  unfolding release_binding schedule_earliest_expiry
  fail_held idle_timeout now dead none page r = (r, closed_page page ∷ [])
  fail_held idle_timeout now dead (some (id, b)) page r = (
    schedule_earliest_expiry idle_timeout now dead (release_binding id b r),
    closed_page b.page ∷ [],
  )

  -- fail, when the lease closes without an error
  pub fail :
      (idle_timeout now : ℕ) (dead : List ℕ)
      → Session
      → Registry
      → Session × Registry × List LeaseCall
  unfolding fail_held ended
  fail idle_timeout now dead s r =
      let (after, calls) = fail_held idle_timeout now dead s.holds s.session_page r in
      if s.active then (ended s, after, calls) else (s, r, [])

  pub has_affinity_of :
      (idle_timeout now : ℕ) (dead : List ℕ) → Text → Option Binding → Registry → Bool × Registry
  unfolding is_closed remove schedule_earliest_expiry
  has_affinity_of idle_timeout now dead id none r = (false, r)
  has_affinity_of idle_timeout now dead id (some b) r =
      if is_closed dead b.page
      then (
        false,
        schedule_earliest_expiry idle_timeout now dead
            (record r { bindings = remove id r.bindings }),
      )
      else (true, r)

  pub has_affinity : (idle_timeout now : ℕ) (dead : List ℕ) → Text → Registry → Bool × Registry
  unfolding has_affinity_of get
  has_affinity idle_timeout now dead id r =
      has_affinity_of idle_timeout now dead id (get r.bindings id) r

pub released_pages : List Entry → List LeaseCall
released_pages [] = []
released_pages ((k, b) ∷ more) = released b.page ∷ released_pages more

-- close, when no lease fails
pub close : Registry → Registry × List LeaseCall
unfolding released_pages
close r =
    if r.closed
    then (r, [])
    else (record r { closed = true; timer = none; bindings = [] }, released_pages r.bindings)

-- Names what a run of the registry computes through, for tests.
unfoldable pub registry_runs : Unit {0}
unfolding create_registry is_closed get remove set live_entries delete_closed_bindings is_same
    release_binding idle_entries expired_entries before insert sort delay_of
    schedule_earliest_expiry expire_begin expire_next evict_candidate evict_least_recently_used_idle
    acquire_bound acquire_named acquire_begin acquire_end complete_bound complete_held ended
    complete fail_held fail has_affinity_of has_affinity released_pages close
registry_runs = tt
