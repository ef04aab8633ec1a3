-- ===== src/Conversations/Pages.antt =====
-- src/conversations/conversation-pages.ts, the page manager of the earlier executor. A call is split
-- where it awaits a lease; each part takes the time and the closed pages, and returns the manager
-- with the pages whose lease it closes. Object identity of affinities is a number.
pub mod Laws
pub mod Tests
use chatgpt_web_gateway.Base.{
  ℕ, ◌+◌, ◌-◌, Bool, true, false, not, ◌&&◌, ◌||◌, Option, none, some, List, [], ◌∷◌, leb, ltb,
  ◌==◌, if◌then◌else◌, any,
}
use chatgpt_web_gateway.Text.{Text, text_eq}

pub record Affinity : Type 0 where
  pub identity : ℕ
  pub page : ℕ
  pub active : Bool
  pub last_used_at : ℕ

abbrev pub Keyed : Type 0
Keyed = Text × Affinity

pub record Manager : Type 0 where
  -- in the order of insertion
  pub affinities : List Keyed
  pub closed : Bool
  pub next_identity : ℕ

pub data ManagerError : Type 0 where
  manager_closed affinity_active : ManagerError

-- A lease, with whether release() has been called
pub record ConversationPageLease : Type 0 where
  pub key : Text
  pub affinity : Affinity
  pub reused : Bool
  pub given_back : Bool

pub create_manager : Manager
create_manager = record { affinities = []; closed = false; next_identity = 0 }

pub get : List Keyed → Text → Option Affinity
get [] key = none
get ((k, a) ∷ more) key = if text_eq k key then some a else get more key

pub remove : Text → List Keyed → List Keyed
remove key [] = []
remove key ((k, a) ∷ more) =
    let rest = remove key more in if text_eq k key then rest else (k, a) ∷ rest

pub set : Text → Affinity → List Keyed → List Keyed
set key a [] = (key, a) ∷ []
set key a ((k, b) ∷ more) = if text_eq k key then (k, a) ∷ more else (k, b) ∷ set key a more

-- Changes the object of an affinity, which the map holds while its identity is there.
pub update : Affinity → List Keyed → List Keyed
update a [] = []
update a ((k, b) ∷ more) =
    let rest = update a more in if b.identity == a.identity then (k, a) ∷ rest else (k, b) ∷ rest

pub is_closed : (dead : List ℕ) → ℕ → Bool
is_closed dead page = any (λ p. p == page) dead

pub is_same : Option Affinity → Affinity → Bool
is_same none a = false
is_same (some b) a = b.identity == a.identity

-- The part of discardAffinity before its await
pub discard_affinity : Text → Affinity → Manager → Manager × List ℕ
unfolding get remove is_same
discard_affinity key a m = (
  if is_same (get m.affinities key) a then record m { affinities = remove key m.affinities } else m,
  a.page ∷ [],
)

-- affinity.lastUsedAt <= now() - idleTimeoutMs, where the difference may be negative
pub is_expired : (idle_timeout now : ℕ) → Affinity → Bool
is_expired idle_timeout now a = not a.active && leb (a.last_used_at + idle_timeout) now

pub expired_of : (idle_timeout now : ℕ) → List Keyed → List Keyed
unfolding is_expired
expired_of idle_timeout now [] = []
expired_of idle_timeout now ((k, a) ∷ more) =
    let rest = expired_of idle_timeout now more in
    if is_expired idle_timeout now a then (k, a) ∷ rest else rest

-- sweepIdle up to its loop: the entries that the loop discards, one by one
pub sweep_begin : (idle_timeout now : ℕ) → Manager → List Keyed
unfolding expired_of
sweep_begin idle_timeout now m = if m.closed then [] else expired_of idle_timeout now m.affinities

-- The loop of evictLeastRecentlyUsedIdle
pub older_of : Option Keyed → Keyed → Option Keyed
older_of none (k, a) = some (k, a)
older_of (some (l, b)) (k, a) =
    if ltb a.last_used_at b.last_used_at then some (k, a) else some (l, b)

pub candidate_of : Option Keyed → List Keyed → Option Keyed
unfolding older_of
candidate_of candidate [] = candidate
candidate_of candidate ((k, a) ∷ more) =
    if a.active then candidate_of candidate more else candidate_of (older_of candidate (k, a)) more

pub discard_candidate : Option Keyed → Manager → Option (Manager × List ℕ)
unfolding discard_affinity
discard_candidate none m = none
discard_candidate (some (k, a)) m = some (discard_affinity k a m)

pub evict_least_recently_used_idle : Manager → Option (Manager × List ℕ)
unfolding candidate_of discard_candidate
evict_least_recently_used_idle m = discard_candidate (candidate_of none m.affinities) m

pub has_warm_page_of : (dead : List ℕ) → Option Affinity → Bool
unfolding is_closed
has_warm_page_of dead none = false
has_warm_page_of dead (some a) = not (is_closed dead a.page)

pub has_warm_page : (dead : List ℕ) → Text → Manager → Bool
unfolding has_warm_page_of get
has_warm_page dead key m = has_warm_page_of dead (get m.affinities key)

-- acquire after its sweep: it throws, it has a lease, or it needs one of the pool.
pub data Begun : Type 0 where
  refused : ManagerError → Begun
  taken : ConversationPageLease → Manager → Begun
  needs_lease : Manager → List ℕ → Begun

pub acquire_found : (dead : List ℕ) → Text → Option Affinity → Manager → Begun
unfolding is_closed discard_affinity update
acquire_found dead key none m = needs_lease m []
acquire_found dead key (some a) m =
    let (left, closes) = discard_affinity key a m in
    let used = record a { active = true } in
    if is_closed dead a.page
    then needs_lease left closes
    else if a.active
    then refused affinity_active
    else taken (record { key = key; affinity = used; reused = true; given_back = false })
        (record m { affinities = update used m.affinities })

pub acquire_begin : (dead : List ℕ) → Text → Manager → Begun
unfolding acquire_found get
acquire_begin dead key m =
    if m.closed then refused manager_closed else acquire_found dead key (get m.affinities key) m

-- The rest of acquire, with the page of the pool's lease
pub acquire_end : (now : ℕ) → Text → ℕ → Manager → ConversationPageLease × Manager
unfolding set
acquire_end now key page m =
    let a : Affinity = record {
      identity = m.next_identity;
      page = page;
      active = true;
      last_used_at = now;
    } in
    (
      record { key = key; affinity = a; reused = false; given_back = false },
      record m { affinities = set key a m.affinities; next_identity = m.next_identity + 1 },
    )

pub release :
    (now : ℕ) (discard : Bool)
    → ConversationPageLease
    → Manager
    → ConversationPageLease × Manager × List ℕ
unfolding discard_affinity update
release now discard l m =
    let (left, closes) = discard_affinity l.key l.affinity m in
    let kept = record m {
      affinities = update (record l.affinity { active = false; last_used_at = now }) m.affinities;
    } in
    if l.given_back
    then (l, m, [])
    else if discard
    then (record l { given_back = true }, left, closes)
    else (record l { given_back = true }, kept, [])

pub pages_of : List Keyed → List ℕ
pages_of [] = []
pages_of ((k, a) ∷ more) = a.page ∷ pages_of more

-- close, when no lease fails
pub close : Manager → Manager × List ℕ
unfolding pages_of
close m =
    if m.closed
    then (m, [])
    else (record m { closed = true; affinities = [] }, pages_of m.affinities)

-- Names what a run of the manager computes through, for tests.
unfoldable pub manager_runs : Unit {0}
unfolding create_manager get remove set update is_closed is_same discard_affinity is_expired
    expired_of sweep_begin older_of candidate_of discard_candidate evict_least_recently_used_idle
    has_warm_page_of has_warm_page acquire_found acquire_begin acquire_end release pages_of close
manager_runs = tt
