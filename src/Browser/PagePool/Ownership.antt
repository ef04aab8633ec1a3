-- ===== src/Browser/PagePool/Ownership.antt =====
-- Who has a page of src/browser/page-pool.ts: over every interleaving of the calls' segments, an
-- open page is either idle or leased, never both, and a page is in at most one active lease.
use chatgpt_web_gateway.Base.{
  ℕ, ◌+◌, ◌<◌, ◌≡◌, refl, sym, ap, ◌∙◌, subst, true, false, not, ◌&&◌, ◌||◌, List, [], ◌∷◌, arith,
  ==_refl, inl, inr, Bool-cases, length,
}
use chatgpt_web_gateway.Browser.PagePool.Sets.{
  has, delete, has-add, has-delete, has_empty, has_cons,
}
use chatgpt_web_gateway.Browser.PagePool.{
  Pool, remove_page, track_idle, track_leased, track_all, empty_pool, create_page_pool, granted,
  waits, hand_out, take_idle, acquire, acquire_created, release_active, close_active, page_closed,
  close,
}

-- What holds of each page.
pub record Owned (p : Pool) (x : ℕ) : Type 0 where
  pub parted : has p.open_pages x ≡ (has p.idle x || has p.leased x)
  pub apart : (has p.idle x && has p.leased x) ≡ false
  pub free : (has p.idle x && has p.active x) ≡ false
  pub held : (has p.leased x && not (has p.active x)) ≡ false
  pub kept :
      (has p.active x && (not (has p.dead x) && (not p.closed && not (has p.leased x)))) ≡ false
  pub alive : (has p.open_pages x && has p.dead x) ≡ false

abbrev pub IsOwned : Pool → Type 0
IsOwned p = (x : ℕ) → Owned p x

-- A page that newPage() answers: the pool has not met it.
pub record IsNew (p : Pool) (x : ℕ) : Type 0 where
  pub not_open : has p.open_pages x ≡ false
  pub not_active : has p.active x ≡ false

remove_page-IsOwned :
    (page : ℕ) (p : Pool) → IsOwned p → has p.active page ≡ false → IsOwned (remove_page page p)
unfolding remove_page
remove_page-IsOwned page p o inactive x =
    let ox = o x in
    ground
      (arith, has-delete page p.open_pages x, has-delete page p.leased x, has-delete page p.idle x)

page_closed-IsOwned : (page : ℕ) (p : Pool) → IsOwned p → IsOwned (page_closed page p)
unfolding page_closed remove_page
page_closed-IsOwned page p o x =
    let ox = o x in
    ground (
      arith,
      has-delete page p.open_pages x,
      has-delete page p.leased x,
      has-delete page p.idle x,
      has-add page p.dead x,
    )

track_idle-IsOwned :
    (page : ℕ) (p : Pool) → IsOwned p → has p.active page ≡ false → IsOwned (track_idle page p)
unfolding track_idle
track_idle-IsOwned page p o n x =
    let ox = o x in
    let op = o page in ground (arith, has-add page p.open_pages x, has-add page p.idle x)

track_idle-active : (page : ℕ) (p : Pool) → (track_idle page p).active ≡ p.active
unfolding track_idle
track_idle-active page p = ground arith

acquire_created-IsOwned :
    (page : ℕ) (p : Pool) → IsOwned p → IsNew p page → IsOwned (acquire_created page p)
unfolding acquire_created track_leased
acquire_created-IsOwned page p o n x =
    let ox = o x in
    let op = o page in
    ground (arith, has-add page p.open_pages x, has-add page p.leased x, has_cons page p.active x)

release_active-IsOwned :
    (page : ℕ) (p : Pool) → IsOwned p → has p.active page ≡ true → IsOwned (release_active page p)
unfolding release_active remove_page
release_active-IsOwned page p o a x =
    let ox = o x in
    let op = o page in
    ground (
      arith,
      has-delete page p.open_pages x,
      has-delete page p.leased x,
      has-delete page (delete page p.leased) x,
      has-delete page p.idle x,
      has-delete page p.active x,
      has-add page p.idle x,
    )

close_active-IsOwned :
    (page : ℕ) (p : Pool) → IsOwned p → has p.active page ≡ true → IsOwned (close_active page p)
unfolding close_active remove_page
close_active-IsOwned page p o a x =
    let ox = o x in
    let op = o page in
    ground (
      arith,
      has-delete page p.open_pages x,
      has-delete page p.leased x,
      has-delete page (delete page p.leased) x,
      has-delete page p.idle x,
      has-delete page p.active x,
      has-add page p.dead x,
    )

close-IsOwned : (p : Pool) → IsOwned p → IsOwned (close p)
unfolding close
close-IsOwned p o x = let ox = o x in ground (arith, has_empty x)

hand_out-IsOwned :
    (page : ℕ) (p : Pool) → IsOwned p → has p.idle page ≡ true → IsOwned (hand_out page p)
unfolding hand_out
hand_out-IsOwned page p o i x =
    let ox = o x in
    let op = o page in
    ground (arith, has-delete page p.idle x, has-add page p.leased x, has_cons page p.active x)

-- The segments of the calls and the events of the browser, in any order. A lease acts while it is
-- active, also when close() resumes after newPage(): its holder does not call release() or close()
-- again meanwhile. newPage() answers with a page that the pool has not met.
pub data Step (p : Pool) : Pool → Type 0 where
  acquires : (page : ℕ) {q : Pool} → acquire p ≡ granted page q → Step p q
  starts_page : {q : Pool} → acquire p ≡ waits q → Step p q
  creates_page : (page : ℕ) → IsNew p page → Step p (acquire_created page p)
  releases : (page : ℕ) → has p.active page ≡ true → Step p (release_active page p)
  replaces : (page : ℕ) → IsNew p page → Step p (track_idle page p)
  closes_lease : (page : ℕ) → has p.active page ≡ true → Step p (close_active page p)
  loses_page : (page : ℕ) → Step p (page_closed page p)
  closes : Step p (close p)

pub data Reach (p : Pool) : Pool → Type 0 where
  here : Reach p p
  next : {q r : Pool} → Reach p q → Step q r → Reach p r

take_idle-granted :
    (idle : List ℕ) (p : Pool) (page : ℕ) (q : Pool)
    → take_idle idle p ≡ granted page q
    → (has idle page ≡ true) × (hand_out page p ≡ q)
unfolding take_idle
take_idle-granted [] p page q g = absurd (ground arith)
take_idle-granted (i ∷ rest) p page q g =
    let same : i ≡ page = ground arith in
    (rw same (ground (arith, has_cons page rest page, ==_refl page)), ground arith)

take_idle-waits :
    (idle : List ℕ) (p q : Pool)
    → take_idle idle p ≡ waits q
    → (q ≡ record p { creating = p.creating + 1 }) × (length p.open_pages < p.max_open_pages)
unfolding take_idle
take_idle-waits [] p q g = (ground arith, ground arith)
take_idle-waits (i ∷ rest) p q g = absurd (ground arith)

pub acquire-granted :
    (p : Pool) (page : ℕ) (q : Pool)
    → acquire p ≡ granted page q
    → (p.closed ≡ false) × (has p.idle page ≡ true) × (hand_out page p ≡ q)
unfolding acquire
acquire-granted p page q g = elim (Bool-cases p.closed) [
  | inl c ↦ absurd (ground arith)
  | inr c ↦ let (i, same) = take_idle-granted p.idle p page q (ground arith) in (c, i, same)
]

pub acquire-waits :
    (p q : Pool)
    → acquire p ≡ waits q
    → (q ≡ record p { creating = p.creating + 1 }) × (length p.open_pages < p.max_open_pages)
unfolding acquire
acquire-waits p q g = elim (Bool-cases p.closed) [
  | inl c ↦ absurd (ground arith)
  | inr c ↦ take_idle-waits p.idle p q (ground arith)
]

creating-IsOwned : (p : Pool) (n : ℕ) → IsOwned p → IsOwned (record p { creating = n })
creating-IsOwned p n o x = let ox = o x in ground arith

pub Step-IsOwned : {p q : Pool} → Step p q → IsOwned p → IsOwned q
Step-IsOwned {p} (acquires page {q} g) o =
    let (c, i, same) = acquire-granted p page q g in
    subst IsOwned same (hand_out-IsOwned page p o i)
Step-IsOwned {p} (starts_page {q} g) o =
    let (same, _) = acquire-waits p q g in
    subst IsOwned (sym same) (creating-IsOwned p (p.creating + 1) o)
Step-IsOwned {p} (creates_page page n) o = acquire_created-IsOwned page p o n
Step-IsOwned {p} (releases page a) o = release_active-IsOwned page p o a
Step-IsOwned {p} (replaces page n) o = track_idle-IsOwned page p o n.not_active
Step-IsOwned {p} (closes_lease page a) o = close_active-IsOwned page p o a
Step-IsOwned {p} (loses_page page) o = page_closed-IsOwned page p o
Step-IsOwned {p} closes o = close-IsOwned p o

Reach-IsOwned : {p q : Pool} → Reach p q → IsOwned p → IsOwned q
Reach-IsOwned here o = o
Reach-IsOwned (next r s) o = Step-IsOwned s (Reach-IsOwned r o)

empty_pool-IsOwned : (max : ℕ) (dead : List ℕ) → IsOwned (empty_pool max dead)
empty_pool-IsOwned max dead x = ground (arith, has_empty x)

track_all-IsOwned :
    (pages : List ℕ) (p : Pool) → p.active ≡ [] → IsOwned p → IsOwned (track_all pages p)
unfolding track_all
track_all-IsOwned [] p e o = o
track_all-IsOwned (page ∷ pages) p e o =
    track_all-IsOwned pages (track_idle page p) (track_idle-active page p ∙ e)
      (track_idle-IsOwned page p o (ap (λ xs. has xs page) e ∙ has_empty page))

create-IsOwned : (max : ℕ) (pages dead : List ℕ) → IsOwned (create_page_pool max pages dead)
unfolding create_page_pool
create-IsOwned max pages dead =
    track_all-IsOwned pages (empty_pool max dead) refl (empty_pool-IsOwned max dead)

-- In every state that a new pool reaches, under any interleaving in which no lease is used again
-- while its close() waits, each open page is idle or leased and not both, no idle page is in an active lease, each leased page is, the page of an active
-- lease stays leased until it dies or the pool is closed, and no dead page is open.
pub pool-IsOwned :
    (max : ℕ) (pages dead : List ℕ) (q : Pool)
    → Reach (create_page_pool max pages dead) q
    → IsOwned q
pool-IsOwned max pages dead q r = Reach-IsOwned r (create-IsOwned max pages dead)

-- In such a state, an idle page that acquire hands out is in no active lease before; after, it is
-- in one, it is leased and no longer idle.
pub acquire_exclusive :
    (max : ℕ) (pages dead : List ℕ) (q : Pool) (page : ℕ) (q' : Pool)
    → Reach (create_page_pool max pages dead) q
    → acquire q ≡ granted page q'
    → (has q.active page ≡ false)
      × (has q'.active page ≡ true)
      × (has q'.leased page ≡ true)
      × (has q'.idle page ≡ false)
unfolding hand_out
acquire_exclusive max pages dead q page q' r g =
    let (c, i, same) = acquire-granted q page q' g in
    let o = pool-IsOwned max pages dead q r page in
    let again = ==_refl page in
    (
      ground arith,
      subst (λ (z : Pool). has z.active page ≡ true) same
          (ground (arith, has_cons page q.active page)),
      subst (λ (z : Pool). has z.leased page ≡ true) same
          (ground (arith, has-add page q.leased page)),
      subst (λ (z : Pool). has z.idle page ≡ false) same
          (ground (arith, has-delete page q.idle page)),
    )
