-- ===== src/Browser/PagePool.antt =====
-- src/browser/page-pool.ts. A page is a number. A call of the pool that awaits the browser is two
-- segments, before and after the await, and other segments may run between them. The state holds
-- the pool's sets, the leases that are still active, and what the browser knows of its pages.
pub mod Sets
pub mod Ownership
pub mod Capacity
pub mod Tests
use chatgpt_web_gateway.Base.{
  ℕ, suc, ◌+◌, ◌-◌, ◌≢◌, ◌≡◌, Bool, true, false, not, ◌&&◌, ◌||◌, List, [], ◌∷◌, leb, ◌==◌,
  if◌then◌else◌, length,
}
use Sets.{has, add, delete}

pub record Pool : Type 0 where
  pub max_open_pages : ℕ
  pub open_pages : List ℕ
  pub leased : List ℕ
  pub idle : List ℕ
  pub closed : Bool
  -- the pages of leases whose state is 'active'
  pub active : List ℕ
  -- the pages for which isClosed() holds
  pub dead : List ℕ
  -- the calls of acquire that wait for newPage()
  pub creating : ℕ

pub data PoolError : Type 0 where
  browser_unavailable page_capacity_exceeded : PoolError

pub remove_page : ℕ → Pool → Pool
remove_page page p = record p {
  open_pages = delete page p.open_pages;
  leased = delete page p.leased;
  idle = delete page p.idle;
}

pub track_idle : ℕ → Pool → Pool
track_idle page p =
    if has p.dead page
    then p
    else record p { open_pages = add page p.open_pages; idle = add page p.idle }

pub track_leased : ℕ → Pool → Pool
track_leased page p =
    if has p.dead page
    then p
    else record p { open_pages = add page p.open_pages; leased = add page p.leased }

-- createPagePool, over the pages of the context
pub track_all : List ℕ → Pool → Pool
unfolding track_idle
track_all [] p = p
track_all (page ∷ pages) p = track_all pages (track_idle page p)

abbrev pub empty_pool : ℕ → List ℕ → Pool
empty_pool max dead = record {
  max_open_pages = max;
  open_pages = [];
  leased = [];
  idle = [];
  closed = false;
  active = [];
  dead = dead;
  creating = 0;
}

pub create_page_pool : ℕ → (pages dead : List ℕ) → Pool
unfolding track_all
create_page_pool max pages dead = track_all pages (empty_pool max dead)

-- What acquire does before an await: it throws, it has a page, or it waits for newPage().
pub data Acquired : Type 0 where
  refused : PoolError → Acquired
  granted : ℕ → Pool → Acquired
  waits : Pool → Acquired

pub hand_out : ℕ → Pool → Pool
hand_out page p = record p {
  idle = delete page p.idle;
  leased = add page p.leased;
  active = page ∷ p.active;
}

pub take_idle : List ℕ → Pool → Acquired
unfolding hand_out
take_idle (page ∷ rest) p = granted page (hand_out page p)
take_idle [] p =
    if leb p.max_open_pages (length p.open_pages)
    then refused page_capacity_exceeded
    else waits (record p { creating = p.creating + 1 })

pub acquire : Pool → Acquired
unfolding take_idle
acquire p = if p.closed then refused browser_unavailable else take_idle p.idle p

-- The rest of acquire, when newPage() has answered.
pub acquire_created : ℕ → Pool → Pool
unfolding track_leased
acquire_created page p =
    track_leased page (record p { creating = p.creating - 1; active = page ∷ p.active })

-- release() of an active lease
pub release_active : ℕ → Pool → Pool
unfolding remove_page
release_active page p =
    if p.closed || has p.dead page
    then remove_page page
        (record p { active = delete page p.active; leased = delete page p.leased })
    else record p {
      active = delete page p.active;
      leased = delete page p.leased;
      idle = add page p.idle;
    }

pub release : ℕ → Pool → Pool
unfolding release_active
release page p = if has p.active page then release_active page p else p

-- close() of an active lease first asks for another page if its page is the last one.
pub wants_replacement : ℕ → Pool → Bool
wants_replacement page p =
    not p.closed && not (has p.dead page) && length p.open_pages == 1 && has p.open_pages page

-- The end of close(): the page is removed and closed.
pub close_active : ℕ → Pool → Pool
unfolding remove_page
close_active page p = remove_page page (record p {
  active = delete page p.active;
  leased = delete page p.leased;
  dead = add page p.dead;
})

-- close() of a lease, with the page that newPage() answers if one is asked for
pub close_lease : ℕ → ℕ → Pool → Pool
unfolding wants_replacement close_active track_idle
close_lease replacement page p =
    if not (has p.active page)
    then p
    else close_active page (if wants_replacement page p then track_idle replacement p else p)

-- The 'close' event of a page
pub page_closed : ℕ → Pool → Pool
unfolding remove_page
page_closed page p = remove_page page (record p { dead = add page p.dead })

pub close_pages : List ℕ → List ℕ → List ℕ
close_pages [] dead = dead
close_pages (page ∷ pages) dead = close_pages pages (add page dead)

-- close() of the pool, when no page.close() fails
pub close : Pool → Pool
unfolding close_pages
close p = if p.closed then p else record p {
  closed = true;
  open_pages = [];
  leased = [];
  idle = [];
  dead = close_pages p.open_pages p.dead;
}

pub open_count : Pool → ℕ
open_count p = length p.open_pages

pub leased_count : Pool → ℕ
leased_count p = length p.leased

pub idle_count : Pool → ℕ
idle_count p = length p.idle

-- Names what a run of the pool computes through, for tests.
unfoldable pub pool_runs : Unit {0}
unfolding open_count leased_count idle_count acquire take_idle hand_out acquire_created track_leased
    track_idle track_all create_page_pool release release_active close_lease close_active
    wants_replacement remove_page page_closed close close_pages
pool_runs = tt
