-- ===== src/Browser/PagePool/Tests.antt =====
-- Pools of a few pages.
use chatgpt_web_gateway.Base.{◌≡◌, ◌≤◌, refl, true, false, [], ◌∷◌, arith, length}
use chatgpt_web_gateway.Browser.PagePool.Sets.{has, set_runs}
use chatgpt_web_gateway.Browser.PagePool.{
  open_count, leased_count, idle_count, Pool, create_page_pool, acquire, granted, waits,
  acquire_created, release_active, close_lease, pool_runs,
}
use chatgpt_web_gateway.Browser.PagePool.Ownership.{
  IsOwned, here, next, acquires, releases, pool-IsOwned, acquire_exclusive,
}
use chatgpt_web_gateway.Browser.PagePool.Capacity.{
  stays, takes, opens, ends, open_pages_bounded, acquire_overcommits,
}

-- Pages 1 and 2 are open at the start, 3 is already closed.
abbrev three_pages : Pool
three_pages = create_page_pool 3 (1 ∷ 2 ∷ 3 ∷ []) (3 ∷ [])

abbrev one_out : Pool
one_out = record {
  max_open_pages = 3;
  open_pages = 1 ∷ 2 ∷ [];
  leased = 1 ∷ [];
  idle = 2 ∷ [];
  closed = false;
  active = 1 ∷ [];
  dead = 3 ∷ [];
  creating = 0;
}

abbrev two_out : Pool
two_out = record one_out { leased = 1 ∷ 2 ∷ []; idle = []; active = 2 ∷ 1 ∷ [] }

first_acquire : acquire three_pages ≡ granted 1 one_out
unfolding pool_runs set_runs
first_acquire = refl

second_acquire : acquire one_out ≡ granted 2 two_out
unfolding pool_runs set_runs
second_acquire = refl

counted : (open_count one_out ≡ 2) × (leased_count one_out ≡ 1) × (idle_count one_out ≡ 1)
unfolding pool_runs
counted = (refl, refl, refl)

third_acquire : acquire two_out ≡ waits (record two_out { creating = 1 })
unfolding pool_runs set_runs
third_acquire = refl

released : release_active 1 one_out ≡ record one_out { leased = []; idle = 2 ∷ 1 ∷ []; active = [] }
unfolding pool_runs set_runs
released = refl

-- The last page is closed after another has taken its place.
replaced : (close_lease 9 1 (record one_out { open_pages = 1 ∷ []; idle = [] })).open_pages ≡ 9 ∷ []
unfolding pool_runs set_runs
replaced = refl

pool-IsOwned_example : IsOwned (release_active 1 one_out)
unfolding pool_runs set_runs
pool-IsOwned_example =
    pool-IsOwned 3 (1 ∷ 2 ∷ 3 ∷ []) (3 ∷ []) (release_active 1 one_out)
      (next (next here (acquires 1 first_acquire)) (releases 1 refl))

acquire_exclusive_example :
    (has one_out.active 2 ≡ false)
    × (has two_out.active 2 ≡ true)
    × (has two_out.leased 2 ≡ true)
    × (has two_out.idle 2 ≡ false)
acquire_exclusive_example =
    acquire_exclusive 3 (1 ∷ 2 ∷ 3 ∷ []) (3 ∷ []) one_out 2 two_out
      (next here (acquires 1 first_acquire)) second_acquire

open_pages_bounded_example :
    length (close_lease 9 1 (acquire_created 4 (record two_out { creating = 1 }))).open_pages ≤ 3
open_pages_bounded_example =
    open_pages_bounded one_out
      (close_lease 9 1 (acquire_created 4 (record two_out { creating = 1 })))
      (ends 9 1 (opens 4 (takes 2 stays second_acquire) third_acquire)) (omega arith)

acquire_overcommits_example :
    (q : Pool) × (r : Pool) × (acquire two_out ≡ waits q)
    × (acquire q ≡ waits r)
    × (length (acquire_created 5 (acquire_created 4 r)).open_pages ≡ 4)
unfolding pool_runs set_runs
acquire_overcommits_example =
    acquire_overcommits two_out 4 5 refl refl refl (refl, refl) (refl, refl) refl
