-- ===== src/Browser/PagePool/Capacity.antt =====
-- The bound maxOpenPages of src/browser/page-pool.ts: when the calls of the pool run one after the
-- other, and when two calls of acquire wait for newPage() at the same time.
use chatgpt_web_gateway.Base.{
  ℕ, ◌+◌, ◌≤◌, ◌≡◌, refl, sym, subst, true, false, List, [], arith, ◌==◌, inl, inr, Bool-cases,
  length,
}
use chatgpt_web_gateway.Browser.PagePool.Sets.{
  has, add, delete, has-add, length-add-le, length-add_new, length-delete-le, delete_shortens,
}
use chatgpt_web_gateway.Browser.PagePool.Ownership.{acquire-granted, acquire-waits}
use chatgpt_web_gateway.Browser.PagePool.{
  Pool, remove_page, track_idle, track_leased, granted, waits, hand_out, take_idle, acquire,
  acquire_created, release_active, release, wants_replacement, close_active, close_lease,
  page_closed, close,
}

-- The calls of the pool and the events of the browser, when no call starts before the one before
-- it has ended.
pub data Sequential (p : Pool) : Pool → Type 0 where
  stays : Sequential p p
  takes : (page : ℕ) {q r : Pool} → Sequential p q → acquire q ≡ granted page r → Sequential p r
  opens :
      (page : ℕ) {q r : Pool}
      → Sequential p q
      → acquire q ≡ waits r
      → Sequential p (acquire_created page r)
  gives_back : (page : ℕ) {q : Pool} → Sequential p q → Sequential p (release page q)
  ends :
      (replacement page : ℕ) {q : Pool}
      → Sequential p q
      → Sequential p (close_lease replacement page q)
  loses : (page : ℕ) {q : Pool} → Sequential p q → Sequential p (page_closed page q)
  shuts : {q : Pool} → Sequential p q → Sequential p (close q)

record Fits (max : ℕ) (p : Pool) : Type 0 where
  same_max : p.max_open_pages ≡ max
  fits : length p.open_pages ≤ max

acquire_created-Fits :
    (page max : ℕ) (p r : Pool)
    → Fits max p
    → acquire p ≡ waits r
    → Fits max (acquire_created page r)
unfolding acquire_created track_leased
acquire_created-Fits page max p r f w =
    let (same, less) = acquire-waits p r w in
    let m = f.same_max in
    subst (λ z. Fits max (acquire_created page z)) (sym same)
      (record { same_max = ground arith; fits = ground (arith, length-add-le page p.open_pages) })

granted-Fits : (page max : ℕ) (p r : Pool) → Fits max p → acquire p ≡ granted page r → Fits max r
unfolding hand_out
granted-Fits page max p r f g =
    let (_, _, same) = acquire-granted p page r g in
    subst (Fits max) same (record { same_max = f.same_max; fits = f.fits })

release-Fits : (page max : ℕ) (p : Pool) → Fits max p → Fits max (release page p)
unfolding release release_active remove_page
release-Fits page max p f =
    let m = f.same_max in
    let l = f.fits in
    record { same_max = ground arith; fits = ground (arith, length-delete-le page p.open_pages) }

page_closed-Fits : (page max : ℕ) (p : Pool) → Fits max p → Fits max (page_closed page p)
unfolding page_closed remove_page
page_closed-Fits page max p f =
    let l = f.fits in
    record { same_max = f.same_max; fits = ground (arith, length-delete-le page p.open_pages) }

close-Fits : (max : ℕ) (p : Pool) → Fits max p → Fits max (close p)
unfolding close
close-Fits max p f =
    let m = f.same_max in let l = f.fits in record { same_max = ground arith; fits = ground arith }

replaced_length :
    (replacement page : ℕ) (pages : List ℕ)
    → has pages page ≡ true
    → length (delete page (add replacement pages)) ≤ length pages
replaced_length replacement page pages h =
    let there : has (add replacement pages) page ≡ true =
      ground (arith, has-add replacement pages page) in
    ground
      (arith, length-add-le replacement pages, delete_shortens page (add replacement pages) there)

track_idle-max : (page : ℕ) (p : Pool) → (track_idle page p).max_open_pages ≡ p.max_open_pages
unfolding track_idle
track_idle-max page p = ground arith

close_lease-Fits :
    (replacement page max : ℕ) (p : Pool) → Fits max p → Fits max (close_lease replacement page p)
unfolding close_lease close_active remove_page track_idle wants_replacement
close_lease-Fits replacement page max p f =
    let m = f.same_max in
    let l = f.fits in
    record {
      same_max = ground arith;
      fits = elim (Bool-cases (has p.open_pages page)) [
        | inl h ↦ ground (
          arith,
          length-delete-le page p.open_pages,
          replaced_length replacement page p.open_pages h,
        )
        | inr h ↦ ground (arith, length-delete-le page p.open_pages)
      ];
    }

Sequential-Fits : (max : ℕ) {p q : Pool} → Sequential p q → Fits max p → Fits max q
Sequential-Fits max stays f = f
Sequential-Fits max (takes page {q} {r} s g) f =
    granted-Fits page max q r (Sequential-Fits max s f) g
Sequential-Fits max (opens page {q} {r} s g) f =
    acquire_created-Fits page max q r (Sequential-Fits max s f) g
Sequential-Fits max (gives_back page {q} s) f = release-Fits page max q (Sequential-Fits max s f)
Sequential-Fits max (ends replacement page {q} s) f =
    close_lease-Fits replacement page max q (Sequential-Fits max s f)
Sequential-Fits max (loses page {q} s) f = page_closed-Fits page max q (Sequential-Fits max s f)
Sequential-Fits max (shuts {q} s) f = close-Fits max q (Sequential-Fits max s f)

-- When the calls run one after the other, a pool whose open pages are at most maxOpenPages stays
-- so, also where close() of the last lease opens a page in its place.
pub open_pages_bounded :
    (p q : Pool)
    → Sequential p q
    → length p.open_pages ≤ p.max_open_pages
    → length q.open_pages ≤ p.max_open_pages
open_pages_bounded p q s l =
    (Sequential-Fits p.max_open_pages s (record { same_max = refl; fits = l })).fits

-- Two calls of acquire that both start when the pool may open one page more, and no page is idle,
-- both pass the check of the bound, and with two new live pages the pool ends with one page more
-- than maxOpenPages.
pub acquire_overcommits :
    (p : Pool) (a b : ℕ)
    → p.closed ≡ false
    → p.idle ≡ []
    → length p.open_pages + 1 ≡ p.max_open_pages
    → (has p.open_pages a ≡ false) × (has p.dead a ≡ false)
    → (has p.open_pages b ≡ false) × (has p.dead b ≡ false)
    → (b == a) ≡ false
    → (q : Pool) × (r : Pool) × (acquire p ≡ waits q)
      × (acquire q ≡ waits r)
      × (length (acquire_created b (acquire_created a r)).open_pages ≡ p.max_open_pages + 1)
unfolding acquire take_idle acquire_created track_leased
acquire_overcommits p a b c i l na nb d =
    let q = record p { creating = p.creating + 1 } in
    let r = record q { creating = q.creating + 1 } in
    let fresh : has (add a p.open_pages) b ≡ false = ground (arith, has-add a p.open_pages b) in
    (
      q,
      r,
      rw i (ground arith),
      rw i (ground arith),
      ground (arith, length-add_new a p.open_pages, length-add_new b (add a p.open_pages) fresh),
    )
