-- ===== src/Strategy/Prefetch.antt =====
-- The pages that are prefetched with a page.
use csci555_usc.Base.{
  ℕ, zero, suc, ◌+◌, ◌*◌, ◌<◌, ◌≡◌, refl, true, none, some, List, arith, if◌then◌else◌, ltb,
  take_while, lt→ltb, get_elem?, ◌∙◌,
}
use csci555_usc.Real.{Real}
use csci555_usc.Memory.Thp.Paging.{to_pages-get_elem?}
use csci555_usc.Memory.Thp.{Thp, fake_thp_from_address, fake_thp_enabled, to_pages}
use csci555_usc.Memory.Move.{page_run}
use csci555_usc.Pages.Row.{Row}
use csci555_usc.Strategy.{
  Settings, wanted, prefetch_from, smallpages_from, prefetch_candidates,
  prefetch_candidates_smallpages,
}

module _ {R : Type 0} ⦃real : Real R⦄ (pagesize initial : ℕ) (rows : List (ℕ × Row R))
    (dst : ℕ) where
  smallpages_from-take_while :
      (n i : ℕ)
      → smallpages_from n i pagesize initial rows dst
        ≡ take_while (wanted rows dst) (page_run n i initial pagesize)
  unfolding smallpages_from page_run
  smallpages_from-take_while zero i = refl
  smallpages_from-take_while (suc n) i = ground (arith, smallpages_from-take_while n (suc i))

  -- Before the end of the region, one page past the last, no candidate is turned down.
  prefetch_from-smallpages_from :
      (n i : ℕ)
      → 0 < pagesize
      → prefetch_from n i pagesize (initial + (n + i) * pagesize) initial rows dst
        ≡ smallpages_from n i pagesize initial rows dst
  unfolding prefetch_from smallpages_from
  prefetch_from-smallpages_from zero i h = refl
  prefetch_from-smallpages_from (suc n) i h =
      let e : n + suc i ≡ suc n + i = omega arith in
      let ih = prefetch_from-smallpages_from n (suc i) h in
      let ih' = rw e at ih in
      let inside : initial + i * pagesize < initial + (suc n + i) * pagesize = grind arith in
      let inside' = lt→ltb _ _ inside in rw (inside', ih') refl

module _ {R : Type 0} ⦃real : Real R⦄ where
  -- For an address in no fake huge page, or without fake huge pages, the pages prefetched are the
  -- pages after it, one page size apart and at most as many as the prefetch size, up to the first
  -- that has a row that prefers another node; the end of the region never stops them.
  pub prefetch_candidates-take_while :
      (s : Settings R) (rows : List (ℕ × Row R)) (initial dst : ℕ)
      → 0 < s.pagesize
      → (if fake_thp_enabled s.fake_thp_size then fake_thp_from_address s.thps initial else none)
        ≡ none
      → prefetch_candidates s rows initial dst
        ≡ take_while (wanted rows dst) (page_run s.memory_prefetch_size 1 initial s.pagesize)
  unfolding prefetch_candidates
  prefetch_candidates-take_while s rows initial dst h e =
      let n = s.memory_prefetch_size in
      rw (prefetch_candidates, e)
        (prefetch_from-smallpages_from s.pagesize initial rows dst n 1 h
          ∙ smallpages_from-take_while s.pagesize initial rows dst n 1)

  -- The variant for small pages lists the same pages, whatever the fake huge pages are.
  pub prefetch_candidates_smallpages-take_while :
      (s : Settings R) (rows : List (ℕ × Row R)) (initial dst : ℕ)
      → prefetch_candidates_smallpages s rows initial dst
        ≡ take_while (wanted rows dst) (page_run s.memory_prefetch_size 1 initial s.pagesize)
  unfolding prefetch_candidates_smallpages
  prefetch_candidates_smallpages-take_while s rows initial dst =
      smallpages_from-take_while s.pagesize initial rows dst s.memory_prefetch_size 1

  -- For a page of a fake huge page, those prefetched are all pages of it that start before its end,
  -- whatever their rows: the page itself among them, at its place.
  pub prefetch_candidates-thp :
      (s : Settings R) (rows : List (ℕ × Row R)) (thp : Thp) (initial dst i j : ℕ)
      → 0 < s.pagesize
      → fake_thp_enabled s.fake_thp_size ≡ true
      → fake_thp_from_address s.thps initial ≡ some thp
      → initial ≡ thp.start + i * s.pagesize
      → initial < thp.end
      → (get_elem? (prefetch_candidates s rows initial dst) j ≡ (
          if ltb (thp.start + j * s.pagesize) thp.end
          then some (thp.start + j * s.pagesize)
          else none))
        × (get_elem? (prefetch_candidates s rows initial dst) i ≡ some initial)
  unfolding prefetch_candidates
  prefetch_candidates-thp s rows thp initial dst i j h enabled found e before =
      let pages : prefetch_candidates s rows initial dst ≡ to_pages s.pagesize thp =
        rw (prefetch_candidates, enabled, found) refl in
      rw pages (
        to_pages-get_elem? s.pagesize thp j h,
        ground (arith, to_pages-get_elem? s.pagesize thp i h),
      )
