-- ===== src/Memory/Thp/Paging.antt =====
-- The small pages of a fake huge page.
use native.Mathlib.Nat.{mul-div_cancel}
use csci555_usc.Base.{
  ℕ, zero, suc, ◌+◌, ◌-◌, ◌*◌, ◌≤◌, ◌<◌, ◌≡◌, none, some, arith, ltb, if◌then◌else◌, get_elem?,
  length,
}
use csci555_usc.Memory.Thp.{Thp, pages_from, to_pages, n_pages}

pages_from-get_elem? :
    (fuel pagesize addr end i : ℕ)
    → end - addr ≤ fuel
    → 0 < pagesize
    → get_elem? (pages_from fuel pagesize addr end) i
      ≡ (if ltb (addr + i * pagesize) end then some (addr + i * pagesize) else none)
unfolding pages_from
pages_from-get_elem? zero pagesize addr end i h p = ground arith
pages_from-get_elem? (suc fuel) pagesize addr end zero h p = ground arith
pages_from-get_elem? (suc fuel) pagesize addr end (suc i) h p =
    ground (arith, pages_from-get_elem? fuel pagesize (addr + pagesize) end i)

-- The pages of a fake huge page start at its start, one page size apart, and are all those that
-- start before its end.
pub to_pages-get_elem? :
    (pagesize : ℕ) (t : Thp) (i : ℕ)
    → 0 < pagesize
    → get_elem? (to_pages pagesize t) i
      ≡ (if ltb (t.start + i * pagesize) t.end then some (t.start + i * pagesize) else none)
unfolding to_pages
to_pages-get_elem? pagesize t i p =
    pages_from-get_elem? (t.end - t.start) pagesize t.start t.end i (omega arith) p

length-pages_from :
    (fuel pagesize addr n : ℕ)
    → n * pagesize ≤ fuel
    → 0 < pagesize
    → length (pages_from fuel pagesize addr (addr + n * pagesize)) ≡ n
unfolding pages_from
length-pages_from zero pagesize addr n h p = grind arith
length-pages_from (suc fuel) pagesize addr zero h p = ground arith
length-pages_from (suc fuel) pagesize addr (suc n) h p =
    ground (arith, length-pages_from fuel pagesize (addr + pagesize) n)

-- Of a fake huge page of whole small pages, `to_pages` lists as many as `n_pages` counts.
pub length-to_pages :
    (pagesize n : ℕ) (t : Thp)
    → 0 < pagesize
    → t.end ≡ t.start + n * pagesize
    → length (to_pages pagesize t) ≡ n_pages pagesize t
unfolding to_pages n_pages
length-to_pages pagesize n t p e =
    let bytes : t.end - t.start ≡ n * pagesize = omega arith in
    rw bytes (
      rw (e, mul-div_cancel n p)
        (length-pages_from (n * pagesize) pagesize t.start n (omega arith) p))
