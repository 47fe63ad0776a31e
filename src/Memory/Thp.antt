-- ===== src/Memory/Thp.antt =====
-- src/system_info/memory/thp.hpp, and the fake huge pages of src/system_info/memory_info.hpp: the
-- memory regions cut into spans of `fake_thp_size` pages. Addresses stay below 2^64 minus a span,
-- as those of user space do, so that no sum wraps.
pub mod Cover
pub mod Paging
use csci555_usc.Base.{
  ℕ, zero, suc, ◌+◌, ◌-◌, ◌*◌, ◌/◌, min, Bool, not, Option, List, [], ◌∷◌, ltb, ◌==◌, if◌then◌else◌,
}
use csci555_usc.Memory.SortedMap.{Map, Laid, LaidTo, emplace, find_span, covers}
use csci555_usc.Memory.Region.{Regions}

pub record Thp : Type 0 where
  pub start : ℕ
  pub end : ℕ

abbrev pub Thps : Type 0
Thps = Map Thp

unfoldable pub n_pages : ℕ → Thp → ℕ
n_pages pagesize t = (t.end - t.start) / pagesize

-- `for (addr = start; addr < end; addr += pagesize)`; the rounds are at most the bytes that are left.
pages_from : ℕ → ℕ → ℕ → ℕ → List ℕ
pages_from zero pagesize addr end = []
pages_from (suc fuel) pagesize addr end =
    let rest = pages_from fuel pagesize (addr + pagesize) end in
    if ltb addr end then addr ∷ rest else []

unfoldable pub to_pages : ℕ → Thp → List ℕ
unfolding pages_from
to_pages pagesize t = pages_from (t.end - t.start) pagesize t.start t.end

unfoldable pub fake_thp_from_address : Thps → ℕ → Option Thp
unfolding find_span
fake_thp_from_address thps addr = find_span (λ t. t.start) (λ t. t.start) (λ t. t.end) thps addr

unfoldable pub fake_thp_enabled : ℕ → Bool
fake_thp_enabled fake_thp_size = not (fake_thp_size == 0)

-- The loop over one region; a span is `step` bytes.
cut : ℕ → ℕ → ℕ → ℕ → Thps → Thps
unfolding emplace
cut zero step start stop thps = thps
cut (suc fuel) step start stop thps =
    let end = min stop (start + step) in
    let rest = cut fuel step end stop (emplace start (record { start = start; end = end }) thps) in
    if ltb start stop then rest else thps

cut_regions : ℕ → Regions → Thps → Thps
unfolding cut
cut_regions step [] thps = thps
cut_regions step ((k, r) ∷ regions) thps =
    cut_regions step regions (cut (r.end - r.address) step r.address r.end thps)

unfoldable pub update_fake_thps : ℕ → ℕ → Regions → Thps → Thps
unfolding cut_regions fake_thp_enabled
update_fake_thps pagesize fake_thp_size regions thps =
    if not (fake_thp_enabled fake_thp_size)
    then thps
    else cut_regions (pagesize * fake_thp_size) regions []

abbrev pub ThpsLaid : ℕ → Thps → Type 0
ThpsLaid = Laid (λ t. t.start) (λ t. t.start) (λ t. t.end)

abbrev ThpsTo : ℕ → Thps → ℕ → Type 0
ThpsTo = LaidTo (λ t. t.start) (λ t. t.start) (λ t. t.end)

abbrev pub in_thp : Thps → ℕ → Bool
in_thp = covers (λ t. t.start) (λ t. t.start) (λ t. t.end)

abbrev pub in_region : Regions → ℕ → Bool
in_region = covers (λ r. r.address) (λ r. r.begin) (λ r. r.end)
