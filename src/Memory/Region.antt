-- ===== src/Memory/Region.antt =====
-- The memory regions of src/system_info/memory_info.hpp: how the map is built from the lines of
-- /proc/<pid>/maps and /proc/<pid>/numa_maps, and how an address is looked up in it. The lines are
-- given parsed: reading and scanning them is the kernel's and the C library's work.
use csci555_usc.Base.{
  ℕ, ◌≤◌, ◌<◌, ◌≡◌, refl, Bool, true, false, ◌&&◌, Option, none, some, List, [], ◌∷◌, ◌++◌, arith,
  suc, ltb, ◌==◌, if◌then◌else◌, Option-cases, inl, inr,
}
use csci555_usc.Memory.SortedMap.{
  Map, Laid, lower_bound, emplace, all_below, find_span, owner, find_span-owner, find_span_last,
  from_bound,
}

-- What memory_info.hpp reads of a line of `maps` and of a line of `numa_maps`.
pub record MapsLine : Type 0 where
  pub begin : ℕ
  pub end : ℕ

pub record NumaLine : Type 0 where
  pub address : ℕ

pub record Region : Type 0 where
  pub address : ℕ
  pub begin : ℕ
  pub end : ℕ

abbrev pub Regions : Type 0
Regions = Map Region

-- `regions_maps.find(address)`, where the first line inserted for an address is kept.
find_maps : ℕ → List MapsLine → Option MapsLine
find_maps a [] = none
find_maps a (l ∷ ls) = if l.begin == a then some l else find_maps a ls

join_line : List MapsLine → NumaLine → Regions → Regions
unfolding emplace
join_line maps n regions = elim (find_maps n.address maps) [
  | none ↦ regions
  | some l ↦
      emplace n.address (record { address = n.address; begin = l.begin; end = l.end }) regions
]

-- One process: each line of `numa_maps` with the line of `maps` of the same address.
unfoldable pub update_memory_regions : List MapsLine → List NumaLine → Regions → Regions
unfolding find_maps join_line
update_memory_regions maps [] regions = regions
update_memory_regions maps (n ∷ ns) regions =
    update_memory_regions maps ns (join_line maps n regions)

unfoldable pub region_from_address : Regions → ℕ → Option Region
unfolding find_span
region_from_address regions addr =
    find_span (λ r. r.address) (λ r. r.begin) (λ r. r.end) regions addr

contains_bound : ℕ → Option Region × Option Region → Bool
contains_bound addr (prev, none) = false
contains_bound addr (none, some r) = if r.address == addr then true else false
contains_bound addr (some p, some r) =
    if r.address == addr then true else if ltb p.begin addr && ltb addr p.end then true else false

unfoldable pub contains : Regions → ℕ → Bool
unfolding contains_bound
contains regions addr = contains_bound addr (lower_bound none addr regions)

abbrev pub RegionsLaid : ℕ → Regions → Type 0
RegionsLaid = Laid (λ r. r.address) (λ r. r.begin) (λ r. r.end)

-- The specification of a lookup: the first region that holds the address.
abbrev pub region_owner : Regions → ℕ → Option Region
region_owner = owner (λ r. r.address) (λ r. r.begin) (λ r. r.end)

-- Over regions that do not overlap, each keyed by its start, a lookup returns the region that holds
-- the address (or starts at it, if empty), except where every region starts below the address:
-- there it returns nothing, whether or not the last region holds the address.
pub region_from_address-owner :
    (lo : ℕ) (regions : Regions) (addr : ℕ)
    → RegionsLaid lo regions
    → region_from_address regions addr
      ≡ (if all_below addr regions then none else region_owner regions addr)
unfolding region_from_address
region_from_address-owner = find_span-owner (λ r. r.address) (λ r. r.begin) (λ r. r.end)

-- Of regions that do not overlap, each keyed by its start, an address inside the last one but past
-- its start is held by that region, and the lookup does not find it.
pub last_region_missed :
    (lo addr k : ℕ) (r : Region) (regions : Regions)
    → RegionsLaid lo (regions ++ (k, r) ∷ [])
    → k < addr
    → addr < r.end
    → (region_from_address (regions ++ (k, r) ∷ []) addr ≡ none)
      × (region_owner (regions ++ (k, r) ∷ []) addr ≡ some r)
unfolding region_from_address
last_region_missed = find_span_last (λ r. r.address) (λ r. r.begin) (λ r. r.end)

abbrev is_some : Option Region → Bool
is_some none = false
is_some (some r) = true

-- `contains` says of every map and address whether `region_from_address` finds a region.
pub contains-region_from_address :
    (regions : Regions) (addr : ℕ)
    → contains regions addr ≡ is_some (region_from_address regions addr)
unfolding contains region_from_address
contains-region_from_address regions addr = go (lower_bound none addr regions)
  where
    go :
        (b : Option Region × Option Region)
        → contains_bound addr b
          ≡ is_some (from_bound (λ r. r.address) (λ r. r.begin) (λ r. r.end) addr b)
    go (prev, none) = refl
    go (none, some r) = ground arith
    go (some p, some r) = ground arith

-- What the loop over the lines keeps: a key is its region's address and start.
abbrev pub Keyed : Regions → Type 0
Keyed [] = Unit
Keyed ((k, r) ∷ m) = (r.address ≡ k) × (r.begin ≡ k) × Keyed m

-- Keys in strict order from `lo`.
abbrev pub Ordered : ℕ → Regions → Type 0
Ordered lo [] = Unit
Ordered lo ((k, r) ∷ m) = (lo ≤ k) × Ordered (suc k) m

emplace-Keyed :
    (k : ℕ) (r : Region) (m : Regions)
    → r.address ≡ k
    → r.begin ≡ k
    → Keyed m
    → Keyed (emplace k r m)
unfolding emplace
emplace-Keyed k r [] e b h = (e, b, tt)
emplace-Keyed k r ((j, w) ∷ m) e b h = ground (arith, emplace-Keyed k r m e b h.2)

emplace-Ordered :
    (lo k : ℕ) (r : Region) (m : Regions) → lo ≤ k → Ordered lo m → Ordered lo (emplace k r m)
unfolding emplace
emplace-Ordered lo k r [] e h = (e, tt)
emplace-Ordered lo k r ((j, w) ∷ m) e h = ground (arith, emplace-Ordered (suc j) k r m)

find_maps-begin :
    (a : ℕ) (ls : List MapsLine) (l : MapsLine) → find_maps a ls ≡ some l → l.begin ≡ a
unfolding find_maps
find_maps-begin a [] l h = cc
find_maps-begin a (m ∷ ls) l h = ground (arith, find_maps-begin a ls l)

join_line-Keyed :
    (maps : List MapsLine) (n : NumaLine) (m : Regions)
    → Keyed m × Ordered 0 m
    → Keyed (join_line maps n m) × Ordered 0 (join_line maps n m)
unfolding join_line
join_line-Keyed maps n m h = elim (Option-cases (find_maps n.address maps)) [
  | inl e ↦ rw (e, join_line) h
  | inr (l, e) ↦
      rw (e, join_line)
        (
          emplace-Keyed n.address _ m refl (find_maps-begin n.address maps l e) h.0,
          emplace-Ordered 0 n.address _ m (omega arith) h.1,
        )
]

-- Reading a process, whatever its lines and their order, keeps every region under its own address,
-- which is its start too, and the keys in strict order.
pub update_memory_regions-Ordered :
    (maps : List MapsLine) (lines : List NumaLine) (regions : Regions)
    → Keyed regions × Ordered 0 regions
    → Keyed (update_memory_regions maps lines regions)
      × Ordered 0 (update_memory_regions maps lines regions)
unfolding update_memory_regions
update_memory_regions-Ordered maps [] regions h = h
update_memory_regions-Ordered maps (n ∷ ns) regions h =
    update_memory_regions-Ordered maps ns (join_line maps n regions)
      (join_line-Keyed maps n regions h)
