-- ===== src/Memory/Tests.antt =====
-- Runs of the functions of Memory, and the theorems at inputs that meet their hypotheses.
use csci555_usc.Base.{ℕ, ◌≡◌, refl, true, false, none, some, List, [], ◌∷◌, arith, if◌then◌else◌}
use csci555_usc.Memory.SortedMap.{all_below}
use csci555_usc.Memory.Region.{
  MapsLine, NumaLine, Region, Regions, update_memory_regions, region_from_address, region_owner,
  region_from_address-owner, contains,
}
use csci555_usc.Memory.Thp.{Thps, update_fake_thps, in_thp, in_region}
use csci555_usc.Memory.Thp.Cover.{update_fake_thps-cover}

abbrev region : ℕ → ℕ → ℕ × Region
region a b = (a, record { address = a; begin = a; end = b })

abbrev two_regions : Regions
two_regions = region 100 130 ∷ region 200 260 ∷ []

-- The first region is found by an address inside it, the last one only by its start.
lookups :
    (region_from_address two_regions 110 ≡ some (region 100 130).1)
    × (region_from_address two_regions 150 ≡ none)
    × (region_from_address two_regions 200 ≡ some (region 200 260).1)
    × (region_from_address two_regions 210 ≡ none)
    × (contains two_regions 110 ≡ true)
    × (contains two_regions 210 ≡ false)
unfolding region_from_address contains
lookups = (refl, refl, refl, refl, refl, refl)

region_from_address-owner_example :
    region_from_address two_regions 110
    ≡ (if all_below 110 two_regions then none else region_owner two_regions 110)
region_from_address-owner_example = region_from_address-owner 0 two_regions 110 (omega arith)

abbrev maps_lines : List MapsLine
maps_lines = record { begin = 200; end = 260 } ∷ record { begin = 100; end = 130 } ∷ []

abbrev numa_lines : List NumaLine
numa_lines = record { address = 200 } ∷ record { address = 100 } ∷ record { address = 300 } ∷ []

two_regions_read : update_memory_regions maps_lines numa_lines [] ≡ two_regions
unfolding update_memory_regions
two_regions_read = refl

abbrev cut_thps : Thps
cut_thps =
    (100, record { start = 100; end = 120 })
    ∷ (120, record { start = 120; end = 130 })
    ∷ (200, record { start = 200; end = 220 })
    ∷ (220, record { start = 220; end = 240 })
    ∷ (240, record { start = 240; end = 260 })
    ∷ []

cutting : update_fake_thps 10 2 two_regions [] ≡ cut_thps
unfolding update_fake_thps
cutting = refl

update_fake_thps-cover_example :
    in_thp (update_fake_thps 10 2 two_regions []) 225 ≡ in_region two_regions 225
update_fake_thps-cover_example =
    (update_fake_thps-cover 10 2 two_regions [] 225 (omega arith) (omega arith)).1
