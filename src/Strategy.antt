-- ===== src/Strategy.antt =====
-- What the page migration strategies share: src/migration/strategies/memory_strategy.hpp and
-- src/migration/mem_migration_cell.hpp. The table of pages is its rows, in the order in which the
-- unordered map is walked. Addresses stay far below 2^64. The messages to the user are left out.
pub mod Prefetch
pub mod Gather
pub mod Select
pub mod Consider
pub mod Tmma
pub mod Lmma
pub mod Rmma
mod Tests
use csci555_usc.Base.{
  ℕ, zero, suc, ◌+◌, ◌*◌, Bool, true, false, Option, none, some, List, [], ◌∷◌, ◌++◌, map, ltb,
  ◌==◌, if◌then◌else◌, length, replicate, not,
}
use csci555_usc.Real.{Real}
use csci555_usc.Memory.Thp.{Thp, Thps, fake_thp_from_address, fake_thp_enabled, to_pages}
use csci555_usc.Memory.Move.{move_pages}
use csci555_usc.Pages.Row.{Row, preferred_node}
use csci555_usc.Pages.Table.{find}

-- mem_migration_cell
pub record Cell (R : Type 0) : Type 0 where
  pub addr : List ℕ
  pub pid : ℕ
  pub src : ℕ
  pub dst : ℕ
  pub ratios : List R

-- addr_ratio_mig_t
pub record Candidate (R : Type 0) : Type 0 where
  pub page : ℕ
  pub ratio : R
  pub cell : Cell R

-- The globals that the strategies read: those of src/migration/migration_var.hpp and the fake huge
-- pages of src/system_info/memory_info.hpp.
pub record Settings (R : Type 0) : Type 0 where
  pub memory_prefetch_size : ℕ
  pub portion_memory_migrations : R
  pub pagesize : ℕ
  pub fake_thp_size : ℕ
  pub thps : Thps
  pub num_of_nodes : ℕ

module _ {R : Type 0} ⦃real : Real R⦄ where
  -- A page that has no row, or a row that prefers the node.
  unfoldable pub wanted : List (ℕ × Row R) → ℕ → ℕ → Bool
  unfolding find preferred_node
  wanted rows dst page = elim (find page rows) [
    | none ↦ true
    | some info ↦ preferred_node info == dst
  ]

  -- The loop over `i`, with the rounds that are left, up to the end of the region.
  prefetch_from : ℕ → ℕ → ℕ → ℕ → ℕ → List (ℕ × Row R) → ℕ → List ℕ
  unfolding wanted
  prefetch_from zero i pagesize region_end initial rows dst = []
  prefetch_from (suc n) i pagesize region_end initial rows dst =
      let rest = prefetch_from n (suc i) pagesize region_end initial rows dst in
      let candidate = initial + i * pagesize in
      if not (ltb candidate region_end)
      then []
      else if wanted rows dst candidate
      then candidate ∷ rest
      else []

  smallpages_from : ℕ → ℕ → ℕ → ℕ → List (ℕ × Row R) → ℕ → List ℕ
  unfolding wanted
  smallpages_from zero i pagesize initial rows dst = []
  smallpages_from (suc n) i pagesize initial rows dst =
      let rest = smallpages_from n (suc i) pagesize initial rows dst in
      let candidate = initial + i * pagesize in
      if wanted rows dst candidate then candidate ∷ rest else []

  -- `page_size(initial)` is `pagesize`.
  unfoldable pub prefetch_candidates : Settings R → List (ℕ × Row R) → ℕ → ℕ → List ℕ
  unfolding prefetch_from fake_thp_from_address fake_thp_enabled to_pages
  prefetch_candidates s rows initial dst =
      let n = s.memory_prefetch_size in
      let thp =
        if fake_thp_enabled s.fake_thp_size then fake_thp_from_address s.thps initial else none in
      elim thp [
        | some thp ↦ to_pages s.pagesize thp
        | none ↦ prefetch_from n 1 s.pagesize (initial + (n + 1) * s.pagesize) initial rows dst
      ]

  unfoldable pub prefetch_candidates_smallpages : Settings R → List (ℕ × Row R) → ℕ → ℕ → List ℕ
  unfolding smallpages_from
  prefetch_candidates_smallpages s rows initial dst =
      smallpages_from s.memory_prefetch_size 1 s.pagesize initial rows dst

module _ {R : Type 0} (sort : List (Candidate R) → List (Candidate R)) where
  -- std::sort by the ratio, the highest first, is the parameter.
  unfoldable pub select_best_migrations : List (Candidate R) → ℕ → List (Cell R)
  select_best_migrations candidates n_migrations =
      map (λ c. c.cell)
        (if ltb n_migrations (length candidates) then sort candidates else candidates)

-- `migrations_tuples[pid]` and the addresses and nodes appended to it.
gather_one : ℕ → List ℕ → List ℕ → List (ℕ × (List ℕ × List ℕ)) → List (ℕ × (List ℕ × List ℕ))
gather_one pid addr dst [] = (pid, (addr, dst)) ∷ []
gather_one pid addr dst ((p, (addresses, nodes)) ∷ groups) =
    if pid == p
    then (p, (addresses ++ addr, nodes ++ dst)) ∷ groups
    else (p, (addresses, nodes)) ∷ gather_one pid addr dst groups

module _ {R : Type 0} where
  gather_from : List (Cell R) → List (ℕ × (List ℕ × List ℕ)) → List (ℕ × (List ℕ × List ℕ))
  unfolding gather_one
  gather_from [] groups = groups
  gather_from (m ∷ migrations) groups =
      gather_from migrations (gather_one m.pid m.addr (replicate (length m.addr) m.dst) groups)

  -- The first loop: the pages of each process and where they go. The map is in the order in which
  -- the processes come.
  unfoldable pub gather : List (Cell R) → List (ℕ × (List ℕ × List ℕ))
  unfolding gather_from
  gather migrations = gather_from migrations []

-- `perform_migration_algorithm`, the same in the three strategies: what is done with all pages, and
-- with at most so many. Nothing is done on one node, or if no page may move.
module _ {R A : Type 0} ⦃real : Real R⦄ where
  open real use {of_nat, times, trunc}

  unfoldable pub within_limits : Settings R → List (ℕ × Row R) → A → A → (ℕ → A) → A
  within_limits s rows nothing all n_pages =
      let max_pages_to_migrate = trunc (times s.portion_memory_migrations (of_nat (length rows))) in
      if s.num_of_nodes == 1
      then nothing
      else if max_pages_to_migrate == 0
      then nothing
      else if max_pages_to_migrate == length rows
      then all
      else n_pages max_pages_to_migrate

-- The counts that change: the pages migrated by the call, and `total_migrations`.
pub record Counts : Type 0 where
  pub migrated_pages : ℕ
  pub total_migrations : ℕ

module _ {K : Type 0} (numa_move_pages : ℕ → List ℕ → List ℕ → K → Bool × K) where
  -- The second loop.
  perform : List (ℕ × (List ℕ × List ℕ)) → Counts → K → Counts × K
  unfolding move_pages
  perform [] counts k = (counts, k)
  perform ((pid, (addresses, nodes)) ∷ groups) counts k =
      let moved = move_pages numa_move_pages addresses pid nodes k in
      let n = length addresses in
      perform groups
        (if moved.0
          then record {
            migrated_pages = counts.migrated_pages + n;
            total_migrations = counts.total_migrations + n;
          }
          else counts)
        moved.1

  unfoldable pub gather_and_perform_migrations : {R : Type 0} → List (Cell R) → ℕ → K → Counts × K
  unfolding perform gather
  gather_and_perform_migrations migrations total k =
      perform (gather migrations) (record { migrated_pages = 0; total_migrations = total }) k
