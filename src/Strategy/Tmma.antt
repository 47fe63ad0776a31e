-- ===== src/Strategy/Tmma.antt =====
-- src/migration/strategies/memory_strats/tmma.hpp: a page moves to the node that accesses it most if
-- its share of the accesses exceeds a threshold. The order of std::sort and libnuma's call are
-- parameters.
pub mod Laws
use csci555_usc.Base.{
  ℕ, zero, suc, ◌+◌, Bool, true, false, not, ◌&&◌, Option, none, some, List, [], ◌∷◌, map, min,
  ◌==◌, if◌then◌else◌, get_or, length,
}
use csci555_usc.Real.{Real}
use csci555_usc.Machine.{Machine}
use csci555_usc.Pages.Row.{Row, preferred_node, read_ratios}
use csci555_usc.Strategy.{
  Cell, Candidate, Settings, select_best_migrations, gather_and_perform_migrations, Counts,
  within_limits,
}
use csci555_usc.Strategy.Consider.{consider_table}

module _ {R : Type 0} ⦃real : Real R⦄ (machine : Machine) where
  open real use {of_nat, over, lt}

  -- std::min gives its first argument unless the second is less.
  unfoldable pub min_ratio_to_mig : R
  min_ratio_to_mig =
      let two_thirds = over (of_nat 2) (of_nat 3) in
      let two_shares = over (of_nat 2) (of_nat (machine.max_node + 1)) in
      if lt two_shares two_thirds then two_shares else two_thirds

  unfoldable pub tmma_choose : Row R → Row R × Option ℕ
  unfolding preferred_node read_ratios min_ratio_to_mig
  tmma_choose info =
      let pref_node = preferred_node info in
      let ratios = read_ratios machine info in
      let max_ratio = get_or ratios.0 pref_node (of_nat 0) in
      if not (pref_node == info.last_node) && lt min_ratio_to_mig max_ratio
      then (ratios.1, some pref_node)
      else (ratios.1, none)

  module _ (s : Settings R) where
    unfoldable pub tmma_all_pages : List (ℕ × Row R) → List (Cell R) × List (ℕ × Row R)
    unfolding tmma_choose consider_table
    tmma_all_pages rows =
        let pass = consider_table machine s tmma_choose rows in
        (map (λ c. c.cell) pass.out, pass.rows)

    module _ (sort : List (Candidate R) → List (Candidate R)) where
      unfoldable pub tmma_n_pages : ℕ → List (ℕ × Row R) → List (Cell R) × List (ℕ × Row R)
      unfolding tmma_choose consider_table select_best_migrations
      tmma_n_pages n_pages rows =
          let pass = consider_table machine s tmma_choose rows in
          let n_migrations = min n_pages (length pass.out) in
          (select_best_migrations sort pass.out n_migrations, pass.rows)

      unfoldable pub tmma_migrations : List (ℕ × Row R) → List (Cell R) × List (ℕ × Row R)
      unfolding tmma_all_pages tmma_n_pages within_limits
      tmma_migrations rows =
          within_limits s rows ([], rows) (tmma_all_pages rows) (λ n. tmma_n_pages n rows)

      -- The migrations are performed; the table comes back as the pass left it.
      unfoldable pub tmma_migrate :
          {K : Type 0}
          → (ℕ → List ℕ → List ℕ → K → Bool × K)
          → List (ℕ × Row R)
          → ℕ
          → K
          → (Counts × K) × List (ℕ × Row R)
      unfolding tmma_migrations gather_and_perform_migrations
      tmma_migrate numa_move_pages rows total k =
          let m = tmma_migrations rows in
          (gather_and_perform_migrations numa_move_pages m.0 total k, m.1)
