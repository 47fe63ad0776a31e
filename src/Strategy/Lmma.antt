-- ===== src/Strategy/Lmma.antt =====
-- src/migration/strategies/memory_strats/lmma.hpp: a page whose latency is far above the average
-- moves to the node that accesses it most, or to the least loaded node if that one is saturated.
-- Latencies are integers; the average latency of the table is not 0.
pub mod Laws
use csci555_usc.Base.{
  ℕ, ◌*◌, ◌/◌, Bool, true, false, Option, none, some, List, [], ◌∷◌, map, min, ltb, ◌==◌,
  if◌then◌else◌, get_or, length,
}
use csci555_usc.Real.{Real}
use csci555_usc.Machine.{Machine}
use csci555_usc.Pages.Row.{Row, preferred_node, read_ratios}
use csci555_usc.Pages.Table.{Table, node_min_av_latency, find}
use csci555_usc.Strategy.{
  Cell, Candidate, Settings, select_best_migrations, gather_and_perform_migrations, Counts,
  within_limits,
}
use csci555_usc.Strategy.Consider.{consider_table}

abbrev pub rel_latency_threshold : ℕ
rel_latency_threshold = 130

abbrev pub saturated_node_threshold : ℕ
saturated_node_threshold = 130

module _ {R : Type 0} where
  unfoldable pub is_node_saturated : Table R → ℕ → Bool
  is_node_saturated t node =
      ltb saturated_node_threshold (get_or t.node_latencies node 0 * 100 / t.av_latency)

  -- info.av_latency() * 100 / perf_table.av_latency()
  unfoldable pub relative : Table R → Row R → ℕ
  relative t info = info.av_latency * 100 / t.av_latency

module _ {R : Type 0} ⦃real : Real R⦄ (machine : Machine) (t : Table R) where
  -- `dst_node`, of `max_node`
  unfoldable pub destination : ℕ → ℕ
  unfolding is_node_saturated node_min_av_latency
  destination max_node = if is_node_saturated t max_node then node_min_av_latency t else max_node

  unfoldable pub lmma_choose : Row R → Row R × Option ℕ
  unfolding destination preferred_node read_ratios relative
  lmma_choose info =
      if ltb rel_latency_threshold (relative t info)
      then ((read_ratios machine info).1, some (destination (preferred_node info)))
      else (info, none)

  unfoldable pub lmma_choose_n : Row R → Row R × Option ℕ
  unfolding destination preferred_node read_ratios relative
  lmma_choose_n info =
      let max_node = preferred_node info in
      if ltb rel_latency_threshold (relative t info)
      then (if info.last_node == max_node
          then ((read_ratios machine info).1, none)
          else ((read_ratios machine info).1, some (destination max_node)))
      else (info, none)

module _ {R : Type 0} ⦃real : Real R⦄ (machine : Machine) (s : Settings R) where
  unfoldable pub lmma_all_pages : Table R → List (Cell R) × List (ℕ × Row R)
  unfolding lmma_choose consider_table
  lmma_all_pages t =
      let pass = consider_table machine s (lmma_choose machine t) t.table in
      (map (λ c. c.cell) pass.out, pass.rows)

  module _ (sort : List (Candidate R) → List (Candidate R)) where
    unfoldable pub lmma_n_pages : ℕ → Table R → List (Cell R) × List (ℕ × Row R)
    unfolding lmma_choose_n consider_table select_best_migrations
    lmma_n_pages n_pages t =
        let pass = consider_table machine s (lmma_choose_n machine t) t.table in
        let n_migrations = min (length pass.out) n_pages in
        (select_best_migrations sort pass.out n_migrations, pass.rows)

    unfoldable pub lmma_migrations : Table R → List (Cell R) × List (ℕ × Row R)
    unfolding lmma_all_pages lmma_n_pages within_limits
    lmma_migrations t =
        within_limits s t.table ([], t.table) (lmma_all_pages t) (λ n. lmma_n_pages n t)

    unfoldable pub lmma_migrate :
        {K : Type 0}
        → (ℕ → List ℕ → List ℕ → K → Bool × K)
        → Table R
        → ℕ
        → K
        → (Counts × K) × Table R
    unfolding lmma_migrations gather_and_perform_migrations
    lmma_migrate numa_move_pages t total k =
        let m = lmma_migrations t in
        (gather_and_perform_migrations numa_move_pages m.0 total k, record t { table = m.1 })
