-- ===== src/Rm3d/Tests.antt =====
-- Runs of Rm3d over the numbers, on two nodes of one processor each.
use csci555_usc.Base.{ℕ, ◌+◌, ◌*◌, ◌/◌, ◌≡◌, refl, true, false, inl, [], ◌∷◌, arith, get_or}
use csci555_usc.Real.{nat_real}
use csci555_usc.Machine.{Machine}
use csci555_usc.Pages.Row.{Sample}
use csci555_usc.Rm3d.{Rm3d, add_memory}
use csci555_usc.Rm3d.Current.{calc, perf_now, calc_perf-perf_now, calc_perf-add_memory}

abbrev machine : Machine
machine = record {
  max_node = 1;
  nodes = 0 ∷ 1 ∷ [];
  node_from_cpu = λ cpu. cpu;
  minimum_latency = 3;
}

-- Both nodes have data, and the first one is flagged.
abbrev counters : Rm3d ℕ
counters = record {
  flops = 100 ∷ 200 ∷ [];
  inst = 100 ∷ 200 ∷ [];
  total_reqs = 4 ∷ 4 ∷ [];
  times = 1000000000 ∷ 1000000000 ∷ [];
  node_reqs = 2 ∷ 2 ∷ [];
  mean_lat = 10 ∷ 10 ∷ [];
  perfs = 5 ∷ 6 ∷ [];
  perfs_time = 0 ∷ 0 ∷ [];
  perfs_update = true ∷ false ∷ [];
}

calc_perf-perf_now_example :
    get_or (calc 3 64 1000 7 (0 ∷ 1 ∷ []) counters).perfs 0 1000 ≡ perf_now 3 64 1000 7 0 counters
calc_perf-perf_now_example =
    calc_perf-perf_now 3 64 1000 7 0 (0 ∷ 1 ∷ []) counters (inl refl) (omega arith) refl

-- An access of node 1 from node 0, ten times as slow as those before.
abbrev slow : Sample
slow = record { cpu = 0; tid = 7; page = 4096; page_node = 1; latency = 100; reqs = 2 }

calc_perf-add_memory_example :
    let r = add_memory machine slow counters in
    (get_or r.mean_lat 1 0 ≡ (10 * 2 + 100 * 2) / (2 + 2))
    × (get_or r.perfs_update 0 false ≡ true)
    × (get_or r.perfs_update 1 false ≡ false)
    × (get_or (calc 3 64 1000 7 (0 ∷ 1 ∷ []) r).perfs 1 1000 ≡ 6)
calc_perf-add_memory_example =
    calc_perf-add_memory 3 64 1000 7 machine slow (0 ∷ 1 ∷ []) counters refl (omega arith)
      (omega arith) refl

slower : (add_memory machine slow counters).mean_lat ≡ 10 ∷ 55 ∷ []
unfolding add_memory
slower = refl
