-- ===== src/PerfTable/Tests.antt =====
-- Runs of PerfTable over the numbers, on two nodes of one processor each.
use csci555_usc.Base.{ℕ, ◌<◌, ◌≡◌, refl, inl, some, false, true, List, [], ◌∷◌, arith, Elem}
use csci555_usc.Real.{nat_real}
use csci555_usc.Machine.{Machine}
use csci555_usc.Pages.Row.{Sample}
use csci555_usc.Pages.Table.{find}
use csci555_usc.Rm3d.{Rm3d}
use csci555_usc.PerfTable.{TidRow, PerfTable, ThreadReadings, new_table, update}
use csci555_usc.PerfTable.Accesses.{
  PerfStep, memory_sampled, cleared, perf_steps, total, accesses-total,
}
use csci555_usc.PerfTable.Rows.{BecomesCurrent, update-BecomesCurrent}

abbrev machine : Machine
machine = record {
  max_node = 1;
  nodes = 0 ∷ 1 ∷ [];
  node_from_cpu = λ cpu. cpu;
  minimum_latency = 3;
}

abbrev sample : ℕ → ℕ → Sample
sample cpu page_node = record {
  cpu = cpu;
  tid = 7;
  page = 4096;
  page_node = page_node;
  latency = 20;
  reqs = 2;
}

abbrev steps : List PerfStep
steps =
    memory_sampled 1 (sample 0 1)
    ∷ cleared (λ tid. true)
    ∷ memory_sampled 2 (sample 1 1)
    ∷ memory_sampled 3 (sample 0 1)
    ∷ []

abbrev table : PerfTable ℕ
table = perf_steps machine 1000 steps (new_table machine 1000)

every_node : (i : ℕ) → i < 2 → Elem i machine.nodes
every_node i h = ground arith

accesses-total_example : table.accesses ≡ total table.mem_accesses
accesses-total_example =
    accesses-total {R = ℕ} machine 1000 steps (every_node, (omega arith, (omega arith, tt)))
      (
        (omega arith, omega arith),
        (tt, ((omega arith, omega arith), ((omega arith, omega arith), tt))),
      )

-- A node with data and flagged, and one that is not flagged.
abbrev counters : Rm3d ℕ
counters = record {
  flops = 100 ∷ 200 ∷ [];
  inst = 100 ∷ 200 ∷ [];
  total_reqs = 4 ∷ 4 ∷ [];
  times = 1000000000 ∷ 1000000000 ∷ [];
  node_reqs = 2 ∷ 2 ∷ [];
  mean_lat = 10 ∷ 10 ∷ [];
  perfs = 5 ∷ 6 ∷ [];
  perfs_time = 0 ∷ 0 ∷ [];
  perfs_update = true ∷ false ∷ [];
}

abbrev threads : ThreadReadings ℕ
threads = record { pinned_node_from_tid = λ tid. 0; pid_from_tid = λ tid. tid; cpu_use = λ tid. 1 }

-- The row of thread 7 in the table.
abbrev row : TidRow ℕ
row = record { performance = counters; running = true }

abbrev with_row : PerfTable ℕ
with_row = record table { table = (7, row) ∷ [] }

update-BecomesCurrent_example :
    (s : TidRow ℕ) × (find 7
        (update machine 64 1000 (λ time. 1) threads (λ tid. false) 9 with_row).table
      ≡ some s)
    × BecomesCurrent machine 64 1000 (λ time. 1) threads (λ tid. false) 9 7 0 row s
unfolding find
update-BecomesCurrent_example =
    update-BecomesCurrent machine 64 1000 (λ time. 1) threads (λ tid. false) 9 7 0 with_row row refl
      (inl refl) (omega arith)
