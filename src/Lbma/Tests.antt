-- ===== src/Lbma/Tests.antt =====
-- Runs of Lbma over the numbers, on two nodes of one processor with one thread each.
use csci555_usc.Base.{
  ℕ, List, some, none, arith, ◌≡◌, refl, true, false, [], ◌∷◌, ◌==◌, if◌then◌else◌, contains, Nodup,
}
use csci555_usc.Real.{nat_real}
use csci555_usc.Tickets.{default_settings}
use csci555_usc.Threads.{Process, System}
use csci555_usc.Threads.Moves.{non_idle}
use csci555_usc.Migrations.{MigrationCell, Readings}
use csci555_usc.Balance.{Topology}
use csci555_usc.Schedule.Plan.Once.{planned}
use csci555_usc.Lbma.{get_migration_list, tickets_to_cpu, other_cpus}
use csci555_usc.Lbma.Once.{get_migration_list-Nodup}

abbrev process_of : ℕ → Process
process_of tid =
    let cpu = if tid == 7 then 0 else 1 in
    record {
      pid = tid;
      processor = cpu;
      numa_node = cpu;
      pinned = true;
      pinned_processor = cpu;
      pinned_numa_node = cpu;
      idle = false;
    }

abbrev system : System
system = record {
  processes = (7, process_of 7) ∷ (8, process_of 8) ∷ [];
  nodes = 0 ∷ 1 ∷ [];
  cpu_node_map = 0 ∷ 1 ∷ [];
  cpu_tid_map = (7 ∷ []) ∷ (8 ∷ []) ∷ [];
  node_tid_map = (7 ∷ []) ∷ (8 ∷ []) ∷ [];
}

abbrev topology : Topology
topology = record {
  cpus = 0 ∷ 1 ∷ [];
  nodes = 0 ∷ 1 ∷ [];
  nodes_by_distance = (0 ∷ 1 ∷ []) ∷ (1 ∷ 0 ∷ []) ∷ [];
  node_cpu_map = (0 ∷ []) ∷ (1 ∷ []) ∷ [];
}

abbrev readings : Readings ℕ
readings = record {
  perf_node = λ tid node. 10;
  preferred_node = λ tid. 1;
  rel_performance = λ tid. 1;
  pid_from_tid = λ tid. tid;
  is_idle = λ tid. false;
  is_migratable = λ tid. true;
  numa_distance = λ a b. 10;
  invalid_value = 1000;
}

get_migration_list-Nodup_example :
    (r : List (MigrationCell ℕ) × List ℕ) × (get_migration_list default_settings readings topology
        process_of system
        (7 ∷ 8 ∷ [])
        []
      ≡ some r)
    × Nodup (planned r.0)
    × ((x : ℕ) → contains x (planned r.0) ≡ true → contains x [] ≡ false)
unfolding other_cpus non_idle
get_migration_list-Nodup_example =
    get_migration_list-Nodup default_settings readings topology process_of system (7 ∷ 8 ∷ []) [] (
      (((refl, refl), tt), ((omega arith, omega arith, omega arith), tt)),
      ((((refl, refl), tt), ((omega arith, omega arith, omega arith), tt)), tt),
    )

-- On one node of two processors, the tickets of the second processor are read out of bounds.
abbrev one_node : Topology
one_node = record {
  cpus = 0 ∷ 1 ∷ [];
  nodes = 0 ∷ [];
  nodes_by_distance = (0 ∷ []) ∷ [];
  node_cpu_map = (0 ∷ 1 ∷ []) ∷ [];
}

out_of_bounds : tickets_to_cpu default_settings readings one_node process_of system 7 1 ≡ none
unfolding tickets_to_cpu
out_of_bounds = refl
