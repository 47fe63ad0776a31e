-- ===== src/Imar/RollbackTests.antt =====
-- A run of `migrate` of imar2.hpp over the numbers, on one node of two processors where every call
-- succeeds.
use csci555_usc.Base.{ℕ, suc, true, false, some, [], ◌∷◌}
use csci555_usc.Real.{nat_real}
use csci555_usc.Threads.{Process, Kernel, System}
use csci555_usc.Migrations.{MigrationCell}
use csci555_usc.Imar.Rollback.{Progress}

abbrev process : Process
process = record {
  pid = 7;
  processor = 0;
  numa_node = 0;
  pinned = true;
  pinned_processor = 0;
  pinned_numa_node = 0;
  idle = false;
}

abbrev kernel : Kernel ℕ
kernel = record {
  set_affinity = λ pid cpus calls. (true, suc calls);
  numa_node_of_cpu = λ cpu. 0;
  numa_node_to_cpus = λ node. some (0 ∷ 1 ∷ []);
  default_affinity = 0 ∷ 1 ∷ [];
  insert_process = λ pid processes.
      some (record process { pid = pid }, (pid, record process { pid = pid }) ∷ processes);
}

abbrev system : System
system = record {
  processes = (7, process) ∷ [];
  nodes = 0 ∷ [];
  cpu_node_map = 0 ∷ 0 ∷ [];
  cpu_tid_map = (7 ∷ []) ∷ [] ∷ [];
  node_tid_map = (7 ∷ []) ∷ [];
}

abbrev planned : MigrationCell ℕ
planned = record {
  migrations = record { tid = 7; pid = 7; dest = 1; prev = 0; node = false; prev_perf = 5 } ∷ [];
  tickets = record { value = 3; mask = 9 };
}

abbrev before : Progress ℕ ℕ
before = record {
  history = record { last_migrations = []; total_migrations = 4; total_migrations_undone = 1 };
  last_performance = 5;
  time = 2;
  system = system;
  kernel_state = 0;
}
