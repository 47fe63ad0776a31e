-- ===== src/Threads/Tests.antt =====
-- Runs of Threads on two nodes of two processors, where every call of the kernel succeeds, and the
-- theorems at inputs that meet their hypotheses.
use csci555_usc.Base.{
  ℕ, zero, suc, ◌+◌, ◌/◌, ◌≡◌, refl, true, false, none, some, [], ◌∷◌, ◌==◌, arith, insert, erase,
  All,
}
use csci555_usc.Threads.{Process, Kernel, System, pin, moved_to_cpu, pin_threads_cpu}
use csci555_usc.Threads.Sets.{holds}
use csci555_usc.Threads.Pinning.{IsPlaced, pin_threads_cpu-IsPlaced}
use csci555_usc.Threads.Cells.{SimpleCell}

-- The state of the kernel counts the calls.
abbrev kernel : Kernel ℕ
kernel = record {
  set_affinity = λ pid cpus calls. (true, suc calls);
  numa_node_of_cpu = λ cpu. cpu / 2;
  numa_node_to_cpus = λ node. some ((node + node) ∷ (node + node + 1) ∷ []);
  default_affinity = 0 ∷ 1 ∷ 2 ∷ 3 ∷ [];
  insert_process = λ pid processes. none;
}

abbrev process : ℕ → ℕ → Process
process pid cpu = record {
  pid = pid;
  processor = cpu;
  numa_node = cpu / 2;
  pinned = true;
  pinned_processor = cpu;
  pinned_numa_node = cpu / 2;
  idle = false;
}

abbrev system : System
system = record {
  processes = (7, process 7 0) ∷ (8, process 8 3) ∷ [];
  nodes = 0 ∷ 1 ∷ [];
  cpu_node_map = 0 ∷ 0 ∷ 1 ∷ 1 ∷ [];
  cpu_tid_map = (7 ∷ []) ∷ [] ∷ [] ∷ (8 ∷ []) ∷ [];
  node_tid_map = (7 ∷ []) ∷ (8 ∷ []) ∷ [];
}

abbrev after : System
after = moved_to_cpu kernel 7 2 (process 7 0) (pin kernel 2 (process 7 0) 0).1 system

placed : (d : ℕ) → holds 7 system.cpu_tid_map d ≡ (d == 0)
placed zero = refl
placed (suc zero) = refl
placed (suc (suc zero)) = refl
placed (suc (suc (suc zero))) = refl
placed (suc (suc (suc (suc d)))) = ground arith

-- The thread is in the set of processor 2 and of no node.
maps_after :
    (after.cpu_tid_map ≡ [] ∷ [] ∷ (7 ∷ []) ∷ (8 ∷ []) ∷ [])
    × (after.node_tid_map ≡ [] ∷ (8 ∷ []) ∷ [])
unfolding pin moved_to_cpu insert erase
maps_after = (refl, refl)

abbrev cell : ℕ → ℕ → ℕ → SimpleCell ℕ
cell tid dest prev = record {
  tid = tid;
  pid = 7;
  dest = dest;
  prev = prev;
  node = false;
  prev_perf = 5;
}

pin_threads_cpu-IsPlaced_example :
    All
      (IsPlaced kernel true
        (pin_threads_cpu kernel true (process 7 0) (process 8 3 ∷ []) system 0).1)
      (process 8 3 ∷ [])
unfolding pin_threads_cpu pin
pin_threads_cpu-IsPlaced_example =
    pin_threads_cpu-IsPlaced kernel true (process 7 0) (process 8 3 ∷ []) system 0 (omega arith)
      (omega arith) (refl, tt) refl

abbrev interchanged : System
interchanged =
    moved_to_cpu kernel 8 0 (process 8 3) (pin kernel 0 (process 8 3) 1).1
      (moved_to_cpu kernel 7 3 (process 7 0) (pin kernel 3 (process 7 0) 0).1 system)

interchange_runs : interchanged.cpu_tid_map ≡ (8 ∷ []) ∷ [] ∷ [] ∷ (7 ∷ []) ∷ []
unfolding pin moved_to_cpu insert erase
interchange_runs = refl
