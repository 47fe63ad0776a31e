-- ===== src/Balance/Tests.antt =====
-- Runs of Balance on one node of two processors, where every call of the kernel succeeds.
use csci555_usc.Base.{
  ℕ, suc, ◌≡◌, refl, ap, true, false, Bool-cases, inl, inr, none, some, [], ◌∷◌, ◌==◌, arith,
  insert, erase, insert_all, ==→eq, min_element, max_element, max_from,
}
use csci555_usc.Real.{nat_real}
use csci555_usc.Tickets.{default_settings}
use csci555_usc.Pages.Table.{find, modify}
use csci555_usc.Threads.{Process, Kernel, System, pin, moved_to_cpu, retrieve, pin_thread_to_cpu}
use csci555_usc.Threads.Cells.{migrate, migrate_from, migrate_one}
use csci555_usc.Threads.Moves.{non_idle, tids, tids_of_nodes}
use csci555_usc.Migrations.{Readings}
use csci555_usc.Balance.{
  Topology, out_of_fuel, tids_of, closest_less_busy_cpu, move_to_less_busy_cpu, balance_cpus,
  best_pid_for_swap_cpu, visit, search, search_nodes, conclude, cpus_of_nodes, balance_each,
  move_loop,
}
use csci555_usc.Balance.Closest.{
  IsLessBusy, count, cpus_by_distance, closest_less_busy_cpu-IsLessBusy,
}
use csci555_usc.Balance.Rounds.{IsHome, Returns}
use csci555_usc.Balance.Termination.{
  move_to_less_busy_cpu-Returns, move_to_less_busy_cpu-out_of_fuel,
}
use csci555_usc.Balance.Swaps.{IsBestPid, swap_tickets_cpu, best_pid_for_swap_cpu-IsBestPid}

abbrev kernel : Kernel ℕ
kernel = record {
  set_affinity = λ pid cpus calls. (true, suc calls);
  numa_node_of_cpu = λ cpu. 0;
  numa_node_to_cpus = λ node. some (0 ∷ 1 ∷ []);
  default_affinity = 0 ∷ 1 ∷ [];
  insert_process = λ pid processes. none;
}

-- A process that is pinned to processor 0 and was last seen on another.
abbrev process : ℕ → ℕ → Process
process pid cpu = record {
  pid = pid;
  processor = cpu;
  numa_node = 0;
  pinned = true;
  pinned_processor = 0;
  pinned_numa_node = 0;
  idle = false;
}

-- Two threads on processor 0, the first of them last seen on `cpu`.
abbrev system : ℕ → System
system cpu = record {
  processes = (7, process 7 cpu) ∷ (8, process 8 0) ∷ [];
  nodes = 0 ∷ [];
  cpu_node_map = 0 ∷ 0 ∷ [];
  cpu_tid_map = (7 ∷ 8 ∷ []) ∷ [] ∷ [];
  node_tid_map = (7 ∷ 8 ∷ []) ∷ [];
}

abbrev topology : Topology
topology = record {
  cpus = 0 ∷ 1 ∷ [];
  nodes = 0 ∷ [];
  nodes_by_distance = (0 ∷ []) ∷ [];
  node_cpu_map = (0 ∷ 1 ∷ []) ∷ [];
}

abbrev readings : Readings ℕ
readings = record {
  perf_node = λ tid node. 10;
  preferred_node = λ tid. 0;
  rel_performance = λ tid. 1;
  pid_from_tid = λ tid. tid;
  is_idle = λ tid. false;
  is_migratable = λ tid. true;
  numa_distance = λ a b. 10;
  invalid_value = 1000;
}

closest_less_busy_cpu-IsLessBusy_example :
    IsLessBusy
      (count topology readings.is_idle false (system 0).cpu_tid_map)
      1
      0
      (cpus_by_distance topology readings.is_idle false (system 0) 0)
      (closest_less_busy_cpu topology readings.is_idle false 0 1 (system 0))
unfolding tids_of
closest_less_busy_cpu-IsLessBusy_example =
    closest_less_busy_cpu-IsLessBusy topology readings.is_idle false 0 1 (system 0) (omega arith)
      (omega arith)

home : IsHome kernel default_settings topology readings false 0 1 (system 0)
unfolding find
home t h = elim (Bool-cases (t == 7)) [
  | inl e ↦
      let is_seven = ==→eq t 7 e in
      (
        ap (λ n. n == 0) is_seven,
        (process 7 0, ap (λ n. find n (system 0).processes) is_seven, refl, refl),
      )
  | inr e ↦
      let is_eight : t ≡ 8 = ground (arith, h, e) in
      (
        ap (λ n. n == 0) is_eight,
        (process 8 0, ap (λ n. find n (system 0).processes) is_eight, refl, refl),
      )
]

move_to_less_busy_cpu-Returns_example :
    Returns kernel default_settings topology readings false 0 1 0
      (system 0)
      (move_to_less_busy_cpu kernel default_settings topology readings 2 false 0 1 (system 0) 0)
unfolding tids_of
move_to_less_busy_cpu-Returns_example =
    move_to_less_busy_cpu-Returns kernel default_settings topology readings false 0 1 2 (system 0) 0
      (omega arith) home (refl, (refl, tt)) (omega arith) (omega arith)

move_to_less_busy_cpu-out_of_fuel_example :
    move_to_less_busy_cpu kernel default_settings topology readings 100 false 0 1 (system 1) 0
    ≡ out_of_fuel
unfolding tids_of closest_less_busy_cpu visit search search_nodes conclude cpus_of_nodes find
    min_element
move_to_less_busy_cpu-out_of_fuel_example =
    move_to_less_busy_cpu-out_of_fuel kernel default_settings topology readings false 0 1 100 7 1
      (process 7 1) (system 1) 0 (omega arith) refl refl refl refl refl refl

-- Three threads that all run on processor 0, where they are pinned.
abbrev three : System
three = record (system 0) {
  processes = (7, process 7 0) ∷ (8, process 8 0) ∷ (9, process 9 0) ∷ [];
  cpu_tid_map = (7 ∷ 8 ∷ 9 ∷ []) ∷ [] ∷ [];
  node_tid_map = (7 ∷ 8 ∷ 9 ∷ []) ∷ [];
}

-- Two of the three threads go to processor 1, which is then to give one back, forever.
three_are_stuck :
    balance_cpus kernel default_settings topology readings 20 false three 0 ≡ out_of_fuel
unfolding balance_cpus balance_each move_to_less_busy_cpu move_loop tids_of closest_less_busy_cpu
    visit search search_nodes conclude cpus_of_nodes tids tids_of_nodes insert_all insert erase
    non_idle min_element max_element max_from retrieve find modify migrate migrate_from migrate_one
    pin_thread_to_cpu pin moved_to_cpu
three_are_stuck = refl

best_pid_for_swap_cpu-IsBestPid_example :
    IsBestPid readings
      (swap_tickets_cpu default_settings readings (system 0) 1 0)
      (7 ∷ [])
      (non_idle readings.is_idle (7 ∷ 8 ∷ []))
      (best_pid_for_swap_cpu default_settings readings 1 0 (7 ∷ []) (system 0))
unfolding non_idle
best_pid_for_swap_cpu-IsBestPid_example =
    best_pid_for_swap_cpu-IsBestPid default_settings readings 1 0 (7 ∷ []) (system 0) refl
