-- ===== src/Balance.antt =====
-- The balancing of threads over processors and nodes, class Istrategy of
-- src/migration/strategies/thread_strategy.hpp. The loops that move threads have fuel, since a
-- migration that reports success need not change anything.
pub mod Closest
pub mod Moving
pub mod Shrinking
pub mod Rounds
pub mod Termination
pub mod Swaps
mod Tests
use csci555_usc.Base.{
  ℕ, zero, suc, ◌+◌, ◌-◌, ◌*◌, ◌/◌, ◌^◌, max, Bool, true, false, not, ◌&&◌, ◌||◌, Option, none,
  some, List, [], ◌∷◌, ◌++◌, ◌==◌, ltb, leb, if◌then◌else◌, get_or, get_elem?, length, contains,
  min_element,
}
use csci555_usc.Real.{Real}
use csci555_usc.Tickets.{Tickets, Settings, no_tickets}
use csci555_usc.Threads.{Process, Kernel, System, retrieve, pin_threads_cpu, pin_threads_node}
use csci555_usc.Threads.Cells.{SimpleCell, migrate}
use csci555_usc.Threads.Moves.{non_idle, tids}
use csci555_usc.Migrations.{MigrationCell, Readings, performance, tickets_between}

-- std::numeric_limits<size_t>::max()
abbrev pub max_size : ℕ
max_size = 2 ^ 64 - 1

-- What detect_system found: the processors and nodes, the nodes by their distance from each node, and
-- the processors of each node.
pub record Topology : Type 0 where
  pub cpus : List ℕ
  pub nodes : List ℕ
  pub nodes_by_distance : List (List ℕ)
  pub node_cpu_map : List (List ℕ)

-- The search for a less busy place: it has ended, or goes on with the least busy place so far.
pub data Search : Type 0 where
  found : ℕ → Search
  searching : ℕ → ℕ → Search

-- `tids` is the number of threads of a place, `limit` the number that a place should have.
module _ (tids : ℕ → ℕ) (limit src : ℕ) where
  unfoldable pub visit : ℕ → ℕ → ℕ → Search
  visit dst min_place min_tids =
      if src == dst
      then searching min_place min_tids
      else if ltb (tids dst) min_tids
      then if ltb (tids dst) limit then found dst else searching dst (tids dst)
      else searching min_place min_tids

  unfoldable pub search : List ℕ → Search → Search
  unfolding visit
  search [] s = s
  search (dst ∷ places) (found place) = found place
  search (dst ∷ places) (searching min_place min_tids) =
      search places (visit dst min_place min_tids)

  -- The loop over the nodes around the loop over their processors.
  unfoldable pub search_nodes : List (List ℕ) → Search → Search
  unfolding search
  search_nodes [] s = s
  search_nodes (places ∷ nodes) s = search_nodes nodes (search places s)

  unfoldable pub conclude : Search → Option ℕ
  conclude (found place) = some place
  conclude (searching min_place min_tids) = if ltb min_tids (tids src) then some min_place else none

module _ (is_idle : ℕ → Bool) where
  unfoldable pub tids_of : List (List ℕ) → ℕ → Bool → List ℕ
  unfolding non_idle
  tids_of sets i ignore_idle =
      if ignore_idle then non_idle is_idle (get_or sets i []) else get_or sets i []

pub cpus_of_nodes : Topology → List ℕ → List (List ℕ)
cpus_of_nodes topology [] = []
cpus_of_nodes topology (node ∷ nodes) =
    get_or topology.node_cpu_map node [] ∷ cpus_of_nodes topology nodes

module _ (topology : Topology) (is_idle : ℕ → Bool) (ignore_idle : Bool) where
  unfoldable pub closest_less_busy_cpu : ℕ → ℕ → System → Option ℕ
  unfolding tids_of search_nodes conclude cpus_of_nodes
  closest_less_busy_cpu src_cpu min_tids_per_cpu st =
      let count = λ (cpu : ℕ). length (tids_of is_idle st.cpu_tid_map cpu ignore_idle) in
      let nodes = get_or topology.nodes_by_distance (get_or st.cpu_node_map src_cpu 0) [] in
      conclude count min_tids_per_cpu src_cpu (
        search_nodes count min_tids_per_cpu src_cpu (cpus_of_nodes topology nodes)
          (searching src_cpu max_size))

  unfoldable pub closest_less_busy_node : ℕ → ℕ → System → Option ℕ
  unfolding tids_of search conclude
  closest_less_busy_node src_node min_tids_per_node st =
      let count = λ (node : ℕ). length (tids_of is_idle st.node_tid_map node ignore_idle) in
      conclude count min_tids_per_node src_node (
        search count min_tids_per_node src_node (get_or topology.nodes_by_distance src_node [])
          (searching src_node max_size))

-- How a loop ends: it returns, it raises an exception or does what is undefined, or the fuel is used
-- up.
pub data Run (A : Type 0) : Type 0 where
  returned : A → Run A
  raised : Run A
  out_of_fuel : Run A

-- `*(tids.begin())` of an ordered set.
abbrev pub first_tid : List ℕ → Option ℕ
first_tid tids = get_elem? tids (min_element ltb tids)

module _ {R K : Type 0} ⦃real : Real R⦄ (kernel : Kernel K) (settings : Settings R) where
  abbrev pub Moves : Type 0
  Moves = List (MigrationCell R) × System × K

  module _ (tids_now : System → List ℕ) (closest : System → Option ℕ)
      (cell : ℕ → Process → ℕ → SimpleCell R) (limit : ℕ) where
    -- The do-while loop of move_to_less_busy_cpu and move_to_less_busy_node.
    unfoldable pub move_loop : ℕ → List ℕ → List (MigrationCell R) → System → K → Run Moves
    unfolding retrieve migrate
    move_loop zero tids migrations st k = out_of_fuel
    move_loop (suc n) tids migrations st k = elim (first_tid tids) [
      | none ↦ raised
      | some tid ↦ elim (closest st) [
        | none ↦ returned (migrations, st, k)
        | some dst ↦ elim (retrieve kernel tid st) [
          | none ↦ raised
          | some (p, st1) ↦
              let mc = cell tid p dst ∷ [] in
              elim (migrate kernel mc st1 k) [
                | none ↦ raised
                | some (migrated, st2, k2) ↦
                    let done =
                      if migrated
                      then migrations
                        ++ record { migrations = mc; tickets = settings.free_core } ∷ []
                      else migrations in
                    elim (migrated && ltb limit (length (tids_now st2))) [
                      | true ↦ move_loop n (tids_now st2) done st2 k2
                      | false ↦ returned (done, st2, k2)
                    ]
              ]
        ]
      ]
    ]

  module _ (topology : Topology) (readings : Readings R) (fuel : ℕ) (ignore_idle : Bool) where
    abbrev pub cpu_cell : ℕ → ℕ → Process → ℕ → SimpleCell R
    cpu_cell src_cpu tid p min_cpu = record {
      tid = tid;
      pid = readings.pid_from_tid tid;
      dest = min_cpu;
      prev = src_cpu;
      node = false;
      prev_perf = performance settings readings tid p;
    }

    abbrev pub node_cell : ℕ → ℕ → Process → ℕ → SimpleCell R
    node_cell src_node tid p min_node = record {
      tid = tid;
      pid = readings.pid_from_tid tid;
      dest = min_node;
      prev = src_node;
      -- migrate_to_nodes(), where `balance` calls this
      node = true;
      prev_perf = performance settings readings tid p;
    }

    unfoldable pub move_to_less_busy_cpu : ℕ → ℕ → System → K → Run Moves
    unfolding move_loop tids_of closest_less_busy_cpu
    move_to_less_busy_cpu src_cpu min_tids_per_cpu st k =
        let tids_now = λ (s : System). tids_of readings.is_idle s.cpu_tid_map src_cpu ignore_idle in
        move_loop tids_now
          (closest_less_busy_cpu topology readings.is_idle ignore_idle src_cpu min_tids_per_cpu)
          (cpu_cell src_cpu) min_tids_per_cpu fuel (tids_now st) [] st k

    unfoldable pub move_to_less_busy_node : ℕ → ℕ → System → K → Run Moves
    unfolding move_loop tids_of closest_less_busy_node
    move_to_less_busy_node src_node min_tids_per_node st k =
        let tids_now =
          λ (s : System). tids_of readings.is_idle s.node_tid_map src_node ignore_idle in
        move_loop tids_now
          (closest_less_busy_node topology readings.is_idle ignore_idle src_node min_tids_per_node)
          (node_cell src_node) min_tids_per_node fuel (tids_now st) [] st k

    -- The loops over the processors and over the nodes, where `sets` are the threads of each place.
    balance_each :
        (System → List (List ℕ))
        → (ℕ → ℕ → System → K → Run Moves)
        → ℕ
        → List ℕ
        → List (MigrationCell R)
        → System
        → K
        → Run Moves
    unfolding tids_of
    balance_each sets move limit [] done st k = returned (done, st, k)
    balance_each sets move limit (place ∷ places) done st k =
        elim (leb (length (tids_of readings.is_idle (sets st) place ignore_idle)) limit) [
          | true ↦ balance_each sets move limit places done st k
          | false ↦ elim (move place limit st k) [
            | returned (migr, st', k') ↦ balance_each sets move limit places (done ++ migr) st' k'
            | raised ↦ raised
            | out_of_fuel ↦ out_of_fuel
          ]
        ]

    -- The threads that a place should have, at least one.
    abbrev pub share : ℕ → ℕ → ℕ
    share total places = max (total / places) 1

    unfoldable pub balance_cpus : System → K → Run Moves
    unfolding balance_each move_to_less_busy_cpu tids
    balance_cpus st k =
        let total_tids = length (tids readings.is_idle ignore_idle st) in
        elim (total_tids == 0) [
          | true ↦ returned ([], st, k)
          | false ↦
              balance_each (λ s. s.cpu_tid_map) move_to_less_busy_cpu
                (share total_tids (length topology.cpus)) topology.cpus [] st k
        ]

    unfoldable pub balance_nodes : System → K → Run Moves
    unfolding balance_each move_to_less_busy_node tids
    balance_nodes st k =
        let total_tids = length (tids readings.is_idle ignore_idle st) in
        elim (total_tids == 0) [
          | true ↦ returned ([], st, k)
          | false ↦
              balance_each (λ s. s.node_tid_map) move_to_less_busy_node
                (share total_tids (length topology.nodes)) topology.nodes [] st k
        ]

    -- `root` and `children` are the processes of the tree that are pinned first.
    unfoldable pub balance : Bool → Process → List Process → System → K → Run Moves
    unfolding pin_threads_cpu pin_threads_node balance_cpus balance_nodes
    balance migrate_to_nodes root children st k =
        let to_nodes = pin_threads_node kernel ignore_idle root children st k in
        let to_cpus = pin_threads_cpu kernel ignore_idle root children st k in
        elim migrate_to_nodes [
          | true ↦ elim to_nodes.0 [
            | true ↦ balance_nodes to_nodes.1 to_nodes.2
            | false ↦ returned ([], to_nodes.1, to_nodes.2)
          ]
          | false ↦ elim to_cpus.0 [
            | true ↦ balance_cpus to_cpus.1 to_cpus.2
            | false ↦ returned ([], to_cpus.1, to_cpus.2)
          ]
        ]

-- The search for the thread to swap with.
module _ {R : Type 0} ⦃real : Real R⦄ (readings : Readings R) (tickets_of : ℕ → Tickets R) where
  open real use {lt}

  best_from : List ℕ → List ℕ → ℕ → Tickets R → ℕ × Tickets R
  best_from migrated_pids [] swap_tid swap_tickets = (swap_tid, swap_tickets)
  best_from migrated_pids (aux_tid ∷ tids) swap_tid swap_tickets =
      let better =
        readings.is_migratable aux_tid
        && not (contains aux_tid migrated_pids)
        && lt swap_tickets.value (tickets_of aux_tid).value in
      best_from migrated_pids tids (if better then aux_tid else swap_tid)
        (if better then tickets_of aux_tid else swap_tickets)

  unfoldable pub best_pid : List ℕ → List ℕ → Option (ℕ × Tickets R)
  unfolding best_from
  best_pid migrated_pids tids =
      let best = best_from migrated_pids tids 0 no_tickets in
      if best.0 == 0 then none else some best

module _ {R : Type 0} ⦃real : Real R⦄ (settings : Settings R) (readings : Readings R) where
  unfoldable pub best_pid_for_swap_cpu : ℕ → ℕ → List ℕ → System → Option (ℕ × Tickets R)
  unfolding best_pid tickets_between non_idle
  best_pid_for_swap_cpu src_cpu dst_cpu migrated_pids st =
      best_pid readings
        (λ tid.
          tickets_between settings readings tid (get_or st.cpu_node_map dst_cpu 0)
            (get_or st.cpu_node_map src_cpu 0) (length (get_or st.cpu_tid_map src_cpu []) == 0))
        migrated_pids (non_idle readings.is_idle (get_or st.cpu_tid_map dst_cpu []))

  unfoldable pub best_pid_for_swap_node :
      Topology → ℕ → ℕ → List ℕ → System → Option (ℕ × Tickets R)
  unfolding best_pid tickets_between non_idle
  best_pid_for_swap_node topology src_node dst_node migrated_pids st =
      best_pid readings
        (λ tid. tickets_between settings readings tid dst_node src_node (
          ltb (length (get_or st.node_tid_map src_node []))
            (length (get_or topology.node_cpu_map src_node []))))
        migrated_pids (non_idle readings.is_idle (get_or st.node_tid_map dst_node []))
