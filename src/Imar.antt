-- ===== src/Imar.antt =====
-- The strategies nimar.hpp, cimar.hpp and imar2.hpp of src/migration/strategies/thread_strats, which
-- migrate the threads that perform worst: to nodes, to processors, and to processors with a rollback.
-- Here is nimar.hpp; the other two are in Processors. What they read of the table of threads is
-- Migrations.Readings, `process_of` is `retrieve`, and std::sort is a parameter. EVOLVE_TICKETS is
-- false.
pub mod Processors
pub mod Gain
pub mod Once
pub mod Worst
pub mod Rollback
mod Tests
mod RollbackTests
use csci555_usc.Base.{
  ℕ, zero, suc, ◌+◌, ◌-◌, min, Bool, true, false, not, ◌&&◌, ◌||◌, Option, none, some, List, [],
  ◌∷◌, ◌++◌, ◌==◌, ltb, if◌then◌else◌, get_or, length, contains, insert_all,
}
use csci555_usc.Real.{Real}
use csci555_usc.Tickets.{Tickets, Settings, plus_tickets}
use csci555_usc.Threads.{Process, Kernel, System}
use csci555_usc.Threads.Cells.{SimpleCell, tids_involved}
use csci555_usc.Migrations.{
  MigrationCell, Readings, History, performance, tickets_between, select_migration,
  undo_last_migrations, compare_last_migrations,
}
use csci555_usc.Balance.{Topology, best_pid_for_swap_cpu, best_pid_for_swap_node}
use csci555_usc.Lbma.{tickets_to_cpu, destinations, list_from}

-- `get_migration_list` of nimar.hpp, of the migrations that `get` finds for a thread when some were
-- migrated.
module _ {R : Type 0} ⦃real : Real R⦄ (get : ℕ → List ℕ → List (MigrationCell R)) where
  -- The migration that was selected, if there was one to select from.
  pub add_selected :
      Option (MigrationCell R) → List (MigrationCell R) → List ℕ → List (MigrationCell R) × List ℕ
  unfolding insert_all tids_involved
  add_selected none migrations migrated_pids = (migrations, migrated_pids)
  add_selected (some m) migrations migrated_pids =
      (migrations ++ m ∷ [], insert_all (tids_involved m.migrations) migrated_pids)

  pub list_worst : List ℕ → List (MigrationCell R) → List ℕ → List (MigrationCell R) × List ℕ
  unfolding select_migration add_selected
  list_worst [] migrations migrated_pids = (migrations, migrated_pids)
  list_worst (tid ∷ tids) migrations migrated_pids =
      let chosen =
        add_selected (select_migration (λ m. m.tickets.value) (get tid migrated_pids)) migrations
          migrated_pids in
      let next = if contains tid migrated_pids then (migrations, migrated_pids) else chosen in
      list_worst tids next.0 next.1

  unfoldable pub worst_migrations : List ℕ → List ℕ → List (MigrationCell R) × List ℕ
  unfolding list_worst
  worst_migrations worst_tids migrated_pids = list_worst worst_tids [] migrated_pids

module _ {R : Type 0} ⦃real : Real R⦄ (settings : Settings R) (readings : Readings R)
    (topology : Topology) (process_of : ℕ → Process) (st : System) where
  open real use {lt}

  -- A cell of a thread, at the level of nodes or of processors.
  abbrev pub imar_cell : Bool → ℕ → ℕ → ℕ → SimpleCell R
  imar_cell node tid dest prev = record {
    tid = tid;
    pid = readings.pid_from_tid tid;
    dest = dest;
    prev = prev;
    node = node;
    prev_perf = performance settings readings tid (process_of tid);
  }

  -- tickets_node of a thread and a destination.
  unfoldable pub tickets_to_node : ℕ → ℕ → Tickets R
  unfolding tickets_between
  tickets_to_node tid dst_node =
      tickets_between settings readings tid (process_of tid).pinned_numa_node dst_node (
        ltb (length (get_or st.node_tid_map dst_node []))
          (length (get_or topology.node_cpu_map dst_node [])))

  -- An interchange, if there is a thread to swap with and the tickets are more than those of now.
  -- `tickets_to` is tickets_node.
  pub gain_swap :
      Bool → (ℕ → ℕ → Tickets R) → ℕ → ℕ → ℕ → Option (ℕ × Tickets R) → List (MigrationCell R)
  unfolding plus_tickets
  gain_swap node tickets_to tid src dst none = []
  gain_swap node tickets_to tid src dst (some (swap_tid, swap_tickets)) =
      let current = plus_tickets (tickets_to tid src) (tickets_to swap_tid dst) in
      let estimated = plus_tickets (tickets_to tid dst) swap_tickets in
      if lt current.value estimated.value
      then record {
        migrations = imar_cell node tid dst src ∷ imar_cell node swap_tid src dst ∷ [];
        tickets = estimated;
      }
        ∷ []
      else []

  -- A migration to a free place with more tickets, or an interchange.
  pub gain_to :
      Bool
      → (ℕ → ℕ → Tickets R)
      → Bool
      → ℕ
      → ℕ
      → ℕ
      → Option (ℕ × Tickets R)
      → List (MigrationCell R)
  unfolding gain_swap
  gain_to node tickets_to free tid src dst best =
      if free && lt (tickets_to tid src).value (tickets_to tid dst).value
      then record { migrations = imar_cell node tid dst src ∷ []; tickets = tickets_to tid dst }
        ∷ []
      else gain_swap node tickets_to tid src dst best

  -- The loop of nimar.hpp over the nodes.
  pub nimar_nodes : ℕ → List ℕ → List ℕ → List (MigrationCell R)
  unfolding gain_to tickets_to_node best_pid_for_swap_node
  nimar_nodes tid [] migrated_pids = []
  nimar_nodes tid (dst_node ∷ nodes) migrated_pids =
      let src_node = (process_of tid).pinned_numa_node in
      let rest = nimar_nodes tid nodes migrated_pids in
      if src_node == dst_node
      then rest
      else gain_to true tickets_to_node
          (ltb (length (get_or st.node_tid_map dst_node []))
            (length (get_or topology.node_cpu_map dst_node [])))
          tid src_node dst_node
          (best_pid_for_swap_node settings readings topology src_node dst_node migrated_pids st)
        ++ rest

  unfoldable pub nimar_get_migration : ℕ → List ℕ → List (MigrationCell R)
  unfolding nimar_nodes
  nimar_get_migration tid migrated_pids =
      nimar_nodes tid (get_or topology.nodes_by_distance (process_of tid).pinned_numa_node [])
        migrated_pids
