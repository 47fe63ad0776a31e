-- ===== src/Lbma.antt =====
-- The strategy of src/migration/strategies/thread_strats/lbma.hpp: the migrations of the chosen threads
-- and their execution. The random choice of the threads is an argument; `process_of` is `retrieve`. A
-- read of a vector out of its bounds, which is undefined behaviour, is `none`.
pub mod Once
mod Tests
use csci555_usc.Base.{
  ℕ, ◌+◌, Bool, true, false, not, ◌&&◌, ◌||◌, Option, none, some, List, [], ◌∷◌, ◌++◌, ◌==◌, ltb,
  if◌then◌else◌, get_or, length, contains, insert_all,
}
use csci555_usc.Real.{Real}
use csci555_usc.Tickets.{Tickets, Settings, plus_tickets}
use csci555_usc.Threads.{Process, Kernel, System}
use csci555_usc.Threads.Cells.{SimpleCell, tids_involved, migrate}
use csci555_usc.Migrations.{
  MigrationCell, Readings, History, performance, tickets_between, select_migration,
  undo_last_migrations,
}
use csci555_usc.Balance.{Topology, best_pid_for_swap_cpu}

module _ {R : Type 0} ⦃real : Real R⦄ (settings : Settings R) (readings : Readings R)
    (topology : Topology) (process_of : ℕ → Process) (st : System) where
  open real use {eq}

  -- What tickets_node reads of its nodes is in the vectors: perfs_ and node_cpu_map, which have room
  -- for the largest node, and node_tid_map. The performance of the first node is only read if the
  -- second one has one.
  unfoldable pub in_nodes : ℕ → ℕ → ℕ → Bool
  in_nodes tid src_node dst_node =
      ltb dst_node (length topology.node_cpu_map)
      && ltb dst_node (length st.node_tid_map)
      && (eq (readings.perf_node tid dst_node) readings.invalid_value
          || ltb src_node (length topology.node_cpu_map))

  -- tickets_cpu of a thread and a destination, which takes the numbers of processors for nodes.
  unfoldable pub tickets_to_cpu : ℕ → ℕ → Option (Tickets R)
  unfolding tickets_between in_nodes
  tickets_to_cpu tid dst_cpu =
      let src_cpu = (process_of tid).pinned_processor in
      let free =
        ltb (length (get_or st.node_tid_map dst_cpu []))
          (length (get_or topology.node_cpu_map dst_cpu [])) in
      if in_nodes tid src_cpu dst_cpu
      then some (tickets_between settings readings tid src_cpu dst_cpu free)
      else none

  -- A cell of a thread, with the process and the performance of another.
  abbrev lbma_cell : ℕ → ℕ → ℕ → ℕ → SimpleCell R
  lbma_cell tid of dest prev = record {
    tid = tid;
    pid = readings.pid_from_tid of;
    dest = dest;
    prev = prev;
    node = false;
    prev_perf = performance settings readings of (process_of of);
  }

  -- The interchange with the thread that was found, none if none was.
  pub interchanges : ℕ → ℕ → Tickets R → Option (ℕ × Tickets R) → List (MigrationCell R)
  unfolding plus_tickets
  interchanges tid dst_cpu dst_tickets none = []
  interchanges tid dst_cpu dst_tickets (some (swap_tid, swap_tickets)) =
      let src_cpu = (process_of tid).pinned_processor in
      record {
        migrations =
            lbma_cell tid tid dst_cpu src_cpu ∷ lbma_cell swap_tid tid src_cpu dst_cpu ∷ [];
        tickets = plus_tickets dst_tickets swap_tickets;
      }
      ∷ []

  -- The migrations to one processor, with the tickets for it.
  pub migrations_with : ℕ → ℕ → List ℕ → Tickets R → List (MigrationCell R)
  unfolding interchanges best_pid_for_swap_cpu
  migrations_with tid dst_cpu migrated_pids dst_tickets =
      let src_cpu = (process_of tid).pinned_processor in
      if length (get_or st.cpu_tid_map dst_cpu []) == 0
      then record { migrations = lbma_cell tid tid dst_cpu src_cpu ∷ []; tickets = dst_tickets }
        ∷ []
      else interchanges tid dst_cpu dst_tickets
          (best_pid_for_swap_cpu settings readings src_cpu dst_cpu migrated_pids st)

  pub migrations_to_all : ℕ → List ℕ → List ℕ → Option (List (MigrationCell R))
  unfolding tickets_to_cpu migrations_with
  migrations_to_all tid [] migrated_pids = some []
  migrations_to_all tid (dst_cpu ∷ cpus) migrated_pids = elim (tickets_to_cpu tid dst_cpu) [
    | none ↦ none
    | some dst_tickets ↦ elim (migrations_to_all tid cpus migrated_pids) [
      | none ↦ none
      | some rest ↦ some (migrations_with tid dst_cpu migrated_pids dst_tickets ++ rest)
    ]
  ]

  -- The processors of the other nodes, by their distance.
  unfoldable pub other_cpus : ℕ → List ℕ → List ℕ
  other_cpus src_node [] = []
  other_cpus src_node (node ∷ nodes) =
      let rest = other_cpus src_node nodes in
      if src_node == node then rest else get_or topology.node_cpu_map node [] ++ rest

  abbrev pub destinations : ℕ → List ℕ
  destinations tid =
      let src_node = get_or st.cpu_node_map (process_of tid).pinned_processor 0 in
      other_cpus src_node (get_or topology.nodes_by_distance src_node [])

  unfoldable pub get_migration : ℕ → List ℕ → Option (List (MigrationCell R))
  unfolding migrations_to_all other_cpus
  get_migration tid migrated_pids = migrations_to_all tid (destinations tid) migrated_pids

  -- What get_migration_list does with the migration that was selected, if there is one.
  pub selected :
      Option (MigrationCell R) → List (MigrationCell R) → List ℕ → List (MigrationCell R) × List ℕ
  unfolding insert_all tids_involved
  selected none migrations migrated_pids = (migrations, migrated_pids)
  selected (some m) migrations migrated_pids =
      (migrations ++ m ∷ [], insert_all (tids_involved m.migrations) migrated_pids)

  -- get_migration_list, of the migrations that `get` finds for a thread when some were migrated.
  unfoldable pub list_from :
      (ℕ → List ℕ → Option (List (MigrationCell R)))
      → List ℕ
      → List (MigrationCell R)
      → List ℕ
      → Option (List (MigrationCell R) × List ℕ)
  unfolding select_migration selected
  list_from get [] migrations migrated_pids = some (migrations, migrated_pids)
  list_from get (tid ∷ tids) migrations migrated_pids = elim (contains tid migrated_pids) [
    | true ↦ list_from get tids migrations migrated_pids
    | false ↦ elim (get tid migrated_pids) [
      | none ↦ none
      | some migr ↦
          let next =
            selected (select_migration (λ m. m.tickets.value) migr) migrations migrated_pids in
          list_from get tids next.0 next.1
    ]
  ]

  unfoldable pub get_migration_list : List ℕ → List ℕ → Option (List (MigrationCell R) × List ℕ)
  unfolding list_from get_migration
  get_migration_list worst_tids migrated_pids = list_from get_migration worst_tids [] migrated_pids

module _ {R K : Type 0} ⦃real : Real R⦄ (kernel : Kernel K) (invalid_value : R)
    (performance_of : System → ℕ → R) where
  open real use {lt}

  -- The migrations in their order; the first that fails has the earlier ones undone and ends the loop.
  unfoldable pub perform :
      List (MigrationCell R) → History R → System → K → Option (History R × System × K)
  unfolding migrate undo_last_migrations
  perform [] h st k = some (h, st, k)
  perform (m ∷ migrations) h st k = elim (migrate kernel m.migrations st k) [
    | none ↦ none
    | some r ↦
        let rest =
          perform migrations
            (record h {
              total_migrations = h.total_migrations + 1;
              last_migrations = h.last_migrations ++ m ∷ [];
            })
            r.1 r.2 in
        if r.0
        then rest
        else undo_last_migrations kernel invalid_value performance_of false h r.1 r.2
  ]

  -- `migrate` of the strategy, with the performance that is kept; `algorithm` is
  -- perform_migration_algorithm.
  unfoldable pub migrate_lbma :
      R → R → List (MigrationCell R) → History R → System → K → R × Option (History R × System × K)
  unfolding perform
  migrate_lbma total_performance negligible_performance algorithm h st k =
      let done = perform algorithm (record h { last_migrations = [] }) st k in
      if lt total_performance negligible_performance
      then (invalid_value, some (h, st, k))
      else (total_performance, done)
