-- ===== src/Migrations.antt =====
-- Migrations of threads with their tickets: migration_cell of src/migration/migration_cell.hpp, and the
-- functions on them of src/migration/strategies/thread_strategy.hpp. What they read of the table of
-- threads and of the tree of processes is an interface; the random numbers are a parameter, a
-- generator that gives a number below its bound and goes on.
pub mod Select
pub mod Mutation
pub mod Undo
mod Tests
use csci555_usc.Base.{
  ℕ, ◌+◌, Bool, true, false, not, ◌||◌, Option, none, some, List, [], ◌∷◌, ◌==◌, if◌then◌else◌, map,
  length, get_or,
}
use csci555_usc.Real.{Real}
use csci555_usc.Tickets.{
  Tickets, Settings, no_tickets, plus_tickets, has_mask, mem_cell_worse_mask, mem_cell_no_data_mask,
  mem_cell_better_mask, free_core_mask, pref_node_mask, thread_under_perf_mask,
}
use csci555_usc.Threads.{Process, Kernel, System, retrieve}
use csci555_usc.Threads.Cells.{SimpleCell, swap, migrate, balance, tids_involved}

pub record MigrationCell (R : Type 0) : Type 0 where
  pub migrations : List (SimpleCell R)
  pub tickets : Tickets R

-- What is read of perf_table and of the processes, of threads by their number and of nodes.
pub record Readings (R : Type 0) : Type 0 where
  -- get_rm3d(tid)[node]
  pub perf_node : ℕ → ℕ → R
  pub preferred_node : ℕ → ℕ
  pub rel_performance : ℕ → R
  pub pid_from_tid : ℕ → ℕ
  pub is_idle : ℕ → Bool
  pub is_migratable : ℕ → Bool
  pub numa_distance : ℕ → ℕ → ℕ
  -- PERFORMANCE_INVALID_VALUE
  pub invalid_value : R

-- The map of `select_migration` from numbers of tickets to migrations, the largest first.
module _ {R : Type 0} ⦃real : Real R⦄ where
  open real use {lt}

  -- map::insert, which keeps what it has for an equal key
  insert_candidate : R → MigrationCell R → List (R × MigrationCell R) → List (R × MigrationCell R)
  insert_candidate key m [] = (key, m) ∷ []
  insert_candidate key m ((k, n) ∷ candidates) =
      let rest = insert_candidate key m candidates in
      if lt k key
      then (key, m) ∷ (k, n) ∷ candidates
      else if lt key k
      then (k, n) ∷ rest
      else (k, n) ∷ candidates

  candidates_from :
      (MigrationCell R → R)
      → List (MigrationCell R)
      → List (R × MigrationCell R)
      → List (R × MigrationCell R)
  unfolding insert_candidate
  candidates_from value [] candidates = candidates
  candidates_from value (m ∷ migrations) candidates =
      candidates_from value migrations (insert_candidate (value m) m candidates)

  first_candidate : List (R × MigrationCell R) → Option (MigrationCell R)
  first_candidate [] = none
  first_candidate ((k, m) ∷ candidates) = some m

  -- `value` is the number of tickets, or a random number up to it; `none` is the first element of an
  -- empty map, which the code may not ask for.
  unfoldable pub select_migration :
      (MigrationCell R → R) → List (MigrationCell R) → Option (MigrationCell R)
  unfolding candidates_from first_candidate
  select_migration value migrations = first_candidate (candidates_from value migrations [])

  n_threads_from : List (MigrationCell R) → ℕ → ℕ
  unfolding tids_involved
  n_threads_from [] n = n
  n_threads_from (m ∷ migrations) n =
      n_threads_from migrations (n + length (tids_involved m.migrations))

  pub n_threads_involved : List (MigrationCell R) → ℕ
  unfolding n_threads_from
  n_threads_involved migrations = n_threads_from migrations 0

-- The tickets of a migration by their reasons.
module _ {R : Type 0} ⦃real : Real R⦄ (settings : Settings R) (readings : Readings R) where
  open real use {of_nat, times, over, lt, eq}

  unfoldable pub is_under_performance : ℕ → Bool
  is_under_performance pid = lt (readings.rel_performance pid) settings.perf_threshold

  unfoldable pub tickets_rm3d : ℕ → ℕ → ℕ → Tickets R
  tickets_rm3d pid src_node dst_node =
      if eq (readings.perf_node pid dst_node) readings.invalid_value
      then settings.mem_cell_no_data
      else if lt (readings.perf_node pid dst_node) (readings.perf_node pid src_node)
      then settings.mem_cell_worse
      else settings.mem_cell_better

  unfoldable pub tickets_pref_node : ℕ → ℕ → Tickets R
  tickets_pref_node pid dst_node =
      let pref_node = readings.preferred_node pid in
      record {
        value =
            over (times settings.pref_node.value (of_nat (readings.numa_distance 0 0)))
              (of_nat (readings.numa_distance dst_node pref_node));
        mask = if dst_node == pref_node then settings.pref_node.mask else 0;
      }

  unfoldable pub tickets_under_performance : ℕ → Tickets R
  unfolding is_under_performance
  tickets_under_performance pid =
      if is_under_performance pid then settings.under_perf else no_tickets

  -- `free` is is_cpu_free of the processor, or is_cpu_free_in_node of the node.
  unfoldable pub tickets_free_core : Bool → Tickets R
  tickets_free_core free = if free then settings.free_core else no_tickets

  -- tickets_node of a thread and both nodes; tickets_cpu is the same on the nodes of the processors.
  unfoldable pub tickets_between : ℕ → ℕ → ℕ → Bool → Tickets R
  unfolding tickets_rm3d tickets_pref_node tickets_under_performance tickets_free_core plus_tickets
  tickets_between pid src_node dst_node free =
      plus_tickets
        (plus_tickets
          (plus_tickets (tickets_rm3d pid src_node dst_node) (tickets_pref_node pid dst_node))
          (tickets_free_core free))
        (tickets_under_performance pid)

  -- `performance`, the 3DyRM performance of a process where it is pinned.
  unfoldable pub performance : ℕ → Process → R
  performance tid p = readings.perf_node tid p.pinned_numa_node

-- How the tickets of each reason change with the performance that the last migrations gave.
module _ {R G : Type 0} ⦃real : Real R⦄ (rnd : R → G → R × G) where
  open real use {of_nat, plus, minus, times, over, lt}

  unfoldable pub mutate_ticket : Tickets R → R → R → G → Tickets R × G
  mutate_ticket tickets range diff g =
      let r = rnd range g in
      let factor =
        if lt (of_nat 0) diff
        then plus (of_nat 1) r.0
        else if lt diff (of_nat 0)
        then minus (of_nat 1) r.0
        else of_nat 1 in
      (record { value = times tickets.value factor; mask = tickets.mask }, r.1)

  -- One of the six tests on the mask.
  unfoldable pub mutate_if : ℕ → ℕ → Tickets R → R → R → G → Tickets R × G
  unfolding mutate_ticket
  mutate_if mask reason tickets range diff g =
      if has_mask mask reason then mutate_ticket tickets range diff g else (tickets, g)

  mutate_all : ℕ → R → R → Settings R → G → Settings R × G
  unfolding mutate_if
  mutate_all mask range diff s g =
      let worse = mutate_if mask mem_cell_worse_mask s.mem_cell_worse range diff g in
      let no_data = mutate_if mask mem_cell_no_data_mask s.mem_cell_no_data range diff worse.1 in
      let better = mutate_if mask mem_cell_better_mask s.mem_cell_better range diff no_data.1 in
      let core = mutate_if mask free_core_mask s.free_core range diff better.1 in
      let pref = mutate_if mask pref_node_mask s.pref_node range diff core.1 in
      let under = mutate_if mask thread_under_perf_mask s.under_perf range diff pref.1 in
      (
        record s {
          mem_cell_worse = worse.0;
          mem_cell_no_data = no_data.0;
          mem_cell_better = better.0;
          free_core = core.0;
          pref_node = pref.0;
          under_perf = under.0;
        },
        under.1,
      )

  -- The performance of a thread now.
  module _ (performance_of : ℕ → R) where
    mutate_each : ℕ → R → List (SimpleCell R) → Settings R → G → Settings R × G
    unfolding mutate_all
    mutate_each mask range [] s g = (s, g)
    mutate_each mask range (c ∷ cs) s g =
        let diff = over (performance_of c.tid) c.prev_perf in
        let r = mutate_all mask range (times (of_nat 100) (minus diff (of_nat 1))) s g in
        mutate_each mask range cs r.0 r.1

    -- `mutate_tickets` of one migration.
    unfoldable pub mutate_tickets : MigrationCell R → R → Settings R → G → Settings R × G
    unfolding mutate_each
    mutate_tickets migrs range s g = mutate_each migrs.tickets.mask range migrs.migrations s g

    -- The overload on all last migrations.
    unfoldable pub mutate_last_tickets :
        List (MigrationCell R) → R → Settings R → G → Settings R × G
    unfolding mutate_tickets
    mutate_last_tickets [] range s g = (s, g)
    mutate_last_tickets (m ∷ last) range s g =
        let r = mutate_tickets m range s g in mutate_last_tickets last range r.0 r.1

module _ {R : Type 0} ⦃real : Real R⦄ (performance_of : ℕ → R) where
  open real use {of_nat, plus, over}

  compare_from : List (SimpleCell R) → R → R
  compare_from [] total = total
  compare_from (c ∷ cs) total =
      compare_from cs (plus total (over (performance_of c.tid) c.prev_perf))

  compare_cells : List (MigrationCell R) → R → R
  unfolding compare_from
  compare_cells [] total = total
  compare_cells (m ∷ last) total = compare_cells last (compare_from m.migrations total)

  unfoldable pub compare_last_migrations : List (MigrationCell R) → R
  unfolding compare_cells
  compare_last_migrations last = compare_cells last (of_nat 0)

-- The lists of migrations that are kept, and their counters.
pub record History (R : Type 0) : Type 0 where
  pub last_migrations : List (MigrationCell R)
  pub total_migrations : ℕ
  pub total_migrations_undone : ℕ

module _ {R K : Type 0} ⦃real : Real R⦄ (kernel : Kernel K) (invalid_value : R) where
  open real use {of_nat, lt}

  -- `perf_table.performance(tid)`, which depends on where the thread is pinned.
  module _ (performance_of : System → ℕ → R) where
    perfs_of : System → List (SimpleCell R) → List R
    perfs_of st [] = []
    perfs_of st (c ∷ cs) = performance_of st c.tid ∷ perfs_of st cs

    -- `none` is an exception.
    unfoldable pub undo_from :
        Bool → List (MigrationCell R) → ℕ → System → K → Option (ℕ × System × K)
    unfolding perfs_of balance swap migrate
    undo_from only_bad [] undone st k = some (undone, st, k)
    undo_from only_bad (m ∷ last) undone st k =
        let gain = balance invalid_value m.migrations (perfs_of st m.migrations) in
        elim (not only_bad || lt gain (of_nat 0)) [
          | true ↦ elim (migrate kernel (map swap m.migrations) st k) [
            | none ↦ none
            | some r ↦ undo_from only_bad last (if r.0 then undone + 1 else undone) r.1 r.2
          ]
          | false ↦ undo_from only_bad last undone st k
        ]

    unfoldable pub undo_last_migrations :
        Bool → History R → System → K → Option (History R × System × K)
    unfolding undo_from
    undo_last_migrations only_bad h st k =
        elim (undo_from only_bad h.last_migrations h.total_migrations_undone st k) [
          | none ↦ none
          | some r ↦
              some (record h { last_migrations = []; total_migrations_undone = r.0 }, r.1, r.2)
        ]
