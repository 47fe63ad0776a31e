-- ===== src/Imar/Processors.antt =====
-- The migrations to processors of cimar.hpp and imar2.hpp in src/migration/strategies/thread_strats.
-- Their loop that lists migrations is that of lbma.hpp, and a read out of bounds is `none`, as there.
use csci555_usc.Base.{
  ℕ, true, false, ◌&&◌, Option, none, some, List, [], ◌∷◌, ◌++◌, ◌==◌, if◌then◌else◌, get_or,
  length,
}
use csci555_usc.Real.{Real}
use csci555_usc.Tickets.{Tickets, Settings, plus_tickets}
use csci555_usc.Threads.{Process, System}
use csci555_usc.Migrations.{MigrationCell, Readings}
use csci555_usc.Balance.{Topology, best_pid_for_swap_cpu}
use csci555_usc.Lbma.{tickets_to_cpu, destinations, list_from}
use csci555_usc.Imar.{imar_cell}

module _ {R : Type 0} ⦃real : Real R⦄ (settings : Settings R) (readings : Readings R)
    (topology : Topology) (process_of : ℕ → Process) (st : System) where
  open real use {lt}

  -- tickets_cpu, `none` if it reads out of bounds.
  abbrev tickets_cpu : ℕ → ℕ → Option (Tickets R)
  tickets_cpu = tickets_to_cpu settings readings topology process_of st

  -- An interchange of cimar.hpp, with the tickets of the thread for its processor and the other.
  pub cimar_swap :
      ℕ → ℕ → ℕ → Tickets R → Tickets R → Option (ℕ × Tickets R) → Option (List (MigrationCell R))
  unfolding plus_tickets tickets_to_cpu
  cimar_swap tid src_cpu dst_cpu src_tickets dst_tickets none = some []
  cimar_swap tid src_cpu dst_cpu src_tickets dst_tickets (some (swap_tid, swap_tickets)) =
      elim (tickets_cpu swap_tid dst_cpu) [
        | none ↦ none
        | some swap_now ↦
            let current = plus_tickets src_tickets swap_now in
            let estimated = plus_tickets dst_tickets swap_tickets in
            some (
              if lt current.value estimated.value
              then record {
                migrations =
                    imar_cell settings readings topology process_of st false tid dst_cpu src_cpu
                    ∷ imar_cell settings readings topology process_of st false swap_tid src_cpu
                        dst_cpu
                    ∷ [];
                tickets = estimated;
              }
                ∷ []
              else [])
      ]

  -- The migrations of cimar.hpp to one processor: to a free one with more tickets, or an interchange.
  pub cimar_to : ℕ → ℕ → ℕ → Tickets R → Tickets R → List ℕ → Option (List (MigrationCell R))
  unfolding cimar_swap best_pid_for_swap_cpu
  cimar_to tid src_cpu dst_cpu src_tickets dst_tickets migrated_pids =
      let free = length (get_or st.cpu_tid_map dst_cpu []) == 0 in
      elim (free && lt src_tickets.value dst_tickets.value) [
        | true ↦ some (
            record {
              migrations =
                  imar_cell settings readings topology process_of st false tid dst_cpu src_cpu ∷ [];
              tickets = dst_tickets;
            }
            ∷ [])
        | false ↦
            cimar_swap tid src_cpu dst_cpu src_tickets dst_tickets
              (best_pid_for_swap_cpu settings readings src_cpu dst_cpu migrated_pids st)
      ]

  -- The loop of cimar.hpp over the processors of the other nodes.
  pub cimar_cpus : ℕ → Tickets R → List ℕ → List ℕ → Option (List (MigrationCell R))
  unfolding cimar_to tickets_to_cpu
  cimar_cpus tid src_tickets [] migrated_pids = some []
  cimar_cpus tid src_tickets (dst_cpu ∷ cpus) migrated_pids =
      let src_cpu = (process_of tid).pinned_processor in
      elim (tickets_cpu tid dst_cpu) [
        | none ↦ none
        | some dst_tickets ↦
            elim (cimar_to tid src_cpu dst_cpu src_tickets dst_tickets migrated_pids) [
              | none ↦ none
              | some ms ↦ elim (cimar_cpus tid src_tickets cpus migrated_pids) [
                | none ↦ none
                | some rest ↦ some (ms ++ rest)
              ]
            ]
      ]

  unfoldable pub cimar_get_migration : ℕ → List ℕ → Option (List (MigrationCell R))
  unfolding cimar_cpus tickets_to_cpu
  cimar_get_migration tid migrated_pids = elim (tickets_cpu tid (process_of tid).pinned_processor) [
    | none ↦ none
    | some src_tickets ↦
        cimar_cpus tid src_tickets (destinations settings readings topology process_of st tid)
          migrated_pids
  ]

  -- The interchange of imar2.hpp, without a test of the tickets.
  pub imar2_swap : ℕ → ℕ → ℕ → Tickets R → Option (ℕ × Tickets R) → List (MigrationCell R)
  unfolding plus_tickets
  imar2_swap tid src_cpu dst_cpu dst_tickets none = []
  imar2_swap tid src_cpu dst_cpu dst_tickets (some (swap_tid, swap_tickets)) =
      record {
        migrations =
            imar_cell settings readings topology process_of st false tid dst_cpu src_cpu
            ∷ imar_cell settings readings topology process_of st false swap_tid src_cpu dst_cpu
            ∷ [];
        tickets = plus_tickets dst_tickets swap_tickets;
      }
      ∷ []

  pub imar2_to : ℕ → ℕ → ℕ → Tickets R → List ℕ → List (MigrationCell R)
  unfolding imar2_swap best_pid_for_swap_cpu
  imar2_to tid src_cpu dst_cpu dst_tickets migrated_pids =
      if length (get_or st.cpu_tid_map dst_cpu []) == 0
      then record {
        migrations =
            imar_cell settings readings topology process_of st false tid dst_cpu src_cpu ∷ [];
        tickets = dst_tickets;
      }
        ∷ []
      else imar2_swap tid src_cpu dst_cpu dst_tickets
          (best_pid_for_swap_cpu settings readings src_cpu dst_cpu migrated_pids st)

  pub imar2_cpus : ℕ → List ℕ → List ℕ → Option (List (MigrationCell R))
  unfolding imar2_to tickets_to_cpu
  imar2_cpus tid [] migrated_pids = some []
  imar2_cpus tid (dst_cpu ∷ cpus) migrated_pids =
      let src_cpu = (process_of tid).pinned_processor in
      elim (tickets_cpu tid dst_cpu) [
        | none ↦ none
        | some dst_tickets ↦ elim (imar2_cpus tid cpus migrated_pids) [
          | none ↦ none
          | some rest ↦ some (imar2_to tid src_cpu dst_cpu dst_tickets migrated_pids ++ rest)
        ]
      ]

  unfoldable pub imar2_get_migration : ℕ → List ℕ → Option (List (MigrationCell R))
  unfolding imar2_cpus
  imar2_get_migration tid migrated_pids =
      imar2_cpus tid (destinations settings readings topology process_of st tid) migrated_pids

  -- get_migration_list of cimar.hpp and of imar2.hpp, which have the loop of lbma.hpp.
  unfoldable pub cimar_get_migration_list :
      List ℕ → List ℕ → Option (List (MigrationCell R) × List ℕ)
  unfolding cimar_get_migration list_from
  cimar_get_migration_list worst_tids migrated_pids =
      list_from settings readings topology process_of st cimar_get_migration worst_tids []
        migrated_pids

  unfoldable pub imar2_get_migration_list :
      List ℕ → List ℕ → Option (List (MigrationCell R) × List ℕ)
  unfolding imar2_get_migration list_from
  imar2_get_migration_list worst_tids migrated_pids =
      list_from settings readings topology process_of st imar2_get_migration worst_tids []
        migrated_pids
