-- ===== src/Schedule/Plan.antt =====
-- The migrations that are planned for a schedule, schedule_t::migrations of
-- src/migration/strategies/thread_strategy.hpp. What the system tells of its nodes now is a parameter;
-- `at` of a node that the schedule does not have raises an exception.
pub mod Once
pub mod Returns
use csci555_usc.Base.{
  ℕ, Bool, true, false, not, ◌&&◌, ◌||◌, Option, none, some, List, [], ◌∷◌, ◌++◌, ◌==◌, ltb,
  if◌then◌else◌, length, contains, insert,
}
use csci555_usc.Real.{Real}
use csci555_usc.Tickets.{Tickets, Settings, plus_tickets, no_tickets}
use csci555_usc.Pages.Table.{find}
use csci555_usc.Threads.Cells.{SimpleCell}
use csci555_usc.Migrations.{
  MigrationCell, Readings, is_under_performance, tickets_rm3d, tickets_pref_node,
  tickets_under_performance,
}
use csci555_usc.Schedule.{Thread, change_node}

-- What is read of the nodes.
pub record Nodes : Type 0 where
  pub num_of_cpus : ℕ → ℕ
  pub cpus_per_node : ℕ
  pub non_idle_tids_from_node : ℕ → List ℕ

-- The locals of the loop over the threads, and the sets of the nodes.
pub record Plan (R : Type 0) : Type 0 where
  pub mig : List (MigrationCell R)
  pub migrated_tids : List ℕ
  pub node_tid_map : List (ℕ × List ℕ)

any_going : ℕ → List Thread → Bool
any_going node [] = false
any_going node (t ∷ threads) = t.dst_node == node || any_going node threads

module _ {R : Type 0} ⦃real : Real R⦄ (settings : Settings R) (readings : Readings R)
    (performance_of : ℕ → R) (nodes : Nodes) where
  open real use {lt}

  -- The thread found so far, and its tickets.
  swap_from :
      (ℕ → Tickets R) → List ℕ → Bool → List ℕ → Option ℕ → Tickets R → Option (ℕ × Tickets R)
  swap_from tickets_of migrated_tids any [] none swap_tickets = none
  swap_from tickets_of migrated_tids any [] (some tid) swap_tickets = some (tid, swap_tickets)
  swap_from tickets_of migrated_tids any (aux_tid ∷ tids) swap_tid swap_tickets =
      let better =
        readings.is_migratable aux_tid
        && not (contains aux_tid migrated_tids)
        && any
        && lt swap_tickets.value (tickets_of aux_tid).value in
      swap_from tickets_of migrated_tids any tids (if better then some aux_tid else swap_tid)
        (if better then tickets_of aux_tid else swap_tickets)

  abbrev pub plan_cell : ℕ → ℕ → ℕ → SimpleCell R
  plan_cell tid dest prev = record {
    tid = tid;
    pid = readings.pid_from_tid tid;
    dest = dest;
    prev = prev;
    node = true;
    prev_perf = performance_of tid;
  }

  -- The tickets of a thread, `count` of them are in its destination.
  pub plan_tickets : Thread → ℕ → Tickets R
  unfolding tickets_rm3d tickets_pref_node plus_tickets is_under_performance
  plan_tickets t1 count =
      let tickets =
        plus_tickets (tickets_rm3d settings readings t1.tid t1.src_node t1.dst_node)
          (tickets_pref_node settings readings t1.tid t1.dst_node) in
      let with_core =
        if ltb count (nodes.num_of_cpus t1.dst_node)
        then plus_tickets tickets settings.free_core
        else tickets in
      if is_under_performance settings readings t1.tid
      then plus_tickets with_core settings.under_perf
      else with_core

  -- The thread to swap with in the destination.
  pub find_swap : List Thread → Thread → List ℕ → Option (ℕ × Tickets R)
  unfolding swap_from tickets_rm3d tickets_pref_node plus_tickets tickets_under_performance
      any_going
  find_swap threads t1 migrated_tids =
      swap_from
        (λ aux_tid.
          plus_tickets
            (plus_tickets (tickets_rm3d settings readings aux_tid t1.dst_node t1.src_node)
              (tickets_pref_node settings readings aux_tid t1.src_node))
            (tickets_under_performance settings readings aux_tid))
        migrated_tids (any_going t1.src_node threads) (nodes.non_idle_tids_from_node t1.dst_node)
        none no_tickets

  -- A migration to a free core, or an interchange if a thread was found.
  pub plan_simple : Thread → Tickets R → Plan R → Plan R
  unfolding insert change_node
  plan_simple t1 tickets plan = record {
    mig =
        plan.mig
        ++ record { migrations = plan_cell t1.tid t1.dst_node t1.src_node ∷ []; tickets = tickets }
          ∷ [];
    migrated_tids = insert t1.tid plan.migrated_tids;
    node_tid_map = change_node t1.dst_node (insert t1.tid) plan.node_tid_map;
  }

  pub plan_swap : Thread → Tickets R → Option (ℕ × Tickets R) → Plan R → Plan R
  unfolding insert plus_tickets
  plan_swap t1 tickets none plan = plan
  plan_swap t1 tickets (some (swap_tid, swap_tickets)) plan = record plan {
    mig =
        plan.mig
        ++ record {
          migrations =
              plan_cell t1.tid t1.dst_node t1.src_node
              ∷ plan_cell swap_tid t1.src_node t1.dst_node
              ∷ [];
          tickets = plus_tickets tickets swap_tickets;
        }
          ∷ [];
    migrated_tids = insert swap_tid (insert t1.tid plan.migrated_tids);
  }

  pub plan_one : List Thread → Thread → Plan R → Option (Plan R)
  unfolding find plan_tickets find_swap plan_simple plan_swap
  plan_one threads t1 plan =
      if t1.src_node == t1.dst_node || contains t1.tid plan.migrated_tids
      then some plan
      else elim (find t1.dst_node plan.node_tid_map) [
        | none ↦ none
        | some tids ↦
            let tickets = plan_tickets t1 (length tids) in
            if ltb (length tids) nodes.cpus_per_node
            then some (plan_simple t1 tickets plan)
            else some (plan_swap t1 tickets (find_swap threads t1 plan.migrated_tids) plan)
      ]

  pub plan_from : List Thread → List Thread → Plan R → Option (Plan R)
  unfolding plan_one
  plan_from threads [] plan = some plan
  plan_from threads (t1 ∷ rest) plan = elim (plan_one threads t1 plan) [
    | none ↦ none
    | some plan' ↦ plan_from threads rest plan'
  ]

  -- The migrations and the sets of the schedule after them.
  unfoldable pub migrations : List Thread → List (ℕ × List ℕ) → Option (Plan R)
  unfolding plan_from
  migrations threads node_tid_map =
      plan_from threads threads
        (record { mig = []; migrated_tids = []; node_tid_map = node_tid_map })
