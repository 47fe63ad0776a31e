-- ===== src/Schedule.antt =====
-- A planned placement of threads on nodes, mapping::thread_t and mapping::schedule_t of
-- src/migration/strategies/thread_strategy.hpp. The map from nodes to threads is an association list;
-- `at` of a node that it does not have raises an exception, `[]` makes an empty set for it.
pub mod Nodes
pub mod Placed
pub mod Exchange
pub mod Cached
pub mod Plan
mod Tests
use csci555_usc.Base.{
  ℕ, zero, suc, ◌+◌, ◌≡◌, Bool, true, false, not, ◌&&◌, ◌||◌, Option, none, some, List, [], ◌∷◌,
  ◌++◌, ◌==◌, ltb, if◌then◌else◌, length, contains, insert, erase, get_elem?, get_or,
}
use csci555_usc.Real.{Real}
use csci555_usc.Tickets.{Tickets, Settings, plus_tickets, no_tickets}
use csci555_usc.Pages.Table.{find, modify}
use csci555_usc.Threads.Cells.{SimpleCell}
use csci555_usc.Migrations.{
  MigrationCell, Readings, tickets_rm3d, tickets_pref_node, tickets_under_performance,
}

pub record Thread : Type 0 where
  pub tid : ℕ
  pub src_node : ℕ
  pub dst_node : ℕ

-- The schedule with the results that it keeps: `none` is a flag that is not set.
pub record Schedule (R : Type 0) : Type 0 where
  pub threads : List Thread
  pub node_tid_map : List (ℕ × List ℕ)
  pub expected_tickets : Option R
  pub expected_perf : Option R

-- `node_tid_map_[node]`, changed.
unfoldable pub change_node : ℕ → (List ℕ → List ℕ) → List (ℕ × List ℕ) → List (ℕ × List ℕ)
change_node node f [] = (node, f []) ∷ []
change_node node f ((n, tids) ∷ sets) =
    if node == n then (n, f tids) ∷ sets else (n, tids) ∷ change_node node f sets

-- The first thread with a number, and the threads with its destination changed.
unfoldable pub find_thread : ℕ → List Thread → Option Thread
find_thread tid [] = none
find_thread tid (t ∷ threads) = if tid == t.tid then some t else find_thread tid threads

unfoldable pub send : ℕ → ℕ → List Thread → List Thread
send tid node [] = []
send tid node (t ∷ threads) =
    if tid == t.tid then record t { dst_node = node } ∷ threads else t ∷ send tid node threads

module _ (is_idle : ℕ → Bool) where
  place_all : List Thread → List (ℕ × List ℕ) → List (ℕ × List ℕ)
  unfolding change_node insert
  place_all [] sets = sets
  place_all (t ∷ threads) sets =
      place_all threads
        (if not (is_idle t.tid) then change_node t.dst_node (insert t.tid) sets else sets)

module _ {R : Type 0} where
  module _ (is_idle : ℕ → Bool) where
    -- The constructor.
    unfoldable pub new_schedule : List Thread → Schedule R
    unfolding place_all
    new_schedule threads = record {
      threads = threads;
      node_tid_map = place_all is_idle threads [];
      expected_tickets = none;
      expected_perf = none;
    }

    unfoldable pub migrate : ℕ → ℕ → Schedule R → Bool × Schedule R
    unfolding find_thread send change_node erase insert
    migrate tid dst s = elim (find_thread tid s.threads) [
      | none ↦ (false, record s { expected_tickets = none; expected_perf = none })
      | some t ↦ (
        true,
        record s {
          threads = send tid dst s.threads;
          node_tid_map =
              if not (is_idle t.tid)
              then change_node dst (insert t.tid)
                  (change_node t.dst_node (erase t.tid) s.node_tid_map)
              else s.node_tid_map;
          expected_tickets = none;
          expected_perf = none;
        },
      )
    ]

  unfoldable pub interchange : ℕ → ℕ → Schedule R → Bool × Schedule R
  unfolding find_thread send change_node erase insert
  interchange tid_1 tid_2 s =
      let reset = record s { expected_tickets = none; expected_perf = none } in
      elim (find_thread tid_1 s.threads) [
        | none ↦ (false, reset)
        | some t1 ↦ elim (find_thread tid_2 s.threads) [
          | none ↦ (false, reset)
          | some t2 ↦
              let first =
                change_node t2.dst_node (insert t1.tid)
                  (change_node t1.dst_node (erase t1.tid) s.node_tid_map) in
              (
                true,
                record reset {
                  threads = send tid_2 t1.dst_node (send tid_1 t2.dst_node s.threads);
                  node_tid_map =
                      change_node t1.dst_node (insert t2.tid)
                        (change_node t2.dst_node (erase t2.tid) first);
                },
              )
        ]
      ]

  unfoldable pub n_threads_in_node : ℕ → Schedule R → Option ℕ
  unfolding find
  n_threads_in_node node s = elim (find node s.node_tid_map) [
    | none ↦ none
    | some tids ↦ some (length tids)
  ]

module _ {R : Type 0} ⦃real : Real R⦄ where
  open real use {plus}

  pub sum_of : (Thread → R) → List Thread → R → R
  sum_of value [] total = total
  sum_of value (t ∷ threads) total = sum_of value threads (plus total (value t))

module _ {R : Type 0} ⦃real : Real R⦄ (settings : Settings R) (readings : Readings R) where
  open real use {of_nat}

  -- thread_t::expected_tickets
  unfoldable pub thread_tickets : Thread → Tickets R
  unfolding tickets_rm3d tickets_pref_node plus_tickets
  thread_tickets t =
      plus_tickets (tickets_rm3d settings readings t.tid t.src_node t.dst_node)
        (tickets_pref_node settings readings t.tid t.dst_node)

  -- expected_tickets with compute_expected_tickets.
  unfoldable pub read_expected_tickets : Schedule R → R × Schedule R
  unfolding sum_of thread_tickets
  read_expected_tickets s = elim s.expected_tickets [
    | some v ↦ (v, s)
    | none ↦
        let v = sum_of (λ t. (thread_tickets t).value) s.threads (of_nat 0) in
        (v, record s { expected_tickets = some v })
  ]

  -- expected_perf with compute_expected_performance, of the performance expected of a thread.
  unfoldable pub read_expected_perf : (Thread → R) → Schedule R → R × Schedule R
  unfolding sum_of
  read_expected_perf expected_perf s = elim s.expected_perf [
    | some v ↦ (v, s)
    | none ↦
        let v = sum_of expected_perf s.threads (of_nat 0) in
        (v, record s { expected_perf = some v })
  ]
