-- ===== src/Imar/Gain.antt =====
-- The migrations that nimar.hpp lists have more tickets than their threads have where they are.
use csci555_usc.Base.{
  ℕ, ◌≡◌, refl, sym, ◌∙◌, Bool, true, Bool-cases, inl, inr, ◌&&◌, Option, none, some, List, [], ◌∷◌,
  ◌==◌, arith, get_or, length, contains, map, All, All-append, max_element, ltb,
}
use csci555_usc.Real.{Real}
use csci555_usc.Tickets.{Tickets, Settings, plus_tickets}
use csci555_usc.Threads.{Process, System}
use csci555_usc.Threads.Cells.{SimpleCell}
use csci555_usc.Migrations.{MigrationCell, Readings, select_migration}
use csci555_usc.Migrations.Select.{select_migration-max_element}
use csci555_usc.Balance.{Topology, best_pid_for_swap_node}
use csci555_usc.Lbma.Once.{All-get_elem?}
use csci555_usc.Imar.{
  add_selected, list_worst, worst_migrations, tickets_to_node, gain_swap, gain_to, nimar_nodes,
  nimar_get_migration,
}

-- What holds of all migrations that are found holds of those that are listed.
module _ {R : Type 0} ⦃real : Real R⦄ (get : ℕ → List ℕ → List (MigrationCell R))
    (P : MigrationCell R → Type 0)
    (all : (tid : ℕ) (migrated : List ℕ) → All P (get tid migrated)) where
  selected_holds :
      (tid : ℕ) (migrated : List ℕ) (m : MigrationCell R)
      → select_migration (λ i. i.tickets.value) (get tid migrated) ≡ some m
      → P m
  selected_holds tid migrated m h =
      let value : MigrationCell R → R = λ i. i.tickets.value in
      let ms = get tid migrated in
      All-get_elem? P ms (max_element real.lt (map value ms)) m (all tid migrated)
        (sym (select_migration-max_element value ms) ∙ h)

  add_holds :
      (o : Option (MigrationCell R)) (ms : List (MigrationCell R)) (migrated : List ℕ)
      → ((m : MigrationCell R) → o ≡ some m → P m)
      → All P ms
      → All P (add_selected get o ms migrated).0
  unfolding add_selected
  add_holds none ms migrated h before = before
  add_holds (some m) ms migrated h before = All-append P ms (m ∷ []) before (h m refl, tt)

  list_holds :
      (tids : List ℕ) (ms : List (MigrationCell R)) (migrated : List ℕ)
      → All P ms
      → All P (list_worst get tids ms migrated).0
  unfolding list_worst
  list_holds [] ms migrated before = before
  list_holds (tid ∷ tids) ms migrated before = elim (Bool-cases (contains tid migrated)) [
    | inl e ↦ simp e (list_holds tids ms migrated before)
    | inr e ↦
        let o = select_migration (λ i. i.tickets.value) (get tid migrated) in
        let next = add_selected get o ms migrated in
        simp e (
          list_holds tids next.0 next.1
            (add_holds o ms migrated (selected_holds tid migrated) before))
  ]

  pub worst_migrations_hold :
      (tids migrated : List ℕ) → All P (worst_migrations get tids migrated).0
  unfolding worst_migrations
  worst_migrations_hold tids migrated = list_holds tids [] migrated tt

module _ {R : Type 0} ⦃real : Real R⦄ where
  open real use {lt, of_nat}

  -- The tickets of the threads of a migration for where they are.
  pub tickets_now : (ℕ → ℕ → Tickets R) → List (SimpleCell R) → R
  tickets_now tickets_to [] = of_nat 0
  tickets_now tickets_to (c ∷ []) = (tickets_to c.tid c.prev).value
  tickets_now tickets_to (c ∷ d ∷ cs) =
      (plus_tickets (tickets_to c.tid c.prev) (tickets_to d.tid d.prev)).value

  -- A migration has more tickets than its threads have now.
  abbrev pub IsGain : (ℕ → ℕ → Tickets R) → MigrationCell R → Type 0
  IsGain tickets_to m = lt (tickets_now tickets_to m.migrations) m.tickets.value ≡ true

module _ {R : Type 0} ⦃real : Real R⦄ (settings : Settings R) (readings : Readings R)
    (topology : Topology) (process_of : ℕ → Process) (st : System) where
  open real use {lt}

  gain_swap-IsGain :
      (node : Bool) (tickets_to : ℕ → ℕ → Tickets R) (tid src dst : ℕ) (o : Option (ℕ × Tickets R))
      → All
          (IsGain tickets_to)
          (gain_swap settings readings topology process_of st node tickets_to tid src dst o)
  unfolding gain_swap tickets_now
  gain_swap-IsGain node tickets_to tid src dst none = tt
  gain_swap-IsGain node tickets_to tid src dst (some (s, k)) =
      elim (Bool-cases (
        lt (plus_tickets (tickets_to tid src) (tickets_to s dst)).value
          (plus_tickets (tickets_to tid dst) k).value)) [
            | inl e ↦ simp e (refl, tt)
            | inr e ↦ simp e tt
          ]

  gain_to-IsGain :
      (node : Bool) (tickets_to : ℕ → ℕ → Tickets R) (free : Bool) (tid src dst : ℕ)
      (o : Option (ℕ × Tickets R))
      → All
          (IsGain tickets_to)
          (gain_to settings readings topology process_of st node tickets_to free tid src dst o)
  unfolding gain_to tickets_now
  gain_to-IsGain node tickets_to free tid src dst o =
      elim (Bool-cases (free && lt (tickets_to tid src).value (tickets_to tid dst).value)) [
        | inl e ↦ simp e (ground (arith, e), tt)
        | inr e ↦ simp e (gain_swap-IsGain node tickets_to tid src dst o)
      ]

  nimar_nodes-IsGain :
      (tid : ℕ) (nodes migrated : List ℕ)
      → All
          (IsGain (tickets_to_node settings readings topology process_of st))
          (nimar_nodes settings readings topology process_of st tid nodes migrated)
  unfolding nimar_nodes
  nimar_nodes-IsGain tid [] migrated = tt
  nimar_nodes-IsGain tid (dst ∷ nodes) migrated =
      let src = (process_of tid).pinned_numa_node in
      let to = tickets_to_node settings readings topology process_of st in
      let free =
        ltb (length (get_or st.node_tid_map dst []))
          (length (get_or topology.node_cpu_map dst [])) in
      let o = best_pid_for_swap_node settings readings topology src dst migrated st in
      elim (Bool-cases (src == dst)) [
        | inl e ↦ simp e (nimar_nodes-IsGain tid nodes migrated)
        | inr e ↦ simp e (
            All-append (IsGain to)
              (gain_to settings readings topology process_of st true to free tid src dst o)
              (nimar_nodes settings readings topology process_of st tid nodes migrated)
              (gain_to-IsGain true to free tid src dst o) (nimar_nodes-IsGain tid nodes migrated))
      ]

  nimar_all :
      (tid : ℕ) (migrated : List ℕ)
      → All
          (IsGain (tickets_to_node settings readings topology process_of st))
          (nimar_get_migration settings readings topology process_of st tid migrated)
  unfolding nimar_get_migration
  nimar_all tid migrated =
      nimar_nodes-IsGain tid
        (get_or topology.nodes_by_distance (process_of tid).pinned_numa_node []) migrated

  -- Every migration that nimar.hpp lists has more tickets than its threads have for the nodes where
  -- they are.
  pub worst_migrations-IsGain :
      (worst_tids migrated_pids : List ℕ)
      → All
          (IsGain (tickets_to_node settings readings topology process_of st))
          (worst_migrations
            (nimar_get_migration settings readings topology process_of st)
            worst_tids
            migrated_pids).0
  worst_migrations-IsGain worst_tids migrated_pids =
      worst_migrations_hold (nimar_get_migration settings readings topology process_of st)
        (IsGain (tickets_to_node settings readings topology process_of st)) nimar_all worst_tids
        migrated_pids
