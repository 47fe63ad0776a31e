-- ===== src/Imar/Once.antt =====
-- The migrations that nimar.hpp lists have no thread twice.
use csci555_usc.Base.{
  ℕ, ◌≡◌, refl, sym, ap, ◌∙◌, Bool, true, false, Bool-cases, inl, inr, ◌&&◌, Option, none, some,
  List, [], ◌∷◌, ◌==◌, arith, length, contains, get_or, ltb, map, Nodup, All, All-append, ==→eq,
  max_element,
}
use csci555_usc.Real.{Real}
use csci555_usc.Tickets.{Tickets, Settings, plus_tickets}
use csci555_usc.Threads.{Process, System}
use csci555_usc.Threads.Moves.{non_idle}
use csci555_usc.Migrations.{MigrationCell, Readings, select_migration, tickets_between}
use csci555_usc.Migrations.Select.{select_migration-max_element}
use csci555_usc.Balance.{Topology, best_pid_for_swap_node}
use csci555_usc.Balance.Swaps.{IsBestPid, best_pid-IsBestPid}
use csci555_usc.Schedule.Plan.Once.{planned}
use csci555_usc.Lbma.Once.{Fresh, IsOnce, selected-IsOnce, All-get_elem?}
use csci555_usc.Imar.{
  add_selected, list_worst, worst_migrations, tickets_to_node, gain_swap, gain_to, nimar_nodes,
  nimar_get_migration,
}

-- Where what is found for a thread is a migration of it alone, or with one that was not migrated.
module _ {R : Type 0} ⦃real : Real R⦄ (get : ℕ → List ℕ → List (MigrationCell R))
    (IsElsewhere : ℕ → Type 0)
    (fresh : (tid : ℕ) (migrated : List ℕ)
      → IsElsewhere tid
      → All (Fresh tid migrated) (get tid migrated)) where
  abbrev Listed : List ℕ → List (MigrationCell R) × List ℕ → Type 0
  Listed before r = IsOnce before (planned r.0) r.1

  add_selected-Listed :
      (before : List ℕ) (tid : ℕ) (ms : List (MigrationCell R)) (migrated : List ℕ)
      (o : Option (MigrationCell R))
      → contains tid migrated ≡ false
      → ((m : MigrationCell R) → o ≡ some m → Fresh tid migrated m)
      → IsOnce before (planned ms) migrated
      → Listed before (add_selected get o ms migrated)
  unfolding add_selected
  add_selected-Listed before tid ms migrated none new f once = once
  add_selected-Listed before tid ms migrated (some m) new f once =
      selected-IsOnce before ms migrated tid m new (f m refl) once

  chosen-Fresh :
      (tid : ℕ) (migrated : List ℕ) (m : MigrationCell R)
      → IsElsewhere tid
      → select_migration (λ i. i.tickets.value) (get tid migrated) ≡ some m
      → Fresh tid migrated m
  chosen-Fresh tid migrated m apart h =
      let value : MigrationCell R → R = λ i. i.tickets.value in
      let ms = get tid migrated in
      All-get_elem? (Fresh tid migrated) ms (max_element real.lt (map value ms)) m
        (fresh tid migrated apart) (sym (select_migration-max_element value ms) ∙ h)

  list_worst-Listed :
      (before tids : List ℕ) (ms : List (MigrationCell R)) (migrated : List ℕ)
      → All IsElsewhere tids
      → IsOnce before (planned ms) migrated
      → Listed before (list_worst get tids ms migrated)
  unfolding list_worst
  list_worst-Listed before [] ms migrated apart once = once
  list_worst-Listed before (tid ∷ tids) ms migrated apart once =
      elim (Bool-cases (contains tid migrated)) [
        | inl e ↦ simp e (list_worst-Listed before tids ms migrated apart.1 once)
        | inr e ↦
            let o = select_migration (λ i. i.tickets.value) (get tid migrated) in
            let next = add_selected get o ms migrated in
            simp e (
              list_worst-Listed before tids next.0 next.1 apart.1 (
                add_selected-Listed before tid ms migrated o e
                  (λ m h. chosen-Fresh tid migrated m apart.0 h) once))
      ]

  worst_migrations-Listed :
      (tids migrated : List ℕ)
      → All IsElsewhere tids
      → Listed migrated (worst_migrations get tids migrated)
  unfolding worst_migrations
  worst_migrations-Listed tids migrated apart =
      list_worst-Listed migrated tids [] migrated apart (tt, λ x. refl, λ x h. cc h)

module _ {R : Type 0} ⦃real : Real R⦄ (settings : Settings R) (readings : Readings R)
    (topology : Topology) (process_of : ℕ → Process) (st : System) where
  -- The threads that may be swapped on a node.
  abbrev on_node : ℕ → List ℕ
  on_node node = non_idle readings.is_idle (get_or st.node_tid_map node [])

  -- A thread is on no node but the one that it is pinned to, where no thread has the number 0.
  abbrev pub IsAtHome : ℕ → Type 0
  IsAtHome tid =
      (node : ℕ)
      → (process_of tid).pinned_numa_node == node ≡ false
      → (contains tid (non_idle readings.is_idle (get_or st.node_tid_map node [])) ≡ false)
        × (contains 0 (non_idle readings.is_idle (get_or st.node_tid_map node [])) ≡ false)

  swap_tickets_node : ℕ → ℕ → ℕ → Tickets R
  swap_tickets_node src dst tid =
      tickets_between settings readings tid dst src (
        ltb (length (get_or st.node_tid_map src [])) (length (get_or topology.node_cpu_map src [])))

  gain_swap-Fresh :
      (tid src dst : ℕ) (migrated : List ℕ) (o : Option (ℕ × Tickets R))
      → contains tid (on_node dst) ≡ false
      → IsBestPid readings (swap_tickets_node src dst) migrated (on_node dst) o
      → All (Fresh tid migrated) (
          gain_swap settings readings topology process_of st true
            (tickets_to_node settings readings topology process_of st)
            tid
            src
            dst
            o)
  unfolding gain_swap
  gain_swap-Fresh tid src dst migrated none away best = tt
  gain_swap-Fresh tid src dst migrated (some (s, k)) away best =
      let to = tickets_to_node settings readings topology process_of st in
      elim (Bool-cases (
        real.lt (plus_tickets (to tid src) (to s dst)).value (plus_tickets (to tid dst) k).value)) [
          | inr e ↦ simp e tt
          | inl e ↦ simp e (inr (s, refl, ground (arith, best.1), differs), tt)
        ]
    where
      differs : s == tid ≡ false
      differs = elim (Bool-cases (s == tid)) [
        | inl e ↦ cc (ap (λ i. contains i (on_node dst)) (==→eq s tid e), best.0, away)
        | inr e ↦ e
      ]

  gain_to-Fresh :
      (tid src dst : ℕ) (free : Bool) (migrated : List ℕ)
      → (contains tid (on_node dst) ≡ false) × (contains 0 (on_node dst) ≡ false)
      → All (Fresh tid migrated) (
          gain_to settings readings topology process_of st true
            (tickets_to_node settings readings topology process_of st)
            free
            tid
            src
            dst
            (best_pid_for_swap_node settings readings topology src dst migrated st))
  unfolding gain_to best_pid_for_swap_node swap_tickets_node
  gain_to-Fresh tid src dst free migrated away =
      let to = tickets_to_node settings readings topology process_of st in
      elim (Bool-cases (free && real.lt (to tid src).value (to tid dst).value)) [
        | inl e ↦ simp e (inl refl, tt)
        | inr e ↦ simp e (
            gain_swap-Fresh tid src dst migrated
              (best_pid_for_swap_node settings readings topology src dst migrated st) away.0
              (best_pid-IsBestPid readings (swap_tickets_node src dst) migrated (on_node dst)
                away.1))
      ]

  nimar_nodes-Fresh :
      (tid : ℕ) (nodes migrated : List ℕ)
      → IsAtHome tid
      → All
          (Fresh tid migrated)
          (nimar_nodes settings readings topology process_of st tid nodes migrated)
  unfolding nimar_nodes
  nimar_nodes-Fresh tid [] migrated home = tt
  nimar_nodes-Fresh tid (dst ∷ nodes) migrated home =
      let src = (process_of tid).pinned_numa_node in
      let free =
        ltb (length (get_or st.node_tid_map dst []))
          (length (get_or topology.node_cpu_map dst [])) in
      elim (Bool-cases (src == dst)) [
        | inl e ↦ simp e (nimar_nodes-Fresh tid nodes migrated home)
        | inr e ↦ simp e (
            All-append (Fresh tid migrated)
              (gain_to settings readings topology process_of st true
                (tickets_to_node settings readings topology process_of st) free tid src dst
                (best_pid_for_swap_node settings readings topology src dst migrated st))
              (nimar_nodes settings readings topology process_of st tid nodes migrated)
              (gain_to-Fresh tid src dst free migrated (home dst e))
              (nimar_nodes-Fresh tid nodes migrated home))
      ]

  nimar-Fresh :
      (tid : ℕ) (migrated : List ℕ)
      → IsAtHome tid
      → All
          (Fresh tid migrated)
          (nimar_get_migration settings readings topology process_of st tid migrated)
  unfolding nimar_get_migration
  nimar-Fresh tid migrated home =
      nimar_nodes-Fresh tid (get_or topology.nodes_by_distance (process_of tid).pinned_numa_node [])
        migrated home

  -- For threads each of which is listed on no node but the one that it is pinned to, where no thread
  -- has the number 0: no thread is in two of the migrations that nimar.hpp lists, and none is in one
  -- that was known as migrated before.
  pub worst_migrations-Nodup :
      (worst_tids migrated_pids : List ℕ)
      → All IsAtHome worst_tids
      → let r =
          worst_migrations
            (nimar_get_migration settings readings topology process_of st)
            worst_tids
            migrated_pids in
        Nodup (planned r.0)
        × ((x : ℕ) → contains x (planned r.0) ≡ true → contains x migrated_pids ≡ false)
  worst_migrations-Nodup worst_tids migrated_pids home =
      let once =
        worst_migrations-Listed (nimar_get_migration settings readings topology process_of st)
          IsAtHome nimar-Fresh worst_tids migrated_pids home in
      (once.0, once.2)
