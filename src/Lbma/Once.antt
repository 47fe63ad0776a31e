-- ===== src/Lbma/Once.antt =====
-- The migrations that the strategy selects have no thread twice.
use mathlib.Core.List.{append_assoc}
use csci555_usc.Base.{
  ℕ, zero, suc, ◌<◌, ltb, ◌≡◌, refl, sym, ap, subst, ◌∙◌, ◌⊎◌, Bool, true, false, Bool-cases, inl,
  inr, ◌||◌, Option, none, some, List, [], ◌∷◌, ◌++◌, ◌==◌, arith, length, contains, get_or,
  get_elem?, insert_all, contains-insert_all, contains-append, map, Nodup, All, All-append, ==→eq,
  max_element,
}
use csci555_usc.Real.{Real}
use csci555_usc.Tickets.{Tickets, Settings}
use csci555_usc.Threads.{Process, System}
use csci555_usc.Threads.Moves.{non_idle}
use csci555_usc.Threads.Cells.{SimpleCell, tids_involved, involves, contains-tids_involved}
use csci555_usc.Migrations.{MigrationCell, Readings, select_migration, tickets_between}
use csci555_usc.Migrations.Select.{select_migration-max_element}
use csci555_usc.Balance.{Topology, best_pid_for_swap_cpu}
use csci555_usc.Balance.Swaps.{IsBestPid, swap_tickets_cpu, best_pid_for_swap_cpu-IsBestPid}
use csci555_usc.Schedule.Plan.Once.{planned, planned-append, snoc-Nodup}
use csci555_usc.Lbma.{
  interchanges, migrations_with, in_nodes, migrations_to_all, destinations, get_migration, selected,
  list_from, get_migration_list, tickets_to_cpu,
}

-- The threads of a migration.
abbrev pub tids_of : {R : Type 0} → MigrationCell R → List ℕ
tids_of m = map (λ c. c.tid) m.migrations

involves-contains :
    {R : Type 0} (x : ℕ) (cs : List (SimpleCell R))
    → involves x cs ≡ contains x (map (λ c. c.tid) cs)
involves-contains x [] = refl
involves-contains x (c ∷ cs) = ap (λ b. x == c.tid || b) (involves-contains x cs)

module _ {R : Type 0} where
  -- A migration of a thread alone, or with another one that was not migrated.
  abbrev pub Fresh : ℕ → List ℕ → MigrationCell R → Type 0
  Fresh tid migrated m =
      (tids_of m ≡ tid ∷ [])
      ⊎ ((s : ℕ) × (tids_of m ≡ tid ∷ s ∷ []) × (contains s migrated ≡ false) × (s == tid ≡ false))

  pub All-get_elem? :
      (P : MigrationCell R → Type 0) (ms : List (MigrationCell R)) (i : ℕ) (m : MigrationCell R)
      → All P ms
      → get_elem? ms i ≡ some m
      → P m
  All-get_elem? P [] i m all h = cc
  All-get_elem? P (x ∷ ms) zero m all h = subst P (some_injective x m h) all.0
    where
      some_injective : (a b : MigrationCell R) → some a ≡ some b → a ≡ b
      some_injective a b p = cc p
  All-get_elem? P (x ∷ ms) (suc i) m all h = All-get_elem? P ms i m all.1 h

-- Different threads, none of them migrated before, which are those that were migrated since.
abbrev pub IsOnce : List ℕ → List ℕ → List ℕ → Type 0
IsOnce before tids migrated =
    Nodup tids
    × ((x : ℕ) → contains x migrated ≡ (contains x tids || contains x before))
    × ((x : ℕ) → contains x tids ≡ true → contains x before ≡ false)

-- One more thread.
more-IsOnce :
    (before tids migrated migrated' : List ℕ) (a : ℕ)
    → contains a migrated ≡ false
    → ((x : ℕ) → contains x migrated' ≡ (x == a || contains x migrated))
    → IsOnce before tids migrated
    → IsOnce before (tids ++ a ∷ []) migrated'
more-IsOnce before tids migrated migrated' a new grown (d, known, apart) = (
  snoc-Nodup tids a d (ground (arith, known a, new)),
  λ x. ground (arith, grown x, known x, contains-append x tids (a ∷ [])),
  λ x h. elim (Bool-cases (x == a)) [
    | inl e ↦ ap (λ i. contains i before) (==→eq x a e) ∙ ground (arith, known a, new)
    | inr e ↦ apart x (ground (arith, contains-append x tids (a ∷ []), h, e))
  ],
)

module _ {R : Type 0} (before : List ℕ) (migrations : List (MigrationCell R))
    (migrated : List ℕ) where
  -- What is known as migrated after a migration was selected.
  grown :
      (m : MigrationCell R) (x : ℕ)
      → contains x (insert_all (tids_involved m.migrations) migrated)
        ≡ (contains x (tids_of m) || contains x migrated)
  grown m x =
      contains-insert_all (tids_involved m.migrations) x migrated
      ∙ ap (λ b. b || contains x migrated)
          (contains-tids_involved x m.migrations ∙ involves-contains x m.migrations)

  pub selected-IsOnce :
      (tid : ℕ) (m : MigrationCell R)
      → contains tid migrated ≡ false
      → Fresh tid migrated m
      → IsOnce before (planned migrations) migrated
      → IsOnce before
          (planned (migrations ++ m ∷ []))
          (insert_all (tids_involved m.migrations) migrated)
  selected-IsOnce tid m new (inl e) once =
      let migrated' = insert_all (tids_involved m.migrations) migrated in
      subst (λ l. IsOnce before l migrated')
        (ap (λ l. planned migrations ++ l) (sym e) ∙ sym (planned-append migrations m))
        (more-IsOnce before (planned migrations) migrated migrated' tid new
          (λ x.
            grown m x
            ∙ ap (λ l. contains x l || contains x migrated) e
            ∙ single (x == tid) (contains x migrated))
          once)
    where
      single : (a b : Bool) → ((a || false) || b) ≡ (a || b)
      single true b = refl
      single false b = refl
  selected-IsOnce tid m new (inr (s, e, fresh, apart)) once =
      let migrated' = insert_all (tids_involved m.migrations) migrated in
      let middle = insert_all (tid ∷ []) migrated in
      let to_middle = λ (x : ℕ). contains-insert_all (tid ∷ []) x migrated in
      let first =
        more-IsOnce before (planned migrations) migrated middle tid new
          (λ x. ground (arith, to_middle x)) once in
      let second =
        more-IsOnce before (planned migrations ++ tid ∷ []) middle migrated' s
          (ground (arith, to_middle s, fresh, apart))
          (λ x.
            grown m x
            ∙ ap (λ l. contains x l || contains x migrated) e
            ∙ ground (arith, to_middle x))
          first in
      subst (λ l. IsOnce before l migrated')
        (append_assoc (planned migrations) (tid ∷ []) (s ∷ [])
          ∙ ap (λ l. planned migrations ++ l) (sym e)
          ∙ sym (planned-append migrations m))
        second

module _ {R : Type 0} ⦃real : Real R⦄ (settings : Settings R) (readings : Readings R)
    (topology : Topology) (process_of : ℕ → Process) (st : System) where
  -- The threads that may be swapped on a processor.
  abbrev there : ℕ → List ℕ
  there cpu = non_idle readings.is_idle (get_or st.cpu_tid_map cpu [])

  -- A thread is not on a processor, where no thread has the number 0.
  abbrev pub IsApart : ℕ → ℕ → Type 0
  IsApart tid cpu =
      (contains tid (non_idle readings.is_idle (get_or st.cpu_tid_map cpu [])) ≡ false)
      × (contains 0 (non_idle readings.is_idle (get_or st.cpu_tid_map cpu [])) ≡ false)

  interchanges-Fresh :
      (tid cpu : ℕ) (k : Tickets R) (migrated : List ℕ) (o : Option (ℕ × Tickets R))
      → IsApart tid cpu
      → IsBestPid readings
          (swap_tickets_cpu settings readings st (process_of tid).pinned_processor cpu)
          migrated
          (there cpu)
          o
      → All (Fresh tid migrated) (interchanges settings readings topology process_of st tid cpu k o)
  unfolding interchanges
  interchanges-Fresh tid cpu k migrated none apart best = tt
  interchanges-Fresh tid cpu k migrated (some (s, t)) apart best =
      (inr (s, refl, ground (arith, best.1), differs), tt)
    where
      differs : s == tid ≡ false
      differs = elim (Bool-cases (s == tid)) [
        | inl e ↦ cc (ap (λ i. contains i (there cpu)) (==→eq s tid e), best.0, apart.0)
        | inr e ↦ e
      ]

  migrations_with-Fresh :
      (tid cpu : ℕ) (migrated : List ℕ) (k : Tickets R)
      → IsApart tid cpu
      → All
          (Fresh tid migrated)
          (migrations_with settings readings topology process_of st tid cpu migrated k)
  unfolding migrations_with
  migrations_with-Fresh tid cpu migrated k apart =
      elim (Bool-cases (length (get_or st.cpu_tid_map cpu []) == 0)) [
        | inl e ↦ simp e (inl refl, tt)
        | inr e ↦ simp e (
            interchanges-Fresh tid cpu k migrated
              (best_pid_for_swap_cpu settings readings (process_of tid).pinned_processor cpu
                migrated st)
              apart
              (best_pid_for_swap_cpu-IsBestPid settings readings (process_of tid).pinned_processor
                cpu migrated st apart.1))
      ]

  -- The reads for the tickets of a thread and a processor are in bounds.
  abbrev pub IsRead : ℕ → ℕ → Type 0
  IsRead tid cpu =
      ((process_of tid).pinned_processor < length topology.node_cpu_map)
      × (cpu < length topology.node_cpu_map)
      × (cpu < length st.node_tid_map)

  tickets_read :
      (tid cpu : ℕ)
      → IsRead tid cpu
      → (k : Tickets R) × (tickets_to_cpu settings readings topology process_of st tid cpu ≡ some k)
  unfolding tickets_to_cpu in_nodes
  tickets_read tid cpu (a, b, c) =
      let free =
        ltb (length (get_or st.node_tid_map cpu []))
          (length (get_or topology.node_cpu_map cpu [])) in
      let within : in_nodes settings readings topology process_of st tid
            (process_of tid).pinned_processor cpu
          ≡ true =
        ground (arith, a, b, c) in
      (
        tickets_between settings readings tid (process_of tid).pinned_processor cpu free,
        simp within refl,
      )

  -- The migrations to processors whose tickets can be read, and no thread in them was migrated.
  migrations_to_all-Fresh :
      (tid : ℕ) (cpus migrated : List ℕ)
      → All (IsApart tid) cpus
      → All (IsRead tid) cpus
      → (ms : List (MigrationCell R)) × (migrations_to_all settings readings topology process_of st
            tid cpus migrated
          ≡ some ms)
        × All (Fresh tid migrated) ms
  unfolding migrations_to_all
  migrations_to_all-Fresh tid [] migrated apart read = ([], refl, tt)
  migrations_to_all-Fresh tid (cpu ∷ cpus) migrated apart read =
      let k = tickets_read tid cpu read.0 in
      let rest = migrations_to_all-Fresh tid cpus migrated apart.1 read.1 in
      let first = migrations_with settings readings topology process_of st tid cpu migrated k.0 in
      (
        first ++ rest.0,
        rw (migrations_to_all, k.1, rest.1) refl,
        All-append (Fresh tid migrated) first rest.0
            (migrations_with-Fresh tid cpu migrated k.0 apart.0) rest.2,
      )

  -- A thread is on none of the processors that it may be migrated to, and their tickets can be read.
  abbrev pub IsElsewhere : ℕ → Type 0
  IsElsewhere tid =
      All (IsApart tid) (destinations settings readings topology process_of st tid)
      × All (IsRead tid) (destinations settings readings topology process_of st tid)

  abbrev value : MigrationCell R → R
  value m = m.tickets.value

  get_migration-Fresh :
      (tid : ℕ) (migrated : List ℕ)
      → IsElsewhere tid
      → (ms : List (MigrationCell R)) × (get_migration settings readings topology process_of st tid
            migrated
          ≡ some ms)
        × All (Fresh tid migrated) ms
  unfolding get_migration
  get_migration-Fresh tid migrated (apart, read) =
      migrations_to_all-Fresh tid (destinations settings readings topology process_of st tid)
        migrated apart read

  choice-Fresh :
      (tid : ℕ) (migrated : List ℕ) (ms : List (MigrationCell R)) (m : MigrationCell R)
      → All (Fresh tid migrated) ms
      → select_migration value ms ≡ some m
      → Fresh tid migrated m
  choice-Fresh tid migrated ms m fresh h =
      All-get_elem? (Fresh tid migrated) ms (max_element real.lt (map value ms)) m fresh
        (sym (select_migration-max_element value ms) ∙ h)

  chosen-IsOnce :
      (before : List ℕ) (tid : ℕ) (migrations : List (MigrationCell R)) (migrated : List ℕ)
      (o : Option (MigrationCell R))
      → contains tid migrated ≡ false
      → ((m : MigrationCell R) → o ≡ some m → Fresh tid migrated m)
      → IsOnce before (planned migrations) migrated
      → let r = selected settings readings topology process_of st o migrations migrated in
        IsOnce before (planned r.0) r.1
  unfolding selected
  chosen-IsOnce before tid migrations migrated none new fresh once = once
  chosen-IsOnce before tid migrations migrated (some m) new fresh once =
      selected-IsOnce before migrations migrated tid m new (fresh m refl) once

  -- The loop returns migrations and the threads known as migrated, after those of before.
  abbrev Lists : List ℕ → Option (List (MigrationCell R) × List ℕ) → Type 0
  Lists before o =
      (r : List (MigrationCell R) × List ℕ) × (o ≡ some r) × IsOnce before (planned r.0) r.1

  list_from-Lists :
      (before tids : List ℕ) (migrations : List (MigrationCell R)) (migrated : List ℕ)
      → All IsElsewhere tids
      → IsOnce before (planned migrations) migrated
      → Lists before (
          list_from settings readings topology process_of st
            (get_migration settings readings topology process_of st)
            tids
            migrations
            migrated)
  unfolding list_from
  list_from-Lists before [] migrations migrated apart once = ((migrations, migrated), refl, once)
  list_from-Lists before (tid ∷ tids) migrations migrated apart once =
      elim (Bool-cases (contains tid migrated)) [
        | inl e ↦
            let rest = list_from-Lists before tids migrations migrated apart.1 once in
            (rest.0, rw (list_from, e) rest.1, rest.2)
        | inr e ↦
            let found = get_migration-Fresh tid migrated apart.0 in
            let next =
              selected settings readings topology process_of st (select_migration value found.0)
                migrations migrated in
            let rest = list_from-Lists before tids next.0 next.1 apart.1 (
              chosen-IsOnce before tid migrations migrated (select_migration value found.0) e
                (λ m h. choice-Fresh tid migrated found.0 m found.2 h) once) in
            (rest.0, rw (list_from, e, found.1) rest.1, rest.2)
      ]

  -- For threads none of which is on a processor that it may be migrated to, where no thread has the
  -- number 0, and for which the numbers of these processors and of its own are in the bounds of the
  -- vectors over the nodes: the strategy reads nothing out of bounds and lists migrations, no thread is
  -- in two of them, and none is in one that was known as migrated before.
  pub get_migration_list-Nodup :
      (worst_tids migrated_pids : List ℕ)
      → All IsElsewhere worst_tids
      → (r : List (MigrationCell R) × List ℕ) × (get_migration_list settings readings topology
            process_of st worst_tids migrated_pids
          ≡ some r)
        × Nodup (planned r.0)
        × ((x : ℕ) → contains x (planned r.0) ≡ true → contains x migrated_pids ≡ false)
  unfolding get_migration_list
  get_migration_list-Nodup worst_tids migrated_pids apart =
      let once =
        list_from-Lists migrated_pids worst_tids [] migrated_pids apart
          (tt, λ x. refl, λ x h. cc h) in
      (once.0, once.1, once.2.0, once.2.2)
