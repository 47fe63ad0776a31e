-- ===== src/Threads/Cells.antt =====
-- Migrations of threads, src/migration/migration_cell.hpp: one thread to a processor or a node, and
-- a list of these, of which two make an interchange.
use csci555_usc.Base.{
  ℕ, ◌+◌, ◌≡◌, refl, ◌∙◌, Bool, true, false, ◌&&◌, Option, none, some, List, [], ◌∷◌, ◌==◌, arith,
  if◌then◌else◌, get_or, length, insert, contains, contains-insert, ◌||◌,
}
use csci555_usc.Real.{Real}
use csci555_usc.Pages.Table.{find}
use csci555_usc.Threads.{
  Process, Kernel, System, pin, moved_to_cpu, pin_thread_to_cpu, pin_thread_to_node,
}
use csci555_usc.Threads.Placement.{
  pin_thread_to_cpu_ok, find_moved_self, find_moved_other, pin_thread_to_cpu_failed,
}

pub record SimpleCell (R : Type 0) : Type 0 where
  pub tid : ℕ
  pub pid : ℕ
  pub dest : ℕ
  pub prev : ℕ
  -- a migration at the level of nodes
  pub node : Bool
  pub prev_perf : R

module _ {R : Type 0} where
  unfoldable pub swap : SimpleCell R → SimpleCell R
  swap c = record c { prev = c.dest; dest = c.prev }

  unfoldable pub is_interchange : List (SimpleCell R) → Bool
  is_interchange migrations = length migrations == 2

  tids_from : List (SimpleCell R) → List ℕ → List ℕ
  unfolding insert
  tids_from [] tids = tids
  tids_from (c ∷ cs) tids = tids_from cs (insert c.tid tids)

  unfoldable pub tids_involved : List (SimpleCell R) → List ℕ
  unfolding tids_from
  tids_involved migrations = tids_from migrations []

  module _ {K : Type 0} (kernel : Kernel K) where
    unfoldable pub migrate_one : SimpleCell R → System → K → Option (Bool × System × K)
    unfolding pin_thread_to_cpu pin_thread_to_node
    migrate_one c st k =
        if c.node
        then pin_thread_to_node kernel c.tid c.dest st k
        else pin_thread_to_cpu kernel c.tid c.dest st k

    -- `success &= migr.migrate()`: every migration is tried.
    unfoldable pub migrate_from :
        List (SimpleCell R) → Bool → System → K → Option (Bool × System × K)
    unfolding migrate_one
    migrate_from [] success st k = some (success, st, k)
    migrate_from (c ∷ cs) success st k = elim (migrate_one c st k) [
      | none ↦ none
      | some r ↦ migrate_from cs (success && r.0) r.1 r.2
    ]

    unfoldable pub migrate : List (SimpleCell R) → System → K → Option (Bool × System × K)
    unfolding migrate_from
    migrate migrations st k = migrate_from migrations true st k

module _ {R : Type 0} ⦃real : Real R⦄ (invalid_value : R) where
  open real use {of_nat, plus, minus, eq}

  -- A performance, 0 if it is not valid.
  unfoldable pub valid_perf : R → R
  valid_perf perf = if eq perf invalid_value then of_nat 0 else perf

  balance_from : List (SimpleCell R) → ℕ → List R → R → R
  unfolding valid_perf
  balance_from [] i new_perfs balance = balance
  balance_from (c ∷ cs) i new_perfs balance =
      balance_from cs (i + 1) new_perfs
        (plus balance (minus (valid_perf (get_or new_perfs i (of_nat 0))) (valid_perf c.prev_perf)))

  unfoldable pub balance : List (SimpleCell R) → List R → R
  unfolding balance_from
  balance migrations new_perfs = balance_from migrations 0 new_perfs (of_nat 0)

module _ {R : Type 0} where
  -- Some migration is of the thread.
  abbrev pub involves : ℕ → List (SimpleCell R) → Bool
  involves t [] = false
  involves t (c ∷ cs) = t == c.tid || involves t cs

  contains-tids_from :
      (t : ℕ) (cs : List (SimpleCell R)) (tids : List ℕ)
      → contains t (tids_from cs tids) ≡ (involves t cs || contains t tids)
  unfolding tids_from
  contains-tids_from t [] tids = refl
  contains-tids_from t (c ∷ cs) tids =
      ground (arith, contains-tids_from t cs (insert c.tid tids), contains-insert c.tid t tids)

  -- The threads involved are those of the single migrations.
  pub contains-tids_involved :
      (t : ℕ) (migrations : List (SimpleCell R))
      → contains t (tids_involved migrations) ≡ involves t migrations
  unfolding tids_involved
  contains-tids_involved t migrations = ground (arith, contains-tids_from t migrations [])

  module _ {K : Type 0} (kernel : Kernel K) where
    pub migrate_one_ok :
        (c : SimpleCell R) (p : Process) (st : System) (k : K)
        → c.node ≡ false
        → c.tid == 0 ≡ false
        → find c.tid st.processes ≡ some p
        → (pin kernel c.dest p k).0 ≡ true
        → let r = pin kernel c.dest p k in
          migrate_one kernel c st k ≡ some (true, moved_to_cpu kernel c.tid c.dest p r.1 st, r.2)
    unfolding migrate_one
    migrate_one_ok c p st k level nonzero found ok =
        simp level (pin_thread_to_cpu_ok kernel c.tid c.dest p st k nonzero found ok)

    pub migrate_single :
        (ok : Bool) (c : SimpleCell R) (st st' : System) (k k' : K)
        → migrate_one kernel c st k ≡ some (ok, st', k')
        → migrate kernel (c ∷ []) st k ≡ some (ok, st', k')
    unfolding migrate
    migrate_single ok c st st' k k' h = rw (migrate_from, h) refl

    pub migrate_one_failed :
        (c : SimpleCell R) (p : Process) (st : System) (k : K)
        → c.node ≡ false
        → c.tid == 0 ≡ false
        → find c.tid st.processes ≡ some p
        → (pin kernel c.dest p k).0 ≡ false
        → migrate_one kernel c st k ≡ some (false, st, (pin kernel c.dest p k).2)
    unfolding migrate_one
    migrate_one_failed c p st k level nonzero found failed =
        simp level (pin_thread_to_cpu_failed kernel c.tid c.dest p st k nonzero found failed)

    -- An interchange of two known threads between processors, where both calls succeed, succeeds and
    -- leaves both threads as their pinning left them.
    pub migrate_interchange :
        (c d : SimpleCell R) (p q : Process) (st : System) (k : K)
        → (c.node ≡ false) × (d.node ≡ false)
        → (c.tid == 0 ≡ false) × (d.tid == 0 ≡ false)
        → d.tid == c.tid ≡ false
        → find c.tid st.processes ≡ some p
        → find d.tid st.processes ≡ some q
        → (pin kernel c.dest p k).0 ≡ true
        → (pin kernel d.dest q (pin kernel c.dest p k).2).0 ≡ true
        → let r = pin kernel c.dest p k in
          let s = pin kernel d.dest q r.2 in
          let st' =
            moved_to_cpu kernel d.tid d.dest q s.1 (moved_to_cpu kernel c.tid c.dest p r.1 st) in
          (migrate kernel (c ∷ d ∷ []) st k ≡ some (true, st', s.2))
          × (find c.tid st'.processes ≡ some r.1)
          × (find d.tid st'.processes ≡ some s.1)
    unfolding migrate
    migrate_interchange c d p q st k level nonzero distinct found found' ok ok' =
        let r = pin kernel c.dest p k in
        let s = pin kernel d.dest q r.2 in
        let st1 = moved_to_cpu kernel c.tid c.dest p r.1 st in
        let found1 = find_moved_other kernel d.tid c.tid c.dest p r.1 st distinct ∙ found' in
        let own = find_moved_self kernel c.tid c.dest p r.1 st p found in
        let apart : c.tid == d.tid ≡ false = ground (arith, distinct) in
        let one = migrate_one_ok c p st k level.0 nonzero.0 found ok in
        let two = migrate_one_ok d q st1 r.2 level.1 nonzero.1 found1 ok' in
        (
          rw (migrate_from, one, two) refl,
          find_moved_other kernel c.tid d.tid d.dest q s.1 st1 apart ∙ own,
          find_moved_self kernel d.tid d.dest q s.1 st1 q found1,
        )
