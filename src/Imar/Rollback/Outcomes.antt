-- ===== src/Imar/Rollback/Outcomes.antt =====
-- What `migrate` of src/migration/strategies/thread_strats/imar2.hpp comes to.
use csci555_usc.Base.{
  ℕ, ◌+◌, ◌-◌, min, ◌≡◌, ◌⊎◌, Bool, true, false, not, ◌&&◌, ◌||◌, Option, List, [], if◌then◌else◌,
}
use csci555_usc.Real.{Real}
use csci555_usc.Threads.{Kernel, System}
use csci555_usc.Migrations.{MigrationCell, History, undo_last_migrations, compare_last_migrations}
use csci555_usc.Imar.Rollback.{Progress, with_result, execute, time_go_up, time_go_down, is_empty}
use csci555_usc.Imar.Rollback.Steps.{RolledBack, Executed}

module _ {R K : Type 0} ⦃real : Real R⦄ (kernel : Kernel K)
    (invalid_value undo_threshold negligible_performance : R)
    (performance_of : System → ℕ → R) where
  open real use {of_nat, over, lt, eq}

  -- A new list of migrations was executed, starting from none.
  abbrev pub Renewed : List (MigrationCell R) → History R → History R → Type 0
  Renewed algorithm h h' =
      Executed kernel invalid_value performance_of algorithm (record h { last_migrations = [] }) h'

  -- There are last migrations, and the performance fell below the threshold, or fell while the
  -- migrations did harm.
  abbrev pub Falls : R → Progress R K → Type 0
  Falls total p =
      let diff = over total p.last_performance in
      let profit = compare_last_migrations (performance_of p.system) p.history.last_migrations in
      (is_empty p.history.last_migrations ≡ false)
      × ((lt diff undo_threshold ≡ true)
          ⊎ ((lt profit (of_nat 0) ≡ true) × (lt diff (of_nat 1) ≡ true)))

  -- The ratio to the last performance is not positive, as it is the first time.
  abbrev pub IsFirst : R → Progress R K → Type 0
  IsFirst total p =
      let diff = over total p.last_performance in
      (lt diff (of_nat 0) ≡ true) ⊎ (eq diff (of_nat 0) ≡ true)

  -- The last migrations are rolled back, and the time goes up.
  abbrev pub RollsBack : R → Progress R K → Progress R K → Type 0
  RollsBack total p q =
      RolledBack kernel invalid_value performance_of p.history q.history
      × (q.last_performance ≡ total)
      × (q.time ≡ min 2 (p.time + 1))

  -- The new migrations replace the last ones, and the time goes up if the performance fell, else down.
  abbrev pub Replaces : R → List (MigrationCell R) → Progress R K → Progress R K → Type 0
  Replaces total algorithm p q =
      Renewed algorithm p.history q.history
      × (q.last_performance ≡ total)
      × (q.time ≡ (
          if lt (over total p.last_performance) (of_nat 1) then min 2 (p.time + 1) else p.time - 1))

  -- What `migrate` of imar2.hpp comes to, each outcome with the condition under which it is the one;
  -- the conditions exclude each other.
  abbrev pub Outcome2 : R → List (MigrationCell R) → Progress R K → Progress R K → Type 0
  Outcome2 total algorithm p q =
      ((lt total negligible_performance ≡ true)
        × (q ≡ record p { last_performance = invalid_value }))
      ⊎ ((lt total negligible_performance ≡ false)
          × IsFirst total p
          × (q ≡ record p { last_performance = total }))
      ⊎ ((lt total negligible_performance ≡ false)
          × (¬ IsFirst total p)
          × Falls total p
          × RollsBack total p q)
      ⊎ ((lt total negligible_performance ≡ false)
          × (¬ IsFirst total p)
          × (¬ Falls total p)
          × Replaces total algorithm p q)

  -- The last branches, of which `c` is the test for the rollback.
  abbrev rest : R → List (MigrationCell R) → Progress R K → Bool → Option (Progress R K)
  rest total algorithm p c =
      let worse = lt (over total p.last_performance) (of_nat 1) in
      let q = record p { last_performance = total } in
      if c
      then with_result kernel invalid_value undo_threshold negligible_performance performance_of
          (record q { time = time_go_up p.time })
          (undo_last_migrations kernel invalid_value performance_of true p.history p.system
            p.kernel_state)
      else execute kernel invalid_value undo_threshold negligible_performance performance_of
          algorithm (record q { time = if worse then time_go_up p.time else time_go_down p.time })

  abbrev falls : R → Progress R K → Bool
  falls total p =
      let diff = over total p.last_performance in
      let profit = compare_last_migrations (performance_of p.system) p.history.last_migrations in
      not (is_empty p.history.last_migrations)
      && (lt diff undo_threshold || (lt profit (of_nat 0) && lt diff (of_nat 1)))
