-- ===== src/Imar/Rollback.antt =====
-- `migrate` of the strategies: the execution of the migrations, and the rollback of imar2.hpp, with the
-- time between migrations of src/migration/utils/times.hpp, an index of the values that it may have.
pub mod Steps
pub mod Outcomes
pub mod Returns
use mathlib.Core.List.{append-nil, append_assoc}
use csci555_usc.Base.{
  ℕ, suc, ◌+◌, ◌-◌, ◌<◌, ◌≤◌, ◌≡◌, refl, sym, ap, subst, ◌∙◌, ◌⊎◌, inl, inr, Bool, true, false, not,
  ◌&&◌, ◌||◌, Option, none, some, List, [], ◌∷◌, ◌++◌, ◌==◌, leb, arith, if◌then◌else◌, length,
  length-append, map,
}
use csci555_usc.Real.{Real}
use csci555_usc.Threads.{Kernel, System}
use csci555_usc.Threads.Cells.{swap, migrate}
use csci555_usc.Migrations.{
  MigrationCell, History, undo_from, undo_last_migrations, compare_last_migrations,
}
use csci555_usc.Lbma.{perform}

unfoldable pub time_go_up : ℕ → ℕ
time_go_up t = if leb 3 (t + 1) then 2 else t + 1

unfoldable pub time_go_down : ℕ → ℕ
time_go_down t = if t == 0 then 0 else t - 1

-- What a strategy changes.
pub record Progress (R K : Type 0) : Type 0 where
  pub history : History R
  pub last_performance : R
  pub time : ℕ
  pub system : System
  pub kernel_state : K

unfoldable pub is_empty : {A : Type 0} → List A → Bool
is_empty [] = true
is_empty (m ∷ ms) = false

module _ {R K : Type 0} ⦃real : Real R⦄ (kernel : Kernel K)
    (invalid_value undo_threshold negligible_performance : R)
    (performance_of : System → ℕ → R) where
  open real use {of_nat, over, lt, eq}

  -- After `f`, the other parts as they are.
  abbrev pub with_result : Progress R K → Option (History R × System × K) → Option (Progress R K)
  with_result p none = none
  with_result p (some (h, st, k)) = some (record p { history = h; system = st; kernel_state = k })

  -- The end of `migrate`: the last migrations are forgotten, and those of `algorithm` are executed.
  unfoldable pub execute : List (MigrationCell R) → Progress R K → Option (Progress R K)
  unfolding perform
  execute algorithm p = with_result p (
      perform kernel invalid_value performance_of algorithm
        (record (p.history) { last_migrations = [] }) p.system p.kernel_state)

  -- `migrate` of nimar.hpp and cimar.hpp; `algorithm` is what perform_migration_algorithm lists, and
  -- `total` the performance of all threads.
  unfoldable pub migrate_imar : R → List (MigrationCell R) → Progress R K → Option (Progress R K)
  unfolding execute
  migrate_imar total algorithm p =
      if lt total negligible_performance
      then some (record p { last_performance = invalid_value })
      else execute algorithm (record p { last_performance = total })

  -- `migrate` of imar2.hpp.
  unfoldable pub migrate_imar2 : R → List (MigrationCell R) → Progress R K → Option (Progress R K)
  unfolding execute undo_last_migrations compare_last_migrations time_go_up time_go_down is_empty
  migrate_imar2 total algorithm p =
      let last_migr_profit =
        compare_last_migrations (performance_of p.system) p.history.last_migrations in
      let diff = over total p.last_performance in
      let worse = lt diff (of_nat 1) in
      let q = record p { last_performance = total } in
      if lt total negligible_performance
      then some (record p { last_performance = invalid_value })
      else if lt diff (of_nat 0) || eq diff (of_nat 0)
      then some q
      else if not (is_empty p.history.last_migrations)
          && (lt diff undo_threshold || (lt last_migr_profit (of_nat 0) && worse))
      then with_result (record q { time = time_go_up p.time })
          (undo_last_migrations kernel invalid_value performance_of true p.history p.system
            p.kernel_state)
      else execute algorithm
          (record q { time = if worse then time_go_up p.time else time_go_down p.time })
