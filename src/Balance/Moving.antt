-- ===== src/Balance/Moving.antt =====
-- The rounds of move_to_less_busy_cpu.
use csci555_usc.Base.{
  ℕ, zero, suc, ◌≡◌, refl, ◌∙◌, true, false, Option, none, some, List, [], ◌∷◌, ◌++◌, ltb, length,
}
use csci555_usc.Real.{Real}
use csci555_usc.Tickets.{Settings}
use csci555_usc.Threads.{Process, Kernel, System, retrieve}
use csci555_usc.Threads.Cells.{SimpleCell, migrate}
use csci555_usc.Migrations.{MigrationCell}
use csci555_usc.Balance.{Run, returned, out_of_fuel, Moves, first_tid, move_loop}

module _ {R K : Type 0} ⦃real : Real R⦄ (kernel : Kernel K) (settings : Settings R)
    (tids_now : System → List ℕ) (closest : System → Option ℕ)
    (cell : ℕ → Process → ℕ → SimpleCell R) (limit : ℕ) where
  abbrev pub loop : ℕ → List ℕ → List (MigrationCell R) → System → K → Run (Moves kernel settings)
  loop = move_loop kernel settings tids_now closest cell limit

  -- A migration as the loop keeps it.
  abbrev pub kept : ℕ → Process → ℕ → MigrationCell R
  kept tid p dst = record { migrations = cell tid p dst ∷ []; tickets = settings.free_core }

  module _ (n : ℕ) (tids : List ℕ) (migrations : List (MigrationCell R)) (st : System) (k : K) where
    pub loop_settled :
        (tid : ℕ)
        → first_tid tids ≡ some tid
        → closest st ≡ none
        → loop (suc n) tids migrations st k ≡ returned (migrations, st, k)
    unfolding move_loop
    loop_settled tid first none_left = rw (move_loop, first, none_left) refl

    pub loop_failed :
        (tid dst : ℕ) (p : Process) (st2 : System) (k2 : K)
        → first_tid tids ≡ some tid
        → closest st ≡ some dst
        → retrieve kernel tid st ≡ some (p, st)
        → migrate kernel (cell tid p dst ∷ []) st k ≡ some (false, st2, k2)
        → loop (suc n) tids migrations st k ≡ returned (migrations, st2, k2)
    unfolding move_loop
    loop_failed tid dst p st2 k2 first to known failed =
        rw (move_loop, first, to, known, failed) refl

    pub loop_done :
        (tid dst : ℕ) (p : Process) (st2 : System) (k2 : K)
        → first_tid tids ≡ some tid
        → closest st ≡ some dst
        → retrieve kernel tid st ≡ some (p, st)
        → migrate kernel (cell tid p dst ∷ []) st k ≡ some (true, st2, k2)
        → ltb limit (length (tids_now st2)) ≡ false
        → loop (suc n) tids migrations st k ≡ returned (migrations ++ kept tid p dst ∷ [], st2, k2)
    unfolding move_loop
    loop_done tid dst p st2 k2 first to known ok enough =
        rw (move_loop, first, to, known, ok, enough) refl

    pub loop_next :
        (tid dst : ℕ) (p : Process) (st2 : System) (k2 : K)
        → first_tid tids ≡ some tid
        → closest st ≡ some dst
        → retrieve kernel tid st ≡ some (p, st)
        → migrate kernel (cell tid p dst ∷ []) st k ≡ some (true, st2, k2)
        → ltb limit (length (tids_now st2)) ≡ true
        → loop (suc n) tids migrations st k
          ≡ loop n (tids_now st2) (migrations ++ kept tid p dst ∷ []) st2 k2
    unfolding move_loop
    loop_next tid dst p st2 k2 first to known ok more =
        rw (move_loop, first, to, known, ok, more) refl

  -- A round whose migration succeeds without a change is repeated forever.
  pub loop_stuck :
      (n : ℕ) (migrations : List (MigrationCell R)) (tid dst : ℕ) (p : Process) (st : System)
      (k : K)
      → first_tid (tids_now st) ≡ some tid
      → closest st ≡ some dst
      → retrieve kernel tid st ≡ some (p, st)
      → migrate kernel (cell tid p dst ∷ []) st k ≡ some (true, st, k)
      → ltb limit (length (tids_now st)) ≡ true
      → loop n (tids_now st) migrations st k ≡ out_of_fuel
  unfolding move_loop
  loop_stuck zero migrations tid dst p st k first to known ok more = refl
  loop_stuck (suc n) migrations tid dst p st k first to known ok more =
      loop_next n (tids_now st) migrations st k tid dst p st k first to known ok more
      ∙ loop_stuck n (migrations ++ kept tid p dst ∷ []) tid dst p st k first to known ok more
