-- ===== src/Balance/Termination.antt =====
-- When move_to_less_busy_cpu ends: it does if the threads of the processor run where they are pinned,
-- and it need not if one of them was last seen on the processor that it is to be moved to.
use csci555_usc.Base.{
  ℕ, zero, suc, ◌+◌, ◌≤◌, ◌<◌, ◌≡◌, refl, sym, subst, ◌∙◌, inl, inr, Bool, true, false, Bool-cases,
  Option, Option-cases, some, List, [], ◌∷◌, ◌++◌, ◌==◌, ltb, arith, get_or, length, length-append,
  Nodup, eq→==,
}
use csci555_usc.Real.{Real}
use csci555_usc.Tickets.{Settings}
use csci555_usc.Pages.Table.{find}
use csci555_usc.Threads.{Process, Kernel, System, pin}
use csci555_usc.Threads.Repins.{pin_thread_to_cpu_again}
use csci555_usc.Threads.Cells.{SimpleCell, migrate_one, migrate_single}
use csci555_usc.Migrations.{MigrationCell, Readings}
use csci555_usc.Balance.{
  Topology, Run, returned, out_of_fuel, Moves, first_tid, max_size, cpu_cell, move_to_less_busy_cpu,
}
use csci555_usc.Balance.Closest.{
  IsLessBusy, count, cpus_by_distance, closest_less_busy_cpu-IsLessBusy,
}
use csci555_usc.Balance.Moving.{kept, loop_settled, loop_done, loop_next, loop_stuck}
use csci555_usc.Balance.Shrinking.{
  contains-first_tid, first_tid-none, erase-Nodup, tids_of-erase, contains-tids_of,
}
use csci555_usc.Balance.Rounds.{
  tids_here, closest, IsHome, Returns, rounds, moved, set_moved, moved-IsHome, round_failed,
  migrated, known_thread, not_itself,
}

module _ {R K : Type 0} ⦃real : Real R⦄ (kernel : Kernel K) (settings : Settings R)
    (topology : Topology) (readings : Readings R) (ignore_idle : Bool) (src limit : ℕ) where
  abbrev here : System → List ℕ
  here = tids_here kernel settings topology readings ignore_idle src limit

  abbrev less_busy : System → Option ℕ
  less_busy = closest kernel settings topology readings ignore_idle src limit

  abbrev Home : System → Type 0
  Home = IsHome kernel settings topology readings ignore_idle src limit

  abbrev Outcome : ℕ → System → Run (Moves kernel settings) → Type 0
  Outcome = Returns kernel settings topology readings ignore_idle src limit

  abbrev run_from : ℕ → List (MigrationCell R) → System → K → Run (Moves kernel settings)
  run_from = rounds kernel settings topology readings ignore_idle src limit

  -- What the rounds rely on.
  abbrev Ready : System → Type 0
  Ready st =
      Home st
      × Nodup (get_or st.cpu_tid_map src [])
      × (limit < length (here st))
      × (length (here st) ≤ max_size)

  target_apart : (st : System) (dst : ℕ) → Ready st → less_busy st ≡ some dst → src == dst ≡ false
  target_apart st dst ready to =
      let tids = count topology readings.is_idle ignore_idle st.cpu_tid_map in
      let places = cpus_by_distance topology readings.is_idle ignore_idle st src in
      not_itself tids limit src places dst (
        subst (IsLessBusy tids limit src places) to (
          closest_less_busy_cpu-IsLessBusy topology readings.is_idle ignore_idle src limit st
            (omega (arith, ready.2)) ready.3))

  abbrev after : ℕ → ℕ → Process → System → K → System
  after t dst p st k = moved kernel settings topology readings ignore_idle src limit t dst p st k

  abbrev cell : ℕ → Process → ℕ → SimpleCell R
  cell = cpu_cell kernel settings topology readings 0 ignore_idle src

  -- The migrations after one more.
  abbrev with_one : List (MigrationCell R) → ℕ → Process → ℕ → List (MigrationCell R)
  with_one migrations t p dst =
      migrations ++ kept kernel settings here less_busy cell limit t p dst ∷ []

  -- One thread less, and the loop goes on or returns.
  abbrev RoundMoved : ℕ → List (MigrationCell R) → System → K → ℕ → ℕ → Process → Type 0
  RoundMoved n migrations st k t dst p =
      let st' = after t dst p st k in
      let k' = (pin kernel dst p k).2 in
      let done = with_one migrations t p dst in
      (length (here st') + 1 ≡ length (here st))
      × (ltb limit (length (here st')) ≡ true → Ready st')
      × (ltb limit (length (here st')) ≡ true
          → run_from (suc n) migrations st k ≡ run_from n done st' k')
      × (ltb limit (length (here st')) ≡ false
          → run_from (suc n) migrations st k ≡ returned (done, st', k'))

  -- A round that moves a thread.
  round_moved :
      (n : ℕ) (migrations : List (MigrationCell R)) (st : System) (k : K) (t dst : ℕ) (p : Process)
      → Ready st
      → first_tid (here st) ≡ some t
      → less_busy st ≡ some dst
      → t == 0 ≡ false
      → find t st.processes ≡ some p
      → p.pinned_processor ≡ src
      → p.processor ≡ src
      → (pin kernel dst p k).0 ≡ true
      → RoundMoved n migrations st k t dst p
  round_moved n migrations st k t dst p ready first to nonzero found here_ ran ok =
      let st' = after t dst p st k in
      let k' = (pin kernel dst p k).2 in
      let apart = target_apart st dst ready to in
      let same =
        set_moved kernel settings topology readings ignore_idle src limit t dst p st k apart here_
          ran ok in
      let counted = contains-first_tid (here st) t first in
      let less =
        tids_of-erase readings.is_idle st.cpu_tid_map st'.cpu_tid_map src t ignore_idle same ready.1
          counted in
      let known = known_thread kernel t p st found in
      let made =
        migrated kernel settings topology readings ignore_idle src limit n migrations st k t dst p
          nonzero found ok in
      (
        less,
        λ more. (
          moved-IsHome kernel settings topology readings ignore_idle src limit t dst p st k same
              ready.0,
          subst Nodup (sym same) (erase-Nodup t (get_or st.cpu_tid_map src []) ready.1),
          ground (arith, more),
          omega (arith, less, ready.3),
        ),
        λ more.
            loop_next kernel settings here less_busy cell limit n (here st) migrations st k t dst p
              st' k' first to known made more,
        λ enough.
            loop_done kernel settings here less_busy cell limit n (here st) migrations st k t dst p
              st' k' first to known made enough,
      )

  -- The rest of the loop after a round that moved a thread.
  after_move :
      (n : ℕ) (migrations : List (MigrationCell R)) (st : System) (k : K) (t dst : ℕ) (p : Process)
      → ((ms : List (MigrationCell R)) (s : System) (l : K)
          → Ready s
          → length (here s) ≤ n
          → Outcome (length ms) s (run_from n ms s l))
      → length (here st) ≤ suc n
      → RoundMoved n migrations st k t dst p
      → Outcome (length migrations) st (run_from (suc n) migrations st k)
  after_move n migrations st k t dst p rest le (less, ready, next, done) =
      let st' = after t dst p st k in
      let k' = (pin kernel dst p k).2 in
      let ms = with_one migrations t p dst in
      let longer =
        length-append migrations (kept kernel settings here less_busy cell limit t p dst ∷ []) in
      elim (Bool-cases (ltb limit (length (here st')))) [
        | inl more ↦
            let end = rest ms st' k' (ready more) (omega (arith, less, le)) in
            (end.0, end.1, end.2, next more ∙ end.3, omega (arith, end.4, longer, less), end.5)
        | inr enough ↦
            (ms, st', k', done enough, omega (arith, longer, less), inl (ground (arith, enough)))
      ]

  rounds-Returns :
      (n : ℕ) (migrations : List (MigrationCell R)) (st : System) (k : K)
      → Ready st
      → length (here st) ≤ n
      → Outcome (length migrations) st (run_from n migrations st k)
  rounds-Returns zero migrations st k ready le = absurd (omega (arith, ready.2, le))
  rounds-Returns (suc n) migrations st k ready le = elim (Option-cases (first_tid (here st))) [
    | inl empty ↦ absurd (omega (arith, first_tid-none (here st) empty, ready.2))
    | inr (t, first) ↦ elim (Option-cases (less_busy st)) [
      | inl settled ↦ (
        migrations,
        st,
        k,
        loop_settled kernel settings here less_busy cell limit n (here st) migrations st k t first
            settled,
        refl,
        inr (inl settled),
      )
      | inr (dst, to) ↦
          let inside =
            contains-tids_of readings.is_idle st.cpu_tid_map src t ignore_idle
              (contains-first_tid (here st) t first) in
          let known = ready.0 t inside in
          let p = known.1.0 in
          elim (Bool-cases (pin kernel dst p k).0) [
            | inl ok ↦
                let one =
                  round_moved n migrations st k t dst p ready first to known.0 known.1.1 known.1.2
                    known.1.3 ok in
                after_move n migrations st k t dst p (rounds-Returns n) le one
            | inr failed ↦ (
              migrations,
              st,
              (pin kernel dst p k).2,
              round_failed kernel settings topology readings ignore_idle src limit n migrations st k
                  t dst p first to known.0 known.1.1 failed,
              refl,
              inr (inr (dst, p, k, failed)),
            )
          ]
    ]
  ]

  -- From a processor whose threads are all known, are pinned to it and were last seen there, and which
  -- has more threads than the limit but no more than the largest size_t: with one unit of fuel for
  -- each thread counted there, the moving of its threads returns. Each migration that it returns has
  -- taken one thread away, and then the processor is down to the limit, or no other is less busy, or an
  -- affinity could not be set.
  pub move_to_less_busy_cpu-Returns :
      (fuel : ℕ) (st : System) (k : K)
      → length (here st) ≤ fuel
      → Home st
      → Nodup (get_or st.cpu_tid_map src [])
      → limit < length (here st)
      → length (here st) ≤ max_size
      → Returns kernel settings topology readings ignore_idle src limit 0 st
          (move_to_less_busy_cpu kernel settings topology readings fuel ignore_idle src limit st k)
  unfolding move_to_less_busy_cpu
  move_to_less_busy_cpu-Returns fuel st k le home distinct more max =
      rounds-Returns fuel [] st k (home, distinct, more, max) le

  -- Where the first thread of a processor with more threads than the limit is known and pinned, and was
  -- last seen on the less busy processor that it is to be moved to, the moving never ends: no amount of
  -- fuel is enough.
  pub move_to_less_busy_cpu-out_of_fuel :
      (fuel t dst : ℕ) (p : Process) (st : System) (k : K)
      → limit < length (here st)
      → first_tid (here st) ≡ some t
      → less_busy st ≡ some dst
      → t == 0 ≡ false
      → find t st.processes ≡ some p
      → p.processor ≡ dst
      → p.pinned ≡ true
      → move_to_less_busy_cpu kernel settings topology readings fuel ignore_idle src limit st k
        ≡ out_of_fuel
  unfolding move_to_less_busy_cpu migrate_one
  move_to_less_busy_cpu-out_of_fuel fuel t dst p st k more first to nonzero found seen pinned =
      let again =
        pin_thread_to_cpu_again kernel t dst p st k nonzero found
          (ground (arith, eq→== dst p.processor (sym seen), pinned)) in
      loop_stuck kernel settings here less_busy cell limit fuel [] t dst p st k first to
        (known_thread kernel t p st found)
        (migrate_single kernel true (cell t p dst) st st k k again) (ground (arith, more))
