-- ===== src/Migrations/Undo.antt =====
-- Undoing migrations right after they were made.
use csci555_usc.Base.{ℕ, ◌+◌, ◌≡◌, refl, Bool, true, false, ◌&&◌, some, [], ◌∷◌, ◌==◌, arith, eq→==}
use csci555_usc.Real.{Real}
use csci555_usc.Pages.Table.{find}
use csci555_usc.Tickets.{Tickets}
use csci555_usc.Threads.{Process, Kernel, System, pin, moved_to_cpu}
use csci555_usc.Threads.Placement.{find_moved_self}
use csci555_usc.Threads.Repins.{
  pin-processor, pin-pinned, pin-pinned_processor, pin_thread_to_cpu_again,
}
use csci555_usc.Threads.Cells.{
  SimpleCell, swap, migrate_one, migrate, migrate_one_ok, migrate_single,
}
use csci555_usc.Migrations.{MigrationCell, undo_from, undo_last_migrations}

pub swap-swap : {R : Type 0} (c : SimpleCell R) → swap (swap c) ≡ c
unfolding swap
swap-swap c = refl

-- One migration of one thread.
abbrev pub single : {R : Type 0} → SimpleCell R → Tickets R → MigrationCell R
single c t = record { migrations = c ∷ []; tickets = t }

module _ {R K : Type 0} ⦃real : Real R⦄ (kernel : Kernel K) where
  swapped_again :
      (c : SimpleCell R) (p : Process) (st : System) (k : K)
      → c.node ≡ false
      → c.tid == 0 ≡ false
      → find c.tid st.processes ≡ some p
      → c.prev == p.processor && p.pinned ≡ true
      → migrate kernel (swap c ∷ []) st k ≡ some (true, st, k)
  unfolding migrate_one swap
  swapped_again c p st k level nonzero found h =
      migrate_single kernel true (swap c) st st k k
        (simp level (pin_thread_to_cpu_again kernel c.tid c.prev p st k nonzero found h))

  undo_single :
      (invalid_value : R) (performance_of : System → ℕ → R) (t : Tickets R) (c : SimpleCell R)
      (total n : ℕ) (st : System) (k : K)
      → migrate kernel (swap c ∷ []) st k ≡ some (true, st, k)
      → undo_last_migrations kernel invalid_value performance_of false
          (record {
            last_migrations = single c t ∷ [];
            total_migrations = total;
            total_migrations_undone = n;
          })
          st
          k
        ≡ some (
          record {
            last_migrations = [];
            total_migrations = total;
            total_migrations_undone = n + 1;
          },
          st,
          k,
        )
  unfolding undo_last_migrations undo_from
  undo_single invalid_value performance_of t c total n st k h =
      rw (undo_last_migrations, undo_from, h) refl

  -- A known thread that runs where it was before a migration to another processor, and that was
  -- migrated there with success. Undoing this migration before the processor is read again reports
  -- success and counts as undone, but changes neither the affinities nor the maps: the thread stays
  -- pinned to the processor it was migrated to.
  pub undo_last_migrations-no_effect :
      (invalid_value : R) (performance_of : System → ℕ → R) (t : Tickets R) (total n : ℕ)
      (c : SimpleCell R) (p : Process) (st : System) (k : K)
      → c.node ≡ false
      → c.tid == 0 ≡ false
      → find c.tid st.processes ≡ some p
      → c.prev ≡ p.processor
      → c.dest == c.prev ≡ false
      → (pin kernel c.dest p k).0 ≡ true
      → let r = pin kernel c.dest p k in
        let st' = moved_to_cpu kernel c.tid c.dest p r.1 st in
        (migrate kernel (c ∷ []) st k ≡ some (true, st', r.2))
        × (find c.tid st'.processes ≡ some r.1)
        × (r.1.pinned_processor ≡ c.dest)
        × (undo_last_migrations kernel invalid_value performance_of false
              (record {
                last_migrations = single c t ∷ [];
                total_migrations = total;
                total_migrations_undone = n;
              })
              st'
              r.2
            ≡ some (
              record {
                last_migrations = [];
                total_migrations = total;
                total_migrations_undone = n + 1;
              },
              st',
              r.2,
            ))
  undo_last_migrations-no_effect invalid_value performance_of t total n c p st k level nonzero found
        ran apart ok =
      let r = pin kernel c.dest p k in
      let st' = moved_to_cpu kernel c.tid c.dest p r.1 st in
      let own = find_moved_self kernel c.tid c.dest p r.1 st p found in
      let seen : c.prev == r.1.processor && r.1.pinned ≡ true =
        simp (pin-processor kernel c.dest p k, pin-pinned kernel c.dest p k ok)
          (both (c.prev == p.processor) (eq→== c.prev p.processor ran)) in
      let again = swapped_again c r.1 st' r.2 level nonzero own seen in
      (
        migrate_single kernel true c st st' k r.2
            (migrate_one_ok kernel c p st k level nonzero found ok),
        own,
        pin-pinned_processor kernel c.dest p k (elsewhere (c.dest == c.prev) apart) ok,
        undo_single invalid_value performance_of t c total n st' r.2 again,
      )
    where
      both : (b : Bool) → b ≡ true → b && true ≡ true
      both b e = ground arith

      elsewhere : (b : Bool) → c.dest == c.prev ≡ false → c.dest == p.processor ≡ false
      elsewhere b e = ground (arith, ran)
