-- ===== src/Migrations/Tests.antt =====
-- Runs of Migrations over the numbers, on one node of two processors where every call succeeds.
use csci555_usc.Base.{
  ℕ, suc, ◌+◌, ◌≡◌, refl, true, false, none, some, [], ◌∷◌, map, get_elem?, max_element, ltb,
  insert, erase,
}
use csci555_usc.Real.{nat_real}
use csci555_usc.Pages.Table.{find}
use csci555_usc.Threads.{Process, Kernel, System, pin, moved_to_cpu}
use csci555_usc.Threads.Cells.{SimpleCell, migrate}
use csci555_usc.Migrations.{MigrationCell, select_migration, undo_last_migrations}
use csci555_usc.Migrations.Select.{select_migration-max_element}
use csci555_usc.Migrations.Undo.{single, undo_last_migrations-no_effect}

abbrev kernel : Kernel ℕ
kernel = record {
  set_affinity = λ pid cpus calls. (true, suc calls);
  numa_node_of_cpu = λ cpu. 0;
  numa_node_to_cpus = λ node. some (0 ∷ 1 ∷ []);
  default_affinity = 0 ∷ 1 ∷ [];
  insert_process = λ pid processes. none;
}

abbrev process : Process
process = record {
  pid = 7;
  processor = 0;
  numa_node = 0;
  pinned = true;
  pinned_processor = 0;
  pinned_numa_node = 0;
  idle = false;
}

abbrev system : System
system = record {
  processes = (7, process) ∷ [];
  nodes = 0 ∷ [];
  cpu_node_map = 0 ∷ 0 ∷ [];
  cpu_tid_map = (7 ∷ []) ∷ [] ∷ [];
  node_tid_map = (7 ∷ []) ∷ [];
}

abbrev cell : SimpleCell ℕ
cell = record { tid = 7; pid = 7; dest = 1; prev = 0; node = false; prev_perf = 5 }

abbrev with_tickets : ℕ → MigrationCell ℕ
with_tickets n = single cell (record { value = n; mask = 9 })

abbrev value : MigrationCell ℕ → ℕ
value m = m.tickets.value

select_migration-max_element_example :
    select_migration value (with_tickets 3 ∷ with_tickets 8 ∷ with_tickets 5 ∷ [])
    ≡ get_elem?
        (with_tickets 3 ∷ with_tickets 8 ∷ with_tickets 5 ∷ [])
        (max_element ltb (map value (with_tickets 3 ∷ with_tickets 8 ∷ with_tickets 5 ∷ [])))
select_migration-max_element_example =
    select_migration-max_element value (with_tickets 3 ∷ with_tickets 8 ∷ with_tickets 5 ∷ [])

-- The random numbers are half of their bound.
abbrev rnd : ℕ → ℕ → ℕ × ℕ
rnd range draws = (range, suc draws)

abbrev moved : System
moved = moved_to_cpu kernel 7 1 process (pin kernel 1 process 0).1 system

undo_last_migrations-no_effect_example :
    (migrate kernel (cell ∷ []) system 0 ≡ some (true, moved, (pin kernel 1 process 0).2))
    × (find 7 moved.processes ≡ some (pin kernel 1 process 0).1)
    × ((pin kernel 1 process 0).1.pinned_processor ≡ 1)
    × (undo_last_migrations kernel 1000
          (λ st tid. 10)
          false
          (record {
            last_migrations = with_tickets 3 ∷ [];
            total_migrations = 1;
            total_migrations_undone = 0;
          })
          moved
          (pin kernel 1 process 0).2
        ≡ some (
          record { last_migrations = []; total_migrations = 1; total_migrations_undone = 0 + 1 },
          moved,
          (pin kernel 1 process 0).2,
        ))
unfolding find pin
undo_last_migrations-no_effect_example =
    undo_last_migrations-no_effect kernel 1000 (λ st tid. 10) (record { value = 3; mask = 9 }) 1 0
      cell process system 0 refl refl refl refl refl refl

-- The thread is still pinned to processor 1 after its migration was undone.
still_there : moved.cpu_tid_map ≡ [] ∷ (7 ∷ []) ∷ []
unfolding pin moved_to_cpu insert erase
still_there = refl
