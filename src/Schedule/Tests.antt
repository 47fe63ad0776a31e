-- ===== src/Schedule/Tests.antt =====
-- Runs of Schedule over the numbers, on two nodes of one processor.
use csci555_usc.Base.{ℕ, ◌+◌, ◌≡◌, refl, Bool, true, false, some, List, [], ◌∷◌, ◌==◌, Nodup}
use csci555_usc.Real.{nat_real}
use csci555_usc.Tickets.{default_settings}
use csci555_usc.Pages.Table.{find}
use csci555_usc.Migrations.{Readings}
use csci555_usc.Schedule.{
  Thread, Schedule, new_schedule, migrate, interchange, find_thread, read_expected_tickets,
}
use csci555_usc.Schedule.Nodes.{in_node}
use csci555_usc.Schedule.Placed.{IsPlaced, new_schedule-IsPlaced, migrate-IsPlaced}
use csci555_usc.Schedule.Exchange.{interchange-interchange}
use csci555_usc.Schedule.Cached.{
  ScheduleStep, sent_to, exchange, tickets_read, total_tickets, steps_from,
  read_expected_tickets-total,
}
use csci555_usc.Schedule.Plan.{Nodes, Plan, migrations}
use csci555_usc.Schedule.Plan.Once.{planned}
use csci555_usc.Schedule.Plan.Returns.{migrations-Nodup}

abbrev readings : Readings ℕ
readings = record {
  perf_node = λ tid node. 10;
  preferred_node = λ tid. 1;
  rel_performance = λ tid. 1;
  pid_from_tid = λ tid. tid;
  is_idle = λ tid. false;
  is_migratable = λ tid. true;
  numa_distance = λ a b. 10;
  invalid_value = 1000;
}

abbrev is_idle : ℕ → Bool
is_idle tid = tid == 9

abbrev thread : ℕ → ℕ → ℕ → Thread
thread tid src_node dst_node = record { tid = tid; src_node = src_node; dst_node = dst_node }

abbrev threads : List Thread
threads = thread 7 0 0 ∷ thread 8 1 1 ∷ []

abbrev schedule : Schedule ℕ
schedule = new_schedule is_idle threads

migrate-IsPlaced_example :
    IsPlaced is_idle
      (migrate is_idle 7 1 schedule).1.threads
      (migrate is_idle 7 1 schedule).1.node_tid_map
migrate-IsPlaced_example =
    migrate-IsPlaced is_idle 7 1 schedule
      (new_schedule-IsPlaced is_idle ℕ threads (refl, (refl, tt)))

interchange-interchange_example :
    ((interchange 7 8 schedule).0 ≡ true)
    × ((interchange 7 8 (interchange 7 8 schedule).1).0 ≡ true)
    × ((interchange 7 8 (interchange 7 8 schedule).1).1.threads ≡ schedule.threads)
    × (in_node 7 0 (interchange 7 8 (interchange 7 8 schedule).1).1.node_tid_map
        ≡ in_node 7 0 schedule.node_tid_map)
unfolding new_schedule find_thread
interchange-interchange_example =
    interchange-interchange 7 8 (thread 7 0 0) (thread 8 1 1) schedule is_idle 7 0 refl refl refl
      refl refl (new_schedule-IsPlaced is_idle ℕ threads (refl, (refl, tt)))

abbrev steps : List ScheduleStep
steps = tickets_read ∷ sent_to 7 1 ∷ tickets_read ∷ exchange 7 8 ∷ []

read_expected_tickets-total_example :
    (read_expected_tickets default_settings readings
      (steps_from default_settings readings is_idle steps schedule)).0
    ≡ total_tickets default_settings readings is_idle
        (steps_from default_settings readings is_idle steps schedule).threads
read_expected_tickets-total_example =
    read_expected_tickets-total default_settings readings is_idle threads steps

-- Each node has one thread now, and the threads are to change places.
abbrev nodes : Nodes
nodes = record {
  num_of_cpus = λ node. 1;
  cpus_per_node = 1;
  non_idle_tids_from_node = λ node. (7 + node) ∷ [];
}

abbrev moving : List Thread
moving = thread 7 0 1 ∷ thread 8 1 0 ∷ []

migrations-Nodup_example :
    (plan : Plan ℕ) × (migrations default_settings readings
        (λ tid. 5)
        nodes
        moving
        ((0, 8 ∷ []) ∷ (1, 7 ∷ []) ∷ [])
      ≡ some plan)
    × Nodup (planned plan.mig)
unfolding find
migrations-Nodup_example =
    migrations-Nodup default_settings readings (λ tid. 5) nodes moving
      ((0, 8 ∷ []) ∷ (1, 7 ∷ []) ∷ []) (λ e. refl, (λ e. refl, tt)) (refl, (refl, tt))
