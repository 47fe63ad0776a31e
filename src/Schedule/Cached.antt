-- ===== src/Schedule/Cached.antt =====
-- The tickets that a schedule keeps, and the changes of its threads.
use csci555_usc.Base.{
  ℕ, ◌≡◌, refl, sym, ap, subst, ◌∙◌, Bool, inl, inr, Option, Option-cases, none, some, List, [],
  ◌∷◌,
}
use csci555_usc.Real.{Real}
use csci555_usc.Tickets.{Settings}
use csci555_usc.Migrations.{Readings}
use csci555_usc.Schedule.{
  Thread, Schedule, find_thread, new_schedule, migrate, interchange, thread_tickets, sum_of,
  read_expected_tickets,
}
use csci555_usc.Schedule.Placed.{migrate_unknown, migrate_known, interchange_known}

-- What is done to a schedule.
pub data ScheduleStep : Type 0 where
  sent_to : ℕ → ℕ → ScheduleStep
  exchange : ℕ → ℕ → ScheduleStep
  tickets_read : ScheduleStep

module _ {R : Type 0} where
  interchange_unknown :
      (tid_1 tid_2 : ℕ) (s : Schedule R)
      → find_thread tid_1 s.threads ≡ none
      → (interchange tid_1 tid_2 s).1.expected_tickets ≡ none
  unfolding interchange
  interchange_unknown tid_1 tid_2 s h = rw (interchange, h) refl

  interchange_alone :
      (tid_1 tid_2 : ℕ) (t1 : Thread) (s : Schedule R)
      → find_thread tid_1 s.threads ≡ some t1
      → find_thread tid_2 s.threads ≡ none
      → (interchange tid_1 tid_2 s).1.expected_tickets ≡ none
  unfolding interchange
  interchange_alone tid_1 tid_2 t1 s h1 h2 = rw (interchange, h1, h2) refl

  interchange-reset :
      (tid_1 tid_2 : ℕ) (s : Schedule R) → (interchange tid_1 tid_2 s).1.expected_tickets ≡ none
  interchange-reset tid_1 tid_2 s = elim (Option-cases (find_thread tid_1 s.threads)) [
    | inl e ↦ interchange_unknown tid_1 tid_2 s e
    | inr (t1, e) ↦ elim (Option-cases (find_thread tid_2 s.threads)) [
      | inl f ↦ interchange_alone tid_1 tid_2 t1 s e f
      | inr (t2, f) ↦ ap (λ r. r.1.expected_tickets) (interchange_known tid_1 tid_2 t1 t2 s e f)
    ]
  ]

  migrate-reset :
      (is_idle : ℕ → Bool) (tid dst : ℕ) (s : Schedule R)
      → (migrate is_idle tid dst s).1.expected_tickets ≡ none
  migrate-reset is_idle tid dst s = elim (Option-cases (find_thread tid s.threads)) [
    | inl e ↦ ap (λ r. r.1.expected_tickets) (migrate_unknown is_idle tid dst s e)
    | inr (t, e) ↦
        ap (λ r. r.1.expected_tickets) (migrate_known is_idle tid dst s t (is_idle t.tid) e refl)
  ]

module _ {R : Type 0} ⦃real : Real R⦄ (settings : Settings R) (readings : Readings R)
    (is_idle : ℕ → Bool) where
  -- The tickets of all threads as they are planned now.
  abbrev pub total_tickets : List Thread → R
  total_tickets threads =
      sum_of (λ t. (thread_tickets settings readings t).value) threads (real.of_nat 0)

  pub steps_from : List ScheduleStep → Schedule R → Schedule R
  unfolding migrate
  steps_from [] s = s
  steps_from (sent_to tid dst ∷ steps) s = steps_from steps (migrate is_idle tid dst s).1
  steps_from (exchange tid_1 tid_2 ∷ steps) s = steps_from steps (interchange tid_1 tid_2 s).1
  steps_from (tickets_read ∷ steps) s =
      steps_from steps (read_expected_tickets settings readings s).1

  abbrev IsCurrent : List Thread → Option R → Type 0
  IsCurrent threads none = Unit
  IsCurrent threads (some v) = v ≡ total_tickets threads

  abbrev IsFresh : Schedule R → Type 0
  IsFresh s = IsCurrent s.threads s.expected_tickets

  reset-IsFresh : (s : Schedule R) → s.expected_tickets ≡ none → IsFresh s
  reset-IsFresh s h = subst (IsCurrent s.threads) (sym h) tt

  kept_tickets :
      (s : Schedule R) (v : R)
      → s.expected_tickets ≡ some v
      → read_expected_tickets settings readings s ≡ (v, s)
  unfolding read_expected_tickets
  kept_tickets s v h = simp (read_expected_tickets, h) refl

  new_tickets :
      (s : Schedule R)
      → s.expected_tickets ≡ none
      → read_expected_tickets settings readings s
        ≡ (total_tickets s.threads, record s { expected_tickets = some (total_tickets s.threads) })
  unfolding read_expected_tickets
  new_tickets s h = simp (read_expected_tickets, h) refl

  -- A reading gives the tickets of the threads as they are, and keeps them.
  read_lem :
      (s : Schedule R)
      → IsFresh s
      → let r = read_expected_tickets settings readings s in
        (r.0 ≡ total_tickets s.threads) × IsFresh r.1
  read_lem s fresh = elim (Option-cases s.expected_tickets) [
    | inl e ↦
        let new = new_tickets s e in (ap (λ r. r.0) new, subst (λ r. IsFresh r.1) (sym new) refl)
    | inr (v, e) ↦
        let kept = kept_tickets s v e in
        let same : v ≡ total_tickets s.threads = subst (IsCurrent s.threads) e fresh in
        (ap (λ r. r.0) kept ∙ same, subst (λ r. IsFresh r.1) (sym kept) fresh)
  ]

  steps_from-IsFresh :
      (steps : List ScheduleStep) (s : Schedule R) → IsFresh s → IsFresh (steps_from steps s)
  unfolding steps_from
  steps_from-IsFresh [] s h = h
  steps_from-IsFresh (sent_to tid dst ∷ steps) s h =
      let s' = (migrate is_idle tid dst s).1 in
      steps_from-IsFresh steps s' (reset-IsFresh s' (migrate-reset is_idle tid dst s))
  steps_from-IsFresh (exchange tid_1 tid_2 ∷ steps) s h =
      let s' = (interchange tid_1 tid_2 s).1 in
      steps_from-IsFresh steps s' (reset-IsFresh s' (interchange-reset tid_1 tid_2 s))
  steps_from-IsFresh (tickets_read ∷ steps) s h =
      steps_from-IsFresh steps (read_expected_tickets settings readings s).1 (read_lem s h).1

  new_schedule-IsFresh : (threads : List Thread) → IsFresh (new_schedule is_idle threads)
  unfolding new_schedule
  new_schedule-IsFresh threads = tt

  -- After any migrations, exchanges and readings of a new schedule, the tickets that are read are the
  -- sum over its threads as they are planned then.
  pub read_expected_tickets-total :
      (threads : List Thread) (steps : List ScheduleStep)
      → let s = steps_from steps (new_schedule is_idle threads) in
        (read_expected_tickets settings readings s).0 ≡ total_tickets s.threads
  read_expected_tickets-total threads steps =
      let s = steps_from steps (new_schedule is_idle threads) in
      (read_lem s
        (steps_from-IsFresh steps (new_schedule is_idle threads) (new_schedule-IsFresh threads))).0
