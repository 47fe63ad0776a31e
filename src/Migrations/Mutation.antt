-- ===== src/Migrations/Mutation.antt =====
-- How the tickets of the reasons change.
use csci555_usc.Base.{ℕ, ◌≡◌, refl, ◌∙◌, false, Bool-cases, inl, inr, List, [], ◌∷◌}
use csci555_usc.Real.{Real}
use csci555_usc.Tickets.{
  Tickets, Settings, has_mask, mem_cell_worse_mask, mem_cell_no_data_mask, mem_cell_better_mask,
  free_core_mask, pref_node_mask, thread_under_perf_mask,
}
use csci555_usc.Threads.Cells.{SimpleCell}
use csci555_usc.Migrations.{
  MigrationCell, mutate_ticket, mutate_if, mutate_all, mutate_each, mutate_tickets,
}

module _ {R G : Type 0} ⦃real : Real R⦄ (rnd : R → G → R × G) where
  -- The tickets have the mask they had, and are the same if their reason is not in the mask.
  abbrev pub Kept : ℕ → ℕ → Tickets R → Tickets R → Type 0
  Kept mask reason t t' = (t'.mask ≡ t.mask) × (has_mask mask reason ≡ false → t' ≡ t)

  -- Only the tickets of the reasons in a mask differ, and those only in their number.
  abbrev pub IsMutation : ℕ → Settings R → Settings R → Type 0
  IsMutation mask s s' =
      Kept mask mem_cell_worse_mask s.mem_cell_worse s'.mem_cell_worse
      × Kept mask mem_cell_no_data_mask s.mem_cell_no_data s'.mem_cell_no_data
      × Kept mask mem_cell_better_mask s.mem_cell_better s'.mem_cell_better
      × Kept mask free_core_mask s.free_core s'.free_core
      × Kept mask pref_node_mask s.pref_node s'.pref_node
      × Kept mask thread_under_perf_mask s.under_perf s'.under_perf
      × (s'.perf_threshold ≡ s.perf_threshold)
      × (s'.undo_threshold ≡ s.undo_threshold)

  mutate_if-Kept :
      (mask reason : ℕ) (t : Tickets R) (range diff : R) (g : G)
      → Kept mask reason t (mutate_if rnd mask reason t range diff g).0
  unfolding mutate_if mutate_ticket
  mutate_if-Kept mask reason t range diff g = elim (Bool-cases (has_mask mask reason)) [
    | inl e ↦ simp e (refl, λ h. cc h)
    | inr e ↦ simp e (refl, λ h. refl)
  ]

  Kept-trans :
      (mask reason : ℕ) (a b c : Tickets R)
      → Kept mask reason a b
      → Kept mask reason b c
      → Kept mask reason a c
  Kept-trans mask reason a b c p q = (q.0 ∙ p.0, λ h. q.1 h ∙ p.1 h)

  IsMutation-trans :
      (mask : ℕ) (a b c : Settings R)
      → IsMutation mask a b
      → IsMutation mask b c
      → IsMutation mask a c
  IsMutation-trans mask a b c (p0, p1, p2, p3, p4, p5, p6, p7) (q0, q1, q2, q3, q4, q5, q6, q7) = (
    Kept-trans mask mem_cell_worse_mask a.mem_cell_worse b.mem_cell_worse c.mem_cell_worse p0 q0,
    Kept-trans mask mem_cell_no_data_mask a.mem_cell_no_data b.mem_cell_no_data c.mem_cell_no_data
        p1 q1,
    Kept-trans mask mem_cell_better_mask a.mem_cell_better b.mem_cell_better c.mem_cell_better p2
        q2,
    Kept-trans mask free_core_mask a.free_core b.free_core c.free_core p3 q3,
    Kept-trans mask pref_node_mask a.pref_node b.pref_node c.pref_node p4 q4,
    Kept-trans mask thread_under_perf_mask a.under_perf b.under_perf c.under_perf p5 q5,
    q6 ∙ p6,
    q7 ∙ p7,
  )

  same-IsMutation : (mask : ℕ) (s : Settings R) → IsMutation mask s s
  same-IsMutation mask s = (
    (refl, λ h. refl),
    (refl, λ h. refl),
    (refl, λ h. refl),
    (refl, λ h. refl),
    (refl, λ h. refl),
    (refl, λ h. refl),
    refl,
    refl,
  )

  mutate_all-IsMutation :
      (mask : ℕ) (range diff : R) (s : Settings R) (g : G)
      → IsMutation mask s (mutate_all rnd mask range diff s g).0
  unfolding mutate_all
  mutate_all-IsMutation mask range diff s g =
      let worse = mutate_if rnd mask mem_cell_worse_mask s.mem_cell_worse range diff g in
      let no_data =
        mutate_if rnd mask mem_cell_no_data_mask s.mem_cell_no_data range diff worse.1 in
      let better = mutate_if rnd mask mem_cell_better_mask s.mem_cell_better range diff no_data.1 in
      let core = mutate_if rnd mask free_core_mask s.free_core range diff better.1 in
      let pref = mutate_if rnd mask pref_node_mask s.pref_node range diff core.1 in
      (
        mutate_if-Kept mask mem_cell_worse_mask s.mem_cell_worse range diff g,
        mutate_if-Kept mask mem_cell_no_data_mask s.mem_cell_no_data range diff worse.1,
        mutate_if-Kept mask mem_cell_better_mask s.mem_cell_better range diff no_data.1,
        mutate_if-Kept mask free_core_mask s.free_core range diff better.1,
        mutate_if-Kept mask pref_node_mask s.pref_node range diff core.1,
        mutate_if-Kept mask thread_under_perf_mask s.under_perf range diff pref.1,
        refl,
        refl,
      )

  module _ (performance_of : ℕ → R) where
    mutate_each-IsMutation :
        (mask : ℕ) (range : R) (cs : List (SimpleCell R)) (s : Settings R) (g : G)
        → IsMutation mask s (mutate_each rnd performance_of mask range cs s g).0
    unfolding mutate_each
    mutate_each-IsMutation mask range [] s g = same-IsMutation mask s
    mutate_each-IsMutation mask range (c ∷ cs) s g =
        let diff = real.over (performance_of c.tid) c.prev_perf in
        let improvement = real.times (real.of_nat 100) (real.minus diff (real.of_nat 1)) in
        let r = mutate_all rnd mask range improvement s g in
        IsMutation-trans mask s r.0 (mutate_each rnd performance_of mask range cs r.0 r.1).0
          (mutate_all-IsMutation mask range improvement s g)
          (mutate_each-IsMutation mask range cs r.0 r.1)

    -- After a migration, whatever the random numbers and the performance, the tickets of the reasons
    -- that it was not given for are what they were, and no mask and no threshold changes.
    pub mutate_tickets-IsMutation :
        (migrs : MigrationCell R) (range : R) (s : Settings R) (g : G)
        → IsMutation migrs.tickets.mask s (mutate_tickets rnd performance_of migrs range s g).0
    unfolding mutate_tickets
    mutate_tickets-IsMutation migrs range s g =
        mutate_each-IsMutation migrs.tickets.mask range migrs.migrations s g
