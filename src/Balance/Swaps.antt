-- ===== src/Balance/Swaps.antt =====
-- The search for the thread to swap with.
use csci555_usc.Base.{
  ℕ, ◌≡◌, refl, sym, ap, subst, ◌∙◌, ◌⊎◌, inl, inr, Bool, true, false, Bool-cases, not, ◌&&◌,
  Option, none, some, List, [], ◌∷◌, ◌==◌, arith, if◌then◌else◌, contains, All, get_or, length,
  eq→==, ==→eq,
}
use csci555_usc.Real.{Real}
use csci555_usc.Tickets.{Tickets, Settings, no_tickets}
use csci555_usc.Threads.{System}
use csci555_usc.Threads.Moves.{non_idle}
use csci555_usc.Migrations.{Readings, tickets_between}
use csci555_usc.Balance.{best_from, best_pid, best_pid_for_swap_cpu}

module _ {R : Type 0} ⦃real : Real R⦄ (readings : Readings R) (tickets_of : ℕ → Tickets R)
    (migrated_pids : List ℕ) where
  open real use {lt, of_nat}

  abbrev pub eligible : ℕ → Bool
  eligible tid = readings.is_migratable tid && not (contains tid migrated_pids)

  -- No thread of a list that may be migrated has more tickets.
  abbrev pub Best : R → List ℕ → Type 0
  Best v tids = All (λ x. eligible x ≡ true → lt v (tickets_of x).value ≡ false) tids

  -- The scan ends with what it had, or with a thread of the list that may be migrated and has more.
  abbrev Scanned : ℕ → Tickets R → List ℕ → ℕ × Tickets R → Type 0
  Scanned t tickets tids r =
      Best r.1.value tids
      × ((r ≡ (t, tickets))
          ⊎ ((contains r.0 tids ≡ true)
              × (eligible r.0 ≡ true)
              × (r.1 ≡ tickets_of r.0)
              × (lt tickets.value r.1.value ≡ true)))

  raised : (a b x : R) → lt a b ≡ true → lt a x ≡ false → lt b x ≡ false
  raised a b x h k = elim (Bool-cases (lt b x)) [
    | inl e ↦ cc (real.lt_order.trans a b x h e, k)
    | inr e ↦ e
  ]

  not_more : (a b : R) → lt a b ≡ true → lt b a ≡ false
  not_more a b h = elim (Bool-cases (lt b a)) [
    | inl e ↦ cc (real.lt_order.trans a b a h e, real.lt_order.irrefl a)
    | inr e ↦ e
  ]

  -- A round that takes the next thread, and one that does not.
  taken :
      (x t : ℕ) (tickets : Tickets R) (tids : List ℕ) (r : ℕ × Tickets R)
      → eligible x ≡ true
      → lt tickets.value (tickets_of x).value ≡ true
      → Scanned x (tickets_of x) tids r
      → Scanned t tickets (x ∷ tids) r
  taken x t tickets tids r ok more (best, inl e) = (
    (
      λ h.
          ap (λ s. lt s.1.value (tickets_of x).value) e ∙ real.lt_order.irrefl (tickets_of x).value,
      best,
    ),
    inr (
      ground (arith, eq→== r.0 x (ap (λ s. s.0) e)),
      ap (λ s. eligible s.0) e ∙ ok,
      ap (λ s. s.1) e ∙ ap tickets_of (sym (ap (λ s. s.0) e)),
      ap (λ s. lt tickets.value s.1.value) e ∙ more,
    ),
  )
  taken x t tickets tids r ok more (best, inr (there, fine, own, up)) = (
    (λ h. not_more (tickets_of x).value r.1.value up, best),
    inr (
      ground (arith, there),
      fine,
      own,
      real.lt_order.trans tickets.value (tickets_of x).value r.1.value more up,
    ),
  )

  left :
      (x t : ℕ) (tickets : Tickets R) (tids : List ℕ) (r : ℕ × Tickets R)
      → (eligible x ≡ true → lt tickets.value (tickets_of x).value ≡ false)
      → Scanned t tickets tids r
      → Scanned t tickets (x ∷ tids) r
  left x t tickets tids r less (best, inl e) =
      ((λ h. ap (λ s. lt s.1.value (tickets_of x).value) e ∙ less h, best), inl e)
  left x t tickets tids r less (best, inr (there, fine, own, up)) = (
    (λ h. raised tickets.value r.1.value (tickets_of x).value up (less h), best),
    inr (ground (arith, there), fine, own, up),
  )

  abbrev scan : List ℕ → ℕ → Tickets R → ℕ × Tickets R
  scan tids t tickets = best_from readings tickets_of migrated_pids tids t tickets

  scan_taken :
      (x : ℕ) (tids : List ℕ) (t : ℕ) (tickets : Tickets R)
      → eligible x && lt tickets.value (tickets_of x).value ≡ true
      → scan tids x (tickets_of x) ≡ scan (x ∷ tids) t tickets
  unfolding best_from
  scan_taken x tids t tickets h = rw h

  scan_left :
      (x : ℕ) (tids : List ℕ) (t : ℕ) (tickets : Tickets R)
      → eligible x && lt tickets.value (tickets_of x).value ≡ false
      → scan tids t tickets ≡ scan (x ∷ tids) t tickets
  unfolding best_from
  scan_left x tids t tickets h = rw h

  best_from-Scanned :
      (tids : List ℕ) (t : ℕ) (tickets : Tickets R) → Scanned t tickets tids (scan tids t tickets)
  unfolding best_from
  best_from-Scanned [] t tickets = (tt, inl refl)
  best_from-Scanned (x ∷ tids) t tickets =
      elim (Bool-cases (eligible x && lt tickets.value (tickets_of x).value)) [
        | inl e ↦ subst (Scanned t tickets (x ∷ tids)) (scan_taken x tids t tickets e) (
            taken x t tickets tids (scan tids x (tickets_of x)) (ground (arith, e))
              (ground (arith, e)) (best_from-Scanned tids x (tickets_of x)))
        | inr e ↦ subst (Scanned t tickets (x ∷ tids)) (scan_left x tids t tickets e) (
            left x t tickets tids (scan tids t tickets) (λ h. ground (arith, e, h))
              (best_from-Scanned tids t tickets))
      ]

  -- A thread of a list that may be migrated and has tickets, which no other has more of; or no
  -- thread, where none that may be migrated has any.
  abbrev pub IsBestPid : List ℕ → Option (ℕ × Tickets R) → Type 0
  IsBestPid tids none = Best (of_nat 0) tids
  IsBestPid tids (some (tid, tickets)) =
      (contains tid tids ≡ true)
      × (eligible tid ≡ true)
      × (tickets ≡ tickets_of tid)
      × (lt (of_nat 0) tickets.value ≡ true)
      × Best tickets.value tids

  chosen :
      (tids : List ℕ) (r : ℕ × Tickets R)
      → contains 0 tids ≡ false
      → Scanned 0 no_tickets tids r
      → IsBestPid tids (if r.0 == 0 then none else some r)
  chosen tids r no_zero (best, inl e) =
      simp (eq→== r.0 0 (ap (λ s. s.0) e)) (subst (λ s. Best s.1.value tids) e best)
  chosen tids r no_zero (best, inr (there, fine, own, up)) =
      let nonzero : r.0 == 0 ≡ false = nonzero_in r.0 tids no_zero there in
      simp nonzero (there, fine, own, up, best)
    where
      nonzero_in :
          (t : ℕ) (tids : List ℕ)
          → contains 0 tids ≡ false
          → contains t tids ≡ true
          → t == 0 ≡ false
      nonzero_in t tids out there = elim (Bool-cases (t == 0)) [
        | inl e ↦ cc (ap (λ n. contains n tids) (==→eq t 0 e), out, there)
        | inr e ↦ e
      ]

  pub best_pid-IsBestPid :
      (tids : List ℕ)
      → contains 0 tids ≡ false
      → IsBestPid tids (best_pid readings tickets_of migrated_pids tids)
  unfolding best_pid
  best_pid-IsBestPid tids no_zero =
      chosen tids (scan tids 0 no_tickets) no_zero (best_from-Scanned tids 0 no_tickets)

module _ {R : Type 0} ⦃real : Real R⦄ (settings : Settings R) (readings : Readings R) where
  -- The tickets of a thread of one processor for its way to another.
  abbrev pub swap_tickets_cpu : System → ℕ → ℕ → ℕ → Tickets R
  swap_tickets_cpu st src_cpu dst_cpu tid =
      tickets_between settings readings tid (get_or st.cpu_node_map dst_cpu 0)
        (get_or st.cpu_node_map src_cpu 0) (length (get_or st.cpu_tid_map src_cpu []) == 0)

  -- Where no thread has the number 0: the thread to swap with is one of the destination that is not
  -- idle, may be migrated, was not migrated yet and has more than no tickets for the way back, which no
  -- other such thread has more of; there is none only if no such thread has more than no tickets.
  pub best_pid_for_swap_cpu-IsBestPid :
      (src_cpu dst_cpu : ℕ) (migrated_pids : List ℕ) (st : System)
      → contains 0 (non_idle readings.is_idle (get_or st.cpu_tid_map dst_cpu [])) ≡ false
      → IsBestPid readings
          (swap_tickets_cpu st src_cpu dst_cpu)
          migrated_pids
          (non_idle readings.is_idle (get_or st.cpu_tid_map dst_cpu []))
          (best_pid_for_swap_cpu settings readings src_cpu dst_cpu migrated_pids st)
  unfolding best_pid_for_swap_cpu
  best_pid_for_swap_cpu-IsBestPid src_cpu dst_cpu migrated_pids st no_zero =
      best_pid-IsBestPid readings (swap_tickets_cpu st src_cpu dst_cpu) migrated_pids
        (non_idle readings.is_idle (get_or st.cpu_tid_map dst_cpu [])) no_zero
