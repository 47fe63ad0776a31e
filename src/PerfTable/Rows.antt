-- ===== src/PerfTable/Rows.antt =====
-- The rows of the table of threads after an update, and the performances in them.
use csci555_usc.Base.{
  ℕ, ◌<◌, ◌≡◌, ◌∙◌, ◌⊎◌, ◌||◌, false, get_or, length, Elem, refl, sym, ap, Bool, true, Bool-cases,
  inl, inr, not, ◌&&◌, Option, none, some, List, [], ◌∷◌, ◌==◌, ==→eq, if◌then◌else◌,
}
use csci555_usc.Real.{Real}
use csci555_usc.Machine.{Machine}
use csci555_usc.Pages.Table.{find}
use csci555_usc.Rm3d.{Rm3d, calc_perf}
use csci555_usc.Rm3d.Current.{perf_now, calc_unflagged, calc_perf-perf_now}
use csci555_usc.PerfTable.{
  TidRow, PerfTable, Sums, ThreadReadings, calculated, calc_rows, check_running, calc_table_perf,
  update,
}

module _ {R : Type 0} ⦃real : Real R⦄ (machine : Machine) (cache_line_size : ℕ) (invalid_value : R)
    (decay : ℕ → R) (threads : ThreadReadings R) where
  -- What an update does to the row of a thread: it runs if it ran or runs now, and then its
  -- performances are computed.
  abbrev pub updated : (ℕ → Bool) → ℕ → ℕ → TidRow R → TidRow R
  updated is_running now tid r =
      let s : TidRow R =
        if not r.running && is_running tid then record r { running = true } else r in
      if s.running then calculated machine cache_line_size invalid_value decay threads now s else s

  abbrev pub updated_row : (ℕ → Bool) → ℕ → ℕ → Option (TidRow R) → Option (TidRow R)
  updated_row is_running now tid none = none
  updated_row is_running now tid (some r) = some (updated is_running now tid r)

  rows_lem :
      (is_running : ℕ → Bool) (now tid : ℕ) (rows : List (ℕ × TidRow R)) (s : Sums R)
      → find tid
          (calc_rows machine cache_line_size invalid_value decay threads now
            (check_running machine invalid_value is_running rows)
            s).0
        ≡ updated_row is_running now tid (find tid rows)
  unfolding find calc_rows check_running
  rows_lem is_running now tid [] s = refl
  rows_lem is_running now tid ((k, r) ∷ rows) s = elim (Bool-cases (tid == k)) [
    | inl e ↦ simp e (ap (λ i. some (updated is_running now i r)) (sym (==→eq tid k e)))
    | inr e ↦ simp e (rows_lem is_running now tid rows _)
  ]

  update-updated_row :
      (is_running : ℕ → Bool) (now tid : ℕ) (t : PerfTable R)
      → find tid (update machine cache_line_size invalid_value decay threads is_running now t).table
        ≡ updated_row is_running now tid (find tid t.table)
  unfolding update calc_table_perf
  update-updated_row is_running now tid t = rows_lem is_running now tid t.table _

  -- The performance of a node in a row that was `r`: that of its counters if samples have flagged the
  -- node, else the one it was.
  abbrev pub Current : ℕ → ℕ → TidRow R → TidRow R → Type 0
  Current now node r s =
      let perf = get_or s.performance.perfs node invalid_value in
      ((get_or r.performance.perfs_update node false ≡ true)
        × (perf
            ≡ perf_now machine.minimum_latency cache_line_size invalid_value now node
                r.performance))
      ⊎ ((get_or r.performance.perfs_update node false ≡ false)
          × (perf ≡ get_or r.performance.perfs node invalid_value))

  -- What becomes of a row: nothing, if the thread neither ran nor runs; else it counts as running, and
  -- has the current performance of the node.
  abbrev pub BecomesCurrent : (ℕ → Bool) → ℕ → ℕ → ℕ → TidRow R → TidRow R → Type 0
  BecomesCurrent is_running now tid node r s =
      ((r.running ≡ false) × (is_running tid ≡ false) × (s ≡ r))
      ⊎ (((r.running || is_running tid) ≡ true) × (s.running ≡ true) × Current now node r s)

  calculated-Current :
      (now node : ℕ) (r s : TidRow R)
      → s.performance ≡ r.performance
      → Elem node machine.nodes
      → node < length r.performance.perfs
      → Current now node r (calculated machine cache_line_size invalid_value decay threads now s)
  calculated-Current now node r s same known inside =
      elim (Bool-cases (get_or r.performance.perfs_update node false)) [
        | inl e ↦ inl (
          e,
          ap (performance_of) same
              ∙ calc_perf-perf_now machine.minimum_latency cache_line_size invalid_value now node
                  machine.nodes r.performance known inside e,
        )
        | inr e ↦ inr (
          e,
          ap (performance_of) same
              ∙ calc_unflagged machine.minimum_latency cache_line_size invalid_value now node
                  machine.nodes r.performance e,
        )
      ]
    where
      performance_of : Rm3d R → R
      performance_of m =
          get_or
            (calc_perf machine.minimum_latency cache_line_size invalid_value now machine.nodes
              m).perfs
            node invalid_value

  -- For a thread with a row in the table, and a node of the machine that the row has room for: after
  -- an update the thread has a row. If it did not run since the table was cleared and does not run now, this is the row it was;
  -- else the row says that it runs, and the performance of the node is that of its counters if samples
  -- have flagged the node, and the one it was otherwise.
  pub update-BecomesCurrent :
      (is_running : ℕ → Bool) (now tid node : ℕ) (t : PerfTable R) (r : TidRow R)
      → find tid t.table ≡ some r
      → Elem node machine.nodes
      → node < length r.performance.perfs
      → (s : TidRow R) × (find tid
            (update machine cache_line_size invalid_value decay threads is_running now t).table
          ≡ some s)
        × BecomesCurrent is_running now tid node r s
  update-BecomesCurrent is_running now tid node t r found known inside = (
    updated is_running now tid r,
    update-updated_row is_running now tid t ∙ ap (updated_row is_running now tid) found,
    go (Bool-cases r.running) (Bool-cases (is_running tid)),
  )
    where
      go :
          (r.running ≡ true) ⊎ (r.running ≡ false)
          → (is_running tid ≡ true) ⊎ (is_running tid ≡ false)
          → BecomesCurrent is_running now tid node r (updated is_running now tid r)
      go (inl a) b = simp a (
          inr (
            refl,
            refl,
            calculated-Current now node r (record r { running = true }) refl known inside,
          ))
      go (inr a) (inl b) =
          simp (a, b)
            (inr (
              refl,
              refl,
              calculated-Current now node r (record r { running = true }) refl known inside,
            ))
      go (inr a) (inr b) = simp (a, b) (inl (refl, refl, refl))
