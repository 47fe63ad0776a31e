-- ===== src/Pages/Row/Reads.antt =====
-- The lives of a row, and what reading its ratios returns at any point of one.
use csci555_usc.Base.{ℕ, ◌≤◌, ◌≡◌, ◌∙◌, List, [], ◌∷◌, sum, ◌==◌, All, Bool-cases, inl, inr}
use csci555_usc.Real.{Real}
use csci555_usc.Machine.{Machine}
use csci555_usc.Pages.Row.{
  Row, Sample, new_row, clear, add_data, compute_ratios, read_ratios, increase_age,
}
use csci555_usc.Pages.Row.Laws.{IsValid, new_row-IsValid, clear-IsValid, add_data-IsValid}
use csci555_usc.Pages.Row.Ratios.{
  IsCached, ratios_of, new_row-IsCached, clear-IsCached, add_data-IsCached, increase_age-IsCached,
  read-IsCached, length-fill_ratios,
}

pub data RowStep (R : Type 0) : Type 0 where
  add : Sample → R → RowStep R
  clears ages reads : RowStep R

module _ {R : Type 0} ⦃real : Real R⦄ (machine : Machine) where
  unfoldable pub row_step : RowStep R → Row R → Row R
  unfolding clear add_data increase_age read_ratios
  row_step (add s aging) r = add_data machine s aging r
  row_step clears r = clear machine r
  row_step ages r = increase_age r
  row_step reads r = (read_ratios machine r).1

  -- A history, the last step first.
  unfoldable pub row_steps : List (RowStep R) → Row R → Row R
  unfolding row_step
  row_steps [] r = r
  row_steps (e ∷ older) r = row_step e (row_steps older r)

  abbrev pub StepIn : RowStep R → Type 0
  StepIn (add s aging) = s.page_node ≤ machine.max_node
  StepIn clears = Unit
  StepIn ages = Unit
  StepIn reads = Unit

  compute-IsValid : (r : Row R) → IsValid machine r → IsValid machine (compute_ratios machine r)
  unfolding compute_ratios
  compute-IsValid r v = elim (Bool-cases (sum r.raw_accesses == 0)) [
    | inl f ↦ rw (f, compute_ratios) v
    | inr f ↦
        rw (f, compute_ratios)
          (record {
            raw_length = v.raw_length;
            node_length = v.node_length;
            ratios_length = length-fill_ratios machine.nodes r.raw_accesses _ _ ∙ v.ratios_length;
            latencies_length = v.latencies_length;
            counted = v.counted;
            averaged = v.averaged;
            averaged_nodes = v.averaged_nodes;
          })
  ]

  read-IsValid : (r : Row R) → IsValid machine r → IsValid machine (read_ratios machine r).1
  unfolding read_ratios
  read-IsValid r v = elim (Bool-cases r.ratios_computed) [
    | inl e ↦ simp e v
    | inr e ↦ simp e (compute-IsValid r v)
  ]

  row_step-IsCached :
      (e : RowStep R) (r : Row R)
      → StepIn e
      → IsValid machine r × IsCached machine r
      → IsValid machine (row_step e r) × IsCached machine (row_step e r)
  unfolding row_step increase_age
  row_step-IsCached (add s aging) r h (v, c) =
      (add_data-IsValid machine s aging r h v, add_data-IsCached machine s aging r h v c)
  row_step-IsCached clears r h (v, c) = (clear-IsValid machine r v, clear-IsCached machine r v)
  row_step-IsCached ages r h (v, c) = (
    record {
      raw_length = v.raw_length;
      node_length = v.node_length;
      ratios_length = v.ratios_length;
      latencies_length = v.latencies_length;
      counted = v.counted;
      averaged = v.averaged;
      averaged_nodes = v.averaged_nodes;
    },
    increase_age-IsCached machine r c,
  )
  row_step-IsCached reads r h (v, c) = (read-IsValid r v, (read-IsCached machine r c).0)

  row_steps-IsCached :
      (steps : List (RowStep R)) (pid node : ℕ)
      → All StepIn steps
      → IsValid machine (row_steps steps (new_row machine pid node))
        × IsCached machine (row_steps steps (new_row machine pid node))
  unfolding row_steps
  row_steps-IsCached [] pid node h =
      (new_row-IsValid machine pid node, new_row-IsCached machine pid node)
  row_steps-IsCached (e ∷ older) pid node h =
      row_step-IsCached e _ h.0 (row_steps-IsCached older pid node h.1)

  -- After any samples of the machine's nodes, clearings, agings and earlier reads of a new row, a
  -- read returns the ratios of the raw accesses as they are now: all 0 of no accesses, and else for
  -- each node of the machine its part of them.
  pub read_ratios-ratios_of :
      (steps : List (RowStep R)) (pid node : ℕ)
      → All StepIn steps
      → let r = row_steps steps (new_row machine pid node) in
        (read_ratios machine r).0 ≡ ratios_of machine r.raw_accesses
  read_ratios-ratios_of steps pid node h =
      (read-IsCached machine _ (row_steps-IsCached steps pid node h).1).1
