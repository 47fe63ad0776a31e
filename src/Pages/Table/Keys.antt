-- ===== src/Pages/Table/Keys.antt =====
-- No page has two rows in the table of pages.
use csci555_usc.Base.{
  ℕ, ◌≡◌, refl, true, false, none, List, [], ◌∷◌, ◌++◌, arith, Option-cases, inl, inr,
}
use csci555_usc.Real.{Real}
use csci555_usc.Machine.{Machine}
use csci555_usc.Pages.Row.{Row, Sample}
use csci555_usc.Pages.Table.{
  find, modify, remove_all, invalid, with_entry, add_data, new_table, clear_it,
}
use csci555_usc.Pages.Table.History.{Distinct, find-modify, find-append, remove-Distinct}
use csci555_usc.Pages.Table.Averages.{TableStep, sampled, cleared, table_steps}

module _ {A : Type 0} where
  modify-Distinct :
      (q : ℕ) (f : A → A) (rows : List (ℕ × A)) → Distinct rows → Distinct (modify q f rows)
  unfolding modify find
  modify-Distinct q f [] d = tt
  modify-Distinct q f ((k, a) ∷ rows) d =
      ground (arith, find-modify k q f rows, modify-Distinct q f rows d.1)

  append-Distinct :
      (k : ℕ) (a : A) (rows : List (ℕ × A))
      → find k rows ≡ none
      → Distinct rows
      → Distinct (rows ++ (k, a) ∷ [])
  unfolding find
  append-Distinct k a [] h d = (refl, tt)
  append-Distinct k a ((j, b) ∷ rows) h d =
      ground (arith, find-append j k a rows, append-Distinct k a rows)

  remove_all-Distinct :
      (ps : List ℕ) (rows : List (ℕ × A)) → Distinct rows → Distinct (remove_all ps rows)
  unfolding remove_all
  remove_all-Distinct [] rows d = d
  remove_all-Distinct (p ∷ ps) rows d = remove_all-Distinct ps _ (remove-Distinct p rows d)

module _ {R : Type 0} ⦃real : Real R⦄ (machine : Machine) where
  with_entry-Distinct :
      (s : Sample) (rows : List (ℕ × Row R)) → Distinct rows → Distinct (with_entry machine s rows)
  unfolding with_entry
  with_entry-Distinct s rows d = elim (Option-cases (find s.page rows)) [
    | inl e ↦ rw (with_entry, e) (append-Distinct s.page _ rows e d)
    | inr (r, e) ↦ rw (with_entry, e) d
  ]

  -- After any samples and clearings no page has two rows in the table.
  pub table_steps-Distinct :
      (steps : List (TableStep R)) → Distinct (table_steps machine steps).table
  unfolding table_steps new_table add_data clear_it
  table_steps-Distinct [] = tt
  table_steps-Distinct (sampled s aging ∷ older) =
      modify-Distinct s.page _ _ (with_entry-Distinct s _ (table_steps-Distinct older))
  table_steps-Distinct (cleared true contains ∷ older) = tt
  table_steps-Distinct (cleared false contains ∷ older) =
      remove_all-Distinct (invalid contains (table_steps machine older).table) _
        (table_steps-Distinct older)
