-- ===== src/Tickets/Files.antt =====
-- Writing the tickets to a file and reading them from it.
use csci555_usc.Base.{◌≡◌, refl, true, Option, some, List, ◌∷◌, All}
use csci555_usc.Real.{Real}
use csci555_usc.Tickets.{
  Tickets, Settings, extract, extract_tickets, read_settings, read_tickets_file, numbers, print_all,
  write_tickets_file,
}

-- Variables with the numbers of the first and the masks of the second.
abbrev pub with_numbers : {R : Type 0} → Settings R → Settings R → Settings R
with_numbers s t = record {
  mem_cell_worse = record t.mem_cell_worse { value = s.mem_cell_worse.value };
  mem_cell_no_data = record t.mem_cell_no_data { value = s.mem_cell_no_data.value };
  mem_cell_better = record t.mem_cell_better { value = s.mem_cell_better.value };
  free_core = record t.free_core { value = s.free_core.value };
  pref_node = record t.pref_node { value = s.pref_node.value };
  under_perf = record t.under_perf { value = s.under_perf.value };
  perf_threshold = s.perf_threshold;
  undo_threshold = s.undo_threshold;
}

module _ {R Word : Type 0} ⦃real : Real R⦄ (print : R → Word) (parse : Word → Option R) where
  extract_printed :
      (v old : R) (words : List Word)
      → parse (print v) ≡ some v
      → extract print parse (some (print v ∷ words)) old ≡ (v, some words)
  unfolding extract
  extract_printed v old words h = rw (extract, h) refl

  extract_tickets_printed :
      (v : R) (t : Tickets R) (words : List Word)
      → parse (print v) ≡ some v
      → extract_tickets print parse (some (print v ∷ words)) t
        ≡ (record t { value = v }, some words)
  unfolding extract_tickets
  extract_tickets_printed v t words h = simp (extract_printed v t.value words h) refl

  -- Where each number of the variables is read back as it was printed, a file that was written can be
  -- read: it gives the variables, whatever they were, the numbers that were written, and keeps their
  -- masks.
  pub read-write_tickets_file :
      (s t : Settings R) (file : Option (List Word))
      → All (λ v. parse (print v) ≡ some v) (numbers s)
      → read_tickets_file print parse (write_tickets_file print parse true s file).1 t
        ≡ (true, with_numbers s t)
  unfolding write_tickets_file print_all read_tickets_file read_settings extract_tickets extract
  read-write_tickets_file s t file h =
      simp
        (
          extract, h.0, h.1.0, h.1.1.0, h.1.1.1.0, h.1.1.1.1.0, h.1.1.1.1.1.0, h.1.1.1.1.1.1.0,
          h.1.1.1.1.1.1.1.0,
        )
        refl
