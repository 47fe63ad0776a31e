-- ===== src/Tickets/Tests.antt =====
-- Runs of Tickets over the numbers, where a word is a number or nothing.
use csci555_usc.Base.{ℕ, ◌≡◌, refl, true, Option, none, some, [], ◌∷◌}
use csci555_usc.Real.{nat_real}
use csci555_usc.Tickets.{
  Tickets, Settings, plus_tickets, minus_tickets, default_settings, write_tickets_file,
  read_tickets_file, read_settings, extract_tickets, extract,
}
use csci555_usc.Tickets.Files.{with_numbers, read-write_tickets_file}

abbrev print : ℕ → Option ℕ
print v = some v

abbrev parse : Option ℕ → Option ℕ
parse word = word

abbrev tickets : ℕ → ℕ → Tickets ℕ
tickets value mask = record { value = value; mask = mask }

abbrev other_settings : Settings ℕ
other_settings = record {
  mem_cell_worse = tickets 9 1;
  mem_cell_no_data = tickets 9 2;
  mem_cell_better = tickets 9 4;
  free_core = tickets 9 8;
  pref_node = tickets 9 16;
  under_perf = tickets 9 32;
  perf_threshold = 9;
  undo_threshold = 9;
}

-- A reason that both had is lost.
shared_reason : (minus_tickets (plus_tickets (tickets 4 5) (tickets 2 1)) (tickets 2 1)).mask ≡ 4
unfolding minus_tickets plus_tickets
shared_reason = refl

read-write_tickets_file_example :
    read_tickets_file print parse
      (write_tickets_file print parse true default_settings none).1
      other_settings
    ≡ (true, with_numbers default_settings other_settings)
read-write_tickets_file_example =
    read-write_tickets_file print parse default_settings other_settings none
      (refl, (refl, (refl, (refl, (refl, (refl, (refl, (refl, tt))))))))

-- A word that is no number makes the variable 0, leaves the later ones and is not reported.
bad_word :
    read_tickets_file print parse (some (some 5 ∷ none ∷ some 7 ∷ [])) other_settings
    ≡ (true, record other_settings { mem_cell_worse = tickets 5 1; mem_cell_no_data = tickets 0 2 })
unfolding read_tickets_file read_settings extract_tickets extract
bad_word = refl
