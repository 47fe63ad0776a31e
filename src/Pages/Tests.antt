-- ===== src/Pages/Tests.antt =====
-- Runs of the functions of Pages on a machine of two nodes, and the theorems at inputs that meet
-- their hypotheses. The reals are numbers here.
use csci555_usc.Base.{ℕ, ◌/◌, ◌≡◌, refl, false, none, some, List, [], ◌∷◌, arith, ◌==◌}
use csci555_usc.Real.{nat_real}
use csci555_usc.Machine.{Machine}
use csci555_usc.Pages.Row as PagesRow
use csci555_usc.Pages.Row.{Row, Sample, new_row, read_ratios, preferred_node}
use csci555_usc.Pages.Row.Laws.{
  IsValid, new_row-IsValid, add_data-IsValid, add_samples-IsWithin, IsWithin, SamplesIn,
}
use csci555_usc.Pages.Row.Laws as RowLaws
use csci555_usc.Pages.Row.Ratios.{ratios_of}
use csci555_usc.Pages.Row.Reads.{
  RowStep, add, clears, ages, reads, row_step, row_steps, read_ratios-ratios_of,
}
use csci555_usc.Pages.Table.{
  Table, find, add_data, new_table, clear_it, rel_latency, pages_with_enough_info,
}
use csci555_usc.Pages.Table.History.{add_samples, samples_of, row_of, add_samples-row_of}
use csci555_usc.Pages.Table.Averages.{
  IsAveraged, TableStep, sampled, cleared, table_steps, table_steps-IsAveraged,
}

abbrev two_nodes : Machine
two_nodes = record {
  max_node = 1;
  nodes = 0 ∷ 1 ∷ [];
  node_from_cpu = λ cpu. cpu / 4;
  minimum_latency = 10;
}

abbrev sample : ℕ → ℕ → ℕ → Sample
sample page node latency = record {
  cpu = 5;
  tid = 7;
  page = page;
  page_node = node;
  latency = latency;
  reqs = 3;
}

abbrev fresh : Row ℕ
fresh = new_row two_nodes 7 0

abbrev row_history : List (Sample × ℕ)
row_history = (sample 100 1 40, 1) ∷ (sample 100 0 21, 1) ∷ []

add_samples-IsWithin_example :
    IsWithin two_nodes 10 50
      (RowLaws.add_samples two_nodes row_history (PagesRow.clear two_nodes fresh))
add_samples-IsWithin_example =
    add_samples-IsWithin two_nodes 10 50 row_history fresh (omega arith)
      (new_row-IsValid two_nodes 7 0)

abbrev row_life : List (RowStep ℕ)
row_life = ages ∷ add (sample 100 1 40) 1 ∷ reads ∷ clears ∷ add (sample 100 0 21) 1 ∷ []

read_ratios-ratios_of_example :
    (read_ratios two_nodes (row_steps two_nodes row_life fresh)).0
    ≡ ratios_of {R = ℕ} two_nodes (row_steps two_nodes row_life fresh).raw_accesses
read_ratios-ratios_of_example = read_ratios-ratios_of two_nodes row_life 7 0 (omega arith)

-- The last read gives all accesses to node 1, where the sample after the clearing was.
ratios_after :
    ratios_of {R = ℕ} two_nodes (row_steps two_nodes row_life fresh).raw_accesses ≡ 0 ∷ 1 ∷ []
unfolding row_steps row_step PagesRow.new_row PagesRow.add_data PagesRow.clear read_ratios ratios_of
ratios_after = refl

abbrev one_sample : Table ℕ
one_sample = add_data two_nodes (sample 100 1 40) 1 (new_table two_nodes)

abbrev history : List (Sample × ℕ)
history = (sample 100 1 40, 1) ∷ (sample 200 0 21, 1) ∷ (sample 100 0 30, 1) ∷ []

add_samples-row_of_example :
    find 100 (add_samples two_nodes history (new_table two_nodes)).table
    ≡ row_of two_nodes (samples_of 100 history)
add_samples-row_of_example = add_samples-row_of two_nodes 100 history

abbrev steps : List (TableStep ℕ)
steps =
    sampled (sample 100 1 40) 1
    ∷ cleared false (λ page. page == 200)
    ∷ sampled (sample 200 0 21) 1
    ∷ sampled (sample 100 0 30) 1
    ∷ []

abbrev stepped : Table ℕ
stepped = table_steps two_nodes steps

table_steps-IsAveraged_example : IsAveraged two_nodes 10 50 stepped
table_steps-IsAveraged_example =
    table_steps-IsAveraged two_nodes 10 50 steps (omega arith) (omega arith)

-- The state after the steps: page 200 was kept with its row, page 100 begun anew.
table_after :
    (stepped.av_latency ≡ 40)
    × (stepped.accesses ≡ 3)
    × (stepped.node_latencies ≡ 10 ∷ 40 ∷ [])
    × (rel_latency 100 stepped ≡ some 100)
    × (rel_latency 300 stepped ≡ none)
    × (pages_with_enough_info stepped ≡ 0)
unfolding add_data clear_it new_table table_steps rel_latency pages_with_enough_info
    PagesRow.add_data PagesRow.new_row PagesRow.enough_info
table_after = (refl, refl, refl, refl, refl, refl)
