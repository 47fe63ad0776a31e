-- ===== src/Strategy/Tests.antt =====
-- Runs of the page migration strategies on a machine of two nodes, and the theorems at inputs that
-- meet their hypotheses. The reals are numbers here, the sort leaves the order, and every call of
-- libnuma succeeds and counts.
use csci555_usc.Base.{
  ℕ, suc, ◌/◌, ◌≡◌, refl, Bool, true, false, List, [], ◌∷◌, arith, All, map, take_while,
  max_element, insert_all,
}
use csci555_usc.Real.{nat_real}
use csci555_usc.Machine.{Machine}
use csci555_usc.Memory.Thp.{fake_thp_enabled}
use csci555_usc.Memory.Move.{page_run}
use csci555_usc.Pages.Row.{Row, enough_info, preferred_node, read_ratios}
use csci555_usc.Pages.Table.{Table, find}
use csci555_usc.Strategy.{Cell, Candidate, Settings, wanted, prefetch_candidates}
use csci555_usc.Strategy.Prefetch.{prefetch_candidates-take_while}
use csci555_usc.Strategy.Select.{moves}
use csci555_usc.Strategy.Consider.{consider_table}
use csci555_usc.Strategy.Consider.Coverage.{Fresh, consider_table-Fresh}
use csci555_usc.Strategy.Tmma.{min_ratio_to_mig, tmma_choose, tmma_all_pages, tmma_n_pages}
use csci555_usc.Strategy.Tmma.Laws.{
  IsOverThreshold, tmma_all_pages-IsOverThreshold, tmma_all_pages-moves,
}
use csci555_usc.Strategy.Lmma.{relative, lmma_all_pages}
use csci555_usc.Strategy.Lmma.Laws.{IsRelief, lmma_all_pages-IsRelief, lmma_all_pages-moves}
use csci555_usc.Strategy.Rmma.{rmma_n_pages}
use csci555_usc.Strategy.Rmma.Laws.{DrawsIn}

abbrev two_nodes : Machine
two_nodes = record {
  max_node = 1;
  nodes = 0 ∷ 1 ∷ [];
  node_from_cpu = λ cpu. cpu / 4;
  minimum_latency = 10;
}

abbrev settings : Settings ℕ
settings = record {
  memory_prefetch_size = 2;
  portion_memory_migrations = 1;
  pagesize = 4096;
  fake_thp_size = 0;
  thps = [];
  num_of_nodes = 2;
}

-- A row accessed from node 1 alone, last from node 0.
abbrev row : ℕ → ℕ → Row ℕ
row samples latency = record {
  ratios_computed = false;
  samples_count = samples;
  age = 0;
  ratios = 0 ∷ 0 ∷ [];
  raw_accesses = 0 ∷ samples ∷ [];
  node_accesses = 0 ∷ samples ∷ [];
  av_latencies = 0 ∷ latency ∷ [];
  av_latencies_ctr = 0 ∷ samples ∷ [];
  av_latency = latency;
  av_latency_ctr = samples;
  last_pid = 7;
  last_node = 0;
}

abbrev rows : List (ℕ × Row ℕ)
rows = (4096, row 11 200) ∷ (8192, row 12 200) ∷ (40960, row 15 90) ∷ (81920, row 3 300) ∷ []

abbrev table : Table ℕ
table = record {
  table = rows;
  accesses = 41;
  av_latency = 100;
  node_latencies = 90 ∷ 110 ∷ [];
  node_accesses = 0 ∷ 41 ∷ [];
}

prefetch_candidates-take_while_example :
    prefetch_candidates settings rows 4096 1 ≡ take_while (wanted rows 1) (page_run 2 1 4096 4096)
unfolding fake_thp_enabled
prefetch_candidates-take_while_example =
    prefetch_candidates-take_while settings rows 4096 1 (omega arith) refl

prefetched :
    (prefetch_candidates settings rows 4096 1 ≡ 8192 ∷ 12288 ∷ [])
    × (prefetch_candidates settings rows 4096 0 ≡ [])
unfolding prefetch_candidates max_element
prefetched = (refl, refl)

abbrev huge : Settings ℕ
huge = record settings {
  fake_thp_size = 2;
  thps =
      (4096, record { start = 4096; end = 12288 })
      ∷ (12288, record { start = 12288; end = 20480 })
      ∷ [];
}

abbrev cell : List ℕ → ℕ → ℕ → Cell ℕ
cell addr pid dst = record { addr = addr; pid = pid; src = 0; dst = dst; ratios = 0 ∷ 1 ∷ [] }

abbrev cells : List (Cell ℕ)
cells = cell (1 ∷ 2 ∷ []) 7 1 ∷ cell (3 ∷ []) 8 1 ∷ cell (4 ∷ []) 7 0 ∷ []

-- The state counts the calls.
abbrev numa_move_pages : ℕ → List ℕ → List ℕ → ℕ → Bool × ℕ
numa_move_pages pid pages nodes calls = (true, suc calls)

abbrev sort : List (Candidate ℕ) → List (Candidate ℕ)
sort cs = cs

abbrev candidates : List (Candidate ℕ)
candidates =
    record { page = 1; ratio = 1; cell = cell (1 ∷ []) 7 1 }
    ∷ record { page = 3; ratio = 1; cell = cell (3 ∷ []) 8 1 }
    ∷ []

consider_table-Fresh_example :
    Fresh (consider_table two_nodes settings (tmma_choose two_nodes) rows).out
consider_table-Fresh_example = consider_table-Fresh two_nodes settings (tmma_choose two_nodes) rows

tmma_all_pages-IsOverThreshold_example :
    All (IsOverThreshold two_nodes) (tmma_all_pages two_nodes settings rows).0
tmma_all_pages-IsOverThreshold_example = tmma_all_pages-IsOverThreshold two_nodes settings rows

tmma_all_pages-moves_example : moves 8192 (tmma_all_pages two_nodes settings rows).0 ≡ true
unfolding find enough_info preferred_node min_ratio_to_mig read_ratios max_element
tmma_all_pages-moves_example =
    tmma_all_pages-moves two_nodes settings rows 8192 (row 12 200) refl refl refl refl

-- Two migrations though one is asked for: page 8192 goes with page 4096, the last page has too few
-- samples.
tmma_run :
    map (λ c. c.addr) (tmma_n_pages two_nodes settings sort 1 rows).0
    ≡ (4096 ∷ 8192 ∷ 12288 ∷ []) ∷ (40960 ∷ 45056 ∷ 49152 ∷ []) ∷ []
unfolding tmma_n_pages max_element insert_all enough_info
tmma_run = refl

lmma_all_pages-IsRelief_example : All (IsRelief table) (lmma_all_pages two_nodes settings table).0
lmma_all_pages-IsRelief_example = lmma_all_pages-IsRelief two_nodes settings table

lmma_all_pages-moves_example : moves 8192 (lmma_all_pages two_nodes settings table).0 ≡ true
unfolding find enough_info relative
lmma_all_pages-moves_example =
    lmma_all_pages-moves two_nodes settings table 8192 (row 12 200) refl refl refl

-- The least number of the range, with a count of the draws.
abbrev rnd : ℕ → ℕ → ℕ → ℕ × ℕ
rnd lo hi draws = (lo, suc draws)

rnd-DrawsIn : DrawsIn rnd
rnd-DrawsIn lo hi g h = (omega arith, h)

abbrev elsewhere : List (ℕ × Row ℕ)
elsewhere = (4096, record (row 11 200) { last_node = 1 }) ∷ rows

-- The same page is drawn three times and moved three times.
rmma_run :
    map (λ c. c.addr) (rmma_n_pages two_nodes settings rnd 3 elsewhere 0).cells
    ≡ (4096 ∷ []) ∷ (4096 ∷ []) ∷ (4096 ∷ []) ∷ []
unfolding rmma_n_pages
rmma_run = refl
