-- ===== src/Strategy/Rmma.antt =====
-- src/migration/strategies/memory_strats/rmma.hpp: pages move to random nodes. `rnd` of
-- src/utils/arithmetic.hpp is a parameter: a step of the random generator that gives a number for
-- the two ends of a range, of which the second is left out.
pub mod Laws
use csci555_usc.Base.{
  ℕ, zero, suc, ◌+◌, Bool, true, false, Option, none, some, List, [], ◌∷◌, ◌++◌, ◌==◌,
  if◌then◌else◌, get_elem?, length, contains,
}
use csci555_usc.Real.{Real}
use csci555_usc.Machine.{Machine}
use csci555_usc.Pages.Row.{Row, read_ratios, clear}
use csci555_usc.Pages.Table.{modify}
use csci555_usc.Strategy.{Cell, Settings, gather_and_perform_migrations, Counts, within_limits}

-- The migrations, the rows and the generator.
pub record Drawn (R G : Type 0) : Type 0 where
  pub cells : List (Cell R)
  pub rows : List (ℕ × Row R)
  pub generator : G

module _ {R G : Type 0} ⦃real : Real R⦄ (machine : Machine) (s : Settings R)
    (rnd : ℕ → ℕ → G → ℕ × G) where
  -- A migration of one page; `read` is its row after the ratios were read.
  abbrev pub random_cell : ℕ → Row R → Row R → ℕ → Cell R
  random_cell page info read dst = record {
    addr = page ∷ [];
    pid = info.last_pid;
    src = info.last_node;
    dst = dst;
    ratios = read.ratios;
  }

  -- The loop over the table, which changes each row in its place.
  unfoldable pub rmma_all_pages : List (ℕ × Row R) → G → Drawn R G
  unfolding read_ratios clear
  rmma_all_pages [] g = record { cells = []; rows = []; generator = g }
  rmma_all_pages ((page, info) ∷ rows) g =
      let draw = rnd 0 machine.max_node g in
      let rest = rmma_all_pages rows draw.1 in
      let read = (read_ratios machine info).1 in
      if draw.0 == info.last_node
      then record {
        cells = rest.cells;
        rows = (page, read) ∷ rest.rows;
        generator = rest.generator;
      }
      else record {
        cells = random_cell page info read draw.0 ∷ rest.cells;
        rows = (page, clear machine read) ∷ rest.rows;
        generator = rest.generator;
      }

  -- One round of the loop of `perform_migration_algorithm_n_pages`, at the drawn page. Nothing is
  -- ever inserted into `pages_to_migrate`.
  rmma_round : List ℕ → Option (ℕ × Row R) → Drawn R G → Drawn R G
  unfolding read_ratios modify
  rmma_round pages_to_migrate none st = st
  rmma_round pages_to_migrate (some (page, info)) st =
      let draw = rnd 0 s.num_of_nodes st.generator in
      let read = (read_ratios machine info).1 in
      if contains page pages_to_migrate then st else record {
        cells =
            if draw.0 == info.last_node
            then st.cells
            else st.cells ++ random_cell page info read draw.0 ∷ [];
        rows = modify page (λ _. read) st.rows;
        generator = draw.1;
      }

  rmma_rounds : ℕ → List ℕ → Drawn R G → Drawn R G
  unfolding rmma_round
  rmma_rounds zero pages_to_migrate st = st
  rmma_rounds (suc n) pages_to_migrate st =
      let draw = rnd 0 (length st.rows) st.generator in
      rmma_rounds n pages_to_migrate
        (rmma_round pages_to_migrate (get_elem? st.rows draw.0) (record st { generator = draw.1 }))

  unfoldable pub rmma_n_pages : ℕ → List (ℕ × Row R) → G → Drawn R G
  unfolding rmma_rounds
  rmma_n_pages n_pages rows g =
      rmma_rounds n_pages [] (record { cells = []; rows = rows; generator = g })

  unfoldable pub rmma_migrations : List (ℕ × Row R) → G → Drawn R G
  unfolding rmma_all_pages rmma_n_pages within_limits
  rmma_migrations rows g =
      within_limits s rows (record { cells = []; rows = rows; generator = g })
        (rmma_all_pages rows g) (λ n. rmma_n_pages n rows g)

  unfoldable pub rmma_migrate :
      {K : Type 0}
      → (ℕ → List ℕ → List ℕ → K → Bool × K)
      → List (ℕ × Row R)
      → G
      → ℕ
      → K
      → (Counts × K) × Drawn R G
  unfolding rmma_migrations gather_and_perform_migrations
  rmma_migrate numa_move_pages rows g total k =
      let m = rmma_migrations rows g in
      (gather_and_perform_migrations numa_move_pages m.cells total k, m)
