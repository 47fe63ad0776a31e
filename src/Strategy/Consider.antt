-- ===== src/Strategy/Consider.antt =====
-- The loop that the page migration strategies of src/migration/strategies/memory_strats/tmma.hpp and
-- lmma.hpp share, over the rows of the table. What a strategy decides on a row is a parameter: the
-- row after its ratios were read, and the destination if the page is to be moved.
pub mod Coverage
pub mod Soundness
pub mod Completeness
use csci555_usc.Base.{
  ℕ, Bool, true, false, not, Option, none, some, List, [], ◌∷◌, ◌++◌, if◌then◌else◌, get_or,
  contains, insert_all,
}
use csci555_usc.Real.{Real}
use csci555_usc.Machine.{Machine}
use csci555_usc.Pages.Row.{Row, enough_info, clear, preferred_node}
use csci555_usc.Pages.Table.{find, modify}
use csci555_usc.Strategy.{Cell, Candidate, Settings, prefetch_candidates}

-- The table, `pages_to_migrate`, and `candidates` or `migrations`.
pub record Pass (R : Type 0) : Type 0 where
  pub rows : List (ℕ × Row R)
  pub considered : List ℕ
  pub out : List (Candidate R)

-- The pages of the table, in the order of the walk.
abbrev pub keys {ℓ} : {A : Type ℓ} → List (ℕ × A) → List ℕ
keys [] = []
keys ((p, a) ∷ rows) = p ∷ keys rows

module _ {R : Type 0} ⦃real : Real R⦄ (machine : Machine) (s : Settings R) where
  open real use {of_nat}

  unfoldable pub cell_for : ℕ → Row R → Row R → ℕ → List (ℕ × Row R) → Cell R
  unfolding prefetch_candidates
  cell_for page info read dst rows = record {
    addr = page ∷ prefetch_candidates s rows page dst;
    pid = info.last_pid;
    src = info.last_node;
    dst = dst;
    ratios = read.ratios;
  }

  unfoldable pub candidate_for : ℕ → Row R → Row R → ℕ → List (ℕ × Row R) → Candidate R
  unfolding cell_for
  candidate_for page info read dst rows = record {
    page = page;
    ratio = get_or read.ratios (preferred_node info) (of_nat 0);
    cell = cell_for page info read dst rows;
  }

  -- The row of the page is `info`, and `read` after its ratios were read.
  unfoldable pub consider_choice : ℕ → Row R → Row R × Option ℕ → Pass R → Pass R
  unfolding modify candidate_for
  consider_choice page info (read, none) st = record st { rows = modify page (λ _. read) st.rows }
  consider_choice page info (read, some dst) st =
      let rows = modify page (λ _. read) st.rows in
      let c = candidate_for page info read dst rows in
      record {
        rows = modify page (λ _. clear machine read) rows;
        considered = insert_all c.cell.addr st.considered;
        out = st.out ++ c ∷ [];
      }

  module _ (choose : Row R → Row R × Option ℕ) where
    unfoldable pub consider_row : ℕ → Option (Row R) → Pass R → Pass R
    unfolding consider_choice
    consider_row page none st = st
    consider_row page (some info) st =
        if not (enough_info info) then st else consider_choice page info (choose info) st

    unfoldable pub consider_page : ℕ → Pass R → Pass R
    unfolding consider_row
    consider_page page st =
        if contains page st.considered then st else consider_row page (find page st.rows) st

    unfoldable pub consider_pages : List ℕ → Pass R → Pass R
    unfolding consider_page
    consider_pages [] st = st
    consider_pages (page ∷ pages) st = consider_pages pages (consider_page page st)

    unfoldable pub consider_table : List (ℕ × Row R) → Pass R
    unfolding consider_pages
    consider_table rows =
        consider_pages (keys rows) (record { rows = rows; considered = []; out = [] })
