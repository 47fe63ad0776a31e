-- ===== src/Strategy/Tmma/Laws.antt =====
-- What the threshold strategy moves.
use mathlib.Core.List.{Perm}
use csci555_usc.Base.{
  ℕ, ◌≡◌, refl, ap, ◌∙◌, Bool, true, false, not, ◌&&◌, Option, none, some, List, ◌==◌,
  if◌then◌else◌, get_or, All, All-map,
}
use csci555_usc.Real.{Real}
use csci555_usc.Machine.{Machine}
use csci555_usc.Pages.Row.{Row, preferred_node, read_ratios, enough_info}
use csci555_usc.Pages.Table.{find}
use csci555_usc.Strategy.{Cell, Candidate, Settings}
use csci555_usc.Strategy.Select.{moves, select_best_migrations-Perm}
use csci555_usc.Strategy.Consider.{consider_table, candidate_for, cell_for}
use csci555_usc.Strategy.Consider.Coverage.{moves-map}
use csci555_usc.Strategy.Consider.Completeness.{consider_table-moved}
use csci555_usc.Strategy.Consider.Soundness.{consider_table-All, ChoosesGood}
use csci555_usc.Strategy.Tmma.{min_ratio_to_mig, tmma_choose, tmma_all_pages, tmma_n_pages}

-- What a guarded choice that chooses is.
guard :
    {A B : Type 0} (away over : Bool) (x y : A) (p q : B)
    → ◌≡◌ {A = A × Option B} (if not away && over then (x, some p) else (x, none)) (y, some q)
    → (away ≡ false) × (over ≡ true) × (x ≡ y) × (p ≡ q)
guard true over x y p q h = cc
guard false false x y p q h = cc
guard false true x y p q h = (refl, refl, ap (λ c. c.0) h, cc)

module _ {R : Type 0} ⦃real : Real R⦄ (machine : Machine) where
  open real use {of_nat, lt}

  -- A migration to another node, whose share of the accesses exceeds the threshold.
  abbrev pub IsOverThreshold : Cell R → Type 0
  IsOverThreshold c =
      (c.dst == c.src ≡ false)
      × (lt (min_ratio_to_mig machine) (get_or c.ratios c.dst (of_nat 0)) ≡ true)

  choose_chosen :
      (info read : Row R) (dst : ℕ)
      → tmma_choose machine info ≡ (read, some dst)
      → (dst == info.last_node ≡ false)
        × (lt (min_ratio_to_mig machine) (get_or read.ratios dst (of_nat 0)) ≡ true)
  unfolding tmma_choose read_ratios
  choose_chosen info read dst h =
      let pref_node = preferred_node info in
      let ratios = read_ratios machine info in
      let over = lt (min_ratio_to_mig machine) (get_or ratios.0 pref_node (of_nat 0)) in
      let g = guard (pref_node == info.last_node) over ratios.1 read pref_node dst h in
      (rw g.3 at g.0, rw (ap (λ (r : Row R). r.ratios) g.2, g.3) at g.1)

  module _ (s : Settings R) where
    chooses_good : ChoosesGood machine s (tmma_choose machine) (λ c. IsOverThreshold c.cell)
    unfolding candidate_for cell_for
    chooses_good page info read dst rows enough e = choose_chosen info read dst e

    -- Each migration that the variant for all pages returns is to another node than the page was last
    -- accessed from, and the share of the accesses there exceeds the threshold.
    pub tmma_all_pages-IsOverThreshold :
        (rows : List (ℕ × Row R)) → All IsOverThreshold (tmma_all_pages machine s rows).0
    unfolding tmma_all_pages
    tmma_all_pages-IsOverThreshold rows =
        All-map IsOverThreshold (λ c. c.cell) _
          (consider_table-All machine s (tmma_choose machine) (λ c. IsOverThreshold c.cell) rows
            chooses_good)

    -- Every page of the table with enough samples, whose preferred node is not the one it was last
    -- accessed from and has a share of the accesses above the threshold, is a page of some migration
    -- that the variant for all pages returns.
    pub tmma_all_pages-moves :
        (rows : List (ℕ × Row R)) (page : ℕ) (info : Row R)
        → find page rows ≡ some info
        → enough_info info ≡ true
        → preferred_node info == info.last_node ≡ false
        → lt
            (min_ratio_to_mig machine)
            (get_or (read_ratios machine info).0 (preferred_node info) (of_nat 0))
          ≡ true
        → moves page (tmma_all_pages machine s rows).0 ≡ true
    unfolding tmma_all_pages tmma_choose
    tmma_all_pages-moves rows page info found enough away over =
        moves-map page (consider_table machine s (tmma_choose machine) rows).out
        ∙ consider_table-moved machine s (tmma_choose machine) page info (preferred_node info) rows
            found enough (rw (tmma_choose, away, over) refl)

    -- If the sort permutes, the variant for some number of pages returns the same migrations as the
    -- one for all pages, up to their order, and the same table: the number is no limit.
    pub tmma_n_pages-Perm :
        (sort : List (Candidate R) → List (Candidate R)) (n_pages : ℕ) (rows : List (ℕ × Row R))
        → ((cs : List (Candidate R)) → Perm (sort cs) cs)
        → Perm (tmma_n_pages machine s sort n_pages rows).0 (tmma_all_pages machine s rows).0
          × ((tmma_n_pages machine s sort n_pages rows).1 ≡ (tmma_all_pages machine s rows).1)
    unfolding tmma_n_pages tmma_all_pages
    tmma_n_pages-Perm sort n_pages rows permutes =
        (select_best_migrations-Perm sort _ _ permutes, refl)
