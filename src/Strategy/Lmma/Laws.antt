-- ===== src/Strategy/Lmma/Laws.antt =====
-- What the latency strategy moves, and where.
use mathlib.Core.List.{Perm}
use csci555_usc.Base.{
  ℕ, ◌≡◌, refl, subst, ◌∙◌, Bool, true, false, ◌⊎◌, inl, inr, Bool-cases, Option, none, some, List,
  map, ltb, ◌==◌, if◌then◌else◌, All, All-map,
}
use csci555_usc.Real.{Real}
use csci555_usc.Machine.{Machine}
use csci555_usc.Pages.Row.{Row, preferred_node, read_ratios, enough_info}
use csci555_usc.Pages.Table.{Table, find, node_min_av_latency}
use csci555_usc.Strategy.{Cell, Candidate, Settings}
use csci555_usc.Strategy.Select.{moves, select_best_migrations-Perm}
use csci555_usc.Strategy.Consider.{consider_table, candidate_for, cell_for}
use csci555_usc.Strategy.Consider.Coverage.{moves-map}
use csci555_usc.Strategy.Consider.Completeness.{consider_table-moved}
use csci555_usc.Strategy.Consider.Soundness.{consider_table-All, ChoosesGood}
use csci555_usc.Strategy.Lmma.{
  rel_latency_threshold, is_node_saturated, relative, destination, lmma_choose, lmma_choose_n,
  lmma_all_pages, lmma_n_pages,
}

module _ {R : Type 0} (t : Table R) where
  -- A node that is not saturated, or the node of the least average latency.
  abbrev pub Relieves : ℕ → Type 0
  Relieves dst = (is_node_saturated t dst ≡ false) ⊎ (dst ≡ node_min_av_latency t)

  -- The destination of a migration is one.
  abbrev pub IsRelief : Cell R → Type 0
  IsRelief c = Relieves c.dst

module _ {R : Type 0} ⦃real : Real R⦄ (machine : Machine) (t : Table R) where
  destination-Relieves : (max_node : ℕ) → Relieves t (destination machine t max_node)
  unfolding destination
  destination-Relieves max_node = elim (Bool-cases (is_node_saturated t max_node)) [
    | inl e ↦ rw e (inr refl)
    | inr e ↦ rw e (inl e)
  ]

  -- A guarded choice that chooses a destination chose the one it holds.
  guard :
      (slow : Bool) (x y z : Row R) (d dst : ℕ)
      → ◌≡◌ {A = Row R × Option ℕ} (if slow then (x, some d) else (z, none)) (y, some dst)
      → d ≡ dst
  guard true x y z d dst h = cc
  guard false x y z d dst h = cc

  guard_n :
      (slow same : Bool) (x y z : Row R) (d dst : ℕ)
      → ◌≡◌ {A = Row R × Option ℕ}
          (if slow then (if same then (x, none) else (x, some d)) else (z, none))
          (y, some dst)
      → d ≡ dst
  guard_n true true x y z d dst h = cc
  guard_n true false x y z d dst h = cc
  guard_n false same x y z d dst h = cc

  choose_dst :
      (info read : Row R) (dst : ℕ) → lmma_choose machine t info ≡ (read, some dst) → Relieves t dst
  unfolding lmma_choose
  choose_dst info read dst h =
      let d = destination machine t (preferred_node info) in
      let e =
        guard (ltb rel_latency_threshold (relative t info)) (read_ratios machine info).1 read info d
          dst h in
      subst (Relieves t) e (destination-Relieves (preferred_node info))

  choose_n_dst :
      (info read : Row R) (dst : ℕ)
      → lmma_choose_n machine t info ≡ (read, some dst)
      → Relieves t dst
  unfolding lmma_choose_n
  choose_n_dst info read dst h =
      let d = destination machine t (preferred_node info) in
      let e =
        guard_n (ltb rel_latency_threshold (relative t info))
          (info.last_node == preferred_node info) (read_ratios machine info).1 read info d dst h in
      subst (Relieves t) e (destination-Relieves (preferred_node info))

module _ {R : Type 0} ⦃real : Real R⦄ (machine : Machine) (s : Settings R) (t : Table R) where
  chooses_good : ChoosesGood machine s (lmma_choose machine t) (λ c. IsRelief t c.cell)
  unfolding candidate_for cell_for
  chooses_good page info read dst rows enough e = choose_dst machine t info read dst e

  chooses_n_good : ChoosesGood machine s (lmma_choose_n machine t) (λ c. IsRelief t c.cell)
  unfolding candidate_for cell_for
  chooses_n_good page info read dst rows enough e = choose_n_dst machine t info read dst e

  -- No migration that the variant for all pages returns is to a saturated node, unless it is the node
  -- of the least average latency.
  pub lmma_all_pages-IsRelief : All (IsRelief t) (lmma_all_pages machine s t).0
  unfolding lmma_all_pages
  lmma_all_pages-IsRelief =
      All-map (IsRelief t) (λ c. c.cell) _
        (consider_table-All machine s (lmma_choose machine t) (λ c. IsRelief t c.cell) t.table
          chooses_good)

  -- Every page of the table with enough samples, whose average latency in percent of the system's
  -- exceeds the threshold, is a page of some migration that the variant for all pages returns.
  pub lmma_all_pages-moves :
      (page : ℕ) (info : Row R)
      → find page t.table ≡ some info
      → enough_info info ≡ true
      → ltb rel_latency_threshold (relative t info) ≡ true
      → moves page (lmma_all_pages machine s t).0 ≡ true
  unfolding lmma_all_pages lmma_choose
  lmma_all_pages-moves page info found enough slow =
      moves-map page (consider_table machine s (lmma_choose machine t) t.table).out
      ∙ consider_table-moved machine s (lmma_choose machine t) page info
          (destination machine t (preferred_node info)) t.table found enough
          (rw (lmma_choose, slow) refl)

  -- If the sort permutes, the variant for some number of pages returns the migrations of all
  -- candidates it found, up to their order: the number is no limit. None of them is to a saturated
  -- node, unless it is the node of the least average latency.
  pub lmma_n_pages-Perm :
      (sort : List (Candidate R) → List (Candidate R)) (n_pages : ℕ)
      → ((cs : List (Candidate R)) → Perm (sort cs) cs)
      → let found =
          map (λ c. c.cell) (consider_table machine s (lmma_choose_n machine t) t.table).out in
        Perm (lmma_n_pages machine s sort n_pages t).0 found × All (IsRelief t) found
  unfolding lmma_n_pages
  lmma_n_pages-Perm sort n_pages permutes = (
    select_best_migrations-Perm sort _ _ permutes,
    All-map (IsRelief t) (λ c. c.cell) _
        (consider_table-All machine s (lmma_choose_n machine t) (λ c. IsRelief t c.cell) t.table
          chooses_n_good),
  )
