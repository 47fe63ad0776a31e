-- ===== src/Strategy/Consider/Soundness.antt =====
-- What every migration of the loop satisfies, if what is chosen on any row satisfies it.
use csci555_usc.Base.{
  ℕ, ◌≡◌, refl, true, Option, none, some, List, [], ◌∷◌, contains, Bool-cases, inl, inr, All,
  All-append,
}
use csci555_usc.Real.{Real}
use csci555_usc.Machine.{Machine}
use csci555_usc.Pages.Row.{Row, enough_info}
use csci555_usc.Pages.Table.{find, modify}
use csci555_usc.Strategy.{Settings, Candidate}
use csci555_usc.Strategy.Consider.{
  Pass, keys, consider_choice, consider_row, consider_page, consider_pages, consider_table,
  candidate_for,
}

module _ {R : Type 0} ⦃real : Real R⦄ (machine : Machine) (s : Settings R)
    (choose : Row R → Row R × Option ℕ) (Good : Candidate R → Type 0) where
  -- A row with enough samples that is chosen gives a good candidate.
  abbrev pub ChoosesGood : Type 0
  ChoosesGood =
      (page : ℕ) (info read : Row R) (dst : ℕ) (rows : List (ℕ × Row R))
      → enough_info info ≡ true
      → choose info ≡ (read, some dst)
      → Good (candidate_for machine s page info read dst rows)

  choice-All :
      (page : ℕ) (info : Row R) (c : Row R × Option ℕ) (st : Pass R)
      → ChoosesGood
      → enough_info info ≡ true
      → choose info ≡ c
      → All Good st.out
      → All Good (consider_choice machine s page info c st).out
  unfolding consider_choice
  choice-All page info (read, none) st good enough e all = all
  choice-All page info (read, some dst) st good enough e all =
      All-append Good st.out _ all
        (good page info read dst (modify page (λ _. read) st.rows) enough e, tt)

  row-All :
      (page : ℕ) (row : Option (Row R)) (st : Pass R)
      → ChoosesGood
      → All Good st.out
      → All Good (consider_row machine s choose page row st).out
  unfolding consider_row
  row-All page none st good all = all
  row-All page (some info) st good all = elim (Bool-cases (enough_info info)) [
    | inl e ↦ rw e (choice-All page info (choose info) st good e refl all)
    | inr e ↦ rw e all
  ]

  page-All :
      (page : ℕ) (st : Pass R)
      → ChoosesGood
      → All Good st.out
      → All Good (consider_page machine s choose page st).out
  unfolding consider_page
  page-All page st good all = elim (Bool-cases (contains page st.considered)) [
    | inl e ↦ rw e all
    | inr e ↦ rw e (row-All page (find page st.rows) st good all)
  ]

  pages-All :
      (pages : List ℕ) (st : Pass R)
      → ChoosesGood
      → All Good st.out
      → All Good (consider_pages machine s choose pages st).out
  unfolding consider_pages
  pages-All [] st good all = all
  pages-All (page ∷ pages) st good all = pages-All pages _ good (page-All page st good all)

  pub consider_table-All :
      (rows : List (ℕ × Row R)) → ChoosesGood → All Good (consider_table machine s choose rows).out
  unfolding consider_table
  consider_table-All rows good = pages-All (keys rows) _ good tt
