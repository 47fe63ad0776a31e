-- ===== src/Strategy/Consider/Coverage.antt =====
-- What the loop over the table achieves: no page leads a migration after another one moved it, and
-- every page that should move does.
use csci555_usc.Base.{
  ℕ, ◌≡◌, refl, sym, ap, ◌∙◌, Bool, false, ◌||◌, Option, none, some, List, [], ◌∷◌, ◌++◌, arith,
  contains, contains-insert_all, insert_all, All, Bool-cases, inl, inr, All-append, map,
}
use csci555_usc.Real.{Real}
use csci555_usc.Machine.{Machine}
use csci555_usc.Pages.Row.{Row, enough_info}
use csci555_usc.Pages.Table.{find}
use csci555_usc.Strategy.{Candidate, Settings}
use csci555_usc.Strategy.Select.{moves}
use csci555_usc.Strategy.Consider.{
  Pass, keys, consider_choice, consider_row, consider_page, consider_pages, consider_table,
}

module _ {R : Type 0} where
  -- Some migration moves the page.
  abbrev pub moved : ℕ → List (Candidate R) → Bool
  moved p [] = false
  moved p (c ∷ cs) = contains p c.cell.addr || moved p cs

  pub moves-map : (p : ℕ) (cs : List (Candidate R)) → moves p (map (λ c. c.cell) cs) ≡ moved p cs
  moves-map p [] = refl
  moves-map p (c ∷ cs) = ap (λ b. contains p c.cell.addr || b) (moves-map p cs)

  moved-append :
      (p : ℕ) (cs ds : List (Candidate R)) → moved p (cs ++ ds) ≡ (moved p cs || moved p ds)
  moved-append p [] ds = refl
  moved-append p (c ∷ cs) ds = ground (arith, moved-append p cs ds)

  -- No migration was begun for a page that an earlier one moves.
  abbrev pub Fresh : List (Candidate R) → Type 0
  Fresh [] = Unit
  Fresh (c ∷ cs) = All (λ d. contains d.page c.cell.addr ≡ false) cs × Fresh cs

  Fresh-append :
      (cs : List (Candidate R)) (d : Candidate R)
      → moved d.page cs ≡ false
      → Fresh cs
      → Fresh (cs ++ d ∷ [])
  Fresh-append [] d h f = (tt, tt)
  Fresh-append (c ∷ cs) d h f = (
    All-append (λ d. contains d.page c.cell.addr ≡ false) cs (d ∷ []) f.0 (ground arith, tt),
    Fresh-append cs d (ground arith) f.1,
  )

  tracked_more :
      (p : ℕ) (considered : List ℕ) (out : List (Candidate R)) (d : Candidate R)
      → contains p considered ≡ moved p out
      → contains p (insert_all d.cell.addr considered) ≡ moved p (out ++ d ∷ [])
  tracked_more p considered out d h =
      ground (arith, contains-insert_all d.cell.addr p considered, moved-append p out (d ∷ []))

  -- The pages considered are those that the migrations move.
  pub record IsTracked (st : Pass R) : Type 0 where
    pub tracked : (p : ℕ) → contains p st.considered ≡ moved p st.out
    pub fresh : Fresh st.out

module _ {R : Type 0} ⦃real : Real R⦄ (machine : Machine) (s : Settings R) where
  choice-IsTracked :
      (page : ℕ) (info : Row R) (c : Row R × Option ℕ) (st : Pass R)
      → contains page st.considered ≡ false
      → IsTracked st
      → IsTracked (consider_choice machine s page info c st)
  unfolding consider_choice
  choice-IsTracked page info (read, none) st h t = record { tracked = t.tracked; fresh = t.fresh }
  choice-IsTracked page info (read, some dst) st h t = record {
    tracked = λ p. tracked_more p st.considered st.out _ (t.tracked p);
    fresh = Fresh-append st.out _ (sym (t.tracked page) ∙ h) t.fresh;
  }

  module _ (choose : Row R → Row R × Option ℕ) where
    row-IsTracked :
        (page : ℕ) (row : Option (Row R)) (st : Pass R)
        → contains page st.considered ≡ false
        → IsTracked st
        → IsTracked (consider_row machine s choose page row st)
    unfolding consider_row
    row-IsTracked page none st h t = t
    row-IsTracked page (some info) st h t = elim (Bool-cases (enough_info info)) [
      | inl e ↦ rw e (choice-IsTracked page info (choose info) st h t)
      | inr e ↦ rw e t
    ]

    page-IsTracked :
        (page : ℕ) (st : Pass R) → IsTracked st → IsTracked (consider_page machine s choose page st)
    unfolding consider_page
    page-IsTracked page st t = elim (Bool-cases (contains page st.considered)) [
      | inl e ↦ rw e t
      | inr e ↦ rw e (row-IsTracked page (find page st.rows) st e t)
    ]

    pub pages-IsTracked :
        (pages : List ℕ) (st : Pass R)
        → IsTracked st
        → IsTracked (consider_pages machine s choose pages st)
    unfolding consider_pages
    pages-IsTracked [] st t = t
    pages-IsTracked (page ∷ pages) st t = pages-IsTracked pages _ (page-IsTracked page st t)

    -- No migration begins with a page that an earlier one moves, prefetched pages included.
    pub consider_table-Fresh :
        (rows : List (ℕ × Row R)) → Fresh (consider_table machine s choose rows).out
    unfolding consider_table
    consider_table-Fresh rows =
        (pages-IsTracked (keys rows) _ (record { tracked = λ p. refl; fresh = tt })).fresh
