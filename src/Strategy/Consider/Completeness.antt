-- ===== src/Strategy/Consider/Completeness.antt =====
-- Every page that a strategy decides to move is moved.
use csci555_usc.Base.{
  ℕ, ◌≡◌, refl, sym, subst, ◌∙◌, true, false, Option, none, some, List, [], ◌∷◌, arith, contains,
  contains-insert_all, insert_all, Bool-cases, inl, inr, ◌==◌, ==→eq,
}
use csci555_usc.Real.{Real}
use csci555_usc.Machine.{Machine}
use csci555_usc.Pages.Row.{Row, enough_info}
use csci555_usc.Pages.Table.{find, modify}
use csci555_usc.Pages.Table.History.{find-modify}
use csci555_usc.Strategy.{Settings, prefetch_candidates}
use csci555_usc.Strategy.Consider.{
  Pass, keys, consider_choice, consider_row, consider_page, consider_pages, consider_table,
  cell_for, candidate_for,
}
use csci555_usc.Strategy.Consider.Coverage.{moved, pages-IsTracked}

module _ {A : Type 0} where
  modify_other :
      (p q : ℕ) (f : A → A) (rows : List (ℕ × A))
      → p == q ≡ false
      → find p (modify q f rows) ≡ find p rows
  modify_other p q f rows h = ground (arith, find-modify p q f rows)

  find-keys :
      (p : ℕ) (rows : List (ℕ × A)) (a : A) → find p rows ≡ some a → contains p (keys rows) ≡ true
  unfolding find
  find-keys p [] a h = cc
  find-keys p ((k, b) ∷ rows) a h = ground (arith, find-keys p rows a)

insert_head :
    (p : ℕ) (more considered : List ℕ) → contains p (insert_all (p ∷ more) considered) ≡ true
insert_head p more considered = ground (arith, contains-insert_all (p ∷ more) p considered)

insert_keeps :
    (p : ℕ) (added considered : List ℕ)
    → contains p considered ≡ true
    → contains p (insert_all added considered) ≡ true
insert_keeps p added considered h = ground (arith, contains-insert_all added p considered)

module _ {R : Type 0} ⦃real : Real R⦄ (machine : Machine) (s : Settings R) where
  -- A visit to another page leaves the row of the page, and any visit leaves the pages considered.
  choice_keeps :
      (p page : ℕ) (info : Row R) (c : Row R × Option ℕ) (st : Pass R)
      → p == page ≡ false
      → find p (consider_choice machine s page info c st).rows ≡ find p st.rows
  unfolding consider_choice
  choice_keeps p page info (read, none) st h = modify_other p page _ st.rows h
  choice_keeps p page info (read, some dst) st h =
      modify_other p page _ _ h ∙ modify_other p page _ st.rows h

  choice_considered :
      (p page : ℕ) (info : Row R) (c : Row R × Option ℕ) (st : Pass R)
      → contains p st.considered ≡ true
      → contains p (consider_choice machine s page info c st).considered ≡ true
  unfolding consider_choice
  choice_considered p page info (read, none) st h = h
  choice_considered p page info (read, some dst) st h = insert_keeps p _ st.considered h

  choice_chosen :
      (p : ℕ) (info : Row R) (c : Row R × Option ℕ) (st : Pass R) (dst : ℕ)
      → c.1 ≡ some dst
      → contains p (consider_choice machine s p info c st).considered ≡ true
  unfolding consider_choice candidate_for cell_for
  choice_chosen p info (read, none) st dst h = cc
  choice_chosen p info (read, some d) st dst h =
      insert_head p (prefetch_candidates s (modify p (λ _. read) st.rows) p d) st.considered

  module _ (choose : Row R → Row R × Option ℕ) where
    row_keeps :
        (p page : ℕ) (row : Option (Row R)) (st : Pass R)
        → p == page ≡ false
        → find p (consider_row machine s choose page row st).rows ≡ find p st.rows
    unfolding consider_row
    row_keeps p page none st h = refl
    row_keeps p page (some info) st h = elim (Bool-cases (enough_info info)) [
      | inl e ↦ rw e (choice_keeps p page info (choose info) st h)
      | inr e ↦ rw e refl
    ]

    page_keeps :
        (p page : ℕ) (st : Pass R)
        → p == page ≡ false
        → find p (consider_page machine s choose page st).rows ≡ find p st.rows
    unfolding consider_page
    page_keeps p page st h = elim (Bool-cases (contains page st.considered)) [
      | inl e ↦ rw e refl
      | inr e ↦ rw e (row_keeps p page (find page st.rows) st h)
    ]

    row_considered :
        (p page : ℕ) (row : Option (Row R)) (st : Pass R)
        → contains p st.considered ≡ true
        → contains p (consider_row machine s choose page row st).considered ≡ true
    unfolding consider_row
    row_considered p page none st h = h
    row_considered p page (some info) st h = elim (Bool-cases (enough_info info)) [
      | inl e ↦ rw e (choice_considered p page info (choose info) st h)
      | inr e ↦ rw e h
    ]

    page_considered :
        (p page : ℕ) (st : Pass R)
        → contains p st.considered ≡ true
        → contains p (consider_page machine s choose page st).considered ≡ true
    unfolding consider_page
    page_considered p page st h = elim (Bool-cases (contains page st.considered)) [
      | inl e ↦ rw e h
      | inr e ↦ rw e (row_considered p page (find page st.rows) st h)
    ]

    pages_considered :
        (p : ℕ) (pages : List ℕ) (st : Pass R)
        → contains p st.considered ≡ true
        → contains p (consider_pages machine s choose pages st).considered ≡ true
    unfolding consider_pages
    pages_considered p [] st h = h
    pages_considered p (page ∷ pages) st h =
        pages_considered p pages _ (page_considered p page st h)

    module _ (p : ℕ) (info : Row R) (dst : ℕ) where
      page_chosen :
          (st : Pass R)
          → find p st.rows ≡ some info
          → enough_info info ≡ true
          → (choose info).1 ≡ some dst
          → contains p (consider_page machine s choose p st).considered ≡ true
      unfolding consider_page consider_row
      page_chosen st found enough chosen = elim (Bool-cases (contains p st.considered)) [
        | inl e ↦ rw e e
        | inr e ↦
            rw (e, found, consider_row, enough) (choice_chosen p info (choose info) st dst chosen)
      ]

      pages_chosen :
          (pages : List ℕ) (st : Pass R)
          → contains p pages ≡ true
          → find p st.rows ≡ some info
          → enough_info info ≡ true
          → (choose info).1 ≡ some dst
          → contains p (consider_pages machine s choose pages st).considered ≡ true
      unfolding consider_pages
      pages_chosen [] st h found enough chosen = cc
      pages_chosen (page ∷ pages) st h found enough chosen = elim (Bool-cases (p == page)) [
        | inl e ↦
            let at_page =
              subst (λ q. contains p (consider_page machine s choose q st).considered ≡ true)
                (==→eq p page e) (page_chosen st found enough chosen) in
            pages_considered p pages _ at_page
        | inr e ↦
            pages_chosen pages _ (ground (arith, e, h)) (page_keeps p page st e ∙ found) enough
              chosen
      ]

      -- Every page whose row has enough samples and is decided to move, as the table was before the
      -- loop, is a page of some migration.
      pub consider_table-moved :
          (rows : List (ℕ × Row R))
          → find p rows ≡ some info
          → enough_info info ≡ true
          → (choose info).1 ≡ some dst
          → moved p (consider_table machine s choose rows).out ≡ true
      unfolding consider_table
      consider_table-moved rows found enough chosen =
          let start : Pass R = record { rows = rows; considered = []; out = [] } in
          let t =
            pages-IsTracked machine s choose (keys rows) start
              (record { tracked = λ p. refl; fresh = tt }) in
          sym (t.tracked p)
          ∙ pages_chosen (keys rows) start (find-keys p rows info found) found enough chosen
