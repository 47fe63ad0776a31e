-- ===== src/Pages/Table/History.antt =====
-- What the table of pages holds for a page: the history of its samples.
use csci555_usc.Base.{
  ℕ, ◌≡◌, refl, Bool, true, false, not, ◌&&◌, Option, none, some, List, [], ◌∷◌, ◌++◌, arith,
  contains, ◌==◌, if◌then◌else◌, Option-cases, inl, inr, ap, ◌∙◌, ==→eq, sym, Bool-cases,
}
use csci555_usc.Real.{Real}
use csci555_usc.Machine.{Machine}
use csci555_usc.Pages.Row as PagesRow
use csci555_usc.Pages.Row.{Row, Sample, new_row}
use csci555_usc.Pages.Table.{
  Table, find, modify, remove, invalid, remove_all, with_entry, add_data, new_table, clear_it,
}

module _ {A : Type 0} where
  -- No page has two rows.
  abbrev pub Distinct : List (ℕ × A) → Type 0
  Distinct [] = Unit
  Distinct ((p, a) ∷ rows) = (find p rows ≡ none) × Distinct rows

  abbrev pub apply : (A → A) → Option A → Option A
  apply f none = none
  apply f (some a) = some (f a)

  pub find-modify :
      (p q : ℕ) (f : A → A) (rows : List (ℕ × A))
      → find p (modify q f rows) ≡ (if p == q then apply f (find p rows) else find p rows)
  unfolding find modify
  find-modify p q f [] = ground arith
  find-modify p q f ((k, a) ∷ rows) = ground (arith, find-modify p q f rows)

  pub find-append :
      (p k : ℕ) (a : A) (rows : List (ℕ × A))
      → find p (rows ++ (k, a) ∷ [])
        ≡ elim (find p rows) [ none ↦ (if p == k then some a else none) | some b ↦ some b ]
  unfolding find
  find-append p k a [] = ground arith
  find-append p k a ((j, b) ∷ rows) = ground (arith, find-append p k a rows)

  find-remove :
      (p q : ℕ) (rows : List (ℕ × A))
      → Distinct rows
      → find p (remove q rows) ≡ (if p == q then none else find p rows)
  unfolding find remove
  find-remove p q [] d = ground arith
  find-remove p q ((k, a) ∷ rows) d = ground (arith, find-remove p q rows d.1)

  pub remove-Distinct : (q : ℕ) (rows : List (ℕ × A)) → Distinct rows → Distinct (remove q rows)
  unfolding find remove
  remove-Distinct q [] d = tt
  remove-Distinct q ((k, a) ∷ rows) d =
      ground (arith, find-remove k q rows d.1, remove-Distinct q rows d.1)

module _ {R : Type 0} where
  -- The samples of one page.
  abbrev pub samples_of : ℕ → List (Sample × R) → List (Sample × R)
  samples_of p [] = []
  samples_of p ((s, aging) ∷ older) =
      if p == s.page then (s, aging) ∷ samples_of p older else samples_of p older

module _ {R : Type 0} ⦃real : Real R⦄ (machine : Machine) where
  -- The row that a sample of the page goes to.
  abbrev pub row_for : Sample → Option (Row R) → Row R
  row_for s none = new_row machine s.tid s.page_node
  row_for s (some r) = r

  find-with_entry :
      (p : ℕ) (s : Sample) (rows : List (ℕ × Row R))
      → find p (with_entry machine s rows)
        ≡ (if p == s.page then some (row_for s (find s.page rows)) else find p rows)
  unfolding with_entry
  find-with_entry p s rows = elim (Option-cases (find s.page rows)) [
    | inl e ↦
        rw (with_entry, e)
          (find-append p s.page (new_row machine s.tid s.page_node) rows
            ∙ pick (find p rows) λ h. ap (λ q. find q rows) (==→eq _ _ h) ∙ e)
    | inr (r, e) ↦ rw (with_entry, e) (keep λ h. ap (λ q. find q rows) (==→eq _ _ h) ∙ e)
  ]
    where
      new : Row R
      new = new_row machine s.tid s.page_node

      pick :
          (o : Option (Row R))
          → (p == s.page ≡ true → o ≡ none)
          → elim o [ none ↦ (if p == s.page then some new else none) | some b ↦ some b ]
            ≡ (if p == s.page then some new else o)
      pick none h = refl
      pick (some b) h = ground (arith, h)

      keep :
          {o : Option (Row R)} {r : Row R}
          → (p == s.page ≡ true → o ≡ some r)
          → o ≡ (if p == s.page then some r else o)
      keep h = ground (arith, h)

  -- After a sample its page has the row it had, or a new one, with the sample added; every other
  -- page has the row it had.
  pub find-add_data :
      (p : ℕ) (s : Sample) (aging_factor : R) (t : Table R)
      → find p (add_data machine s aging_factor t).table ≡ (
          if p == s.page
          then some (PagesRow.add_data machine s aging_factor (row_for s (find s.page t.table)))
          else find p t.table)
  unfolding add_data
  find-add_data p s aging_factor t =
      let f = PagesRow.add_data machine s aging_factor in
      ground (
        arith,
        find-modify p s.page f (with_entry machine s t.table),
        find-with_entry p s t.table,
        find-with_entry s.page s t.table,
      )

  -- A history of samples, the last one first, each with its aging factor.
  pub add_samples : List (Sample × R) → Table R → Table R
  add_samples [] t = t
  add_samples ((s, aging) ∷ older) t = add_data machine s aging (add_samples older t)

  -- The specification of a row: a new one for the first sample, to which all are added in order.
  abbrev pub row_of : List (Sample × R) → Option (Row R)
  row_of [] = none
  row_of ((s, aging) ∷ older) = some (PagesRow.add_data machine s aging (row_for s (row_of older)))

  -- From an empty table on, the row of a page is made of the samples of that page alone, in their
  -- order; a page without samples has none.
  pub add_samples-row_of :
      (p : ℕ) (samples : List (Sample × R))
      → find p (add_samples samples (new_table machine)).table ≡ row_of (samples_of p samples)
  unfolding add_samples new_table find
  add_samples-row_of p [] = refl
  add_samples-row_of p ((s, aging) ∷ older) =
      let step = find-add_data p s aging (add_samples older (new_table machine)) in
      let ih = add_samples-row_of p older in
      elim (Bool-cases (p == s.page)) [
        | inl e ↦
            let found =
              ap (λ q. find q (add_samples older (new_table machine)).table) (sym (==→eq _ _ e))
              ∙ ih in
            let step' = rw (e, found) at step in rw e step'
        | inr e ↦ let step' = rw (e, ih) at step in rw e step'
      ]

same : (p k : ℕ) (valid : ℕ → Bool) → p == k ≡ true → valid p ≡ valid k
same p k valid e = ap valid (==→eq p k e)

module _ {A : Type 0} where
  find-remove_all :
      (p : ℕ) (ps : List ℕ) (rows : List (ℕ × A))
      → Distinct rows
      → find p (remove_all ps rows) ≡ (if contains p ps then none else find p rows)
  unfolding remove_all
  find-remove_all p [] rows d = refl
  find-remove_all p (q ∷ ps) rows d = ground (
    arith,
    find-remove_all p ps (remove q rows) (remove-Distinct q rows d),
    find-remove p q rows d,
  )

  invalid_absent :
      (p : ℕ) (valid : ℕ → Bool) (rows : List (ℕ × A))
      → valid p ≡ true
      → contains p (invalid valid rows) ≡ false
  unfolding invalid
  invalid_absent p valid [] h = refl
  invalid_absent p valid ((k, b) ∷ rows) h =
      ground (arith, invalid_absent p valid rows h, same p k valid)

  invalid_present :
      (p : ℕ) (valid : ℕ → Bool) (rows : List (ℕ × A)) (a : A)
      → valid p ≡ false
      → find p rows ≡ some a
      → contains p (invalid valid rows) ≡ true
  unfolding invalid find
  invalid_present p valid [] a h found = cc
  invalid_present p valid ((k, b) ∷ rows) a h found =
      ground (arith, invalid_present p valid rows a h, same p k valid)

  -- Pages that are not in memory lose their rows.
  find-cleared :
      (p : ℕ) (valid : ℕ → Bool) (rows : List (ℕ × A))
      → Distinct rows
      → find p (remove_all (invalid valid rows) rows) ≡ (if valid p then find p rows else none)
  find-cleared p valid rows d = elim (Bool-cases (valid p)) [
    | inl v ↦
        ground (arith, find-remove_all p (invalid valid rows) rows d, invalid_absent p valid rows v)
    | inr v ↦ elim (Option-cases (find p rows)) [
      | inl e ↦ ground (arith, find-remove_all p (invalid valid rows) rows d)
      | inr (a, e) ↦
          ground (
            arith,
            find-remove_all p (invalid valid rows) rows d,
            invalid_present p valid rows a v e,
          )
    ]
  ]

module _ {R : Type 0} ⦃real : Real R⦄ (machine : Machine) where
  -- Clearing a table whose pages are distinct leaves with fake huge pages no row, and without them
  -- the rows of the pages that are in memory.
  pub find-clear_it :
      (p : ℕ) (fake_thp : Bool) (valid : ℕ → Bool) (t : Table R)
      → Distinct t.table
      → find p (clear_it machine fake_thp valid t).table
        ≡ (if not fake_thp && valid p then find p t.table else none)
  unfolding clear_it find
  find-clear_it p true valid t d = refl
  find-clear_it p false valid t d = find-cleared p valid t.table d
