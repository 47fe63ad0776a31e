-- ===== src/Migrations/Select.antt =====
-- The choice of a migration by its tickets.
use csci555_usc.Base.{
  ℕ, suc, ◌+◌, ◌≡◌, refl, Bool, true, false, Bool-cases, inl, inr, some, List, [], ◌∷◌, map,
  if◌then◌else◌, arith, get_elem?, max_element, max_from, ◌∙◌, sym, ap,
}
use csci555_usc.Real.{Real}
use csci555_usc.Migrations.{
  MigrationCell, insert_candidate, candidates_from, first_candidate, select_migration,
}

module _ {R : Type 0} ⦃real : Real R⦄ (value : MigrationCell R → R) where
  open real use {lt}

  -- The first of the migrations with the largest value, after one that is known.
  abbrev best_from : R → MigrationCell R → List (MigrationCell R) → MigrationCell R
  best_from k m [] = m
  best_from k m (x ∷ xs) =
      best_from (if lt k (value x) then value x else k) (if lt k (value x) then x else m) xs

  first-candidates_from :
      (k : R) (m : MigrationCell R) (candidates : List (R × MigrationCell R))
      (xs : List (MigrationCell R))
      → first_candidate (candidates_from value xs ((k, m) ∷ candidates)) ≡ some (best_from k m xs)
  unfolding candidates_from first_candidate insert_candidate
  first-candidates_from k m candidates [] = refl
  first-candidates_from k m candidates (x ∷ xs) = elim (Bool-cases (lt k (value x))) [
    | inl e ↦ simp e (first-candidates_from (value x) x ((k, m) ∷ candidates) xs)
    | inr e ↦ elim (Bool-cases (lt (value x) k)) [
      | inl f ↦ simp (e, f) (first-candidates_from k m (insert_candidate (value x) x candidates) xs)
      | inr f ↦ simp (e, f) (first-candidates_from k m candidates xs)
    ]
  ]

  get-max_from :
      (all : List (MigrationCell R)) (k : R) (m : MigrationCell R) (at i : ℕ)
      (xs : List (MigrationCell R))
      → get_elem? all at ≡ some m
      → ((j : ℕ) → get_elem? all (i + j) ≡ get_elem? xs j)
      → get_elem? all (max_from lt k at i (map value xs)) ≡ some (best_from k m xs)
  unfolding max_from
  get-max_from all k m at i [] here rest = here
  get-max_from all k m at i (x ∷ xs) here rest =
      let next : (j : ℕ) → get_elem? all (suc i + j) ≡ get_elem? xs j =
        λ j. ap (get_elem? all) (omega arith) ∙ rest (suc j) in
      get-max_from all (if lt k (value x) then value x else k) (if lt k (value x) then x else m)
        (if lt k (value x) then i else at) (suc i) xs
        (pick (lt k (value x)) (ap (get_elem? all) (omega arith) ∙ rest 0)) next
    where
      pick :
          (b : Bool)
          → get_elem? all i ≡ some x
          → get_elem? all (if b then i else at) ≡ some (if b then x else m)
      pick true there = there
      pick false there = here

  -- The migration that is selected is the first of those whose value no other exceeds, as
  -- std::max_element finds it; there is none exactly of no migrations.
  pub select_migration-max_element :
      (migrations : List (MigrationCell R))
      → select_migration value migrations
        ≡ get_elem? migrations (max_element lt (map value migrations))
  unfolding select_migration candidates_from insert_candidate max_element
  select_migration-max_element [] = refl
  select_migration-max_element (m ∷ migrations) =
      first-candidates_from (value m) m [] migrations
      ∙ sym (
          get-max_from (m ∷ migrations) (value m) m 0 1 migrations refl
            (λ j. ap (get_elem? (m ∷ migrations)) {x = 1 + j} {y = suc j} (omega arith)))
