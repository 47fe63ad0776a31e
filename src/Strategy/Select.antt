-- ===== src/Strategy/Select.antt =====
-- The selection of the best candidates and the migrations it leaves.
use mathlib.Core.List.{Perm}
use mathlib.Core.List.Perm
use csci555_usc.Base.{
  ℕ, Bool, false, ◌||◌, List, [], ◌∷◌, map, ltb, contains, Bool-cases, inl, inr, length,
}
use csci555_usc.Strategy.{Cell, Candidate, select_best_migrations}

module _ {R : Type 0} where
  -- Some migration moves the page.
  abbrev pub moves : ℕ → List (Cell R) → Bool
  moves p [] = false
  moves p (c ∷ cs) = contains p c.addr || moves p cs

  -- If the sort permutes, the selection returns the cells of all candidates up to their order, whatever the
  -- number of migrations.
  pub select_best_migrations-Perm :
      (sort : List (Candidate R) → List (Candidate R)) (candidates : List (Candidate R))
      (n_migrations : ℕ)
      → ((cs : List (Candidate R)) → Perm (sort cs) cs)
      → Perm (select_best_migrations sort candidates n_migrations) (map (λ c. c.cell) candidates)
  unfolding select_best_migrations
  select_best_migrations-Perm sort candidates n_migrations permutes =
      elim (Bool-cases (ltb n_migrations (length candidates))) [
        | inl e ↦ rw e (Perm.map (λ c. c.cell) (permutes candidates))
        | inr e ↦ rw e (Perm.refl (map (λ c. c.cell) candidates))
      ]
