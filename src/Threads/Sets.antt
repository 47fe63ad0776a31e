-- ===== src/Threads/Sets.antt =====
-- The sets of the maps from processors and nodes to threads, one of them changed.
use csci555_usc.Base.{
  ℕ, zero, suc, ◌<◌, ◌≡◌, Bool, not, ◌&&◌, ◌||◌, List, [], ◌∷◌, ◌==◌, arith, get_or, length, insert,
  erase, contains, contains-insert, contains-erase,
}
use csci555_usc.Threads.{at_index}

-- The set of an index, empty out of bounds.
abbrev pub holds : ℕ → List (List ℕ) → ℕ → Bool
holds u sets c = contains u (get_or sets c [])

pub holds-erase :
    (u t : ℕ) (sets : List (List ℕ)) (i c : ℕ)
    → holds u (at_index sets i (erase t)) c ≡ (holds u sets c && not (c == i && u == t))
holds-erase u t [] i c = ground arith
holds-erase u t (s ∷ sets) zero zero = ground (arith, contains-erase t u s)
holds-erase u t (s ∷ sets) zero (suc c) = ground arith
holds-erase u t (s ∷ sets) (suc i) zero = ground arith
holds-erase u t (s ∷ sets) (suc i) (suc c) = ground (arith, holds-erase u t sets i c)

pub holds-insert :
    (u t : ℕ) (sets : List (List ℕ)) (i c : ℕ)
    → i < length sets
    → holds u (at_index sets i (insert t)) c ≡ (holds u sets c || (c == i && u == t))
holds-insert u t [] i c h = elim h [ ]
holds-insert u t (s ∷ sets) zero zero h = ground (arith, contains-insert t u s)
holds-insert u t (s ∷ sets) zero (suc c) h = ground arith
holds-insert u t (s ∷ sets) (suc i) zero h = ground arith
holds-insert u t (s ∷ sets) (suc i) (suc c) h =
    ground (arith, holds-insert u t sets i c (omega arith))
