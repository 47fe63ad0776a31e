-- ===== src/Topology/Distances.antt =====
-- The nodes by their distance.
use csci555_usc.Base.{
  ℕ, ◌≤◌, ◌≡◌, refl, ap, ==→eq, true, false, Bool-cases, inl, inr, ◌||◌, List, [], ◌∷◌, ◌==◌, arith,
  ltb, contains,
}
use csci555_usc.Topology.{insert_distance, by_distance}

-- No node is farther away than a later one.
abbrev pub IsByDistance : (ℕ → ℕ) → List ℕ → Type 0
IsByDistance distance [] = Unit
IsByDistance distance (n ∷ ns) =
    ((m : ℕ) → contains m ns ≡ true → distance n ≤ distance m) × IsByDistance distance ns

contains-insert_distance :
    (distance : ℕ → ℕ) (a b : ℕ) (ns : List ℕ)
    → contains b (insert_distance distance a ns) ≡ (b == a || contains b ns)
unfolding insert_distance
contains-insert_distance distance a b [] = refl
contains-insert_distance distance a b (n ∷ ns) =
    ground (arith, contains-insert_distance distance a b ns)

insert_distance-IsByDistance :
    (distance : ℕ → ℕ) (a : ℕ) (ns : List ℕ)
    → IsByDistance distance ns
    → IsByDistance distance (insert_distance distance a ns)
unfolding insert_distance
insert_distance-IsByDistance distance a [] o = (λ m h. cc, tt)
insert_distance-IsByDistance distance a (n ∷ ns) o =
    elim (Bool-cases (ltb (distance a) (distance n))) [
      | inl e ↦ simp e (first e, o)
      | inr e ↦ simp e (later e, insert_distance-IsByDistance distance a ns o.1)
    ]
  where
    first :
        ltb (distance a) (distance n) ≡ true
        → (m : ℕ) → contains m (n ∷ ns) ≡ true
        → distance a ≤ distance m
    first e m h = elim (Bool-cases (m == n)) [
      | inl same ↦
          let is : distance m ≡ distance n = ap distance (==→eq m n same) in ground (arith, e, is)
      | inr other ↦ ground (arith, e, o.0 m, h, other)
    ]

    later :
        ltb (distance a) (distance n) ≡ false
        → (m : ℕ) → contains m (insert_distance distance a ns) ≡ true
        → distance n ≤ distance m
    later e m h = elim (Bool-cases (m == a)) [
      | inl same ↦
          let is : distance m ≡ distance a = ap distance (==→eq m a same) in ground (arith, e, is)
      | inr other ↦ ground (arith, e, o.0 m, h, other, contains-insert_distance distance a m ns)
    ]

pub by_distance-IsByDistance :
    (distance : ℕ → ℕ) (nodes ordered : List ℕ)
    → IsByDistance distance ordered
    → IsByDistance distance (by_distance distance nodes ordered)
unfolding by_distance
by_distance-IsByDistance distance [] ordered o = o
by_distance-IsByDistance distance (n ∷ nodes) ordered o =
    by_distance-IsByDistance distance nodes (insert_distance distance n ordered)
      (insert_distance-IsByDistance distance n ordered o)

pub contains-by_distance :
    (distance : ℕ → ℕ) (b : ℕ) (nodes ordered : List ℕ)
    → contains b (by_distance distance nodes ordered) ≡ (contains b nodes || contains b ordered)
unfolding by_distance
contains-by_distance distance b [] ordered = refl
contains-by_distance distance b (n ∷ nodes) ordered = ground (
  arith,
  contains-by_distance distance b nodes (insert_distance distance n ordered),
  contains-insert_distance distance n b ordered,
)
