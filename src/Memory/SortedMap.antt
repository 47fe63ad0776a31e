-- ===== src/Memory/SortedMap.antt =====
-- std::map from addresses, and the search that memory_info.hpp makes in such a map for the span of
-- memory that holds an address. A map is the list of its entries in the order of their keys.
use csci555_usc.Base.{
  ℕ, ◌≤◌, ◌<◌, ◌≡◌, refl, Bool, true, false, ◌&&◌, ◌||◌, Option, none, some, List, [], ◌∷◌, ◌++◌,
  arith, ltb, leb, ◌==◌, if◌then◌else◌, suc, max, Bool-cases, inl, inr,
}

abbrev pub Map : Type 0 → Type 0
Map V = List (ℕ × V)

module _ {V : Type 0} where
  -- `m.lower_bound(a)`: the entry before the one found, and the one found. An absent second part
  -- is `m.end()`, an absent first part says that the one found is `m.begin()`.
  unfoldable pub lower_bound : Option V → ℕ → Map V → Option V × Option V
  lower_bound prev a [] = (prev, none)
  lower_bound prev a ((k, v) ∷ m) = if leb a k then (prev, some v) else lower_bound (some v) a m

  -- `m.emplace(k, v)` and `m.insert({k, v})`: an entry that is there stays.
  unfoldable pub emplace : ℕ → V → Map V → Map V
  emplace k v [] = (k, v) ∷ []
  emplace k v ((j, w) ∷ m) =
      if ltb k j then (k, v) ∷ (j, w) ∷ m else if k == j then (j, w) ∷ m else (j, w) ∷ emplace k v m

  -- Every key lies below the address.
  unfoldable pub all_below : ℕ → Map V → Bool
  all_below a [] = true
  all_below a ((k, v) ∷ m) = ltb k a && all_below a m

-- The three functions of the source are this search, each with the members that it reads: the key
-- that is compared first, and the two ends of the span.
module _ {V : Type 0} (address start stop : V → ℕ) where
  unfoldable pub from_bound : ℕ → Option V × Option V → Option V
  from_bound a (prev, none) = none
  from_bound a (none, some v) = if address v == a then some v else none
  from_bound a (some p, some v) =
      if address v == a then some v else if ltb (start p) a && ltb a (stop p) then some p else none

  unfoldable pub find_span : Map V → ℕ → Option V
  unfolding from_bound lower_bound
  find_span m a = from_bound a (lower_bound none a m)

  -- The keys are the starts of their spans, in strict order from `lo`, and no span reaches into the
  -- next. A span may be empty.
  abbrev pub Laid : ℕ → Map V → Type 0
  Laid lo [] = Unit
  Laid lo ((k, v) ∷ m) =
      (lo ≤ k) × (address v ≡ k) × (start v ≡ k) × (k ≤ stop v) × Laid (max (suc k) (stop v)) m

  -- The address lies in the span, or is its start.
  abbrev holds : V → ℕ → Bool
  holds v a = a == start v || (leb (start v) a && ltb a (stop v))

  -- The specification: the first span that holds the address.
  unfoldable pub owner : Map V → ℕ → Option V
  owner [] a = none
  owner ((k, v) ∷ m) a = if holds v a then some v else owner m a

  owner_below : (lo a : ℕ) (m : Map V) → Laid lo m → a < lo → owner m a ≡ none
  unfolding owner
  owner_below lo a [] l h = refl
  owner_below lo a ((k, v) ∷ m) l h =
      ground (arith, owner_below (max (suc k) (stop v)) a m l.4 (omega arith))

  find_span_after :
      (lo a : ℕ) (p : V) (m : Map V)
      → Laid lo m
      → stop p ≤ lo
      → start p < a
      → from_bound a (lower_bound (some p) a m)
        ≡ (if all_below a m then none else if ltb a (stop p) then some p else owner m a)
  unfolding from_bound lower_bound all_below owner
  find_span_after lo a p [] l h k = refl
  find_span_after lo a p ((k, v) ∷ m) l h q = ground (
    arith,
    owner_below (max (suc k) (stop v)) a m l.4,
    find_span_after (max (suc k) (stop v)) a v m l.4 (omega arith),
  )

  -- The search finds the span that holds the address, unless every span starts below it.
  pub find_span-owner :
      (lo : ℕ) (m : Map V) (a : ℕ)
      → Laid lo m
      → find_span m a ≡ (if all_below a m then none else owner m a)
  unfolding find_span all_below owner
  find_span-owner lo [] a l = refl
  find_span-owner lo ((k, v) ∷ m) a l = ground (
    arith,
    owner_below (max (suc k) (stop v)) a m l.4,
    find_span_after (max (suc k) (stop v)) a v m l.4 (omega arith),
  )

  -- Some span holds the address.
  unfoldable pub covers : Map V → ℕ → Bool
  covers [] a = false
  covers ((k, v) ∷ m) a = (leb (start v) a && ltb a (stop v)) || covers m a

  pub covers-append : (m n : Map V) (a : ℕ) → covers (m ++ n) a ≡ (covers m a || covers n a)
  unfolding covers
  covers-append [] n a = refl
  covers-append ((k, v) ∷ m) n a = ground (arith, covers-append m n a)

  Laid-mono : (lo lo' : ℕ) (m : Map V) → Laid lo m → lo' ≤ lo → Laid lo' m
  Laid-mono lo lo' [] l h = tt
  Laid-mono lo lo' ((k, v) ∷ m) l h = (omega arith, l.1, l.2, l.3, l.4)

  -- Laid from `lo` with no empty span, and the last span ends at `hi` or below.
  abbrev pub LaidTo : ℕ → Map V → ℕ → Type 0
  LaidTo lo [] hi = lo ≤ hi
  LaidTo lo ((k, v) ∷ m) hi =
      (lo ≤ k) × (address v ≡ k) × (start v ≡ k) × (k < stop v) × LaidTo (stop v) m hi

  pub LaidTo-Laid : (lo hi : ℕ) (m : Map V) → LaidTo lo m hi → Laid lo m
  LaidTo-Laid lo hi [] l = tt
  LaidTo-Laid lo hi ((k, v) ∷ m) l =
      let next : max (suc k) (stop v) ≡ stop v = omega arith in
      (l.0, l.1, l.2, omega arith, rw next (LaidTo-Laid (stop v) hi m l.4))

  -- A span that is not empty and covers the address is the one that holds it.
  pub LaidTo-owner :
      (lo hi a : ℕ) (m : Map V)
      → LaidTo lo m hi
      → covers m a ≡ true
      → (v : V) × (owner m a ≡ some v) × (start v ≤ a) × (a < stop v)
  unfolding covers owner
  LaidTo-owner lo hi a [] l h = cc
  LaidTo-owner lo hi a ((k, v) ∷ m) l h = elim (Bool-cases (holds v a)) [
    | inl e ↦ (v, rw e, ground arith, ground arith)
    | inr e ↦
        let (w, found, below, above) = LaidTo-owner (stop v) hi a m l.4 (ground arith) in
        (w, rw e found, below, above)
  ]

  pub LaidTo-le : (lo hi : ℕ) (m : Map V) → LaidTo lo m hi → lo ≤ hi
  LaidTo-le lo hi [] l = l
  LaidTo-le lo hi ((k, v) ∷ m) l = omega (arith, LaidTo-le (stop v) hi m l.4)

  pub LaidTo-mono : (lo hi top : ℕ) (m : Map V) → LaidTo lo m hi → hi ≤ top → LaidTo lo m top
  LaidTo-mono lo hi top [] l h = omega arith
  LaidTo-mono lo hi top ((k, v) ∷ m) l h = (l.0, l.1, l.2, l.3, LaidTo-mono (stop v) hi top m l.4 h)

  -- A key past the last span goes to the end, and leaves the map laid.
  pub emplace_end :
      (lo hi k : ℕ) (v : V) (m : Map V) → LaidTo lo m hi → hi ≤ k → emplace k v m ≡ m ++ (k, v) ∷ []
  unfolding emplace
  emplace_end lo hi k v [] l h = refl
  emplace_end lo hi k v ((j, w) ∷ m) l h =
      ground (arith, emplace_end (stop w) hi k v m l.4 h, LaidTo-le (stop w) hi m l.4)

  pub LaidTo-snoc :
      (lo hi : ℕ) (v : V) (m : Map V)
      → LaidTo lo m hi
      → hi ≤ start v
      → address v ≡ start v
      → start v < stop v
      → LaidTo lo (m ++ (start v, v) ∷ []) (stop v)
  LaidTo-snoc lo hi v [] l h e p = (omega arith, e, refl, p, omega arith)
  LaidTo-snoc lo hi v ((j, w) ∷ m) l h e p =
      (l.0, l.1, l.2, l.3, LaidTo-snoc (stop w) hi v m l.4 h e p)

  -- The case in which the search fails although a span holds the address.
  all_below_snoc :
      (lo a k : ℕ) (v : V) (m : Map V)
      → Laid lo (m ++ (k, v) ∷ [])
      → k < a
      → (all_below a (m ++ (k, v) ∷ []) ≡ true) × (a < stop v → owner (m ++ (k, v) ∷ []) a ≡ some v)
  unfolding all_below owner
  all_below_snoc lo a k v [] l h = (ground arith, λ q. ground arith)
  all_below_snoc lo a k v ((j, w) ∷ m) l h =
      let rest = all_below_snoc (max (suc j) (stop w)) a k v m l.4 h in
      let past = start_snoc (max (suc j) (stop w)) k v m l.4 in
      (ground (arith, rest.0, past), λ q. ground (arith, rest.1 q, past))
    where
      start_snoc : (lo k : ℕ) (v : V) (m : Map V) → Laid lo (m ++ (k, v) ∷ []) → lo ≤ k
      start_snoc lo k v [] l = l.0
      start_snoc lo k v ((j, w) ∷ m) l = omega (arith, start_snoc (max (suc j) (stop w)) k v m l.4)

  pub find_span_last :
      (lo a k : ℕ) (v : V) (m : Map V)
      → Laid lo (m ++ (k, v) ∷ [])
      → k < a
      → a < stop v
      → (find_span (m ++ (k, v) ∷ []) a ≡ none) × (owner (m ++ (k, v) ∷ []) a ≡ some v)
  find_span_last lo a k v m l h q =
      let below = all_below_snoc lo a k v m l h in
      (rw (find_span-owner lo (m ++ (k, v) ∷ []) a l, below.0), below.1 q)
