-- ===== src/Imar/Worst.antt =====
-- The threads that the strategies try to migrate: those that perform worst, the worst first.
use csci555_usc.Base.{
  ℕ, zero, suc, ◌≤◌, min, ◌≡◌, refl, sym, ap, subst, Bool, true, false, Bool-cases, inl, inr, not,
  ◌&&◌, ◌||◌, List, [], ◌∷◌, ◌++◌, arith, if◌then◌else◌, length, All, All-Elem, Elem, Elem-append,
  ◌⊎◌,
}
use csci555_usc.Real.{Real}
use csci555_usc.Tickets.{Settings}
use csci555_usc.Migrations.{Readings}

-- `resize` to no more than there is.
unfoldable pub take {ℓ} : {A : Type ℓ} → ℕ → List A → List A
take zero xs = []
take (suc n) [] = []
take (suc n) (x ∷ xs) = x ∷ take n xs

unfoldable pub drop {ℓ} : {A : Type ℓ} → ℕ → List A → List A
drop zero xs = xs
drop (suc n) [] = []
drop (suc n) (x ∷ xs) = drop n xs

module _ {R : Type 0} ⦃real : Real R⦄ (settings : Settings R) (readings : Readings R)
    (is_running : ℕ → Bool) where
  open real use {lt, eq}

  -- The test of a thread; imar2.hpp does not ask whether it may be migrated.
  unfoldable pub is_worst : Bool → ℕ → Bool
  is_worst asks tid =
      let perf = readings.rel_performance tid in
      (not asks || readings.is_migratable tid)
      && is_running tid
      && lt perf settings.perf_threshold
      && not (eq perf readings.invalid_value)

  -- The loop over the table of threads.
  unfoldable pub worst_from : Bool → List ℕ → List (R × ℕ)
  unfolding is_worst
  worst_from asks [] = []
  worst_from asks (tid ∷ tids) =
      let rest = worst_from asks tids in
      if is_worst asks tid then (readings.rel_performance tid, tid) ∷ rest else rest

  -- `sort` is std::sort by the performance.
  unfoldable pub worst_threads : (List (R × ℕ) → List (R × ℕ)) → ℕ → Bool → List ℕ → List (R × ℕ)
  unfolding worst_from take
  worst_threads sort max_thread_migrations asks tids =
      let worst = worst_from asks tids in
      take (min max_thread_migrations (length worst)) (sort worst)

  -- What std::sort does: it keeps the elements, and no later one is less.
  abbrev pub Sorted : List (R × ℕ) → Type 0
  Sorted [] = Unit
  Sorted (x ∷ xs) = All (λ y. lt y.0 x.0 ≡ false) xs × Sorted xs

  pub record Sorts (sort : List (R × ℕ) → List (R × ℕ)) : Type 0 where
    pub elements : (a : R × ℕ) (l : List (R × ℕ)) → Elem a (sort l) → Elem a l
    pub all_elements : (a : R × ℕ) (l : List (R × ℕ)) → Elem a l → Elem a (sort l)
    pub same_length : (l : List (R × ℕ)) → length (sort l) ≡ length l
    pub sorted : (l : List (R × ℕ)) → Sorted (sort l)

module _ {A : Type 0} where
  All_of : (P : A → Type 0) (xs : List A) → ((a : A) → Elem a xs → P a) → All P xs
  All_of P [] h = tt
  All_of P (x ∷ xs) h = (h x (inl refl), All_of P xs (λ a e. h a (inr e)))

  All-take : (P : A → Type 0) (n : ℕ) (xs : List A) → All P xs → All P (take n xs)
  unfolding take
  All-take P zero xs h = tt
  All-take P (suc n) [] h = tt
  All-take P (suc n) (x ∷ xs) h = (h.0, All-take P n xs h.1)

  All-drop : (P : A → Type 0) (n : ℕ) (xs : List A) → All P xs → All P (drop n xs)
  unfolding drop
  All-drop P zero xs h = h
  All-drop P (suc n) [] h = tt
  All-drop P (suc n) (x ∷ xs) h = All-drop P n xs h.1

  take-drop : (n : ℕ) (xs : List A) → xs ≡ take n xs ++ drop n xs
  unfolding take drop
  take-drop zero xs = refl
  take-drop (suc n) [] = refl
  take-drop (suc n) (x ∷ xs) = ap (λ l. x ∷ l) (take-drop n xs)

  length-take : (n : ℕ) (xs : List A) → n ≤ length xs → length (take n xs) ≡ n
  unfolding take
  length-take zero xs h = refl
  length-take (suc n) [] h = absurd (omega arith)
  length-take (suc n) (x ∷ xs) h = omega (arith, length-take n xs (omega arith))

module _ {R : Type 0} ⦃real : Real R⦄ (settings : Settings R) (readings : Readings R)
    (is_running : ℕ → Bool) where
  open real use {lt, eq}

  abbrev IsSorted : List (R × ℕ) → Type 0
  IsSorted = Sorted settings readings is_running

  -- No element of a list is less than one of the other.
  abbrev NoneLess : List (R × ℕ) → List (R × ℕ) → Type 0
  NoneLess rest chosen = All (λ y. All (λ x. lt y.0 x.0 ≡ false) chosen) rest

  NoneLess-cons :
      (x : R × ℕ) (chosen rest : List (R × ℕ))
      → All (λ y. lt y.0 x.0 ≡ false) rest
      → NoneLess rest chosen
      → NoneLess rest (x ∷ chosen)
  NoneLess-cons x chosen [] h k = tt
  NoneLess-cons x chosen (y ∷ rest) h k = ((h.0, k.0), NoneLess-cons x chosen rest h.1 k.1)

  NoneLess-nil : (rest : List (R × ℕ)) → NoneLess rest []
  NoneLess-nil [] = tt
  NoneLess-nil (y ∷ rest) = (tt, NoneLess-nil rest)

  IsSorted-split : (n : ℕ) (l : List (R × ℕ)) → IsSorted l → NoneLess (drop n l) (take n l)
  unfolding take drop
  IsSorted-split zero l s = NoneLess-nil l
  IsSorted-split (suc n) [] s = tt
  IsSorted-split (suc n) (x ∷ l) s =
      NoneLess-cons x (take n l) (drop n l) (All-drop (λ y. lt y.0 x.0 ≡ false) n l s.0)
        (IsSorted-split n l s.1)

  -- The thread runs, and its performance is known and below the threshold; if it is asked, it may be
  -- migrated.
  abbrev pub IsSlow : Bool → ℕ → Type 0
  IsSlow asks tid =
      (asks ≡ true → readings.is_migratable tid ≡ true)
      × (is_running tid ≡ true)
      × (lt (readings.rel_performance tid) settings.perf_threshold ≡ true)
      × (eq (readings.rel_performance tid) readings.invalid_value ≡ false)

  test_cases :
      (asks migratable running less invalid : Bool)
      → ((not asks || migratable) && running && less && not invalid) ≡ true
      → (asks ≡ true → migratable ≡ true) × (running ≡ true) × (less ≡ true) × (invalid ≡ false)
  test_cases asks migratable running less invalid h =
      (λ a. ground (arith, h, a), ground (arith, h), ground (arith, h), ground (arith, h))

  cases_test :
      (asks migratable running less invalid : Bool)
      → (asks ≡ true → migratable ≡ true) × (running ≡ true) × (less ≡ true) × (invalid ≡ false)
      → ((not asks || migratable) && running && less && not invalid) ≡ true
  cases_test true migratable running less invalid h = simp (h.0 refl, h.1, h.2, h.3) refl
  cases_test false migratable running less invalid h = simp (h.1, h.2, h.3) refl

  is_worst-IsSlow :
      (asks : Bool) (tid : ℕ)
      → is_worst settings readings is_running asks tid ≡ true
      → IsSlow asks tid
  unfolding is_worst
  is_worst-IsSlow asks tid h = test_cases asks _ _ _ _ h

  IsSlow-is_worst :
      (asks : Bool) (tid : ℕ)
      → IsSlow asks tid
      → is_worst settings readings is_running asks tid ≡ true
  unfolding is_worst
  IsSlow-is_worst asks tid h = cases_test asks _ _ _ _ h

  -- A slow thread of the table, with its performance.
  abbrev pub IsWorst : Bool → List ℕ → R × ℕ → Type 0
  IsWorst asks tids x = IsSlow asks x.1 × (x.0 ≡ readings.rel_performance x.1) × Elem x.1 tids

  wider :
      (asks : Bool) (tid : ℕ) (tids : List ℕ) (l : List (R × ℕ))
      → All (IsWorst asks tids) l
      → All (IsWorst asks (tid ∷ tids)) l
  wider asks tid tids [] h = tt
  wider asks tid tids (x ∷ l) h = ((h.0.0, h.0.1, inr h.0.2), wider asks tid tids l h.1)

  worst_from-IsWorst :
      (asks : Bool) (tids : List ℕ)
      → All (IsWorst asks tids) (worst_from settings readings is_running asks tids)
  unfolding worst_from
  worst_from-IsWorst asks [] = tt
  worst_from-IsWorst asks (tid ∷ tids) =
      let rest =
        wider asks tid tids (worst_from settings readings is_running asks tids)
          (worst_from-IsWorst asks tids) in
      elim (Bool-cases (is_worst settings readings is_running asks tid)) [
        | inl e ↦ simp e ((is_worst-IsSlow asks tid e, refl, inl refl), rest)
        | inr e ↦ simp e rest
      ]

  worst_from-Elem :
      (asks : Bool) (tids : List ℕ) (tid : ℕ)
      → Elem tid tids
      → IsSlow asks tid
      → Elem (readings.rel_performance tid, tid) (worst_from settings readings is_running asks tids)
  unfolding worst_from
  worst_from-Elem asks [] tid m slow = elim m [ ]
  worst_from-Elem asks (t ∷ tids) tid (inl e) slow =
      subst
        (λ i.
          Elem (readings.rel_performance tid, tid)
            (worst_from settings readings is_running asks (i ∷ tids)))
        e (simp (IsSlow-is_worst asks tid slow) (inl refl))
  worst_from-Elem asks (t ∷ tids) tid (inr m) slow =
      elim (Bool-cases (is_worst settings readings is_running asks t)) [
        | inl e ↦ simp e (inr (worst_from-Elem asks tids tid m slow))
        | inr e ↦ simp e (worst_from-Elem asks tids tid m slow)
      ]

  -- If `sort` sorts: the threads that are chosen are slow threads of the table, with their
  -- performances; there are as many as the limit allows and the table has; and every other slow thread
  -- of the table performs no worse than any of them.
  pub worst_threads-IsWorst :
      (sort : List (R × ℕ) → List (R × ℕ)) (max_thread_migrations : ℕ) (asks : Bool) (tids : List ℕ)
      → Sorts settings readings is_running sort
      → let worst = worst_from settings readings is_running asks tids in
        let chosen =
          worst_threads settings readings is_running sort max_thread_migrations asks tids in
        All (IsWorst asks tids) chosen
        × (length chosen ≡ min max_thread_migrations (length worst))
        × ((tid : ℕ)
            → Elem tid tids
            → IsSlow asks tid
            → Elem (readings.rel_performance tid, tid) chosen
              ⊎ All (λ x. lt (readings.rel_performance tid) x.0 ≡ false) chosen)
  unfolding worst_threads
  worst_threads-IsWorst sort max_thread_migrations asks tids s =
      let worst = worst_from settings readings is_running asks tids in
      let n = min max_thread_migrations (length worst) in
      (
        All-take (IsWorst asks tids) n (sort worst) (
            All_of (IsWorst asks tids) (sort worst) (λ a e.
              All-Elem (IsWorst asks tids) worst a (worst_from-IsWorst asks tids)
                (s.elements a worst e))),
        length-take n (sort worst) (subst (λ k. n ≤ k) (sym (s.same_length worst)) (omega arith)),
        λ tid m slow.
            let a : R × ℕ = (readings.rel_performance tid, tid) in
            let found = s.all_elements a worst (worst_from-Elem asks tids tid m slow) in
            elim (Elem-append a (take n (sort worst)) (drop n (sort worst))
              (subst (Elem a) (take-drop n (sort worst)) found)) [
                | inl e ↦ inl e
                | inr e ↦ inr (
                    All-Elem (λ y. All (λ x. lt y.0 x.0 ≡ false) (take n (sort worst)))
                      (drop n (sort worst)) a (IsSorted-split n (sort worst) (s.sorted worst)) e)
              ],
      )
