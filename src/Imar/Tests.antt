-- ===== src/Imar/Tests.antt =====
-- Runs of the strategies over the numbers, on two nodes of one processor with one thread each.
use csci555_usc.Base.{
  ◌⊎◌, Option, none, some, ℕ, zero, suc, ◌≡◌, refl, Bool, true, false, Bool-cases, inl, inr, List,
  [], ◌∷◌, ◌==◌, ltb, ◌*◌, ◌+◌, ◌-◌, if◌then◌else◌, arith, contains, Nodup, All, Elem, length, min,
  get_or,
}
use csci555_usc.Real.{nat_real}
use csci555_usc.Tickets.{default_settings}
use csci555_usc.Threads.{Process, System}
use csci555_usc.Threads.Moves.{non_idle}
use csci555_usc.Migrations.{MigrationCell, Readings}
use csci555_usc.Balance.{Topology}
use csci555_usc.Schedule.Plan.Once.{planned}
use csci555_usc.Lbma.{other_cpus}
use csci555_usc.Imar.{worst_migrations, nimar_get_migration, tickets_to_node}
use csci555_usc.Imar.Processors.{cimar_get_migration_list, imar2_get_migration_list}
use csci555_usc.Imar.Gain.{IsGain, worst_migrations-IsGain}
use csci555_usc.Imar.Once.{worst_migrations-Nodup}
use csci555_usc.Imar.Worst.{
  worst_from, worst_threads, Sorted, Sorts, IsWorst, IsSlow, worst_threads-IsWorst,
}

abbrev process_of : ℕ → Process
process_of tid =
    let cpu = if tid == 7 then 0 else 1 in
    record {
      pid = tid;
      processor = cpu;
      numa_node = cpu;
      pinned = true;
      pinned_processor = cpu;
      pinned_numa_node = cpu;
      idle = false;
    }

abbrev system : System
system = record {
  processes = (7, process_of 7) ∷ (8, process_of 8) ∷ [];
  nodes = 0 ∷ 1 ∷ [];
  cpu_node_map = 0 ∷ 1 ∷ [];
  cpu_tid_map = (7 ∷ []) ∷ (8 ∷ []) ∷ [];
  node_tid_map = (7 ∷ []) ∷ (8 ∷ []) ∷ [];
}

abbrev topology : Topology
topology = record {
  cpus = 0 ∷ 1 ∷ [];
  nodes = 0 ∷ 1 ∷ [];
  nodes_by_distance = (0 ∷ 1 ∷ []) ∷ (1 ∷ 0 ∷ []) ∷ [];
  node_cpu_map = (0 ∷ []) ∷ (1 ∷ []) ∷ [];
}

-- 7 prefers node 1, 8 node 0, and each performs better there.
abbrev readings : Readings ℕ
readings = record {
  perf_node = λ tid node. if (tid == 7) then (node * 10 + 5) else (25 - node * 10);
  preferred_node = λ tid. if tid == 7 then 1 else 0;
  rel_performance = λ tid. if tid == 7 then 0 else 5;
  pid_from_tid = λ tid. tid;
  is_idle = λ tid. false;
  is_migratable = λ tid. true;
  numa_distance = λ a b. if a == b then 10 else 20;
  invalid_value = 1000;
}

listed :
    planned
      (worst_migrations
        (nimar_get_migration default_settings readings topology process_of system)
        (7 ∷ 8 ∷ [])
        []).0
    ≡ 7 ∷ 8 ∷ []
unfolding worst_migrations nimar_get_migration default_settings
listed = refl

-- 7 is migrated by an interchange with 8, which is then not migrated again.
planned_tids : Option (List (MigrationCell ℕ) × List ℕ) → List ℕ
planned_tids none = []
planned_tids (some r) = planned r.0

cimar_listed :
    planned_tids (
      cimar_get_migration_list default_settings readings topology process_of system (7 ∷ 8 ∷ []) [])
    ≡ 7 ∷ 8 ∷ []
unfolding cimar_get_migration_list planned_tids other_cpus default_settings
cimar_listed = refl

imar2_listed :
    planned_tids (
      imar2_get_migration_list default_settings readings topology process_of system (7 ∷ 8 ∷ []) [])
    ≡ 7 ∷ 8 ∷ []
unfolding imar2_get_migration_list planned_tids other_cpus default_settings
imar2_listed = refl

worst_migrations-IsGain_example :
    All
      (IsGain (tickets_to_node default_settings readings topology process_of system))
      (worst_migrations
        (nimar_get_migration default_settings readings topology process_of system)
        (7 ∷ 8 ∷ [])
        []).0
worst_migrations-IsGain_example =
    worst_migrations-IsGain default_settings readings topology process_of system (7 ∷ 8 ∷ []) []

at_home_7 :
    (node : ℕ)
    → 0 == node ≡ false
    → (contains 7 (non_idle readings.is_idle (get_or system.node_tid_map node [])) ≡ false)
      × (contains 0 (non_idle readings.is_idle (get_or system.node_tid_map node [])) ≡ false)
unfolding non_idle
at_home_7 zero h = (cc h, refl)
at_home_7 (suc zero) h = (refl, refl)
at_home_7 (suc (suc n)) h = (refl, refl)

at_home_8 :
    (node : ℕ)
    → 1 == node ≡ false
    → (contains 8 (non_idle readings.is_idle (get_or system.node_tid_map node [])) ≡ false)
      × (contains 0 (non_idle readings.is_idle (get_or system.node_tid_map node [])) ≡ false)
unfolding non_idle
at_home_8 zero h = (refl, refl)
at_home_8 (suc zero) h = (cc h, refl)
at_home_8 (suc (suc n)) h = (refl, refl)

worst_migrations-Nodup_example :
    let r =
      worst_migrations
        (nimar_get_migration default_settings readings topology process_of system)
        (7 ∷ 8 ∷ [])
        [] in
    Nodup (planned r.0) × ((x : ℕ) → contains x (planned r.0) ≡ true → contains x [] ≡ false)
worst_migrations-Nodup_example =
    worst_migrations-Nodup default_settings readings topology process_of system (7 ∷ 8 ∷ []) []
      (at_home_7, (at_home_8, tt))

-- Sorting by insertion.
put : ℕ × ℕ → List (ℕ × ℕ) → List (ℕ × ℕ)
put x [] = x ∷ []
put x (y ∷ l) = let rest = put x l in if ltb y.0 x.0 then y ∷ rest else x ∷ y ∷ l

sort : List (ℕ × ℕ) → List (ℕ × ℕ)
unfolding put
sort [] = []
sort (x ∷ l) = put x (sort l)

put-Elem : (a x : ℕ × ℕ) (l : List (ℕ × ℕ)) → Elem a (put x l) → Elem a (x ∷ l)
unfolding put
put-Elem a x [] h = h
put-Elem a x (y ∷ l) h = go (ltb y.0 x.0) h (put-Elem a x l)
  where
    go :
        (b : Bool)
        → Elem a (if b then y ∷ put x l else x ∷ y ∷ l)
        → (Elem a (put x l) → Elem a (x ∷ l))
        → Elem a (x ∷ y ∷ l)
    go true (inl e) ih = inr (inl e)
    go true (inr m) ih = elim (ih m) [ inl e ↦ inl e | inr n ↦ inr (inr n) ]
    go false m ih = m

sort-Elem : (a : ℕ × ℕ) (l : List (ℕ × ℕ)) → Elem a (sort l) → Elem a l
unfolding sort
sort-Elem a [] h = h
sort-Elem a (x ∷ l) h = elim (put-Elem a x (sort l) h) [
  | inl e ↦ inl e
  | inr m ↦ inr (sort-Elem a l m)
]

Elem-put : (a x : ℕ × ℕ) (l : List (ℕ × ℕ)) → Elem a (x ∷ l) → Elem a (put x l)
unfolding put
Elem-put a x [] h = h
Elem-put a x (y ∷ l) h = go (ltb y.0 x.0) h (Elem-put a x l)
  where
    go :
        (b : Bool)
        → Elem a (x ∷ y ∷ l)
        → (Elem a (x ∷ l) → Elem a (put x l))
        → Elem a (if b then y ∷ put x l else x ∷ y ∷ l)
    go true (inl e) ih = inr (ih (inl e))
    go true (inr (inl e)) ih = inl e
    go true (inr (inr m)) ih = inr (ih (inr m))
    go false m ih = m

Elem-sort : (a : ℕ × ℕ) (l : List (ℕ × ℕ)) → Elem a l → Elem a (sort l)
unfolding sort
Elem-sort a [] h = h
Elem-sort a (x ∷ l) (inl e) = Elem-put a x (sort l) (inl e)
Elem-sort a (x ∷ l) (inr m) = Elem-put a x (sort l) (inr (Elem-sort a l m))

length-put : (x : ℕ × ℕ) (l : List (ℕ × ℕ)) → length (put x l) ≡ suc (length l)
unfolding put
length-put x [] = refl
length-put x (y ∷ l) = ground (arith, length-put x l)

length-sort : (l : List (ℕ × ℕ)) → length (sort l) ≡ length l
unfolding sort
length-sort [] = refl
length-sort (x ∷ l) = omega (arith, length-put x (sort l), length-sort l)

abbrev InOrder : List (ℕ × ℕ) → Type 0
InOrder = Sorted default_settings readings (λ tid. true)

abbrev NotLess : ℕ × ℕ → List (ℕ × ℕ) → Type 0
NotLess x l = All (λ (y : ℕ × ℕ). ltb y.0 x.0 ≡ false) l

put-NotLess :
    (a x : ℕ × ℕ) (l : List (ℕ × ℕ)) → NotLess a l → ltb x.0 a.0 ≡ false → NotLess a (put x l)
unfolding put
put-NotLess a x [] h k = (k, tt)
put-NotLess a x (y ∷ l) h k = elim (Bool-cases (ltb y.0 x.0)) [
  | inl e ↦ simp e (h.0, put-NotLess a x l h.1 k)
  | inr e ↦ simp e (k, (h.0, h.1))
]

NotLess-trans : (x y : ℕ × ℕ) (l : List (ℕ × ℕ)) → ltb y.0 x.0 ≡ false → NotLess y l → NotLess x l
NotLess-trans x y [] h k = tt
NotLess-trans x y (z ∷ l) h k = (ground (arith, h, k.0), NotLess-trans x y l h k.1)

put-Sorted : (x : ℕ × ℕ) (l : List (ℕ × ℕ)) → InOrder l → InOrder (put x l)
unfolding put
put-Sorted x [] s = (tt, tt)
put-Sorted x (y ∷ l) s = elim (Bool-cases (ltb y.0 x.0)) [
  | inl e ↦ simp e (put-NotLess y x l s.0 (ground (arith, e)), put-Sorted x l s.1)
  | inr e ↦ simp e ((refl, NotLess-trans x y l e s.0), s)
]

sort-Sorted : (l : List (ℕ × ℕ)) → InOrder (sort l)
unfolding sort
sort-Sorted [] = tt
sort-Sorted (x ∷ l) = put-Sorted x (sort l) (sort-Sorted l)

sort-Sorts : Sorts default_settings readings (λ tid. true) sort
sort-Sorts = record {
  elements = sort-Elem;
  all_elements = Elem-sort;
  same_length = length-sort;
  sorted = sort-Sorted;
}

worst_threads-IsWorst_example :
    let worst = worst_from default_settings readings (λ tid. true) true (8 ∷ 7 ∷ []) in
    let chosen = worst_threads default_settings readings (λ tid. true) sort 1 true (8 ∷ 7 ∷ []) in
    All (IsWorst default_settings readings (λ tid. true) true (8 ∷ 7 ∷ [])) chosen
    × (length chosen ≡ min 1 (length worst))
    × ((tid : ℕ)
        → Elem tid (8 ∷ 7 ∷ [])
        → IsSlow default_settings readings (λ t. true) true tid
        → Elem (readings.rel_performance tid, tid) chosen
          ⊎ All (λ (x : ℕ × ℕ). ltb (readings.rel_performance tid) x.0 ≡ false) chosen)
worst_threads-IsWorst_example =
    worst_threads-IsWorst default_settings readings (λ tid. true) sort 1 true (8 ∷ 7 ∷ [])
      sort-Sorts
