-- ===== src/PerfTable/Accesses.antt =====
-- The memory accesses that the table of threads counts.
use csci555_usc.Base.{
  ℕ, zero, suc, ◌+◌, ◌<◌, ◌≡◌, refl, sym, ◌∙◌, ◌⊎◌, inl, inr, Bool, true, List, [], ◌∷◌, ◌==◌,
  arith, get_or, set, replicate, length, length-set, length-replicate, map, sum, sum-set, All,
  All-get_or, All-set, All-replicate, Elem, eq→==,
}
use csci555_usc.Real.{Real}
use csci555_usc.Machine.{Machine}
use csci555_usc.Pages.Row.{Sample, fill}
use csci555_usc.PerfTable.{
  PerfTable, new_table, add_memory_sample, clear_it, hard_clear, set_entry, entry, fill_rows,
}

-- The sum of a matrix.
abbrev pub total : List (List ℕ) → ℕ
total m = sum (map sum m)

total-set :
    (m : List (List ℕ)) (i : ℕ) (row : List ℕ)
    → i < length m
    → total (set m i row) + sum (get_or m i []) ≡ total m + sum row
total-set [] i row h = elim h [ ]
total-set (r ∷ m) zero row h = omega arith
total-set (r ∷ m) (suc i) row h = omega (arith, total-set m i row (omega arith))

-- A square matrix.
abbrev pub Square : ℕ → List (List ℕ) → Type 0
Square n m = (length m ≡ n) × All (λ row. length row ≡ n) m

total-set_entry :
    (n : ℕ) (m : List (List ℕ)) (i j v : ℕ)
    → Square n m
    → i < n
    → j < n
    → total (set_entry m i j v) + entry m i j ≡ total m + v
total-set_entry n m i j v square hi hj =
    let row = get_or m i [] in
    let inside : i < length m = omega (arith, square.0, hi) in
    let wide = All-get_or (λ row. length row ≡ n) m i [] inside square.1 in
    omega (arith, total-set m i (set row j v) inside, sum-set row j v (omega (arith, wide, hj)))

set_entry-Square :
    (n : ℕ) (m : List (List ℕ)) (i j v : ℕ) → Square n m → i < n → Square n (set_entry m i j v)
set_entry-Square n m i j v square hi =
    let row = get_or m i [] in
    let inside : i < length m = omega (arith, square.0, hi) in
    let wide = All-get_or (λ row. length row ≡ n) m i [] inside square.1 in
    (
      length-set m i (set row j v) ∙ square.0,
      All-set (λ row. length row ≡ n) m i (set row j v) square.1 (length-set row j v ∙ wide),
    )

sum-replicate : (n : ℕ) → sum (replicate n 0) ≡ 0
sum-replicate zero = refl
sum-replicate (suc n) = omega (arith, sum-replicate n)

total-replicate : (n k : ℕ) → total (replicate k (replicate n 0)) ≡ 0
total-replicate n zero = refl
total-replicate n (suc k) = omega (arith, sum-replicate n, total-replicate n k)

-- The sum of the row of a node.
abbrev row_sum : List (List ℕ) → ℕ → ℕ
row_sum m i = sum (get_or m i [])

row_sum-set :
    (m : List (List ℕ)) (i j : ℕ) (row : List ℕ)
    → sum row ≡ 0
    → (i == j ≡ true ⊎ (row_sum m i ≡ 0))
    → row_sum (set m j row) i ≡ 0
row_sum-set [] i j row h k = refl
row_sum-set (r ∷ m) zero zero row h k = h
row_sum-set (r ∷ m) zero (suc j) row h (inl e) = ground (arith, e)
row_sum-set (r ∷ m) zero (suc j) row h (inr e) = e
row_sum-set (r ∷ m) (suc i) zero row h (inl e) = ground (arith, e)
row_sum-set (r ∷ m) (suc i) zero row h (inr e) = e
row_sum-set (r ∷ m) (suc i) (suc j) row h (inl e) =
    row_sum-set m i j row h (inl (ground (arith, e)))
row_sum-set (r ∷ m) (suc i) (suc j) row h (inr e) = row_sum-set m i j row h (inr e)

total-zero : (m : List (List ℕ)) → ((i : ℕ) → i < length m → row_sum m i ≡ 0) → total m ≡ 0
total-zero [] h = refl
total-zero (r ∷ m) h =
    omega (arith, h 0 (omega arith), total-zero m (λ i lt. h (suc i) (omega (arith, lt))))

fill_rows-zero :
    (i : ℕ) (nodes : List ℕ) (m : List (List ℕ))
    → Elem i nodes ⊎ (row_sum m i ≡ 0)
    → row_sum (fill_rows nodes 0 m) i ≡ 0
unfolding fill_rows
fill_rows-zero i [] m (inl e) = absurd e
fill_rows-zero i [] m (inr z) = z
fill_rows-zero i (node ∷ nodes) m (inl (inl e)) =
    fill_rows-zero i nodes (set m node (fill (get_or m node []) 0)) (
      inr (
        row_sum-set m i node (fill (get_or m node []) 0) (sum-replicate (length (get_or m node [])))
          (inl (eq→== i node e))))
fill_rows-zero i (node ∷ nodes) m (inl (inr there)) =
    fill_rows-zero i nodes (set m node (fill (get_or m node []) 0)) (inl there)
fill_rows-zero i (node ∷ nodes) m (inr z) =
    fill_rows-zero i nodes (set m node (fill (get_or m node []) 0)) (
      inr (
        row_sum-set m i node (fill (get_or m node []) 0) (sum-replicate (length (get_or m node [])))
          (inr z)))

-- Where every node of the machine is filled with zeros, the matrix keeps its shape.
fill_rows-Square :
    (n : ℕ) (nodes : List ℕ) (m : List (List ℕ))
    → Square n m
    → All (λ node. node < n) nodes
    → Square n (fill_rows nodes 0 m)
unfolding fill_rows
fill_rows-Square n [] m square inside = square
fill_rows-Square n (node ∷ nodes) m square inside =
    let row = get_or m node [] in
    let here : node < length m = omega (arith, square.0, inside.0) in
    let wide = All-get_or (λ row. length row ≡ n) m node [] here square.1 in
    fill_rows-Square n nodes (set m node (fill row 0))
      (
        length-set m node (fill row 0) ∙ square.0,
        All-set (λ row. length row ≡ n) m node (fill row 0) square.1
            (length-replicate (length row) 0 ∙ wide),
      )
      inside.1

-- What is done to a table.
pub data PerfStep : Type 0 where
  memory_sampled : ℕ → Sample → PerfStep
  cleared : (ℕ → Bool) → PerfStep
  hard_cleared : PerfStep

module _ {R : Type 0} ⦃real : Real R⦄ (machine : Machine) (invalid_value : R) where
  abbrev n_nodes : ℕ
  n_nodes = machine.max_node + 1

  -- The nodes of the machine are those up to the largest.
  abbrev pub IsContiguous : Type 0
  IsContiguous =
      ((i : ℕ) → i < machine.max_node + 1 → Elem i machine.nodes)
      × All (λ node. node < machine.max_node + 1) machine.nodes

  -- A sample is from a node of the machine to one.
  abbrev pub InMachine : PerfStep → Type 0
  InMachine (memory_sampled now s) =
      (machine.node_from_cpu s.cpu < machine.max_node + 1) × (s.page_node < machine.max_node + 1)
  InMachine (cleared is_alive) = Unit
  InMachine hard_cleared = Unit

  pub perf_steps : List PerfStep → PerfTable R → PerfTable R
  unfolding add_memory_sample clear_it hard_clear
  perf_steps [] t = t
  perf_steps (memory_sampled now s ∷ steps) t =
      perf_steps steps (add_memory_sample machine invalid_value now s t)
  perf_steps (cleared is_alive ∷ steps) t =
      perf_steps steps (clear_it machine invalid_value is_alive t)
  perf_steps (hard_cleared ∷ steps) t = perf_steps steps (hard_clear machine invalid_value t)

  -- The accesses are those of all pairs of nodes.
  abbrev IsCounted : PerfTable R → Type 0
  IsCounted t = Square n_nodes t.mem_accesses × (t.accesses ≡ total t.mem_accesses)

  add_memory-IsCounted :
      (now : ℕ) (s : Sample) (t : PerfTable R)
      → machine.node_from_cpu s.cpu < n_nodes
      → s.page_node < n_nodes
      → IsCounted t
      → IsCounted (add_memory_sample machine invalid_value now s t)
  unfolding add_memory_sample
  add_memory-IsCounted now s t from to (square, same) =
      let src = machine.node_from_cpu s.cpu in
      let acc = entry t.mem_accesses src s.page_node in
      (
        set_entry-Square n_nodes t.mem_accesses src s.page_node (acc + s.reqs) square from,
        omega (
          arith,
          total-set_entry n_nodes t.mem_accesses src s.page_node (acc + s.reqs) square from to,
          same,
        ),
      )

  filled-IsCounted :
      (m : List (List ℕ))
      → IsContiguous
      → Square n_nodes m
      → Square n_nodes (fill_rows machine.nodes 0 m) × (0 ≡ total (fill_rows machine.nodes 0 m))
  filled-IsCounted m all square =
      let m' = fill_rows machine.nodes 0 m in
      let square' = fill_rows-Square n_nodes machine.nodes m square all.1 in
      (
        square',
        sym (
            total-zero m' (λ i lt.
              fill_rows-zero i machine.nodes m (inl (all.0 i (omega (arith, lt, square'.0)))))),
      )

  perf_steps-IsCounted :
      (steps : List PerfStep) (t : PerfTable R)
      → IsContiguous
      → All InMachine steps
      → IsCounted t
      → IsCounted (perf_steps steps t)
  unfolding perf_steps clear_it hard_clear
  perf_steps-IsCounted [] t all inside h = h
  perf_steps-IsCounted (memory_sampled now s ∷ steps) t all inside h =
      perf_steps-IsCounted steps (add_memory_sample machine invalid_value now s t) all inside.1
        (add_memory-IsCounted now s t inside.0.0 inside.0.1 h)
  perf_steps-IsCounted (cleared is_alive ∷ steps) t all inside h =
      perf_steps-IsCounted steps (clear_it machine invalid_value is_alive t) all inside.1
        (filled-IsCounted t.mem_accesses all h.0)
  perf_steps-IsCounted (hard_cleared ∷ steps) t all inside h =
      perf_steps-IsCounted steps (hard_clear machine invalid_value t) all inside.1
        (filled-IsCounted t.mem_accesses all h.0)

  new_table-IsCounted : IsCounted (new_table machine invalid_value)
  unfolding new_table
  new_table-IsCounted = (
    (
      length-replicate n_nodes (replicate n_nodes 0),
      All-replicate (λ row. length row ≡ n_nodes) n_nodes (replicate n_nodes 0)
          (length-replicate n_nodes 0),
    ),
    sym (total-replicate n_nodes n_nodes),
  )

  -- If the nodes of the machine are those from 0 to the largest, then after any memory samples between
  -- them and any clearings, hard or not, of a new table, the accesses that it counts are the sum of
  -- those that it counts for the pairs of nodes.
  pub accesses-total :
      (steps : List PerfStep)
      → IsContiguous
      → All InMachine steps
      → let t = perf_steps steps (new_table machine invalid_value) in
        t.accesses ≡ total t.mem_accesses
  accesses-total steps all inside =
      (perf_steps-IsCounted steps (new_table machine invalid_value) all inside
        new_table-IsCounted).1
