-- ===== src/Strategy/Rmma/Laws.antt =====
-- Where the random strategy moves pages.
use csci555_usc.Base.{
  ℕ, zero, suc, ◌+◌, ◌≤◌, ◌<◌, ◌≡◌, refl, Bool, true, false, Bool-cases, inl, inr, Option, none,
  some, List, [], ◌∷◌, ◌++◌, ◌==◌, if◌then◌else◌, All, All-append, length, length-append, arith,
  get_elem?,
}
use csci555_usc.Real.{Real}
use csci555_usc.Machine.{Machine}
use csci555_usc.Pages.Row.{Row, read_ratios}
use csci555_usc.Strategy.{Cell, Settings}
use csci555_usc.Strategy.Rmma.{
  Drawn, random_cell, rmma_all_pages, rmma_round, rmma_rounds, rmma_n_pages,
}

module _ {G : Type 0} where
  -- What the draws rely on: a number of the range, its second end left out, if the range has any.
  abbrev pub DrawsIn : (ℕ → ℕ → G → ℕ × G) → Type 0
  DrawsIn rnd = (lo hi : ℕ) (g : G) → lo < hi → (lo ≤ (rnd lo hi g).0) × ((rnd lo hi g).0 < hi)

module _ {R : Type 0} where
  -- A migration of one page from its node to another one below the bound.
  abbrev pub IsBelow : ℕ → Cell R → Type 0
  IsBelow bound c = (c.dst < bound) × (c.dst == c.src ≡ false) × (length c.addr ≡ 1)

module _ {R G : Type 0} ⦃real : Real R⦄ (machine : Machine) (s : Settings R)
    (rnd : ℕ → ℕ → G → ℕ × G) (law : DrawsIn rnd) where
  -- If the draws are in their ranges and there is a node above 0, each migration that the variant for
  -- all pages returns moves one page to another node than the one it was last accessed from, and to a
  -- node below the highest: the highest node is never a destination.
  pub rmma_all_pages-IsBelow :
      (rows : List (ℕ × Row R)) (g : G)
      → 0 < machine.max_node
      → All (IsBelow machine.max_node) (rmma_all_pages machine s rnd rows g).cells
  unfolding rmma_all_pages
  rmma_all_pages-IsBelow [] g h = tt
  rmma_all_pages-IsBelow ((page, info) ∷ rows) g h =
      let draw = rnd 0 machine.max_node g in
      let rest = rmma_all_pages-IsBelow rows draw.1 h in
      elim (Bool-cases (draw.0 == info.last_node)) [
        | inl e ↦ rw (rmma_all_pages, e) rest
        | inr e ↦ rw (rmma_all_pages, e) (((law 0 machine.max_node g h).1, e, refl), rest)
      ]

  -- What a round adds: at most one migration, below the number of nodes.
  abbrev Round : Drawn R G → Drawn R G → Type 0
  Round st st' =
      (All (IsBelow s.num_of_nodes) st.cells → All (IsBelow s.num_of_nodes) st'.cells)
      × (length st'.cells ≤ length st.cells + 1)

  add_cell :
      (same : Bool) (cells : List (Cell R)) (c : Cell R)
      → (c.dst == c.src ≡ same)
      → c.dst < s.num_of_nodes
      → length c.addr ≡ 1
      → let cells' = if same then cells else cells ++ c ∷ [] in
        (All (IsBelow s.num_of_nodes) cells → All (IsBelow s.num_of_nodes) cells')
        × (length cells' ≤ length cells + 1)
  add_cell true cells c e h one = (λ all. all, omega arith)
  add_cell false cells c e h one = (
    λ all. All-append (IsBelow s.num_of_nodes) cells (c ∷ []) all ((h, e, one), tt),
    omega (arith, length-append cells (c ∷ [])),
  )

  round_lem :
      (drawn : Option (ℕ × Row R)) (st : Drawn R G)
      → 0 < s.num_of_nodes
      → Round st (rmma_round machine s rnd [] drawn st)
  unfolding rmma_round
  round_lem none st h = (λ all. all, omega arith)
  round_lem (some (page, info)) st h =
      let draw = rnd 0 s.num_of_nodes st.generator in
      let c = random_cell machine s rnd page info (read_ratios machine info).1 draw.0 in
      add_cell (draw.0 == info.last_node) st.cells c refl (law 0 s.num_of_nodes st.generator h).1
        refl

  rounds_lem :
      (n : ℕ) (st : Drawn R G)
      → 0 < s.num_of_nodes
      → All (IsBelow s.num_of_nodes) st.cells
      → All (IsBelow s.num_of_nodes) (rmma_rounds machine s rnd n [] st).cells
        × (length (rmma_rounds machine s rnd n [] st).cells ≤ length st.cells + n)
  unfolding rmma_rounds
  rounds_lem zero st h all = (all, omega arith)
  rounds_lem (suc n) st h all =
      let draw = rnd 0 (length st.rows) st.generator in
      let st' : Drawn R G = record st { generator = draw.1 } in
      let one = round_lem (get_elem? st.rows draw.0) st' h in
      let rest =
        rounds_lem n (rmma_round machine s rnd [] (get_elem? st.rows draw.0) st') h (one.0 all) in
      (rest.0, omega (arith, rest.1, one.1))

  -- If the draws are in their ranges and there is a node, the variant for some number of pages returns
  -- at most so many migrations, each of one page to another node than the one it was last accessed
  -- from and below the number of nodes.
  pub rmma_n_pages-IsBelow :
      (n_pages : ℕ) (rows : List (ℕ × Row R)) (g : G)
      → 0 < s.num_of_nodes
      → All (IsBelow s.num_of_nodes) (rmma_n_pages machine s rnd n_pages rows g).cells
        × (length (rmma_n_pages machine s rnd n_pages rows g).cells ≤ n_pages)
  unfolding rmma_n_pages
  rmma_n_pages-IsBelow n_pages rows g h =
      let r = rounds_lem n_pages (record { cells = []; rows = rows; generator = g }) h tt in
      (r.0, omega (arith, r.1))
