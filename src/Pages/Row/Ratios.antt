-- ===== src/Pages/Row/Ratios.antt =====
-- The ratios of a row are computed when they are read, and kept until the next sample.
use csci555_usc.Base.{
  ℕ, zero, suc, ◌+◌, ◌≤◌, ◌≡◌, refl, sym, ap, ◌∙◌, true, Option, none, some, List, [], ◌∷◌, arith,
  length, length-set, get_elem?, get_or, set, replicate, sum, contains, ◌==◌, if◌then◌else◌, ==→eq,
  eq→==, Bool-cases, inl, inr,
}
use csci555_usc.Real.{Real}
use csci555_usc.Machine.{Machine}
use csci555_usc.Pages.Row.{
  Row, Sample, new_row, clear, add_data, fill, fill_ratios, compute_ratios, read_ratios,
  increase_age,
}
use csci555_usc.Pages.Row.Laws.{IsValid, add_data-IsValid}

module _ {A : Type 0} where
  list_ext : (xs ys : List A) → ((i : ℕ) → get_elem? xs i ≡ get_elem? ys i) → xs ≡ ys
  list_ext [] [] h = refl
  list_ext [] (y ∷ ys) h = cc (h 0)
  list_ext (x ∷ xs) [] h = cc (h 0)
  list_ext (x ∷ xs) (y ∷ ys) h = cc (h 0, list_ext xs ys (λ i. h (suc i)))

  put : A → Option A → Option A
  put v none = none
  put v (some x) = some v

  get_elem?-set :
      (xs : List A) (i j : ℕ) (v : A)
      → get_elem? (set xs i v) j ≡ (if j == i then put v (get_elem? xs j) else get_elem? xs j)
  unfolding put
  get_elem?-set [] i j v = ground arith
  get_elem?-set (x ∷ xs) zero zero v = refl
  get_elem?-set (x ∷ xs) zero (suc j) v = ground arith
  get_elem?-set (x ∷ xs) (suc i) zero v = ground arith
  get_elem?-set (x ∷ xs) (suc i) (suc j) v = ground (arith, get_elem?-set xs i j v)

module _ {R : Type 0} ⦃real : Real R⦄ where
  open real use {of_nat, over}

  -- Each node's place holds its ratio, the others what they held.
  fill_ratios-get_elem? :
      (nodes raw : List ℕ) (total : ℕ) (ratios : List R) (j : ℕ)
      → get_elem? (fill_ratios nodes raw total ratios) j ≡ (
          if contains j nodes
          then put (over (of_nat (get_or raw j 0)) (of_nat total)) (get_elem? ratios j)
          else get_elem? ratios j)
  unfolding fill_ratios put
  fill_ratios-get_elem? [] raw total ratios j = refl
  fill_ratios-get_elem? (n ∷ nodes) raw total ratios j =
      let v = over (of_nat (get_or raw n 0)) (of_nat total) in
      ground (
        arith,
        fill_ratios-get_elem? nodes raw total (set ratios n v) j,
        get_elem?-set ratios n j v,
      )

  pub length-fill_ratios :
      (nodes raw : List ℕ) (total : ℕ) (ratios : List R)
      → length (fill_ratios nodes raw total ratios) ≡ length ratios
  unfolding fill_ratios
  length-fill_ratios [] raw total ratios = refl
  length-fill_ratios (n ∷ nodes) raw total ratios =
      length-fill_ratios nodes raw total _ ∙ length-set ratios n _

  -- What was in the nodes' places does not matter.
  fill_ratios_again :
      (nodes raw raw' : List ℕ) (total total' : ℕ) (ratios : List R)
      → fill_ratios nodes raw' total' (fill_ratios nodes raw total ratios)
        ≡ fill_ratios nodes raw' total' ratios
  unfolding put
  fill_ratios_again nodes raw raw' total total' ratios = list_ext _ _ λ j. ground (
    arith,
    fill_ratios-get_elem? nodes raw' total' (fill_ratios nodes raw total ratios) j,
    fill_ratios-get_elem? nodes raw' total' ratios j,
    fill_ratios-get_elem? nodes raw total ratios j,
  )

module _ {R : Type 0} ⦃real : Real R⦄ (machine : Machine) where
  open real use {of_nat}

  abbrev zeros : List R
  zeros = replicate (machine.max_node + 1) (of_nat 0)

  -- The specification: of no accesses all ratios are 0, and else each node has its part of them.
  unfoldable pub ratios_of : List ℕ → List R
  unfolding fill_ratios
  ratios_of raw = if sum raw == 0 then zeros else fill_ratios machine.nodes raw (sum raw) zeros

  pub record IsCached (r : Row R) : Type 0 where
    pub computed : r.ratios_computed ≡ true → r.ratios ≡ ratios_of r.raw_accesses
    pub empty : sum r.raw_accesses ≡ 0 → r.ratios ≡ zeros
    pub refill :
        (raw : List ℕ) (total : ℕ)
        → fill_ratios machine.nodes raw total r.ratios ≡ fill_ratios machine.nodes raw total zeros

  pub new_row-IsCached : (pid node : ℕ) → IsCached (new_row machine pid node)
  unfolding new_row
  new_row-IsCached pid node = record {
    computed = λ e. cc;
    empty = λ e. refl;
    refill = λ raw total. refl;
  }

  pub clear-IsCached : (r : Row R) → IsValid machine r → IsCached (clear machine r)
  unfolding clear
  clear-IsCached r v =
      let e : fill r.ratios (of_nat 0) ≡ zeros = ap (λ n. replicate n (of_nat 0)) v.ratios_length in
      record {
        computed = λ e. cc;
        empty = λ _. e;
        refill = λ raw total. ap (fill_ratios machine.nodes raw total) e;
      }

  pub add_data-IsCached :
      (s : Sample) (aging : R) (r : Row R)
      → s.page_node ≤ machine.max_node
      → IsValid machine r
      → IsCached r
      → IsCached (add_data machine s aging r)
  unfolding add_data
  add_data-IsCached s aging r h v c =
      let v' = add_data-IsValid machine s aging r h v in
      record {
        computed = λ e. cc;
        empty = λ e. absurd (omega (arith, v'.counted, v.counted));
        refill = c.refill;
      }

  pub increase_age-IsCached : (r : Row R) → IsCached r → IsCached (increase_age r)
  unfolding increase_age
  increase_age-IsCached r c = record { computed = λ e. cc; empty = c.empty; refill = c.refill }

  compute_ratios-IsCached :
      (r : Row R)
      → IsCached r
      → IsCached (compute_ratios machine r)
        × ((compute_ratios machine r).ratios ≡ ratios_of r.raw_accesses)
  unfolding compute_ratios ratios_of
  compute_ratios-IsCached r c = elim (Bool-cases (sum r.raw_accesses == 0)) [
    | inl e ↦ rw (e, compute_ratios) (c, c.empty (==→eq _ _ e))
    | inr e ↦
        let total = sum r.raw_accesses in
        let fresh : ratios_of r.raw_accesses
            ≡ fill_ratios machine.nodes r.raw_accesses total zeros =
          rw e refl in
        let new = c.refill r.raw_accesses total in
        rw (e, compute_ratios)
          (
            record {
              computed = λ _. new ∙ sym fresh;
              empty = λ e'. cc (eq→== _ _ e');
              refill = λ raw total'.
                  ap (fill_ratios machine.nodes raw total') new
                  ∙ fill_ratios_again machine.nodes r.raw_accesses raw total total' zeros;
            },
            new,
          )
  ]

  pub read-IsCached :
      (r : Row R)
      → IsCached r
      → IsCached (read_ratios machine r).1 × ((read_ratios machine r).0 ≡ ratios_of r.raw_accesses)
  unfolding read_ratios
  read-IsCached r c = elim (Bool-cases r.ratios_computed) [
    | inl e ↦ simp e (c, c.computed e)
    | inr e ↦ simp e (compute_ratios-IsCached r c)
  ]
