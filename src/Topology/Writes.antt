-- ===== src/Topology/Writes.antt =====
-- The loops that write at the indices of a list.
use csci555_usc.Base.{
  ℕ, zero, suc, ◌<◌, ◌≤◌, ◌≡◌, refl, sym, ap, subst, ◌∙◌, true, false, Bool-cases, inl, inr, none,
  some, List, [], ◌∷◌, ◌==◌, ==→eq, arith, ltb, lt→ltb, contains, length, get_or, set, All,
  length-set, get_or-set_self, get_or-set_ne, length-replicate,
}
use csci555_usc.Topology.{resize, write_all, write_cpus}

pub length-resize : {A : Type 0} (n : ℕ) (a : A) (xs : List A) → length (resize n a xs) ≡ n
unfolding resize
length-resize zero a xs = refl
length-resize (suc n) a [] = length-replicate (suc n) a
length-resize (suc n) a (x ∷ xs) = omega (arith, length-resize n a xs)

-- What a loop over indices within the bounds leaves: `f` at those indices.
abbrev pub Written : {A : Type 0} → (ℕ → A) → A → List ℕ → List A → List A → Type 0
Written f d is v w =
    (length w ≡ length v)
    × ((i : ℕ) → contains i is ≡ true → get_or w i d ≡ f i)
    × ((i : ℕ) → contains i is ≡ false → get_or w i d ≡ get_or v i d)

module _ {A : Type 0} (f : ℕ → A) (d : A) where
  step-Written :
      (i : ℕ) (is : List ℕ) (v w : List A)
      → i < length v
      → Written f d is (set v i (f i)) w
      → Written f d (i ∷ is) v w
  step-Written i is v w inside (l, at, other) = (
    l ∙ length-set v i (f i),
    λ j h. elim (Bool-cases (contains j is)) [
      | inl among ↦ at j among
      | inr out ↦
          let same : j ≡ i = ==→eq j i (ground (arith, h, out)) in
          other j out
          ∙ ap (λ k. get_or (set v i (f i)) k d) same
          ∙ get_or-set_self v i (f i) d inside
          ∙ ap f (sym same)
    ],
    λ j h. other j (ground (arith, h)) ∙ get_or-set_ne v i j (f i) d (λ e. ground (arith, h)),
  )

  pub write_all-Written :
      (is : List ℕ) (v : List A)
      → All (λ i. i < length v) is
      → (w : List A) × (write_all f is v ≡ some w) × Written f d is v w
  unfolding write_all
  write_all-Written [] v h = (v, refl, (refl, λ i e. cc, λ i e. refl))
  write_all-Written (i ∷ is) v h =
      let v' = set v i (f i) in
      let rest =
        write_all-Written is v'
          (subst (λ n. All (λ j. j < n) is) (sym (length-set v i (f i))) h.1) in
      (rest.0, rw (lt→ltb i (length v) h.0) rest.1, step-Written i is v rest.0 h.0 rest.2)

  pub write_all-none :
      (is : List ℕ) (v : List A) (i : ℕ)
      → contains i is ≡ true
      → length v ≤ i
      → write_all f is v ≡ none
  unfolding write_all
  write_all-none [] v i h out = cc
  write_all-none (j ∷ is) v i h out = elim (Bool-cases (ltb j (length v))) [
    | inr e ↦ rw e refl
    | inl e ↦ rw e (
        write_all-none is (set v j (f j)) i (ground (arith, h, e, out))
          (subst (λ n. n ≤ i) (sym (length-set v j (f j))) out))
  ]

-- The loop over the nodes, where each has processors.
pub write_cpus-Written :
    (f : ℕ → List ℕ) (is : List ℕ) (v : List (List ℕ))
    → All (λ i. i < length v) is
    → All (λ i. length (f i) == 0 ≡ false) is
    → (w : List (List ℕ)) × (write_cpus f is v ≡ some (true, w)) × Written f [] is v w
unfolding write_cpus
write_cpus-Written f [] v h full = (v, refl, (refl, λ i e. cc, λ i e. refl))
write_cpus-Written f (i ∷ is) v h full =
    let v' = set v i (f i) in
    let rest =
      write_cpus-Written f is v' (subst (λ n. All (λ j. j < n) is) (sym (length-set v i (f i))) h.1)
        full.1 in
    (
      rest.0,
      rw (lt→ltb i (length v) h.0, full.0) rest.1,
      step-Written f [] i is v rest.0 h.0 rest.2,
    )
