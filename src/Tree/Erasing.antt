-- ===== src/Tree/Erasing.antt =====
-- Erasing a process with its descendants.
use csci555_usc.Base.{
  ℕ, zero, suc, ◌+◌, ◌<◌, ◌≤◌, ◌≡◌, refl, sym, subst, ◌∙◌, ◌⊎◌, inl, inr, true, Option-cases, none,
  some, arith, contains,
}
use csci555_usc.Pages.Table.{find}
use csci555_usc.Tree.{Node, Tree, done, erase_children, erase_self, erase_process}
use csci555_usc.Tree.Links.{
  IsTree, Descends, here, below, Within, Within_refl, Within_trans, Descends_trans, parent-above,
}
use csci555_usc.Tree.Cut.{IsLeaf, cut-IsTree, self-Cut}
use csci555_usc.Tree.Children.{
  Found, Erased, Settles, AllErased, children_AllErased, children_lem, All-contains,
}

module _ (rank : ℕ → ℕ) (bound : ℕ) where
  -- The children gone, the process itself is taken out.
  self_Erased :
      (pid : ℕ) (t u : Tree) (n : Node)
      → IsTree rank bound t
      → find pid t ≡ some n
      → AllErased rank bound pid n.children t u
      → (v : Tree) × (erase_self pid u ≡ done v) × Erased rank bound pid t v
  self_Erased pid t u n tree e all =
      let cut = self-Cut rank bound pid u (here_still.0) all.tree here_still.1 in
      (
        cut.0,
        cut.1,
        record {
          tree = cut-IsTree rank bound pid u cut.0 cut.2 all.tree leaf;
          within =
              Within_trans t u cut.0 all.within
                (λ x p h. let b = cut.2.back x p h in (b.0, b.1, b.2));
          gone = cut.2.gone;
          kept = λ x p h. elim (all.kept x p h) [
            | inl (c, m, f, g, d) ↦ inl (Descends_trans t pid c (below m pid f g here) d)
            | inr (o, f) ↦ elim (cut.2.forth x o f) [
              | inl same ↦ inl (subst (Descends t pid) (sym same) here)
              | inr still ↦ inr still
            ]
          ];
        },
      )
    where
      here_still : Found u pid
      here_still = elim (all.kept pid n e) [
        | inr found ↦ found
        | inl (c, m, f, g, d) ↦ absurd (parent-above rank bound t tree c pid m f g d)
      ]

      leaf : IsLeaf pid u
      leaf x p f g =
          let o = all.within x p f in
          let l = tree.linked x o.0 pid o.1 (o.2 ∙ g) in
          let same : l.0 ≡ n = cc (l.1, e) in
          cc (
            All-contains u n.children x all.gone
                (subst (λ i. contains x i.children ≡ true) same l.2),
            f,
          )

  erase_by_depth :
      (k pid : ℕ) (t : Tree) (n : Node)
      → IsTree rank bound t
      → find pid t ≡ some n
      → bound ≤ rank pid + k
      → Settles
          (λ fuel. erase_process fuel pid t)
          (λ fuel. bound ≤ rank pid + fuel)
          (Erased rank bound pid t)
  unfolding erase_process
  erase_by_depth zero pid t n tree e enough = absurd (omega (arith, tree.bounded pid n e))
  erase_by_depth (suc k) pid t n tree e enough =
      let loop =
        children_AllErased rank bound pid erase_process (λ fuel. bound ≤ rank pid + 1 + fuel)
          (λ c u tree' kid.
            let one =
              erase_by_depth k c u kid.0 tree' kid.1
                (omega (arith, tree'.deeper c kid.0 pid kid.1 kid.2)) in
            (
              one.0,
              λ fuel h. one.1 fuel (omega (arith, tree'.deeper c kid.0 pid kid.1 kid.2)),
              one.2,
            ))
          n.children t tree (tree.once pid n e)
          (children_lem rank bound pid t n n.children tree e (λ c h. h)) in
      let own = self_Erased pid t loop.0 n tree e loop.2 in
      (own.0, λ fuel h. run loop.0 own.0 fuel h loop.1 own.1, own.2)
    where
      run :
          (u v : Tree) (fuel : ℕ)
          → bound ≤ rank pid + fuel
          → ((f : ℕ)
              → bound ≤ rank pid + 1 + f
              → erase_children (erase_process f) n.children t ≡ done u)
          → erase_self pid u ≡ done v
          → erase_process fuel pid t ≡ done v
      run u v zero h loop own = absurd (omega (arith, tree.bounded pid n e))
      run u v (suc f) h loop own = rw (erase_process, e, loop f (omega arith)) own

  gone-Descends :
      (pid : ℕ) (t u : Tree) {x : ℕ}
      → Erased rank bound pid t u
      → Descends t pid x
      → find x u ≡ none
  gone-Descends pid t u out here = out.gone
  gone-Descends pid t u {x} out (below p q e h d) = elim (Option-cases (find x u)) [
    | inl absent ↦ absent
    | inr (m, f) ↦
        let o = out.within x m f in
        let l = out.tree.linked x m q f (cc (o.1, o.2, e, h)) in
        cc (l.1, gone-Descends pid t u out d)
  ]

  -- What is left when a process is erased: exactly those that do not descend from it, with the parents
  -- that they had.
  abbrev pub LessDescendants : ℕ → Tree → Tree → Type 0
  LessDescendants pid t u =
      Within t u
      × ((x : ℕ) → Descends t pid x → find x u ≡ none)
      × ((x : ℕ) (p : Node)
          → find x t ≡ some p
          → Descends t pid x ⊎ ((o : Node) × (find x u ≡ some o) × (o.parent ≡ p.parent)))

  -- In a tree, with more fuel than its depth, erasing a pid follows no dangling pointer and ends; what
  -- is left is a tree, with exactly the processes that are not the erased one and do not descend from
  -- it, and these have the parents that they had.
  pub erase_process-IsTree :
      (pid : ℕ) (t : Tree)
      → IsTree rank bound t
      → Settles
          (λ fuel. erase_process fuel pid t)
          (λ fuel. bound < fuel)
          (λ u. IsTree rank bound u × LessDescendants pid t u)
  unfolding erase_process
  erase_process-IsTree pid t tree = elim (Option-cases (find pid t)) [
    | inl e ↦ (
      t,
      λ fuel h. absent fuel h e,
      (tree, (Within_refl t, λ x d. none_below e d, λ x p f. inr (p, f, refl))),
    )
    | inr (n, e) ↦
        let r = erase_by_depth bound pid t n tree e (omega arith) in
        (
          r.0,
          λ fuel h. r.1 fuel (omega (arith, h)),
          (
            r.2.tree,
            (
              r.2.within,
              λ x d. gone-Descends pid t r.0 r.2 d,
              λ x p f. elim (r.2.kept x p f) [
                | inl d ↦ inl d
                | inr (o, g) ↦ let w = r.2.within x o g in inr (o, g, cc (w.1, w.2, f))
              ],
            ),
          ),
        )
  ]
    where
      none_below : find pid t ≡ none → {x : ℕ} → Descends t pid x → find x t ≡ none
      none_below e here = e
      none_below e (below p q f h d) = let l = tree.linked _ p q f h in cc (l.1, none_below e d)

      absent : (fuel : ℕ) → bound < fuel → find pid t ≡ none → erase_process fuel pid t ≡ done t
      absent zero h e = absurd (omega arith)
      absent (suc f) h e = rw (erase_process, e) refl
