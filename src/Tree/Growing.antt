-- ===== src/Tree/Growing.antt =====
-- The trees that grow from a first process.
use csci555_usc.Base.{
  ℕ, ◌+◌, ◌<◌, ◌≤◌, ◌≡◌, refl, sym, ap, subst, ◌∙◌, Bool, true, false, Option, none, some, [], ◌∷◌,
  ◌==◌, arith, contains, Nodup,
}
use csci555_usc.Pages.Table.{find}
use csci555_usc.Tree.{
  Node, Tree, Outcome, done, ◌>>=◌, construct, new_tree, insert_process, erase_process, update,
}
use csci555_usc.Tree.Links.{IsTree}
use csci555_usc.Tree.Erasing.{erase_process-IsTree}
use csci555_usc.Tree.Inserting.{insert_process-Inserted}
use csci555_usc.Tree.Updating.{update-IsTree}

-- The result for any fuel that is enough.
abbrev pub Eventually : {A : Type 0} → (ℕ → Outcome A) → A → Type 0
Eventually run a = (enough : ℕ) × ((fuel : ℕ) → enough ≤ fuel → run fuel ≡ done a)

-- A tree made by operations; what /proc says may be another each time.
pub data Grown : Tree → Type 0 where
  start : {t : Tree} (stat : ℕ → Option ℕ) (root : ℕ) → new_tree stat root ≡ done t → Grown t
  inserted :
      {t u : Tree}
      → Grown t
      → (stat : ℕ → Option ℕ) (self : ℕ) (height : ℕ → ℕ) (pid : ℕ) (parent : Option ℕ)
      → ((p ppid : ℕ) → stat p ≡ some ppid → ppid == 0 ≡ false → height ppid < height p)
      → ((q : ℕ) → parent ≡ some q → (n : Node) × (find q t ≡ some n))
      → Eventually (λ fuel. insert_process stat self fuel pid parent t) u
      → Grown u
  erased :
      {t u : Tree} → Grown t → (pid : ℕ) → Eventually (λ fuel. erase_process fuel pid t) u → Grown u
  updated :
      {t u : Tree}
      → Grown t
      → (stat : ℕ → Option ℕ) (ok : Bool) → Eventually (λ fuel. update stat fuel t) (u, ok)
      → Grown u

done_inj : {A : Type 0} {a b : A} → done a ≡ done b → a ≡ b
done_inj e = cc

-- A result that settles is the result.
same_result :
    {A : Type 0} (run : ℕ → Outcome A) (a b : A) (n m : ℕ)
    → ((fuel : ℕ) → n < fuel → run fuel ≡ done a)
    → ((fuel : ℕ) → m ≤ fuel → run fuel ≡ done b)
    → a ≡ b
same_result run a b n m f g =
    done_inj (sym (f (n + m + 1) (omega arith)) ∙ g (n + m + 1) (omega arith))

single_lem :
    (root : ℕ) (n : Node) → n.parent ≡ none → n.children ≡ [] → IsTree (λ x. 0) 1 ((root, n) ∷ [])
unfolding find
single_lem root n p c = record {
  linked = λ x m q e h. absurd (orphan q (cc (only x m e, p, h)));
  owned = λ q m x e h.
      absurd (childless (cc (h, ap (contains x) (ap (λ i. i.children) (only q m e) ∙ c))));
  deeper = λ x m q e h. absurd (orphan q (cc (only x m e, p, h)));
  bounded = λ x m e. omega arith;
  once = λ x m e. subst (λ i. Nodup i) (sym (ap (λ i. i.children) (only x m e) ∙ c)) tt;
}
  where
    only : (x : ℕ) (m : Node) → find x ((root, n) ∷ []) ≡ some m → m ≡ n
    only x m e = ground (arith, e)

    orphan : (q : ℕ) → none ≡ some q → ⊥
    orphan q e = cc

    childless : false ≡ true → ⊥
    childless e = cc

new_tree-IsTree :
    (stat : ℕ → Option ℕ) (root : ℕ) (t : Tree) → new_tree stat root ≡ done t → IsTree (λ x. 0) 1 t
unfolding new_tree construct
new_tree-IsTree stat root t h = go (stat root) h
  where
    go :
        (s : Option ℕ)
        → (elim s [
          | none ↦ done (record { ppid = 0; valid = false; parent = none; children = [] }, [])
          | some ppid ↦
              done (record { ppid = ppid; valid = true; parent = none; children = [] }, [])
        ]
            >>= λ (r : Node × Tree). done ((root, r.0) ∷ []))
          ≡ done t
        → IsTree (λ x. 0) 1 t
    go none e = subst (IsTree (λ x. 0) 1) (done_inj e) (
        single_lem root (record { ppid = 0; valid = false; parent = none; children = [] }) refl
          refl)
    go (some ppid) e = subst (IsTree (λ x. 0) 1) (done_inj e) (
        single_lem root (record { ppid = ppid; valid = true; parent = none; children = [] }) refl
          refl)

-- Whatever is inserted, erased and updated after a first process, with parents higher up than their
-- children in /proc each time, and enough fuel: what results is a tree, without dangling pointers,
-- where parents and children know one another.
pub Grown-IsTree : {t : Tree} → Grown t → (rank : ℕ → ℕ) × (bound : ℕ) × IsTree rank bound t
Grown-IsTree (start {t} stat root h) = (λ x. 0, 1, new_tree-IsTree stat root t h)
Grown-IsTree (inserted {t} {u} g stat self height pid parent grows known (enough, run)) =
    let old = Grown-IsTree g in
    let r = insert_process-Inserted stat self height grows pid parent old.0 old.1 t old.2 known in
    let is =
      same_result (λ fuel. insert_process stat self fuel pid parent t) r.0 u (height pid) enough r.1
        run in
    (r.2.is_tree.0, r.2.is_tree.1, subst (IsTree r.2.is_tree.0 r.2.is_tree.1) is r.2.is_tree.2)
Grown-IsTree (erased {t} {u} g pid (enough, run)) =
    let old = Grown-IsTree g in
    let r = erase_process-IsTree old.0 old.1 pid t old.2 in
    let is = same_result (λ fuel. erase_process fuel pid t) r.0 u old.1 enough r.1 run in
    (old.0, old.1, subst (IsTree old.0 old.1) is r.2.0)
Grown-IsTree (updated {t} {u} g stat ok (enough, run)) =
    let old = Grown-IsTree g in
    let r = update-IsTree stat old.0 old.1 t old.2 in
    let is = same_result (λ fuel. update stat fuel t) r.0 (u, ok) old.1 enough r.1 run in
    (old.0, old.1, subst (IsTree old.0 old.1) (ap (λ i. i.0) is) r.2.0)
