-- ===== src/Tree/Cut.antt =====
-- Taking one process without children out of the tree.
use csci555_usc.Base.{
  ℕ, ◌≡◌, ◌≢◌, refl, sym, ap, subst, ◌∙◌, ◌⊎◌, inl, inr, true, false, Bool-cases, not, ◌&&◌, Option,
  none, some, ◌==◌, ==→eq, eq→==, arith, if◌then◌else◌, erase, contains, contains-erase, Nodup,
}
use csci555_usc.Pages.Table.{find, modify}
use csci555_usc.Pages.Table.History.{apply, find-modify}
use csci555_usc.Balance.Shrinking.{erase-Nodup}
use csci555_usc.Tree.{Node, Tree, done, load, remove_children, without, erase_self}
use csci555_usc.Tree.Links.{find-without, IsTree}

-- The children are those of before, less one pid.
abbrev pub SameBut : ℕ → Node → Node → Type 0
SameBut pid o p =
    ((y : ℕ) → contains y p.children ≡ (contains y o.children && not (y == pid)))
    × (Nodup o.children → Nodup p.children)

-- One process is taken out.
pub record Cut (pid : ℕ) (t u : Tree) : Type 0 where
  pub gone : find pid u ≡ none
  pub back :
      (x : ℕ) (p : Node)
      → find x u ≡ some p
      → (o : Node) × (find x t ≡ some o) × (o.parent ≡ p.parent) × SameBut pid o p
  pub forth :
      (x : ℕ) (o : Node) → find x t ≡ some o → (x ≡ pid) ⊎ ((p : Node) × (find x u ≡ some p))

abbrev pub IsLeaf : ℕ → Tree → Type 0
IsLeaf pid t = (x : ℕ) (p : Node) → find x t ≡ some p → p.parent ≢ some pid

module _ (rank : ℕ → ℕ) (bound : ℕ) (pid : ℕ) (t u : Tree) (cut : Cut pid t u) where
  not_pid : (x : ℕ) (p : Node) → find x u ≡ some p → x == pid ≡ false
  not_pid x p e = elim (Bool-cases (x == pid)) [
    | inl same ↦ cc (ap (λ i. find i u) (==→eq x pid same), cut.gone, e)
    | inr apart ↦ apart
  ]

  cut_linked :
      IsTree rank bound t
      → IsLeaf pid t
      → (x : ℕ) (p : Node) (q : ℕ) → find x u ≡ some p
      → p.parent ≡ some q
      → (n : Node) × (find q u ≡ some n) × (contains x n.children ≡ true)
  cut_linked tree leaf x p q e h =
      let b = cut.back x p e in
      let l = tree.linked x b.0 q b.1 (b.2 ∙ h) in
      elim (cut.forth q l.0 l.1) [
        | inl same ↦ absurd (leaf x b.0 b.1 (b.2 ∙ h ∙ ap some same))
        | inr (n, found) ↦
            let bq = cut.back q n found in
            let same : bq.0 ≡ l.0 = cc (bq.1, l.1) in
            (
              n,
              found,
              ground (arith, bq.3.0 x, not_pid x p e, l.2, ap (λ i. contains x i.children) same),
            )
      ]

  cut_owned :
      IsTree rank bound t
      → (q : ℕ) (n : Node) (x : ℕ) → find q u ≡ some n
      → contains x n.children ≡ true
      → (p : Node) × (find x u ≡ some p) × (p.parent ≡ some q)
  cut_owned tree q n x e h =
      let b = cut.back q n e in
      let split = cut_child b.0 n x b.3 h in
      let o = tree.owned q b.0 x b.1 split.0 in
      elim (cut.forth x o.0 o.1) [
        | inl same ↦ cc (split.1, eq→== x pid same)
        | inr (p, found) ↦
            let bx = cut.back x p found in
            (p, found, sym bx.2 ∙ ap (λ i. i.parent) (some_inj (sym bx.1 ∙ o.1)) ∙ o.2)
      ]
    where
      cut_child :
          (o n : Node) (x : ℕ)
          → SameBut pid o n
          → contains x n.children ≡ true
          → (contains x o.children ≡ true) × (x == pid ≡ false)
      cut_child o n x same h = ground (arith, same.0 x)

      some_inj : {a b : Node} → some a ≡ some b → a ≡ b
      some_inj e = cc

  -- A tree stays one when a process without children is taken out.
  pub cut-IsTree : IsTree rank bound t → IsLeaf pid t → IsTree rank bound u
  cut-IsTree tree leaf = record {
    linked = cut_linked tree leaf;
    owned = cut_owned tree;
    deeper = λ x p q e h. let b = cut.back x p e in tree.deeper x b.0 q b.1 (b.2 ∙ h);
    bounded = λ x p e. let b = cut.back x p e in tree.bounded x b.0 b.1;
    once = λ x p e. let b = cut.back x p e in b.3.1 (tree.once x b.0 b.1);
  }

-- What is left of a process when `pid` is taken out and from the children of `q`.
abbrev left : (pid q x : ℕ) → (Node → Node) → Option Node → Option Node
left pid q x f o = if x == pid then none else if x == q then apply f o else o

left_back :
    (pid q x : ℕ) (f : Node → Node) (o : Option Node) (p : Node)
    → left pid q x f o ≡ some p
    → (r : Node) × (o ≡ some r) × ((p ≡ f r) ⊎ ((x == q ≡ false) × (p ≡ r)))
left_back pid q x f none p h = ground arith
left_back pid q x f (some r) p h = elim (Bool-cases (x == q)) [
  | inl e ↦ (r, refl, inl (ground (arith, e, h)))
  | inr e ↦ (r, refl, inr (e, ground (arith, e, h)))
]

left_forth :
    (pid q x : ℕ) (f : Node → Node) (r : Node)
    → (x ≡ pid) ⊎ ((p : Node) × (left pid q x f (some r) ≡ some p))
left_forth pid q x f r = elim (Bool-cases (x == pid)) [
  | inl e ↦ inl (==→eq x pid e)
  | inr e ↦ inr (if x == q then f r else r, ground (arith, e))
]

-- Where no child of a process is in the tree, the rest of `erase` takes out just the process.
pub self-Cut :
    (rank : ℕ → ℕ) (bound pid : ℕ) (t : Tree) (n : Node)
    → IsTree rank bound t
    → find pid t ≡ some n
    → (u : Tree) × (erase_self pid t ≡ done u) × Cut pid t u
unfolding erase_self remove_children load
self-Cut rank bound pid t n tree found = go n.parent refl
  where
    drop : Node → Node
    drop p = record p { children = erase pid p.children }

    stays : (o : Node) → SameBut pid o (drop o)
    stays o = (λ y. contains-erase pid y o.children, λ d. erase-Nodup pid o.children d)

    absent :
        (x : ℕ) (o : Node)
        → find x t ≡ some o
        → n.parent ≢ some x
        → (y : ℕ) → contains y o.children ≡ (contains y o.children && not (y == pid))
    absent x o e other y = elim (Bool-cases (y == pid)) [
      | inr apart ↦ ground (arith, apart)
      | inl same ↦ elim (Bool-cases (contains y o.children)) [
        | inr out ↦ ground (arith, out)
        | inl inside ↦
            let w = tree.owned x o y e inside in
            absurd (other (cc (w.1, w.2, found, ap (λ i. find i t) (==→eq y pid same))))
      ]
    ]

    go :
        (parent : Option ℕ)
        → n.parent ≡ parent
        → (u : Tree) × (erase_self pid t ≡ done u) × Cut pid t u
    go none e = (
      without pid t,
      rw (erase_self, load, found, e) refl,
      record {
        gone = ground (arith, find-without pid pid t);
        back = λ x p h.
            let was : find x t ≡ some p = ground (arith, find-without x pid t) in
            (p, was, refl, (absent x p was (cc e), λ d. d));
        forth = λ x o h. ground (arith, find-without x pid t);
      },
    )
    go (some q) e =
        let l = tree.linked pid n q found e in
        let f : Node → Node = λ p. record p { children = erase pid p.children } in
        let t' = modify q f t in
        let kids : (x : ℕ)
            → find x (without pid t')
              ≡ (if x == pid then none else if x == q then apply f (find x t) else find x t) =
          λ x. ground (arith, find-without x pid t', find-modify x q f t) in
        (
          without pid t',
          rw (erase_self, load, found, e, remove_children, load, l.1) refl,
          record {
            gone = ground (arith, kids pid);
            back = λ x p h.
                let b = left_back pid q x f (find x t) p (sym (kids x) ∙ h) in
                elim b.2 [
                  | inl same ↦ (
                    b.0,
                    b.1,
                    ap (λ i. i.parent) (sym same),
                    subst (SameBut pid b.0) (sym same) (stays b.0),
                  )
                  | inr (apart, same) ↦ (
                    b.0,
                    b.1,
                    ap (λ i. i.parent) (sym same),
                    subst (SameBut pid b.0) (sym same)
                        (absent x b.0 b.1 (λ i. cc (apart, eq→== x q (cc (e, i)))), λ d. d),
                  )
                ];
            forth = λ x o h. elim (left_forth pid q x f o) [
              | inl same ↦ inl same
              | inr (p, same) ↦ inr (p, kids x ∙ ap (left pid q x f) h ∙ same)
            ];
          },
        )
