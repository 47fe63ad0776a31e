-- ===== src/Tree/Adding.antt =====
-- One more process in the tree, below its parent.
use csci555_usc.Base.{
  ℕ, ◌+◌, ◌<◌, ◌≤◌, ◌≡◌, refl, sym, ap, subst, ◌∙◌, inl, inr, Bool, true, false, Bool-cases, ◌&&◌,
  ◌||◌, Option, none, some, List, [], ◌∷◌, ◌++◌, ◌==◌, ==→eq, eq→==, arith, if◌then◌else◌, insert,
  contains, contains-insert, Nodup,
}
use csci555_usc.Pages.Table.{find, modify}
use csci555_usc.Pages.Table.History.{apply, find-modify}
use csci555_usc.Schedule.Plan.Once.{snoc-Nodup}
use csci555_usc.Tree.{Node, Tree}
use csci555_usc.Tree.Links.{IsTree}

insert-Nodup : (a : ℕ) (xs : List ℕ) → Nodup xs → Nodup (insert a xs)
unfolding insert
insert-Nodup a xs d = elim (Bool-cases (contains a xs)) [
  | inl e ↦ subst Nodup (sym (kept e)) d
  | inr e ↦ subst Nodup (sym (added e)) (snoc-Nodup xs a d e)
]
  where
    kept : contains a xs ≡ true → insert a xs ≡ xs
    kept e = rw (insert, e) refl

    added : contains a xs ≡ false → insert a xs ≡ xs ++ a ∷ []
    added e = rw (insert, e) refl

abbrev pub is_parent : Option ℕ → ℕ → Bool
is_parent parent x = elim parent [ none ↦ false | some q ↦ x == q ]

-- The children are those of before, with one more if this is the parent.
abbrev pub With : ℕ → Option ℕ → ℕ → Node → Node → Type 0
With pid parent x o p =
    ((y : ℕ) → contains y p.children ≡ (contains y o.children || (is_parent parent x && y == pid)))
    × (Nodup o.children → Nodup p.children)

-- A parent has one child more.
pub record Adopts (pid : ℕ) (parent : Option ℕ) (t u : Tree) : Type 0 where
  pub back :
      (x : ℕ) (p : Node)
      → find x u ≡ some p
      → (o : Node) × (find x t ≡ some o) × (o.parent ≡ p.parent) × With pid parent x o p
  pub forth : (x : ℕ) (o : Node) → find x t ≡ some o → (p : Node) × (find x u ≡ some p)

abbrev pub adopt : ℕ → Node → Node
adopt pid p = record p { children = insert pid p.children }

pub modify-Adopts : (pid q : ℕ) (t : Tree) → Adopts pid (some q) t (modify q (adopt pid) t)
modify-Adopts pid q t = record {
  back = λ x p e. back x p (find x t) refl (sym (find-modify x q (adopt pid) t) ∙ e);
  forth = λ x o e. forth x o e;
}
  where
    back :
        (x : ℕ) (p : Node) (f : Option Node)
        → find x t ≡ f
        → (if x == q then apply (adopt pid) f else f) ≡ some p
        → (o : Node) × (find x t ≡ some o) × (o.parent ≡ p.parent) × With pid (some q) x o p
    back x p none e h = ground arith
    back x p (some o) e h = elim (Bool-cases (x == q)) [
      | inl same ↦
          let is : adopt pid o ≡ p = ground (arith, same, h) in
          (
            o,
            e,
            ap (λ i. i.parent) is,
            subst (With pid (some q) x o) is (
              λ y. ground (arith, contains-insert pid y o.children, same),
              λ d. insert-Nodup pid o.children d,
            ),
          )
      | inr apart ↦
          let is : o ≡ p = ground (arith, apart, h) in
          (
            o,
            e,
            ap (λ i. i.parent) is,
            subst (With pid (some q) x o) is (λ y. ground (arith, apart), λ d. d),
          )
    ]

    forth :
        (x : ℕ) (o : Node)
        → find x t ≡ some o
        → (p : Node) × (find x (modify q (adopt pid) t) ≡ some p)
    forth x o e =
        (if x == q then adopt pid o else o, ground (arith, find-modify x q (adopt pid) t, e))

pub Adopts_trans :
    (pid : ℕ) (parent : Option ℕ) (t u v : Tree)
    → Adopts pid parent t u
    → Adopts pid parent u v
    → Adopts pid parent t v
Adopts_trans pid parent t u v a b = record {
  back = λ x p e.
      let m = b.back x p e in
      let o = a.back x m.0 m.1 in
      (o.0, o.1, o.2 ∙ m.2, (λ y. ground (arith, o.3.0 y, m.3.0 y), λ d. m.3.1 (o.3.1 d)));
  forth = λ x o e. let m = a.forth x o e in b.forth x m.0 m.1;
}

pub none-Adopts : (pid : ℕ) (t : Tree) → Adopts pid none t t
none-Adopts pid t = record {
  back = λ x p e. (p, e, refl, (λ y. ground arith, λ d. d));
  forth = λ x o e. (o, e);
}

-- The process is in the tree, below its parent.
pub record Added (pid : ℕ) (parent : Option ℕ) (t u : Tree) : Type 0 where
  pub new : (n : Node) × (find pid u ≡ some n) × (n.parent ≡ parent) × (n.children ≡ [])
  pub back :
      (x : ℕ) (p : Node)
      → x == pid ≡ false
      → find x u ≡ some p
      → (o : Node) × (find x t ≡ some o) × (o.parent ≡ p.parent) × With pid parent x o p
  pub forth : (x : ℕ) (o : Node) → find x t ≡ some o → (p : Node) × (find x u ≡ some p)

module _ (rank : ℕ → ℕ) (bound pid : ℕ) (parent : Option ℕ) (t u : Tree)
    (tree : IsTree rank bound t) (fresh : find pid t ≡ none)
    (known : (q : ℕ) → parent ≡ some q → (n : Node) × (find q t ≡ some n))
    (add : Added pid parent t u) where
  -- The ranks with that of the new process.
  abbrev pub level : ℕ
  level = elim parent [ none ↦ 0 | some q ↦ rank q + 1 ]

  abbrev pub rank_with : ℕ → ℕ
  rank_with x = if x == pid then level else rank x

  other : (x : ℕ) (p : Node) → find x t ≡ some p → x == pid ≡ false
  other x p e = elim (Bool-cases (x == pid)) [
    | inl same ↦ cc (ap (λ i. find i t) (==→eq x pid same), fresh, e)
    | inr apart ↦ apart
  ]

  new_at :
      (x : ℕ) (p : Node)
      → x == pid ≡ true
      → find x u ≡ some p
      → (p.parent ≡ parent) × (p.children ≡ [])
  new_at x p same e =
      let is : p ≡ add.new.0 = cc (ap (λ i. find i u) (==→eq x pid same), add.new.1, e) in
      (ap (λ i. i.parent) is ∙ add.new.2, ap (λ i. i.children) is ∙ add.new.3)

  add_linked :
      (x : ℕ) (p : Node) (q : ℕ)
      → find x u ≡ some p
      → p.parent ≡ some q
      → (n : Node) × (find q u ≡ some n) × (contains x n.children ≡ true)
  add_linked x p q e h = elim (Bool-cases (x == pid)) [
    | inl same ↦
        let is = new_at x p same e in
        let k = known q (sym is.0 ∙ h) in
        let n = add.forth q k.0 k.1 in
        let b = add.back q n.0 (other q k.0 k.1) n.1 in
        let par : is_parent parent q ≡ true =
          ap (λ i. is_parent i q) (sym is.0 ∙ h) ∙ eq→== q q refl in
        (n.0, n.1, ground (arith, b.3.0 x, par, same))
    | inr apart ↦
        let b = add.back x p apart e in
        let l = tree.linked x b.0 q b.1 (b.2 ∙ h) in
        let n = add.forth q l.0 l.1 in
        let c = add.back q n.0 (other q l.0 l.1) n.1 in
        let is : c.0 ≡ l.0 = cc (c.1, l.1) in
        (n.0, n.1, ground (arith, c.3.0 x, l.2, ap (λ i. contains x i.children) is))
  ]

  add_owned :
      (q : ℕ) (n : Node) (x : ℕ)
      → find q u ≡ some n
      → contains x n.children ≡ true
      → (p : Node) × (find x u ≡ some p) × (p.parent ≡ some q)
  add_owned q n x e h = elim (Bool-cases (q == pid)) [
    | inl same ↦ cc (h, ap (contains x) (new_at q n same e).1)
    | inr apart ↦
        let b = add.back q n apart e in
        elim (Bool-cases (contains x b.0.children)) [
          | inl old ↦
              let w = tree.owned q b.0 x b.1 old in
              let p = add.forth x w.0 w.1 in
              let c = add.back x p.0 (other x w.0 w.1) p.1 in (p.0, p.1, cc (c.1, c.2, w.1, w.2))
          | inr new ↦
              let now = adopted b.0 (b.3.0 x) new in
              (
                add.new.0,
                ap (λ i. find i u) (==→eq x pid now.1) ∙ add.new.1,
                add.new.2 ∙ parent_is parent now.0,
              )
        ]
  ]
    where
      adopted :
          (o : Node)
          → contains x n.children ≡ (contains x o.children || (is_parent parent q && x == pid))
          → contains x o.children ≡ false
          → (is_parent parent q ≡ true) × (x == pid ≡ true)
      adopted o is new = ground (arith, is, new, h)

      parent_is : (m : Option ℕ) → is_parent m q ≡ true → m ≡ some q
      parent_is none e' = cc
      parent_is (some r) e' = ap some (sym (==→eq q r e'))

  add_deeper :
      (x : ℕ) (p : Node) (q : ℕ) → find x u ≡ some p → p.parent ≡ some q → rank_with q < rank_with x
  add_deeper x p q e h = elim (Bool-cases (x == pid)) [
    | inl same ↦
        let is = sym (new_at x p same e).0 ∙ h in
        let k = known q is in
        let far = other q k.0 k.1 in
        let up : level ≡ rank q + 1 =
          ap (λ (i : Option ℕ). elim i [ none ↦ 0 | some r ↦ rank r + 1 ]) is in
        ground (arith, same, far, up)
    | inr apart ↦
        let b = add.back x p apart e in
        let l = tree.linked x b.0 q b.1 (b.2 ∙ h) in
        ground (arith, apart, other q l.0 l.1, tree.deeper x b.0 q b.1 (b.2 ∙ h))
  ]

  level-le : level ≤ bound
  level-le = go parent refl
    where
      go : (m : Option ℕ) → parent ≡ m → elim m [ none ↦ 0 | some q ↦ rank q + 1 ] ≤ bound
      go none e = omega arith
      go (some q) e = let k = known q e in omega (arith, tree.bounded q k.0 k.1)

  -- A tree stays one when a process is added below a process of it, or below none.
  pub add-IsTree : IsTree rank_with (bound + 1) u
  add-IsTree = record {
    linked = add_linked;
    owned = add_owned;
    deeper = add_deeper;
    bounded = λ x p e. elim (Bool-cases (x == pid)) [
      | inl same ↦ ground (arith, same, level-le)
      | inr apart ↦ let b = add.back x p apart e in ground (arith, apart, tree.bounded x b.0 b.1)
    ];
    once = λ x p e. elim (Bool-cases (x == pid)) [
      | inl same ↦ subst Nodup (sym (new_at x p same e).1) tt
      | inr apart ↦ let b = add.back x p apart e in b.3.1 (tree.once x b.0 b.1)
    ];
  }
