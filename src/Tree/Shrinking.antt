-- ===== src/Tree/Shrinking.antt =====
-- What erasing does to a process that no process has as its child.
use csci555_usc.Base.{
  ℕ, ◌≡◌, ◌≢◌, refl, sym, ap, subst, ◌∙◌, inl, inr, true, false, Bool-cases, Option-cases, Option,
  none, some, ◌==◌, arith, if◌then◌else◌, erase, contains, contains-erase,
}
use csci555_usc.Pages.Table.{find, modify}
use csci555_usc.Pages.Table.History.{apply, find-modify}
use csci555_usc.Tree.{
  Node, Tree, Outcome, done, dangling, out_of_fuel, ◌>>=◌, load, remove_children, without,
  erase_self,
}
use csci555_usc.Tree.Links.{find-without}

pub bind-done :
    {A B : Type 0} (m : Outcome A) (f : A → Outcome B) {b : B}
    → (m >>= f) ≡ done b
    → (a : A) × (m ≡ done a) × (f a ≡ done b)
bind-done (done a) f h = (a, refl, h)
bind-done dangling f h = cc
bind-done out_of_fuel f h = cc

-- Processes may go, and children may go from their lists.
abbrev pub Shrinks : Tree → Tree → Type 0
Shrinks t u =
    (q : ℕ) (n : Node)
    → find q u ≡ some n
    → (o : Node) × (find q t ≡ some o)
      × ((y : ℕ) → contains y n.children ≡ true → contains y o.children ≡ true)

pub Shrinks-trans : (t u v : Tree) → Shrinks t u → Shrinks u v → Shrinks t v
Shrinks-trans t u v a b q n e =
    let m = b q n e in let o = a q m.0 m.1 in (o.0, o.1, λ y h. o.2 y (m.2 y h))

pub without-Shrinks : (pid : ℕ) (t : Tree) → Shrinks t (without pid t)
without-Shrinks pid t q n e = (n, ground (arith, find-without q pid t, e), λ y h. h)

abbrev pub drop : ℕ → Node → Node
drop pid p = record p { children = erase pid p.children }

pub modify-Shrinks : (q pid : ℕ) (t : Tree) → Shrinks t (modify q (drop pid) t)
modify-Shrinks q pid t x n e = go (find x t) refl (sym (find-modify x q (drop pid) t) ∙ e)
  where
    go :
        (f : Option Node)
        → find x t ≡ f
        → (if x == q then apply (drop pid) f else f) ≡ some n
        → (o : Node) × (find x t ≡ some o)
          × ((y : ℕ) → contains y n.children ≡ true → contains y o.children ≡ true)
    go none h s = ground arith
    go (some o) h s = elim (Bool-cases (x == q)) [
      | inl same ↦
          let is : drop pid o ≡ n = ground (arith, same, s) in
          (
            o,
            h,
            λ y inside. ground (
              arith,
              contains-erase pid y o.children,
              ap (λ i. contains y i.children) is,
              inside,
            ),
          )
      | inr apart ↦
          let is : o ≡ n = ground (arith, apart, s) in
          (o, h, λ y inside. ap (λ i. contains y i.children) is ∙ inside)
    ]

pub dangling-done : {A : Type 0} {a : A} → dangling ≡ done a → ⊥
dangling-done e = cc

pub remove_children-done :
    (q pid : ℕ) (t u : Tree)
    → remove_children q pid t ≡ done u
    → ((m : Node) × (find q t ≡ some m)) × (u ≡ modify q (drop pid) t)
unfolding remove_children load
remove_children-done q pid t u h = go (find q t) refl h
  where
    go :
        (f : Option Node)
        → find q t ≡ f
        → (elim f [ none ↦ dangling | some n ↦ done n ] >>= λ n. done (modify q (drop pid) t))
          ≡ done u
        → ((m : Node) × (find q t ≡ some m)) × (u ≡ modify q (drop pid) t)
    go none e h' = absurd (dangling-done h')
    go (some m) e h' = ((m, e), cc)

-- A process is in the tree below a given parent.
abbrev pub Has : ℕ → ℕ → Tree → Type 0
Has x parent t = (n : Node) × (find x t ≡ some n) × (n.parent ≡ some parent)

abbrev pub IsUnlisted : ℕ → Tree → Type 0
IsUnlisted x t = (q : ℕ) (n : Node) → find q t ≡ some n → contains x n.children ≡ false

pub IsUnlisted-Shrinks : (x : ℕ) (t u : Tree) → Shrinks t u → IsUnlisted x t → IsUnlisted x u
IsUnlisted-Shrinks x t u s h q n e =
    let o = s q n e in
    elim (Bool-cases (contains x n.children)) [
      | inr out ↦ out
      | inl inside ↦ cc (o.2 x inside, h q o.0 o.1)
    ]

pub absent-Shrinks : (q : ℕ) (t u : Tree) → Shrinks t u → find q t ≡ none → find q u ≡ none
absent-Shrinks q t u s h = elim (Option-cases (find q u)) [
  | inl e ↦ e
  | inr (n, e) ↦ let o = s q n e in cc (o.1, h)
]

pub Has-modify :
    (x parent q pid : ℕ) (t : Tree) → Has x parent t → Has x parent (modify q (drop pid) t)
Has-modify x parent q pid t (n, e, h) = elim (Bool-cases (x == q)) [
  | inl same ↦ (drop pid n, ground (arith, find-modify x q (drop pid) t, e, same), h)
  | inr apart ↦ (n, ground (arith, find-modify x q (drop pid) t, e, apart), h)
]

Has-without :
    (x parent pid : ℕ) (t : Tree) → x ≢ pid → Has x parent t → Has x parent (without pid t)
Has-without x parent pid t other (n, e, h) = (n, ground (arith, find-without x pid t, e, other), h)

-- What the loops keep of a process that no process has as its child.
abbrev pub Keeps : ℕ → ℕ → Tree → Tree → Type 0
Keeps x parent t u = Shrinks t u × (Has x parent t → Has x parent u)

pub self_done :
    (x parent s : ℕ) (t u : Tree)
    → s ≢ x
    → erase_self s t ≡ done u
    → Keeps x parent t u × (find s u ≡ none)
unfolding erase_self
self_done x parent s t u other h =
    let loaded = bind-done (load s t) _ h in by_parent loaded.0.parent loaded.2
  where
    removed : (v : Tree) → without s v ≡ u → Keeps x parent v u × (find s u ≡ none)
    removed v e =
        subst (λ i. Keeps x parent v i × (find s i ≡ none)) e
          (
            (without-Shrinks s v, Has-without x parent s v (λ i. other (sym i))),
            ground (arith, find-without s s v),
          )

    by_parent :
        (p : Option ℕ)
        → elim p [
          | none ↦ done (without s t)
          | some q ↦ remove_children q s t >>= λ t'. done (without s t')
        ]
          ≡ done u
        → Keeps x parent t u × (find s u ≡ none)
    by_parent none h' = removed t (cc h')
    by_parent (some q) h' =
        let unlinked = bind-done (remove_children q s t) _ h' in
        let is = (remove_children-done q s t unlinked.0 unlinked.1).1 in
        let last = removed unlinked.0 (cc unlinked.2) in
        let first : Keeps x parent t unlinked.0 =
          subst (λ i. Keeps x parent t i) (sym is)
            (modify-Shrinks q s t, Has-modify x parent q s t) in
        ((Shrinks-trans t unlinked.0 u first.0 last.0.0, λ has. last.0.1 (first.1 has)), last.1)
