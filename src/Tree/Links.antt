-- ===== src/Tree/Links.antt =====
-- The links between the processes of the tree: what makes it a tree without dangling pointers.
use csci555_usc.Base.{
  ℕ, ◌<◌, ◌≤◌, ◌≡◌, refl, ◌∙◌, true, none, some, [], ◌∷◌, ◌==◌, arith, if◌then◌else◌, contains,
  Nodup,
}
use csci555_usc.Pages.Table.{find}
use csci555_usc.Tree.{Node, Tree, without, emplace}

pub find-without :
    (x pid : ℕ) (t : Tree) → find x (without pid t) ≡ (if x == pid then none else find x t)
unfolding find without
find-without x pid [] = ground arith
find-without x pid ((k, n) ∷ t) = ground (arith, find-without x pid t)

pub find-emplace :
    (x pid : ℕ) (n : Node) (t : Tree)
    → find pid t ≡ none
    → find x (emplace pid n t) ≡ (if x == pid then some n else find x t)
unfolding emplace find
find-emplace x pid n t absent = rw (emplace, find, absent) refl

-- Where every process has its parent and its children in the tree, and `rank` grows from a process to
-- its children and stays below a bound.
pub record IsTree (rank : ℕ → ℕ) (bound : ℕ) (t : Tree) : Type 0 where
  pub linked :
      (x : ℕ) (p : Node) (q : ℕ)
      → find x t ≡ some p
      → p.parent ≡ some q
      → (n : Node) × (find q t ≡ some n) × (contains x n.children ≡ true)
  pub owned :
      (q : ℕ) (n : Node) (x : ℕ)
      → find q t ≡ some n
      → contains x n.children ≡ true
      → (p : Node) × (find x t ≡ some p) × (p.parent ≡ some q)
  pub deeper : (x : ℕ) (p : Node) (q : ℕ) → find x t ≡ some p → p.parent ≡ some q → rank q < rank x
  pub bounded : (x : ℕ) (p : Node) → find x t ≡ some p → rank x < bound
  pub once : (x : ℕ) (p : Node) → find x t ≡ some p → Nodup p.children

-- A process and those that descend from it.
pub data Descends (t : Tree) (s : ℕ) : ℕ → Type 0 where
  here : Descends t s s
  below :
      {x : ℕ} (p : Node) (q : ℕ)
      → find x t ≡ some p
      → p.parent ≡ some q
      → Descends t s q
      → Descends t s x

-- Every process of the second tree is one of the first, with the same parent.
abbrev pub Within : Tree → Tree → Type 0
Within t u =
    (x : ℕ) (p : Node)
    → find x u ≡ some p
    → (o : Node) × (find x t ≡ some o) × (o.parent ≡ p.parent)

pub Within_refl : (t : Tree) → Within t t
Within_refl t x p e = (p, e, refl)

pub Within_trans : (t u v : Tree) → Within t u → Within u v → Within t v
Within_trans t u v a b x p e =
    let one = b x p e in let two = a x one.0 one.1 in (two.0, two.1, cc (two.2, one.2))

pub Descends-Within : (t u : Tree) (s : ℕ) {x : ℕ} → Within t u → Descends u s x → Descends t s x
Descends-Within t u s w here = here
Descends-Within t u s w (below p q e h d) =
    let o = w _ p e in below o.0 q o.1 (o.2 ∙ h) (Descends-Within t u s w d)

pub Descends_trans : (t : Tree) (a b : ℕ) {x : ℕ} → Descends t a b → Descends t b x → Descends t a x
Descends_trans t a b h here = h
Descends_trans t a b h (below p q e f d) = below p q e f (Descends_trans t a b h d)

module _ (rank : ℕ → ℕ) (bound : ℕ) (t : Tree) (tree : IsTree rank bound t) where
  pub rank-Descends : (s : ℕ) {x : ℕ} → Descends t s x → rank s ≤ rank x
  rank-Descends s here = omega arith
  rank-Descends s (below p q e h d) = omega (arith, rank-Descends s d, tree.deeper _ p q e h)

  -- A process does not descend from its child.
  pub parent-above :
      (x q : ℕ) (p : Node) → find x t ≡ some p → p.parent ≡ some q → Descends t x q → ⊥
  parent-above x q p e h d = absurd (omega (arith, rank-Descends x d, tree.deeper x p q e h))
