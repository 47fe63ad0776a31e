-- ===== src/Tree/Children.antt =====
-- Erasing the children of a process, if erasing each of them ends.
use csci555_usc.Base.{
  ℕ, ◌≡◌, ◌≢◌, refl, ap, subst, ◌∙◌, ◌⊎◌, inl, inr, true, false, Bool-cases, Option-cases, none,
  some, List, [], ◌∷◌, ◌==◌, ==→eq, arith, contains, Nodup, All,
}
use csci555_usc.Pages.Table.{find}
use csci555_usc.Tree.{Node, Tree, Outcome, done, load, erase_children}
use csci555_usc.Tree.Links.{
  IsTree, Descends, here, below, Within, Within_refl, Within_trans, Descends-Within, parent-above,
}

-- A child of a process, or one that descends from such a child.
abbrev Under : Tree → ℕ → ℕ → Type 0
Under t pid x = (c : ℕ) × (n : Node) × (find c t ≡ some n) × (n.parent ≡ some pid) × Descends t c x

abbrev pub Found : Tree → ℕ → Type 0
Found t x = (n : Node) × (find x t ≡ some n)

-- What erasing a process leaves: a tree, whose processes have the parents they had, without the
-- process, and with all but those that descend from it.
pub record Erased (rank : ℕ → ℕ) (bound : ℕ) (pid : ℕ) (t u : Tree) : Type 0 where
  pub tree : IsTree rank bound u
  pub within : Within t u
  pub gone : find pid u ≡ none
  pub kept : (x : ℕ) (p : Node) → find x t ≡ some p → Descends t pid x ⊎ Found u x

-- A result that does not depend on the fuel, from some fuel on.
abbrev pub Settles : {A : Type 0} → (ℕ → Outcome A) → (ℕ → Type 0) → (A → Type 0) → Type 0
Settles {A} run Enough P = (u : A) × ((fuel : ℕ) → Enough fuel → run fuel ≡ done u) × P u

abbrev IsChild : ℕ → Tree → ℕ → Type 0
IsChild pid t c = (n : Node) × (find c t ≡ some n) × (n.parent ≡ some pid)

pub record AllErased (rank : ℕ → ℕ) (bound : ℕ) (pid : ℕ) (cs : List ℕ) (t u : Tree) : Type 0 where
  pub tree : IsTree rank bound u
  pub within : Within t u
  pub gone : All (λ c. find c u ≡ none) cs
  pub kept : (x : ℕ) (p : Node) → find x t ≡ some p → Under t pid x ⊎ Found u x

absent-Within : (t u : Tree) (x : ℕ) → Within t u → find x t ≡ none → find x u ≡ none
absent-Within t u x w h = elim (Option-cases (find x u)) [
  | inl e ↦ e
  | inr (p, e) ↦ let o = w x p e in cc (o.1, h)
]

Under-Within : (t u : Tree) (pid x : ℕ) → Within t u → Under u pid x → Under t pid x
Under-Within t u pid x w (c, n, e, h, d) =
    let o = w c n e in (c, o.0, o.1, o.2 ∙ h, Descends-Within t u c w d)

module _ (rank : ℕ → ℕ) (bound : ℕ) (pid : ℕ) where
  -- A brother of an erased child stays.
  brother :
      (t u : Tree) (c b : ℕ)
      → IsTree rank bound t
      → IsChild pid t c
      → Erased rank bound c t u
      → b ≢ c
      → IsChild pid t b
      → IsChild pid u b
  brother t u c b tree kid one apart (n, e, h) = elim (one.kept b n e) [
    | inr (p, found) ↦ let o = one.within b p found in (p, found, cc (o.1, o.2, e, h))
    | inl d ↦ absurd (above d e apart)
  ]
    where
      above : {x : ℕ} → Descends t c x → find x t ≡ some n → x ≢ c → ⊥
      above here e' other = other refl
      above (below p q f g d) e' other =
          parent-above rank bound t tree c pid kid.0 kid.1 kid.2
            (subst (Descends t c) (cc (e', f, g, h)) d)

  brothers :
      (t u : Tree) (c : ℕ) (cs : List ℕ)
      → IsTree rank bound t
      → IsChild pid t c
      → Erased rank bound c t u
      → contains c cs ≡ false
      → All (IsChild pid t) cs
      → All (IsChild pid u) cs
  brothers t u c [] tree kid one new kids = tt
  brothers t u c (b ∷ bs) tree kid one new kids = (
    brother t u c b tree kid one (λ e. ground (arith, new)) kids.0,
    brothers t u c bs tree kid one (ground (arith, new)) kids.1,
  )

  -- The loop over the children, where erasing each of them settles.
  pub children_AllErased :
      (rec : ℕ → ℕ → Tree → Outcome Tree) (Enough : ℕ → Type 0)
      → ((c : ℕ) (t : Tree)
          → IsTree rank bound t
          → IsChild pid t c
          → Settles (λ fuel. rec fuel c t) Enough (Erased rank bound c t))
      → (cs : List ℕ) (t : Tree) → IsTree rank bound t
      → Nodup cs
      → All (IsChild pid t) cs
      → Settles (λ fuel. erase_children (rec fuel) cs t) Enough (AllErased rank bound pid cs t)
  unfolding erase_children load
  children_AllErased rec Enough one [] t tree d kids = (
    t,
    λ fuel h. refl,
    record { tree = tree; within = Within_refl t; gone = tt; kept = λ x p e. inr (p, e) },
  )
  children_AllErased rec Enough one (c ∷ cs) t tree d kids =
      let first = one c t tree kids.0 in
      let u = first.0 in
      let rest =
        children_AllErased rec Enough one cs u first.2.tree d.1
          (brothers t u c cs tree kids.0 first.2 d.0 kids.1) in
      (
        rest.0,
        λ fuel h. rw (erase_children, load, kids.0.1, first.1 fuel h) (rest.1 fuel h),
        record {
          tree = rest.2.tree;
          within = Within_trans t u rest.0 first.2.within rest.2.within;
          gone = (absent-Within u rest.0 c rest.2.within first.2.gone, rest.2.gone);
          kept = λ x p e. elim (first.2.kept x p e) [
            | inl below_c ↦ inl (c, kids.0.0, kids.0.1, kids.0.2, below_c)
            | inr (q, found) ↦ elim (rest.2.kept x q found) [
              | inl under ↦ inl (Under-Within t u pid x first.2.within under)
              | inr still ↦ inr still
            ]
          ];
        },
      )

pub children_lem :
    (rank : ℕ → ℕ) (bound pid : ℕ) (t : Tree) (n : Node) (cs : List ℕ)
    → IsTree rank bound t
    → find pid t ≡ some n
    → ((c : ℕ) → contains c cs ≡ true → contains c n.children ≡ true)
    → All (IsChild pid t) cs
children_lem rank bound pid t n [] tree e among = tt
children_lem rank bound pid t n (c ∷ cs) tree e among = (
  tree.owned pid n c e (among c (ground arith)),
  children_lem rank bound pid t n cs tree e (λ b h. among b (ground (arith, h))),
)

pub All-contains :
    (u : Tree) (cs : List ℕ) (x : ℕ)
    → All (λ c. find c u ≡ none) cs
    → contains x cs ≡ true
    → find x u ≡ none
All-contains u [] x h inside = cc
All-contains u (c ∷ cs) x h inside = elim (Bool-cases (x == c)) [
  | inl e ↦ ap (λ i. find i u) (==→eq x c e) ∙ h.0
  | inr e ↦ All-contains u cs x h.1 (ground (arith, e, inside))
]
