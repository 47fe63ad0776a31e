-- ===== src/Tree/Constructing.antt =====
-- Constructing a process, and putting it into the tree below its parent.
use csci555_usc.Base.{
  ℕ, ◌≡◌, refl, sym, ap, subst, ◌∙◌, ◌⊎◌, inl, inr, true, false, Bool-cases, Option-cases, Option,
  none, some, [], ◌==◌, arith,
}
use csci555_usc.Pages.Table.{find, modify}
use csci555_usc.Tree.{Node, Tree, done, load, add_children, emplace, construct, attach}
use csci555_usc.Tree.Links.{find-emplace}
use csci555_usc.Tree.Adding.{Adopts, adopt, modify-Adopts, none-Adopts, Adopts_trans, Added}

abbrev pub Known : Option ℕ → Tree → Type 0
Known parent t = (q : ℕ) → parent ≡ some q → (n : Node) × (find q t ≡ some n)

emplace-Added :
    (pid : ℕ) (parent : Option ℕ) (n : Node) (t u : Tree)
    → find pid t ≡ none
    → Adopts pid parent t u
    → n.parent ≡ parent
    → n.children ≡ []
    → Added pid parent t (emplace pid n u)
emplace-Added pid parent n t u fresh a p c =
    let found = λ (x : ℕ). find-emplace x pid n u absent in
    record {
      new = (n, ground (arith, found pid), p, c);
      back = λ x m apart e. a.back x m (ground (arith, found x, apart, e));
      forth = λ x o e. elim (Bool-cases (x == pid)) [
        | inl same ↦ (n, ground (arith, found x, same))
        | inr apart ↦ let m = a.forth x o e in (m.0, ground (arith, found x, apart, m.1))
      ];
    }
  where
    absent : find pid u ≡ none
    absent = elim (Option-cases (find pid u)) [
      | inl e ↦ e
      | inr (m, e) ↦ let o = a.back pid m e in cc (o.1, fresh)
    ]

pub attach-Added :
    (pid : ℕ) (parent : Option ℕ) (n : Node) (t u : Tree)
    → find pid t ≡ none
    → Known parent t
    → ((u ≡ t) ⊎ Adopts pid parent t u)
    → (parent ≡ none → n.parent ≡ none)
    → n.children ≡ []
    → (v : Tree) × (attach pid n parent u ≡ done v) × Added pid parent t v
unfolding attach
attach-Added pid none n t u fresh known before p c =
    (emplace pid n u, refl, emplace-Added pid none n t u fresh (start before) (p refl) c)
  where
    start : (u ≡ t) ⊎ Adopts pid none t u → Adopts pid none t u
    start (inl e) = subst (Adopts pid none t) (sym e) (none-Adopts pid t)
    start (inr a) = a
attach-Added pid (some q) n t u fresh known before p c =
    let there = here before in
    (
      emplace pid (record n { parent = some q }) (modify q (adopt pid) u),
      rw (attach, add_children, load, there.1) refl,
      emplace-Added pid (some q) (record n { parent = some q }) t (modify q (adopt pid) u) fresh
          (again before) refl c,
    )
  where
    here : (u ≡ t) ⊎ Adopts pid (some q) t u → (m : Node) × (find q u ≡ some m)
    here (inl e) = let k = known q refl in (k.0, ap (find q) e ∙ k.1)
    here (inr a) = let k = known q refl in a.forth q k.0 k.1

    again : (u ≡ t) ⊎ Adopts pid (some q) t u → Adopts pid (some q) t (modify q (adopt pid) u)
    again (inl e) =
        subst (λ i. Adopts pid (some q) t (modify q (adopt pid) i)) (sym e) (modify-Adopts pid q t)
    again (inr a) = Adopts_trans pid (some q) t u (modify q (adopt pid) u) a (modify-Adopts pid q u)

-- What the constructor of a process makes of a tree.
pub record Constructed (stat : ℕ → Option ℕ) (pid : ℕ) (parent : Option ℕ) (t : Tree)
    (r : Node × Tree) : Type 0 where
  pub before : (r.1 ≡ t) ⊎ Adopts pid parent t r.1
  pub same : parent ≡ none → r.1 ≡ t
  pub parent_given : r.0.parent ≡ parent
  pub no_children : r.0.children ≡ []
  pub read : (r.0.ppid ≡ 0) ⊎ (stat pid ≡ some r.0.ppid)

pub construct-Constructed :
    (stat : ℕ → Option ℕ) (pid : ℕ) (parent : Option ℕ) (t : Tree)
    → Known parent t
    → (r : Node × Tree) × (construct stat pid parent t ≡ done r) × Constructed stat pid parent t r
unfolding construct
construct-Constructed stat pid parent t known = elim (Option-cases (stat pid)) [
  | inl e ↦ (
    (record { ppid = 0; valid = false; parent = parent; children = [] }, t),
    rw (construct, e) refl,
    record {
      before = inl refl;
      same = λ h. refl;
      parent_given = refl;
      no_children = refl;
      read = inl refl;
    },
  )
  | inr (ppid, e) ↦ by_parent parent ppid e known
]
  where
    by_parent :
        (m : Option ℕ) (ppid : ℕ)
        → stat pid ≡ some ppid
        → Known m t
        → (r : Node × Tree) × (construct stat pid m t ≡ done r) × Constructed stat pid m t r
    by_parent none ppid e k = (
      (record { ppid = ppid; valid = true; parent = none; children = [] }, t),
      rw (construct, e) refl,
      record {
        before = inl refl;
        same = λ h. refl;
        parent_given = refl;
        no_children = refl;
        read = inr e;
      },
    )
    by_parent (some q) ppid e k =
        let there = k q refl in
        (
          (
            record { ppid = ppid; valid = true; parent = some q; children = [] },
            modify q (adopt pid) t,
          ),
          rw (construct, e, add_children, load, there.1) refl,
          record {
            before = inr (modify-Adopts pid q t);
            same = λ h. cc;
            parent_given = refl;
            no_children = refl;
            read = inr e;
          },
        )
