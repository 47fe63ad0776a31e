-- ===== src/Tree/Updating.antt =====
-- Reading all processes again, and erasing those that cannot be read.
use csci555_usc.Base.{
  ℕ, ◌<◌, ◌≡◌, ◌≢◌, refl, sym, ap, subst, ◌∙◌, ◌⊎◌, inl, inr, true, false, Bool-cases, Option-cases,
  ◌||◌, Option, none, some, List, [], ◌∷◌, ◌==◌, ==→eq, eq→==, arith, if◌then◌else◌, contains,
  Nodup,
}
use csci555_usc.Pages.Table.{find}
use csci555_usc.Pages.Table.History.{apply}
use csci555_usc.Tree.{Node, Tree, erase_all, insert_ordered, refresh, invalid_pids, update}
use csci555_usc.Tree.Links.{
  IsTree, Descends, here, below, Within, Within_refl, Within_trans, Descends-Within,
}
use csci555_usc.Tree.Children.{Settles}
use csci555_usc.Tree.Erasing.{erase_process-IsTree}

module _ (rank : ℕ → ℕ) (bound : ℕ) where
  -- What is left when the pids of a list are erased.
  abbrev LessAll : List ℕ → Tree → Tree → Type 0
  LessAll pids t u =
      Within t u
      × ((x : ℕ) → contains x pids ≡ true → find x u ≡ none)
      × ((x : ℕ) (p : Node)
          → find x t ≡ some p
          → ((pid : ℕ) × (contains pid pids ≡ true) × Descends t pid x)
            ⊎ ((o : Node) × (find x u ≡ some o) × (o.parent ≡ p.parent)))

  erase_all-IsTree :
      (pids : List ℕ) (t : Tree)
      → IsTree rank bound t
      → Settles
          (λ fuel. erase_all fuel pids t)
          (λ fuel. bound < fuel)
          (λ u. IsTree rank bound u × LessAll pids t u)
  unfolding erase_all
  erase_all-IsTree [] t tree =
      (t, λ fuel h. refl, (tree, (Within_refl t, λ x h. cc, λ x p f. inr (p, f, refl))))
  erase_all-IsTree (pid ∷ pids) t tree =
      let first = erase_process-IsTree rank bound pid t tree in
      let rest = erase_all-IsTree pids first.0 first.2.0 in
      let w = first.2.1.0 in
      let v = rest.2.1.0 in
      (
        rest.0,
        λ fuel h. rw (first.1 fuel h) (rest.1 fuel h),
        (
          rest.2.0,
          (
            Within_trans t first.0 rest.0 w v,
            λ x h. gone x first.0 rest.0 v (first.2.1.1 pid here) rest.2.1.1 h,
            λ x p f. elim (first.2.1.2 x p f) [
              | inl d ↦ inl (pid, ground (arith, eq→== pid pid refl), d)
              | inr (o, g, same) ↦ elim (rest.2.1.2 x o g) [
                | inl (q, among, d) ↦
                    inl (q, ground (arith, among), Descends-Within t first.0 q w d)
                | inr (m, k, same') ↦ inr (m, k, same' ∙ same)
              ]
            ],
          ),
        ),
      )
    where
      gone :
          (x : ℕ) (u v : Tree)
          → Within u v
          → find pid u ≡ none
          → ((y : ℕ) → contains y pids ≡ true → find y v ≡ none)
          → contains x (pid ∷ pids) ≡ true
          → find x v ≡ none
      gone x u v w h others inside = elim (Bool-cases (x == pid)) [
        | inr e ↦ others x (ground (arith, e, inside))
        | inl e ↦ elim (Option-cases (find x v)) [
          | inl absent ↦ absent
          | inr (p, f) ↦ let o = w x p f in cc (o.1, h, ap (λ i. find i u) (==→eq x pid e))
        ]
      ]

pub contains-insert_ordered :
    (a b : ℕ) (xs : List ℕ) → contains b (insert_ordered a xs) ≡ (b == a || contains b xs)
unfolding insert_ordered
contains-insert_ordered a b [] = refl
contains-insert_ordered a b (x ∷ xs) = ground (arith, contains-insert_ordered a b xs)

pub invalid_pids_all :
    (x : ℕ) (p : Node) (t : Tree)
    → find x t ≡ some p
    → p.valid ≡ false
    → contains x (invalid_pids t) ≡ true
unfolding find invalid_pids
invalid_pids_all x p [] e h = cc
invalid_pids_all x p ((k, n) ∷ t) e h =
    ground (arith, invalid_pids_all x p t, contains-insert_ordered k x (invalid_pids t))

-- A process after it was read.
abbrev freshly : Option ℕ → Node → Node
freshly read n = elim read [
  | none ↦ record n { valid = false }
  | some ppid ↦ record n { valid = true; ppid = ppid }
]

module _ (stat : ℕ → Option ℕ) where
  abbrev fresh : ℕ → Node → Node
  fresh pid = freshly (stat pid)

  find-refresh : (x : ℕ) (t : Tree) → find x (refresh stat t) ≡ apply (fresh x) (find x t)
  unfolding find refresh
  find-refresh x [] = refl
  find-refresh x ((k, n) ∷ t) = elim (Bool-cases (x == k)) [
    | inl e ↦ simp e (ap (λ i. some (fresh i n)) (sym (==→eq x k e)))
    | inr e ↦ simp e (find-refresh x t)
  ]

  unread : (x : ℕ) (t : Tree) → contains x (invalid_pids (refresh stat t)) ≡ true → stat x ≡ none
  unfolding refresh invalid_pids
  unread x [] h = cc
  unread x ((k, n) ∷ t) h = step (stat k) refl (unread x t) h
    where
      step :
          (s : Option ℕ)
          → stat k ≡ s
          → (contains x (invalid_pids (refresh stat t)) ≡ true → stat x ≡ none)
          → contains x (
              if (freshly s n).valid
              then invalid_pids (refresh stat t)
              else insert_ordered k (invalid_pids (refresh stat t)))
            ≡ true
          → stat x ≡ none
      step (some ppid) e ih h = ih h
      step none e ih h = elim (Bool-cases (x == k)) [
        | inl same ↦ ap stat (==→eq x k same) ∙ e
        | inr apart ↦
            ih (
              ground (arith, contains-insert_ordered k x (invalid_pids (refresh stat t)), apart, h))
      ]

  refreshed :
      (x : ℕ) (p : Node) (t : Tree) → find x t ≡ some p → find x (refresh stat t) ≡ some (fresh x p)
  refreshed x p t e = find-refresh x t ∙ ap (apply (fresh x)) e

  -- Reading a process again changes no link.
  refreshed_from :
      (x : ℕ) (p : Node) (t : Tree)
      → find x (refresh stat t) ≡ some p
      → (o : Node) × (find x t ≡ some o) × (o.parent ≡ p.parent) × (o.children ≡ p.children)
  refreshed_from x p t e = go (find x t) refl (sym (find-refresh x t) ∙ e)
    where
      go :
          (f : Option Node)
          → find x t ≡ f
          → apply (fresh x) f ≡ some p
          → (o : Node) × (find x t ≡ some o) × (o.parent ≡ p.parent) × (o.children ≡ p.children)
      go none found h = cc
      go (some o) found h = elim (Option-cases (stat x)) [
        | inl s ↦ (o, found, ground (arith, s, h), ground (arith, s, h))
        | inr (ppid, s) ↦ (o, found, ground (arith, s, h), ground (arith, s, h))
      ]

  fresh_links :
      (x : ℕ) (p : Node) → ((fresh x p).parent ≡ p.parent) × ((fresh x p).children ≡ p.children)
  fresh_links x p = elim (Option-cases (stat x)) [
    | inl s ↦ simp s (refl, refl)
    | inr (ppid, s) ↦ simp s (refl, refl)
  ]

  pub refresh-IsTree :
      (rank : ℕ → ℕ) (bound : ℕ) (t : Tree)
      → IsTree rank bound t
      → IsTree rank bound (refresh stat t)
  refresh-IsTree rank bound t tree = record {
    linked = λ x p q e h.
        let o = refreshed_from x p t e in
        let l = tree.linked x o.0 q o.1 (o.2 ∙ h) in
        (fresh q l.0, refreshed q l.0 t l.1, ap (contains x) (fresh_links q l.0).1 ∙ l.2);
    owned = λ q n x e h.
        let o = refreshed_from q n t e in
        let w = tree.owned q o.0 x o.1 (ap (contains x) o.3 ∙ h) in
        (fresh x w.0, refreshed x w.0 t w.1, (fresh_links x w.0).0 ∙ w.2);
    deeper = λ x p q e h. let o = refreshed_from x p t e in tree.deeper x o.0 q o.1 (o.2 ∙ h);
    bounded = λ x p e. let o = refreshed_from x p t e in tree.bounded x o.0 o.1;
    once = λ x p e. let o = refreshed_from x p t e in subst Nodup o.3 (tree.once x o.0 o.1);
  }

  Descends-refresh : (t : Tree) (s : ℕ) {x : ℕ} → Descends (refresh stat t) s x → Descends t s x
  Descends-refresh t s here = here
  Descends-refresh t s (below p q e h d) =
      let o = refreshed_from _ p t e in below o.0 q o.1 (o.2 ∙ h) (Descends-refresh t s d)

  unread_invalid :
      (x : ℕ) (p : Node) (t : Tree)
      → find x t ≡ some p
      → stat x ≡ none
      → contains x (invalid_pids (refresh stat t)) ≡ true
  unread_invalid x p t e s =
      invalid_pids_all x (fresh x p) (refresh stat t) (refreshed x p t e) (simp s refl)

  all_read :
      (x : ℕ) (pids : List ℕ)
      → elim pids [ [] ↦ true | _ ∷ _ ↦ false ] ≡ true
      → contains x pids ≡ true
      → ⊥
  all_read x [] ok h = cc
  all_read x (pid ∷ pids) ok h = cc

  -- What an update leaves of a tree: no process that cannot be read, all that can be read and descend
  -- from none that cannot, with the parents that they had, and nothing else.
  abbrev pub Updated : Tree → Tree → Type 0
  Updated t u =
      ((x : ℕ) → stat x ≡ none → find x u ≡ none)
      × ((x : ℕ) (p : Node)
          → find x t ≡ some p
          → ((pid : ℕ) × (stat pid ≡ none) × Descends t pid x)
            ⊎ ((o : Node) × (find x u ≡ some o) × (o.parent ≡ p.parent)))
      × Within t u

  -- In a tree, with more fuel than its depth, `update` follows no dangling pointer and ends. What is
  -- left is a tree: no process that cannot be read, and all those that do not descend from one that
  -- cannot, with the parents that they had. It reports success only if all could be read.
  pub update-IsTree :
      (rank : ℕ → ℕ) (bound : ℕ) (t : Tree)
      → IsTree rank bound t
      → Settles
          (λ fuel. update stat fuel t)
          (λ fuel. bound < fuel)
          (λ r.
            IsTree rank bound r.0
            × Updated t r.0
            × (r.1 ≡ true → (x : ℕ) (p : Node) → find x t ≡ some p → stat x ≢ none))
  unfolding update
  update-IsTree rank bound t tree =
      let t' = refresh stat t in
      let pids = invalid_pids t' in
      let r = erase_all-IsTree rank bound pids t' (refresh-IsTree rank bound t tree) in
      let w : Within t r.0 = λ x p e.
        let o = r.2.1.0 x p e in let o' = refreshed_from x o.0 t o.1 in (o'.0, o'.1, o'.2 ∙ o.2) in
      (
        (r.0, elim pids [ [] ↦ true | _ ∷ _ ↦ false ]),
        λ fuel h. rw (r.1 fuel h) refl,
        (
          r.2.0,
          (
            λ x s. elim (Option-cases (find x r.0)) [
              | inl absent ↦ absent
              | inr (p, e) ↦ let o = w x p e in r.2.1.1 x (unread_invalid x o.0 t o.1 s)
            ],
            λ x p e. elim (r.2.1.2 x (fresh x p) (refreshed x p t e)) [
              | inl (pid, among, d) ↦ inl (pid, unread pid t among, Descends-refresh t pid d)
              | inr (o, f, same) ↦ inr (o, f, same ∙ (fresh_links x p).0)
            ],
            w,
          ),
          λ ok x p e s. all_read x pids ok (unread_invalid x p t e s),
        ),
      )
