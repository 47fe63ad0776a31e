-- ===== src/Tree/Unlinking.antt =====
-- `erase_invalid` unlinks all invalid processes from their parents before it erases them, so erasing a
-- parent no longer erases its invalid child, which then follows the pointer to the parent.
use csci555_usc.Base.{
  ℕ, ◌<◌, ◌≡◌, ◌≢◌, refl, sym, ap, subst, ◌∙◌, inl, inr, Bool, true, false, Bool-cases, Option,
  none, some, List, [], ◌∷◌, ◌==◌, arith, ltb, contains, contains-erase,
}
use csci555_usc.Pages.Table.{find, modify}
use csci555_usc.Pages.Table.History.{find-modify}
use csci555_usc.Tree.{
  Node, Tree, Outcome, done, dangling, out_of_fuel, remove_children, erase_all, insert_ordered,
  invalid_pids, unlink_invalid, erase_invalid,
}
use csci555_usc.Tree.Links.{IsTree}
use csci555_usc.Tree.Updating.{contains-insert_ordered, invalid_pids_all}
use csci555_usc.Tree.Shrinking.{
  bind-done, Shrinks, Shrinks-trans, drop, modify-Shrinks, remove_children-done, Has-modify,
  IsUnlisted, Keeps,
}
use csci555_usc.Tree.Ending.{IsRanked, erase_invalid-ne-out_of_fuel}
use csci555_usc.Tree.Stranding.{IsOrdered, list_strands}

insert_ordered-IsOrdered : (a : ℕ) (l : List ℕ) → IsOrdered l → IsOrdered (insert_ordered a l)
unfolding insert_ordered
insert_ordered-IsOrdered a [] o = (λ b h. cc, tt)
insert_ordered-IsOrdered a (x ∷ l) o = elim (Bool-cases (a == x)) [
  | inl same ↦ simp same o
  | inr apart ↦ elim (Bool-cases (ltb a x)) [
    | inl less ↦ simp (apart, less) (first less, o)
    | inr more ↦ simp (apart, more) (later apart more, insert_ordered-IsOrdered a l o.1)
  ]
]
  where
    first : ltb a x ≡ true → (b : ℕ) → contains b (x ∷ l) ≡ true → a < b
    first less b h = ground (arith, less, o.0 b)

    later :
        a == x ≡ false → ltb a x ≡ false → (b : ℕ) → contains b (insert_ordered a l) ≡ true → x < b
    later apart more b h = ground (arith, contains-insert_ordered a b l, o.0 b, apart, more)

invalid_pids-IsOrdered : (t : Tree) → IsOrdered (invalid_pids t)
unfolding invalid_pids
invalid_pids-IsOrdered [] = tt
invalid_pids-IsOrdered ((k, n) ∷ t) = elim (Bool-cases n.valid) [
  | inl e ↦ simp e (invalid_pids-IsOrdered t)
  | inr e ↦ simp e (insert_ordered-IsOrdered k (invalid_pids t) (invalid_pids-IsOrdered t))
]

module _ (x parent : ℕ) where
  unlink_step :
      (pid : ℕ) (n : Node) (t u : Tree)
      → elim n.valid [
        | true ↦ done t
        | false ↦ elim n.parent [ none ↦ done t | some q ↦ remove_children q pid t ]
      ]
        ≡ done u
      → Keeps x parent t u
  unlink_step pid n t u h = go n.valid n.parent h
    where
      same : t ≡ u → Keeps x parent t u
      same e = subst (Keeps x parent t) e (λ q m f. (m, f, λ y i. i), λ has. has)

      go :
          (v : Bool) (p : Option ℕ)
          → elim v [
            | true ↦ done t
            | false ↦ elim p [ none ↦ done t | some q ↦ remove_children q pid t ]
          ]
            ≡ done u
          → Keeps x parent t u
      go true p h' = same (cc h')
      go false none h' = same (cc h')
      go false (some q) h' =
          subst (Keeps x parent t) (sym (remove_children-done q pid t u h').1)
            (modify-Shrinks q pid t, Has-modify x parent q pid t)

  unlink-Keeps : (ns t u : Tree) → unlink_invalid ns t ≡ done u → Keeps x parent t u
  unfolding unlink_invalid
  unlink-Keeps [] t u h = subst (Keeps x parent t) (cc h) (λ q m f. (m, f, λ y i. i), λ has. has)
  unlink-Keeps ((pid, n) ∷ ns) t u h =
      let step = bind-done _ (λ t'. unlink_invalid ns t') h in
      let a = unlink_step pid n t step.0 step.1 in
      let b = unlink-Keeps ns step.0 u step.2 in
      (Shrinks-trans t step.0 u a.0 b.0, λ has. b.1 (a.1 has))

  unlinked :
      (ns t u : Tree) (n : Node)
      → find x ns ≡ some n
      → n.valid ≡ false
      → n.parent ≡ some parent
      → unlink_invalid ns t ≡ done u
      → (m : Node) → find parent u ≡ some m
      → contains x m.children ≡ false
  unfolding unlink_invalid find
  unlinked [] t u n e v p h m f = cc
  unlinked ((pid, k) ∷ ns) t u n e v p h m f =
      let step = bind-done _ (λ t'. unlink_invalid ns t') h in
      elim (Bool-cases (x == pid)) [
        | inr apart ↦ unlinked ns step.0 u n (ground (arith, apart, e)) v p step.2 m f
        | inl same ↦
            let is : k ≡ n = ground (arith, same, e) in
            let r = remove_children-done parent pid t step.0 (
              removed k.valid k.parent (ap (λ i. i.valid) is ∙ v) (ap (λ i. i.parent) is ∙ p)
                step.1) in
            elim (Bool-cases (contains x m.children)) [
              | inr out ↦ out
              | inl inside ↦
                  let o = (unlink-Keeps ns step.0 u step.2).0 parent m f in
                  let now : o.0 ≡ drop pid r.0.0 =
                    cc (o.1, ap (find parent) r.1, dropped r.0.0 r.0.1) in
                  ground (
                    arith,
                    o.2 x inside,
                    ap (λ i. contains x i.children) now,
                    contains-erase pid x r.0.0.children,
                    same,
                  )
            ]
      ]
    where
      removed :
          {w : Tree} (v' : Bool) (p' : Option ℕ)
          → v' ≡ false
          → p' ≡ some parent
          → elim v' [
            | true ↦ done t
            | false ↦ elim p' [ none ↦ done t | some q ↦ remove_children q pid t ]
          ]
            ≡ done w
          → remove_children parent pid t ≡ done w
      removed true p' a b c = absurd (true-false a)
        where
          true-false : true ≡ false → ⊥
          true-false i = cc
      removed false none a b c = cc
      removed false (some q) a b c =
          let is : parent ≡ q = cc b in ap (λ i. remove_children i pid t) is ∙ c

      dropped :
          (m' : Node)
          → find parent t ≡ some m'
          → find parent (modify parent (drop pid) t) ≡ some (drop pid m')
      dropped m' g = ground (arith, find-modify parent parent (drop pid) t, g)

erase_invalid-ne-done :
    (rank : ℕ → ℕ) (bound : ℕ) (t : Tree) (x parent : ℕ) (n m : Node)
    → IsTree rank bound t
    → find x t ≡ some n
    → n.valid ≡ false
    → n.parent ≡ some parent
    → find parent t ≡ some m
    → m.valid ≡ false
    → parent < x
    → (fuel : ℕ) (r : Tree × List ℕ) → erase_invalid fuel t ≢ done r
unfolding erase_invalid
erase_invalid-ne-done rank bound t x parent n m tree e v p f w lt fuel r h =
    let unlink = bind-done (unlink_invalid t t) _ h in
    let erasing = bind-done (erase_all fuel (invalid_pids t) unlink.0) _ unlink.2 in
    let keeps = unlink-Keeps x parent t t unlink.0 unlink.1 in
    list_strands x parent fuel (invalid_pids t) unlink.0 erasing.0 (invalid_pids-IsOrdered t) lt
      (invalid_pids_all x n t e v) (inr (invalid_pids_all parent m t f w))
      (free unlink.0 unlink.1 keeps.0) (keeps.1 (n, e, p)) erasing.1
  where
    free : (u : Tree) → unlink_invalid t t ≡ done u → Shrinks t u → IsUnlisted x u
    free u done_u s q k g = elim (Bool-cases (contains x k.children)) [
      | inr out ↦ out
      | inl inside ↦
          let o = s q k g in
          let c = tree.owned q o.0 x o.1 (o.2 x inside) in
          let is : q ≡ parent = cc (c.1, c.2, e, p) in
          unlinked x parent t t u n e v p done_u k (ap (λ i. find i u) (sym is) ∙ g)
    ]

IsTree-IsRanked :
    (rank : ℕ → ℕ) (bound : ℕ) (t : Tree) → IsTree rank bound t → IsRanked rank bound t
IsTree-IsRanked rank bound t tree q n e =
    (tree.bounded q n e, λ y h. let o = tree.owned q n y e h in tree.deeper y o.0 q o.1 o.2)

must_dangle : {A : Type 0} (o : Outcome A) → ((a : A) → o ≢ done a) → o ≢ out_of_fuel → o ≡ dangling
must_dangle (done a) undone fuelled = absurd (undone a refl)
must_dangle dangling undone fuelled = refl
must_dangle out_of_fuel undone fuelled = absurd (fuelled refl)

-- In a tree where a process and its parent are both invalid, and the parent has the smaller pid,
-- `erase_invalid` with more fuel than the depth of the tree follows a dangling pointer.
pub erase_invalid-dangling :
    (rank : ℕ → ℕ) (bound : ℕ) (t : Tree) (x parent : ℕ) (n m : Node)
    → IsTree rank bound t
    → find x t ≡ some n
    → n.valid ≡ false
    → n.parent ≡ some parent
    → find parent t ≡ some m
    → m.valid ≡ false
    → parent < x
    → (fuel : ℕ) → bound < fuel
    → erase_invalid fuel t ≡ dangling
erase_invalid-dangling rank bound t x parent n m tree e v p f w lt fuel enough =
    must_dangle (erase_invalid fuel t)
      (erase_invalid-ne-done rank bound t x parent n m tree e v p f w lt fuel)
      (erase_invalid-ne-out_of_fuel rank bound fuel t (IsTree-IsRanked rank bound t tree) enough)
