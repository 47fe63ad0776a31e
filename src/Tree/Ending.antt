-- ===== src/Tree/Ending.antt =====
-- The loops of `erase_invalid` do not run out of fuel: each ends or follows a dangling pointer.
use csci555_usc.Base.{
  ℕ, zero, suc, ◌+◌, ◌<◌, ◌≡◌, ◌≢◌, refl, sym, subst, inl, inr, true, false, Bool, Option,
  Option-cases, none, some, List, [], ◌∷◌, arith, contains,
}
use csci555_usc.Pages.Table.{find, modify}
use csci555_usc.Tree.{
  Node, Tree, Outcome, done, dangling, out_of_fuel, ◌>>=◌, load, remove_children, without,
  erase_children, erase_self, erase_process, erase_all, unlink_invalid, invalid_pids, erase_invalid,
}
use csci555_usc.Tree.Shrinking.{Shrinks, Shrinks-trans, drop, modify-Shrinks, without-Shrinks}

-- The outcome is a tree from which processes and children may have gone, or a dangling pointer.
abbrev pub Ends : Tree → Outcome Tree → Type 0
Ends t (done u) = Shrinks t u
Ends t dangling = Unit
Ends t out_of_fuel = ⊥

Shrinks-refl : (t : Tree) → Shrinks t t
Shrinks-refl t q n e = (n, e, λ y h. h)

Ends-before : (t u : Tree) (o : Outcome Tree) → Shrinks t u → Ends u o → Ends t o
Ends-before t u (done v) s e = Shrinks-trans t u v s e
Ends-before t u dangling s e = tt
Ends-before t u out_of_fuel s e = e

-- One step after another.
Ends-bind :
    (t : Tree) (o : Outcome Tree) (f : Tree → Outcome Tree)
    → Ends t o
    → ((u : Tree) → Shrinks t u → Ends u (f u))
    → Ends t (o >>= f)
Ends-bind t (done u) f e then_ = Ends-before t u (f u) e (then_ u e)
Ends-bind t dangling f e then_ = tt
Ends-bind t out_of_fuel f e then_ = e

-- A step that follows a pointer.
Ends-load :
    (t : Tree) (pid : ℕ) (f : Node → Outcome Tree)
    → ((n : Node) → find pid t ≡ some n → Ends t (f n))
    → Ends t (load pid t >>= f)
unfolding load
Ends-load t pid f then_ = go (find pid t) refl
  where
    go :
        (o : Option Node)
        → find pid t ≡ o
        → Ends t (elim o [ none ↦ dangling | some n ↦ done n ] >>= f)
    go none e = tt
    go (some n) e = then_ n e

remove_children-Ends : (q pid : ℕ) (t : Tree) → Ends t (remove_children q pid t)
unfolding remove_children
remove_children-Ends q pid t =
    Ends-load t q (λ n. done (modify q (drop pid) t)) (λ n e. modify-Shrinks q pid t)

erase_self-Ends : (pid : ℕ) (t : Tree) → Ends t (erase_self pid t)
unfolding erase_self
erase_self-Ends pid t = Ends-load t pid _ (λ n e. by_parent n.parent)
  where
    by_parent :
        (p : Option ℕ)
        → Ends t (elim p [
          | none ↦ done (without pid t)
          | some q ↦ remove_children q pid t >>= λ t'. done (without pid t')
        ])
    by_parent none = without-Shrinks pid t
    by_parent (some q) =
        Ends-bind t (remove_children q pid t) (λ t'. done (without pid t'))
          (remove_children-Ends q pid t) (λ u s. without-Shrinks pid u)

unlink_invalid-Ends : (ns t : Tree) → Ends t (unlink_invalid ns t)
unfolding unlink_invalid
unlink_invalid-Ends [] t = Shrinks-refl t
unlink_invalid-Ends ((pid, n) ∷ ns) t =
    Ends-bind t _ (unlink_invalid ns) (one n.valid n.parent) (λ u s. unlink_invalid-Ends ns u)
  where
    one :
        (v : Bool) (p : Option ℕ)
        → Ends t (elim v [
          | true ↦ done t
          | false ↦ elim p [ none ↦ done t | some q ↦ remove_children q pid t ]
        ])
    one true p = Shrinks-refl t
    one false none = Shrinks-refl t
    one false (some q) = remove_children-Ends q pid t

module _ (rank : ℕ → ℕ) (bound : ℕ) where
  -- The rank grows from a process to its children, and that of the processes there is bounded.
  abbrev pub IsRanked : Tree → Type 0
  IsRanked t =
      (q : ℕ) (n : Node)
      → find q t ≡ some n
      → (rank q < bound) × ((y : ℕ) → contains y n.children ≡ true → rank q < rank y)

  pub IsRanked-Shrinks : (t u : Tree) → Shrinks t u → IsRanked t → IsRanked u
  IsRanked-Shrinks t u s ranked q n e =
      let o = s q n e in let r = ranked q o.0 o.1 in (r.0, λ y h. r.1 y (o.2 y h))

  erase_children-Ends :
      (rec : ℕ → Tree → Outcome Tree) (cs : List ℕ) (t : Tree)
      → ((c : ℕ) (u : Tree) (n : Node)
          → contains c cs ≡ true
          → find c u ≡ some n
          → IsRanked u
          → Ends u (rec c u))
      → IsRanked t
      → Ends t (erase_children rec cs t)
  unfolding erase_children
  erase_children-Ends rec [] t one ranked = Shrinks-refl t
  erase_children-Ends rec (c ∷ cs) t one ranked = Ends-load t c _ (λ n e.
      Ends-bind t (rec c t) (erase_children rec cs) (one c t n (ground arith) e ranked) (λ u s.
        erase_children-Ends rec cs u (λ d v m h. one d v m (ground (arith, h)))
          (IsRanked-Shrinks t u s ranked)))

  -- `erase` of a process that was looked up.
  abbrev erase_step : ℕ → ℕ → Tree → Option Node → Outcome Tree
  erase_step f pid t none = done t
  erase_step f pid t (some n) =
      erase_children (erase_process f) n.children t >>= λ t'. erase_self pid t'

  erase_found-Ends :
      (fuel pid : ℕ) (t : Tree) (n : Node)
      → find pid t ≡ some n
      → IsRanked t
      → bound < fuel + rank pid
      → Ends t (erase_process fuel pid t)
  unfolding erase_process
  erase_found-Ends zero pid t n e ranked enough = absurd (omega (arith, enough, (ranked pid n e).0))
  erase_found-Ends (suc f) pid t n e ranked enough =
      subst (λ m. Ends t (erase_step f pid t m)) (sym e)
        (Ends-bind t (erase_children (erase_process f) n.children t) (erase_self pid)
          (erase_children-Ends (erase_process f) n.children t
            (λ c u m h found r.
              erase_found-Ends f c u m found r (omega (arith, enough, (ranked pid n e).1 c h)))
            ranked)
          (λ u s. erase_self-Ends pid u))

  erase_process-Ends :
      (fuel pid : ℕ) (t : Tree) → IsRanked t → bound < fuel → Ends t (erase_process fuel pid t)
  unfolding erase_process
  erase_process-Ends zero pid t ranked enough = absurd (omega (arith, enough))
  erase_process-Ends (suc f) pid t ranked enough = elim (Option-cases (find pid t)) [
    | inl e ↦ subst (λ m. Ends t (erase_step f pid t m)) (sym e) (Shrinks-refl t)
    | inr (n, e) ↦ erase_found-Ends (suc f) pid t n e ranked (omega (arith, enough))
  ]

  pub erase_all-Ends :
      (fuel : ℕ) (pids : List ℕ) (t : Tree)
      → IsRanked t
      → bound < fuel
      → Ends t (erase_all fuel pids t)
  unfolding erase_all
  erase_all-Ends fuel [] t ranked enough = Shrinks-refl t
  erase_all-Ends fuel (pid ∷ pids) t ranked enough =
      Ends-bind t (erase_process fuel pid t) (erase_all fuel pids)
        (erase_process-Ends fuel pid t ranked enough)
        (λ u s. erase_all-Ends fuel pids u (IsRanked-Shrinks t u s ranked) enough)

  pub erase_invalid-ne-out_of_fuel :
      (fuel : ℕ) (t : Tree) → IsRanked t → bound < fuel → erase_invalid fuel t ≢ out_of_fuel
  unfolding erase_invalid
  erase_invalid-ne-out_of_fuel fuel t ranked enough =
      first (unlink_invalid t t) (unlink_invalid-Ends t t)
    where
      pids : List ℕ
      pids = invalid_pids t

      finish : Tree → Outcome (Tree × List ℕ)
      finish left = done (left, pids)

      last : (u : Tree) (o : Outcome Tree) → Ends u o → (o >>= finish) ≢ out_of_fuel
      last u (done v) e h = cc
      last u dangling e h = cc
      last u out_of_fuel e h = e

      erasing : Tree → Outcome (Tree × List ℕ)
      erasing u = erase_all fuel pids u >>= finish

      first : (o : Outcome Tree) → Ends t o → (o >>= erasing) ≢ out_of_fuel
      first (done u) e h =
          last u (erase_all fuel pids u)
            (erase_all-Ends fuel pids u (IsRanked-Shrinks t u e ranked) enough) h
      first dangling e h = cc
      first out_of_fuel e h = e
