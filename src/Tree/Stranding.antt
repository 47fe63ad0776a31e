-- ===== src/Tree/Stranding.antt =====
-- Erasing a process that its parent does not have as a child, when the parent was erased.
use csci555_usc.Base.{
  ℕ, zero, suc, ◌<◌, ◌≡◌, ◌≢◌, refl, sym, ap, subst, ◌∙◌, ◌⊎◌, inl, inr, true, false, Bool-cases,
  Option, none, some, List, [], ◌∷◌, ◌==◌, ==→eq, arith, contains,
}
use csci555_usc.Pages.Table.{find}
use csci555_usc.Tree.{
  Node, Tree, Outcome, done, out_of_fuel, ◌>>=◌, load, remove_children, erase_children, erase_self,
  erase_process, erase_all,
}
use csci555_usc.Tree.Shrinking.{
  bind-done, Shrinks, Shrinks-trans, dangling-done, Has, IsUnlisted, IsUnlisted-Shrinks,
  absent-Shrinks, Keeps, self_done,
}

-- In ascending order.
abbrev pub IsOrdered : List ℕ → Type 0
IsOrdered [] = Unit
IsOrdered (a ∷ l) = ((b : ℕ) → contains b l ≡ true → a < b) × IsOrdered l

-- The loop over children that are not `x`, and the whole of `erase`, where no process has `x` as its
-- child.
module _ (x parent : ℕ) where
  children_keep :
      (rec : ℕ → Tree → Outcome Tree)
      → ((c : ℕ) (t u : Tree) → c ≢ x → IsUnlisted x t → rec c t ≡ done u → Keeps x parent t u)
      → (cs : List ℕ) (t u : Tree) → contains x cs ≡ false
      → IsUnlisted x t
      → erase_children rec cs t ≡ done u
      → Keeps x parent t u
  unfolding erase_children
  children_keep rec one [] t u new free h =
      let is : t ≡ u = cc h in subst (Keeps x parent t) is (λ q n e. (n, e, λ y i. i), λ has. has)
  children_keep rec one (c ∷ cs) t u new free h =
      let loaded = bind-done (load c t) _ h in
      let first = bind-done (rec c t) _ loaded.2 in
      let other : c ≢ x = λ e. ground (arith, new) in
      let a = one c t first.0 other free first.1 in
      let b =
        children_keep rec one cs first.0 u (ground (arith, new))
          (IsUnlisted-Shrinks x t first.0 a.0 free) first.2 in
      (Shrinks-trans t first.0 u a.0 b.0, λ has. b.1 (a.1 has))

  erase-Keeps :
      (fuel s : ℕ) (t u : Tree)
      → s ≢ x
      → IsUnlisted x t
      → erase_process fuel s t ≡ done u
      → Keeps x parent t u × (find s u ≡ none)
  unfolding erase_process
  erase-Keeps zero s t u other free h = absurd (fuel-done h)
    where
      fuel-done : out_of_fuel ≡ done u → ⊥
      fuel-done e = cc
  erase-Keeps (suc f) s t u other free h =
      go (λ c a b o i e. (erase-Keeps f c a b o i e).0) (find s t) refl h
    where
      go :
          ((c : ℕ) (a b : Tree)
            → c ≢ x
            → IsUnlisted x a
            → erase_process f c a ≡ done b
            → Keeps x parent a b)
          → (m : Option Node) → find s t ≡ m
          → elim m [
            | none ↦ done t
            | some n ↦ erase_children (erase_process f) n.children t >>= λ t'. erase_self s t'
          ]
            ≡ done u
          → Keeps x parent t u × (find s u ≡ none)
      go one none e h' =
          subst (λ i. Keeps x parent t i × (find s i ≡ none)) (cc h')
            ((λ q n e'. (n, e', λ y i. i), λ has. has), e)
      go one (some n) e h' =
          let loop = bind-done (erase_children (erase_process f) n.children t) _ h' in
          let a =
            children_keep (erase_process f) one n.children t loop.0 (free s n e) free loop.1 in
          let b = self_done x parent s loop.0 u other loop.2 in
          ((Shrinks-trans t loop.0 u a.0 b.0.0, λ has. b.0.1 (a.1 has)), b.1)

  -- Without its parent in the tree, such a process cannot be erased.
  stranded :
      (fuel : ℕ) (t u : Tree)
      → IsUnlisted x t
      → Has x parent t
      → find parent t ≡ none
      → erase_process fuel x t ≡ done u
      → ⊥
  unfolding erase_process erase_self load remove_children
  stranded zero t u free has orphan h = absurd (fuel-done h)
    where
      fuel-done : out_of_fuel ≡ done u → ⊥
      fuel-done e = cc
  stranded (suc f) t u free has orphan h = go (find x t) refl h
    where
      self : (v : Tree) → Has x parent v → find parent v ≡ none → erase_self x v ≡ done u → ⊥
      self v (n, e, p) o h' =
          dangling-done (sym (rw (erase_self, load, e, p, remove_children, load, o) refl) ∙ h')

      go :
          (m : Option Node)
          → find x t ≡ m
          → elim m [
            | none ↦ done t
            | some n ↦ erase_children (erase_process f) n.children t >>= λ t'. erase_self x t'
          ]
            ≡ done u
          → ⊥
      go none e h' = cc (has.1, e)
      go (some n) e h' =
          let loop = bind-done (erase_children (erase_process f) n.children t) _ h' in
          let a =
            children_keep (erase_process f) (λ c v w o i k. (erase-Keeps f c v w o i k).0)
              n.children t loop.0 (free x n e) free loop.1 in
          self loop.0 (a.1 has) (absent-Shrinks parent t loop.0 a.0 orphan) loop.2

  -- Nor do the loops succeed that erase the parent first.
  pub list_strands :
      (fuel : ℕ) (pids : List ℕ) (t u : Tree)
      → IsOrdered pids
      → parent < x
      → contains x pids ≡ true
      → (find parent t ≡ none) ⊎ (contains parent pids ≡ true)
      → IsUnlisted x t
      → Has x parent t
      → erase_all fuel pids t ≡ done u
      → ⊥
  unfolding erase_all
  list_strands fuel [] t u ordered lt inside first free has h = cc
  list_strands fuel (a ∷ pids) t u ordered lt inside first free has h =
      let step = bind-done (erase_process fuel a t) _ h in
      elim (Bool-cases (x == a)) [
        | inl same ↦
            let is : x ≡ a = ==→eq x a same in
            stranded fuel t step.0 free has (earlier first is)
              (ap (λ i. erase_process fuel i t) is ∙ step.1)
        | inr apart ↦
            let k = erase-Keeps fuel a t step.0 (λ e. ground (arith, apart)) free step.1 in
            list_strands fuel pids step.0 u ordered.1 lt (ground (arith, inside, apart))
              (still step.0 k.0.0 k.1 first) (IsUnlisted-Shrinks x t step.0 k.0.0 free) (k.0.1 has)
              step.2
      ]
    where
      earlier :
          (find parent t ≡ none) ⊎ (contains parent (a ∷ pids) ≡ true)
          → x ≡ a
          → find parent t ≡ none
      earlier (inl e) is = e
      earlier (inr e) is = elim (Bool-cases (contains parent pids)) [
        | inl later ↦ absurd (omega (arith, ordered.0 parent later))
        | inr out ↦ absurd (ground (arith, out))
      ]

      still :
          (v : Tree)
          → Shrinks t v
          → find a v ≡ none
          → (find parent t ≡ none) ⊎ (contains parent (a ∷ pids) ≡ true)
          → (find parent v ≡ none) ⊎ (contains parent pids ≡ true)
      still v s gone (inl e) = inl (absent-Shrinks parent t v s e)
      still v s gone (inr e) = elim (Bool-cases (parent == a)) [
        | inl is ↦ inl (ap (λ i. find i v) (==→eq parent a is) ∙ gone)
        | inr isnt ↦ inr (ground (arith, isnt, e))
      ]
