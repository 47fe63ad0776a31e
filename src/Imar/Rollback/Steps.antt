-- ===== src/Imar/Rollback/Steps.antt =====
-- What undoing migrations and executing them does to the history, src/migration/strategies/
-- thread_strategy.hpp and the loops of `migrate` of the strategies.
use mathlib.Core.List.{append-nil, append_assoc}
use csci555_usc.Base.{
  ℕ, suc, ◌+◌, ◌<◌, ◌≤◌, ◌≡◌, refl, sym, ap, subst, ◌∙◌, ◌⊎◌, inl, inr, Bool, true, false, Option,
  none, some, List, [], ◌∷◌, ◌++◌, arith, if◌then◌else◌, length, length-append, map,
}
use csci555_usc.Real.{Real}
use csci555_usc.Threads.{Kernel, System}
use csci555_usc.Threads.Cells.{swap, migrate}
use csci555_usc.Migrations.{MigrationCell, History, undo_from, undo_last_migrations}
use csci555_usc.Lbma.{perform}

pub none-some : {A : Type 0} {a : A} → none ≡ some a → ⊥
none-some e = cc

module _ {R K : Type 0} ⦃real : Real R⦄ (kernel : Kernel K) (invalid_value : R)
    (performance_of : System → ℕ → R) where
  -- Undoing forgets the last migrations, counts no more than there were, and executes none.
  abbrev pub RolledBack : History R → History R → Type 0
  RolledBack h h' =
      (h'.last_migrations ≡ [])
      × (h'.total_migrations ≡ h.total_migrations)
      × (h'.total_migrations_undone ≤ h.total_migrations_undone + length h.last_migrations)

  undo_from-le :
      (only_bad : Bool) (last : List (MigrationCell R)) (undone : ℕ) (st : System) (k : K)
      (r : ℕ × System × K)
      → undo_from kernel invalid_value performance_of only_bad last undone st k ≡ some r
      → r.0 ≤ undone + length last
  unfolding undo_from
  undo_from-le only_bad [] undone st k r h = let is : undone ≡ r.0 = ap_some h in omega (arith, is)
    where
      ap_some : some (undone, st, k) ≡ some r → undone ≡ r.0
      ap_some e = cc
  undo_from-le only_bad (m ∷ last) undone st k r h =
      go _ (migrate kernel (map swap m.migrations) st k)
        (λ n s j e. undo_from-le only_bad last n s j r e) h
    where
      go :
          (b : Bool) (o : Option (Bool × System × K))
          → ((n : ℕ) (s : System) (j : K)
              → undo_from kernel invalid_value performance_of only_bad last n s j ≡ some r
              → r.0 ≤ n + length last)
          → elim b [
            | true ↦ elim o [
              | none ↦ none
              | some q ↦
                  undo_from kernel invalid_value performance_of only_bad last
                    (if q.0 then undone + 1 else undone)
                    q.1
                    q.2
            ]
            | false ↦ undo_from kernel invalid_value performance_of only_bad last undone st k
          ]
            ≡ some r
          → r.0 ≤ undone + suc (length last)
      go true none ih e = absurd (none-some e)
      go true (some (ok, s, j)) ih e =
          let one = ih (if ok then undone + 1 else undone) s j e in ground (arith, one)
      go false o ih e = omega (arith, ih undone st k e)

  pub undo_last_migrations-RolledBack :
      (only_bad : Bool) (h : History R) (st : System) (k : K) (r : History R × System × K)
      → undo_last_migrations kernel invalid_value performance_of only_bad h st k ≡ some r
      → RolledBack h r.0
  unfolding undo_last_migrations
  undo_last_migrations-RolledBack only_bad h st k r e =
      go
        (undo_from kernel invalid_value performance_of only_bad h.last_migrations
          h.total_migrations_undone st k)
        (undo_from-le only_bad h.last_migrations h.total_migrations_undone st k) e
    where
      go :
          (o : Option (ℕ × System × K))
          → ((q : ℕ × System × K)
              → o ≡ some q
              → q.0 ≤ h.total_migrations_undone + length h.last_migrations)
          → elim o [
            | none ↦ none
            | some q ↦
                some (record h { last_migrations = []; total_migrations_undone = q.0 }, q.1, q.2)
          ]
            ≡ some r
          → RolledBack h r.0
      go none le e' = absurd (none-some e')
      go (some q) le e' =
          let back : History R = record h { last_migrations = []; total_migrations_undone = q.0 } in
          subst (RolledBack h) (some_first back q e') (refl, refl, le q refl)
        where
          some_first :
              (b : History R) (q' : ℕ × System × K) → some (b, q'.1, q'.2) ≡ some r → b ≡ r.0
          some_first b q' i = cc

  -- After executing migrations: all were migrated and are kept, or one failed, and what was executed
  -- was undone.
  abbrev pub Executed : List (MigrationCell R) → History R → History R → Type 0
  Executed algorithm h h' =
      ((h'.last_migrations ≡ h.last_migrations ++ algorithm)
        × (h'.total_migrations ≡ h.total_migrations + length algorithm)
        × (h'.total_migrations_undone ≡ h.total_migrations_undone))
      ⊎ ((n : ℕ) × (n < length algorithm)
          × (h'.last_migrations ≡ [])
          × (h'.total_migrations ≡ h.total_migrations + n)
          × (h'.total_migrations_undone ≤ h.total_migrations_undone + length h.last_migrations + n))

  more-Executed :
      (m : MigrationCell R) (ms : List (MigrationCell R)) (h h' : History R)
      → Executed ms
          (record h {
            total_migrations = h.total_migrations + 1;
            last_migrations = h.last_migrations ++ m ∷ [];
          })
          h'
      → Executed (m ∷ ms) h h'
  more-Executed m ms h h' (inl (l, t, u)) =
      inl (l ∙ append_assoc h.last_migrations (m ∷ []) ms, omega (arith, t), u)
  more-Executed m ms h h' (inr (n, lt', l, t, u)) = inr (
    n + 1,
    omega (arith, lt'),
    l,
    omega (arith, t),
    omega (arith, u, length-append h.last_migrations (m ∷ [])),
  )

  pub perform-Executed :
      (ms : List (MigrationCell R)) (h : History R) (st : System) (k : K)
      (r : History R × System × K)
      → perform kernel invalid_value performance_of ms h st k ≡ some r
      → Executed ms h r.0
  unfolding perform
  perform-Executed [] h st k r e = inl (
    subst (λ i. i.last_migrations ≡ h.last_migrations ++ []) (first e)
        (sym (append-nil h.last_migrations)),
    subst (λ i. i.total_migrations ≡ h.total_migrations + 0) (first e) (omega arith),
    ap (λ i. i.total_migrations_undone) (sym (first e)),
  )
    where
      first : some (h, st, k) ≡ some r → h ≡ r.0
      first i = cc
  perform-Executed (m ∷ ms) h st k r e =
      go (migrate kernel m.migrations st k) (λ s j i. perform-Executed ms next s j r i) e
    where
      next : History R
      next = record h {
        total_migrations = h.total_migrations + 1;
        last_migrations = h.last_migrations ++ m ∷ [];
      }

      go :
          (o : Option (Bool × System × K))
          → ((s : System) (j : K)
              → perform kernel invalid_value performance_of ms next s j ≡ some r
              → Executed ms next r.0)
          → elim o [
            | none ↦ none
            | some q ↦
                if q.0
                then perform kernel invalid_value performance_of ms next q.1 q.2
                else undo_last_migrations kernel invalid_value performance_of false h q.1 q.2
          ]
            ≡ some r
          → Executed (m ∷ ms) h r.0
      go none ih i = absurd (none-some i)
      go (some (true, s, j)) ih i = more-Executed m ms h r.0 (ih s j i)
      go (some (false, s, j)) ih i =
          let back = undo_last_migrations-RolledBack false h s j r i in
          inr (0, omega arith, back.0, omega (arith, back.1), omega (arith, back.2))
