-- ===== src/Schedule/Plan/Once.antt =====
-- No thread is in two of the planned migrations.
use mathlib.Core.List.{append-nil, append_assoc}
use csci555_usc.Base.{
  ℕ, ◌≡◌, refl, sym, ap, subst, ◌∙◌, ◌⊎◌, Bool, true, false, Bool-cases, inl, inr, not, ◌&&◌,
  Option, Option-cases, none, some, List, [], ◌∷◌, ◌++◌, ◌==◌, arith, if◌then◌else◌, contains,
  insert, contains-insert, contains-append, map, Nodup, ==→eq, eq→==,
}
use csci555_usc.Real.{Real}
use csci555_usc.Tickets.{Tickets, Settings}
use csci555_usc.Migrations.{MigrationCell, Readings}
use csci555_usc.Schedule.{Thread}
use csci555_usc.Schedule.Plan.{Nodes, Plan, swap_from, find_swap, any_going, plan_simple, plan_swap}

-- One more element.
pub snoc-Nodup : (xs : List ℕ) (a : ℕ) → Nodup xs → contains a xs ≡ false → Nodup (xs ++ a ∷ [])
snoc-Nodup [] a d h = (refl, tt)
snoc-Nodup (x ∷ xs) a d h =
    (ground (arith, contains-append x xs (a ∷ []), d.0, h), snoc-Nodup xs a d.1 (ground (arith, h)))

-- Different threads, which are those that the loop knows as migrated.
abbrev pub Once : List ℕ → List ℕ → Type 0
Once tids migrated = Nodup tids × ((x : ℕ) → contains x tids ≡ contains x migrated)

more-Once :
    (tids migrated : List ℕ) (a : ℕ)
    → contains a migrated ≡ false
    → Once tids migrated
    → Once (tids ++ a ∷ []) (insert a migrated)
more-Once tids migrated a new (d, same) = (
  snoc-Nodup tids a d (same a ∙ new),
  λ x. ground (arith, contains-append x tids (a ∷ []), contains-insert a x migrated, same x),
)

module _ {R : Type 0} where
  -- The threads of all planned migrations.
  abbrev pub planned : List (MigrationCell R) → List ℕ
  planned [] = []
  planned (m ∷ ms) = map (λ c. c.tid) m.migrations ++ planned ms

  pub planned-append :
      (ms : List (MigrationCell R)) (m : MigrationCell R)
      → planned (ms ++ m ∷ []) ≡ planned ms ++ map (λ c. c.tid) m.migrations
  planned-append [] m = append-nil (map (λ c. c.tid) m.migrations)
  planned-append (n ∷ ms) m =
      ap (λ l. map (λ c. c.tid) n.migrations ++ l) (planned-append ms m)
      ∙ sym (
          append_assoc (map (λ c. c.tid) n.migrations) (planned ms) (map (λ c. c.tid) m.migrations))

module _ {R : Type 0} ⦃real : Real R⦄ (settings : Settings R) (readings : Readings R)
    (performance_of : ℕ → R) (nodes : Nodes) where
  -- A thread that is found was found before, or is one of the list that was not migrated yet.
  abbrev Found : List ℕ → List ℕ → Option ℕ → ℕ → Type 0
  Found migrated tids before t =
      (before ≡ some t) ⊎ ((contains t tids ≡ true) × (contains t migrated ≡ false))

  swap_from-Found :
      (tickets_of : ℕ → Tickets R) (migrated : List ℕ) (any : Bool) (tids : List ℕ)
      (before : Option ℕ) (tickets : Tickets R) (t : ℕ) (k : Tickets R)
      → swap_from settings readings performance_of nodes tickets_of migrated any tids before tickets
        ≡ some (t, k)
      → Found migrated tids before t
  unfolding swap_from
  swap_from-Found tickets_of migrated any [] none tickets t k h = cc
  swap_from-Found tickets_of migrated any [] (some u) tickets t k h = inl (cc h)
  swap_from-Found tickets_of migrated any (aux ∷ tids) before tickets t k h =
      let better =
        readings.is_migratable aux
        && not (contains aux migrated)
        && any
        && real.lt tickets.value (tickets_of aux).value in
      let rest =
        swap_from-Found tickets_of migrated any tids (if better then some aux else before)
          (if better then tickets_of aux else tickets) t k h in
      elim rest [
        | inl e ↦ chosen better (λ b. ground (arith, b)) e
        | inr (there, fresh) ↦ inr (ground (arith, there), fresh)
      ]
    where
      chosen :
          (b : Bool)
          → (b ≡ true → contains aux migrated ≡ false)
          → (if b then some aux else before) ≡ some t
          → Found migrated (aux ∷ tids) before t
      chosen true fresh e =
          let same : aux ≡ t = cc e in
          inr (
            ground (arith, eq→== t aux (sym same)),
            ap (λ i. contains i migrated) (sym same) ∙ fresh refl,
          )
      chosen false fresh e = inl e

  find_swap-fresh :
      (threads : List Thread) (t1 : Thread) (migrated : List ℕ) (t : ℕ) (k : Tickets R)
      → find_swap settings readings performance_of nodes threads t1 migrated ≡ some (t, k)
      → (contains t (nodes.non_idle_tids_from_node t1.dst_node) ≡ true)
        × (contains t migrated ≡ false)
  unfolding find_swap
  find_swap-fresh threads t1 migrated t k h =
      elim (swap_from-Found _ migrated (any_going t1.src_node threads)
        (nodes.non_idle_tids_from_node t1.dst_node) none _ t k h) [ inl e ↦ cc e | inr r ↦ r ]

  abbrev pub IsOnce : Plan R → Type 0
  IsOnce plan = Once (planned plan.mig) plan.migrated_tids

  pub simple-IsOnce :
      (t1 : Thread) (tickets : Tickets R) (plan : Plan R)
      → contains t1.tid plan.migrated_tids ≡ false
      → IsOnce plan
      → IsOnce (plan_simple settings readings performance_of nodes t1 tickets plan)
  unfolding plan_simple
  simple-IsOnce t1 tickets plan new once =
      subst (λ tids. Once tids (insert t1.tid plan.migrated_tids)) (sym (planned-append plan.mig _))
        (more-Once (planned plan.mig) plan.migrated_tids t1.tid new once)

  swap-IsOnce :
      (t1 : Thread) (tickets : Tickets R) (swap_tid : ℕ) (k : Tickets R) (plan : Plan R)
      → contains t1.tid plan.migrated_tids ≡ false
      → contains swap_tid plan.migrated_tids ≡ false
      → swap_tid == t1.tid ≡ false
      → IsOnce plan
      → IsOnce
          (plan_swap settings readings performance_of nodes t1 tickets (some (swap_tid, k)) plan)
  unfolding plan_swap
  swap-IsOnce t1 tickets swap_tid k plan new fresh apart once =
      let one = more-Once (planned plan.mig) plan.migrated_tids t1.tid new once in
      let out : contains swap_tid (insert t1.tid plan.migrated_tids) ≡ false =
        ground (arith, contains-insert t1.tid swap_tid plan.migrated_tids, fresh, apart) in
      let two =
        more-Once (planned plan.mig ++ t1.tid ∷ []) (insert t1.tid plan.migrated_tids) swap_tid out
          one in
      subst (λ tids. Once tids (insert swap_tid (insert t1.tid plan.migrated_tids)))
        (append_assoc (planned plan.mig) (t1.tid ∷ []) (swap_tid ∷ [])
          ∙ sym (planned-append plan.mig _))
        two

  -- A thread that is to move is not in the node it is to go to.
  abbrev pub IsAway : Thread → Type 0
  IsAway t =
      t.src_node == t.dst_node ≡ false
      → contains t.tid (nodes.non_idle_tids_from_node t.dst_node) ≡ false

  -- A round with a thread to swap with, or none.
  pub plan_swap-IsOnce :
      (threads : List Thread) (t1 : Thread) (tickets : Tickets R) (plan : Plan R)
      → t1.src_node == t1.dst_node ≡ false
      → IsAway t1
      → contains t1.tid plan.migrated_tids ≡ false
      → IsOnce plan
      → IsOnce (
          plan_swap settings readings performance_of nodes t1 tickets
            (find_swap settings readings performance_of nodes threads t1 plan.migrated_tids)
            plan)
  unfolding plan_swap
  plan_swap-IsOnce threads t1 tickets plan moves away new once =
      let swap = find_swap settings readings performance_of nodes threads t1 plan.migrated_tids in
      elim (Option-cases swap) [
        | inl e ↦
            subst (λ o. IsOnce (plan_swap settings readings performance_of nodes t1 tickets o plan))
              (sym e) once
        | inr ((swap_tid, k), e) ↦
            let fresh = find_swap-fresh threads t1 plan.migrated_tids swap_tid k e in
            subst (λ o. IsOnce (plan_swap settings readings performance_of nodes t1 tickets o plan))
              (sym e)
              (swap-IsOnce t1 tickets swap_tid k plan new fresh.1 (differs swap_tid fresh.0) once)
      ]
    where
      differs :
          (u : ℕ)
          → contains u (nodes.non_idle_tids_from_node t1.dst_node) ≡ true
          → u == t1.tid ≡ false
      differs u there = elim (Bool-cases (u == t1.tid)) [
        | inl e ↦ cc (
          ap (λ i. contains i (nodes.non_idle_tids_from_node t1.dst_node)) (==→eq u t1.tid e),
          away moves,
          there,
        )
        | inr e ↦ e
      ]
