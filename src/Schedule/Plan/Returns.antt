-- ===== src/Schedule/Plan/Returns.antt =====
-- The loop that plans the migrations: it returns, and plans none of a thread twice.
use csci555_usc.Base.{
  ℕ, ◌≡◌, refl, sym, ap, subst, Bool, true, false, Bool-cases, inl, inr, ◌||◌, Option, Option-cases,
  none, some, List, [], ◌∷◌, ◌==◌, ltb, arith, length, contains, insert, Nodup, All,
}
use csci555_usc.Real.{Real}
use csci555_usc.Tickets.{Tickets, Settings}
use csci555_usc.Pages.Table.{find}
use csci555_usc.Migrations.{Readings}
use csci555_usc.Schedule.{Thread, change_node}
use csci555_usc.Schedule.Plan.{
  Nodes, Plan, find_swap, plan_simple, plan_swap, plan_tickets, plan_one, plan_from, migrations,
}
use csci555_usc.Schedule.Plan.Once.{planned, IsOnce, IsAway, simple-IsOnce, plan_swap-IsOnce}

abbrev is_some : {A : Type 0} → Option A → Bool
is_some none = false
is_some (some a) = true

-- A node has a set.
abbrev pub known : ℕ → List (ℕ × List ℕ) → Bool
known node sets = is_some (find node sets)

known-change :
    (n m : ℕ) (f : List ℕ → List ℕ) (sets : List (ℕ × List ℕ))
    → known n (change_node m f sets) ≡ (n == m || known n sets)
unfolding find change_node
known-change n m f [] = ground arith
known-change n m f ((k, tids) ∷ sets) = ground (arith, known-change n m f sets)

module _ {R : Type 0} ⦃real : Real R⦄ (settings : Settings R) (readings : Readings R)
    (performance_of : ℕ → R) (nodes : Nodes) where
  abbrev Once : Plan R → Type 0
  Once = IsOnce settings readings performance_of nodes

  abbrev Away : Thread → Type 0
  Away = IsAway settings readings performance_of nodes

  -- The nodes that threads are to go to have sets.
  abbrev pub Knows : List Thread → List (ℕ × List ℕ) → Type 0
  Knows threads sets = All (λ t. known t.dst_node sets ≡ true) threads

  -- A round ends without an exception, ready for the rest.
  abbrev Ends : List Thread → Option (Plan R) → Type 0
  Ends rest none = ⊥
  Ends rest (some plan) = Once plan × Knows rest plan.node_tid_map

  Knows-change :
      (m : ℕ) (f : List ℕ → List ℕ) (rest : List Thread) (sets : List (ℕ × List ℕ))
      → Knows rest sets
      → Knows rest (change_node m f sets)
  Knows-change m f [] sets h = tt
  Knows-change m f (t ∷ rest) sets h =
      (ground (arith, known-change t.dst_node m f sets, h.0), Knows-change m f rest sets h.1)

  plan_swap-map :
      (t1 : Thread) (tickets : Tickets R) (o : Option (ℕ × Tickets R)) (plan : Plan R)
      → (plan_swap settings readings performance_of nodes t1 tickets o plan).node_tid_map
        ≡ plan.node_tid_map
  unfolding plan_swap
  plan_swap-map t1 tickets none plan = refl
  plan_swap-map t1 tickets (some r) plan = refl

  Knows-simple :
      (t1 : Thread) (tickets : Tickets R) (rest : List Thread) (plan : Plan R)
      → Knows rest plan.node_tid_map
      → Knows rest (plan_simple settings readings performance_of nodes t1 tickets plan).node_tid_map
  unfolding plan_simple
  Knows-simple t1 tickets rest plan h =
      Knows-change t1.dst_node (insert t1.tid) rest plan.node_tid_map h

  module _ (threads : List Thread) (t1 : Thread) (plan : Plan R) where
    abbrev one : Option (Plan R)
    one = plan_one settings readings performance_of nodes threads t1 plan

    abbrev is_settled : Bool
    is_settled = t1.src_node == t1.dst_node || contains t1.tid plan.migrated_tids

    one_settled : is_settled ≡ true → one ≡ some plan
    unfolding plan_one
    one_settled h = rw (plan_one, h) refl

    one_missing : is_settled ≡ false → find t1.dst_node plan.node_tid_map ≡ none → one ≡ none
    unfolding plan_one
    one_missing h f = rw (plan_one, h, f) refl

    one_simple :
        (tids : List ℕ)
        → is_settled ≡ false
        → find t1.dst_node plan.node_tid_map ≡ some tids
        → ltb (length tids) nodes.cpus_per_node ≡ true
        → one
          ≡ some (
              plan_simple settings readings performance_of nodes t1
                (plan_tickets settings readings performance_of nodes t1 (length tids))
                plan)
    unfolding plan_one
    one_simple tids h f room = rw (plan_one, h, f, room) refl

    one_swap :
        (tids : List ℕ)
        → is_settled ≡ false
        → find t1.dst_node plan.node_tid_map ≡ some tids
        → ltb (length tids) nodes.cpus_per_node ≡ false
        → one
          ≡ some (
              plan_swap settings readings performance_of nodes t1
                (plan_tickets settings readings performance_of nodes t1 (length tids))
                (find_swap settings readings performance_of nodes threads t1 plan.migrated_tids)
                plan)
    unfolding plan_one
    one_swap tids h f full = rw (plan_one, h, f, full) refl

    plan_one-Ends :
        (rest : List Thread)
        → Away t1
        → Once plan
        → Knows (t1 ∷ rest) plan.node_tid_map
        → Ends rest one
    plan_one-Ends rest away once knows = elim (Bool-cases is_settled) [
      | inl e ↦ subst (Ends rest) (sym (one_settled e)) (once, knows.1)
      | inr e ↦ elim (Option-cases (find t1.dst_node plan.node_tid_map)) [
        | inl f ↦ cc (knows.0, ap is_some f)
        | inr (tids, f) ↦
            let tickets = plan_tickets settings readings performance_of nodes t1 (length tids) in
            let new : contains t1.tid plan.migrated_tids ≡ false = ground (arith, e) in
            let moves : t1.src_node == t1.dst_node ≡ false = ground (arith, e) in
            elim (Bool-cases (ltb (length tids) nodes.cpus_per_node)) [
              | inl room ↦ subst (Ends rest) (sym (one_simple tids e f room)) (
                simple-IsOnce settings readings performance_of nodes t1 tickets plan new once,
                Knows-simple t1 tickets rest plan knows.1,
              )
              | inr full ↦
                  let swap =
                    find_swap settings readings performance_of nodes threads t1
                      plan.migrated_tids in
                  subst (Ends rest) (sym (one_swap tids e f full)) (
                    plan_swap-IsOnce settings readings performance_of nodes threads t1 tickets plan
                        moves away new once,
                    subst (Knows rest) (sym (plan_swap-map t1 tickets swap plan)) knows.1,
                  )
            ]
      ]
    ]

  -- The loop returns a plan.
  abbrev Plans : Option (Plan R) → Type 0
  Plans o = (plan : Plan R) × (o ≡ some plan) × Once plan

  plan_from-Plans :
      (threads rest : List Thread) (plan : Plan R)
      → All Away rest
      → Once plan
      → Knows rest plan.node_tid_map
      → Plans (plan_from settings readings performance_of nodes threads rest plan)
  unfolding plan_from
  plan_from-Plans threads [] plan away once knows = (plan, refl, once)
  plan_from-Plans threads (t1 ∷ rest) plan away once knows =
      go (plan_one settings readings performance_of nodes threads t1 plan)
        (plan_one-Ends threads t1 plan rest away.0 once knows)
        (λ next. plan_from-Plans threads rest next away.1)
    where
      go :
          (o : Option (Plan R))
          → Ends rest o
          → ((next : Plan R)
              → Once next
              → Knows rest next.node_tid_map
              → Plans (plan_from settings readings performance_of nodes threads rest next))
          → Plans (elim o [
            | none ↦ none
            | some next ↦ plan_from settings readings performance_of nodes threads rest next
          ])
      go none h then_ = absurd h
      go (some next) h then_ = then_ next h.0 h.1

  -- If the nodes that the threads are to go to have sets, and no thread that is to move is among those
  -- that are now in the node it is to go to, then the planning ends without an exception, and no thread
  -- is in two of the migrations that it lists.
  pub migrations-Nodup :
      (threads : List Thread) (node_tid_map : List (ℕ × List ℕ))
      → All (IsAway settings readings performance_of nodes) threads
      → Knows threads node_tid_map
      → (plan : Plan R) × (migrations settings readings performance_of nodes threads node_tid_map
          ≡ some plan)
        × Nodup (planned plan.mig)
  unfolding migrations
  migrations-Nodup threads node_tid_map away knows =
      let start : Plan R = record { mig = []; migrated_tids = []; node_tid_map = node_tid_map } in
      let found = plan_from-Plans threads threads start away (tt, λ x. refl) knows in
      (found.0, found.1, found.2.0)
