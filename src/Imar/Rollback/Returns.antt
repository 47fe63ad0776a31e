-- ===== src/Imar/Rollback/Returns.antt =====
-- The pinning of threads, the migrations and their undoing raise no exception, if reading a process
-- raises none (`process_tree::insert`).
use csci555_usc.Base.{
  ℕ, ◌≡◌, ◌==◌, ◌+◌, ◌++◌, refl, inl, inr, Bool, true, false, Bool-cases, ◌&&◌, Option, none, some,
  List, [], ◌∷◌, map, if◌then◌else◌,
}
use csci555_usc.Real.{Real}
use csci555_usc.Pages.Table.{find}
use csci555_usc.Threads.{
  Process, Kernel, System, retrieve, pin, pin_node, pin_thread_to_cpu, pin_thread_to_node,
}
use csci555_usc.Threads.Cells.{SimpleCell, swap, migrate_one, migrate_from, migrate}
use csci555_usc.Migrations.{MigrationCell, History, undo_from, undo_last_migrations}
use csci555_usc.Lbma.{perform}

abbrev pub IsSome : {A : Type 0} → Option A → Type 0
IsSome none = ⊥
IsSome (some a) = Unit

pub IsSome-elim : {A : Type 0} (o : Option A) → IsSome o → (a : A) × (o ≡ some a)
IsSome-elim none h = absurd h
IsSome-elim (some a) h = (a, refl)

module _ {K : Type 0} (kernel : Kernel K)
    (inserts : (pid : ℕ) (processes : List (ℕ × Process))
      → IsSome (kernel.insert_process pid processes)) where
  retrieve-IsSome : (tid : ℕ) (st : System) → IsSome (retrieve kernel tid st)
  unfolding retrieve
  retrieve-IsSome tid st =
      go (find tid st.processes) (kernel.insert_process tid st.processes) (inserts tid st.processes)
    where
      go :
          (o : Option Process) (i : Option (Process × List (ℕ × Process)))
          → IsSome i
          → IsSome {A = Process × System} (elim o [
            | some p ↦ some (p, st)
            | none ↦ elim i [
              | none ↦ none
              | some (p, processes) ↦ some (p, record st { processes = processes })
            ]
          ])
      go none none h = h
      go none (some r) h = tt
      go (some p) i h = tt

  pin_thread_to_cpu-IsSome :
      (tid cpu : ℕ) (st : System) (k : K) → IsSome (pin_thread_to_cpu kernel tid cpu st k)
  unfolding pin_thread_to_cpu
  pin_thread_to_cpu-IsSome tid cpu st k =
      let r = IsSome-elim (retrieve kernel tid st) (retrieve-IsSome tid st) in
      elim (Bool-cases (tid == 0)) [
        | inl e ↦ simp e tt
        | inr e ↦ elim (Bool-cases (pin kernel cpu r.0.0 k).0) [
          | inl f ↦ simp (e, r.1, f) tt
          | inr f ↦ simp (e, r.1, f) tt
        ]
      ]

  pin_thread_to_node-IsSome :
      (tid node : ℕ) (st : System) (k : K) → IsSome (pin_thread_to_node kernel tid node st k)
  unfolding pin_thread_to_node
  pin_thread_to_node-IsSome tid node st k =
      let r = IsSome-elim (retrieve kernel tid st) (retrieve-IsSome tid st) in
      elim (Bool-cases (tid == 0)) [
        | inl e ↦ simp e tt
        | inr e ↦ elim (Bool-cases (pin_node kernel node r.0.0 k).0) [
          | inl f ↦ simp (e, r.1, f) tt
          | inr f ↦ simp (e, r.1, f) tt
        ]
      ]

module _ {R K : Type 0} ⦃real : Real R⦄ (kernel : Kernel K)
    (inserts : (pid : ℕ) (processes : List (ℕ × Process))
      → IsSome (kernel.insert_process pid processes)) where
  migrate_one-IsSome : (c : SimpleCell R) (st : System) (k : K) → IsSome (migrate_one kernel c st k)
  unfolding migrate_one
  migrate_one-IsSome c st k = elim (Bool-cases c.node) [
    | inl e ↦ simp e (pin_thread_to_node-IsSome kernel inserts c.tid c.dest st k)
    | inr e ↦ simp e (pin_thread_to_cpu-IsSome kernel inserts c.tid c.dest st k)
  ]

  migrate_from-IsSome :
      (cs : List (SimpleCell R)) (success : Bool) (st : System) (k : K)
      → IsSome (migrate_from kernel cs success st k)
  unfolding migrate_from
  migrate_from-IsSome [] success st k = tt
  migrate_from-IsSome (c ∷ cs) success st k =
      go (migrate_one kernel c st k) (migrate_one-IsSome c st k)
        (λ b s j. migrate_from-IsSome cs b s j)
    where
      go :
          (o : Option (Bool × System × K))
          → IsSome o
          → ((b : Bool) (s : System) (j : K) → IsSome (migrate_from kernel cs b s j))
          → IsSome
              (elim o [ none ↦ none | some r ↦ migrate_from kernel cs (success && r.0) r.1 r.2 ])
      go none h ih = h
      go (some r) h ih = ih (success && r.0) r.1 r.2

  migrate-IsSome :
      (cs : List (SimpleCell R)) (st : System) (k : K) → IsSome (migrate kernel cs st k)
  unfolding migrate
  migrate-IsSome cs st k = migrate_from-IsSome cs true st k

  module _ (invalid_value : R) (performance_of : System → ℕ → R) where
    open real use {lt, of_nat}

    undo_from-IsSome :
        (only_bad : Bool) (last : List (MigrationCell R)) (undone : ℕ) (st : System) (k : K)
        → IsSome (undo_from kernel invalid_value performance_of only_bad last undone st k)
    unfolding undo_from
    undo_from-IsSome only_bad [] undone st k = tt
    undo_from-IsSome only_bad (m ∷ last) undone st k =
        go _ (migrate kernel (map swap m.migrations) st k)
          (migrate-IsSome (map swap m.migrations) st k)
          (λ n s j. undo_from-IsSome only_bad last n s j)
      where
        go :
            (b : Bool) (o : Option (Bool × System × K))
            → IsSome o
            → ((n : ℕ) (s : System) (j : K)
                → IsSome (undo_from kernel invalid_value performance_of only_bad last n s j))
            → IsSome (elim b [
              | true ↦ elim o [
                | none ↦ none
                | some q ↦
                    undo_from kernel invalid_value performance_of only_bad last
                      (if q.0 then undone + 1 else undone)
                      q.1
                      q.2
              ]
              | false ↦ undo_from kernel invalid_value performance_of only_bad last undone st k
            ])
        go true none h ih = h
        go true (some q) h ih = ih _ q.1 q.2
        go false o h ih = ih undone st k

    pub undo_last_migrations-IsSome :
        (only_bad : Bool) (h : History R) (st : System) (k : K)
        → IsSome (undo_last_migrations kernel invalid_value performance_of only_bad h st k)
    unfolding undo_last_migrations
    undo_last_migrations-IsSome only_bad h st k =
        go
          (undo_from kernel invalid_value performance_of only_bad h.last_migrations
            h.total_migrations_undone st k)
          (undo_from-IsSome only_bad h.last_migrations h.total_migrations_undone st k)
      where
        go :
            (o : Option (ℕ × System × K))
            → IsSome o
            → IsSome {A = History R × System × K} (elim o [
              | none ↦ none
              | some r ↦
                  some (record h { last_migrations = []; total_migrations_undone = r.0 }, r.1, r.2)
            ])
        go none i = i
        go (some r) i = tt

    pub perform-IsSome :
        (ms : List (MigrationCell R)) (h : History R) (st : System) (k : K)
        → IsSome (perform kernel invalid_value performance_of ms h st k)
    unfolding perform
    perform-IsSome [] h st k = tt
    perform-IsSome (m ∷ ms) h st k =
        go (migrate kernel m.migrations st k) (migrate-IsSome m.migrations st k)
          (λ s j. perform-IsSome ms next s j)
      where
        next : History R
        next = record h {
          total_migrations = h.total_migrations + 1;
          last_migrations = h.last_migrations ++ m ∷ [];
        }

        go :
            (o : Option (Bool × System × K))
            → IsSome o
            → ((s : System) (j : K)
                → IsSome (perform kernel invalid_value performance_of ms next s j))
            → IsSome (elim o [
              | none ↦ none
              | some q ↦
                  if q.0
                  then perform kernel invalid_value performance_of ms next q.1 q.2
                  else undo_last_migrations kernel invalid_value performance_of false h q.1 q.2
            ])
        go none i ih = i
        go (some (true, s, j)) i ih = ih s j
        go (some (false, s, j)) i ih = undo_last_migrations-IsSome false h s j
