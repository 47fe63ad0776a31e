-- ===== src/Balance/Rounds.antt =====
-- One round of move_to_less_busy_cpu from a processor whose threads run where they are pinned.
use csci555_usc.Base.{
  ℕ, suc, ◌+◌, ◌≤◌, ◌≡◌, refl, ap, ◌∙◌, ◌⊎◌, inl, inr, Bool, true, false, Bool-cases, Option, none,
  some, List, [], ◌∷◌, ◌==◌, arith, get_or, length, contains, insert, erase, contains-erase, ==→eq,
}
use csci555_usc.Real.{Real}
use csci555_usc.Tickets.{Settings}
use csci555_usc.Pages.Table.{find}
use csci555_usc.Threads.{Process, Kernel, System, at_index, pin, moved_to_cpu, retrieve}
use csci555_usc.Threads.Placement.{find_moved_other}
use csci555_usc.Threads.Repins.{pin-pinned_processor}
use csci555_usc.Threads.Cells.{migrate, migrate_single, migrate_one_ok, migrate_one_failed}
use csci555_usc.Migrations.{MigrationCell, Readings}
use csci555_usc.Balance.{
  Topology, Run, returned, Moves, first_tid, tids_of, cpu_cell, closest_less_busy_cpu,
}
use csci555_usc.Balance.Closest.{IsLessBusy}
use csci555_usc.Balance.Moving.{loop, loop_failed}
use csci555_usc.Balance.Shrinking.{moved_set}

pub known_thread :
    {K : Type 0} (kernel : Kernel K) (t : ℕ) (p : Process) (st : System)
    → find t st.processes ≡ some p
    → retrieve kernel t st ≡ some (p, st)
unfolding retrieve
known_thread kernel t p st h = rw (retrieve, h) refl

pub not_itself :
    (tids : ℕ → ℕ) (limit src : ℕ) (places : List ℕ) (d : ℕ)
    → IsLessBusy tids limit src places (some d)
    → src == d ≡ false
not_itself tids limit src places d h = elim (Bool-cases (src == d)) [
  | inl e ↦ absurd (omega (arith, ap tids (==→eq src d e), h.0))
  | inr e ↦ e
]

module _ {R K : Type 0} ⦃real : Real R⦄ (kernel : Kernel K) (settings : Settings R)
    (topology : Topology) (readings : Readings R) (ignore_idle : Bool) (src limit : ℕ) where
  abbrev pub tids_here : System → List ℕ
  tids_here st = tids_of readings.is_idle st.cpu_tid_map src ignore_idle

  abbrev pub closest : System → Option ℕ
  closest = closest_less_busy_cpu topology readings.is_idle ignore_idle src limit

  -- A thread of the processor is known, is pinned to it and was last seen there.
  abbrev pub IsHome : System → Type 0
  IsHome st =
      (t : ℕ)
      → contains t (get_or st.cpu_tid_map src []) ≡ true
      → (t == 0 ≡ false)
        × ((p : Process) × (find t st.processes ≡ some p)
            × (p.pinned_processor ≡ src)
            × (p.processor ≡ src))

  map_moved :
      (t dst : ℕ) (p q : Process) (st : System)
      → p.pinned_processor == q.pinned_processor ≡ false
      → (moved_to_cpu kernel t dst p q st).cpu_tid_map
        ≡ at_index (at_index st.cpu_tid_map p.pinned_processor (erase t)) dst (insert t)
  unfolding moved_to_cpu
  map_moved t dst p q st h = simp h refl

  module _ (t dst : ℕ) (p : Process) (st : System) (k : K) where
    abbrev pub moved : System
    moved = moved_to_cpu kernel t dst p (pin kernel dst p k).1 st

    -- What a migration that succeeds does to the processor.
    pub set_moved :
        src == dst ≡ false
        → p.pinned_processor ≡ src
        → p.processor ≡ src
        → (pin kernel dst p k).0 ≡ true
        → get_or moved.cpu_tid_map src [] ≡ erase t (get_or st.cpu_tid_map src [])
    set_moved apart here ran ok =
        let elsewhere : dst == p.processor ≡ false = ground (arith, apart, ran) in
        let target = pin-pinned_processor kernel dst p k elsewhere ok in
        let changed : p.pinned_processor == (pin kernel dst p k).1.pinned_processor ≡ false =
          simp (here, target) apart in
        ap (λ sets. get_or sets src []) (map_moved t dst p (pin kernel dst p k).1 st changed)
        ∙ ap (λ i. get_or (at_index (at_index st.cpu_tid_map i (erase t)) dst (insert t)) src [])
            here
        ∙ moved_set st.cpu_tid_map src dst t apart

    pub moved-IsHome :
        get_or moved.cpu_tid_map src [] ≡ erase t (get_or st.cpu_tid_map src [])
        → IsHome st
        → IsHome moved
    moved-IsHome same home u h =
        let there : contains u (erase t (get_or st.cpu_tid_map src [])) ≡ true = rw same at h in
        let split = contains-erase t u (get_or st.cpu_tid_map src []) in
        let apart : u == t ≡ false = ground (arith, split, there) in
        let was = home u (ground (arith, split, there)) in
        let same_process = find_moved_other kernel u t dst p (pin kernel dst p k).1 st apart in
        (was.0, (was.1.0, same_process ∙ was.1.1, was.1.2, was.1.3))

  -- Why the loop may end: the processor has no more threads than its share, nothing is less busy, or
  -- an affinity could not be set.
  abbrev pub Ended : System → Type 0
  Ended st =
      (length (tids_here st) ≤ limit)
      ⊎ ((closest st ≡ none)
          ⊎ ((dst : ℕ) × (p : Process) × (k : K) × ((pin kernel dst p k).0 ≡ false)))

  -- The loop returns; each thread that left the processor is a migration that is kept.
  abbrev pub Returns : ℕ → System → Run (Moves kernel settings) → Type 0
  Returns total st run =
      (migrations : List (MigrationCell R)) × (st' : System) × (k : K) × (run
        ≡ returned (migrations, st', k))
      × (length migrations + length (tids_here st') ≡ total + length (tids_here st))
      × Ended st'

  abbrev pub rounds : ℕ → List (MigrationCell R) → System → K → Run (Moves kernel settings)
  rounds n migrations st k =
      loop kernel settings tids_here closest
        (cpu_cell kernel settings topology readings 0 ignore_idle src) limit n (tids_here st)
        migrations st k

  module _ (n : ℕ) (migrations : List (MigrationCell R)) (st : System) (k : K) where
    -- A round whose affinity cannot be set.
    pub round_failed :
        (t dst : ℕ) (p : Process)
        → first_tid (tids_here st) ≡ some t
        → closest st ≡ some dst
        → t == 0 ≡ false
        → find t st.processes ≡ some p
        → (pin kernel dst p k).0 ≡ false
        → rounds (suc n) migrations st k ≡ returned (migrations, st, (pin kernel dst p k).2)
    round_failed t dst p first to nonzero found failed =
        let c = cpu_cell kernel settings topology readings 0 ignore_idle src t p dst in
        loop_failed kernel settings tids_here closest
          (cpu_cell kernel settings topology readings 0 ignore_idle src) limit n (tids_here st)
          migrations st k t dst p st (pin kernel dst p k).2 first to
          (known_thread kernel t p st found)
          (migrate_single kernel false c st st k (pin kernel dst p k).2
            (migrate_one_failed kernel c p st k refl nonzero found failed))

    pub migrated :
        (t dst : ℕ) (p : Process)
        → t == 0 ≡ false
        → find t st.processes ≡ some p
        → (pin kernel dst p k).0 ≡ true
        → migrate kernel
            (cpu_cell kernel settings topology readings 0 ignore_idle src t p dst ∷ [])
            st
            k
          ≡ some (true, moved t dst p st k, (pin kernel dst p k).2)
    migrated t dst p nonzero found ok =
        let c = cpu_cell kernel settings topology readings 0 ignore_idle src t p dst in
        migrate_single kernel true c st (moved t dst p st k) k (pin kernel dst p k).2
          (migrate_one_ok kernel c p st k refl nonzero found ok)
