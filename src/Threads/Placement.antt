-- ===== src/Threads/Placement.antt =====
-- Pinning a thread to a processor and the maps that say where threads are.
use csci555_usc.Base.{
  ℕ, ◌<◌, ◌≡◌, refl, ap, ◌∙◌, Bool, true, false, not, ◌&&◌, ◌||◌, some, List, [], ◌∷◌, ◌==◌, arith,
  if◌then◌else◌, get_or, length, insert, erase, Bool-cases, inl, inr, ==→eq, length-set, eq→==,
}
use csci555_usc.Pages.Table.{find, modify}
use csci555_usc.Pages.Table.History.{find-modify}
use csci555_usc.Threads.{
  Process, Kernel, System, at_index, pin, moved_to_cpu, pin_thread_to_cpu, retrieve,
}
use csci555_usc.Threads.Sets.{holds, holds-erase, holds-insert}

-- The processor of a set that was erased from `old` and inserted at `new`.
holds_moved :
    (u t : ℕ) (sets : List (List ℕ)) (old new c : ℕ)
    → new < length sets
    → holds u (at_index (at_index sets old (erase t)) new (insert t)) c
      ≡ ((holds u sets c && not (c == old && u == t)) || (c == new && u == t))
holds_moved u t sets old new c h =
    let moved = at_index sets old (erase t) in
    let h' : new < length moved =
      omega (arith, length-set sets old (erase t (get_or sets old []))) in
    ground (arith, holds-insert u t moved new c h', holds-erase u t sets old c)

module _ {K : Type 0} where
  abbrev pub pinned_if : Bool → Bool → Process → Process → K → K → Bool × Process × K
  pinned_if early failed p p' k k' =
      if early then (true, p, k) else if failed then (false, p, k') else (true, p', k')

  pinned_if_target :
      (early failed : Bool) (p p' : Process) (k k' : K) (cpu : ℕ)
      → p'.pinned_processor ≡ cpu
      → (pinned_if early failed p p' k k').0 ≡ true
      → p.pinned_processor == (pinned_if early failed p p' k k').1.pinned_processor ≡ false
      → (pinned_if early failed p p' k k').1.pinned_processor ≡ cpu
  pinned_if_target true failed p p' k k' cpu h ok other = ground arith
  pinned_if_target false true p p' k k' cpu h ok other = cc
  pinned_if_target false false p p' k k' cpu h ok other = h

module _ {K : Type 0} (kernel : Kernel K) where
  -- A process that `pin` leaves on another processor is on the one asked for.
  pin_target :
      (cpu : ℕ) (p : Process) (k : K)
      → (pin kernel cpu p k).0 ≡ true
      → p.pinned_processor == (pin kernel cpu p k).1.pinned_processor ≡ false
      → (pin kernel cpu p k).1.pinned_processor ≡ cpu
  unfolding pin
  pin_target cpu p k ok other =
      let r = kernel.set_affinity p.pid (cpu ∷ []) k in
      let q : Process = record p {
        pinned = true;
        pinned_processor = cpu;
        pinned_numa_node = kernel.numa_node_of_cpu p.processor;
      } in
      pinned_if_target (cpu == p.processor && p.pinned) (not r.0) p q k r.1 cpu refl ok other

  module _ (tid cpu : ℕ) (p q : Process) (st : System) where
    cpu_map_moved :
        (u c : ℕ)
        → cpu < length st.cpu_tid_map
        → (p.pinned_processor == q.pinned_processor ≡ false → q.pinned_processor ≡ cpu)
        → holds u (moved_to_cpu kernel tid cpu p q st).cpu_tid_map c ≡ (
            if p.pinned_processor == q.pinned_processor
            then holds u st.cpu_tid_map c
            else (holds u st.cpu_tid_map c && not (c == p.pinned_processor && u == tid))
              || (c == cpu && u == tid))
    unfolding moved_to_cpu
    cpu_map_moved u c h target = elim (Bool-cases (p.pinned_processor == q.pinned_processor)) [
      | inl e ↦ simp e refl
      | inr e ↦ simp e (holds_moved u tid st.cpu_tid_map p.pinned_processor cpu c h)
    ]

    -- A thread that is pinned to a processor of another node is taken out of the sets of both nodes,
    -- where the new node should hold it.
    pub moved_to_cpu-node_tid_map :
        (node : ℕ)
        → p.pinned_processor == q.pinned_processor ≡ false
        → get_or st.cpu_node_map p.pinned_processor 0 == get_or st.cpu_node_map cpu 0 ≡ false
        → let st' = moved_to_cpu kernel tid cpu p q st in
          (holds tid st'.node_tid_map (get_or st.cpu_node_map cpu 0) ≡ false)
          × (holds tid st'.node_tid_map node ≡ (
              holds tid st.node_tid_map node
              && not (node == get_or st.cpu_node_map p.pinned_processor 0)
              && not (node == get_or st.cpu_node_map cpu 0)))
    unfolding moved_to_cpu
    moved_to_cpu-node_tid_map node e f =
        let old_node = get_or st.cpu_node_map p.pinned_processor 0 in
        let new_node = get_or st.cpu_node_map cpu 0 in
        simp (e, f)
          (
            erased_twice st.node_tid_map old_node new_node new_node (eq→== new_node new_node refl),
            erased_both st.node_tid_map old_node new_node node,
          )
      where
        erased_both :
            (sets : List (List ℕ)) (old new n : ℕ)
            → holds tid (at_index (at_index sets old (erase tid)) new (erase tid)) n
              ≡ (holds tid sets n && not (n == old) && not (n == new))
        erased_both sets old new n = ground (
          arith,
          holds-erase tid tid (at_index sets old (erase tid)) new n,
          holds-erase tid tid sets old n,
        )

        erased_twice :
            (sets : List (List ℕ)) (old new n : ℕ)
            → n == new ≡ true
            → holds tid (at_index (at_index sets old (erase tid)) new (erase tid)) n ≡ false
        erased_twice sets old new n h = ground (arith, erased_both sets old new n)

  pub pin_thread_to_cpu_ok :
      (tid cpu : ℕ) (p : Process) (st : System) (k : K)
      → tid == 0 ≡ false
      → find tid st.processes ≡ some p
      → (pin kernel cpu p k).0 ≡ true
      → let r = pin kernel cpu p k in
        pin_thread_to_cpu kernel tid cpu st k
        ≡ some (true, moved_to_cpu kernel tid cpu p r.1 st, r.2)
  unfolding pin_thread_to_cpu retrieve
  pin_thread_to_cpu_ok tid cpu p st k nonzero found ok =
      rw (pin_thread_to_cpu, nonzero, retrieve, found, ok) refl

  pub pin_thread_to_cpu_failed :
      (tid cpu : ℕ) (p : Process) (st : System) (k : K)
      → tid == 0 ≡ false
      → find tid st.processes ≡ some p
      → (pin kernel cpu p k).0 ≡ false
      → pin_thread_to_cpu kernel tid cpu st k ≡ some (false, st, (pin kernel cpu p k).2)
  unfolding pin_thread_to_cpu retrieve
  pin_thread_to_cpu_failed tid cpu p st k nonzero found failed =
      rw (pin_thread_to_cpu, nonzero, retrieve, found, failed) refl

  pub processes_moved :
      (tid cpu : ℕ) (p q : Process) (st : System)
      → (moved_to_cpu kernel tid cpu p q st).processes ≡ modify tid (λ _. q) st.processes
  unfolding moved_to_cpu
  processes_moved tid cpu p q st = elim (Bool-cases (p.pinned_processor == q.pinned_processor)) [
    | inl e ↦ simp e refl
    | inr e ↦ simp e refl
  ]

  pub find_moved_self :
      (tid cpu : ℕ) (p q : Process) (st : System) (x : Process)
      → find tid st.processes ≡ some x
      → find tid (moved_to_cpu kernel tid cpu p q st).processes ≡ some q
  find_moved_self tid cpu p q st x found =
      let m = find-modify tid tid (λ _. q) st.processes in
      let m' = rw (eq→== tid tid refl, found) at m in
      ap (find tid) (processes_moved tid cpu p q st) ∙ m'

  pub find_moved_other :
      (u tid cpu : ℕ) (p q : Process) (st : System)
      → u == tid ≡ false
      → find u (moved_to_cpu kernel tid cpu p q st).processes ≡ find u st.processes
  find_moved_other u tid cpu p q st h =
      let m = find-modify u tid (λ _. q) st.processes in
      let m' = rw h at m in ap (find u) (processes_moved tid cpu p q st) ∙ m'

  -- Pinning a known thread to a processor, where the call succeeds and the thread was in the set of
  -- its pinned processor alone: the thread is afterwards in the set of its pinned processor alone,
  -- and every other thread is where it was.
  pub pin_thread_to_cpu-cpu_tid_map :
      (tid cpu u c : ℕ) (p : Process) (st : System) (k : K)
      → tid == 0 ≡ false
      → find tid st.processes ≡ some p
      → cpu < length st.cpu_tid_map
      → (pin kernel cpu p k).0 ≡ true
      → ((d : ℕ) → holds tid st.cpu_tid_map d ≡ (d == p.pinned_processor))
      → let r = pin kernel cpu p k in
        let st' = moved_to_cpu kernel tid cpu p r.1 st in
        (pin_thread_to_cpu kernel tid cpu st k ≡ some (true, st', r.2))
        × (holds tid st'.cpu_tid_map c ≡ (c == r.1.pinned_processor))
        × (holds u st'.cpu_tid_map c
            ≡ (if u == tid then c == r.1.pinned_processor else holds u st.cpu_tid_map c))
  pin_thread_to_cpu-cpu_tid_map tid cpu u c p st k nonzero found h ok placed =
      let q = (pin kernel cpu p k).1 in
      let target = pin_target cpu p k ok in
      let own = cpu_map_moved tid cpu p q st tid c h target in
      let other = cpu_map_moved tid cpu p q st u c h target in
      (
        pin_thread_to_cpu_ok tid cpu p st k nonzero found ok,
        ground (arith, own, placed c, target),
        ground (arith, own, other, placed c, target, ==→eq u tid),
      )
