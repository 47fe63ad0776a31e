-- ===== src/Threads/Pinning.antt =====
-- Pinning all threads to processors.
use csci555_usc.Base.{
  ℕ, ◌<◌, ◌≡◌, refl, ◌∙◌, Bool, true, false, not, ◌&&◌, ◌||◌, ◌⊎◌, inl, inr, Bool-cases, List, [],
  ◌∷◌, ◌==◌, if◌then◌else◌, length, length-set, All, contains, map, Nodup, arith,
}
use csci555_usc.Threads.{
  Process, Kernel, System, pin, unpin, pin_process_to_cpu, unpin_thread, pin_children,
  pin_threads_cpu,
}
use csci555_usc.Threads.Sets.{holds, holds-erase, holds-insert}
use csci555_usc.Threads.Placement.{pinned_if}

pinned_if_same :
    {K : Type 0} (early failed : Bool) (p q : Process) (k k' : K)
    → q.pinned_processor ≡ p.pinned_processor
    → (pinned_if early failed p q k k').1.pinned_processor ≡ p.pinned_processor
pinned_if_same true failed p q k k' h = refl
pinned_if_same false true p q k k' h = refl
pinned_if_same false false p q k k' h = h

module _ {K : Type 0} (kernel : Kernel K) where
  -- Pinning a process where it is pinned leaves it there.
  pin_same :
      (p : Process) (k : K)
      → (pin kernel p.pinned_processor p k).1.pinned_processor ≡ p.pinned_processor
  unfolding pin
  pin_same p k =
      let r = kernel.set_affinity p.pid (p.pinned_processor ∷ []) k in
      let q : Process = record p {
        pinned = true;
        pinned_processor = p.pinned_processor;
        pinned_numa_node = kernel.numa_node_of_cpu p.processor;
      } in
      pinned_if_same (p.pinned_processor == p.processor && p.pinned) (not r.0) p q k r.1 refl

  pin_process_holds :
      (p : Process) (st : System) (k : K) (u c : ℕ)
      → p.pinned_processor < length st.cpu_tid_map
      → let r = pin_process_to_cpu kernel p st k in
        (length r.1.cpu_tid_map ≡ length st.cpu_tid_map)
        × (holds u r.1.cpu_tid_map c ≡ (
            if r.0
            then holds u st.cpu_tid_map c || (c == p.pinned_processor && u == p.pid)
            else holds u st.cpu_tid_map c))
  unfolding pin_process_to_cpu
  pin_process_holds p st k u c h = elim (Bool-cases (pin kernel p.pinned_processor p k).0) [
    | inl e ↦
        let same = pin_same p k in
        simp (e, same)
          (
            length-set st.cpu_tid_map p.pinned_processor _,
            holds-insert u p.pid st.cpu_tid_map p.pinned_processor c h,
          )
    | inr e ↦ simp e (refl, refl)
  ]

  unpin_holds :
      (p : Process) (st : System) (k : K) (u c : ℕ)
      → let r = unpin_thread kernel p st k in
        (length r.1.cpu_tid_map ≡ length st.cpu_tid_map)
        × (u == p.pid ≡ false → holds u r.1.cpu_tid_map c ≡ holds u st.cpu_tid_map c)
  unfolding unpin_thread
  unpin_holds p st k u c = elim (Bool-cases (unpin kernel p k).0) [
    | inl e ↦ simp e (
      length-set st.cpu_tid_map p.pinned_processor _,
      λ h. ground (arith, holds-erase u p.pid st.cpu_tid_map p.pinned_processor c, h),
    )
    | inr e ↦ simp e (refl, λ h. refl)
  ]

  -- One round of the loop over the children.
  abbrev round : Bool → Process → System → K → Bool × System × K
  round ignore_idle p st k =
      if ignore_idle && p.idle then unpin_thread kernel p st k else pin_process_to_cpu kernel p st k

  -- A round keeps the number of sets and where the other threads are, and a round that pins its own
  -- process and succeeds has put it where it is pinned.
  round_lem :
      (ignore_idle : Bool) (p : Process) (st : System) (k : K) (u c : ℕ)
      → p.pinned_processor < length st.cpu_tid_map
      → let r = round ignore_idle p st k in
        (length r.1.cpu_tid_map ≡ length st.cpu_tid_map)
        × (u == p.pid ≡ false → holds u r.1.cpu_tid_map c ≡ holds u st.cpu_tid_map c)
        × (ignore_idle && p.idle ≡ false
            → r.0 ≡ true
            → holds p.pid r.1.cpu_tid_map p.pinned_processor ≡ true)
  round_lem ignore_idle p st k u c h = elim (Bool-cases (ignore_idle && p.idle)) [
    | inl e ↦ let un = unpin_holds p st k u c in simp e (un.0, un.1, λ busy ok. cc busy)
    | inr e ↦
        let other = pin_process_holds p st k u c h in
        let own = pin_process_holds p st k p.pid p.pinned_processor h in
        let r = pin_process_to_cpu kernel p st k in
        simp e
          (other.0, λ apart. ground (arith, other.1, apart), λ busy ok. ground (arith, own.1, ok))
  ]

  module _ (ignore_idle : Bool) where
    abbrev pinned_all : List Process → Bool → System → K → Bool × System × K
    pinned_all = pin_children kernel (pin_process_to_cpu kernel) ignore_idle

    abbrev InRange : List Process → System → Type 0
    InRange ps st = All (λ p. p.pinned_processor < length st.cpu_tid_map) ps

    abbrev Resized : System → System → Type 0
    Resized st st' = length st'.cpu_tid_map ≡ length st.cpu_tid_map

    InRange-after :
        (ps : List Process) (st st' : System) → Resized st st' → InRange ps st → InRange ps st'
    InRange-after [] st st' e h = tt
    InRange-after (p ∷ ps) st st' e h = (omega (arith, e, h.0), InRange-after ps st st' e h.1)

    flag_kept :
        (ps : List Process) (success : Bool) (st : System) (k : K)
        → (pinned_all ps success st k).0 ≡ true
        → success ≡ true
    unfolding pin_children
    flag_kept [] success st k h = h
    flag_kept (p ∷ ps) success st k h =
        let r = round ignore_idle p st k in
        let both = flag_kept ps (success && r.0) r.1 r.2 h in ground (arith, both)

    others_kept :
        (ps : List Process) (success : Bool) (st : System) (k : K) (u c : ℕ)
        → InRange ps st
        → contains u (map (λ p. p.pid) ps) ≡ false
        → holds u (pinned_all ps success st k).1.cpu_tid_map c ≡ holds u st.cpu_tid_map c
    unfolding pin_children
    others_kept [] success st k u c h out = refl
    others_kept (p ∷ ps) success st k u c h out =
        let r = round ignore_idle p st k in
        let one = round_lem ignore_idle p st k u c h.0 in
        let rest =
          others_kept ps (success && r.0) r.1 r.2 u c (InRange-after ps st r.1 one.0 h.1)
            (ground (arith, out)) in
        rest ∙ one.1 (ground (arith, out))

    -- The process is idle and idle ones are ignored, or it is in the set of its processor.
    abbrev pub IsPlaced : System → Process → Type 0
    IsPlaced st p =
        (ignore_idle && p.idle ≡ true) ⊎ (holds p.pid st.cpu_tid_map p.pinned_processor ≡ true)

    children-IsPlaced :
        (ps : List Process) (success : Bool) (st : System) (k : K)
        → InRange ps st
        → Nodup (map (λ p. p.pid) ps)
        → (pinned_all ps success st k).0 ≡ true
        → All (IsPlaced (pinned_all ps success st k).1) ps
    unfolding pin_children
    children-IsPlaced [] success st k h d ok = tt
    children-IsPlaced (p ∷ ps) success st k h d ok =
        let r = round ignore_idle p st k in
        let one = round_lem ignore_idle p st k p.pid p.pinned_processor h.0 in
        let in_range = InRange-after ps st r.1 one.0 h.1 in
        let fine : r.0 ≡ true = ground (arith, flag_kept ps (success && r.0) r.1 r.2 ok) in
        let kept = others_kept ps (success && r.0) r.1 r.2 p.pid p.pinned_processor in_range d.0 in
        (
          elim (Bool-cases (ignore_idle && p.idle)) [
            | inl idle ↦ inl idle
            | inr busy ↦ inr (kept ∙ one.2 busy fine)
          ],
          children-IsPlaced ps (success && r.0) r.1 r.2 in_range d.1 ok,
        )

    -- If pinning all threads to processors reports success, for threads of different numbers that are
    -- pinned to processors of the machine, each child is afterwards in the set of the processor it is
    -- pinned to, or is idle and was to be left out.
    pub pin_threads_cpu-IsPlaced :
        (root : Process) (children : List Process) (st : System) (k : K)
        → root.pinned_processor < length st.cpu_tid_map
        → All (λ p. p.pinned_processor < length st.cpu_tid_map) children
        → Nodup (map (λ p. p.pid) children)
        → (pin_threads_cpu kernel ignore_idle root children st k).0 ≡ true
        → All (IsPlaced (pin_threads_cpu kernel ignore_idle root children st k).1) children
    unfolding pin_threads_cpu
    pin_threads_cpu-IsPlaced root children st k h hs d ok =
        let r = pin_process_to_cpu kernel root st k in
        let one = pin_process_holds root st k 0 0 h in
        children-IsPlaced children r.0 r.1 r.2 (InRange-after children st r.1 one.0 hs) d ok
