-- ===== src/Rm3d/Current.antt =====
-- Which performances are those of the counters.
use csci555_usc.Base.{
  ℕ, ◌+◌, ◌*◌, ◌/◌, ◌<◌, ◌≡◌, refl, sym, ap, ◌∙◌, inl, inr, Bool, true, false, Bool-cases, ◌||◌,
  List, [], ◌∷◌, ◌==◌, arith, if◌then◌else◌, get_or, set, length, length-set, get_or-set_self,
  get_or-set_ne, Elem, ==→eq, eq→==,
}
use csci555_usc.Real.{Real}
use csci555_usc.Machine.{Machine}
use csci555_usc.Pages.Row.{Sample}
use csci555_usc.Rm3d.{
  Rm3d, add_memory, ops_per_second, ops_per_byte, av_latency, perf_of, calc_perf_node, calc_perf,
}

module _ {R : Type 0} ⦃real : Real R⦄ (minimum_latency cache_line_size : ℕ) (invalid_value : R)
    (now : ℕ) where
  abbrev calc_node : ℕ → Rm3d R → Rm3d R
  calc_node = calc_perf_node minimum_latency cache_line_size invalid_value now

  abbrev pub calc : List ℕ → Rm3d R → Rm3d R
  calc = calc_perf minimum_latency cache_line_size invalid_value now

  abbrev no_data : ℕ → Rm3d R → Bool
  no_data node r = get_or r.times node 0 == 0 || get_or r.total_reqs node 0 == 0

  -- The performance that the counters of a node give.
  abbrev pub perf_now : ℕ → Rm3d R → R
  perf_now node r =
      if no_data node r
      then invalid_value
      else perf_of minimum_latency cache_line_size invalid_value
          (ops_per_second minimum_latency cache_line_size invalid_value node r)
          (ops_per_byte minimum_latency cache_line_size invalid_value node r)
          (av_latency minimum_latency cache_line_size invalid_value node r)

  -- The counters of two records are the same.
  abbrev SameCounters : Rm3d R → Rm3d R → Type 0
  SameCounters r s =
      (s.flops ≡ r.flops)
      × (s.inst ≡ r.inst)
      × (s.total_reqs ≡ r.total_reqs)
      × (s.times ≡ r.times)
      × (s.mean_lat ≡ r.mean_lat)

  -- What the performance of one node does to the records.
  calc_node_lem :
      (node : ℕ) (r : Rm3d R)
      → let s = calc_node node r in
        (s.perfs ≡ set r.perfs node (perf_now node r))
        × SameCounters r s
        × ((other : ℕ)
            → other == node ≡ false
            → get_or s.perfs_update other false ≡ get_or r.perfs_update other false)
  unfolding calc_perf_node
  calc_node_lem node r = elim (Bool-cases (no_data node r)) [
    | inl e ↦ simp e (refl, (refl, refl, refl, refl, refl), λ other h. refl)
    | inr e ↦ simp e (
      refl,
      (refl, refl, refl, refl, refl),
      λ other h.
          get_or-set_ne r.perfs_update node other false false
            (λ same. cc (eq→== other node (sym same), h)),
    )
  ]

  perf_now_same : (node : ℕ) (r s : Rm3d R) → SameCounters r s → perf_now node s ≡ perf_now node r
  unfolding ops_per_second ops_per_byte av_latency
  perf_now_same node r s same = simp (same.0, same.1, same.2, same.3, same.4) refl

  -- One round of the loop over the nodes.
  abbrev round : ℕ → Rm3d R → Rm3d R
  round node r = if get_or r.perfs_update node false then calc_node node r else r

  same_node :
      (a b : ℕ) (r : Rm3d R) → a ≡ b → get_or r.perfs_update a false ≡ get_or r.perfs_update b false
  same_node a b r e = ap (λ n. get_or r.perfs_update n false) e

  -- A round at another node leaves the performance and the flag of a node.
  round_other :
      (node n : ℕ) (r : Rm3d R)
      → node == n ≡ false
      → let s = round n r in
        (get_or s.perfs node invalid_value ≡ get_or r.perfs node invalid_value)
        × (get_or s.perfs_update node false ≡ get_or r.perfs_update node false)
        × (length s.perfs ≡ length r.perfs)
        × SameCounters r s
  round_other node n r apart = elim (Bool-cases (get_or r.perfs_update n false)) [
    | inl e ↦
        let one = calc_node_lem n r in
        simp e (
          ap (λ l. get_or l node invalid_value) one.0
              ∙ get_or-set_ne r.perfs n node (perf_now n r) invalid_value
                  (λ same. cc (eq→== node n (sym same), apart)),
          one.2 node apart,
          ap length one.0 ∙ length-set r.perfs n (perf_now n r),
          one.1,
        )
    | inr e ↦ simp e (refl, refl, refl, (refl, refl, refl, refl, refl))
  ]

  -- A round at a node whose flag is set.
  round_here :
      (node : ℕ) (r : Rm3d R)
      → get_or r.perfs_update node false ≡ true
      → node < length r.perfs
      → let s = round node r in
        (get_or s.perfs node invalid_value ≡ perf_now node r)
        × (length s.perfs ≡ length r.perfs)
        × SameCounters r s
  round_here node r flag inside =
      let one = calc_node_lem node r in
      simp flag (
        ap (λ l. get_or l node invalid_value) one.0
            ∙ get_or-set_self r.perfs node (perf_now node r) invalid_value inside,
        ap length one.0 ∙ length-set r.perfs node (perf_now node r),
        one.1,
      )

  -- A performance whose flag is not set stays as it is.
  pub calc_unflagged :
      (node : ℕ) (nodes : List ℕ) (r : Rm3d R)
      → get_or r.perfs_update node false ≡ false
      → get_or (calc nodes r).perfs node invalid_value ≡ get_or r.perfs node invalid_value
  unfolding calc_perf
  calc_unflagged node [] r off = refl
  calc_unflagged node (n ∷ nodes) r off = elim (Bool-cases (node == n)) [
    | inl e ↦
        let off' : get_or r.perfs_update n false ≡ false =
          same_node n node r (sym (==→eq node n e)) ∙ off in
        simp off' (calc_unflagged node nodes r off)
    | inr e ↦
        let one = round_other node n r e in
        calc_unflagged node nodes (round n r) (one.1 ∙ off) ∙ one.0
  ]

  -- A performance that is that of the counters stays so.
  calc_kept :
      (node : ℕ) (nodes : List ℕ) (r : Rm3d R)
      → node < length r.perfs
      → get_or r.perfs node invalid_value ≡ perf_now node r
      → get_or (calc nodes r).perfs node invalid_value ≡ perf_now node r
  unfolding calc_perf
  calc_kept node [] r inside h = h
  calc_kept node (n ∷ nodes) r inside h = elim (Bool-cases (node == n)) [
    | inl e ↦ elim (Bool-cases (get_or r.perfs_update node false)) [
      | inl flag ↦
          let one = round_here node r flag inside in
          let same = perf_now_same node r (round node r) one.2 in
          ap (λ i. get_or (calc nodes (round i r)).perfs node invalid_value) (sym (==→eq node n e))
          ∙ calc_kept node nodes (round node r) (omega (arith, one.1, inside)) (one.0 ∙ sym same)
          ∙ same
      | inr off ↦
          let off' : get_or r.perfs_update n false ≡ false =
            same_node n node r (sym (==→eq node n e)) ∙ off in
          simp off' (calc_kept node nodes r inside h)
    ]
    | inr e ↦
        let one = round_other node n r e in
        let same = perf_now_same node r (round n r) one.3 in
        calc_kept node nodes (round n r) (omega (arith, one.2, inside)) (one.0 ∙ h ∙ sym same)
        ∙ same
  ]

  -- For a node of the machine that new samples have flagged, the computation gives it the performance
  -- of its counters, or the invalid one if it has no time or no requests.
  pub calc_perf-perf_now :
      (node : ℕ) (nodes : List ℕ) (r : Rm3d R)
      → Elem node nodes
      → node < length r.perfs
      → get_or r.perfs_update node false ≡ true
      → get_or (calc nodes r).perfs node invalid_value ≡ perf_now node r
  unfolding calc_perf
  calc_perf-perf_now node [] r there inside flag = absurd there
  calc_perf-perf_now node (n ∷ nodes) r there inside flag = elim (Bool-cases (node == n)) [
    | inl e ↦
        let one = round_here node r flag inside in
        let same = perf_now_same node r (round node r) one.2 in
        ap (λ i. get_or (calc nodes (round i r)).perfs node invalid_value) (sym (==→eq node n e))
        ∙ calc_kept node nodes (round node r) (omega (arith, one.1, inside)) (one.0 ∙ sym same)
        ∙ same
    | inr e ↦
        let one = round_other node n r e in
        let same = perf_now_same node r (round n r) one.3 in
        calc_perf-perf_now node nodes (round n r) (later there e) (omega (arith, one.2, inside))
          (one.1 ∙ flag)
        ∙ same
  ]
    where
      later : Elem node (n ∷ nodes) → node == n ≡ false → Elem node nodes
      later (inl e) apart = cc (eq→== node n e, apart)
      later (inr h) apart = h

  -- A memory access from one node to another, where both have counters and the second is not flagged: the
  -- second node gets the mean latency of the requests that it had and those of the access, but the
  -- first is flagged and the second is not, so the computation leaves its performance what it was.
  pub calc_perf-add_memory :
      (machine : Machine) (sample : Sample) (nodes : List ℕ) (r : Rm3d R)
      → machine.node_from_cpu sample.cpu == sample.page_node ≡ false
      → machine.node_from_cpu sample.cpu < length r.perfs_update
      → sample.page_node < length r.mean_lat
      → get_or r.perfs_update sample.page_node false ≡ false
      → let r' = add_memory machine sample r in
        let reqs = get_or r.node_reqs sample.page_node 0 in
        (get_or r'.mean_lat sample.page_node 0
          ≡ (get_or r.mean_lat sample.page_node 0 * reqs + sample.latency * sample.reqs)
            / (reqs + sample.reqs))
        × (get_or r'.perfs_update (machine.node_from_cpu sample.cpu) false ≡ true)
        × (get_or r'.perfs_update sample.page_node false ≡ false)
        × (get_or (calc nodes r').perfs sample.page_node invalid_value
            ≡ get_or r.perfs sample.page_node invalid_value)
  unfolding add_memory
  calc_perf-add_memory machine sample nodes r apart known inside off =
      let src = machine.node_from_cpu sample.cpu in
      let dst = sample.page_node in
      let reqs = get_or r.node_reqs dst 0 in
      let still : get_or (set r.perfs_update src true) dst false ≡ false =
        get_or-set_ne r.perfs_update src dst true false (λ same. cc (eq→== src dst same, apart))
        ∙ off in
      (
        get_or-set_self r.mean_lat dst
            ((get_or r.mean_lat dst 0 * reqs + sample.latency * sample.reqs) / (reqs + sample.reqs))
            0 inside,
        get_or-set_self r.perfs_update src true false known,
        still,
        calc_unflagged dst nodes (add_memory machine sample r) still,
      )
