-- ===== src/Topology/Bounds.antt =====
-- What the detection finds where the numbers of nodes and processors have no gaps, and what it does
-- where they have.
use csci555_usc.Base.{
  ℕ, ◌+◌, ◌<◌, ◌≤◌, ◌≡◌, refl, sym, ap, subst, ◌∙◌, true, false, some, List, [], ◌==◌, arith,
  contains, length, get_or, All,
}
use csci555_usc.Topology.{
  Numa, Detected, detected, out_of_bounds, resize, write_cpus, by_distance, allowed_nodes,
  allowed_cpus, cpus_from_node, detect_maps, detect_system_numa,
}
use csci555_usc.Topology.Distances.{IsByDistance, by_distance-IsByDistance, contains-by_distance}
use csci555_usc.Topology.Writes.{
  length-resize, Written, write_all-Written, write_all-none, write_cpus-Written,
}

module _ (numa : Numa) (d : Detected) where
  -- The maps that are found: for each processor its node, for each node its processors and the nodes
  -- from the closest to the farthest.
  pub record IsDetected (nodes cpus : List ℕ) (r : Detected) : Type 0 where
    pub nodes_found : r.nodes ≡ nodes
    pub cpus_found : r.cpus ≡ cpus
    pub node_of :
        (cpu : ℕ) → contains cpu cpus ≡ true → get_or r.cpu_node_map cpu 0 ≡ numa.node_of_cpu cpu
    pub cpus_of :
        (node : ℕ)
        → contains node nodes ≡ true
        → get_or r.node_cpu_map node [] ≡ cpus_from_node numa cpus node
    pub ordered :
        (node : ℕ)
        → contains node nodes ≡ true
        → IsByDistance (numa.distance node) (get_or r.nodes_by_distance node [])
    pub all_nodes :
        (node m : ℕ)
        → contains node nodes ≡ true
        → contains m (get_or r.nodes_by_distance node []) ≡ contains m nodes

  inside : (n m : ℕ) (is : List ℕ) → n ≡ m → All (λ i. i < m) is → All (λ i. i < n) is
  inside n m is e h = subst (λ k. All (λ i. i < k) is) (sym e) h

  abbrev cpus : List ℕ
  cpus = allowed_cpus numa

  abbrev nodes : List ℕ
  nodes = allowed_nodes numa

  abbrev HasCpus : Type 0
  HasCpus = All (λ node. length (cpus_from_node numa cpus node) == 0 ≡ false) nodes

  found_cpus :
      All (λ node. node < numa.max_node + 1) nodes
      → HasCpus
      → (w : List (List ℕ)) × (write_cpus
            (cpus_from_node numa cpus)
            nodes
            (resize (numa.max_node + 1) [] d.node_cpu_map)
          ≡ some (true, w))
        × Written
            (cpus_from_node numa cpus)
            []
            nodes
            (resize (numa.max_node + 1) [] d.node_cpu_map)
            w
  found_cpus below full =
      let v = resize (numa.max_node + 1) [] d.node_cpu_map in
      write_cpus-Written (cpus_from_node numa cpus) nodes v
        (inside (length v) (numa.max_node + 1) nodes
          (length-resize (numa.max_node + 1) [] d.node_cpu_map) below)
        full

  -- Where the allowed nodes and processors have the numbers below how many they are, no node is above
  -- the largest that libnuma knows, and every node has processors: the detection succeeds without a
  -- write out of bounds, and finds for each processor its node, and for each node its processors and
  -- the allowed nodes from the closest to the farthest.
  pub detect_system_numa-IsDetected :
      All (λ node. node < length (allowed_nodes numa)) (allowed_nodes numa)
      → All (λ node. node < numa.max_node + 1) (allowed_nodes numa)
      → All (λ cpu. cpu < length (allowed_cpus numa)) (allowed_cpus numa)
      → All
          (λ node. length (cpus_from_node numa (allowed_cpus numa) node) == 0 ≡ false)
          (allowed_nodes numa)
      → (r : Detected) × (detect_system_numa numa d ≡ detected true r)
        × IsDetected (allowed_nodes numa) (allowed_cpus numa) r
  unfolding detect_system_numa detect_maps
  detect_system_numa-IsDetected nodes_dense below cpus_dense full =
      let first = found_cpus below full in
      let v = resize (length cpus) 0 d.cpu_node_map in
      let second = write_all-Written numa.node_of_cpu 0 cpus v (
        inside (length v) (length cpus) cpus (length-resize (length cpus) 0 d.cpu_node_map)
          cpus_dense) in
      let u = resize (length nodes) [] d.nodes_by_distance in
      let order : ℕ → List ℕ = λ node. by_distance (numa.distance node) nodes [] in
      let third = write_all-Written order [] nodes u (
        inside (length u) (length nodes) nodes (length-resize (length nodes) [] d.nodes_by_distance)
          nodes_dense) in
      (
        record {
          nodes = nodes;
          cpus = cpus;
          nodes_by_distance = third.0;
          cpu_node_map = second.0;
          node_cpu_map = first.0;
          cpu_tid_map = resize (length cpus) [] d.cpu_tid_map;
          node_tid_map = resize (length nodes) [] d.node_tid_map;
        },
        rw (detect_system_numa, first.1, detect_maps, second.1, third.1) refl,
        record {
          nodes_found = refl;
          cpus_found = refl;
          node_of = second.2.1;
          cpus_of = first.2.1;
          ordered = λ node h.
              subst (IsByDistance (numa.distance node)) (sym (third.2.1 node h))
                (by_distance-IsByDistance (numa.distance node) nodes [] tt);
          all_nodes = λ node m h.
              ap (contains m) (third.2.1 node h)
              ∙ ground (arith, contains-by_distance (numa.distance node) m nodes []);
        },
      )

  -- Where a processor has a number that is not below how many are allowed, the detection writes out of
  -- the bounds of the map from processors to nodes, if no node is above the largest that libnuma knows
  -- and every node has processors.
  pub detect_system_numa-out_of_bounds :
      (cpu : ℕ)
      → contains cpu (allowed_cpus numa) ≡ true
      → length (allowed_cpus numa) ≤ cpu
      → All (λ node. node < numa.max_node + 1) (allowed_nodes numa)
      → All
          (λ node. length (cpus_from_node numa (allowed_cpus numa) node) == 0 ≡ false)
          (allowed_nodes numa)
      → detect_system_numa numa d ≡ out_of_bounds
  unfolding detect_system_numa detect_maps
  detect_system_numa-out_of_bounds cpu there above below full =
      let first = found_cpus below full in
      let v = resize (length cpus) 0 d.cpu_node_map in
      rw
        (
          detect_system_numa,
          first.1,
          detect_maps,
          write_all-none numa.node_of_cpu 0 cpus v cpu there
              (omega (arith, above, length-resize (length cpus) 0 d.cpu_node_map)),
        )
        refl
