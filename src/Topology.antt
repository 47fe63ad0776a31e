-- ===== src/Topology.antt =====
-- The detection of nodes and processors, src/system_info/system_info.cpp. libnuma is a parameter: what
-- its masks, distances and maps say. A write out of the bounds of a vector is undefined behaviour, an
-- outcome of its own.
pub mod Distances
pub mod Writes
pub mod Bounds
mod Tests
use csci555_usc.Base.{
  ℕ, zero, suc, ◌+◌, Bool, true, false, not, ◌&&◌, Option, none, some, List, [], ◌∷◌, ◌++◌, ltb,
  if◌then◌else◌, length, ◌==◌, get_or, set, replicate, contains, max_element,
}

pub record Numa : Type 0 where
  -- numa_available() is not negative
  pub available : Bool
  -- the sizes of the masks, and their bits
  pub mems_size : ℕ
  pub is_mem_allowed : ℕ → Bool
  pub cpus_size : ℕ
  pub is_cpu_allowed : ℕ → Bool
  -- numa_node_to_cpus, or an error
  pub node_to_cpus : ℕ → Option (ℕ → Bool)
  pub node_of_cpu : ℕ → ℕ
  pub distance : ℕ → ℕ → ℕ
  pub max_node : ℕ

-- The variables of system_info::details.
pub record Detected : Type 0 where
  pub nodes : List ℕ
  pub cpus : List ℕ
  pub nodes_by_distance : List (List ℕ)
  pub cpu_node_map : List ℕ
  pub node_cpu_map : List (List ℕ)
  pub cpu_tid_map : List (List ℕ)
  pub node_tid_map : List (List ℕ)

pub data Detection : Type 0 where
  detected : Bool → Detected → Detection
  out_of_bounds : Detection

-- The numbers from `i` on, `n` of them, whose bits are set.
unfoldable pub bits_from : (ℕ → Bool) → ℕ → ℕ → List ℕ
bits_from bit i zero = []
bits_from bit i (suc n) = let rest = bits_from bit (i + 1) n in if bit i then i ∷ rest else rest

-- `resize` with a value for the new elements.
unfoldable pub resize : {A : Type 0} → ℕ → A → List A → List A
resize zero a xs = []
resize (suc n) a [] = replicate (suc n) a
resize (suc n) a (x ∷ xs) = x ∷ resize n a xs

-- A loop that writes `f i` at each index of a list, unless one is out of bounds.
unfoldable pub write_all : {A : Type 0} → (ℕ → A) → List ℕ → List A → Option (List A)
write_all f [] v = some v
write_all f (i ∷ is) v = if ltb i (length v) then write_all f is (set v i (f i)) else none

-- std::multimap::insert, behind the elements with an equal key, and the walk of the map.
unfoldable pub insert_distance : (ℕ → ℕ) → ℕ → List ℕ → List ℕ
insert_distance distance node [] = node ∷ []
insert_distance distance node (n ∷ ns) =
    let rest = insert_distance distance node ns in
    if ltb (distance node) (distance n) then node ∷ n ∷ ns else n ∷ rest

unfoldable pub by_distance : (ℕ → ℕ) → List ℕ → List ℕ → List ℕ
unfolding insert_distance
by_distance distance [] ordered = ordered
by_distance distance (node ∷ nodes) ordered =
    by_distance distance nodes (insert_distance distance node ordered)

-- The loop over the nodes, which ends at a node without processors.
unfoldable pub write_cpus : (ℕ → List ℕ) → List ℕ → List (List ℕ) → Option (Bool × List (List ℕ))
write_cpus cpus_of [] v = some (true, v)
write_cpus cpus_of (node ∷ nodes) v =
    let v' = set v node (cpus_of node) in
    let rest = write_cpus cpus_of nodes v' in
    if ltb node (length v)
    then if length (cpus_of node) == 0 then some (false, v') else rest
    else none

module _ (numa : Numa) where
  unfoldable pub allowed_nodes : List ℕ
  unfolding bits_from
  allowed_nodes = bits_from numa.is_mem_allowed 0 numa.mems_size

  unfoldable pub allowed_cpus : List ℕ
  unfolding bits_from
  allowed_cpus = bits_from numa.is_cpu_allowed 0 numa.cpus_size

  unfoldable pub cpus_from_node : List ℕ → ℕ → List ℕ
  unfolding bits_from
  cpus_from_node cpus node = elim (numa.node_to_cpus node) [
    | none ↦ []
    | some bit ↦ bits_from (λ cpu. bit cpu && contains cpu cpus) 0 numa.cpus_size
  ]

  -- The rest of detect_system_NUMA, after every node was found to have processors.
  unfoldable pub detect_maps : Detected → Detection
  unfolding resize write_all by_distance
  detect_maps d =
      elim (write_all numa.node_of_cpu d.cpus (resize (length d.cpus) 0 d.cpu_node_map)) [
        | none ↦ out_of_bounds
        | some cpu_node_map ↦
            elim (write_all (λ node. by_distance (numa.distance node) d.nodes []) d.nodes
              (resize (length d.nodes) [] d.nodes_by_distance)) [
                | none ↦ out_of_bounds
                | some nodes_by_distance ↦ detected true (record d {
                  cpu_node_map = cpu_node_map;
                  nodes_by_distance = nodes_by_distance;
                  cpu_tid_map = resize (length d.cpus) [] d.cpu_tid_map;
                  node_tid_map = resize (length d.nodes) [] d.node_tid_map;
                })
              ]
      ]

  unfoldable pub detect_system_numa : Detected → Detection
  unfolding allowed_nodes allowed_cpus cpus_from_node write_cpus resize detect_maps
  detect_system_numa d =
      let nodes = allowed_nodes in
      let cpus = allowed_cpus in
      elim (write_cpus (cpus_from_node cpus) nodes (resize (numa.max_node + 1) [] d.node_cpu_map)) [
        | none ↦ out_of_bounds
        | some r ↦
            let d' = record d { nodes = nodes; cpus = cpus; node_cpu_map = r.1 } in
            if r.0 then detect_maps d' else detected false d'
      ]

  abbrev pub max_cpu : List ℕ → ℕ
  max_cpu cpus = get_or cpus (max_element ltb cpus) 0

  -- One node, 0, on a machine without NUMA.
  unfoldable pub detect_system_uma : Detected → Detection
  unfolding allowed_cpus resize write_all max_element
  detect_system_uma d =
      let cpus = allowed_cpus in
      let size = max_cpu cpus + 1 in
      elim (write_all (λ cpu. 0) cpus (resize size 0 d.cpu_node_map)) [
        | none ↦ out_of_bounds
        | some cpu_node_map ↦ detected true (record {
          nodes = 0 ∷ [];
          cpus = cpus;
          node_cpu_map = set (resize (numa.max_node + 1) [] d.node_cpu_map) 0 cpus;
          cpu_node_map = cpu_node_map;
          nodes_by_distance = set (resize (numa.max_node + 1) [] d.nodes_by_distance) 0 (0 ∷ []);
          cpu_tid_map = resize size [] d.cpu_tid_map;
          node_tid_map = resize (numa.max_node + 1) [] d.node_tid_map;
        })
      ]

  unfoldable pub detect_system : Detected → Detection
  unfolding detect_system_numa detect_system_uma
  detect_system d = if numa.available then detect_system_numa d else detect_system_uma d
