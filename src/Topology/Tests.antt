-- ===== src/Topology/Tests.antt =====
-- Runs of the detection on two nodes of two processors.
use csci555_usc.Base.{
  ◌≡◌, refl, true, ◌||◌, some, [], ◌∷◌, ◌==◌, ltb, arith, if◌then◌else◌, ◌/◌, ◌&&◌,
}
use csci555_usc.Topology.{
  Numa, Detected, detected, out_of_bounds, detect_system_numa, detect_system, allowed_nodes,
  allowed_cpus, cpus_from_node,
}
use csci555_usc.Topology.Bounds.{
  IsDetected, detect_system_numa-IsDetected, detect_system_numa-out_of_bounds,
}

abbrev numa : Numa
numa = record {
  available = true;
  mems_size = 8;
  is_mem_allowed = λ node. ltb node 2;
  cpus_size = 8;
  is_cpu_allowed = λ cpu. ltb cpu 4;
  node_to_cpus = λ node. some (λ cpu. cpu / 2 == node);
  node_of_cpu = λ cpu. cpu / 2;
  distance = λ a b. if a == b then 10 else 20;
  max_node = 1;
}

-- Processor 1 is not allowed.
abbrev with_gap : Numa
with_gap = record numa { is_cpu_allowed = λ cpu. ltb cpu 4 && (cpu == 0 || ltb 1 cpu) }

abbrev empty : Detected
empty = record {
  nodes = [];
  cpus = [];
  nodes_by_distance = [];
  cpu_node_map = [];
  node_cpu_map = [];
  cpu_tid_map = [];
  node_tid_map = [];
}

found :
    detect_system numa empty
    ≡ detected true (record {
      nodes = 0 ∷ 1 ∷ [];
      cpus = 0 ∷ 1 ∷ 2 ∷ 3 ∷ [];
      nodes_by_distance = (0 ∷ 1 ∷ []) ∷ (1 ∷ 0 ∷ []) ∷ [];
      cpu_node_map = 0 ∷ 0 ∷ 1 ∷ 1 ∷ [];
      node_cpu_map = (0 ∷ 1 ∷ []) ∷ (2 ∷ 3 ∷ []) ∷ [];
      cpu_tid_map = [] ∷ [] ∷ [] ∷ [] ∷ [];
      node_tid_map = [] ∷ [] ∷ [];
    })
unfolding detect_system
found = refl

detect_system_numa-IsDetected_example :
    (r : Detected) × (detect_system_numa numa empty ≡ detected true r)
    × IsDetected numa empty (allowed_nodes numa) (allowed_cpus numa) r
unfolding allowed_nodes allowed_cpus cpus_from_node
detect_system_numa-IsDetected_example =
    detect_system_numa-IsDetected numa empty (omega arith, (omega arith, tt))
      (omega arith, (omega arith, tt))
      (omega arith, (omega arith, (omega arith, (omega arith, tt)))) (refl, (refl, tt))

detect_system_numa-out_of_bounds_example : detect_system_numa with_gap empty ≡ out_of_bounds
unfolding allowed_nodes allowed_cpus cpus_from_node
detect_system_numa-out_of_bounds_example =
    detect_system_numa-out_of_bounds with_gap empty 3 refl (omega arith)
      (omega arith, (omega arith, tt)) (refl, (refl, tt))
