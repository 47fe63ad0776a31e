-- ===== src/Rm3d.antt =====
-- The 3DyRM performance of a thread, src/migration/performance/rm3d.hpp, with the members of
-- src/migration/utils/inst_sample.hpp and src/migration/utils/reqs_sample.hpp that it reads. Counters
-- and latencies are 64-bit in the source, stay far below that and are not negative; an integer is
-- normal, as std::isnormal sees it, if it is not 0. The powers of calc_perf have the exponent 1. The
-- clock is an argument.
pub mod Current
mod Tests
use csci555_usc.Base.{
  ℕ, ◌+◌, ◌*◌, ◌/◌, ◌≡◌, Bool, true, false, not, ◌&&◌, ◌||◌, List, [], ◌∷◌, ◌==◌, ltb,
  if◌then◌else◌, get_or, set, replicate, length, sum, map, max_element,
}
use csci555_usc.Real.{Real}
use csci555_usc.Machine.{Machine}
use csci555_usc.Pages.Row.{Sample, fill}

pub record InstSample : Type 0 where
  pub cpu : ℕ
  pub tid : ℕ
  pub inst : ℕ
  pub multiplier : ℕ
  pub time : ℕ
  pub flop : Bool

pub record ReqsSample : Type 0 where
  pub cpu : ℕ
  pub tid : ℕ
  pub reqs : ℕ

pub record Rm3d (R : Type 0) : Type 0 where
  pub flops : List ℕ
  pub inst : List ℕ
  pub total_reqs : List ℕ
  pub times : List ℕ
  pub node_reqs : List ℕ
  pub mean_lat : List ℕ
  pub perfs : List R
  pub perfs_time : List ℕ
  pub perfs_update : List Bool

-- `v[node] += n`
abbrev pub plus_at : List ℕ → ℕ → ℕ → List ℕ
plus_at v node n = set v node (get_or v node 0 + n)

module _ {R : Type 0} (machine : Machine) (invalid_value : R) where
  unfoldable pub new_rm3d : ℕ → Rm3d R
  new_rm3d now =
      let n = machine.max_node + 1 in
      record {
        flops = replicate n 0;
        inst = replicate n 0;
        total_reqs = replicate n 0;
        times = replicate n 0;
        node_reqs = replicate n 0;
        mean_lat = replicate n machine.minimum_latency;
        perfs = replicate n invalid_value;
        perfs_time = replicate n now;
        perfs_update = replicate n false;
      }

  reset_nodes : List ℕ → Rm3d R → Rm3d R
  reset_nodes [] r = r
  reset_nodes (node ∷ nodes) r = reset_nodes nodes (record r {
    flops = set r.flops node 0;
    inst = set r.inst node 0;
    total_reqs = set r.total_reqs node 0;
    times = set r.times node 0;
    node_reqs = set r.node_reqs node 0;
    mean_lat = set r.mean_lat node 0;
  })

  unfoldable pub reset : Rm3d R → Rm3d R
  unfolding reset_nodes
  reset r = reset_nodes machine.nodes r

  unfoldable pub hard_reset : ℕ → Rm3d R → Rm3d R
  unfolding reset
  hard_reset now r =
      let s = reset r in
      record s {
        perfs = fill s.perfs invalid_value;
        perfs_update = fill s.perfs_update false;
        perfs_time = fill s.perfs_time now;
      }

module _ {R : Type 0} (machine : Machine) where
  unfoldable pub add_inst : InstSample → Rm3d R → Rm3d R
  add_inst sample r =
      let node = machine.node_from_cpu sample.cpu in
      let n = sample.inst * sample.multiplier in
      record r {
        flops = if sample.flop then plus_at r.flops node n else r.flops;
        inst = if sample.flop then r.inst else plus_at r.inst node n;
        times = plus_at r.times node sample.time;
        perfs_update = set r.perfs_update node true;
      }

  unfoldable pub add_reqs : ReqsSample → Rm3d R → Rm3d R
  add_reqs sample r =
      let node = machine.node_from_cpu sample.cpu in
      record r {
        total_reqs = plus_at r.total_reqs node sample.reqs;
        perfs_update = set r.perfs_update node true;
      }

  unfoldable pub add_memory : Sample → Rm3d R → Rm3d R
  add_memory sample r =
      let src_node = machine.node_from_cpu sample.cpu in
      let dst_node = sample.page_node in
      let reqs = get_or r.node_reqs dst_node 0 in
      record r {
        mean_lat = set r.mean_lat dst_node (
            (get_or r.mean_lat dst_node 0 * reqs + sample.latency * sample.reqs)
            / (reqs + sample.reqs));
        node_reqs = plus_at r.node_reqs dst_node sample.reqs;
        perfs_update = set r.perfs_update src_node true;
      }

-- std::max_element of the requests.
unfoldable pub preferred_node : {R : Type 0} → Rm3d R → ℕ
preferred_node r = max_element ltb r.node_reqs

module _ {R : Type 0} ⦃real : Real R⦄ (minimum_latency cache_line_size : ℕ)
    (invalid_value : R) where
  open real use {of_nat, times, over, lt, trunc, is_normal}

  unfoldable pub ops_per_second : ℕ → Rm3d R → R
  ops_per_second node r =
      let seconds = over (of_nat (get_or r.times node 0)) (of_nat 1000000000) in
      if get_or r.times node 0 == 0
      then of_nat 0
      else over (of_nat (get_or r.inst node 0 + get_or r.flops node 0)) seconds

  unfoldable pub ops_per_byte : ℕ → Rm3d R → R
  unfolding ops_per_second
  ops_per_byte node r =
      if get_or r.total_reqs node 0 == 0
      then of_nat 0
      else over (ops_per_second node r) (of_nat (get_or r.total_reqs node 0 * cache_line_size))

  unfoldable pub av_latency : ℕ → Rm3d R → ℕ
  av_latency node r =
      if get_or r.total_reqs node 0 == 0 || get_or r.mean_lat node 0 == 0
      then minimum_latency
      else get_or r.mean_lat node 0

  -- The static calc_perf.
  unfoldable pub perf_of : R → R → ℕ → R
  perf_of ops_per_s ops_per_b mean_lat =
      let result = times ops_per_s (over ops_per_b (of_nat mean_lat)) in
      if is_normal result then result else invalid_value

  -- calc_perf of a node; without data the flag stays set.
  unfoldable pub calc_perf_node : ℕ → ℕ → Rm3d R → Rm3d R
  unfolding ops_per_second ops_per_byte av_latency perf_of
  calc_perf_node now node r =
      if get_or r.times node 0 == 0 || get_or r.total_reqs node 0 == 0
      then record r { perfs = set r.perfs node invalid_value }
      else record r {
        perfs_update = set r.perfs_update node false;
        perfs_time = set r.perfs_time node now;
        perfs =
            set r.perfs node
              (perf_of (ops_per_second node r) (ops_per_byte node r) (av_latency node r));
      }

  -- calc_perf of all nodes.
  unfoldable pub calc_perf : ℕ → List ℕ → Rm3d R → Rm3d R
  unfolding calc_perf_node
  calc_perf now [] r = r
  calc_perf now (node ∷ nodes) r =
      calc_perf now nodes
        (if get_or r.perfs_update node false then calc_perf_node now node r else r)

  unfoldable pub raw_perf_node : ℕ → Rm3d R → R
  raw_perf_node node r =
      let perf = get_or r.perfs node invalid_value in
      if lt perf (of_nat 0) || not (is_normal perf) then invalid_value else perf

  -- `decay` is the factor by the time since the performance was computed.
  unfoldable pub perf_node : (ℕ → R) → ℕ → Rm3d R → R
  perf_node decay node r =
      let perf = get_or r.perfs node invalid_value in
      if lt perf (of_nat 0) || not (is_normal perf)
      then invalid_value
      else times perf (decay (get_or r.perfs_time node 0))

  pub scaled_node_reqs : Rm3d R → List ℕ
  scaled_node_reqs r =
      let scale = over (of_nat (sum r.total_reqs)) (of_nat (sum r.node_reqs)) in
      if not (is_normal scale) || not (lt (of_nat 0) scale)
      then r.node_reqs
      else map (λ reqs. trunc (times (of_nat reqs) scale)) r.node_reqs

  -- The overload for a node, which multiplies the requests by their scaled number.
  pub scaled_node_reqs_of : ℕ → Rm3d R → List ℕ
  scaled_node_reqs_of node r =
      let scale = over (of_nat (get_or r.total_reqs node 0)) (of_nat (sum r.node_reqs)) in
      map (λ reqs. reqs * trunc (times (of_nat reqs) scale)) r.node_reqs
