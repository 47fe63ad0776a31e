-- ===== src/Machine.antt =====
-- What the rest of the program reads of the machine through src/system_info/system_info.hpp and
-- src/samples/perf_event: nodes, processors and the smallest latency that is sampled. Nodes and
-- processors are numbers; node_t and cpu_t are signed in the source, and negative only for errors.
use csci555_usc.Base.{ℕ, List}

pub record Machine : Type 0 where
  -- system_info::max_node()
  pub max_node : ℕ
  -- system_info::nodes()
  pub nodes : List ℕ
  -- system_info::node_from_cpu()
  pub node_from_cpu : ℕ → ℕ
  -- samples::minimum_latency
  pub minimum_latency : ℕ
