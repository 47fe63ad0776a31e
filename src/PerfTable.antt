-- ===== src/PerfTable.antt =====
-- The table of threads, src/migration/performance/tid_perf_table.hpp. Its unordered maps are
-- association lists in the order of their walk; `[]` of a thread that is not known makes a new row.
-- What is read of the processes is an argument, and so is the clock.
pub mod Accesses
pub mod Rows
mod Tests
use csci555_usc.Base.{
  ℕ, ◌+◌, ◌*◌, ◌/◌, Bool, true, false, not, ◌&&◌, ◌||◌, Option, none, some, List, [], ◌∷◌, ◌++◌,
  ◌==◌, if◌then◌else◌, get_or, set, replicate, length,
}
use csci555_usc.Real.{Real}
use csci555_usc.Machine.{Machine}
use csci555_usc.Pages.Row.{Sample, fill}
use csci555_usc.Pages.Table.{find, modify, remove}
use csci555_usc.Rm3d.{
  Rm3d, InstSample, ReqsSample, new_rm3d, reset, add_inst, add_reqs, add_memory, calc_perf,
  perf_node,
}

pub record TidRow (R : Type 0) : Type 0 where
  pub performance : Rm3d R
  pub running : Bool

pub record PerfTable (R : Type 0) : Type 0 where
  pub table : List (ℕ × TidRow R)
  pub mean_perf_pid : List (ℕ × R)
  pub mean_cpu_use_pid : List (ℕ × R)
  pub total_performance : R
  pub mean_perf : R
  pub mean_cpu_use : R
  pub accesses : ℕ
  pub av_latency : ℕ
  pub av_latencies : List (List ℕ)
  pub mem_accesses : List (List ℕ)

-- `m[key]`, changed, where `new` is the value of a key that the map does not have.
unfoldable pub at_key : {A : Type 0} → ℕ → A → (A → A) → List (ℕ × A) → List (ℕ × A)
at_key key new f [] = (key, f new) ∷ []
at_key key new f ((k, a) ∷ rows) =
    if key == k then (k, f a) ∷ rows else (k, a) ∷ at_key key new f rows

-- One entry of a matrix.
abbrev pub entry : List (List ℕ) → ℕ → ℕ → ℕ
entry m i j = get_or (get_or m i []) j 0

abbrev pub set_entry : List (List ℕ) → ℕ → ℕ → ℕ → List (List ℕ)
set_entry m i j v = set m i (set (get_or m i []) j v)

-- The rows of the nodes, filled.
unfoldable pub fill_rows : List ℕ → ℕ → List (List ℕ) → List (List ℕ)
fill_rows [] v m = m
fill_rows (node ∷ nodes) v m = fill_rows nodes v (set m node (fill (get_or m node []) v))

module _ {R : Type 0} ⦃real : Real R⦄ (machine : Machine) (invalid_value : R) where
  open real use {of_nat, plus}

  abbrev new_row : ℕ → TidRow R
  new_row now = record { performance = new_rm3d machine invalid_value now; running = false }

  unfoldable pub new_table : PerfTable R
  new_table =
      let n = machine.max_node + 1 in
      record {
        table = [];
        mean_perf_pid = [];
        mean_cpu_use_pid = [];
        total_performance = of_nat 0;
        mean_perf = of_nat 0;
        mean_cpu_use = of_nat 0;
        accesses = 0;
        av_latency = machine.minimum_latency;
        av_latencies = replicate n (replicate n machine.minimum_latency);
        mem_accesses = replicate n (replicate n 0);
      }

  -- row::add_data, whatever the sample.
  abbrev row_add : (Rm3d R → Rm3d R) → TidRow R → TidRow R
  row_add f r = record { performance = f r.performance; running = true }

  unfoldable pub add_memory_sample : ℕ → Sample → PerfTable R → PerfTable R
  unfolding at_key add_memory new_rm3d
  add_memory_sample now s t =
      let src = machine.node_from_cpu s.cpu in
      let dst = s.page_node in
      let acc = entry t.mem_accesses src dst in
      record t {
        table = at_key s.tid (new_row now) (row_add (add_memory machine s)) t.table;
        av_latencies =
            set_entry t.av_latencies src dst
              ((acc * entry t.av_latencies src dst + s.latency * s.reqs) / (acc + s.reqs));
        mem_accesses = set_entry t.mem_accesses src dst (acc + s.reqs);
        av_latency = (t.av_latency * t.accesses + s.latency * s.reqs) / (t.accesses + s.reqs);
        accesses = t.accesses + s.reqs;
      }

  unfoldable pub add_reqs_sample : ℕ → ReqsSample → PerfTable R → PerfTable R
  unfolding at_key add_reqs new_rm3d
  add_reqs_sample now s t = record t {
    table = at_key s.tid (new_row now) (row_add (add_reqs machine s)) t.table;
  }

  unfoldable pub add_inst_sample : ℕ → InstSample → PerfTable R → PerfTable R
  unfolding at_key add_inst new_rm3d
  add_inst_sample now s t = record t {
    table = at_key s.tid (new_row now) (row_add (add_inst machine s)) t.table;
  }

  unfoldable pub add_tids : ℕ → (ℕ → ℕ) → List ℕ → PerfTable R → PerfTable R
  unfolding at_key find new_rm3d
  add_tids now pid_from_tid [] t = t
  add_tids now pid_from_tid (tid ∷ tids) t =
      let pid = pid_from_tid tid in
      let added = record t {
        table = at_key tid (new_row now) (λ r. new_row now) t.table;
        mean_perf_pid = at_key pid (of_nat 0) (λ v. plus v (of_nat 0)) t.mean_perf_pid;
        mean_cpu_use_pid = at_key pid (of_nat 0) (λ v. plus v (of_nat 0)) t.mean_cpu_use_pid;
      } in
      add_tids now pid_from_tid tids (elim (find tid t.table) [ none ↦ added | some r ↦ t ])

  -- remove_entry of each thread that is not alive.
  unfoldable pub check_alive_tids : (ℕ → Bool) → List (ℕ × TidRow R) → List (ℕ × TidRow R)
  check_alive_tids is_alive [] = []
  check_alive_tids is_alive ((tid, r) ∷ rows) =
      if is_alive tid
      then (tid, r) ∷ check_alive_tids is_alive rows
      else check_alive_tids is_alive rows

  clear_rows : List (ℕ × TidRow R) → List (ℕ × TidRow R)
  unfolding reset
  clear_rows [] = []
  clear_rows ((tid, r) ∷ rows) =
      (tid, record { performance = reset machine invalid_value r.performance; running = false })
      ∷ clear_rows rows

  zero_means : List (ℕ × R) → List (ℕ × R)
  zero_means [] = []
  zero_means ((pid, mean) ∷ means) = (pid, of_nat 0) ∷ zero_means means

  unfoldable pub clear_it : (ℕ → Bool) → PerfTable R → PerfTable R
  unfolding check_alive_tids clear_rows zero_means fill_rows
  clear_it is_alive t = record t {
    table = clear_rows (check_alive_tids is_alive t.table);
    mean_perf_pid = zero_means t.mean_perf_pid;
    mean_cpu_use_pid = zero_means t.mean_cpu_use_pid;
    total_performance = of_nat 0;
    accesses = 0;
    av_latency = machine.minimum_latency;
    av_latencies = fill_rows machine.nodes machine.minimum_latency t.av_latencies;
    mem_accesses = fill_rows machine.nodes 0 t.mem_accesses;
  }

  unfoldable pub hard_clear : PerfTable R → PerfTable R
  unfolding fill_rows
  hard_clear t = record t {
    table = [];
    mean_perf_pid = [];
    mean_cpu_use_pid = [];
    accesses = 0;
    av_latency = machine.minimum_latency;
    av_latencies = fill_rows machine.nodes machine.minimum_latency t.av_latencies;
    mem_accesses = fill_rows machine.nodes 0 t.mem_accesses;
  }

  unfoldable pub check_running : (ℕ → Bool) → List (ℕ × TidRow R) → List (ℕ × TidRow R)
  check_running is_running [] = []
  check_running is_running ((tid, r) ∷ rows) =
      (tid, if not r.running && is_running tid then record r { running = true } else r)
      ∷ check_running is_running rows

-- The locals of the loop of calc_perf over the rows, and what it changes besides them.
pub record Sums (R : Type 0) : Type 0 where
  pub total : R
  pub temp_mean : R
  pub temp_cpu : R
  pub valid_perf : ℕ
  pub perf_pid : List (ℕ × R)
  pub cpu_use_pid : List (ℕ × R)
  pub valid_perf_pid : List (ℕ × ℕ)

-- What is read of the processes.
pub record ThreadReadings (R : Type 0) : Type 0 where
  pub pinned_node_from_tid : ℕ → ℕ
  pub pid_from_tid : ℕ → ℕ
  pub cpu_use : ℕ → R

module _ {R : Type 0} ⦃real : Real R⦄ (machine : Machine) (cache_line_size : ℕ) (invalid_value : R)
    (decay : ℕ → R) (threads : ThreadReadings R) where
  open real use {of_nat, plus, over, lt, is_normal}

  -- A row after its performances were computed.
  abbrev pub calculated : ℕ → TidRow R → TidRow R
  calculated now r = record r {
    performance =
        calc_perf machine.minimum_latency cache_line_size invalid_value now machine.nodes
          r.performance;
  }

  -- perf_in_node, where the thread is pinned.
  abbrev pub pinned_perf : ℕ → TidRow R → R
  pinned_perf tid r =
      perf_node machine.minimum_latency cache_line_size invalid_value decay
        (threads.pinned_node_from_tid tid) r.performance

  add_sums : ℕ → R → Sums R → Sums R
  unfolding at_key
  add_sums tid perf s =
      let pid = threads.pid_from_tid tid in
      let tid_use = threads.cpu_use tid in
      record s {
        total = plus s.total perf;
        temp_mean = plus s.temp_mean perf;
        temp_cpu = plus s.temp_cpu tid_use;
        perf_pid = at_key pid (of_nat 0) (λ v. plus v perf) s.perf_pid;
        cpu_use_pid = at_key pid (of_nat 0) (λ v. plus v tid_use) s.cpu_use_pid;
        valid_perf = s.valid_perf + 1;
        valid_perf_pid = at_key pid 0 (λ n. n + 1) s.valid_perf_pid;
      }

  pub calc_rows : ℕ → List (ℕ × TidRow R) → Sums R → List (ℕ × TidRow R) × Sums R
  unfolding calc_perf perf_node add_sums
  calc_rows now [] s = ([], s)
  calc_rows now ((tid, r) ∷ rows) s =
      let r' = if r.running then calculated now r else r in
      let perf = pinned_perf tid r' in
      let rest =
        calc_rows now rows
          (if not r.running || lt perf (of_nat 0) then s else add_sums tid perf s) in
      ((tid, r') ∷ rest.0, rest.1)

  -- A mean, 1 if it is not normal.
  abbrev mean_or_one : R → ℕ → R
  mean_or_one v n = let mean = over v (of_nat n) in if is_normal mean then mean else of_nat 1

  divide_means : List (ℕ × ℕ) → List (ℕ × R) → List (ℕ × R)
  unfolding at_key
  divide_means [] means = means
  divide_means ((pid, valid) ∷ pids) means =
      divide_means pids (at_key pid (of_nat 0) (λ v. mean_or_one v valid) means)

  unfoldable pub calc_table_perf : ℕ → PerfTable R → PerfTable R
  unfolding calc_rows divide_means
  calc_table_perf now t =
      let r = calc_rows now t.table (record {
        total = of_nat 0;
        temp_mean = of_nat 0;
        temp_cpu = of_nat 0;
        valid_perf = 0;
        perf_pid = t.mean_perf_pid;
        cpu_use_pid = t.mean_cpu_use_pid;
        valid_perf_pid = [];
      }) in
      let s = r.1 in
      record t {
        table = r.0;
        total_performance = s.total;
        mean_perf = mean_or_one s.temp_mean s.valid_perf;
        mean_cpu_use = mean_or_one s.temp_cpu s.valid_perf;
        mean_perf_pid = divide_means s.valid_perf_pid s.perf_pid;
        mean_cpu_use_pid = divide_means s.valid_perf_pid s.cpu_use_pid;
      }

  -- `update`
  unfoldable pub update : (ℕ → Bool) → ℕ → PerfTable R → PerfTable R
  unfolding check_running calc_table_perf
  update is_running now t =
      calc_table_perf now
        (record t { table = check_running machine invalid_value is_running t.table })
