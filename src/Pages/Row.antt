-- ===== src/Pages/Row.antt =====
-- `memtable_details::row` of src/migration/performance/mempages_table.hpp, with the members of
-- src/migration/utils/mem_sample.hpp that it reads. Counters and latencies are 64-bit in the source
-- and stay far below that; latencies are not negative. Vector indices are nodes.
pub mod Laws
pub mod Ratios
pub mod Reads
use csci555_usc.Base.{
  ℕ, suc, ◌+◌, ◌*◌, ◌/◌, Bool, true, false, List, [], ◌∷◌, ltb, ◌==◌, if◌then◌else◌, length, get_or,
  set, replicate, sum, max_element,
}
use csci555_usc.Real.{Real}
use csci555_usc.Machine.{Machine}

pub record Sample : Type 0 where
  pub cpu : ℕ
  pub tid : ℕ
  pub page : ℕ
  pub page_node : ℕ
  pub latency : ℕ
  pub reqs : ℕ

pub record Row (R : Type 0) : Type 0 where
  pub ratios_computed : Bool
  pub samples_count : ℕ
  pub age : ℕ
  pub ratios : List R
  pub raw_accesses : List ℕ
  pub node_accesses : List R
  pub av_latencies : List ℕ
  pub av_latencies_ctr : List ℕ
  pub av_latency : ℕ
  pub av_latency_ctr : ℕ
  pub last_pid : ℕ
  pub last_node : ℕ

abbrev pub samples_enough_info : ℕ
samples_enough_info = 10

-- std::fill
abbrev pub fill {ℓ} : {A : Type ℓ} → List A → A → List A
fill xs a = replicate (length xs) a

module _ {R : Type 0} where
  unfoldable pub enough_info : Row R → Bool
  enough_info r = ltb samples_enough_info r.samples_count

  unfoldable pub increase_age : Row R → Row R
  increase_age r = record r { ratios_computed = false; age = r.age + 1 }

module _ {R : Type 0} ⦃real : Real R⦄ where
  open real use {of_nat, over, lt}

  unfoldable pub preferred_node : Row R → ℕ
  preferred_node r = max_element lt r.node_accesses

  -- The loop of `compute_ratios` over the nodes.
  pub fill_ratios : List ℕ → List ℕ → ℕ → List R → List R
  fill_ratios [] raw total ratios = ratios
  fill_ratios (node ∷ nodes) raw total ratios =
      fill_ratios nodes raw total
        (set ratios node (over (of_nat (get_or raw node 0)) (of_nat total)))

module _ {R : Type 0} ⦃real : Real R⦄ (machine : Machine) where
  open real use {of_nat, plus, times}

  unfoldable pub new_row : ℕ → ℕ → Row R
  new_row last_pid last_node = record {
    ratios_computed = false;
    samples_count = 0;
    age = 0;
    ratios = replicate (machine.max_node + 1) (of_nat 0);
    raw_accesses = replicate (machine.max_node + 1) 0;
    node_accesses = replicate (machine.max_node + 1) (of_nat 0);
    av_latencies = replicate (machine.max_node + 1) 0;
    av_latencies_ctr = replicate (machine.max_node + 1) 0;
    av_latency = 0;
    av_latency_ctr = 0;
    last_pid = last_pid;
    last_node = last_node;
  }

  unfoldable pub clear : Row R → Row R
  clear r = record r {
    node_accesses = fill r.node_accesses (of_nat 0);
    raw_accesses = fill r.raw_accesses 0;
    ratios = fill r.ratios (of_nat 0);
    av_latencies = fill r.av_latencies machine.minimum_latency;
    av_latencies_ctr = fill r.av_latencies_ctr 0;
    av_latency = 0;
    av_latency_ctr = 0;
    ratios_computed = false;
    samples_count = 0;
    age = 0;
  }

  unfoldable pub add_data : Sample → R → Row R → Row R
  add_data s aging_factor r =
      let node = s.page_node in
      let ctr = get_or r.av_latencies_ctr node 0 in
      record r {
        samples_count = r.samples_count + 1;
        raw_accesses = set r.raw_accesses node (get_or r.raw_accesses node 0 + 1);
        node_accesses =
            set r.node_accesses node
              (plus (get_or r.node_accesses node (of_nat 0)) (times (of_nat s.reqs) aging_factor));
        av_latencies =
            set r.av_latencies node ((get_or r.av_latencies node 0 * ctr + s.latency) / (ctr + 1));
        av_latencies_ctr = set r.av_latencies_ctr node (ctr + 1);
        av_latency = (r.av_latency * r.av_latency_ctr + s.latency) / (r.av_latency_ctr + 1);
        av_latency_ctr = r.av_latency_ctr + 1;
        last_pid = s.tid;
        last_node = machine.node_from_cpu s.cpu;
        ratios_computed = false;
      }

  unfoldable pub compute_ratios : Row R → Row R
  unfolding fill_ratios
  compute_ratios r = if sum r.raw_accesses == 0 then r else record r {
    ratios = fill_ratios machine.nodes r.raw_accesses (sum r.raw_accesses) r.ratios;
    ratios_computed = true;
  }

  -- `ratios()` and `ratio(node)`: the members are mutable, so the row comes back too.
  unfoldable pub read_ratios : Row R → List R × Row R
  unfolding compute_ratios
  read_ratios r = let r' = if r.ratios_computed then r else compute_ratios r in (r'.ratios, r')
