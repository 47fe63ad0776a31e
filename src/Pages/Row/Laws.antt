-- ===== src/Pages/Row/Laws.antt =====
-- What adding samples to a row keeps: its vectors have one place for each node and its counters
-- agree; and where its averages lie.
use native.Mathlib.Decide.{ℕ_discrete}
use csci555_usc.Base.{
  sym, ℕ, suc, ◌+◌, ◌≤◌, ◌<◌, ◌≡◌, ◌≢◌, refl, ap, List, [], ◌∷◌, arith, length, get_or, set,
  replicate, sum, sum-set, length-set, length-replicate, ◌∙◌, get_or-set_self, get_or-set_ne, All,
}
use csci555_usc.Real.{Real}
use csci555_usc.Machine.{Machine}
use csci555_usc.Pages.Means.{Within, mean_step}
use csci555_usc.Pages.Row.{Row, Sample, new_row, clear, add_data, fill}

sum-replicate : (n : ℕ) → sum (replicate n 0) ≡ 0
sum-replicate n = elim n as (λ n. sum (replicate n 0) ≡ 0) [
  | ℕ.zero ↦ refl
  | suc (n → ih) ↦ omega (arith, ih)
]

get_or-replicate : (n i : ℕ) → ◌≡◌ {A = ℕ} (get_or (replicate n 0) i 0) 0
get_or-replicate ℕ.zero i = refl
get_or-replicate (suc n) ℕ.zero = refl
get_or-replicate (suc n) (suc i) = get_or-replicate n i

-- One average changes, and its counter with it.
each_set :
    (lo hi : ℕ) (averages counters : List ℕ) (i v c : ℕ)
    → i < length averages
    → ((node : ℕ) → 0 < get_or counters node 0 → Within lo hi (get_or averages node 0))
    → Within lo hi v
    → (node : ℕ) → 0 < get_or (set counters i c) node 0
    → Within lo hi (get_or (set averages i v) node 0)
each_set lo hi averages counters i v c h w k node pos = elim (ℕ_discrete node i) [
  | yes e ↦ rw e (rw (get_or-set_self averages i v 0 h) k)
  | no n ↦
      let n' : i ≢ node = λ e. n (sym e) in
      rw (get_or-set_ne averages i node v 0 n')
        (w node (rw (get_or-set_ne counters i node c 0 n') at pos))
]

module _ {R : Type 0} ⦃real : Real R⦄ (machine : Machine) where
  -- The vectors have a place for each node, and the counters count the samples.
  pub record IsValid (r : Row R) : Type 0 where
    pub raw_length : length r.raw_accesses ≡ machine.max_node + 1
    pub node_length : length r.node_accesses ≡ machine.max_node + 1
    pub ratios_length : length r.ratios ≡ machine.max_node + 1
    pub latencies_length : length r.av_latencies ≡ machine.max_node + 1
    pub counted : sum r.raw_accesses ≡ r.samples_count
    pub averaged : r.av_latency_ctr ≡ r.samples_count
    pub averaged_nodes : r.av_latencies_ctr ≡ r.raw_accesses

  pub new_row-IsValid : (last_pid last_node : ℕ) → IsValid (new_row machine last_pid last_node)
  unfolding new_row
  new_row-IsValid last_pid last_node = record {
    raw_length = length-replicate _ _;
    node_length = length-replicate _ _;
    ratios_length = length-replicate _ _;
    latencies_length = length-replicate _ _;
    counted = sum-replicate _;
    averaged = refl;
    averaged_nodes = refl;
  }

  pub clear-IsValid : (r : Row R) → IsValid r → IsValid (clear machine r)
  unfolding clear
  clear-IsValid r v = record {
    raw_length = length-replicate _ _ ∙ v.raw_length;
    node_length = length-replicate _ _ ∙ v.node_length;
    ratios_length = length-replicate _ _ ∙ v.ratios_length;
    latencies_length = length-replicate _ _ ∙ v.latencies_length;
    counted = sum-replicate _;
    averaged = refl;
    averaged_nodes = ap (λ xs. fill xs 0) v.averaged_nodes;
  }

  -- A sample from a node of the machine leaves a row with a place for each node, whose counters
  -- all count the samples: the raw accesses, the latencies averaged, and those of each node.
  pub add_data-IsValid :
      (s : Sample) (aging_factor : R) (r : Row R)
      → s.page_node ≤ machine.max_node
      → IsValid r
      → IsValid (add_data machine s aging_factor r)
  unfolding add_data
  add_data-IsValid s aging_factor r h v = record {
    raw_length = length-set _ _ _ ∙ v.raw_length;
    node_length = length-set _ _ _ ∙ v.node_length;
    ratios_length = v.ratios_length;
    latencies_length = length-set _ _ _ ∙ v.latencies_length;
    counted = omega (
      arith,
      sum-set r.raw_accesses s.page_node (get_or r.raw_accesses s.page_node 0 + 1)
          (omega (arith, v.raw_length)),
      v.counted,
    );
    averaged = ap (λ (n : ℕ). n + 1) v.averaged;
    averaged_nodes = ap (λ xs. set xs s.page_node (get_or xs s.page_node 0 + 1)) v.averaged_nodes;
  }

  -- The averages of a row that has samples: that of all, and those of the nodes with samples.
  pub record IsWithin (lo hi : ℕ) (r : Row R) : Type 0 where
    pub all : 0 < r.av_latency_ctr → Within lo hi r.av_latency
    pub each :
        (node : ℕ)
        → 0 < get_or r.av_latencies_ctr node 0
        → Within lo hi (get_or r.av_latencies node 0)

  -- A sample of a latency between two bounds, from a node of the machine, leaves every average of a
  -- valid row between them: that of all samples, and those of the nodes that have samples.
  pub add_data-IsWithin :
      (lo hi : ℕ) (s : Sample) (aging_factor : R) (r : Row R)
      → s.page_node ≤ machine.max_node
      → Within lo hi s.latency
      → IsValid r
      → IsWithin lo hi r
      → IsWithin lo hi (add_data machine s aging_factor r)
  unfolding add_data
  add_data-IsWithin lo hi s aging_factor r h k v w = record {
    all = λ _. mean_step lo hi r.av_latency s.latency r.av_latency_ctr w.all k;
    each =
        each_set lo hi r.av_latencies r.av_latencies_ctr s.page_node _ _
          (omega (arith, v.latencies_length)) w.each
          (mean_step lo hi _ s.latency _ (w.each s.page_node) k);
  }

  -- A history of samples, the last one first, each with its aging factor.
  pub add_samples : List (Sample × R) → Row R → Row R
  add_samples [] r = r
  add_samples ((s, aging) ∷ older) r = add_data machine s aging (add_samples older r)

  abbrev pub SamplesIn : ℕ → ℕ → List (Sample × R) → Type 0
  SamplesIn lo hi = All (λ e. (e.0.page_node ≤ machine.max_node) × Within lo hi e.0.latency)

  add_samples-IsValid :
      (lo hi : ℕ) (samples : List (Sample × R)) (r : Row R)
      → SamplesIn lo hi samples
      → IsValid r
      → IsValid (add_samples samples r)
  unfolding add_samples
  add_samples-IsValid lo hi [] r h v = v
  add_samples-IsValid lo hi ((s, aging) ∷ older) r h v =
      add_data-IsValid s aging (add_samples older r) h.0.0 (add_samples-IsValid lo hi older r h.1 v)

  cleared-IsWithin : (lo hi : ℕ) (r : Row R) → IsWithin lo hi (clear machine r)
  unfolding clear
  cleared-IsWithin lo hi r = record {
    all = λ pos. absurd (omega arith);
    each = λ node pos. absurd (omega (arith, get_or-replicate (length r.av_latencies_ctr) node));
  }

  -- Whatever a row held before it was cleared, after any samples of the machine's nodes with
  -- latencies between two bounds, all its averages over samples lie between them.
  pub add_samples-IsWithin :
      (lo hi : ℕ) (samples : List (Sample × R)) (r : Row R)
      → SamplesIn lo hi samples
      → IsValid r
      → IsWithin lo hi (add_samples samples (clear machine r))
  unfolding add_samples
  add_samples-IsWithin lo hi [] r h v = cleared-IsWithin lo hi r
  add_samples-IsWithin lo hi ((s, aging) ∷ older) r h v =
      add_data-IsWithin lo hi s aging _ h.0.0 h.0.1
        (add_samples-IsValid lo hi older _ h.1 (clear-IsValid r v))
        (add_samples-IsWithin lo hi older r h.1 v)
