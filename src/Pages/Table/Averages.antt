-- ===== src/Pages/Table/Averages.antt =====
-- The average latencies of the table of pages: of the system and of its nodes.
use csci555_usc.Base.{
  ℕ, suc, ◌+◌, ◌*◌, ◌/◌, ◌≤◌, ◌<◌, ◌≡◌, refl, Bool, true, false, List, [], ◌∷◌, arith, length,
  length-set, length-replicate, get_or, replicate, sum, sum-set, All, All-set, All-replicate, IsMax,
  max_element-IsMax, ltb_order, flip_order, min_element, ◌∙◌, All-get_or,
}
use csci555_usc.Real.{Real}
use csci555_usc.Machine.{Machine}
use csci555_usc.Pages.Means.{Within, mean-Within}
use csci555_usc.Pages.Row.{Sample}
use csci555_usc.Pages.Table.{Table, add_data, new_table, clear_it, node_min_av_latency}

sum-zeros : (n : ℕ) → sum (replicate n 0) ≡ 0
sum-zeros n = elim n as (λ n. sum (replicate n 0) ≡ 0) [
  | ℕ.zero ↦ refl
  | suc (n → ih) ↦ omega (arith, ih)
]

-- The system's formula has its factors the other way round.
system_mean :
    (lo hi a n x w : ℕ)
    → 0 < w
    → Within lo hi a
    → Within lo hi x
    → Within lo hi ((a * n + x * w) / (n + w))
system_mean lo hi a n x w pos h k =
    let m = mean-Within lo hi a x n w (omega arith) h k in
    let e : n * a + x * w ≡ a * n + x * w = omega arith in rw e at m

module _ {R : Type 0} ⦃real : Real R⦄ (machine : Machine) where
  -- A place for each node, requests that add up, and averages between the bounds.
  pub record IsAveraged (lo hi : ℕ) (t : Table R) : Type 0 where
    pub latencies_length : length t.node_latencies ≡ machine.max_node + 1
    pub accesses_length : length t.node_accesses ≡ machine.max_node + 1
    pub total : sum t.node_accesses ≡ t.accesses
    pub system : Within lo hi t.av_latency
    pub nodes : All (Within lo hi) t.node_latencies

  new_table-IsAveraged :
      (lo hi : ℕ) → Within lo hi machine.minimum_latency → IsAveraged lo hi (new_table machine)
  unfolding new_table
  new_table-IsAveraged lo hi h = record {
    latencies_length = length-replicate _ _;
    accesses_length = length-replicate _ _;
    total = sum-zeros _;
    system = h;
    nodes = All-replicate (Within lo hi) _ _ h;
  }

  -- A sample of one request or more, from a node of the machine and of a latency between two
  -- bounds, leaves all averages between them and the requests of the nodes adding up to the total.
  pub add_data-IsAveraged :
      (lo hi : ℕ) (s : Sample) (aging_factor : R) (t : Table R)
      → s.page_node ≤ machine.max_node
      → 0 < s.reqs
      → Within lo hi s.latency
      → IsAveraged lo hi t
      → IsAveraged lo hi (add_data machine s aging_factor t)
  unfolding add_data
  add_data-IsAveraged lo hi s aging_factor t h pos k v = record {
    latencies_length = length-set _ _ _ ∙ v.latencies_length;
    accesses_length = length-set _ _ _ ∙ v.accesses_length;
    total = omega (
      arith,
      v.total,
      v.accesses_length,
      sum-set t.node_accesses s.page_node (get_or t.node_accesses s.page_node 0 + s.reqs)
          (omega (arith, v.accesses_length)),
    );
    system = system_mean lo hi t.av_latency t.accesses s.latency s.reqs pos v.system k;
    nodes = All-set (Within lo hi) _ s.page_node _ v.nodes (
        mean-Within lo hi _ s.latency (get_or t.node_accesses s.page_node 0) s.reqs (omega arith)
          (All-get_or (Within lo hi) t.node_latencies s.page_node 0
            (omega (arith, v.latencies_length)) v.nodes)
          k);
  }

  clear_it-IsAveraged :
      (lo hi : ℕ) (fake_thp : Bool) (contains : ℕ → Bool) (t : Table R)
      → Within lo hi machine.minimum_latency
      → IsAveraged lo hi t
      → IsAveraged lo hi (clear_it machine fake_thp contains t)
  unfolding clear_it
  clear_it-IsAveraged lo hi true contains t h v = record {
    latencies_length = v.latencies_length;
    accesses_length = v.accesses_length;
    total = v.total;
    system = v.system;
    nodes = v.nodes;
  }
  clear_it-IsAveraged lo hi false contains t h v = record {
    latencies_length = length-replicate _ _ ∙ v.latencies_length;
    accesses_length = length-replicate _ _ ∙ v.accesses_length;
    total = sum-zeros _;
    system = h;
    nodes = All-replicate (Within lo hi) _ _ h;
  }

-- What the daemon does to the table between its iterations.
pub data TableStep (R : Type 0) : Type 0 where
  sampled : Sample → R → TableStep R
  cleared : Bool → (ℕ → Bool) → TableStep R

module _ {R : Type 0} ⦃real : Real R⦄ (machine : Machine) where
  -- The last step first.
  unfoldable pub table_steps : List (TableStep R) → Table R
  unfolding new_table add_data clear_it
  table_steps [] = new_table machine
  table_steps (sampled s aging ∷ older) = add_data machine s aging (table_steps older)
  table_steps (cleared fake_thp contains ∷ older) =
      clear_it machine fake_thp contains (table_steps older)

module _ {R : Type 0} ⦃real : Real R⦄ (machine : Machine) (lo hi : ℕ) where
  abbrev pub StepWithin : TableStep R → Type 0
  StepWithin (sampled s aging) =
      (s.page_node ≤ machine.max_node) × (0 < s.reqs) × Within lo hi s.latency
  StepWithin (cleared fake_thp contains) = Unit

  -- After any samples of the machine's nodes, each of one request or more, and any clearings, the
  -- average latency of the system and of each node lies between bounds that hold the minimum latency
  -- and the latencies of the samples, and the requests of the nodes add up to the total.
  pub table_steps-IsAveraged :
      (steps : List (TableStep R))
      → Within lo hi machine.minimum_latency
      → All StepWithin steps
      → IsAveraged machine lo hi (table_steps machine steps)
  unfolding table_steps
  table_steps-IsAveraged [] h all = new_table-IsAveraged machine lo hi h
  table_steps-IsAveraged (sampled s aging ∷ older) h ((node, pos, k), all) =
      add_data-IsAveraged machine lo hi s aging _ node pos k (table_steps-IsAveraged older h all)
  table_steps-IsAveraged (cleared fake_thp contains ∷ older) h (step, all) =
      clear_it-IsAveraged machine lo hi fake_thp contains _ h (table_steps-IsAveraged older h all)

module _ {R : Type 0} where
  -- Of a table with nodes, the node of the least average latency is one of them, and none of them
  -- has a lower average.
  pub node_min_av_latency-IsMax :
      (t : Table R) (l : ℕ) (ls : List ℕ)
      → t.node_latencies ≡ l ∷ ls
      → IsMax (flip_order ltb_order) 0 t.node_latencies (node_min_av_latency t)
  unfolding node_min_av_latency min_element
  node_min_av_latency-IsMax t l ls e =
      let m = max_element-IsMax (flip_order ltb_order) 0 l ls in rw e m
