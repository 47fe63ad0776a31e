-- ===== src/Pages/Table.antt =====
-- `mempages_table` of src/migration/performance/mempages_table.hpp: the rows of the sampled pages and
-- the averages of the system and of its nodes. The unordered map is an association list in the order
-- of insertion. `memory_info::contains` and the state of the fake huge pages are arguments.
pub mod History
pub mod Averages
pub mod Keys
use csci555_usc.Base.{
  ℕ, ◌+◌, ◌*◌, ◌/◌, ◌≡◌, refl, Bool, true, false, not, ◌&&◌, Option, none, some, List, [], ◌∷◌,
  ◌++◌, arith, ltb, flip_order, ltb_order, ◌==◌, if◌then◌else◌, length, get_or, set, replicate, sum,
  max_element, min_element, IsMax, max_element-IsMax,
}
use csci555_usc.Real.{Real}
use csci555_usc.Machine.{Machine}
use csci555_usc.Pages.Row as PagesRow
use csci555_usc.Pages.Row.{Row, Sample, new_row, enough_info, fill}

pub record Table (R : Type 0) : Type 0 where
  pub table : List (ℕ × Row R)
  pub accesses : ℕ
  pub av_latency : ℕ
  pub node_latencies : List ℕ
  pub node_accesses : List ℕ

module _ {A : Type 0} where
  unfoldable pub find : ℕ → List (ℕ × A) → Option A
  find page [] = none
  find page ((p, a) ∷ rows) = if page == p then some a else find page rows

  -- `table_it->second = …`
  unfoldable pub modify : ℕ → (A → A) → List (ℕ × A) → List (ℕ × A)
  modify page f [] = []
  modify page f ((p, a) ∷ rows) = if page == p then (p, f a) ∷ rows else (p, a) ∷ modify page f rows

  -- `table_.erase(page)`
  pub remove : ℕ → List (ℕ × A) → List (ℕ × A)
  remove page [] = []
  remove page ((p, a) ∷ rows) = if page == p then rows else (p, a) ∷ remove page rows

  -- The loops of `clear_it`: the addresses to remove, and their removal.
  pub invalid : (ℕ → Bool) → List (ℕ × A) → List ℕ
  invalid contains [] = []
  invalid contains ((p, a) ∷ rows) =
      if not (contains p) then p ∷ invalid contains rows else invalid contains rows

  pub remove_all : List ℕ → List (ℕ × A) → List (ℕ × A)
  unfolding remove
  remove_all [] rows = rows
  remove_all (p ∷ ps) rows = remove_all ps (remove p rows)

count_enough : {R : Type 0} → List (ℕ × Row R) → ℕ
count_enough [] = 0
count_enough ((p, r) ∷ rows) = (if enough_info r then 1 else 0) + count_enough rows

module _ {R : Type 0} where
  unfoldable pub pages_with_enough_info : Table R → ℕ
  unfolding count_enough
  pages_with_enough_info t = count_enough t.table

  unfoldable pub remove_entry : ℕ → Table R → Table R
  unfolding remove
  remove_entry page t = record t { table = remove page t.table }

  unfoldable pub node_min_av_latency : Table R → ℕ
  node_min_av_latency t = min_element ltb t.node_latencies

  unfoldable pub node_max_av_latency : Table R → ℕ
  node_max_av_latency t = max_element ltb t.node_latencies

  -- Of a page that the table has; `at` throws for another.
  unfoldable pub rel_latency : ℕ → Table R → Option ℕ
  unfolding find
  rel_latency page t = elim (find page t.table) [
    | none ↦ none
    | some r ↦ some (r.av_latency * 100 / t.av_latency)
  ]

module _ {R : Type 0} ⦃real : Real R⦄ (machine : Machine) where
  unfoldable pub new_table : Table R
  new_table = record {
    table = [];
    accesses = 0;
    av_latency = machine.minimum_latency;
    node_latencies = replicate (machine.max_node + 1) machine.minimum_latency;
    node_accesses = replicate (machine.max_node + 1) 0;
  }

  -- A page without a row gets one at its first sample.
  with_entry : Sample → List (ℕ × Row R) → List (ℕ × Row R)
  unfolding find
  with_entry s rows = elim (find s.page rows) [
    | none ↦ rows ++ (s.page, new_row machine s.tid s.page_node) ∷ []
    | some r ↦ rows
  ]

  unfoldable pub add_data : Sample → R → Table R → Table R
  unfolding with_entry modify
  add_data s aging_factor t =
      let node = s.page_node in
      let acc = get_or t.node_accesses node 0 in
      record t {
        table = modify s.page (PagesRow.add_data machine s aging_factor) (with_entry s t.table);
        node_latencies =
            set t.node_latencies node
              ((acc * get_or t.node_latencies node 0 + s.latency * s.reqs) / (acc + s.reqs));
        node_accesses = set t.node_accesses node (acc + s.reqs);
        av_latency = (t.av_latency * t.accesses + s.latency * s.reqs) / (t.accesses + s.reqs);
        accesses = t.accesses + s.reqs;
      }

  unfoldable pub clear_it : Bool → (ℕ → Bool) → Table R → Table R
  unfolding invalid remove_all
  clear_it fake_thp contains t = if fake_thp then record t { table = [] } else record t {
    table = remove_all (invalid contains t.table) t.table;
    accesses = 0;
    av_latency = machine.minimum_latency;
    node_latencies = fill t.node_latencies machine.minimum_latency;
    node_accesses = fill t.node_accesses 0;
  }
