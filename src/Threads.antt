-- ===== src/Threads.antt =====
-- Where threads run: the pinning of src/system_info/processes/process.hpp and the maps from
-- processors and nodes to threads of src/system_info/system_info.hpp. Processes are found by their
-- number; the tree that owns them is the module Tree, and its insert a parameter here. The calls that
-- set affinities and what reads /proc are parameters; numbers of processors and nodes index the maps.
pub mod Placement
pub mod Sets
pub mod Moves
pub mod Cells
pub mod Pinning
pub mod Repins
mod Tests
use csci555_usc.Base.{
  ℕ, ◌+◌, Bool, true, false, not, ◌&&◌, Option, none, some, List, [], ◌∷◌, ◌==◌, if◌then◌else◌,
  get_or, set, map, insert, erase, insert_all, contains,
}
use csci555_usc.Pages.Table.{find, modify}

pub record Process : Type 0 where
  pub pid : ℕ
  pub processor : ℕ
  pub numa_node : ℕ
  pub pinned : Bool
  pub pinned_processor : ℕ
  pub pinned_numa_node : ℕ
  -- cpu_use() < IDLE_THRESHOLD
  pub idle : Bool

-- The kernel: what sets an affinity to a list of processors, and how nodes and processors lie.
pub record Kernel (K : Type 0) : Type 0 where
  -- true for success
  pub set_affinity : ℕ → List ℕ → K → Bool × K
  pub numa_node_of_cpu : ℕ → ℕ
  -- the processors of a node in ascending order, or an error
  pub numa_node_to_cpus : ℕ → Option (List ℕ)
  -- the processors of the daemon itself, which an unpinned process gets
  pub default_affinity : List ℕ
  -- `process_tree::insert`, of an unknown process and the processes known: the process that is read
  -- from /proc and the processes known with it and its ancestors, or an exception
  pub insert_process : ℕ → List (ℕ × Process) → Option (Process × List (ℕ × Process))

pub record System : Type 0 where
  pub processes : List (ℕ × Process)
  pub nodes : List ℕ
  pub cpu_node_map : List ℕ
  pub cpu_tid_map : List (List ℕ)
  pub node_tid_map : List (List ℕ)

-- A change of one set of a map.
abbrev pub at_index : List (List ℕ) → ℕ → (List ℕ → List ℕ) → List (List ℕ)
at_index sets i f = set sets i (f (get_or sets i []))

module _ {K : Type 0} (kernel : Kernel K) where
  unfoldable pub pin : ℕ → Process → K → Bool × Process × K
  pin cpu p k =
      let r = kernel.set_affinity p.pid (cpu ∷ []) k in
      if cpu == p.processor && p.pinned
      then (true, p, k)
      else if not r.0
      then (false, p, r.1)
      else (
        true,
        record p {
          pinned = true;
          pinned_processor = cpu;
          pinned_numa_node = kernel.numa_node_of_cpu p.processor;
        },
        r.1,
      )

  -- The first processor of the node, or the one it was pinned to.
  first_cpu : List ℕ → ℕ → ℕ
  first_cpu [] old = old
  first_cpu (cpu ∷ cpus) old = cpu

  unfoldable pub pin_node : ℕ → Process → K → Bool × Process × K
  unfolding first_cpu
  pin_node node p k = elim (kernel.numa_node_to_cpus node) [
    | none ↦ (false, p, k)
    | some cpus ↦
        let r = kernel.set_affinity p.pid cpus k in
        if not r.0 then (false, p, r.1) else (
          true,
          record p {
            pinned = true;
            pinned_numa_node = node;
            pinned_processor = first_cpu cpus p.pinned_processor;
          },
          r.1,
        )
  ]

  -- `unpin` is const: the process keeps saying that it is pinned.
  unfoldable pub unpin : Process → K → Bool × K
  unpin p k =
      let r = kernel.set_affinity p.pid kernel.default_affinity k in
      if not p.pinned then (true, k) else r

  -- An unknown process is inserted; `none` is the exception.
  unfoldable pub retrieve : ℕ → System → Option (Process × System)
  unfolding find
  retrieve tid st = elim (find tid st.processes) [
    | some p ↦ some (p, st)
    | none ↦ elim (kernel.insert_process tid st.processes) [
      | none ↦ none
      | some (p, processes) ↦ some (p, record st { processes = processes })
    ]
  ]

  -- The maps after `pin(cpu)` succeeded and left the process as `q`.
  unfoldable pub moved_to_cpu : ℕ → ℕ → Process → Process → System → System
  moved_to_cpu tid cpu p q st =
      let old_cpu = p.pinned_processor in
      let old_node = get_or st.cpu_node_map old_cpu 0 in
      let new_node = get_or st.cpu_node_map cpu 0 in
      let procs = modify tid (λ _. q) st.processes in
      if old_cpu == q.pinned_processor then record st { processes = procs } else record st {
        processes = procs;
        cpu_tid_map = at_index (at_index st.cpu_tid_map old_cpu (erase tid)) cpu (insert tid);
        node_tid_map =
            if old_node == new_node
            then st.node_tid_map
            else at_index (at_index st.node_tid_map old_node (erase tid)) new_node (erase tid);
      }

  unfoldable pub pin_thread_to_cpu : ℕ → ℕ → System → K → Option (Bool × System × K)
  unfolding retrieve modify pin moved_to_cpu
  pin_thread_to_cpu tid cpu st k =
      if tid == 0 then some (false, st, k) else elim (retrieve tid st) [
        | none ↦ none
        | some (p, st') ↦
            let r = pin cpu p k in
            if r.0 then some (true, moved_to_cpu tid cpu p r.1 st', r.2) else some (false, st', r.2)
      ]

  -- The maps after `pin_node(node)` succeeded.
  unfoldable pub moved_to_node : ℕ → ℕ → Process → Process → System → System
  moved_to_node tid node p q st =
      let old_cpu = p.pinned_processor in
      let old_node = get_or st.cpu_node_map old_cpu 0 in
      let procs = modify tid (λ _. q) st.processes in
      if old_cpu == q.pinned_processor then record st { processes = procs } else record st {
        processes = procs;
        cpu_tid_map =
            at_index (at_index st.cpu_tid_map old_cpu (erase tid)) q.pinned_processor (insert tid);
        node_tid_map =
            if old_node == node
            then st.node_tid_map
            else at_index (at_index st.node_tid_map old_node (erase tid)) node (erase tid);
      }

  unfoldable pub pin_thread_to_node : ℕ → ℕ → System → K → Option (Bool × System × K)
  unfolding retrieve modify pin_node moved_to_node
  pin_thread_to_node tid node st k =
      if tid == 0 then some (false, st, k) else elim (retrieve tid st) [
        | none ↦ none
        | some (p, st') ↦
            let r = pin_node node p k in
            if r.0
            then some (true, moved_to_node tid node p r.1 st', r.2)
            else some (false, st', r.2)
      ]

  -- The variants on a process of the tree.
  unfoldable pub pin_process_to_cpu : Process → System → K → Bool × System × K
  unfolding pin modify
  pin_process_to_cpu p st k =
      let r = pin p.pinned_processor p k in
      let q = r.1 in
      if r.0
      then (
        true,
        record st {
          processes = modify p.pid (λ _. q) st.processes;
          cpu_tid_map = at_index st.cpu_tid_map q.pinned_processor (insert p.pid);
          node_tid_map = at_index st.node_tid_map q.pinned_numa_node (insert p.pid);
        },
        r.2,
      )
      else (false, st, r.2)

  unfoldable pub unpin_thread : Process → System → K → Bool × System × K
  unfolding unpin
  unpin_thread p st k =
      let r = unpin p k in
      if r.0
      then (
        true,
        record st {
          cpu_tid_map = at_index st.cpu_tid_map p.pinned_processor (erase p.pid);
          node_tid_map = at_index st.node_tid_map p.pinned_numa_node (erase p.pid);
        },
        r.1,
      )
      else (false, st, r.1)

  unfoldable pub pin_process_to_node : Process → System → K → Bool × System × K
  unfolding pin_node modify
  pin_process_to_node p st k =
      let r = pin_node p.pinned_numa_node p k in
      let q = r.1 in
      let node = get_or st.cpu_node_map q.pinned_processor 0 in
      if r.0
      then (
        true,
        record st {
          processes = modify p.pid (λ _. q) st.processes;
          node_tid_map = at_index st.node_tid_map node (insert p.pid);
        },
        r.2,
      )
      else (false, st, r.2)

  -- The loops of the functions that pin all threads, or all that are not idle, over the children;
  -- `pin_process` pins one to a processor or to a node.
  pin_children :
      (Process → System → K → Bool × System × K)
      → Bool
      → List Process
      → Bool
      → System
      → K
      → Bool × System × K
  unfolding unpin_thread
  pin_children pin_process ignore_idle [] success st k = (success, st, k)
  pin_children pin_process ignore_idle (p ∷ ps) success st k =
      let r = if ignore_idle && p.idle then unpin_thread p st k else pin_process p st k in
      pin_children pin_process ignore_idle ps (success && r.0) r.1 r.2

  -- The root is pinned whether or not it is idle.
  unfoldable pub pin_threads_cpu : Bool → Process → List Process → System → K → Bool × System × K
  unfolding pin_children pin_process_to_cpu
  pin_threads_cpu ignore_idle root children st k =
      let r = pin_process_to_cpu root st k in
      pin_children pin_process_to_cpu ignore_idle children r.0 r.1 r.2

  unfoldable pub pin_threads_node : Bool → Process → List Process → System → K → Bool × System × K
  unfolding pin_children pin_process_to_node
  pin_threads_node ignore_idle root children st k =
      let r = pin_process_to_node root st k in
      pin_children pin_process_to_node ignore_idle children r.0 r.1 r.2

  -- The loop of unpin_all_threads over the children; the maps are not changed.
  unfoldable pub unpin_all_threads : List Process → K → Bool × K
  unfolding unpin
  unpin_all_threads [] k = (true, k)
  unpin_all_threads (p ∷ ps) k =
      let r = unpin p k in let rest = unpin_all_threads ps r.1 in (r.0 && rest.0, rest.1)

  unfoldable pub remove_pid : ℕ → System → K → Option (System × K)
  unfolding retrieve unpin_thread
  remove_pid tid st k = elim (retrieve tid st) [
    | none ↦ none
    | some (p, st') ↦
        let erased = record st' {
          cpu_tid_map = at_index st'.cpu_tid_map p.processor (erase tid);
        } in
        let r = unpin_thread p erased k in some (r.1, r.2)
  ]
