-- ===== src/Tree.antt =====
-- The tree of processes, src/system_info/processes/process_tree.hpp, with the members of
-- src/system_info/processes/process.hpp that it calls. The tree owns the processes, at most one for a
-- pid, so a pointer to a process is its pid; a pointer whose process is gone is dangling, and to follow
-- it is a fault. The map is an association list in the order of its walk. `stat` is what reading
-- /proc/PID/stat gives: the parent's pid, or nothing.
pub mod Links
pub mod Cut
pub mod Children
pub mod Erasing
pub mod Adding
pub mod Constructing
pub mod Inserting
pub mod Updating
pub mod Shrinking
pub mod Stranding
pub mod Ending
pub mod Unlinking
pub mod Growing
mod Tests
use csci555_usc.Base.{
  ℕ, zero, suc, Bool, true, false, not, ◌&&◌, Option, none, some, List, [], ◌∷◌, ◌==◌, ltb,
  if◌then◌else◌, insert, erase,
}
use csci555_usc.Pages.Table.{find, modify}

pub record Node : Type 0 where
  pub ppid : ℕ
  pub valid : Bool
  pub parent : Option ℕ
  pub children : List ℕ

abbrev pub Tree : Type 0
Tree = List (ℕ × Node)

pub data Outcome (A : Type 0) : Type 0 where
  done : A → Outcome A
  dangling : Outcome A
  out_of_fuel : Outcome A

infixl 5 ◌>>=◌
abbrev pub ◌>>=◌ : {A B : Type 0} → Outcome A → (A → Outcome B) → Outcome B
done a >>= f = f a
dangling >>= f = dangling
out_of_fuel >>= f = out_of_fuel

-- Following a pointer.
unfoldable pub load : ℕ → Tree → Outcome Node
unfolding find
load pid t = elim (find pid t) [ none ↦ dangling | some n ↦ done n ]

unfoldable pub add_children : ℕ → ℕ → Tree → Outcome Tree
unfolding load modify insert
add_children parent child t = do
  n ← load parent t
  done (modify parent (λ p. record p { children = insert child p.children }) t)

unfoldable pub remove_children : ℕ → ℕ → Tree → Outcome Tree
unfolding load modify erase
remove_children parent child t = do
  n ← load parent t
  done (modify parent (λ p. record p { children = erase child p.children }) t)

-- `processes_.erase(pid)`
unfoldable pub without : ℕ → Tree → Tree
without pid [] = []
without pid ((k, n) ∷ t) = let rest = without pid t in if pid == k then rest else (k, n) ∷ rest

-- `processes_.insert`, which keeps what is there.
unfoldable pub emplace : ℕ → Node → Tree → Tree
unfolding find
emplace pid n t = elim (find pid t) [ none ↦ (pid, n) ∷ t | some old ↦ t ]

-- The constructor of a process: what it reads, and whether it adds itself to the parent's children.
unfoldable pub construct : (ℕ → Option ℕ) → ℕ → Option ℕ → Tree → Outcome (Node × Tree)
unfolding add_children
construct stat pid parent t = elim (stat pid) [
  | none ↦ done (record { ppid = 0; valid = false; parent = parent; children = [] }, t)
  | some ppid ↦
      let n : Node = record { ppid = ppid; valid = true; parent = parent; children = [] } in
      elim parent [ none ↦ done (n, t) | some q ↦ add_children q pid t >>= λ t'. done (n, t') ]
]

-- The end of `insert`: the parent that was given or found, and the process in the map.
unfoldable pub attach : ℕ → Node → Option ℕ → Tree → Outcome Tree
unfolding add_children emplace
attach pid n none t = done (emplace pid n t)
attach pid n (some q) t =
    add_children q pid t >>= λ t'. done (emplace pid (record n { parent = some q }) t')

-- `retrieve`, of a pid that may have to be inserted by `ins`.
unfoldable pub retrieve_by :
    (ℕ → Option ℕ → Tree → Outcome Tree) → ℕ → Option ℕ → Tree → Outcome Tree
unfolding find
retrieve_by ins pid parent t = elim (find pid t) [ some n ↦ done t | none ↦ ins pid parent t ]

-- Without a parent, and unless it is the daemon itself, the process looks for its parent by the pid
-- that it read.
unfoldable pub climbs : ℕ → ℕ → Option ℕ → Node → Bool
climbs self pid parent n =
    not (pid == self) && not (n.ppid == 0) && elim parent [ none ↦ true | some q ↦ false ]

unfoldable pub insert_process : (ℕ → Option ℕ) → ℕ → ℕ → ℕ → Option ℕ → Tree → Outcome Tree
unfolding construct attach retrieve_by climbs
insert_process stat self zero pid parent t = out_of_fuel
insert_process stat self (suc fuel) pid parent t = elim (find pid t) [
  | some n ↦ done t
  | none ↦ construct stat pid parent t >>= λ r. elim (climbs self pid parent r.0) [
    | true ↦ retrieve_by (insert_process stat self fuel) r.0.ppid none r.1 >>= λ t'.
        attach pid r.0 (some r.0.ppid) t'
    | false ↦ attach pid r.0 parent r.1
  ]
]

unfoldable pub retrieve : (ℕ → Option ℕ) → ℕ → ℕ → ℕ → Option ℕ → Tree → Outcome Tree
unfolding retrieve_by insert_process
retrieve stat self fuel = retrieve_by (insert_process stat self fuel)

-- The constructor of the tree.
unfoldable pub new_tree : (ℕ → Option ℕ) → ℕ → Outcome Tree
unfolding construct
new_tree stat root = construct stat root none [] >>= λ r. done ((root, r.0) ∷ [])

-- The loop of `erase` over a copy of the children, `rec` being `erase`.
unfoldable pub erase_children : (ℕ → Tree → Outcome Tree) → List ℕ → Tree → Outcome Tree
unfolding load
erase_children rec [] t = done t
erase_children rec (c ∷ cs) t = load c t >>= λ n. rec c t >>= λ t'. erase_children rec cs t'

-- The rest of `erase`, once the children are gone.
unfoldable pub erase_self : ℕ → Tree → Outcome Tree
unfolding load remove_children without
erase_self pid t = load pid t >>= λ n. elim n.parent [
  | none ↦ done (without pid t)
  | some q ↦ remove_children q pid t >>= λ t'. done (without pid t')
]

unfoldable pub erase_process : ℕ → ℕ → Tree → Outcome Tree
unfolding find erase_children erase_self
erase_process zero pid t = out_of_fuel
erase_process (suc fuel) pid t = elim (find pid t) [
  | none ↦ done t
  | some n ↦ erase_children (erase_process fuel) n.children t >>= λ t'. erase_self pid t'
]

-- The loops that erase the pids of a set.
unfoldable pub erase_all : ℕ → List ℕ → Tree → Outcome Tree
unfolding erase_process
erase_all fuel [] t = done t
erase_all fuel (pid ∷ pids) t = erase_process fuel pid t >>= λ t'. erase_all fuel pids t'

-- An insertion into a std::set, which is ordered.
unfoldable pub insert_ordered : ℕ → List ℕ → List ℕ
insert_ordered a [] = a ∷ []
insert_ordered a (x ∷ xs) =
    let rest = insert_ordered a xs in
    if a == x then x ∷ xs else if ltb a x then a ∷ x ∷ xs else x ∷ rest

-- `process::update` of every process.
unfoldable pub refresh : (ℕ → Option ℕ) → Tree → Tree
refresh stat [] = []
refresh stat ((pid, n) ∷ t) =
    (
      pid,
      elim (stat pid) [
        | none ↦ record n { valid = false }
        | some ppid ↦ record n { valid = true; ppid = ppid }
      ],
    )
    ∷ refresh stat t

-- The pids of the processes that are not valid.
unfoldable pub invalid_pids : Tree → List ℕ
unfolding insert_ordered
invalid_pids [] = []
invalid_pids ((pid, n) ∷ t) =
    let rest = invalid_pids t in if n.valid then rest else insert_ordered pid rest

-- The tree and whether all processes could be read.
unfoldable pub update : (ℕ → Option ℕ) → ℕ → Tree → Outcome (Tree × Bool)
unfolding refresh invalid_pids erase_all
update stat fuel t =
    let t' = refresh stat t in
    let to_erase = invalid_pids t' in
    erase_all fuel to_erase t' >>= λ left. done (left, elim to_erase [ [] ↦ true | _ ∷ _ ↦ false ])

unfoldable pub is_alive : ℕ → Tree → Bool
unfolding find
is_alive pid t = elim (find pid t) [ none ↦ false | some n ↦ n.valid ]

-- The first loop of `erase_invalid`, over the processes in their order.
unfoldable pub unlink_invalid : List (ℕ × Node) → Tree → Outcome Tree
unfolding remove_children
unlink_invalid [] t = done t
unlink_invalid ((pid, n) ∷ ns) t =
    elim n.valid [
      | true ↦ done t
      | false ↦ elim n.parent [ none ↦ done t | some q ↦ remove_children q pid t ]
    ]
    >>= λ t'. unlink_invalid ns t'

unfoldable pub erase_invalid : ℕ → Tree → Outcome (Tree × List ℕ)
unfolding unlink_invalid invalid_pids erase_all
erase_invalid fuel t =
    let to_delete = invalid_pids t in
    unlink_invalid t t >>= λ t'. erase_all fuel to_delete t' >>= λ left. done (left, to_delete)
