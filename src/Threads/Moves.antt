-- ===== src/Threads/Moves.antt =====
-- The threads that the maps of src/system_info/system_info.hpp list, and those that an update takes
-- out of them.
use csci555_usc.Base.{
  ℕ, zero, suc, ◌≡◌, refl, ap, Bool, true, false, not, ◌&&◌, ◌||◌, List, [], ◌∷◌, ◌==◌, arith,
  if◌then◌else◌, get_or, map, contains, erase, contains-erase, insert_all, contains-insert_all,
  ==→eq,
}
use csci555_usc.Threads.{System}
use csci555_usc.Threads.Sets.{holds}

erase_all : List ℕ → List ℕ → List ℕ
unfolding erase
erase_all [] tids = tids
erase_all (p ∷ ps) tids = erase_all ps (erase p tids)

-- Each pid is erased from every set.
unfoldable pub remove_invalid_data : List ℕ → System → System
unfolding erase_all
remove_invalid_data invalid_pids st = record st {
  cpu_tid_map = map (erase_all invalid_pids) st.cpu_tid_map;
  node_tid_map = map (erase_all invalid_pids) st.node_tid_map;
}

missing : List ℕ → List ℕ → List ℕ
missing [] children = []
missing (p ∷ last) children =
    if not (contains p children) then p ∷ missing last children else missing last children

-- `update`, of the children before and after the tree was read anew.
unfoldable pub update : List ℕ → List ℕ → System → List ℕ × System
unfolding missing remove_invalid_data
update last_children children st =
    let threads_to_remove = missing last_children children in
    (threads_to_remove, remove_invalid_data threads_to_remove st)

module _ (is_idle : ℕ → Bool) where
  unfoldable pub non_idle : List ℕ → List ℕ
  non_idle [] = []
  non_idle (tid ∷ tids) = if not (is_idle tid) then tid ∷ non_idle tids else non_idle tids

  unfoldable pub tids_of_nodes : Bool → List ℕ → List (List ℕ) → List ℕ → List ℕ
  unfolding non_idle insert_all
  tids_of_nodes ignore_idle [] node_tid_map found = found
  tids_of_nodes ignore_idle (node ∷ nodes) node_tid_map found =
      let here = get_or node_tid_map node [] in
      tids_of_nodes ignore_idle nodes node_tid_map
        (insert_all (if ignore_idle then non_idle here else here) found)

  unfoldable pub tids : Bool → System → List ℕ
  unfolding tids_of_nodes
  tids ignore_idle st = tids_of_nodes ignore_idle st.nodes st.node_tid_map []

contains-erase_all :
    (p : ℕ) (ps set : List ℕ)
    → contains p (erase_all ps set) ≡ (contains p set && not (contains p ps))
unfolding erase_all
contains-erase_all p [] set = ground arith
contains-erase_all p (q ∷ ps) set =
    ground (arith, contains-erase_all p ps (erase q set), contains-erase q p set)

holds-map :
    (p c : ℕ) (ps : List ℕ) (sets : List (List ℕ))
    → holds p (map (erase_all ps) sets) c ≡ (holds p sets c && not (contains p ps))
holds-map p c ps [] = refl
holds-map p zero ps (s ∷ sets) = contains-erase_all p ps s
holds-map p (suc c) ps (s ∷ sets) = holds-map p c ps sets

contains-missing :
    (p : ℕ) (last children : List ℕ)
    → contains p (missing last children) ≡ (contains p last && not (contains p children))
unfolding missing
contains-missing p [] children = refl
contains-missing p (q ∷ last) children =
    ground (arith, contains-missing p last children, same p q children)
  where
    same : (p q : ℕ) (xs : List ℕ) → p == q ≡ true → contains p xs ≡ contains q xs
    same p q xs e = ap (λ n. contains n xs) (==→eq p q e)

-- An update reports the threads that were children and are no more, takes them out of the sets of
-- all processors and nodes, and leaves the other threads there.
pub update-holds :
    (last_children children : List ℕ) (st : System) (tid i : ℕ)
    → let gone = contains tid last_children && not (contains tid children) in
      let r = update last_children children st in
      (contains tid r.0 ≡ gone)
      × (holds tid r.1.cpu_tid_map i ≡ (holds tid st.cpu_tid_map i && not gone))
      × (holds tid r.1.node_tid_map i ≡ (holds tid st.node_tid_map i && not gone))
unfolding update remove_invalid_data
update-holds last_children children st tid i =
    let m = contains-missing tid last_children children in
    let ps = missing last_children children in
    let cpus = holds-map tid i ps st.cpu_tid_map in
    let nodes = holds-map tid i ps st.node_tid_map in (m, rw m at cpus, rw m at nodes)

-- Some of the nodes has the thread.
abbrev pub on_nodes : ℕ → List ℕ → List (List ℕ) → Bool
on_nodes tid [] sets = false
on_nodes tid (node ∷ nodes) sets = holds tid sets node || on_nodes tid nodes sets

module _ (is_idle : ℕ → Bool) where
  same_idle : (p q : ℕ) → p == q ≡ true → is_idle p ≡ is_idle q
  same_idle p q e = ap is_idle (==→eq p q e)

  pub contains-non_idle :
      (tid : ℕ) (set : List ℕ)
      → contains tid (non_idle is_idle set) ≡ (contains tid set && not (is_idle tid))
  unfolding non_idle
  contains-non_idle tid [] = refl
  contains-non_idle tid (t ∷ set) = ground (arith, contains-non_idle tid set, same_idle tid t)

  contains-tids_of_nodes :
      (ignore_idle : Bool) (tid : ℕ) (nodes : List ℕ) (sets : List (List ℕ)) (found : List ℕ)
      → contains tid (tids_of_nodes is_idle ignore_idle nodes sets found)
        ≡ (contains tid found || (on_nodes tid nodes sets && not (ignore_idle && is_idle tid)))
  unfolding tids_of_nodes
  contains-tids_of_nodes ignore_idle tid [] sets found = ground arith
  contains-tids_of_nodes true tid (node ∷ nodes) sets found =
      let here = get_or sets node [] in
      ground (
        arith,
        contains-tids_of_nodes true tid nodes sets (insert_all (non_idle is_idle here) found),
        contains-insert_all (non_idle is_idle here) tid found,
        contains-non_idle tid here,
      )
  contains-tids_of_nodes false tid (node ∷ nodes) sets found =
      let here = get_or sets node [] in
      ground (
        arith,
        contains-tids_of_nodes false tid nodes sets (insert_all here found),
        contains-insert_all here tid found,
      )

  -- The threads listed are those in the set of some node of the system, without the idle ones if
  -- these are ignored.
  pub contains-tids :
      (ignore_idle : Bool) (st : System) (tid : ℕ)
      → contains tid (tids is_idle ignore_idle st)
        ≡ (on_nodes tid st.nodes st.node_tid_map && not (ignore_idle && is_idle tid))
  unfolding tids
  contains-tids ignore_idle st tid =
      contains-tids_of_nodes ignore_idle tid st.nodes st.node_tid_map []
