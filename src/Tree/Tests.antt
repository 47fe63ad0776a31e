-- ===== src/Tree/Tests.antt =====
-- Runs of the tree of processes, and its theorems at concrete trees.
use csci555_usc.Base.{
  ◌+◌, ℕ, zero, suc, ◌<◌, ◌≤◌, ◌≡◌, ◌≢◌, refl, Bool, true, false, Option, none, some, List, [], ◌∷◌,
  ◌==◌, arith, if◌then◌else◌,
}
use csci555_usc.Pages.Table.{find}
use csci555_usc.Tree.{
  Node, Tree, done, dangling, new_tree, insert_process, erase_process, update, erase_invalid,
}
use csci555_usc.Tree.Links.{IsTree}
use csci555_usc.Tree.Children.{Settles}
use csci555_usc.Tree.Erasing.{LessDescendants, erase_process-IsTree}
use csci555_usc.Tree.Inserting.{Inserted, insert_process-Inserted}
use csci555_usc.Tree.Updating.{Updated, update-IsTree}
use csci555_usc.Tree.Unlinking.{erase_invalid-dangling}
use csci555_usc.Tree.Growing.{Grown, start, inserted, Grown-IsTree}

-- 4 is a child of 3, 3 and 2 of 1.
abbrev stat : ℕ → Option ℕ
stat pid =
    if pid == 4
    then some 3
    else if pid == 3
    then some 1
    else if pid == 2
    then some 1
    else if pid == 1
    then some 0
    else none

parents_first : (p ppid : ℕ) → stat p ≡ some ppid → ppid == 0 ≡ false → ppid < p
parents_first p ppid e h = ground (arith, e, h)

abbrev node : ℕ → Bool → Option ℕ → List ℕ → Node
node ppid valid parent children = record {
  ppid = ppid;
  valid = valid;
  parent = parent;
  children = children;
}

abbrev first : Tree
first = (1, node 0 true none []) ∷ []

abbrev family : Tree
family =
    (4, node 3 true (some 3) [])
    ∷ (3, node 1 true (some 1) (4 ∷ []))
    ∷ (1, node 0 true none (3 ∷ []))
    ∷ []

first-Grown : Grown first
unfolding new_tree
first-Grown = start stat 1 refl

-- Inserting 4 inserts its parent.
family-Grown : Grown family
unfolding insert_process
family-Grown = inserted first-Grown stat 9 (λ p. p) 4 none parents_first (λ q e. cc) (3, enough)
  where
    enough : (fuel : ℕ) → 3 ≤ fuel → insert_process stat 9 fuel 4 none first ≡ done family
    enough zero h = absurd (omega arith)
    enough (suc zero) h = absurd (omega arith)
    enough (suc (suc f)) h = refl

family-IsTree : (rank : ℕ → ℕ) × (bound : ℕ) × IsTree rank bound family
family-IsTree = Grown-IsTree family-Grown

Grown-IsTree_example : (rank : ℕ → ℕ) × (bound : ℕ) × IsTree rank bound family
Grown-IsTree_example = Grown-IsTree family-Grown

erase_process-IsTree_example :
    Settles
      (λ fuel. erase_process fuel 3 family)
      (λ fuel. family-IsTree.1 < fuel)
      (λ u.
        IsTree family-IsTree.0 family-IsTree.1 u
        × LessDescendants family-IsTree.0 family-IsTree.1 3 family u)
erase_process-IsTree_example =
    erase_process-IsTree family-IsTree.0 family-IsTree.1 3 family family-IsTree.2

-- 3 cannot be read any more.
abbrev less : ℕ → Option ℕ
less pid = if pid == 3 then none else stat pid

update-IsTree_example :
    Settles
      (λ fuel. update less fuel family)
      (λ fuel. family-IsTree.1 < fuel)
      (λ r.
        IsTree family-IsTree.0 family-IsTree.1 r.0
        × Updated less family r.0
        × (r.1 ≡ true → (x : ℕ) (p : Node) → find x family ≡ some p → less x ≢ none))
update-IsTree_example = update-IsTree less family-IsTree.0 family-IsTree.1 family family-IsTree.2

updated : update less 4 family ≡ done ((1, node 0 true none []) ∷ [], false)
unfolding update
updated = refl

insert_process-Inserted_example :
    Settles
      (λ fuel. insert_process stat 9 fuel 2 none family)
      (λ fuel. 2 < fuel)
      (Inserted (λ p. p) 2 family)
insert_process-Inserted_example =
    insert_process-Inserted stat 9 (λ p. p) parents_first 2 none family-IsTree.0 family-IsTree.1
      family family-IsTree.2 (λ q e. cc)

-- 3 and 4 were never read.
abbrev unread : Tree
unread =
    (4, node 0 false (some 3) [])
    ∷ (3, node 0 false (some 1) (4 ∷ []))
    ∷ (1, node 0 true none (3 ∷ []))
    ∷ []

abbrev no_stat : ℕ → Option ℕ
no_stat pid = none

unread-Grown : Grown unread
unfolding insert_process
unread-Grown =
    inserted
      (inserted first-Grown no_stat 9 (λ p. p) 3 (some 1) (λ p ppid e h. cc)
        (λ q e. (node 0 true none [], one q e)) (1, first_run))
      no_stat 9 (λ p. p) 4 (some 3) (λ p ppid e h. cc)
      (λ q e. (node 0 false (some 1) [], three q e)) (1, second_run)
  where
    one : (q : ℕ) → some 1 ≡ some q → find q first ≡ some (node 0 true none [])
    one q e = let is : 1 ≡ q = cc e in ground (arith, is)

    three :
        (q : ℕ)
        → some 3 ≡ some q
        → find q ((3, node 0 false (some 1) []) ∷ (1, node 0 true none (3 ∷ [])) ∷ [])
          ≡ some (node 0 false (some 1) [])
    three q e = let is : 3 ≡ q = cc e in ground (arith, is)

    first_run :
        (fuel : ℕ)
        → 1 ≤ fuel
        → insert_process no_stat 9 fuel 3 (some 1) first
          ≡ done ((3, node 0 false (some 1) []) ∷ (1, node 0 true none (3 ∷ [])) ∷ [])
    first_run zero h = absurd (omega arith)
    first_run (suc f) h = refl

    second_run :
        (fuel : ℕ)
        → 1 ≤ fuel
        → insert_process no_stat 9 fuel 4
            (some 3)
            ((3, node 0 false (some 1) []) ∷ (1, node 0 true none (3 ∷ [])) ∷ [])
          ≡ done unread
    second_run zero h = absurd (omega arith)
    second_run (suc f) h = refl

unread-IsTree : (rank : ℕ → ℕ) × (bound : ℕ) × IsTree rank bound unread
unread-IsTree = Grown-IsTree unread-Grown

erase_invalid-dangling_example : erase_invalid (unread-IsTree.1 + 1) unread ≡ dangling
unfolding find
erase_invalid-dangling_example =
    erase_invalid-dangling unread-IsTree.0 unread-IsTree.1 unread 4 3 (node 0 false (some 3) [])
      (node 0 false (some 1) (4 ∷ [])) unread-IsTree.2 refl refl refl refl refl (omega arith)
      (unread-IsTree.1 + 1) (omega arith)

erase_invalid_dangles : erase_invalid 5 unread ≡ dangling
unfolding erase_invalid
erase_invalid_dangles = refl
