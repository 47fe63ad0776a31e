-- ===== src/Schedule/Nodes.antt =====
-- The sets of the nodes and the threads of a schedule, one of them changed.
use csci555_usc.Base.{
  ℕ, ◌≡◌, refl, sym, ap, ◌∙◌, Bool, true, false, Bool-cases, inl, inr, not, ◌&&◌, ◌||◌, Option,
  none, some, List, [], ◌∷◌, ◌==◌, arith, if◌then◌else◌, contains, insert, erase, contains-insert,
  contains-erase, ==→eq,
}
use csci555_usc.Pages.Table.{find}
use csci555_usc.Schedule.{Thread, change_node, find_thread, send}

-- The set of a node, empty if the map does not have it.
abbrev pub set_or : Option (List ℕ) → List ℕ
set_or none = []
set_or (some tids) = tids

-- A thread is in the set of a node.
abbrev pub in_node : ℕ → ℕ → List (ℕ × List ℕ) → Bool
in_node tid node sets = contains tid (set_or (find node sets))

-- A thread is to go to a node.
abbrev pub is_going : ℕ → Option Thread → Bool
is_going node none = false
is_going node (some t) = node == t.dst_node

abbrev pub goes_to : ℕ → ℕ → List Thread → Bool
goes_to tid node threads = is_going node (find_thread tid threads)

find-change_node :
    (n m : ℕ) (f : List ℕ → List ℕ) (sets : List (ℕ × List ℕ))
    → set_or (find n (change_node m f sets))
      ≡ (if n == m then f (set_or (find m sets)) else set_or (find n sets))
unfolding find change_node
find-change_node n m f [] = ground arith
find-change_node n m f ((k, tids) ∷ sets) = ground (arith, find-change_node n m f sets)

pub in_node-erase :
    (u n t m : ℕ) (sets : List (ℕ × List ℕ))
    → in_node u n (change_node m (erase t) sets) ≡ (in_node u n sets && not (n == m && u == t))
in_node-erase u n t m sets =
    ap (contains u) (find-change_node n m (erase t) sets) ∙ chosen (n == m) (==→eq n m)
  where
    chosen :
        (b : Bool)
        → (b ≡ true → n ≡ m)
        → contains u (if b then erase t (set_or (find m sets)) else set_or (find n sets))
          ≡ (in_node u n sets && not (b && u == t))
    chosen true e =
        ap (λ i. contains u (erase t (set_or (find i sets)))) (sym (e refl))
        ∙ contains-erase t u (set_or (find n sets))
    chosen false e = ground arith

pub in_node-insert :
    (u n t m : ℕ) (sets : List (ℕ × List ℕ))
    → in_node u n (change_node m (insert t) sets) ≡ (in_node u n sets || (n == m && u == t))
in_node-insert u n t m sets =
    ap (contains u) (find-change_node n m (insert t) sets) ∙ chosen (n == m) (==→eq n m)
  where
    swapped : (a b : Bool) → (a || b) ≡ (b || a)
    swapped true true = refl
    swapped true false = refl
    swapped false true = refl
    swapped false false = refl

    chosen :
        (b : Bool)
        → (b ≡ true → n ≡ m)
        → contains u (if b then insert t (set_or (find m sets)) else set_or (find n sets))
          ≡ (in_node u n sets || (b && u == t))
    chosen true e =
        ap (λ i. contains u (insert t (set_or (find i sets)))) (sym (e refl))
        ∙ contains-insert t u (set_or (find n sets))
        ∙ swapped (u == t) (contains u (set_or (find n sets)))
    chosen false e = ground arith

-- A thread with its destination changed.
abbrev pub sent : ℕ → Option Thread → Option Thread
sent node none = none
sent node (some t) = some (record t { dst_node = node })

pub find_thread-send :
    (u tid node : ℕ) (threads : List Thread)
    → find_thread u (send tid node threads)
      ≡ (if u == tid then sent node (find_thread u threads) else find_thread u threads)
unfolding find_thread send
find_thread-send u tid node [] = ground arith
find_thread-send u tid node (t ∷ threads) = ground (arith, find_thread-send u tid node threads)

pub find_thread-tid :
    (tid : ℕ) (threads : List Thread) (t : Thread) → find_thread tid threads ≡ some t → t.tid ≡ tid
unfolding find_thread
find_thread-tid tid [] t h = cc
find_thread-tid tid (x ∷ threads) t h = elim (Bool-cases (tid == x.tid)) [
  | inl e ↦
      let h' = rw e at h in ap (λ y. y.tid) (sym (some_injective x t h')) ∙ sym (==→eq tid x.tid e)
  | inr e ↦ let h' = rw e at h in find_thread-tid tid threads t h'
]
  where
    some_injective : (x y : Thread) → some x ≡ some y → x ≡ y
    some_injective x y p = cc p
