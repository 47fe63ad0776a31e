-- ===== src/Schedule/Placed.antt =====
-- The sets of the nodes of a schedule are those of the threads that are to go there.
use csci555_usc.Base.{
  ℕ, ◌≡◌, refl, sym, ap, subst, ◌∙◌, Bool, true, false, Bool-cases, inl, inr, not, ◌&&◌, ◌||◌,
  Option-cases, none, some, List, [], ◌∷◌, ◌==◌, arith, if◌then◌else◌, contains, insert, erase, map,
  Nodup, ==→eq,
}
use csci555_usc.Pages.Table.{find}
use csci555_usc.Schedule.{
  Thread, Schedule, change_node, find_thread, send, place_all, new_schedule, migrate, interchange,
}
use csci555_usc.Schedule.Nodes.{
  in_node, is_going, goes_to, in_node-erase, in_node-insert, find_thread-send, find_thread-tid,
  sent,
}

-- The schedule after an interchange of two of its threads.
abbrev pub exchanged : {R : Type 0} → ℕ → ℕ → Thread → Thread → Schedule R → Schedule R
exchanged tid_1 tid_2 t1 t2 s = record s {
  threads = send tid_2 t1.dst_node (send tid_1 t2.dst_node s.threads);
  node_tid_map = change_node t1.dst_node (insert t2.tid) (
      change_node t2.dst_node (erase t2.tid) (
        change_node t2.dst_node (insert t1.tid)
          (change_node t1.dst_node (erase t1.tid) s.node_tid_map)));
  expected_tickets = none;
  expected_perf = none;
}

pub interchange_known :
    {R : Type 0} (tid_1 tid_2 : ℕ) (t1 t2 : Thread) (s : Schedule R)
    → find_thread tid_1 s.threads ≡ some t1
    → find_thread tid_2 s.threads ≡ some t2
    → interchange tid_1 tid_2 s ≡ (true, exchanged tid_1 tid_2 t1 t2 s)
unfolding interchange
interchange_known tid_1 tid_2 t1 t2 s h1 h2 = rw (interchange, h1, h2) refl

module _ (is_idle : ℕ → Bool) where
  same_idle : (p q : ℕ) → p == q ≡ true → is_idle p ≡ is_idle q
  same_idle p q e = ap is_idle (==→eq p q e)

  -- The set of each node has the threads that are to go there and are not idle.
  abbrev pub IsPlaced : List Thread → List (ℕ × List ℕ) → Type 0
  IsPlaced threads sets = (u n : ℕ) → in_node u n sets ≡ (goes_to u n threads && not (is_idle u))

  abbrev listed : ℕ → ℕ → List Thread → Bool
  listed u n [] = false
  listed u n (t ∷ threads) = (u == t.tid && n == t.dst_node) || listed u n threads

  in_node-place_all :
      (u n : ℕ) (threads : List Thread) (sets : List (ℕ × List ℕ))
      → in_node u n (place_all is_idle threads sets)
        ≡ (in_node u n sets || (listed u n threads && not (is_idle u)))
  unfolding place_all
  in_node-place_all u n [] sets = ground arith
  in_node-place_all u n (t ∷ threads) sets = elim (Bool-cases (is_idle t.tid)) [
    | inl e ↦ simp e (ground (arith, in_node-place_all u n threads sets, same_idle u t.tid, e))
    | inr e ↦
        let sets' = change_node t.dst_node (insert t.tid) sets in
        simp e (
          ground (
            arith,
            in_node-place_all u n threads sets',
            in_node-insert u n t.tid t.dst_node sets,
            same_idle u t.tid,
            e,
          ))
  ]

  listed-absent :
      (u n : ℕ) (threads : List Thread)
      → contains u (map (λ t. t.tid) threads) ≡ false
      → listed u n threads ≡ false
  listed-absent u n [] h = refl
  listed-absent u n (t ∷ threads) h = ground (arith, listed-absent u n threads, h)

  listed-goes_to :
      (u n : ℕ) (threads : List Thread)
      → Nodup (map (λ t. t.tid) threads)
      → listed u n threads ≡ goes_to u n threads
  unfolding find_thread
  listed-goes_to u n [] d = refl
  listed-goes_to u n (t ∷ threads) d = elim (Bool-cases (u == t.tid)) [
    | inl e ↦
        let absent : contains u (map (λ t. t.tid) threads) ≡ false =
          ap (λ i. contains i (map (λ t. t.tid) threads)) (==→eq u t.tid e) ∙ d.0 in
        let none_left = listed-absent u n threads absent in simp (e, none_left) (ground arith)
    | inr e ↦ simp e (listed-goes_to u n threads d.1)
  ]

  nowhere : (u n : ℕ) → in_node u n [] ≡ false
  unfolding find
  nowhere u n = refl

  -- A schedule of threads of different numbers starts with the threads that are not idle in the sets of
  -- the nodes they are to go to, and nothing else there.
  pub new_schedule-IsPlaced :
      (R : Type 0) (threads : List Thread)
      → Nodup (map (λ t. t.tid) threads)
      → let s : Schedule R = new_schedule is_idle threads in IsPlaced s.threads s.node_tid_map
  unfolding new_schedule
  new_schedule-IsPlaced R threads d u n =
      ground (arith, in_node-place_all u n threads [], listed-goes_to u n threads d, nowhere u n)

  -- Where a thread is to go after one was sent to a node.
  goes_to-send :
      (u n tid dst : ℕ) (threads : List Thread) (t : Thread)
      → find_thread tid threads ≡ some t
      → goes_to u n (send tid dst threads) ≡ (if u == tid then n == dst else goes_to u n threads)
  goes_to-send u n tid dst threads t found =
      ap (is_going n) (find_thread-send u tid dst threads)
      ∙ chosen (u == tid) (λ e. ap (λ i. find_thread i threads) (==→eq u tid e) ∙ found)
    where
      chosen :
          (b : Bool)
          → (b ≡ true → find_thread u threads ≡ some t)
          → is_going n (if b then sent dst (find_thread u threads) else find_thread u threads)
            ≡ (if b then n == dst else goes_to u n threads)
      chosen true h = ap (λ o. is_going n (sent dst o)) (h refl)
      chosen false h = refl

  goes_to-found :
      (u n tid : ℕ) (threads : List Thread) (t : Thread)
      → find_thread tid threads ≡ some t
      → u == tid ≡ true
      → goes_to u n threads ≡ (n == t.dst_node)
  goes_to-found u n tid threads t found e =
      ap (is_going n) (ap (λ i. find_thread i threads) (==→eq u tid e) ∙ found)

  -- A thread that is not idle leaves the set of one node for that of another.
  pub moved-IsPlaced :
      (tid dst : ℕ) (t : Thread) (threads : List Thread) (sets : List (ℕ × List ℕ))
      → find_thread tid threads ≡ some t
      → is_idle tid ≡ false
      → IsPlaced threads sets
      → IsPlaced
          (send tid dst threads)
          (change_node dst (insert t.tid) (change_node t.dst_node (erase t.tid) sets))
  moved-IsPlaced tid dst t threads sets found busy placed u n =
      let named = find_thread-tid tid threads t found in
      let left = change_node t.dst_node (erase t.tid) sets in
      ground (
        arith,
        in_node-insert u n t.tid dst left,
        in_node-erase u n t.tid t.dst_node sets,
        placed u n,
        goes_to-send u n tid dst threads t found,
        goes_to-found u n tid threads t found,
        same_idle u tid,
        busy,
        named,
      )

  idle-IsPlaced :
      (tid dst : ℕ) (t : Thread) (threads : List Thread) (sets : List (ℕ × List ℕ))
      → find_thread tid threads ≡ some t
      → is_idle tid ≡ true
      → IsPlaced threads sets
      → IsPlaced (send tid dst threads) sets
  idle-IsPlaced tid dst t threads sets found idle placed u n =
      ground (arith, placed u n, goes_to-send u n tid dst threads t found, same_idle u tid, idle)

  module _ {R : Type 0} (tid dst : ℕ) (s : Schedule R) where
    pub migrate_unknown :
        find_thread tid s.threads ≡ none
        → migrate is_idle tid dst s
          ≡ (false, record s { expected_tickets = none; expected_perf = none })
    unfolding migrate
    migrate_unknown h = rw (migrate, h) refl

    pub migrate_known :
        (t : Thread) (b : Bool)
        → find_thread tid s.threads ≡ some t
        → is_idle t.tid ≡ b
        → migrate is_idle tid dst s ≡ (
          true,
          record s {
            threads = send tid dst s.threads;
            node_tid_map =
                if not b
                then change_node dst
                    (insert t.tid)
                    (change_node t.dst_node (erase t.tid) s.node_tid_map)
                else s.node_tid_map;
            expected_tickets = none;
            expected_perf = none;
          },
        )
    unfolding migrate
    migrate_known t b h e = rw (migrate, h, e) refl

  abbrev Placed : {R : Type 0} → Bool × Schedule R → Type 0
  Placed r = IsPlaced r.1.threads r.1.node_tid_map

  -- Sending a thread to a node keeps the sets those of the threads that are to go there and are not
  -- idle, whether or not the thread is idle or in the schedule.
  pub migrate-IsPlaced :
      {R : Type 0} (tid dst : ℕ) (s : Schedule R)
      → IsPlaced s.threads s.node_tid_map
      → let r = migrate is_idle tid dst s in IsPlaced r.1.threads r.1.node_tid_map
  migrate-IsPlaced tid dst s placed = elim (Option-cases (find_thread tid s.threads)) [
    | inl e ↦ subst Placed (sym (migrate_unknown tid dst s e)) placed
    | inr (t, e) ↦
        let named = find_thread-tid tid s.threads t e in
        elim (Bool-cases (is_idle t.tid)) [
          | inl f ↦ subst Placed (sym (migrate_known tid dst s t true e f)) (
              idle-IsPlaced tid dst t s.threads s.node_tid_map e (ap is_idle (sym named) ∙ f)
                placed)
          | inr f ↦ subst Placed (sym (migrate_known tid dst s t false e f)) (
              moved-IsPlaced tid dst t s.threads s.node_tid_map e (ap is_idle (sym named) ∙ f)
                placed)
        ]
  ]

  -- Two different threads of the schedule that are not idle exchange their nodes, and the sets are
  -- again those of the threads that are to go there and are not idle.
  pub interchange-IsPlaced :
      {R : Type 0} (tid_1 tid_2 : ℕ) (t1 t2 : Thread) (s : Schedule R)
      → find_thread tid_1 s.threads ≡ some t1
      → find_thread tid_2 s.threads ≡ some t2
      → tid_2 == tid_1 ≡ false
      → is_idle tid_1 ≡ false
      → is_idle tid_2 ≡ false
      → IsPlaced s.threads s.node_tid_map
      → let r = interchange tid_1 tid_2 s in (r.0 ≡ true) × IsPlaced r.1.threads r.1.node_tid_map
  interchange-IsPlaced tid_1 tid_2 t1 t2 s found1 found2 apart busy1 busy2 placed =
      let threads' = send tid_1 t2.dst_node s.threads in
      let sets' =
        change_node t2.dst_node (insert t1.tid)
          (change_node t1.dst_node (erase t1.tid) s.node_tid_map) in
      let other = find_thread-send tid_2 tid_1 t2.dst_node s.threads in
      let found2' : find_thread tid_2 threads' ≡ some t2 = (rw apart at other) ∙ found2 in
      let known = interchange_known tid_1 tid_2 t1 t2 s found1 found2 in
      (
        ap (λ r. r.0) known,
        subst Placed (sym known) (
            moved-IsPlaced tid_2 t1.dst_node t2 threads' sets' found2' busy2
              (moved-IsPlaced tid_1 t2.dst_node t1 s.threads s.node_tid_map found1 busy1 placed)),
      )
