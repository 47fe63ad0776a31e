-- ===== src/Schedule/Exchange.antt =====
-- Exchanging two threads of a schedule twice.
use csci555_usc.Base.{
  ℕ, ◌≡◌, refl, sym, ap, subst, ◌∙◌, Bool, true, false, Bool-cases, inl, inr, not, ◌&&◌, some, List,
  [], ◌∷◌, ◌==◌, arith,
}
use csci555_usc.Schedule.{Thread, Schedule, find_thread, send, interchange}
use csci555_usc.Schedule.Nodes.{in_node, goes_to, find_thread-send, sent}
use csci555_usc.Schedule.Placed.{IsPlaced, exchanged, interchange_known, interchange-IsPlaced}

send_here :
    (tid node : ℕ) (t : Thread) (threads : List Thread)
    → tid == t.tid ≡ true
    → send tid node (t ∷ threads) ≡ record t { dst_node = node } ∷ threads
unfolding send
send_here tid node t threads h = rw (send, h) refl

send_there :
    (tid node : ℕ) (t : Thread) (threads : List Thread)
    → tid == t.tid ≡ false
    → send tid node (t ∷ threads) ≡ t ∷ send tid node threads
unfolding send
send_there tid node t threads h = rw (send, h) refl

-- The last destination counts.
send_again :
    (tid a b : ℕ) (threads : List Thread) → send tid b (send tid a threads) ≡ send tid b threads
unfolding send
send_again tid a b [] = refl
send_again tid a b (t ∷ threads) = elim (Bool-cases (tid == t.tid)) [
  | inl e ↦
      ap (send tid b) (send_here tid a t threads e)
      ∙ send_here tid b (record t { dst_node = a }) threads e
      ∙ sym (send_here tid b t threads e)
  | inr e ↦
      ap (send tid b) (send_there tid a t threads e)
      ∙ send_there tid b t (send tid a threads) e
      ∙ ap (λ l. t ∷ l) (send_again tid a b threads)
      ∙ sym (send_there tid b t threads e)
]

-- Different threads are sent in either order.
send_comm :
    (p q a b : ℕ) (threads : List Thread)
    → p == q ≡ false
    → send p a (send q b threads) ≡ send q b (send p a threads)
unfolding send
send_comm p q a b [] h = refl
send_comm p q a b (t ∷ threads) h = elim (Bool-cases (p == t.tid)) [
  | inl e ↦
      let f : q == t.tid ≡ false = ground (arith, h, e) in
      ap (send p a) (send_there q b t threads f)
      ∙ send_here p a t (send q b threads) e
      ∙ sym (send_there q b (record t { dst_node = a }) threads f)
      ∙ ap (send q b) (sym (send_here p a t threads e))
  | inr e ↦ elim (Bool-cases (q == t.tid)) [
    | inl f ↦
        ap (send p a) (send_here q b t threads f)
        ∙ send_there p a (record t { dst_node = b }) threads e
        ∙ sym (send_here q b t (send p a threads) f)
        ∙ ap (send q b) (sym (send_there p a t threads e))
    | inr f ↦
        ap (send p a) (send_there q b t threads f)
        ∙ send_there p a t (send q b threads) e
        ∙ ap (λ l. t ∷ l) (send_comm p q a b threads h)
        ∙ sym (send_there q b t (send p a threads) f)
        ∙ ap (send q b) (sym (send_there p a t threads e))
  ]
]

-- A thread that is sent where it is to go already.
send_same :
    (tid : ℕ) (t : Thread) (threads : List Thread)
    → find_thread tid threads ≡ some t
    → send tid t.dst_node threads ≡ threads
unfolding send find_thread
send_same tid t [] h = refl
send_same tid t (x ∷ threads) h = elim (Bool-cases (tid == x.tid)) [
  | inl e ↦
      let h' = rw e at h in
      send_here tid t.dst_node x threads e
      ∙ ap (λ n. record x { dst_node = n } ∷ threads) (sym (same_node x t h'))
  | inr e ↦
      let h' = rw e at h in
      send_there tid t.dst_node x threads e ∙ ap (λ l. x ∷ l) (send_same tid t threads h')
]
  where
    same_node : (x y : Thread) → some x ≡ some y → x.dst_node ≡ y.dst_node
    same_node x y p = cc p

module _ {R : Type 0} (tid_1 tid_2 : ℕ) (t1 t2 : Thread) (s : Schedule R) where
  -- The threads after both exchanges.
  back :
      find_thread tid_1 s.threads ≡ some t1
      → find_thread tid_2 s.threads ≡ some t2
      → tid_1 == tid_2 ≡ false
      → send tid_2 t2.dst_node
          (send tid_1 t1.dst_node (send tid_2 t1.dst_node (send tid_1 t2.dst_node s.threads)))
        ≡ s.threads
  back found1 found2 apart =
      ap (send tid_2 t2.dst_node)
        (send_comm tid_1 tid_2 t1.dst_node t1.dst_node (send tid_1 t2.dst_node s.threads) apart)
      ∙ send_again tid_2 t1.dst_node t2.dst_node
          (send tid_1 t1.dst_node (send tid_1 t2.dst_node s.threads))
      ∙ ap (send tid_2 t2.dst_node)
          (send_again tid_1 t2.dst_node t1.dst_node s.threads ∙ send_same tid_1 t1 s.threads found1)
      ∙ send_same tid_2 t2 s.threads found2

  -- After an exchange each thread is to go where the other was.
  exchanged_found :
      find_thread tid_1 s.threads ≡ some t1
      → find_thread tid_2 s.threads ≡ some t2
      → tid_1 == tid_2 ≡ false
      → let threads' = (exchanged tid_1 tid_2 t1 t2 s).threads in
        (find_thread tid_1 threads' ≡ some (record t1 { dst_node = t2.dst_node }))
        × (find_thread tid_2 threads' ≡ some (record t2 { dst_node = t1.dst_node }))
  exchanged_found found1 found2 apart =
      let middle = send tid_1 t2.dst_node s.threads in
      let other : tid_2 == tid_1 ≡ false = ground (arith, apart) in
      let first = find_thread-send tid_1 tid_2 t1.dst_node middle in
      let second = find_thread-send tid_2 tid_2 t1.dst_node middle in
      let below1 = find_thread-send tid_1 tid_1 t2.dst_node s.threads in
      let below2 = find_thread-send tid_2 tid_1 t2.dst_node s.threads in
      let own1 : tid_1 == tid_1 ≡ true = ground arith in
      let own2 : tid_2 == tid_2 ≡ true = ground arith in
      (
        (rw apart at first) ∙ (rw (own1, found1) at below1),
        (rw own2 at second) ∙ ap (sent t1.dst_node) ((rw other at below2) ∙ found2),
      )

  -- For two different threads of a schedule that are not idle, where the sets of the nodes are those of
  -- the threads that are to go there and are not idle: exchanging them twice succeeds both times, gives
  -- the threads of the schedule back, and each node has the same threads in its set again.
  pub interchange-interchange :
      (is_idle : ℕ → Bool) (u n : ℕ)
      → find_thread tid_1 s.threads ≡ some t1
      → find_thread tid_2 s.threads ≡ some t2
      → tid_1 == tid_2 ≡ false
      → is_idle tid_1 ≡ false
      → is_idle tid_2 ≡ false
      → IsPlaced is_idle s.threads s.node_tid_map
      → let once = interchange tid_1 tid_2 s in
        let twice = interchange tid_1 tid_2 once.1 in
        (once.0 ≡ true)
        × (twice.0 ≡ true)
        × (twice.1.threads ≡ s.threads)
        × (in_node u n twice.1.node_tid_map ≡ in_node u n s.node_tid_map)
  interchange-interchange is_idle u n found1 found2 apart busy1 busy2 placed =
      let other : tid_2 == tid_1 ≡ false = ground (arith, apart) in
      let known = interchange_known tid_1 tid_2 t1 t2 s found1 found2 in
      let once = exchanged tid_1 tid_2 t1 t2 s in
      let u1 : Thread = record t1 { dst_node = t2.dst_node } in
      let u2 : Thread = record t2 { dst_node = t1.dst_node } in
      let again = exchanged_found found1 found2 apart in
      let known' = interchange_known tid_1 tid_2 u1 u2 once again.0 again.1 in
      let first =
        interchange-IsPlaced is_idle tid_1 tid_2 t1 t2 s found1 found2 other busy1 busy2 placed in
      let placed1 : IsPlaced is_idle once.threads once.node_tid_map =
        subst (λ r. IsPlaced is_idle r.1.threads r.1.node_tid_map) known first.1 in
      let second =
        interchange-IsPlaced is_idle tid_1 tid_2 u1 u2 once again.0 again.1 other busy1 busy2
          placed1 in
      let placed2 : IsPlaced is_idle (exchanged tid_1 tid_2 u1 u2 once).threads
          (exchanged tid_1 tid_2 u1 u2 once).node_tid_map =
        subst (λ r. IsPlaced is_idle r.1.threads r.1.node_tid_map) known' second.1 in
      let both = ap (λ r. interchange tid_1 tid_2 r.1) known ∙ known' in
      let restored = back found1 found2 apart in
      (
        ap (λ r. r.0) known,
        ap (λ r. r.0) both,
        ap (λ r. r.1.threads) both ∙ restored,
        ap (λ r. in_node u n r.1.node_tid_map) both
            ∙ placed2 u n
            ∙ ap (λ l. goes_to u n l && not (is_idle u)) restored
            ∙ sym (placed u n),
      )
