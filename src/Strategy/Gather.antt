-- ===== src/Strategy/Gather.antt =====
-- Grouping the migrations by process and moving each group's pages, and the selection before it.
use mathlib.Core.List.{append-nil, append_assoc}
use csci555_usc.Base.{
  ℕ, ◌+◌, ◌≤◌, ◌≡◌, refl, Bool, true, false, List, [], ◌∷◌, ◌++◌, arith, ◌==◌, if◌then◌else◌,
  length, replicate, length-append, length-replicate, Bool-cases, inl, inr, sym, ◌∙◌,
}
use csci555_usc.Memory.Move.{move_pages}
use csci555_usc.Strategy.{
  Cell, gather_one, gather_from, gather, perform, Counts, gather_and_perform_migrations,
}

-- The pages and the nodes of a process; of an unknown one none.
abbrev pub group : ℕ → List (ℕ × (List ℕ × List ℕ)) → List ℕ × List ℕ
group pid [] = ([], [])
group pid ((p, g) ∷ groups) = if pid == p then g else group pid groups

abbrev both : List ℕ × List ℕ → List ℕ → List ℕ → List ℕ × List ℕ
both g addr dst = (g.0 ++ addr, g.1 ++ dst)

group-gather_one :
    (q pid : ℕ) (addr dst : List ℕ) (groups : List (ℕ × (List ℕ × List ℕ)))
    → group q (gather_one pid addr dst groups)
      ≡ (if q == pid then both (group q groups) addr dst else group q groups)
unfolding gather_one
group-gather_one q pid addr dst [] = ground arith
group-gather_one q pid addr dst ((p, g) ∷ groups) =
    ground (arith, group-gather_one q pid addr dst groups)

both_nil : (g : List ℕ × List ℕ) → both g [] [] ≡ g
both_nil g = cc (append-nil g.0, append-nil g.1)

both-both :
    (g : List ℕ × List ℕ) (a d a' d' : List ℕ)
    → both (both g a d) a' d' ≡ both g (a ++ a') (d ++ d')
both-both g a d a' d' = cc (append_assoc g.0 a a', append_assoc g.1 d d')

module _ {R : Type 0} where
  -- The specification: the pages of a process are those of its migrations, in their order, each with
  -- the destination of its migration.
  abbrev pub addresses_of : ℕ → List (Cell R) → List ℕ
  addresses_of pid [] = []
  addresses_of pid (m ∷ ms) =
      if pid == m.pid then m.addr ++ addresses_of pid ms else addresses_of pid ms

  abbrev pub destinations_of : ℕ → List (Cell R) → List ℕ
  destinations_of pid [] = []
  destinations_of pid (m ∷ ms) =
      if pid == m.pid
      then replicate (length m.addr) m.dst ++ destinations_of pid ms
      else destinations_of pid ms

  group-gather_from :
      (pid : ℕ) (ms : List (Cell R)) (groups : List (ℕ × (List ℕ × List ℕ)))
      → group pid (gather_from ms groups)
        ≡ both (group pid groups) (addresses_of pid ms) (destinations_of pid ms)
  unfolding gather_from
  group-gather_from pid [] groups = sym (both_nil (group pid groups))
  group-gather_from pid (m ∷ ms) groups =
      let nodes = replicate (length m.addr) m.dst in
      let step = group-gather_one pid m.pid m.addr nodes groups in
      let ih = group-gather_from pid ms (gather_one m.pid m.addr nodes groups) in
      elim (Bool-cases (pid == m.pid)) [
        | inl e ↦
            let step' = rw e at step in
            let ih' = rw step' at ih in rw e (ih' ∙ both-both (group pid groups) m.addr nodes _ _)
        | inr e ↦ let step' = rw e at step in let ih' = rw step' at ih in rw e ih'
      ]

  -- Gathering gives each process the pages of its migrations, in their order, with their
  -- destinations, as many destinations as pages.
  pub group-gather :
      (pid : ℕ) (migrations : List (Cell R))
      → (group pid (gather migrations)
          ≡ (addresses_of pid migrations, destinations_of pid migrations))
        × (length (group pid (gather migrations)).0 ≡ length (group pid (gather migrations)).1)
  unfolding gather
  group-gather pid migrations =
      let e = group-gather_from pid migrations [] in (e, rw e (same_length migrations))
    where
      same_length :
          (ms : List (Cell R)) → length (addresses_of pid ms) ≡ length (destinations_of pid ms)
      same_length [] = refl
      same_length (m ∷ ms) = ground (
        arith,
        same_length ms,
        length-append m.addr (addresses_of pid ms),
        length-append (replicate (length m.addr) m.dst) (destinations_of pid ms),
        length-replicate (length m.addr) m.dst,
      )

-- The pages of all groups.
abbrev pages_in : List (ℕ × (List ℕ × List ℕ)) → ℕ
pages_in [] = 0
pages_in ((p, g) ∷ groups) = length g.0 + pages_in groups

pages_in-gather_one :
    (pid : ℕ) (addr dst : List ℕ) (groups : List (ℕ × (List ℕ × List ℕ)))
    → pages_in (gather_one pid addr dst groups) ≡ length addr + pages_in groups
unfolding gather_one
pages_in-gather_one pid addr dst [] = refl
pages_in-gather_one pid addr dst ((p, g) ∷ groups) =
    ground (arith, pages_in-gather_one pid addr dst groups, length-append g.0 addr)

module _ {R : Type 0} where
  -- The pages of all migrations.
  abbrev pub total_pages : List (Cell R) → ℕ
  total_pages [] = 0
  total_pages (m ∷ ms) = length m.addr + total_pages ms

  pages_in-gather_from :
      (ms : List (Cell R)) (groups : List (ℕ × (List ℕ × List ℕ)))
      → pages_in (gather_from ms groups) ≡ total_pages ms + pages_in groups
  unfolding gather_from
  pages_in-gather_from [] groups = omega arith
  pages_in-gather_from (m ∷ ms) groups =
      let nodes = replicate (length m.addr) m.dst in
      omega (
        arith,
        pages_in-gather_from ms (gather_one m.pid m.addr nodes groups),
        pages_in-gather_one m.pid m.addr nodes groups,
      )

-- What a count of at most `n` more pages is.
abbrev Counted : Counts → Counts → ℕ → Type 0
Counted c r n =
    (r.total_migrations + c.migrated_pages ≡ c.total_migrations + r.migrated_pages)
    × (c.migrated_pages ≤ r.migrated_pages)
    × (r.migrated_pages ≤ c.migrated_pages + n)

abbrev counts_after : Bool → ℕ → Counts → Counts
counts_after moved n c =
    if moved
    then record { migrated_pages = c.migrated_pages + n; total_migrations = c.total_migrations + n }
    else c

count_step :
    (moved : Bool) (n rest : ℕ) (c r : Counts)
    → Counted (counts_after moved n c) r rest
    → Counted c r (n + rest)
count_step true n rest c r (a, b, d) = (omega arith, omega arith, omega arith)
count_step false n rest c r (a, b, d) = (omega arith, omega arith, omega arith)

module _ {K : Type 0} (numa_move_pages : ℕ → List ℕ → List ℕ → K → Bool × K) where
  perform-Counted :
      (groups : List (ℕ × (List ℕ × List ℕ))) (c : Counts) (k : K)
      → Counted c (perform numa_move_pages groups c k).0 (pages_in groups)
  unfolding perform move_pages
  perform-Counted [] c k = (refl, omega arith, omega arith)
  perform-Counted ((pid, (addresses, nodes)) ∷ groups) c k =
      let moved = move_pages numa_move_pages addresses pid nodes k in
      count_step moved.0 (length addresses) (pages_in groups) c _
        (perform-Counted groups (counts_after moved.0 (length addresses) c) moved.1)

  perform_all :
      (groups : List (ℕ × (List ℕ × List ℕ))) (c : Counts) (k : K)
      → ((pid : ℕ) (pages nodes : List ℕ) (k : K) → (numa_move_pages pid pages nodes k).0 ≡ true)
      → (perform numa_move_pages groups c k).0.migrated_pages ≡ c.migrated_pages + pages_in groups
  unfolding perform move_pages
  perform_all [] c k h = omega arith
  perform_all ((pid, (addresses, nodes)) ∷ groups) c k h =
      let moved = numa_move_pages pid addresses nodes k in
      let ih = perform_all groups (counts_after true (length addresses) c) moved.1 h in
      rw (perform, h pid addresses nodes k) (omega (arith, ih))

  module _ {R : Type 0} where
    -- The number of pages that a call reports as migrated is what it adds to the total, and at most
    -- the pages of all migrations, prefetched ones and repetitions included.
    pub gather_and_perform_migrations-bound :
        (migrations : List (Cell R)) (total : ℕ) (k : K)
        → let r = (gather_and_perform_migrations numa_move_pages migrations total k).0 in
          (r.total_migrations ≡ total + r.migrated_pages)
          × (r.migrated_pages ≤ total_pages migrations)
    unfolding gather_and_perform_migrations gather
    gather_and_perform_migrations-bound migrations total k =
        let c =
          perform-Counted (gather migrations)
            (record { migrated_pages = 0; total_migrations = total }) k in
        let n = pages_in-gather_from migrations [] in (omega (arith, c.0), omega (arith, c.2, n))

    -- If every call of `numa_move_pages` succeeds, the pages reported as migrated are the pages of
    -- all migrations.
    pub gather_and_perform_migrations_all :
        (migrations : List (Cell R)) (total : ℕ) (k : K)
        → ((pid : ℕ) (pages nodes : List ℕ) (k : K) → (numa_move_pages pid pages nodes k).0 ≡ true)
        → (gather_and_perform_migrations numa_move_pages migrations total k).0.migrated_pages
          ≡ total_pages migrations
    unfolding gather_and_perform_migrations gather
    gather_and_perform_migrations_all migrations total k h =
        let c =
          perform_all (gather migrations) (record { migrated_pages = 0; total_migrations = total })
            k h in
        omega (arith, c, pages_in-gather_from migrations [])
