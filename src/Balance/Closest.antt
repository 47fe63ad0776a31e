-- ===== src/Balance/Closest.antt =====
-- The search for a less busy processor or node.
use mathlib.Core.List.{append-nil, append_assoc}
use csci555_usc.Base.{
  ℕ, ◌≤◌, ◌<◌, ◌≡◌, refl, sym, ap, subst, ◌∙◌, ◌⊎◌, inl, inr, Bool, false, Bool-cases, Option, none,
  some, List, [], ◌∷◌, ◌++◌, ◌==◌, ltb, arith, get_or, length, All, All-append,
}
use csci555_usc.Threads.{System}
use csci555_usc.Balance.{
  Topology, Search, found, searching, visit, search, search_nodes, conclude, max_size, tids_of,
  cpus_of_nodes, closest_less_busy_cpu, closest_less_busy_node,
}

-- The places of all lists, in their order.
abbrev pub flat : List (List ℕ) → List ℕ
flat [] = []
flat (xs ∷ lists) = xs ++ flat lists

module _ (tids : ℕ → ℕ) (limit src : ℕ) where
  search-append :
      (xs ys : List ℕ) (s : Search)
      → search tids limit src (xs ++ ys) s ≡ search tids limit src ys (search tids limit src xs s)
  unfolding search
  search-append [] ys s = refl
  search-append (x ∷ xs) [] (found place) = refl
  search-append (x ∷ xs) (y ∷ ys) (found place) = refl
  search-append (x ∷ xs) ys (searching m t) = search-append xs ys (visit tids limit src x m t)

  search_nodes-flat :
      (lists : List (List ℕ)) (s : Search)
      → search_nodes tids limit src lists s ≡ search tids limit src (flat lists) s
  unfolding search_nodes search
  search_nodes-flat [] s = refl
  search_nodes-flat (xs ∷ lists) s =
      search_nodes-flat lists (search tids limit src xs s) ∙ sym (search-append xs (flat lists) s)

  -- A place other than the source has the limit and `t` threads at least.
  abbrev pub Busy : ℕ → ℕ → Type 0
  Busy t e = src == e ≡ false → (limit ≤ tids e) × (t ≤ tids e)

  -- More than `t` threads.
  abbrev pub Above : ℕ → ℕ → Type 0
  Above t e = src == e ≡ false → t < tids e

  -- The first place of a list, other than the source, that is under the limit.
  abbrev pub IsFirstUnder : List ℕ → ℕ → Type 0
  IsFirstUnder places d =
      (pre : List ℕ) × (post : List ℕ) × (places ≡ pre ++ d ∷ post)
      × (src == d ≡ false)
      × (tids d < limit)
      × All (Busy 0) pre

  -- The first place other than the source with the least threads.
  abbrev pub IsFirstLeast : List ℕ → ℕ → Type 0
  IsFirstLeast places d =
      (pre : List ℕ) × (post : List ℕ) × (places ≡ pre ++ d ∷ post)
      × (src == d ≡ false)
      × All (Above (tids d)) pre
      × All (Busy (tids d)) places

  abbrev Start : ℕ → ℕ → Type 0
  Start m t = (m ≡ src) × (t ≡ max_size)

  -- What is known after the places seen, while the search goes on.
  abbrev Going : List ℕ → ℕ → ℕ → Type 0
  Going seen m t =
      (limit ≤ t) × All (Busy t) seen × (Start m t ⊎ ((t ≡ tids m) × IsFirstLeast seen m))

  abbrev Searched : List ℕ → Search → Type 0
  Searched places (found d) = IsFirstUnder places d
  Searched places (searching m t) = Going places m t

  weaken : (t u : ℕ) (xs : List ℕ) → u ≤ t → All (Busy t) xs → All (Busy u) xs
  weaken t u [] le h = tt
  weaken t u (x ∷ xs) le h = (λ e. ground (arith, h.0 e), weaken t u xs le h.1)

  above : (t u : ℕ) (xs : List ℕ) → u < t → All (Busy t) xs → All (Above u) xs
  above t u [] lt h = tt
  above t u (x ∷ xs) lt h = (λ e. ground (arith, h.0 e), above t u xs lt h.1)

  one_more :
      (d t : ℕ) (seen : List ℕ) → All (Busy t) seen → Busy t d → All (Busy t) (seen ++ d ∷ [])
  one_more d t seen h b = All-append (Busy t) seen (d ∷ []) h (b, tt)

  -- A further place that does not change the search.
  passed : (seen : List ℕ) (d m t : ℕ) → Busy t d → Going seen m t → Going (seen ++ d ∷ []) m t
  passed seen d m t b (le, busy, inl start) = (le, one_more d t seen busy b, inl start)
  passed seen d m t b (le, busy, inr (e, (pre, post, split, apart, up, least))) = (
    le,
    one_more d t seen busy b,
    inr (
      e,
      (
        pre,
        post ++ d ∷ [],
        ap (λ l. l ++ d ∷ []) split ∙ append_assoc pre (m ∷ post) (d ∷ []),
        apart,
        up,
        one_more d (tids m) seen least (λ h. (ground (arith, b h), ground (arith, b h, e))),
      ),
    ),
  )

  -- A further place with fewer threads.
  improved :
      (seen : List ℕ) (d m t : ℕ)
      → src == d ≡ false
      → tids d < t
      → limit ≤ tids d
      → Going seen m t
      → Going (seen ++ d ∷ []) d (tids d)
  improved seen d m t apart lt le (g, busy, where_) =
      let all =
        one_more d (tids d) seen (weaken t (tids d) seen (omega (arith, lt)) busy)
          (λ h. (le, omega arith)) in
      (le, all, inr (refl, (seen, [], refl, apart, above t (tids d) seen lt busy, all)))

  visit-Searched :
      (seen : List ℕ) (d m t : ℕ)
      → Going seen m t
      → Searched (seen ++ d ∷ []) (visit tids limit src d m t)
  unfolding visit
  visit-Searched seen d m t g = elim (Bool-cases (src == d)) [
    | inl e ↦ simp e (passed seen d m t (λ h. cc (e, h)) g)
    | inr e ↦ elim (Bool-cases (ltb (tids d) t)) [
      | inl f ↦ elim (Bool-cases (ltb (tids d) limit)) [
        | inl u ↦
            let under : IsFirstUnder (seen ++ d ∷ []) d =
              (seen, [], refl, e, ground (arith, u), weaken t 0 seen (omega arith) g.1) in
            rw (visit, e, f, u) under
        | inr u ↦
            let better = improved seen d m t e (ground (arith, f)) (ground (arith, u)) g in
            rw (visit, e, f, u) better
      ]
      | inr f ↦
          let le : t ≤ tids d = ground (arith, f) in
          simp (e, f) (passed seen d m t (λ h. (omega (arith, g.0, le), le)) g)
    ]
  ]

  Searched-found :
      (seen places : List ℕ) (d : ℕ) → IsFirstUnder seen d → IsFirstUnder (seen ++ places) d
  Searched-found seen places d (pre, post, split, apart, under, busy) = (
    pre,
    post ++ places,
    ap (λ l. l ++ places) split ∙ append_assoc pre (d ∷ post) places,
    apart,
    under,
    busy,
  )

  search-Searched :
      (places seen : List ℕ) (s : Search)
      → Searched seen s
      → Searched (seen ++ places) (search tids limit src places s)
  unfolding search
  search-Searched [] seen s h = rw (append-nil seen) h
  search-Searched (d ∷ places) seen (found place) h = Searched-found seen (d ∷ places) place h
  search-Searched (d ∷ places) seen (searching m t) h =
      let rest =
        search-Searched places (seen ++ d ∷ []) (visit tids limit src d m t)
          (visit-Searched seen d m t h) in
      rw (append_assoc seen (d ∷ []) places) at rest

  -- What the search gives: a place with fewer threads than the source, the first under the limit if
  -- there is one, and otherwise the first of those with the least threads; or nothing, where no other
  -- place has fewer threads than the source.
  abbrev pub IsLessBusy : List ℕ → Option ℕ → Type 0
  IsLessBusy places none = All (Busy (tids src)) places
  IsLessBusy places (some d) = (tids d < tids src) × (IsFirstUnder places d ⊎ IsFirstLeast places d)

  conclude-IsLessBusy :
      (places : List ℕ) (s : Search)
      → limit ≤ tids src
      → tids src ≤ max_size
      → Searched places s
      → IsLessBusy places (conclude tids limit src s)
  unfolding conclude
  conclude-IsLessBusy places (found d) le max h = (ground (arith, h.4), inl h)
  conclude-IsLessBusy places (searching m t) le max h = elim (Bool-cases (ltb t (tids src))) [
    | inl e ↦ simp e (chosen m t (ground (arith, e)) h)
    | inr e ↦ simp e (weaken t (tids src) places (ground (arith, e)) h.1)
  ]
    where
      chosen :
          (m t : ℕ)
          → t < tids src
          → Going places m t
          → (tids m < tids src) × (IsFirstUnder places m ⊎ IsFirstLeast places m)
      chosen m t lt (g, busy, inl start) = absurd (omega (arith, start.1, lt, max))
      chosen m t lt (g, busy, inr (e, first)) = (omega (arith, e, lt), inr first)

  search-IsLessBusy :
      (places : List ℕ)
      → limit ≤ tids src
      → tids src ≤ max_size
      → IsLessBusy places
          (conclude tids limit src (search tids limit src places (searching src max_size)))
  search-IsLessBusy places le max =
      conclude-IsLessBusy places (search tids limit src places (searching src max_size)) le max (
        search-Searched places [] (searching src max_size)
          (omega (arith, le, max), tt, inl (refl, refl)))

module _ (topology : Topology) (is_idle : ℕ → Bool) (ignore_idle : Bool) where
  -- The threads of a place, as the search counts them.
  abbrev pub count : List (List ℕ) → ℕ → ℕ
  count sets i = length (tids_of is_idle sets i ignore_idle)

  -- The processors of the nodes in the order of their distance from a processor.
  abbrev pub cpus_by_distance : System → ℕ → List ℕ
  cpus_by_distance st cpu =
      flat (
        cpus_of_nodes topology
          (get_or topology.nodes_by_distance (get_or st.cpu_node_map cpu 0) []))

  -- From a processor with at least the limit of threads, and at most the largest size_t: the search
  -- gives another processor with fewer threads, the first under the limit by the distance of the nodes
  -- if there is one, and otherwise the first of those with the least threads; it gives none only where
  -- no other processor has fewer threads than the source.
  pub closest_less_busy_cpu-IsLessBusy :
      (src_cpu limit : ℕ) (st : System)
      → limit ≤ count st.cpu_tid_map src_cpu
      → count st.cpu_tid_map src_cpu ≤ max_size
      → IsLessBusy
          (count st.cpu_tid_map)
          limit
          src_cpu
          (cpus_by_distance st src_cpu)
          (closest_less_busy_cpu topology is_idle ignore_idle src_cpu limit st)
  unfolding closest_less_busy_cpu
  closest_less_busy_cpu-IsLessBusy src_cpu limit st le max =
      let tids = count st.cpu_tid_map in
      let lists =
        cpus_of_nodes topology
          (get_or topology.nodes_by_distance (get_or st.cpu_node_map src_cpu 0) []) in
      let places = search_nodes-flat tids limit src_cpu lists (searching src_cpu max_size) in
      subst (λ s. IsLessBusy tids limit src_cpu (flat lists) (conclude tids limit src_cpu s))
        (sym places) (search-IsLessBusy tids limit src_cpu (flat lists) le max)

  -- The same of the nodes.
  pub closest_less_busy_node-IsLessBusy :
      (src_node limit : ℕ) (st : System)
      → limit ≤ count st.node_tid_map src_node
      → count st.node_tid_map src_node ≤ max_size
      → IsLessBusy
          (count st.node_tid_map)
          limit
          src_node
          (get_or topology.nodes_by_distance src_node [])
          (closest_less_busy_node topology is_idle ignore_idle src_node limit st)
  unfolding closest_less_busy_node
  closest_less_busy_node-IsLessBusy src_node limit st le max =
      search-IsLessBusy (count st.node_tid_map) limit src_node
        (get_or topology.nodes_by_distance src_node []) le max
