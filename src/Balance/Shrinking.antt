-- ===== src/Balance/Shrinking.antt =====
-- The threads of a place, and what taking one of them out leaves.
use csci555_usc.Base.{
  ℕ, zero, suc, ◌+◌, ◌≤◌, ◌≡◌, refl, sym, ap, ◌∙◌, inl, inr, Bool, true, false, Bool-cases, not,
  none, some, List, [], ◌∷◌, ◌==◌, ltb, arith, if◌then◌else◌, get_or, get_elem?, length, contains,
  Nodup, erase, insert, contains-erase, ==→eq, max_element-IsMax, flip_order, ltb_order,
  min_element, max_element,
}
use csci555_usc.Threads.{at_index}
use csci555_usc.Threads.Moves.{non_idle, contains-non_idle}
use csci555_usc.Balance.{tids_of, first_tid}

contains-get_elem? : (xs : List ℕ) (i a : ℕ) → get_elem? xs i ≡ some a → contains a xs ≡ true
contains-get_elem? [] i a h = cc
contains-get_elem? (x ∷ xs) zero a h = ground arith
contains-get_elem? (x ∷ xs) (suc i) a h = ground (arith, contains-get_elem? xs i a h)

get_elem?-none : (xs : List ℕ) (i : ℕ) → get_elem? xs i ≡ none → length xs ≤ i
get_elem?-none [] i h = omega arith
get_elem?-none (x ∷ xs) zero h = cc
get_elem?-none (x ∷ xs) (suc i) h = omega (arith, get_elem?-none xs i h)

pub contains-first_tid : (tids : List ℕ) (t : ℕ) → first_tid tids ≡ some t → contains t tids ≡ true
contains-first_tid tids t h = contains-get_elem? tids (min_element ltb tids) t h

-- The first thread is missing only of no threads.
pub first_tid-none : (tids : List ℕ) → first_tid tids ≡ none → length tids ≡ 0
unfolding min_element
first_tid-none [] h = refl
first_tid-none (x ∷ xs) h =
    let inside = max_element-IsMax (flip_order ltb_order) 0 x xs in
    let outside = get_elem?-none (x ∷ xs) (max_element (λ a b. ltb b a) (x ∷ xs)) h in
    absurd (omega (arith, inside.0, outside))

erase_nil : (t : ℕ) → erase t [] ≡ []
unfolding erase
erase_nil t = refl

erase_here : (t x : ℕ) (xs : List ℕ) → t == x ≡ true → erase t (x ∷ xs) ≡ erase t xs
unfolding erase
erase_here t x xs h = ground (arith, h)

erase_there : (t x : ℕ) (xs : List ℕ) → t == x ≡ false → erase t (x ∷ xs) ≡ x ∷ erase t xs
unfolding erase
erase_there t x xs h = ground (arith, h)

erase_absent : (t : ℕ) (xs : List ℕ) → contains t xs ≡ false → erase t xs ≡ xs
unfolding erase
erase_absent t [] h = refl
erase_absent t (x ∷ xs) h =
    let rest : contains t xs ≡ false = ground (arith, h) in
    let apart : t == x ≡ false = ground (arith, h) in
    erase_there t x xs apart ∙ ap (λ l. x ∷ l) (erase_absent t xs rest)

length-erase :
    (t : ℕ) (xs : List ℕ) → Nodup xs → contains t xs ≡ true → length (erase t xs) + 1 ≡ length xs
length-erase t [] d h = cc
length-erase t (x ∷ xs) d h = elim (Bool-cases (t == x)) [
  | inl e ↦
      let absent : contains t xs ≡ false = ap (λ n. contains n xs) (==→eq t x e) ∙ d.0 in
      simp (erase_here t x xs e, erase_absent t xs absent) (omega arith)
  | inr e ↦
      let there : contains t xs ≡ true = ground (arith, h, e) in
      simp (erase_there t x xs e) (omega (arith, length-erase t xs d.1 there))
]

pub erase-Nodup : (t : ℕ) (xs : List ℕ) → Nodup xs → Nodup (erase t xs)
erase-Nodup t [] d = rw (erase_nil t) tt
erase-Nodup t (x ∷ xs) d = elim (Bool-cases (t == x)) [
  | inl e ↦ simp (erase_here t x xs e) (erase-Nodup t xs d.1)
  | inr e ↦
      let out : contains x (erase t xs) ≡ false = ground (arith, contains-erase t x xs, d.0) in
      simp (erase_there t x xs e) (out, erase-Nodup t xs d.1)
]

module _ (is_idle : ℕ → Bool) where
  non_idle-Nodup : (xs : List ℕ) → Nodup xs → Nodup (non_idle is_idle xs)
  unfolding non_idle
  non_idle-Nodup [] d = tt
  non_idle-Nodup (x ∷ xs) d = elim (Bool-cases (is_idle x)) [
    | inl e ↦ simp e (non_idle-Nodup xs d.1)
    | inr e ↦
        let out : contains x (non_idle is_idle xs) ≡ false =
          ground (arith, contains-non_idle is_idle x xs, d.0) in
        simp e (out, non_idle-Nodup xs d.1)
  ]

  non_idle-erase :
      (t : ℕ) (xs : List ℕ) → non_idle is_idle (erase t xs) ≡ erase t (non_idle is_idle xs)
  unfolding non_idle erase
  non_idle-erase t [] = refl
  non_idle-erase t (x ∷ xs) = elim (Bool-cases (t == x)) [
    | inl e ↦
        ap (non_idle is_idle) (erase_here t x xs e)
        ∙ non_idle-erase t xs
        ∙ sym (dropped (is_idle x) t x (non_idle is_idle xs) e)
    | inr e ↦
        ap (non_idle is_idle) (erase_there t x xs e)
        ∙ ap (λ l. if not (is_idle x) then x ∷ l else l) (non_idle-erase t xs)
        ∙ sym (passed (is_idle x) t x (non_idle is_idle xs) e)
  ]
    where
      dropped :
          (b : Bool) (t x : ℕ) (l : List ℕ)
          → t == x ≡ true
          → erase t (if not b then x ∷ l else l) ≡ erase t l
      dropped true t x l e = refl
      dropped false t x l e = erase_here t x l e

      passed :
          (b : Bool) (t x : ℕ) (l : List ℕ)
          → t == x ≡ false
          → erase t (if not b then x ∷ l else l) ≡ (if not b then x ∷ erase t l else erase t l)
      passed true t x l e = refl
      passed false t x l e = erase_there t x l e

  -- The threads counted at a place, of the set there.
  abbrev counted : Bool → List ℕ → List ℕ
  counted ignore_idle set = if ignore_idle then non_idle is_idle set else set

  counted-erase :
      (ignore_idle : Bool) (t : ℕ) (set : List ℕ)
      → Nodup set
      → contains t (counted ignore_idle set) ≡ true
      → length (counted ignore_idle (erase t set)) + 1 ≡ length (counted ignore_idle set)
  counted-erase true t set d h =
      ap (λ l. length l + 1) (non_idle-erase t set)
      ∙ length-erase t (non_idle is_idle set) (non_idle-Nodup set d) h
  counted-erase false t set d h = length-erase t set d h

  -- A thread that is counted at a place is in the set there, and taking it out of the set leaves one
  -- less to count.
  pub tids_of-erase :
      (sets sets' : List (List ℕ)) (i t : ℕ) (ignore_idle : Bool)
      → get_or sets' i [] ≡ erase t (get_or sets i [])
      → Nodup (get_or sets i [])
      → contains t (tids_of is_idle sets i ignore_idle) ≡ true
      → length (tids_of is_idle sets' i ignore_idle) + 1
        ≡ length (tids_of is_idle sets i ignore_idle)
  unfolding tids_of
  tids_of-erase sets sets' i t ignore_idle e d h =
      ap (λ s. length (counted ignore_idle s) + 1) e
      ∙ counted-erase ignore_idle t (get_or sets i []) d h

  pub contains-tids_of :
      (sets : List (List ℕ)) (i t : ℕ) (ignore_idle : Bool)
      → contains t (tids_of is_idle sets i ignore_idle) ≡ true
      → contains t (get_or sets i []) ≡ true
  unfolding tids_of
  contains-tids_of sets i t true h =
      ground (arith, contains-non_idle is_idle t (get_or sets i []), h)
  contains-tids_of sets i t false h = h

-- The set of a place after a thread was moved from there to another.
pub moved_set :
    (sets : List (List ℕ)) (i j t : ℕ)
    → i == j ≡ false
    → get_or (at_index (at_index sets i (erase t)) j (insert t)) i [] ≡ erase t (get_or sets i [])
unfolding erase
moved_set [] i j t h = refl
moved_set (s ∷ sets) zero zero t h = cc
moved_set (s ∷ sets) zero (suc j) t h = refl
moved_set (s ∷ sets) (suc i) zero t h = erased sets i
  where
    erased :
        (sets : List (List ℕ)) (i : ℕ)
        → get_or (at_index sets i (erase t)) i [] ≡ erase t (get_or sets i [])
    erased [] i = refl
    erased (s ∷ sets) zero = refl
    erased (s ∷ sets) (suc i) = erased sets i
moved_set (s ∷ sets) (suc i) (suc j) t h = moved_set sets i j t (ground arith)
