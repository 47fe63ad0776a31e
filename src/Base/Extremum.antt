-- ===== src/Base/Extremum.antt =====
-- std::max_element and std::min_element: the first extremal index under a strict order, which the
-- caller gives as the test `lt`.
use Prim.Native.Nat.{ℕ, suc, ◌+◌, ◌<◌}
use mathlib.Core.Path.{◌≡◌, refl, sym, subst}
use mathlib.Core.Logic.{◌⊎◌, inl, inr}
use mathlib.Core.Bool.{Bool, true, false}
use mathlib.Core.List.{List, [], ◌∷◌}
use native.Mathlib.Omega.{arith}
use csci555_usc.Base.Tests.{Bool-cases, if◌then◌else◌, ltb}
use csci555_usc.Base.Lists.{length, get_or, All}

-- What the search relies on: a strict partial order, which `<` is on the integers and on the
-- floats, NaN included.
pub record StrictOrder {ℓ} {A : Type ℓ} (lt : A → A → Bool) : Type ℓ where
  pub irrefl : (a : A) → lt a a ≡ false
  pub trans : (a b c : A) → lt a b ≡ true → lt b c ≡ true → lt a c ≡ true

pub ltb_order : StrictOrder ltb
ltb_order = record { irrefl = λ a. ground arith; trans = λ a b c p q. ground arith }

module _ {ℓ} {A : Type ℓ} where
  -- the best element so far, its index, the index of the next element, the elements that are left
  unfoldable pub max_from : (A → A → Bool) → A → ℕ → ℕ → List A → ℕ
  max_from lt best at i [] = at
  max_from lt best at i (x ∷ xs) =
      max_from lt (if lt best x then x else best) (if lt best x then i else at) (suc i) xs

  -- The index of the first largest element, 0 of no elements.
  unfoldable pub max_element : (A → A → Bool) → List A → ℕ
  unfolding max_from
  max_element lt [] = 0
  max_element lt (x ∷ xs) = max_from lt x 0 1 xs

  unfoldable pub min_element : (A → A → Bool) → List A → ℕ
  unfolding max_element
  min_element lt xs = max_element (λ a b. lt b a) xs

module _ {ℓ} {A : Type ℓ} {lt : A → A → Bool} (o : StrictOrder lt) (d : A) where
  -- Nothing in the list exceeds `a`.
  abbrev Tops : A → List A → Type 0
  Tops a xs = All (λ x. lt a x ≡ false) xs

  asym : (a b : A) → lt a b ≡ true → lt b a ≡ false
  asym a b h = elim (Bool-cases (lt b a)) [ inl e ↦ cc (o.trans a b a h e, o.irrefl a) | inr e ↦ e ]

  not_above : (a b x : A) → lt a b ≡ true → lt a x ≡ false → lt b x ≡ false
  not_above a b x h k = elim (Bool-cases (lt b x)) [ inl e ↦ cc (o.trans a b x h e) | inr e ↦ e ]

  -- The scan ends where it started, or at a later element that exceeds the start.
  abbrev Scanned : A → ℕ → ℕ → List A → ℕ → Type 0
  Scanned best at i xs r =
      ((r ≡ at) × Tops best xs)
      ⊎ ((k : ℕ) × (r ≡ i + k)
          × (k < length xs)
          × (lt best (get_or xs k d) ≡ true)
          × Tops (get_or xs k d) xs)

  scan_step_up :
      (best x : A) (at i : ℕ) (xs : List A) (r : ℕ)
      → lt best x ≡ true
      → Scanned x i (suc i) xs r
      → Scanned best at i (x ∷ xs) r
  scan_step_up best x at i xs r h (inl (e, tops)) =
      inr (0, omega arith, omega arith, h, (o.irrefl x, tops))
  scan_step_up best x at i xs r h (inr (k, e, lt_k, up, tops)) =
      inr
        (suc k, omega arith, omega arith, o.trans best x (get_or xs k d) h up, (asym x _ up, tops))

  scan_step_stay :
      (best x : A) (at i : ℕ) (xs : List A) (r : ℕ)
      → lt best x ≡ false
      → Scanned best at (suc i) xs r
      → Scanned best at i (x ∷ xs) r
  scan_step_stay best x at i xs r h (inl (e, tops)) = inl (e, (h, tops))
  scan_step_stay best x at i xs r h (inr (k, e, lt_k, up, tops)) =
      inr (suc k, omega arith, omega arith, up, (not_above best _ x up h, tops))

  max_from_up :
      (best x : A) (at i : ℕ) (xs : List A)
      → lt best x ≡ true
      → max_from lt x i (suc i) xs ≡ max_from lt best at i (x ∷ xs)
  unfolding max_from
  max_from_up best x at i xs h = rw h

  max_from_stay :
      (best x : A) (at i : ℕ) (xs : List A)
      → lt best x ≡ false
      → max_from lt best at (suc i) xs ≡ max_from lt best at i (x ∷ xs)
  unfolding max_from
  max_from_stay best x at i xs h = rw h

  max_from-Scanned :
      (best : A) (at i : ℕ) (xs : List A) → Scanned best at i xs (max_from lt best at i xs)
  unfolding max_from
  max_from-Scanned best at i [] = inl (refl, tt)
  max_from-Scanned best at i (x ∷ xs) = elim (Bool-cases (lt best x)) [
    | inl e ↦
        subst (Scanned best at i (x ∷ xs)) (max_from_up best x at i xs e)
          (scan_step_up best x at i xs _ e (max_from-Scanned x i (suc i) xs))
    | inr e ↦
        subst (Scanned best at i (x ∷ xs)) (max_from_stay best x at i xs e)
          (scan_step_stay best x at i xs _ e (max_from-Scanned best at (suc i) xs))
  ]

  -- Of a list that is not empty the search gives an index of it, where nothing in the list is larger.
  abbrev pub IsMax : List A → ℕ → Type 0
  IsMax xs i = (i < length xs) × All (λ x. lt (get_or xs i d) x ≡ false) xs

  from_scan : (x : A) (xs : List A) (r : ℕ) → Scanned x 0 1 xs r → IsMax (x ∷ xs) r
  from_scan x xs r (inl (e, tops)) =
      subst (IsMax (x ∷ xs)) (sym e) (omega arith, (o.irrefl x, tops))
  from_scan x xs r (inr (k, e, lt_k, up, tops)) =
      let e' : suc k ≡ r = omega arith in
      subst (IsMax (x ∷ xs)) e' (omega arith, (asym x _ up, tops))

  pub max_element-IsMax : (x : A) (xs : List A) → IsMax (x ∷ xs) (max_element lt (x ∷ xs))
  unfolding max_element
  max_element-IsMax x xs = from_scan x xs _ (max_from-Scanned x 0 1 xs)

pub flip_order {ℓ} : {A : Type ℓ} {lt : A → A → Bool} → StrictOrder lt → StrictOrder (λ a b. lt b a)
flip_order o = record { irrefl = o.irrefl; trans = λ a b c p q. o.trans c b a q p }
