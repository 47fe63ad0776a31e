-- ===== src/Pages/Means.antt =====
-- Running averages in integer arithmetic.
use native.Mathlib.Nat.{le-div_iff_mul-le, div-lt_iff_lt-mul}
use csci555_usc.Base.{ℕ, suc, ◌+◌, ◌*◌, ◌/◌, ◌≤◌, ◌<◌, ◌≡◌, arith}

-- A value lies between two bounds.
abbrev pub Within : ℕ → ℕ → ℕ → Type 0
Within lo hi a = (lo ≤ a) × (a ≤ hi)

-- The weighted mean of two values between the bounds is between them.
pub mean-Within :
    (lo hi a x n w : ℕ)
    → 0 < n + w
    → Within lo hi a
    → Within lo hi x
    → Within lo hi ((n * a + x * w) / (n + w))
mean-Within lo hi a x n w pos h k = (
  (le-div_iff_mul-le pos).1 (grind arith),
  omega (arith, (div-lt_iff_lt-mul {x = n * a + x * w} {y = hi + 1} pos).1 (grind arith)),
)

-- The first value counts whatever stood there before.
pub mean_first :
    (lo hi a x w : ℕ) → 0 < w → Within lo hi x → Within lo hi ((0 * a + x * w) / (0 + w))
mean_first lo hi a x w pos k =
    let h = mean-Within lo hi x x 0 w (omega arith) k k in
    let e : 0 * x + x * w ≡ 0 * a + x * w = omega arith in rw e at h

-- The same for one more value.
pub mean-Within_one :
    (lo hi a x n : ℕ) → Within lo hi a → Within lo hi x → Within lo hi ((a * n + x) / (n + 1))
mean-Within_one lo hi a x n h k =
    let m = mean-Within lo hi a x n 1 (omega arith) h k in
    let e : n * a + x * 1 ≡ a * n + x = omega arith in rw e at m

pub mean_first_one : (lo hi a x : ℕ) → Within lo hi x → Within lo hi ((a * 0 + x) / (0 + 1))
mean_first_one lo hi a x k =
    let m = mean_first lo hi a x 1 (omega arith) k in
    let e : 0 * a + x * 1 ≡ a * 0 + x = omega arith in rw e at m

-- The first of the values may be anything if it has no weight.
pub mean_step :
    (lo hi a x n : ℕ)
    → (0 < n → Within lo hi a)
    → Within lo hi x
    → Within lo hi ((a * n + x) / (n + 1))
mean_step lo hi a x n h k = go n h
  where
    go : (n : ℕ) → (0 < n → Within lo hi a) → Within lo hi ((a * n + x) / (n + 1))
    go ℕ.zero h = mean_first_one lo hi a x k
    go (suc n) h = mean-Within_one lo hi a x (suc n) (h (omega arith)) k
