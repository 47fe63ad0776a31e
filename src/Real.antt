-- ===== src/Real.antt =====
-- real_t of src/utils/types.hpp, a float: the type and the operations on it that the code uses are
-- an interface. The one law asked of them is that `<` is a strict partial order, as it is on IEEE
-- floats with NaN included.
use csci555_usc.Base.{ℕ, ◌+◌, ◌-◌, ◌*◌, ◌/◌, Bool, not, ltb, ◌==◌, StrictOrder, ltb_order}

pub record Real (R : Type 0) : Type 0 where
  pub of_nat : ℕ → R
  pub plus : R → R → R
  pub minus : R → R → R
  pub times : R → R → R
  pub over : R → R → R
  pub lt : R → R → Bool
  pub eq : R → R → Bool
  -- static_cast<size_t>
  pub trunc : R → ℕ
  -- std::isnormal
  pub is_normal : R → Bool
  pub lt_order : StrictOrder lt

-- The numbers as an instance, on which the code runs in tests.
instance abbrev pub nat_real : Real ℕ
nat_real = record {
  of_nat = λ n. n;
  plus = λ a b. a + b;
  minus = λ a b. a - b;
  times = λ a b. a * b;
  over = λ a b. a / b;
  lt = ltb;
  eq = λ a b. a == b;
  trunc = λ a. a;
  is_normal = λ a. not (a == 0);
  lt_order = ltb_order;
}
