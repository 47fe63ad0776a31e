-- ===== src/Tickets/Masks.antt =====
-- The masks of sums and differences of tickets.
use Prim.Native.Nat.{bit_and, bit_or, bit_xor}
use csci555_usc.Base.{ℕ, zero, suc, ◌<◌, ◌≡◌, refl, Bool, true, false, not, ◌&&◌, ◌==◌, arith}
use csci555_usc.Real.{Real}
use csci555_usc.Tickets.{Tickets, plus_tickets, minus_tickets}

all_below : ℕ → (ℕ → Bool) → Bool
all_below zero p = true
all_below (suc n) p = p n && all_below n p

all_below_lem : (n : ℕ) (p : ℕ → Bool) (x : ℕ) → all_below n p ≡ true → x < n → p x ≡ true
unfolding all_below
all_below_lem zero p x h lt = absurd (omega arith)
all_below_lem (suc n) p x h lt = ground (arith, all_below_lem n p x)

abbrev same : Bool → Bool → Bool
same true b = b
same false b = not b

same→eq : (a b : Bool) → same a b ≡ true → a ≡ b
same→eq true true h = refl
same→eq true false h = cc
same→eq false true h = cc
same→eq false false h = refl

-- Taking the second mask away from both gives the first back exactly if they have nothing in common.
abbrev restored : ℕ → ℕ → Bool
restored a b = same (bit_xor (bit_or a b) b == a) (bit_and a b == 0)

restored_table : all_below 64 (λ a. all_below 64 (restored a)) ≡ true
unfolding all_below
restored_table = refl

module _ {R : Type 0} ⦃real : Real R⦄ where
  -- Taking away tickets that were added restores the mask, for masks of the six reasons, exactly if
  -- the tickets had no reason in common.
  pub minus_tickets-plus_tickets :
      (a b : Tickets R)
      → a.mask < 64
      → b.mask < 64
      → (minus_tickets (plus_tickets a b) b).mask == a.mask ≡ (bit_and a.mask b.mask == 0)
  unfolding minus_tickets plus_tickets
  minus_tickets-plus_tickets a b ha hb =
      same→eq (bit_xor (bit_or a.mask b.mask) b.mask == a.mask) (bit_and a.mask b.mask == 0) (
        all_below_lem 64 (restored a.mask) b.mask
          (all_below_lem 64 (λ m. all_below 64 (restored m)) a.mask restored_table ha) hb)
