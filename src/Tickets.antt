-- ===== src/Tickets.antt =====
-- Tickets, src/migration/tickets.hpp and src/migration/tickets.cpp: how much a migration is worth, with
-- a mask of the reasons that gave it its tickets, the tickets of each reason, and the file they are
-- kept in. A stream is the words that are left of it, or a failure, as operator>> leaves it.
pub mod Masks
pub mod Files
mod Tests
use Prim.Native.Nat.{bit_and, bit_or, bit_xor}
use csci555_usc.Base.{
  ℕ, Bool, true, false, not, Option, none, some, List, [], ◌∷◌, ◌==◌, if◌then◌else◌,
}
use csci555_usc.Real.{Real}

pub record Tickets (R : Type 0) : Type 0 where
  pub value : R
  pub mask : ℕ

-- tickets_mask
abbrev pub mem_cell_worse_mask : ℕ
mem_cell_worse_mask = 1

abbrev pub mem_cell_no_data_mask : ℕ
mem_cell_no_data_mask = 2

abbrev pub mem_cell_better_mask : ℕ
mem_cell_better_mask = 4

abbrev pub free_core_mask : ℕ
free_core_mask = 8

abbrev pub pref_node_mask : ℕ
pref_node_mask = 16

abbrev pub thread_under_perf_mask : ℕ
thread_under_perf_mask = 32

-- A reason is in a mask.
abbrev pub has_mask : ℕ → ℕ → Bool
has_mask mask reason = not (bit_and mask reason == 0)

-- The variables of tickets.cpp.
pub record Settings (R : Type 0) : Type 0 where
  pub mem_cell_worse : Tickets R
  pub mem_cell_no_data : Tickets R
  pub mem_cell_better : Tickets R
  pub free_core : Tickets R
  pub pref_node : Tickets R
  pub under_perf : Tickets R
  pub perf_threshold : R
  pub undo_threshold : R

module _ {R : Type 0} ⦃real : Real R⦄ where
  open real use {of_nat, plus, minus, over, lt}

  -- tickets_t()
  abbrev pub no_tickets : Tickets R
  no_tickets = record { value = of_nat 0; mask = 0 }

  unfoldable pub plus_tickets : Tickets R → Tickets R → Tickets R
  plus_tickets a b = record { value = plus a.value b.value; mask = bit_or a.mask b.mask }

  unfoldable pub minus_tickets : Tickets R → Tickets R → Tickets R
  minus_tickets a b = record { value = minus a.value b.value; mask = bit_xor a.mask b.mask }

  -- The values that the variables start with.
  unfoldable pub default_settings : Settings R
  default_settings = record {
    mem_cell_worse = record { value = of_nat 1; mask = mem_cell_worse_mask };
    mem_cell_no_data = record { value = of_nat 2; mask = mem_cell_no_data_mask };
    mem_cell_better = record { value = of_nat 4; mask = mem_cell_better_mask };
    free_core = record { value = of_nat 2; mask = free_core_mask };
    pref_node = record { value = of_nat 4; mask = pref_node_mask };
    under_perf = record { value = of_nat 3; mask = thread_under_perf_mask };
    perf_threshold = over (of_nat 8) (of_nat 10);
    undo_threshold = over (of_nat 9) (of_nat 10);
  }

  -- The numbers of a file, in its order.
  abbrev pub numbers : Settings R → List R
  numbers s =
      s.mem_cell_worse.value ∷ s.mem_cell_no_data.value ∷ s.mem_cell_better.value
      ∷ s.free_core.value ∷ s.pref_node.value ∷ s.under_perf.value ∷ s.perf_threshold
      ∷ s.undo_threshold ∷ []

  -- The words of a file, and how a number is written and read.
  module _ {Word : Type 0} (print : R → Word) (parse : Word → Option R) where
    -- operator>> into a variable: it keeps its value at the end of the file and after a failure, and is
    -- 0 after a word that is no number; nothing is thrown.
    unfoldable pub extract : Option (List Word) → R → R × Option (List Word)
    extract none old = (old, none)
    extract (some []) old = (old, none)
    extract (some (word ∷ words)) old = elim (parse word) [
      | none ↦ (of_nat 0, none)
      | some v ↦ (v, some words)
    ]

    -- operator>> of tickets_t
    unfoldable pub extract_tickets : Option (List Word) → Tickets R → Tickets R × Option (List Word)
    unfolding extract
    extract_tickets file t = let r = extract file t.value in (record t { value = r.0 }, r.1)

    read_settings : Option (List Word) → Settings R → Settings R
    unfolding extract_tickets
    read_settings file s =
        let worse = extract_tickets file s.mem_cell_worse in
        let no_data = extract_tickets worse.1 s.mem_cell_no_data in
        let better = extract_tickets no_data.1 s.mem_cell_better in
        let core = extract_tickets better.1 s.free_core in
        let pref = extract_tickets core.1 s.pref_node in
        let under = extract_tickets pref.1 s.under_perf in
        let perf = extract under.1 s.perf_threshold in
        let undo = extract perf.1 s.undo_threshold in
        record {
          mem_cell_worse = worse.0;
          mem_cell_no_data = no_data.0;
          mem_cell_better = better.0;
          free_core = core.0;
          pref_node = pref.0;
          under_perf = under.0;
          perf_threshold = perf.0;
          undo_threshold = undo.0;
        }

    -- `none` is a file that cannot be opened.
    unfoldable pub read_tickets_file : Option (List Word) → Settings R → Bool × Settings R
    unfolding read_settings
    read_tickets_file none s = (false, s)
    read_tickets_file (some words) s = (true, read_settings (some words) s)

    print_all : List R → List Word
    print_all [] = []
    print_all (v ∷ vs) = print v ∷ print_all vs

    -- `opened` says whether the file could be opened; otherwise it is left as it was.
    unfoldable pub write_tickets_file :
        Bool → Settings R → Option (List Word) → Bool × Option (List Word)
    unfolding print_all
    write_tickets_file opened s file =
        if not opened then (false, file) else (true, some (print_all (numbers s)))
