-- ===== src/Threads/Repins.antt =====
-- Pinning a thread to the processor where it runs: `pin` of src/system_info/processes/process.hpp
-- compares the processor that was last read, not the one that the thread is pinned to.
use csci555_usc.Base.{
  ℕ, ◌≡◌, refl, sym, ap, ◌∙◌, Bool, true, false, not, ◌&&◌, some, List, [], ◌∷◌, ◌==◌, arith,
  Bool-cases, inl, inr, eq→==,
}
use csci555_usc.Pages.Table.{find, modify}
use csci555_usc.Threads.{Process, Kernel, System, pin, moved_to_cpu, pin_thread_to_cpu}
use csci555_usc.Threads.Placement.{pinned_if, pin_thread_to_cpu_ok}

some_injective : {A : Type 0} (x y : A) → some x ≡ some y → x ≡ y
some_injective x y p = cc p

modify_same :
    {A : Type 0} (tid : ℕ) (a : A) (rows : List (ℕ × A))
    → find tid rows ≡ some a
    → modify tid (λ _. a) rows ≡ rows
unfolding find modify
modify_same tid a [] h = refl
modify_same tid a ((t, b) ∷ rows) h = elim (Bool-cases (tid == t)) [
  | inl e ↦ let h' = rw e at h in simp e (ap (λ x. (t, x) ∷ rows) (sym (some_injective b a h')))
  | inr e ↦ let h' = rw e at h in simp e (ap (λ xs. (t, b) ∷ xs) (modify_same tid a rows h'))
]

module _ {K : Type 0} where
  pinned_if-processor :
      (early failed : Bool) (p q : Process) (k k' : K)
      → q.processor ≡ p.processor
      → (pinned_if early failed p q k k').1.processor ≡ p.processor
  pinned_if-processor true failed p q k k' h = refl
  pinned_if-processor false true p q k k' h = refl
  pinned_if-processor false false p q k k' h = h

  pinned_if-pinned :
      (early failed : Bool) (p q : Process) (k k' : K)
      → (early ≡ true → p.pinned ≡ true)
      → q.pinned ≡ true
      → (pinned_if early failed p q k k').0 ≡ true
      → (pinned_if early failed p q k k').1.pinned ≡ true
  pinned_if-pinned true failed p q k k' h g ok = h refl
  pinned_if-pinned false true p q k k' h g ok = cc
  pinned_if-pinned false false p q k k' h g ok = g

  pinned_if-target :
      (failed : Bool) (p q : Process) (k k' : K) (cpu : ℕ)
      → q.pinned_processor ≡ cpu
      → (pinned_if false failed p q k k').0 ≡ true
      → (pinned_if false failed p q k k').1.pinned_processor ≡ cpu
  pinned_if-target true p q k k' cpu h ok = cc
  pinned_if-target false p q k k' cpu h ok = h

module _ {K : Type 0} (kernel : Kernel K) where
  abbrev pinned_at : ℕ → Process → Process
  pinned_at cpu p = record p {
    pinned = true;
    pinned_processor = cpu;
    pinned_numa_node = kernel.numa_node_of_cpu p.processor;
  }

  -- `pin` never changes the processor where the process was last seen.
  pub pin-processor :
      (cpu : ℕ) (p : Process) (k : K) → (pin kernel cpu p k).1.processor ≡ p.processor
  unfolding pin
  pin-processor cpu p k =
      let r = kernel.set_affinity p.pid (cpu ∷ []) k in
      pinned_if-processor (cpu == p.processor && p.pinned) (not r.0) p (pinned_at cpu p) k r.1 refl

  pub pin-pinned :
      (cpu : ℕ) (p : Process) (k : K)
      → (pin kernel cpu p k).0 ≡ true
      → (pin kernel cpu p k).1.pinned ≡ true
  unfolding pin
  pin-pinned cpu p k ok =
      let r = kernel.set_affinity p.pid (cpu ∷ []) k in
      pinned_if-pinned (cpu == p.processor && p.pinned) (not r.0) p (pinned_at cpu p) k r.1
        (λ e. ground arith) refl ok

  pub pin-pinned_processor :
      (cpu : ℕ) (p : Process) (k : K)
      → cpu == p.processor ≡ false
      → (pin kernel cpu p k).0 ≡ true
      → (pin kernel cpu p k).1.pinned_processor ≡ cpu
  unfolding pin
  pin-pinned_processor cpu p k apart ok =
      let r = kernel.set_affinity p.pid (cpu ∷ []) k in
      let ok' = rw apart at ok in
      simp apart (pinned_if-target (not r.0) p (pinned_at cpu p) k r.1 cpu refl ok')

  pin_early :
      (cpu : ℕ) (p : Process) (k : K)
      → cpu == p.processor && p.pinned ≡ true
      → pin kernel cpu p k ≡ (true, p, k)
  unfolding pin
  pin_early cpu p k h = rw (pin, h) refl

  moved_same :
      (tid cpu : ℕ) (p : Process) (st : System)
      → find tid st.processes ≡ some p
      → moved_to_cpu kernel tid cpu p p st ≡ st
  unfolding moved_to_cpu
  moved_same tid cpu p st found =
      simp (eq→== p.pinned_processor p.pinned_processor refl)
        (ap (λ rows. record st { processes = rows }) (modify_same tid p st.processes found))

  -- Pinning a known pinned thread to the processor where it was last seen reports success and changes
  -- nothing, whatever processor it is pinned to.
  pub pin_thread_to_cpu_again :
      (tid cpu : ℕ) (p : Process) (st : System) (k : K)
      → tid == 0 ≡ false
      → find tid st.processes ≡ some p
      → cpu == p.processor && p.pinned ≡ true
      → pin_thread_to_cpu kernel tid cpu st k ≡ some (true, st, k)
  pin_thread_to_cpu_again tid cpu p st k nonzero found h =
      let early = pin_early cpu p k h in
      let ok : (pin kernel cpu p k).0 ≡ true = ap (λ r. r.0) early in
      pin_thread_to_cpu_ok kernel tid cpu p st k nonzero found ok
      ∙ ap (λ r. some (true, moved_to_cpu kernel tid cpu p r.1 st, r.2)) early
      ∙ ap (λ s. some (true, s, k)) (moved_same tid cpu p st found)
