-- ===== src/Interp/Chain.antt =====
-- src/interp.rs: the chain of frames that the unwinder follows.
use smallishtalk.Base.{
  ℕ, ◌+◌, ◌^◌, ◌<◌, ◌≤◌, ◌≡◌, ◌≢◌, ◌⊎◌, inl, inr, ap, ◌∙◌, sym, refl, arith, Bool, true, false,
  Option, none, some, ltb, true≢false, ◌==◌, if◌then◌else◌,
}
use smallishtalk.Base.Int.{pos}
use smallishtalk.Base.Words.{u64_mod, as_unsigned}
use smallishtalk.Space.{Memory}
use smallishtalk.Treaty.Frames.{flag_unwindcont}
use smallishtalk.Value.{Value, as_int}
use smallishtalk.Heap.{slot_addr}
use smallishtalk.Vm.{Vm}
use smallishtalk.Interp.{Regs}
use smallishtalk.Interp.Unwind.{
  flags_at, caller_at, has_flag, is_zero, return_here, not_on_chain, past_base, pop, intercept,
  unwind_step, pop_to, ensure_block,
}
use smallishtalk.Interp.Kept.{pop_to-below}

-- Each frame lies above the frame that it returns to, up to one that returns to none.
pub data Chain (m : Memory) (stack : ℕ) : ℕ → Type 0 where
  base :
      (f : ℕ)
      → caller_at m stack f ≡ pos 0
      → has_flag (flags_at m stack f) flag_unwindcont ≡ false
      → Chain m stack f
  linked :
      (f c : ℕ)
      → caller_at m stack f ≡ pos c
      → 0 < c
      → c + 4 ≤ f
      → Chain m stack c
      → Chain m stack f

Chain-kept :
    (m m' : Memory) (stack f : ℕ)
    → ((a : ℕ) → a < slot_addr stack (f + 4) → m' a ≡ m a)
    → Chain m stack f
    → Chain m' stack f
Chain-kept m m' stack f same (base _ e q) =
    base f (ap as_int (same (slot_addr stack (f + 0)) (omega arith)) ∙ e) (
      ap (λ w. has_flag (as_int w) flag_unwindcont) (same (slot_addr stack (f + 3)) (omega arith))
      ∙ q)
Chain-kept m m' stack f same (linked _ c e p le ch) =
    linked f c (ap as_int (same (slot_addr stack (f + 0)) (omega arith)) ∙ e) p le
      (Chain-kept m m' stack c (λ a h. same a (omega arith)) ch)

-- A frame of the chain that does not return to none.
unfoldable pub Above : Memory → ℕ → ℕ → Type 0
Above m stack f =
    (c : ℕ) × (as_unsigned u64_mod (caller_at m stack f) ≡ c) × (c + 4 ≤ f) × Chain m stack c

pub Chain-Above :
    (m : Memory) (stack f : ℕ)
    → f < 2 ^ 62
    → Chain m stack f
    → (caller_at m stack f ≢ pos 0) ⊎ (has_flag (flags_at m stack f) flag_unwindcont ≡ true)
    → Above m stack f
unfolding Above
Chain-Above m stack f h (base _ e q) other = elim other [
  | inl ne ↦ absurd (ne e)
  | inr t ↦ absurd (true≢false (sym t ∙ q))
]
Chain-Above m stack f h (linked _ c e p le ch) other =
    (c, ap (as_unsigned u64_mod) e ∙ omega arith, le, ch)

pub popped-Chain :
    (vm : Vm) (regs : Regs) (c : ℕ)
    → c + 4 ≤ regs.frame
    → Chain vm.heap.mem regs.stack c
    → Chain (pop_to vm regs c).0.heap.mem regs.stack c
popped-Chain vm regs c le ch =
    Chain-kept vm.heap.mem (pop_to vm regs c).0.heap.mem regs.stack c
      (λ a h. pop_to-below vm regs c a (omega arith)) ch

pop_only :
    (here gone : Bool) (block : Option (ℕ × Value)) (z : Bool)
    → (if here then return_here else if gone then not_on_chain else elim block [
      | some (hsb, blockv) ↦ intercept hsb blockv
      | none ↦ (if z then past_base else pop)
    ])
      ≡ pop
    → z ≡ false
pop_only true gone block z e = ground (arith, e)
pop_only false true block z e = ground (arith, e)
pop_only false false (some (hsb, blockv)) z e = ground (arith, e)
pop_only false false none true e = ground (arith, e)
pop_only false false none false e = refl

pub unwind_step-pop :
    (vm : Vm) (regs : Regs) (target : ℕ)
    → unwind_step vm regs target ≡ pop
    → is_zero (caller_at vm.heap.mem regs.stack regs.frame) ≡ false
unfolding unwind_step
unwind_step-pop vm regs target e =
    pop_only (regs.frame == target) (ltb regs.frame target) (ensure_block vm regs)
      (is_zero (caller_at vm.heap.mem regs.stack regs.frame)) e
