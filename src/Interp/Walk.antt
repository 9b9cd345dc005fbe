-- ===== src/Interp/Walk.antt =====
-- src/interp.rs: where an unwinding that no ensure block intercepts ends.
use smallishtalk.Base.{
  ℕ, ◌+◌, ◌<◌, ◌≤◌, ◌≡◌, ap, ◌∙◌, refl, arith, if_false, Bool, true, false, true≢false, ◌&&◌,
  Option, none, some, ltb, ◌==◌, if◌then◌else◌,
}
use smallishtalk.Base.Int.{pos}
use smallishtalk.Space.{Memory}
use smallishtalk.Treaty.Frames.{flag_ensure}
use smallishtalk.Value.{Value, as_int}
use smallishtalk.Heap.{slot_addr}
use smallishtalk.Vm.{Vm}
use smallishtalk.Interp.{Regs}
use smallishtalk.Interp.Unwind.{
  flags_at, caller_at, has_flag, is_zero, return_here, not_on_chain, past_base, pop, intercept,
  unwind_step, ensure_block,
}

-- The three ends: at the target, below it, or at a frame that returns to none.
pub data End : Type 0 where
  at_target below_target at_base : End

-- The frames from `f` down, none of which is an ensure frame, up to one of the ends.
pub data Walk (m : Memory) (stack target : ℕ) : ℕ → End → Type 0 where
  here : Walk m stack target target at_target
  below : (f : ℕ) → f < target → Walk m stack target f below_target
  ran_out :
      (f : ℕ)
      → target < f
      → has_flag (flags_at m stack f) flag_ensure ≡ false
      → caller_at m stack f ≡ pos 0
      → Walk m stack target f at_base
  up :
      (f c : ℕ) (e : End)
      → target < f
      → has_flag (flags_at m stack f) flag_ensure ≡ false
      → caller_at m stack f ≡ pos c
      → 0 < c
      → c + 4 ≤ f
      → Walk m stack target c e
      → Walk m stack target f e

pub Walk-kept :
    (m m' : Memory) (stack target f : ℕ) (e : End)
    → ((a : ℕ) → a < slot_addr stack (f + 4) → m' a ≡ m a)
    → Walk m stack target f e
    → Walk m' stack target f e
Walk-kept m m' stack target _ _ same here = here
Walk-kept m m' stack target _ _ same (below f h) = below f h
Walk-kept m m' stack target _ _ same (ran_out f h q e) =
    ran_out f h
      (ap (λ w. has_flag (as_int w) flag_ensure) (same (slot_addr stack (f + 3)) (omega arith)) ∙ q)
      (ap as_int (same (slot_addr stack (f + 0)) (omega arith)) ∙ e)
Walk-kept m m' stack target _ _ same (up f c end h q e p le w) =
    up f c end h
      (ap (λ w. has_flag (as_int w) flag_ensure) (same (slot_addr stack (f + 3)) (omega arith)) ∙ q)
      (ap as_int (same (slot_addr stack (f + 0)) (omega arith)) ∙ e) p le
      (Walk-kept m m' stack target c end (λ a l. same a (omega arith)) w)

-- The round of the loop at a frame above the target.
and_false : (a b c : Bool) → a ≡ false → (a && b && c) ≡ false
and_false false b c h = refl
and_false true b c h = absurd (true≢false h)

no_block :
    (vm : Vm) (regs : Regs)
    → has_flag (flags_at vm.heap.mem regs.stack regs.frame) flag_ensure ≡ false
    → ensure_block vm regs ≡ none
unfolding ensure_block
no_block vm regs q = if_false _ _ (and_false _ _ _ q)

above_only :
    (here gone : Bool) (block : Option (ℕ × Value)) (z : Bool)
    → here ≡ false
    → gone ≡ false
    → block ≡ none
    → (if here then return_here else if gone then not_on_chain else elim block [
      | some (hsb, blockv) ↦ intercept hsb blockv
      | none ↦ (if z then past_base else pop)
    ])
      ≡ (if z then past_base else pop)
above_only true gone block z h g b = absurd (true≢false h)
above_only false true block z h g b = absurd (true≢false g)
above_only false false none z h g b = refl
above_only false false (some x) z h g b = ground (arith, b)

pub step_above :
    (vm : Vm) (regs : Regs) (target : ℕ)
    → target < regs.frame
    → has_flag (flags_at vm.heap.mem regs.stack regs.frame) flag_ensure ≡ false
    → unwind_step vm regs target
      ≡ (if is_zero (caller_at vm.heap.mem regs.stack regs.frame) then past_base else pop)
unfolding unwind_step
step_above vm regs target h q =
    above_only (regs.frame == target) (ltb regs.frame target) (ensure_block vm regs)
      (is_zero (caller_at vm.heap.mem regs.stack regs.frame)) (ground arith) (ground arith)
      (no_block vm regs q)
