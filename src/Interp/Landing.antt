-- ===== src/Interp/Landing.antt =====
-- src/interp.rs: the loop of the unwinder along a walk.
use smallishtalk.Base.{
  ℕ, zero, suc, ◌+◌, ◌^◌, ◌<◌, ◌≤◌, ◌≡◌, ◌≢◌, ◌⊎◌, inl, inr, ap, subst, ◌∙◌, sym, refl, arith,
  if_true, if_false, true, false, some, ltb, ◌==◌,
}
use smallishtalk.Base.Int.{pos}
use smallishtalk.Base.Words.{u64_mod, as_unsigned}
use smallishtalk.Space.{Memory}
use smallishtalk.Treaty.Frames.{flag_ensure, frame_receiver}
use smallishtalk.Value.{Value}
use smallishtalk.Heap.{slot_addr}
use smallishtalk.Vm.{Vm}
use smallishtalk.Interp.{
  Outcome, Result, ok, err, fatal, unwind_target_not_on_chain, unwind_past_base, Regs,
}
use smallishtalk.Interp.Unwind.{
  flags_at, caller_at, has_flag, is_zero, UnwindStep, return_here, not_on_chain, past_base, pop,
  unwind_step, unwind_by, unwind_frames, return_from, pop_to, count_unwind, unwind_and_return_from,
}
use smallishtalk.Interp.Walk.{
  End, at_target, below_target, at_base, Walk, here, below, ran_out, up, Walk-kept, step_above,
}
use smallishtalk.Interp.Kept.{pop_to-below}
use smallishtalk.Interp.Pushed.{IsCall}
use smallishtalk.Interp.Calls.{IsCall-kept}
use smallishtalk.Interp.Back.{IsBack, IsBack-from, back, return_from-back, landed-IsBack}

-- The state in which the walk reaches the target, and what it kept of the memory.
record IsAt (vm' : Vm) (regs' : Regs) (vm : Vm) (regs : Regs) (target : ℕ) : Type 0 where
  frame : regs'.frame ≡ target
  stack : regs'.stack ≡ regs.stack
  kept : (a : ℕ) → a < slot_addr regs.stack (target + 4) → vm'.heap.mem a ≡ vm.heap.mem a

Lands : (vm : Vm) (regs : Regs) (target : ℕ) (value : Value) → End → Outcome (Vm × Regs) → Type 0
Lands vm regs target value at_target o =
    (unwind : Vm → Regs → ℕ → Value → Outcome (Vm × Regs)) × (vm' : Vm) × (regs' : Regs) × (o
      ≡ return_from unwind vm' regs' value)
    × IsAt vm' regs' vm regs target
Lands vm regs target value below_target o = o ≡ some (err (fatal unwind_target_not_on_chain))
Lands vm regs target value at_base o = o ≡ some (err (fatal unwind_past_base))

-- Popping one frame more comes before a landing.
Lands-popped :
    (vm : Vm) (regs : Regs) (target c : ℕ) (value : Value) (e : End) (o : Outcome (Vm × Regs))
    → target + 4 ≤ regs.frame ⊎ (e ≢ at_target)
    → Lands (pop_to vm regs c).0 (pop_to vm regs c).1 target value e o
    → Lands vm regs target value e o
unfolding Lands pop_to
Lands-popped vm regs target c value at_target o (inl le) (unwind, vm', regs', eq, at) = (
  unwind,
  vm',
  regs',
  eq,
  record {
    frame = at.frame;
    stack = at.stack;
    kept = λ a h. at.kept a h ∙ pop_to-below vm regs c a (omega arith);
  },
)
Lands-popped vm regs target c value at_target o (inr ne) l = absurd (ne refl)
Lands-popped vm regs target c value below_target o le l = l
Lands-popped vm regs target c value at_base o le l = l

-- A walk that ends at the target stays at it or above.
Walk-above :
    (m : Memory) (stack target f : ℕ) (e : End)
    → Walk m stack target f e
    → target ≤ f ⊎ (e ≢ at_target)
Walk-above m stack target _ _ here = inl (omega arith)
Walk-above m stack target _ _ (below f h) = inr (λ e. ground (arith, e))
Walk-above m stack target _ _ (ran_out f h q e) = inl (omega arith)
Walk-above m stack target _ _ (up f c e h q p l le w) = inl (omega arith)

-- The rounds of the loop in which it ends.
step_here :
    (vm : Vm) (regs : Regs) (target : ℕ)
    → target ≡ regs.frame
    → unwind_step vm regs target ≡ return_here
unfolding unwind_step
step_here vm regs target at =
    let same : (regs.frame == target) ≡ true = ground arith in if_true _ _ same

step_below :
    (vm : Vm) (regs : Regs) (target : ℕ)
    → regs.frame < target
    → unwind_step vm regs target ≡ not_on_chain
unfolding unwind_step
step_below vm regs target h =
    let other : (regs.frame == target) ≡ false = ground arith in
    let less : ltb regs.frame target ≡ true = ground arith in if_false _ _ other ∙ if_true _ _ less

-- A step by which the loop goes on from one frame to the next, in any state.
module _ (collect_old : Vm → Result Vm) where
  by_step :
      (fuel : ℕ) (vm : Vm) (regs : Regs) (target : ℕ) (value : Value) (e : End) (s : UnwindStep)
      → unwind_step vm regs target ≡ s
      → Lands vm regs target value e
          (unwind_by collect_old (unwind_frames collect_old fuel) s vm regs target value)
      → Lands vm regs target value e (unwind_frames collect_old (suc fuel) vm regs target value)
  unfolding unwind_frames
  by_step fuel vm regs target value e s eq l =
      subst
        (λ t.
          Lands vm regs target value e
            (unwind_by collect_old (unwind_frames collect_old fuel) t vm regs target value))
        (sym eq) l

  popped-Lands :
      (fuel : ℕ) (vm : Vm) (regs : Regs) (target : ℕ) (value : Value) (e : End) (c : ℕ)
      → c + 4 ≤ regs.frame
      → target < regs.frame
      → Walk vm.heap.mem regs.stack target c e
      → (let popped = pop_to vm regs c in
          Lands popped.0 popped.1 target value e
            (unwind_frames collect_old fuel popped.0 popped.1 target value)
          → Lands vm regs target value e
              (unwind_frames collect_old fuel popped.0 popped.1 target value))
  popped-Lands fuel vm regs target value e c le lt w l =
      Lands-popped vm regs target c value e _
        (elim (Walk-above vm.heap.mem regs.stack target c e w) [
          | inl low ↦ inl (omega arith)
          | inr ne ↦ inr ne
        ])
        l

  unwind_frames-Lands :
      (fuel : ℕ) (vm : Vm) (regs : Regs) (target : ℕ) (value : Value) (e : End)
      → regs.frame < fuel
      → regs.frame < 2 ^ 62
      → (f : ℕ) → f ≡ regs.frame
      → Walk vm.heap.mem regs.stack target f e
      → Lands vm regs target value e (unwind_frames collect_old fuel vm regs target value)
  unfolding unwind_by pop_to Lands
  unwind_frames-Lands zero vm regs target value e lt small f at walk = absurd (omega arith)
  unwind_frames-Lands (suc fuel) vm regs target value _ lt small _ at here =
      by_step fuel vm regs target value at_target return_here (step_here vm regs target at) (
        λ v g t x. unwind_frames collect_old fuel (count_unwind v) g t x,
        vm,
        regs,
        refl,
        record { frame = sym at; stack = refl; kept = λ a h. refl },
      )
  unwind_frames-Lands (suc fuel) vm regs target value _ lt small _ at (below f h) =
      by_step fuel vm regs target value below_target not_on_chain
        (step_below vm regs target (omega arith)) refl
  unwind_frames-Lands (suc fuel) vm regs target value _ lt small _ at (ran_out f h q e) =
      by_step fuel vm regs target value at_base past_base
        (step_above vm regs target (omega arith)
            (ap (λ t. has_flag (flags_at vm.heap.mem regs.stack t) flag_ensure) (sym at) ∙ q)
          ∙ if_true _ _
              (ap (λ t. is_zero (caller_at vm.heap.mem regs.stack t)) (sym at) ∙ ap is_zero e))
        refl
  unwind_frames-Lands (suc fuel) vm regs target value _ lt small _ at (up f c end h q e p le w) =
      let from : caller_at vm.heap.mem regs.stack regs.frame ≡ pos c =
        ap (λ t. caller_at vm.heap.mem regs.stack t) (sym at) ∙ e in
      let off : as_unsigned u64_mod (caller_at vm.heap.mem regs.stack regs.frame) ≡ c =
        ap (as_unsigned u64_mod) from ∙ omega arith in
      by_step fuel vm regs target value end pop
        (step_above vm regs target (omega arith)
            (ap (λ t. has_flag (flags_at vm.heap.mem regs.stack t) flag_ensure) (sym at) ∙ q)
          ∙ if_false _ _ (ap is_zero from ∙ ground arith))
        (subst
          (λ t.
            Lands vm regs target value end (
              unwind_frames collect_old fuel (pop_to vm regs t).0 (pop_to vm regs t).1 target
                value))
          (sym off)
          (popped-Lands fuel vm regs target value end c (omega arith) (omega arith) w (
            unwind_frames-Lands fuel (pop_to vm regs c).0 (pop_to vm regs c).1 target value end
              (omega arith) (omega arith) c refl
              (Walk-kept vm.heap.mem (pop_to vm regs c).0.heap.mem regs.stack target c end
                (λ a l. pop_to-below vm regs c a (omega arith)) w))))

  -- An unwinding from a frame above, with no ensure frame on the way, to a frame that was called
  -- from `caller` gives the caller back with the value, whatever lies between: it ends in the
  -- caller's frame with the value in the destination slot, and every word below the target frame
  -- but that slot is kept. More fuel than the frame's offset is enough.
  pub unwind_and_return_from-IsBack :
      (fuel : ℕ) (vm : Vm) (regs caller : Regs) (target dest : ℕ) (value : Value)
      → regs.frame < fuel
      → regs.frame < 2 ^ 62
      → Walk vm.heap.mem regs.stack target regs.frame at_target
      → IsCall vm.heap.mem caller target dest
      → regs.stack ≡ caller.stack
      → 0 < caller.frame
      → caller.frame < 2 ^ 62
      → caller.frame + frame_receiver ≤ target
      → caller.pc < 2 ^ 54
      → dest < 256
      → (vm' : Vm) × (regs' : Regs) × (unwind_and_return_from collect_old fuel vm regs target value
          ≡ some (ok (vm', regs')))
        × IsBack vm' regs' vm.heap.mem caller target dest value
  unfolding unwind_and_return_from Lands
  unwind_and_return_from-IsBack fuel vm regs caller target dest value lt small walk call st low f g
        p d =
      let (unwind, vm', regs', ends, at) =
        unwind_frames-Lands fuel (count_unwind vm) regs target value at_target lt small regs.frame
          refl walk in
      let st' : regs'.stack ≡ caller.stack = at.stack ∙ st in
      let g' : caller.frame + 4 ≤ regs'.frame = omega (arith, at.frame, g) in
      let call' : IsCall vm'.heap.mem caller regs'.frame dest =
        IsCall-kept vm.heap.mem vm'.heap.mem caller regs.stack regs'.frame target dest st at.frame
          (λ k h. at.kept (slot_addr regs.stack (regs'.frame + k)) (omega (arith, at.frame, h)))
          call in
      let ret = back vm' regs' caller dest value st' low f g' p d in
      (
        ret.0,
        ret.1,
        ends ∙ return_from-back vm' regs' caller dest value st' low f g' p d call' unwind,
        IsBack-from ret.0 ret.1 vm.heap.mem vm'.heap.mem caller regs'.frame target dest value
            at.frame g (λ a h. at.kept a (subst (λ t. a < slot_addr t (target + 4)) (sym st) h))
            (landed-IsBack vm' regs' caller dest value st' low f g' p d),
      )

  -- Where the walk along the frames, which goes through no ensure block and no continuation, misses
  -- the target, the unwinding fails: with "not on the frame chain" where it falls below the target,
  -- and with "past base frame" where it comes to a frame that returns to none. More fuel than the
  -- frame's offset, which is below 2^62, is enough.
  pub unwind_and_return_from-fatal :
      (fuel : ℕ) (vm : Vm) (regs : Regs) (target : ℕ) (value : Value) (e : End)
      → regs.frame < fuel
      → regs.frame < 2 ^ 62
      → Walk vm.heap.mem regs.stack target regs.frame e
      → e ≢ at_target
      → ((e ≡ below_target)
          × (unwind_and_return_from collect_old fuel vm regs target value
              ≡ some (err (fatal unwind_target_not_on_chain))))
        ⊎ ((e ≡ at_base)
            × (unwind_and_return_from collect_old fuel vm regs target value
                ≡ some (err (fatal unwind_past_base))))
  unfolding unwind_and_return_from Lands
  unwind_and_return_from-fatal fuel vm regs target value at_target lt small walk missed =
      absurd (missed refl)
  unwind_and_return_from-fatal fuel vm regs target value below_target lt small walk missed = inl (
    refl,
    unwind_frames-Lands fuel (count_unwind vm) regs target value below_target lt small regs.frame
        refl walk,
  )
  unwind_and_return_from-fatal fuel vm regs target value at_base lt small walk missed = inr (
    refl,
    unwind_frames-Lands fuel (count_unwind vm) regs target value at_base lt small regs.frame refl
        walk,
  )
