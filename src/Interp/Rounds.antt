-- ===== src/Interp/Rounds.antt =====
-- src/interp.rs: the rounds of the unwinder, and the end of its loop.
use Prim.Native.Nat.{bit_or}
use smallishtalk.Base.{
  ℕ, zero, suc, ◌+◌, ◌%◌, ◌^◌, ◌<◌, ◌≡◌, ◌≢◌, ◌⊎◌, inl, inr, ap, subst, ◌∙◌, sym, refl, arith, Bool,
  true, false, Bool-cases, none, some, ltb, ltb→lt, not, true≢false, ◌==◌, if◌then◌else◌, if_true,
  if_false,
}
use smallishtalk.Base.Int.{pos}
use smallishtalk.Base.Words.{u64_mod, as_unsigned}
use smallishtalk.Treaty.Frames.{
  flag_unwindcont, flag_blockctx, frame_retinfo, frame_receiver, serial_shift,
}
use smallishtalk.Treaty.Layout.{
  closure_compiled_block, ensure_slot_pending_target, ensure_slot_pending_serial,
  ensure_slot_pending_value,
}
use smallishtalk.Value.{Value, as_int, as_ptr, is_int, sar}
use smallishtalk.Heap.{slot, num_slots}
use smallishtalk.Vm.{Vm}
use smallishtalk.Vm.MethodHeader.{method_argc, method_handler_slot_base}
use smallishtalk.Interp.{
  Outcome, and_then, Result, ok, err, fatal, corrupt_pending_unwind, unwind_target_died, Regs, get,
  put, method_header_bits,
}
use smallishtalk.Interp.Frames.{frame_slots_of}
use smallishtalk.Interp.Push.{ensure_room, push_frame}
use smallishtalk.Interp.Unwind.{
  flags_at, caller_at, has_flag, is_zero, UnwindStep, return_here, not_on_chain, past_base, pop,
  intercept, unwind_step, unwind_by, unwind_frames, return_from, return_to, frame_is_live,
  resume_unwind, resume_in, continue_unwind_after_ensure, pop_to, run_ensure_block_then_continue,
  count_unwind, count_interception, stash_unwind,
}
use smallishtalk.Interp.Pushed.{push_frame-room}
use smallishtalk.Interp.Chain.{Chain, Above, Chain-Above, popped-Chain, unwind_step-pop}

-- The machine with the pending unwinding kept in the ensure frame.
abbrev pub stashed : Vm → Regs → (hsb target : ℕ) → Value → Vm
stashed vm regs hsb target value =
    stash_unwind (count_interception vm) regs hsb target
      (sar (flags_at vm.heap.mem regs.stack target) serial_shift) value

-- The stack is too small to stage the block at the frame, or for the block's frame.
abbrev pub IsCramped : Vm → Regs → (target : ℕ) → Value → (hsb : ℕ) → Value → Type 0
IsCramped vm regs target value hsb blockv =
    let vm1 = stashed vm regs hsb target value in
    let block = slot vm1.heap.mem (as_ptr blockv) closure_compiled_block in
    let r = frame_slots_of vm1 regs.method + frame_receiver in
    let vm2 = put vm1 regs (r % 256) blockv in
    (num_slots vm1.heap.mem regs.stack < regs.frame + frame_receiver + r + 1)
    ⊎ (num_slots vm2.heap.mem regs.stack
        < regs.frame + r % 256 + frame_receiver + frame_slots_of vm2 block)

-- The pending unwinding of the current frame, an ensure frame: its target, serial and value.
abbrev pub pending_of : Vm → Regs → Value × Value × Value
pending_of vm regs =
    let hsb = method_handler_slot_base (method_header_bits vm regs.method) in
    (
      get vm regs ((hsb + ensure_slot_pending_target) % 256),
      get vm regs ((hsb + ensure_slot_pending_serial) % 256),
      get vm regs ((hsb + ensure_slot_pending_value) % 256),
    )

-- The machine in the caller of the current frame.
abbrev pub popped_from : Vm → Regs → Vm × Regs
popped_from vm regs =
    pop_to vm regs (as_unsigned u64_mod (caller_at vm.heap.mem regs.stack regs.frame))

-- The rounds of an unwinding up to a machine, which pop a frame, or come to the target, a frame that
-- continues an unwinding, and go on with the pending one.
pub data Unwinds (vm' : Vm) (regs' : Regs) (t' : ℕ) (v' : Value)
    : Vm → Regs → ℕ → Value → Type 0 where
  stop : Unwinds vm' regs' t' v' vm' regs' t' v'
  popped :
      (vm : Vm) (regs : Regs) (target : ℕ) (value : Value)
      → unwind_step vm regs target ≡ pop
      → Unwinds vm' regs' t' v' (popped_from vm regs).0 (popped_from vm regs).1 target value
      → Unwinds vm' regs' t' v' vm regs target value
  resumed :
      (vm : Vm) (regs : Regs) (target : ℕ) (value : Value) (g : Vm × Regs) (t : ℕ) (v : Value)
      → unwind_step vm regs target ≡ return_here
      → has_flag (flags_at vm.heap.mem regs.stack regs.frame) flag_unwindcont ≡ true
      → ((unwind : Vm → Regs → ℕ → Value → Outcome (Vm × Regs))
          → continue_unwind_after_ensure unwind vm regs ≡ unwind g.0 g.1 t v)
      → Unwinds vm' regs' t' v' (count_unwind g.0) g.1 t v
      → Unwinds vm' regs' t' v' vm regs target value

module _ (collect_old : Vm → Result Vm) where
  -- The outcome of an unwinding from a machine: it ends, or its rounds come to a frame with an
  -- ensure block whose activation the stack has to grow for, and the outcome is that activation.
  pub Ends : Vm → Regs → (target : ℕ) → Value → Outcome (Vm × Regs) → Type 0
  Ends vm regs target value o =
      ((r : Result (Vm × Regs)) × (o ≡ some r))
      ⊎ ((vm' : Vm) × (regs' : Regs) × (t : ℕ) × (v : Value) × (hsb : ℕ) × (blockv : Value)
          × Unwinds vm' regs' t v vm regs target value
          × (unwind_step vm' regs' t ≡ intercept hsb blockv)
          × IsCramped vm' regs' t v hsb blockv
          × (o ≡ run_ensure_block_then_continue collect_old vm' regs' t v hsb blockv))

  -- An ensure block's activation ends where the stack need not grow.
  intercepted :
      (vm : Vm) (regs : Regs) (target : ℕ) (value : Value) (hsb : ℕ) (blockv : Value)
      → ((r : Result (Vm × Regs)) × (run_ensure_block_then_continue collect_old vm regs target value
              hsb blockv
            ≡ some r))
        ⊎ IsCramped vm regs target value hsb blockv
  unfolding run_ensure_block_then_continue ensure_room and_then
  intercepted vm regs target value hsb blockv =
      let vm1 = stashed vm regs hsb target value in
      let block = slot vm1.heap.mem (as_ptr blockv) closure_compiled_block in
      let r = frame_slots_of vm1 regs.method + frame_receiver in
      let vm2 = put vm1 regs (r % 256) blockv in
      let push = λ (room : Vm × Regs).
        push_frame collect_old (put room.0 room.1 (r % 256) blockv) room.1 block (r % 256) 0 0 none
          (bit_or flag_blockctx flag_unwindcont) in
      elim (Bool-cases (not (method_argc (method_header_bits vm1 block) == 0))) [
        | inl many ↦ inl (_, if_true _ _ many)
        | inr fits ↦
            elim (Bool-cases
              (ltb (num_slots vm1.heap.mem regs.stack) (regs.frame + frame_receiver + r + 1))) [
                | inl small ↦ inr (inl (ltb→lt _ _ small))
                | inr staged ↦
                    elim (Bool-cases (
                      ltb (num_slots vm2.heap.mem regs.stack)
                        (regs.frame + r % 256 + frame_receiver + frame_slots_of vm2 block))) [
                          | inl small ↦ inr (inr (ltb→lt _ _ small))
                          | inr room ↦ inl (
                            _,
                            if_false _ _ fits
                                ∙ ap (λ o. and_then o push) (if_false _ _ staged)
                                ∙ push_frame-room collect_old vm2 regs block (r % 256) 0 0 none
                                    (bit_or flag_blockctx flag_unwindcont) (ground (arith, room)),
                          )
                        ]
              ]
      ]

  module _ (vm : Vm) (regs : Regs) (target : ℕ) (value : Value) where
    Ends-if :
        (b : Bool) (x y : Outcome (Vm × Regs))
        → (b ≡ true → Ends vm regs target value x)
        → (b ≡ false → Ends vm regs target value y)
        → Ends vm regs target value (if b then x else y)
    Ends-if true x y f g = f refl
    Ends-if false x y f g = g refl

    Ends-some : (r : Result (Vm × Regs)) → Ends vm regs target value (some r)
    unfolding Ends
    Ends-some r = inl (r, refl)

    -- The rounds before an unwinding that ends.
    Ends-after :
        (vm0 : Vm) (regs0 : Regs) (t0 : ℕ) (v0 : Value) (o : Outcome (Vm × Regs))
        → ((vm' : Vm) (regs' : Regs) (t : ℕ) (v : Value)
            → Unwinds vm' regs' t v vm0 regs0 t0 v0
            → Unwinds vm' regs' t v vm regs target value)
        → Ends vm0 regs0 t0 v0 o
        → Ends vm regs target value o
    unfolding Ends
    Ends-after vm0 regs0 t0 v0 o before (inl ended) = inl ended
    Ends-after vm0 regs0 t0 v0 o before
          (inr (vm', regs', t, v, hsb, blockv, rounds, at, cramped, out)) =
        inr (vm', regs', t, v, hsb, blockv, before vm' regs' t v rounds, at, cramped, out)

  module _ (more : Vm → Regs → (target : ℕ) → Value → Outcome (Vm × Regs)) (n : ℕ)
      (ih : (vm : Vm) (regs : Regs) (target : ℕ) (value : Value)
        → regs.frame < n
        → regs.frame < 2 ^ 62
        → Chain vm.heap.mem regs.stack regs.frame
        → Ends vm regs target value (more vm regs target value))
      (vm : Vm) (regs : Regs) (lt : regs.frame < suc n) (small : regs.frame < 2 ^ 62)
      (chain : Chain vm.heap.mem regs.stack regs.frame) where
    abbrev caller : ℕ
    caller = as_unsigned u64_mod (caller_at vm.heap.mem regs.stack regs.frame)

    popped-Ends :
        (caller_at vm.heap.mem regs.stack regs.frame ≢ pos 0)
          ⊎ (has_flag (flags_at vm.heap.mem regs.stack regs.frame) flag_unwindcont ≡ true)
        → (count : Vm → Vm) → ((v : Vm) → (count v).heap.mem ≡ v.heap.mem)
        → (let popped = pop_to vm regs caller in
            (target : ℕ) (value : Value)
            → Ends
                (count popped.0)
                popped.1
                target
                value
                (more (count popped.0) popped.1 target value))
    unfolding Above pop_to
    popped-Ends other count keeps target value =
        let (c, at_c, le, ch) = Chain-Above vm.heap.mem regs.stack regs.frame small chain other in
        subst
          (λ t.
            Ends (count (pop_to vm regs t).0) (pop_to vm regs t).1 target value
              (more (count (pop_to vm regs t).0) (pop_to vm regs t).1 target value))
          (sym at_c)
          (ih (count (pop_to vm regs c).0) (pop_to vm regs c).1 target value (omega arith)
            (omega arith)
            (subst (λ m. Chain m regs.stack c) (sym (keeps (pop_to vm regs c).0))
              (popped-Chain vm regs c le ch)))

    counting : Vm → Regs → (target : ℕ) → Value → Outcome (Vm × Regs)
    counting vm' regs' t v = more (count_unwind vm') regs' t v

    module _ (target : ℕ) (value : Value) (here : unwind_step vm regs target ≡ return_here) where
      continue-Ends :
          has_flag (flags_at vm.heap.mem regs.stack regs.frame) flag_unwindcont ≡ true
          → Ends vm regs target value (continue_unwind_after_ensure counting vm regs)
      unfolding continue_unwind_after_ensure resume_in resume_unwind counting
      continue-Ends flag =
          let g = pop_to vm regs caller in
          let pending = (pending_of g.0 g.1).0 in
          let serial = (pending_of g.0 g.1).1 in
          let kept = (pending_of g.0 g.1).2 in
          let t = as_unsigned u64_mod (as_int pending) in
          Ends-if vm regs target value (not (is_int pending)) _ _
            (λ _. Ends-some vm regs target value (err (fatal corrupt_pending_unwind)))
            (λ int.
              Ends-if vm regs target value (not (frame_is_live g.0.heap.mem g.1 t (as_int serial)))
                _ _ (λ _. Ends-some vm regs target value (err (fatal unwind_target_died)))
                (λ live.
                  Ends-after vm regs target value (count_unwind g.0) g.1 t kept _
                    (λ vm' regs' t' v'.
                      resumed vm regs target value g t kept here flag
                        (λ unwind. if_false _ _ int ∙ if_false _ _ live))
                    (popped-Ends (inr flag) count_unwind (λ v. refl) t kept)))

      return-Ends : Ends vm regs target value (return_from counting vm regs value)
      unfolding return_from
      return-Ends =
          Ends-if vm regs target value
            (has_flag (flags_at vm.heap.mem regs.stack regs.frame) flag_unwindcont) _ _
            continue-Ends
            (λ _.
              Ends-if vm regs target value (is_zero (caller_at vm.heap.mem regs.stack regs.frame)) _
                _
                (λ _. Ends-some vm regs target value (ok (vm, record regs { halted = some value })))
                (λ _. Ends-some vm regs target value (
                  ok (
                    return_to vm regs (caller_at vm.heap.mem regs.stack regs.frame)
                      (as_int (slot vm.heap.mem regs.stack (regs.frame + frame_retinfo))) value))))

    unwind_by-Ends :
        (s : UnwindStep) (target : ℕ) (value : Value)
        → unwind_step vm regs target ≡ s
        → Ends vm regs target value (unwind_by collect_old more s vm regs target value)
    unfolding unwind_by Ends counting
    unwind_by-Ends return_here target value e = return-Ends target value e
    unwind_by-Ends not_on_chain target value e = inl (_, refl)
    unwind_by-Ends past_base target value e = inl (_, refl)
    unwind_by-Ends (intercept hsb blockv) target value e =
        elim (intercepted vm regs target value hsb blockv) [
          | inl ended ↦ inl ended
          | inr cramped ↦ inr (vm, regs, target, value, hsb, blockv, stop, e, cramped, refl)
        ]
    unwind_by-Ends pop target value e =
        Ends-after vm regs target value _ _ target value _
          (λ vm' regs' t v. popped vm regs target value e)
          (popped-Ends
            (inl (λ z. true≢false (sym (ap is_zero z) ∙ unwind_step-pop vm regs target e))) (λ v. v)
            (λ v. refl) target value)

  -- An unwinding ends with a result, where each frame of the stack lies above the frame that it
  -- returns to, down to one that returns to none and does not continue an unwinding. More fuel than
  -- the offset of the frame it starts from is enough; the offset is below 2^62. The one case in which
  -- it may not end is the growth of the stack: then its rounds, which pop frames and resume pending
  -- unwindings, have come to an ensure frame whose block has no room on the stack, and the outcome
  -- is that of the block's activation, with the target and the value of those rounds.
  pub unwind_frames-Ends :
      (fuel : ℕ) (vm : Vm) (regs : Regs) (target : ℕ) (value : Value)
      → regs.frame < fuel
      → regs.frame < 2 ^ 62
      → Chain vm.heap.mem regs.stack regs.frame
      → Ends vm regs target value (unwind_frames collect_old fuel vm regs target value)
  unfolding unwind_frames
  unwind_frames-Ends zero vm regs target value lt small chain = absurd (omega arith)
  unwind_frames-Ends (suc fuel) vm regs target value lt small chain =
      unwind_by-Ends (unwind_frames collect_old fuel) fuel (unwind_frames-Ends fuel) vm regs lt
        small chain (unwind_step vm regs target) target value refl
