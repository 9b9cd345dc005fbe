-- ===== src/Interp/Calls.antt =====
-- src/interp.rs: a frame pushed and returned from.
use smallishtalk.Base.{ℕ, ◌+◌, ◌^◌, ◌<◌, ◌≤◌, ◌≡◌, ap, ◌∙◌, subst, arith, Option, some}
use smallishtalk.Base.Int.{ℤ}
use smallishtalk.Space.{Memory}
use smallishtalk.Treaty.Frames.{frame_receiver, flag_unwindcont}
use smallishtalk.Value.{Value, as_int}
use smallishtalk.Heap.{slot, num_slots}
use smallishtalk.Vm.{Vm}
use smallishtalk.Interp.{Result, ok, Regs}
use smallishtalk.Interp.Frames.{frame_slots_of}
use smallishtalk.Interp.Push.{push_frame}
use smallishtalk.Interp.Unwind.{has_flag, do_return, unwind_and_return_from}
use smallishtalk.Interp.Pushed.{IsCall, push_frame-IsPushed}
use smallishtalk.Interp.Back.{IsBack, back, return_from-back, landed-IsBack}

pub IsCall-kept :
    (m m' : Memory) (regs : Regs) (st off off' dest : ℕ)
    → st ≡ regs.stack
    → off ≡ off'
    → ((k : ℕ) → k < frame_receiver → slot m' st (off + k) ≡ slot m st (off + k))
    → IsCall m regs off' dest
    → IsCall m' regs off dest
IsCall-kept m m' regs st off off' dest s o same call = rw o (
    let kept : (k : ℕ)
        → k < frame_receiver
        → slot m' regs.stack (off' + k) ≡ slot m regs.stack (off' + k) =
      subst (λ t. (k : ℕ) → k < frame_receiver → slot m' t (off' + k) ≡ slot m t (off' + k)) s
        (subst (λ t. (k : ℕ) → k < frame_receiver → slot m' st (t + k) ≡ slot m st (t + k)) o
          same) in
    record {
      caller = kept 0 (omega arith) ∙ call.caller;
      retinfo = kept 1 (omega arith) ∙ call.retinfo;
      flags = ap (λ w. has_flag (as_int w) flag_unwindcont) (kept 3 (omega arith)) ∙ call.flags;
    })

-- A frame that `push_frame` makes in a stack with room, and whose control words are as it wrote
-- them when the method returns a value, gives the caller back: `do_return` ends well in the
-- caller's frame, stack and program counter, with the caller's method reloaded, the value in the
-- destination slot, and every other word below the frame unchanged, whatever the fuel.
pub call_return :
    (collect_old : Vm → Result Vm) (vm : Vm) (regs : Regs) (method : Value) (r dest argc : ℕ)
    (prim_fail : Option ℤ) (extra : ℕ)
    → regs.frame + r + frame_receiver + frame_slots_of vm method ≤ num_slots vm.heap.mem regs.stack
    → 0 < regs.frame
    → regs.frame < 2 ^ 62
    → frame_receiver ≤ r
    → regs.pc < 2 ^ 54
    → dest < 256
    → extra < 8
    → (vm1 : Vm) (regs1 : Regs)
    → push_frame collect_old vm regs method r dest argc prim_fail extra ≡ some (ok (vm1, regs1))
    → (fuel : ℕ) (vm2 : Vm) (regs2 : Regs) (value : Value) → regs2.frame ≡ regs1.frame
    → regs2.stack ≡ regs1.stack
    → ((k : ℕ)
        → k < frame_receiver
        → slot vm2.heap.mem regs1.stack (regs1.frame + k)
          ≡ slot vm1.heap.mem regs1.stack (regs1.frame + k))
    → (vm3 : Vm) × (regs3 : Regs) × (do_return collect_old fuel vm2 regs2 value
        ≡ some (ok (vm3, regs3)))
      × IsBack vm3 regs3 vm2.heap.mem regs (regs.frame + r) dest value
unfolding do_return
call_return collect_old vm regs method r dest argc prim_fail extra room low f r4 p d e vm1 regs1
      push fuel vm2 regs2 value fr st same =
    let (at_frame, at_stack, call) =
      push_frame-IsPushed collect_old vm regs method r dest argc prim_fail extra room e vm1 regs1
        push in
    let here : regs2.frame ≡ regs.frame + r = fr ∙ at_frame in
    let call2 : IsCall vm2.heap.mem regs regs2.frame dest = rw fr (
      IsCall-kept vm1.heap.mem vm2.heap.mem regs regs1.stack regs1.frame (regs.frame + r) dest
        at_stack at_frame same call) in
    let g : regs.frame + 4 ≤ regs2.frame = omega arith in
    let ends = back vm2 regs2 regs dest value (st ∙ at_stack) low f g p d in
    (
      ends.0,
      ends.1,
      return_from-back vm2 regs2 regs dest value (st ∙ at_stack) low f g p d call2
          (unwind_and_return_from collect_old fuel),
      subst (λ t. IsBack ends.0 ends.1 vm2.heap.mem regs t dest value) here
          (landed-IsBack vm2 regs2 regs dest value (st ∙ at_stack) low f g p d),
    )
