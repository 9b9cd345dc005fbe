-- ===== src/Interp/NonLocal.antt =====
-- src/interp.rs: the return out of a block to the caller of its home method, by the unwinder.
use smallishtalk.Base.{ℕ, ◌+◌, ◌^◌, ◌<◌, ◌≤◌, ◌≡◌, ap, ◌∙◌, arith, if_true, true, some}
use smallishtalk.Base.Words.{u64_mod, as_unsigned}
use smallishtalk.Treaty.Frames.{frame_receiver}
use smallishtalk.Treaty.Layout.{closure_home_offset}
use smallishtalk.Value.{Value, as_int, as_ptr}
use smallishtalk.Heap.{slot}
use smallishtalk.Vm.{Vm}
use smallishtalk.Interp.{Outcome, Result, ok, Regs, get, from_usize}
use smallishtalk.Interp.Unwind.{unwind_and_return_from}
use smallishtalk.Interp.Nlr.{home_is_alive, do_nlr, count_nlr}
use smallishtalk.Interp.Words.{pushed_caller}
use smallishtalk.Interp.Walk.{Walk, at_target}
use smallishtalk.Interp.Pushed.{IsCall}
use smallishtalk.Interp.Back.{IsBack}
use smallishtalk.Interp.Landing.{unwind_and_return_from-IsBack}

module _ (collect_old : Vm → Result Vm)
    (send_cannot_return : Vm
      → Regs
      → (dest : ℕ) → (closure value : Value) → Outcome (Vm × Regs)) where
  -- A non-local return from a block whose home is a live frame at offset `target`, called from
  -- `caller`, with no ensure frame on the way down to it, ends in the caller of the home: there the
  -- destination slot of that call holds the value that slot `a` of the block held, and every other
  -- word below the home frame is kept. More fuel than the block's frame offset is enough.
  pub do_nlr-IsBack :
      (fuel : ℕ) (vm : Vm) (regs caller : Regs) (a target dest : ℕ)
      → home_is_alive vm regs (as_ptr (get vm regs 0)) ≡ true
      → slot vm.heap.mem (as_ptr (get vm regs 0)) closure_home_offset ≡ from_usize target
      → regs.frame < fuel
      → regs.frame < 2 ^ 62
      → Walk vm.heap.mem regs.stack target regs.frame at_target
      → target < 2 ^ 62
      → IsCall vm.heap.mem caller target dest
      → regs.stack ≡ caller.stack
      → 0 < caller.frame
      → caller.frame < 2 ^ 62
      → caller.frame + frame_receiver ≤ target
      → caller.pc < 2 ^ 54
      → dest < 256
      → (vm' : Vm) × (regs' : Regs) × (do_nlr collect_old send_cannot_return fuel vm regs a
          ≡ some (ok (vm', regs')))
        × IsBack vm' regs' vm.heap.mem caller target dest (get vm regs a)
  unfolding do_nlr home_is_alive
  do_nlr-IsBack fuel vm regs caller a target dest alive hoff lt small walk t call st low f g p d =
      let off : as_unsigned u64_mod
            (as_int (slot vm.heap.mem (as_ptr (get vm regs 0)) closure_home_offset))
          ≡ target =
        ap (λ w. as_unsigned u64_mod (as_int w)) hoff
        ∙ ap (as_unsigned u64_mod) (pushed_caller target t)
        ∙ omega arith in
      let (vm', regs', ends, is_back) =
        unwind_and_return_from-IsBack collect_old fuel (count_nlr vm) regs caller target dest
          (get vm regs a) lt small walk call st low f g p d in
      (
        vm',
        regs',
        if_true _ _ alive
            ∙ ap
                (λ o. unwind_and_return_from collect_old fuel (count_nlr vm) regs o (get vm regs a))
                off
            ∙ ends,
        is_back,
      )
