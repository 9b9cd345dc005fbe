-- ===== src/Interp/Nlr.antt =====
-- src/interp.rs: the return out of a block to the caller of its home method. What is sent to a
-- closure whose home is gone, interned and staged by `send_staged`, is a parameter.
use smallishtalk.Base.{ℕ, ◌+◌, ◌-◌, ◌%◌, ◌^◌, Bool, not, ◌&&◌, some, ◌==◌, if◌then◌else◌}
use Prim.Native.Nat.{bit_and}
use smallishtalk.Base.Words.{u64_mod, as_unsigned}
use smallishtalk.Treaty.Frames.{frame_retinfo, retinfo_dest_bits, retinfo_pc_shift}
use smallishtalk.Treaty.Layout.{
  process_stack, closure_home_process, closure_home_offset, closure_home_serial,
}
use smallishtalk.Value.{Value, as_int, as_ptr, is_int, sar}
use smallishtalk.Heap.{slot}
use smallishtalk.Vm.{Vm, nil}
use smallishtalk.Interp.{Outcome, Result, err, fatal, nlr_from_base_frame, Regs, get}
use smallishtalk.Interp.Unwind.{caller_at, frame_is_live, is_zero, pop_to, unwind_and_return_from}

abbrev pub count_nlr : Vm → Vm
count_nlr vm = let c = vm.counters in record vm { counters = record c { nlrs = c.nlrs + 1 } }

-- The home of the closure at `ca` is a live frame of the running process.
unfoldable pub home_is_alive : Vm → Regs → ℕ → Bool
unfolding frame_is_live
home_is_alive vm regs ca =
    let m = vm.heap.mem in
    let hproc = slot m ca closure_home_process in
    let hoff = slot m ca closure_home_offset in
    let hser = slot m ca closure_home_serial in
    (hproc == vm.active_process)
    && not (hproc == nil vm)
    && not (slot m (as_ptr hproc) process_stack == nil vm)
    && is_int hoff
    && frame_is_live m regs (as_unsigned u64_mod (as_int hoff)) (as_int hser)

module _ (collect_old : Vm → Result Vm)
    (send_cannot_return : Vm
      → Regs
      → (dest : ℕ) → (closure value : Value) → Outcome (Vm × Regs)) where
  -- The block activation is abandoned for the send.
  unfoldable pub abandon_block : Vm → Regs → (closure value : Value) → Outcome (Vm × Regs)
  unfolding pop_to
  abandon_block vm regs closure value =
      let m = vm.heap.mem in
      let caller = caller_at m regs.stack regs.frame in
      let ri = as_int (slot m regs.stack (regs.frame + frame_retinfo)) in
      let dest = bit_and (as_unsigned u64_mod ri) (2 ^ retinfo_dest_bits - 1) % 256 in
      let popped = pop_to vm regs (as_unsigned u64_mod caller) in
      let regs' = record (popped.1) { pc = as_unsigned u64_mod (sar ri retinfo_pc_shift) } in
      if is_zero caller
      then some (err (fatal nlr_from_base_frame))
      else send_cannot_return popped.0 regs' dest closure value

  unfoldable pub do_nlr : (fuel : ℕ) → Vm → Regs → (a : ℕ) → Outcome (Vm × Regs)
  unfolding home_is_alive abandon_block unwind_and_return_from
  do_nlr fuel vm regs a =
      let vm1 = count_nlr vm in
      let value = get vm1 regs a in
      let closure = get vm1 regs 0 in
      let hoff = slot vm1.heap.mem (as_ptr closure) closure_home_offset in
      if home_is_alive vm1 regs (as_ptr closure)
      then unwind_and_return_from collect_old fuel vm1 regs (as_unsigned u64_mod (as_int hoff))
          value
      else abandon_block vm1 regs closure value
