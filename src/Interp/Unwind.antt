-- ===== src/Interp/Unwind.antt =====
-- src/interp.rs: returns from a frame and the unwinder they share with non-local returns and with
-- the termination of a process. `none` is an unwinding that has not ended when its fuel runs out.
use Prim.Native.Nat.{bit_and, bit_or}
use smallishtalk.Base.{
  ℕ, zero, suc, ◌+◌, ◌-◌, ◌%◌, ◌^◌, Bool, false, not, ◌&&◌, Option, none, some, ltb, leb, ◌==◌,
  if◌then◌else◌,
}
use smallishtalk.Base.Int.{ℤ, pos, negsuc}
use smallishtalk.Base.Words.{u64_mod, as_unsigned}
use smallishtalk.Treaty.Classes.{class_blockclosure}
use smallishtalk.Treaty.Frames.{
  frame_caller, frame_retinfo, frame_flags, frame_receiver, flag_ensure, flag_blockctx,
  flag_unwindcont, serial_shift, retinfo_dest_bits, retinfo_pc_shift,
}
use smallishtalk.Treaty.Layout.{
  ensure_slot_block, ensure_slot_pending_target, ensure_slot_pending_serial,
  ensure_slot_pending_value, closure_compiled_block,
}
use smallishtalk.Header
use smallishtalk.Space.{Memory}
use smallishtalk.Value.{Value, as_int, as_ptr, is_int, is_ptr, from_int, sar}
use smallishtalk.Heap.{slot, header}
use smallishtalk.SmallInt.{eq_ℤ}
use smallishtalk.Vm.{Vm, nil}
use smallishtalk.Vm.MethodHeader.{method_argc, method_handler_slot_base}
use smallishtalk.Interp.{
  Outcome, and_then, Result, ok, err, fatal, unwind_target_not_on_chain, unwind_past_base,
  ensure_block_takes_arguments, corrupt_pending_unwind, unwind_target_died, Regs, get, put,
  from_usize, reload_code, method_header_bits,
}
use smallishtalk.Interp.Frames.{frame_slots_of, nil_frame}
use smallishtalk.Interp.Push.{ensure_room, push_frame}

abbrev pub flags_at : Memory → (stack off : ℕ) → ℤ
flags_at m stack off = as_int (slot m stack (off + frame_flags))

abbrev pub caller_at : Memory → (stack off : ℕ) → ℤ
caller_at m stack off = as_int (slot m stack (off + frame_caller))

-- flags & bit != 0 of an i64
unfoldable pub has_flag : ℤ → ℕ → Bool
has_flag flags bit = not (bit_and (as_unsigned u64_mod flags) bit == 0)

abbrev pub is_zero : ℤ → Bool
is_zero (pos n) = n == 0
is_zero (negsuc n) = false

-- Pop the current frame and run in the frame at `off`.
unfoldable pub pop_to : Vm → Regs → ℕ → Vm × Regs
unfolding nil_frame reload_code
pop_to vm regs off =
    let vm' = nil_frame vm regs in (vm', reload_code vm' (record regs { frame = off }))

-- Return `value` to the caller whose offset and return information are given.
unfoldable pub return_to : Vm → Regs → ℤ → ℤ → Value → Vm × Regs
unfolding pop_to
return_to vm regs caller ri value =
    let popped = pop_to vm regs (as_unsigned u64_mod caller) in
    let dest = bit_and (as_unsigned u64_mod ri) (2 ^ retinfo_dest_bits - 1) % 256 in
    let regs' = record (popped.1) { pc = as_unsigned u64_mod (sar ri retinfo_pc_shift) } in
    (put popped.0 regs' dest value, regs')

-- The frame at offset `off` still is the one with this serial.
unfoldable pub frame_is_live : Memory → Regs → (off : ℕ) → (serial : ℤ) → Bool
frame_is_live m regs off serial =
    leb off regs.frame
    && is_int (slot m regs.stack (off + frame_flags))
    && eq_ℤ (sar (flags_at m regs.stack off) serial_shift) serial

-- The unwinder as a parameter: how to unwind to a frame and return a value from it.
module _ (unwind : Vm → Regs → ℕ → Value → Outcome (Vm × Regs)) where
  -- Resume the unwinding that was pending, if its target still lives.
  unfoldable pub resume_unwind : Vm → Regs → (target serial value : Value) → Outcome (Vm × Regs)
  unfolding frame_is_live
  resume_unwind vm regs target serial value =
      let t = as_unsigned u64_mod (as_int target) in
      if not (is_int target)
      then some (err (fatal corrupt_pending_unwind))
      else if not (frame_is_live vm.heap.mem regs t (as_int serial))
      then some (err (fatal unwind_target_died))
      else unwind vm regs t value

  -- Resume in the ensure frame, which the current frame returns to.
  unfoldable pub resume_in : Vm → Regs → Outcome (Vm × Regs)
  unfolding resume_unwind
  resume_in vm regs =
      let hsb = method_handler_slot_base (method_header_bits vm regs.method) in
      resume_unwind vm regs (get vm regs ((hsb + ensure_slot_pending_target) % 256))
        (get vm regs ((hsb + ensure_slot_pending_serial) % 256))
        (get vm regs ((hsb + ensure_slot_pending_value) % 256))

  unfoldable pub continue_unwind_after_ensure : Vm → Regs → Outcome (Vm × Regs)
  unfolding pop_to resume_in
  continue_unwind_after_ensure vm regs =
      let e_off = as_unsigned u64_mod (caller_at vm.heap.mem regs.stack regs.frame) in
      let popped = pop_to vm regs e_off in resume_in popped.0 popped.1

  unfoldable pub return_from : Vm → Regs → Value → Outcome (Vm × Regs)
  unfolding has_flag continue_unwind_after_ensure return_to
  return_from vm regs value =
      let m = vm.heap.mem in
      let caller = caller_at m regs.stack regs.frame in
      let ri = as_int (slot m regs.stack (regs.frame + frame_retinfo)) in
      if has_flag (flags_at m regs.stack regs.frame) flag_unwindcont
      then continue_unwind_after_ensure vm regs
      else if is_zero caller
      then some (ok (vm, record regs { halted = some value }))
      else some (ok (return_to vm regs caller ri value))

-- The block that intercepts an unwinding at the current frame, with its handler slot base.
unfoldable pub ensure_block : Vm → Regs → Option (ℕ × Value)
unfolding has_flag
ensure_block vm regs =
    let m = vm.heap.mem in
    let hsb = method_handler_slot_base (method_header_bits vm regs.method) in
    let blockv = get vm regs ((hsb + ensure_slot_block) % 256) in
    if has_flag (flags_at m regs.stack regs.frame) flag_ensure
      && is_ptr blockv
      && (Header.class_index (header m (as_ptr blockv)) == class_blockclosure)
    then some (hsb, blockv)
    else none

-- What the unwinder does at the current frame.
pub data UnwindStep : Type 0 where
  return_here not_on_chain past_base pop : UnwindStep
  intercept : ℕ → Value → UnwindStep

unfoldable pub unwind_step : Vm → Regs → (target : ℕ) → UnwindStep
unfolding ensure_block
unwind_step vm regs target =
    if regs.frame == target
    then return_here
    else if ltb regs.frame target
    then not_on_chain
    else elim (ensure_block vm regs) [
      | some (hsb, blockv) ↦ intercept hsb blockv
      | none ↦ (if is_zero (caller_at vm.heap.mem regs.stack regs.frame) then past_base else pop)
    ]

abbrev pub count_unwind : Vm → Vm
count_unwind vm =
    let c = vm.counters in record vm { counters = record c { unwind_runs = c.unwind_runs + 1 } }

abbrev pub count_interception : Vm → Vm
count_interception vm =
    let c = vm.counters in
    record vm { counters = record c { ensure_interceptions = c.ensure_interceptions + 1 } }

-- The pending unwinding kept in the ensure frame, and its block consumed.
unfoldable pub stash_unwind : Vm → Regs → (hsb target : ℕ) → ℤ → Value → Vm
stash_unwind vm regs hsb target target_serial value =
    let vm1 = put vm regs ((hsb + ensure_slot_block) % 256) (nil vm) in
    let vm2 = put vm1 regs ((hsb + ensure_slot_pending_target) % 256) (from_usize target) in
    let vm3 = put vm2 regs ((hsb + ensure_slot_pending_serial) % 256) (from_int target_serial) in
    put vm3 regs ((hsb + ensure_slot_pending_value) % 256) value

module _ (collect_old : Vm → Result Vm) where
  unfoldable pub run_ensure_block_then_continue :
      Vm → Regs → (target : ℕ) → Value → ℕ → Value → Outcome (Vm × Regs)
  unfolding and_then stash_unwind ensure_room push_frame
  run_ensure_block_then_continue vm regs target value hsb blockv =
      let target_serial = sar (flags_at vm.heap.mem regs.stack target) serial_shift in
      let vm1 = stash_unwind (count_interception vm) regs hsb target target_serial value in
      let block = slot vm1.heap.mem (as_ptr blockv) closure_compiled_block in
      let r = frame_slots_of vm1 regs.method + frame_receiver in
      if not (method_argc (method_header_bits vm1 block) == 0)
      then some (err (fatal ensure_block_takes_arguments))
      else and_then (ensure_room collect_old vm1 regs (regs.frame + frame_receiver + r + 1))
          (λ room.
            push_frame collect_old (put room.0 room.1 (r % 256) blockv) room.1 block (r % 256) 0 0
              none (bit_or flag_blockctx flag_unwindcont))

  -- One round of the loop; `more` is what remains of it.
  unfoldable pub unwind_by :
      (more : Vm → Regs → (target : ℕ) → Value → Outcome (Vm × Regs))
      → UnwindStep
      → Vm
      → Regs
      → (target : ℕ) → Value
      → Outcome (Vm × Regs)
  unfolding return_from run_ensure_block_then_continue pop_to
  unwind_by more return_here vm regs target value =
      return_from (λ vm' regs' t v. more (count_unwind vm') regs' t v) vm regs value
  unwind_by more not_on_chain vm regs target value = some (err (fatal unwind_target_not_on_chain))
  unwind_by more past_base vm regs target value = some (err (fatal unwind_past_base))
  unwind_by more pop vm regs target value =
      let caller = as_unsigned u64_mod (caller_at vm.heap.mem regs.stack regs.frame) in
      let popped = pop_to vm regs caller in more popped.0 popped.1 target value
  unwind_by more (intercept hsb blockv) vm regs target value =
      run_ensure_block_then_continue vm regs target value hsb blockv

  -- The loop: pop frames from the top down to `target` and return `value` from there.
  unfoldable pub unwind_frames : (fuel : ℕ) → Vm → Regs → (target : ℕ) → Value → Outcome (Vm × Regs)
  unfolding unwind_step unwind_by
  unwind_frames zero vm regs target value = none
  unwind_frames (suc fuel) vm regs target value =
      unwind_by (unwind_frames fuel) (unwind_step vm regs target) vm regs target value

  unfoldable pub unwind_and_return_from :
      (fuel : ℕ) → Vm → Regs → (target : ℕ) → Value → Outcome (Vm × Regs)
  unfolding unwind_frames
  unwind_and_return_from fuel vm regs target value =
      unwind_frames fuel (count_unwind vm) regs target value

  unfoldable pub do_return : (fuel : ℕ) → Vm → Regs → Value → Outcome (Vm × Regs)
  unfolding return_from unwind_and_return_from
  do_return fuel vm regs value = return_from (unwind_and_return_from fuel) vm regs value
