-- ===== src/Sched/Terminate.antt =====
-- src/prims.rs: the termination of a process. A process unwinds only itself: on another one a frame
-- of the terminate trampoline is pushed, which does so when that process runs.
use smallishtalk.Base.{
  ℕ, zero, suc, ◌+◌, ◌-◌, ◌*◌, ◌^◌, not, ◌||◌, none, some, ltb, ◌==◌, if◌then◌else◌, get_or, [],
  ◌∷◌, ◌++◌,
}
use smallishtalk.Base.Int.{ℤ, pos, ltb_ℤ, ◌+ℤ◌, ◌*ℤ◌}
use smallishtalk.Base.Words.{u64_mod, as_unsigned}
use smallishtalk.Treaty.Classes.{class_stack}
use smallishtalk.Treaty.Words.{fmt_ptrs}
use smallishtalk.Treaty.Frames.{
  frame_caller, frame_retinfo, frame_method, frame_flags, frame_receiver, serial_shift,
  retinfo_pc_shift,
}
use smallishtalk.Treaty.Layout.{
  process_stack, process_frame_offset, process_pc, process_serial_counter,
  special_terminate_trampoline, stack_frames_base,
}
use smallishtalk.Value.{Value, as_int, as_ptr, is_ptr, from_int}
use smallishtalk.Heap.{Heap, slot, set_slot_raw, num_slots}
use smallishtalk.Heap.Barrier.{store_slot}
use smallishtalk.SmallInt.{value, control, fail, fail_wrong_type, fail_unsupported_context}
use smallishtalk.Vm.{Vm, nil}
use smallishtalk.Interp.{Result, Outcome, ok, err, and_then, Regs, get, with_mem, from_usize}
use smallishtalk.Interp.Frames.{frame_slots_of, copy_slots, double_until}
use smallishtalk.Interp.Collect.{alloc_gc, pop_root}
use smallishtalk.Interp.Switch.{remember_stack}
use smallishtalk.Interp.Unwind.{unwind_and_return_from}
use smallishtalk.Sched.{make_runnable, is_process, remove_process_from_its_list}
use smallishtalk.Sched.Prims.{Answer}

abbrev trampoline : Vm → Value
trampoline vm = get_or vm.specials special_terminate_trampoline 0

-- cur >= (1 << 30) - 1 wraps to 1, of an i64
abbrev next_serial : ℤ → ℤ
next_serial cur = if not (ltb_ℤ cur (pos (2 ^ 30 - 1))) then pos 1 else cur +ℤ pos 1

-- x << k of an i64
abbrev shift_left : ℤ → ℕ → ℤ
shift_left x k = x *ℤ pos (2 ^ k)

-- for k in i..i + n { store_slot(obj, k, v) }
unfoldable pub store_range : Heap → (obj i n : ℕ) → Value → Heap
store_range h obj i zero v = h
store_range h obj i (suc n) v = store_range (store_slot h obj i v) obj (i + 1) n v

-- The frame of the trampoline at `new_off` of the stack at `sa`.
unfoldable pub store_trampoline :
    Heap → (nil p tramp : Value) → (sa t_off new_off tramp_fs : ℕ) → (t_pc serial : ℤ) → Heap
unfolding store_range
store_trampoline h nil p tramp sa t_off new_off tramp_fs t_pc serial =
    let h1 = store_slot h sa (new_off + frame_caller) (from_usize t_off) in
    let h2 =
      store_slot h1 sa (new_off + frame_retinfo) (from_int (shift_left t_pc retinfo_pc_shift)) in
    let h3 = store_slot h2 sa (new_off + frame_method) tramp in
    let h4 = store_slot h3 sa (new_off + frame_flags) (from_int (shift_left serial serial_shift)) in
    let h5 = store_slot h4 sa (new_off + frame_receiver) p in
    store_range h5 sa (new_off + frame_receiver + 1) (tramp_fs - 1) nil

unfoldable pub finish_terminate_other :
    (queue_fuel : ℕ) → Vm → Regs → Value → ℕ → ℤ → Outcome Answer
unfolding store_trampoline make_runnable
finish_terminate_other queue_fuel vm regs p t_off t_pc =
    let tramp = trampoline vm in
    let pa = as_ptr p in
    let m = vm.heap.mem in
    let sa = as_ptr (slot m pa process_stack) in
    let new_off = t_off + frame_receiver + frame_slots_of vm (slot m sa (t_off + frame_method)) in
    let serial = next_serial (as_int (slot m pa process_serial_counter)) in
    let vm1 = with_mem vm (set_slot_raw m pa process_serial_counter (from_int serial)) in
    let h =
      store_trampoline vm1.heap (nil vm) p tramp sa t_off new_off (frame_slots_of vm tramp) t_pc
        serial in
    let m2 = set_slot_raw h.mem pa process_frame_offset (from_usize new_off) in
    let vm2 = record vm1 {
      heap = record h { mem = set_slot_raw m2 pa process_pc (from_int (pos 0)) };
    } in
    elim (remove_process_from_its_list queue_fuel vm2 p) [
      | some vm3 ↦ some (ok (value p, make_runnable vm3 p, regs))
      | none ↦ none
    ]

-- The room that the frame of the trampoline needs on the stack of `p`.
unfoldable pub trampoline_room : Vm → Value → ℕ → ℕ
trampoline_room vm p t_off =
    let m = vm.heap.mem in
    let t_method = slot m (as_ptr (slot m (as_ptr p) process_stack)) (t_off + frame_method) in
    let new_off = t_off + frame_receiver + frame_slots_of vm t_method in
    new_off + frame_receiver + frame_slots_of vm (trampoline vm)

module _ (collect_young collect_old : Vm → Result Vm) where
  -- The stack of `p`, which does not run, copied into a new one; a collection may have moved `p`.
  unfoldable pub regrow : Vm → Regs → Value → (cur_slots new_slots : ℕ) → Result (Value × Vm × Regs)
  unfolding alloc_gc copy_slots remember_stack pop_root
  regrow vm regs p cur_slots new_slots =
      let rooted = record vm { temp_roots = vm.temp_roots ++ p ∷ [] } in
      elim (alloc_gc collect_young collect_old rooted regs class_stack fmt_ptrs new_slots) [
        | err e ↦ err e
        | ok (nsa, vm1, regs1) ↦
            (let (p2, vm2) = pop_root vm1 in
              let h = vm2.heap in
              let old_stack = as_ptr (slot h.mem (as_ptr p2) process_stack) in
              let copied = record h { mem = copy_slots h.mem old_stack nsa 0 cur_slots } in
              let told = store_slot copied (as_ptr p2) process_stack nsa in
              ok (p2, record vm2 { heap = remember_stack told nsa }, regs1))
      ]

  unfoldable pub terminate_grown :
      (queue_fuel : ℕ)
      → Vm
      → Regs
      → Value
      → (t_off : ℕ) → (t_pc : ℤ) → (cur_slots needed : ℕ) → Outcome Answer
  unfolding regrow double_until finish_terminate_other
  terminate_grown queue_fuel vm regs p t_off t_pc cur_slots needed =
      elim (double_until (suc needed) (cur_slots * 2) needed) [
        | none ↦ none
        | some new_slots ↦
            (if ltb vm.max_stack_bytes (new_slots * 8)
              then some (ok (fail fail_unsupported_context, vm, regs))
              else elim (regrow vm regs p cur_slots new_slots) [
                | err e ↦ some (err e)
                | ok (p2, vm2, regs2) ↦ finish_terminate_other queue_fuel vm2 regs2 p2 t_off t_pc
              ])
      ]

  -- The termination of a process that does not run.
  unfoldable pub terminate_other : (queue_fuel : ℕ) → Vm → Regs → Value → Outcome Answer
  unfolding terminate_grown finish_terminate_other trampoline_room
  terminate_other queue_fuel vm regs p =
      let m = vm.heap.mem in
      let stack = slot m (as_ptr p) process_stack in
      let tramp = trampoline vm in
      let t_off = as_unsigned u64_mod (as_int (slot m (as_ptr p) process_frame_offset)) in
      let t_pc = as_int (slot m (as_ptr p) process_pc) in
      let needed = trampoline_room vm p t_off in
      let cur_slots = num_slots m (as_ptr stack) in
      if stack == nil vm
      then some (ok (value p, vm, regs))
      else if not (is_ptr tramp) || (tramp == nil vm)
      then some (ok (fail fail_unsupported_context, vm, regs))
      else if ltb cur_slots needed
      then terminate_grown queue_fuel vm regs p t_off t_pc cur_slots needed
      else finish_terminate_other queue_fuel vm regs p t_off t_pc

  -- `fuel` bounds the unwinding and `queue_fuel` the search of the process in its queue.
  unfoldable pub prim_process_terminate :
      (fuel queue_fuel : ℕ) → Vm → Regs → (r : ℕ) → Outcome Answer
  unfolding terminate_other unwind_and_return_from and_then
  prim_process_terminate fuel queue_fuel vm regs r =
      let p = get vm regs r in
      if not (is_process vm p)
      then some (ok (fail fail_wrong_type, vm, regs))
      else if p == vm.active_process
      then and_then (unwind_and_return_from collect_old fuel vm regs stack_frames_base (nil vm))
          (λ got. some (ok (control, got.0, got.1)))
      else terminate_other queue_fuel vm regs p
