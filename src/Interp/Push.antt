-- ===== src/Interp/Push.antt =====
-- src/interp.rs: a frame pushed for a method whose receiver is already in place.
use Prim.Native.Nat.{bit_and, bit_or}
use smallishtalk.Base.{ℕ, ◌+◌, ◌-◌, ◌%◌, not, Option, none, some, ltb, ◌==◌, if◌then◌else◌}
use smallishtalk.Base.Int.{ℤ}
use smallishtalk.Base.Words.{u64_mod, shl, as_signed}
use smallishtalk.Treaty.Opcodes.{op_prim}
use smallishtalk.Treaty.Frames.{
  frame_caller, frame_retinfo, frame_method, frame_flags, frame_receiver, flag_handler, flag_ensure,
  serial_shift, retinfo_pc_shift,
}
use smallishtalk.Treaty.Layout.{mh_flag_is_handler, mh_flag_is_ensure}
use smallishtalk.Space.{Memory}
use smallishtalk.Value.{Value, from_int}
use smallishtalk.Heap.{set_slot_raw, num_slots, insn_at}
use smallishtalk.Vm.{Vm, nil}
use smallishtalk.Vm.MethodHeader.{method_flags}
use smallishtalk.Interp.{
  Outcome, and_then, Result, ok, Regs, with_mem, put, from_usize, reload_code, method_header_bits,
}
use smallishtalk.Interp.Frames.{frame_slots_of, fill_range, bump_serial, grow_stack}

-- The u64 word of a frame's four fields put together, as the SmallInteger of its i64.
abbrev pub from_word : ℕ → Value
from_word w = from_int (as_signed u64_mod w)

-- Handler and ensure frame bits come from the method header.
unfoldable pub frame_flag_bits : (mh_flags extra_flags : ℕ) → ℕ
frame_flag_bits mh_flags extra_flags =
    let with_handler =
      if not (bit_and mh_flags mh_flag_is_handler == 0)
      then bit_or extra_flags flag_handler
      else extra_flags in
    if not (bit_and mh_flags mh_flag_is_ensure == 0)
    then bit_or with_handler flag_ensure
    else with_handler

-- (dest as i64) | ((pc as i64) << RETINFO_PC_SHIFT)
unfoldable pub retinfo_word : (dest pc : ℕ) → ℕ
retinfo_word dest pc = bit_or dest (shl u64_mod pc retinfo_pc_shift)

-- (fflags as i64) | ((serial as i64) << SERIAL_SHIFT)
unfoldable pub flags_word : (fflags serial : ℕ) → ℕ
flags_word fflags serial = bit_or fflags (shl u64_mod serial serial_shift)

unfoldable pub write_control : Memory → (st new_off caller ri : ℕ) → Value → ℕ → Memory
write_control m st new_off caller ri method flags =
    let m1 = set_slot_raw m st (new_off + frame_caller) (from_usize caller) in
    let m2 = set_slot_raw m1 st (new_off + frame_retinfo) (from_word ri) in
    let m3 = set_slot_raw m2 st (new_off + frame_method) method in
    set_slot_raw m3 st (new_off + frame_flags) (from_word flags)

-- The first program counter: past a failed primitive, whose code goes after the arguments.
unfoldable pub enter_method : Vm → Regs → ℕ → Option ℤ → Vm × Regs
enter_method vm regs argc none = (vm, record regs { pc = 0 })
enter_method vm regs argc (some code) =
    let vm' = put vm regs ((1 + argc) % 256) (from_int code) in
    let first = insn_at vm'.heap.mem regs.code 0 in
    (vm', record regs { pc = if first % 256 == op_prim then 1 else 0 })

-- The control words of the frame at `new_off`, its serial being new.
unfoldable pub write_controls : Vm → Regs → Value → (new_off dest extra_flags : ℕ) → Vm
unfolding bump_serial frame_flag_bits retinfo_word flags_word write_control
write_controls vm regs method new_off dest extra_flags =
    let bumped = bump_serial vm in
    let vm1 = bumped.1 in
    let fflags = frame_flag_bits (method_flags (method_header_bits vm1 method)) extra_flags in
    with_mem vm1 (
      write_control vm1.heap.mem regs.stack new_off regs.frame (retinfo_word dest regs.pc) method
        (flags_word fflags bumped.0))

-- The slots after the receiver and the arguments are nil.
unfoldable pub nil_temps : Vm → Regs → (new_off argc fs : ℕ) → Vm
unfolding fill_range
nil_temps vm regs new_off argc fs = with_mem vm (
    fill_range vm.heap.mem regs.stack (new_off + frame_receiver + (1 + argc)) (fs - (1 + argc))
      (nil vm))

-- The frame of `fs` slots written, where the stack has room for it.
unfoldable pub write_frame : Vm → Regs → Value → (fs r dest argc : ℕ) → Option ℤ → ℕ → Vm × Regs
unfolding write_controls nil_temps reload_code enter_method
write_frame vm regs method fs r dest argc prim_fail extra_flags =
    let new_off = regs.frame + r in
    let vm1 =
      nil_temps (write_controls vm regs method new_off dest extra_flags) regs new_off argc fs in
    enter_method vm1 (reload_code vm1 (record regs { frame = new_off })) argc prim_fail

module _ (collect_old : Vm → Result Vm) where
  -- Room for `needed` slots on the stack.
  unfoldable pub ensure_room : Vm → Regs → ℕ → Outcome (Vm × Regs)
  unfolding grow_stack
  ensure_room vm regs needed =
      if ltb (num_slots vm.heap.mem regs.stack) needed
      then grow_stack collect_old vm regs needed
      else some (ok (vm, regs))

  unfoldable pub push_frame :
      Vm → Regs → Value → (r dest argc : ℕ) → Option ℤ → ℕ → Outcome (Vm × Regs)
  unfolding and_then ensure_room write_frame
  push_frame vm regs method r dest argc prim_fail extra_flags =
      let fs = frame_slots_of vm method in
      let needed = regs.frame + r + frame_receiver + fs in
      and_then (ensure_room vm regs needed)
        (λ room. some (ok (write_frame room.0 room.1 method fs r dest argc prim_fail extra_flags)))
