-- ===== src/Handlers.antt =====
-- src/prims.rs: the primitives of exceptions and of the inspection of frames. The chain of callers
-- and the chain of superclasses are followed on fuel; `none` is a walk that has not ended when its
-- fuel runs out.
pub mod Search
mod Tests
use smallishtalk.Base.{
  ℕ, zero, suc, ◌+◌, ◌%◌, Bool, true, false, not, ◌&&◌, ◌||◌, Option, none, some, ltb, leb, ◌==◌,
  if◌then◌else◌,
}
use smallishtalk.Base.Int.{ℤ, pos}
use smallishtalk.Base.Words.{u64_mod, as_unsigned}
use smallishtalk.Treaty.Classes.{class_array}
use smallishtalk.Treaty.Words.{fmt_ptrs}
use smallishtalk.Treaty.Frames.{
  frame_caller, frame_retinfo, frame_method, frame_flags, frame_receiver, flag_handler,
  serial_shift, retinfo_pc_shift,
}
use smallishtalk.Treaty.Layout.{
  handler_slot_class, handler_slot_block, handler_slot_state, handler_state_armed,
  behavior_superclass, process_stack, process_frame_offset, process_pc,
}
use smallishtalk.Space.{Memory}
use smallishtalk.Value.{Value, as_int, as_ptr, is_int, is_ptr, from_int, sar}
use smallishtalk.Heap.{slot, set_slot_raw}
use smallishtalk.SmallInt.{eq_ℤ, PrimOutcome, value, control, fail, fail_wrong_type}
use smallishtalk.Vm.{Vm, nil}
use smallishtalk.Vm.MethodHeader.{method_handler_slot_base}
use smallishtalk.Interp.{
  Outcome, and_then, Result, ok, err, Regs, get, with_mem, from_usize, method_header_bits,
}
use smallishtalk.Interp.Frames.{frame_slots_of}
use smallishtalk.Interp.Unwind.{has_flag, is_zero, frame_is_live, unwind_and_return_from}
use smallishtalk.Interp.Collect.{alloc_gc}
use smallishtalk.Sched.Prims.{Answer}

abbrev fail_not_found : ℕ
fail_not_found = 8

abbrev pub frame_flags_at : Vm → Regs → (off : ℕ) → Value
frame_flags_at vm regs off = slot vm.heap.mem regs.stack (off + frame_flags)

abbrev pub method_at_frame : Vm → Regs → (off : ℕ) → Value
method_at_frame vm regs off = slot vm.heap.mem regs.stack (off + frame_method)

abbrev pub frame_bslot : Vm → Regs → (off k : ℕ) → Value
frame_bslot vm regs off k = slot vm.heap.mem regs.stack (off + frame_receiver + k)

-- self.method_handler_slot_base(method) of the frame's method
abbrev pub handler_base : Vm → Regs → (off : ℕ) → ℕ
handler_base vm regs off =
    method_handler_slot_base (method_header_bits vm (method_at_frame vm regs off))

-- !caller.is_int() || caller.as_int() == 0
abbrev pub stops : Value → Bool
stops caller = not (is_int caller) || is_zero (as_int caller)

abbrev pub is_handler_frame : Vm → Regs → (off : ℕ) → Bool
is_handler_frame vm regs off =
    let flags = frame_flags_at vm regs off in is_int flags && has_flag (as_int flags) flag_handler

-- Whether the class `c` is `stored` or inherits from it.
unfoldable pub class_handles : (fuel : ℕ) → Vm → (stored c : Value) → Option Bool
class_handles zero vm stored c = none
class_handles (suc fuel) vm stored c =
    let rest = class_handles fuel vm stored (slot vm.heap.mem (as_ptr c) behavior_superclass) in
    if not (c == nil vm) && is_ptr c then (if c == stored then some true else rest) else some false

-- The frame is an armed handler frame.
unfoldable pub is_armed : Vm → Regs → (off : ℕ) → Bool
unfolding has_flag
is_armed vm regs off =
    let state = frame_bslot vm regs off (handler_base vm regs off + handler_slot_state) in
    is_handler_frame vm regs off && is_int state && eq_ℤ (as_int state) (pos handler_state_armed)

abbrev pub stored_class : Vm → Regs → (off : ℕ) → Value
stored_class vm regs off = frame_bslot vm regs off (handler_base vm regs off + handler_slot_class)

unfoldable pub handles_here :
    (depth : ℕ) → Vm → Regs → (exc_class : Value) → (off : ℕ) → Option Bool
unfolding is_armed class_handles
handles_here depth vm regs exc_class off =
    if is_armed vm regs off
    then class_handles depth vm (stored_class vm regs off) exc_class
    else some false

-- One round of the search, by what the frame is; `rest` is the search from its caller.
unfoldable pub search_by :
    (here : Option Bool)
    → (off : ℕ) → (is_last : Bool) → (nil : Value) → (rest : Option Value) → Option Value
search_by none off is_last nil rest = none
search_by (some true) off is_last nil rest = some (from_usize off)
search_by (some false) off is_last nil rest = if is_last then some nil else rest

unfoldable pub search_handler :
    (depth fuel : ℕ) → Vm → Regs → (exc_class : Value) → (off : ℕ) → Option Value
unfolding handles_here search_by
search_handler depth zero vm regs exc_class off = none
search_handler depth (suc fuel) vm regs exc_class off =
    let caller = slot vm.heap.mem regs.stack (off + frame_caller) in
    search_by (handles_here depth vm regs exc_class off) off (stops caller) (nil vm)
      (search_handler depth fuel vm regs exc_class (as_unsigned u64_mod (as_int caller)))

-- The frame that the search starts at: the current one, or the caller of the frame at `from`.
unfoldable pub search_start : Vm → Regs → (from : Value) → Option ℕ
search_start vm regs from =
    let caller = slot vm.heap.mem regs.stack (as_unsigned u64_mod (as_int from) + frame_caller) in
    if is_int from
    then (if stops caller then none else some (as_unsigned u64_mod (as_int caller)))
    else some regs.frame

abbrev pub search_at : (depth fuel : ℕ) → Vm → Regs → Value → Option ℕ → Option Value
search_at depth fuel vm regs exc_class none = some (nil vm)
search_at depth fuel vm regs exc_class (some off) = search_handler depth fuel vm regs exc_class off

abbrev pub valued : Option Value → Option PrimOutcome
valued none = none
valued (some v) = some (value v)

-- It changes no state.
unfoldable pub prim_find_handler : (depth fuel : ℕ) → Vm → Regs → (r : ℕ) → Option PrimOutcome
unfolding search_handler search_start
prim_find_handler depth fuel vm regs r =
    let exc_class = get vm regs ((r + 1) % 256) in
    let from = get vm regs ((r + 2) % 256) in
    valued (search_at depth fuel vm regs exc_class (search_start vm regs from))

unfoldable pub prim_set_handler_state : Vm → Regs → (r : ℕ) → Answer
unfolding has_flag
prim_set_handler_state vm regs r =
    let off = get vm regs ((r + 1) % 256) in
    let state = get vm regs ((r + 2) % 256) in
    let o = as_unsigned u64_mod (as_int off) in
    let at = o + frame_receiver + handler_base vm regs o + handler_slot_state in
    let vm' = with_mem vm (set_slot_raw vm.heap.mem regs.stack at state) in
    if not (is_int off) || not (is_int state)
    then (fail fail_wrong_type, vm, regs)
    else if not (is_handler_frame vm regs o)
    then (fail fail_not_found, vm, regs)
    else (value (get vm' regs r), vm', regs)

module _ (collect_young collect_old : Vm → Result Vm) where
  unfoldable pub prim_unwind_to : (fuel : ℕ) → Vm → Regs → (r : ℕ) → Outcome Answer
  unfolding frame_is_live unwind_and_return_from and_then
  prim_unwind_to fuel vm regs r =
      let off = get vm regs ((r + 1) % 256) in
      let serial = get vm regs ((r + 2) % 256) in
      let t = as_unsigned u64_mod (as_int off) in
      if not (is_int off) || not (is_int serial)
      then some (ok (fail fail_wrong_type, vm, regs))
      else if not (frame_is_live vm.heap.mem regs t (as_int serial))
      then some (ok (fail fail_not_found, vm, regs))
      else and_then
          (unwind_and_return_from collect_old fuel vm regs t (get vm regs ((r + 3) % 256)))
          (λ got. some (ok (control, got.0, got.1)))

  unfoldable pub prim_handler_info : Vm → Regs → (r : ℕ) → Result Answer
  unfolding has_flag alloc_gc
  prim_handler_info vm regs r =
      let off = get vm regs ((r + 1) % 256) in
      let o = as_unsigned u64_mod (as_int off) in
      if not (is_int off)
      then ok (fail fail_wrong_type, vm, regs)
      else if not (is_handler_frame vm regs o)
      then ok (fail fail_not_found, vm, regs)
      else elim (alloc_gc collect_young collect_old vm regs class_array fmt_ptrs 3) [
        | err e ↦ err e
        | ok (a, vm1, regs1) ↦
            (let serial = from_int (sar (as_int (frame_flags_at vm1 regs1 o)) serial_shift) in
              let block = frame_bslot vm1 regs1 o (handler_base vm1 regs1 o + handler_slot_block) in
              let m1 = set_slot_raw vm1.heap.mem a 0 (stored_class vm1 regs1 o) in
              let m2 = set_slot_raw m1 a 1 block in
              ok (value a, with_mem vm1 (set_slot_raw m2 a 2 serial), regs1))
      ]

  unfoldable pub prim_signal_context : Vm → Regs → Result Answer
  unfolding alloc_gc
  prim_signal_context vm regs =
      elim (alloc_gc collect_young collect_old vm regs class_array fmt_ptrs 2) [
        | err e ↦ err e
        | ok (a, vm1, regs1) ↦
            (let serial = sar (as_int (frame_flags_at vm1 regs1 regs1.frame)) serial_shift in
              let m = set_slot_raw vm1.heap.mem a 0 (from_usize regs1.frame) in
              ok (value a, with_mem vm1 (set_slot_raw m a 1 (from_int serial)), regs1))
      ]

-- The program counter of an older frame at `o`, from the return information of its callee: the
-- callers from the frame at `f` down.
unfoldable pub resume_pc : (fuel : ℕ) → Memory → (nil : Value) → (stack f o : ℕ) → Option Value
resume_pc zero m nil stack f o = none
resume_pc (suc fuel) m nil stack f o =
    let caller = slot m stack (f + frame_caller) in
    let ri = slot m stack (f + frame_retinfo) in
    let next = as_unsigned u64_mod (as_int caller) in
    let rest = resume_pc fuel m nil stack next o in
    if not (ltb o f)
    then some nil
    else if stops caller
    then some nil
    else if next == o
    then some (if is_int ri then from_int (sar (as_int ri) retinfo_pc_shift) else nil)
    else rest

-- The saved program counter of the process where the frame is its top one.
unfoldable pub frame_pc : (fuel : ℕ) → Memory → (nil : Value) → (process stack o : ℕ) → Option Value
unfolding resume_pc
frame_pc fuel m nil process stack o =
    let saved_off = slot m process process_frame_offset in
    let top = as_unsigned u64_mod (as_int saved_off) in
    if not (is_int saved_off)
    then some nil
    else if top == o
    then some (slot m process process_pc)
    else resume_pc fuel m nil stack top o

-- The slots of the frame at `o`, from `k` on for `n` rounds.
unfoldable pub copy_slots_of : Memory → (a stack o k n : ℕ) → Memory
copy_slots_of m a stack o k zero = m
copy_slots_of m a stack o k (suc n) =
    copy_slots_of (set_slot_raw m a (2 + k) (slot m stack (o + frame_receiver + k))) a stack o
      (k + 1) n

-- The array of the frame's method, program counter and slots. The allocation may collect: the stack
-- and the method are read again, `process`, `nil` and the number `fs` of slots are those of before.
abbrev frame_array :
    (fuel : ℕ) → (process nil : Value) → (o fs : ℕ) → ℕ × Vm × Regs → Outcome Answer
frame_array fuel process nil o fs (a, vm, regs) =
    let m = vm.heap.mem in
    let p = as_ptr process in
    let stack = as_ptr (slot m p process_stack) in
    let method = slot m stack (o + frame_method) in
    elim (frame_pc fuel m nil p stack o) [
      | none ↦ none
      | some pc ↦
          (let m1 = set_slot_raw (set_slot_raw m a 0 method) a 1 pc in
            some (ok (value a, with_mem vm (copy_slots_of m1 a stack o 0 fs), regs)))
    ]

module _ (collect_young collect_old : Vm → Result Vm) where
  unfoldable pub prim_frame_info : (fuel : ℕ) → Vm → Regs → (r : ℕ) → Outcome Answer
  unfolding alloc_gc and_then frame_pc copy_slots_of
  prim_frame_info fuel vm regs r =
      let process = get vm regs ((r + 1) % 256) in
      let off = get vm regs ((r + 2) % 256) in
      let stack = slot vm.heap.mem (as_ptr process) process_stack in
      let o = as_unsigned u64_mod (as_int off) in
      let method = slot vm.heap.mem (as_ptr stack) (o + frame_method) in
      let fs = frame_slots_of vm method in
      if not (is_ptr process) || not (is_int off)
      then some (ok (fail fail_wrong_type, vm, regs))
      else if stack == nil vm
      then some (ok (fail fail_not_found, vm, regs))
      else if not (is_ptr method) || (method == nil vm)
      then some (ok (fail fail_not_found, vm, regs))
      else and_then
          (some (alloc_gc collect_young collect_old vm regs class_array fmt_ptrs (2 + fs)))
          (frame_array fuel process (nil vm) o fs)
