-- ===== src/Interp/Frames.antt =====
-- src/interp.rs: frames pushed on the stack of the running process, and its growth.
use smallishtalk.Base.{
  ℕ, zero, suc, ◌+◌, ◌-◌, ◌*◌, ◌^◌, Option, none, some, ltb, leb, if◌then◌else◌,
}
use smallishtalk.Base.Int.{pos}
use smallishtalk.Base.Words.{u32_mod, as_unsigned}
use smallishtalk.Treaty.Classes.{class_stack}
use smallishtalk.Treaty.Frames.{frame_receiver}
use smallishtalk.Treaty.Layout.{process_stack, process_serial_counter}
use smallishtalk.Space.{Memory}
use smallishtalk.Value.{Value, as_int, as_ptr, from_int}
use smallishtalk.Heap.{slot, set_slot_raw, num_slots}
use smallishtalk.Heap.Alloc.{alloc_ptrs, alloc_ptrs_old}
use smallishtalk.Heap.Barrier.{store_slot}
use smallishtalk.Vm.{Vm, nil}
use smallishtalk.Vm.MethodHeader.{method_frame_slots}
use smallishtalk.Interp.{
  Outcome, Result, ok, err, stack_overflow, out_of_memory, ◌>>=◌, Regs, with_mem, save_regs,
  refresh_regs, method_header_bits,
}

abbrev pub frame_slots_of : Vm → Value → ℕ
frame_slots_of vm method = method_frame_slots (method_header_bits vm method)

-- set_slot_raw(obj, i, v) for `n` slots from `i` on
unfoldable pub fill_range : Memory → (obj i n : ℕ) → Value → Memory
fill_range m obj i zero v = m
fill_range m obj i (suc n) v = fill_range (set_slot_raw m obj i v) obj (i + 1) n v

unfoldable pub nil_frame : Vm → Regs → Vm
unfolding fill_range
nil_frame vm regs = with_mem vm (
    fill_range vm.heap.mem regs.stack regs.frame (frame_receiver + frame_slots_of vm regs.method)
      (nil vm))

-- cur >= (1 << 30) - 1 wraps to 1
abbrev pub next_serial : ℕ → ℕ
next_serial cur = if leb (2 ^ 30 - 1) cur then 1 else cur + 1

unfoldable pub bump_serial : Vm → ℕ × Vm
bump_serial vm =
    let p = as_ptr vm.active_process in
    let m = vm.heap.mem in
    let next = next_serial (as_unsigned u32_mod (as_int (slot m p process_serial_counter))) in
    (next, with_mem vm (set_slot_raw m p process_serial_counter (from_int (pos next))))

-- for i in 0..n { new[i] = old[i] }, from `i` on for `n` rounds
unfoldable pub copy_slots : Memory → (from to i n : ℕ) → Memory
copy_slots m from to i zero = m
copy_slots m from to i (suc n) = copy_slots (set_slot_raw m to i (slot m from i)) from to (i + 1) n

-- new_slots *= 2 until it is enough; `none` where the fuel does not suffice
unfoldable pub double_until : ℕ → (slots needed : ℕ) → Option ℕ
double_until zero slots needed = none
double_until (suc fuel) slots needed =
    let more = double_until fuel (slots * 2) needed in if ltb slots needed then more else some slots

-- The compaction of old space, which src/gc.rs does, is a parameter.
module _ (collect_old : Vm → Result Vm) where
  abbrev or_else {ℓ} : {A : Type ℓ} → Option A → Option A → Option A
  or_else (some a) b = some a
  or_else none b = b

  -- The address of the new stack, allocated without a collection if possible.
  unfoldable pub alloc_stack : Vm → Regs → ℕ → Result (ℕ × Vm × Regs)
  alloc_stack vm regs new_slots =
      elim (or_else (alloc_ptrs vm.heap class_stack new_slots (nil vm))
        (alloc_ptrs_old vm.heap class_stack new_slots (nil vm))) [
          | some (a, h) ↦ ok (a, record vm { heap = h }, regs)
          | none ↦
              (collect_old (save_regs vm regs) >>= λ vm'.
              elim (alloc_ptrs_old vm'.heap class_stack new_slots (nil vm)) [
                | some (a, h) ↦ ok (a, record vm' { heap = h }, refresh_regs vm' regs)
                | none ↦ err out_of_memory
              ])
        ]

  -- Copy the slots, tell the process and switch over.
  unfoldable pub install_stack : Vm → Regs → (new_addr cur_slots : ℕ) → Vm × Regs
  unfolding copy_slots
  install_stack vm regs new_addr cur_slots =
      let h = vm.heap in
      let copied = record h { mem = copy_slots h.mem regs.stack new_addr 0 cur_slots } in
      let h' = store_slot copied (as_ptr vm.active_process) process_stack new_addr in
      (
        record vm { heap = h'; stack_grow_count = vm.stack_grow_count + 1 },
        record regs { stack = new_addr },
      )

  unfoldable pub grow_stack : Vm → Regs → ℕ → Outcome (Vm × Regs)
  unfolding double_until alloc_stack install_stack
  grow_stack vm regs needed =
      let cur_slots = num_slots vm.heap.mem regs.stack in
      elim (double_until (suc needed) (cur_slots * 2) needed) [
        | none ↦ none
        | some new_slots ↦ some (
            if ltb vm.max_stack_bytes (new_slots * 8)
            then err stack_overflow
            else (alloc_stack vm regs new_slots >>= λ grown.
                ok (install_stack grown.1 grown.2 grown.0 cur_slots)))
      ]
