-- ===== src/Objects.antt =====
-- src/prims.rs: the primitives that make objects, reach into them, call blocks and perform sends.
pub mod Block
mod Tests
use smallishtalk.Base.{
  ℕ, zero, suc, ◌+◌, ◌-◌, ◌%◌, Bool, not, ◌&&◌, ◌||◌, Option, none, some, List, [], ◌∷◌, ◌++◌, ltb,
  leb, ◌==◌, if◌then◌else◌,
}
use smallishtalk.Base.Int.{ℤ, pos, ltb_ℤ}
use smallishtalk.Base.Words.{u32_mod, u64_mod, as_unsigned, as_signed}
use smallishtalk.Treaty.Classes.{class_blockclosure}
use smallishtalk.Treaty.Words.{fmt_fixed, fmt_ptrs, fmt_bytes_base}
use smallishtalk.Treaty.Frames.{frame_receiver, flag_blockctx}
use smallishtalk.Treaty.Layout.{behavior_num_vm_slots, behavior_class_index, closure_compiled_block}
use smallishtalk.Header
use smallishtalk.Value.{Value, as_int, as_ptr, is_int, is_ptr}
use smallishtalk.Heap.{slot, num_slots, header}
use smallishtalk.Heap.Barrier.{store_slot}
use smallishtalk.SmallInt.{
  PrimOutcome, value, control, fail, fail_wrong_type, fail_unsupported_context,
}
use smallishtalk.Vm.{Vm, class_format_and_slots}
use smallishtalk.Vm.MethodHeader.{method_argc}
use smallishtalk.Interp.{Outcome, and_then, Result, ok, err, Regs, get, put, method_header_bits}
use smallishtalk.Interp.Push.{ensure_room, push_frame}
use smallishtalk.Interp.Collect.{alloc_gc}
use smallishtalk.Interp.Send.{Env, do_send}
use smallishtalk.Sched.Prims.{Answer, is_semaphore}

abbrev pub fail_wrong_argc : ℕ
fail_wrong_argc = 3

abbrev pub fail_bad_index : ℕ
fail_bad_index = 4

abbrev failed : ℕ → Vm → Regs → Outcome Answer
failed code vm regs = some (ok (fail code, vm, regs))

abbrev pub argc_of : Vm → Value → ℕ
argc_of vm block = method_argc (method_header_bits vm block)

abbrev pub is_closure : Vm → Value → Bool
is_closure vm v =
    is_ptr v && (Header.class_index (header vm.heap.mem (as_ptr v)) == class_blockclosure)

abbrev pub block_of : Vm → Value → Value
block_of vm closure = slot vm.heap.mem (as_ptr closure) closure_compiled_block

abbrev is_array : Vm → Value → Bool
is_array vm v = is_ptr v && (Header.format (header vm.heap.mem (as_ptr v)) == fmt_ptrs)

-- An outcome of pushing a frame, as the outcome of a primitive.
abbrev pub pushed_control : Outcome (Vm × Regs) → Outcome Answer
pushed_control none = none
pushed_control (some (err e)) = some (err e)
pushed_control (some (ok got)) = some (ok (control, got.0, got.1))

-- The elements of the array into the slots after `r`, from `i` on for `n` rounds.
unfoldable pub spread_args : Vm → Regs → (args r i n : ℕ) → Vm
spread_args vm regs args r i zero = vm
spread_args vm regs args r i (suc n) =
    spread_args (put vm regs ((r + 1 + i) % 256) (slot vm.heap.mem args i)) regs args r (i + 1) n

module _ (collect_old : Vm → Result Vm) where
  unfoldable pub prim_block_value : Vm → Regs → (r argc dest want : ℕ) → Outcome Answer
  unfolding push_frame
  prim_block_value vm regs r argc dest want =
      let closure = get vm regs r in
      let block = block_of vm closure in
      if ltb r frame_receiver
      then failed fail_unsupported_context vm regs
      else if not (is_closure vm closure)
      then failed fail_wrong_type vm regs
      else if not (argc == want) || not (argc_of vm block == want)
      then failed fail_wrong_argc vm regs
      else pushed_control (push_frame collect_old vm regs block r dest argc none flag_blockctx)

  unfoldable pub prim_block_value_args : Vm → Regs → (r dest : ℕ) → Outcome Answer
  unfolding push_frame ensure_room spread_args and_then
  prim_block_value_args vm regs r dest =
      let closure = get vm regs r in
      let args = get vm regs ((r + 1) % 256) in
      let block = block_of vm closure in
      let n = num_slots vm.heap.mem (as_ptr args) in
      if ltb r frame_receiver
      then failed fail_unsupported_context vm regs
      else if not (is_closure vm closure) || not (is_array vm args)
      then failed fail_wrong_type vm regs
      else if not (argc_of vm block == n)
      then failed fail_wrong_argc vm regs
      else and_then (ensure_room collect_old vm regs (regs.frame + frame_receiver + r + 1 + n))
          (λ room. pushed_control (
            push_frame collect_old (spread_args room.0 room.1 (as_ptr args) r 0 n) room.1 block r
              dest n none flag_blockctx))

-- perform: a selector with an array of arguments
unfoldable pub prim_perform : Env → Vm → Regs → (r dest : ℕ) → Outcome Answer
unfolding ensure_room spread_args do_send and_then
prim_perform env vm regs r dest =
    let selector = get vm regs ((r + 1) % 256) in
    let args = get vm regs ((r + 2) % 256) in
    let n = num_slots vm.heap.mem (as_ptr args) in
    if not (is_ptr selector) || not (is_array vm args)
    then failed fail_wrong_type vm regs
    else if ltb 250 (r + 1 + n)
    then failed fail_wrong_argc vm regs
    else and_then (ensure_room env.collect_old vm regs (regs.frame + frame_receiver + r + 1 + n))
        (λ room. pushed_control (
          do_send env (spread_args room.0 room.1 (as_ptr args) r 0 n) room.1 dest r selector n none
            none))

abbrev allocated : Result (ℕ × Vm × Regs) → Result Answer
allocated (err e) = err e
allocated (ok (a, vm, regs)) = ok (value a, vm, regs)

abbrev is_behavior : Vm → Value → Bool
is_behavior vm class =
    is_ptr class && not (ltb (num_slots vm.heap.mem (as_ptr class)) behavior_num_vm_slots)

-- self.heap.slot(class, BEHAVIOR_CLASS_INDEX).as_int() as u32
abbrev index_of : Vm → Value → ℕ
index_of vm class =
    as_unsigned u64_mod (as_int (slot vm.heap.mem (as_ptr class) behavior_class_index)) % u32_mod

module _ (collect_young collect_old : Vm → Result Vm) where
  unfoldable pub prim_new : Vm → Regs → (r : ℕ) → Result Answer
  unfolding alloc_gc class_format_and_slots
  prim_new vm regs r =
      let class = get vm regs r in
      let (format, nslots) = class_format_and_slots vm class in
      if not (is_behavior vm class)
      then ok (fail fail_wrong_type, vm, regs)
      else if not (format == fmt_fixed)
      then ok (fail fail_wrong_type, vm, regs)
      else allocated
          (alloc_gc collect_young collect_old vm regs (index_of vm class) fmt_fixed nslots)

  unfoldable pub prim_new_sized : Vm → Regs → (r : ℕ) → Result Answer
  unfolding alloc_gc class_format_and_slots
  prim_new_sized vm regs r =
      let class = get vm regs r in
      let size = get vm regs ((r + 1) % 256) in
      let format = (class_format_and_slots vm class).0 in
      let n = as_unsigned u64_mod (as_int size) in
      let made =
        λ (f : ℕ). allocated (alloc_gc collect_young collect_old vm regs (index_of vm class) f n) in
      if not (is_behavior vm class) || not (is_int size) || ltb_ℤ (as_int size) (pos 0)
      then ok (fail fail_wrong_type, vm, regs)
      else if format == fmt_ptrs
      then made fmt_ptrs
      else if leb fmt_bytes_base format
      then made fmt_bytes_base
      else ok (fail fail_wrong_type, vm, regs)

-- The index of an instance variable is out of range, or the object is one of bytes.
abbrev is_bad_index : Vm → (recv idx : Value) → Bool
is_bad_index vm recv idx =
    let m = vm.heap.mem in
    ltb_ℤ (as_int idx) (pos 1)
    || ltb_ℤ (as_signed u64_mod (num_slots m (as_ptr recv))) (as_int idx)
    || Header.is_bytes (header m (as_ptr recv))

abbrev var_slot : Value → ℕ
var_slot idx = as_unsigned u64_mod (as_int idx) - 1

-- It changes no state.
unfoldable pub inst_var_at : Vm → (recv idx : Value) → PrimOutcome
inst_var_at vm recv idx =
    if not (is_ptr recv) || not (is_int idx)
    then fail fail_wrong_type
    else if is_bad_index vm recv idx
    then fail fail_bad_index
    else value (slot vm.heap.mem (as_ptr recv) (var_slot idx))

unfoldable pub inst_var_at_put : Vm → (recv idx val : Value) → PrimOutcome × Vm
unfolding store_slot
inst_var_at_put vm recv idx val =
    if not (is_ptr recv) || not (is_int idx)
    then (fail fail_wrong_type, vm)
    else if is_bad_index vm recv idx
    then (fail fail_bad_index, vm)
    else (value val, record vm { heap = store_slot vm.heap (as_ptr recv) (var_slot idx) val })
