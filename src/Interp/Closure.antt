-- ===== src/Interp/Closure.antt =====
-- src/interp.rs: the making of a closure, with the home that a return out of it needs.
use Prim.Native.Nat.{bit_and}
use smallishtalk.Base.{ℕ, ◌+◌, ◌-◌, ◌^◌, Bool, not, some, ◌==◌, if◌then◌else◌}
use smallishtalk.Base.Int.{pos}
use smallishtalk.Base.Words.{u64_mod, as_unsigned}
use smallishtalk.Treaty.Classes.{class_blockclosure}
use smallishtalk.Treaty.Words.{fmt_fixed}
use smallishtalk.Treaty.Frames.{flag_blockctx, serial_shift}
use smallishtalk.Treaty.Layout.{
  block_info, bi_num_captured_bits, bi_has_nlr_shift, closure_compiled_block, closure_home_process,
  closure_home_offset, closure_home_serial, closure_captured_base,
}
use smallishtalk.Space.{Memory}
use smallishtalk.Value.{Value, as_int, as_ptr, from_int, sar}
use smallishtalk.Heap.{slot, set_slot_raw}
use smallishtalk.Vm.{Vm, nil}
use smallishtalk.Interp.{Result, ok, err, Regs, get, put, with_mem, from_usize}
use smallishtalk.Interp.Unwind.{flags_at, has_flag}
use smallishtalk.Interp.Collect.{alloc_gc}

abbrev pub set_home : Memory → (ca : ℕ) → (process offset serial : Value) → Memory
set_home m ca process offset serial =
    let m1 = set_slot_raw m ca closure_home_process process in
    let m2 = set_slot_raw m1 ca closure_home_offset offset in
    set_slot_raw m2 ca closure_home_serial serial

-- The home of the enclosing closure, read slot by slot as it is copied.
abbrev pub copy_home : Memory → (from ca : ℕ) → Memory
copy_home m from ca =
    let m1 = set_slot_raw m ca closure_home_process (slot m from closure_home_process) in
    let m2 = set_slot_raw m1 ca closure_home_offset (slot m1 from closure_home_offset) in
    set_slot_raw m2 ca closure_home_serial (slot m2 from closure_home_serial)

-- The home of a closure made by the current frame.
unfoldable pub home_memory : Vm → Regs → (ca : ℕ) → (has_nlr : Bool) → Memory
unfolding has_flag
home_memory vm regs ca has_nlr =
    let m = vm.heap.mem in
    let flags = flags_at m regs.stack regs.frame in
    if not has_nlr
    then set_home m ca (nil vm) (from_int (pos 0)) (from_int (pos 0))
    else if has_flag flags flag_blockctx
    then copy_home m (as_ptr (get vm regs 0)) ca
    else set_home m ca vm.active_process (from_usize regs.frame) (from_int (sar flags serial_shift))

module _ (collect_young collect_old : Vm → Result Vm) where
  unfoldable pub do_mkclosure : Vm → Regs → (d b : ℕ) → Result (Vm × Regs)
  unfolding alloc_gc home_memory
  do_mkclosure vm regs d b =
      let block = slot vm.heap.mem regs.lits b in
      let info = as_int (slot vm.heap.mem (as_ptr block) block_info) in
      let ncap = bit_and (as_unsigned u64_mod info) (2 ^ bi_num_captured_bits - 1) in
      let has_nlr = not (bit_and (as_unsigned u64_mod (sar info bi_has_nlr_shift)) 1 == 0) in
      elim (alloc_gc collect_young collect_old vm regs class_blockclosure fmt_fixed
        (closure_captured_base + ncap)) [
          | err e ↦ err e
          | ok (ca, vm1, regs1) ↦
              (let again = slot vm1.heap.mem regs1.lits b in
                let vm2 =
                  with_mem vm1 (set_slot_raw vm1.heap.mem ca closure_compiled_block again) in
                let vm3 = with_mem vm2 (home_memory vm2 regs1 ca has_nlr) in
                ok (put vm3 regs1 d ca, record regs1 { closure_reg = some d }))
        ]
