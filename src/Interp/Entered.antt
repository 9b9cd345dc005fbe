-- ===== src/Interp/Entered.antt =====
-- src/interp.rs: what a pushed frame holds: its method, its block flag, its arguments and its
-- temporaries.
use Prim.Native.Nat.{bit_and}
use smallishtalk.Base.{
  ℕ, ◌+◌, ◌-◌, ◌*◌, ◌%◌, ◌^◌, ◌<◌, ◌≤◌, ◌≡◌, ◌≢◌, ◌∙◌, ap, sym, refl, arith, true, ◌||◌, ltb, none,
  ◌==◌,
}
use smallishtalk.Base.Bits.{land_parts, land-zero, all_below, all_below_sound}
use smallishtalk.Base.Int.{pos}
use smallishtalk.Base.Words.{u64_mod}
use smallishtalk.Space.{Memory}
use smallishtalk.Treaty.Frames.{flag_blockctx}
use smallishtalk.Treaty.Layout.{process_serial_counter}
use smallishtalk.Value.{Value, as_int, as_ptr}
use smallishtalk.Heap.{slot, slot_addr}
use smallishtalk.Heap.Barrier.Remembered.{write-ne}
use smallishtalk.Vm.{Vm, nil}
use smallishtalk.Vm.MethodHeader.{method_flags}
use smallishtalk.Interp.{Regs, method_header_bits, get, bslot}
use smallishtalk.Interp.Frames.{frame_slots_of, bump_serial}
use smallishtalk.Interp.Push.{
  from_word, write_frame, write_control, write_controls, enter_method, flags_word, frame_flag_bits,
  retinfo_word, nil_temps,
}
use smallishtalk.Interp.Unwind.{has_flag}
use smallishtalk.Interp.Words.{as_int-from_word, flags_word_sum, frame_flag_bits-lt}
use smallishtalk.Interp.Kept.{fill_range-below, fill_range-inside}
use smallishtalk.Interp.Pushed.{pushed, controls, pushed_memory, controls_words, bump_serial-lt}

-- The frame of a block, in the registers and the stack: it runs `block` from its start, is marked
-- as the activation of a block, has the closure and the arguments that were staged from slot `r` on,
-- and its other slots are nil.
pub record IsBlockFrame (vm1 : Vm) (regs1 : Regs) (vm : Vm) (regs : Regs) (block : Value)
    (r argc : ℕ) : Type 0 where
  pub method : (regs1.method ≡ block) × (slot vm1.heap.mem regs1.stack (regs1.frame + 2) ≡ block)
  pub begins : regs1.pc ≡ 0
  pub marked :
      has_flag (as_int (slot vm1.heap.mem regs1.stack (regs1.frame + 3))) flag_blockctx ≡ true
  pub arguments : (k : ℕ) → k ≤ argc → get vm1 regs1 k ≡ get vm regs (r + k)
  pub temporaries : (k : ℕ) → argc < k → k < frame_slots_of vm block → get vm1 regs1 k ≡ nil vm

block_bits : (mh : ℕ) → 4 ≤ frame_flag_bits mh 4
unfolding frame_flag_bits
block_bits mh = ground arith

block_table : all_below 8 (λ x. ltb x 4 || (bit_and x 4 == 4)) ≡ true
block_table = refl

block_bit : (f : ℕ) → 4 ≤ f → f < 8 → bit_and f 4 ≡ 4
block_bit f l h =
    ground (arith, all_below_sound 8 (λ x. ltb x 4 || (bit_and x 4 == 4)) f block_table h)

block_flags :
    (f s : ℕ)
    → 4 ≤ f
    → f < 8
    → s < 2 ^ 30
    → has_flag (as_int (from_word (flags_word f s))) flag_blockctx ≡ true
unfolding has_flag
block_flags f s l h b =
    let w : as_int (from_word (flags_word f s)) ≡ pos (s * 2 ^ 32 + f) =
      ap (λ t. as_int (from_word t)) (flags_word_sum f s (omega arith) b)
      ∙ as_int-from_word (s * 2 ^ 32 + f) (omega arith) in
    let m : (s * 2 ^ 32 + f) % u64_mod ≡ s * 2 ^ 32 + f = omega arith in
    let split : s * 2 ^ 32 + f ≡ s * 2 ^ 28 * 2 ^ 4 + f = omega arith in
    let bit : bit_and (s * 2 ^ 32 + f) 4 ≡ 4 =
      ap (λ t. bit_and t 4) split
      ∙ land_parts 4 (s * 2 ^ 28) f 0 4 (omega arith) (omega arith)
      ∙ omega (arith, land-zero (s * 2 ^ 28), block_bit f l h) in
    rw w (rw m (rw bit refl))

write_control-above :
    (m : Memory) (st new_off caller ri : ℕ) (method : Value) (flags a : ℕ)
    → slot_addr st (new_off + 4) ≤ a
    → write_control m st new_off caller ri method flags a ≡ m a
unfolding write_control
write_control-above m st new_off caller ri method flags a h = ground arith

module _ (vm : Vm) (regs : Regs) (block : Value) (r dest argc : ℕ) where
  abbrev frame : Vm × Regs
  frame = pushed vm regs block r dest argc none flag_blockctx

  abbrev new_off : ℕ
  new_off = regs.frame + r

  abbrev under : Vm
  under = controls vm regs block r dest argc none flag_blockctx

  module _
      (apart : (k : ℕ)
        → k ≤ argc
        → slot_addr regs.stack (bslot regs (r + k))
          ≢ slot_addr (as_ptr vm.active_process) process_serial_counter) where
    kept_argument :
        (k : ℕ) → k ≤ argc → slot under.heap.mem regs.stack (new_off + 4 + k) ≡ get vm regs (r + k)
    unfolding write_controls bump_serial
    kept_argument k h =
        let at : slot_addr regs.stack (new_off + 4 + k)
            ≡ slot_addr regs.stack (bslot regs (r + k)) =
          omega arith in
        write_control-above (bump_serial vm).1.heap.mem regs.stack new_off regs.frame
          (retinfo_word dest regs.pc) block
          (flags_word
            (frame_flag_bits (method_flags (method_header_bits (bump_serial vm).1 block))
              flag_blockctx)
            (bump_serial vm).0)
          (slot_addr regs.stack (new_off + 4 + k)) (omega arith)
        ∙ ap (bump_serial vm).1.heap.mem at
        ∙ write-ne vm.heap.mem (slot_addr (as_ptr vm.active_process) process_serial_counter) _
            (slot_addr regs.stack (bslot regs (r + k))) (λ e. apart k h (sym e))

    pub pushed-IsBlockFrame : IsBlockFrame frame.0 frame.1 vm regs block r argc
    unfolding write_frame enter_method nil_temps
    pushed-IsBlockFrame =
        let fs = frame_slots_of vm block in
        let runs : slot frame.0.heap.mem regs.stack (new_off + 2) ≡ block =
          pushed_memory vm regs block r dest argc none flag_blockctx
            (slot_addr regs.stack (new_off + 2)) (omega arith)
          ∙ (controls_words vm regs block r dest argc none flag_blockctx).2 in
        let bits =
          frame_flag_bits (method_flags (method_header_bits (bump_serial vm).1 block))
            flag_blockctx in
        record {
          method = (runs, runs);
          begins = refl;
          marked =
              ap (λ w. has_flag (as_int w) flag_blockctx)
                (pushed_memory vm regs block r dest argc none flag_blockctx
                    (slot_addr regs.stack (new_off + 3)) (omega arith)
                  ∙ (controls_words vm regs block r dest argc none flag_blockctx).3)
              ∙ block_flags bits (bump_serial vm).0
                  (block_bits (method_flags (method_header_bits (bump_serial vm).1 block)))
                  (frame_flag_bits-lt (method_flags (method_header_bits (bump_serial vm).1 block))
                    flag_blockctx (omega arith))
                  (bump_serial-lt vm);
          arguments = λ k h.
              fill_range-below under.heap.mem regs.stack (new_off + 4 + (1 + argc))
                (fs - (1 + argc)) (nil vm) (slot_addr regs.stack (new_off + 4 + k)) (omega arith)
              ∙ kept_argument k h;
          temporaries = λ k l h.
              fill_range-inside under.heap.mem regs.stack (new_off + 4 + (1 + argc))
                (fs - (1 + argc)) (nil vm) (new_off + 4 + k) (omega arith) (omega arith);
        }
