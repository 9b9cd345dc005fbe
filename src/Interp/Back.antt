-- ===== src/Interp/Back.antt =====
-- src/interp.rs: the caller's frame after a return.
use Prim.Native.Nat.{bit_and}
use smallishtalk.Base.{
  ℕ, ◌+◌, ◌%◌, ◌^◌, ◌<◌, ◌≤◌, ◌≡◌, ◌≢◌, ap, ◌∙◌, sym, arith, if_false, false, some, ◌==◌,
}
use smallishtalk.Base.Int.{pos}
use smallishtalk.Base.Words.{u64_mod, as_unsigned}
use smallishtalk.Space.{Memory}
use smallishtalk.Treaty.Frames.{frame_receiver, frame_method, flag_unwindcont}
use smallishtalk.Heap.Barrier.Remembered.{write-ne}
use smallishtalk.Value.{Value, as_int}
use smallishtalk.Heap.{slot, slot_addr}
use smallishtalk.Vm.{Vm, nil}
use smallishtalk.Interp.{Outcome, ok, Regs, get, bslot}
use smallishtalk.Interp.Frames.{frame_slots_of, fill_range}
use smallishtalk.Interp.Push.{from_word, retinfo_word}
use smallishtalk.Interp.Unwind.{has_flag, flags_at, caller_at, is_zero, return_from, return_to}
use smallishtalk.Interp.Words.{pushed_retinfo, pushed_caller}
use smallishtalk.Interp.Pushed.{IsCall}
use smallishtalk.Interp.Kept.{fill_range-below}

-- A caller's frame is given back by a return.
pub record IsBack (vm' : Vm) (regs' : Regs) (m : Memory) (regs : Regs) (top dest : ℕ)
    (value : Value) : Type 0 where
  pub frame : regs'.frame ≡ regs.frame
  pub stack : regs'.stack ≡ regs.stack
  pub pc : regs'.pc ≡ regs.pc
  pub method : regs'.method ≡ slot m regs.stack (regs.frame + frame_method)
  pub result : get vm' regs' dest ≡ value
  pub kept :
      (a : ℕ)
      → a < slot_addr regs.stack top
      → a ≢ slot_addr regs.stack (bslot regs dest)
      → vm'.heap.mem a ≡ m a

module _ (vm : Vm) (regs caller : Regs) (dest : ℕ) (value : Value) (st : regs.stack ≡ caller.stack)
    (low : 0 < caller.frame) (f : caller.frame < 2 ^ 62) (g : caller.frame + 4 ≤ regs.frame)
    (p : caller.pc < 2 ^ 54) (d : dest < 256) where
  abbrev pub back : Vm × Regs
  back =
      return_to vm regs (pos caller.frame) (as_int (from_word (retinfo_word dest caller.pc))) value

  module _ (call : IsCall vm.heap.mem caller regs.frame dest) where
    pub return_from-back :
        (unwind : Vm → Regs → ℕ → Value → Outcome (Vm × Regs))
        → return_from unwind vm regs value ≡ some (ok back)
    unfolding return_from
    return_from-back unwind =
        let m = vm.heap.mem in
        let off = regs.frame in
        let quiet : has_flag (flags_at m regs.stack off) flag_unwindcont ≡ false =
          ap (λ s. has_flag (flags_at m s off) flag_unwindcont) st ∙ call.flags in
        let from : caller_at m regs.stack off ≡ pos caller.frame =
          ap (λ s. caller_at m s off) st ∙ ap as_int call.caller ∙ pushed_caller caller.frame f in
        let info : slot m regs.stack (off + 1) ≡ from_word (retinfo_word dest caller.pc) =
          ap (λ s. slot m s (off + 1)) st ∙ call.retinfo in
        let some_frame : (caller.frame == 0) ≡ false = ground arith in
        if_false _ _ quiet
        ∙ if_false _ _ (ap is_zero from ∙ some_frame)
        ∙ ap (λ c. some (ok (return_to vm regs c (as_int (slot m regs.stack (off + 1))) value)))
            from
        ∙ ap (λ w. some (ok (return_to vm regs (pos caller.frame) (as_int w) value))) info

  same_frame : caller.frame % u64_mod ≡ caller.frame
  same_frame = omega arith

  dest_read :
      bit_and (as_unsigned u64_mod (as_int (from_word (retinfo_word dest caller.pc)))) 255 % 256
      ≡ dest
  dest_read = (pushed_retinfo dest caller.pc d p).0

  pub landed-IsBack : IsBack back.0 back.1 vm.heap.mem caller regs.frame dest value
  unfolding return_to
  landed-IsBack = record {
    frame = same_frame;
    stack = st;
    pc = (pushed_retinfo dest caller.pc d p).1;
    method = rw same_frame (
        fill_range-below vm.heap.mem regs.stack regs.frame
          (frame_receiver + frame_slots_of vm regs.method) (nil vm)
          (slot_addr regs.stack (caller.frame + frame_method)) (omega arith)
        ∙ ap (λ s. slot vm.heap.mem s (caller.frame + frame_method)) st);
    result = rw dest_read (ground arith);
    kept = λ a h ne.
        let below : a < slot_addr regs.stack regs.frame = rw st h in
        let apart : a ≢ slot_addr regs.stack (bslot caller dest) =
          λ e. ne (e ∙ ap (λ s. slot_addr s (bslot caller dest)) st) in
        rw (same_frame, dest_read)
          (write-ne
              (fill_range vm.heap.mem regs.stack regs.frame
                (frame_receiver + frame_slots_of vm regs.method) (nil vm))
              (slot_addr regs.stack (bslot caller dest)) value a (λ e. apart (sym e))
            ∙ fill_range-below vm.heap.mem regs.stack regs.frame
                (frame_receiver + frame_slots_of vm regs.method) (nil vm) a below);
  }

-- The memory from which a frame is given back may be an earlier one that agrees below it.
pub IsBack-from :
    (vm' : Vm) (regs' : Regs) (m m' : Memory) (caller : Regs) (off target dest : ℕ) (value : Value)
    → off ≡ target
    → caller.frame + frame_receiver ≤ target
    → ((a : ℕ) → a < slot_addr caller.stack (target + frame_receiver) → m' a ≡ m a)
    → IsBack vm' regs' m' caller off dest value
    → IsBack vm' regs' m caller target dest value
IsBack-from vm' regs' m m' caller off target dest value e le same b = record {
  frame = b.frame;
  stack = b.stack;
  pc = b.pc;
  method = b.method ∙ same (slot_addr caller.stack (caller.frame + frame_method)) (omega arith);
  result = b.result;
  kept = λ a h ne. b.kept a (omega arith) ne ∙ same a (omega arith);
}
