-- ===== src/Interp/Pushed.antt =====
-- src/interp.rs: a frame as it is pushed.
use smallishtalk.Base.{
  ℕ, ◌+◌, ◌-◌, ◌^◌, ◌<◌, ◌≤◌, ◌≡◌, ap, ◌∙◌, sym, subst, refl, arith, false, Option, none, some,
}
use smallishtalk.Base.Int.{ℤ}
use smallishtalk.Space.{Memory}
use smallishtalk.Treaty.Frames.{frame_receiver, flag_unwindcont}
use smallishtalk.Value.{Value, as_int}
use smallishtalk.Heap.{slot, slot_addr, num_slots}
use smallishtalk.Vm.{Vm, nil}
use smallishtalk.Vm.MethodHeader.{method_flags}
use smallishtalk.Interp.{
  Outcome, and_then, Result, ok, err, Regs, from_usize, reload_code, method_header_bits,
}
use smallishtalk.Interp.Frames.{frame_slots_of, bump_serial}
use smallishtalk.Interp.Push.{
  from_word, ensure_room, push_frame, write_frame, enter_method, flags_word, frame_flag_bits,
  retinfo_word, write_controls, nil_temps,
}
use smallishtalk.Interp.Unwind.{has_flag}
use smallishtalk.Interp.Words.{next_serial-lt, frame_flag_bits-lt, pushed_flags}
use smallishtalk.Interp.Kept.{fill_range-below, write_control-slots}

-- The control words of the frame at `off`: a frame of `regs` that called `method` into `dest`.
pub record IsCall (m : Memory) (regs : Regs) (off dest : ℕ) : Type 0 where
  pub caller : slot m regs.stack (off + 0) ≡ from_usize regs.frame
  pub retinfo : slot m regs.stack (off + 1) ≡ from_word (retinfo_word dest regs.pc)
  pub flags : has_flag (as_int (slot m regs.stack (off + 3))) flag_unwindcont ≡ false

nil_temps-below :
    (vm : Vm) (regs : Regs) (new_off argc fs a : ℕ)
    → a < slot_addr regs.stack (new_off + frame_receiver)
    → (nil_temps vm regs new_off argc fs).heap.mem a ≡ vm.heap.mem a
unfolding nil_temps
nil_temps-below vm regs new_off argc fs a h =
    fill_range-below vm.heap.mem regs.stack (new_off + frame_receiver + (1 + argc))
      (fs - (1 + argc)) (nil vm) a (omega arith)

pub push_frame-room :
    (collect_old : Vm → Result Vm) (vm : Vm) (regs : Regs) (method : Value) (r dest argc : ℕ)
    (prim_fail : Option ℤ) (extra : ℕ)
    → regs.frame + r + frame_receiver + frame_slots_of vm method ≤ num_slots vm.heap.mem regs.stack
    → push_frame collect_old vm regs method r dest argc prim_fail extra
      ≡ some
          (ok (write_frame vm regs method (frame_slots_of vm method) r dest argc prim_fail extra))
unfolding push_frame and_then ensure_room
push_frame-room collect_old vm regs method r dest argc prim_fail extra room =
    ap
      (λ o. and_then o (λ got. some (
        ok
          (write_frame got.0 got.1 method (frame_slots_of vm method) r dest argc prim_fail extra))))
      roomy
  where
    roomy :
        ensure_room collect_old vm regs (regs.frame + r + frame_receiver + frame_slots_of vm method)
        ≡ some (ok (vm, regs))
    roomy = ground arith

pub bump_serial-lt : (vm : Vm) → (bump_serial vm).0 < 2 ^ 30
unfolding bump_serial
bump_serial-lt vm = next_serial-lt _

enter_method-below :
    (vm : Vm) (regs : Regs) (argc : ℕ) (prim_fail : Option ℤ) (a : ℕ)
    → a < slot_addr regs.stack (regs.frame + frame_receiver)
    → (enter_method vm regs argc prim_fail).0.heap.mem a ≡ vm.heap.mem a
unfolding enter_method
enter_method-below vm regs argc none a h = refl
enter_method-below vm regs argc (some code) a h = ground arith

enter_method-regs :
    (vm : Vm) (regs : Regs) (argc : ℕ) (prim_fail : Option ℤ)
    → ((enter_method vm regs argc prim_fail).1.frame ≡ regs.frame)
      × ((enter_method vm regs argc prim_fail).1.stack ≡ regs.stack)
unfolding enter_method
enter_method-regs vm regs argc none = (refl, refl)
enter_method-regs vm regs argc (some code) = (refl, refl)

module _ (vm : Vm) (regs : Regs) (method : Value) (r dest argc : ℕ) (prim_fail : Option ℤ)
    (extra : ℕ) where
  abbrev pub pushed : Vm × Regs
  pushed = write_frame vm regs method (frame_slots_of vm method) r dest argc prim_fail extra

  abbrev pub controls : Vm
  controls = write_controls vm regs method (regs.frame + r) dest extra

  pub pushed_regs : (pushed.1.frame ≡ regs.frame + r) × (pushed.1.stack ≡ regs.stack)
  unfolding write_frame reload_code
  pushed_regs =
      let vm1 = nil_temps controls regs (regs.frame + r) argc (frame_slots_of vm method) in
      enter_method-regs vm1 (reload_code vm1 (record regs { frame = regs.frame + r })) argc
        prim_fail

  pub pushed_memory :
      (a : ℕ)
      → a < slot_addr regs.stack (regs.frame + r + frame_receiver)
      → pushed.0.heap.mem a ≡ controls.heap.mem a
  unfolding write_frame reload_code
  pushed_memory a h =
      let fs = frame_slots_of vm method in
      let vm1 = nil_temps controls regs (regs.frame + r) argc fs in
      enter_method-below vm1 (reload_code vm1 (record regs { frame = regs.frame + r })) argc
        prim_fail a h
      ∙ nil_temps-below controls regs (regs.frame + r) argc fs a (omega arith)

  pub controls_words :
      (slot controls.heap.mem regs.stack (regs.frame + r + 0) ≡ from_usize regs.frame)
      × (slot controls.heap.mem regs.stack (regs.frame + r + 1)
          ≡ from_word (retinfo_word dest regs.pc))
      × (slot controls.heap.mem regs.stack (regs.frame + r + 2) ≡ method)
      × (slot controls.heap.mem regs.stack (regs.frame + r + 3)
          ≡ from_word (
              flags_word
                (frame_flag_bits
                  (method_flags (method_header_bits (bump_serial vm).1 method))
                  extra)
                (bump_serial vm).0))
  unfolding write_controls
  controls_words =
      write_control-slots (bump_serial vm).1.heap.mem regs.stack (regs.frame + r) regs.frame
        (retinfo_word dest regs.pc) method
        (flags_word
          (frame_flag_bits (method_flags (method_header_bits (bump_serial vm).1 method)) extra)
          (bump_serial vm).0)

  pushed-IsCall : extra < 8 → IsCall pushed.0.heap.mem regs (regs.frame + r) dest
  pushed-IsCall e = record {
    caller =
        pushed_memory (slot_addr regs.stack (regs.frame + r + 0)) (omega arith) ∙ controls_words.0;
    retinfo =
        pushed_memory (slot_addr regs.stack (regs.frame + r + 1)) (omega arith) ∙ controls_words.1;
    flags =
        ap (λ t. has_flag (as_int t) flag_unwindcont)
          (pushed_memory (slot_addr regs.stack (regs.frame + r + 3)) (omega arith)
            ∙ controls_words.3)
        ∙ pushed_flags
            (frame_flag_bits (method_flags (method_header_bits (bump_serial vm).1 method)) extra)
            (bump_serial vm).0
            (frame_flag_bits-lt (method_flags (method_header_bits (bump_serial vm).1 method)) extra
              e)
            (bump_serial-lt vm);
  }

unwrap : Outcome (Vm × Regs) → Vm × Regs → Vm × Regs
unwrap none d = d
unwrap (some (err e)) d = d
unwrap (some (ok a)) d = a

abbrev pub IsPushed : Vm → Regs → Regs → (r dest : ℕ) → Type 0
IsPushed vm1 regs1 regs r dest =
    (regs1.frame ≡ regs.frame + r)
    × (regs1.stack ≡ regs.stack)
    × IsCall vm1.heap.mem regs (regs.frame + r) dest

pub push_frame-IsPushed :
    (collect_old : Vm → Result Vm) (vm : Vm) (regs : Regs) (method : Value) (r dest argc : ℕ)
    (prim_fail : Option ℤ) (extra : ℕ)
    → regs.frame + r + frame_receiver + frame_slots_of vm method ≤ num_slots vm.heap.mem regs.stack
    → extra < 8
    → (vm1 : Vm) (regs1 : Regs)
    → push_frame collect_old vm regs method r dest argc prim_fail extra ≡ some (ok (vm1, regs1))
    → IsPushed vm1 regs1 regs r dest
unfolding unwrap
push_frame-IsPushed collect_old vm regs method r dest argc prim_fail extra room e vm1 regs1 push =
    let frame = pushed vm regs method r dest argc prim_fail extra in
    let same : frame ≡ (vm1, regs1) =
      ap (λ o. unwrap o frame)
        (sym (push_frame-room collect_old vm regs method r dest argc prim_fail extra room)
          ∙ push) in
    let at_end = pushed_regs vm regs method r dest argc prim_fail extra in
    subst (λ got. IsPushed got.0 got.1 regs r dest) same
      (at_end.0, at_end.1, pushed-IsCall vm regs method r dest argc prim_fail extra e)
