-- ===== src/Interp/Kept.antt =====
-- src/interp.rs: the words that the frame operations leave alone.
use smallishtalk.Base.{
  ℕ, zero, suc, ◌+◌, ◌<◌, ◌≤◌, ◌≡◌, refl, ◌∙◌, arith, inl, inr, Bool-cases, ◌==◌,
}
use smallishtalk.Space.{Memory}
use smallishtalk.Treaty.Frames.{frame_receiver}
use smallishtalk.Value.{Value}
use smallishtalk.Heap.{slot, slot_addr, set_slot_raw}
use smallishtalk.Vm.{Vm, nil}
use smallishtalk.Interp.{Regs, from_usize}
use smallishtalk.Interp.Frames.{fill_range, nil_frame, frame_slots_of}
use smallishtalk.Interp.Push.{write_control, from_word}
use smallishtalk.Interp.Unwind.{pop_to}

pub fill_range-below :
    (m : Memory) (obj i n : ℕ) (v : Value) (a : ℕ)
    → a < slot_addr obj i
    → fill_range m obj i n v a ≡ m a
unfolding fill_range
fill_range-below m obj i zero v a h = refl
fill_range-below m obj i (suc n) v a h =
    fill_range-below (set_slot_raw m obj i v) obj (i + 1) n v a (omega arith) ∙ ground arith

pub fill_range-above :
    (m : Memory) (obj i n : ℕ) (v : Value) (a : ℕ)
    → slot_addr obj (i + n) ≤ a
    → fill_range m obj i n v a ≡ m a
unfolding fill_range
fill_range-above m obj i zero v a h = refl
fill_range-above m obj i (suc n) v a h =
    fill_range-above (set_slot_raw m obj i v) obj (i + 1) n v a (omega arith) ∙ ground arith

pub fill_range-inside :
    (m : Memory) (obj i n : ℕ) (v : Value) (k : ℕ)
    → i ≤ k
    → k < i + n
    → slot (fill_range m obj i n v) obj k ≡ v
unfolding fill_range
fill_range-inside m obj i zero v k l h = ground arith
fill_range-inside m obj i (suc n) v k l h = elim (Bool-cases (k == i)) [
  | inl e ↦
      let same : k ≡ i = ground arith in
      rw same (
        fill_range-below (set_slot_raw m obj i v) obj (i + 1) n v (slot_addr obj i) (omega arith)
        ∙ ground arith)
  | inr e ↦
      fill_range-inside (set_slot_raw m obj i v) obj (i + 1) n v k (ground arith) (omega arith)
]

-- What popping a frame keeps of the words below it.
pub pop_to-below :
    (vm : Vm) (regs : Regs) (off a : ℕ)
    → a < slot_addr regs.stack regs.frame
    → (pop_to vm regs off).0.heap.mem a ≡ vm.heap.mem a
unfolding pop_to nil_frame
pop_to-below vm regs off a h =
    fill_range-below vm.heap.mem regs.stack regs.frame
      (frame_receiver + frame_slots_of vm regs.method) (nil vm) a h

module _ (m : Memory) (st new_off caller ri : ℕ) (method : Value) (flags : ℕ) where
  pub write_control-slots :
      (let m' = write_control m st new_off caller ri method flags in
        (slot m' st (new_off + 0) ≡ from_usize caller)
        × (slot m' st (new_off + 1) ≡ from_word ri)
        × (slot m' st (new_off + 2) ≡ method)
        × (slot m' st (new_off + 3) ≡ from_word flags))
  unfolding write_control
  write_control-slots = (ground arith, ground arith, ground arith, ground arith)

  pub write_control-below :
      (a : ℕ) → a < slot_addr st new_off → write_control m st new_off caller ri method flags a ≡ m a
  unfolding write_control
  write_control-below a h = ground arith
