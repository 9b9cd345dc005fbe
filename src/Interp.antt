-- ===== src/Interp.antt =====
-- src/interp.rs: the registers of the interpreter and the frames of the running process. An
-- operation that the source writes on `&mut self` and `&mut regs` answers both. A failing operation
-- ends the run, so that only its error is kept.
pub mod Frames
pub mod Push
pub mod Unwind
pub mod Words
pub mod Kept
pub mod Pushed
pub mod Entered
pub mod Back
pub mod Calls
pub mod Chain
pub mod Rounds
pub mod Walk
pub mod Landing
pub mod NonLocal
pub mod Collect
pub mod Send
pub mod Safepoint
pub mod Step
pub mod Run
pub mod Sites
pub mod Found
mod Tests
pub mod Closure
pub mod Nlr
pub mod Switch
use smallishtalk.Base.{ℕ, ◌+◌, ◌%◌, ◌^◌, Option, none, some, ◌==◌, if◌then◌else◌}
use smallishtalk.Base.Int.{ℤ, pos}
use smallishtalk.Base.Words.{u64_mod, as_unsigned, as_signed}
use smallishtalk.Treaty.Frames.{frame_method, frame_receiver}
use smallishtalk.Treaty.Layout.{
  process_stack, process_frame_offset, process_pc, method_header, method_bytecodes, method_literals,
  method_send_sites,
}
use smallishtalk.Space.{Memory}
use smallishtalk.Value.{Value, as_int, as_ptr, from_int}
use smallishtalk.Heap.{Heap, slot, set_slot_raw}
use smallishtalk.Vm.{Vm, nil}

-- src/vm.rs: the errors of the machine. A fatal one carries a message, here one name for each.
pub data Fatal : Type 0 where
  unwind_target_not_on_chain unwind_past_base ensure_block_takes_arguments : Fatal
  corrupt_pending_unwind unwind_target_died nlr_from_base_frame deadlock does_not_understand : Fatal
  staging_exceeds_limit break_executed immediate_receiver non_box no_send_sites : Fatal
  capture_without_closure illegal_opcode : Fatal

pub data VmError : Type 0 where
  out_of_memory stack_overflow : VmError
  fatal : Fatal → VmError

pub data Result (A : Type 0) : Type 0 where
  ok : A → Result A
  err : VmError → Result A

module _ {A B : Type 0} where
  infixl 5 ◌>>=◌
  abbrev pub ◌>>=◌ : Result A → (A → Result B) → Result B
  ok a >>= f = f a
  err e >>= f = err e

-- The answer of an operation that may not end and may fail.
abbrev pub Outcome : Type 0 → Type 0
Outcome A = Option (Result A)

module _ {A B : Type 0} where
  unfoldable pub and_then : Outcome A → (A → Outcome B) → Outcome B
  and_then none f = none
  and_then (some (err e)) f = some (err e)
  and_then (some (ok a)) f = f a

pub record Regs : Type 0 where
  pub stack : ℕ
  pub frame : ℕ
  pub pc : ℕ
  pub method : Value
  pub code : ℕ
  pub lits : ℕ
  pub sites : ℕ
  pub epoch : ℕ
  pub closure_reg : Option ℕ
  pub halted : Option Value

-- A machine with another memory.
abbrev pub with_mem : Vm → Memory → Vm
with_mem vm m = let h = vm.heap in record vm { heap = record h { mem = m } }

-- self.heap.slot(obj, i).as_int() as usize
abbrev pub slot_usize : Memory → ℕ → ℕ → ℕ
slot_usize m obj i = as_unsigned u64_mod (as_int (slot m obj i))

-- Value::from_int(n as i64) of a usize
abbrev pub from_usize : ℕ → Value
from_usize n = from_int (as_signed u64_mod n)

abbrev pub bslot : Regs → ℕ → ℕ
bslot regs k = regs.frame + frame_receiver + k

-- Bytecode numbering: slot 0 is the receiver.
abbrev pub get : Vm → Regs → ℕ → Value
get vm regs k = slot vm.heap.mem regs.stack (bslot regs k)

abbrev pub put : Vm → Regs → ℕ → Value → Vm
put vm regs k v = with_mem vm (set_slot_raw vm.heap.mem regs.stack (bslot regs k) v)

-- The address of an optional part of a method, 0 where it is nil.
abbrev part_or_zero : (nil v : Value) → ℕ
part_or_zero nil v = if v == nil then 0 else as_ptr v

unfoldable pub reload_code : Vm → Regs → Regs
reload_code vm regs =
    let m = vm.heap.mem in
    let method = slot m regs.stack (regs.frame + frame_method) in
    let ma = as_ptr method in
    record regs {
      method = method;
      code = as_ptr (slot m ma method_bytecodes);
      lits = part_or_zero (nil vm) (slot m ma method_literals);
      sites = part_or_zero (nil vm) (slot m ma method_send_sites);
    }

unfoldable pub load_regs : Vm → Regs
unfolding reload_code
load_regs vm =
    let m = vm.heap.mem in
    let p = as_ptr vm.active_process in
    reload_code vm (record {
      stack = as_ptr (slot m p process_stack);
      frame = slot_usize m p process_frame_offset;
      pc = slot_usize m p process_pc;
      method = nil vm;
      code = 0;
      lits = 0;
      sites = 0;
      epoch = vm.gc_epoch;
      closure_reg = none;
      halted = none;
    })

unfoldable pub save_regs : Vm → Regs → Vm
save_regs vm regs =
    let p = as_ptr vm.active_process in
    let m = set_slot_raw vm.heap.mem p process_frame_offset (from_usize regs.frame) in
    with_mem vm (set_slot_raw m p process_pc (from_usize regs.pc))

unfoldable pub refresh_regs : Vm → Regs → Regs
unfolding reload_code
refresh_regs vm regs =
    let p = as_ptr vm.active_process in
    let moved =
      reload_code vm (record regs { stack = as_ptr (slot vm.heap.mem p process_stack) }) in
    if regs.epoch == vm.gc_epoch then regs else record moved { epoch = vm.gc_epoch }

-- src/vm.rs: the header integer of a method.
abbrev pub method_header_bits : Vm → Value → ℤ
method_header_bits vm method = as_int (slot vm.heap.mem (as_ptr method) method_header)
