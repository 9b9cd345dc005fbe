-- ===== src/Objects/Tests.antt =====
-- An example for the call of a block.
use smallishtalk.Base.{ℕ, ◌+◌, ◌≤◌, ◌≢◌, arith, none, ◌==◌, if◌then◌else◌}
use smallishtalk.Treaty.Frames.{frame_receiver}
use smallishtalk.Space.{Memory}
use smallishtalk.Value.{as_int, as_ptr}
use smallishtalk.Heap.{num_slots, slot_addr}
use smallishtalk.Treaty.Layout.{process_serial_counter}
use smallishtalk.Header
use smallishtalk.Vm.{Vm}
use smallishtalk.Vm.MethodHeader.{method_frame_slots}
use smallishtalk.Interp.{Result, ok, Regs, get, bslot}
use smallishtalk.Interp.Frames.{frame_slots_of}
use smallishtalk.Sched.Tests.{machine}
use smallishtalk.Objects.{block_of}
use smallishtalk.Objects.Block.{IsAnswered, prim_block_value-cases}

-- A stack of 200 slots at 1000, with the current frame at 20 and the closure 6000 in its slot 4,
-- whose block has five slots and no arguments.
abbrev words : Memory
words a =
    if a == 1000
    then 819200
    else if a == 1232
    then 6000
    else if a == 4008
    then 11
    else if a == 6000
    then 92358976733184
    else if a == 6008
    then 4000
    else 8

abbrev calling : Vm
calling =
    let h = machine.heap in
    record machine { active_process = 20000000; heap = record h { mem = words } }

abbrev regs : Regs
regs = record {
  stack = 1000;
  frame = 20;
  pc = 0;
  method = 8;
  code = 0;
  lits = 0;
  sites = 0;
  epoch = 0;
  closure_reg = none;
  halted = none;
}

abbrev no_collection : Vm → Result Vm
no_collection vm = ok vm

room :
    regs.frame + 4 + frame_receiver + frame_slots_of calling (block_of calling (get calling regs 4))
    ≤ num_slots calling.heap.mem regs.stack
unfolding method_frame_slots num_slots Header.num_slots_field as_int as_ptr
room = omega arith

-- The process is at 20000000, above the stack.
apart :
    (k : ℕ)
    → k ≤ 0
    → slot_addr 1000 (bslot regs (4 + k))
      ≢ slot_addr (as_ptr calling.active_process) process_serial_counter
unfolding as_ptr
apart k h e = omega (arith, h, e)

prim_block_value-cases_example : IsAnswered no_collection calling regs 4 0 2 0
prim_block_value-cases_example =
    prim_block_value-cases no_collection calling regs 4 0 2 0 room apart
