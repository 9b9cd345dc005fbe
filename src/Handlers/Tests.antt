-- ===== src/Handlers/Tests.antt =====
-- Examples for the exception primitives of src/prims.rs.
use smallishtalk.Base.{◌≡◌, refl, arith, none, some, [], ◌∷◌, ◌==◌, if◌then◌else◌}
use smallishtalk.Space.{Memory}
use smallishtalk.Value.{as_int, as_ptr, is_int, is_ptr, from_int}
use smallishtalk.Vm.{Vm}
use smallishtalk.Interp.{Regs, get}
use smallishtalk.Vm.MethodHeader.{method_handler_slot_base}
use smallishtalk.Interp.Unwind.{has_flag}
use smallishtalk.SmallInt.{value}
use smallishtalk.Sched.Tests.{machine}
use smallishtalk.Handlers.{prim_find_handler, is_armed}
use smallishtalk.Handlers.Search.{
  Ancestors, top, sub, Callers, base, called, Searched, current, nearest, has_class,
  prim_find_handler-nearest,
}

-- A stack at 1000 with the current frame at 20, called from the frame at 10, which is an armed
-- handler frame for the class 2000. The exception's class is 2040, below 2000.
abbrev words : Memory
words a =
    if a == 1088
    then 1
    else if a == 1104
    then 4000
    else if a == 1112
    then 3
    else if a == 1120
    then 2000
    else if a == 1128
    then 8
    else if a == 1136
    then 3
    else if a == 1168
    then 21
    else if a == 1192
    then 1
    else if a == 1208
    then 2040
    else if a == 2048
    then 2000
    else 8

abbrev raising : Vm
raising = let h = machine.heap in record machine { heap = record h { mem = words } }

abbrev regs : Regs
regs = record {
  stack = 1000;
  frame = 20;
  pc = 0;
  method = 8;
  code = 0;
  lits = 0;
  sites = 0;
  epoch = 0;
  closure_reg = none;
  halted = none;
}

exception-Ancestors : Ancestors raising (get raising regs 1) (2040 ∷ 2000 ∷ [])
unfolding is_ptr as_ptr
exception-Ancestors = sub 2040 (2000 ∷ []) refl (sub 2000 [] refl (top 8 refl))

frames-Callers : Callers raising regs 20 (20 ∷ 10 ∷ [])
unfolding is_int as_int
frames-Callers = called 20 (10 ∷ []) refl (base 10 refl)

from-Searched : Searched raising regs (get raising regs 2) (20 ∷ 10 ∷ [])
unfolding is_int
from-Searched = current (20 ∷ 10 ∷ []) refl frames-Callers

prim_find_handler-nearest_example : prim_find_handler 3 2 raising regs 0 ≡ some (value 21)
unfolding nearest is_armed has_class has_flag is_int as_int as_ptr from_int method_handler_slot_base
prim_find_handler-nearest_example =
    prim_find_handler-nearest 3 2 raising regs 0 (2040 ∷ 2000 ∷ []) (20 ∷ 10 ∷ [])
      exception-Ancestors (omega arith) from-Searched (omega arith)
