-- ===== src/Interp/Switch.antt =====
-- src/interp.rs: the switch to another process.
use smallishtalk.Base.{ℕ, ◌+◌, not, ◌&&◌, get_or, ◌==◌, if◌then◌else◌}
use smallishtalk.Treaty.Layout.{process_stack, scheduler_active_process, special_processor}
use smallishtalk.Value.{Value, as_ptr, is_ptr}
use smallishtalk.Heap.{Heap, slot, in_old_space}
use smallishtalk.Heap.Barrier.{is_remembered, remember, store_slot}
use smallishtalk.Vm.{Vm, nil}
use smallishtalk.Interp.{Regs, load_regs, save_regs}

abbrev pub count_switch : Vm → Vm
count_switch vm =
    let c = vm.counters in
    record vm { counters = record c { process_switches = c.process_switches + 1 } }

-- A stack in old space that stops running has to be in the remembered set.
unfoldable pub remember_stack : Heap → ℕ → Heap
remember_stack h sa =
    if in_old_space h sa then (if is_remembered h.mem sa then h else remember h sa) else h

unfoldable pub leave_process : Vm → Regs → Vm
unfolding save_regs remember_stack
leave_process vm regs =
    let cur = vm.active_process in
    let stack = slot vm.heap.mem (as_ptr cur) process_stack in
    let vm' = save_regs vm regs in
    if is_ptr cur && not (cur == nil vm) && not (stack == nil vm)
    then record vm' { heap = remember_stack vm'.heap (as_ptr stack) }
    else vm

unfoldable pub enter_process : Vm → Value → Vm
enter_process vm target =
    let sched = get_or vm.specials special_processor 0 in
    record vm {
      heap = store_slot vm.heap (as_ptr sched) scheduler_active_process target;
      active_process = target;
    }

unfoldable pub transfer_to : Vm → Regs → Value → Vm × Regs
unfolding leave_process enter_process load_regs
transfer_to vm regs target =
    let vm' = enter_process (leave_process (count_switch vm) regs) target in (vm', load_regs vm')
