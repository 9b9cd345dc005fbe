-- ===== src/Sched/Prims.antt =====
-- src/prims.rs: the primitives on semaphores and processes. A primitive answers its outcome with the
-- machine and the registers.
use smallishtalk.Base.{
  ℕ, ◌+◌, ◌%◌, [], ◌∷◌, ◌++◌, Bool, not, ◌&&◌, ◌||◌, Option, none, some, ◌==◌, if◌then◌else◌,
}
use smallishtalk.Base.Int.{ℤ, pos, ltb_ℤ, ◌+ℤ◌, ◌-ℤ◌}
use smallishtalk.Treaty.Classes.{class_semaphore}
use smallishtalk.Treaty.Layout.{
  process_stack, process_my_list, semaphore_queue_head, semaphore_queue_tail,
  semaphore_excess_signals,
}
use smallishtalk.Header
use smallishtalk.Value.{Value, as_int, as_ptr, is_int, is_ptr, from_int}
use smallishtalk.Heap.{slot, set_slot_raw, header}
use smallishtalk.SmallInt.{PrimOutcome, value, control, fail, fail_wrong_type}
use smallishtalk.Vm.{Vm, nil}
use smallishtalk.Interp.{Outcome, ok, and_then, Regs, get, save_regs, with_mem}
use smallishtalk.Interp.Switch.{transfer_to}
use smallishtalk.Sched.{
  enqueue_process, dequeue_process, make_runnable, priority_of, is_process,
  remove_process_from_its_list,
}
use smallishtalk.Sched.Waiting.{pick_next_or_wait}

abbrev pub Answer : Type 0
Answer = PrimOutcome × Vm × Regs

-- The switch to another process as the outcome of a primitive.
unfoldable pub switched : Vm → Regs → Value → Answer
unfolding transfer_to
switched vm regs target = let got = transfer_to vm regs target in (control, got.0, got.1)

unfoldable pub is_semaphore : Vm → Value → Bool
is_semaphore vm v =
    is_ptr v && (Header.class_index (header vm.heap.mem (as_ptr v)) == class_semaphore)

unfoldable pub has_no_stack : Vm → Value → Bool
has_no_stack vm p = slot vm.heap.mem (as_ptr p) process_stack == nil vm

unfoldable pub prim_transfer_to : Vm → Regs → (r : ℕ) → Answer
unfolding switched has_no_stack
prim_transfer_to vm regs r =
    let target = get vm regs r in
    if not (is_process vm target) || has_no_stack vm target
    then (fail fail_wrong_type, vm, regs)
    else switched vm regs target

abbrev pub excess_signals : Vm → Value → ℤ
excess_signals vm sem = as_int (slot vm.heap.mem (as_ptr sem) semaphore_excess_signals)

abbrev pub set_excess_signals : Vm → Value → ℤ → Vm
set_excess_signals vm sem n =
    with_mem vm (set_slot_raw vm.heap.mem (as_ptr sem) semaphore_excess_signals (from_int n))

abbrev pub count_block : Vm → Vm
count_block vm =
    let c = vm.counters in
    record vm { counters = record c { semaphore_blocks = c.semaphore_blocks + 1 } }

-- Run the next process in place of the current one.
unfoldable pub run_next : (fuel : ℕ) → (clock : ℕ → ℤ) → Vm → Regs → Outcome Answer
unfolding pick_next_or_wait and_then switched
run_next fuel clock vm regs =
    and_then (pick_next_or_wait fuel clock 0 vm) (λ got. some (ok (switched got.1 regs got.0)))

unfoldable pub prim_semaphore_wait :
    (fuel : ℕ) → (clock : ℕ → ℤ) → Vm → Regs → (r : ℕ) → Outcome Answer
unfolding is_semaphore run_next save_regs enqueue_process
prim_semaphore_wait fuel clock vm regs r =
    let sem = get vm regs r in
    let n = excess_signals vm sem in
    let saved = save_regs (count_block vm) regs in
    let blocked =
      enqueue_process saved sem semaphore_queue_head semaphore_queue_tail vm.active_process in
    if not (is_semaphore vm sem)
    then some (ok (fail fail_wrong_type, vm, regs))
    else if ltb_ℤ (pos 0) n
    then some (ok (value sem, set_excess_signals vm sem (n -ℤ pos 1), regs))
    else run_next fuel clock blocked regs

-- What a signal does with the waiter that it took off the queue.
unfoldable pub wake : Vm → Regs → (sem p : Value) → Answer
unfolding make_runnable switched
wake vm regs sem p =
    let cur = vm.active_process in
    if ltb_ℤ (priority_of vm cur) (priority_of vm p)
    then switched (make_runnable vm cur) regs p
    else (value sem, make_runnable vm p, regs)

-- A signal, after the dequeuing of a waiter.
unfoldable pub signal_by : Regs → (sem : Value) → Option Value × Vm → Answer
unfolding wake
signal_by regs sem (some p, vm) = wake vm regs sem p
signal_by regs sem (none, vm) =
    (value sem, set_excess_signals vm sem (excess_signals vm sem +ℤ pos 1), regs)

unfoldable pub prim_semaphore_signal : Vm → Regs → (r : ℕ) → Answer
unfolding is_semaphore dequeue_process signal_by
prim_semaphore_signal vm regs r =
    let sem = get vm regs r in
    if not (is_semaphore vm sem)
    then (fail fail_wrong_type, vm, regs)
    else signal_by regs sem (dequeue_process vm sem semaphore_queue_head semaphore_queue_tail)

-- The yielding process taken back, or another one.
unfoldable pub yield_to : Vm → Regs → (r : ℕ) → (cur next : Value) → Answer
unfolding switched
yield_to vm regs r cur next =
    if next == cur
    then (let vm' = with_mem vm (set_slot_raw vm.heap.mem (as_ptr cur) process_my_list (nil vm)) in
        (value (get vm' regs r), vm', regs))
    else switched vm regs next

unfoldable pub prim_yield : (fuel : ℕ) → (clock : ℕ → ℤ) → Vm → Regs → (r : ℕ) → Outcome Answer
unfolding make_runnable pick_next_or_wait and_then yield_to
prim_yield fuel clock vm regs r =
    let cur = vm.active_process in
    and_then (pick_next_or_wait fuel clock 0 (make_runnable vm cur))
      (λ got. some (ok (yield_to got.1 regs r cur got.0)))

unfoldable pub cannot_resume : Vm → Value → Bool
unfolding has_no_stack
cannot_resume vm p =
    not (is_process vm p)
    || (p == vm.active_process)
    || has_no_stack vm p
    || not (slot vm.heap.mem (as_ptr p) process_my_list == nil vm)

unfoldable pub prim_process_resume : Vm → Regs → (r : ℕ) → Answer
unfolding cannot_resume wake
prim_process_resume vm regs r =
    let p = get vm regs r in
    if cannot_resume vm p then (fail fail_wrong_type, vm, regs) else wake vm regs p p

-- `queue_fuel` bounds the search of the process in its queue.
unfoldable pub prim_process_suspend :
    (fuel queue_fuel : ℕ) → (clock : ℕ → ℤ) → Vm → Regs → (r : ℕ) → Outcome Answer
unfolding run_next save_regs
prim_process_suspend fuel queue_fuel clock vm regs r =
    let p = get vm regs r in
    if not (is_process vm p)
    then some (ok (fail fail_wrong_type, vm, regs))
    else if p == vm.active_process
    then run_next fuel clock (save_regs vm regs) regs
    else elim (remove_process_from_its_list queue_fuel vm p) [
      | some vm' ↦ some (ok (value p, vm', regs))
      | none ↦ none
    ]

-- A timer request, at the end of the list. The flag that the source arms besides is an input of the
-- interpreter.
unfoldable pub prim_signal_at_ms : Vm → Regs → (r : ℕ) → Answer
unfolding is_semaphore
prim_signal_at_ms vm regs r =
    let sem = get vm regs ((r + 1) % 256) in
    let ms = get vm regs ((r + 2) % 256) in
    let vm' = record vm { timer_requests = vm.timer_requests ++ (as_int ms, sem) ∷ [] } in
    if not (is_semaphore vm sem) || not (is_int ms)
    then (fail fail_wrong_type, vm, regs)
    else (value (get vm' regs r), vm', regs)
