-- ===== src/Sched.antt =====
-- src/prims.rs: processes and semaphores. A queue, of runnable processes or of the waiters of a
-- semaphore, is a list object with a head and a tail, linked through the processes. The time is a
-- parameter where the source reads the clock.
pub mod Slots
pub mod Links
pub mod Queue
pub mod Enqueue
pub mod Dequeue
pub mod Remove
pub mod Priority
pub mod Timers
pub mod Waiting
pub mod Progress
pub mod Terminate
pub mod Signals
pub mod Resume
pub mod Prims
pub mod Tests
mod Examples
use smallishtalk.Base.{
  ℕ, zero, suc, ◌+◌, ◌-◌, Bool, true, false, not, ◌&&◌, Option, none, some, List, [], ◌∷◌, ltb, leb,
  ◌==◌, if◌then◌else◌, get_or,
}
use smallishtalk.Base.Int.{ℤ, pos, negsuc, ltb_ℤ, ◌+ℤ◌}
use smallishtalk.Treaty.Classes.{class_semaphore, class_process}
use smallishtalk.Treaty.Layout.{
  process_next_link, process_my_list, process_priority, semaphore_queue_head, semaphore_queue_tail,
  semaphore_excess_signals, list_head, list_tail, scheduler_queues, num_priorities,
  special_processor,
}
use smallishtalk.Header
use smallishtalk.Value.{Value, as_int, as_ptr, is_ptr, from_int}
use smallishtalk.Heap.{Heap, slot, set_slot_raw, header}
use smallishtalk.Heap.Barrier.{store_slot}
use smallishtalk.Vm.{Vm, nil}

unfoldable pub enqueue_process : Vm → Value → (head_slot tail_slot : ℕ) → Value → Vm
enqueue_process vm list head_slot tail_slot p =
    let la = as_ptr list in
    let pa = as_ptr p in
    let h1 = store_slot vm.heap pa process_next_link (nil vm) in
    let h2 = store_slot h1 pa process_my_list list in
    let h3 =
      if slot h2.mem la head_slot == nil vm
      then store_slot h2 la head_slot p
      else store_slot h2 (as_ptr (slot h2.mem la tail_slot)) process_next_link p in
    record vm { heap = store_slot h3 la tail_slot p }

unfoldable pub dequeue_process : Vm → Value → (head_slot tail_slot : ℕ) → Option Value × Vm
dequeue_process vm list head_slot tail_slot =
    let la = as_ptr list in
    let head = slot vm.heap.mem la head_slot in
    let after = slot vm.heap.mem (as_ptr head) process_next_link in
    let h1 = store_slot vm.heap la head_slot after in
    let h2 = if after == nil vm then store_slot h1 la tail_slot (nil vm) else h1 in
    let h3 = store_slot h2 (as_ptr head) process_next_link (nil vm) in
    let h4 = store_slot h3 (as_ptr head) process_my_list (nil vm) in
    if head == nil vm then (none, vm) else (some head, record vm { heap = h4 })

unfoldable pub queue_slots_of : Vm → Value → ℕ × ℕ
queue_slots_of vm list =
    if Header.class_index (header vm.heap.mem (as_ptr list)) == class_semaphore
    then (semaphore_queue_head, semaphore_queue_tail)
    else (list_head, list_tail)

-- The search for `p` in its queue, and its unlinking there; `none` is a search that has not ended
-- when the fuel runs out.
unfoldable pub unlink_from :
    ℕ → Heap → (nil : Value) → (la head_slot tail_slot : ℕ) → (p prev cur : Value) → Option Heap
unlink_from zero h nil la head_slot tail_slot p prev cur = none
unlink_from (suc fuel) h nil la head_slot tail_slot p prev cur =
    let after = slot h.mem (as_ptr cur) process_next_link in
    let more = unlink_from fuel h nil la head_slot tail_slot p cur after in
    let h1 =
      if prev == nil
      then store_slot h la head_slot after
      else store_slot h (as_ptr prev) process_next_link after in
    let h2 = if after == nil then store_slot h1 la tail_slot prev else h1 in
    if cur == nil then some h else if cur == p then some h2 else more

unfoldable pub remove_process_from_its_list : ℕ → Vm → Value → Option Vm
unfolding unlink_from
remove_process_from_its_list fuel vm p =
    let list = slot vm.heap.mem (as_ptr p) process_my_list in
    let (hs, ts) = queue_slots_of vm list in
    let la = as_ptr list in
    let unlinked = unlink_from fuel vm.heap (nil vm) la hs ts p (nil vm) (slot vm.heap.mem la hs) in
    if list == nil vm then some vm else elim unlinked [
      | none ↦ none
      | some h ↦
          (let h1 = store_slot h (as_ptr p) process_next_link (nil vm) in
            some (record vm { heap = store_slot h1 (as_ptr p) process_my_list (nil vm) }))
    ]

-- self.heap.slot(sched.as_ptr(), SCHEDULER_QUEUES)
unfoldable pub scheduler_queues_of : Vm → Value
scheduler_queues_of vm =
    slot vm.heap.mem (as_ptr (get_or vm.specials special_processor 0)) scheduler_queues

abbrev pub run_queue : Vm → ℕ → Value
run_queue vm prio = slot vm.heap.mem (as_ptr (scheduler_queues_of vm)) prio

unfoldable pub priority_of : Vm → Value → ℤ
priority_of vm p = as_int (slot vm.heap.mem (as_ptr p) process_priority)

unfoldable pub is_process : Vm → Value → Bool
is_process vm v = is_ptr v && (Header.class_index (header vm.heap.mem (as_ptr v)) == class_process)

-- clamp(1, NUM_PRIORITIES as i64) as usize
unfoldable pub clamp_priority : ℤ → ℕ
clamp_priority (pos n) = if n == 0 then 1 else if ltb num_priorities n then num_priorities else n
clamp_priority (negsuc n) = 1

unfoldable pub make_runnable : Vm → Value → Vm
unfolding enqueue_process
make_runnable vm p =
    enqueue_process vm (run_queue vm (clamp_priority (priority_of vm p) - 1)) list_head list_tail p

-- for prio in (0..n).rev()
unfoldable pub take_below : ℕ → Vm → Value → Option Value × Vm
take_below zero vm queues = (none, vm)
take_below (suc prio) vm queues =
    let got = dequeue_process vm (slot vm.heap.mem (as_ptr queues) prio) list_head list_tail in
    let rest = take_below prio got.1 queues in elim got.0 [ some p ↦ (some p, got.1) | none ↦ rest ]

unfoldable pub take_next_runnable : Vm → Option Value × Vm
unfolding take_below scheduler_queues_of
take_next_runnable vm = take_below num_priorities vm (scheduler_queues_of vm)

unfoldable pub ceiling_below : ℕ → Vm → Value → Option ℕ
ceiling_below zero vm queues = none
ceiling_below (suc prio) vm queues =
    let q = slot vm.heap.mem (as_ptr queues) prio in
    let rest = ceiling_below prio vm queues in
    if not (slot vm.heap.mem (as_ptr q) list_head == nil vm) then some (prio + 1) else rest

unfoldable pub runnable_priority_ceiling : Vm → Option ℕ
unfolding ceiling_below scheduler_queues_of
runnable_priority_ceiling vm = ceiling_below num_priorities vm (scheduler_queues_of vm)

-- signal without preemption
unfoldable pub semaphore_signal_internal : Vm → Value → Vm
unfolding dequeue_process make_runnable
semaphore_signal_internal vm sem =
    let got = dequeue_process vm sem semaphore_queue_head semaphore_queue_tail in
    let vm' = got.1 in
    let h = vm'.heap in
    let n = as_int (slot h.mem (as_ptr sem) semaphore_excess_signals) in
    elim got.0 [
      | some p ↦ make_runnable vm' p
      | none ↦ record vm' {
        heap = record h {
          mem = set_slot_raw h.mem (as_ptr sem) semaphore_excess_signals (from_int (n +ℤ pos 1));
        };
      }
    ]

abbrev is_cons : List Value → Bool
is_cons [] = false
is_cons (v ∷ vs) = true

-- The requests that are due at `now`, and those that are not.
unfoldable pub partition_due : ℤ → List (ℤ × Value) → List Value × List (ℤ × Value)
partition_due now [] = ([], [])
partition_due now ((t, sem) ∷ rest) =
    let (due, keep) = partition_due now rest in
    if not (ltb_ℤ now t) then (sem ∷ due, keep) else (due, (t, sem) ∷ keep)

unfoldable pub signal_all : Vm → List Value → Vm
unfolding semaphore_signal_internal
signal_all vm [] = vm
signal_all vm (sem ∷ sems) = signal_all (semaphore_signal_internal vm sem) sems

unfoldable pub service_timers : ℤ → Vm → Bool × Vm
unfolding partition_due signal_all
service_timers now vm =
    let (due, keep) = partition_due now vm.timer_requests in
    (is_cons due, signal_all (record vm { timer_requests = keep }) due)
