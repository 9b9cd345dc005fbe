-- ===== src/Sched/Signals.antt =====
-- src/prims.rs: signals of a semaphore taken by a wait.
use smallishtalk.Base.{
  ℕ, ◌+◌, ◌<◌, ◌^◌, ◌≡◌, ◌≢◌, sym, ap, ◌∙◌, arith, none, some, true, not, ◌&&◌, if_true, if_false,
  ◌==◌,
}
use mathlib.Core.Path.{fun_ext}
use smallishtalk.Base.Int.{ℤ, pos, ltb_ℤ, ◌+ℤ◌, ◌-ℤ◌}
use smallishtalk.Space.{Memory, write}
use smallishtalk.Treaty.Layout.{
  semaphore_queue_head, semaphore_queue_tail, semaphore_excess_signals,
}
use smallishtalk.Value.{Value, as_int, as_ptr, is_ptr, from_int}
use smallishtalk.Value.Tagging.{as_int-from_int}
use smallishtalk.Heap.{slot, slot_addr}
use smallishtalk.Heap.Barrier.Remembered.{write-ne}
use smallishtalk.Header
use smallishtalk.Treaty.Classes.{class_semaphore}
use smallishtalk.SmallInt.{value}
use smallishtalk.Vm.{Vm, nil}
use smallishtalk.Interp.{ok, Regs, get, bslot, with_mem}
use smallishtalk.Sched.{dequeue_process}
use smallishtalk.Sched.Prims.{
  is_semaphore, excess_signals, set_excess_signals, prim_semaphore_signal, prim_semaphore_wait,
  signal_by,
}

write_back : (m : Memory) (a w v : ℕ) → m a ≡ v → write (write m a w) a v ≡ m
write_back m a w v e = fun_ext λ b. ground (arith, e)

write-eq : (m : Memory) (a w : ℕ) → write m a w a ≡ w
write-eq m a w = ground arith

small_int : (n : ℕ) → n < 2 ^ 62 → as_int (from_int (pos n)) ≡ pos n
small_int n h = as_int-from_int (pos n) (ground arith)

one_more : (n : ℕ) → pos n +ℤ pos 1 ≡ pos (n + 1)
unfolding ◌+ℤ◌
one_more n = ground arith

one_less : (n : ℕ) → pos (n + 1) -ℤ pos 1 ≡ pos n
unfolding ◌-ℤ◌
one_less n = ground arith

none_waiting :
    (vm : Vm) (sem : Value)
    → slot vm.heap.mem (as_ptr sem) semaphore_queue_head ≡ nil vm
    → dequeue_process vm sem semaphore_queue_head semaphore_queue_tail ≡ (none, vm)
unfolding dequeue_process
none_waiting vm sem quiet =
    let head = slot vm.heap.mem (as_ptr sem) semaphore_queue_head in
    let empty : (head == nil vm) ≡ true = ground (arith, quiet) in if_true _ _ empty

module _ (vm : Vm) (regs : Regs) (r n : ℕ) (semaphore : is_semaphore vm (get vm regs r) ≡ true)
    (quiet : slot vm.heap.mem (as_ptr (get vm regs r)) semaphore_queue_head ≡ nil vm)
    (count : slot vm.heap.mem (as_ptr (get vm regs r)) semaphore_excess_signals ≡ from_int (pos n))
    (small : n + 1 < 2 ^ 62)
    (apart : slot_addr regs.stack (bslot regs r)
      ≢ slot_addr (as_ptr (get vm regs r)) semaphore_excess_signals) where
  abbrev sem : Value
  sem = get vm regs r

  abbrev counted : Vm
  counted = set_excess_signals vm sem (pos (n + 1))

  excess : excess_signals vm sem ≡ pos n
  excess = ap as_int count ∙ small_int n (omega arith)

  signalled : prim_semaphore_signal vm regs r ≡ (value sem, counted, regs)
  unfolding prim_semaphore_signal signal_by
  signalled =
      if_false _ _ (ap not semaphore)
      ∙ ap (λ got. signal_by regs sem got) (none_waiting vm sem quiet)
      ∙ ap (λ k. (value sem, set_excess_signals vm sem k, regs))
          (ap (λ k. k +ℤ pos 1) excess ∙ one_more n)

  -- The semaphore and its type after the signal.
  same_slot : get counted regs r ≡ sem
  same_slot =
      write-ne vm.heap.mem (slot_addr (as_ptr sem) semaphore_excess_signals)
        (from_int (pos (n + 1))) (slot_addr regs.stack (bslot regs r)) (λ e. apart (sym e))

  still_semaphore : is_semaphore counted sem ≡ true
  unfolding is_semaphore as_ptr
  still_semaphore =
      ap (λ h. is_ptr sem && (Header.class_index h == class_semaphore))
        (write-ne vm.heap.mem (slot_addr (as_ptr sem) semaphore_excess_signals)
          (from_int (pos (n + 1))) (as_ptr sem) (ground arith))
      ∙ semaphore

  excess_counted : excess_signals counted sem ≡ pos (n + 1)
  excess_counted =
      ap as_int (
        write-eq vm.heap.mem (slot_addr (as_ptr sem) semaphore_excess_signals)
          (from_int (pos (n + 1))))
      ∙ small_int (n + 1) small

  restored : set_excess_signals counted sem (pos n) ≡ vm
  restored =
      ap (λ m. with_mem vm m)
        (write_back vm.heap.mem (slot_addr (as_ptr sem) semaphore_excess_signals)
          (from_int (pos (n + 1))) (from_int (pos n)) count)

  waited :
      (fuel : ℕ) (clock : ℕ → ℤ)
      → prim_semaphore_wait fuel clock counted regs r ≡ some (ok (value sem, vm, regs))
  unfolding prim_semaphore_wait
  waited fuel clock =
      let now = get counted regs r in
      if_false _ _ (ap not (ap (is_semaphore counted) same_slot ∙ still_semaphore))
      ∙ if_true _ _ (
          ap (λ k. ltb_ℤ (pos 0) k) (ap (excess_signals counted) same_slot ∙ excess_counted)
          ∙ positive)
      ∙ ap
          (λ s.
            some (
              ok (value s, set_excess_signals counted s (excess_signals counted s -ℤ pos 1), regs)))
          same_slot
      ∙ ap (λ k. some (ok (value sem, set_excess_signals counted sem k, regs)))
          (ap (λ k. k -ℤ pos 1) excess_counted ∙ one_less n)
      ∙ ap (λ v. some (ok (value sem, v, regs))) restored
    where
      positive : ltb_ℤ (pos 0) (pos (n + 1)) ≡ true
      positive = ground arith

  -- On a semaphore that nobody waits for, a signal is kept and the next wait takes it: the signal
  -- answers the semaphore, and the wait answers it at once, with the machine as it was before both.
  -- The count has to be a SmallInteger that can be counted up, and the count's slot is no stack slot.
  pub prim_semaphore_wait-signal :
      (fuel : ℕ) (clock : ℕ → ℤ)
      → (vm' : Vm) × (prim_semaphore_signal vm regs r ≡ (value sem, vm', regs))
        × (prim_semaphore_wait fuel clock vm' regs r ≡ some (ok (value sem, vm, regs)))
  prim_semaphore_wait-signal fuel clock = (counted, signalled, waited fuel clock)
