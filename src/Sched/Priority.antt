-- ===== src/Sched/Priority.antt =====
-- src/prims.rs: the run queues by priority.
use smallishtalk.Base.{
  ℕ, zero, suc, ◌+◌, ◌<◌, ◌≡◌, refl, sym, ap, subst, ◌∙◌, inl, inr, Option, none, some, List, [],
  ◌∷◌, ◌==◌, arith, Bool-cases, true, false,
}
use smallishtalk.Treaty.Layout.{list_head, list_tail, num_priorities}
use smallishtalk.Value.{Value, as_ptr}
use smallishtalk.Heap.{Heap, slot}
use smallishtalk.Vm.{Vm, nil}
use smallishtalk.Sched.{
  dequeue_process, take_below, take_next_runnable, ceiling_below, runnable_priority_ceiling,
  run_queue, scheduler_queues_of,
}
use smallishtalk.Sched.Slots.{SlotLaws}
use smallishtalk.Sched.Queue.{IsList, Members, Queued}
use smallishtalk.Sched.Dequeue.{dequeue-nil, dequeue_process_lem, IsDequeued}

-- The queue at an index of the scheduler's array holds the given processes.
pub record IsRunQueue (IsSlot : ℕ → ℕ → Type 0) (vm : Vm) (prio : ℕ) (ps : List Value)
    : Type 0 where
  pub list : IsList IsSlot (run_queue vm prio) list_head list_tail
  pub members : Members IsSlot (nil vm) (run_queue vm prio) ps
  pub queued : Queued (slot vm.heap.mem) (nil vm) (run_queue vm prio) list_head list_tail ps

chosen :
    (got : Option Value × Vm) (x : Value) (other : Option Value × Vm)
    → got.0 ≡ some x
    → elim got.0 [ some p ↦ (some p, got.1) | none ↦ other ] ≡ got
chosen (none, vm) x other e = absurd (ground (arith, e))
chosen (some p, vm) x other e = refl

module _ {IsGood : Heap → Type 0} {IsSlot : ℕ → ℕ → Type 0} (laws : SlotLaws IsGood IsSlot)
    (vm : Vm) (good : IsGood vm.heap) (qs : ℕ → List Value) where
  abbrev queues : Value
  queues = scheduler_queues_of vm

  empty_dequeue :
      (prio : ℕ)
      → IsRunQueue IsSlot vm prio (qs prio)
      → qs prio ≡ []
      → dequeue_process vm (run_queue vm prio) list_head list_tail ≡ (none, vm)
  empty_dequeue prio r e =
      dequeue-nil laws vm (run_queue vm prio) list_head list_tail
        (subst
          (λ (ps : List Value).
            Queued (slot vm.heap.mem) (nil vm) (run_queue vm prio) list_head list_tail ps)
          e r.queued).head

  run-IsDequeued :
      (prio : ℕ) (x : Value) (xs : List Value)
      → IsRunQueue IsSlot vm prio (qs prio)
      → qs prio ≡ x ∷ xs
      → IsDequeued laws vm
          (run_queue vm prio)
          list_head
          list_tail
          (x ∷ xs)
          (dequeue_process vm (run_queue vm prio) list_head list_tail)
  run-IsDequeued prio x xs r e =
      let s = subst (λ (ps : List Value). IsRunQueue IsSlot vm prio ps) e r in
      dequeue_process_lem laws vm (run_queue vm prio) list_head list_tail (x ∷ xs) good s.list
        s.members s.queued

  first-run :
      (prio : ℕ) (x : Value) (xs : List Value)
      → IsRunQueue IsSlot vm prio (qs prio)
      → qs prio ≡ x ∷ xs
      → (dequeue_process vm (run_queue vm prio) list_head list_tail).0 ≡ some x
  first-run prio x xs r e = (run-IsDequeued prio x xs r e).0

  -- Empty queues of higher priority are passed by.
  take_below-highest :
      (n k : ℕ) (x : Value) (xs : List Value)
      → k < n
      → ((j : ℕ) → j < n → IsRunQueue IsSlot vm j (qs j))
      → ((j : ℕ) → k < j → j < n → qs j ≡ [])
      → qs k ≡ x ∷ xs
      → take_below n vm queues ≡ dequeue_process vm (run_queue vm k) list_head list_tail
  unfolding take_below as_ptr
  take_below-highest zero k x xs h r above e = absurd (omega arith)
  take_below-highest (suc n) k x xs h r above e = elim (Bool-cases (n == k)) [
    | inl here ↦
        let same : n ≡ k = ground arith in
        chosen _ x _ (first-run n x xs (r n (omega arith)) (ap qs same ∙ e))
        ∙ ap (λ (j : ℕ). dequeue_process vm (run_queue vm j) list_head list_tail) same
    | inr other ↦
        ap
          (λ (got : Option Value × Vm). elim got.0 [
            | some p ↦ (some p, got.1)
            | none ↦ take_below n got.1 queues
          ])
          (empty_dequeue n (r n (omega arith)) (above n (ground arith) (omega arith)))
        ∙ take_below-highest n k x xs (ground arith) (λ j l. r j (omega arith))
            (λ j l m. above j l (omega arith)) e
  ]

  ceiling_below-highest :
      (n k : ℕ) (x : Value) (xs : List Value)
      → k < n
      → ((j : ℕ) → j < n → IsRunQueue IsSlot vm j (qs j))
      → ((j : ℕ) → k < j → j < n → qs j ≡ [])
      → qs k ≡ x ∷ xs
      → ceiling_below n vm queues ≡ some (k + 1)
  unfolding ceiling_below as_ptr
  ceiling_below-highest zero k x xs h r above e = absurd (omega arith)
  ceiling_below-highest (suc n) k x xs h r above e = elim (Bool-cases (n == k)) [
    | inl here ↦
        let same : n ≡ k = ground arith in
        let s =
          subst (λ (ps : List Value). IsRunQueue IsSlot vm n ps) (ap qs same ∙ e)
            (r n (omega arith)) in
        let test : (slot vm.heap.mem (run_queue vm n) list_head == nil vm) ≡ false =
          ground (arith, s.queued.head, (s.members.each x (inl refl)).not_nil) in
        rw (test, same) refl
    | inr other ↦
        let s =
          subst (λ (ps : List Value). IsRunQueue IsSlot vm n ps)
            (above n (ground arith) (omega arith)) (r n (omega arith)) in
        let test : (slot vm.heap.mem (run_queue vm n) list_head == nil vm) ≡ true =
          ground (arith, s.queued.head) in
        rw test (
          ceiling_below-highest n k x xs (ground arith) (λ j l. r j (omega arith))
            (λ j l m. above j l (omega arith)) e)
  ]

  -- Where `k` is the highest priority with a runnable process, the scheduler takes the first process
  -- of that queue, unlinks it and leaves the others in order, and the ceiling is that priority,
  -- counted from one.
  pub take_next_runnable_lem :
      (k : ℕ) (x : Value) (xs : List Value)
      → k < num_priorities
      → ((j : ℕ) → j < num_priorities → IsRunQueue IsSlot vm j (qs j))
      → ((j : ℕ) → k < j → j < num_priorities → qs j ≡ [])
      → qs k ≡ x ∷ xs
      → IsDequeued laws vm (run_queue vm k) list_head list_tail (x ∷ xs) (take_next_runnable vm)
        × (runnable_priority_ceiling vm ≡ some (k + 1))
  unfolding take_next_runnable runnable_priority_ceiling
  take_next_runnable_lem k x xs h r above e = (
    subst (IsDequeued laws vm (run_queue vm k) list_head list_tail (x ∷ xs))
        (sym (take_below-highest num_priorities k x xs h r above e))
        (run-IsDequeued k x xs (r k h) e),
    ceiling_below-highest num_priorities k x xs h r above e,
  )
