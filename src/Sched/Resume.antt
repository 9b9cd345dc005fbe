-- ===== src/Sched/Resume.antt =====
-- src/prims.rs: which processes can be resumed, and what resuming one does to the run queues.
use smallishtalk.Base.{
  ℕ, ◌-◌, ◌≡◌, ◌≢◌, refl, ap, subst, ◌∙◌, ◌⊎◌, inl, inr, arith, Bool, Bool-cases, true, false, List,
  [], ◌∷◌, ◌++◌, In, if◌then◌else◌, if_true, if_false,
}
use smallishtalk.Base.Int.{ltb_ℤ}
use smallishtalk.Treaty.Layout.{list_head, list_tail, process_stack, process_my_list}
use smallishtalk.Value.{Value, as_ptr}
use smallishtalk.Heap.{Heap, slot}
use smallishtalk.SmallInt.{value, control, fail, fail_wrong_type}
use smallishtalk.Vm.{Vm, nil}
use smallishtalk.Interp.{Regs, get}
use smallishtalk.Interp.Switch.{transfer_to, enter_process}
use smallishtalk.Sched.{
  make_runnable, enqueue_process, priority_of, clamp_priority, run_queue, is_process,
}
use smallishtalk.Sched.Slots.{SlotLaws}
use smallishtalk.Sched.Queue.{IsMember, Queued}
use smallishtalk.Sched.Priority.{IsRunQueue}
use smallishtalk.Sched.Enqueue.{enqueue_process_lem}
use smallishtalk.Sched.Prims.{
  Answer, switched, has_no_stack, cannot_resume, wake, prim_process_resume,
}

-- A process that can be resumed: it is not the running one, it has a stack, and it stands in no list.
pub record IsResumable (vm : Vm) (p : Value) : Type 0 where
  pub process : is_process vm p ≡ true
  pub idle : p ≢ vm.active_process
  pub stacked : slot vm.heap.mem (as_ptr p) process_stack ≢ nil vm
  pub free : slot vm.heap.mem (as_ptr p) process_my_list ≡ nil vm

-- Whether the process goes before the running one.
abbrev pub is_above : Vm → Value → Bool
is_above vm p = ltb_ℤ (priority_of vm vm.active_process) (priority_of vm p)

-- The process that has to wait: the running one, where the other goes before it.
unfoldable pub woken : Vm → Value → Value
woken vm p = if is_above vm p then vm.active_process else p

-- The number of the run queue of a process.
abbrev pub queue_number : Vm → Value → ℕ
queue_number vm q = clamp_priority (priority_of vm q) - 1

-- The process `q` can be put into its run queue, in which are the processes `ps`.
pub record IsReady (IsGood : Heap → Type 0) (IsSlot : ℕ → ℕ → Type 0) (vm : Vm) (q : Value)
    (ps : List Value) : Type 0 where
  pub good : IsGood vm.heap
  pub queue : IsRunQueue IsSlot vm (queue_number vm q) ps
  pub member : IsMember IsSlot (nil vm) (run_queue vm (queue_number vm q)) q
  pub new : (b : Value) → In b ps → b ≢ q

-- The process stands last in its run queue.
abbrev pub IsLast : (Heap → Type 0) → (vm vm' : Vm) → Value → List Value → Type 0
IsLast IsGood vm vm' q ps =
    IsGood vm'.heap
    × Queued (slot vm'.heap.mem) (nil vm') (run_queue vm (queue_number vm q)) list_head list_tail
        (ps ++ q ∷ [])

-- The three answers of a resumption, by what the process is.
abbrev pub IsResumed :
    (Heap → Type 0) → (vm : Vm) → (regs : Regs) → (r : ℕ) → (ps : List Value) → Type 0
IsResumed IsGood vm regs r ps =
    let p = get vm regs r in
    let answer = prim_process_resume vm regs r in
    ((¬ IsResumable vm p) × (answer ≡ (fail fail_wrong_type, vm, regs)))
    ⊎ (IsResumable vm p
        × (is_above vm p ≡ true)
        × (vm' : Vm) × IsLast IsGood vm vm' vm.active_process ps
        × (answer ≡ switched vm' regs p)
        × (answer.0 ≡ control)
        × (answer.1.active_process ≡ p))
    ⊎ (IsResumable vm p
        × (is_above vm p ≡ false)
        × (vm' : Vm) × IsLast IsGood vm vm' p ps
        × (answer ≡ (value p, vm', regs))
        × (vm'.active_process ≡ vm.active_process))

refused : (vm : Vm) (p : Value) → cannot_resume vm p ≡ true → ¬ IsResumable vm p
unfolding cannot_resume has_no_stack
refused vm p no_way can = ground (arith, no_way, can.process, can.idle, can.stacked, can.free)

admitted : (vm : Vm) (p : Value) → cannot_resume vm p ≡ false → IsResumable vm p
unfolding cannot_resume has_no_stack
admitted vm p can = record {
  process = ground (arith, can);
  idle = λ e. ground (arith, can, e);
  stacked = λ e. ground (arith, can, e);
  free = ground (arith, can);
}

module _ {IsGood : Heap → Type 0} {IsSlot : ℕ → ℕ → Type 0} (laws : SlotLaws IsGood IsSlot) where
  make_runnable-IsLast :
      (vm : Vm) (q : Value) (ps : List Value)
      → IsReady IsGood IsSlot vm q ps
      → IsLast IsGood vm (make_runnable vm q) q ps
  unfolding make_runnable
  make_runnable-IsLast vm q ps ready =
      let put =
        enqueue_process_lem laws vm (run_queue vm (queue_number vm q)) list_head list_tail q ps
          ready.good ready.queue.list ready.member ready.queue.members ready.new
          ready.queue.queued in
      (put.0, put.1)

  module _ (vm : Vm) (regs : Regs) (r : ℕ) (ps : List Value)
      (ready : IsResumable vm (get vm regs r)
        → IsReady IsGood IsSlot vm (woken vm (get vm regs r)) ps) where
    abbrev p : Value
    p = get vm regs r

    -- `primProcessResume` fails, with nothing changed, exactly on what is not a process that is idle,
    -- has a stack and stands in no list. It runs the process at once exactly where its priority is
    -- above that of the running one, which then stands last in its run queue; else it puts the
    -- process last in its run queue and the running one goes on. The run queue of the process that
    -- has to wait is well formed and does not hold it yet.
    pub prim_process_resume-cases : IsResumed IsGood vm regs r ps
    unfolding prim_process_resume wake switched transfer_to enter_process make_runnable
        enqueue_process woken
    prim_process_resume-cases = elim (Bool-cases (cannot_resume vm p)) [
      | inl no_way ↦ inl (refused vm p no_way, if_true _ _ no_way)
      | inr free ↦
          (let can = admitted vm p free in
            elim (Bool-cases (is_above vm p)) [
              | inl above ↦
                  (let runs = if_false _ _ free ∙ if_true _ _ above in
                    let queue = make_runnable-IsLast vm vm.active_process ps (
                      subst (λ q. IsReady IsGood IsSlot vm q ps) (if_true _ _ above) (ready can)) in
                    inr (
                      inl (
                        can,
                        above,
                        make_runnable vm vm.active_process,
                        queue,
                        runs,
                        ap (λ (a : Answer). a.0) runs,
                        ap (λ (a : Answer). a.1.active_process) runs,
                      )))
              | inr low ↦
                  (let waits = if_false _ _ free ∙ if_false _ _ low in
                    let queue =
                      make_runnable-IsLast vm p ps (
                        subst (λ q. IsReady IsGood IsSlot vm q ps) (if_false _ _ low)
                          (ready can)) in
                    inr (inr (can, low, make_runnable vm p, queue, waits, refl)))
            ])
    ]
