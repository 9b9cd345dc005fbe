-- ===== src/Sched/Examples.antt =====
-- Examples for the semaphore and process primitives of src/prims.rs.
use smallishtalk.Base.{
  ℕ, ◌+◌, ◌*◌, ◌≡◌, ◌≢◌, refl, arith, inl, inr, [], ◌∷◌, true, none, some, ◌==◌, if◌then◌else◌,
}
use smallishtalk.Base.Int.{ℤ, pos}
use smallishtalk.Header
use smallishtalk.Space.{Memory}
use smallishtalk.Value.{as_ptr, as_int, is_ptr, from_int}
use smallishtalk.Heap.{slot}
use smallishtalk.SmallInt.{value}
use smallishtalk.Vm.{Vm, nil}
use smallishtalk.Interp.{ok, Regs, get}
use smallishtalk.Sched.{priority_of, is_process, scheduler_queues_of, clamp_priority}
use smallishtalk.Sched.Waiting.{pick_next_or_wait}
use smallishtalk.Sched.Progress.{Chosen, pick_next_or_wait-Chosen}
use smallishtalk.Sched.Prims.{
  is_semaphore, prim_semaphore_signal, prim_semaphore_wait, has_no_stack,
}
use smallishtalk.Sched.Signals.{prim_semaphore_wait-signal}
use smallishtalk.Sched.Slots.{IsOld, IsOldSlot}
use smallishtalk.Sched.Resume.{IsResumable, IsReady, IsResumed, woken, prim_process_resume-cases}
use smallishtalk.Sched.Tests.{
  machine, objects, size, laws, machine-IsOld, second-IsRunQueue, coming-IsMember,
}

abbrev tens : ℕ → ℤ
tens n = pos (n * 10)

pick_next_or_wait-Chosen_example : Chosen tens 0 machine (pick_next_or_wait 3 tens 0 machine)
pick_next_or_wait-Chosen_example =
    pick_next_or_wait-Chosen tens 3 0 1 machine (omega arith) (refl, (refl, tt)) (omega arith)

-- A semaphore at 504 with two signals kept, and a stack slot that holds it.
abbrev words : Memory
words a = if a == 504 then 109951162777600 else if a == 512 then 5 else if a == 1040 then 504 else 8

abbrev signalling : Vm
signalling = let h = machine.heap in record machine { heap = record h { mem = words } }

abbrev regs : Regs
regs = record {
  stack = 1000;
  frame = 0;
  pc = 0;
  method = 8;
  code = 0;
  lits = 0;
  sites = 0;
  epoch = 0;
  closure_reg = none;
  halted = none;
}

sem-is_semaphore : is_semaphore signalling (get signalling regs 0) ≡ true
unfolding is_semaphore is_ptr as_ptr Header.class_index
sem-is_semaphore = refl

none_waits : slot words (as_ptr (get signalling regs 0)) 1 ≡ nil signalling
unfolding as_ptr
none_waits = refl

two_signals : slot words (as_ptr (get signalling regs 0)) 0 ≡ from_int (pos 2)
unfolding as_ptr from_int
two_signals = refl

sem-apart : 1040 ≢ as_ptr (get signalling regs 0) + 8 + 0 * 8
unfolding as_ptr
sem-apart e = ground (arith, e)

prim_semaphore_wait-signal_example :
    (vm' : Vm) × (prim_semaphore_signal signalling regs 0
      ≡ (value (get signalling regs 0), vm', regs))
    × (prim_semaphore_wait 0 tens vm' regs 0
        ≡ some (ok (value (get signalling regs 0), signalling, regs)))
prim_semaphore_wait-signal_example =
    prim_semaphore_wait-signal signalling regs 0 2 sem-is_semaphore none_waits two_signals
      (omega arith) sem-apart 0 tens

-- The process in the stack slot has a stack and is in no list; its priority is 3, below the running
-- process's 4.
coming-IsResumable : IsResumable machine (get machine regs 0)
unfolding is_process is_ptr as_ptr Header.class_index has_no_stack
coming-IsResumable = record {
  process = refl;
  idle = λ e. ground (arith, e);
  stacked = λ e. ground (arith, e);
  free = refl;
}

coming-IsReady :
    IsReady
      (IsOld objects size)
      (IsOldSlot objects size)
      machine
      (woken machine (get machine regs 0))
      (20000048 ∷ [])
unfolding woken priority_of scheduler_queues_of as_ptr as_int clamp_priority
coming-IsReady = record {
  good = machine-IsOld;
  queue = second-IsRunQueue;
  member = coming-IsMember;
  new = λ b h. elim h [ inl e ↦ (λ z. ground (arith, e, z)) | inr n ↦ elim n [ ] ];
}

prim_process_resume-cases_example : IsResumed (IsOld objects size) machine regs 0 (20000048 ∷ [])
prim_process_resume-cases_example =
    prim_process_resume-cases laws machine regs 0 (20000048 ∷ []) (λ _. coming-IsReady)
