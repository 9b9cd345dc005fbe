-- ===== src/Sched/Waiting.antt =====
-- src/prims.rs: the choice of the next process, which waits for a timer where none is runnable. The
-- time that the source reads in each round is a parameter, and so is its sleep left out, which
-- changes no state. `none` is a wait that has not ended when its fuel runs out.
use smallishtalk.Base.{
  ℕ, zero, suc, ◌+◌, List, [], ◌∷◌, Bool, Option, none, some, true, false, if◌then◌else◌,
}
use smallishtalk.Base.Int.{ℤ}
use smallishtalk.Value.{Value}
use smallishtalk.Vm.{Vm}
use smallishtalk.Interp.{Outcome, ok, err, fatal, deadlock}
use smallishtalk.Sched.{take_next_runnable, service_timers}

abbrev pub is_empty : List (ℤ × Value) → Bool
is_empty [] = true
is_empty (r ∷ rs) = false

-- A round, after the queues have been looked at; `more` is what remains of the loop.
unfoldable pub wait_round :
    (Vm → Outcome (Value × Vm)) → ℤ → Option Value × Vm → Outcome (Value × Vm)
unfolding service_timers
wait_round more now (some p, vm) = some (ok (p, vm))
wait_round more now (none, vm) =
    let next = more (service_timers now vm).1 in
    if is_empty vm.timer_requests then some (err (fatal deadlock)) else next

-- Round `n` and those after it.
unfoldable pub pick_next_or_wait : (fuel : ℕ) → (clock : ℕ → ℤ) → ℕ → Vm → Outcome (Value × Vm)
unfolding wait_round take_next_runnable
pick_next_or_wait zero clock n vm = none
pick_next_or_wait (suc fuel) clock n vm =
    wait_round (pick_next_or_wait fuel clock (n + 1)) (clock n) (take_next_runnable vm)
