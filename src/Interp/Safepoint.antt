-- ===== src/Interp/Safepoint.antt =====
-- src/interp.rs: the safepoint: timers, and preemption by a process of a higher priority. Whether the
-- flag is armed and the time are inputs, since other threads write them; the profiler's samples are
-- left out.
use smallishtalk.Base.{ℕ, Bool, Option, none, some, if◌then◌else◌}
use smallishtalk.Base.Int.{ℤ, pos, ltb_ℤ}
use smallishtalk.Value.{Value}
use smallishtalk.Vm.{Vm}
use smallishtalk.Interp.{Regs, save_regs, refresh_regs}
use smallishtalk.Interp.Switch.{transfer_to}
use smallishtalk.Sched.{
  make_runnable, priority_of, runnable_priority_ceiling, service_timers, take_next_runnable,
}

-- The next runnable process, once the current one has been made runnable.
unfoldable pub switch_to_next : Regs → Option Value × Vm → Vm × Regs
unfolding transfer_to
switch_to_next regs (none, vm) = (vm, regs)
switch_to_next regs (some next, vm) = transfer_to vm regs next

unfoldable pub preempt : Vm → Regs → Option ℕ → Vm × Regs
unfolding switch_to_next make_runnable take_next_runnable
preempt vm regs none = (vm, regs)
preempt vm regs (some hp) =
    let cur = vm.active_process in
    if ltb_ℤ (priority_of vm cur) (pos hp)
    then switch_to_next regs (take_next_runnable (make_runnable vm cur))
    else (vm, regs)

unfoldable pub service_safepoint : (now : ℤ) → Vm → Regs → Vm × Regs
unfolding preempt service_timers runnable_priority_ceiling
service_safepoint now vm regs =
    let vm' = (service_timers now vm).1 in preempt vm' regs (runnable_priority_ceiling vm')

unfoldable pub poll_safepoint : (armed : Bool) → (now : ℤ) → Vm → Regs → Vm × Regs
unfolding service_safepoint save_regs refresh_regs
poll_safepoint armed now vm regs =
    let served = service_safepoint now (save_regs vm regs) regs in
    if armed then (served.0, refresh_regs served.0 served.1) else (vm, regs)
