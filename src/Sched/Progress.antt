-- ===== src/Sched/Progress.antt =====
-- src/prims.rs: the end of the wait for a runnable process.
use smallishtalk.Base.{
  true≢false, ℕ, zero, suc, ◌+◌, ◌≤◌, ◌≡◌, refl, sym, ap, subst, ◌∙◌, ◌⊎◌, inl, inr, List, [], ◌∷◌,
  All, arith, Bool-cases, Option, none, some, true, false, if_true, if_false, ◌==◌,
}
use smallishtalk.Base.Int.{ℤ, ltb_ℤ}
use smallishtalk.Treaty.Layout.{list_head, list_tail, num_priorities}
use smallishtalk.Value.{Value, as_ptr}
use smallishtalk.Heap.{slot}
use smallishtalk.Vm.{Vm}
use smallishtalk.Interp.{Outcome, ok, err, fatal, deadlock}
use smallishtalk.Sched.{
  dequeue_process, take_below, take_next_runnable, partition_due, service_timers,
  scheduler_queues_of,
}
use smallishtalk.Sched.Waiting.{is_empty, wait_round, pick_next_or_wait}
use smallishtalk.Sched.Timers.{dequeue-timers, signal_all-timers}

-- The requests of a list that are all due by a time.
abbrev pub AllDue : ℤ → List (ℤ × Value) → Type 0
AllDue now rs = All (λ (r : ℤ × Value). ltb_ℤ now r.0 ≡ false) rs

keep-AllDue :
    (now bound : ℤ) (rs : List (ℤ × Value))
    → AllDue bound rs
    → AllDue bound (partition_due now rs).1
unfolding partition_due
keep-AllDue now bound [] h = h
keep-AllDue now bound ((t, sem) ∷ rs) h = elim (Bool-cases (ltb_ℤ now t)) [
  | inl later ↦ rw later (h.0, keep-AllDue now bound rs h.1)
  | inr due ↦ rw due (keep-AllDue now bound rs h.1)
]

keep-none : (now : ℤ) (rs : List (ℤ × Value)) → AllDue now rs → (partition_due now rs).1 ≡ []
unfolding partition_due
keep-none now [] h = refl
keep-none now ((t, sem) ∷ rs) h = rw (h.0) (keep-none now rs h.1)

service-timers :
    (now : ℤ) (vm : Vm)
    → (service_timers now vm).1.timer_requests ≡ (partition_due now vm.timer_requests).1
unfolding service_timers
service-timers now vm =
    let parts = partition_due now vm.timer_requests in
    signal_all-timers (record vm { timer_requests = parts.1 }) parts.0

either-timers :
    (o : Option Value) (a : Vm) (rs : List (ℤ × Value)) (rest : Option Value × Vm)
    → a.timer_requests ≡ rs
    → rest.1.timer_requests ≡ rs
    → (let got : Option Value × Vm = elim o [ some p ↦ (some p, a) | none ↦ rest ] in
        got.1.timer_requests ≡ rs)
either-timers none a rs rest e f = f
either-timers (some p) a rs rest e f = e

take-timers :
    (n : ℕ) (vm : Vm) (queues : Value)
    → (take_below n vm queues).1.timer_requests ≡ vm.timer_requests
unfolding take_below
take-timers zero vm queues = refl
take-timers (suc n) vm queues =
    let got = dequeue_process vm (slot vm.heap.mem (as_ptr queues) n) list_head list_tail in
    let kept = dequeue-timers vm (slot vm.heap.mem (as_ptr queues) n) list_head list_tail in
    either-timers got.0 got.1 vm.timer_requests (take_below n got.1 queues) kept
      (take-timers n got.1 queues ∙ kept)

next-timers : (vm : Vm) → (take_next_runnable vm).1.timer_requests ≡ vm.timer_requests
unfolding take_next_runnable
next-timers vm = take-timers num_priorities vm (scheduler_queues_of vm)

-- The rounds of the wait from one machine to another: in each no process is runnable.
pub data Waits (clock : ℕ → ℤ) : ℕ → Vm → Vm → Type 0 where
  start : (n : ℕ) (vm : Vm) → Waits clock n vm vm
  round :
      (n : ℕ) (vm vm' vm0 : Vm)
      → take_next_runnable vm ≡ (none, vm')
      → Waits clock (n + 1) (service_timers (clock n) vm').1 vm0
      → Waits clock n vm vm0

-- A wait that ends: with a process that the scheduler took, or in a deadlock.
pub Chosen : (ℕ → ℤ) → ℕ → Vm → Outcome (Value × Vm) → Type 0
Chosen clock n vm o =
    ((p : Value) × (vm' : Vm) × (vm0 : Vm) × Waits clock n vm vm0
      × (take_next_runnable vm0 ≡ (some p, vm'))
      × (o ≡ some (ok (p, vm'))))
    ⊎ ((vm' : Vm) × (vm0 : Vm) × Waits clock n vm vm0
        × (take_next_runnable vm0 ≡ (none, vm'))
        × (vm0.timer_requests ≡ [])
        × (o ≡ some (err (fatal deadlock))))

empty_iff : (rs : List (ℤ × Value)) → is_empty rs ≡ true → rs ≡ []
empty_iff [] e = refl
empty_iff (r ∷ rs) e = absurd (true≢false (sym e))

module _ (clock : ℕ → ℤ) where
  Chosen-round :
      (n : ℕ) (vm vm' : Vm) (o : Outcome (Value × Vm))
      → take_next_runnable vm ≡ (none, vm')
      → Chosen clock (n + 1) (service_timers (clock n) vm').1 o
      → Chosen clock n vm o
  unfolding Chosen
  Chosen-round n vm vm' o e (inl (p, v, v0, w, t, q)) = inl (p, v, v0, round n vm vm' v0 e w, t, q)
  Chosen-round n vm vm' o e (inr (v, v0, w, t, l, q)) = inr (v, v0, round n vm vm' v0 e w, t, l, q)

  -- One round: it ends there, or goes on with the requests that are left.
  wait_round-Chosen :
      (more : Vm → Outcome (Value × Vm)) (n : ℕ) (vm : Vm) (got : Option Value × Vm)
      → take_next_runnable vm ≡ got
      → ((vm' : Vm)
          → take_next_runnable vm ≡ (none, vm')
          → is_empty vm'.timer_requests ≡ false
          → Chosen clock
              (n + 1)
              (service_timers (clock n) vm').1
              (more (service_timers (clock n) vm').1))
      → Chosen clock n vm (wait_round more (clock n) got)
  unfolding wait_round Chosen
  wait_round-Chosen more n vm (some p, vm') e go = inl (p, vm', vm, start n vm, e, refl)
  wait_round-Chosen more n vm (none, vm') e go = elim (Bool-cases (is_empty vm'.timer_requests)) [
    | inl empty ↦ inr (
      vm',
      vm,
      start n vm,
      e,
      sym (next-timers vm) ∙ ap (λ g. g.1.timer_requests) e ∙ empty_iff vm'.timer_requests empty,
      if_true _ _ empty,
    )
    | inr left ↦
        subst (Chosen clock n vm) (sym (if_false _ _ left))
          (Chosen-round n vm vm' (more (service_timers (clock n) vm').1) e (go vm' e left))
  ]

  -- Without timer requests the round ends.
  no_timers-Chosen :
      (fuel n : ℕ) (vm : Vm)
      → vm.timer_requests ≡ []
      → Chosen clock n vm (pick_next_or_wait (suc fuel) clock n vm)
  unfolding pick_next_or_wait
  no_timers-Chosen fuel n vm none_left =
      wait_round-Chosen (pick_next_or_wait fuel clock (n + 1)) n vm (take_next_runnable vm) refl
        (λ vm' e left. absurd (
          true≢false (
            sym (ap is_empty (sym (ap (λ g. g.1.timer_requests) e) ∙ next-timers vm ∙ none_left))
            ∙ left)))

  round-AllDue :
      (bound now : ℤ) (vm vm' : Vm)
      → take_next_runnable vm ≡ (none, vm')
      → AllDue bound vm.timer_requests
      → AllDue bound (service_timers now vm').1.timer_requests
  round-AllDue bound now vm vm' e due =
      let same : vm'.timer_requests ≡ vm.timer_requests =
        sym (ap (λ g. g.1.timer_requests) e) ∙ next-timers vm in
      rw (service-timers now vm') (rw same (keep-AllDue now bound vm.timer_requests due))

  -- The wait ends when the clock has, at some round, come to the last deadline: two rounds more are
  -- enough. It ends with a process that the scheduler took after rounds in which it had none and
  -- served the timers, or, after such rounds, in the error "deadlock", where no process is runnable
  -- and no timer request is left.
  pub pick_next_or_wait-Chosen :
      (fuel n last : ℕ) (vm : Vm)
      → n ≤ last
      → AllDue (clock last) vm.timer_requests
      → last + 2 ≤ n + fuel
      → Chosen clock n vm (pick_next_or_wait fuel clock n vm)
  unfolding pick_next_or_wait
  pick_next_or_wait-Chosen zero n last vm le due enough = absurd (omega arith)
  pick_next_or_wait-Chosen (suc zero) n last vm le due enough = absurd (omega arith)
  pick_next_or_wait-Chosen (suc (suc fuel)) n last vm le due enough =
      wait_round-Chosen (pick_next_or_wait (suc fuel) clock (n + 1)) n vm (take_next_runnable vm)
        refl
        (λ vm' e left. elim (Bool-cases (n == last)) [
          | inl same ↦
              let here : clock last ≡ clock n = ap clock (ground arith) in
              no_timers-Chosen fuel (n + 1) (service_timers (clock n) vm').1 (
                service-timers (clock n) vm'
                ∙ keep-none (clock n) vm'.timer_requests (
                    subst (λ rs. AllDue (clock n) rs)
                      (sym (next-timers vm) ∙ ap (λ g. g.1.timer_requests) e)
                      (subst (λ t. AllDue t vm.timer_requests) here due)))
          | inr other ↦
              pick_next_or_wait-Chosen (suc fuel) (n + 1) last (service_timers (clock n) vm').1
                (ground arith) (round-AllDue (clock last) (clock n) vm vm' e due) (omega arith)
        ])
