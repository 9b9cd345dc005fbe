-- ===== src/Sched/Timers.antt =====
-- src/prims.rs: the timer service.
use smallishtalk.Base.{
  true≢false, ℕ, ◌≡◌, refl, sym, ap, ◌∙◌, ◌⊎◌, inl, inr, ◌↔◌, List, [], ◌∷◌, All, arith, Bool-cases,
  true, false,
}
use smallishtalk.Base.Int.{ℤ, ltb_ℤ}
use smallishtalk.Value.{Value}
use smallishtalk.Vm.{Vm}
use smallishtalk.Sched.{
  dequeue_process, enqueue_process, make_runnable, semaphore_signal_internal, partition_due,
  signal_all, service_timers, is_cons,
}

-- Membership among timer requests.
abbrev pub Requested : ℤ × Value → List (ℤ × Value) → Type 0
Requested r [] = ⊥
Requested r (q ∷ rs) = (r ≡ q) ⊎ Requested r rs

-- Signals leave the timer requests.
pub dequeue-timers :
    (vm : Vm) (list : Value) (hs ts : ℕ)
    → (dequeue_process vm list hs ts).1.timer_requests ≡ vm.timer_requests
unfolding dequeue_process
dequeue-timers vm list hs ts = ground arith

pub signal-timers :
    (vm : Vm) (sem : Value) → (semaphore_signal_internal vm sem).timer_requests ≡ vm.timer_requests
unfolding semaphore_signal_internal make_runnable enqueue_process
signal-timers vm sem = ground (arith, dequeue-timers vm sem 1 2)

pub signal_all-timers :
    (vm : Vm) (sems : List Value) → (signal_all vm sems).timer_requests ≡ vm.timer_requests
unfolding signal_all
signal_all-timers vm [] = refl
signal_all-timers vm (s ∷ ss) =
    signal_all-timers (semaphore_signal_internal vm s) ss ∙ signal-timers vm s

kept_requests :
    (now : ℤ) (rs : List (ℤ × Value)) (r : ℤ × Value)
    → Requested r (partition_due now rs).1 ↔ (Requested r rs × (ltb_ℤ now r.0 ≡ true))
unfolding partition_due
kept_requests now [] r = ((λ h. elim h [ ]), (λ h. elim h.0 [ ]))
kept_requests now ((t, sem) ∷ rs) r =
    let ih = kept_requests now rs r in
    elim (Bool-cases (ltb_ℤ now t)) [
      | inl later ↦ rw later (
        (λ h. elim h [
          | inl e ↦ (inl e, ap (λ (q : ℤ × Value). ltb_ℤ now q.0) e ∙ later)
          | inr i ↦ (inr (ih.0 i).0, (ih.0 i).1)
        ]),
        (λ h. elim h.0 [ inl e ↦ inl e | inr i ↦ inr (ih.1 (i, h.1)) ]),
      )
      | inr due ↦ rw due (
        (λ i. (inr (ih.0 i).0, (ih.0 i).1)),
        (λ h. elim h.0 [
          | inl e ↦ absurd (true≢false (sym h.1 ∙ ap (λ (q : ℤ × Value). ltb_ℤ now q.0) e ∙ due))
          | inr i ↦ ih.1 (i, h.1)
        ]),
      )
    ]

none_due :
    (now : ℤ) (rs : List (ℤ × Value))
    → is_cons (partition_due now rs).0 ≡ false ↔ All (λ (r : ℤ × Value). ltb_ℤ now r.0 ≡ true) rs
unfolding partition_due
none_due now [] = ((λ e. tt), (λ a. refl))
none_due now ((t, sem) ∷ rs) =
    let ih = none_due now rs in
    elim (Bool-cases (ltb_ℤ now t)) [
      | inl later ↦ rw later ((λ e. (refl, ih.0 e)), (λ a. ih.1 a.1))
      | inr due ↦ rw due ((λ e. absurd (true≢false e)), (λ a. absurd (true≢false (sym a.0))))
    ]

-- After the timer service exactly the requests with a deadline after `now` are left; it answers
-- false where that is all of them, and otherwise true.
pub service_timers_iff :
    (now : ℤ) (vm : Vm)
    → let served = service_timers now vm in
      ((r : ℤ × Value)
        → Requested r served.1.timer_requests
          ↔ (Requested r vm.timer_requests × (ltb_ℤ now r.0 ≡ true)))
      × (served.0 ≡ false ↔ All (λ (r : ℤ × Value). ltb_ℤ now r.0 ≡ true) vm.timer_requests)
unfolding service_timers
service_timers_iff now vm =
    let parts = partition_due now vm.timer_requests in
    let left = signal_all-timers (record vm { timer_requests = parts.1 }) parts.0 in
    ((λ r. rw left (kept_requests now vm.timer_requests r)), none_due now vm.timer_requests)
