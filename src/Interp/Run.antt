-- ===== src/Interp/Run.antt =====
-- src/interp.rs: the specialized sends, and the run loop with the end of a process. `none` is a run
-- that has not ended when its fuel runs out.
use smallishtalk.Base.{
  ℕ, zero, suc, ◌+◌, ◌%◌, Bool, Option, none, some, List, [], ◌∷◌, ◌++◌, length, get_or, ◌==◌,
  if◌then◌else◌,
}
use smallishtalk.Base.Int.{ℤ}
use smallishtalk.Treaty.Opcodes
use smallishtalk.Treaty.Layout.{
  process_stack, process_my_list, specsel_plus, specsel_minus, specsel_times, specsel_int_div,
  specsel_mod, specsel_lt, specsel_gt, specsel_le, specsel_ge, specsel_eq, specsel_at,
  specsel_at_put, specsel_size, specsel_not,
}
use smallishtalk.Value.{Value, as_ptr}
use smallishtalk.Heap.{Heap, set_slot_raw, insn_at}
use smallishtalk.Heap.Barrier.{store_slot}
use smallishtalk.SmallInt.{
  add, sub, mul, fast_arith, fast_div, fast_mod, CompareOp, lt, gt, le, ge, eq_num, fast_compare,
}
use smallishtalk.Access.Fast.{at_fast, atput_fast, size_fast}
use smallishtalk.Vm.{Vm, nil, true_v, false_v, bool_v, class_of}
use smallishtalk.Interp.{
  ok, err, fatal, illegal_opcode, Outcome, and_then, Regs, get, put, load_regs,
}
use smallishtalk.Interp.Switch.{transfer_to, enter_process}
use smallishtalk.Interp.Collect.{drop_last}
use smallishtalk.Interp.Send.{Env, spec_slow}
use smallishtalk.Interp.Step.{Fields, fields_of, Input, done, exec_data, exec_control, exec_send}
use smallishtalk.Sched.Waiting.{pick_next_or_wait}

-- A result of the fast path into the destination, or the send of the selector.
unfoldable pub put_or_send :
    Env → Fields → (specsel : ℕ) → List ℕ → Vm → Regs → Option Value → Outcome (Vm × Regs)
unfolding spec_slow
put_or_send env i specsel slots vm regs (some v) = done (put vm regs i.a v) regs
put_or_send env i specsel slots vm regs none = spec_slow env vm regs specsel i.a slots

abbrev pub as_bool : Vm → Option Bool → Option Value
as_bool vm none = none
as_bool vm (some b) = some (bool_v vm b)

unfoldable pub not_value : Vm → Value → Option Value
not_value vm recv =
    if recv == true_v vm
    then some (false_v vm)
    else if recv == false_v vm
    then some (true_v vm)
    else none

unfoldable pub put_at : Env → Fields → Vm → Regs → Option (Value × Heap) → Outcome (Vm × Regs)
unfolding spec_slow
put_at env i vm regs (some (v, h)) = done (put (record vm { heap = h }) regs i.a v) regs
put_at env i vm regs none =
    spec_slow env vm regs specsel_at_put i.a (i.b ∷ i.c ∷ (i.c + 1) % 256 ∷ [])

unfoldable pub exec_special : Env → Fields → Vm → Regs → Outcome (Vm × Regs) → Outcome (Vm × Regs)
unfolding put_or_send put_at fast_arith fast_div fast_mod fast_compare not_value
exec_special env i vm regs rest =
    let x = get vm regs i.b in
    let y = get vm regs i.c in
    let two =
      λ (specsel : ℕ) (o : Option Value). put_or_send env i specsel (i.b ∷ i.c ∷ []) vm regs o in
    let one = λ (specsel : ℕ) (o : Option Value). put_or_send env i specsel (i.b ∷ []) vm regs o in
    let compare =
      λ (specsel : ℕ) (op : CompareOp). two specsel (as_bool vm (fast_compare op x y)) in
    if i.op == Opcodes.op_add
    then two specsel_plus (fast_arith add x y)
    else if i.op == Opcodes.op_sub
    then two specsel_minus (fast_arith sub x y)
    else if i.op == Opcodes.op_mul
    then two specsel_times (fast_arith mul x y)
    else if i.op == Opcodes.op_div
    then two specsel_int_div (fast_div x y)
    else if i.op == Opcodes.op_mod
    then two specsel_mod (fast_mod x y)
    else if i.op == Opcodes.op_lt
    then compare specsel_lt lt
    else if i.op == Opcodes.op_gt
    then compare specsel_gt gt
    else if i.op == Opcodes.op_le
    then compare specsel_le le
    else if i.op == Opcodes.op_ge
    then compare specsel_ge ge
    else if i.op == Opcodes.op_eqnum
    then compare specsel_eq eq_num
    else if i.op == Opcodes.op_ideq
    then done (put vm regs i.a (bool_v vm (x == y))) regs
    else if i.op == Opcodes.op_at
    then two specsel_at (at_fast vm.heap.mem x y)
    else if i.op == Opcodes.op_atput
    then put_at env i vm regs (atput_fast vm.heap x y (get vm regs ((i.c + 1) % 256)))
    else if i.op == Opcodes.op_size
    then one specsel_size (size_fast vm.heap.mem x)
    else if i.op == Opcodes.op_classof
    then done (put vm regs i.a (class_of vm x)) regs
    else if i.op == Opcodes.op_not
    then one specsel_not (not_value vm x)
    else rest

abbrev keep_closure_reg : (op : ℕ) → Regs → Regs
keep_closure_reg op regs =
    if op == Opcodes.op_mkclosure
    then regs
    else if op == Opcodes.op_capture
    then regs
    else record regs { closure_reg = none }

module _ (env : Env)
    (send_cannot_return : Vm → Regs → (dest : ℕ) → (closure v : Value) → Outcome (Vm × Regs)) where
  unfoldable pub execute : Input → Fields → Vm → Regs → Outcome (Vm × Regs)
  unfolding exec_data exec_control exec_send exec_special
  execute input i vm regs = exec_data env i vm regs (
      exec_control env send_cannot_return input i vm regs (
        exec_send env input i vm regs
          (exec_special env i vm regs (some (err (fatal illegal_opcode))))))

  -- One round of the loop, up to the test of `halted`.
  unfoldable pub step : Input → Vm → Regs → Outcome (Vm × Regs)
  unfolding fields_of execute and_then
  step input vm regs =
      let i = fields_of (insn_at vm.heap.mem regs.code regs.pc) in
      and_then (execute input i vm (record regs { pc = regs.pc + 1 }))
        (λ got. some (ok (got.0, keep_closure_reg i.op got.1)))

  -- The active process's base frame has returned: it terminates.
  unfoldable pub end_process : Vm → Vm
  end_process vm =
      let cur = as_ptr vm.active_process in
      let h = store_slot vm.heap cur process_stack (nil vm) in
      record vm { heap = record h { mem = set_slot_raw h.mem cur process_my_list (nil vm) } }

  -- The loop; `target_slot` is the root that tracks the process of the run, and `clock n` the times
  -- that are read while round `n` waits.
  unfoldable pub run_loop :
      (fuel : ℕ)
      → (inputs : ℕ → Input) → (clock : ℕ → ℕ → ℤ) → ℕ
      → (target_slot : ℕ) → Vm
      → Regs
      → Outcome (Value × Vm)
  unfolding step end_process pick_next_or_wait transfer_to and_then
  run_loop zero inputs clock n target_slot vm regs = none
  run_loop (suc fuel) inputs clock n target_slot vm regs =
      and_then (step (inputs n) vm regs) (λ got. elim (got.1.halted) [
        | none ↦ run_loop fuel inputs clock (n + 1) target_slot got.0 got.1
        | some v ↦
            (let ended = end_process got.0 in
              if ended.active_process == get_or ended.temp_roots target_slot 0
              then some (ok (v, ended))
              else and_then (pick_next_or_wait fuel (clock n) 0 ended) (λ next.
                (let switched = transfer_to next.1 got.1 next.0 in
                  run_loop fuel inputs clock (n + 1) target_slot switched.0
                    (record (switched.1) { halted = none }))))
      ])

  -- Run a process until its base frame returns, with the process as a root of the collector.
  unfoldable pub run :
      (fuel : ℕ) → (inputs : ℕ → Input) → (clock : ℕ → ℕ → ℤ) → Vm → Value → Outcome (Value × Vm)
  unfolding run_loop enter_process load_regs and_then
  run fuel inputs clock vm process =
      let target_slot = length vm.temp_roots in
      let rooted = record vm { temp_roots = vm.temp_roots ++ process ∷ [] } in
      let entered = enter_process rooted process in
      and_then (run_loop fuel inputs clock 0 target_slot entered (load_regs entered))
        (λ got. some (ok (got.0, record (got.1) { temp_roots = drop_last got.1.temp_roots })))
