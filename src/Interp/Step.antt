-- ===== src/Interp/Step.antt =====
-- src/interp.rs: one instruction of the run loop, from the word at the program counter. The gated
-- counters, the snapshot that a test asks for, and the profiler are left out. Each group of
-- instructions answers `rest` where the opcode is none of its own.
use smallishtalk.Base.{
  ℕ, ◌+◌, ◌-◌, ◌*◌, ◌/◌, ◌%◌, ◌^◌, Bool, true, false, not, Option, none, some, [], ◌∷◌, get_or,
  ◌==◌, if◌then◌else◌,
}
use smallishtalk.Base.Int.{ℤ, pos, ltb_ℤ, ◌+ℤ◌}
use smallishtalk.Base.Words.{u16_mod, u64_mod, as_unsigned, as_signed}
use smallishtalk.Treaty.Opcodes
use smallishtalk.Treaty.Classes.{class_box}
use smallishtalk.Treaty.Words.{fmt_fixed}
use smallishtalk.Treaty.Layout.{
  special_sel_must_be_boolean, site_stride, site_selector, site_argc, site_static_class,
  closure_captured_base,
}
use smallishtalk.Value.{Value, as_int, as_ptr, is_ptr, from_int}
use smallishtalk.Heap.{slot, set_slot_raw}
use smallishtalk.Heap.Barrier.{store_slot}
use smallishtalk.SmallInt.{PrimOutcome, value, control, fail}
use smallishtalk.Vm.{Vm, nil, true_v, false_v}
use smallishtalk.Vm.MethodHeader.{method_argc}
use smallishtalk.Interp.{
  ok, err, fatal, break_executed, immediate_receiver, non_box, no_send_sites,
  capture_without_closure, Outcome, and_then, Regs, get, put, with_mem, method_header_bits,
}
use smallishtalk.Interp.Collect.{alloc_gc}
use smallishtalk.Interp.Unwind.{do_return}
use smallishtalk.Interp.Nlr.{do_nlr}
use smallishtalk.Interp.Send.{Env, do_send, send_staged}
use smallishtalk.Interp.Closure.{do_mkclosure}
use smallishtalk.Interp.Safepoint.{poll_safepoint}

-- The fields of an instruction word.
pub record Fields : Type 0 where
  pub op : ℕ
  pub a : ℕ
  pub b : ℕ
  pub c : ℕ
  pub d16 : ℕ

unfoldable pub fields_of : ℕ → Fields
fields_of word = record {
  op = word % 2 ^ 8;
  a = word / 2 ^ 8 % 2 ^ 8;
  b = word / 2 ^ 16 % 2 ^ 8;
  c = word / 2 ^ 24 % 2 ^ 8;
  d16 = word / 2 ^ 16 % 2 ^ 16;
}

-- What an instruction reads of the outside: the armed flag, and the time.
pub record Input : Type 0 where
  pub armed : Bool
  pub now : ℤ

abbrev pub done : Vm → Regs → Outcome (Vm × Regs)
done vm regs = some (ok (vm, regs))

abbrev pub polled : Input → Vm → Regs → Outcome (Vm × Regs)
polled input vm regs = some (ok (poll_safepoint input.armed input.now vm regs))

-- Data movement.
unfoldable pub exec_data : Env → Fields → Vm → Regs → Outcome (Vm × Regs) → Outcome (Vm × Regs)
unfolding alloc_gc
exec_data env i vm regs rest =
    let recv = get vm regs 0 in
    let to = λ (v : Value). done (put vm regs i.a v) regs in
    let store = λ (obj : Value) (k : ℕ).
      done (record vm { heap = store_slot vm.heap (as_ptr obj) k (get vm regs i.b) }) regs in
    if i.op == Opcodes.op_nop
    then done vm regs
    else if i.op == Opcodes.op_break
    then some (err (fatal break_executed))
    else if i.op == Opcodes.op_move
    then to (get vm regs i.b)
    else if i.op == Opcodes.op_loadk
    then to (slot vm.heap.mem regs.lits i.d16)
    else if i.op == Opcodes.op_loadint
    then to (from_int (as_signed u16_mod i.d16))
    else if i.op == Opcodes.op_loadnil
    then to (nil vm)
    else if i.op == Opcodes.op_loadtrue
    then to (true_v vm)
    else if i.op == Opcodes.op_loadfalse
    then to (false_v vm)
    else if i.op == Opcodes.op_loadself
    then to recv
    else if i.op == Opcodes.op_getivar
    then (if not (is_ptr recv)
        then some (err (fatal immediate_receiver))
        else to (slot vm.heap.mem (as_ptr recv) i.b))
    else if i.op == Opcodes.op_setivar
    then (if not (is_ptr recv) then some (err (fatal immediate_receiver)) else store recv i.a)
    else if i.op == Opcodes.op_getbox
    then (if not (is_ptr (get vm regs i.b))
        then some (err (fatal non_box))
        else to (slot vm.heap.mem (as_ptr (get vm regs i.b)) 0))
    else if i.op == Opcodes.op_setbox
    then (if not (is_ptr (get vm regs i.a))
        then some (err (fatal non_box))
        else store (get vm regs i.a) 0)
    else if i.op == Opcodes.op_mkbox
    then elim (alloc_gc env.collect_young env.collect_old vm regs class_box fmt_fixed 1) [
      | err e ↦ some (err e)
      | ok (box, vm1, regs1) ↦
          done
            (put (with_mem vm1 (set_slot_raw vm1.heap.mem box 0 (get vm1 regs1 i.b))) regs1 i.a box)
            regs1
    ]
    else rest

-- (regs.pc as isize + off) as usize
abbrev pub jumped : Regs → ℤ → Regs
jumped regs off = record regs { pc = as_unsigned u64_mod (as_signed u64_mod regs.pc +ℤ off) }

-- A jump, which polls where it goes back.
unfoldable pub jump : Input → Vm → Regs → (d16 : ℕ) → Outcome (Vm × Regs)
jump input vm regs d16 =
    let off = as_signed u16_mod d16 in
    if ltb_ℤ off (pos 0) then polled input vm (jumped regs off) else done vm (jumped regs off)

abbrev pub count_must_be_boolean : Vm → Vm
count_must_be_boolean vm =
    let c = vm.counters in
    record vm { counters = record c { must_be_boolean = c.must_be_boolean + 1 } }

-- A jump on a Boolean: what is neither is sent mustBeBoolean, and the jump is executed again.
unfoldable pub jump_if :
    Env → Input → Fields → (want other : Value) → Vm → Regs → Outcome (Vm × Regs)
unfolding jump send_staged
jump_if env input i want other vm regs =
    let v = get vm regs i.a in
    let sel = get_or vm.specials special_sel_must_be_boolean 0 in
    if v == want
    then jump input vm regs i.d16
    else if not (v == other)
    then send_staged env (count_must_be_boolean vm) (record regs { pc = regs.pc - 1 }) i.a sel
        (v ∷ [])
    else done vm regs

-- What follows the primitive of the current method: its body goes on where the primitive failed.
unfoldable pub after_prim : Env → (argc : ℕ) → PrimOutcome × Vm × Regs → Outcome (Vm × Regs)
unfolding do_return
after_prim env argc (value v, vm, regs) = do_return env.collect_old env.fuel vm regs v
after_prim env argc (control, vm, regs) = done vm regs
after_prim env argc (fail code, vm, regs) =
    done (put vm regs ((1 + argc) % 256) (from_int (pos code))) regs

unfoldable pub exec_control :
    Env
    → (send_cannot_return : Vm → Regs → (dest : ℕ) → (closure v : Value) → Outcome (Vm × Regs))
    → Input
    → Fields
    → Vm
    → Regs
    → Outcome (Vm × Regs)
    → Outcome (Vm × Regs)
unfolding jump jump_if do_return do_nlr after_prim and_then
exec_control env send_cannot_return input i vm regs rest =
    let argc = method_argc (method_header_bits vm regs.method) in
    if i.op == Opcodes.op_jump
    then jump input vm regs i.d16
    else if i.op == Opcodes.op_jumptrue
    then jump_if env input i (true_v vm) (false_v vm) vm regs
    else if i.op == Opcodes.op_jumpfalse
    then jump_if env input i (false_v vm) (true_v vm) vm regs
    else if i.op == Opcodes.op_ret
    then do_return env.collect_old env.fuel vm regs (get vm regs i.a)
    else if i.op == Opcodes.op_retself
    then do_return env.collect_old env.fuel vm regs (get vm regs 0)
    else if i.op == Opcodes.op_nlr
    then do_nlr env.collect_old send_cannot_return env.fuel vm regs i.a
    else if i.op == Opcodes.op_prim
    then and_then (env.run_primitive i.d16 vm regs 0 argc 0) (after_prim env argc)
    else rest

-- A send by the site that the instruction names.
unfoldable pub send_site : Env → Fields → (is_super : Bool) → Vm × Regs → Outcome (Vm × Regs)
unfolding do_send
send_site env i is_super (vm, regs) =
    let m = vm.heap.mem in
    let base = i.c * site_stride in
    let argc = as_unsigned u64_mod (as_int (slot m regs.sites (base + site_argc))) in
    let static_class =
      if is_super then some (slot m regs.sites (base + site_static_class)) else none in
    if regs.sites == 0
    then some (err (fatal no_send_sites))
    else do_send env vm regs i.a i.b (slot m regs.sites (base + site_selector)) argc (some base)
        static_class

unfoldable pub capture : Fields → Vm → Regs → Option ℕ → Outcome (Vm × Regs)
capture i vm regs none = some (err (fatal capture_without_closure))
capture i vm regs (some cl_slot) =
    let closure = as_ptr (get vm regs cl_slot) in
    done
      (record vm {
        heap = store_slot vm.heap closure (closure_captured_base + i.a) (get vm regs i.b);
      })
      regs

unfoldable pub exec_send :
    Env → Input → Fields → Vm → Regs → Outcome (Vm × Regs) → Outcome (Vm × Regs)
unfolding send_site capture poll_safepoint do_mkclosure
exec_send env input i vm regs rest =
    let at = poll_safepoint input.armed input.now vm regs in
    if i.op == Opcodes.op_send
    then send_site env i false at
    else if i.op == Opcodes.op_sendsuper
    then send_site env i true at
    else if i.op == Opcodes.op_mkclosure
    then some (do_mkclosure env.collect_young env.collect_old vm regs i.a i.d16)
    else if i.op == Opcodes.op_capture
    then capture i vm regs regs.closure_reg
    else rest
