-- ===== src/Interp/Tests.antt =====
-- Examples for src/interp.rs.
use smallishtalk.Base.{
  ℕ, ◌+◌, ◌≤◌, ◌≡◌, ◌⊎◌, refl, arith, true, false, none, some, [], ◌∷◌, ◌==◌, if◌then◌else◌,
}
use smallishtalk.Base.Int.{pos}
use smallishtalk.Space.{Memory}
use smallishtalk.Header
use smallishtalk.Value.{Value, as_int, as_ptr, from_int, is_int}
use smallishtalk.Heap.{num_slots, slot}
use smallishtalk.Heap.Alloc
use smallishtalk.Vm.{Vm, default_entry}
use smallishtalk.Vm.MethodHeader.{method_frame_slots}
use smallishtalk.Interp.{
  Result, ok, err, out_of_memory, fatal, unwind_target_not_on_chain, unwind_past_base, Outcome,
  Regs, get, from_usize,
}
use smallishtalk.Interp.Frames.{frame_slots_of}
use smallishtalk.Interp.Push.{write_frame, retinfo_word}
use smallishtalk.Interp.Unwind.{
  do_return, has_flag, flags_at, caller_at, unwind_frames, unwind_and_return_from,
}
use smallishtalk.Interp.Nlr.{home_is_alive, do_nlr}
use smallishtalk.Interp.Pushed.{IsCall, push_frame-room}
use smallishtalk.Interp.Back.{IsBack}
use smallishtalk.Interp.Calls.{call_return}
use smallishtalk.Interp.Chain.{Chain as Frames, base, linked}
use smallishtalk.Interp.Rounds.{Ends, unwind_frames-Ends}
use smallishtalk.Vm.{class_index_of}
use smallishtalk.Vm.Lookup.{Chain, sub, top, first_method}
use smallishtalk.Vm.Cache.{IsCoherent}
use smallishtalk.Interp.Send.{Env, do_send, activate, do_not_understand, inline_hit}
use smallishtalk.Interp.Sites.{IsSound, IsSearched}
use smallishtalk.Interp.Found.{do_send-first_method}
use smallishtalk.Interp.Walk.{Walk, at_target, below_target, at_base, here, ran_out, up}
use smallishtalk.Interp.Landing.{unwind_and_return_from-fatal}
use smallishtalk.Interp.NonLocal.{do_nlr-IsBack}

-- A stack of 200 slots at 1000 with the frames at 1, at 10, called from 1 into 2, and at 20; nil is
-- at 8, and the process, with its stack, at 3000. The block at 20 is an activation of the closure at
-- 6000, whose home is the frame at 10. Its slot 2 has an object of class 7, at 7024, whose method
-- dictionary has the method 7304 for the selector 7200.
abbrev words : Memory
words a =
    if a == 1000
    then 819200
    else if a == 1016
    then 1
    else if a == 1040
    then 1
    else if a == 1088
    then 3
    else if a == 1096
    then 2565
    else if a == 1112
    then 60129542145
    else if a == 1168
    then 21
    else if a == 1192
    then 68719476737
    else if a == 1200
    then 6000
    else if a == 1216
    then 7400
    else if a == 1224
    then 155
    else if a == 3008
    then 1000
    else if a == 6016
    then 3000
    else if a == 6024
    then 21
    else if a == 6032
    then 15
    else if a == 7032
    then 8
    else if a == 7040
    then 7048
    else if a == 7056
    then 7096
    else if a == 7064
    then 7120
    else if a == 7096
    then 4398046515200
    else if a == 7104
    then 7200
    else if a == 7128
    then 7304
    else if a == 7400
    then 30786325577728
    else 0

abbrev machine : Vm
machine =
    let h = Alloc.new Alloc.default_config 65536 10000000 20000000 in
    record {
      heap = record h { mem = words };
      class_table = 0 ∷ 0 ∷ 0 ∷ 0 ∷ 0 ∷ 0 ∷ 0 ∷ 7024 ∷ [];
      specials = 8 ∷ [];
      active_process = 3000;
      site_registry = [];
      lookup_cache = λ _. default_entry;
      hash_counter = 0;
      timer_requests = [];
      counters = record {
        global_cache_miss = 0;
        dict_walks = 0;
        dict_classes_walked = 0;
        method_installs = 0;
        cache_flushes = 0;
        process_switches = 0;
        semaphore_blocks = 0;
        unwind_runs = 0;
        ensure_interceptions = 0;
        nlrs = 0;
        inline_cache_miss = 0;
        dnu = 0;
        must_be_boolean = 0;
        sends_staged = 0;
        spec_fallthrough = λ _. 0;
        gc_bytes_copied = 0;
        gc_bytes_tenured = 0;
        gc_ssb_drained = 0;
        gc_ssb_drained_max = 0;
        gc_remembered_rebuilt = 0;
      };
      gc_epoch = 0;
      max_stack_bytes = 65536;
      stack_grow_count = 0;
      temp_roots = [];
      symbols = [];
      tenure_threshold = 3;
      scavenge_count = 0;
    }

abbrev regs_at : ℕ → Regs
regs_at frame = record {
  stack = 1000;
  frame = frame;
  pc = 5;
  method = 4000;
  code = 0;
  lits = 0;
  sites = 0;
  epoch = 0;
  closure_reg = none;
  halted = none;
}

abbrev no_collection : Vm → Result Vm
no_collection vm = err out_of_memory

room : 10 + 4 + 4 + frame_slots_of machine 4000 ≤ num_slots words 1000
unfolding num_slots method_frame_slots Header.num_slots_field as_int as_ptr
room = omega arith

abbrev pushed : Vm × Regs
pushed = write_frame machine (regs_at 10) 4000 (frame_slots_of machine 4000) 4 2 0 none 0

call_return_example :
    (vm3 : Vm) × (regs3 : Regs) × (do_return no_collection 0 pushed.0 pushed.1 77
      ≡ some (ok (vm3, regs3)))
    × IsBack vm3 regs3 pushed.0.heap.mem (regs_at 10) 14 2 77
call_return_example =
    call_return no_collection machine (regs_at 10) 4000 4 2 0 none 0 room (omega arith)
      (omega arith) (omega arith) (omega arith) (omega arith) (omega arith) pushed.0 pushed.1
      (push_frame-room no_collection machine (regs_at 10) 4000 4 2 0 none 0 room) 0 pushed.0
      pushed.1 77 refl refl (λ k h. refl)

caller-20 : caller_at words 1000 20 ≡ pos 10
unfolding as_int
caller-20 = refl

caller-10 : caller_at words 1000 10 ≡ pos 1
unfolding as_int
caller-10 = refl

caller-1 : caller_at words 1000 1 ≡ pos 0
unfolding as_int
caller-1 = refl

no_flags :
    (has_flag (flags_at words 1000 1) 8 ≡ false)
    × (has_flag (flags_at words 1000 20) 2 ≡ false)
    × (has_flag (flags_at words 1000 10) 2 ≡ false)
    × (has_flag (flags_at words 1000 10) 8 ≡ false)
    × (has_flag (flags_at words 1000 1) 2 ≡ false)
unfolding as_int has_flag
no_flags = (refl, refl, refl, refl, refl)

chain : Frames words 1000 20
chain =
    linked 20 10 caller-20 (omega arith) (omega arith)
      (linked 10 1 caller-10 (omega arith) (omega arith) (base 1 caller-1 no_flags.0))

unwind_frames-Ends_example :
    Ends no_collection machine
      (regs_at 20)
      10
      77
      (unwind_frames no_collection 21 machine (regs_at 20) 10 77)
unwind_frames-Ends_example =
    unwind_frames-Ends no_collection 21 machine (regs_at 20) 10 77 (omega arith) (omega arith) chain

misses_base : Walk words 1000 0 20 at_base
misses_base = up 20 10 at_base (omega arith) no_flags.1 caller-20 (omega arith) (omega arith) (
    up 10 1 at_base (omega arith) no_flags.2 caller-10 (omega arith) (omega arith)
      (ran_out 1 (omega arith) no_flags.4 caller-1))

unwind_and_return_from-fatal_example :
    ((at_base ≡ below_target)
      × (unwind_and_return_from no_collection 21 machine (regs_at 20) 0 77
          ≡ some (err (fatal unwind_target_not_on_chain))))
    ⊎ ((at_base ≡ at_base)
        × (unwind_and_return_from no_collection 21 machine (regs_at 20) 0 77
            ≡ some (err (fatal unwind_past_base))))
unwind_and_return_from-fatal_example =
    unwind_and_return_from-fatal no_collection 21 machine (regs_at 20) 0 77 at_base (omega arith)
      (omega arith) misses_base (λ e. ground (arith, e))

walk : Walk words 1000 10 20 at_target
walk = up 20 10 at_target (omega arith) no_flags.1 caller-20 (omega arith) (omega arith) here

call : IsCall words (regs_at 1) 10 2
unfolding from_int retinfo_word as_int has_flag
call = record { caller = refl; retinfo = refl; flags = refl }

alive : home_is_alive machine (regs_at 20) (as_ptr (get machine (regs_at 20) 0)) ≡ true
unfolding home_is_alive as_ptr is_int as_int
alive = refl

home : slot words (as_ptr 6000) 2 ≡ from_usize 10
unfolding as_ptr from_int
home = refl

abbrev no_send : Vm → Regs → (dest : ℕ) → (closure value : Value) → Outcome (Vm × Regs)
no_send vm regs dest closure value = none

do_nlr-IsBack_example :
    (vm' : Vm) × (regs' : Regs) × (do_nlr no_collection no_send 21 machine (regs_at 20) 3
      ≡ some (ok (vm', regs')))
    × IsBack vm' regs' words (regs_at 1) 10 2 (get machine (regs_at 20) 3)
do_nlr-IsBack_example =
    do_nlr-IsBack no_collection no_send 21 machine (regs_at 20) (regs_at 1) 3 10 2 alive home
      (omega arith) (omega arith) walk (omega arith) call refl (omega arith) (omega arith)
      (omega arith) (omega arith) (omega arith)

abbrev env : Env
env = record {
  collect_young = no_collection;
  collect_old = no_collection;
  run_primitive = λ n vm regs r argc dest. none;
  fuel = 5;
}

abbrev sending : Regs
sending = let regs = regs_at 20 in record regs { sites = 7500 }

receiver : class_index_of machine (get machine sending 2) ≡ 7
unfolding class_index_of is_int as_ptr Header.class_index
receiver = refl

chain_7 : Chain machine 7024 (7024 ∷ [])
unfolding as_ptr
chain_7 = sub 7024 8 [] (λ e. ground (arith, e)) refl (top 8 refl)

-- The site at 7500 is empty.
empty-IsSound : IsSound 5 machine machine sending (some 0) 7200
unfolding inline_hit as_int
empty-IsSound = record { entry = λ c m ne hit. absurd (ground (arith, ne, hit)) }

do_send-first_method_example :
    (vm' : Vm) × IsSearched 5 machine vm' sending (some 0) 7200
    × (((m : Value) × ((first_method machine 7200 (7024 ∷ [])).0 ≡ some m)
          × ((base : ℕ)
              → some 0 ≡ some base
              → inline_hit vm' sending (some 0) (class_index_of machine (get machine sending 2))
                ≡ some m)
          × (do_send env machine sending 1 2 7200 0 (some 0) none
              ≡ activate env vm' sending m 2 1 0))
        ⊎ (((first_method machine 7200 (7024 ∷ [])).0 ≡ none)
            × (do_send env machine sending 1 2 7200 0 (some 0) none
                ≡ do_not_understand env vm' sending 1 2 7200 0)
            × IsCoherent 5 vm'))
do_send-first_method_example =
    do_send-first_method env machine sending 1 2 7200 0 (some 0)
      (record { entries = λ i ne. absurd (ne refl) }) (λ e. ground (arith, receiver, e))
      (rw receiver chain_7) (omega arith) empty-IsSound
