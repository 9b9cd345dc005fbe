-- ===== src/Objects/Block.antt =====
-- src/prims.rs: the call of a block.
use smallishtalk.Base.{
  ℕ, ◌+◌, ◌<◌, ◌≤◌, ◌≡◌, ◌≢◌, ◌⊎◌, inl, inr, ap, ◌∙◌, arith, true, false, Bool-cases, not, ◌||◌,
  none, some, ltb, ltb→lt, ◌==◌, if_true, if_false,
}
use smallishtalk.Treaty.Frames.{frame_receiver, flag_blockctx}
use smallishtalk.Heap.{num_slots, slot_addr}
use smallishtalk.SmallInt.{control, fail, fail_wrong_type, fail_unsupported_context}
use smallishtalk.Vm.{Vm}
use smallishtalk.Interp.{Result, ok, Regs, get, bslot}
use smallishtalk.Interp.Frames.{frame_slots_of}
use smallishtalk.Treaty.Layout.{process_serial_counter}
use smallishtalk.Value.{as_ptr}
use smallishtalk.Interp.Entered.{IsBlockFrame, pushed-IsBlockFrame}
use smallishtalk.Interp.Pushed.{IsPushed, push_frame-IsPushed, push_frame-room}
use smallishtalk.Objects.{
  prim_block_value, is_closure, block_of, argc_of, fail_wrong_argc, pushed_control,
}

wrong_argc :
    (argc want count : ℕ)
    → not (argc == want) || not (count == want) ≡ true
    → (argc ≢ want) ⊎ (count ≢ want)
wrong_argc argc want count bad = ground (arith, bad)

right_argc :
    (argc want count : ℕ)
    → not (argc == want) || not (count == want) ≡ false
    → (argc ≡ want) × (count ≡ want)
right_argc argc want count good = ground (arith, good)

-- The cases of a call: refused with a code and the machine unchanged, or a frame pushed.
abbrev pub IsAnswered : (Vm → Result Vm) → Vm → Regs → (r argc dest want : ℕ) → Type 0
IsAnswered collect_old vm regs r argc dest want =
    ((r < frame_receiver)
      × (prim_block_value collect_old vm regs r argc dest want
          ≡ some (ok (fail fail_unsupported_context, vm, regs))))
    ⊎ ((frame_receiver ≤ r)
        × (is_closure vm (get vm regs r) ≡ false)
        × (prim_block_value collect_old vm regs r argc dest want
            ≡ some (ok (fail fail_wrong_type, vm, regs))))
    ⊎ ((frame_receiver ≤ r)
        × (is_closure vm (get vm regs r) ≡ true)
        × ((argc ≢ want) ⊎ (argc_of vm (block_of vm (get vm regs r)) ≢ want))
        × (prim_block_value collect_old vm regs r argc dest want
            ≡ some (ok (fail fail_wrong_argc, vm, regs))))
    ⊎ ((frame_receiver ≤ r)
        × (is_closure vm (get vm regs r) ≡ true)
        × (argc ≡ want)
        × (argc_of vm (block_of vm (get vm regs r)) ≡ want)
        × (vm1 : Vm) × (regs1 : Regs) × (prim_block_value collect_old vm regs r argc dest want
            ≡ some (ok (control, vm1, regs1)))
        × IsPushed vm1 regs1 regs r dest
        × IsBlockFrame vm1 regs1 vm regs (block_of vm (get vm regs r)) r argc)

module _ (collect_old : Vm → Result Vm) (vm : Vm) (regs : Regs) (r argc dest want : ℕ)
    (room : regs.frame + r + frame_receiver + frame_slots_of vm (block_of vm (get vm regs r))
      ≤ num_slots vm.heap.mem regs.stack)
    (apart : (k : ℕ)
      → k ≤ argc
      → slot_addr regs.stack (bslot regs (r + k))
        ≢ slot_addr (as_ptr vm.active_process) process_serial_counter) where
  -- A call of a block with `value` is refused, with the machine unchanged, where the arguments are
  -- not staged above the frame's control words, where the receiver is no closure, and where the
  -- number of arguments is not the one wanted or not the block's; each case has its code, and the
  -- first of them counts. Else a frame of the closure's block is pushed at slot `r`, that returns to
  -- the caller and is marked as a block's activation. It starts at the block's first instruction,
  -- with the closure and the arguments that were staged as its first slots and nil in the others. The
  -- stack has room for the frame, and the staged slots are apart from the process's serial counter.
  pub prim_block_value-cases : IsAnswered collect_old vm regs r argc dest want
  unfolding prim_block_value
  prim_block_value-cases =
      let block = block_of vm (get vm regs r) in
      let count = argc_of vm block in
      let called = push_frame-room collect_old vm regs block r dest argc none flag_blockctx room in
      elim (Bool-cases (ltb r frame_receiver)) [
        | inl low ↦ inl (ltb→lt r frame_receiver low, if_true _ _ low)
        | inr high ↦
            (let above : frame_receiver ≤ r = ground (arith, high) in
              elim (Bool-cases (is_closure vm (get vm regs r))) [
                | inr no_block ↦
                    inr (inl (above, no_block, if_false _ _ high ∙ if_true _ _ (ap not no_block)))
                | inl is_block ↦
                    (let here = if_false _ _ high ∙ if_false _ _ (ap not is_block) in
                      elim (Bool-cases (not (argc == want) || not (count == want))) [
                        | inl bad ↦ inr (
                            inr (
                              inl (
                                above,
                                is_block,
                                wrong_argc argc want count bad,
                                here ∙ if_true _ _ bad,
                              )))
                        | inr good ↦
                            (let (same, same_count) = right_argc argc want count good in
                              inr (
                                inr (
                                  inr (
                                    above,
                                    is_block,
                                    same,
                                    same_count,
                                    _,
                                    _,
                                    here ∙ if_false _ _ good ∙ ap pushed_control called,
                                    push_frame-IsPushed collect_old vm regs block r dest argc none
                                        flag_blockctx room (omega arith) _ _ called,
                                    pushed-IsBlockFrame vm regs block r dest argc apart,
                                  ))))
                      ])
              ])
      ]
