-- ===== src/Interp/Send.antt =====
-- src/interp.rs: sends, from the caches to the activation of the method found. The primitives, which
-- src/prims.rs dispatches, and the collections, which src/gc.rs does, are parameters. `none` is a
-- search for a method, or the growth of a stack, that has not ended when its fuel runs out.
use smallishtalk.Base.{
  ℕ, zero, suc, ◌+◌, ◌-◌, ◌%◌, Option, none, some, List, [], ◌∷◌, ◌++◌, length, map, get_or, ltb,
  ◌==◌, if◌then◌else◌, ◌>>=◌,
}
use smallishtalk.Base.Int.{pos}
use smallishtalk.Treaty.Classes.{class_array, class_message}
use smallishtalk.Treaty.Words.{fmt_ptrs, fmt_fixed}
use smallishtalk.Treaty.Frames.{frame_receiver}
use smallishtalk.Treaty.Layout.{
  special_sel_does_not_understand, special_specialized_selectors, site_cache_class,
  site_cache_method,
}
use smallishtalk.Value.{Value, as_int, as_ptr, from_int}
use smallishtalk.Heap.{slot, set_slot_raw}
use smallishtalk.Heap.Barrier.{store_slot}
use smallishtalk.SmallInt.{PrimOutcome, value, control, fail, eq_ℤ}
use smallishtalk.Vm.{Vm, class_index_of, lookup_cached, lookup_method_above}
use smallishtalk.Vm.MethodHeader.{method_primitive}
use smallishtalk.Interp.{
  Result, ok, err, fatal, does_not_understand, staging_exceeds_limit, Outcome, and_then, Regs, get,
  put, with_mem, method_header_bits,
}
use smallishtalk.Interp.Frames.{frame_slots_of}
use smallishtalk.Interp.Push.{ensure_room, push_frame}
use smallishtalk.Interp.Collect.{alloc_gc, pop_root}

-- What the interpreter is given: the collections, the primitives by number, and the fuel of a search.
pub record Env : Type 0 where
  pub collect_young : Vm → Result Vm
  pub collect_old : Vm → Result Vm
  pub run_primitive : (n : ℕ) → Vm → Regs → (r argc dest : ℕ) → Outcome (PrimOutcome × Vm × Regs)
  pub fuel : ℕ

abbrev pub count_inline_miss : Vm → Vm
count_inline_miss vm =
    let c = vm.counters in
    record vm { counters = record c { inline_cache_miss = c.inline_cache_miss + 1 } }

abbrev pub count_dnu : Vm → Vm
count_dnu vm = let c = vm.counters in record vm { counters = record c { dnu = c.dnu + 1 } }

abbrev pub count_staged : Vm → Vm
count_staged vm =
    let c = vm.counters in record vm { counters = record c { sends_staged = c.sends_staged + 1 } }

-- Fill the inline cache of the send site at `base`.
unfoldable pub refill_site : Vm → Regs → (base class_index : ℕ) → Value → Vm
refill_site vm regs base class_index method =
    let h = vm.heap in
    let m = set_slot_raw h.mem regs.sites (base + site_cache_class) (from_int (pos class_index)) in
    record vm {
      heap = store_slot (record h { mem = m }) regs.sites (base + site_cache_method) method;
    }

-- The method in the inline cache of a site, where it is for this class.
unfoldable pub inline_hit : Vm → Regs → Option ℕ → (class_index : ℕ) → Option Value
inline_hit vm regs none class_index = none
inline_hit vm regs (some base) class_index =
    let m = vm.heap.mem in
    if eq_ℤ (as_int (slot m regs.sites (base + site_cache_class))) (pos class_index)
    then some (slot m regs.sites (base + site_cache_method))
    else none

abbrev pub count_miss : Vm → Option ℕ → Vm
count_miss vm none = vm
count_miss vm (some base) = count_inline_miss vm

abbrev pub refilled : Vm → Regs → Option ℕ → (class_index : ℕ) → Value → Vm
refilled vm regs none class_index method = vm
refilled vm regs (some base) class_index method = refill_site vm regs base class_index method

-- The search behind the inline cache.
unfoldable pub look_up :
    (fuel : ℕ) → Vm → (class_index : ℕ) → Value → Option Value → Option (Option Value × Vm)
unfolding lookup_cached lookup_method_above
look_up fuel vm class_index selector none = lookup_cached fuel vm class_index selector
look_up fuel vm class_index selector (some static_class) = do
  found ← lookup_method_above fuel vm static_class selector
  some (found, vm)

-- for (i, v) in vals.iter().enumerate() { put((r + i) as u8, v) }
unfoldable pub put_all : Vm → Regs → (k : ℕ) → List Value → Vm
put_all vm regs k [] = vm
put_all vm regs k (v ∷ vs) = put_all (put vm regs (k % 256) v) regs (k + 1) vs

-- The arguments copied into the array, from `i` on for `n` rounds.
unfoldable pub copy_args : Vm → Regs → (arr r i n : ℕ) → Vm
copy_args vm regs arr r i zero = vm
copy_args vm regs arr r i (suc n) =
    copy_args (with_mem vm (set_slot_raw vm.heap.mem arr i (get vm regs ((r + 1 + i) % 256)))) regs
      arr r (i + 1) n

module _ (env : Env) where
  -- What follows a primitive.
  unfoldable pub after_primitive :
      (method : Value) → (r dest argc : ℕ) → PrimOutcome × Vm × Regs → Outcome (Vm × Regs)
  unfolding push_frame
  after_primitive method r dest argc (value v, vm, regs) = some (ok (put vm regs dest v, regs))
  after_primitive method r dest argc (control, vm, regs) = some (ok (vm, regs))
  after_primitive method r dest argc (fail code, vm, regs) =
      push_frame env.collect_old vm regs method r dest argc (some (pos code)) 0

  unfoldable pub activate : Vm → Regs → (method : Value) → (r dest argc : ℕ) → Outcome (Vm × Regs)
  unfolding after_primitive push_frame and_then
  activate vm regs method r dest argc = elim (method_primitive (method_header_bits vm method)) [
    | none ↦ push_frame env.collect_old vm regs method r dest argc none 0
    | some n ↦
        and_then (env.run_primitive n vm regs r argc dest) (after_primitive method r dest argc)
  ]

  -- The Message object, of the selector and the arguments.
  unfoldable pub make_message : Vm → Regs → (r argc : ℕ) → Value → Result (ℕ × Vm × Regs)
  unfolding alloc_gc copy_args pop_root
  make_message vm regs r argc selector =
      elim (alloc_gc env.collect_young env.collect_old vm regs class_array fmt_ptrs argc) [
        | err e ↦ err e
        | ok (arr, vm1, regs1) ↦
            (let vm2 = copy_args vm1 regs1 arr r 0 argc in
              let rooted = record vm2 { temp_roots = vm2.temp_roots ++ arr ∷ [] } in
              elim (alloc_gc env.collect_young env.collect_old rooted regs1 class_message fmt_fixed
                2) [
                  | err e ↦ err e
                  | ok (msg, vm3, regs3) ↦
                      (let (arr', vm4) = pop_root vm3 in
                        let m = set_slot_raw vm4.heap.mem msg 0 selector in
                        ok (msg, with_mem vm4 (set_slot_raw m msg 1 arr'), regs3))
                ])
      ]

  unfoldable pub dnu_with : (r dest : ℕ) → ℕ × Vm × Regs → Outcome (Vm × Regs)
  unfolding lookup_cached activate
  dnu_with r dest (msg, vm, regs) =
      let class_index = class_index_of vm (get vm regs r) in
      let dnu_sel = get_or vm.specials special_sel_does_not_understand 0 in
      elim (lookup_cached env.fuel vm class_index dnu_sel) [
        | none ↦ none
        | some (none, vm1) ↦ some (err (fatal does_not_understand))
        | some (some method, vm1) ↦ activate (put vm1 regs ((r + 1) % 256) msg) regs method r dest 1
      ]

  unfoldable pub do_not_understand :
      Vm → Regs → (dest r : ℕ) → Value → (argc : ℕ) → Outcome (Vm × Regs)
  unfolding make_message dnu_with and_then
  do_not_understand vm regs dest r selector argc =
      and_then (some (make_message (count_dnu vm) regs r argc selector)) (dnu_with r dest)

  -- The full send, once the search has answered.
  unfoldable pub send_found :
      Regs
      → (dest r : ℕ) → Value
      → (argc : ℕ) → Option ℕ
      → (class_index : ℕ) → Option Value × Vm
      → Outcome (Vm × Regs)
  unfolding activate do_not_understand refill_site
  send_found regs dest r selector argc site class_index (none, vm) =
      do_not_understand vm regs dest r selector argc
  send_found regs dest r selector argc site class_index (some method, vm) =
      activate (refilled vm regs site class_index method) regs method r dest argc

  -- The full send, once the search has ended.
  unfoldable pub after_search :
      Regs
      → (dest r : ℕ) → Value
      → (argc : ℕ) → Option ℕ
      → (class_index : ℕ) → Option (Option Value × Vm)
      → Outcome (Vm × Regs)
  unfolding send_found
  after_search regs dest r selector argc site class_index none = none
  after_search regs dest r selector argc site class_index (some found) =
      send_found regs dest r selector argc site class_index found

  -- The full send, once the inline cache has answered.
  unfoldable pub after_inline :
      Vm
      → Regs
      → (dest r : ℕ) → Value
      → (argc : ℕ) → Option ℕ
      → Option Value
      → (class_index : ℕ) → Option Value
      → Outcome (Vm × Regs)
  unfolding look_up activate after_search
  after_inline vm regs dest r selector argc site super_static class_index (some method) =
      activate vm regs method r dest argc
  after_inline vm regs dest r selector argc site super_static class_index none =
      after_search regs dest r selector argc site class_index
        (look_up env.fuel (count_miss vm site) class_index selector super_static)

  unfoldable pub do_send :
      Vm
      → Regs
      → (dest r : ℕ) → Value
      → (argc : ℕ) → (site : Option ℕ) → (super_static : Option Value) → Outcome (Vm × Regs)
  unfolding inline_hit after_inline
  do_send vm regs dest r selector argc site super_static =
      let class_index = class_index_of vm (get vm regs r) in
      after_inline vm regs dest r selector argc site super_static class_index
        (inline_hit vm regs site class_index)

  unfoldable pub send_staged : Vm → Regs → (dest : ℕ) → Value → List Value → Outcome (Vm × Regs)
  unfolding ensure_room put_all do_send and_then
  send_staged vm regs dest selector vals =
      let vm1 = count_staged vm in
      let r = frame_slots_of vm1 regs.method + frame_receiver in
      let needed = regs.frame + frame_receiver + r + length vals in
      if ltb 250 (r + length vals)
      then some (err (fatal staging_exceeds_limit))
      else and_then (ensure_room env.collect_old vm1 regs needed) (λ room.
        do_send (put_all room.0 room.1 r vals) room.1 dest (r % 256) selector (length vals - 1) none
          none)

  abbrev count_fallthrough : Vm → ℕ → Vm
  count_fallthrough vm specsel =
      let c = vm.counters in
      record vm {
        counters = record c {
          spec_fallthrough =
              λ i. if i == specsel then c.spec_fallthrough i + 1 else c.spec_fallthrough i;
        };
      }

  -- The slow path of a specialized send.
  unfoldable pub spec_slow : Vm → Regs → (specsel dest : ℕ) → List ℕ → Outcome (Vm × Regs)
  unfolding send_staged
  spec_slow vm regs specsel dest operand_slots =
      let vm1 = count_fallthrough vm specsel in
      let sels = get_or vm1.specials special_specialized_selectors 0 in
      send_staged vm1 regs dest (slot vm1.heap.mem (as_ptr sels) specsel)
        (map (get vm1 regs) operand_slots)
