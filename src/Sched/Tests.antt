-- ===== src/Sched/Tests.antt =====
-- Examples for the scheduler of src/prims.rs: two lists and two processes in old space.
use smallishtalk.Base.{
  ℕ, ◌+◌, ◌*◌, ◌<◌, ◌≡◌, ◌≢◌, refl, sym, subst, Bool-cases, inl, inr, ◌↔◌, some, List, [], ◌∷◌, All,
  In, ◌==◌, ◌&&◌, leb, ltb, if◌then◌else◌, arith, true, false,
}
use smallishtalk.Base.Int.{ℤ, pos, ltb_ℤ}
use smallishtalk.Header
use smallishtalk.Space
use smallishtalk.Space.{Memory}
use smallishtalk.Value.{Value, as_ptr, is_ptr}
use smallishtalk.Heap.{slot, num_slots, footprint, storage_start, has_overflow_word}
use smallishtalk.Heap.Alloc
use smallishtalk.Heap.Walk.Tiles.{done, object}
use smallishtalk.Heap.Barrier.{is_remembered, points_young}
use smallishtalk.Vm.{Vm, default_entry, nil}
use smallishtalk.Sched.{
  enqueue_process, dequeue_process, take_next_runnable, runnable_priority_ceiling, run_queue,
  scheduler_queues_of, service_timers,
}
use smallishtalk.Sched.Slots.{SlotLaws, IsOld, IsOldSlot, store_slot-SlotLaws}
use smallishtalk.Sched.Queue.{IsMember, IsList, Members, Queued}
use smallishtalk.Sched.Enqueue.{enqueue_process_lem}
use smallishtalk.Sched.Dequeue.{IsDequeued, dequeue_process_lem}
use smallishtalk.Sched.Priority.{IsRunQueue, take_next_runnable_lem}
use smallishtalk.Treaty.Layout.{process_next_link, process_my_list}
use smallishtalk.Sched.{remove_process_from_its_list, queue_slots_of}
use smallishtalk.Sched.Remove.{remove_process_from_its_list_lem}
use smallishtalk.Sched.Timers.{Requested, service_timers_iff}

-- The lists at 20000000 (empty) and 20000024, and the processes at 20000048, which stands in the
-- second list, and 20000120, of priority 3, which the word at 1040 names. The scheduler at 40000000 has the queues at 30000000, of which number 2
-- is the second list. Every other slot holds nil, which is at 8.
abbrev words : Memory
words a =
    if a == 20000000
    then 30786325585920
    else if a == 20000024
    then 30786325585920
    else if a == 20000048
    then 30786325610496
    else if a == 20000120
    then 105553116299264
    else if a == 20000128
    then 40000016
    else if a == 20000152
    then 7
    else if a == 1040
    then 20000120
    else if a == 20000032
    then 20000048
    else if a == 20000040
    then 20000048
    else if a == 20000096
    then 20000024
    else if a == 40000008
    then 30000000
    else if a == 30000024
    then 20000024
    else if leb 30000008 a && leb a 30000064
    then 20000000
    else 8

abbrev pub machine : Vm
machine =
    let h = Alloc.new Alloc.default_config 65536 10000000 20000000 in
    let s = h.old in
    record {
      heap = record h { mem = words; old = record s { alloc = 24 } };
      class_table = [];
      specials = 8 ∷ 0 ∷ 0 ∷ 0 ∷ 40000000 ∷ [];
      active_process = 8;
      site_registry = [];
      lookup_cache = λ _. default_entry;
      hash_counter = 0;
      timer_requests = (pos 5, 100) ∷ (pos 9, 200) ∷ [];
      counters = record {
        global_cache_miss = 0;
        dict_walks = 0;
        dict_classes_walked = 0;
        method_installs = 0;
        cache_flushes = 0;
        process_switches = 0;
        semaphore_blocks = 0;
        unwind_runs = 0;
        ensure_interceptions = 0;
        nlrs = 0;
        inline_cache_miss = 0;
        dnu = 0;
        must_be_boolean = 0;
        sends_staged = 0;
        spec_fallthrough = λ _. 0;
        gc_bytes_copied = 0;
        gc_bytes_tenured = 0;
        gc_ssb_drained = 0;
        gc_ssb_drained_max = 0;
        gc_remembered_rebuilt = 0;
      };
      gc_epoch = 0;
      max_stack_bytes = 65536;
      stack_grow_count = 0;
      temp_roots = [];
      symbols = [];
      tenure_threshold = 3;
      scavenge_count = 0;
    }

abbrev pub objects : List ℕ
objects = 20000000 ∷ 20000024 ∷ 20000048 ∷ 20000120 ∷ []

abbrev pub size : ℕ → ℕ
size o = if ltb o 20000048 then 2 else 8

machine-sized : (o : ℕ) → In o objects → num_slots words o ≡ size o
unfolding num_slots Header.num_slots_field
machine-sized o (inl e) = rw e refl
machine-sized o (inr (inl e)) = rw e refl
machine-sized o (inr (inr (inl e))) = rw e refl
machine-sized o (inr (inr (inr (inl e)))) = rw e refl
machine-sized o (inr (inr (inr (inr e)))) = elim e [ ]

machine-unmarked : (o : ℕ) → In o objects → is_remembered words o ≡ false
unfolding is_remembered Header.gc_bits
machine-unmarked o (inl e) = rw e refl
machine-unmarked o (inr (inl e)) = rw e refl
machine-unmarked o (inr (inr (inl e))) = rw e refl
machine-unmarked o (inr (inr (inr (inl e)))) = rw e refl
machine-unmarked o (inr (inr (inr (inr e)))) = elim e [ ]

-- No word is an address of young space.
machine-quiet : (a : ℕ) → points_young machine.heap (words a) ≡ false
unfolding Alloc.new Space.new as_ptr is_ptr
machine-quiet a = ground arith

pub machine-IsOld : IsOld objects size machine.heap
unfolding Alloc.new Space.new num_slots has_overflow_word footprint storage_start
    Header.num_slots_field
machine-IsOld = record {
  remembered = record {
    high = omega arith;
    fits = omega arith;
    tiled = object _ 20000000 20000024 _ refl (omega arith) (omega arith) refl refl (
        object _ 20000024 20000048 _ refl (omega arith) (omega arith) refl refl (
          object _ 20000048 20000120 _ refl (omega arith) (omega arith) refl refl (
            object _ 20000120 20000192 _ refl (omega arith) (omega arith) refl refl
              (done _ refl))));
    words64 = λ o h. ground arith;
    covered = λ o i h k y. absurd (ground (arith, machine-quiet (o + 8 + i * 8)));
    listed = λ o h r. absurd (ground (arith, machine-unmarked o h));
    marked = λ o h. elim h [ ];
    unique = tt;
  };
  sized = machine-sized;
}

abbrev list : Value
list = 20000024

list-IsList : IsList (IsOldSlot objects size) list 0 1
list-IsList = record {
  apart = λ e. ground (arith, e);
  head_slot = (inr (inl refl), omega arith);
  tail_slot = (inr (inl refl), omega arith);
}

waiting-IsMember : IsMember (IsOldSlot objects size) 8 list 20000048
waiting-IsMember = record {
  not_nil = λ e. ground (arith, e);
  not_list = λ e. ground (arith, e);
  next_slot = (inr (inr (inl refl)), omega arith);
  list_slot = (inr (inr (inl refl)), omega arith);
}

pub coming-IsMember : IsMember (IsOldSlot objects size) 8 list 20000120
coming-IsMember = record {
  not_nil = λ e. ground (arith, e);
  not_list = λ e. ground (arith, e);
  next_slot = (inr (inr (inr (inl refl))), omega arith);
  list_slot = (inr (inr (inr (inl refl))), omega arith);
}

waiting-Members : Members (IsOldSlot objects size) 8 list (20000048 ∷ [])
waiting-Members = record {
  each = λ b h. elim h [ inl e ↦ rw e waiting-IsMember | inr n ↦ elim n [ ] ];
  distinct = ((λ n. n), tt);
}

waiting-Queued : Queued (slot words) 8 list 0 1 (20000048 ∷ [])
waiting-Queued = record { head = refl; tail = refl; links = (refl, refl, tt) }

abbrev pub laws : SlotLaws (IsOld objects size) (IsOldSlot objects size)
laws = store_slot-SlotLaws objects size

enqueue_process_lem_example :
    let vm' = enqueue_process machine list 0 1 20000120 in
    IsOld objects size vm'.heap
    × Queued (slot vm'.heap.mem) (nil vm') list 0 1 (20000048 ∷ 20000120 ∷ [])
    × ((b j : ℕ)
        → b ≢ list
        → b ≢ 20000120
        → ¬ In b (20000048 ∷ [])
        → IsOldSlot objects size b j
        → slot vm'.heap.mem b j ≡ slot words b j)
enqueue_process_lem_example =
    enqueue_process_lem laws machine list 0 1 20000120 (20000048 ∷ []) machine-IsOld list-IsList
      coming-IsMember waiting-Members
      (λ b h. elim h [ inl e ↦ (λ z. ground (arith, e, z)) | inr n ↦ elim n [ ] ]) waiting-Queued

dequeue_process_lem_example :
    IsDequeued laws machine list 0 1 (20000048 ∷ []) (dequeue_process machine list 0 1)
dequeue_process_lem_example =
    dequeue_process_lem laws machine list 0 1 (20000048 ∷ []) machine-IsOld list-IsList
      waiting-Members waiting-Queued

abbrev runnable : ℕ → List Value
runnable prio = if prio == 2 then 20000048 ∷ [] else []

empty-IsRunQueue :
    (prio : ℕ)
    → run_queue machine prio ≡ 20000000
    → IsRunQueue (IsOldSlot objects size) machine prio []
empty-IsRunQueue prio e = record {
  list = rw e (record {
    apart = λ z. ground (arith, z);
    head_slot = (inl refl, omega arith);
    tail_slot = (inl refl, omega arith);
  });
  members = record { each = λ b h. elim h [ ]; distinct = tt };
  queued = rw e (record { head = refl; tail = refl; links = tt });
}

pub second-IsRunQueue : IsRunQueue (IsOldSlot objects size) machine 2 (20000048 ∷ [])
unfolding scheduler_queues_of as_ptr
second-IsRunQueue = record {
  list = list-IsList;
  members = waiting-Members;
  queued = waiting-Queued;
}

machine-runnable : (j : ℕ) → j < 8 → IsRunQueue (IsOldSlot objects size) machine j (runnable j)
unfolding scheduler_queues_of as_ptr
machine-runnable j h = elim (Bool-cases (j == 2)) [
  | inl here ↦
      let same : j ≡ 2 = ground arith in
      subst (λ (n : ℕ). IsRunQueue (IsOldSlot objects size) machine n (runnable n)) (sym same)
        second-IsRunQueue
  | inr other ↦ rw other (empty-IsRunQueue j (ground arith))
]

take_next_runnable_lem_example :
    IsDequeued laws machine (run_queue machine 2) 0 1 (20000048 ∷ []) (take_next_runnable machine)
    × (runnable_priority_ceiling machine ≡ some 3)
take_next_runnable_lem_example =
    take_next_runnable_lem laws machine machine-IsOld runnable 2 20000048 [] (omega arith)
      machine-runnable (λ j l h. ground arith) refl

service_timers_iff_example :
    let served = service_timers (pos 7) machine in
    ((r : ℤ × Value)
      → Requested r served.1.timer_requests
        ↔ (Requested r machine.timer_requests × (ltb_ℤ (pos 7) r.0 ≡ true)))
    × (served.0 ≡ false ↔ All (λ (r : ℤ × Value). ltb_ℤ (pos 7) r.0 ≡ true) machine.timer_requests)
service_timers_iff_example = service_timers_iff (pos 7) machine

machine-queue_slots : queue_slots_of machine list ≡ (0, 1)
unfolding queue_slots_of as_ptr Header.class_index
machine-queue_slots = refl

remove_process_from_its_list_lem_example :
    (vm' : Vm) × (remove_process_from_its_list 1 machine 20000048 ≡ some vm')
    × IsOld objects size vm'.heap
    × Queued (slot vm'.heap.mem) 8 list 0 1 []
    × (slot vm'.heap.mem 20000048 process_next_link ≡ 8)
    × (slot vm'.heap.mem 20000048 process_my_list ≡ 8)
    × ((b j : ℕ)
        → b ≢ list
        → ¬ In b (20000048 ∷ [])
        → IsOldSlot objects size b j
        → slot vm'.heap.mem b j ≡ slot words b j)
remove_process_from_its_list_lem_example =
    remove_process_from_its_list_lem laws machine list 0 1 1 20000048 [] [] machine-IsOld
      list-IsList waiting-Members waiting-Queued (λ e. ground (arith, e)) machine-queue_slots
      (omega arith)
