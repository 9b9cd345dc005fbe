-- ===== src/Sched/Remove.antt =====
-- src/prims.rs: `remove_process_from_its_list` on the queue of a list.
use smallishtalk.Base.{
  ℕ, zero, suc, ◌<◌, ◌≡◌, ◌≢◌, refl, sym, ap, subst, ◌∙◌, inl, inr, some, List, [], ◌∷◌, ◌++◌, In,
  Distinct, ◌==◌, if◌then◌else◌, arith, true, false, length,
}
use smallishtalk.Treaty.Layout.{process_next_link, process_my_list}
use smallishtalk.Value.{Value, as_ptr}
use smallishtalk.Heap.{Heap, slot}
use smallishtalk.Heap.Barrier.{store_slot}
use smallishtalk.Vm.{Vm, nil}
use smallishtalk.Sched.{unlink_from, remove_process_from_its_list, queue_slots_of}
use smallishtalk.Sched.Slots.{SlotLaws, View, update, Sees, Sees-store, Sees-if}
use smallishtalk.Sched.Links.{
  head_or, last_or, Links, last_or-In, In-left, In-right, In-middle, append-[], Links-unlink,
  In-without, Distinct-without, last_or-append,
}
use smallishtalk.Sched.Queue.{IsList, Members, Queued, Queued-agree}
use smallishtalk.Sched.Dequeue.{Queued-dequeue}

-- What the loop does to the heap where it finds the process.
abbrev unlinked : Heap → (nil list : Value) (hs ts : ℕ) (prev after : Value) → Heap
unlinked h nil list hs ts prev after =
    let h1 =
      if prev == nil
      then store_slot h list hs after
      else store_slot h prev process_next_link after in
    if after == nil then store_slot h1 list ts prev else h1

-- The search passes the processes before `p` and unlinks `p`; it needs a round for each of them.
unlink_from-found :
    (fuel : ℕ) (h : Heap) (nil list : Value) (hs ts : ℕ) (p prev : Value) (ps qs : List Value)
    → length ps < fuel
    → ((b : Value) → In b (ps ++ p ∷ qs) → b ≢ nil)
    → Distinct (ps ++ p ∷ qs)
    → Links (slot h.mem) nil list (ps ++ p ∷ qs)
    → unlink_from fuel h nil list hs ts p prev (head_or nil (ps ++ p ∷ qs))
      ≡ some (unlinked h nil list hs ts (last_or prev ps) (head_or nil qs))
unfolding unlink_from as_ptr
unlink_from-found zero h nil list hs ts p prev ps qs k full d l = absurd (omega arith)
unlink_from-found (suc fuel) h nil list hs ts p prev [] qs k full d l =
    let filled : (p == nil) ≡ false = ground (arith, full p (inl refl)) in
    let found : (p == p) ≡ true = ground arith in rw (filled, found, l.0) refl
unlink_from-found (suc fuel) h nil list hs ts p prev (x ∷ xs) qs k full d l =
    let filled : (x == nil) ≡ false = ground (arith, full x (inl refl)) in
    let other : (x == p) ≡ false = ground (
      arith,
      λ (z : x ≡ p). d.0 (subst (λ (t : Value). In t (xs ++ p ∷ qs)) (sym z) (In-middle p xs qs)),
    ) in
    rw (filled, other, l.0)
      (unlink_from-found fuel h nil list hs ts p x xs qs (omega arith) (λ b i. full b (inr i)) d.1
        l.2)

module _ (IsSlot : ℕ → ℕ → Type 0) (nil list : Value) (hs ts : ℕ) where
  abbrev remove_view : View → (p prev after : Value) → View
  remove_view V p prev after =
      let V1 =
        if prev == nil then update V list hs after else update V prev process_next_link after in
      let V2 = if after == nil then update V1 list ts prev else V1 in
      update (update V2 p process_next_link nil) p process_my_list nil

  Members-without :
      (p : Value) (ps qs : List Value)
      → Members IsSlot nil list (ps ++ p ∷ qs)
      → Members IsSlot nil list (ps ++ qs)
  Members-without p ps qs ms = record {
    each = λ b h. ms.each b (In-without b p ps qs h);
    distinct = (Distinct-without p ps qs ms.distinct).0;
  }

  remove_outside :
      (V : View) (p t after b j : ℕ)
      → b ≢ list
      → b ≢ p
      → b ≢ t
      → remove_view V p t after b j ≡ V b j
  remove_outside V p t after b j bl bp bt = ground (arith, bl, bp, bt)

  module _ (V : View) (p t : Value) (pl : p ≢ list) (tl : t ≢ list) (tp : t ≢ p)
      (tn : t ≢ nil) where
    removed_head : (after : Value) → hs ≢ ts → remove_view V p t after list hs ≡ V list hs
    removed_head after ht = ground (arith, pl, tl, tn, ht)

    removed_tail_last : remove_view V p t nil list ts ≡ t
    removed_tail_last = ground (arith, pl, tl, tn)

    removed_tail : (after : Value) → after ≢ nil → remove_view V p t after list ts ≡ V list ts
    removed_tail after an = ground (arith, pl, tl, tn, an)

    removed_link :
        (b after : Value)
        → b ≢ list
        → b ≢ p
        → (remove_view V p t after b process_next_link
            ≡ (if b == t then after else V b process_next_link))
          × (remove_view V p t after b process_my_list ≡ V b process_my_list)
    removed_link b after bl bp = (ground (arith, tn, bl, bp), ground (arith, tn, bl, bp))

    removed_tail-Queued :
        (x : Value) (xs qs : List Value)
        → t ≡ last_or x xs
        → ((b : Value) → In b qs → b ≢ nil)
        → V list ts ≡ last_or x (xs ++ p ∷ qs)
        → remove_view V p t (head_or nil qs) list ts ≡ last_or x (xs ++ qs)
    removed_tail-Queued x xs [] e full v =
        removed_tail_last ∙ e ∙ ap (λ (l : List Value). last_or x l) (sym (append-[] xs))
    removed_tail-Queued x xs (y ∷ ys) e full v =
        removed_tail y (full y (inl refl))
        ∙ v
        ∙ last_or-append x p xs (y ∷ ys)
        ∙ sym (last_or-append x y xs ys)

  remove_view-frame :
      (V : View) (p after : Value) (ps qs : List Value) (b j : ℕ)
      → b ≢ list
      → ¬ In b (ps ++ p ∷ qs)
      → remove_view V p (last_or nil ps) after b j ≡ V b j
  remove_view-frame V p after [] qs b j bl bn =
      let bp : b ≢ p = λ z. bn (inl z) in ground (arith, bl, bp)
  remove_view-frame V p after (x ∷ xs) qs b j bl bn =
      let t = last_or x xs in
      let bp : b ≢ p = λ z.
        bn (subst (λ (c : Value). In c (x ∷ xs ++ p ∷ qs)) (sym z) (In-middle p (x ∷ xs) qs)) in
      let bt : b ≢ t = λ z. bn (
        subst (λ (c : Value). In c (x ∷ xs ++ p ∷ qs)) (sym z)
          (In-left t (x ∷ xs) (p ∷ qs) (last_or-In x xs))) in
      remove_outside V p t after b j bl bp bt

  Queued-remove :
      (V : View) (p : Value) (ps qs : List Value)
      → IsList IsSlot list hs ts
      → Members IsSlot nil list (ps ++ p ∷ qs)
      → Queued V nil list hs ts (ps ++ p ∷ qs)
      → Queued (remove_view V p (last_or nil ps) (head_or nil qs)) nil list hs ts (ps ++ qs)
  Queued-remove V p [] qs il ms q =
      let test : (nil == nil) ≡ true = ground arith in
      rw test (Queued-dequeue IsSlot nil list hs ts V p qs il ms q)
  Queued-remove V p (x ∷ xs) qs il ms q =
      let t = last_or x xs in
      let m = ms.each t (In-left t (x ∷ xs) (p ∷ qs) (last_or-In x xs)) in
      let pl = (ms.each p (In-middle p (x ∷ xs) qs)).not_list in
      let tp = λ (z : t ≡ p).
        (Distinct-without p (x ∷ xs) qs ms.distinct).1
          (In-left p (x ∷ xs) qs (subst (λ (b : Value). In b (x ∷ xs)) z (last_or-In x xs))) in
      record {
        head = removed_head V p t pl m.not_list tp m.not_nil (head_or nil qs) il.apart ∙ q.head;
        tail =
            removed_tail-Queued V p t pl m.not_list tp m.not_nil x xs qs refl
              (λ b h. (ms.each b (In-right b (x ∷ xs) (p ∷ qs) (inr h))).not_nil) q.tail;
        links =
            Links-unlink V (remove_view V p t (head_or nil qs)) nil list p x xs qs ms.distinct
              (λ b h bp.
                removed_link V p t pl m.not_list tp m.not_nil b (head_or nil qs)
                  (ms.each b h).not_list bp)
              q.links;
      }

module _ {IsGood : Heap → Type 0} {IsSlot : ℕ → ℕ → Type 0} (laws : SlotLaws IsGood IsSlot)
    (vm : Vm) (list : Value) (hs ts : ℕ) where
  prev-slot :
      (p : Value) (ps qs : List Value)
      → Members IsSlot (nil vm) list (ps ++ p ∷ qs)
      → (last_or (nil vm) ps == nil vm) ≡ false
      → IsSlot (last_or (nil vm) ps) process_next_link
  prev-slot p [] qs ms e = absurd (ground (arith, e))
  prev-slot p (x ∷ xs) qs ms e =
      (ms.each (last_or x xs)
        (In-left (last_or x xs) (x ∷ xs) (p ∷ qs) (last_or-In x xs))).next_slot

  Sees-unlinked :
      (V : View) (p : Value) (ps qs : List Value)
      → Sees IsGood IsSlot vm.heap V
      → IsList IsSlot list hs ts
      → Members IsSlot (nil vm) list (ps ++ p ∷ qs)
      → let h = unlinked vm.heap (nil vm) list hs ts (last_or (nil vm) ps) (head_or (nil vm) qs) in
        Sees IsGood IsSlot
          (store_slot (store_slot h p process_next_link (nil vm)) p process_my_list (nil vm))
          (remove_view IsSlot (nil vm) list hs ts V p (last_or (nil vm) ps) (head_or (nil vm) qs))
  Sees-unlinked V p ps qs s0 il ms =
      let m = ms.each p (In-middle p ps qs) in
      let prev = last_or (nil vm) ps in
      let after = head_or (nil vm) qs in
      let s1 =
        Sees-if laws (prev == nil vm) (λ e. Sees-store laws vm.heap V list hs after s0 il.head_slot)
          (λ e.
            Sees-store laws vm.heap V prev process_next_link after s0 (prev-slot p ps qs ms e)) in
      let s2 =
        Sees-if laws (after == nil vm) (λ e. Sees-store laws _ _ list ts prev s1 il.tail_slot)
          (λ e. s1) in
      Sees-store laws _ _ p process_my_list (nil vm)
        (Sees-store laws _ _ p process_next_link (nil vm) s2 m.next_slot) m.list_slot

  member-list :
      (b : Value) (ps : List Value)
      → Links (slot vm.heap.mem) (nil vm) list ps
      → In b ps
      → slot vm.heap.mem b process_my_list ≡ list
  member-list b (x ∷ xs) l (inl e) = ap (λ (t : Value). slot vm.heap.mem t process_my_list) e ∙ l.1
  member-list b (x ∷ xs) l (inr h) = member-list b xs l.2 h
  member-list b [] l h = elim h [ ]

  abbrev removed : (p prev after : Value) → Vm
  removed p prev after =
      let h = unlinked vm.heap (nil vm) list hs ts prev after in
      record vm {
        heap = store_slot (store_slot h p process_next_link (nil vm)) p process_my_list (nil vm);
      }

  remove-run :
      (fuel : ℕ) (p : Value) (ps qs : List Value)
      → Members IsSlot (nil vm) list (ps ++ p ∷ qs)
      → Queued (slot vm.heap.mem) (nil vm) list hs ts (ps ++ p ∷ qs)
      → list ≢ nil vm
      → queue_slots_of vm list ≡ (hs, ts)
      → length ps < fuel
      → remove_process_from_its_list fuel vm p
        ≡ some (removed p (last_or (nil vm) ps) (head_or (nil vm) qs))
  unfolding remove_process_from_its_list as_ptr
  remove-run fuel p ps qs ms q ln qso k =
      let mine = member-list p (ps ++ p ∷ qs) q.links (In-middle p ps qs) in
      let test : (list == nil vm) ≡ false = ground (arith, ln) in
      let found =
        unlink_from-found fuel vm.heap (nil vm) list hs ts p (nil vm) ps qs k
          (λ b h. (ms.each b h).not_nil) ms.distinct q.links in
      rw (mine, qso, test, q.head, found) refl

  -- A process that stands in the queue of a list is taken out of it, wherever it stands: the search
  -- for it ends, the others stay in order, its own links are nil, and no slot changes but those of
  -- the list and of the processes of the queue.
  pub remove_process_from_its_list_lem :
      (fuel : ℕ) (p : Value) (ps qs : List Value)
      → IsGood vm.heap
      → IsList IsSlot list hs ts
      → Members IsSlot (nil vm) list (ps ++ p ∷ qs)
      → Queued (slot vm.heap.mem) (nil vm) list hs ts (ps ++ p ∷ qs)
      → list ≢ nil vm
      → queue_slots_of vm list ≡ (hs, ts)
      → length ps < fuel
      → (vm' : Vm) × (remove_process_from_its_list fuel vm p ≡ some vm')
        × IsGood vm'.heap
        × Queued (slot vm'.heap.mem) (nil vm) list hs ts (ps ++ qs)
        × (slot vm'.heap.mem p process_next_link ≡ nil vm)
        × (slot vm'.heap.mem p process_my_list ≡ nil vm)
        × ((b j : ℕ)
            → b ≢ list
            → ¬ In b (ps ++ p ∷ qs)
            → IsSlot b j
            → slot vm'.heap.mem b j ≡ slot vm.heap.mem b j)
  remove_process_from_its_list_lem fuel p ps qs good il ms q ln qso k =
      let V = slot vm.heap.mem in
      let s0 : Sees IsGood IsSlot vm.heap V = record { good = good; same = λ b j jo. refl } in
      let s = Sees-unlinked V p ps qs s0 il ms in
      let queue = Queued-remove IsSlot (nil vm) list hs ts V p ps qs il ms q in
      let m = ms.each p (In-middle p ps qs) in
      (
        _,
        remove-run fuel p ps qs ms q ln qso k,
        s.good,
        Queued-agree IsSlot _ _ (nil vm) list hs ts (ps ++ qs) il
            (Members-without IsSlot (nil vm) list hs ts p ps qs ms) (λ b j h jo. s.same b j jo)
            queue,
        s.same p process_next_link m.next_slot ∙ ground arith,
        s.same p process_my_list m.list_slot ∙ ground arith,
        λ b j bl bn jo.
            s.same b j jo
            ∙ remove_view-frame IsSlot (nil vm) list hs ts V p (head_or (nil vm) qs) ps qs b j bl
                bn,
      )
