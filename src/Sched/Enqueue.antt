-- ===== src/Sched/Enqueue.antt =====
-- src/prims.rs: `enqueue_process` on the queue of a list.
use smallishtalk.Base.{
  ℕ, ◌≡◌, ◌≢◌, refl, sym, subst, ◌∙◌, inl, List, [], ◌∷◌, ◌++◌, In, ◌==◌, if◌then◌else◌, arith,
  false,
}
use smallishtalk.Treaty.Layout.{process_next_link, process_my_list}
use smallishtalk.Value.{Value, as_ptr}
use smallishtalk.Heap.{Heap, slot}
use smallishtalk.Vm.{Vm, nil}
use smallishtalk.Sched.{enqueue_process}
use smallishtalk.Sched.Slots.{SlotLaws, View, update, Sees, Sees-store, Sees-if}
use smallishtalk.Sched.Links.{last_or, last_or-In, last_or-snoc, Links-snoc}
use smallishtalk.Sched.Queue.{IsList, IsMember, Members, Queued, Queued-agree, Members-snoc}

module _ (IsSlot : ℕ → ℕ → Type 0) (nil list : Value) (hs ts : ℕ) where
  pub enqueue_view : View → Value → View
  enqueue_view V p =
      let V2 = update (update V p process_next_link nil) p process_my_list list in
      let V3 =
        if V2 list hs == nil
        then update V2 list hs p
        else update V2 (V2 list ts) process_next_link p in
      update V3 list ts p

  -- The two cases, with the reads of the list resolved.
  abbrev marked : View → Value → View
  marked V p = update (update V p process_next_link nil) p process_my_list list

  marked-list : (V : View) (p : Value) (j : ℕ) → p ≢ list → marked V p list j ≡ V list j
  marked-list V p j ne = ground (arith, ne)

  enqueue_filled :
      (V : View) (p x t : Value)
      → p ≢ list
      → x ≢ nil
      → V list hs ≡ x
      → V list ts ≡ t
      → enqueue_view V p ≡ update (update (marked V p) t process_next_link p) list ts p
  unfolding enqueue_view
  enqueue_filled V p x t ne filled e f =
      let head_read : marked V p list hs ≡ x = marked-list V p hs ne ∙ e in
      let tail_read : marked V p list ts ≡ t = marked-list V p ts ne ∙ f in
      let test : (x == nil) ≡ false = ground (arith, filled) in rw (head_read, tail_read, test) refl

  module _ (V : View) (p t : Value) where
    abbrev filled : View
    filled = update (update (marked V p) t process_next_link p) list ts p

    filled_head :
        IsList IsSlot list hs ts
        → IsMember IsSlot nil list p
        → t ≢ list
        → filled list hs ≡ V list hs
    filled_head il im ne = ground (arith, il.apart, im.not_list, ne)

    outside : (b j : ℕ) → b ≢ list → b ≢ p → b ≢ t → filled b j ≡ V b j
    outside b j bl bp bt = ground (arith, bl, bp, bt)

    filled_tail : filled list ts ≡ p
    filled_tail = ground arith

    filled_link :
        (b : Value)
        → b ≢ p
        → b ≢ list
        → (filled b process_next_link ≡ (if b == t then p else V b process_next_link))
          × (filled b process_my_list ≡ V b process_my_list)
    filled_link b bp bl = (ground (arith, bp, bl), ground (arith, bp, bl))

    filled_new :
        p ≢ list → t ≢ p → (filled p process_next_link ≡ nil) × (filled p process_my_list ≡ list)
    filled_new pl tp = (ground (arith, pl, tp), ground (arith, pl, tp))

  pub Queued-enqueue :
      (V : View) (p : Value) (ps : List Value)
      → IsList IsSlot list hs ts
      → IsMember IsSlot nil list p
      → Members IsSlot nil list ps
      → ((b : Value) → In b ps → b ≢ p)
      → Queued V nil list hs ts ps
      → Queued (enqueue_view V p) nil list hs ts (ps ++ p ∷ [])
  unfolding enqueue_view
  Queued-enqueue V p [] il im ms new q = record {
    head = ground (arith, q.head, im.not_list, il.apart);
    tail = ground (arith, q.head, im.not_list);
    links = (ground (arith, q.head, im.not_list), ground (arith, q.head, im.not_list), tt);
  }
  Queued-enqueue V p (x ∷ xs) il im ms new q =
      let tail_in = last_or-In x xs in
      let t = last_or x xs in
      let t_list = (ms.each t tail_in).not_list in
      let t_new = new t tail_in in
      let p_list = im.not_list in
      let V' = update (update (marked V p) t process_next_link p) list ts p in
      rw (enqueue_filled V p x t im.not_list (ms.each x (inl refl)).not_nil q.head q.tail) (record {
        head = filled_head V p t il im t_list ∙ q.head;
        tail = filled_tail V p t ∙ sym (last_or-snoc x p xs);
        links =
            Links-snoc V V' nil list p x xs ms.distinct
              (λ b h. filled_link V p t b (new b h) (ms.each b h).not_list)
              (filled_new V p t p_list t_new).0 (filled_new V p t p_list t_new).1 q.links;
      })

  enqueue_empty :
      (V : View) (p : Value)
      → p ≢ list
      → V list hs ≡ nil
      → enqueue_view V p ≡ update (update (marked V p) list hs p) list ts p
  unfolding enqueue_view
  enqueue_empty V p ne e =
      let head_read : marked V p list hs ≡ nil = marked-list V p hs ne ∙ e in
      rw head_read (ground arith)

  -- An enqueue changes the slots of the list, of the process and of the last process.
  pub enqueue_view-frame :
      (V : View) (p : Value) (ps : List Value)
      → IsMember IsSlot nil list p
      → Members IsSlot nil list ps
      → Queued V nil list hs ts ps
      → (b j : ℕ) → b ≢ list
      → b ≢ p
      → ¬ In b ps
      → enqueue_view V p b j ≡ V b j
  enqueue_view-frame V p [] im ms q b j bl bp bn =
      rw (enqueue_empty V p im.not_list q.head) (ground (arith, bl, bp))
  enqueue_view-frame V p (x ∷ xs) im ms q b j bl bp bn =
      let t_in = last_or-In x xs in
      let bt : b ≢ last_or x xs = λ e. bn (subst (λ (t : Value). In t (x ∷ xs)) (sym e) t_in) in
      rw
        (enqueue_filled V p x (last_or x xs) im.not_list (ms.each x (inl refl)).not_nil q.head
          q.tail)
        (outside V p (last_or x xs) b j bl bp bt)

module _ {IsGood : Heap → Type 0} {IsSlot : ℕ → ℕ → Type 0} (laws : SlotLaws IsGood IsSlot)
    (vm : Vm) (list : Value) (hs ts : ℕ) where
  tail-slot :
      (p : Value) (ps : List Value)
      → IsMember IsSlot (nil vm) list p
      → Members IsSlot (nil vm) list ps
      → Queued (slot vm.heap.mem) (nil vm) list hs ts ps
      → let V2 = marked IsSlot (nil vm) list hs ts (slot vm.heap.mem) p in
        (V2 list hs == nil vm) ≡ false → IsSlot (V2 list ts) process_next_link
  tail-slot p [] im ms q e =
      let read = marked-list IsSlot (nil vm) list hs ts (slot vm.heap.mem) p hs im.not_list in
      absurd (ground (arith, q.head, read, e))
  tail-slot p (x ∷ xs) im ms q e =
      let read = marked-list IsSlot (nil vm) list hs ts (slot vm.heap.mem) p ts im.not_list in
      subst (λ (t : Value). IsSlot t process_next_link) (sym (read ∙ q.tail))
        (ms.each (last_or x xs) (last_or-In x xs)).next_slot

  -- What an enqueue leaves in the slots.
  Sees-enqueue :
      (p : Value) (ps : List Value)
      → IsGood vm.heap
      → IsList IsSlot list hs ts
      → IsMember IsSlot (nil vm) list p
      → Members IsSlot (nil vm) list ps
      → Queued (slot vm.heap.mem) (nil vm) list hs ts ps
      → Sees IsGood IsSlot
          (enqueue_process vm list hs ts p).heap
          (enqueue_view IsSlot (nil vm) list hs ts (slot vm.heap.mem) p)
  unfolding enqueue_process enqueue_view as_ptr
  Sees-enqueue p ps good il im ms q =
      let V = slot vm.heap.mem in
      let s0 : Sees IsGood IsSlot vm.heap V = record { good = good; same = λ b j jo. refl } in
      let s1 = Sees-store laws vm.heap V p process_next_link (nil vm) s0 im.next_slot in
      let s2 = Sees-store laws _ _ p process_my_list list s1 im.list_slot in
      let head_read = s2.same list hs il.head_slot in
      let tail_read = s2.same list ts il.tail_slot in
      rw (head_read, tail_read)
        (Sees-store laws _ _ list ts p
          (Sees-if laws (marked IsSlot (nil vm) list hs ts V p list hs == nil vm)
            (λ e. Sees-store laws _ _ list hs p s2 il.head_slot)
            (λ e. Sees-store laws _ _ _ process_next_link p s2 (tail-slot p ps im ms q e)))
          il.tail_slot)

  -- A process that is in no queue is put at the end of the queue, and no slot changes but those of
  -- the list, of the process and of the last process.
  pub enqueue_process_lem :
      (p : Value) (ps : List Value)
      → IsGood vm.heap
      → IsList IsSlot list hs ts
      → IsMember IsSlot (nil vm) list p
      → Members IsSlot (nil vm) list ps
      → ((b : Value) → In b ps → b ≢ p)
      → Queued (slot vm.heap.mem) (nil vm) list hs ts ps
      → let vm' = enqueue_process vm list hs ts p in
        IsGood vm'.heap
        × Queued (slot vm'.heap.mem) (nil vm') list hs ts (ps ++ p ∷ [])
        × ((b j : ℕ)
            → b ≢ list
            → b ≢ p
            → ¬ In b ps
            → IsSlot b j
            → slot vm'.heap.mem b j ≡ slot vm.heap.mem b j)
  unfolding enqueue_process as_ptr
  enqueue_process_lem p ps good il im ms new q =
      let s = Sees-enqueue p ps good il im ms q in
      let queue =
        Queued-enqueue IsSlot (nil vm) list hs ts (slot vm.heap.mem) p ps il im ms new q in
      (
        s.good,
        Queued-agree IsSlot _ _ (nil vm) list hs ts (ps ++ p ∷ []) il
            (Members-snoc IsSlot (nil vm) list p ps ms im new) (λ b j h jo. s.same b j jo) queue,
        (λ b j bl bp bn jo.
            s.same b j jo
            ∙ enqueue_view-frame IsSlot (nil vm) list hs ts (slot vm.heap.mem) p ps im ms q b j bl
                bp bn),
      )
