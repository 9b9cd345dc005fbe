-- ===== src/Sched/Dequeue.antt =====
-- src/prims.rs: `dequeue_process` on the queue of a list.
use smallishtalk.Base.{
  ℕ, ◌≡◌, ◌≢◌, refl, sym, subst, ◌∙◌, inl, inr, Option, none, some, List, [], ◌∷◌, In, ◌==◌,
  if◌then◌else◌, arith, true, false,
}
use smallishtalk.Treaty.Layout.{process_next_link, process_my_list}
use smallishtalk.Value.{Value, as_ptr}
use smallishtalk.Heap.{Heap, slot}
use smallishtalk.Vm.{Vm, nil}
use smallishtalk.Sched.{dequeue_process}
use smallishtalk.Sched.Slots.{SlotLaws, View, update, Sees, Sees-store, Sees-if}
use smallishtalk.Sched.Links.{head_or, last_or, Links-frame}
use smallishtalk.Sched.Queue.{IsList, Members, Queued, Queued-agree}

module _ (IsSlot : ℕ → ℕ → Type 0) (nil list : Value) (hs ts : ℕ) where
  abbrev pub dequeue_view : View → (x after : Value) → View
  dequeue_view V x after =
      let V1 = update V list hs after in
      let V2 = if after == nil then update V1 list ts nil else V1 in
      update (update V2 x process_next_link nil) x process_my_list nil

  pub dequeue_view-frame :
      (V : View) (x after : Value) (b j : ℕ) → b ≢ list → b ≢ x → dequeue_view V x after b j ≡ V b j
  dequeue_view-frame V x after b j bl bx = ground (arith, bl, bx)

  module _ (V : View) (x : Value) (ne : x ≢ list) (il : IsList IsSlot list hs ts) where
    dequeued_head : (after : Value) → dequeue_view V x after list hs ≡ after
    dequeued_head after = ground (arith, ne, il.apart)

    dequeued_tail_last : dequeue_view V x nil list ts ≡ nil
    dequeued_tail_last = ground (arith, ne, il.apart)

    dequeued_tail : (after : Value) → after ≢ nil → dequeue_view V x after list ts ≡ V list ts
    dequeued_tail after an = ground (arith, ne, il.apart, an)

    dequeued_tail-Queued :
        (xs : List Value)
        → Members IsSlot nil list (x ∷ xs)
        → V list ts ≡ last_or x xs
        → dequeue_view V x (head_or nil xs) list ts ≡ last_or nil xs
    dequeued_tail-Queued [] ms e = dequeued_tail_last
    dequeued_tail-Queued (y ∷ ys) ms e = dequeued_tail y (ms.each y (inr (inl refl))).not_nil ∙ e

  Members-rest :
      (x : Value) (xs : List Value) → Members IsSlot nil list (x ∷ xs) → Members IsSlot nil list xs
  Members-rest x xs ms = record { each = λ b h. ms.each b (inr h); distinct = ms.distinct.1 }

  pub Queued-dequeue :
      (V : View) (x : Value) (xs : List Value)
      → IsList IsSlot list hs ts
      → Members IsSlot nil list (x ∷ xs)
      → Queued V nil list hs ts (x ∷ xs)
      → Queued (dequeue_view V x (head_or nil xs)) nil list hs ts xs
  Queued-dequeue V x xs il ms q =
      let ne = (ms.each x (inl refl)).not_list in
      let after = head_or nil xs in
      let same = λ (b : Value) (h : In b xs) (j : ℕ).
        dequeue_view-frame V x after b j (ms.each b (inr h)).not_list
          (λ e. ms.distinct.0 (subst (λ (t : Value). In t xs) e h)) in
      record {
        head = dequeued_head V x ne il after;
        tail = dequeued_tail-Queued V x ne il xs ms q.tail;
        links =
            Links-frame V (dequeue_view V x after) nil list xs
              (λ b h. (same b h process_next_link, same b h process_my_list)) q.links.2;
      }

-- The first process, if there is one, and the others.
abbrev pub first : List Value → Option Value
first [] = none
first (p ∷ ps) = some p

abbrev pub rest : List Value → List Value
rest [] = []
rest (p ∷ ps) = ps

module _ {IsGood : Heap → Type 0} {IsSlot : ℕ → ℕ → Type 0} (laws : SlotLaws IsGood IsSlot)
    (vm : Vm) (list : Value) (hs ts : ℕ) where
  Sees-dequeue :
      (x : Value) (xs : List Value)
      → IsGood vm.heap
      → IsList IsSlot list hs ts
      → Members IsSlot (nil vm) list (x ∷ xs)
      → Queued (slot vm.heap.mem) (nil vm) list hs ts (x ∷ xs)
      → let got = dequeue_process vm list hs ts in
        (got.0 ≡ some x)
        × (got.1.specials ≡ vm.specials)
        × Sees IsGood IsSlot got.1.heap
            (dequeue_view IsSlot (nil vm) list hs ts (slot vm.heap.mem) x (head_or (nil vm) xs))
  unfolding dequeue_process as_ptr
  Sees-dequeue x xs good il ms q =
      let im = ms.each x (inl refl) in
      let V = slot vm.heap.mem in
      let after = head_or (nil vm) xs in
      let s0 : Sees IsGood IsSlot vm.heap V = record { good = good; same = λ b j jo. refl } in
      let s1 = Sees-store laws vm.heap V list hs after s0 il.head_slot in
      let s2 =
        Sees-if laws (after == nil vm) (λ e. Sees-store laws _ _ list ts (nil vm) s1 il.tail_slot)
          (λ e. s1) in
      let s3 = Sees-store laws _ _ x process_next_link (nil vm) s2 im.next_slot in
      let s4 = Sees-store laws _ _ x process_my_list (nil vm) s3 im.list_slot in
      let test : (x == nil vm) ≡ false = ground (arith, im.not_nil) in
      rw (q.head, test, q.links.0) (refl, refl, s4)

  -- A process that is in no queue.
  abbrev pub IsFree : Vm → Option Value → Type 0
  IsFree vm' none = Unit {0}
  IsFree vm' (some x) =
      (slot vm'.heap.mem x process_next_link ≡ nil vm)
      × (slot vm'.heap.mem x process_my_list ≡ nil vm)

  pub dequeue-nil : slot vm.heap.mem list hs ≡ nil vm → dequeue_process vm list hs ts ≡ (none, vm)
  unfolding dequeue_process as_ptr
  dequeue-nil e =
      let test : (slot vm.heap.mem list hs == nil vm) ≡ true = ground (arith, e) in rw test refl

  abbrev pub IsDequeued : List Value → Option Value × Vm → Type 0
  IsDequeued ps (got, vm') =
      (got ≡ first ps)
      × (vm'.specials ≡ vm.specials)
      × IsGood vm'.heap
      × Queued (slot vm'.heap.mem) (nil vm) list hs ts (rest ps)
      × IsFree vm' got
      × ((b j : ℕ)
          → b ≢ list
          → ¬ In b ps
          → IsSlot b j
          → slot vm'.heap.mem b j ≡ slot vm.heap.mem b j)

  -- A dequeue answers the first process of the queue, unlinked, and leaves the others in order; of
  -- an empty queue it answers none. No slot changes but those of the list and of that process.
  pub dequeue_process_lem :
      (ps : List Value)
      → IsGood vm.heap
      → IsList IsSlot list hs ts
      → Members IsSlot (nil vm) list ps
      → Queued (slot vm.heap.mem) (nil vm) list hs ts ps
      → IsDequeued ps (dequeue_process vm list hs ts)
  dequeue_process_lem [] good il ms q =
      subst (IsDequeued []) (sym (dequeue-nil q.head))
        (refl, refl, good, q, tt, λ b j bl bn jo. refl)
  dequeue_process_lem (x ∷ xs) good il ms q =
      let d = Sees-dequeue x xs good il ms q in
      let queue = Queued-dequeue IsSlot (nil vm) list hs ts (slot vm.heap.mem) x xs il ms q in
      let vm' = (dequeue_process vm list hs ts).1 in
      let sees = d.2 in
      let im = ms.each x (inl refl) in
      (
        d.0,
        d.1,
        sees.good,
        Queued-agree IsSlot _ _ (nil vm) list hs ts xs il
            (Members-rest IsSlot (nil vm) list hs ts x xs ms) (λ b j h jo. sees.same b j jo) queue,
        subst (IsFree vm') (sym d.0) (
          sees.same x process_next_link im.next_slot ∙ ground arith,
          sees.same x process_my_list im.list_slot ∙ ground arith,
        ),
        λ b j bl bn jo.
            sees.same b j jo
            ∙ dequeue_view-frame IsSlot (nil vm) list hs ts (slot vm.heap.mem) x
                (head_or (nil vm) xs) b j bl (λ e. bn (inl e)),
      )
