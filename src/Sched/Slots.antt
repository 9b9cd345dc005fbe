-- ===== src/Sched/Slots.antt =====
-- src/prims.rs: what the queues need of the heap, slots that a barriered store writes one at a time.
use smallishtalk.Base.{
  Bool, true, false, ℕ, ◌≡◌, refl, ◌∙◌, ◌<◌, List, In, ◌==◌, ◌&&◌, if◌then◌else◌, arith,
}
use smallishtalk.Value.{Value}
use smallishtalk.Heap.{Heap, slot, num_slots}
use smallishtalk.Heap.Barrier.{store_slot}
use smallishtalk.Heap.Barrier.Remembered.{Remembered}
use smallishtalk.Heap.Barrier.Slot.{store_slot-Remembered, slot-store_slot, num_slots-store_slot}

-- `IsGood` is what the heap keeps, and `IsSlot` says which slots there are.
pub record SlotLaws (IsGood : Heap → Type 0) (IsSlot : ℕ → ℕ → Type 0) : Type 0 where
  pub kept : (h : Heap) (o i : ℕ) (v : Value) → IsGood h → IsSlot o i → IsGood (store_slot h o i v)
  pub stored :
      (h : Heap) (o i : ℕ) (v : Value) (b j : ℕ)
      → IsGood h
      → IsSlot o i
      → IsSlot b j
      → slot (store_slot h o i v).mem b j ≡ (if (b == o) && (j == i) then v else slot h.mem b j)

-- What the slots hold, as a function, and its change by a store.
abbrev pub View : Type 0
View = ℕ → ℕ → Value

abbrev pub update : View → ℕ → ℕ → Value → View
update V o i v b j = if (b == o) && (j == i) then v else V b j

module _ (IsGood : Heap → Type 0) (IsSlot : ℕ → ℕ → Type 0) where
  pub record Sees (h : Heap) (V : View) : Type 0 where
    pub good : IsGood h
    pub same : (b j : ℕ) → IsSlot b j → slot h.mem b j ≡ V b j

module _ {IsGood : Heap → Type 0} {IsSlot : ℕ → ℕ → Type 0} (laws : SlotLaws IsGood IsSlot) where
  pub Sees-store :
      (h : Heap) (V : View) (o i : ℕ) (v : Value)
      → Sees IsGood IsSlot h V
      → IsSlot o i
      → Sees IsGood IsSlot (store_slot h o i v) (update V o i v)
  Sees-store h V o i v s io = record {
    good = laws.kept h o i v s.good io;
    same = λ b j jo. laws.stored h o i v b j s.good io jo ∙ rw (s.same b j jo) refl;
  }

  -- The two heaps of a test see the two views of the same test.
  pub Sees-if :
      (b : Bool) {h h' : Heap} {V V' : View}
      → (b ≡ true → Sees IsGood IsSlot h V)
      → (b ≡ false → Sees IsGood IsSlot h' V')
      → Sees IsGood IsSlot (if b then h else h') (if b then V else V')
  Sees-if true s s' = s refl
  Sees-if false s s' = s' refl

-- The heap of the machine: the objects of old space, of given sizes.
pub record IsOld (objs : List ℕ) (size : ℕ → ℕ) (h : Heap) : Type 0 where
  pub remembered : Remembered h objs
  pub sized : (o : ℕ) → In o objs → num_slots h.mem o ≡ size o

abbrev pub IsOldSlot : List ℕ → (ℕ → ℕ) → ℕ → ℕ → Type 0
IsOldSlot objs size o i = In o objs × (i < size o)

-- A barriered store on old objects has the laws.
pub store_slot-SlotLaws :
    (objs : List ℕ) (size : ℕ → ℕ) → SlotLaws (IsOld objs size) (IsOldSlot objs size)
store_slot-SlotLaws objs size = record {
  kept = λ h o i v g s.
      let k : i < num_slots h.mem o = omega (arith, g.sized o s.0, s.1) in
      record {
        remembered = store_slot-Remembered h g.remembered o i v s.0 k;
        sized = λ b ib. num_slots-store_slot h g.remembered o i v s.0 k b ib ∙ g.sized b ib;
      };
  stored = λ h o i v b j g s t.
      slot-store_slot h g.remembered o i v s.0 (omega (arith, g.sized o s.0, s.1)) b j t.0
        (omega (arith, g.sized b t.0, t.1));
}
