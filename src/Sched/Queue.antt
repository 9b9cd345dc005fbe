-- ===== src/Sched/Queue.antt =====
-- src/prims.rs: the queue of a list of processes, as it stands in the heap.
use smallishtalk.Base.{
  ℕ, ◌≡◌, ◌≢◌, refl, sym, subst, ◌∙◌, ◌⊎◌, inl, inr, List, [], ◌∷◌, ◌++◌, In, In-snoc, Distinct,
  Distinct-snoc,
}
use smallishtalk.Treaty.Layout.{process_next_link, process_my_list}
use smallishtalk.Value.{Value}
use smallishtalk.Vm.{nil}
use smallishtalk.Sched.Slots.{View}
use smallishtalk.Sched.Links.{head_or, last_or, Links, Links-frame}

-- A process that may stand in the queue of a list: neither nil nor the list, with its two link slots.
pub record IsMember (IsSlot : ℕ → ℕ → Type 0) (nil list p : Value) : Type 0 where
  pub not_nil : p ≢ nil
  pub not_list : p ≢ list
  pub next_slot : IsSlot p process_next_link
  pub list_slot : IsSlot p process_my_list

-- Two slots of the list for the head and the tail.
pub record IsList (IsSlot : ℕ → ℕ → Type 0) (list : Value) (hs ts : ℕ) : Type 0 where
  pub apart : hs ≢ ts
  pub head_slot : IsSlot list hs
  pub tail_slot : IsSlot list ts

pub record Queued (V : View) (nil list : Value) (hs ts : ℕ) (ps : List Value) : Type 0 where
  pub head : V list hs ≡ head_or nil ps
  pub tail : V list ts ≡ last_or nil ps
  pub links : Links V nil list ps

-- The processes of a queue: each may stand in it, and none does so twice.
pub record Members (IsSlot : ℕ → ℕ → Type 0) (nil list : Value) (ps : List Value) : Type 0 where
  pub each : (b : Value) → In b ps → IsMember IsSlot nil list b
  pub distinct : Distinct ps

-- A queue is in the slots of its list and of its processes alone.
pub Queued-agree :
    (IsSlot : ℕ → ℕ → Type 0) (V V' : View) (nil list : Value) (hs ts : ℕ) (ps : List Value)
    → IsList IsSlot list hs ts
    → Members IsSlot nil list ps
    → ((b j : ℕ) → (b ≡ list) ⊎ In b ps → IsSlot b j → V' b j ≡ V b j)
    → Queued V nil list hs ts ps
    → Queued V' nil list hs ts ps
Queued-agree IsSlot V V' nil list hs ts ps il ms same q = record {
  head = same list hs (inl refl) il.head_slot ∙ q.head;
  tail = same list ts (inl refl) il.tail_slot ∙ q.tail;
  links =
      Links-frame V V' nil list ps
        (λ b h. (
          same b process_next_link (inr h) (ms.each b h).next_slot,
          same b process_my_list (inr h) (ms.each b h).list_slot,
        ))
        q.links;
}

pub Members-snoc :
    (IsSlot : ℕ → ℕ → Type 0) (nil list p : Value) (ps : List Value)
    → Members IsSlot nil list ps
    → IsMember IsSlot nil list p
    → ((b : Value) → In b ps → b ≢ p)
    → Members IsSlot nil list (ps ++ p ∷ [])
Members-snoc IsSlot nil list p ps ms im new = record {
  each = λ b h. elim (In-snoc b p ps h) [
    | inl i ↦ ms.each b i
    | inr e ↦ subst (λ (t : Value). IsMember IsSlot nil list t) (sym e) im
  ];
  distinct = Distinct-snoc p ps ms.distinct (λ h. new p h refl);
}
