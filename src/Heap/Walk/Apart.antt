-- ===== src/Heap/Walk/Apart.antt =====
-- src/heap.rs: where the objects of a parsable region lie.
use smallishtalk.Base.{ℕ, ◌+◌, ◌-◌, ◌*◌, ◌≤◌, ◌<◌, ◌≡◌, ◌≢◌, ◌⊎◌, inl, inr, true, List, In, arith}
use smallishtalk.Space.{Memory}
use smallishtalk.Heap.{num_slots, has_overflow_word, footprint, storage_start, slot_addr}
use smallishtalk.Heap.Walk.Tiles.{Tiles, done, object, Tiles-le}

pub Tiles-span :
    {m : Memory} {top p : ℕ} {objs : List ℕ} (a : ℕ)
    → Tiles m top p objs
    → In a objs
    → (p ≤ storage_start m a) × (storage_start m a + footprint m a ≤ top)
Tiles-span a (done p e) h = elim h [ ]
Tiles-span {m} {top} a (object p obj q rest first hi lo start next t) (inl e) =
    rw e (omega arith, omega (arith, Tiles-le t))
Tiles-span {m} a (object p obj q rest first hi lo start next t) (inr h) =
    let ih = Tiles-span a t h in (omega (arith, ih.0), ih.1)

-- Two objects of a tiled region are the same, or one ends before the other begins.
pub Tiles-apart :
    {m : Memory} {top p : ℕ} {objs : List ℕ} (a b : ℕ)
    → Tiles m top p objs
    → In a objs
    → In b objs
    → (a ≡ b)
      ⊎ (storage_start m a + footprint m a ≤ storage_start m b)
      ⊎ (storage_start m b + footprint m b ≤ storage_start m a)
Tiles-apart a b (done p e) h k = elim h [ ]
Tiles-apart a b (object p obj q rest first hi lo start next t) (inl e) (inl f) = inl (omega arith)
Tiles-apart {m} a b (object p obj q rest first hi lo start next t) (inl e) (inr k) =
    inr (inl (rw e (omega (arith, (Tiles-span b t k).0))))
Tiles-apart {m} a b (object p obj q rest first hi lo start next t) (inr h) (inl f) =
    inr (inr (rw f (omega (arith, (Tiles-span a t h).0))))
Tiles-apart a b (object p obj q rest first hi lo start next t) (inr h) (inr k) =
    Tiles-apart a b t h k

-- The storage of an object: an overflow count if there is one, the header, the slots.
abbrev pub Parts : Memory → ℕ → Type 0
Parts m a =
    (storage_start m a ≤ a)
    × (a + 8 + num_slots m a * 8 ≡ storage_start m a + footprint m a)
    × (has_overflow_word m a ≡ true → storage_start m a + 8 ≡ a)

span-Parts : (m : Memory) (a : ℕ) → 8 ≤ storage_start m a → Parts m a
unfolding storage_start footprint
span-Parts m a h = ground arith

module _ {m : Memory} {top p : ℕ} {objs : List ℕ} (high : 8 ≤ p) (t : Tiles m top p objs) where
  pub Tiles-Parts : (a : ℕ) → In a objs → Parts m a
  Tiles-Parts a h = span-Parts m a (omega (arith, (Tiles-span a t h).0))

  -- A slot is no header and no overflow count.
  pub slot-ne-header :
      (a i b : ℕ)
      → In a objs
      → i < num_slots m a
      → In b objs
      → (slot_addr a i ≢ b) × (has_overflow_word m b ≡ true → slot_addr a i ≢ b - 8)
  slot-ne-header a i b h k l = (
    λ e. omega (arith, Tiles-Parts a h, Tiles-Parts b l, Tiles-apart a b t h l),
    λ o e. omega (
      arith,
      (Tiles-Parts a h).0,
      (Tiles-Parts a h).1,
      (Tiles-Parts b l).1,
      (Tiles-Parts b l).2 o,
      Tiles-apart a b t h l,
    ),
  )

  -- A slot belongs to one object, at one index.
  pub slot-injective :
      (a i b j : ℕ)
      → In a objs
      → i < num_slots m a
      → In b objs
      → j < num_slots m b
      → slot_addr a i ≡ slot_addr b j
      → (a ≡ b) × (i ≡ j)
  slot-injective a i b j h k l n e = (
    omega (arith, Tiles-Parts a h, Tiles-Parts b l, Tiles-apart a b t h l),
    omega (arith, Tiles-Parts a h, Tiles-Parts b l, Tiles-apart a b t h l),
  )

  -- A header is no overflow count.
  pub header-ne-overflow :
      (a b : ℕ) → In a objs → In b objs → has_overflow_word m b ≡ true → a ≢ b - 8
  header-ne-overflow a b h l o e =
      omega (arith, Tiles-Parts a h, Tiles-Parts b l, (Tiles-Parts b l).2 o, Tiles-apart a b t h l)
