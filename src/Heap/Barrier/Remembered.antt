-- ===== src/Heap/Barrier/Remembered.antt =====
-- src/vm.rs: the remembered set, as an invariant of the heap.
use Prim.Native.Nat.{bit_and, bit_or}
use smallishtalk.Base.{
  ℕ, ◌-◌, ◌≤◌, ◌<◌, ◌^◌, ◌≡◌, ◌≢◌, refl, inl, inr, true, not, ◌&&◌, List, [], ◌∷◌, ◌++◌, In,
  Distinct, arith, leb, ◌==◌,
}
use mathlib.Core.Path.{fun_ext}
use smallishtalk.Base.Bits.{all_below, all_below_sound}
use smallishtalk.Base.Words.{u64_mod}
use smallishtalk.Header
use smallishtalk.Header.Fields.{gc_bits_lem}
use smallishtalk.Space
use smallishtalk.Space.{Memory, write, Space}
use smallishtalk.Heap.{Heap, num_slots, has_overflow_word, slot, in_old_space}
use smallishtalk.Heap.Walk.Tiles.{Tiles}
use smallishtalk.Heap.Walk.Apart.{Tiles-span, Tiles-Parts}
use smallishtalk.Heap.Barrier.{is_remembered, points_young}

-- Over the objects of old space: a slot that points into young space belongs to an object with the
-- remembered bit, and the store buffer holds exactly the objects with that bit, each once.
pub record Remembered (h : Heap) (objs : List ℕ) : Type 0 where
  pub high : 8 ≤ Space.base h.old
  pub fits : h.old.alloc ≤ h.old.words
  pub tiled : Tiles h.mem (Space.top h.old) (Space.base h.old) objs
  pub words64 : (o : ℕ) → In o objs → h.mem o < u64_mod
  pub covered :
      (o i : ℕ)
      → In o objs
      → i < num_slots h.mem o
      → points_young h (slot h.mem o i) ≡ true
      → is_remembered h.mem o ≡ true
  pub listed : (o : ℕ) → In o objs → is_remembered h.mem o ≡ true → In o h.ssb
  pub marked : (o : ℕ) → In o h.ssb → In o objs × (is_remembered h.mem o ≡ true)
  pub unique : Distinct h.ssb

pub In-append : (a b : ℕ) (xs : List ℕ) → In a xs → In a (xs ++ b ∷ [])
In-append a b (x ∷ xs) (inl e) = inl e
In-append a b (x ∷ xs) (inr h) = inr (In-append a b xs h)
In-append a b [] h = elim h [ ]

pub In-last : (b : ℕ) (xs : List ℕ) → In b (xs ++ b ∷ [])
In-last b [] = inl refl
In-last b (x ∷ xs) = inr (In-last b xs)

pub set_bit_table :
    all_below 256 (λ x. not (bit_and (bit_or x 2) 2 == 0) && leb (bit_or x 2) 255) ≡ true
set_bit_table = refl

pub set_bit : (x : ℕ) → x < 256 → (not (bit_and (bit_or x 2) 2 == 0) ≡ true) × (bit_or x 2 < 256)
set_bit x h = ground (
  arith,
  all_below_sound 256 (λ x. not (bit_and (bit_or x 2) 2 == 0) && leb (bit_or x 2) 255) x
      set_bit_table h,
)

pub is_remembered-frame :
    (m m' : Memory) (b : ℕ) → m' b ≡ m b → is_remembered m' b ≡ is_remembered m b
unfolding is_remembered
is_remembered-frame m m' b e = rw e

pub num_slots-frame :
    (m m' : Memory) (b : ℕ)
    → Header.num_slots_field (m' b) ≡ Header.num_slots_field (m b)
    → (has_overflow_word m b ≡ true → m' (b - 8) ≡ m (b - 8))
    → num_slots m' b ≡ num_slots m b
unfolding num_slots has_overflow_word
num_slots-frame m m' b e f = ground (arith, f)

pub write-ne : (m : Memory) (a w b : ℕ) → a ≢ b → write m a w b ≡ m b
write-ne m a w b ne = ground arith

pub write_comm :
    (m : Memory) (a x b y : ℕ) → a ≢ b → write (write m a x) b y ≡ write (write m b y) a x
write_comm m a x b y ne = fun_ext λ c. ground arith

module _ (h : Heap) {objs : List ℕ} (r : Remembered h objs) where
  -- Every object of the region lies in old space.
  pub object-old : (o : ℕ) → In o objs → in_old_space h o ≡ true
  object-old o i =
      let span = Tiles-span o r.tiled i in
      let parts = Tiles-Parts r.high r.tiled o i in let fits = r.fits in ground (arith, span, parts)

  pub gc_bits-lt : (o : ℕ) → Header.gc_bits (h.mem o) < 2 ^ 8
  gc_bits-lt o = omega (arith, gc_bits_lem (h.mem o))
