-- ===== src/Heap/Walk/Tiles.antt =====
-- src/heap.rs: a parsable region, and the walk over it.
use smallishtalk.Base.{
  ℕ, zero, suc, ◌-◌, true, subst, sym, lt→ltb, ◌+◌, ◌*◌, ◌/◌, ◌≤◌, ◌<◌, ◌^◌, ◌≡◌, refl, ap, ◌∙◌,
  inl, some, List, [], ◌∷◌, ◌++◌, arith, ltb, ◌==◌, if◌then◌else◌,
}
use smallishtalk.Treaty.Words.{hdr_class_shift}
use smallishtalk.Space
use smallishtalk.Space.{Memory, write, Space}
use smallishtalk.Heap.{num_slots, has_overflow_word, footprint, storage_start, walk_region}
use smallishtalk.Heap.Alloc.{alloc_in}
use smallishtalk.Heap.Alloc.Fresh.{IsRequest, alloc_in-IsFresh, alloc_in-frame, alloc_in-first_word}

-- From `p` up to `top` the region holds exactly the given objects, one behind the other. The
-- storage of an object with a small slot count begins at its header, of one with an overflow count
-- at the count.
pub data Tiles (m : Memory) (top : ℕ) : ℕ → List ℕ → Type 0 where
  done : (p : ℕ) → p ≡ top → Tiles m top p []
  object :
      (p obj q : ℕ) (rest : List ℕ)
      → (if (m p / 2 ^ hdr_class_shift) == 0 then p + 8 else p) ≡ obj
      → obj ≤ p + 8
      → p ≤ obj
      → storage_start m obj ≡ p
      → p + footprint m obj ≡ q
      → Tiles m top q rest
      → Tiles m top p (obj ∷ rest)

pub Tiles-le : {m : Memory} {top p : ℕ} {objs : List ℕ} → Tiles m top p objs → p ≤ top
Tiles-le (done p e) = omega arith
Tiles-le (object p obj q rest first hi lo start next t) = omega (arith, Tiles-le t)

pub footprint-pos : (m : Memory) (obj : ℕ) → 8 ≤ footprint m obj
unfolding footprint
footprint-pos m obj = omega arith

-- A walk with a round for each word of the region lists its objects.
pub walk_region-Tiles :
    (fuel : ℕ) {m : Memory} {top p : ℕ} {objs : List ℕ}
    → Tiles m top p objs
    → top < p + fuel * 8
    → walk_region fuel m p top ≡ some objs
unfolding walk_region
walk_region-Tiles zero t h = absurd (omega (arith, Tiles-le t))
walk_region-Tiles (suc fuel) (done p e) h = ground arith
walk_region-Tiles (suc fuel) {m} {top} (object p obj q rest first hi lo start next t) h =
    let grows : 8 ≤ footprint m obj = footprint-pos m obj in
    let ih = walk_region-Tiles fuel t (omega arith) in
    let inside : ltb p top ≡ true = lt→ltb p top (omega (arith, Tiles-le t)) in
    rw (inside, first, start, next, ih)

-- The shape of an object is read from its header, and the word before it.
pub shape-frame :
    (m m' : Memory) (obj : ℕ)
    → m' obj ≡ m obj
    → (has_overflow_word m obj ≡ true → m' (obj - 8) ≡ m (obj - 8))
    → (storage_start m' obj ≡ storage_start m obj) × (footprint m' obj ≡ footprint m obj)
unfolding storage_start footprint num_slots has_overflow_word
shape-frame m m' obj e f = ground (arith, f)

pub header-inside :
    (m : Memory) (p obj q : ℕ)
    → obj ≤ p + 8
    → p ≤ obj
    → storage_start m obj ≡ p
    → p + footprint m obj ≡ q
    → (obj < q) × (has_overflow_word m obj ≡ true → (p ≤ obj - 8) × (obj - 8 < q))
unfolding storage_start footprint
header-inside m p obj q hi lo start next = (ground arith, λ o. ground arith)

-- The tiling of a region depends on the words of the region alone.
pub Tiles-frame :
    {m : Memory} (m' : Memory) {top p : ℕ} {objs : List ℕ}
    → ((a : ℕ) → p ≤ a → a < top → m' a ≡ m a)
    → Tiles m top p objs
    → Tiles m' top p objs
Tiles-frame m' same (done p e) = done p e
Tiles-frame {m} m' same (object p obj q rest first hi lo start next t) =
    let below = Tiles-le t in
    let inside = header-inside m p obj q hi lo start next in
    let grows : 8 ≤ footprint m obj = footprint-pos m obj in
    let shape =
      shape-frame m m' obj (same obj lo (omega arith))
        (λ o. same (obj - 8) (omega (arith, inside.1 o)) (omega (arith, inside.1 o))) in
    object p obj q rest (rw (same p (omega arith) (omega arith)) first) hi lo (shape.0 ∙ start)
      (ap (λ (t : ℕ). p + t) shape.1 ∙ next) (Tiles-frame m' (λ a h k. same a (omega arith) k) t)

-- An object behind the last one extends the tiling.
pub Tiles-snoc :
    {m : Memory} {mid top p : ℕ} {objs : List ℕ} (obj : ℕ)
    → Tiles m mid p objs
    → Tiles m top mid (obj ∷ [])
    → Tiles m top p (objs ++ obj ∷ [])
Tiles-snoc {m} {top} obj (done p e) one = subst (λ (x : ℕ). Tiles m top x (obj ∷ [])) (sym e) one
Tiles-snoc obj (object p o q rest first hi lo start next t) one =
    object p o q (rest ++ obj ∷ []) first hi lo start next (Tiles-snoc obj t one)

module _ (m : Memory) (s : Space) {c f n : ℕ} (is : IsRequest c f n) where
  -- An allocation from a tiled space leaves it tiled, with the new object last.
  pub alloc_in-Tiles :
      {p : ℕ} {objs : List ℕ} (obj : ℕ) (m' : Memory) (s' : Space)
      → alloc_in m s c f n ≡ some (obj, m', s')
      → Tiles m (Space.top s) p objs
      → Tiles m' (Space.top s') p (objs ++ obj ∷ [])
  alloc_in-Tiles obj m' s' e t =
      let new = alloc_in-IsFresh m s is obj m' s' e in
      let fr = alloc_in-frame m s is obj m' s' e in
      let old = Tiles-frame m' (λ a _ h. fr.4 a (inl h)) t in
      Tiles-snoc obj old (
        object (Space.top s) obj (Space.top s') [] (alloc_in-first_word m s is obj m' s' e)
          (ground (arith, new.placed)) (ground (arith, new.placed)) new.start_of
          (omega (arith, new.extent)) (done (Space.top s') refl))
