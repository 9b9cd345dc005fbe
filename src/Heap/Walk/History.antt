-- ===== src/Heap/Walk/History.antt =====
-- src/heap.rs: a space under allocation, slot stores and header updates, in any order.
use smallishtalk.Base.{
  ℕ, ◌+◌, ◌/◌, ◌≤◌, ◌<◌, ◌^◌, ◌≡◌, refl, sym, ap, ◌∙◌, inl, inr, some, List, [], ◌∷◌, ◌++◌, In,
  subst, arith, ◌==◌, if◌then◌else◌,
}
use smallishtalk.Base.Words.{u64_mod}
use smallishtalk.Treaty.Words.{hdr_class_shift}
use smallishtalk.Header
use smallishtalk.Header.Fields.{
  with_hash_fields, with_hash_sum, with_gc_bits_fields, with_gc_bits_sum,
}
use smallishtalk.Space
use smallishtalk.Space.{Memory, write, Space}
use smallishtalk.Heap.{
  num_slots, has_overflow_word, footprint, storage_start, walk_region, slot_addr, set_slot_raw,
  set_header,
}
use smallishtalk.Heap.Alloc.{alloc_in}
use smallishtalk.Heap.Alloc.Fresh.{IsRequest, alloc_in-frame}
use smallishtalk.Heap.Walk.Tiles.{
  Tiles, done, object, Tiles-frame, footprint-pos, shape-frame, header-inside, walk_region-Tiles,
  alloc_in-Tiles,
}

-- A new header of the same class and slot field.
abbrev pub SameShape : Memory → ℕ → ℕ → Type 0
SameShape m obj w =
    (w / 2 ^ hdr_class_shift ≡ m obj / 2 ^ hdr_class_shift)
    × (Header.num_slots_field w ≡ Header.num_slots_field (m obj))

body-inside :
    (m : Memory) (p obj q i : ℕ)
    → obj ≤ p + 8
    → p ≤ obj
    → storage_start m obj ≡ p
    → p + footprint m obj ≡ q
    → i < num_slots m obj
    → (obj < slot_addr obj i) × (slot_addr obj i < q)
unfolding storage_start footprint
body-inside m p obj q i hi lo start next h = ground arith

pub reheader-shape :
    (m : Memory) (p obj w : ℕ)
    → obj ≤ p + 8
    → p ≤ obj
    → 8 ≤ obj
    → SameShape m obj w
    → let m' = write m obj w in
      (storage_start m' obj ≡ storage_start m obj)
      × (footprint m' obj ≡ footprint m obj)
      × ((m' p / 2 ^ hdr_class_shift) ≡ (m p / 2 ^ hdr_class_shift))
unfolding storage_start footprint num_slots has_overflow_word
reheader-shape m p obj w hi lo high same = ground arith

Tiles-ge : {m : Memory} {top p : ℕ} {objs : List ℕ} (a : ℕ) → Tiles m top p objs → In a objs → p ≤ a
Tiles-ge a (done p e) h = elim h [ ]
Tiles-ge a (object p obj q rest first hi lo start next t) (inl e) = omega arith
Tiles-ge a (object p obj q rest first hi lo start next t) (inr h) = omega (arith, Tiles-ge a t h)

-- A store into a slot of a tiled object leaves the tiling.
pub Tiles-store :
    {m : Memory} {top p : ℕ} {objs : List ℕ} (a i v : ℕ)
    → Tiles m top p objs
    → In a objs
    → i < num_slots m a
    → Tiles (set_slot_raw m a i v) top p objs
Tiles-store a i v (done p e) h k = elim h [ ]
Tiles-store {m} a i v (object p obj q rest first hi lo start next t) (inr h) k =
    let later = Tiles-ge a t h in
    let grows : 8 ≤ footprint m obj = footprint-pos m obj in
    let inside = header-inside m p obj q hi lo start next in
    let m' = set_slot_raw m a i v in
    let shape = shape-frame m m' obj (ground arith) (λ o. ground (arith, inside.1 o)) in
    let same : m' p ≡ m p = ground arith in
    object p obj q rest (rw same first) hi lo (shape.0 ∙ start)
      (ap (λ (t : ℕ). p + t) shape.1 ∙ next) (Tiles-store a i v t h k)
Tiles-store {m} {top} a i v (object p obj q rest first hi lo start next t) (inl e) k =
    let k' : i < num_slots m obj = subst (λ (x : ℕ). i < num_slots m x) e k in
    let inside = header-inside m p obj q hi lo start next in
    let body = body-inside m p obj q i hi lo start next k' in
    let m' = set_slot_raw m a i v in
    let shape = shape-frame m m' obj (ground arith) (λ o. ground (arith, inside.1 o)) in
    let same : m' p ≡ m p = ground arith in
    object p obj q rest (rw same first) hi lo (shape.0 ∙ start)
      (ap (λ (t : ℕ). p + t) shape.1 ∙ next) (Tiles-frame m' (λ x lo' hi'. ground arith) t)

-- So does a new header with the class and the slot field of the old one.
pub Tiles-reheader :
    {m : Memory} {top p : ℕ} {objs : List ℕ} (a w : ℕ)
    → 8 ≤ p
    → Tiles m top p objs
    → In a objs
    → SameShape m a w
    → Tiles (set_header m a w) top p objs
Tiles-reheader a w high (done p e) h k = elim h [ ]
Tiles-reheader {m} a w high (object p obj q rest first hi lo start next t) (inr h) k =
    let later = Tiles-ge a t h in
    let grows : 8 ≤ footprint m obj = footprint-pos m obj in
    let inside = header-inside m p obj q hi lo start next in
    let m' = set_header m a w in
    let shape = shape-frame m m' obj (ground arith) (λ o. ground (arith, inside.1 o)) in
    let same : m' p ≡ m p = ground arith in
    object p obj q rest (rw same first) hi lo (shape.0 ∙ start)
      (ap (λ (t : ℕ). p + t) shape.1 ∙ next) (Tiles-reheader a w (omega arith) t h k)
Tiles-reheader {m} {top} a w high (object p obj q rest first hi lo start next t) (inl e) k = rw e (
    let k' = subst (λ (x : ℕ). SameShape m x w) e k in
    let m' = set_header m obj w in
    let shape = reheader-shape m p obj w hi lo (omega arith) k' in
    let inside = header-inside m p obj q hi lo start next in
    object p obj q rest (ap (λ (x : ℕ). if x == 0 then p + 8 else p) shape.2 ∙ first) hi lo
      (shape.0 ∙ start) (ap (λ (t : ℕ). p + t) shape.1 ∙ next)
      (Tiles-frame m' (λ x lo' hi'. ground arith) t))

-- A space with the objects allocated in it, oldest first.
pub record Region : Type 0 where
  pub mem : Memory
  pub space : Space
  pub objs : List ℕ

pub data Step : Region → Region → Type 0 where
  allocate :
      (r : Region) (class_index format nslots obj : ℕ) (m : Memory) (s : Space)
      → IsRequest class_index format nslots
      → alloc_in r.mem r.space class_index format nslots ≡ some (obj, m, s)
      → Step r (record { mem = m; space = s; objs = r.objs ++ obj ∷ [] })
  store :
      (r : Region) (obj i v : ℕ)
      → In obj r.objs
      → i < num_slots r.mem obj
      → Step r (record r { mem = set_slot_raw r.mem obj i v })
  rehash :
      (r : Region) (obj x : ℕ)
      → In obj r.objs
      → r.mem obj < u64_mod
      → x < 2 ^ 22
      → Step r (record r { mem = set_header r.mem obj (Header.with_hash (r.mem obj) x) })
  rebits :
      (r : Region) (obj x : ℕ)
      → In obj r.objs
      → r.mem obj < u64_mod
      → x < 2 ^ 8
      → Step r (record r { mem = set_header r.mem obj (Header.with_gc_bits (r.mem obj) x) })

pub data Reach (r : Region) : Region → Type 0 where
  here : Reach r r
  next : {s t : Region} → Reach r s → Step s t → Reach r t

abbrev pub IsTiled : Region → Type 0
IsTiled r = Tiles r.mem (Space.top r.space) (Space.base r.space) r.objs

Step-base : {r r' : Region} → Step r r' → Space.base r'.space ≡ Space.base r.space
Step-base (allocate r c f n obj m s is e) = (alloc_in-frame r.mem r.space is obj m s e).0
Step-base (store r obj i v h k) = refl
Step-base (rehash r obj x h b k) = refl
Step-base (rebits r obj x h b k) = refl

Step-IsTiled : {r r' : Region} → 8 ≤ Space.base r.space → Step r r' → IsTiled r → IsTiled r'
Step-IsTiled high (allocate r c f n obj m s is e) t =
    let t' = alloc_in-Tiles r.mem r.space is obj m s e t in
    subst (λ (x : ℕ). Tiles m (Space.top s) x (r.objs ++ obj ∷ []))
      (sym (alloc_in-frame r.mem r.space is obj m s e).0) t'
Step-IsTiled high (store r obj i v h k) t = Tiles-store obj i v t h k
Step-IsTiled high (rehash r obj x h b k) t =
    Tiles-reheader obj (Header.with_hash (r.mem obj) x) high t h
      (omega (arith, with_hash_sum (r.mem obj) x b k), (with_hash_fields (r.mem obj) x b k).4)
Step-IsTiled high (rebits r obj x h b k) t =
    Tiles-reheader obj (Header.with_gc_bits (r.mem obj) x) high t h
      (omega (arith, with_gc_bits_sum (r.mem obj) x b k), (with_gc_bits_fields (r.mem obj) x b k).4)

Reach-IsTiled :
    {r r' : Region}
    → 8 ≤ Space.base r.space
    → Reach r r'
    → IsTiled r
    → (Space.base r'.space ≡ Space.base r.space) × IsTiled r'
Reach-IsTiled high here t = (refl, t)
Reach-IsTiled high (next steps step) t =
    let ih = Reach-IsTiled high steps t in
    (Step-base step ∙ ih.0, Step-IsTiled (omega (arith, ih.0)) step ih.1)

-- From an empty space (not at the lowest addresses), after any sequence of allocations of objects
-- whose class, format and size fit a header, of stores into their slots, and of changes of their
-- hash or gc bits, the walk over the used part of the space ends and lists exactly the allocated
-- objects, in the order of their allocation; a round for each word of the space is enough.
pub walk_region-Reach :
    (m : Memory) (ptr size : ℕ) {r : Region}
    → 8 ≤ ptr
    → Reach (record { mem = m; space = Space.new ptr size; objs = [] }) r
    → (fuel : ℕ) → r.space.alloc < fuel
    → walk_region fuel r.mem (Space.base r.space) (Space.top r.space) ≡ some r.objs
unfolding Space.new
walk_region-Reach m ptr size {r} high steps fuel h =
    let t = Reach-IsTiled high steps (done _ (omega arith)) in
    walk_region-Tiles fuel t.1 (omega arith)
