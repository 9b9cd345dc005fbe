-- ===== src/Gc/Forward.antt =====
-- src/gc.rs: a reference to an object of from-space, forwarded.
use Prim.Native.Nat.{bit_and, bit_or}
use smallishtalk.Base.{
  ℕ, ◌+◌, ◌-◌, ◌*◌, ◌%◌, ◌^◌, ◌<◌, ◌≤◌, ◌≡◌, ◌⊎◌, inl, inr, refl, ap, subst, ◌∙◌, arith, Bool, true,
  false, not, some, leb, ◌==◌, if_true, if_false, bind-some,
}
use smallishtalk.Base.Words.{u64_mod, not64}
use smallishtalk.Base.Bits.{land_mask}
use smallishtalk.Space.{Memory, Space, base, limit, top, contains}
use smallishtalk.Value.{as_ptr, is_ptr, from_ptr}
use smallishtalk.Heap.{Heap}
use smallishtalk.Gc.{Gc, extra_words, words_of, new_age_of, copy_object, evacuate, forward}
use smallishtalk.Value.Tagging.{is_ptr_lem}
use smallishtalk.Gc.Copy.{IsCopy, made-IsCopy, num_slots-words}
use smallishtalk.Gc.Copied.{Apart, IsPlace, place_copy-IsPlace, forwarding_word}

-- A reference into from-space that is to be forwarded: the object lies in from-space, whole words
-- apart from the other spaces, which begin at whole words, and to-space has room for it.
pub record IsEvacuated (g : Gc) (addr : ℕ) : Type 0 where
  pub young : contains g.heap.young_from addr ≡ true
  pub aligned : addr % 8 ≡ 0
  pub word : g.heap.mem addr < u64_mod
  pub fresh : (bit_and (g.heap.mem addr) 1 == 1) ≡ false
  pub low : extra_words (g.heap.mem addr) * 8 ≤ addr
  pub room : g.heap.young_to.alloc + words_of g.heap.mem addr ≤ g.heap.young_to.words
  pub bases : (base g.heap.old % 8 ≡ 0) × (base g.heap.young_to % 8 ≡ 0)
  pub below : (limit g.heap.old < u64_mod) × (limit g.heap.young_to < u64_mod)
  pub apart :
      (s : Space)
      → (s ≡ g.heap.old) ⊎ (s ≡ g.heap.young_to)
      → (let src = addr - extra_words (g.heap.mem addr) * 8 in
          (src + words_of g.heap.mem addr * 8 ≤ base s) ⊎ (limit s ≤ src))

place_in :
    (s : Space) (start n src : ℕ)
    → base s % 8 ≡ 0
    → limit s < u64_mod
    → start ≡ top s
    → start + n * 8 ≤ limit s
    → (src + n * 8 ≤ base s) ⊎ (limit s ≤ src)
    → (start % 8 ≡ 0) × (start + n * 8 < u64_mod) × Apart src start n
place_in s start n src b l e f ap_ = (omega (arith, e), omega arith, ground (arith, ap_, e))

abbrev IsFit : ℕ → ℕ → Memory → Type 0
IsFit addr start m =
    (m addr < u64_mod)
    × (extra_words (m addr) * 8 ≤ addr)
    × (start % 8 ≡ 0)
    × (start + words_of m addr * 8 < u64_mod)
    × Apart (addr - extra_words (m addr) * 8) start (words_of m addr)

start_of_place :
    (g : Gc) (addr : ℕ) (h' : Heap) (start : ℕ)
    → IsEvacuated g addr
    → IsPlace g.heap h' (words_of g.heap.mem addr) start
    → IsFit addr start g.heap.mem
start_of_place g addr h' start ev p =
    let n = words_of g.heap.mem addr in
    let src = addr - extra_words (g.heap.mem addr) * 8 in
    let got : (start % 8 ≡ 0) × (start + n * 8 < u64_mod) × Apart src start n = elim (p.place) [
      | inl (e, fits) ↦
          place_in g.heap.old start n src ev.bases.0 ev.below.0 e fits
            (ev.apart g.heap.old (inl refl))
      | inr (e, fits) ↦
          place_in g.heap.young_to start n src ev.bases.1 ev.below.1 e fits
            (ev.apart g.heap.young_to (inr refl))
    ] in
    (ev.word, ev.low, got.0, got.1, got.2)

-- The outcome of a copy, over the memory it is read from.
CopiedOut : Gc → ℕ → ℕ → Bool → Heap → Memory → Type 0
CopiedOut g addr start is_old h m =
    IsFit addr start m
    → (new_obj : ℕ) × (g' : Gc) × (copy_object g addr start is_old h ≡ some (new_obj, g'))
      × IsCopy m g'.heap.mem addr new_obj
      × (g'.heap.young_from ≡ h.young_from)
      × (new_obj % 8 ≡ 0)
      × (new_obj < u64_mod)

pointer : (a : ℕ) → a % 8 ≡ 0 → from_ptr a ≡ some a
unfolding from_ptr
pointer a e = let low = land_mask 3 a in if_true _ _ (zero low e)
  where
    zero : bit_and a 7 ≡ a % 2 ^ 3 → a % 8 ≡ 0 → (bit_and a 7 == 0) ≡ true
    zero l f = ground (arith, l, f)

copy_object-CopiedOut :
    (g : Gc) (addr start : ℕ) (is_old : Bool) (h : Heap) → CopiedOut g addr start is_old h h.mem
unfolding CopiedOut copy_object
copy_object-CopiedOut g addr start is_old h (word, low, aligned, below, apart) =
    let new_obj = start + extra_words (h.mem addr) * 8 in
    let whole : new_obj % 8 ≡ 0 = omega arith in
    (
      new_obj,
      _,
      bind-some _ (pointer new_obj whole),
      made-IsCopy h.mem addr start word low apart,
      refl,
      whole,
      omega (arith, num_slots-words h.mem addr, below),
    )

-- The branches of `forward`.
is_pointer : (a : ℕ) → a % 8 ≡ 0 → not (is_ptr a) ≡ false
is_pointer a e = ap not ((is_ptr_lem a).1 e)

first : (g : Gc) (addr : ℕ) → IsEvacuated g addr → forward g addr ≡ evacuate g addr
unfolding forward as_ptr
first g addr ev =
    if_false _ _ (is_pointer addr ev.aligned)
    ∙ if_false _ _ (ap not ev.young)
    ∙ if_false _ _ ev.fresh

again :
    (g : Gc) (addr new_obj : ℕ)
    → addr % 8 ≡ 0
    → contains g.heap.young_from addr ≡ true
    → g.heap.mem addr ≡ bit_or new_obj 1
    → new_obj % 8 ≡ 0
    → new_obj < u64_mod
    → forward g addr ≡ some (new_obj, g)
unfolding forward as_ptr
again g addr new_obj aligned young left whole small =
    let word = forwarding_word new_obj whole small in
    let tagged : (bit_and (g.heap.mem addr) 1 == 1) ≡ true =
      ap (λ w. bit_and w 1 == 1) left ∙ ap (λ b. b == 1) word.0 in
    if_false _ _ (is_pointer addr aligned)
    ∙ if_false _ _ (ap not young)
    ∙ if_true _ _ tagged
    ∙ bind-some _
        (ap (λ w. from_ptr (bit_and w (not64 1))) left ∙ ap from_ptr word.1 ∙ pointer new_obj whole)

-- A reference to an object of from-space that is not forwarded yet is answered by the address of a
-- copy of the object: it has the class, the format, the slot count, the hash and every slot of the
-- object. The object keeps a forwarding word, so that forwarding the reference again answers the
-- same address and changes nothing.
pub forward-IsCopy :
    (g : Gc) (addr : ℕ)
    → IsEvacuated g addr
    → (new_obj : ℕ) × (g' : Gc) × (forward g addr ≡ some (new_obj, g'))
      × IsCopy g.heap.mem g'.heap.mem addr new_obj
      × (forward g' addr ≡ some (new_obj, g'))
unfolding CopiedOut evacuate
forward-IsCopy g addr ev =
    let h = g.heap in
    let wants = leb g.tenure_threshold (new_age_of (h.mem addr)) in
    let (start, is_old, h', placed, is_place) =
      place_copy-IsPlace h wants (words_of h.mem addr) ev.room in
    let (new_obj, g', made, copy, from, aligned, small) =
      subst (CopiedOut g addr start is_old h') is_place.mem
        (copy_object-CopiedOut g addr start is_old h')
        (start_of_place g addr h' start ev is_place) in
    (
      new_obj,
      g',
      first g addr ev ∙ bind-some _ placed ∙ made,
      copy,
      again g' addr new_obj ev.aligned (ap (λ s. contains s addr) (from ∙ is_place.from) ∙ ev.young)
          copy.left aligned small,
    )
