-- ===== src/Heap/Alloc/Fresh.antt =====
-- src/heap.rs: what `alloc_in` leaves in memory.
use smallishtalk.Base.{
  Bool-cases, inl, inr, ℕ, ◌+◌, ◌*◌, ◌≤◌, ◌<◌, ◌^◌, ◌≡◌, ◌/◌, ◌==◌, refl, ◌⊎◌, false, none, some,
  leb, ltb, arith, if◌then◌else◌,
}
use smallishtalk.Treaty.Words.{hdr_nslots_overflow, hdr_class_shift}
use smallishtalk.Header
use smallishtalk.Header.Fields.{new_fields, new_sum}
use smallishtalk.Space
use smallishtalk.Space.{Memory, write, Space, alloc_words}
use smallishtalk.Heap.{num_slots, has_overflow_word, footprint, storage_start}
use smallishtalk.Heap.Alloc.{overflow_words, size_field, alloc_in}

-- The ranges in which a header holds the three numbers, with class 0 reserved.
pub record IsRequest (class_index format nslots : ℕ) : Type 0 where
  pub class_pos : 0 < class_index
  pub class_lt : class_index < 2 ^ 22
  pub format_lt : format < 2 ^ 4
  pub nslots_lt : nslots < 2 ^ 42

-- The object at `obj` occupies the storage from `start` on and is what was asked for.
pub record IsFresh (m : Memory) (start obj class_index format nslots : ℕ) : Type 0 where
  pub placed : obj ≡ start + overflow_words nslots * 8
  pub class_of : Header.class_index (m obj) ≡ class_index
  pub format_of : Header.format (m obj) ≡ format
  pub no_hash : Header.hash (m obj) ≡ 0
  pub no_gc_bits : Header.gc_bits (m obj) ≡ 0
  pub slots : num_slots m obj ≡ nslots
  pub start_of : storage_start m obj ≡ start
  pub extent : footprint m obj ≡ (overflow_words nslots + 1 + nslots) * 8

size_field-lt : (n : ℕ) → size_field n < 2 ^ 8
size_field-lt n = ground arith

module _ (m : Memory) (s : Space) {c f n : ℕ} (is : IsRequest c f n) where
  -- With room in the space the answer is the object at the old top, and the top moves past it.
  pub alloc_in-IsFresh :
      (obj : ℕ) (m' : Memory) (s' : Space)
      → alloc_in m s c f n ≡ some (obj, m', s')
      → IsFresh m' (Space.top s) obj c f n
  unfolding alloc_in alloc_words num_slots has_overflow_word footprint storage_start
  alloc_in-IsFresh obj m' s' e =
      let fields = new_fields c f (size_field n) is.class_lt is.format_lt (size_field-lt n) in
      ground (arith, fields)

  -- It moves the top past the object, and writes nothing outside the object's storage.
  pub alloc_in-frame :
      (obj : ℕ) (m' : Memory) (s' : Space)
      → alloc_in m s c f n ≡ some (obj, m', s')
      → (s'.ptr ≡ s.ptr)
        × (s'.words ≡ s.words)
        × (s'.alloc ≡ s.alloc + (overflow_words n + 1 + n))
        × (s'.alloc ≤ s.words)
        × ((a : ℕ) → (a < Space.top s) ⊎ (Space.top s' ≤ a) → m' a ≡ m a)
  unfolding alloc_in alloc_words
  alloc_in-frame obj m' s' e =
      (ground arith, ground arith, ground arith, ground arith, λ a out. ground arith)

  -- The word at which the storage begins tells a header from an overflow count.
  pub alloc_in-first_word :
      (obj : ℕ) (m' : Memory) (s' : Space)
      → alloc_in m s c f n ≡ some (obj, m', s')
      → (if (m' (Space.top s) / 2 ^ hdr_class_shift) == 0 then Space.top s + 8 else Space.top s)
        ≡ obj
  unfolding alloc_in alloc_words
  alloc_in-first_word obj m' s' e =
      let word = new_sum c f (size_field n) is.class_lt is.format_lt (size_field-lt n) in
      ground (arith, word)

  alloc_in-some :
      (room : s.alloc + (overflow_words n + 1 + n) ≤ s.words)
      → alloc_in m s c f n
        ≡ some (
          Space.top s + overflow_words n * 8,
          write
              (if leb hdr_nslots_overflow n then write m (Space.top s) n else m)
              (Space.top s + overflow_words n * 8)
              (Header.new c f (size_field n)),
          record s { alloc = s.alloc + (overflow_words n + 1 + n) },
        )
  unfolding alloc_in alloc_words
  alloc_in-some room =
      let fits : ltb s.words (s.alloc + (overflow_words n + 1 + n)) ≡ false = ground arith in
      rw fits refl

  -- The answer of an allocation: where the space has room for the overflow word, the header and the
  -- slots, the object at the old top, of the asked class, format and size, with the top moved past
  -- it and every word outside it as it was; where it has no room, none.
  pub alloc_in_lem :
      ((s.words < s.alloc + (overflow_words n + 1 + n)) × (alloc_in m s c f n ≡ none))
      ⊎ ((s.alloc + (overflow_words n + 1 + n) ≤ s.words)
          × ((obj : ℕ) × (m' : Memory) × (s' : Space) × (alloc_in m s c f n ≡ some (obj, m', s'))
              × IsFresh m' (Space.top s) obj c f n
              × (Space.top s' ≡ Space.top s + footprint m' obj)
              × ((a : ℕ) → (a < Space.top s) ⊎ (Space.top s' ≤ a) → m' a ≡ m a)))
  unfolding alloc_in alloc_words
  alloc_in_lem = elim (Bool-cases (ltb s.words (s.alloc + (overflow_words n + 1 + n)))) [
    | inl full ↦ inl (ground arith, ground arith)
    | inr fits ↦
        let room : s.alloc + (overflow_words n + 1 + n) ≤ s.words = ground arith in
        let answer = alloc_in-some room in
        let fresh = alloc_in-IsFresh _ _ _ answer in
        let frame = alloc_in-frame _ _ _ answer in
        inr (room, (_, _, _, answer, fresh, omega (arith, frame, fresh.extent), frame.4))
  ]
