-- ===== src/Gc/Tests.antt =====
-- An example for src/gc.rs.
use smallishtalk.Base.{
  ℕ, ◌+◌, ◌-◌, ◌*◌, ◌≤◌, ◌≡◌, ◌⊎◌, inl, inr, refl, subst, sym, arith, some, [], ◌==◌, if◌then◌else◌,
}
use smallishtalk.Header
use smallishtalk.Space.{Memory, Space, base, limit}
use smallishtalk.Heap.{Heap}
use smallishtalk.Heap.Alloc.{default_config}
use smallishtalk.Gc.{Gc, forward, extra_words, words_of}
use smallishtalk.Gc.Copy.{IsCopy}
use smallishtalk.Gc.Forward.{IsEvacuated, forward-IsCopy}

-- An object of two slots at 4104, in a from-space of eight words.
abbrev words : Memory
words a = if a == 4104 then 8192 else if a == 4112 then 7 else if a == 4120 then 4104 else 0

abbrev from_space : Space
from_space = record { ptr = 4096; words = 8; alloc = 4 }

abbrev to_space : Space
to_space = record { ptr = 8192; words = 8; alloc = 0 }

abbrev old_space : Space
old_space = record { ptr = 16384; words = 64; alloc = 2 }

abbrev heap_of : Heap
heap_of = record {
  mem = words;
  young_from = from_space;
  young_to = to_space;
  old = old_space;
  ssb = [];
  config = default_config;
  alloc_young_count = 0;
  alloc_young_bytes = 0;
  alloc_old_count = 0;
  alloc_old_bytes = 0;
  alloc_large_count = 0;
}

abbrev collection : Gc
collection = record {
  heap = heap_of;
  tenure_threshold = 3;
  work = [];
  tenured = [];
  bytes_copied = 0;
  bytes_tenured = 0;
}

size_of : (extra_words (words 4104) ≡ 0) × (words_of words 4104 ≡ 3)
unfolding Header.num_slots_field
size_of = (refl, refl)

apart_of :
    (e w : ℕ) (s : Space)
    → e ≡ 0
    → w ≡ 3
    → (s ≡ old_space) ⊎ (s ≡ to_space)
    → (4104 - e * 8 + w * 8 ≤ base s) ⊎ (limit s ≤ 4104 - e * 8)
apart_of e w s he hw (inl h) =
    inl (subst (λ t. 4104 - e * 8 + w * 8 ≤ base t) (sym h) (omega (arith, he, hw)))
apart_of e w s he hw (inr h) =
    inl (subst (λ t. 4104 - e * 8 + w * 8 ≤ base t) (sym h) (omega (arith, he, hw)))

object-IsEvacuated : IsEvacuated collection 4104
object-IsEvacuated = record {
  young = refl;
  aligned = refl;
  word = omega arith;
  fresh = refl;
  low = omega (arith, size_of.0);
  room = omega (arith, size_of.1);
  bases = (refl, refl);
  below = (omega arith, omega arith);
  apart = λ s h. apart_of (extra_words (words 4104)) (words_of words 4104) s size_of.0 size_of.1 h;
}

forward-IsCopy_example :
    (new_obj : ℕ) × (g' : Gc) × (forward collection 4104 ≡ some (new_obj, g'))
    × IsCopy words g'.heap.mem 4104 new_obj
    × (forward g' 4104 ≡ some (new_obj, g'))
forward-IsCopy_example = forward-IsCopy collection 4104 object-IsEvacuated
