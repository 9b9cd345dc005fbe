-- ===== src/Space.antt =====
-- src/heap.rs: a region of memory with bump allocation. `ptr` is the address of its first word; the
-- words themselves are in the memory that all spaces share (`Memory`), by byte address.
use smallishtalk.Base.{
  ℕ, ◌+◌, ◌-◌, ◌*◌, ◌/◌, Bool, ◌&&◌, Option, none, some, ltb, leb, ◌==◌, if◌then◌else◌,
}

-- The word at each 8-byte aligned address.
abbrev pub Memory : Type 0
Memory = ℕ → ℕ

abbrev pub write : Memory → ℕ → ℕ → Memory
write m addr w a = if a == addr then w else m a

pub record Space : Type 0 where
  pub ptr : ℕ
  pub words : ℕ
  pub alloc : ℕ

-- `ptr` is the address that the allocator gives.
unfoldable pub new : ℕ → ℕ → Space
new ptr bytes = record { ptr = ptr; words = bytes / 8; alloc = 0 }

abbrev pub base : Space → ℕ
base s = s.ptr

abbrev pub limit : Space → ℕ
limit s = base s + s.words * 8

abbrev pub top : Space → ℕ
top s = base s + s.alloc * 8

abbrev pub contains : Space → ℕ → Bool
contains s addr = leb (base s) addr && ltb addr (limit s)

pub bytes_remaining : Space → ℕ
bytes_remaining s = (s.words - s.alloc) * 8

pub used_bytes : Space → ℕ
used_bytes s = s.alloc * 8

unfoldable pub alloc_words : Space → ℕ → Option (ℕ × Space)
alloc_words s n =
    if ltb s.words (s.alloc + n)
    then none
    else some (base s + s.alloc * 8, record s { alloc = s.alloc + n })

-- Zero the whole region and empty it.
unfoldable pub reset : Memory → Space → Memory × Space
reset m s = ((λ a. if contains s a then 0 else m a), record s { alloc = 0 })
