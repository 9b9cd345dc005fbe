-- ===== src/Treaty/Words.antt =====
-- src/treaty.rs: the tags of a value, the fields of an object header, the formats and the gc bits.
use smallishtalk.Base.{ℕ}

-- Tags (A.1)
abbrev pub tag_int_bit : ℕ
tag_int_bit = 0x1

abbrev pub tag_ptr_mask : ℕ
tag_ptr_mask = 0x7

abbrev pub tag_ptr : ℕ
tag_ptr = 0x0

abbrev pub tag_float_imm : ℕ
tag_float_imm = 0x2

abbrev pub smallint_bits : ℕ
smallint_bits = 63

-- Object header (A.1)
abbrev pub hdr_class_shift : ℕ
hdr_class_shift = 42

abbrev pub hdr_class_bits : ℕ
hdr_class_bits = 22

abbrev pub hdr_hash_shift : ℕ
hdr_hash_shift = 20

abbrev pub hdr_hash_bits : ℕ
hdr_hash_bits = 22

abbrev pub hdr_nslots_shift : ℕ
hdr_nslots_shift = 12

abbrev pub hdr_nslots_bits : ℕ
hdr_nslots_bits = 8

abbrev pub hdr_nslots_overflow : ℕ
hdr_nslots_overflow = 255

abbrev pub hdr_format_shift : ℕ
hdr_format_shift = 8

abbrev pub hdr_format_bits : ℕ
hdr_format_bits = 4

abbrev pub hdr_gc_shift : ℕ
hdr_gc_shift = 0

abbrev pub hdr_gc_bits : ℕ
hdr_gc_bits = 8

abbrev pub gc_bit_mark : ℕ
gc_bit_mark = 1

abbrev pub gc_bit_remembered : ℕ
gc_bit_remembered = 2

abbrev pub gc_bit_pinned : ℕ
gc_bit_pinned = 4

abbrev pub gc_age_shift : ℕ
gc_age_shift = 3

abbrev pub gc_age_bits : ℕ
gc_age_bits = 3

abbrev pub gc_bit_immutable : ℕ
gc_bit_immutable = 128

-- Formats (§3)
abbrev pub fmt_fixed : ℕ
fmt_fixed = 0

abbrev pub fmt_ptrs : ℕ
fmt_ptrs = 1

abbrev pub fmt_bytes_base : ℕ
fmt_bytes_base = 8
