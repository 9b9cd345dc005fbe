-- ===== src/Treaty/Image.antt =====
-- src/treaty.rs: the offsets of the image header.
use smallishtalk.Base.{ℕ}

-- Image header (A.5)
abbrev pub img_magic_offset : ℕ
img_magic_offset = 0

abbrev pub img_version_offset : ℕ
img_version_offset = 4

abbrev pub img_flags_offset : ℕ
img_flags_offset = 8

abbrev pub img_saved_base_offset : ℕ
img_saved_base_offset = 16

abbrev pub img_old_space_size_offset : ℕ
img_old_space_size_offset = 24

abbrev pub img_special_objects_offset : ℕ
img_special_objects_offset = 32

abbrev pub img_class_list_offset : ℕ
img_class_list_offset = 40

abbrev pub img_active_process_offset : ℕ
img_active_process_offset = 48

abbrev pub img_reserved_offset : ℕ
img_reserved_offset = 56

abbrev pub img_header_size : ℕ
img_header_size = 64

abbrev pub img_magic : ℕ
img_magic = 0x4D495453
