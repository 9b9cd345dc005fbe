-- ===== src/Treaty/Frames.antt =====
-- src/treaty.rs: the slots and flags of a frame, and the limits of frames, stacks and spaces.
use smallishtalk.Base.{ℕ, ◌*◌}

-- Frame layout (A.1, §7)
abbrev pub frame_caller : ℕ
frame_caller = 0

abbrev pub frame_retinfo : ℕ
frame_retinfo = 1

abbrev pub frame_method : ℕ
frame_method = 2

abbrev pub frame_flags : ℕ
frame_flags = 3

abbrev pub frame_receiver : ℕ
frame_receiver = 4

abbrev pub frame_fixed : ℕ
frame_fixed = 5

abbrev pub flag_handler : ℕ
flag_handler = 1

abbrev pub flag_ensure : ℕ
flag_ensure = 2

abbrev pub flag_blockctx : ℕ
flag_blockctx = 4

abbrev pub flag_unwindcont : ℕ
flag_unwindcont = 8

abbrev pub serial_shift : ℕ
serial_shift = 32

abbrev pub retinfo_dest_bits : ℕ
retinfo_dest_bits = 8

abbrev pub retinfo_pc_shift : ℕ
retinfo_pc_shift = 8

-- Limits (§6, §7, §14)
abbrev pub max_frame_slots : ℕ
max_frame_slots = 255

abbrev pub max_method_instructions : ℕ
max_method_instructions = 65536

abbrev pub max_literals : ℕ
max_literals = 65536

abbrev pub max_send_sites : ℕ
max_send_sites = 255

abbrev pub lookup_cache_size : ℕ
lookup_cache_size = 4096

abbrev pub initial_stack_bytes : ℕ
initial_stack_bytes = 4096

abbrev pub default_max_stack_bytes : ℕ
default_max_stack_bytes = 16 * 1024 * 1024

abbrev pub young_space_bytes_default : ℕ
young_space_bytes_default = 8 * 1024 * 1024

abbrev pub large_object_bytes : ℕ
large_object_bytes = 65536

abbrev pub tenure_age : ℕ
tenure_age = 4
