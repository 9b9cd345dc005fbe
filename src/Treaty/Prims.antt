-- ===== src/Treaty/Prims.antt =====
-- src/treaty.rs: the primitive numbers.
use smallishtalk.Base.{ℕ}

-- Primitive numbers (A.3)
abbrev pub prim_class : ℕ
prim_class = 1

abbrev pub prim_identity_hash : ℕ
prim_identity_hash = 2

abbrev pub prim_identical : ℕ
prim_identical = 3

abbrev pub prim_new : ℕ
prim_new = 4

abbrev pub prim_new_sized : ℕ
prim_new_sized = 5

abbrev pub prim_at : ℕ
prim_at = 6

abbrev pub prim_at_put : ℕ
prim_at_put = 7

abbrev pub prim_size : ℕ
prim_size = 8

abbrev pub prim_inst_var_at : ℕ
prim_inst_var_at = 9

abbrev pub prim_inst_var_at_put : ℕ
prim_inst_var_at_put = 10

abbrev pub prim_perform_with_args : ℕ
prim_perform_with_args = 11

abbrev pub prim_int_add : ℕ
prim_int_add = 100

abbrev pub prim_int_sub : ℕ
prim_int_sub = 101

abbrev pub prim_int_mul : ℕ
prim_int_mul = 102

abbrev pub prim_int_div : ℕ
prim_int_div = 103

abbrev pub prim_int_mod : ℕ
prim_int_mod = 104

abbrev pub prim_int_quo : ℕ
prim_int_quo = 105

abbrev pub prim_int_lt : ℕ
prim_int_lt = 106

abbrev pub prim_int_gt : ℕ
prim_int_gt = 107

abbrev pub prim_int_le : ℕ
prim_int_le = 108

abbrev pub prim_int_ge : ℕ
prim_int_ge = 109

abbrev pub prim_int_eq : ℕ
prim_int_eq = 110

abbrev pub prim_int_bit_and : ℕ
prim_int_bit_and = 111

abbrev pub prim_int_bit_or : ℕ
prim_int_bit_or = 112

abbrev pub prim_int_bit_xor : ℕ
prim_int_bit_xor = 113

abbrev pub prim_int_bit_shift : ℕ
prim_int_bit_shift = 114

abbrev pub prim_int_as_float : ℕ
prim_int_as_float = 115

abbrev pub prim_float_add : ℕ
prim_float_add = 130

abbrev pub prim_float_sub : ℕ
prim_float_sub = 131

abbrev pub prim_float_mul : ℕ
prim_float_mul = 132

abbrev pub prim_float_div : ℕ
prim_float_div = 133

abbrev pub prim_float_lt : ℕ
prim_float_lt = 134

abbrev pub prim_float_gt : ℕ
prim_float_gt = 135

abbrev pub prim_float_le : ℕ
prim_float_le = 136

abbrev pub prim_float_ge : ℕ
prim_float_ge = 137

abbrev pub prim_float_eq : ℕ
prim_float_eq = 138

abbrev pub prim_float_truncated : ℕ
prim_float_truncated = 139

abbrev pub prim_float_sqrt : ℕ
prim_float_sqrt = 140

abbrev pub prim_block_value_0 : ℕ
prim_block_value_0 = 200

abbrev pub prim_block_value_1 : ℕ
prim_block_value_1 = 201

abbrev pub prim_block_value_2 : ℕ
prim_block_value_2 = 202

abbrev pub prim_block_value_3 : ℕ
prim_block_value_3 = 203

abbrev pub prim_block_value_4 : ℕ
prim_block_value_4 = 204

abbrev pub prim_block_value_args : ℕ
prim_block_value_args = 205

abbrev pub prim_transfer_to : ℕ
prim_transfer_to = 210

abbrev pub prim_semaphore_wait : ℕ
prim_semaphore_wait = 211

abbrev pub prim_semaphore_signal : ℕ
prim_semaphore_signal = 212

abbrev pub prim_yield : ℕ
prim_yield = 213

abbrev pub prim_process_suspend : ℕ
prim_process_suspend = 214

abbrev pub prim_process_resume : ℕ
prim_process_resume = 215

abbrev pub prim_process_terminate : ℕ
prim_process_terminate = 216

abbrev pub prim_find_handler : ℕ
prim_find_handler = 220

abbrev pub prim_unwind_to : ℕ
prim_unwind_to = 221

abbrev pub prim_handler_info : ℕ
prim_handler_info = 222

abbrev pub prim_set_handler_state : ℕ
prim_set_handler_state = 223

abbrev pub prim_signal_context : ℕ
prim_signal_context = 224

abbrev pub prim_file_open : ℕ
prim_file_open = 300

abbrev pub prim_file_close : ℕ
prim_file_close = 301

abbrev pub prim_file_read : ℕ
prim_file_read = 302

abbrev pub prim_file_write : ℕ
prim_file_write = 303

abbrev pub prim_file_position : ℕ
prim_file_position = 304

abbrev pub prim_file_set_position : ℕ
prim_file_set_position = 305

abbrev pub prim_file_size : ℕ
prim_file_size = 306

abbrev pub prim_file_delete : ℕ
prim_file_delete = 307

abbrev pub prim_stdio_write : ℕ
prim_stdio_write = 310

abbrev pub prim_stdio_read : ℕ
prim_stdio_read = 311

abbrev pub prim_clock_monotonic_ms : ℕ
prim_clock_monotonic_ms = 320

abbrev pub prim_clock_wall_ms : ℕ
prim_clock_wall_ms = 321

abbrev pub prim_signal_at_ms : ℕ
prim_signal_at_ms = 322

abbrev pub prim_clock_monotonic_ns : ℕ
prim_clock_monotonic_ns = 323

abbrev pub prim_next_event : ℕ
prim_next_event = 330

abbrev pub prim_pixel_blit : ℕ
prim_pixel_blit = 331

abbrev pub prim_bitblt : ℕ
prim_bitblt = 332

abbrev pub prim_save_form : ℕ
prim_save_form = 333

abbrev pub prim_post_event : ℕ
prim_post_event = 334

abbrev pub prim_snapshot : ℕ
prim_snapshot = 400

abbrev pub prim_register_class : ℕ
prim_register_class = 401

abbrev pub prim_method_install : ℕ
prim_method_install = 402

abbrev pub prim_flush_caches : ℕ
prim_flush_caches = 403

abbrev pub prim_frame_info : ℕ
prim_frame_info = 410

abbrev pub prim_profiler_start : ℕ
prim_profiler_start = 420

abbrev pub prim_profiler_stop : ℕ
prim_profiler_stop = 421

abbrev pub prim_profiler_report : ℕ
prim_profiler_report = 422

abbrev pub prim_profiler_tree : ℕ
prim_profiler_tree = 423

abbrev pub prim_vm_counters : ℕ
prim_vm_counters = 424

abbrev pub prim_vm_counters_reset : ℕ
prim_vm_counters_reset = 425

abbrev pub prim_profiler_gate : ℕ
prim_profiler_gate = 426

abbrev pub prim_table_size : ℕ
prim_table_size = 4096
