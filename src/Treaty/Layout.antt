-- ===== src/Treaty/Layout.antt =====
-- src/treaty.rs: the slots of the objects that the VM reads.
use smallishtalk.Base.{ℕ}

-- Stack object layout (§7)
abbrev pub stack_owner : ℕ
stack_owner = 0

abbrev pub stack_frames_base : ℕ
stack_frames_base = 1

-- MethodDictionary layout (§4, §14)
abbrev pub mdict_keys : ℕ
mdict_keys = 0

abbrev pub mdict_values : ℕ
mdict_values = 1

abbrev pub mdict_num_vm_slots : ℕ
mdict_num_vm_slots = 2

-- Run-queue linked list (§13)
abbrev pub list_head : ℕ
list_head = 0

abbrev pub list_tail : ℕ
list_tail = 1

abbrev pub list_num_vm_slots : ℕ
list_num_vm_slots = 2

abbrev pub handler_slot_class : ℕ
handler_slot_class = 0

abbrev pub handler_slot_block : ℕ
handler_slot_block = 1

abbrev pub handler_slot_state : ℕ
handler_slot_state = 2

abbrev pub handler_state_armed : ℕ
handler_state_armed = 1

abbrev pub handler_state_in_progress : ℕ
handler_state_in_progress = 2

abbrev pub ensure_slot_block : ℕ
ensure_slot_block = 0

abbrev pub ensure_slot_pending_target : ℕ
ensure_slot_pending_target = 1

abbrev pub ensure_slot_pending_serial : ℕ
ensure_slot_pending_serial = 2

abbrev pub ensure_slot_pending_value : ℕ
ensure_slot_pending_value = 3

-- Indices into the specializedSelectors array (A.4 index 7)
abbrev pub specsel_plus : ℕ
specsel_plus = 0

abbrev pub specsel_minus : ℕ
specsel_minus = 1

abbrev pub specsel_times : ℕ
specsel_times = 2

abbrev pub specsel_int_div : ℕ
specsel_int_div = 3

abbrev pub specsel_mod : ℕ
specsel_mod = 4

abbrev pub specsel_lt : ℕ
specsel_lt = 5

abbrev pub specsel_gt : ℕ
specsel_gt = 6

abbrev pub specsel_le : ℕ
specsel_le = 7

abbrev pub specsel_ge : ℕ
specsel_ge = 8

abbrev pub specsel_eq : ℕ
specsel_eq = 9

abbrev pub specsel_identical : ℕ
specsel_identical = 10

abbrev pub specsel_at : ℕ
specsel_at = 11

abbrev pub specsel_at_put : ℕ
specsel_at_put = 12

abbrev pub specsel_size : ℕ
specsel_size = 13

abbrev pub specsel_class : ℕ
specsel_class = 14

abbrev pub specsel_not : ℕ
specsel_not = 15

abbrev pub specsel_count : ℕ
specsel_count = 16

-- Behavior slots (§4)
abbrev pub behavior_superclass : ℕ
behavior_superclass = 0

abbrev pub behavior_method_dictionary : ℕ
behavior_method_dictionary = 1

abbrev pub behavior_format_and_slots : ℕ
behavior_format_and_slots = 2

abbrev pub behavior_class_index : ℕ
behavior_class_index = 3

abbrev pub behavior_num_vm_slots : ℕ
behavior_num_vm_slots = 4

abbrev pub format_and_slots_format_shift : ℕ
format_and_slots_format_shift = 16

abbrev pub format_and_slots_nslots_mask : ℕ
format_and_slots_nslots_mask = 0xFFFF

-- Process slots (§7)
abbrev pub process_stack : ℕ
process_stack = 0

abbrev pub process_frame_offset : ℕ
process_frame_offset = 1

abbrev pub process_pc : ℕ
process_pc = 2

abbrev pub process_priority : ℕ
process_priority = 3

abbrev pub process_next_link : ℕ
process_next_link = 4

abbrev pub process_my_list : ℕ
process_my_list = 5

abbrev pub process_serial_counter : ℕ
process_serial_counter = 6

abbrev pub process_num_vm_slots : ℕ
process_num_vm_slots = 7

-- Semaphore slots (§13)
abbrev pub semaphore_excess_signals : ℕ
semaphore_excess_signals = 0

abbrev pub semaphore_queue_head : ℕ
semaphore_queue_head = 1

abbrev pub semaphore_queue_tail : ℕ
semaphore_queue_tail = 2

abbrev pub semaphore_num_vm_slots : ℕ
semaphore_num_vm_slots = 3

-- ProcessorScheduler slots (§13)
abbrev pub scheduler_queues : ℕ
scheduler_queues = 0

abbrev pub scheduler_active_process : ℕ
scheduler_active_process = 1

abbrev pub scheduler_num_vm_slots : ℕ
scheduler_num_vm_slots = 2

abbrev pub num_priorities : ℕ
num_priorities = 8

-- CompiledMethod / CompiledBlock slots (§9)
abbrev pub method_header : ℕ
method_header = 0

abbrev pub method_bytecodes : ℕ
method_bytecodes = 1

abbrev pub method_literals : ℕ
method_literals = 2

abbrev pub method_send_sites : ℕ
method_send_sites = 3

abbrev pub method_selector : ℕ
method_selector = 4

abbrev pub method_class : ℕ
method_class = 5

abbrev pub method_source_info : ℕ
method_source_info = 6

abbrev pub method_num_slots : ℕ
method_num_slots = 7

abbrev pub block_header : ℕ
block_header = 0

abbrev pub block_bytecodes : ℕ
block_bytecodes = 1

abbrev pub block_literals : ℕ
block_literals = 2

abbrev pub block_send_sites : ℕ
block_send_sites = 3

abbrev pub block_outer_method : ℕ
block_outer_method = 4

abbrev pub block_info : ℕ
block_info = 5

abbrev pub block_num_slots : ℕ
block_num_slots = 6

-- Method header packing (§9)
abbrev pub mh_frame_slots_shift : ℕ
mh_frame_slots_shift = 0

abbrev pub mh_frame_slots_bits : ℕ
mh_frame_slots_bits = 8

abbrev pub mh_argc_shift : ℕ
mh_argc_shift = 8

abbrev pub mh_argc_bits : ℕ
mh_argc_bits = 4

abbrev pub mh_primitive_shift : ℕ
mh_primitive_shift = 12

abbrev pub mh_primitive_bits : ℕ
mh_primitive_bits = 12

abbrev pub mh_has_primitive_shift : ℕ
mh_has_primitive_shift = 24

abbrev pub mh_handler_slot_base_shift : ℕ
mh_handler_slot_base_shift = 25

abbrev pub mh_handler_slot_base_bits : ℕ
mh_handler_slot_base_bits = 8

abbrev pub mh_flags_shift : ℕ
mh_flags_shift = 33

abbrev pub mh_flag_is_handler : ℕ
mh_flag_is_handler = 1

abbrev pub mh_flag_is_ensure : ℕ
mh_flag_is_ensure = 2

-- CompiledBlock blockInfo packing (§9)
abbrev pub bi_num_captured_shift : ℕ
bi_num_captured_shift = 0

abbrev pub bi_num_captured_bits : ℕ
bi_num_captured_bits = 8

abbrev pub bi_has_nlr_shift : ℕ
bi_has_nlr_shift = 8

-- BlockClosure slots (§10)
abbrev pub closure_compiled_block : ℕ
closure_compiled_block = 0

abbrev pub closure_home_process : ℕ
closure_home_process = 1

abbrev pub closure_home_offset : ℕ
closure_home_offset = 2

abbrev pub closure_home_serial : ℕ
closure_home_serial = 3

abbrev pub closure_captured_base : ℕ
closure_captured_base = 4

-- Send-site entry layout (§8)
abbrev pub site_selector : ℕ
site_selector = 0

abbrev pub site_argc : ℕ
site_argc = 1

abbrev pub site_cache_class : ℕ
site_cache_class = 2

abbrev pub site_cache_method : ℕ
site_cache_method = 3

abbrev pub site_static_class : ℕ
site_static_class = 4

abbrev pub site_stride : ℕ
site_stride = 5

-- Special objects array (A.4)
abbrev pub special_nil : ℕ
special_nil = 0

abbrev pub special_true : ℕ
special_true = 1

abbrev pub special_false : ℕ
special_false = 2

abbrev pub special_smalltalk : ℕ
special_smalltalk = 3

abbrev pub special_processor : ℕ
special_processor = 4

abbrev pub special_class_list : ℕ
special_class_list = 5

abbrev pub special_symbol_table : ℕ
special_symbol_table = 6

abbrev pub special_specialized_selectors : ℕ
special_specialized_selectors = 7

abbrev pub special_sel_does_not_understand : ℕ
special_sel_does_not_understand = 8

abbrev pub special_sel_must_be_boolean : ℕ
special_sel_must_be_boolean = 9

abbrev pub special_terminate_trampoline : ℕ
special_terminate_trampoline = 10

abbrev pub special_low_space_semaphore : ℕ
special_low_space_semaphore = 11

abbrev pub special_timer_semaphore : ℕ
special_timer_semaphore = 12

abbrev pub special_objects_count : ℕ
special_objects_count = 13
