-- ===== src/Treaty/Classes.antt =====
-- src/treaty.rs: the reserved class indices.
use smallishtalk.Base.{ℕ}

-- Treaty class indices (A.3)
abbrev pub class_object : ℕ
class_object = 1

abbrev pub class_behavior : ℕ
class_behavior = 2

abbrev pub class_class : ℕ
class_class = 3

abbrev pub class_metaclass : ℕ
class_metaclass = 4

abbrev pub class_undefined_object : ℕ
class_undefined_object = 5

abbrev pub class_true : ℕ
class_true = 6

abbrev pub class_false : ℕ
class_false = 7

abbrev pub class_smallinteger : ℕ
class_smallinteger = 8

abbrev pub class_float : ℕ
class_float = 9

abbrev pub class_character : ℕ
class_character = 10

abbrev pub class_string : ℕ
class_string = 11

abbrev pub class_bytestring : ℕ
class_bytestring = 12

abbrev pub class_symbol : ℕ
class_symbol = 13

abbrev pub class_large_positive_integer : ℕ
class_large_positive_integer = 14

abbrev pub class_large_negative_integer : ℕ
class_large_negative_integer = 15

abbrev pub class_array : ℕ
class_array = 16

abbrev pub class_bytearray : ℕ
class_bytearray = 17

abbrev pub class_ordered_collection : ℕ
class_ordered_collection = 18

abbrev pub class_association : ℕ
class_association = 19

abbrev pub class_box : ℕ
class_box = 20

abbrev pub class_blockclosure : ℕ
class_blockclosure = 21

abbrev pub class_compiledmethod : ℕ
class_compiledmethod = 22

abbrev pub class_compiledblock : ℕ
class_compiledblock = 23

abbrev pub class_process : ℕ
class_process = 24

abbrev pub class_semaphore : ℕ
class_semaphore = 25

abbrev pub class_methoddictionary : ℕ
class_methoddictionary = 26

abbrev pub class_processor_scheduler : ℕ
class_processor_scheduler = 27

abbrev pub class_message : ℕ
class_message = 28

abbrev pub class_system_dictionary : ℕ
class_system_dictionary = 29

abbrev pub class_stack : ℕ
class_stack = 30

abbrev pub class_linked_list : ℕ
class_linked_list = 31

abbrev pub first_unreserved_class_index : ℕ
first_unreserved_class_index = 64
