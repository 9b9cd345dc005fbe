-- ===== src/Value/Tests.antt =====
-- Examples for src/value.rs.
use smallishtalk.Base.{◌<◌, ◌≡◌, refl, ◌↔◌, true, false, some, ◌%◌}
use smallishtalk.Base.Int.{negsuc}
use smallishtalk.Base.Words.{u64_mod}
use smallishtalk.Value.{is_int, is_ptr, as_int, as_ptr, try_from_int, from_ptr}
use smallishtalk.Value.Tagging.{try_from_int_iff, from_ptr_iff}

-- The word of -3 is 2^64 - 5.
try_from_int_minus_three : try_from_int (negsuc 2) ≡ some 18446744073709551611
unfolding try_from_int
try_from_int_minus_three = refl

try_from_int_iff_example : try_from_int (negsuc 2) ≡ some 18446744073709551611 ↔ (
    (18446744073709551611 < u64_mod)
    × (is_int 18446744073709551611 ≡ true)
    × (as_int 18446744073709551611 ≡ negsuc 2))
try_from_int_iff_example = try_from_int_iff (negsuc 2) 18446744073709551611

from_ptr_iff_example :
    from_ptr 4096 ≡ some 4096
    ↔ ((is_ptr 4096 ≡ true) × (is_int 4096 ≡ false) × (as_ptr 4096 ≡ 4096) × (4096 % 8 ≡ 0))
from_ptr_iff_example = from_ptr_iff 4096 4096
