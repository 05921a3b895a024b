-- ===== src/Core/Tests/Masks.antt =====
-- Masks of words of eight bits.

use sturm_cpp.Common.{◌^◌, ◌<◌, ◌≡◌, refl, ◌&&◌, ◌||◌, ltb, leb, arith}
use sturm_cpp.Common.Bits.{test_bit}
use sturm_cpp.Core.Mask.{mask_shl, mask_shr, mask_addsub, mask_muldiv}
use sturm_cpp.Core.Mask.Carry.{set_upto, test_bit-mask_addsub}
use sturm_cpp.Core.Mask.Shifts.{test_bit-shifts}
use sturm_cpp.Core.Mask.Bounds.{masks-lt}

add_12_0 : mask_addsub 12 0 8 ≡ 252
unfolding mask_addsub
add_12_0 = refl

test_bit-mask_addsub_example :
    test_bit (mask_addsub 12 32 8) 5 ≡ ltb 5 8 && (set_upto 12 5 || set_upto 32 5)
test_bit-mask_addsub_example =
    test_bit-mask_addsub 12 32 8 5 (omega arith) (omega arith) (omega arith)

test_bit-shifts_example :
    (test_bit (mask_shl 12 3 8) 6 ≡ ltb 6 8 && (leb 3 6 && test_bit 12 3))
    × (test_bit (mask_shr 12 3 8) 6 ≡ test_bit 12 9)
test_bit-shifts_example = test_bit-shifts 12 3 8 6 (omega arith) (omega arith)

masks-lt_example :
    (mask_shl 12 3 8 < 2 ^ 8)
    × (mask_shr 12 3 8 < 2 ^ 8)
    × (mask_addsub 12 1 8 < 2 ^ 8)
    × (mask_muldiv 12 1 8 < 2 ^ 8)
masks-lt_example = masks-lt 12 1 3 8 (omega arith)
