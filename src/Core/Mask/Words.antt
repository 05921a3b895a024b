-- ===== src/Core/Mask/Words.antt =====
-- The bits of the mask of a width.

use Prim.Native.Nat.{bit_and}
use sturm_cpp.Common.{ℕ, ◌≤◌, ◌≡◌, ◌∙◌, ap, ◌&&◌, ltb, arith}
use sturm_cpp.Common.Bits.{test_bit, test_bit-bit_and, test_bit-zero, test_bit-ones}
use sturm_cpp.Core.Mask.{width_mask}

pub test_bit-width_mask : (width i : ℕ) → width ≤ 64 → test_bit (width_mask width) i ≡ ltb i width
unfolding width_mask
test_bit-width_mask width i h =
    ground (arith, test_bit-zero i, test_bit-ones width i, test_bit-ones 64 i)

pub masked :
    (x width i : ℕ)
    → width ≤ 64
    → test_bit (bit_and x (width_mask width)) i ≡ test_bit x i && ltb i width
masked x width i w =
    test_bit-bit_and x (width_mask width) i
    ∙ ap (λ b. test_bit x i && b) (test_bit-width_mask width i w)
