-- ===== src/Core/Mask/Bounds.antt =====
-- The masks fit their width.

use Prim.Native.Nat.{bit_and, bit_or}
use sturm_cpp.Common.{
  ℕ, ◌*◌, ◌/◌, ◌%◌, ◌^◌, ◌≤◌, ◌<◌, Bool, true, false, ◌==◌, leb, arith, if◌then◌else◌,
}
use native.Mathlib.Nat.{one-le-pow}
use sturm_cpp.Common.Bits.{bit_and-le}
use sturm_cpp.Core.Mask.{
  all_ones, width_mask, mask_shl, mask_shr, lowest_set, mask_addsub, mask_muldiv,
}

width_mask-lt : (width : ℕ) → width ≤ 64 → width_mask width < 2 ^ width
unfolding width_mask
width_mask-lt width w = ground (arith, one-le-pow width 2)

masked-lt : (x width : ℕ) → width ≤ 64 → bit_and x (width_mask width) < 2 ^ width
masked-lt x width w = omega (arith, bit_and-le x (width_mask width), width_mask-lt width w)

if-lt : (c : Bool) {x y k : ℕ} → x < k → y < k → (if c then x else y) < k
if-lt true h l = h
if-lt false h l = l

-- For a width of at most 64 the masks of shifts, sums and products are below `2 ^ width`,
-- whatever the masks of the operands are.
pub masks-lt :
    (a b n width : ℕ)
    → width ≤ 64
    → (mask_shl a n width < 2 ^ width)
      × (mask_shr a n width < 2 ^ width)
      × (mask_addsub a b width < 2 ^ width)
      × (mask_muldiv a b width < 2 ^ width)
unfolding mask_shl mask_shr mask_addsub mask_muldiv
masks-lt a b n width w =
    let p : 0 < 2 ^ width = one-le-pow width 2 (omega arith) in
    (
      if-lt (leb n 0) (masked-lt a width w)
          (if-lt (leb width n) p (masked-lt (a * 2 ^ n % 2 ^ 64) width w)),
      if-lt (leb n 0) (masked-lt a width w)
          (if-lt (leb 64 n) p (if-lt (leb width n) p (masked-lt (a / 2 ^ n) width w))),
      if-lt (bit_or a b == 0) p (
          masked-lt (bit_or (bit_or a b) (all_ones * 2 ^ lowest_set (bit_or a b) % 2 ^ 64)) width
            w),
      if-lt (bit_or a b == 0) p (width_mask-lt width w),
    )
