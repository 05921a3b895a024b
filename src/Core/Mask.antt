-- ===== src/Core/Mask.antt =====
-- The masks of superposed bits, include/sturm/core/mask_ops.hpp: 64-bit words as numbers. A
-- width or a shift is a C++ `int`; all negative ones act like 0, which stands for them here.
mod Words
pub mod Carry
pub mod Shifts
pub mod Bounds
use Prim.Native.Nat.{bit_and, bit_or}
use sturm_cpp.Common.{ℕ, zero, suc, ◌+◌, ◌-◌, ◌*◌, ◌/◌, ◌%◌, ◌^◌, ◌==◌, leb, if◌then◌else◌}

-- `~0ULL`
abbrev pub all_ones : ℕ
all_ones = 2 ^ 64 - 1

unfoldable pub width_mask : ℕ → ℕ
width_mask width = if leb width 0 then 0 else if leb 64 width then all_ones else 2 ^ width - 1

unfoldable pub mask_bitwise : ℕ → ℕ → ℕ
mask_bitwise a b = bit_or a b

unfoldable pub mask_not : ℕ → ℕ
mask_not a = a

unfoldable pub mask_shl : ℕ → ℕ → ℕ → ℕ
unfolding width_mask
mask_shl a n width =
    if leb n 0
    then bit_and a (width_mask width)
    else if leb width n
    then 0
    else bit_and (a * 2 ^ n % 2 ^ 64) (width_mask width)

unfoldable pub mask_shr : ℕ → ℕ → ℕ → ℕ
unfolding width_mask
mask_shr a n width =
    if leb n 0
    then bit_and a (width_mask width)
    else if leb 64 n
    then 0
    else if leb width n
    then 0
    else bit_and (a / 2 ^ n) (width_mask width)

-- The loop that looks for the lowest set bit of a word that is not 0, on fuel.
unfoldable pub lowest_loop : ℕ → ℕ → ℕ → ℕ
lowest_loop zero lowest tmp = lowest
lowest_loop (suc fuel) lowest tmp =
    let next = lowest_loop fuel (suc lowest) (tmp / 2) in
    if bit_and tmp 1 == 0 then next else lowest

-- A word has 64 bits.
unfoldable pub lowest_set : ℕ → ℕ
unfolding lowest_loop
lowest_set m = lowest_loop 64 0 m

unfoldable pub mask_addsub : ℕ → ℕ → ℕ → ℕ
unfolding width_mask lowest_set
mask_addsub a b width =
    let m = bit_or a b in
    let carry_fill = all_ones * 2 ^ lowest_set m % 2 ^ 64 in
    if m == 0 then 0 else bit_and (bit_or m carry_fill) (width_mask width)

unfoldable pub mask_muldiv : ℕ → ℕ → ℕ → ℕ
unfolding width_mask
mask_muldiv a b width = if bit_or a b == 0 then 0 else width_mask width
