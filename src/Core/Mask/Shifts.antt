-- ===== src/Core/Mask/Shifts.antt =====
-- Which bits a shifted mask has.

use Prim.Native.Nat.{bit_and}
use sturm_cpp.Common.{
  ℕ, zero, suc, ◌+◌, ◌-◌, ◌*◌, ◌/◌, ◌%◌, ◌^◌, ◌≤◌, ◌<◌, ◌≡◌, ◌∙◌, ap, sym, refl, Bool, true, false,
  ◌&&◌, leb, ltb, arith, if◌then◌else◌,
}
use native.Mathlib.Nat.{mod-eq_of_lt}
use sturm_cpp.Common.Bits.{
  test_bit, test_bit-shift_right, test_bit-zero, test_bit-shift, test_bit-mod,
}
use sturm_cpp.Core.Mask.{width_mask, mask_shl, mask_shr}
use sturm_cpp.Core.Mask.Words.{masked}

if-at :
    (c : Bool) (x y i : ℕ)
    → test_bit (if c then x else y) i ≡ (if c then test_bit x i else test_bit y i)
if-at true x y i = refl
if-at false x y i = refl

-- A number below `2 ^ w` has no bit from `w` on.
test_bit-high : (a w i : ℕ) → a < 2 ^ w → test_bit a i ≡ ltb i w && test_bit a i
test_bit-high a w i h = ap (λ k. test_bit k i) (sym (mod-eq_of_lt h)) ∙ test_bit-mod a w i

shl-bit :
    (a n width i : ℕ)
    → width ≤ 64
    → test_bit (bit_and (a * 2 ^ n % 2 ^ 64) (width_mask width)) i
      ≡ (ltb i 64 && (if ltb i n then false else test_bit a (i - n))) && ltb i width
shl-bit a n width i w =
    masked (a * 2 ^ n % 2 ^ 64) width i w
    ∙ ap (λ b. b && ltb i width)
        (test_bit-mod (a * 2 ^ n) 64 i ∙ ap (λ b. ltb i 64 && b) (test_bit-shift a n i))

positive : (n x y i : ℕ) → test_bit (if leb (suc n) 0 then x else y) i ≡ test_bit y i
positive n x y i =
    let e : leb (suc n) 0 ≡ false = ground arith in ap (λ b. test_bit (if b then x else y) i) e

test_bit-mask_shl :
    (a n width i : ℕ)
    → width ≤ 64
    → test_bit (mask_shl a n width) i ≡ ltb i width && (leb n i && test_bit a (i - n))
unfolding mask_shl
test_bit-mask_shl a zero width i w = masked a width i w ∙ ground arith
test_bit-mask_shl a (suc n) width i w =
    let shifted : ℕ = bit_and (a * 2 ^ suc n % 2 ^ 64) (width_mask width) in
    positive n (bit_and a (width_mask width)) (if leb width (suc n) then 0 else shifted) i
    ∙ if-at (leb width (suc n)) 0 (bit_and (a * 2 ^ suc n % 2 ^ 64) (width_mask width)) i
    ∙ ground (arith, test_bit-zero i, shl-bit a (suc n) width i w)

test_bit-mask_shr :
    (a n width i : ℕ)
    → width ≤ 64
    → a < 2 ^ width
    → test_bit (mask_shr a n width) i ≡ test_bit a (i + n)
unfolding mask_shr
test_bit-mask_shr a zero width i w h =
    masked a width i w ∙ ground (arith, test_bit-high a width i h)
test_bit-mask_shr a (suc n) width i w h =
    let shifted : ℕ = bit_and (a / 2 ^ suc n) (width_mask width) in
    positive n (bit_and a (width_mask width))
      (if leb 64 (suc n) then 0 else if leb width (suc n) then 0 else shifted) i
    ∙ if-at (leb 64 (suc n)) 0
        (if leb width (suc n) then 0 else bit_and (a / 2 ^ suc n) (width_mask width)) i
    ∙ ap (λ b. if leb 64 (suc n) then test_bit 0 i else b)
        (if-at (leb width (suc n)) 0 (bit_and (a / 2 ^ suc n) (width_mask width)) i)
    ∙ ground (
      arith,
      test_bit-zero i,
      test_bit-high a width (i + suc n) h,
      masked (a / 2 ^ suc n) width i w,
      test_bit-shift_right a (suc n) i,
    )

-- For a width of at most 64 and a mask of that width, a shifted mask has below the width the
-- bits that the shift moves there, and no others.
pub test_bit-shifts :
    (a n width i : ℕ)
    → width ≤ 64
    → a < 2 ^ width
    → (test_bit (mask_shl a n width) i ≡ ltb i width && (leb n i && test_bit a (i - n)))
      × (test_bit (mask_shr a n width) i ≡ test_bit a (i + n))
test_bit-shifts a n width i w h =
    (test_bit-mask_shl a n width i w, test_bit-mask_shr a n width i w h)
