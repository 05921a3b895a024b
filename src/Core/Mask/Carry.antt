-- ===== src/Core/Mask/Carry.antt =====
-- Which bits the mask of a sum or a difference has.

use Prim.Native.Nat.{bit_and, bit_or}
use sturm_cpp.Common.{
  ℕ, zero, suc, ◌-◌, ◌*◌, ◌/◌, ◌%◌, ◌^◌, ◌≤◌, ◌<◌, ◌≡◌, ◌≢◌, ◌∙◌, ap, sym, refl, Bool, true, false,
  ◌&&◌, ◌||◌, ◌==◌, leb, ltb, arith, if◌then◌else◌,
}
use native.Mathlib.Nat.{pow-suc}
use native.Mathlib.Decide.{dec_lt}
use sturm_cpp.Common.Bits.{
  test_bit, bit_and-one, bit_or-lt, test_bit-bit_and, test_bit-bit_or, test_bit-zero, test_bit-ones,
  test_bit-shift, test_bit-mod,
}
use sturm_cpp.Core.Mask.{all_ones, width_mask, lowest_loop, lowest_set, mask_addsub}
use sturm_cpp.Core.Mask.Words.{test_bit-width_mask}

-- One of the bits up to `i` is set.
unfoldable pub set_upto : ℕ → ℕ → Bool
unfolding test_bit
set_upto m zero = test_bit m 0
set_upto m (suc i) = set_upto m i || test_bit m (suc i)

set_upto-step : (m i : ℕ) → set_upto m (suc i) ≡ test_bit m 0 || set_upto (m / 2) i
unfolding set_upto test_bit
set_upto-step m zero = refl
set_upto-step m (suc i) = ground (arith, set_upto-step m i)

lowest_loop-suc : (fuel lo m : ℕ) → lowest_loop fuel (suc lo) m ≡ suc (lowest_loop fuel lo m)
unfolding lowest_loop
lowest_loop-suc zero lo m = refl
lowest_loop-suc (suc fuel) lo m = ground (arith, lowest_loop-suc fuel (suc lo) (m / 2))

lowest_loop-lowest :
    (fuel m i : ℕ) → m < 2 ^ fuel → m ≢ 0 → set_upto m i ≡ leb (lowest_loop fuel 0 m) i
unfolding lowest_loop set_upto test_bit
lowest_loop-lowest zero m i h n = absurd (n (omega arith))
lowest_loop-lowest (suc fuel) m zero h n =
    ground (arith, bit_and-one m, lowest_loop-suc fuel 0 (m / 2))
lowest_loop-lowest (suc fuel) m (suc i) h n =
    let l : m / 2 < 2 ^ fuel = omega (arith, pow-suc 2 fuel) in
    elim (dec_lt (m % 2) 1) [
      | yes e ↦
          let k : m / 2 ≢ 0 = λ z. n (omega arith) in
          ground (
            arith,
            set_upto-step m i,
            bit_and-one m,
            lowest_loop-suc fuel 0 (m / 2),
            lowest_loop-lowest fuel (m / 2) i l k,
          )
      | no e ↦ ground (arith, set_upto-step m i, bit_and-one m)
    ]

test_bit-carry_fill : (l i : ℕ) → test_bit (all_ones * 2 ^ l % 2 ^ 64) i ≡ leb l i && ltb i 64
test_bit-carry_fill l i = ground (
  arith,
  test_bit-mod (all_ones * 2 ^ l) 64 i,
  test_bit-shift all_ones l i,
  test_bit-ones 64 (i - l),
)

or-zero : (a b : ℕ) → bit_or a b ≡ 0 → (i : ℕ) → set_upto a i || set_upto b i ≡ false
unfolding set_upto
or-zero a b e zero =
    ground (arith, test_bit-bit_or a b 0, ap (λ n. test_bit n 0) e, test_bit-zero 0)
or-zero a b e (suc i) = ground (
  arith,
  or-zero a b e i,
  test_bit-bit_or a b (suc i),
  ap (λ n. test_bit n (suc i)) e,
  test_bit-zero (suc i),
)

set_upto-bit_or : (a b i : ℕ) → set_upto (bit_or a b) i ≡ set_upto a i || set_upto b i
unfolding set_upto
set_upto-bit_or a b zero = test_bit-bit_or a b 0
set_upto-bit_or a b (suc i) = ground (arith, set_upto-bit_or a b i, test_bit-bit_or a b (suc i))

set_upto-last : (m i : ℕ) → (test_bit m i || set_upto m i) ≡ set_upto m i
unfolding set_upto
set_upto-last m zero = ground arith
set_upto-last m (suc i) = ground arith

-- What is set up to `i`, cut at the width, does not need the bound of the word.
cut :
    (t s word width : Bool)
    → (t || s) ≡ s
    → (width ≡ true → word ≡ true)
    → ((t || (s && word)) && width) ≡ width && s
cut true true word width h g = ground (arith, g)
cut true false word width h g = ground (arith, h)
cut false s word width h g = ground (arith, g)

filled :
    (m l width i : ℕ)
    → width ≤ 64
    → test_bit (bit_and (bit_or m (all_ones * 2 ^ l % 2 ^ 64)) (width_mask width)) i
      ≡ (test_bit m i || (leb l i && ltb i 64)) && ltb i width
filled m l width i w =
    test_bit-bit_and (bit_or m (all_ones * 2 ^ l % 2 ^ 64)) (width_mask width) i
    ∙ ap (λ b. b && test_bit (width_mask width) i) (test_bit-bit_or m (all_ones * 2 ^ l % 2 ^ 64) i)
    ∙ ap (λ b. (test_bit m i || b) && test_bit (width_mask width) i) (test_bit-carry_fill l i)
    ∙ ap (λ b. (test_bit m i || (leb l i && ltb i 64)) && b) (test_bit-width_mask width i w)

carried :
    (m width i : ℕ)
    → width ≤ 64
    → m < 2 ^ 64
    → m ≢ 0
    → test_bit (bit_and (bit_or m (all_ones * 2 ^ lowest_set m % 2 ^ 64)) (width_mask width)) i
      ≡ ltb i width && set_upto m i
unfolding lowest_set
carried m width i w h n =
    filled m (lowest_loop 64 0 m) width i w
    ∙ ap (λ b. (test_bit m i || (b && ltb i 64)) && ltb i width)
        (sym (lowest_loop-lowest 64 m i h n))
    ∙ cut (test_bit m i) (set_upto m i) (ltb i 64) (ltb i width) (set_upto-last m i)
        (λ e. ground arith)

guarded :
    (m x i : ℕ) {b : Bool}
    → (m ≡ 0 → b ≡ false)
    → (m ≢ 0 → test_bit x i ≡ b)
    → test_bit (if m == 0 then 0 else x) i ≡ b
guarded zero x i h g = test_bit-zero i ∙ sym (h refl)
guarded (suc m) x i h g =
    let e : (if suc m == 0 then 0 else x) ≡ x = ground arith in
    ap (λ k. test_bit k i) e ∙ g (λ e. omega arith)

-- The mask of a sum or a difference of two masks of 64 bits, for a width of at most 64, has
-- bit `i` exactly when `i` is below the width and one of the masks has a bit that is not
-- above `i`: the carry may reach every bit above the lowest uncertain one.
pub test_bit-mask_addsub :
    (a b width i : ℕ)
    → width ≤ 64
    → a < 2 ^ 64
    → b < 2 ^ 64
    → test_bit (mask_addsub a b width) i ≡ ltb i width && (set_upto a i || set_upto b i)
unfolding mask_addsub
test_bit-mask_addsub a b width i w h l =
    let m : ℕ = bit_or a b in
    guarded m (bit_and (bit_or m (all_ones * 2 ^ lowest_set m % 2 ^ 64)) (width_mask width)) i
      (λ e. ap (λ s. ltb i width && s) (or-zero a b e i) ∙ ground arith)
      (λ n.
        carried m width i w (bit_or-lt 64 a b h l) n
        ∙ ap (λ s. ltb i width && s) (set_upto-bit_or a b i))
