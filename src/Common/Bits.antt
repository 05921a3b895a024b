-- ===== src/Common/Bits.antt =====
-- The bits of native numbers, and the bitwise operations at them.

use Prim.Native.Nat.{
  ℕ, zero, suc, ◌+◌, ◌-◌, ◌*◌, ◌/◌, ◌%◌, ◌^◌, ◌≤◌, ◌<◌, min, max, bit_and, bit_or, digits, bitwise,
  bit_and-bitwise, bit_or-bitwise,
}
use mathlib.Core.Path.{◌≡◌, refl, sym, ap, ◌∙◌}
use mathlib.Core.Bool.{Bool, false, ◌&&◌, ◌||◌}
use native.Mathlib.Nat.{
  pow-suc, pow-succ', div-div-eq-div-mul, one-le-pow, mul_assoc, mod-lt, mod-one, mod-eq_of_lt,
  mod-add-div', add-mul-mod_self_right,
}
use native.Mathlib.Decide.{dec_lt}
use native.Mathlib.Omega.{arith}
use sturm_cpp.Common.Tests.{◌==◌, ltb, if◌then◌else◌}

-- The digits of a result do not depend on the count to go, when it is large enough.
module _ (rest : ℕ → ℕ) (join : ℕ → ℕ → ℕ) where
  digits-enough : (x k l y : ℕ) → x ≤ k → x ≤ l → digits rest join k x y ≡ digits rest join l x y
  digits-enough zero zero zero y h g = refl
  digits-enough zero zero (suc l) y h g = refl
  digits-enough zero (suc k) zero y h g = refl
  digits-enough zero (suc k) (suc l) y h g = refl
  digits-enough (suc x) zero l y h g = absurd (omega arith)
  digits-enough (suc x) (suc k) zero y h g = absurd (omega arith)
  digits-enough (suc x) (suc k) (suc l) y h g =
      ap (λ d. d * 2 + join (suc x % 2) (y % 2))
        (digits-enough (suc x / 2) k l (y / 2) (omega arith) (omega arith))

  bitwise-suc :
      (x y : ℕ)
      → bitwise rest join (suc x) y
        ≡ bitwise rest join (suc x / 2) (y / 2) * 2 + join (suc x % 2) (y % 2)
  bitwise-suc x y =
      ap (λ d. d * 2 + join (suc x % 2) (y % 2))
        (digits-enough (suc x / 2) x (suc x / 2) (y / 2) (omega arith) (omega arith))

-- What is left of the operands after their lowest bits, and the lowest bit of the result.
pub bit_and_step : (x y : ℕ) → bit_and x y ≡ bit_and (x / 2) (y / 2) * 2 + min (x % 2) (y % 2)
bit_and_step zero y =
    let e : (k : ℕ) → bit_and 0 k ≡ 0 = λ k. bit_and-bitwise 0 k in omega (arith, e y, e (y / 2))
bit_and_step (suc x) y =
    bit_and-bitwise (suc x) y
    ∙ bitwise-suc (λ b. zero) min x y
    ∙ ap (λ d. d * 2 + min (suc x % 2) (y % 2)) (sym (bit_and-bitwise (suc x / 2) (y / 2)))

pub bit_or_step : (x y : ℕ) → bit_or x y ≡ bit_or (x / 2) (y / 2) * 2 + max (x % 2) (y % 2)
bit_or_step zero y =
    let e : (k : ℕ) → bit_or 0 k ≡ k = λ k. bit_or-bitwise 0 k in omega (arith, e y, e (y / 2))
bit_or_step (suc x) y =
    bit_or-bitwise (suc x) y
    ∙ bitwise-suc (λ b. b) max x y
    ∙ ap (λ d. d * 2 + max (suc x % 2) (y % 2)) (sym (bit_or-bitwise (suc x / 2) (y / 2)))

-- A mask without bits keeps none.
no_mask : (bound x : ℕ) → x ≤ bound → bit_and x 0 ≡ 0
no_mask zero x h = ap (λ k. bit_and k 0) {y = 0} (omega arith) ∙ bit_and-bitwise 0 0
no_mask (suc bound) x h = elim (dec_lt 0 x) [
  | yes p ↦ omega (arith, bit_and_step x 0, no_mask bound (x / 2) (omega arith))
  | no p ↦ ap (λ k. bit_and k 0) {y = 0} (omega arith) ∙ bit_and-bitwise 0 0
]

pub bit_and-one : (x : ℕ) → bit_and x 1 ≡ x % 2
bit_and-one x = omega (arith, bit_and_step x 1, no_mask x (x / 2) (omega arith))

unfoldable pub test_bit : ℕ → ℕ → Bool
test_bit n zero = n % 2 == 1
test_bit n (suc i) = test_bit (n / 2) i

pub test_bit-bit_and : (a b i : ℕ) → test_bit (bit_and a b) i ≡ test_bit a i && test_bit b i
unfolding test_bit
test_bit-bit_and a b zero = ground (arith, bit_and_step a b)
test_bit-bit_and a b (suc i) =
    let e : bit_and a b / 2 ≡ bit_and (a / 2) (b / 2) = omega (arith, bit_and_step a b) in
    ap (λ n. test_bit n i) e ∙ test_bit-bit_and (a / 2) (b / 2) i

pub test_bit-bit_or : (a b i : ℕ) → test_bit (bit_or a b) i ≡ test_bit a i || test_bit b i
unfolding test_bit
test_bit-bit_or a b zero = ground (arith, bit_or_step a b)
test_bit-bit_or a b (suc i) =
    let e : bit_or a b / 2 ≡ bit_or (a / 2) (b / 2) = omega (arith, bit_or_step a b) in
    ap (λ n. test_bit n i) e ∙ test_bit-bit_or (a / 2) (b / 2) i

pub test_bit-zero : (i : ℕ) → test_bit 0 i ≡ false
unfolding test_bit
test_bit-zero zero = refl
test_bit-zero (suc i) = test_bit-zero i

-- The `w` lowest bits are set.
pub test_bit-ones : (w i : ℕ) → test_bit (2 ^ w - 1) i ≡ ltb i w
unfolding test_bit
test_bit-ones zero i = test_bit-zero i ∙ ground arith
test_bit-ones (suc w) zero = ground (arith, pow-suc 2 w, one-le-pow w 2 (omega arith))
test_bit-ones (suc w) (suc i) =
    let e : (2 ^ suc w - 1) / 2 ≡ 2 ^ w - 1 =
      omega (arith, pow-suc 2 w, one-le-pow w 2 (omega arith)) in
    ap (λ n. test_bit n i) e ∙ test_bit-ones w i ∙ ground arith

-- Times `2 ^ k` is a shift.
pub test_bit-shift :
    (n k i : ℕ) → test_bit (n * 2 ^ k) i ≡ (if ltb i k then false else test_bit n (i - k))
unfolding test_bit
test_bit-shift n zero i = ground arith
test_bit-shift n (suc k) zero =
    let e : n * 2 ^ suc k ≡ n * 2 ^ k * 2 =
      ap (λ m. n * m) (pow-suc 2 k) ∙ sym (mul_assoc n (2 ^ k) 2) in
    let f : n * 2 ^ suc k % 2 ≡ 0 = omega (arith, e) in ground (arith, f)
test_bit-shift n (suc k) (suc i) =
    let e : (n * 2 ^ suc k) / 2 ≡ n * 2 ^ k =
      omega (arith, ap (λ m. n * m) (pow-suc 2 k) ∙ sym (mul_assoc n (2 ^ k) 2)) in
    ap (λ n. test_bit n i) e ∙ test_bit-shift n k i ∙ ground arith

mod_double : (n m : ℕ) → 0 < m → n % (m * 2) ≡ n / 2 % m * 2 + n % 2
mod_double n m h =
    let r : ℕ = n / 2 % m * 2 + n % 2 in
    let low : r < m * 2 = omega (arith, mod-lt (n / 2) h) in
    let parts : n ≡ r + n / 2 / m * (m * 2) =
      omega (arith, mod-add-div' (n / 2) m, sym (mul_assoc (n / 2 / m) m 2)) in
    ap (λ k. k % (m * 2)) parts ∙ add-mul-mod_self_right r (n / 2 / m) (m * 2) ∙ mod-eq_of_lt low

-- The `w` lowest bits are kept.
pub test_bit-mod : (n w i : ℕ) → test_bit (n % 2 ^ w) i ≡ ltb i w && test_bit n i
unfolding test_bit
test_bit-mod n zero i = ap (λ k. test_bit k i) (mod-one n) ∙ test_bit-zero i ∙ ground arith
test_bit-mod n (suc w) zero =
    let e : n % 2 ^ suc w ≡ n / 2 % 2 ^ w * 2 + n % 2 =
      ap (λ k. n % k) (pow-suc 2 w) ∙ mod_double n (2 ^ w) (one-le-pow w 2 (omega arith)) in
    ground (arith, e)
test_bit-mod n (suc w) (suc i) =
    let e : n % 2 ^ suc w ≡ n / 2 % 2 ^ w * 2 + n % 2 =
      ap (λ k. n % k) (pow-suc 2 w) ∙ mod_double n (2 ^ w) (one-le-pow w 2 (omega arith)) in
    let f : (n % 2 ^ suc w) / 2 ≡ n / 2 % 2 ^ w = omega (arith, e) in
    ap (λ k. test_bit k i) f ∙ test_bit-mod (n / 2) w i ∙ ground arith

pub bit_or-lt : (k a b : ℕ) → a < 2 ^ k → b < 2 ^ k → bit_or a b < 2 ^ k
bit_or-lt zero a b h l =
    let p : a ≡ 0 = omega arith in
    let q : b ≡ 0 = omega arith in
    let e : bit_or a b ≡ 0 = ap (λ n. bit_or n b) p ∙ ap (bit_or 0) q in omega (arith, e)
bit_or-lt (suc k) a b h l = omega (
  arith,
  pow-suc 2 k,
  bit_or_step a b,
  bit_or-lt k (a / 2) (b / 2) (omega (arith, pow-suc 2 k)) (omega (arith, pow-suc 2 k)),
)

bit_and-le_fuel : (k a b : ℕ) → b ≤ k → bit_and a b ≤ b
bit_and-le_fuel zero a b h =
    let e : b ≡ 0 = omega arith in omega (arith, ap (bit_and a) e, no_mask a a (omega arith))
bit_and-le_fuel (suc k) a zero h = omega (arith, no_mask a a (omega arith))
bit_and-le_fuel (suc k) a (suc b) h =
    omega (arith, bit_and_step a (suc b), bit_and-le_fuel k (a / 2) (suc b / 2) (omega arith))

pub bit_and-le : (a b : ℕ) → bit_and a b ≤ b
bit_and-le a b = bit_and-le_fuel b a b (omega arith)

-- Divided by `2 ^ k` is a shift to the right.
pub test_bit-shift_right : (n k i : ℕ) → test_bit (n / 2 ^ k) i ≡ test_bit n (i + k)
unfolding test_bit
test_bit-shift_right n zero i = ground arith
test_bit-shift_right n (suc k) i =
    let e : n / 2 ^ suc k ≡ n / 2 / 2 ^ k =
      ap (λ m. n / m) (pow-succ' 2 k) ∙ sym (div-div-eq-div-mul n 2 (2 ^ k)) in
    let f : i + suc k ≡ suc (i + k) = omega arith in
    ap (λ m. test_bit m i) e ∙ test_bit-shift_right (n / 2) k i ∙ ap (test_bit n) (sym f)
