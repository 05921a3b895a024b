-- ===== src/Common/Pigeonhole.antt =====
-- Different numbers below `n` are at most `n` many.
use Prim.Native.Nat.{ℕ, zero, suc, ◌+◌, ◌≤◌, ◌<◌}
use mathlib.Core.Path.{◌≡◌}
use mathlib.Core.List.{List, [], ◌∷◌}
use native.Mathlib.Omega.{arith}
use sturm_cpp.Common.Tests.{◌==◌, if◌then◌else◌}
use sturm_cpp.Common.Lists.{length, All, IsFresh, IsDistinct}

remove : ℕ → List ℕ → List ℕ
remove q [] = []
remove q (x ∷ xs) = let rest = remove q xs in if q == x then rest else x ∷ rest

remove-IsFresh : (q r : ℕ) (xs : List ℕ) → IsFresh r xs → IsFresh r (remove q xs)
unfolding remove
remove-IsFresh q r [] h = tt
remove-IsFresh q r (x ∷ xs) h = ground (arith, remove-IsFresh q r xs h.1)

remove-IsDistinct : (q : ℕ) (xs : List ℕ) → IsDistinct xs → IsDistinct (remove q xs)
unfolding remove
remove-IsDistinct q [] h = tt
remove-IsDistinct q (x ∷ xs) h =
    ground (arith, remove-IsDistinct q xs h.1, remove-IsFresh q x xs h.0)

length-remove_fresh : (q : ℕ) (xs : List ℕ) → IsFresh q xs → length (remove q xs) ≡ length xs
unfolding remove
length-remove_fresh q [] h = omega arith
length-remove_fresh q (x ∷ xs) h = ground (arith, length-remove_fresh q xs h.1)

length-le-remove : (q : ℕ) (xs : List ℕ) → IsDistinct xs → length xs ≤ length (remove q xs) + 1
unfolding remove
length-le-remove q [] h = omega arith
length-le-remove q (x ∷ xs) h =
    ground (arith, length-le-remove q xs h.1, length-remove_fresh x xs h.0)

All-remove_lt : (n : ℕ) (xs : List ℕ) → All (λ j. j < suc n) xs → All (λ j. j < n) (remove n xs)
unfolding remove
All-remove_lt n [] h = tt
All-remove_lt n (x ∷ xs) h = ground (arith, All-remove_lt n xs h.1)

pub length-le_of_distinct :
    (n : ℕ) (xs : List ℕ) → IsDistinct xs → All (λ j. j < n) xs → length xs ≤ n
length-le_of_distinct zero [] d h = omega arith
length-le_of_distinct zero (x ∷ xs) d h = absurd (omega arith)
length-le_of_distinct (suc n) xs d h = omega (
  arith,
  length-le-remove n xs d,
  length-le_of_distinct n (remove n xs) (remove-IsDistinct n xs d) (All-remove_lt n xs h),
)
