-- ===== src/Common/Lists.antt =====
-- Lists measured and indexed by native numbers, and predicates on their elements.
use Prim.Native.Nat.{ℕ, zero, suc, ◌+◌}
use mathlib.Core.Path.{◌≡◌, refl}
use mathlib.Core.Logic.{◌≢◌}
use mathlib.Core.List.{List, [], ◌∷◌, ◌++◌, reverse, reverse-cons}
use mathlib.Core.Option.{Option, none, some}
use mathlib.Core.Bool.{Bool, false, ◌||◌}
use sturm_cpp.Common.Tests.{◌==◌}
use native.Mathlib.Omega.{arith}

module _ {ℓ} {A : Type ℓ} where
  abbrev pub length : List A → ℕ
  length [] = 0
  length (x ∷ xs) = suc (length xs)

  abbrev pub get_elem? : List A → ℕ → Option A
  get_elem? [] i = none
  get_elem? (x ∷ xs) zero = some x
  get_elem? (x ∷ xs) (suc i) = get_elem? xs i

  abbrev pub get_or : List A → ℕ → A → A
  get_or [] i d = d
  get_or (x ∷ xs) zero d = x
  get_or (x ∷ xs) (suc i) d = get_or xs i d

  pub length-append : (xs ys : List A) → length (xs ++ ys) ≡ length xs + length ys
  length-append [] ys = omega arith
  length-append (x ∷ xs) ys = omega (arith, length-append xs ys)

abbrev pub All {ℓ κ} : {A : Type ℓ} → (A → Type κ) → List A → Type κ
All P [] = Unit
All P (x ∷ xs) = P x × All P xs

-- `q` is none of the listed indices.
abbrev pub IsFresh : ℕ → List ℕ → Type 0
IsFresh q [] = Unit {0}
IsFresh q (r ∷ rs) = (q ≢ r) × IsFresh q rs

-- The listed indices are pairwise different.
abbrev pub IsDistinct : List ℕ → Type 0
IsDistinct [] = Unit {0}
IsDistinct (q ∷ qs) = IsFresh q qs × IsDistinct qs

abbrev pub is_elem : ℕ → List ℕ → Bool
is_elem q [] = false
is_elem q (r ∷ rs) = (q == r) || is_elem q rs

pub IsFresh→is_elem : (q : ℕ) (rs : List ℕ) → IsFresh q rs → is_elem q rs ≡ false
IsFresh→is_elem q [] h = refl
IsFresh→is_elem q (r ∷ rs) h = ground (arith, IsFresh→is_elem q rs h.1)

pub is_elem→IsFresh : (q : ℕ) (rs : List ℕ) → is_elem q rs ≡ false → IsFresh q rs
is_elem→IsFresh q [] h = tt
is_elem→IsFresh q (r ∷ rs) h = (ground arith, is_elem→IsFresh q rs (ground arith))

pub All-append {ℓ κ} :
    {A : Type ℓ} (P : A → Type κ) (xs ys : List A) → All P xs → All P ys → All P (xs ++ ys)
All-append P [] ys h k = k
All-append P (x ∷ xs) ys h k = (h.0, All-append P xs ys h.1 k)

pub All-reverse {ℓ κ} : {A : Type ℓ} (P : A → Type κ) (xs : List A) → All P xs → All P (reverse xs)
All-reverse P [] h = tt
All-reverse P (x ∷ xs) h =
    rw reverse-cons (All-append P (reverse xs) (x ∷ []) (All-reverse P xs h.1) (h.0, tt))
