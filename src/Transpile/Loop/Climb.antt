-- ===== src/Transpile/Loop/Climb.antt =====
-- The values of a loop that climbs from its start, and that they are values of type `int`.

use native.Mathlib.Nat.{
  suc-mul, div-mul-le_self, div-le_self, lt-div-mul-add, mul-le-mul_right, zero-mul,
}
use sturm_cpp.Common.{
  ◌^◌, ◌&&◌, ℕ, suc, ◌*◌, ◌/◌, ◌≤◌, ◌<◌, ◌≡◌, ◌∙◌, ap, Bool, true, false, Option, none, arith,
  if◌then◌else◌,
}
use sturm_cpp.Common.Int.{ltb_ℤ, ℤ, pos, ◌+ℤ◌, ◌-ℤ◌, ◌*ℤ◌, ◌/ℤ◌, +ℤ_parts, -ℤ_parts, int_laws}
use sturm_cpp.Transpile.Loop.{CmpOp, lt, le, ge}
use sturm_cpp.Transpile.Loop.Header.{is_int, compare_ℤ}

-- The value that is `k` strides after the start.
abbrev pub climb : ℤ → ℕ → ℕ → ℤ
climb lo s k = lo +ℤ pos (k * s)

pub climb-start : (lo : ℤ) (s : ℕ) → lo ≡ climb lo s 0
climb-start lo s = omega (int_laws, zero-mul s)

pub climb-next : (lo : ℤ) (s j : ℕ) → climb lo s j +ℤ pos s ≡ climb lo s (suc j)
climb-next lo s j = omega (int_laws, suc-mul j s)

pub climb-back : (lo : ℤ) (s j : ℕ) → climb lo s (suc j) +ℤ (pos 0 -ℤ pos s) ≡ climb lo s j
climb-back lo s j = omega (int_laws, suc-mul j s)

pub climb-ge : (lo : ℤ) (s j : ℕ) → compare_ℤ ge (climb lo s j) lo ≡ true
climb-ge lo s j = ground (arith, +ℤ_parts lo (pos (j * s)))

pub climb-below :
    (lo : ℤ) (s : ℕ) → 0 < s → compare_ℤ ge (climb lo s 0 +ℤ (pos 0 -ℤ pos s)) lo ≡ false
climb-below lo s p = ground (
  arith,
  +ℤ_parts lo (pos (0 * s)),
  +ℤ_parts (climb lo s 0) (pos 0 -ℤ pos s),
  -ℤ_parts (pos 0) (pos s),
)

-- A bound that admits the offsets up to `d`.
abbrev pub reach : Bool → ℕ → ℕ
reach inclusive d = if inclusive then d else suc d

abbrev pub upper : Bool → CmpOp
upper inclusive = if inclusive then le else lt

pub climb-within :
    (lo : ℤ) (s d : ℕ) (inclusive : Bool) (j : ℕ)
    → j * s ≤ d
    → compare_ℤ (upper inclusive) (climb lo s j) (lo +ℤ pos (reach inclusive d)) ≡ true
climb-within lo s d true j h = ground (arith, +ℤ_parts lo (pos (j * s)), +ℤ_parts lo (pos d))
climb-within lo s d false j h = ground (arith, +ℤ_parts lo (pos (j * s)), +ℤ_parts lo (pos (suc d)))

pub climb-beyond :
    (lo : ℤ) (s d : ℕ) (inclusive : Bool) (j : ℕ)
    → d < j * s
    → compare_ℤ (upper inclusive) (climb lo s j) (lo +ℤ pos (reach inclusive d)) ≡ false
climb-beyond lo s d true j h = ground (arith, +ℤ_parts lo (pos (j * s)), +ℤ_parts lo (pos d))
climb-beyond lo s d false j h = ground (arith, +ℤ_parts lo (pos (j * s)), +ℤ_parts lo (pos (suc d)))

pub steps-le : (s d j : ℕ) → j < suc (d / s) → j * s ≤ d
steps-le s d j h =
    omega (arith, mul-le-mul_right {m = j} {n = d / s} s (omega arith), div-mul-le_self d s)

pub steps-lt : (s d : ℕ) → 0 < s → d < suc (d / s) * s
steps-lt s d p = omega (arith, suc-mul (d / s) s, lt-div-mul-add {a = d} {b = s} p)

pub mul-pos_parts : (a b : ℕ) → pos a *ℤ pos b ≡ pos (a * b)
unfolding ◌*ℤ◌
mul-pos_parts a b = ground arith

pub span : (lo : ℤ) (d : ℕ) → lo +ℤ pos (suc d) -ℤ pos 1 -ℤ lo ≡ pos d
span lo d = omega int_laws

pub span_inclusive : (lo : ℤ) (d : ℕ) → lo +ℤ pos d -ℤ lo ≡ pos d
span_inclusive lo d = omega int_laws

pub whole_strides : (d s : ℕ) → pos d /ℤ pos s *ℤ pos s ≡ pos (d / s * s)
unfolding ◌/ℤ◌
whole_strides d s = mul-pos_parts (d / s) s

pub is_int-between :
    (a b c : ℤ)
    → ltb_ℤ b a ≡ false
    → ltb_ℤ c b ≡ false
    → is_int a ≡ true
    → is_int c ≡ true
    → is_int b ≡ true
unfolding is_int
is_int-between a b c h l p r = ground (arith, h, l, p, r)

-- No value of the loops overflows, from one stride below the start on.
pub record InRange (lo : ℤ) (s d : ℕ) : Type 0 where
  pub below : is_int (lo -ℤ pos s) ≡ true
  pub beyond : is_int (climb lo s (suc (d / s))) ≡ true
  pub span_fits : d < 2 ^ 31

pub climb-int :
    (lo : ℤ) (s d j : ℕ) → InRange lo s d → j ≤ suc (d / s) → is_int (climb lo s j) ≡ true
climb-int lo s d j r h =
    let l : j * s ≤ suc (d / s) * s = mul-le-mul_right {m = j} {n = suc (d / s)} s h in
    is_int-between (lo -ℤ pos s) (climb lo s j) (climb lo s (suc (d / s)))
      (ground (arith, -ℤ_parts lo (pos s), +ℤ_parts lo (pos (j * s))))
      (ground (arith, l, +ℤ_parts lo (pos (j * s)), +ℤ_parts lo (pos (suc (d / s) * s)))) r.below
      r.beyond

pub int-start : (lo : ℤ) (s d : ℕ) → InRange lo s d → is_int lo ≡ true
int-start lo s d r = ap is_int (climb-start lo s) ∙ climb-int lo s d 0 r (omega arith)

-- Up to the bound.
pub int-offset :
    (lo : ℤ) (s d k : ℕ) → 0 < s → InRange lo s d → k ≤ suc d → is_int (lo +ℤ pos k) ≡ true
int-offset lo s d k p r h =
    is_int-between (lo -ℤ pos s) (lo +ℤ pos k) (climb lo s (suc (d / s)))
      (ground (arith, -ℤ_parts lo (pos s), +ℤ_parts lo (pos k)))
      (ground (arith, steps-lt s d p, h, +ℤ_parts lo (pos k), +ℤ_parts lo (pos (suc (d / s) * s))))
      r.below r.beyond

pub int-pos : (n : ℕ) → n < 2 ^ 31 → is_int (pos n) ≡ true
unfolding is_int
int-pos n h = ground (arith, h)

pub int-stride : (lo : ℤ) (s d : ℕ) → InRange lo s d → is_int (pos s) ≡ true
unfolding is_int
int-stride lo s d r = ground (
  arith,
  r.below,
  r.beyond,
  -ℤ_parts lo (pos s),
  +ℤ_parts lo (pos (suc (d / s) * s)),
  suc-mul (d / s) s,
)

pub int-quotient : (d s : ℕ) → d < 2 ^ 31 → is_int (pos d /ℤ pos s) ≡ true
unfolding ◌/ℤ◌
int-quotient d s h = int-pos (d / s) (omega (arith, div-le_self d s, h))

pub int-product : (lo : ℤ) (s d : ℕ) → InRange lo s d → is_int (pos (d / s * s)) ≡ true
int-product lo s d r = int-pos (d / s * s) (omega (arith, div-mul-le_self d s, r.span_fits))

pub less_one : (lo : ℤ) (d : ℕ) → lo +ℤ pos (suc d) -ℤ pos 1 ≡ lo +ℤ pos d
less_one lo d = omega int_laws

pub climb-last : (lo : ℤ) (s : ℕ) → climb lo s 0 +ℤ (pos 0 -ℤ pos s) ≡ lo -ℤ pos s
climb-last lo s = omega (int_laws, zero-mul s)

pub if_all :
    {A : Type 0} {a b c : Bool} {x : Option A}
    → a ≡ true
    → b ≡ true
    → c ≡ true
    → (if a && (b && c) then x else none) ≡ x
if_all h l p = ground (arith, h, l, p)
