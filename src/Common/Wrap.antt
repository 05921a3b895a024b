-- ===== src/Common/Wrap.antt =====
-- Sums that wrap around a width.
use Prim.Native.Nat.{ℕ, ◌+◌, ◌-◌, ◌%◌, ◌<◌}
use native.Mathlib.Decide.{dec_lt}
use native.Mathlib.Nat.{
  mod-eq_of_lt, add-mod_right, mod-eq-sub-mod, add-mod-mod, mod-add-mod, mod-lt,
}
use native.Mathlib.Omega.{arith}
use mathlib.Core.Path.{◌≡◌, sym, ap, ◌∙◌}
use mathlib.Core.Bool.{Bool, true, false, not}
use sturm_cpp.Common.Tests.{ltb, if◌then◌else◌}

-- A number below `w` that makes `a` with or without a `w` is `a` modulo `w`, and the `w` is
-- there when `a` is not below it.
pub wrap_sum :
    (v w a : ℕ) (k : Bool)
    → v < w
    → v + (if k then w else 0) ≡ a
    → (v ≡ a % w) × (k ≡ not (ltb a w))
wrap_sum v w a true h e =
    (sym (ap (λ x. x % w) (sym e) ∙ add-mod_right v w ∙ mod-eq_of_lt h), ground arith)
wrap_sum v w a false h e = (omega (arith, mod-eq_of_lt {n = a} {m = w} (omega arith)), ground arith)

wrap_add_small : (x k m : ℕ) → x < m → k < m → ((x + k) % m + m - k) % m ≡ x
wrap_add_small x k m h l = elim (dec_lt (x + k) m) [
  | yes p ↦ omega (
    arith,
    mod-eq_of_lt p,
    mod-eq-sub-mod {n = (x + k) % m + m - k} {m = m} (omega (arith, mod-eq_of_lt p)),
    mod-eq_of_lt {n = (x + k) % m + m - k - m} {m = m} (omega (arith, mod-eq_of_lt p)),
  )
  | no p ↦
      let e : (x + k) % m ≡ x + k - m =
        mod-eq-sub-mod {n = x + k} {m = m} (omega arith)
        ∙ mod-eq_of_lt {n = x + k - m} {m = m} (omega arith) in
      omega (arith, e, mod-eq_of_lt {n = (x + k) % m + m - k} {m = m} (omega (arith, e)))
]

-- Subtraction after addition, and addition after subtraction, both modulo `m`.
pub wrap_sub-add : (x k m : ℕ) → x < m → ((x + k) % m + m - k % m) % m ≡ x
wrap_sub-add x k m h =
    ap (λ t. (t + m - k % m) % m) (sym (add-mod-mod x k m))
    ∙ wrap_add_small x (k % m) m h (mod-lt k (omega arith))

pub wrap_add-sub : (x k m : ℕ) → x < m → ((x + m - k % m) % m + k) % m ≡ x
wrap_add-sub x k m h =
    let l : k % m < m = mod-lt k (omega arith) in
    let e : x + m - k % m + k % m ≡ x + m = omega (arith, l) in
    mod-add-mod (x + m - k % m) m k
    ∙ sym (add-mod-mod (x + m - k % m) k m)
    ∙ ap (λ t. t % m) e
    ∙ add-mod_right x m
    ∙ mod-eq_of_lt h
