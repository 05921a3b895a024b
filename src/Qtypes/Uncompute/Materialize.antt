-- ===== src/Qtypes/Uncompute/Materialize.antt =====
-- The gates of the materialized operators, and what they do to the ancilla.
use mathlib.Core.Path.{subst}
use sturm_cpp.Common.{
  ℕ, ◌≡◌, refl, ap, ◌∙◌, fun_ext, arith, Bool, true, false, ◌||◌, Option, none, some, List, [], ◌∷◌,
  ◌++◌,
}
use sturm_cpp.Core.Context.{append}
use sturm_cpp.Core.Pool.{is_live}
use sturm_cpp.Circuit.{Bits, Op, op_x, run_op, run, flip_if}
use sturm_cpp.Machine.{Machine, M, ◌>>◌}
use sturm_cpp.Machine.Emit.{emit_x_lifted}
use sturm_cpp.Machine.Spec.Gates.{Emitted, Emitted-seq}
use sturm_cpp.Qtypes.Bit.{BitProxy, write_bit, write_and}
use sturm_cpp.Qtypes.Uncompute.Inverse.{
  bit_of, Avoids, bit_ops, and_ops, proxy, Emitted-none, x_at, cx_at, ccx_at,
}

-- A quantum operand is in use.
abbrev pub IsOperand : Machine → BitProxy → Type 0
IsOperand m x = elim x.qubit_index [ none ↦ Unit {0} | some q ↦ is_live m.pool q ≡ true ]

unfoldable pub or_ops : Option ℕ → Option ℕ → Bool → Bool → ℕ → List Op
or_ops ox oy v w i = bit_ops ox v i ++ (bit_ops oy w i ++ and_ops ox oy v w i)

pub run-or_ops :
    (ox oy : Option ℕ) (mx my v w : Bool) (i : ℕ) (s : Bits)
    → Avoids i (proxy ox mx v)
    → Avoids i (proxy oy my w)
    → run (or_ops ox oy v w i) s
      ≡ flip_if (bit_of s (proxy ox mx v) || bit_of s (proxy oy my w)) i s
unfolding run run_op flip_if or_ops
run-or_ops (some p) (some q) mx my v w i s hx hy = fun_ext λ k. ground arith
run-or_ops (some p) none mx my v true i s hx hy = fun_ext λ k. ground arith
run-or_ops (some p) none mx my v false i s hx hy = fun_ext λ k. ground arith
run-or_ops none (some q) mx my true w i s hx hy = fun_ext λ k. ground arith
run-or_ops none (some q) mx my false w i s hx hy = fun_ext λ k. ground arith
run-or_ops none none mx my true true i s hx hy = fun_ext λ k. ground arith
run-or_ops none none mx my true false i s hx hy = fun_ext λ k. ground arith
run-or_ops none none mx my false true i s hx hy = fun_ext λ k. ground arith
run-or_ops none none mx my false false i s hx hy = fun_ext λ k. ground arith

pub Avoids-new :
    (o : Option ℕ) (mk v : Bool) (m : Machine) (i : ℕ)
    → IsOperand m (proxy o mk v)
    → is_live m.pool i ≡ false
    → Avoids i (proxy o mk v)
Avoids-new none mk v m i h n = tt
Avoids-new (some q) mk v m i h n = λ e. ground (arith, ap (is_live m.pool) e, h, n)

pub bit_of-flip :
    (o : Option ℕ) (mk v : Bool) (i : ℕ) (b : Bool) (s : Bits)
    → Avoids i (proxy o mk v)
    → bit_of (flip_if b i s) (proxy o mk v) ≡ bit_of s (proxy o mk v)
unfolding flip_if
bit_of-flip none mk v i b s h = refl
bit_of-flip (some q) mk v i b s h = ground arith

pub flip-flip : (b : Bool) (i : ℕ) (s : Bits) → flip_if b i (flip_if b i s) ≡ s
unfolding flip_if
flip-flip b i s = fun_ext λ q. ground arith

bind_assoc :
    (A : Type 0) (o : Option (Unit {0} × Machine)) (k : M (Unit {0})) (j : M A)
    → ◌≡◌ {A = Option (A × Machine)}
        (elim (elim o as (λ _. Option (Unit {0} × Machine)) [ none ↦ none | some (a, m) ↦ k m ])
          as (λ _. Option (A × Machine)) [ none ↦ none | some (a, m) ↦ j m ])
        (elim o as (λ _. Option (A × Machine)) [ none ↦ none | some (a, m) ↦ (k >> j) m ])
bind_assoc A none k j = refl
bind_assoc A (some x) k j = refl

pub >>-assoc :
    {A : Type 0} (r k : M (Unit {0})) (j : M A) → ◌≡◌ {A = M A} ((r >> k) >> j) (r >> (k >> j))
>>-assoc {A = A} r k j = fun_ext λ m. bind_assoc A (r m) k j

module _ (init : Bits) where
  pub lifted_x_at :
      (i : ℕ) (m : Machine)
      → m.ctx.mode ≡ append
      → m.ctx.control_stack ≡ []
      → Emitted init m (op_x i ∷ []) (emit_x_lifted i m)
  unfolding emit_x_lifted
  lifted_x_at i m e c = subst (Emitted init m (op_x i ∷ [])) (ground (arith, c)) (x_at init i m e)

  pub write_bit-Emitted :
      (o : Option ℕ) (mk v : Bool) (i : ℕ) (m : Machine)
      → m.ctx.mode ≡ append
      → m.ctx.control_stack ≡ []
      → Emitted init m (bit_ops o v i) (write_bit (proxy o mk v) i m)
  unfolding write_bit
  write_bit-Emitted (some q) mk v i m e c = cx_at init q i m e
  write_bit-Emitted none mk true i m e c = lifted_x_at i m e c
  write_bit-Emitted none mk false i m e c = Emitted-none init m e

  pub write_and-Emitted :
      (ox oy : Option ℕ) (mx my v w : Bool) (i : ℕ) (m : Machine)
      → m.ctx.mode ≡ append
      → m.ctx.control_stack ≡ []
      → Emitted init m (and_ops ox oy v w i) (write_and (proxy ox mx v) (proxy oy my w) i m)
  unfolding write_and
  write_and-Emitted (some p) (some q) mx my v w i m e c = ccx_at init p q i m e
  write_and-Emitted (some p) none mx my v true i m e c = cx_at init p i m e
  write_and-Emitted (some p) none mx my v false i m e c = Emitted-none init m e
  write_and-Emitted none (some q) mx my true w i m e c = cx_at init q i m e
  write_and-Emitted none (some q) mx my false w i m e c = Emitted-none init m e
  write_and-Emitted none none mx my true true i m e c = lifted_x_at i m e c
  write_and-Emitted none none mx my true false i m e c = Emitted-none init m e
  write_and-Emitted none none mx my false w i m e c = Emitted-none init m e

  pub write_or-Emitted :
      (ox oy : Option ℕ) (mx my v w : Bool) (i : ℕ) (m : Machine)
      → m.ctx.mode ≡ append
      → m.ctx.control_stack ≡ []
      → Emitted init m (or_ops ox oy v w i) (
          (write_bit (proxy ox mx v) i
              >> (write_bit (proxy oy my w) i >> write_and (proxy ox mx v) (proxy oy my w) i))
            m)
  unfolding or_ops
  write_or-Emitted ox oy mx my v w i m e c =
      let first = write_bit-Emitted ox mx v i m e c in
      let second = write_bit-Emitted oy my w i first.after first.mode (first.same_stack ∙ c) in
      Emitted-seq init m (bit_ops ox v i) (bit_ops oy w i ++ and_ops ox oy v w i)
        (write_bit (proxy ox mx v) i)
        (write_bit (proxy oy my w) i >> write_and (proxy ox mx v) (proxy oy my w) i) first
        (Emitted-seq init first.after (bit_ops oy w i) (and_ops ox oy v w i)
          (write_bit (proxy oy my w) i) (write_and (proxy ox mx v) (proxy oy my w) i) second
          (write_and-Emitted ox oy mx my v w i second.after second.mode
            (second.same_stack ∙ first.same_stack ∙ c)))
