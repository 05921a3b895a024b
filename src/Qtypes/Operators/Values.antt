-- ===== src/Qtypes/Operators/Values.antt =====
-- The bits that the operators return.
use mathlib.Core.Path.{subst}
use sturm_cpp.Common.{
  ℕ, ◌≡◌, refl, sym, ap, ◌∙◌, fun_ext, arith, Bool, true, false, not, ◌&&◌, ◌||◌, Option, none,
  some, List, [], ◌∷◌, xor,
}
use sturm_cpp.Core.Pool.{is_live}
use sturm_cpp.Circuit.{Bits, Op, op_x, op_cx, op_ccx, run_op, run, flip_if}
use sturm_cpp.Machine.{
  Machine, M, ◌>>=◌, ◌>>◌, pure, allocate, primitive_x, primitive_xor, primitive_and,
}
use sturm_cpp.Machine.Emit.{emit_x_lifted}
use sturm_cpp.Machine.Spec.{state, IsReady}
use sturm_cpp.Machine.Spec.Gates.{Emitted}
use sturm_cpp.Machine.Spec.Ancilla.{Extended, index, extended, extended-Extended}
use sturm_cpp.Qtypes.Bit.{BitProxy, owning}
use sturm_cpp.Qtypes.Operators.{operator_not, operator_and, operator_or, operator_xor, xor_mixed}
use sturm_cpp.Qtypes.Uncompute.Inverse.{
  bit_of, Avoids, proxy, x_at, cx_at, ccx_at, Emitted-two, Emitted-three,
}
use sturm_cpp.Qtypes.Uncompute.Materialize.{IsOperand, Avoids-new, >>-assoc, lifted_x_at}

-- The operators of two operands and their Boolean functions.
pub data Operator : Type 0 where
  and_operator or_operator xor_operator : Operator

abbrev pub operator_of : Operator → BitProxy → BitProxy → M (BitProxy × Bool)
operator_of and_operator = operator_and
operator_of or_operator = operator_or
operator_of xor_operator = operator_xor

abbrev pub function_of : Operator → Bool → Bool → Bool
function_of and_operator x y = x && y
function_of or_operator x y = x || y
function_of xor_operator x y = xor x y

module _ (init : Bits) where
  -- A call returned a bit that holds `b`, by value or by qubit, and no qubit in use changed.
  pub record Holds (m : Machine) (b : Bool) (result : Option ((BitProxy × Bool) × Machine))
      : Type 0 where
    pub value : BitProxy × Bool
    pub after : Machine
    pub returns : result ≡ some (value, after)
    pub holds : bit_of (state init after) value.0 ≡ b
    pub kept : (q : ℕ) → is_live m.pool q ≡ true → state init after q ≡ state init m q

  unchanged :
      (m : Machine) (b : Bool) (v : BitProxy × Bool)
      → bit_of (state init m) v.0 ≡ b
      → Holds m b (pure v m)
  unchanged m b v e = record { value = v; after = m; returns = refl; holds = e; kept = λ q l. refl }

  computed :
      (m : Machine) (b : Bool) (ops : List Op) (write : M (Unit {0}))
      (result : Option ((BitProxy × Bool) × Machine))
      → IsReady init m
      → Emitted init (extended init m) ops (write (extended init m))
      → result ≡ (write >> pure (owning (index init m), true)) (extended init m)
      → run ops (state init m) ≡ flip_if b (index init m) (state init m)
      → Holds m b result
  unfolding state flip_if
  computed m b ops write result ready w er ro = record {
    value = (owning (index init m), true);
    after = w.after;
    returns = er ∙ rw (◌>>◌, ◌>>=◌, w.returns) refl;
    holds = ground (arith, at (index init m), ready.clean (index init m) x.new);
    kept = λ q l. ground (arith, at q, x.new, l, λ (e : q ≡ index init m). ap (is_live m.pool) e);
  }
    where
      x : Extended init m (index init m) (extended init m)
      x = extended-Extended init m ready

      at : (q : ℕ) → state init w.after q ≡ flip_if b (index init m) (state init m) q
      at q = ap (λ s. s q) (w.reached ∙ ro)

  -- The two gates of an exclusive or, and the three of a disjunction.
  abbrev new_bit : Machine → M (BitProxy × Bool)
  new_bit m = pure (owning (index init m), true)

  xor_gates :
      (m : Machine) (p q : ℕ)
      → IsReady init m
      → Avoids (index init m) (proxy (some q) true false)
      → Holds m (xor (state init m p) (state init m q)) (
          (primitive_xor p (index init m) >> (primitive_xor q (index init m) >> new_bit m))
            (extended init m))
  unfolding run run_op flip_if
  xor_gates m p q ready nq =
      let i = index init m in
      computed m _ (op_cx p i ∷ op_cx q i ∷ []) (primitive_xor p i >> primitive_xor q i) _ ready
        (Emitted-two init (op_cx p i) (op_cx q i) (primitive_xor p i) (primitive_xor q i)
          (extended init m) (cx_at init p i) (cx_at init q i)
          (extended-Extended init m ready).ready.mode)
        (ap (λ f. f (extended init m))
          (sym (>>-assoc (primitive_xor p i) (primitive_xor q i) (new_bit m))))
        (fun_ext λ k. ground arith)

  not_gates :
      (m : Machine) (p : ℕ)
      → IsReady init m
      → Holds m (not (state init m p)) (
          (primitive_xor p (index init m) >> (primitive_x (index init m) >> new_bit m))
            (extended init m))
  unfolding run run_op flip_if
  not_gates m p ready =
      let i = index init m in
      computed m _ (op_cx p i ∷ op_x i ∷ []) (primitive_xor p i >> primitive_x i) _ ready
        (Emitted-two init (op_cx p i) (op_x i) (primitive_xor p i) (primitive_x i) (extended init m)
          (cx_at init p i) (x_at init i) (extended-Extended init m ready).ready.mode)
        (ap (λ f. f (extended init m))
          (sym (>>-assoc (primitive_xor p i) (primitive_x i) (new_bit m))))
        (fun_ext λ k. ground arith)

  or_gates :
      (m : Machine) (p q : ℕ)
      → IsReady init m
      → Avoids (index init m) (proxy (some p) true false)
      → Avoids (index init m) (proxy (some q) true false)
      → Holds m (state init m p || state init m q) (
          (primitive_xor p (index init m)
              >> (primitive_xor q (index init m)
                  >> (primitive_and p q (index init m) >> new_bit m)))
            (extended init m))
  unfolding run run_op flip_if
  or_gates m p q ready np nq =
      let i = index init m in
      computed m _ (op_cx p i ∷ op_cx q i ∷ op_ccx p q i ∷ [])
        (primitive_xor p i >> (primitive_xor q i >> primitive_and p q i)) _ ready
        (Emitted-three init (op_cx p i) (op_cx q i) (op_ccx p q i) (primitive_xor p i)
          (primitive_xor q i) (primitive_and p q i) (extended init m) (cx_at init p i)
          (cx_at init q i) (ccx_at init p q i) (extended-Extended init m ready).ready.mode)
        (ap (λ k. (primitive_xor p i >> k) (extended init m))
            (sym (>>-assoc (primitive_xor q i) (primitive_and p q i) (new_bit m)))
          ∙ ap (λ f. f (extended init m))
              (sym (
                >>-assoc (primitive_xor p i) (primitive_xor q i >> primitive_and p q i)
                  (new_bit m))))
        (fun_ext λ k. ground arith)

  new_at :
      (m : Machine) (q : ℕ)
      → IsReady init m
      → is_live m.pool q ≡ true
      → Avoids (index init m) (proxy (some q) true false)
  new_at m q ready l =
      Avoids-new (some q) true false m (index init m) l (extended-Extended init m ready).new

  values_at :
      (o : Operator) (ox oy : Option ℕ) (mx my v w : Bool) (m : Machine)
      → IsReady init m
      → IsOperand m (proxy ox mx v)
      → IsOperand m (proxy oy my w)
      → Holds m
          (function_of o
            (bit_of (state init m) (proxy ox mx v))
            (bit_of (state init m) (proxy oy my w)))
          (operator_of o (proxy ox mx v) (proxy oy my w) m)
  unfolding operator_and operator_or operator_xor xor_mixed allocate run run_op flip_if
  values_at and_operator (some p) (some q) mx my v w m ready hx hy =
      computed m _ (op_ccx p q (index init m) ∷ []) (primitive_and p q (index init m)) _ ready
        (ccx_at init p q (index init m) (extended init m)
          (extended-Extended init m ready).ready.mode)
        refl refl
  values_at and_operator (some p) none mx my v true m ready hx hy = unchanged m _ _ (ground arith)
  values_at and_operator (some p) none mx my v false m ready hx hy = unchanged m _ _ (ground arith)
  values_at and_operator none (some q) mx my true w m ready hx hy = unchanged m _ _ refl
  values_at and_operator none (some q) mx my false w m ready hx hy = unchanged m _ _ refl
  values_at and_operator none none mx my v w m ready hx hy = unchanged m _ _ refl
  values_at or_operator (some p) (some q) mx my v w m ready hx hy =
      or_gates m p q ready (new_at m p ready hx) (new_at m q ready hy)
  values_at or_operator (some p) none mx my v true m ready hx hy = unchanged m _ _ (ground arith)
  values_at or_operator (some p) none mx my v false m ready hx hy = unchanged m _ _ (ground arith)
  values_at or_operator none (some q) mx my true w m ready hx hy = unchanged m _ _ refl
  values_at or_operator none (some q) mx my false w m ready hx hy = unchanged m _ _ refl
  values_at or_operator none none mx my v w m ready hx hy = unchanged m _ _ refl
  values_at xor_operator (some p) (some q) mx my v w m ready hx hy =
      xor_gates m p q ready (new_at m q ready hy)
  values_at xor_operator (some p) none mx my v true m ready hx hy =
      subst (λ b. Holds m b (xor_mixed p (proxy (some p) mx v) true m)) (ground arith)
        (not_gates m p ready)
  values_at xor_operator (some p) none mx my v false m ready hx hy = unchanged m _ _ (ground arith)
  values_at xor_operator none (some q) mx my true w m ready hx hy = not_gates m q ready
  values_at xor_operator none (some q) mx my false w m ready hx hy = unchanged m _ _ refl
  values_at xor_operator none none mx my v w m ready hx hy = unchanged m _ _ refl

  -- On a ready machine, with operands whose qubits are in use, the operators `&`, `|` and `^` on
  -- qbools return a bit that holds the value of their Boolean function of the operands' bits, by
  -- value or by qubit, and change no qubit that was in use, under an active control or not.
  pub operator-value :
      (o : Operator) (a b : BitProxy) (m : Machine)
      → IsReady init m
      → IsOperand m a
      → IsOperand m b
      → Holds m
          (function_of o (bit_of (state init m) a) (bit_of (state init m) b))
          (operator_of o a b m)
  operator-value o a b m ready ha hb =
      values_at o a.qubit_index b.qubit_index a.superposed b.superposed a.bit_value b.bit_value m
        ready ha hb

  not_at :
      (q : ℕ) (mx v : Bool) (m : Machine)
      → IsReady init m
      → m.ctx.control_stack ≡ []
      → Holds m true (operator_not (proxy (some q) mx v) m)
  unfolding operator_not allocate run run_op
  not_at q mx v m ready c =
      let i = index init m in
      computed m true (op_x i ∷ []) (emit_x_lifted i) _ ready
        (lifted_x_at init i (extended init m) (extended-Extended init m ready).ready.mode c) refl
        refl

  -- On a ready machine outside WHEN blocks, `~` on a qbool with a qubit returns a bit that is |1>
  -- whatever the bit of the operand, and changes no qubit that was in use.
  pub operator_not-one :
      (a : BitProxy) (q : ℕ) (m : Machine)
      → IsReady init m
      → m.ctx.control_stack ≡ []
      → a.qubit_index ≡ some q
      → Holds m true (operator_not a m)
  operator_not-one a q m ready c e =
      subst (λ a. Holds m true (operator_not a m))
        (ap (λ o. proxy o a.superposed a.bit_value) (sym e))
        (not_at q a.superposed a.bit_value m ready c)
