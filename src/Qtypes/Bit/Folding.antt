-- ===== src/Qtypes/Bit/Folding.antt =====
-- The operators on a bit that has a qubit.
use mathlib.Core.Path.{subst, sym}
use sturm_cpp.Common.{
  ℕ, ◌≡◌, ◌≢◌, refl, ap, ◌∙◌, fun_ext, arith, Bool, true, false, ◌&&◌, Option, none, some,
}
use sturm_cpp.Circuit.{Bits, Op, op_x, op_cx, op_ccx, run_op, flip_if}
use sturm_cpp.Machine.{Machine, ◌>>=◌, ◌>>◌, pure}
use sturm_cpp.Machine.Emit.{emit}
use sturm_cpp.Machine.Spec.{state, IsReady, Effect}
use sturm_cpp.Machine.Spec.Lifted.{CanEmit}
use sturm_cpp.Machine.Spec.Routine.{emit-Effect}
use sturm_cpp.Machine.Spec.Usable.{IsUsable}
use sturm_cpp.Qtypes.Bit.{BitProxy, xor_assign, xor_assign_and, ensure_quantum, is_quantum}

-- The bit of an operand: of its qubit, or its value.
abbrev pub operand_bit : Bits → BitProxy → Bool
operand_bit s x = elim x.qubit_index [ none ↦ x.bit_value | some q ↦ s q ]

-- An operand with a qubit: it is in use, not the target, and not the active control.
abbrev pub CanRead : Machine → ℕ → BitProxy → Type 0
CanRead m t x = elim x.qubit_index [ none ↦ Unit {0} | some q ↦ IsUsable m q × (q ≢ t) ]

abbrev pub proxy : Option ℕ → Bool → Bool → BitProxy
proxy o s v = record { qubit_index = o; superposed = s; bit_value = v }

module _ (init : Bits) where
  -- The call returned the bit `b` as it was, and under an active control flipped its qubit if
  -- `flips` holds; under a control that is not active it changed nothing.
  pub record Assigns (m : Machine) (b : BitProxy) (t : ℕ) (flips : Bool)
      (result : Option (BitProxy × Machine)) : Type 0 where
    pub unit_result : Option (Unit {0} × Machine)
    pub effect : Effect init m (flip_if flips t (state init m)) unit_result
    pub returns : result ≡ some (b, effect.after)

  Assigns-emit :
      (m : Machine) (o : Op) (b : BitProxy) (t : ℕ) (flips : Bool)
      (result : Option (BitProxy × Machine))
      → IsReady init m
      → CanEmit m o
      → run_op o (state init m) ≡ flip_if flips t (state init m)
      → result ≡ (emit o >> pure b) m
      → Assigns m b t flips result
  Assigns-emit m o b t flips result ready can same er =
      let e = subst (λ g. Effect init m g (emit o m)) same (emit-Effect init m o ready can) in
      record { unit_result = emit o m; effect = e; returns = er ∙ rw (◌>>◌, ◌>>=◌, e.returns) refl }

  Assigns-pure :
      (m : Machine) (b : BitProxy) (t : ℕ) (flips : Bool)
      → IsReady init m
      → flips ≡ false
      → Assigns m b t flips (pure b m)
  unfolding flip_if
  Assigns-pure m b t flips ready off = record {
    unit_result = pure tt m;
    effect = still;
    returns = refl;
  }
    where
      unmoved : state init m ≡ flip_if flips t (state init m)
      unmoved = fun_ext λ q. ground (arith, off)

      still : Effect init m (flip_if flips t (state init m)) (pure tt m)
      still = record {
        after = m;
        returns = refl;
        ready = ready;
        same_stack = refl;
        same_live = λ q. refl;
        reached = λ q. ground (arith, ap (λ s. s q) unmoved);
      }

  and_at :
      (m : Machine) (t : ℕ) (sb vb : Bool) (ox oy : Option ℕ) (mx my v w : Bool)
      → IsReady init m
      → IsUsable m t
      → CanRead m t (proxy ox mx v)
      → CanRead m t (proxy oy my w)
      → Assigns m
          (proxy (some t) sb vb)
          t
          (operand_bit (state init m) (proxy ox mx v) && operand_bit (state init m) (proxy oy my w))
          (xor_assign_and (proxy (some t) sb vb) (proxy ox mx v) (proxy oy my w) m)
  unfolding xor_assign_and ensure_quantum is_quantum emit run_op
  and_at m t sb vb (some p) (some q) mx my v w ready u hx hy =
      Assigns-emit m (op_ccx p q t) _ t _ _ ready
        (record { wires = (hx.0.live, hy.0.live, u.live); proper = (hx.1, hy.1); off = u.off }) refl
        refl
  and_at m t sb vb (some p) none mx my v true ready u hx hy =
      Assigns-emit m (op_cx p t) _ t _ _ ready
        (record { wires = (hx.0.live, u.live); proper = hx.1; off = u.off })
        (fun_ext λ k. unfold flip_if in ground arith) refl
  and_at m t sb vb (some p) none mx my v false ready u hx hy =
      Assigns-pure m _ t _ ready (ground arith)
  and_at m t sb vb none (some q) mx my true w ready u hx hy =
      Assigns-emit m (op_cx q t) _ t _ _ ready
        (record { wires = (hy.0.live, u.live); proper = hy.1; off = u.off }) refl refl
  and_at m t sb vb none (some q) mx my false w ready u hx hy = Assigns-pure m _ t _ ready refl
  and_at m t sb vb none none mx my true true ready u hx hy =
      Assigns-emit m (op_x t) _ t _ _ ready (record { wires = u.live; proper = tt; off = u.off })
        refl refl
  and_at m t sb vb none none mx my true false ready u hx hy = Assigns-pure m _ t _ ready refl
  and_at m t sb vb none none mx my false w ready u hx hy = Assigns-pure m _ t _ ready refl

  -- On a ready machine, `c ^= (a & b)` on a bit with a usable qubit, with operands that are
  -- classical or usable and not `c`, returns `c`, with the qubit of `c` flipped if both operands
  -- are 1, by value or by qubit, and the active control is |1> or there is none.
  pub xor_assign_and-folds :
      (m : Machine) (c a b : BitProxy) (t : ℕ)
      → IsReady init m
      → c.qubit_index ≡ some t
      → IsUsable m t
      → CanRead m t a
      → CanRead m t b
      → Assigns m c t
          (operand_bit (state init m) a && operand_bit (state init m) b)
          (xor_assign_and c a b m)
  xor_assign_and-folds m c a b t ready e u ha hb =
      subst
        (λ c.
          Assigns m c t (operand_bit (state init m) a && operand_bit (state init m) b)
            (xor_assign_and c a b m))
        (ap (λ o. proxy o c.superposed c.bit_value) (sym e))
        (and_at m t c.superposed c.bit_value a.qubit_index b.qubit_index a.superposed b.superposed
          a.bit_value b.bit_value ready u ha hb)

  xor_at :
      (m : Machine) (t : ℕ) (sb vb : Bool) (ox : Option ℕ) (mx v : Bool)
      → IsReady init m
      → IsUsable m t
      → CanRead m t (proxy ox mx v)
      → Assigns m
          (proxy (some t) sb vb)
          t
          (operand_bit (state init m) (proxy ox mx v))
          (xor_assign (proxy (some t) sb vb) (proxy ox mx v) m)
  unfolding xor_assign ensure_quantum is_quantum emit run_op
  xor_at m t sb vb (some p) mx v ready u hx =
      Assigns-emit m (op_cx p t) _ t _ _ ready
        (record { wires = (hx.0.live, u.live); proper = hx.1; off = u.off }) refl refl
  xor_at m t sb vb none mx true ready u hx =
      Assigns-emit m (op_x t) _ t _ _ ready (record { wires = u.live; proper = tt; off = u.off })
        refl refl
  xor_at m t sb vb none mx false ready u hx = Assigns-pure m _ t _ ready refl

  -- On a ready machine, `b ^= a` on a bit with a usable qubit, with an operand that is classical
  -- or usable and not `b`, returns `b`, with the qubit of `b` flipped if the operand is 1, by
  -- value or by qubit, and the active control is |1> or there is none.
  pub xor_assign-folds :
      (m : Machine) (b a : BitProxy) (t : ℕ)
      → IsReady init m
      → b.qubit_index ≡ some t
      → IsUsable m t
      → CanRead m t a
      → Assigns m b t (operand_bit (state init m) a) (xor_assign b a m)
  xor_assign-folds m b a t ready e u ha =
      subst (λ b. Assigns m b t (operand_bit (state init m) a) (xor_assign b a m))
        (ap (λ o. proxy o b.superposed b.bit_value) (sym e))
        (xor_at m t b.superposed b.bit_value a.qubit_index a.superposed a.bit_value ready u ha)
