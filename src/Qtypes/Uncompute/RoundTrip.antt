-- ===== src/Qtypes/Uncompute/RoundTrip.antt =====
-- The materialized operators and then their inverses, outside WHEN blocks.

use sturm_cpp.Common.{
  ℕ, ◌≡◌, ◌≢◌, refl, sym, ap, ◌∙◌, arith, Bool, true, false, ◌&&◌, ◌||◌, Option, some, List, [],
}
use sturm_cpp.Core.Pool.{is_live}
use sturm_cpp.Circuit.{Bits, Op, run, flip_if}
use sturm_cpp.Machine.{Machine, M, ◌>>=◌, ◌>>◌, pure, allocate}
use sturm_cpp.Machine.Spec.{state, IsReady}
use sturm_cpp.Machine.Spec.Gates.{Emitted}
use sturm_cpp.Machine.Spec.Ancilla.{index, extended, Extended, extended-Extended}
use sturm_cpp.Qtypes.Bit.{BitProxy, write_bit, write_and, materialize_or, materialize_and, owning}
use sturm_cpp.Qtypes.Uncompute.{
  uncompute_or, uncompute_and, uncompute_or_gates, uncompute_and_gates,
}
use sturm_cpp.Qtypes.Uncompute.Inverse.{
  bit_of, and_ops, or_adj_ops, proxy, uncompute_or_gates-Emitted, uncompute_and_gates-Emitted,
  run-or_adj_ops, run-and_ops,
}
use sturm_cpp.Qtypes.Uncompute.Materialize.{
  IsOperand, or_ops, run-or_ops, Avoids-new, bit_of-flip, flip-flip, >>-assoc, write_and-Emitted,
  write_or-Emitted,
}

module _ (init : Bits) where
  -- The value `b` was computed into a fresh ancilla, and then undone.
  pub record RoundTrip (m : Machine) (b : Bool) (result : Option (BitProxy × Machine))
      (undo : BitProxy → M (Unit {0})) : Type 0 where
    pub anc : ℕ
    pub middle : Machine
    pub computes : result ≡ some (owning anc, middle)
    pub fresh : is_live m.pool anc ≡ false
    pub taken : is_live middle.pool anc ≡ true
    pub holds : state init middle anc ≡ b
    pub others : (q : ℕ) → q ≢ anc → state init middle q ≡ state init m q
    pub after : Machine
    pub undoes : undo (owning anc) middle ≡ some (tt, after)
    pub restored : state init after ≡ state init m

  -- From the gates of both calls.
  round_trip :
      (m : Machine) (b : Bool) (ops adj : List Op) (write : M (Unit {0})) (undo : M (Unit {0}))
      (result : Option (BitProxy × Machine)) (undo_of : BitProxy → M (Unit {0}))
      → IsReady init m
      → (w : Emitted init (extended init m) ops (write (extended init m)))
      → (u : Emitted init w.after adj (undo w.after))
      → result ≡ (write >> pure (owning (index init m))) (extended init m)
      → undo_of (owning (index init m)) w.after ≡ undo w.after
      → run ops (state init m) ≡ flip_if b (index init m) (state init m)
      → run adj (flip_if b (index init m) (state init m))
        ≡ flip_if b (index init m) (flip_if b (index init m) (state init m))
      → RoundTrip m b result undo_of
  unfolding state
  round_trip m b ops adj write undo result undo_of ready w u er eu ro ra = record {
    anc = index init m;
    middle = w.after;
    computes = er ∙ rw (◌>>◌, ◌>>=◌, w.returns) refl;
    fresh = x.new;
    taken =
        ground (arith, x.now_live (index init m), ap (λ p. is_live p (index init m)) w.same_pool);
    holds =
        ap (λ s. s (index init m)) reached
        ∙ unfold flip_if in ground (arith, ready.clean (index init m) x.new);
    others = λ q ne. ap (λ s. s q) reached ∙ unfold flip_if in ground arith;
    after = u.after;
    undoes = eu ∙ u.returns;
    restored = u.reached ∙ ap (run adj) reached ∙ ra ∙ flip-flip b (index init m) (state init m);
  }
    where
      x : Extended init m (index init m) (extended init m)
      x = extended-Extended init m ready

      reached : state init w.after ≡ flip_if b (index init m) (state init m)
      reached = w.reached ∙ ro

  or_trip :
      (ox oy : Option ℕ) (mx my v w : Bool) (m : Machine)
      → IsReady init m
      → m.ctx.control_stack ≡ []
      → IsOperand m (proxy ox mx v)
      → IsOperand m (proxy oy my w)
      → RoundTrip m
          (bit_of (state init m) (proxy ox mx v) || bit_of (state init m) (proxy oy my w))
          (materialize_or (proxy ox mx v) (proxy oy my w) m)
          (λ r. uncompute_or r (proxy ox mx v) (proxy oy my w))
  unfolding materialize_or uncompute_or allocate state
  or_trip ox oy mx my v w m ready stack hx hy =
      let i = index init m in
      let b = bit_of (state init m) (proxy ox mx v) || bit_of (state init m) (proxy oy my w) in
      let x = extended-Extended init m ready in
      let ax = Avoids-new ox mx v m i hx x.new in
      let ay = Avoids-new oy my w m i hy x.new in
      let wr = write_or-Emitted init ox oy mx my v w i (extended init m) x.ready.mode stack in
      round_trip m b (or_ops ox oy v w i) (or_adj_ops ox oy v w i)
        (write_bit (proxy ox mx v) i
          >> (write_bit (proxy oy my w) i >> write_and (proxy ox mx v) (proxy oy my w) i))
        (uncompute_or_gates i (proxy ox mx v) (proxy oy my w)) _ _ ready wr
        (uncompute_or_gates-Emitted init ox oy mx my v w i wr.after wr.mode)
        (ap (λ k. (write_bit (proxy ox mx v) i >> k) (extended init m))
            (sym (
              >>-assoc (write_bit (proxy oy my w) i) (write_and (proxy ox mx v) (proxy oy my w) i)
                (pure (owning i))))
          ∙ ap (λ k. k (extended init m))
              (sym (
                >>-assoc (write_bit (proxy ox mx v) i)
                  (write_bit (proxy oy my w) i >> write_and (proxy ox mx v) (proxy oy my w) i)
                  (pure (owning i)))))
        refl (run-or_ops ox oy mx my v w i (state init m) ax ay)
        (run-or_adj_ops init ox oy mx my v w i (flip_if b i (state init m)) ax ay
          ∙ rw
              (bit_of-flip ox mx v i b (state init m) ax, bit_of-flip oy my w i b (state init m) ay)
              refl)

  -- On a ready machine outside WHEN blocks, with operands whose qubits are in use,
  -- `materialize_or` returns the disjunction of the operands in a qubit that was free before,
  -- changes no other qubit, and `uncompute_or` on its result and the same operands returns, with
  -- every qubit as it was before both calls.
  pub materialize_or-uncompute :
      (m : Machine) (a b : BitProxy)
      → IsReady init m
      → m.ctx.control_stack ≡ []
      → IsOperand m a
      → IsOperand m b
      → RoundTrip m
          (bit_of (state init m) a || bit_of (state init m) b)
          (materialize_or a b m)
          (λ r. uncompute_or r a b)
  materialize_or-uncompute m a b ready stack ha hb =
      or_trip a.qubit_index b.qubit_index a.superposed b.superposed a.bit_value b.bit_value m ready
        stack ha hb

  and_trip :
      (ox oy : Option ℕ) (mx my v w : Bool) (m : Machine)
      → IsReady init m
      → m.ctx.control_stack ≡ []
      → IsOperand m (proxy ox mx v)
      → IsOperand m (proxy oy my w)
      → RoundTrip m
          (bit_of (state init m) (proxy ox mx v) && bit_of (state init m) (proxy oy my w))
          (materialize_and (proxy ox mx v) (proxy oy my w) m)
          (λ r. uncompute_and r (proxy ox mx v) (proxy oy my w))
  unfolding materialize_and uncompute_and allocate state
  and_trip ox oy mx my v w m ready stack hx hy =
      let i = index init m in
      let b = bit_of (state init m) (proxy ox mx v) && bit_of (state init m) (proxy oy my w) in
      let x = extended-Extended init m ready in
      let ax = Avoids-new ox mx v m i hx x.new in
      let ay = Avoids-new oy my w m i hy x.new in
      let wr = write_and-Emitted init ox oy mx my v w i (extended init m) x.ready.mode stack in
      round_trip m b (and_ops ox oy v w i) (and_ops ox oy v w i)
        (write_and (proxy ox mx v) (proxy oy my w) i)
        (uncompute_and_gates i (proxy ox mx v) (proxy oy my w)) _ _ ready wr
        (uncompute_and_gates-Emitted init ox oy mx my v w i wr.after wr.mode) refl refl
        (run-and_ops init ox oy mx my v w i (state init m) ax ay)
        (run-and_ops init ox oy mx my v w i (flip_if b i (state init m)) ax ay
          ∙ rw
              (bit_of-flip ox mx v i b (state init m) ax, bit_of-flip oy my w i b (state init m) ay)
              refl)

  -- On a ready machine outside WHEN blocks, with operands whose qubits are in use,
  -- `materialize_and` returns the conjunction of the operands in a qubit that was free before,
  -- changes no other qubit, and `uncompute_and` on its result and the same operands returns, with
  -- every qubit as it was before both calls.
  pub materialize_and-uncompute :
      (m : Machine) (a b : BitProxy)
      → IsReady init m
      → m.ctx.control_stack ≡ []
      → IsOperand m a
      → IsOperand m b
      → RoundTrip m
          (bit_of (state init m) a && bit_of (state init m) b)
          (materialize_and a b m)
          (λ r. uncompute_and r a b)
  materialize_and-uncompute m a b ready stack ha hb =
      and_trip a.qubit_index b.qubit_index a.superposed b.superposed a.bit_value b.bit_value m ready
        stack ha hb
