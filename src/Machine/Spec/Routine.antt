-- ===== src/Machine/Spec/Routine.antt =====
-- The doubly controlled emitter, which folds the active control into an ancilla, and the list of
-- statements of a routine.
use mathlib.Core.Path.{subst}
use sturm_cpp.Core.Context.{append}
use sturm_cpp.Common.{
  ℕ, ◌≡◌, ◌≢◌, refl, fun_ext, ap, ◌∙◌, sym, arith, true, false, List, [], ◌∷◌, All, if◌then◌else◌,
}
use sturm_cpp.Core.ControlStack.{ControlStack}
use sturm_cpp.Core.Pool.{is_live}
use sturm_cpp.Circuit.{Bits, Op, op_x, op_cx, op_ccx, run_op, run, target}
use sturm_cpp.Circuit.Laws.{run_op-frame}
use sturm_cpp.Machine.{Machine, ◌>>=◌, ◌>>◌, allocate, release, primitive_and}
use sturm_cpp.Machine.Emit.{emit, emits, emit_ccx_lifted}
use sturm_cpp.Machine.Emit.{emit_ccx_folded, fold_gates}
use sturm_cpp.Machine.Spec.{state, SameControl, IsReady, Effect}
use sturm_cpp.Machine.Spec.Gates.{Emitted, primitive-Emitted, Emitted-seq}
use sturm_cpp.Machine.Spec.Sequence.{Effect-seq, Effect-pure}
use sturm_cpp.Machine.Spec.Ancilla.{Extended, index, extended, extended-Extended, Effect-ancilla}
use sturm_cpp.Machine.Spec.Lifted.{
  CanEmit, IsOff, Emitted-Effect, run_op-still, primitive-Effect, emit_x-Effect, emit_cx-Effect,
}

module _ (init : Bits) where
  -- The fold: with the ancilla at |0>, the three gates act as one gate under the control.
  abbrev fold : ℕ → ℕ → ℕ → ℕ → ℕ → List Op
  fold c c0 c1 t anc = op_ccx c0 c1 anc ∷ op_ccx c anc t ∷ op_ccx c0 c1 anc ∷ []

  fold_gates-Emitted :
      (c c0 c1 t anc : ℕ) (m : Machine)
      → m.ctx.mode ≡ append
      → Emitted init m (fold c c0 c1 t anc) (fold_gates c c0 c1 t anc m)
  unfolding fold_gates
  fold_gates-Emitted c c0 c1 t anc m e =
      let first = primitive-Emitted init (op_ccx c0 c1 anc) m e in
      let second = primitive-Emitted init (op_ccx c anc t) first.after first.mode in
      let third = primitive-Emitted init (op_ccx c0 c1 anc) second.after second.mode in
      Emitted-seq init m (op_ccx c0 c1 anc ∷ []) (op_ccx c anc t ∷ op_ccx c0 c1 anc ∷ [])
        (primitive_and c0 c1 anc) (primitive_and c anc t >> primitive_and c0 c1 anc) first
        (Emitted-seq init first.after (op_ccx c anc t ∷ []) (op_ccx c0 c1 anc ∷ [])
          (primitive_and c anc t) (primitive_and c0 c1 anc) second third)

  run-fold :
      (c c0 c1 t anc : ℕ) (s : Bits)
      → s anc ≡ false
      → c0 ≢ t
      → c1 ≢ t
      → c ≢ anc
      → c0 ≢ anc
      → c1 ≢ anc
      → t ≢ anc
      → (q : ℕ) → run (fold c c0 c1 t anc) s q ≡ (if s c then run_op (op_ccx c0 c1 t) s q else s q)
  unfolding run run_op
  run-fold c c0 c1 t anc s zero n0 n1 na na0 na1 nat q = ground arith

  fold_gates-Effect :
      (m m' : Machine) (i c c0 c1 t : ℕ)
      → IsReady init m
      → CanEmit m (op_ccx c0 c1 t)
      → m.ctx.control_stack ≡ c ∷ []
      → Extended init m i m'
      → Effect init m' (run_op (op_ccx c0 c1 t) (state init m)) (fold_gates c c0 c1 t i m')
  unfolding state
  fold_gates-Effect m m' i c c0 c1 t ready can e x =
      Emitted-Effect init m' (run_op (op_ccx c0 c1 t) (state init m)) (fold c c0 c1 t i) x.ready
        (λ q dead.
          run_op-still init m (op_ccx c0 c1 t) ready can.wires.2 q (ground (arith, x.now_live q)))
        (λ q. ground (
          arith,
          run-fold c c0 c1 t i (state init m) (ready.clean i x.new) can.proper.0 can.proper.1
              (apart c (rw e at ready.controlled)) (apart c0 can.wires.0) (apart c1 can.wires.1)
              (apart t can.wires.2) q,
          x.same_ctx,
          e,
        ))
        (fold_gates-Emitted c c0 c1 t i m' x.ready.mode)
    where
      apart : (j : ℕ) → is_live m.pool j ≡ true → j ≢ i
      apart j lit same = ground (arith, ap (is_live m.pool) same, x.new)

  emit_ccx_depth1 :
      (m : Machine) (c c0 c1 t : ℕ)
      → m.ctx.control_stack ≡ c ∷ []
      → emit_ccx_lifted c0 c1 t m ≡ (allocate >>= λ i. fold_gates c c0 c1 t i >> release i) m
  unfolding emit_ccx_lifted emit_ccx_folded
  emit_ccx_depth1 m c c0 c1 t e = rw e refl

  pub emit_ccx-Effect :
      (m : Machine) (c0 c1 t : ℕ)
      → IsReady init m
      → CanEmit m (op_ccx c0 c1 t)
      → Effect init m (run_op (op_ccx c0 c1 t) (state init m)) (emit_ccx_lifted c0 c1 t m)
  unfolding run run_op emit_ccx_lifted
  emit_ccx-Effect m c0 c1 t ready can = go m.ctx.control_stack refl
    where
      go :
          (cs : ControlStack)
          → m.ctx.control_stack ≡ cs
          → Effect init m (run_op (op_ccx c0 c1 t) (state init m)) (emit_ccx_lifted c0 c1 t m)
      go [] e =
          primitive-Effect init m (op_ccx c0 c1 t) (op_ccx c0 c1 t) (emit_ccx_lifted c0 c1 t m)
            ready can.wires.2 (λ q. ground (arith, e)) (ground (arith, e))
      go (c ∷ []) e =
          subst (Effect init m (run_op (op_ccx c0 c1 t) (state init m)))
            (sym (emit_ccx_depth1 m c c0 c1 t e))
            (Effect-ancilla init m (run_op (op_ccx c0 c1 t) (state init m)) (fold_gates c c0 c1 t)
              ready
              (λ x. fold_gates-Effect m (extended init m) (index init m) c c0 c1 t ready can e x)
              (run_op-still init m (op_ccx c0 c1 t) ready can.wires.2 (index init m)
                (extended-Extended init m ready).new))
      go (c ∷ d ∷ cs) e = absurd (rw e at ready.controlled)

  pub emit-Effect :
      (m : Machine) (o : Op)
      → IsReady init m
      → CanEmit m o
      → Effect init m (run_op o (state init m)) (emit o m)
  unfolding emit
  emit-Effect m (op_x t) ready can = emit_x-Effect init m t ready can
  emit-Effect m (op_cx c t) ready can = emit_cx-Effect init m c t ready can
  emit-Effect m (op_ccx c0 c1 t) ready can = emit_ccx-Effect m c0 c1 t ready can

  -- The conditions of a statement need the qubits in use and the control only.
  CanEmit-transport :
      (m m' : Machine) (o : Op)
      → ((q : ℕ) → is_live m.pool q ≡ true → is_live m'.pool q ≡ true)
      → m'.ctx.control_stack ≡ m.ctx.control_stack
      → CanEmit m o
      → CanEmit m' o
  CanEmit-transport m m' (op_x t) more e can = record {
    wires = more t can.wires;
    proper = can.proper;
    off = rw e can.off;
  }
  CanEmit-transport m m' (op_cx c t) more e can = record {
    wires = (more c can.wires.0, more t can.wires.1);
    proper = can.proper;
    off = rw e can.off;
  }
  CanEmit-transport m m' (op_ccx c0 c1 t) more e can = record {
    wires = (more c0 can.wires.0, more c1 can.wires.1, more t can.wires.2);
    proper = can.proper;
    off = rw e can.off;
  }

  pub All-CanEmit-transport :
      (m m' : Machine) (os : List Op)
      → ((q : ℕ) → is_live m.pool q ≡ true → is_live m'.pool q ≡ true)
      → m'.ctx.control_stack ≡ m.ctx.control_stack
      → All (CanEmit m) os
      → All (CanEmit m') os
  All-CanEmit-transport m m' [] more e can = tt
  All-CanEmit-transport m m' (o ∷ os) more e can =
      (CanEmit-transport m m' o more e can.0, All-CanEmit-transport m m' os more e can.1)

  SameControl-off :
      (cs : ControlStack) (o : Op) (s : Bits) → IsOff cs (target o) → SameControl cs (run_op o s) s
  SameControl-off [] o s off = tt
  SameControl-off (c ∷ cs) o s off = run_op-frame o s c off

  -- On a ready machine, emitting a list of statements on qubits in use, none of which targets
  -- one of its own controls or the active control, returns, hands back each qubit that it took,
  -- and if the active control is |1> or there is none does to the state what the gates of the
  -- statements do in order; under a control that is |0> it changes no qubit.
  pub emits-Effect :
      (os : List Op) (m : Machine)
      → IsReady init m
      → All (CanEmit m) os
      → Effect init m (run os (state init m)) (emits os m)
  unfolding emits run
  emits-Effect [] m ready can = Effect-pure init m ready
  emits-Effect (o ∷ os) m ready can =
      let first = emit-Effect m o ready can.0 in
      Effect-seq init m (run_op o (state init m)) (run os) (emit o) (emits os)
        (SameControl-off m.ctx.control_stack o (state init m) can.0.off) first
        (emits-Effect os first.after first.ready (
          All-CanEmit-transport m first.after os (λ q l. first.same_live q ∙ l) first.same_stack
            can.1))

  -- A routine with an ancilla: it takes one from the pool, runs its statements, gives it back.
  pub Effect-routine :
      (m : Machine) (ops : ℕ → List Op) (goal : Bits)
      → IsReady init m
      → (Extended init m (index init m) (extended init m)
          → All (CanEmit (extended init m)) (ops (index init m))
            × ((q : ℕ) → run (ops (index init m)) (state init m) q ≡ goal q)
            × (goal (index init m) ≡ false))
      → Effect init m goal ((allocate >>= λ i. emits (ops i) >> release i) m)
  unfolding state
  Effect-routine m ops goal ready h =
      Effect-ancilla init m goal (λ i. emits (ops i)) ready
        (λ x.
          subst
            (λ g. Effect init (extended init m) g (emits (ops (index init m)) (extended init m)))
            (fun_ext (h x).1) (emits-Effect (ops (index init m)) (extended init m) x.ready (h x).0))
        (h (extended-Extended init m ready)).2
