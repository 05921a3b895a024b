-- ===== src/Machine/Spec/Lifted.antt =====
-- The lifted emitters of X and CX against their specification.
use mathlib.Core.Path.{subst}
use sturm_cpp.Common.{
  ℕ, ◌≡◌, ◌≢◌, refl, ap, ◌∙◌, sym, arith, true, false, Option, List, [], ◌∷◌, if◌then◌else◌,
}
use sturm_cpp.Core.ControlStack.{ControlStack}
use sturm_cpp.Core.Pool.{is_live}
use sturm_cpp.Circuit.{Bits, Op, op_x, op_cx, op_ccx, run_op, run, target}
use sturm_cpp.Circuit.Laws.{IsProper, run_op-frame}
use sturm_cpp.Machine.{Machine}
use sturm_cpp.Machine.Emit.{emit_x_lifted, emit_cx_lifted}
use sturm_cpp.Machine.Spec.{state, active, IsReady, Effect}
use sturm_cpp.Machine.Spec.Gates.{primitive, Emitted, primitive-Emitted}

-- The wires of a statement are qubits in use.
abbrev pub IsLive : Machine → Op → Type 0
IsLive m (op_x t) = is_live m.pool t ≡ true
IsLive m (op_cx c t) = (is_live m.pool c ≡ true) × (is_live m.pool t ≡ true)
IsLive m (op_ccx c0 c1 t) =
    (is_live m.pool c0 ≡ true) × (is_live m.pool c1 ≡ true) × (is_live m.pool t ≡ true)

-- The qubit is not the active control.
abbrev pub IsOff : ControlStack → ℕ → Type 0
IsOff [] q = Unit
IsOff (c ∷ cs) q = c ≢ q

-- What a statement of a routine needs.
pub record CanEmit (m : Machine) (o : Op) : Type 0 where
  pub wires : IsLive m o
  pub proper : IsProper o
  pub off : IsOff m.ctx.control_stack (target o)

module _ (init : Bits) where
  -- Recorded gates have the effect that they compute.
  pub Emitted-Effect :
      (m : Machine) (goal : Bits) (os : List Op) {result : Option (Unit {0} × Machine)}
      → IsReady init m
      → ((q : ℕ) → is_live m.pool q ≡ false → goal q ≡ false)
      → ((q : ℕ) → run os (state init m) q ≡ (if active init m then goal q else state init m q))
      → Emitted init m os result
      → Effect init m goal result
  Emitted-Effect m goal os ready still agrees e = record {
    after = e.after;
    returns = e.returns;
    ready = record {
      mode = e.mode;
      sound = rw e.same_pool ready.sound;
      clean = λ q dead. ground (
        arith,
        ready.clean q (rw e.same_pool at dead),
        still q (rw e.same_pool at dead),
        agrees q,
        ap (λ s. s q) e.reached,
      );
      controlled = rw (e.same_stack, e.same_pool) ready.controlled;
    };
    same_stack = e.same_stack;
    same_live = λ q. ap (λ r. is_live r q) e.same_pool;
    reached = λ q. ap (λ s. s q) e.reached ∙ agrees q;
  }

  pub run_op-still :
      (m : Machine) (o : Op)
      → IsReady init m
      → is_live m.pool (target o) ≡ true
      → (q : ℕ) → is_live m.pool q ≡ false
      → run_op o (state init m) q ≡ false
  run_op-still m o ready lit q dead =
      run_op-frame o (state init m) q (λ e. ground (arith, ap (is_live m.pool) e))
      ∙ ready.clean q dead

  -- One gate `p` in place of the statement `o`.
  pub primitive-Effect :
      (m : Machine) (o p : Op) (result : Option (Unit {0} × Machine))
      → IsReady init m
      → is_live m.pool (target o) ≡ true
      → ((q : ℕ)
          → run (p ∷ []) (state init m) q
            ≡ (if active init m then run_op o (state init m) q else state init m q))
      → result ≡ primitive p m
      → Effect init m (run_op o (state init m)) result
  primitive-Effect m o p result ready lit agrees e =
      Emitted-Effect m (run_op o (state init m)) (p ∷ []) ready (run_op-still m o ready lit) agrees
        (subst (Emitted init m (p ∷ [])) (sym e) (primitive-Emitted init p m ready.mode))

  pub emit_x-Effect :
      (m : Machine) (t : ℕ)
      → IsReady init m
      → CanEmit m (op_x t)
      → Effect init m (run_op (op_x t) (state init m)) (emit_x_lifted t m)
  unfolding run run_op emit_x_lifted
  emit_x-Effect m t ready can = go m.ctx.control_stack refl
    where
      go :
          (cs : ControlStack)
          → m.ctx.control_stack ≡ cs
          → Effect init m (run_op (op_x t) (state init m)) (emit_x_lifted t m)
      go [] e =
          primitive-Effect m (op_x t) (op_x t) (emit_x_lifted t m) ready can.wires
            (λ q. ground (arith, e)) (ground (arith, e))
      go (c ∷ []) e =
          primitive-Effect m (op_x t) (op_cx c t) (emit_x_lifted t m) ready can.wires
            (λ q. ground (arith, e)) (ground (arith, e))
      go (c ∷ d ∷ cs) e = absurd (rw e at ready.controlled)

  pub emit_cx-Effect :
      (m : Machine) (a t : ℕ)
      → IsReady init m
      → CanEmit m (op_cx a t)
      → Effect init m (run_op (op_cx a t) (state init m)) (emit_cx_lifted a t m)
  unfolding run run_op emit_cx_lifted
  emit_cx-Effect m a t ready can = go m.ctx.control_stack refl
    where
      go :
          (cs : ControlStack)
          → m.ctx.control_stack ≡ cs
          → Effect init m (run_op (op_cx a t) (state init m)) (emit_cx_lifted a t m)
      go [] e =
          primitive-Effect m (op_cx a t) (op_cx a t) (emit_cx_lifted a t m) ready can.wires.1
            (λ q. ground (arith, e)) (ground (arith, e))
      go (c ∷ []) e =
          primitive-Effect m (op_cx a t) (op_ccx c a t) (emit_cx_lifted a t m) ready can.wires.1
            (λ q. ground (arith, e)) (ground (arith, e))
      go (c ∷ d ∷ cs) e = absurd (rw e at ready.controlled)
