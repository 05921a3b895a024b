-- ===== src/Dispatch/Mixed.antt =====
-- The dispatch with classical controls against the full gate.
use sturm_cpp.Common.{
  ℕ, suc, ◌≡◌, refl, fun_ext, ◌∙◌, arith, Bool, true, false, ◌&&◌, Option, some, List, [], ◌∷◌,
  get_or, length, ltb, lt→ltb,
}
use sturm_cpp.Common.{Bool-cases, inl, inr, if◌then◌else◌}
use sturm_cpp.Core.GateKind.{GateKind, gate_x, gate_y, gate_cx, gate_cy, gate_ccx, kind_index}
use sturm_cpp.Core.Orkan.{Angle}
use sturm_cpp.Core.Context.{append}
use sturm_cpp.Core.Execute.{gate_record}
use sturm_cpp.Circuit.{Bits, flip_if}
use sturm_cpp.Machine.{Machine, gate, pure}
use sturm_cpp.Machine.Spec.{apply_gate, state}
use sturm_cpp.Machine.Spec.Gates.{gate-recorded, state-recorded}
use sturm_cpp.Dispatch.Reduction.{lookup_reduce, scan, entry, ctrl1_entry, reduction_table_entries}
use sturm_cpp.Dispatch.Gate.{
  GateOperand, classical_operand, quantum_operand, dispatch_gate_mixed, dispatch_gate_quantum,
  is_odd, has_zero, classical_pattern, resolve, resolve_all,
}

-- The bit of a control: its value, or the bit of its qubit.
abbrev pub control_bit : Bits → GateOperand → Bool
control_bit s (classical_operand v) = is_odd v
control_bit s (quantum_operand q) = s q

abbrev pub controls_bit : Bits → List GateOperand → Bool
controls_bit s [] = true
controls_bit s (c ∷ cs) = control_bit s c && controls_bit s cs

-- The gates that flip their last operand under the controls before it.
pub data FlipGate : Type 0 where
  cx_under cy_under : GateOperand → FlipGate
  ccx_under : GateOperand → GateOperand → FlipGate

abbrev pub kind_of : FlipGate → GateKind
kind_of (cx_under c) = gate_cx
kind_of (cy_under c) = gate_cy
kind_of (ccx_under c0 c1) = gate_ccx

abbrev pub controls_of : FlipGate → List GateOperand
controls_of (cx_under c) = c ∷ []
controls_of (cy_under c) = c ∷ []
controls_of (ccx_under c0 c1) = c0 ∷ c1 ∷ []

abbrev pub operands : List GateOperand → ℕ → List GateOperand
operands [] t = quantum_operand t ∷ []
operands (c ∷ cs) t = c ∷ operands cs t

zero-blocks :
    (s : Bits) (cs : List GateOperand) (t : ℕ)
    → has_zero (operands cs t) ≡ true
    → controls_bit s cs ≡ false
unfolding has_zero
zero-blocks s [] t h = absurd (ground arith)
zero-blocks s (classical_operand v ∷ cs) t h = ground (arith, zero-blocks s cs t)
zero-blocks s (quantum_operand q ∷ cs) t h = ground (arith, zero-blocks s cs t)

module _ (init : Bits) where
  -- A call that returned, left the pool alone, and led to the given state.
  pub record Leads (m : Machine) (goal : Bits) (result : Option (Unit {0} × Machine)) : Type 0 where
    pub after : Machine
    pub returns : result ≡ some (tt, after)
    pub same_pool : after.pool ≡ m.pool
    pub reached : state init after ≡ goal

  pub gate-Leads :
      (kind : GateKind) (qs : List ℕ) (θ : Angle) (m : Machine)
      → m.ctx.mode ≡ append
      → Leads m
          (let r = gate_record kind qs (length qs) θ in
            apply_gate r.kind r.q0 r.q1 r.q2 (state init m))
          (gate kind qs θ m)
  gate-Leads kind qs θ m e = record {
    after = _;
    returns = gate-recorded init kind qs θ m e;
    same_pool = refl;
    reached = state-recorded init (gate_record kind qs (length qs) θ) m;
  }

  Leads-as :
      (m : Machine) (goal goal' : Bits) (r r' : Option (Unit {0} × Machine))
      → r' ≡ r
      → goal ≡ goal'
      → Leads m goal r
      → Leads m goal' r'
  Leads-as m goal goal' r r' er eg l = record {
    after = l.after;
    returns = er ∙ l.returns;
    same_pool = l.same_pool;
    reached = l.reached ∙ eg;
  }

  -- The gate that is left, in place of the dispatched one.
  reduced :
      (m : Machine) (goal : Bits) (kind : GateKind) (qs : List ℕ) (θ : Angle)
      (r : Option (Unit {0} × Machine))
      → m.ctx.mode ≡ append
      → r ≡ gate kind qs θ m
      → apply_gate kind (get_or qs 0 0) (get_or qs 1 0) (get_or qs 2 0) (state init m) ≡ goal
      → Leads m goal r
  unfolding gate_record
  reduced m goal kind qs θ r e er eg =
      Leads-as m _ goal (gate kind qs θ m) r er (record_gate kind qs (state init m) ∙ eg)
        (gate-Leads kind qs θ m e)
    where
      record_gate :
          (kind : GateKind) (qs : List ℕ) (s : Bits)
          → apply_gate kind
              (if ltb 0 (length qs) then get_or qs 0 0 else 0)
              (if ltb 1 (length qs) then get_or qs 1 0 else 0)
              (if ltb 2 (length qs) then get_or qs 2 0 else 0)
              s
            ≡ apply_gate kind (get_or qs 0 0) (get_or qs 1 0) (get_or qs 2 0) s
      record_gate kind [] s = refl
      record_gate kind (a ∷ []) s = refl
      record_gate kind (a ∷ b ∷ []) s = refl
      record_gate kind (a ∷ b ∷ c ∷ ds) s =
          ground (arith, lt→ltb 0 (suc (suc (suc (length ds)))) (omega arith))

  -- No classical control is 0.
  fires :
      (m : Machine) (g : FlipGate) (t : ℕ) (θ : Angle)
      → m.ctx.mode ≡ append
      → has_zero (operands (controls_of g) t) ≡ false
      → Leads m
          (flip_if (controls_bit (state init m) (controls_of g)) t (state init m))
          (dispatch_gate_mixed (kind_of g) (operands (controls_of g) t) θ m)
  unfolding dispatch_gate_mixed dispatch_gate_quantum has_zero classical_pattern resolve resolve_all
      lookup_reduce scan entry ctrl1_entry reduction_table_entries kind_index apply_gate
  fires m (cx_under (quantum_operand q)) t θ e z =
      reduced m _ gate_cx (q ∷ t ∷ []) θ _ e (ground arith) (ground arith)
  fires m (cx_under (classical_operand v)) t θ e z =
      reduced m _ gate_x (t ∷ []) θ _ e (ground arith) (ground arith)
  fires m (cy_under (quantum_operand q)) t θ e z =
      reduced m _ gate_cy (q ∷ t ∷ []) θ _ e (ground arith) (ground arith)
  fires m (cy_under (classical_operand v)) t θ e z =
      reduced m _ gate_y (t ∷ []) θ _ e (ground arith) (ground arith)
  fires m (ccx_under (quantum_operand q) (quantum_operand r)) t θ e z =
      reduced m _ gate_ccx (q ∷ r ∷ t ∷ []) θ _ e (ground arith) (ground arith)
  fires m (ccx_under (classical_operand v) (quantum_operand r)) t θ e z =
      reduced m _ gate_cx (r ∷ t ∷ []) θ _ e (ground arith) (ground arith)
  fires m (ccx_under (quantum_operand q) (classical_operand w)) t θ e z =
      reduced m _ gate_cx (q ∷ t ∷ []) θ _ e (ground arith) (ground arith)
  fires m (ccx_under (classical_operand v) (classical_operand w)) t θ e z =
      reduced m _ gate_x (t ∷ []) θ _ e (ground arith) (ground arith)

  -- On a context that records its gates, a dispatch of CX, CY or CCX with a quantum target
  -- returns, whichever of the controls are classical, takes no qubit, and leads to the state
  -- with the target flipped if every control, by its value or by its qubit, is 1.
  pub dispatch_gate_mixed-controls :
      (m : Machine) (g : FlipGate) (t : ℕ) (θ : Angle)
      → m.ctx.mode ≡ append
      → Leads m
          (flip_if (controls_bit (state init m) (controls_of g)) t (state init m))
          (dispatch_gate_mixed (kind_of g) (operands (controls_of g) t) θ m)
  unfolding dispatch_gate_mixed
  dispatch_gate_mixed-controls m g t θ e =
      elim (Bool-cases (has_zero (operands (controls_of g) t))) [
        | inl blocked ↦
            Leads-as m (state init m) _ (pure tt m) _ (ground (arith, blocked))
              (fun_ext λ q.
                unfold flip_if in
                ground (arith, zero-blocks (state init m) (controls_of g) t blocked))
              (record { after = m; returns = refl; same_pool = refl; reached = refl })
        | inr unblocked ↦ fires m g t θ e unblocked
      ]
