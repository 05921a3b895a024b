-- ===== src/Dispatch/Tests.antt =====
-- Dispatches on concrete operands.
use sturm_cpp.Common.{◌≡◌, ◌++◌, if◌then◌else◌}
use sturm_cpp.Common.{ℕ, refl, arith, none, [], ◌∷◌}
use sturm_cpp.Core.GateKind.{gate_ccx, gate_info_of}
use sturm_cpp.Core.Orkan.{zero_angle}
use sturm_cpp.Circuit.{flip_if}
use sturm_cpp.Machine.Spec.{state, apply_gate}
use sturm_cpp.Machine.Example.{bits, outside, under_control, under_control-IsReady}
use sturm_cpp.Dispatch.Gate.{
  ClassicalOperand, classical_operand, quantum_operand, dispatch_gate_mixed,
  dispatch_gate_classical, promote_operands,
}
use sturm_cpp.Dispatch.Mixed.{
  Leads, ccx_under, kind_of, operands, controls_of, controls_bit, dispatch_gate_mixed-controls,
}
use sturm_cpp.Machine.{gate, pure}
use sturm_cpp.Dispatch.Reduced
use sturm_cpp.Dispatch.Reduced.{
  under, base_ry, base_of, kind_under, quantum_controls, is_blocked, dispatch_gate_mixed-reduces,
}
use sturm_cpp.Dispatch.Promotion.{Promotes, promote_operands-Promotes}
use sturm_cpp.Dispatch.Classical.{Holds, bits_of, dispatch_gate_classical-bits}

dispatch_gate_mixed-controls_example :
    Leads bits outside
      (flip_if
        (controls_bit
          (state bits outside)
          (controls_of (ccx_under (classical_operand 1) (quantum_operand 0))))
        2
        (state bits outside))
      (dispatch_gate_mixed
        (kind_of (ccx_under (classical_operand 1) (quantum_operand 0)))
        (operands (controls_of (ccx_under (classical_operand 1) (quantum_operand 0))) 2)
        zero_angle
        outside)
dispatch_gate_mixed-controls_example =
    dispatch_gate_mixed-controls bits outside (ccx_under (classical_operand 1) (quantum_operand 0))
      2 zero_angle refl

dispatch_gate_mixed-reduces_example :
    dispatch_gate_mixed
      (Reduced.kind_of (under base_ry (classical_operand 1)))
      (operands (Reduced.controls_of (under base_ry (classical_operand 1))) 2)
      zero_angle
      outside
    ≡ (if is_blocked (Reduced.controls_of (under base_ry (classical_operand 1)))
        then pure tt outside
        else gate
            (kind_under
              (base_of (under base_ry (classical_operand 1)))
              (quantum_controls (Reduced.controls_of (under base_ry (classical_operand 1)))))
            (quantum_controls (Reduced.controls_of (under base_ry (classical_operand 1))) ++ 2 ∷ [])
            zero_angle
            outside)
dispatch_gate_mixed-reduces_example =
    dispatch_gate_mixed-reduces (under base_ry (classical_operand 1)) 2 zero_angle outside

abbrev operand : ℕ → ClassicalOperand
operand v = record { value = v; bit_pos = 0; qubit_idx = none }

dispatch_gate_classical-bits_example :
    Holds 3
      (apply_gate gate_ccx 0 1 2 (bits_of (operand 1 ∷ operand 1 ∷ operand 0 ∷ [])))
      (dispatch_gate_classical gate_ccx (operand 1 ∷ operand 1 ∷ operand 0 ∷ []) zero_angle)
dispatch_gate_classical-bits_example =
    dispatch_gate_classical-bits gate_ccx (operand 1 ∷ operand 1 ∷ operand 0 ∷ []) zero_angle
      (unfold gate_info_of in refl) (unfold gate_info_of in λ e. absurd (ground (arith, e)))

promote_operands-Promotes_example :
    Promotes bits under_control
      (operand 1 ∷ operand 0 ∷ [])
      (promote_operands (operand 1 ∷ operand 0 ∷ []) 0 under_control)
promote_operands-Promotes_example =
    promote_operands-Promotes bits (operand 1 ∷ operand 0 ∷ []) 0 under_control
      under_control-IsReady
