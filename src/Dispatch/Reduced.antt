-- ===== src/Dispatch/Reduced.antt =====
-- The gate that a dispatch with classical controls leaves, for every controlled gate.

use sturm_cpp.Common.{ℕ, ◌≡◌, arith, Bool, true, false, List, [], ◌∷◌, ◌++◌, if◌then◌else◌}
use sturm_cpp.Core.GateKind.{
  GateKind, gate_x, gate_y, gate_z, gate_rx, gate_ry, gate_rz, gate_cx, gate_cy, gate_cz, gate_crx,
  gate_cry, gate_crz, gate_ccx, kind_index,
}
use sturm_cpp.Core.Orkan.{Angle}
use sturm_cpp.Machine.{Machine, gate, pure}
use sturm_cpp.Dispatch.Reduction.{lookup_reduce, scan, entry, ctrl1_entry, reduction_table_entries}
use sturm_cpp.Dispatch.Gate.{
  GateOperand, classical_operand, quantum_operand, dispatch_gate_mixed, dispatch_gate_quantum,
  is_odd, has_zero, classical_pattern, resolve, resolve_all,
}
use sturm_cpp.Dispatch.Mixed.{operands}

-- The gates without a control that have a controlled form.
pub data BaseGate : Type 0 where
  base_x base_y base_z base_rx base_ry base_rz : BaseGate

abbrev pub plain_kind : BaseGate → GateKind
plain_kind base_x = gate_x
plain_kind base_y = gate_y
plain_kind base_z = gate_z
plain_kind base_rx = gate_rx
plain_kind base_ry = gate_ry
plain_kind base_rz = gate_rz

abbrev pub controlled_kind : BaseGate → GateKind
controlled_kind base_x = gate_cx
controlled_kind base_y = gate_cy
controlled_kind base_z = gate_cz
controlled_kind base_rx = gate_crx
controlled_kind base_ry = gate_cry
controlled_kind base_rz = gate_crz

-- A base gate under one control, or X under two.
pub data ControlledGate : Type 0 where
  under : BaseGate → GateOperand → ControlledGate
  x_under_both : GateOperand → GateOperand → ControlledGate

abbrev pub controls_of : ControlledGate → List GateOperand
controls_of (under b c) = c ∷ []
controls_of (x_under_both c0 c1) = c0 ∷ c1 ∷ []

abbrev pub kind_of : ControlledGate → GateKind
kind_of (under b c) = controlled_kind b
kind_of (x_under_both c0 c1) = gate_ccx

abbrev pub base_of : ControlledGate → BaseGate
base_of (under b c) = b
base_of (x_under_both c0 c1) = base_x

-- The base gate under as many controls as there are qubits in the list; only X has two.
abbrev pub kind_under : BaseGate → List ℕ → GateKind
kind_under b [] = plain_kind b
kind_under b (q ∷ []) = controlled_kind b
kind_under b (q ∷ r ∷ qs) = gate_ccx

-- The controls that are qubits.
unfoldable pub quantum_controls : List GateOperand → List ℕ
quantum_controls [] = []
quantum_controls (classical_operand v ∷ cs) = quantum_controls cs
quantum_controls (quantum_operand q ∷ cs) = q ∷ quantum_controls cs

-- One of the classical controls is 0.
unfoldable pub is_blocked : List GateOperand → Bool
is_blocked [] = false
is_blocked (classical_operand v ∷ cs) = if is_odd v then is_blocked cs else true
is_blocked (quantum_operand q ∷ cs) = is_blocked cs

-- A dispatch of a controlled gate, whichever controls are classical and with a quantum target,
-- calls no gate where a classical control is 0, and otherwise calls once, with the same angle, the
-- same base gate under the controls that are qubits, in their order, on the target.
pub dispatch_gate_mixed-reduces :
    (g : ControlledGate) (t : ℕ) (θ : Angle) (m : Machine)
    → dispatch_gate_mixed (kind_of g) (operands (controls_of g) t) θ m ≡ (
        if is_blocked (controls_of g)
        then pure tt m
        else gate
            (kind_under (base_of g) (quantum_controls (controls_of g)))
            (quantum_controls (controls_of g) ++ t ∷ [])
            θ
            m)
unfolding dispatch_gate_mixed dispatch_gate_quantum has_zero classical_pattern resolve resolve_all
    lookup_reduce scan entry ctrl1_entry reduction_table_entries kind_index quantum_controls
    is_blocked
dispatch_gate_mixed-reduces (under base_x (classical_operand v)) t θ m = ground arith
dispatch_gate_mixed-reduces (under base_x (quantum_operand q)) t θ m = ground arith
dispatch_gate_mixed-reduces (under base_y (classical_operand v)) t θ m = ground arith
dispatch_gate_mixed-reduces (under base_y (quantum_operand q)) t θ m = ground arith
dispatch_gate_mixed-reduces (under base_z (classical_operand v)) t θ m = ground arith
dispatch_gate_mixed-reduces (under base_z (quantum_operand q)) t θ m = ground arith
dispatch_gate_mixed-reduces (under base_rx (classical_operand v)) t θ m = ground arith
dispatch_gate_mixed-reduces (under base_rx (quantum_operand q)) t θ m = ground arith
dispatch_gate_mixed-reduces (under base_ry (classical_operand v)) t θ m = ground arith
dispatch_gate_mixed-reduces (under base_ry (quantum_operand q)) t θ m = ground arith
dispatch_gate_mixed-reduces (under base_rz (classical_operand v)) t θ m = ground arith
dispatch_gate_mixed-reduces (under base_rz (quantum_operand q)) t θ m = ground arith
dispatch_gate_mixed-reduces (x_under_both (classical_operand v) (classical_operand w)) t θ m =
    ground arith
dispatch_gate_mixed-reduces (x_under_both (classical_operand v) (quantum_operand r)) t θ m =
    ground arith
dispatch_gate_mixed-reduces (x_under_both (quantum_operand q) (classical_operand w)) t θ m =
    ground arith
dispatch_gate_mixed-reduces (x_under_both (quantum_operand q) (quantum_operand r)) t θ m =
    ground arith
