-- ===== src/Core/Execute.antt =====
-- src/sturm/core/execute_gate.cpp, include/sturm/backend/exec_append.hpp, exec_count.hpp and
-- src/sturm/backend/exec_simulate.cpp: what one gate does to a context. `none` is an exception
-- or a failed `assert`. The observer hook, which tests install, is null.
pub mod Modes
use sturm_cpp.Common.{ℕ, ◌+◌, ◌%◌, ◌^◌, Option, none, some, List, [], ◌∷◌, ◌++◌, ltb, get_or}
use sturm_cpp.Common.{if◌then◌else◌}
use sturm_cpp.Core.GateKind.{
  GateKind, gate_x, gate_y, gate_z, gate_h, gate_s, gate_t, gate_p, gate_rx, gate_ry, gate_rz,
  gate_cx, gate_cy, gate_cz, gate_crx, gate_cry, gate_crz, gate_ccx, gate_swap,
}
use sturm_cpp.Core.Orkan.{
  Angle, half_pi, negate, halve, StateVector, apply_x, apply_y, apply_z, apply_h, apply_s, apply_t,
  apply_p, apply_rx, apply_ry, apply_rz, apply_cx, apply_cy, apply_cz, apply_swap, apply_ccx,
}
use sturm_cpp.Core.Context.{BackendContext, GateRecord, count_only, append, simulate}

unfoldable pub exec_simulate_1q : StateVector → GateKind → ℕ → Angle → Option StateVector
exec_simulate_1q sv gate_x q θ = some (sv ++ (apply_x q ∷ []))
exec_simulate_1q sv gate_y q θ = some (sv ++ (apply_y q ∷ []))
exec_simulate_1q sv gate_z q θ = some (sv ++ (apply_z q ∷ []))
exec_simulate_1q sv gate_h q θ = some (sv ++ (apply_h q ∷ []))
exec_simulate_1q sv gate_s q θ = some (sv ++ (apply_s q ∷ []))
exec_simulate_1q sv gate_t q θ = some (sv ++ (apply_t q ∷ []))
exec_simulate_1q sv gate_p q θ = some (sv ++ (apply_p q θ ∷ []))
exec_simulate_1q sv gate_rx q θ = some (sv ++ (apply_rx q θ ∷ []))
exec_simulate_1q sv gate_ry q θ = some (sv ++ (apply_ry q θ ∷ []))
exec_simulate_1q sv gate_rz q θ = some (sv ++ (apply_rz q θ ∷ []))
exec_simulate_1q sv _ q θ = none

unfoldable pub exec_simulate_multiq : StateVector → GateKind → ℕ → ℕ → ℕ → Option StateVector
exec_simulate_multiq sv gate_cx q0 q1 q2 = some (sv ++ (apply_cx q0 q1 ∷ []))
exec_simulate_multiq sv gate_cy q0 q1 q2 = some (sv ++ (apply_cy q0 q1 ∷ []))
exec_simulate_multiq sv gate_cz q0 q1 q2 = some (sv ++ (apply_cz q0 q1 ∷ []))
exec_simulate_multiq sv gate_ccx q0 q1 q2 = some (sv ++ (apply_ccx q0 q1 q2 ∷ []))
exec_simulate_multiq sv gate_swap q0 q1 q2 = some (sv ++ (apply_swap q0 q1 ∷ []))
exec_simulate_multiq sv _ q0 q1 q2 = none

unfoldable pub exec_simulate_crot : StateVector → GateKind → ℕ → ℕ → Angle → Option StateVector
exec_simulate_crot sv gate_crx c t θ = some (
    sv
    ++ (apply_rz t half_pi
        ∷ apply_cx c t
        ∷ apply_ry t (halve (negate θ))
        ∷ apply_cx c t
        ∷ apply_ry t (halve θ)
        ∷ apply_rz t (negate half_pi)
        ∷ []))
exec_simulate_crot sv gate_cry c t θ = some (
    sv ++ (apply_cx c t ∷ apply_ry t (halve (negate θ)) ∷ apply_cx c t ∷ apply_ry t (halve θ) ∷ []))
exec_simulate_crot sv gate_crz c t θ = some (
    sv ++ (apply_cx c t ∷ apply_rz t (halve (negate θ)) ∷ apply_cx c t ∷ apply_rz t (halve θ) ∷ []))
exec_simulate_crot sv _ c t θ = none

-- The inner `switch` of SIMULATE mode. `qubits` holds the `n` operands.
unfoldable pub simulate_gate : StateVector → GateKind → List ℕ → ℕ → Angle → Option StateVector
unfolding exec_simulate_1q exec_simulate_multiq exec_simulate_crot
simulate_gate sv kind qubits n θ =
    let one = exec_simulate_1q sv kind (get_or qubits 0 0) θ in
    let many =
      exec_simulate_multiq sv kind (get_or qubits 0 0) (get_or qubits 1 0)
        (if ltb 2 n then get_or qubits 2 0 else 0) in
    let rotation = exec_simulate_crot sv kind (get_or qubits 0 0) (get_or qubits 1 0) θ in
    elim kind [
      | gate_cx ↦ many
      | gate_cy ↦ many
      | gate_cz ↦ many
      | gate_ccx ↦ many
      | gate_swap ↦ many
      | gate_crx ↦ rotation
      | gate_cry ↦ rotation
      | gate_crz ↦ rotation
      | _ ↦ one
    ]

-- The record that `exec_append` pushes: slots from `n` on are 0.
unfoldable pub gate_record : GateKind → List ℕ → ℕ → Angle → GateRecord
gate_record kind qubits n θ = record {
  kind = kind;
  q0 = if ltb 0 n then get_or qubits 0 0 else 0;
  q1 = if ltb 1 n then get_or qubits 1 0 else 0;
  q2 = if ltb 2 n then get_or qubits 2 0 else 0;
  n = n;
  param = θ;
}

unfoldable pub exec_append : GateKind → List ℕ → ℕ → Angle → BackendContext → BackendContext
unfolding gate_record
exec_append kind qubits n θ ctx = record ctx { ir = ctx.ir ++ (gate_record kind qubits n θ ∷ []) }

-- The mode dispatch, after the counter. Without a statevector SIMULATE only counts.
unfoldable pub dispatch_mode :
    GateKind → List ℕ → ℕ → Angle → BackendContext → Option BackendContext
unfolding exec_append
dispatch_mode kind qubits n θ ctx = elim ctx.mode [
  | count_only ↦ some ctx
  | append ↦ some (exec_append kind qubits n θ ctx)
  | simulate ↦ elim ctx.orkan_state [
    | none ↦ some ctx
    | some sv ↦ elim (simulate_gate sv kind qubits n θ) [
      | none ↦ none
      | some sv' ↦ some (record ctx { orkan_state = some sv' })
    ]
  ]
]

unfoldable pub execute_gate : GateKind → List ℕ → ℕ → Angle → BackendContext → Option BackendContext
unfolding dispatch_mode
execute_gate kind qubits n θ ctx =
    dispatch_mode kind qubits n θ (record ctx { gate_count = (ctx.gate_count + 1) % 2 ^ 64 })
