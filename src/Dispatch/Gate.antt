-- ===== src/Dispatch/Gate.antt =====
-- include/sturm/dispatch/dispatch_gate.hpp and src/sturm/dispatch/dispatch_gate.cpp. An
-- int64_t is its 64-bit pattern, an index of -1 is `none`, and `none` as a result is a failed
-- `assert`. The array behind `ops` is the list, which has an element for each operand.
use sturm_cpp.Common.{
  ℕ, ◌+◌, ◌-◌, ◌*◌, ◌/◌, ◌%◌, ◌^◌, Bool, true, false, ◌&&◌, Option, none, some, List, [], ◌∷◌, ◌==◌,
}
use mathlib.Core.Option
use sturm_cpp.Common.{get_elem?, length, ltb, if◌then◌else◌}
use sturm_cpp.Core.GateKind.{
  GateKind, gate_x, gate_y, gate_cx, gate_cy, gate_swap, gate_ccx, ce_none, ce_flip, ce_branch,
  gate_info_of,
}
use sturm_cpp.Core.Orkan.{Angle, zero_angle}
use sturm_cpp.Machine.{M, pure, ◌>>=◌, ◌>>◌, allocate, gate}
use sturm_cpp.Dispatch.Reduction.{lookup_reduce}

pub record ClassicalOperand : Type 0 where
  pub value : ℕ
  pub bit_pos : ℕ
  pub qubit_idx : Option ℕ

-- `v & 1` as a test
abbrev pub is_odd : ℕ → Bool
is_odd v = v % 2 == 1

-- `value ^= 1`
abbrev pub flip_value : ClassicalOperand → ClassicalOperand
flip_value op = record op { value = if is_odd op.value then op.value - 1 else op.value + 1 }

unfoldable pub perm_x : ClassicalOperand → ClassicalOperand
perm_x op = flip_value op

unfoldable pub perm_y : ClassicalOperand → ClassicalOperand
perm_y op = flip_value op

unfoldable pub perm_cx : ClassicalOperand → ClassicalOperand → ClassicalOperand
perm_cx ctrl tgt = if is_odd ctrl.value then flip_value tgt else tgt

unfoldable pub perm_cy : ClassicalOperand → ClassicalOperand → ClassicalOperand
perm_cy ctrl tgt = if is_odd ctrl.value then flip_value tgt else tgt

unfoldable pub perm_swap : ClassicalOperand → ClassicalOperand → ClassicalOperand × ClassicalOperand
perm_swap a b = (record a { value = b.value }, record b { value = a.value })

unfoldable pub perm_ccx : ClassicalOperand → ClassicalOperand → ClassicalOperand → ClassicalOperand
perm_ccx c0 c1 tgt = if is_odd c0.value && is_odd c1.value then flip_value tgt else tgt

-- The `switch` on a FLIP gate, with its assert on the number of operands.
unfoldable pub permute : GateKind → List ClassicalOperand → Option (List ClassicalOperand)
unfolding perm_x perm_y perm_cx perm_cy perm_swap perm_ccx
permute gate_x (a ∷ []) = some (perm_x a ∷ [])
permute gate_y (a ∷ []) = some (perm_y a ∷ [])
permute gate_cx (a ∷ b ∷ []) = some (a ∷ perm_cx a b ∷ [])
permute gate_cy (a ∷ b ∷ []) = some (a ∷ perm_cy a b ∷ [])
permute gate_swap (a ∷ b ∷ []) = let (a', b') = perm_swap a b in some (a' ∷ b' ∷ [])
permute gate_ccx (a ∷ b ∷ c ∷ []) = some (a ∷ b ∷ perm_ccx a b c ∷ [])
permute _ _ = none

unfoldable pub dispatch_gate_classical :
    GateKind → List ClassicalOperand → Angle → Option (List ClassicalOperand)
unfolding gate_info_of permute
dispatch_gate_classical kind ops θ = elim (gate_info_of kind).effect [
  | ce_none ↦ some ops
  | ce_flip ↦ permute kind ops
  | ce_branch ↦ none
]

-- `mask |= 1 << pos`
abbrev pub set_bit : ℕ → ℕ → ℕ
set_bit mask pos = if is_odd (mask / 2 ^ pos) then mask else mask + 2 ^ pos

-- One turn of the promotion loop, and the loop: the mask and the operands.
unfoldable pub promote_operand : ClassicalOperand → ℕ → M (ℕ × ClassicalOperand)
promote_operand op mask = elim op.qubit_idx [
  | some q ↦ pure (mask, op)
  | none ↦ do
    q ← allocate
    if is_odd op.value then gate gate_x (q ∷ []) zero_angle else pure tt
    pure (set_bit mask op.bit_pos, record op { qubit_idx = some q })
]

unfoldable pub promote_operands : List ClassicalOperand → ℕ → M (ℕ × List ClassicalOperand)
unfolding promote_operand
promote_operands [] mask = pure (mask, [])
promote_operands (op ∷ ops) mask = promote_operand op mask >>= λ first.
    promote_operands ops first.0 >>= λ rest. pure (rest.0, first.1 ∷ rest.1)

-- The indices of the operands, which all have one by now.
unfoldable pub qubits_of : List ClassicalOperand → List ℕ
qubits_of [] = []
qubits_of (op ∷ ops) = elim op.qubit_idx [ none ↦ 0 ∷ qubits_of ops | some q ↦ q ∷ qubits_of ops ]

-- The mask of `PromotionResult`, and the operands after the call.
unfoldable pub dispatch_gate_branch_classical :
    GateKind → List ClassicalOperand → Angle → M (ℕ × List ClassicalOperand)
unfolding gate_info_of promote_operands qubits_of
dispatch_gate_branch_classical kind ops θ m = elim (gate_info_of kind).effect [
  | ce_branch ↦
      (do promoted ← promote_operands ops 0; gate kind (qubits_of promoted.1) θ; pure promoted) m
  | _ ↦ none
]

-- The factories mask the classical value.
pub data GateOperand : Type 0 where
  classical_operand : ℕ → GateOperand
  quantum_operand : ℕ → GateOperand

unfoldable pub classical : ℕ → GateOperand
classical v = classical_operand (v % 2)

-- Pass 1: some classical operand is 0.
unfoldable pub has_zero : List GateOperand → Bool
has_zero [] = false
has_zero (classical_operand v ∷ ops) = if is_odd v then has_zero ops else true
has_zero (quantum_operand q ∷ ops) = has_zero ops

-- The mask of the classical operands: bit i for operand i.
unfoldable pub classical_pattern : List GateOperand → ℕ
classical_pattern [] = 0
classical_pattern (classical_operand v ∷ ops) = 1 + 2 * classical_pattern ops
classical_pattern (quantum_operand q ∷ ops) = 2 * classical_pattern ops

-- The physical qubits of the listed operands, each in range and quantum.
unfoldable pub resolve : List GateOperand → List ℕ → Option (List ℕ)
resolve ops [] = some []
resolve ops (i ∷ is) = elim (get_elem? ops i) [
  | some (quantum_operand q) ↦ Option.map (λ qs. q ∷ qs) (resolve ops is)
  | _ ↦ none
]

unfoldable pub resolve_all : List GateOperand → Option (List ℕ)
resolve_all [] = some []
resolve_all (quantum_operand q ∷ ops) = Option.map (λ qs. q ∷ qs) (resolve_all ops)
resolve_all (classical_operand v ∷ ops) = none

-- `sturm_execute_gate` on resolved operands
abbrev pub execute_resolved : GateKind → Angle → Option (List ℕ) → M (Unit {0})
execute_resolved kind θ none = λ m. none
execute_resolved kind θ (some qs) = gate kind qs θ

unfoldable pub dispatch_gate_quantum : GateKind → List GateOperand → Angle → M (Unit {0})
unfolding resolve_all
dispatch_gate_quantum kind ops θ =
    if ltb 3 (length ops) then (λ m. none) else execute_resolved kind θ (resolve_all ops)

unfoldable pub dispatch_gate_mixed : GateKind → List GateOperand → Angle → M (Unit {0})
unfolding has_zero classical_pattern resolve lookup_reduce
dispatch_gate_mixed kind ops θ =
    if has_zero ops
    then pure tt
    else if classical_pattern ops == 0
    then dispatch_gate_quantum kind ops θ
    else elim (lookup_reduce (record { gate = kind; pattern = classical_pattern ops })) [
      | none ↦ λ m. none
      | some rr ↦ execute_resolved rr.reduced_kind θ (resolve ops rr.remaining)
    ]
