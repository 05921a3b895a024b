-- ===== src/Qtypes/Operators.antt =====
-- The out-of-place operators on qbools of include/sturm/qtypes/qbool_ops.hpp. A result is the bit
-- with its flag `owning_`; a view that does not own its qubit has the fields of the operand.
pub mod Values
use sturm_cpp.Common.{ℕ, Bool, true, false, ◌&&◌, ◌||◌, none, some, xor, if◌then◌else◌}
use sturm_cpp.Machine.{M, pure, ◌>>=◌, ◌>>◌, allocate, primitive_x, primitive_xor, primitive_and}
use sturm_cpp.Machine.Emit.{emit_x_lifted}
use sturm_cpp.Qtypes.Bit.{BitProxy, owning}

-- `qbool(v)`
abbrev pub classical_qbool : Bool → BitProxy × Bool
classical_qbool v = (record { qubit_index = none; superposed = false; bit_value = v }, true)

abbrev pub view : BitProxy → BitProxy × Bool
view a = (a, false)

unfoldable pub operator_not : BitProxy → M (BitProxy × Bool)
operator_not a = elim a.qubit_index [
  | none ↦ λ m. none
  | some q ↦ do anc ← allocate; emit_x_lifted anc; pure (owning anc, true)
]

unfoldable pub operator_and : BitProxy → BitProxy → M (BitProxy × Bool)
operator_and a b = elim a.qubit_index [
  | some qa ↦ elim b.qubit_index [
    | some qb ↦ do anc ← allocate; primitive_and qa qb anc; pure (owning anc, true)
    | none ↦ pure (if b.bit_value then view a else classical_qbool false)
  ]
  | none ↦ elim b.qubit_index [
    | some qb ↦ pure (if a.bit_value then view b else classical_qbool false)
    | none ↦ pure (classical_qbool (a.bit_value && b.bit_value))
  ]
]

unfoldable pub operator_or : BitProxy → BitProxy → M (BitProxy × Bool)
operator_or a b = elim a.qubit_index [
  | some qa ↦ elim b.qubit_index [
    | some qb ↦ do
      anc ← allocate
      primitive_xor qa anc
      primitive_xor qb anc
      primitive_and qa qb anc
      pure (owning anc, true)
    | none ↦ pure (if b.bit_value then classical_qbool true else view a)
  ]
  | none ↦ elim b.qubit_index [
    | some qb ↦ pure (if a.bit_value then classical_qbool true else view b)
    | none ↦ pure (classical_qbool (a.bit_value || b.bit_value))
  ]
]

-- One operand with the qubit `q`, one classical with the value `v`.
unfoldable pub xor_mixed : ℕ → BitProxy → Bool → M (BitProxy × Bool)
xor_mixed q a v =
    if v
    then (do anc ← allocate; primitive_xor q anc; primitive_x anc; pure (owning anc, true))
    else pure (view a)

unfoldable pub operator_xor : BitProxy → BitProxy → M (BitProxy × Bool)
unfolding xor_mixed
operator_xor a b = elim a.qubit_index [
  | some qa ↦ elim b.qubit_index [
    | some qb ↦ do
      anc ← allocate
      primitive_xor qa anc
      primitive_xor qb anc
      pure (owning anc, true)
    | none ↦ xor_mixed qa a b.bit_value
  ]
  | none ↦ elim b.qubit_index [
    | some qb ↦ xor_mixed qb b a.bit_value
    | none ↦ pure (classical_qbool (xor a.bit_value b.bit_value))
  ]
]
