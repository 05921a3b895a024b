-- ===== src/Machine/Emit.antt =====
-- The lifted emitters of include/sturm/qtypes/qbool_ops.hpp: a gate under the active WHEN
-- control, of which there is at most one.
use sturm_cpp.Common.{ℕ, none, List, [], ◌∷◌}
use sturm_cpp.Circuit.{Op, op_x, op_cx, op_ccx}
use sturm_cpp.Machine.{M, pure, ◌>>=◌, ◌>>◌, allocate, release, primitive_x, primitive_xor}
use sturm_cpp.Machine.{primitive_and}

unfoldable pub emit_x_lifted : ℕ → M (Unit {0})
emit_x_lifted target m = elim m.ctx.control_stack [
  | [] ↦ primitive_x target m
  | ctrl ∷ [] ↦ primitive_xor ctrl target m
  | _ ↦ none
]

unfoldable pub emit_cx_lifted : ℕ → ℕ → M (Unit {0})
emit_cx_lifted ctrl target m = elim m.ctx.control_stack [
  | [] ↦ primitive_xor ctrl target m
  | outer ∷ [] ↦ primitive_and outer ctrl target m
  | _ ↦ none
]

-- The depth-1 branch of `emit_CCX_lifted`: compute `c0 & c1` in an ancilla, use it under the
-- outer control, uncompute it.
unfoldable pub fold_gates : ℕ → ℕ → ℕ → ℕ → ℕ → M (Unit {0})
fold_gates outer c0 c1 target anc = do
  primitive_and c0 c1 anc
  primitive_and outer anc target
  primitive_and c0 c1 anc

unfoldable pub emit_ccx_folded : ℕ → ℕ → ℕ → ℕ → M (Unit {0})
emit_ccx_folded outer c0 c1 target = do
  anc ← allocate
  fold_gates outer c0 c1 target anc
  release anc

unfoldable pub emit_ccx_lifted : ℕ → ℕ → ℕ → M (Unit {0})
emit_ccx_lifted c0 c1 target m = elim m.ctx.control_stack [
  | [] ↦ primitive_and c0 c1 target m
  | outer ∷ [] ↦ emit_ccx_folded outer c0 c1 target m
  | _ ↦ none
]

-- A statement on quantum bits emits its lifted gate.
unfoldable pub emit : Op → M (Unit {0})
emit (op_x t) = emit_x_lifted t
emit (op_cx c t) = emit_cx_lifted c t
emit (op_ccx c0 c1 t) = emit_ccx_lifted c0 c1 t

unfoldable pub emits : List Op → M (Unit {0})
emits [] = pure tt
emits (o ∷ os) = do emit o; emits os
