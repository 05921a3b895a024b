-- ===== src/Core/Context.antt =====
-- include/sturm/core/context.hpp and include/sturm/backend/ir.hpp: a backend context, with
-- the buffer of gate records. Its per-context qubit pool is never read and is left out.
use sturm_cpp.Common.{ℕ, zero, suc, Option, none, List, [], ◌∷◌, ltb, if◌then◌else◌}
use sturm_cpp.Common.{length, get_or}
use sturm_cpp.Core.GateKind.{GateKind}
use sturm_cpp.Core.Orkan.{Angle, StateVector}
use sturm_cpp.Core.ControlStack.{ControlStack}

pub data Mode : Type 0 where
  count_only append simulate : Mode

-- `qubits` is the array of three, its unused slots 0.
pub record GateRecord : Type 0 where
  pub kind : GateKind
  pub q0 : ℕ
  pub q1 : ℕ
  pub q2 : ℕ
  pub n : ℕ
  pub param : Angle

pub record BackendContext : Type 0 where
  pub mode : Mode
  pub gate_count : ℕ  -- uint64_t
  pub ir : List GateRecord  -- oldest first
  pub orkan_state : Option StateVector  -- `none` is the null pointer
  pub classical_values : List ℕ
  pub super_mask : ℕ  -- uint64_t
  pub promotion_mask : ℕ  -- uint64_t
  pub control_stack : ControlStack

unfoldable pub backend_create : Mode → BackendContext
backend_create m = record {
  mode = m;
  gate_count = 0;
  ir = [];
  orkan_state = none;
  classical_values = [];
  super_mask = 0;
  promotion_mask = 0;
  control_stack = [];
}

-- `classical_values[qubit] = value` after a resize that fills with 0
unfoldable pub set_value : List ℕ → ℕ → ℕ → List ℕ
set_value [] zero v = v ∷ []
set_value [] (suc q) v = 0 ∷ set_value [] q v
set_value (x ∷ xs) zero v = v ∷ xs
set_value (x ∷ xs) (suc q) v = x ∷ set_value xs q v

unfoldable pub set_classical_value : ℕ → ℕ → BackendContext → BackendContext
unfolding set_value
set_classical_value qubit v ctx = record ctx {
  classical_values = set_value ctx.classical_values qubit v;
}

unfoldable pub get_classical_value : ℕ → BackendContext → ℕ
get_classical_value qubit ctx =
    if ltb qubit (length ctx.classical_values) then get_or ctx.classical_values qubit 0 else 0
