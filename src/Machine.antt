-- ===== src/Machine.antt =====
-- The state that the routines of the library share, the global qubit pool and the context of
-- the thread, and the monad of their bodies. `none` is a failed `assert`.
pub mod Emit
pub mod Spec
pub mod Example
mod Tests
use sturm_cpp.Common.{ℕ, Option, none, some, List, [], ◌∷◌, length}
use sturm_cpp.Core.GateKind.{GateKind, gate_x, gate_cx, gate_ccx}
use sturm_cpp.Core.Orkan.{Angle, zero_angle}
use sturm_cpp.Core.Pool
use sturm_cpp.Core.Pool.{QubitPool}
use sturm_cpp.Core.Context.{BackendContext}
use sturm_cpp.Core.Execute.{execute_gate}

pub record Machine : Type 0 where
  pub pool : QubitPool
  pub ctx : BackendContext

abbrev pub M : Type 0 → Type 0
M A = Machine → Option (A × Machine)

abbrev pub pure : {A : Type 0} → A → M A
pure a m = some (a, m)

infixl 5 ◌>>=◌ ◌>>◌
abbrev pub ◌>>=◌ : {A B : Type 0} → M A → (A → M B) → M B
◌>>=◌ r f m = elim (r m) [ none ↦ none | some (a, m') ↦ f a m' ]

abbrev pub ◌>>◌ : {B : Type 0} → M (Unit {0}) → M B → M B
r >> k = r >>= λ _. k

-- `QubitPool::instance().allocate()` and `.release(idx)`
unfoldable pub allocate : M ℕ
allocate m = let (idx, p) = Pool.allocate m.pool in some (idx, record m { pool = p })

unfoldable pub release : ℕ → M (Unit {0})
release idx m = some (tt, record m { pool = Pool.release idx m.pool })

-- `execute_gate` on the context of the thread
unfoldable pub gate : GateKind → List ℕ → Angle → M (Unit {0})
gate kind qubits θ m = elim (execute_gate kind qubits (length qubits) θ m.ctx) [
  | none ↦ none
  | some ctx' ↦ some (tt, record m { ctx = ctx' })
]

-- include/sturm/backend/primitives.hpp
unfoldable pub primitive_x : ℕ → M (Unit {0})
primitive_x q = gate gate_x (q ∷ []) zero_angle

unfoldable pub primitive_xor : ℕ → ℕ → M (Unit {0})
primitive_xor c t = gate gate_cx (c ∷ t ∷ []) zero_angle

unfoldable pub primitive_and : ℕ → ℕ → ℕ → M (Unit {0})
primitive_and c0 c1 t = gate gate_ccx (c0 ∷ c1 ∷ t ∷ []) zero_angle
