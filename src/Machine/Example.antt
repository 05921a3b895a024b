-- ===== src/Machine/Example.antt =====
-- A concrete machine for tests: qubits 0 to 5 in use, qubit 5 the active control, which is |1>,
-- 1 in the register of qubits 0 and 1, and 2 in that of qubits 2 and 3.
use sturm_cpp.Common.{ℕ, ◌<◌, refl, arith, [], ◌∷◌, none, ◌||◌, ◌==◌, All, IsDistinct}
use sturm_cpp.Common.Int.{pos}
use sturm_cpp.Core.Context.{append}
use sturm_cpp.Circuit.{Bits}
use sturm_cpp.Machine.{Machine}
use sturm_cpp.Machine.Spec.{IsReady, state, apply_records}
use sturm_cpp.Machine.Spec.Usable.{IsUsable}

abbrev pub bits : Bits
bits q = (q == 0) || ((q == 3) || (q == 5))

abbrev pub under_control : Machine
under_control = record {
  pool = record { free = []; high_water = 6; in_use = pos 6 };
  ctx = record {
    mode = append;
    gate_count = 0;
    ir = [];
    orkan_state = none;
    classical_values = [];
    super_mask = 0;
    promotion_mask = 0;
    control_stack = 5 ∷ [];
  };
}

-- The same outside WHEN blocks.
abbrev pub outside : Machine
outside = record under_control { ctx = record under_control.ctx { control_stack = [] } }

pub under_control-IsReady : IsReady bits under_control
unfolding state apply_records
under_control-IsReady = record {
  mode = refl;
  sound = record { distinct = tt; below = tt; live = 6; counted = refl; split = refl };
  clean = λ q dead. ground (arith, dead);
  controlled = refl;
}

pub outside-IsReady : IsReady bits outside
unfolding state apply_records
outside-IsReady = record {
  mode = refl;
  sound = record { distinct = tt; below = tt; live = 6; counted = refl; split = refl };
  clean = λ q dead. ground (arith, dead);
  controlled = tt;
}

-- The qubits but the control, outside the control.
pub IsUsable-at : (q : ℕ) → q < 5 → IsUsable under_control q
IsUsable-at q below = record { live = ground (arith, below); off = omega arith }

pub usable : All (IsUsable under_control) (4 ∷ 0 ∷ 2 ∷ 1 ∷ 3 ∷ [])
usable = (
  IsUsable-at 4 (omega arith),
  (
    IsUsable-at 0 (omega arith),
    (IsUsable-at 2 (omega arith), (IsUsable-at 1 (omega arith), (IsUsable-at 3 (omega arith), tt))),
  ),
)

pub distinct : IsDistinct (4 ∷ 0 ∷ 2 ∷ 1 ∷ 3 ∷ [])
distinct = ground arith
