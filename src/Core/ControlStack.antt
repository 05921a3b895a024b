-- ===== src/Core/ControlStack.antt =====
-- include/sturm/core/control_stack.hpp: the stack of WHEN controls, top first. `none` is a
-- failed `assert`.
use sturm_cpp.Common.{ℕ, Option, none, some, List, [], ◌∷◌, ltb, if◌then◌else◌, length}

abbrev pub ControlStack : Type 0
ControlStack = List ℕ

abbrev pub max_depth : ℕ
max_depth = 16

unfoldable pub push_control : ℕ → ControlStack → Option ControlStack
push_control qubit s =
    if ltb 0 (length s) then none else if ltb (length s) max_depth then some (qubit ∷ s) else none

unfoldable pub pop_control : ControlStack → Option ControlStack
pop_control [] = none
pop_control (qubit ∷ s) = some s

unfoldable pub top : ControlStack → Option ℕ
top [] = none
top (qubit ∷ s) = some qubit
