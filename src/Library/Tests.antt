-- ===== src/Library/Tests.antt =====
-- Runs of the routines on the concrete machine.
use sturm_cpp.Common.{some, true, false}
use sturm_cpp.Common.{ℕ, ◌≡◌, refl, arith, [], ◌∷◌, if◌then◌else◌, ◌==◌}
use sturm_cpp.Machine.Emit.{emits}
use sturm_cpp.Machine.Spec.Usable.{Performs}
use sturm_cpp.Machine.Example.{
  bits, under_control, under_control-IsReady, usable, IsUsable-at, distinct,
}
use sturm_cpp.Library.Adder.{lib_add_dsl, lib_sub_dsl, lib_add_adj}
use sturm_cpp.Library.Adder.Add.{CanAdd, Adds, lib_add_dsl-Adds}
use sturm_cpp.Library.Adder.Difference.{Subtracts, lib_sub_dsl-Subtracts}
use sturm_cpp.Library.Adder.Undo.{lib_add_adj-Undoes}
use sturm_cpp.Qtypes.Bit.{BitProxy}
use sturm_cpp.Library.Logic.{
  nor_gate, gates_of, AddsTruth, logic-Performs, lib_swap_dsl, lib_swap_dsl-Exchanges,
}

example-CanAdd : CanAdd under_control (0 ∷ 1 ∷ []) (2 ∷ 3 ∷ []) 4
example-CanAdd = record { same_width = refl; distinct = distinct; usable = usable }

lib_add_dsl-Adds_example :
    Performs bits under_control
      (Adds (0 ∷ 1 ∷ []) (2 ∷ 3 ∷ []) 4)
      (lib_add_dsl (0 ∷ 1 ∷ []) (2 ∷ 3 ∷ []) 4 under_control)
lib_add_dsl-Adds_example =
    lib_add_dsl-Adds bits under_control (0 ∷ 1 ∷ []) (2 ∷ 3 ∷ []) 4 under_control-IsReady
      example-CanAdd

lib_sub_dsl-Subtracts_example :
    Performs bits under_control
      (Subtracts (0 ∷ 1 ∷ []) (2 ∷ 3 ∷ []) 4)
      (lib_sub_dsl (0 ∷ 1 ∷ []) (2 ∷ 3 ∷ []) 4 under_control)
lib_sub_dsl-Subtracts_example =
    lib_sub_dsl-Subtracts bits under_control (0 ∷ 1 ∷ []) (2 ∷ 3 ∷ []) 4 under_control-IsReady
      example-CanAdd

lib_add_adj-Undoes_example :
    Performs bits under_control
      (λ s s'. Adds (0 ∷ 1 ∷ []) (2 ∷ 3 ∷ []) 4 s' s)
      (lib_add_adj (0 ∷ 1 ∷ []) (2 ∷ 3 ∷ []) 4 under_control)
lib_add_adj-Undoes_example =
    lib_add_adj-Undoes bits under_control (0 ∷ 1 ∷ []) (2 ∷ 3 ∷ []) 4 under_control-IsReady
      example-CanAdd

logic-Performs_example :
    Performs bits under_control
      (AddsTruth nor_gate 0 2 4)
      (emits (gates_of nor_gate 0 2 4) under_control)
logic-Performs_example =
    logic-Performs bits under_control nor_gate 0 2 4 under_control-IsReady
      (
        IsUsable-at 0 (omega arith),
        (IsUsable-at 2 (omega arith), (IsUsable-at 4 (omega arith), tt)),
      )
      (ground arith)

lib_swap_dsl-Exchanges_example :
    Performs bits under_control
      (λ s s'. (q : ℕ) → s' q ≡ (if q == 0 then s 2 else if q == 2 then s 0 else s q))
      (emits (lib_swap_dsl 0 2) under_control)
lib_swap_dsl-Exchanges_example =
    lib_swap_dsl-Exchanges bits under_control 0 2 under_control-IsReady
      (IsUsable-at 0 (omega arith), (IsUsable-at 2 (omega arith), tt)) (omega arith)

abbrev proxy_at : ℕ → BitProxy
proxy_at q = record { qubit_index = some q; superposed = true; bit_value = false }
