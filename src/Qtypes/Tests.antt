-- ===== src/Qtypes/Tests.antt =====
-- Bits, materialized operators and WHEN blocks on the concrete machine.
use sturm_cpp.Common.{◌≡◌}
use sturm_cpp.Common.{ℕ, refl, arith, true, false, ◌&&◌, ◌||◌, none, some, [], ◌∷◌}
use sturm_cpp.Machine.Spec.{state, active}
use sturm_cpp.Machine.Example.{
  bits, under_control, outside, under_control-IsReady, outside-IsReady, IsUsable-at,
}
use sturm_cpp.Qtypes.Bit.{
  BitProxy, ensure_quantum, xor_assign, xor_assign_and, materialize_or, materialize_and,
}
use sturm_cpp.Qtypes.Bit.Folding.{Assigns, operand_bit, xor_assign-folds, xor_assign_and-folds}
use sturm_cpp.Qtypes.Bit.{xor_assign_or}
use sturm_cpp.Qtypes.Bit.Disjunction.{xor_assign_or-folds}
use sturm_cpp.Qtypes.Bit.Promotion.{Promoted, ensure_quantum-promotes}
use sturm_cpp.Qtypes.Uncompute.{uncompute_or, uncompute_and}
use sturm_cpp.Qtypes.Uncompute.Inverse.{bit_of}
use sturm_cpp.Qtypes.Uncompute.RoundTrip.{
  RoundTrip, materialize_or-uncompute, materialize_and-uncompute,
}
use sturm_cpp.Qtypes.Operators.{operator_not}
use sturm_cpp.Qtypes.Operators.Values.{
  Holds, or_operator, operator_of, function_of, operator-value, operator_not-one,
}
use sturm_cpp.Qtypes.When.{superposed, classical}
use sturm_cpp.Qtypes.When.Nesting.{
  WhenCode, done, statement, when, run, expected, controls, run-nested,
}

abbrev quantum : ℕ → BitProxy
quantum q = record { qubit_index = some q; superposed = true; bit_value = false }

abbrev classical_one : BitProxy
classical_one = record { qubit_index = none; superposed = false; bit_value = true }

materialize_or-uncompute_example :
    RoundTrip bits outside
      (bit_of (state bits outside) (quantum 0) || bit_of (state bits outside) classical_one)
      (materialize_or (quantum 0) classical_one outside)
      (λ r. uncompute_or r (quantum 0) classical_one)
materialize_or-uncompute_example =
    materialize_or-uncompute bits outside (quantum 0) classical_one outside-IsReady refl refl tt

materialize_and-uncompute_example :
    RoundTrip bits outside
      (bit_of (state bits outside) (quantum 0) && bit_of (state bits outside) (quantum 3))
      (materialize_and (quantum 0) (quantum 3) outside)
      (λ r. uncompute_and r (quantum 0) (quantum 3))
materialize_and-uncompute_example =
    materialize_and-uncompute bits outside (quantum 0) (quantum 3) outside-IsReady refl refl refl

xor_assign-folds_example :
    Assigns bits under_control
      (quantum 1)
      1
      (operand_bit (state bits under_control) (quantum 0))
      (xor_assign (quantum 1) (quantum 0) under_control)
xor_assign-folds_example =
    xor_assign-folds bits under_control (quantum 1) (quantum 0) 1 under_control-IsReady refl
      (IsUsable-at 1 (omega arith)) (IsUsable-at 0 (omega arith), omega arith)

xor_assign_and-folds_example :
    Assigns bits under_control
      (quantum 1)
      1
      (operand_bit (state bits under_control) (quantum 0)
        && operand_bit (state bits under_control) classical_one)
      (xor_assign_and (quantum 1) (quantum 0) classical_one under_control)
xor_assign_and-folds_example =
    xor_assign_and-folds bits under_control (quantum 1) (quantum 0) classical_one 1
      under_control-IsReady refl (IsUsable-at 1 (omega arith))
      (IsUsable-at 0 (omega arith), omega arith) tt

abbrev nested_code : WhenCode
nested_code =
    when (superposed 7)
      (statement 1 (
        when (superposed 8) (statement 2 done)
          (when (classical false) (statement 3 done) (statement 4 done))))
      (statement 5 done)

run-nested_example :
    run nested_code (controls true (some 5))
    ≡ some (expected true (some 5) nested_code, controls true (some 5))
run-nested_example = run-nested nested_code true (some 5)

expected_trace :
    expected true none nested_code
    ≡ (1, controls true (some 7))
      ∷ (2, controls true (some 8))
      ∷ (4, controls true (some 7))
      ∷ (5, controls true none)
      ∷ []
unfolding expected
expected_trace = refl

operator-value_example :
    Holds bits under_control
      (function_of or_operator
        (bit_of (state bits under_control) (quantum 0))
        (bit_of (state bits under_control) (quantum 3)))
      (operator_of or_operator (quantum 0) (quantum 3) under_control)
operator-value_example =
    operator-value bits or_operator (quantum 0) (quantum 3) under_control under_control-IsReady refl
      refl

operator_not-one_example : Holds bits outside true (operator_not (quantum 0) outside)
operator_not-one_example = operator_not-one bits (quantum 0) 0 outside outside-IsReady refl refl

ensure_quantum-promotes_example :
    Promoted bits under_control classical_one
      (active bits under_control && true)
      (ensure_quantum classical_one under_control)
ensure_quantum-promotes_example =
    ensure_quantum-promotes bits under_control classical_one under_control-IsReady refl

xor_assign_or-folds_example :
    Assigns bits under_control
      (quantum 1)
      1
      (operand_bit (state bits under_control) (quantum 0)
        || operand_bit (state bits under_control) classical_one)
      (xor_assign_or (quantum 1) (quantum 0) classical_one under_control)
xor_assign_or-folds_example =
    xor_assign_or-folds bits under_control (quantum 1) (quantum 0) classical_one 1
      under_control-IsReady refl (IsUsable-at 1 (omega arith))
      (IsUsable-at 0 (omega arith), omega arith) tt
