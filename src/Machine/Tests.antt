-- ===== src/Machine/Tests.antt =====
-- The emitters under a control, on the concrete machine.
use sturm_cpp.Common.{arith, [], ◌∷◌}
use sturm_cpp.Circuit.{op_x, op_ccx, run}
use sturm_cpp.Machine.Emit.{emits}
use sturm_cpp.Machine.Spec.{state, Effect}
use sturm_cpp.Machine.Spec.Routine.{emits-Effect}
use sturm_cpp.Machine.Example.{bits, under_control, under_control-IsReady}

emits-Effect_example :
    Effect bits under_control
      (run (op_ccx 0 3 4 ∷ op_x 1 ∷ []) (state bits under_control))
      (emits (op_ccx 0 3 4 ∷ op_x 1 ∷ []) under_control)
emits-Effect_example =
    emits-Effect bits (op_ccx 0 3 4 ∷ op_x 1 ∷ []) under_control under_control-IsReady (
      record {
        wires = (ground arith, ground arith, ground arith);
        proper = (omega arith, omega arith);
        off = omega arith;
      },
      (record { wires = ground arith; proper = tt; off = omega arith }, tt),
    )
