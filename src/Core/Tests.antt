-- ===== src/Core/Tests.antt =====
-- The pool and the modes on concrete values.
mod Sinks
mod Masks
use sturm_cpp.Common.{◌≡◌, refl, arith, some, List, [], ◌∷◌, ◌++◌, ◌+◌, ◌%◌, ◌^◌, length}
use sturm_cpp.Common.Int.{pos}
use sturm_cpp.Core.GateKind.{gate_h, gate_cx, gate_info_of}
use sturm_cpp.Core.Orkan.{StateVector, zero_angle}
use sturm_cpp.Core.Context.{backend_create, count_only}
use sturm_cpp.Core.Pool.{QubitPool, allocate}
use sturm_cpp.Core.Pool.Laws.{IsSound, Allocated, Released, allocate-Allocated, release-Released}
use sturm_cpp.Core.Execute.Modes.{
  Call, records, replay, run_calls, in_count, in_append, in_simulate, modes_agree,
}

-- Three of the indices 0 to 3 in use.
abbrev example_pool : QubitPool
example_pool = record { free = 2 ∷ []; high_water = 4; in_use = pos 3 }

example_pool-IsSound : IsSound example_pool
example_pool-IsSound = record {
  distinct = (tt, tt);
  below = (omega arith, tt);
  live = 3;
  counted = refl;
  split = refl;
}

allocate-Allocated_example :
    Allocated example_pool (allocate example_pool).0 (allocate example_pool).1
allocate-Allocated_example = allocate-Allocated example_pool example_pool-IsSound

release-Released_example : Released example_pool 1
release-Released_example = release-Released example_pool 1 example_pool-IsSound refl

abbrev calls : List Call
calls =
    record { kind = gate_h; qubits = 0 ∷ []; param = zero_angle }
    ∷ record { kind = gate_cx; qubits = 0 ∷ 1 ∷ []; param = zero_angle }
    ∷ []

modes_agree_example :
    (sv' : StateVector) × (replay [] (records calls) ≡ some sv')
    × (run_calls calls (in_count (backend_create count_only) 0)
        ≡ some (in_count (backend_create count_only) ((0 + length calls) % 2 ^ 64)))
    × (run_calls calls (in_append (backend_create count_only) 0 [])
        ≡ some (
            in_append
              (backend_create count_only)
              ((0 + length calls) % 2 ^ 64)
              ([] ++ records calls)))
    × (run_calls calls (in_simulate (backend_create count_only) 0 [])
        ≡ some (in_simulate (backend_create count_only) ((0 + length calls) % 2 ^ 64) sv'))
modes_agree_example =
    modes_agree calls (unfold gate_info_of in (refl, (refl, tt))) (backend_create count_only) 0 []
      [] (omega arith)
