-- ===== src/Dispatch/Reduction.antt =====
-- include/sturm/dispatch/reduction_table.hpp and src/sturm/dispatch/reduction_table.cpp: the
-- gate that is left when some controls are known to be 1.
use sturm_cpp.Common.{ℕ, Bool, false, ◌&&◌, Option, none, some, List, [], ◌∷◌, length, ◌==◌}
use sturm_cpp.Common.{if◌then◌else◌}
use sturm_cpp.Core.GateKind.{
  GateKind, gate_x, gate_y, gate_z, gate_rx, gate_ry, gate_rz, gate_cx, gate_cy, gate_cz, gate_crx,
  gate_cry, gate_crz, gate_ccx, kind_index,
}

pub record ReductionKey : Type 0 where
  pub gate : GateKind
  pub pattern : ℕ  -- uint8_t, bit i for operand i

pub record ReductionResult : Type 0 where
  pub is_noop : Bool
  pub reduced_kind : GateKind
  pub remaining : List ℕ  -- the first `n_remaining` entries of `remaining_operand_indices`

pub record ReductionTableEntry : Type 0 where
  pub key : ReductionKey
  pub result : ReductionResult

unfoldable pub entry : GateKind → ℕ → GateKind → List ℕ → ReductionTableEntry
entry g p r is = record {
  key = record { gate = g; pattern = p };
  result = record { is_noop = false; reduced_kind = r; remaining = is };
}

unfoldable pub ctrl1_entry : GateKind → GateKind → ReductionTableEntry
unfolding entry
ctrl1_entry ctl_gate base_gate = entry ctl_gate 1 base_gate (1 ∷ [])

unfoldable pub reduction_table_entries : List ReductionTableEntry
unfolding entry ctrl1_entry
reduction_table_entries =
    ctrl1_entry gate_cx gate_x
    ∷ ctrl1_entry gate_cy gate_y
    ∷ ctrl1_entry gate_cz gate_z
    ∷ ctrl1_entry gate_crx gate_rx
    ∷ ctrl1_entry gate_cry gate_ry
    ∷ ctrl1_entry gate_crz gate_rz
    ∷ entry gate_ccx 1 gate_cx (1 ∷ 2 ∷ [])
    ∷ entry gate_ccx 2 gate_cx (0 ∷ 2 ∷ [])
    ∷ entry gate_ccx 3 gate_x (2 ∷ [])
    ∷ []

unfoldable pub reduction_table_size : ℕ
unfolding reduction_table_entries
reduction_table_size = length reduction_table_entries

-- The scan of the table: the first entry with the key.
unfoldable pub scan : List ReductionTableEntry → ReductionKey → Option ReductionResult
scan [] key = none
scan (e ∷ es) key =
    let rest = scan es key in
    if (kind_index e.key.gate == kind_index key.gate) && (e.key.pattern == key.pattern)
    then some e.result
    else rest

-- `reduce`, whose assert on a missing key is `none`, is this lookup.
unfoldable pub lookup_reduce : ReductionKey → Option ReductionResult
unfolding scan reduction_table_entries
lookup_reduce key = scan reduction_table_entries key
