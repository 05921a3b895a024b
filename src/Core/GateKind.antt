-- ===== src/Core/GateKind.antt =====
-- include/sturm/core/gate_kind.h and src/sturm/core/gate_kind.c: the eighteen gates with
-- their arity, classical effect and name.
use Prim.Native.String.{String}
use sturm_cpp.Common.{ℕ, Bool, true, false}

pub data GateKind : Type 0 where
  gate_x gate_y gate_z gate_h gate_s gate_t gate_p gate_rx gate_ry gate_rz : GateKind
  gate_cx gate_cy gate_cz gate_crx gate_cry gate_crz gate_ccx gate_swap : GateKind

pub data ClassicalEffect : Type 0 where
  ce_none ce_flip ce_branch : ClassicalEffect

pub record GateInfo : Type 0 where
  pub arity : ℕ
  pub effect : ClassicalEffect
  pub permutation : Bool
  pub name : String

abbrev info : ℕ → ClassicalEffect → Bool → String → GateInfo
info n e p s = record { arity = n; effect = e; permutation = p; name = s }

-- The C function returns NULL past the last gate; every value of `GateKind` has a row.
unfoldable pub gate_info_of : GateKind → GateInfo
gate_info_of gate_x = info 1 ce_flip true "X"
gate_info_of gate_y = info 1 ce_flip true "Y"
gate_info_of gate_z = info 1 ce_none false "Z"
gate_info_of gate_h = info 1 ce_branch false "H"
gate_info_of gate_s = info 1 ce_none false "S"
gate_info_of gate_t = info 1 ce_none false "T"
gate_info_of gate_p = info 1 ce_none false "P"
gate_info_of gate_rx = info 1 ce_branch false "Rx"
gate_info_of gate_ry = info 1 ce_branch false "Ry"
gate_info_of gate_rz = info 1 ce_none false "Rz"
gate_info_of gate_cx = info 2 ce_flip true "CX"
gate_info_of gate_cy = info 2 ce_flip true "CY"
gate_info_of gate_cz = info 2 ce_none false "CZ"
gate_info_of gate_crx = info 2 ce_branch false "CRx"
gate_info_of gate_cry = info 2 ce_branch false "CRy"
gate_info_of gate_crz = info 2 ce_none false "CRz"
gate_info_of gate_ccx = info 3 ce_flip true "CCX"
gate_info_of gate_swap = info 2 ce_flip true "SWAP"

-- The value of the enum constant.
unfoldable pub kind_index : GateKind → ℕ
kind_index gate_x = 0
kind_index gate_y = 1
kind_index gate_z = 2
kind_index gate_h = 3
kind_index gate_s = 4
kind_index gate_t = 5
kind_index gate_p = 6
kind_index gate_rx = 7
kind_index gate_ry = 8
kind_index gate_rz = 9
kind_index gate_cx = 10
kind_index gate_cy = 11
kind_index gate_cz = 12
kind_index gate_crx = 13
kind_index gate_cry = 14
kind_index gate_crz = 15
kind_index gate_ccx = 16
kind_index gate_swap = 17
