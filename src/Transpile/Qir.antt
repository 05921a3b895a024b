-- ===== src/Transpile/Qir.antt =====
-- The intermediate form of the transpiler, transpiler/include/sturm/transpile/qir.hpp. A source
-- location is its raw encoding, where 0 is invalid.
use sturm_cpp.Common.{ℕ, ◌==◌, Bool, not, ◌&&◌, List}
use sturm_cpp.Common.Text.{String, str_eq}

abbrev pub SourceLocation : Type 0
SourceLocation = ℕ

abbrev pub is_valid : SourceLocation → Bool
is_valid loc = not (loc == 0)

pub record SourceRange : Type 0 where
  pub begin_loc : SourceLocation
  pub end_loc : SourceLocation

pub data QOpKind : Type 0 where
  or and not_op xor xor_assign : QOpKind
  add_assign_const sub_assign_const mul_assign_const div_assign_const : QOpKind
  add_assign_qint sub_assign_qint mul_assign_qint div_assign_qint mod_assign_qint : QOpKind
  theta_add_assign_const theta_sub_assign_const : QOpKind
  phi_add_assign_const phi_sub_assign_const : QOpKind
  eq_qint ne_qint lt_qint le_qint gt_qint ge_qint : QOpKind
  user_routine ccnot_inplace plugin : QOpKind

pub record QValueRef : Type 0 where
  pub name : String
  pub decl_loc : SourceLocation

-- `operator==` on references
unfoldable pub same_ref : QValueRef → QValueRef → Bool
same_ref l r = str_eq l.name r.name && l.decl_loc == r.decl_loc

pub record QOperation : Type 0 where
  pub kind : QOpKind
  pub result : QValueRef
  pub operands : List QValueRef
  pub stmt_range : SourceRange
  pub insert_before_override : SourceLocation
  pub hoist_to_override : SourceLocation
  pub skip_uncompute : Bool
  pub needs_loop_reversal : Bool
  pub routine_name : String
  pub outputs_mask : ℕ
  pub plugin_kind_id : String

pub record QScope : Type 0 where
  pub open_brace : SourceLocation
  pub close_brace : SourceLocation
  pub ops : List QOperation

pub record QReplacement : Type 0 where
  pub range : SourceRange
  pub replacement : String

pub record UncomputeInsertion : Type 0 where
  pub insert_before : SourceLocation
  pub code : String

pub record QUnit : Type 0 where
  pub scopes : List QScope
  pub replacements : List QReplacement
  pub raw_insertions : List UncomputeInsertion
  pub fused_stmt_ranges : List SourceRange
  pub eliminated_stmt_ranges : List SourceRange
