-- ===== src/Transpile/Loop.antt =====
-- Reversed loop headers, transpiler/src/loop_reversal.cpp. An expression of Clang's is seen up to
-- the cases that the code tells apart; its integer value, its text and the values of its
-- identifiers are parameters.
pub mod Header
pub mod Rounds
pub mod Climb
pub mod Reverse
pub mod Empty
use sturm_cpp.Common.{
  ℕ, ◌+◌, ◌==◌, Bool, true, false, not, ◌&&◌, ◌||◌, Option, none, some, if◌then◌else◌,
}
use sturm_cpp.Common.Int.{ℤ, pos, negsuc, pos_part, neg_part, ◌-ℤ◌}
use sturm_cpp.Common.Text.{String, ◌<<◌, is_empty, to_string}

pub data BinaryOpcode : Type 0 where
  lt le gt ge assign add sub add_assign sub_assign other_op : BinaryOpcode

pub data UnaryOpcode : Type 0 where
  pre_inc post_inc pre_dec post_dec other_unary : UnaryOpcode

-- `decl_ref` names a declaration; `paren` is what IgnoreParenImpCasts takes off.
pub data Expr : Type 0 where
  decl_ref : ℕ → Expr
  unary : UnaryOpcode → Expr → Expr
  binary : BinaryOpcode → Expr → Expr → Expr
  paren : Expr → Expr
  opaque : ℕ → Expr

-- The type of a variable, as far as the reversal depends on it; `isIntegerType` holds of the first
-- two.
pub data VarType : Type 0 where
  int_type other_integer_type not_integer_type : VarType

abbrev is_integer_type : VarType → Bool
is_integer_type int_type = true
is_integer_type other_integer_type = true
is_integer_type not_integer_type = false

pub record VarDecl : Type 0 where
  pub decl : ℕ
  pub name : String
  pub var_init : Option Expr
  -- `none` for a null type
  pub var_type : Option VarType

pub data InitStmt : Type 0 where
  no_decl many_decls other_decl : InitStmt
  one_var : VarDecl → InitStmt

pub record ForStmt : Type 0 where
  pub init : Option InitStmt
  pub cond_expr : Option Expr
  pub inc : Option Expr

pub data LoopRejectReason : Type 0 where
  accepted null_stmt missing_clause non_canonical_init non_canonical_cond : LoopRejectReason
  non_canonical_inc zero_stride source_recovery_failed : LoopRejectReason

unfoldable pub reason_text : LoopRejectReason → String
reason_text accepted = "none"
reason_text null_stmt = "null_stmt"
reason_text missing_clause = "missing_clause"
reason_text non_canonical_init = "non_canonical_init"
reason_text non_canonical_cond = "non_canonical_cond"
reason_text non_canonical_inc = "non_canonical_inc"
reason_text zero_stride = "zero_stride"
reason_text source_recovery_failed = "source_recovery_failed"

pub record LoopReversalResult : Type 0 where
  pub header : String
  pub induction_var : String
  pub reversed : Bool
  pub reason : LoopRejectReason

unfoldable pub peel : Expr → Expr
peel (paren e) = peel e
peel (decl_ref d) = decl_ref d
peel (unary o e) = unary o e
peel (binary o l r) = binary o l r
peel (opaque n) = opaque n

-- The variable of the loop with its initial value.
unfoldable pub parse_var : VarDecl → Option (VarDecl × Expr)
parse_var vd = elim vd.var_init [
  | none ↦ none
  | some e ↦ elim vd.var_type [
    | none ↦ none
    | some type ↦ if is_integer_type type then some (vd, e) else none
  ]
]

unfoldable pub parse_init : InitStmt → Option (VarDecl × Expr)
unfolding parse_var
parse_init no_decl = none
parse_init many_decls = none
parse_init other_decl = none
parse_init (one_var vd) = parse_var vd

pub data CmpOp : Type 0 where
  lt le gt ge : CmpOp

abbrev comparison : BinaryOpcode → Option CmpOp
comparison BinaryOpcode.lt = some CmpOp.lt
comparison BinaryOpcode.le = some CmpOp.le
comparison BinaryOpcode.gt = some CmpOp.gt
comparison BinaryOpcode.ge = some CmpOp.ge
comparison _ = none

unfoldable pub refers : ℕ → Expr → Bool
refers iv (decl_ref d) = d == iv
refers iv _ = false

-- The comparison of a condition on the variable, with its bound.
unfoldable pub parse_cond : ℕ → Expr → Option (CmpOp × Expr)
unfolding refers peel
parse_cond iv (binary o l r) = elim (comparison o) [
  | none ↦ none
  | some op ↦ if refers iv (peel l) then some (op, r) else none
]
parse_cond iv _ = none

abbrev negated : ℤ → ℤ
negated v = pos 0 -ℤ v

-- `EvaluateAsInt`, where the value fits 64 bits.
module _ (eval_int_literal : Expr → Option ℤ) where
  abbrev scaled : Bool → Expr → Option ℤ
  scaled positive e = elim (eval_int_literal e) [
    | none ↦ none
    | some v ↦ some (if positive then v else negated v)
  ]

  unfoldable pub parse_sum : ℕ → Expr → Option ℤ
  unfolding refers peel
  parse_sum iv (binary add l r) =
      if refers iv (peel l)
      then scaled true r
      else (if refers iv (peel r) then scaled true l else none)
  parse_sum iv (binary sub l r) = if refers iv (peel l) then scaled false r else none
  parse_sum iv _ = none

  -- The stride of an increment of the variable.
  unfoldable pub parse_inc : ℕ → Expr → Option ℤ
  unfolding refers peel parse_sum
  parse_inc iv (unary pre_inc e) = if refers iv (peel e) then some (pos 1) else none
  parse_inc iv (unary post_inc e) = if refers iv (peel e) then some (pos 1) else none
  parse_inc iv (unary pre_dec e) = if refers iv (peel e) then some (negsuc 0) else none
  parse_inc iv (unary post_dec e) = if refers iv (peel e) then some (negsuc 0) else none
  parse_inc iv (binary add_assign l r) = if refers iv (peel l) then scaled true r else none
  parse_inc iv (binary sub_assign l r) = if refers iv (peel l) then scaled false r else none
  parse_inc iv (binary assign l r) = if refers iv (peel l) then parse_sum iv (peel r) else none
  parse_inc iv _ = none

unfoldable pub build_upward_reverse : String → String → String → String → Bool → String
build_upward_reverse iv lo hi s_text inclusive =
    let last =
      "("
      << lo
      << ") + ((("
      << hi
      << ")"
      << (if inclusive then "" else " - 1")
      << " - ("
      << lo
      << ")) / ("
      << s_text
      << ")) * ("
      << s_text
      << ")" in
    "for (int " << iv << " = " << last << "; " << iv << " >= (" << lo << "); " << iv << " -= ("
    << s_text << "))"

unfoldable pub build_downward_reverse : String → String → String → String → Bool → String
build_downward_reverse iv hi lo s_text inclusive =
    let last =
      "("
      << hi
      << ") - ((("
      << hi
      << ") - ("
      << lo
      << ")"
      << (if inclusive then "" else " - 1")
      << ") / ("
      << s_text
      << ")) * ("
      << s_text
      << ")" in
    "for (int " << iv << " = " << last << "; " << iv << " <= (" << hi << "); " << iv << " += ("
    << s_text << "))"

abbrev is_negative : ℤ → Bool
is_negative (pos n) = false
is_negative (negsuc n) = true

abbrev is_zero : ℤ → Bool
is_zero (pos n) = n == 0
is_zero (negsuc n) = false

abbrev is_up : CmpOp → Bool
is_up lt = true
is_up le = true
is_up gt = false
is_up ge = false

abbrev is_inclusive : CmpOp → Bool
is_inclusive lt = false
is_inclusive le = true
is_inclusive gt = false
is_inclusive ge = true

abbrev rejected : LoopRejectReason → LoopReversalResult
rejected why = record { header = ""; induction_var = ""; reversed = false; reason = why }

-- The header for a stride, by its sign and the direction of the comparison.
unfoldable pub reversed_header : String → String → String → CmpOp → ℤ → String
unfolding build_upward_reverse build_downward_reverse
reversed_header iv lo bound op stride =
    let s_text = to_string (pos_part stride + neg_part stride) in
    let upward = build_upward_reverse iv lo bound s_text (is_inclusive op) in
    let downward = build_downward_reverse iv lo bound s_text (is_inclusive op) in
    if not (is_negative stride) && is_up op
    then upward
    else (if is_negative stride && not (is_up op)
        then downward
        else (if not (is_negative stride) && not (is_up op) then downward else upward))

module _ (eval_int_literal : Expr → Option ℤ) (source_text_of : Expr → String) where
  -- From the parsed clauses on.
  unfoldable pub build_header : VarDecl → Expr → CmpOp → Expr → ℤ → LoopReversalResult
  unfolding reversed_header
  build_header iv init_expr op bound stride =
      let lo_text = source_text_of init_expr in
      let bound_text = source_text_of bound in
      if is_zero stride
      then rejected zero_stride
      else (if is_empty iv.name
          then rejected source_recovery_failed
          else (if is_empty lo_text || is_empty bound_text
              then rejected source_recovery_failed
              else record {
                header = reversed_header iv.name lo_text bound_text op stride;
                induction_var = iv.name;
                reversed = true;
                reason = accepted;
              }))

  unfoldable pub reverse_clauses : InitStmt → Expr → Expr → LoopReversalResult
  unfolding parse_init parse_cond parse_inc peel build_header
  reverse_clauses init cond_expr inc = elim (parse_init init) [
    | none ↦ rejected non_canonical_init
    | some (iv, e) ↦ elim (parse_cond iv.decl (peel cond_expr)) [
      | none ↦ rejected non_canonical_cond
      | some (op, bound) ↦ elim (parse_inc eval_int_literal iv.decl (peel inc)) [
        | none ↦ rejected non_canonical_inc
        | some stride ↦ build_header iv e op bound stride
      ]
    ]
  ]

  unfoldable pub reverse_for_header : Option ForStmt → LoopReversalResult
  unfolding reverse_clauses
  reverse_for_header none = rejected null_stmt
  reverse_for_header (some fs) = elim fs.init [
    | none ↦ rejected missing_clause
    | some init ↦ elim fs.cond_expr [
      | none ↦ rejected missing_clause
      | some cond_expr ↦ elim fs.inc [
        | none ↦ rejected missing_clause
        | some inc ↦ reverse_clauses init cond_expr inc
      ]
    ]
  ]
