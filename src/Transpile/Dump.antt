-- ===== src/Transpile/Dump.antt =====
-- The textual form of a unit, transpiler/src/qir.cpp.
use sturm_cpp.Common.{ℕ, zero, suc, ◌/◌, ◌%◌, ltb, Bool, List, [], ◌∷◌, length, if◌then◌else◌}
use sturm_cpp.Common.Text.{String, ◌<<◌, digit, to_string}
use sturm_cpp.Transpile.Qir.{
  SourceLocation, is_valid, QOpKind, QValueRef, QOperation, QScope, QUnit,
}

unfoldable pub loc_to_string : SourceLocation → String
loc_to_string loc = if is_valid loc then to_string loc else "<invalid>"

unfoldable pub kind_to_string : QOpKind → String
kind_to_string QOpKind.or = "OR"
kind_to_string QOpKind.and = "AND"
kind_to_string QOpKind.not_op = "NOT"
kind_to_string QOpKind.xor = "XOR"
kind_to_string QOpKind.xor_assign = "XOR_ASSIGN"
kind_to_string QOpKind.add_assign_const = "ADD_ASSIGN_CONST"
kind_to_string QOpKind.sub_assign_const = "SUB_ASSIGN_CONST"
kind_to_string QOpKind.mul_assign_const = "MUL_ASSIGN_CONST"
kind_to_string QOpKind.div_assign_const = "DIV_ASSIGN_CONST"
kind_to_string QOpKind.add_assign_qint = "ADD_ASSIGN_QINT"
kind_to_string QOpKind.sub_assign_qint = "SUB_ASSIGN_QINT"
kind_to_string QOpKind.mul_assign_qint = "MUL_ASSIGN_QINT"
kind_to_string QOpKind.div_assign_qint = "DIV_ASSIGN_QINT"
kind_to_string QOpKind.mod_assign_qint = "MOD_ASSIGN_QINT"
kind_to_string QOpKind.theta_add_assign_const = "THETA_ADD_ASSIGN_CONST"
kind_to_string QOpKind.theta_sub_assign_const = "THETA_SUB_ASSIGN_CONST"
kind_to_string QOpKind.phi_add_assign_const = "PHI_ADD_ASSIGN_CONST"
kind_to_string QOpKind.phi_sub_assign_const = "PHI_SUB_ASSIGN_CONST"
kind_to_string QOpKind.eq_qint = "EQ_QINT"
kind_to_string QOpKind.ne_qint = "NE_QINT"
kind_to_string QOpKind.lt_qint = "LT_QINT"
kind_to_string QOpKind.le_qint = "LE_QINT"
kind_to_string QOpKind.gt_qint = "GT_QINT"
kind_to_string QOpKind.ge_qint = "GE_QINT"
kind_to_string QOpKind.user_routine = "USER_ROUTINE"
kind_to_string QOpKind.ccnot_inplace = "CCNOT_INPLACE"
kind_to_string QOpKind.plugin = "PLUGIN"

abbrev hex_digit : ℕ → String
hex_digit d =
    if ltb d 10
    then digit d
    else (if ltb d 11
        then "a"
        else (if ltb d 12
            then "b"
            else (if ltb d 13
                then "c"
                else (if ltb d 14 then "d" else (if ltb d 15 then "e" else "f")))))

-- `std::hex`; a number has fewer digits than its successor is large.
hex_digits : ℕ → ℕ → String
hex_digits zero n = ""
hex_digits (suc fuel) n =
    let front = hex_digits fuel (n / 16) in
    if ltb n 16 then hex_digit n else front << hex_digit (n % 16)

unfoldable pub to_hex : ℕ → String
unfolding hex_digits
to_hex n = hex_digits (suc n) n

unfoldable pub dump_operand : QValueRef → String
unfolding loc_to_string
dump_operand v = v.name << "@" << loc_to_string v.decl_loc

unfoldable pub dump_operands : List QValueRef → String
unfolding dump_operand
dump_operands [] = ""
dump_operands (v ∷ []) = dump_operand v
dump_operands (v ∷ w ∷ rest) = dump_operand v << ", " << dump_operands (w ∷ rest)

abbrev override_text : String → SourceLocation → String
override_text label loc = if is_valid loc then label << loc_to_string loc else ""

abbrev tag_text : String → Bool → String
tag_text tag b = if b then tag else ""

abbrev kind_suffix : QOpKind → QOperation → String
kind_suffix QOpKind.user_routine op =
    " routine_name=\"" << op.routine_name << "\" outputs_mask=0x" << to_hex op.outputs_mask
kind_suffix QOpKind.plugin op = " plugin_kind_id=\"" << op.plugin_kind_id << "\""
kind_suffix _ op = ""

unfoldable pub dump_op : QOperation → ℕ → String
unfolding kind_to_string dump_operands loc_to_string to_hex
dump_op op idx =
    "    Op["
    << to_string idx
    << "] "
    << kind_to_string op.kind
    << " "
    << dump_operand op.result
    << " = "
    << dump_operands op.operands
    << "  range=["
    << loc_to_string op.stmt_range.begin_loc
    << ".."
    << loc_to_string op.stmt_range.end_loc
    << "]"
    << override_text " insert_before_override=" op.insert_before_override
    << override_text " hoist_to_override=" op.hoist_to_override
    << tag_text " [skip_uncompute]" op.skip_uncompute
    << tag_text " [needs_loop_reversal]" op.needs_loop_reversal
    << kind_suffix op.kind op
    << "\n"

unfoldable pub dump_ops : List QOperation → ℕ → String
unfolding dump_op
dump_ops [] idx = ""
dump_ops (op ∷ ops) idx = dump_op op idx << dump_ops ops (suc idx)

unfoldable pub dump_scope : QScope → ℕ → String
unfolding dump_ops
dump_scope scope idx =
    "  Scope["
    << to_string idx
    << "] braces=["
    << loc_to_string scope.open_brace
    << ".."
    << loc_to_string scope.close_brace
    << "]\n"
    << dump_ops scope.ops 0

unfoldable pub dump_scopes : List QScope → ℕ → String
unfolding dump_scope
dump_scopes [] idx = ""
dump_scopes (scope ∷ scopes) idx = dump_scope scope idx << dump_scopes scopes (suc idx)

unfoldable pub dump : QUnit → String
unfolding dump_scopes
dump unit =
    "QUnit: " << to_string (length unit.scopes) << " scope(s)\n" << dump_scopes unit.scopes 0
