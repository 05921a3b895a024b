-- ===== src/Transpile/Meaning/Inverse.antt =====
-- The statements that undo an operation of the intermediate form, their text, and the states in
-- which they do undo it.
use sturm_cpp.Common.{ℕ, ◌*◌, ◌%◌, ◌^◌, ◌<◌, ◌≡◌, ◌≢◌, false, List, [], ◌∷◌}
use sturm_cpp.Common.Text.{String, ◌<<◌}
use sturm_cpp.Transpile.Qir.{QOpKind, QOperation, QValueRef}
use sturm_cpp.Transpile.Meaning.Variables.{Store}
use sturm_cpp.Transpile.Meaning.Statements.{
  BitCall, IntCall, AssignOp, Statement, uncompute_or, uncompute_and, ccnot, uncompute_eq,
  uncompute_ne, uncompute_lt, uncompute_le, uncompute_gt, uncompute_ge, uncompute_add,
  uncompute_sub, plus_assign, minus_assign, times_assign, over_assign, call_bit, call_int, flip_by,
  assign_const, complement, forward,
}

abbrev bit_call_name : BitCall → String
bit_call_name uncompute_or = "uncompute_or"
bit_call_name uncompute_and = "uncompute_and"
bit_call_name ccnot = "ccnot_inplace"
bit_call_name uncompute_eq = "uncompute_eq_qint"
bit_call_name uncompute_ne = "uncompute_ne_qint"
bit_call_name uncompute_lt = "uncompute_lt_qint"
bit_call_name uncompute_le = "uncompute_le_qint"
bit_call_name uncompute_gt = "uncompute_gt_qint"
bit_call_name uncompute_ge = "uncompute_ge_qint"

abbrev int_call_name : IntCall → String
int_call_name uncompute_add = "uncompute_add_qint"
int_call_name uncompute_sub = "uncompute_sub_qint"

abbrev assign_token : AssignOp → String
assign_token plus_assign = " += "
assign_token minus_assign = " -= "
assign_token times_assign = " *= "
assign_token over_assign = " /= "

-- The source text of a statement, on a line of its own.
unfoldable pub print : Statement → String
print (call_bit c r a b) = "    " << bit_call_name c << "(" << r << ", " << a << ", " << b << ");\n"
print (call_int c x y) = "    " << int_call_name c << "(" << x << ", " << y << ");\n"
print (flip_by r a) = "    " << r << " ^= " << a << ";\n"
print (assign_const o x e) = "    " << x << assign_token o << e << ";\n"
print (complement x) = "    " << x << " = ~" << x << ";\n"

unfoldable pub print_all : List Statement → String
print_all [] = ""
print_all (st ∷ sts) = print st << print_all sts

-- The kinds whose operation is undone by statements on bits and numbers.
abbrev pub HasInverse : QOpKind → Type 0
HasInverse QOpKind.not_op = ⊥
HasInverse QOpKind.mul_assign_qint = ⊥
HasInverse QOpKind.div_assign_qint = ⊥
HasInverse QOpKind.mod_assign_qint = ⊥
HasInverse QOpKind.theta_add_assign_const = ⊥
HasInverse QOpKind.theta_sub_assign_const = ⊥
HasInverse QOpKind.phi_add_assign_const = ⊥
HasInverse QOpKind.phi_sub_assign_const = ⊥
HasInverse QOpKind.user_routine = ⊥
HasInverse QOpKind.plugin = ⊥
HasInverse _ = Unit {0}

abbrev on_two : BitCall → String → List QValueRef → List Statement
on_two c r (a ∷ b ∷ []) = call_bit c r a.name b.name ∷ []
on_two c r _ = []

abbrev on_one : (String → Statement) → List QValueRef → List Statement
on_one st (a ∷ []) = st a.name ∷ []
on_one st _ = []

abbrev flip_by_both : String → List QValueRef → List Statement
flip_by_both r (a ∷ b ∷ []) = flip_by r a.name ∷ flip_by r b.name ∷ []
flip_by_both r _ = []

unfoldable pub inverse_on : QOpKind → String → List QValueRef → List Statement
inverse_on QOpKind.or r os = on_two uncompute_or r os
inverse_on QOpKind.and r os = on_two uncompute_and r os
inverse_on QOpKind.xor r os = flip_by_both r os
inverse_on QOpKind.xor_assign r os = on_one (flip_by r) os
inverse_on QOpKind.add_assign_const x os = on_one (assign_const minus_assign x) os
inverse_on QOpKind.sub_assign_const x os = on_one (assign_const plus_assign x) os
inverse_on QOpKind.mul_assign_const x os = on_one (assign_const over_assign x) os
inverse_on QOpKind.div_assign_const x os = on_one (assign_const times_assign x) os
inverse_on QOpKind.add_assign_qint x os = on_one (call_int uncompute_add x) os
inverse_on QOpKind.sub_assign_qint x os = on_one (call_int uncompute_sub x) os
inverse_on QOpKind.eq_qint r os = on_two uncompute_eq r os
inverse_on QOpKind.ne_qint r os = on_two uncompute_ne r os
inverse_on QOpKind.lt_qint r os = on_two uncompute_lt r os
inverse_on QOpKind.le_qint r os = on_two uncompute_le r os
inverse_on QOpKind.gt_qint r os = on_two uncompute_gt r os
inverse_on QOpKind.ge_qint r os = on_two uncompute_ge r os
inverse_on QOpKind.ccnot_inplace r os = on_two ccnot r os
inverse_on QOpKind.not_op x os = on_one (λ _. complement x) os
inverse_on _ r os = []

unfoldable pub inverse : QOperation → List Statement
unfolding inverse_on
inverse op = inverse_on op.kind op.result.name op.operands

-- A declared bit starts as |0> and is none of the operands.
abbrev IsDeclared : String → List QValueRef → Store → Type 0
IsDeclared r (a ∷ b ∷ []) s = (s.bit r ≡ false) × (r ≢ a.name) × (r ≢ b.name)
IsDeclared r _ s = ⊥

abbrev IsOther : String → List QValueRef → Type 0
IsOther r (a ∷ []) = r ≢ a.name
IsOther r _ = ⊥

abbrev IsOtherTwo : String → List QValueRef → Type 0
IsOtherTwo r (a ∷ b ∷ []) = (r ≢ a.name) × (r ≢ b.name)
IsOtherTwo r _ = ⊥

module _ (width constant : String → ℕ) where
  abbrev InRange : String → Store → Type 0
  InRange x s = s.int x < 2 ^ width x

  abbrev NoOverflow : String → List QValueRef → Store → Type 0
  NoOverflow x (e ∷ []) s = (0 < constant e.name) × (s.int x * constant e.name < 2 ^ width x)
  NoOverflow x _ s = ⊥

  abbrev Divides : String → List QValueRef → Store → Type 0
  Divides x (e ∷ []) s = (0 < constant e.name) × (s.int x % constant e.name ≡ 0) × InRange x s
  Divides x _ s = ⊥

  abbrev InRangeConst : String → List QValueRef → Store → Type 0
  InRangeConst x (e ∷ []) s = InRange x s
  InRangeConst x _ s = ⊥

  abbrev InRangeOther : String → List QValueRef → Store → Type 0
  InRangeOther x (y ∷ []) s = (x ≢ y.name) × InRange x s
  InRangeOther x _ s = ⊥

  -- When the operation on these operands can be undone.
  abbrev pub CanUndoOn : QOpKind → String → List QValueRef → Store → Type 0
  CanUndoOn QOpKind.or r os s = IsDeclared r os s
  CanUndoOn QOpKind.and r os s = IsDeclared r os s
  CanUndoOn QOpKind.xor r os s = IsDeclared r os s
  CanUndoOn QOpKind.xor_assign r os s = IsOther r os
  CanUndoOn QOpKind.add_assign_const x os s = InRangeConst x os s
  CanUndoOn QOpKind.sub_assign_const x os s = InRangeConst x os s
  CanUndoOn QOpKind.mul_assign_const x os s = NoOverflow x os s
  CanUndoOn QOpKind.div_assign_const x os s = Divides x os s
  CanUndoOn QOpKind.add_assign_qint x os s = InRangeOther x os s
  CanUndoOn QOpKind.sub_assign_qint x os s = InRangeOther x os s
  CanUndoOn QOpKind.ccnot_inplace r os s = IsOtherTwo r os
  CanUndoOn QOpKind.eq_qint r os s = IsDeclared r os s
  CanUndoOn QOpKind.ne_qint r os s = IsDeclared r os s
  CanUndoOn QOpKind.lt_qint r os s = IsDeclared r os s
  CanUndoOn QOpKind.le_qint r os s = IsDeclared r os s
  CanUndoOn QOpKind.gt_qint r os s = IsDeclared r os s
  CanUndoOn QOpKind.ge_qint r os s = IsDeclared r os s
  CanUndoOn _ r os s = ⊥

  abbrev pub CanUndo : QOperation → Store → Type 0
  CanUndo op s = CanUndoOn op.kind op.result.name op.operands s

  -- Each operation can be undone in the state that it is run in.
  abbrev pub CanUndoAll : List QOperation → Store → Type 0
  CanUndoAll [] s = Unit {0}
  CanUndoAll (op ∷ ops) s = CanUndo op s × CanUndoAll ops (forward width constant op s)
