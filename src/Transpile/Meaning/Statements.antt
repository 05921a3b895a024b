-- ===== src/Transpile/Meaning/Statements.antt =====
-- What the statements that the transpiler reads and writes do to the variables of the program:
-- bits of qbools, and qints as numbers below 2 to their width. This is the value on a basis
-- state; `width` has the widths of the qints and `constant` the values of constant expressions.

use sturm_cpp.Transpile.Meaning.Variables.{Store, put_bit, put_int}
use sturm_cpp.Common.{
  ℕ, ◌+◌, ◌-◌, ◌*◌, ◌/◌, ◌%◌, ◌^◌, Bool, true, not, ◌&&◌, ◌||◌, List, [], ◌∷◌, ◌==◌, ltb, xor,
}
use sturm_cpp.Common.Text.{String}
use sturm_cpp.Transpile.Qir.{QOpKind, QOperation, QValueRef}

-- Functions of include/sturm/uncompute/uncompute_api.hpp that add a value to the bit of `r`.
pub data BitCall : Type 0 where
  uncompute_or uncompute_and ccnot : BitCall
  uncompute_eq uncompute_ne uncompute_lt uncompute_le uncompute_gt uncompute_ge : BitCall

pub data IntCall : Type 0 where
  uncompute_add uncompute_sub : IntCall

pub data AssignOp : Type 0 where
  plus_assign minus_assign times_assign over_assign : AssignOp

-- `complement x` is `x = ~x`: the operator `~` on qbools returns a fresh |1> whatever its operand
-- holds.
pub data Statement : Type 0 where
  call_bit : BitCall → String → String → String → Statement
  call_int : IntCall → String → String → Statement
  flip_by : String → String → Statement
  assign_const : AssignOp → String → String → Statement
  complement : String → Statement

-- The value that a call adds to a bit.
unfoldable pub bit_value : BitCall → String → String → Store → Bool
bit_value uncompute_or a b s = s.bit a || s.bit b
bit_value uncompute_and a b s = s.bit a && s.bit b
bit_value ccnot a b s = s.bit a && s.bit b
bit_value uncompute_eq a b s = s.int a == s.int b
bit_value uncompute_ne a b s = not (s.int a == s.int b)
bit_value uncompute_lt a b s = ltb (s.int a) (s.int b)
bit_value uncompute_le a b s = not (ltb (s.int b) (s.int a))
bit_value uncompute_gt a b s = ltb (s.int b) (s.int a)
bit_value uncompute_ge a b s = not (ltb (s.int a) (s.int b))

module _ (width constant : String → ℕ) where
  unfoldable pub add_value : ℕ → String → Store → ℕ
  add_value k x s = (s.int x + k) % 2 ^ width x

  unfoldable pub sub_value : ℕ → String → Store → ℕ
  sub_value k x s = (s.int x + 2 ^ width x - k % 2 ^ width x) % 2 ^ width x

  unfoldable pub assign_value : AssignOp → String → String → Store → ℕ
  unfolding add_value sub_value
  assign_value plus_assign x e s = add_value (constant e) x s
  assign_value minus_assign x e s = sub_value (constant e) x s
  assign_value times_assign x e s = (s.int x * constant e) % 2 ^ width x
  assign_value over_assign x e s = s.int x / constant e

  unfoldable pub int_value : IntCall → String → String → Store → ℕ
  unfolding add_value sub_value
  int_value uncompute_add x y s = sub_value (s.int y) x s
  int_value uncompute_sub x y s = add_value (s.int y) x s

  unfoldable pub exec : Statement → Store → Store
  unfolding bit_value assign_value int_value
  exec (call_bit c r a b) s = put_bit r (xor (s.bit r) (bit_value c a b s)) s
  exec (call_int c x y) s = put_int x (int_value c x y s) s
  exec (flip_by r a) s = put_bit r (xor (s.bit r) (s.bit a)) s
  exec (assign_const o x e) s = put_int x (assign_value o x e s) s
  exec (complement x) s = put_bit x true s

  unfoldable pub exec_all : List Statement → Store → Store
  exec_all [] s = s
  exec_all (st ∷ sts) s = exec_all sts (exec st s)

  -- The statement that an operation of the intermediate form stands for, on its operands.
  unfoldable pub forward_on : QOpKind → String → List QValueRef → Store → Store
  unfolding bit_value assign_value int_value
  forward_on QOpKind.or r (a ∷ b ∷ []) s = put_bit r (bit_value uncompute_or a.name b.name s) s
  forward_on QOpKind.and r (a ∷ b ∷ []) s = put_bit r (bit_value uncompute_and a.name b.name s) s
  forward_on QOpKind.xor r (a ∷ b ∷ []) s = put_bit r (xor (s.bit a.name) (s.bit b.name)) s
  forward_on QOpKind.not_op r (a ∷ []) s = put_bit r true s
  forward_on QOpKind.xor_assign r (a ∷ []) s = put_bit r (xor (s.bit r) (s.bit a.name)) s
  forward_on QOpKind.add_assign_const x (e ∷ []) s =
      put_int x (assign_value plus_assign x e.name s) s
  forward_on QOpKind.sub_assign_const x (e ∷ []) s =
      put_int x (assign_value minus_assign x e.name s) s
  forward_on QOpKind.mul_assign_const x (e ∷ []) s =
      put_int x (assign_value times_assign x e.name s) s
  forward_on QOpKind.div_assign_const x (e ∷ []) s =
      put_int x (assign_value over_assign x e.name s) s
  forward_on QOpKind.add_assign_qint x (y ∷ []) s = put_int x (int_value uncompute_sub x y.name s) s
  forward_on QOpKind.sub_assign_qint x (y ∷ []) s = put_int x (int_value uncompute_add x y.name s) s
  forward_on QOpKind.eq_qint r (a ∷ b ∷ []) s = put_bit r (bit_value uncompute_eq a.name b.name s) s
  forward_on QOpKind.ne_qint r (a ∷ b ∷ []) s = put_bit r (bit_value uncompute_ne a.name b.name s) s
  forward_on QOpKind.lt_qint r (a ∷ b ∷ []) s = put_bit r (bit_value uncompute_lt a.name b.name s) s
  forward_on QOpKind.le_qint r (a ∷ b ∷ []) s = put_bit r (bit_value uncompute_le a.name b.name s) s
  forward_on QOpKind.gt_qint r (a ∷ b ∷ []) s = put_bit r (bit_value uncompute_gt a.name b.name s) s
  forward_on QOpKind.ge_qint r (a ∷ b ∷ []) s = put_bit r (bit_value uncompute_ge a.name b.name s) s
  forward_on QOpKind.ccnot_inplace r (a ∷ b ∷ []) s =
      put_bit r (xor (s.bit r) (bit_value ccnot a.name b.name s)) s
  forward_on _ r operands s = s

  unfoldable pub forward : QOperation → Store → Store
  unfolding forward_on
  forward op s = forward_on op.kind op.result.name op.operands s

  unfoldable pub forward_all : List QOperation → Store → Store
  forward_all [] s = s
  forward_all (op ∷ ops) s = forward_all ops (forward op s)
