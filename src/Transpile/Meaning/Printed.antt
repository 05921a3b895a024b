-- ===== src/Transpile/Meaning/Printed.antt =====
-- The text that render_uncompute gives for an operation is that of its inverse statements.
use sturm_cpp.Common.{◌≡◌, Option, List, [], ◌∷◌, refl}
use sturm_cpp.Common.Text.{append_assoc, append-nil}
use sturm_cpp.Transpile.Qir.{QOpKind, QOperation, QValueRef}
use sturm_cpp.Transpile.Plugin.{FindRenderFn}
use sturm_cpp.Transpile.Render.{
  render_uncompute, render_kind, render_or, render_and, render_eq_qint, render_ne_qint,
  render_lt_qint, render_le_qint, render_gt_qint, render_ge_qint, render_ccnot_inplace, render_xor,
  render_xor_assign, render_add_assign_const, render_sub_assign_const, render_mul_assign_const,
  render_div_assign_const, render_add_assign_qint, render_sub_assign_qint,
}
use sturm_cpp.Transpile.Meaning.Inverse.{HasInverse, inverse, inverse_on, print, print_all}

module _ (op : QOperation) where
  render_kind-eq :
      (k : QOpKind) (os : List QValueRef) (registry : Option FindRenderFn)
      → HasInverse k
      → render_kind k (record op { operands = os }) registry
        ≡ print_all (inverse_on k op.result.name os)
  unfolding render_kind inverse_on print print_all render_or render_and render_eq_qint
      render_ne_qint render_lt_qint render_le_qint render_gt_qint render_ge_qint
      render_ccnot_inplace render_xor render_xor_assign render_add_assign_const
      render_sub_assign_const render_mul_assign_const render_div_assign_const render_add_assign_qint
      render_sub_assign_qint
  render_kind-eq QOpKind.or (a ∷ b ∷ []) _ h = rw append-nil
  render_kind-eq QOpKind.and (a ∷ b ∷ []) _ h = rw append-nil
  render_kind-eq QOpKind.eq_qint (a ∷ b ∷ []) _ h = rw append-nil
  render_kind-eq QOpKind.ne_qint (a ∷ b ∷ []) _ h = rw append-nil
  render_kind-eq QOpKind.lt_qint (a ∷ b ∷ []) _ h = rw append-nil
  render_kind-eq QOpKind.le_qint (a ∷ b ∷ []) _ h = rw append-nil
  render_kind-eq QOpKind.gt_qint (a ∷ b ∷ []) _ h = rw append-nil
  render_kind-eq QOpKind.ge_qint (a ∷ b ∷ []) _ h = rw append-nil
  render_kind-eq QOpKind.ccnot_inplace (a ∷ b ∷ []) _ h = rw append-nil
  render_kind-eq QOpKind.xor (a ∷ b ∷ []) _ h = simp (append_assoc, append-nil)
  render_kind-eq QOpKind.xor_assign (a ∷ []) _ h = rw append-nil
  render_kind-eq QOpKind.add_assign_const (a ∷ []) _ h = rw append-nil
  render_kind-eq QOpKind.sub_assign_const (a ∷ []) _ h = rw append-nil
  render_kind-eq QOpKind.mul_assign_const (a ∷ []) _ h = rw append-nil
  render_kind-eq QOpKind.div_assign_const (a ∷ []) _ h = rw append-nil
  render_kind-eq QOpKind.add_assign_qint (a ∷ []) _ h = rw append-nil
  render_kind-eq QOpKind.sub_assign_qint (a ∷ []) _ h = rw append-nil
  render_kind-eq QOpKind.or [] _ h = refl
  render_kind-eq QOpKind.or (a ∷ []) _ h = refl
  render_kind-eq QOpKind.or (a ∷ b ∷ c ∷ os) _ h = refl
  render_kind-eq QOpKind.and [] _ h = refl
  render_kind-eq QOpKind.and (a ∷ []) _ h = refl
  render_kind-eq QOpKind.and (a ∷ b ∷ c ∷ os) _ h = refl
  render_kind-eq QOpKind.eq_qint [] _ h = refl
  render_kind-eq QOpKind.eq_qint (a ∷ []) _ h = refl
  render_kind-eq QOpKind.eq_qint (a ∷ b ∷ c ∷ os) _ h = refl
  render_kind-eq QOpKind.ne_qint [] _ h = refl
  render_kind-eq QOpKind.ne_qint (a ∷ []) _ h = refl
  render_kind-eq QOpKind.ne_qint (a ∷ b ∷ c ∷ os) _ h = refl
  render_kind-eq QOpKind.lt_qint [] _ h = refl
  render_kind-eq QOpKind.lt_qint (a ∷ []) _ h = refl
  render_kind-eq QOpKind.lt_qint (a ∷ b ∷ c ∷ os) _ h = refl
  render_kind-eq QOpKind.le_qint [] _ h = refl
  render_kind-eq QOpKind.le_qint (a ∷ []) _ h = refl
  render_kind-eq QOpKind.le_qint (a ∷ b ∷ c ∷ os) _ h = refl
  render_kind-eq QOpKind.gt_qint [] _ h = refl
  render_kind-eq QOpKind.gt_qint (a ∷ []) _ h = refl
  render_kind-eq QOpKind.gt_qint (a ∷ b ∷ c ∷ os) _ h = refl
  render_kind-eq QOpKind.ge_qint [] _ h = refl
  render_kind-eq QOpKind.ge_qint (a ∷ []) _ h = refl
  render_kind-eq QOpKind.ge_qint (a ∷ b ∷ c ∷ os) _ h = refl
  render_kind-eq QOpKind.ccnot_inplace [] _ h = refl
  render_kind-eq QOpKind.ccnot_inplace (a ∷ []) _ h = refl
  render_kind-eq QOpKind.ccnot_inplace (a ∷ b ∷ c ∷ os) _ h = refl
  render_kind-eq QOpKind.xor [] _ h = refl
  render_kind-eq QOpKind.xor (a ∷ []) _ h = refl
  render_kind-eq QOpKind.xor (a ∷ b ∷ c ∷ os) _ h = refl
  render_kind-eq QOpKind.xor_assign [] _ h = refl
  render_kind-eq QOpKind.xor_assign (a ∷ b ∷ os) _ h = refl
  render_kind-eq QOpKind.add_assign_const [] _ h = refl
  render_kind-eq QOpKind.add_assign_const (a ∷ b ∷ os) _ h = refl
  render_kind-eq QOpKind.sub_assign_const [] _ h = refl
  render_kind-eq QOpKind.sub_assign_const (a ∷ b ∷ os) _ h = refl
  render_kind-eq QOpKind.mul_assign_const [] _ h = refl
  render_kind-eq QOpKind.mul_assign_const (a ∷ b ∷ os) _ h = refl
  render_kind-eq QOpKind.div_assign_const [] _ h = refl
  render_kind-eq QOpKind.div_assign_const (a ∷ b ∷ os) _ h = refl
  render_kind-eq QOpKind.add_assign_qint [] _ h = refl
  render_kind-eq QOpKind.add_assign_qint (a ∷ b ∷ os) _ h = refl
  render_kind-eq QOpKind.sub_assign_qint [] _ h = refl
  render_kind-eq QOpKind.sub_assign_qint (a ∷ b ∷ os) _ h = refl
  render_kind-eq _ _ _ h = elim h [ ]

-- The rendered text of an operation that has an inverse is that of its inverse statements.
pub render_uncompute-inverse :
    (op : QOperation) (registry : Option FindRenderFn)
    → HasInverse op.kind
    → render_uncompute op registry ≡ print_all (inverse op)
unfolding render_uncompute inverse
render_uncompute-inverse op registry h = render_kind-eq op op.kind op.operands registry h
