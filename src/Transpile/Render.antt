-- ===== src/Transpile/Render.antt =====
-- render_uncompute, transpiler/src/uncompute_render.cpp: the text that undoes one operation.
mod Operands
mod BitOps
mod Assigns
mod Comparisons
mod Routines
unfoldable pub use BitOps.*
unfoldable pub use Assigns.*
unfoldable pub use Comparisons.*
unfoldable pub use Routines.*
pub use Operands.*
use sturm_cpp.Common.{Option}
use sturm_cpp.Common.Text.{String}
use sturm_cpp.Transpile.Qir
use sturm_cpp.Transpile.Qir.{QOpKind, QOperation}
use sturm_cpp.Transpile.Plugin.{FindRenderFn}

unfoldable pub render_kind : QOpKind → QOperation → Option FindRenderFn → String
render_kind QOpKind.or op registry = render_or op
render_kind QOpKind.and op registry = render_and op
render_kind QOpKind.xor_assign op registry = render_xor_assign op
render_kind QOpKind.xor op registry = render_xor op
render_kind QOpKind.add_assign_const op registry = render_add_assign_const op
render_kind QOpKind.sub_assign_const op registry = render_sub_assign_const op
render_kind QOpKind.mul_assign_const op registry = render_mul_assign_const op
render_kind QOpKind.div_assign_const op registry = render_div_assign_const op
render_kind QOpKind.add_assign_qint op registry = render_add_assign_qint op
render_kind QOpKind.sub_assign_qint op registry = render_sub_assign_qint op
render_kind QOpKind.mul_assign_qint op registry = render_mul_assign_qint op
render_kind QOpKind.div_assign_qint op registry = render_div_assign_qint op
render_kind QOpKind.mod_assign_qint op registry = render_mod_assign_qint op
render_kind QOpKind.theta_add_assign_const op registry = render_theta_add_assign_const op
render_kind QOpKind.theta_sub_assign_const op registry = render_theta_sub_assign_const op
render_kind QOpKind.phi_add_assign_const op registry = render_phi_add_assign_const op
render_kind QOpKind.phi_sub_assign_const op registry = render_phi_sub_assign_const op
render_kind QOpKind.eq_qint op registry = render_eq_qint op
render_kind QOpKind.ne_qint op registry = render_ne_qint op
render_kind QOpKind.lt_qint op registry = render_lt_qint op
render_kind QOpKind.le_qint op registry = render_le_qint op
render_kind QOpKind.gt_qint op registry = render_gt_qint op
render_kind QOpKind.ge_qint op registry = render_ge_qint op
render_kind QOpKind.ccnot_inplace op registry = render_ccnot_inplace op
render_kind QOpKind.not_op op registry = render_not op
render_kind QOpKind.user_routine op registry = render_user_routine op
render_kind QOpKind.plugin op registry = render_plugin op registry

-- The registry is a pointer, which may be null.
unfoldable pub render_uncompute : QOperation → Option FindRenderFn → String
unfolding render_kind
render_uncompute op registry = render_kind op.kind op registry
