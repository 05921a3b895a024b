-- ===== src/Transpile/Render/Assigns.antt =====
-- render_uncompute of transpiler/src/uncompute_render.cpp, the compound assignments.
use sturm_cpp.Common.Text.{String, ◌<<◌}
use sturm_cpp.Transpile.Qir.{QOperation}
use sturm_cpp.Transpile.Render.Operands.{with_one}

unfoldable pub render_add_assign_const : QOperation → String
render_add_assign_const op =
    with_one op.operands λ a. "    " << op.result.name << " -= " << a.name << ";\n"

unfoldable pub render_sub_assign_const : QOperation → String
render_sub_assign_const op =
    with_one op.operands λ a. "    " << op.result.name << " += " << a.name << ";\n"

unfoldable pub render_mul_assign_const : QOperation → String
render_mul_assign_const op =
    with_one op.operands λ a. "    " << op.result.name << " /= " << a.name << ";\n"

unfoldable pub render_div_assign_const : QOperation → String
render_div_assign_const op =
    with_one op.operands λ a. "    " << op.result.name << " *= " << a.name << ";\n"

unfoldable pub render_theta_add_assign_const : QOperation → String
render_theta_add_assign_const op =
    with_one op.operands λ a. "    " << op.result.name << ".theta() -= " << a.name << ";\n"

unfoldable pub render_theta_sub_assign_const : QOperation → String
render_theta_sub_assign_const op =
    with_one op.operands λ a. "    " << op.result.name << ".theta() += " << a.name << ";\n"

unfoldable pub render_phi_add_assign_const : QOperation → String
render_phi_add_assign_const op =
    with_one op.operands λ a. "    " << op.result.name << ".phi() -= " << a.name << ";\n"

unfoldable pub render_phi_sub_assign_const : QOperation → String
render_phi_sub_assign_const op =
    with_one op.operands λ a. "    " << op.result.name << ".phi() += " << a.name << ";\n"

unfoldable pub render_add_assign_qint : QOperation → String
render_add_assign_qint op =
    with_one op.operands
      λ a. "    uncompute_add_qint(" << op.result.name << ", " << a.name << ");\n"

unfoldable pub render_sub_assign_qint : QOperation → String
render_sub_assign_qint op =
    with_one op.operands
      λ a. "    uncompute_sub_qint(" << op.result.name << ", " << a.name << ");\n"

unfoldable pub render_mul_assign_qint : QOperation → String
render_mul_assign_qint op =
    with_one op.operands
      λ a. "    uncompute_mul_qint(" << op.result.name << ", " << a.name << ");\n"

unfoldable pub render_div_assign_qint : QOperation → String
render_div_assign_qint op =
    with_one op.operands
      λ a. "    uncompute_div_qint(" << op.result.name << ", " << a.name << ");\n"

unfoldable pub render_mod_assign_qint : QOperation → String
render_mod_assign_qint op =
    with_one op.operands
      λ a. "    uncompute_mod_qint(" << op.result.name << ", " << a.name << ");\n"
