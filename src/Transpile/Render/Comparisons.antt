-- ===== src/Transpile/Render/Comparisons.antt =====
-- render_uncompute of transpiler/src/uncompute_render.cpp, the comparisons and the fused CCX.
use sturm_cpp.Common.Text.{String, ◌<<◌}
use sturm_cpp.Transpile.Qir.{QOperation}
use sturm_cpp.Transpile.Render.Operands.{with_two}

unfoldable pub render_eq_qint : QOperation → String
render_eq_qint op =
    with_two op.operands λ a b.
      "    uncompute_eq_qint(" << op.result.name << ", " << a.name << ", " << b.name << ");\n"

unfoldable pub render_ne_qint : QOperation → String
render_ne_qint op =
    with_two op.operands λ a b.
      "    uncompute_ne_qint(" << op.result.name << ", " << a.name << ", " << b.name << ");\n"

unfoldable pub render_lt_qint : QOperation → String
render_lt_qint op =
    with_two op.operands λ a b.
      "    uncompute_lt_qint(" << op.result.name << ", " << a.name << ", " << b.name << ");\n"

unfoldable pub render_le_qint : QOperation → String
render_le_qint op =
    with_two op.operands λ a b.
      "    uncompute_le_qint(" << op.result.name << ", " << a.name << ", " << b.name << ");\n"

unfoldable pub render_gt_qint : QOperation → String
render_gt_qint op =
    with_two op.operands λ a b.
      "    uncompute_gt_qint(" << op.result.name << ", " << a.name << ", " << b.name << ");\n"

unfoldable pub render_ge_qint : QOperation → String
render_ge_qint op =
    with_two op.operands λ a b.
      "    uncompute_ge_qint(" << op.result.name << ", " << a.name << ", " << b.name << ");\n"

unfoldable pub render_ccnot_inplace : QOperation → String
render_ccnot_inplace op =
    with_two op.operands
      λ a b. "    ccnot_inplace(" << op.result.name << ", " << a.name << ", " << b.name << ");\n"
