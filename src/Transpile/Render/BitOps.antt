-- ===== src/Transpile/Render/BitOps.antt =====
-- render_uncompute of transpiler/src/uncompute_render.cpp, the operations on bits.
use sturm_cpp.Common.Text.{String, ◌<<◌}
use sturm_cpp.Transpile.Qir.{QOperation}
use sturm_cpp.Transpile.Render.Operands.{with_one, with_two}

unfoldable pub render_or : QOperation → String
render_or op =
    with_two op.operands
      λ a b. "    uncompute_or(" << op.result.name << ", " << a.name << ", " << b.name << ");\n"

unfoldable pub render_and : QOperation → String
render_and op =
    with_two op.operands
      λ a b. "    uncompute_and(" << op.result.name << ", " << a.name << ", " << b.name << ");\n"

unfoldable pub render_not : QOperation → String
render_not op =
    with_one op.operands λ _. "    " << op.result.name << " = ~" << op.result.name << ";\n"

unfoldable pub render_xor : QOperation → String
render_xor op = with_two op.operands λ a b.
    "    " << op.result.name << " ^= " << a.name << ";\n" << "    " << op.result.name << " ^= "
    << b.name << ";\n"

unfoldable pub render_xor_assign : QOperation → String
render_xor_assign op =
    with_one op.operands λ a. "    " << op.result.name << " ^= " << a.name << ";\n"
