-- ===== src/Transpile/Render/Routines.antt =====
-- render_uncompute of transpiler/src/uncompute_render.cpp, calls of routines and of plugins.
use sturm_cpp.Common.{Option, none, some, List, [], ◌∷◌, if◌then◌else◌}
use sturm_cpp.Common.Text.{String, ◌<<◌, is_empty}
use sturm_cpp.Transpile.Qir.{QOperation, QValueRef}
use sturm_cpp.Transpile.Plugin.{FindRenderFn}

-- The names of the operands with ", " between them.
unfoldable pub join_names : List QValueRef → String
join_names [] = ""
join_names (a ∷ []) = a.name
join_names (a ∷ b ∷ rest) = a.name << ", " << join_names (b ∷ rest)

unfoldable pub render_user_routine : QOperation → String
unfolding join_names
render_user_routine op =
    if is_empty op.routine_name
    then ""
    else "    sturm::invert<&" << op.routine_name << ">()(" << join_names op.operands << ");\n"

-- A renderer that was found may be an empty function.
unfoldable pub render_plugin : QOperation → Option FindRenderFn → String
render_plugin op none = ""
render_plugin op (some find_render_fn) =
    if is_empty op.plugin_kind_id then "" else elim (find_render_fn op.plugin_kind_id) [
      | none ↦ ""
      | some none ↦ ""
      | some (some renderer) ↦ renderer op
    ]
