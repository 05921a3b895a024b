-- ===== src/Transpile/Rewrites/Modular.antt =====
-- Modular arithmetic, transpiler/src/modular_rewrite_emitter.cpp.
use sturm_cpp.Common.{◌||◌, if◌then◌else◌}
use sturm_cpp.Common.Int.{ℤ, pos, negsuc}
use sturm_cpp.Common.Text.{String, ◌<<◌, is_empty}
use sturm_cpp.Transpile.Rewrites.Fresh.{render_qint_typename}

pub data ModularOpKind : Type 0 where
  add_mod mul_mod pow_mod : ModularOpKind

pub record ModularEmission : Type 0 where
  pub text : String
  pub cleanup_anchor_name : String
  pub kind : ModularOpKind

unfoldable pub render_modular_typename : ℤ → String
unfolding render_qint_typename
render_modular_typename (pos w) = render_qint_typename w
render_modular_typename (negsuc _) = render_qint_typename 0

unfoldable pub render_binary_mod : String → String → String → String → String → ℤ → String
unfolding render_modular_typename
render_binary_mod fn_name result a b n result_width =
    render_modular_typename result_width
    << " "
    << result
    << " = ::sturm::"
    << fn_name
    << "("
    << a
    << ", "
    << b
    << ", "
    << n
    << ");\n"

abbrev fn_name : ModularOpKind → String
fn_name add_mod = "add_mod"
fn_name mul_mod = "mul_mod"
fn_name pow_mod = "pow_mod"

-- The allocator is not used.
unfoldable pub emit_modular_forward_text :
    ModularOpKind → String → String → String → String → ℤ → ModularEmission
unfolding render_binary_mod
emit_modular_forward_text kind result a b n result_width =
    if is_empty result || is_empty a || is_empty b || is_empty n
    then record { text = ""; cleanup_anchor_name = ""; kind = kind }
    else record {
      text = render_binary_mod (fn_name kind) result a b n result_width;
      cleanup_anchor_name = result;
      kind = kind;
    }
