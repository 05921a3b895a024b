-- ===== src/Transpile/Rewrites/QramAssign.antt =====
-- Assignments from a subscript, transpiler/src/qram_emitter_assign.cpp. Of a matched site the code
-- uses the texts of three expressions, each of which may be missing, and a source range.
use sturm_cpp.Common.{
  ℕ, ◌==◌, Bool, not, ◌&&◌, ◌||◌, Option, none, some, List, [], ◌∷◌, ◌++◌, if◌then◌else◌,
}
use sturm_cpp.Common.Text.{String, ◌<<◌, is_empty}
use sturm_cpp.Transpile.Qir.{SourceRange, is_valid, QReplacement}

pub data QramContainerKind : Type 0 where
  std_array c_array pointer : QramContainerKind

unfoldable pub ns_prefix : ℕ → String
ns_prefix w = if w == 0 then "" else "::sturm::"

unfoldable pub render_uncompute_call : ℕ → String → String
unfolding ns_prefix
render_uncompute_call w target_text =
    ns_prefix w << "__QRAM_target_uncompute(" << target_text << ")"

abbrev length_part : QramContainerKind → String → String
length_part pointer length_text =
    ", " << (if is_empty length_text then "/* qram-pointer-length-missing */" else length_text)
length_part std_array length_text = ""
length_part c_array length_text = ""

unfoldable pub render_forward_call :
    ℕ → QramContainerKind → String → String → String → String → String
unfolding ns_prefix
render_forward_call w kind container_text index_text length_text target_text =
    ns_prefix w
    << "QRAM_read("
    << container_text
    << length_part kind length_text
    << ", "
    << index_text
    << ", "
    << target_text
    << ")"

unfoldable pub emit_qram_assign_text :
    QramContainerKind → String → String → String → String → ℕ → String
unfolding render_uncompute_call render_forward_call
emit_qram_assign_text kind target_text container_text index_text length_text w =
    if is_empty target_text || is_empty container_text || is_empty index_text
    then ""
    else render_uncompute_call w target_text
      << "; "
      << render_forward_call w kind container_text index_text length_text target_text

-- The expressions by their texts; `none` is a null pointer.
pub record QramSubscriptAssignHit : Type 0 where
  pub kind : QramContainerKind
  pub assign_range : Option SourceRange
  pub target_expr : Option String
  pub container_expr : Option String
  pub index_expr : Option String
  pub length_text : String
  pub width : ℕ

abbrev range_is_valid : SourceRange → Bool
range_is_valid range = is_valid range.begin_loc && is_valid range.end_loc

abbrev replacement_for :
    QramSubscriptAssignHit
    → Option SourceRange
    → Option String
    → Option String
    → Option String
    → Option QReplacement
replacement_for hit (some range) (some target) (some container) (some index) =
    let text = emit_qram_assign_text hit.kind target container index hit.length_text hit.width in
    if is_empty text || not (range_is_valid range)
    then none
    else some (record { range = range; replacement = text })
replacement_for hit _ _ _ _ = none

unfoldable pub emit_qram_assign_replacements :
    List QramSubscriptAssignHit → List QReplacement → List QReplacement
unfolding emit_qram_assign_text
emit_qram_assign_replacements [] replacements = replacements
emit_qram_assign_replacements (hit ∷ hits) replacements =
    emit_qram_assign_replacements hits
      (elim (replacement_for hit hit.assign_range hit.target_expr hit.container_expr
        hit.index_expr) [ none ↦ replacements | some rep ↦ replacements ++ rep ∷ [] ])
