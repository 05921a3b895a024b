-- ===== src/Transpile/Rewrites/Cleanup.antt =====
-- Cleanups of lossy assignments at the end of their block,
-- transpiler/src/lossy_scope_exit_emitter.cpp. A block is a number, `none` the null pointer; the
-- context is the name of the function that a block is the body of, a parameter, since Clang
-- knows it.
pub mod Lifo
use sturm_cpp.Common.{
  ℕ, ◌==◌, Bool, true, false, ◌&&◌, ◌||◌, Option, none, some, List, [], ◌∷◌, ◌++◌, reverse,
  if◌then◌else◌, length,
}
use sturm_cpp.Common.Int.{ℤ, pos, ltb_ℤ}
use sturm_cpp.Common.Text.{String, ◌<<◌, is_empty, str_eq}
use sturm_cpp.Transpile.Rewrites.Lossy.{
  LossyOpKind, mul_assign, div_assign, mod_assign, and_assign, or_assign, LossyEmission,
}

pub record LossyOpHit : Type 0 where
  pub opcode : LossyOpKind
  pub lhs_name : String
  pub rhs_name : String
  pub lhs_width : ℤ
  pub enclosing_block : Option ℕ

pub record BlockCleanup : Type 0 where
  pub block : ℕ
  pub text : String

unfoldable pub dsl_name : LossyOpKind → String
dsl_name mul_assign = "lib_mul_dsl"
dsl_name div_assign = "lib_div_dsl"
dsl_name mod_assign = "lib_div_dsl"
dsl_name and_assign = "lib_c_AND_dsl"
dsl_name or_assign = "lib_or_dsl"

unfoldable pub oop_adj_name : LossyOpKind → String
oop_adj_name mul_assign = "mul_oop_adj"
oop_adj_name div_assign = "divide_oop_adj"
oop_adj_name mod_assign = "divide_oop_adj"
oop_adj_name and_assign = "and_oop_adj"
oop_adj_name or_assign = "or_oop_adj"

abbrev targets : LossyOpKind → String → String → String
targets div_assign swap_target aux_tmp = swap_target << ", " << aux_tmp
targets mod_assign swap_target aux_tmp = aux_tmp << ", " << swap_target
targets _ swap_target aux_tmp = swap_target

unfoldable pub render_cleanup_body : LossyOpKind → String → String → String → String → ℤ → String
unfolding dsl_name oop_adj_name
render_cleanup_body k lhs rhs swap_target aux_tmp lhs_width =
    "swap("
    << lhs
    << ", "
    << swap_target
    << ");\n"
    << (if ltb_ℤ (pos 0) lhs_width
        then oop_adj_name k
        else "sturm::invert<&::sturm::" << dsl_name k << ">()")
    << "("
    << lhs
    << ", "
    << rhs
    << ", "
    << targets k swap_target aux_tmp
    << ");\n"

abbrev is_division : LossyOpKind → Bool
is_division div_assign = true
is_division mod_assign = true
is_division _ = false

unfoldable pub emit_lossy_cleanup_text :
    LossyOpKind → String → String → String → String → ℤ → String
unfolding render_cleanup_body
emit_lossy_cleanup_text k lhs rhs swap_target aux_tmp lhs_width =
    if is_empty lhs || (is_empty rhs || is_empty swap_target)
    then ""
    else if is_division k && is_empty aux_tmp
    then ""
    else render_cleanup_body k lhs rhs swap_target aux_tmp lhs_width

unfoldable pub emit_lossy_cleanup : LossyOpHit → LossyEmission → String
unfolding emit_lossy_cleanup_text
emit_lossy_cleanup hit forward =
    emit_lossy_cleanup_text hit.opcode hit.lhs_name hit.rhs_name forward.swap_target_name
      forward.aux_tmp_name hit.lhs_width

-- The name of the function that is the parent of a block, if a function is.
abbrev pub Parents : Type 0
Parents = ℕ → Option String

unfoldable pub is_main_outer_block : Parents → ℕ → Bool
is_main_outer_block parents block = elim (parents block) [
  | none ↦ false
  | some name ↦ str_eq name "main"
]

unfoldable pub is_suppressed : Option Parents → ℕ → Bool
unfolding is_main_outer_block
is_suppressed none block = false
is_suppressed (some parents) block = is_main_outer_block parents block

-- `idx.find(block)`
unfoldable pub has_block : ℕ → List BlockCleanup → Bool
has_block block [] = false
has_block block (bc ∷ out) = bc.block == block || has_block block out

-- The first pass: a slot for every block, in the order of the first hits.
unfoldable pub open_slot : Option ℕ → List BlockCleanup → List BlockCleanup
unfolding has_block
open_slot none out = out
open_slot (some b) out =
    if has_block b out then out else out ++ record { block = b; text = "" } ∷ []

unfoldable pub slots : List LossyOpHit → List BlockCleanup → List BlockCleanup
unfolding open_slot
slots [] out = out
slots (hit ∷ hits) out = slots hits (open_slot hit.enclosing_block out)

-- `out[it->second].text += text`
unfoldable pub add_text : ℕ → String → List BlockCleanup → List BlockCleanup
add_text b t [] = []
add_text b t (bc ∷ out) =
    if bc.block == b then record bc { text = bc.text << t } ∷ out else bc ∷ add_text b t out

-- The second pass, over the hits in reverse.
unfoldable pub put_cleanup :
    Option Parents → Option ℕ → String → List BlockCleanup → List BlockCleanup
unfolding is_suppressed add_text
put_cleanup ctx none text out = out
put_cleanup ctx (some b) text out =
    if is_suppressed ctx b then out else if is_empty text then out else add_text b text out

unfoldable pub fill :
    Option Parents → List (LossyOpHit × LossyEmission) → List BlockCleanup → List BlockCleanup
unfolding put_cleanup emit_lossy_cleanup
fill ctx [] out = out
fill ctx ((hit, forward) ∷ rest) out =
    fill ctx rest (put_cleanup ctx hit.enclosing_block (emit_lossy_cleanup hit forward) out)

unfoldable pub zip : List LossyOpHit → List LossyEmission → List (LossyOpHit × LossyEmission)
zip (h ∷ hs) (f ∷ fs) = (h, f) ∷ zip hs fs
zip _ _ = []

unfoldable pub group_cleanups_by_block :
    List LossyOpHit → List LossyEmission → Option Parents → List BlockCleanup
unfolding slots fill zip
group_cleanups_by_block hits forwards ctx =
    if length hits == length forwards
    then fill ctx (reverse (zip hits forwards)) (slots hits [])
    else []
