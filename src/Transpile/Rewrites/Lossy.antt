-- ===== src/Transpile/Rewrites/Lossy.antt =====
-- Lossy assignments, transpiler/src/lossy_rewrite_emitter.cpp.
use Prim.Native.String.{len, slice}
use sturm_cpp.Common.{ltb, Bool, true, false, ◌||◌, if◌then◌else◌}
use sturm_cpp.Common.Int.{ℤ, pos, negsuc}
use sturm_cpp.Common.Text.{String, ◌<<◌, is_empty}
use sturm_cpp.Transpile.Rewrites.Fresh.{FreshNameAllocator, next, render_qint_typename}

pub data LossyOpKind : Type 0 where
  mul_assign div_assign mod_assign and_assign or_assign : LossyOpKind

pub record LossyEmission : Type 0 where
  pub text : String
  pub swap_target_name : String
  pub aux_tmp_name : String
  pub opcode : LossyOpKind

-- The number of a fresh name, without the prefix.
unfoldable pub without_prefix : String → String
without_prefix raw =
    if ltb (len "__stu_t") (len raw) then slice raw (len "__stu_t") (len raw) else raw

unfoldable pub next_counter_suffix : FreshNameAllocator → FreshNameAllocator × String
unfolding next without_prefix
next_counter_suffix alloc = ((next alloc).0, without_prefix (next alloc).1)

unfoldable pub kind_tag : LossyOpKind → String
kind_tag mul_assign = "mul"
kind_tag div_assign = "div"
kind_tag mod_assign = "mod"
kind_tag and_assign = "and"
kind_tag or_assign = "or"

unfoldable pub oop_name : LossyOpKind → String
oop_name mul_assign = "mul_oop"
oop_name and_assign = "and_oop"
oop_name or_assign = "or_oop"
oop_name div_assign = ""
oop_name mod_assign = ""

unfoldable pub render_lossy_typename : ℤ → String
unfolding render_qint_typename
render_lossy_typename (pos w) = render_qint_typename w
render_lossy_typename (negsuc _) = render_qint_typename 0

abbrev pub tmp_base : LossyOpKind → String → String
tmp_base k suffix = "__sturm_tmp_" << kind_tag k << "_" << suffix

unfoldable pub emit_single_ancilla :
    LossyOpKind → String → String → ℤ → FreshNameAllocator → FreshNameAllocator × LossyEmission
unfolding next_counter_suffix oop_name render_lossy_typename
emit_single_ancilla k lhs rhs lhs_width alloc =
    let (alloc', suffix) = next_counter_suffix alloc in
    let tmp = tmp_base k suffix in
    (
      alloc',
      record {
        text =
            render_lossy_typename lhs_width
            << " "
            << tmp
            << ";\n"
            << oop_name k
            << "("
            << lhs
            << ", "
            << rhs
            << ", "
            << tmp
            << ");\n"
            << "swap("
            << lhs
            << ", "
            << tmp
            << ");\n";
        swap_target_name = tmp;
        aux_tmp_name = "";
        opcode = k;
      },
    )

-- The quotient replaces the left side of `/=`, the remainder that of `%=`.
abbrev keeps_quotient : LossyOpKind → Bool
keeps_quotient div_assign = true
keeps_quotient _ = false

unfoldable pub emit_divide_kernel :
    LossyOpKind → String → String → ℤ → FreshNameAllocator → FreshNameAllocator × LossyEmission
unfolding next_counter_suffix render_lossy_typename
emit_divide_kernel k lhs rhs lhs_width alloc =
    let (alloc', suffix) = next_counter_suffix alloc in
    let tmp_q = tmp_base k suffix << "_q" in
    let tmp_r = tmp_base k suffix << "_r" in
    let target = if keeps_quotient k then tmp_q else tmp_r in
    (
      alloc',
      record {
        text =
            render_lossy_typename lhs_width
            << " "
            << tmp_q
            << ", "
            << tmp_r
            << ";\n"
            << "divide_oop("
            << lhs
            << ", "
            << rhs
            << ", "
            << tmp_q
            << ", "
            << tmp_r
            << ");\n"
            << "swap("
            << lhs
            << ", "
            << target
            << ");\n";
        swap_target_name = target;
        aux_tmp_name = if keeps_quotient k then tmp_r else tmp_q;
        opcode = k;
      },
    )

abbrev nothing : LossyOpKind → LossyEmission
nothing k = record { text = ""; swap_target_name = ""; aux_tmp_name = ""; opcode = k }

abbrev by_kind :
    LossyOpKind → String → String → ℤ → FreshNameAllocator → FreshNameAllocator × LossyEmission
by_kind mul_assign lhs rhs w alloc = emit_single_ancilla mul_assign lhs rhs w alloc
by_kind and_assign lhs rhs w alloc = emit_single_ancilla and_assign lhs rhs w alloc
by_kind or_assign lhs rhs w alloc = emit_single_ancilla or_assign lhs rhs w alloc
by_kind div_assign lhs rhs w alloc = emit_divide_kernel div_assign lhs rhs w alloc
by_kind mod_assign lhs rhs w alloc = emit_divide_kernel mod_assign lhs rhs w alloc

unfoldable pub emit_lossy_forward_text :
    LossyOpKind → String → String → ℤ → FreshNameAllocator → FreshNameAllocator × LossyEmission
unfolding emit_single_ancilla emit_divide_kernel
emit_lossy_forward_text kind lhs rhs lhs_width alloc =
    if is_empty lhs || is_empty rhs
    then (alloc, nothing kind)
    else by_kind kind lhs rhs lhs_width alloc
