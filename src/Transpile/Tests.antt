-- ===== src/Transpile/Tests.antt =====
-- Runs of the transpiler's passes on small units, and the theorems at concrete inputs.
mod Passes
mod Plugins
mod Cleanups
use sturm_cpp.Common.{
  ◌+◌, ℕ, suc, ◌==◌, ◌≡◌, ◌<◌, ◌∙◌, refl, true, false, Bool, Option, none, some, List, [], ◌∷◌,
  ◌++◌, All, if◌then◌else◌,
}
use sturm_cpp.Common.Int.{ℤ, pos, ◌+ℤ◌, ◌-ℤ◌}
use sturm_cpp.Common.Text.{String, ◌<<◌, to_string}
use sturm_cpp.Transpile.Qir.{
  SourceLocation, is_valid, SourceRange, QOpKind, QValueRef, QOperation, QScope, QUnit,
  UncomputeInsertion,
}
use sturm_cpp.Transpile.Dump.{dump}
use sturm_cpp.Transpile.SourceMap.{line_of}
use sturm_cpp.Transpile.Emitter.{Rewriter, apply_rewrites}
use sturm_cpp.Transpile.Emitter.Order.{apply_rewrites-order, text_at}
use sturm_cpp.Transpile.Meaning.Variables.{Store}
use sturm_cpp.Transpile.Meaning.Statements.{complement}
use sturm_cpp.Transpile.Render.{render_uncompute, render_or, render_add_assign_const}
use sturm_cpp.Transpile.Synthesize.{synthesize}
use sturm_cpp.Transpile.Adjoint.{FunctionDecl, emit_adjoint_for_decl}
use sturm_cpp.Transpile.Adjoint.Emission.{Reports, emit_adjoint_for_decl-Reports}

abbrev ref_to : String → QValueRef
ref_to name = record { name = name; decl_loc = 1 }

abbrev op_at : ℕ → QOpKind → String → List QValueRef → QOperation
op_at place kind result operands = record {
  kind = kind;
  result = ref_to result;
  operands = operands;
  stmt_range = record { begin_loc = place; end_loc = place + 1 };
  insert_before_override = 0;
  hoist_to_override = 0;
  skip_uncompute = false;
  needs_loop_reversal = false;
  routine_name = "";
  outputs_mask = 0;
  plugin_kind_id = "";
}

-- `x += 5; qbool t = a | b;`, recorded in the other order.
abbrev or_op : QOperation
or_op = op_at 30 QOpKind.or "t" (ref_to "a" ∷ ref_to "b" ∷ [])

abbrev add_op : QOperation
add_op = op_at 20 QOpKind.add_assign_const "x" (ref_to "5" ∷ [])

abbrev scope : QScope
scope = record { open_brace = 10; close_brace = 40; ops = or_op ∷ add_op ∷ [] }

abbrev unit : QUnit
unit = record {
  scopes = scope ∷ [];
  replacements = [];
  raw_insertions = [];
  fused_stmt_ranges = [];
  eliminated_stmt_ranges = [];
}

abbrev width : String → ℕ
width _ = 8

abbrev constant : String → ℕ
constant _ = 5

abbrev store : Store
store = record { bit = λ _. false; int = λ _. 3 }

-- A rewriter that only keeps the inserted texts.
abbrev notes : Rewriter (SourceLocation → String)
notes = record {
  replace_text = λ range text s. s;
  insert_text_before = λ loc text s. λ at_loc. if loc == at_loc then text << s at_loc else s at_loc;
  inserted = λ s at_loc. s at_loc;
  inserted-insert = λ loc text s at_loc. refl;
  inserted-replace = λ range text s at_loc. refl;
}

abbrev no_notes : SourceLocation → String
no_notes _ = ""

synthesize-text :
    text_at 40 (synthesize none none unit []).insertions
    ≡ "    uncompute_or(t, a, b);\n    x -= 5;\n"
unfolding synthesize text_at render_uncompute render_or render_add_assign_const
synthesize-text = refl

apply_rewrites-order_example :
    notes.inserted (apply_rewrites notes (synthesize none none unit []).insertions [] no_notes) 40
    ≡ text_at 40 (synthesize none none unit []).insertions << ""
apply_rewrites-order_example =
    apply_rewrites-order notes (synthesize none none unit []).insertions [] no_notes 40 refl

abbrev routine : FunctionDecl
routine = record {
  name = "step";
  is_reversible = true;
  has_body = true;
  params = some "qint& x" ∷ some "qbool& t" ∷ [];
}

emit_adjoint_for_decl-Reports_example :
    Reports (some routine) (emit_adjoint_for_decl (some routine) (add_op ∷ or_op ∷ []) none)
emit_adjoint_for_decl-Reports_example =
    emit_adjoint_for_decl-Reports (some routine) (add_op ∷ or_op ∷ []) none

dump-text :
    dump unit
    ≡ "QUnit: 1 scope(s)\n  Scope[0] braces=[10..40]\n    Op[0] OR t@1 = a@1, b@1  range=[30..31]\n    Op[1] ADD_ASSIGN_CONST x@1 = 5@1  range=[20..21]\n"
unfolding dump to_string
dump-text = refl

directive-text : line_of (some (12, some "/tmp/build/demo.cpp")) ≡ "#line 12 \"demo.cpp\"\n"
unfolding line_of to_string
directive-text = refl
