-- ===== src/Transpile/Synthesize.antt =====
-- The uncompute pass, transpiler/src/uncompute_pass.cpp. A null source manager or registry is
-- `none`.
pub mod Sorting
pub mod Placed
pub mod Undo
use sturm_cpp.Common.{
  ℕ, ltb, Bool, false, not, ◌&&◌, ◌||◌, Option, none, some, List, [], ◌∷◌, ◌++◌, map, reverse,
  if◌then◌else◌, is_elem,
}
use sturm_cpp.Common.Text.{String, ◌<<◌, is_empty}
use sturm_cpp.Transpile.Qir.{
  SourceLocation, is_valid, QOperation, QScope, QReplacement, UncomputeInsertion, QUnit,
}
use sturm_cpp.Transpile.Plugin.{FindRenderFn}
use sturm_cpp.Transpile.Render.{render_uncompute}
use sturm_cpp.Transpile.SourceMap.{SourceManager, format_line_directive}

pub record QSynthesisResult : Type 0 where
  pub insertions : List UncomputeInsertion
  pub replacements : List QReplacement

pub record ExternalCleanup : Type 0 where
  pub close_brace : SourceLocation
  pub text : String

unfoldable pub register_external_cleanup :
    List ExternalCleanup → SourceLocation → String → List ExternalCleanup
register_external_cleanup sink close_brace text =
    if not (is_valid close_brace) || is_empty text
    then sink
    else sink ++ record { close_brace = close_brace; text = text } ∷ []

-- `std::stable_sort` by the start of the statement.
abbrev pub begin_of : QOperation → ℕ
begin_of op = op.stmt_range.begin_loc

unfoldable pub insert_op : QOperation → List QOperation → List QOperation
insert_op op [] = op ∷ []
insert_op op (x ∷ xs) =
    let rest = insert_op op xs in if ltb (begin_of x) (begin_of op) then x ∷ rest else op ∷ x ∷ xs

unfoldable pub stable_sort : List QOperation → List QOperation
unfolding insert_op
stable_sort [] = []
stable_sort (op ∷ ops) = insert_op op (stable_sort ops)

-- A line directive on a line of its own, if there is one.
unfoldable pub directive_at : Option SourceManager → SourceLocation → String
directive_at none loc = ""
directive_at (some sm) loc =
    let line = format_line_directive sm loc in if is_empty line then "" else "\n" << line

unfoldable pub has_override : QOperation → Bool
has_override op = is_valid op.hoist_to_override || is_valid op.insert_before_override

unfoldable pub anchor : SourceLocation → QOperation → SourceLocation
anchor close op =
    if is_valid op.hoist_to_override
    then op.hoist_to_override
    else (if is_valid op.insert_before_override then op.insert_before_override else close)

module _ (sm : Option SourceManager) (registry : Option FindRenderFn) where
  -- The operations that get an insertion.
  unfoldable pub is_emitted : QOperation → Bool
  is_emitted op = not op.skip_uncompute && not (is_empty (render_uncompute op registry))

  unfoldable pub op_insertion : SourceLocation → QOperation → UncomputeInsertion
  unfolding directive_at anchor
  op_insertion close op = record {
    insert_before = anchor close op;
    code = directive_at sm op.stmt_range.begin_loc << render_uncompute op registry;
  }

  -- The walk over the operations, which come reversed.
  unfoldable pub walk_ops : SourceLocation → List QOperation → List UncomputeInsertion
  unfolding is_emitted op_insertion
  walk_ops close [] = []
  walk_ops close (op ∷ ops) =
      let rest = walk_ops close ops in if is_emitted op then op_insertion close op ∷ rest else rest

  unfoldable pub scope_has_close_brace_insertion : List QOperation → Bool
  unfolding is_emitted has_override
  scope_has_close_brace_insertion [] = false
  scope_has_close_brace_insertion (op ∷ ops) =
      is_emitted op && not (has_override op) || scope_has_close_brace_insertion ops

  -- The restoring directive at a closing brace.
  unfoldable pub restore_at : SourceLocation → List UncomputeInsertion
  unfolding directive_at
  restore_at loc =
      if is_empty (directive_at sm loc)
      then []
      else record { insert_before = loc; code = directive_at sm loc } ∷ []

  unfoldable pub scope_insertions : QScope → List UncomputeInsertion
  unfolding walk_ops scope_has_close_brace_insertion restore_at stable_sort
  scope_insertions scope =
      let ops = reverse (stable_sort scope.ops) in
      walk_ops scope.close_brace ops
      ++ (if scope_has_close_brace_insertion ops then restore_at scope.close_brace else [])

  unfoldable pub all_scopes : List QScope → List UncomputeInsertion
  unfolding scope_insertions
  all_scopes [] = []
  all_scopes (scope ∷ scopes) = scope_insertions scope ++ all_scopes scopes

  -- The external records; `seen` has the anchors met so far, `covered` those of the scopes.
  unfoldable pub drain :
      List SourceLocation → List SourceLocation → List ExternalCleanup → List UncomputeInsertion
  unfolding restore_at
  drain covered seen [] = []
  drain covered seen (cu ∷ external) =
      let skipped = drain covered seen external in
      let next = drain covered (cu.close_brace ∷ seen) external in
      let here : UncomputeInsertion = record { insert_before = cu.close_brace; code = cu.text } in
      if not (is_valid cu.close_brace) || is_empty cu.text
      then skipped
      else (if is_elem cu.close_brace seen
          then here ∷ skipped
          else (if is_elem cu.close_brace covered
              then here ∷ next
              else here ∷ (restore_at cu.close_brace ++ next)))

  unfoldable pub synthesize : QUnit → List ExternalCleanup → QSynthesisResult
  unfolding all_scopes drain
  synthesize unit external = record {
    insertions =
        all_scopes unit.scopes
        ++ (unit.raw_insertions ++ drain (map (λ s. s.close_brace) unit.scopes) [] external);
    replacements = unit.replacements;
  }
