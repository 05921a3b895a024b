-- ===== src/Transpile/Emitter.antt =====
-- The emitter, transpiler/src/emitter.cpp. Clang's rewriter is a parameter.
pub mod Order
use sturm_cpp.Common.{◌==◌, ◌≡◌, ◌&&◌, List, [], ◌∷◌, reverse, if◌then◌else◌}
use sturm_cpp.Common.Text.{String, ◌<<◌}
use sturm_cpp.Transpile.Qir.{
  SourceLocation, SourceRange, is_valid, QReplacement, UncomputeInsertion,
}

-- What the emitter uses of clang::Rewriter: text is inserted in front of what was inserted at the
-- same location before, and a replacement leaves the inserted texts alone.
pub record Rewriter (State : Type 0) : Type 0 where
  pub replace_text : SourceRange → String → State → State
  pub insert_text_before : SourceLocation → String → State → State
  pub inserted : State → SourceLocation → String
  pub inserted-insert :
      (loc : SourceLocation) (text : String) (s : State) (at_loc : SourceLocation)
      → inserted (insert_text_before loc text s) at_loc
        ≡ (if loc == at_loc then text << inserted s at_loc else inserted s at_loc)
  pub inserted-replace :
      (range : SourceRange) (text : String) (s : State) (at_loc : SourceLocation)
      → inserted (replace_text range text s) at_loc ≡ inserted s at_loc

module _ {State : Type 0} (rw_ : Rewriter State) where
  unfoldable pub apply_replacements : List QReplacement → State → State
  apply_replacements [] s = s
  apply_replacements (rep ∷ reps) s = apply_replacements reps (
      if is_valid rep.range.begin_loc && is_valid rep.range.end_loc
      then rw_.replace_text rep.range rep.replacement s
      else s)

  unfoldable pub apply_insertions : List UncomputeInsertion → State → State
  apply_insertions [] s = s
  apply_insertions (ins ∷ rest) s = apply_insertions rest (
      if is_valid ins.insert_before then rw_.insert_text_before ins.insert_before ins.code s else s)

  -- The replacements, then the insertions from the last to the first.
  unfoldable pub apply_rewrites : List UncomputeInsertion → List QReplacement → State → State
  unfolding apply_replacements apply_insertions
  apply_rewrites insertions replacements s =
      apply_insertions (reverse insertions) (apply_replacements replacements s)
