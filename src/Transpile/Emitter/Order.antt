-- ===== src/Transpile/Emitter/Order.antt =====
-- Where the inserted texts end up.
use mathlib.Core.List.{reverse-cons}
use sturm_cpp.Common.{
  ◌==◌, ◌≡◌, ◌∙◌, refl, ap, true, List, [], ◌∷◌, ◌++◌, reverse, if◌then◌else◌, arith,
}
use sturm_cpp.Common.Text.{String, ◌<<◌, append_assoc, nil-append}
use sturm_cpp.Transpile.Qir.{SourceLocation, is_valid, QReplacement, UncomputeInsertion}
use sturm_cpp.Transpile.Emitter.{Rewriter, apply_replacements, apply_insertions, apply_rewrites}

-- The texts of the insertions at a location, in the order of the list.
unfoldable pub text_at : SourceLocation → List UncomputeInsertion → String
text_at loc [] = ""
text_at loc (ins ∷ rest) =
    if ins.insert_before == loc then ins.code << text_at loc rest else text_at loc rest

module _ {State : Type 0} (r : Rewriter State) where
  apply_insertions-append :
      (xs ys : List UncomputeInsertion) (s : State)
      → apply_insertions r (xs ++ ys) s ≡ apply_insertions r ys (apply_insertions r xs s)
  unfolding apply_insertions
  apply_insertions-append [] ys s = refl
  apply_insertions-append (x ∷ xs) ys s = apply_insertions-append xs ys _

  inserted-apply_replacements :
      (reps : List QReplacement) (s : State) (loc : SourceLocation)
      → r.inserted (apply_replacements r reps s) loc ≡ r.inserted s loc
  unfolding apply_replacements
  inserted-apply_replacements [] s loc = refl
  inserted-apply_replacements (rep ∷ reps) s loc =
      inserted-apply_replacements reps _ loc
      ∙ ground (arith, r.inserted-replace rep.range rep.replacement s loc)

  inserted-apply_insertions :
      (is : List UncomputeInsertion) (s : State) (loc : SourceLocation)
      → is_valid loc ≡ true
      → r.inserted (apply_insertions r (reverse is) s) loc ≡ text_at loc is << r.inserted s loc
  unfolding apply_insertions text_at
  inserted-apply_insertions [] s loc v = rw nil-append
  inserted-apply_insertions (i ∷ is) s loc v =
      let before = apply_insertions r (reverse is) s in
      ap (λ l. r.inserted (apply_insertions r l s) loc) (reverse-cons i is)
      ∙ ap (λ t. r.inserted t loc) (apply_insertions-append (reverse is) (i ∷ []) s)
      ∙ ground (
        arith,
        r.inserted-insert i.insert_before i.code before loc,
        inserted-apply_insertions is s loc v,
        append_assoc i.code (text_at loc is) (r.inserted s loc),
      )

  -- The texts that apply_rewrites puts at a valid location stand there in the order of the list of
  -- insertions, in front of what stood there before; replacements change nothing of that.
  pub apply_rewrites-order :
      (insertions : List UncomputeInsertion) (replacements : List QReplacement) (s : State)
      (loc : SourceLocation)
      → is_valid loc ≡ true
      → r.inserted (apply_rewrites r insertions replacements s) loc
        ≡ text_at loc insertions << r.inserted s loc
  unfolding apply_rewrites
  apply_rewrites-order insertions replacements s loc v =
      inserted-apply_insertions insertions (apply_replacements r replacements s) loc v
      ∙ ap (λ t. text_at loc insertions << t) (inserted-apply_replacements replacements s loc)
