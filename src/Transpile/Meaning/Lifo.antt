-- ===== src/Transpile/Meaning/Lifo.antt =====
-- Undoing a list of operations from the last to the first.
use mathlib.Core.List
use mathlib.Core.List.{reverse-cons}
use sturm_cpp.Common.{
  ℕ, ◌≡◌, ◌∙◌, refl, sym, ap, false, Option, List, [], ◌∷◌, ◌++◌, reverse, All, if◌then◌else◌,
}
use sturm_cpp.Common.Text.{String, ◌<<◌, append_assoc, nil-append}
use sturm_cpp.Transpile.Qir.{QOperation}
use sturm_cpp.Transpile.Plugin.{FindRenderFn}
use sturm_cpp.Transpile.Render.{render_uncompute}
use sturm_cpp.Transpile.Meaning.Variables.{Store}
use sturm_cpp.Transpile.Meaning.Statements.{Statement, exec, exec_all, forward, forward_all}
use sturm_cpp.Transpile.Meaning.Inverse.{HasInverse, inverse, print_all, CanUndoAll}
use sturm_cpp.Transpile.Meaning.Undo.{undo}
use sturm_cpp.Transpile.Meaning.Printed.{render_uncompute-inverse}

unfoldable pub inverse_all : List QOperation → List Statement
inverse_all [] = []
inverse_all (op ∷ ops) = inverse op ++ inverse_all ops

inverse_all-append :
    (xs ys : List QOperation) → inverse_all (xs ++ ys) ≡ inverse_all xs ++ inverse_all ys
unfolding inverse_all
inverse_all-append [] ys = refl
inverse_all-append (x ∷ xs) ys =
    ap (λ l. inverse x ++ l) (inverse_all-append xs ys)
    ∙ sym (List.append_assoc (inverse x) (inverse_all xs) (inverse_all ys))

print_all-append : (xs ys : List Statement) → print_all (xs ++ ys) ≡ print_all xs << print_all ys
unfolding print_all
print_all-append [] ys = rw nil-append
print_all-append (x ∷ xs) ys = rw (print_all-append xs ys, append_assoc)

-- The texts of the operations that are not skipped, one after the other.
unfoldable pub render_all : Option FindRenderFn → List QOperation → String
render_all registry [] = ""
render_all registry (op ∷ ops) =
    (if op.skip_uncompute then "" else render_uncompute op registry) << render_all registry ops

-- An operation that the pass undoes by statements on bits and numbers.
abbrev pub IsPlain : QOperation → Type 0
IsPlain op = HasInverse op.kind × (op.skip_uncompute ≡ false)

pub render_all-inverse :
    (registry : Option FindRenderFn) (ops : List QOperation)
    → All IsPlain ops
    → render_all registry ops ≡ print_all (inverse_all ops)
unfolding render_all inverse_all
render_all-inverse registry [] h = unfold print_all in refl
render_all-inverse registry (op ∷ ops) h =
    ap (λ b. (if b then "" else render_uncompute op registry) << render_all registry ops) h.0.1
    ∙ rw (render_uncompute-inverse op registry h.0.0, render_all-inverse registry ops h.1)
        (sym (print_all-append (inverse op) (inverse_all ops)))

inverse_all_one : (op : QOperation) → inverse_all (op ∷ []) ≡ inverse op
unfolding inverse_all
inverse_all_one op = List.append-nil (inverse op)

module _ (width constant : String → ℕ) where
  exec_all-append :
      (xs ys : List Statement) (s : Store)
      → exec_all width constant (xs ++ ys) s
        ≡ exec_all width constant ys (exec_all width constant xs s)
  unfolding exec_all
  exec_all-append [] ys s = refl
  exec_all-append (x ∷ xs) ys s = exec_all-append xs ys (exec width constant x s)

  pub undo_all :
      (ops : List QOperation) (s : Store)
      → CanUndoAll width constant ops s
      → exec_all width constant (inverse_all (reverse ops)) (forward_all width constant ops s) ≡ s
  unfolding forward_all
  undo_all [] s h = unfold inverse_all exec_all in refl
  undo_all (op ∷ ops) s h =
      let s' = forward width constant op s in
      ap (λ l. exec_all width constant l (forward_all width constant ops s'))
        (ap inverse_all (reverse-cons op ops) ∙ inverse_all-append (reverse ops) (op ∷ []))
      ∙ exec_all-append (inverse_all (reverse ops)) (inverse_all (op ∷ [])) _
      ∙ ap (exec_all width constant (inverse_all (op ∷ []))) (undo_all ops s' h.1)
      ∙ ap (λ l. exec_all width constant l s') (inverse_all_one op)
      ∙ undo width constant op s h.0
