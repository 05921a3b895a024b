-- ===== src/Qtypes/When/Nesting.antt =====
-- Nested WHEN blocks and the control that the statements inside them see.

use sturm_cpp.Common.{
  ℕ, ◌≡◌, ◌∙◌, ap, refl, Bool, true, false, Option, none, some, List, [], ◌∷◌, ◌++◌, if◌then◌else◌,
}
use sturm_cpp.Core.ControlStack.{ControlStack, push_control, pop_control}
use sturm_cpp.Qtypes.When.{
  Controls, WhenGuard, Condition, superposed, classical, pop_outer, push_outer, enter_stack,
  leave_stack, guarded_by, unguarded, when_begin, when_end, restored_stack,
}

-- The controls of a thread whose active control is the given one, with or without a context: the
-- pointer, the cached qubit and the stack agree, and the stack has at most one entry.
abbrev pub stack_of : Option ℕ → ControlStack
stack_of none = []
stack_of (some q) = q ∷ []

abbrev pub pointer_of : Option ℕ → Option (Option ℕ)
pointer_of none = none
pointer_of (some q) = some (some q)

abbrev pub controls : Bool → Option ℕ → Controls
controls has_context active = record {
  current_control = pointer_of active;
  current_control_qubit = active;
  stack = if has_context then some (stack_of active) else none;
}

-- Statements and WHEN blocks; the rest of the code comes last.
pub data WhenCode : Type 0 where
  done : WhenCode
  statement : ℕ → WhenCode → WhenCode
  when : Condition → WhenCode → WhenCode → WhenCode

-- A statement that was run, with the controls at that time.
abbrev pub Trace : Type 0
Trace = List (ℕ × Controls)

-- What a piece of code does to the controls; `none` is a failed assert.
abbrev pub Code : Type 0
Code = Controls → Option (Trace × Controls)

abbrev leave : WhenGuard → Option (Trace × Controls) → Option (Trace × Controls)
leave g none = none
leave g (some (t, c)) = elim (when_end g c) [ none ↦ none | some c' ↦ some (t, c') ]

-- The WHEN macro: the guard, the body where it should run, the destructor.
unfoldable pub when_block : Condition → Code → Code
unfolding when_begin when_end
when_block cond body c = elim (when_begin cond c) [
  | none ↦ none
  | some (g, inside) ↦ leave g (if g.run then body inside else some ([], inside))
]

abbrev log : Trace → Option (Trace × Controls) → Option (Trace × Controls)
log t none = none
log t (some (u, c)) = some (t ++ u, c)

abbrev and_then : Code → Option (Trace × Controls) → Option (Trace × Controls)
and_then rest none = none
and_then rest (some (t, c)) = log t (rest c)

unfoldable pub run : WhenCode → Code
unfolding when_block
run done c = some ([], c)
run (statement n rest) c = log ((n, c) ∷ []) (run rest c)
run (when cond body rest) c = and_then (run rest) (when_block cond (run body) c)

-- The statements that should run, each with the control of the innermost superposed condition
-- around it, or with the control of before.
unfoldable pub expected : Bool → Option ℕ → WhenCode → Trace
expected has_context active done = []
expected has_context active (statement n rest) =
    (n, controls has_context active) ∷ expected has_context active rest
expected has_context active (when (superposed q) body rest) =
    expected has_context (some q) body ++ expected has_context active rest
expected has_context active (when (classical b) body rest) =
    (if b then expected has_context active body else []) ++ expected has_context active rest

superposed_block :
    (q : ℕ) (body : Code) (has_context : Bool) (active : Option ℕ) (t : Trace)
    → body (controls has_context (some q)) ≡ some (t, controls has_context (some q))
    → when_block (superposed q) body (controls has_context active)
      ≡ some (t, controls has_context active)
unfolding when_block when_begin when_end restored_stack enter_stack leave_stack pop_outer push_outer
    pop_control push_control
superposed_block q body true none t e = ap (leave (guarded_by (controls true none) true)) e
superposed_block q body true (some p) t e = ap (leave (guarded_by (controls true (some p)) true)) e
superposed_block q body false none t e = ap (leave (guarded_by (controls false none) false)) e
superposed_block q body false (some p) t e =
    ap (leave (guarded_by (controls false (some p)) false)) e

classical_block :
    (b : Bool) (body : Code) (c : Controls) (t : Trace)
    → body c ≡ some (t, c)
    → when_block (classical b) body c ≡ some (if b then t else [], c)
unfolding when_block when_begin when_end
classical_block true body c t e = ap (leave (unguarded true)) e
classical_block false body c t e = refl

-- Code with WHEN blocks in it, however deep they nest, started with at most one control, which
-- pointer, cached qubit and stack agree on, with or without a context: no assert fails, the
-- statements outside blocks with a classical 0 run in order, each with the qubit of the innermost
-- superposed condition around it as its one control, and the controls of before are restored.
pub run-nested :
    (code : WhenCode) (has_context : Bool) (active : Option ℕ)
    → run code (controls has_context active)
      ≡ some (expected has_context active code, controls has_context active)
unfolding run expected
run-nested done has_context active = refl
run-nested (statement n rest) has_context active =
    ap (log ((n, controls has_context active) ∷ [])) (run-nested rest has_context active)
run-nested (when (superposed q) body rest) has_context active =
    ap (and_then (run rest))
      (superposed_block q (run body) has_context active _ (run-nested body has_context (some q)))
    ∙ ap (log (expected has_context (some q) body)) (run-nested rest has_context active)
run-nested (when (classical b) body rest) has_context active =
    ap (and_then (run rest)) (
      classical_block b (run body) (controls has_context active) _
        (run-nested body has_context active))
    ∙ ap (log (if b then expected has_context active body else []))
        (run-nested rest has_context active)
