-- ===== src/Qtypes/When.antt =====
-- include/sturm/control/when.hpp and when_fwd.hpp: the guard of a WHEN block, which makes its
-- qubit the one control of the thread and gives the old one back at the end of the block. `none`
-- is a failed `assert` of the control stack.
pub mod Nesting
use sturm_cpp.Common.{ℕ, Bool, true, false, Option, none, some, [], ◌∷◌, if◌then◌else◌}
use sturm_cpp.Core.ControlStack.{ControlStack, push_control, pop_control}

-- The state of the thread: `detail::current_control` with the qubit of the qbool that it points
-- to, `detail::current_control_qubit`, and the control stack of the context, if one is installed.
pub record Controls : Type 0 where
  pub current_control : Option (Option ℕ)  -- null, or the index of the qbool's qubit
  pub current_control_qubit : Option ℕ  -- `none` is -1
  pub stack : Option ControlStack

pub record WhenGuard : Type 0 where
  pub run : Bool
  pub modified_tls : Bool
  pub prev_control : Option (Option ℕ)
  pub prev_control_qubit : Option ℕ
  pub pushed_to_ctx_stack : Bool

-- The constructor, on a superposed condition with the qubit `q` after `ensure_qubit`, or on a
-- classical one.
pub data Condition : Type 0 where
  superposed : ℕ → Condition
  classical : Bool → Condition

-- The qubit of the outer control, if it has one.
abbrev outer_qubit : Option (Option ℕ) → Option ℕ
outer_qubit none = none
outer_qubit (some q) = q

unfoldable pub pop_outer : Option ℕ → ControlStack → Option ControlStack
pop_outer none s = some s
pop_outer (some q) s = pop_control s

unfoldable pub push_outer : Option ℕ → ControlStack → Option ControlStack
push_outer none s = some s
push_outer (some q) s = push_control q s

-- The stack with the qubit `q` in place of the outer control.
unfoldable pub enter_stack : Option (Option ℕ) → ℕ → ControlStack → Option ControlStack
unfolding pop_outer
enter_stack prev q s = elim (pop_outer (outer_qubit prev) s) [
  | none ↦ none
  | some popped ↦ push_control q popped
]

-- The stack with the outer control in place of the one on top.
unfoldable pub leave_stack : Option (Option ℕ) → ControlStack → Option ControlStack
unfolding push_outer
leave_stack prev s = elim (pop_control s) [
  | none ↦ none
  | some popped ↦ push_outer (outer_qubit prev) popped
]

abbrev pub guarded_by : Controls → Bool → WhenGuard
guarded_by c pushed = record {
  run = true;
  modified_tls = true;
  prev_control = c.current_control;
  prev_control_qubit = c.current_control_qubit;
  pushed_to_ctx_stack = pushed;
}

abbrev pub unguarded : Bool → WhenGuard
unguarded b = record {
  run = b;
  modified_tls = false;
  prev_control = none;
  prev_control_qubit = none;
  pushed_to_ctx_stack = false;
}

abbrev controlled_by : ℕ → Option ControlStack → Controls
controlled_by q stack = record {
  current_control = some (some q);
  current_control_qubit = some q;
  stack = stack;
}

unfoldable pub when_begin : Condition → Controls → Option (WhenGuard × Controls)
unfolding enter_stack
when_begin (superposed q) c = elim c.stack [
  | none ↦ some (guarded_by c false, controlled_by q none)
  | some s ↦ elim (enter_stack c.current_control q s) [
    | none ↦ none
    | some s' ↦ some (guarded_by c true, controlled_by q (some s'))
  ]
]
when_begin (classical b) c = some (unguarded b, c)

-- The stack after the destructor, `none` for a failed assert.
unfoldable pub restored_stack : WhenGuard → Option ControlStack → Option (Option ControlStack)
unfolding leave_stack
restored_stack g none = some none
restored_stack g (some s) =
    if g.pushed_to_ctx_stack
    then elim (leave_stack g.prev_control s) [ none ↦ none | some s' ↦ some (some s') ]
    else some (some s)

-- The destructor.
unfoldable pub when_end : WhenGuard → Controls → Option Controls
unfolding restored_stack
when_end g c =
    if g.modified_tls
    then elim (restored_stack g c.stack) [
      | none ↦ none
      | some stack ↦ some (record {
        current_control = g.prev_control;
        current_control_qubit = g.prev_control_qubit;
        stack = stack;
      })
    ]
    else some c
