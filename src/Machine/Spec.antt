-- ===== src/Machine/Spec.antt =====
-- How a routine is specified: by what the gates that it records make of a basis state, under
-- the active control, and by what it leaves of the pool.
pub mod Sequence
pub mod Gates
pub mod Ancilla
pub mod Lifted
pub mod Routine
pub mod Usable
use sturm_cpp.Common.{
  ℕ, ◌≡◌, Bool, true, false, ◌&&◌, Option, some, List, [], ◌∷◌, if◌then◌else◌, ◌==◌,
}
use sturm_cpp.Core.GateKind.{GateKind, gate_x, gate_y, gate_cx, gate_cy, gate_ccx, gate_swap}
use sturm_cpp.Core.ControlStack.{ControlStack}
use sturm_cpp.Core.Pool.{QubitPool, is_live}
use sturm_cpp.Core.Pool.Laws.{IsSound}
use sturm_cpp.Core.Context.{GateRecord, append}
use sturm_cpp.Circuit.{Bits, flip_if}
use sturm_cpp.Machine.{Machine}

-- A gate on a basis state. Diagonal gates only turn phases; the gates that make superpositions
-- have no such reading, and no routine specified here records one.
unfoldable pub apply_gate : GateKind → ℕ → ℕ → ℕ → Bits → Bits
unfolding flip_if
apply_gate gate_x q0 q1 q2 s = flip_if true q0 s
apply_gate gate_y q0 q1 q2 s = flip_if true q0 s
apply_gate gate_cx q0 q1 q2 s = flip_if (s q0) q1 s
apply_gate gate_cy q0 q1 q2 s = flip_if (s q0) q1 s
apply_gate gate_ccx q0 q1 q2 s = flip_if (s q0 && s q1) q2 s
apply_gate gate_swap q0 q1 q2 s = λ q. if q == q0 then s q1 else if q == q1 then s q0 else s q
apply_gate _ q0 q1 q2 s = s

unfoldable pub apply_records : List GateRecord → Bits → Bits
apply_records [] s = s
apply_records (r ∷ rs) s = apply_records rs (apply_gate r.kind r.q0 r.q1 r.q2 s)

-- The bit of the control, if there is one.
abbrev pub active_on : ControlStack → Bits → Bool
active_on [] s = true
active_on (c ∷ cs) s = s c

-- There is at most one control, and its qubit is in use.
abbrev pub IsControlled : ControlStack → QubitPool → Type 0
IsControlled [] p = Unit
IsControlled (c ∷ []) p = is_live p c ≡ true
IsControlled (c ∷ d ∷ cs) p = ⊥

-- The two states have the same bit of the control.
abbrev pub SameControl : ControlStack → Bits → Bits → Type 0
SameControl [] s s' = Unit
SameControl (c ∷ cs) s s' = s c ≡ s' c

module _ (init : Bits) where
  -- The basis state that the recorded gates have led to.
  unfoldable pub state : Machine → Bits
  state m = apply_records m.ctx.ir init

  -- Whether the gates of a routine act.
  abbrev pub active : Machine → Bool
  active m = active_on m.ctx.control_stack (state m)

  -- A machine on which a routine can be specified: it records its gates, has at most one
  -- control, and the qubits that the pool may hand out are |0>.
  pub record IsReady (m : Machine) : Type 0 where
    pub mode : m.ctx.mode ≡ append
    pub sound : IsSound m.pool
    pub clean : (q : ℕ) → is_live m.pool q ≡ false → state m q ≡ false
    pub controlled : IsControlled m.ctx.control_stack m.pool

  -- A call returned, with the basis state `goal` if the control is active and with no change if
  -- not; it handed back each qubit that it took.
  pub record Effect (m : Machine) (goal : Bits) (result : Option (Unit {0} × Machine))
      : Type 0 where
    pub after : Machine
    pub returns : result ≡ some (tt, after)
    pub ready : IsReady after
    pub same_stack : after.ctx.control_stack ≡ m.ctx.control_stack
    pub same_live : (q : ℕ) → is_live after.pool q ≡ is_live m.pool q
    pub reached : (q : ℕ) → state after q ≡ (if active m then goal q else state m q)
