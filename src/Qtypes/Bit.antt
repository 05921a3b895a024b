-- ===== src/Qtypes/Bit.antt =====
-- include/sturm/detail/qtypes/bit_proxy.hpp: one bit of a qint or a qbool. A proxy reads and
-- writes its own bit of the parent's mask and value only, so that a bit carries these itself.
-- With a context, `detail::current_control` is not null exactly when the control stack is not
-- empty, since `WhenGuard` sets both (Qtypes/When/Nesting).
pub mod Folding
pub mod Promotion
pub mod Disjunction
use sturm_cpp.Common.{ℕ, Bool, true, false, ◌&&◌, ◌||◌, Option, none, some, [], ◌∷◌, if◌then◌else◌}
use sturm_cpp.Machine.{Machine, M, pure, ◌>>=◌, ◌>>◌, allocate, primitive_xor, primitive_and}
use sturm_cpp.Machine.Emit.{emit_x_lifted, emit_cx_lifted, emit_ccx_lifted}

pub record BitProxy : Type 0 where
  pub qubit_index : Option ℕ  -- `none` is an index below 0
  pub superposed : Bool  -- the bit of super_mask
  pub bit_value : Bool

unfoldable pub is_quantum : BitProxy → Bool
is_quantum b = elim b.qubit_index [ none ↦ false | some q ↦ true ]

unfoldable pub set_bit_value : Bool → BitProxy → BitProxy
set_bit_value v b = record b { bit_value = v }

-- `current_control != nullptr`
unfoldable pub has_control : Machine → Bool
has_control m = elim m.ctx.control_stack [ [] ↦ false | c ∷ cs ↦ true ]

-- The bit after the call, and its qubit.
unfoldable pub ensure_quantum : BitProxy → M (BitProxy × ℕ)
ensure_quantum b = elim b.qubit_index [
  | some q ↦ pure (b, q)
  | none ↦ do
    q ← allocate
    if b.bit_value then emit_x_lifted q else pure tt
    pure (record b { qubit_index = some q; superposed = true }, q)
]

-- `ensure_quantum` and one lifted gate on the bit.
abbrev pub promote_and : BitProxy → (ℕ → M (Unit {0})) → M BitProxy
promote_and b emit_on = ensure_quantum b >>= λ promoted. emit_on promoted.1 >> pure promoted.0

-- `emit_X_lifted` on a bit that is quantum or under a control; no gate on a classical bit.
abbrev pub flip_quantum : BitProxy → M BitProxy
flip_quantum b m = if is_quantum b || has_control m then promote_and b emit_x_lifted m else pure b m

unfoldable pub flip : BitProxy → M BitProxy
unfolding ensure_quantum is_quantum has_control
flip b = flip_quantum b

-- `*this ^= other`
unfoldable pub xor_assign : BitProxy → BitProxy → M BitProxy
unfolding ensure_quantum is_quantum has_control
xor_assign b other = elim other.qubit_index [
  | some q ↦ promote_and b (emit_cx_lifted q)
  | none ↦ if other.bit_value then flip_quantum b else pure b
]

-- `*this ^= (a & b)`
unfoldable pub xor_assign_and : BitProxy → BitProxy → BitProxy → M BitProxy
unfolding ensure_quantum is_quantum has_control
xor_assign_and b x y = elim x.qubit_index [
  | some qx ↦ elim y.qubit_index [
    | some qy ↦ promote_and b (emit_ccx_lifted qx qy)
    | none ↦ if y.bit_value then promote_and b (emit_cx_lifted qx) else pure b
  ]
  | none ↦ elim y.qubit_index [
    | some qy ↦ if x.bit_value then promote_and b (emit_cx_lifted qy) else pure b
    | none ↦ if x.bit_value && y.bit_value then flip_quantum b else pure b
  ]
]

-- `*this ^= (a | b)`
unfoldable pub xor_assign_or : BitProxy → BitProxy → BitProxy → M BitProxy
unfolding xor_assign xor_assign_and
xor_assign_or b x y = xor_assign b x >>= λ b1. xor_assign b1 y >>= λ b2. xor_assign_and b2 x y

-- The statements of `materialize_or` that write one operand into the ancilla.
unfoldable pub write_bit : BitProxy → ℕ → M (Unit {0})
write_bit x anc = elim x.qubit_index [
  | some q ↦ primitive_xor q anc
  | none ↦ if x.bit_value then emit_x_lifted anc else pure tt
]

-- The chain of conditions that writes the conjunction into the ancilla.
unfoldable pub write_and : BitProxy → BitProxy → ℕ → M (Unit {0})
write_and x y anc = elim x.qubit_index [
  | some qx ↦ elim y.qubit_index [
    | some qy ↦ primitive_and qx qy anc
    | none ↦ if y.bit_value then primitive_xor qx anc else pure tt
  ]
  | none ↦ elim y.qubit_index [
    | some qy ↦ if x.bit_value then primitive_xor qy anc else pure tt
    | none ↦ if x.bit_value && y.bit_value then emit_x_lifted anc else pure tt
  ]
]

-- The owning result: its ancilla, marked as superposed, its value 0.
abbrev pub owning : ℕ → BitProxy
owning anc = record { qubit_index = some anc; superposed = true; bit_value = false }

unfoldable pub materialize_and : BitProxy → BitProxy → M BitProxy
unfolding write_and
materialize_and x y = do anc ← allocate; write_and x y anc; pure (owning anc)

unfoldable pub materialize_or : BitProxy → BitProxy → M BitProxy
unfolding write_bit write_and
materialize_or x y = do
  anc ← allocate
  write_bit x anc
  write_bit y anc
  write_and x y anc
  pure (owning anc)
