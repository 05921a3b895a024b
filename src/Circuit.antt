-- ===== src/Circuit.antt =====
-- What reversible gates do to a basis state: the reference semantics of X, CX and CCX, and of a
-- list of them in order.
pub mod Laws
pub mod Register
pub mod Flips
use sturm_cpp.Common.{ℕ, Bool, true, List, [], ◌∷◌, ◌&&◌, ◌==◌, xor, if◌then◌else◌}

-- A basis state: the bit of each qubit.
abbrev pub Bits : Type 0
Bits = ℕ → Bool

unfoldable pub flip_if : Bool → ℕ → Bits → Bits
flip_if b t s q = if q == t then xor b (s q) else s q

-- A statement of a routine on quantum bits: `t.flip()`, `t ^= c` and `t ^= (c0 & c1)`.
pub data Op : Type 0 where
  op_x : ℕ → Op
  op_cx : ℕ → ℕ → Op
  op_ccx : ℕ → ℕ → ℕ → Op

unfoldable pub run_op : Op → Bits → Bits
unfolding flip_if
run_op (op_x t) s = flip_if true t s
run_op (op_cx c t) s = flip_if (s c) t s
run_op (op_ccx c0 c1 t) s = flip_if (s c0 && s c1) t s

unfoldable pub run : List Op → Bits → Bits
run [] s = s
run (o ∷ os) s = run os (run_op o s)

abbrev pub target : Op → ℕ
target (op_x t) = t
target (op_cx c t) = t
target (op_ccx c0 c1 t) = t
