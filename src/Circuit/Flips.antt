-- ===== src/Circuit/Flips.antt =====
-- Flipping a register, and a flip that no other gate sees.
use native.Mathlib.Nat.{pow-suc}
use sturm_cpp.Common.{
  ℕ, ◌+◌, ◌^◌, ◌≡◌, ◌≢◌, refl, ap, ◌∙◌, fun_ext, arith, true, not, List, [], ◌∷◌, map,
}
use sturm_cpp.Common.{All, IsFresh, IsDistinct, is_elem, IsFresh→is_elem, length, if◌then◌else◌}
use sturm_cpp.Circuit.{Bits, Op, op_x, op_cx, op_ccx, flip_if, run_op, run}
use sturm_cpp.Circuit.Laws.{Uses}
use sturm_cpp.Circuit.Register.{value, AgreeOn, value-congr}

-- The state with the listed qubits flipped.
abbrev pub negate : List ℕ → Bits → Bits
negate xs s q = if is_elem q xs then not (s q) else s q

pub run-map-op_x :
    (xs : List ℕ) (s : Bits) → IsDistinct xs → (q : ℕ) → run (map op_x xs) s q ≡ negate xs s q
unfolding run run_op flip_if
run-map-op_x [] s d q = refl
run-map-op_x (x ∷ xs) s d q =
    ground (arith, run-map-op_x xs (flip_if true x s) d.1 q, IsFresh→is_elem x xs d.0)

negate-tail :
    (x : ℕ) (xs : List ℕ) (s : Bits) (qs : List ℕ)
    → IsFresh x qs
    → AgreeOn (negate (x ∷ xs) s) (negate xs s) qs
negate-tail x xs s [] f = tt
negate-tail x xs s (q ∷ qs) f = (ground arith, negate-tail x xs s qs f.1)

-- The complement of a register.
pub value-negate :
    (xs : List ℕ) (s : Bits)
    → IsDistinct xs
    → value (negate xs s) xs + value s xs + 1 ≡ 2 ^ length xs
value-negate [] s d = ground arith
value-negate (x ∷ xs) s d = ground (
  arith,
  pow-suc 2 (length xs),
  value-congr (negate (x ∷ xs) s) (negate xs s) xs (negate-tail x xs s xs d.0),
  value-negate xs s d.1,
)

flip-run_op :
    (t : ℕ) (o : Op) (s : Bits)
    → Uses (λ q. q ≢ t) o
    → run_op o (flip_if true t s) ≡ flip_if true t (run_op o s)
unfolding run_op flip_if
flip-run_op t (op_x u) s h = fun_ext λ q. ground arith
flip-run_op t (op_cx c u) s h = fun_ext λ q. ground arith
flip-run_op t (op_ccx c0 c1 u) s h = fun_ext λ q. ground arith

-- Gates on other qubits leave a flip where it is.
pub flip-run :
    (t : ℕ) (os : List Op) (s : Bits)
    → All (Uses (λ q. q ≢ t)) os
    → run os (flip_if true t s) ≡ flip_if true t (run os s)
unfolding run
flip-run t [] s h = refl
flip-run t (o ∷ os) s h = ap (run os) (flip-run_op t o s h.0) ∙ flip-run t os (run_op o s) h.1
