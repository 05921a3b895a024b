-- ===== src/Library/Logic.antt =====
-- include/sturm/detail/lib/logic_dsl.hpp, and the swap of swap_dsl.hpp on proxies or under a
-- control. The templates are modelled in their instance with `Bit = BitProxy` on quantum bits,
-- where `^=` and `flip`, also `c ^= (a & b)`, emit one lifted gate each (Library/Proxies); not in
-- that with `Bit = qbool`, whose `a & b` takes a further ancilla.
use sturm_cpp.Common.{
  ℕ, ◌≡◌, ◌≢◌, sym, arith, Bool, not, ◌&&◌, ◌||◌, List, [], ◌∷◌, All, xor, if◌then◌else◌, ◌==◌,
  IsDistinct,
}
use sturm_cpp.Circuit.{Bits, Op, op_x, op_cx, op_ccx, run, run_op, flip_if}
use sturm_cpp.Circuit.Laws.{Uses}
use sturm_cpp.Machine.{Machine}
use sturm_cpp.Machine.Emit.{emits}
use sturm_cpp.Machine.Spec.{state, IsReady}
use sturm_cpp.Machine.Spec.Usable.{IsUsable, Performs, Performs-emits}

unfoldable pub lib_or_dsl : ℕ → ℕ → ℕ → List Op
lib_or_dsl a b c = op_cx a c ∷ op_cx b c ∷ op_ccx a b c ∷ []

unfoldable pub lib_or_dsl_adj : ℕ → ℕ → ℕ → List Op
lib_or_dsl_adj a b c = op_ccx a b c ∷ op_cx b c ∷ op_cx a c ∷ []

unfoldable pub lib_nand_dsl : ℕ → ℕ → ℕ → List Op
lib_nand_dsl a b c = op_ccx a b c ∷ op_x c ∷ []

unfoldable pub lib_nor_dsl : ℕ → ℕ → ℕ → List Op
lib_nor_dsl a b c = op_x a ∷ op_x b ∷ op_ccx a b c ∷ op_x b ∷ op_x a ∷ []

unfoldable pub lib_xnor_dsl : ℕ → ℕ → ℕ → List Op
lib_xnor_dsl a b c = op_cx a c ∷ op_cx b c ∷ op_x c ∷ []

unfoldable pub lib_swap_dsl : ℕ → ℕ → List Op
lib_swap_dsl a b = op_cx b a ∷ op_cx a b ∷ op_cx b a ∷ []

-- The routines of two operands and a target, and their truth functions.
pub data LogicGate : Type 0 where
  or_gate or_adj_gate nand_gate nor_gate xnor_gate : LogicGate

abbrev pub gates_of : LogicGate → ℕ → ℕ → ℕ → List Op
gates_of or_gate = lib_or_dsl
gates_of or_adj_gate = lib_or_dsl_adj
gates_of nand_gate = lib_nand_dsl
gates_of nor_gate = lib_nor_dsl
gates_of xnor_gate = lib_xnor_dsl

abbrev pub truth : LogicGate → Bool → Bool → Bool
truth or_gate x y = x || y
truth or_adj_gate x y = x || y
truth nand_gate x y = not (x && y)
truth nor_gate x y = not (x || y)
truth xnor_gate x y = not (xor x y)

-- `s'` is `s` with the value of the truth function added to `c`.
abbrev pub AddsTruth : LogicGate → ℕ → ℕ → ℕ → Bits → Bits → Type 0
AddsTruth g a b c s s' = (q : ℕ) → s' q ≡ (if q == c then xor (truth g (s a) (s b)) (s q) else s q)

run-gates_of :
    (g : LogicGate) (a b c : ℕ) (s : Bits)
    → IsDistinct (a ∷ b ∷ c ∷ [])
    → AddsTruth g a b c s (run (gates_of g a b c) s)
unfolding run run_op flip_if lib_or_dsl lib_or_dsl_adj lib_nand_dsl lib_nor_dsl lib_xnor_dsl
run-gates_of or_gate a b c s d q = ground arith
run-gates_of or_adj_gate a b c s d q = ground arith
run-gates_of nand_gate a b c s d q = ground arith
run-gates_of nor_gate a b c s d q = ground arith
run-gates_of xnor_gate a b c s d q = ground arith

gates_of-Uses :
    (P : ℕ → Type 0) (g : LogicGate) (a b c : ℕ)
    → All P (a ∷ b ∷ c ∷ [])
    → IsDistinct (a ∷ b ∷ c ∷ [])
    → All (Uses P) (gates_of g a b c)
unfolding lib_or_dsl lib_or_dsl_adj lib_nand_dsl lib_nor_dsl lib_xnor_dsl
gates_of-Uses P or_gate a b c (pa, (pb, (pc, u))) d =
    ((pa, pc, d.0.1.0), ((pb, pc, d.1.0.0), ((pa, pb, pc, d.0.1.0, d.1.0.0), tt)))
gates_of-Uses P or_adj_gate a b c (pa, (pb, (pc, u))) d =
    ((pa, pb, pc, d.0.1.0, d.1.0.0), ((pb, pc, d.1.0.0), ((pa, pc, d.0.1.0), tt)))
gates_of-Uses P nand_gate a b c (pa, (pb, (pc, u))) d = ((pa, pb, pc, d.0.1.0, d.1.0.0), (pc, tt))
gates_of-Uses P nor_gate a b c (pa, (pb, (pc, u))) d =
    (pa, (pb, ((pa, pb, pc, d.0.1.0, d.1.0.0), (pb, (pa, tt)))))
gates_of-Uses P xnor_gate a b c (pa, (pb, (pc, u))) d =
    ((pa, pc, d.0.1.0), ((pb, pc, d.1.0.0), (pc, tt)))

-- On a machine that records its gates, OR, its adjoint, NAND, NOR and XNOR, each in its instance
-- with `Bit = BitProxy`, on proxies of three different usable qubits return, hand back each qubit that they took, and if the active control is |1> or
-- there is none they add the value of their truth function to the third qubit and change no
-- other; under a control that is |0> they change no qubit.
pub logic-Performs :
    (init : Bits) (m : Machine) (g : LogicGate) (a b c : ℕ)
    → IsReady init m
    → All (IsUsable m) (a ∷ b ∷ c ∷ [])
    → IsDistinct (a ∷ b ∷ c ∷ [])
    → Performs init m (AddsTruth g a b c) (emits (gates_of g a b c) m)
logic-Performs init m g a b c ready usable d =
    Performs-emits init m (AddsTruth g a b c) (gates_of g a b c) ready
      (gates_of-Uses (IsUsable m) g a b c usable d) (run-gates_of g a b c (state init m) d)

-- Under an active control, or on proxies, `lib_swap_dsl` on two different usable qubits exchanges
-- their bits and changes no other; under a control that is |0> it changes no qubit.
pub lib_swap_dsl-Exchanges :
    (init : Bits) (m : Machine) (a b : ℕ)
    → IsReady init m
    → All (IsUsable m) (a ∷ b ∷ [])
    → a ≢ b
    → Performs init m
        (λ s s'. (q : ℕ) → s' q ≡ (if q == a then s b else if q == b then s a else s q))
        (emits (lib_swap_dsl a b) m)
unfolding lib_swap_dsl
lib_swap_dsl-Exchanges init m a b ready (ua, (ub, u)) ne =
    Performs-emits init m _ (op_cx b a ∷ op_cx a b ∷ op_cx b a ∷ []) ready
      ((ub, ua, λ e. ne (sym e)), ((ua, ub, ne), ((ub, ua, λ e. ne (sym e)), tt)))
      (λ q. unfold run run_op flip_if in ground arith)
