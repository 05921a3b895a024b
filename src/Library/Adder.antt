-- ===== src/Library/Adder.antt =====
-- include/sturm/detail/lib/adder_dsl.hpp and the reverse adder of div_dsl_adj.hpp: in-place
-- addition and subtraction of registers. A register is the list of its qubits, least
-- significant first. The templates are modelled in their instance with `Bit = BitProxy`, that of
-- the in-place operators of qint (qint_arith_v3.hpp), on quantum bits: there `^=` and `flip`, also
-- `c ^= (a & b)`, emit one lifted gate each (Library/Proxies). The instance with `Bit = qbool`,
-- which the comparisons of qint take, is not modelled: its `a & b` takes a further ancilla.
pub mod Ripple
pub mod Sum
pub mod Wires
pub mod Add
pub mod Subtract
pub mod Difference
pub mod Undo
use sturm_cpp.Common.{ℕ, List, [], ◌∷◌, ◌++◌, map}
use sturm_cpp.Circuit.{Op, op_x, op_cx, op_ccx}
use sturm_cpp.Machine.{M, pure, ◌>>=◌, ◌>>◌, allocate, release}
use sturm_cpp.Machine.Emit.{emits}

-- b ^= c; a ^= c; c ^= (a & b)
unfoldable pub maj_dsl : ℕ → ℕ → ℕ → List Op
maj_dsl a b c = op_cx c b ∷ op_cx c a ∷ op_ccx a b c ∷ []

-- c ^= (a & b); a ^= c; b ^= a
unfoldable pub uma_dsl : ℕ → ℕ → ℕ → List Op
uma_dsl a b c = op_ccx a b c ∷ op_cx c a ∷ op_cx a b ∷ []

-- c ^= (a & b); a ^= c; b ^= c
unfoldable pub maj_adj : ℕ → ℕ → ℕ → List Op
maj_adj a b c = op_ccx a b c ∷ op_cx c a ∷ op_cx c b ∷ []

-- b ^= a; a ^= c; c ^= (a & b)
unfoldable pub uma_adj : ℕ → ℕ → ℕ → List Op
uma_adj a b c = op_cx a b ∷ op_cx c a ∷ op_ccx a b c ∷ []

-- The forward loop: `carry`, then each bit of `a`, carries into the next position.
unfoldable pub maj_chain : ℕ → List ℕ → List ℕ → List Op
maj_chain carry (a ∷ xs) (b ∷ ys) = maj_dsl carry b a ++ maj_chain a xs ys
maj_chain carry _ _ = []

-- The backward loop, from the last position down.
unfoldable pub uma_chain : ℕ → List ℕ → List ℕ → List Op
uma_chain carry (a ∷ xs) (b ∷ ys) = uma_chain a xs ys ++ uma_dsl carry b a
uma_chain carry _ _ = []

unfoldable pub uma_adj_chain : ℕ → List ℕ → List ℕ → List Op
uma_adj_chain carry (a ∷ xs) (b ∷ ys) = uma_adj carry b a ++ uma_adj_chain a xs ys
uma_adj_chain carry _ _ = []

unfoldable pub maj_adj_chain : ℕ → List ℕ → List ℕ → List Op
maj_adj_chain carry (a ∷ xs) (b ∷ ys) = maj_adj_chain a xs ys ++ maj_adj carry b a
maj_adj_chain carry _ _ = []

-- a[n - 1], the qubit that holds the last carry.
abbrev pub last_carry : ℕ → List ℕ → ℕ
last_carry carry [] = carry
last_carry carry (a ∷ xs) = last_carry a xs

-- The gates of `lib_add_dsl` between the allocation of `carry_anc` and its release.
unfoldable pub add_ops : ℕ → List ℕ → List ℕ → ℕ → List Op
unfolding maj_chain uma_chain
add_ops carry_anc xs ys carry_out =
    maj_chain carry_anc xs ys
    ++ (op_cx (last_carry carry_anc xs) carry_out ∷ uma_chain carry_anc xs ys)

unfoldable pub lib_add_dsl : List ℕ → List ℕ → ℕ → M (Unit {0})
lib_add_dsl [] ys carry_out = pure tt
lib_add_dsl xs ys carry_out = do
  carry_anc ← allocate
  emits (add_ops carry_anc xs ys carry_out)
  release carry_anc

unfoldable pub flips : List ℕ → List Op
flips = map op_x

unfoldable pub sub_ops : ℕ → List ℕ → List ℕ → ℕ → List Op
unfolding flips maj_chain uma_chain
sub_ops carry_anc xs ys borrow_out =
    op_x carry_anc
    ∷ (flips xs
        ++ (maj_chain carry_anc xs ys
            ++ (op_cx (last_carry carry_anc xs) borrow_out
                ∷ op_x borrow_out
                ∷ (uma_chain carry_anc xs ys ++ (flips xs ++ (op_x carry_anc ∷ []))))))

unfoldable pub lib_sub_dsl : List ℕ → List ℕ → ℕ → M (Unit {0})
lib_sub_dsl [] ys borrow_out = pure tt
lib_sub_dsl xs ys borrow_out = do
  carry_anc ← allocate
  emits (sub_ops carry_anc xs ys borrow_out)
  release carry_anc

unfoldable pub add_adj_ops : ℕ → List ℕ → List ℕ → ℕ → List Op
unfolding uma_adj_chain maj_adj_chain
add_adj_ops carry_anc xs ys carry_out =
    uma_adj_chain carry_anc xs ys
    ++ (op_cx (last_carry carry_anc xs) carry_out ∷ maj_adj_chain carry_anc xs ys)

unfoldable pub lib_add_adj : List ℕ → List ℕ → ℕ → M (Unit {0})
lib_add_adj [] ys carry_out = pure tt
lib_add_adj xs ys carry_out = do
  carry_anc ← allocate
  emits (add_adj_ops carry_anc xs ys carry_out)
  release carry_anc
