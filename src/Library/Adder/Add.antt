-- ===== src/Library/Adder/Add.antt =====
-- What `lib_add_dsl` performs.
use sturm_cpp.Common.{
  ℕ, ◌+◌, ◌%◌, ◌^◌, ◌≡◌, ◌≢◌, refl, ap, ◌∙◌, wrap_sum, arith, Bool, false, not, List, [], ◌∷◌, All,
  ltb,
}
use sturm_cpp.Common.{IsFresh, IsDistinct, length, xor}
use sturm_cpp.Circuit.{Bits}
use sturm_cpp.Circuit.Register.{value, value-lt}
use sturm_cpp.Machine.{Machine}
use sturm_cpp.Machine.Spec.{state, IsReady}
use sturm_cpp.Machine.Spec.Sequence.{Effect-pure}
use sturm_cpp.Machine.Spec.Usable.{IsUsable, Performs, Performs-routine}
use sturm_cpp.Library.Adder.{add_ops, lib_add_dsl}
use sturm_cpp.Library.Adder.Ripple.{majority, wires, ripple, ripple-frame, add_ops-ripple}
use sturm_cpp.Library.Adder.Sum.{carry, ripple-out, ripple-sum}
use sturm_cpp.Library.Adder.Wires.{add_ops-Uses}

-- The operands of an adder: two registers of one width and a carry qubit, all different, in
-- use, and none of them the active control.
pub record CanAdd (m : Machine) (xs ys : List ℕ) (out : ℕ) : Type 0 where
  pub same_width : length xs ≡ length ys
  pub distinct : IsDistinct (out ∷ wires xs ys)
  pub usable : All (IsUsable m) (out ∷ wires xs ys)

-- `s'` is `s` with `ys` increased by `xs` modulo its width, the overflow added to `out`.
pub record Adds (xs ys : List ℕ) (out : ℕ) (s s' : Bits) : Type 0 where
  pub sum : value s' ys ≡ (value s xs + value s ys) % 2 ^ length ys
  pub overflow : s' out ≡ xor (not (ltb (value s xs + value s ys) (2 ^ length ys))) (s out)
  pub others : (q : ℕ) → IsFresh q ys → q ≢ out → s' q ≡ s q

pub ripple-others :
    (c : Bool) (xs ys : List ℕ) (out : ℕ) (s : Bits) (q : ℕ)
    → IsFresh q ys
    → q ≢ out
    → ripple c xs ys out s q ≡ s q
ripple-others c [] ys out s q f ne = ground arith
ripple-others c (a ∷ xs) [] out s q f ne = ground arith
ripple-others c (a ∷ xs) (b ∷ ys) out s q f ne =
    ground (arith, ripple-others (majority c (s a) (s b)) xs ys out s q f.1 ne)

pub ripple-Adds :
    (xs ys : List ℕ) (out : ℕ) (s : Bits)
    → length xs ≡ length ys
    → IsDistinct (out ∷ wires xs ys)
    → Adds xs ys out s (ripple false xs ys out s)
ripple-Adds xs ys out s e d = record {
  sum = sum.0;
  overflow = ground (arith, ripple-out false xs ys out s d.0, sum.1);
  others = λ q f ne. ripple-others false xs ys out s q f ne;
}
  where
    sum :
        (value (ripple false xs ys out s) ys ≡ (value s xs + value s ys) % 2 ^ length ys)
        × (carry false xs ys s ≡ not (ltb (value s xs + value s ys) (2 ^ length ys)))
    sum =
        wrap_sum (value (ripple false xs ys out s) ys) (2 ^ length ys) (value s xs + value s ys)
          (carry false xs ys s) (value-lt (ripple false xs ys out s) ys)
          (omega (arith, ripple-sum false xs ys out s e d.1))

pub empty-Adds : (ys : List ℕ) (out : ℕ) (s : Bits) → 0 ≡ length ys → Adds [] ys out s s
empty-Adds [] out s e = record {
  sum = omega arith;
  overflow = ground arith;
  others = λ q f ne. refl;
}
empty-Adds (y ∷ ys) out s e = absurd (omega arith)

-- On a machine that records its gates, `lib_add_dsl<BitProxy>` on usable quantum operands returns,
-- hands back its ancilla, and if the active control is |1> or there is none it adds `a` to `b` modulo 2^n and
-- the overflow to `carry_out`; under a control that is |0> it changes no qubit.
pub lib_add_dsl-Adds :
    (init : Bits) (m : Machine) (xs ys : List ℕ) (carry_out : ℕ)
    → IsReady init m
    → CanAdd m xs ys carry_out
    → Performs init m (Adds xs ys carry_out) (lib_add_dsl xs ys carry_out m)
unfolding lib_add_dsl
lib_add_dsl-Adds init m [] ys out ready can = record {
  goal = state init m;
  effect = Effect-pure init m ready;
  meets = empty-Adds ys out (state init m) can.same_width;
}
lib_add_dsl-Adds init m (x ∷ xs) ys out ready can =
    Performs-routine init m (Adds (x ∷ xs) ys out) (λ i. add_ops i (x ∷ xs) ys out)
      (out ∷ wires (x ∷ xs) ys) (ripple false (x ∷ xs) ys out (state init m)) ready can.usable
      (λ i P f all.
        add_ops-Uses P i (x ∷ xs) ys out can.same_width all.1.0
          ((all.0, all.1.1), (f.1, can.distinct.1)) f.0 can.distinct.0)
      (λ i f zero. (
        λ q.
            add_ops-ripple i (x ∷ xs) ys out (state init m) (f, can.distinct) can.same_width q
            ∙ ap (λ c. ripple c (x ∷ xs) ys out (state init m) q) zero,
        ripple-frame false (x ∷ xs) ys out (state init m) i f.0 f.1 ∙ zero,
      ))
      (ripple-Adds (x ∷ xs) ys out (state init m) can.same_width can.distinct)
