-- ===== src/Library/Adder/Difference.antt =====
-- What `lib_sub_dsl` performs.
use sturm_cpp.Common.{
  ℕ, ◌+◌, ◌-◌, ◌%◌, ◌^◌, ◌≡◌, ◌≢◌, refl, ap, ◌∙◌, wrap_sum, arith, true, false, not, List, [], ◌∷◌,
  All, All-append, map, ltb,
}
use sturm_cpp.Common.{IsFresh, IsDistinct, is_elem, IsFresh→is_elem, length, xor}
use sturm_cpp.Circuit.{Bits, op_x}
use sturm_cpp.Circuit.Laws.{Uses}
use sturm_cpp.Circuit.Flips.{negate, value-negate}
use sturm_cpp.Circuit.Register.{value, value-lt, value-congr, AgreeOn}
use sturm_cpp.Machine.{Machine}
use sturm_cpp.Machine.Spec.{state, IsReady}
use sturm_cpp.Machine.Spec.Sequence.{Effect-pure}
use sturm_cpp.Machine.Spec.Usable.{Performs, Performs-routine}
use sturm_cpp.Library.Adder.{lib_sub_dsl, sub_ops, flips, maj_chain, uma_chain}
use sturm_cpp.Library.Adder.Ripple.{wires, ripple, ripple-frame}
use sturm_cpp.Library.Adder.Sum.{carry, ripple-out, ripple-sum, wires-IsFresh-right}
use sturm_cpp.Library.Adder.Wires.{
  Good, maj_chain-Uses, uma_chain-Uses, last_carry-P, last_carry-ne,
}
use sturm_cpp.Library.Adder.Add.{CanAdd, ripple-others}
use sturm_cpp.Library.Adder.Subtract.{minus, run-minus, wires-IsFresh-left, wires-IsDistinct-left}

-- `s'` is `s` with `ys` decreased by `xs` modulo its width, the borrow added to `out`.
pub record Subtracts (xs ys : List ℕ) (out : ℕ) (s s' : Bits) : Type 0 where
  pub difference : value s' ys ≡ (value s ys + (2 ^ length ys - value s xs)) % 2 ^ length ys
  pub borrow : s' out ≡ xor (ltb (value s ys) (value s xs)) (s out)
  pub others : (q : ℕ) → IsFresh q ys → q ≢ out → s' q ≡ s q

-- The first register has none of the qubits of the second.
abbrev Apart : List ℕ → List ℕ → Type 0
Apart xs ys = All (λ q. is_elem q xs ≡ false) ys

Apart-cons : (a : ℕ) (xs qs : List ℕ) → IsFresh a qs → Apart xs qs → Apart (a ∷ xs) qs
Apart-cons a xs [] f h = tt
Apart-cons a xs (q ∷ qs) f h = (ground arith, Apart-cons a xs qs f.1 h.1)

wires-Apart : (xs ys : List ℕ) → length xs ≡ length ys → IsDistinct (wires xs ys) → Apart xs ys
wires-Apart xs [] e d = tt
wires-Apart [] (y ∷ ys) e d = absurd (omega arith)
wires-Apart (a ∷ xs) (b ∷ ys) e d = (
  ground (arith, IsFresh→is_elem b xs (wires-IsFresh-left b xs ys (omega arith) d.1.0)),
  Apart-cons a xs ys (wires-IsFresh-right a xs ys (omega arith) d.0.1)
      (wires-Apart xs ys (omega arith) d.1.1),
)

negate-AgreeOn : (xs : List ℕ) (s : Bits) (qs : List ℕ) → Apart xs qs → AgreeOn (negate xs s) s qs
negate-AgreeOn xs s [] h = tt
negate-AgreeOn xs s (q ∷ qs) h = (ground arith, negate-AgreeOn xs s qs h.1)

minus-AgreeOn :
    (xs ys : List ℕ) (out : ℕ) (s : Bits) (qs : List ℕ)
    → Apart xs qs
    → IsFresh out qs
    → AgreeOn (minus xs ys out s) (ripple true xs ys out (negate xs s)) qs
minus-AgreeOn xs ys out s [] h f = tt
minus-AgreeOn xs ys out s (q ∷ qs) h f = (ground arith, minus-AgreeOn xs ys out s qs h.1 f.1)

module _ (xs ys : List ℕ) (out : ℕ) (s : Bits) (e : length xs ≡ length ys)
    (d : IsDistinct (out ∷ wires xs ys)) where
  complement : value (negate xs s) xs + value s xs + 1 ≡ 2 ^ length xs
  complement = value-negate xs s (wires-IsDistinct-left xs ys e d.1)

  apart : Apart xs ys
  apart = wires-Apart xs ys e d.1

  -- The sum of the complement, `b`, and the carry in.
  wrapped :
      (value (minus xs ys out s) ys ≡ (value s ys + (2 ^ length ys - value s xs)) % 2 ^ length ys)
      × (carry true xs ys (negate xs s)
          ≡ not (ltb (value s ys + (2 ^ length ys - value s xs)) (2 ^ length ys)))
  wrapped =
      wrap_sum (value (minus xs ys out s) ys) (2 ^ length ys)
        (value s ys + (2 ^ length ys - value s xs)) (carry true xs ys (negate xs s))
        (value-lt (minus xs ys out s) ys)
        (omega (
          arith,
          ap (λ n. 2 ^ n) e,
          complement,
          value-congr (negate xs s) s ys (negate-AgreeOn xs s ys apart),
          value-congr (minus xs ys out s) (ripple true xs ys out (negate xs s)) ys
              (minus-AgreeOn xs ys out s ys apart (wires-IsFresh-right out xs ys e d.0)),
          ripple-sum true xs ys out (negate xs s) e d.1,
        ))

  pub minus-Subtracts : Subtracts xs ys out s (minus xs ys out s)
  minus-Subtracts = record {
    difference = wrapped.0;
    borrow = ground (
      arith,
      ap (λ n. 2 ^ n) e,
      value-lt s xs,
      IsFresh→is_elem out xs (wires-IsFresh-left out xs ys e d.0),
      ripple-out true xs ys out (negate xs s) d.0,
      wrapped.1,
    );
    others = λ q f ne. ground (arith, ripple-others true xs ys out (negate xs s) q f ne);
  }

flips-Uses : (P : ℕ → Type 0) (qs : List ℕ) → All P qs → All (Uses P) (map op_x qs)
flips-Uses P [] h = tt
flips-Uses P (q ∷ qs) h = (h.0, flips-Uses P qs h.1)

All-left :
    (P : ℕ → Type 0) (xs ys : List ℕ) → length xs ≡ length ys → All P (wires xs ys) → All P xs
All-left P [] ys e h = tt
All-left P (x ∷ xs) [] e h = absurd (omega arith)
All-left P (x ∷ xs) (y ∷ ys) e h = (h.0, All-left P xs ys (omega arith) h.1.1)

sub_ops-Uses :
    (P : ℕ → Type 0) (p : ℕ) (xs ys : List ℕ) (out : ℕ)
    → length xs ≡ length ys
    → P out
    → Good P p xs ys
    → p ≢ out
    → IsFresh out (wires xs ys)
    → All (Uses P) (sub_ops p xs ys out)
unfolding sub_ops flips
sub_ops-Uses P p xs ys out e o g n f =
    let all = flips-Uses P xs (All-left P xs ys e g.0.1) in
    (
      g.0.0,
      All-append (Uses P) (map op_x xs) _ all (
          All-append (Uses P) (maj_chain p xs ys) _ (maj_chain-Uses P p xs ys g) (
            (last_carry-P P p xs ys e g, o, last_carry-ne P p out xs ys e n f),
            (
              o,
              All-append (Uses P) (uma_chain p xs ys) _ (uma_chain-Uses P p xs ys g)
                  (All-append (Uses P) (map op_x xs) _ all (g.0.0, tt)),
            ),
          )),
    )

minus-fresh :
    (xs ys : List ℕ) (out : ℕ) (s : Bits) (i : ℕ)
    → length xs ≡ length ys
    → IsFresh i (out ∷ wires xs ys)
    → minus xs ys out s i ≡ s i
minus-fresh xs ys out s i e f = ground (
  arith,
  IsFresh→is_elem i xs (wires-IsFresh-left i xs ys e f.1),
  ripple-frame true xs ys out (negate xs s) i f.0 f.1,
)

-- On a machine that records its gates, `lib_sub_dsl<BitProxy>` on usable quantum operands returns,
-- hands back its ancilla, and if the active control is |1> or there is none it subtracts `a` from `b` modulo
-- 2^n and adds the borrow, whether b < a, to `borrow_out`; under a control that is |0> it
-- changes no qubit.
pub lib_sub_dsl-Subtracts :
    (init : Bits) (m : Machine) (xs ys : List ℕ) (borrow_out : ℕ)
    → IsReady init m
    → CanAdd m xs ys borrow_out
    → Performs init m (Subtracts xs ys borrow_out) (lib_sub_dsl xs ys borrow_out m)
unfolding lib_sub_dsl
lib_sub_dsl-Subtracts init m [] [] out ready can = record {
  goal = state init m;
  effect = Effect-pure init m ready;
  meets = record { difference = omega arith; borrow = ground arith; others = λ q f ne. refl };
}
lib_sub_dsl-Subtracts init m [] (y ∷ ys) out ready can = absurd (omega (arith, can.same_width))
lib_sub_dsl-Subtracts init m (x ∷ xs) ys out ready can =
    Performs-routine init m (Subtracts (x ∷ xs) ys out) (λ i. sub_ops i (x ∷ xs) ys out)
      (out ∷ wires (x ∷ xs) ys) (minus (x ∷ xs) ys out (state init m)) ready can.usable
      (λ i P f all.
        sub_ops-Uses P i (x ∷ xs) ys out can.same_width all.1.0
          ((all.0, all.1.1), (f.1, can.distinct.1)) f.0 can.distinct.0)
      (λ i f zero. (
        run-minus i (x ∷ xs) ys out (state init m) (f, can.distinct) can.same_width zero,
        minus-fresh (x ∷ xs) ys out (state init m) i can.same_width f ∙ zero,
      ))
      (minus-Subtracts (x ∷ xs) ys out (state init m) can.same_width can.distinct)
