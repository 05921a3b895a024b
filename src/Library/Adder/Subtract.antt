-- ===== src/Library/Adder/Subtract.antt =====
-- What `lib_sub_dsl` performs: an addition of the complement, with a carry in.

use sturm_cpp.Common.{
  ℕ, ◌≡◌, ◌≢◌, sym, ap, fun_ext, arith, Bool, true, false, not, List, [], ◌∷◌, All,
}
use sturm_cpp.Common.{IsFresh, IsDistinct, is_elem, IsFresh→is_elem, length, if◌then◌else◌, ◌==◌}
use sturm_cpp.Circuit.{Bits, run, run_op, flip_if}
use sturm_cpp.Circuit.Laws.{run-append}
use sturm_cpp.Circuit.Flips.{negate, run-map-op_x, flip-run}
use sturm_cpp.Circuit.Register.{AgreeOn}
use sturm_cpp.Library.Adder.{add_ops, sub_ops, flips, maj_chain, uma_chain}
use sturm_cpp.Library.Adder.Ripple.{
  majority, wires, ripple, ripple-frame, ripple-congr, add_ops-ripple,
}
use sturm_cpp.Library.Adder.Wires.{uma_chain-Uses}

-- The state after `b -= a`, with the borrow added to `out`.
abbrev pub minus : List ℕ → List ℕ → ℕ → Bits → Bits
minus xs ys out s q =
    let r = ripple true xs ys out (negate xs s) q in
    if is_elem q xs then s q else if q == out then not r else r

All-ne : (t : ℕ) (qs : List ℕ) → IsFresh t qs → All (λ q. q ≢ t) qs
All-ne t [] f = tt
All-ne t (q ∷ qs) f = (λ e. f.0 (sym e), All-ne t qs f.1)

pub wires-IsFresh-left :
    (q : ℕ) (xs ys : List ℕ) → length xs ≡ length ys → IsFresh q (wires xs ys) → IsFresh q xs
wires-IsFresh-left q [] ys e f = tt
wires-IsFresh-left q (x ∷ xs) [] e f = absurd (omega arith)
wires-IsFresh-left q (x ∷ xs) (y ∷ ys) e f = (f.0, wires-IsFresh-left q xs ys (omega arith) f.1.1)

pub wires-IsDistinct-left :
    (xs ys : List ℕ) → length xs ≡ length ys → IsDistinct (wires xs ys) → IsDistinct xs
wires-IsDistinct-left [] ys e d = tt
wires-IsDistinct-left (x ∷ xs) [] e d = absurd (omega arith)
wires-IsDistinct-left (x ∷ xs) (y ∷ ys) e d = (
  wires-IsFresh-left x xs ys (omega arith) d.0.1,
  wires-IsDistinct-left xs ys (omega arith) d.1.1,
)

-- The adder keeps its first operand.
ripple-left :
    (c : Bool) (xs ys : List ℕ) (out : ℕ) (s : Bits) (q : ℕ)
    → length xs ≡ length ys
    → IsDistinct (out ∷ wires xs ys)
    → is_elem q xs ≡ true
    → ripple c xs ys out s q ≡ s q
ripple-left c [] ys out s q e d i = absurd (ground arith)
ripple-left c (x ∷ xs) [] out s q e d i = absurd (omega arith)
ripple-left c (a ∷ xs) (b ∷ ys) out s q e d i = ground (
  arith,
  ripple-frame (majority c (s a) (s b)) xs ys out s a (λ k. d.0.0 (sym k)) d.1.0.1,
  ripple-left (majority c (s a) (s b)) xs ys out s q (omega arith) (d.0.1.1, d.1.1.1),
  IsFresh→is_elem b xs (wires-IsFresh-left b xs ys (omega arith) d.1.1.0),
)

AgreeOn-negate :
    (xs : List ℕ) (p : ℕ) (s : Bits) (qs : List ℕ)
    → IsFresh p qs
    → AgreeOn (negate xs (flip_if true p s)) (negate xs s) qs
unfolding flip_if
AgreeOn-negate xs p s [] f = tt
AgreeOn-negate xs p s (q ∷ qs) f = (ground arith, AgreeOn-negate xs p s qs f.1)

-- The gates are those of the adder between flips of the carry, of `a` and of the borrow.
run-sub_ops :
    (p : ℕ) (xs ys : List ℕ) (out : ℕ) (s : Bits)
    → IsDistinct (p ∷ out ∷ wires xs ys)
    → run (sub_ops p xs ys out) s
      ≡ flip_if true p (
          run
            (flips xs)
            (flip_if true out (run (add_ops p xs ys out) (run (flips xs) (flip_if true p s)))))
unfolding sub_ops add_ops flips run run_op
run-sub_ops p xs ys out s d =
    rw
      (
        run-append (flips xs),
        run-append (maj_chain p xs ys),
        run-append (uma_chain p xs ys),
        run-append (flips xs),
        run-append (maj_chain p xs ys),
      )
      (ap (λ r. flip_if true p (run (flips xs) r))
        (flip-run out (uma_chain p xs ys) _ (
          uma_chain-Uses (λ q. q ≢ out) p xs ys
            ((d.0.0, All-ne out (wires xs ys) d.1.0), (d.0.1, d.1.1)))))

-- What these do, qubit by qubit.
pub run-minus :
    (p : ℕ) (xs ys : List ℕ) (out : ℕ) (s : Bits)
    → IsDistinct (p ∷ out ∷ wires xs ys)
    → length xs ≡ length ys
    → s p ≡ false
    → (q : ℕ) → run (sub_ops p xs ys out) s q ≡ minus xs ys out s q
unfolding flip_if flips
run-minus p xs ys out s d e zero q =
    rw
      (
        run-sub_ops p xs ys out s d,
        fun_ext (run-map-op_x xs (flip_if true p s) distinct),
        fun_ext (add_ops-ripple p xs ys out (negate xs (flip_if true p s)) d e),
        starts,
        run-map-op_x xs (flip_if true out (ripple true xs ys out (negate xs (flip_if true p s))))
            distinct q,
      )
      (ground (
        arith,
        IsFresh→is_elem p xs (wires-IsFresh-left p xs ys e d.0.1),
        IsFresh→is_elem out xs (wires-IsFresh-left out xs ys e d.1.0),
        ripple-frame true xs ys out (negate xs (flip_if true p s)) p d.0.0 d.0.1,
        ripple-frame true xs ys out (negate xs s) p d.0.0 d.0.1,
        ripple-left true xs ys out (negate xs (flip_if true p s)) q e d.1,
        same_ripple,
      ))
  where
    distinct : IsDistinct xs
    distinct = wires-IsDistinct-left xs ys e d.1.1

    starts : negate xs (flip_if true p s) p ≡ true
    starts = ground (arith, IsFresh→is_elem p xs (wires-IsFresh-left p xs ys e d.0.1))

    same_ripple :
        q ≢ p
        → ripple true xs ys out (negate xs (flip_if true p s)) q
          ≡ ripple true xs ys out (negate xs s) q
    same_ripple ne =
        ripple-congr true xs ys out (negate xs (flip_if true p s)) (negate xs s) q (ground arith)
          (AgreeOn-negate xs p s (wires xs ys) d.0.1)
