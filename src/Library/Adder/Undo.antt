-- ===== src/Library/Adder/Undo.antt =====
-- The gates of `lib_add_adj` against those of `lib_add_dsl`.
use mathlib.Core.Path.{subst}
use mathlib.Core.List.{reverse-append, append_assoc, reverse-cons}
use sturm_cpp.Common.{
  All-reverse, ℕ, ◌≡◌, refl, ap, sym, ◌∙◌, fun_ext, false, List, [], ◌∷◌, ◌++◌, reverse, All,
}
use sturm_cpp.Common.{IsFresh, IsDistinct, length}
use sturm_cpp.Circuit.{Bits, run}
use sturm_cpp.Circuit.Laws.{Uses, Uses→IsProper, run-run-reverse}
use sturm_cpp.Machine.{Machine}
use sturm_cpp.Machine.Spec.{state, IsReady}
use sturm_cpp.Machine.Spec.Sequence.{Effect-pure}
use sturm_cpp.Machine.Spec.Usable.{Performs, Performs-run}
use sturm_cpp.Library.Adder.{maj_dsl, uma_dsl, maj_adj, uma_adj, maj_chain, uma_chain}
use sturm_cpp.Library.Adder.{maj_adj_chain, uma_adj_chain, add_ops, add_adj_ops, lib_add_adj}
use sturm_cpp.Library.Adder.Ripple.{wires, ripple, ripple-frame, add_ops-ripple}
use sturm_cpp.Library.Adder.Wires.{add_ops-Uses}
use sturm_cpp.Library.Adder.Add.{CanAdd, Adds, ripple-Adds, empty-Adds}

uma_adj_chain-reverse :
    (p : ℕ) (xs ys : List ℕ) → uma_adj_chain p xs ys ≡ reverse (uma_chain p xs ys)
unfolding uma_adj_chain uma_chain uma_adj uma_dsl
uma_adj_chain-reverse p [] ys = refl
uma_adj_chain-reverse p (a ∷ xs) [] = refl
uma_adj_chain-reverse p (a ∷ xs) (b ∷ ys) =
    ap (λ os. uma_adj p b a ++ os) (uma_adj_chain-reverse a xs ys)
    ∙ sym (reverse-append (uma_chain a xs ys) (uma_dsl p b a))

maj_adj_chain-reverse :
    (p : ℕ) (xs ys : List ℕ) → maj_adj_chain p xs ys ≡ reverse (maj_chain p xs ys)
unfolding maj_adj_chain maj_chain maj_adj maj_dsl
maj_adj_chain-reverse p [] ys = refl
maj_adj_chain-reverse p (a ∷ xs) [] = refl
maj_adj_chain-reverse p (a ∷ xs) (b ∷ ys) =
    ap (λ os. os ++ maj_adj p b a) (maj_adj_chain-reverse a xs ys)
    ∙ sym (reverse-append (maj_dsl p b a) (maj_chain a xs ys))

pub add_adj_ops-reverse :
    (p : ℕ) (xs ys : List ℕ) (out : ℕ) → add_adj_ops p xs ys out ≡ reverse (add_ops p xs ys out)
unfolding add_adj_ops add_ops
add_adj_ops-reverse p xs ys out =
    rw
      (
        uma_adj_chain-reverse p xs ys,
        maj_adj_chain-reverse p xs ys,
        reverse-append,
        reverse-cons,
        append_assoc,
      )
      refl

All-trivial : (qs : List ℕ) → All (λ q. Unit {0}) qs
All-trivial [] = tt
All-trivial (q ∷ qs) = (tt, All-trivial qs)

-- The reverse gates lead to a state that the gates of the adder lead back from.
before :
    (p : ℕ) (xs ys : List ℕ) (out : ℕ) (s : Bits)
    → IsDistinct (p ∷ out ∷ wires xs ys)
    → length xs ≡ length ys
    → s p ≡ false
    → (run (reverse (add_ops p xs ys out)) s p ≡ false)
      × Adds xs ys out (run (reverse (add_ops p xs ys out)) s) s
before p xs ys out s d e zero = (
  starts,
  subst (Adds xs ys out earlier)
      (fun_ext (λ q. ap (λ c. ripple c xs ys out earlier q) (sym starts) ∙ sym (forth q)) ∙ back)
      (ripple-Adds xs ys out earlier e d.1),
)
  where
    earlier : Bits
    earlier = run (reverse (add_ops p xs ys out)) s

    back : run (add_ops p xs ys out) earlier ≡ s
    back = run-run-reverse (add_ops p xs ys out) s (
        Uses→IsProper (λ q. Unit {0}) (add_ops p xs ys out)
          (add_ops-Uses (λ q. Unit {0}) p xs ys out e tt
            ((tt, All-trivial (wires xs ys)), (d.0.1, d.1.1)) d.0.0 d.1.0))

    forth : (q : ℕ) → run (add_ops p xs ys out) earlier q ≡ ripple (earlier p) xs ys out earlier q
    forth q = add_ops-ripple p xs ys out earlier d e q

    starts : earlier p ≡ false
    starts =
        sym (ripple-frame (earlier p) xs ys out earlier p d.0.0 d.0.1)
        ∙ sym (forth p)
        ∙ ap (λ t. t p) back
        ∙ zero

-- On a machine that records its gates, `lib_add_adj` on usable operands returns, hands back its
-- ancilla, and if the active control is |1> or there is none it leaves the state from which an
-- addition of `a` to `b`, with the overflow added to `carry_out`, leads back to the state before
-- the call; under a control that is |0> it changes no qubit.
pub lib_add_adj-Undoes :
    (init : Bits) (m : Machine) (xs ys : List ℕ) (carry_out : ℕ)
    → IsReady init m
    → CanAdd m xs ys carry_out
    → Performs init m (λ s s'. Adds xs ys carry_out s' s) (lib_add_adj xs ys carry_out m)
unfolding lib_add_adj
lib_add_adj-Undoes init m [] ys out ready can = record {
  goal = state init m;
  effect = Effect-pure init m ready;
  meets = empty-Adds ys out (state init m) can.same_width;
}
lib_add_adj-Undoes init m (x ∷ xs) ys out ready can =
    Performs-run init m (λ s s'. Adds (x ∷ xs) ys out s' s) (λ i. add_adj_ops i (x ∷ xs) ys out)
      (out ∷ wires (x ∷ xs) ys) ready can.usable
      (λ i P f all.
        rw (add_adj_ops-reverse i (x ∷ xs) ys out)
          (All-reverse (Uses P) (add_ops i (x ∷ xs) ys out) (uses i P f all)))
      (λ i f zero.
        rw (add_adj_ops-reverse i (x ∷ xs) ys out)
          (before i (x ∷ xs) ys out (state init m) (f, can.distinct) can.same_width zero))
  where
    uses :
        (i : ℕ) (P : ℕ → Type 0)
        → IsFresh i (out ∷ wires (x ∷ xs) ys)
        → All P (i ∷ out ∷ wires (x ∷ xs) ys)
        → All (Uses P) (add_ops i (x ∷ xs) ys out)
    uses i P f all =
        add_ops-Uses P i (x ∷ xs) ys out can.same_width all.1.0
          ((all.0, all.1.1), (f.1, can.distinct.1)) f.0 can.distinct.0
