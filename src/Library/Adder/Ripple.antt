-- ===== src/Library/Adder/Ripple.antt =====
-- The gates of the adder leave a ripple-carry sum: what they do to every qubit.
use mathlib.Core.List.{append_assoc}
use sturm_cpp.Common.{ℕ, ◌≡◌, ◌≢◌, ap, ◌∙◌, fun_ext, arith, Bool, ◌&&◌, ◌||◌, List, [], ◌∷◌, ◌++◌}
use sturm_cpp.Common.{IsFresh, IsDistinct, length, ◌==◌, xor, if◌then◌else◌}
use sturm_cpp.Circuit.{Bits, run_op, run}
use sturm_cpp.Circuit.Register.{AgreeOn}
use sturm_cpp.Circuit.Laws.{run-append}
use sturm_cpp.Library.Adder.{maj_dsl, uma_dsl, maj_chain, uma_chain, add_ops}

abbrev pub majority : Bool → Bool → Bool → Bool
majority c a b = (a && b) || (c && xor a b)

-- The state after `b += a + c` with the carry out added to `out`, qubit by qubit.
abbrev pub ripple : Bool → List ℕ → List ℕ → ℕ → Bits → Bits
ripple c (a ∷ xs) (b ∷ ys) out s q =
    let rest = ripple (majority c (s a) (s b)) xs ys out s q in
    if q == b then xor (s b) (xor (s a) c) else rest
ripple c _ _ out s q = if q == out then xor c (s q) else s q

-- The qubits of two registers, position by position.
abbrev pub wires : List ℕ → List ℕ → List ℕ
wires (a ∷ xs) (b ∷ ys) = a ∷ b ∷ wires xs ys
wires _ _ = []

-- A qubit outside the sum register and the carry keeps its bit.
pub ripple-frame :
    (c : Bool) (xs ys : List ℕ) (out : ℕ) (s : Bits) (q : ℕ)
    → q ≢ out
    → IsFresh q (wires xs ys)
    → ripple c xs ys out s q ≡ s q
ripple-frame c [] ys out s q ne f = ground arith
ripple-frame c (a ∷ xs) [] out s q ne f = ground arith
ripple-frame c (a ∷ xs) (b ∷ ys) out s q ne f =
    ground (arith, ripple-frame (majority c (s a) (s b)) xs ys out s q ne f.1.1)

pub ripple-congr :
    (c : Bool) (xs ys : List ℕ) (out : ℕ) (s s' : Bits) (q : ℕ)
    → s q ≡ s' q
    → AgreeOn s s' (wires xs ys)
    → ripple c xs ys out s q ≡ ripple c xs ys out s' q
ripple-congr c [] ys out s s' q e h = ground arith
ripple-congr c (a ∷ xs) [] out s s' q e h = ground arith
ripple-congr c (a ∷ xs) (b ∷ ys) out s s' q e h =
    rw (h.0, h.1.0)
      (ap (λ r. if q == b then xor (s' b) (xor (s' a) c) else r)
        (ripple-congr (majority c (s' a) (s' b)) xs ys out s s' q e h.1.1))

-- The state after one MAJ with the carry in `p`.
abbrev after_maj : ℕ → ℕ → ℕ → Bits → Bits
after_maj p a b s = run (maj_dsl p b a) s

-- What one MAJ does, away from its three qubits and on them.
module _ (p a b : ℕ) (s : Bits) (pa : p ≢ a) (pb : p ≢ b) (ab : a ≢ b) where
  maj_at :
      (after_maj p a b s p ≡ xor (s a) (s p))
      × (after_maj p a b s b ≡ xor (s a) (s b))
      × (after_maj p a b s a ≡ majority (s p) (s a) (s b))
  unfolding run run_op maj_dsl
  maj_at = (ground arith, ground arith, ground arith)

  maj-frame : (q : ℕ) → q ≢ p → q ≢ a → q ≢ b → after_maj p a b s q ≡ s q
  unfolding run run_op maj_dsl
  maj-frame q np na nb = ground arith

  -- A UMA on what the MAJ left restores `p` and `a` and leaves the sum in `b`.
  uma_at :
      (r : Bits)
      → r p ≡ after_maj p a b s p
      → r a ≡ after_maj p a b s a
      → r b ≡ after_maj p a b s b
      → (q : ℕ)
      → run (uma_dsl p b a) r q ≡ (
          if q == b
          then xor (s b) (xor (s a) (s p))
          else if q == a
          then s a
          else if q == p
          then s p
          else r q)
  unfolding run run_op uma_dsl
  uma_at r ep ea eb q = ground (arith, maj_at.0, maj_at.1, maj_at.2)

AgreeOn-after_maj :
    (p a b : ℕ) (s : Bits) (pa : p ≢ a) (pb : p ≢ b) (ab : a ≢ b) (qs : List ℕ)
    → IsFresh p qs
    → IsFresh a qs
    → IsFresh b qs
    → AgreeOn (after_maj p a b s) s qs
AgreeOn-after_maj p a b s pa pb ab [] fp fa fb = tt
AgreeOn-after_maj p a b s pa pb ab (q ∷ qs) fp fa fb = (
  maj-frame p a b s pa pb ab q (omega arith) (omega arith) (omega arith),
  AgreeOn-after_maj p a b s pa pb ab qs fp.1 fa.1 fb.1,
)

add_ops-cons :
    (p a : ℕ) (xs : List ℕ) (b : ℕ) (ys : List ℕ) (out : ℕ)
    → add_ops p (a ∷ xs) (b ∷ ys) out ≡ maj_dsl p b a ++ (add_ops a xs ys out ++ uma_dsl p b a)
unfolding add_ops
add_ops-cons p a xs b ys out = simp append_assoc

-- One position, with what the later positions do to the state after its MAJ.
module _ (p a : ℕ) (xs : List ℕ) (b : ℕ) (ys : List ℕ) (out : ℕ) (s : Bits)
    (d : IsDistinct (p ∷ out ∷ wires (a ∷ xs) (b ∷ ys))) where
  abbrev later : Bits
  later = ripple (after_maj p a b s a) xs ys out (after_maj p a b s)

  later_at : (q : ℕ) → q ≢ out → IsFresh q (wires xs ys) → later q ≡ after_maj p a b s q
  later_at q ne f = ripple-frame (after_maj p a b s a) xs ys out (after_maj p a b s) q ne f

  later_elsewhere :
      (q : ℕ) → q ≢ p → q ≢ a → q ≢ b → later q ≡ ripple (majority (s p) (s a) (s b)) xs ys out s q
  later_elsewhere q np na nb =
      ripple-congr (after_maj p a b s a) xs ys out (after_maj p a b s) s q
        (maj-frame p a b s (omega arith) (omega arith) (omega arith) q np na nb)
        (AgreeOn-after_maj p a b s (omega arith) (omega arith) (omega arith) (wires xs ys) d.0.1.1.1
          d.1.1.0.1 d.1.1.1.0)
      ∙ ap (λ c. ripple c xs ys out s q)
          (maj_at p a b s (omega arith) (omega arith) (omega arith)).2

  pub position : (q : ℕ) → run (uma_dsl p b a) later q ≡ ripple (s p) (a ∷ xs) (b ∷ ys) out s q
  position q =
      uma_at p a b s (omega arith) (omega arith) (omega arith) later
        (later_at p (omega arith) d.0.1.1.1) (later_at a (omega arith) d.1.1.0.1)
        (later_at b (omega arith) d.1.1.1.0) q
      ∙ ground (
        arith,
        later_elsewhere q,
        ripple-frame (majority (s p) (s a) (s b)) xs ys out s a (omega arith) d.1.1.0.1,
        ripple-frame (majority (s p) (s a) (s b)) xs ys out s p (omega arith) d.0.1.1.1,
      )

-- The MAJ chain, the copy of the last carry, and the UMA chain, from a carry in `p`.
pub add_ops-ripple :
    (p : ℕ) (xs ys : List ℕ) (out : ℕ) (s : Bits)
    → IsDistinct (p ∷ out ∷ wires xs ys)
    → length xs ≡ length ys
    → (q : ℕ) → run (add_ops p xs ys out) s q ≡ ripple (s p) xs ys out s q
add_ops-ripple p [] [] out s d e q = unfold add_ops maj_chain uma_chain run run_op in ground arith
add_ops-ripple p [] (y ∷ ys) out s d e q = absurd (omega arith)
add_ops-ripple p (x ∷ xs) [] out s d e q = absurd (omega arith)
add_ops-ripple p (a ∷ xs) (b ∷ ys) out s d e q =
    rw
      (
        add_ops-cons p a xs b ys out,
        run-append (maj_dsl p b a) (add_ops a xs ys out ++ uma_dsl p b a) s,
        run-append (add_ops a xs ys out) (uma_dsl p b a) (after_maj p a b s),
        fun_ext (
            add_ops-ripple a xs ys out (after_maj p a b s)
              ((omega arith, d.1.1.0.1), (d.1.0.1.1, d.1.1.1.1)) (omega arith)),
      )
      (position p a xs b ys out s d q)
