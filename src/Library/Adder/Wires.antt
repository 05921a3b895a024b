-- ===== src/Library/Adder/Wires.antt =====
-- Which qubits the gates of the adder use.
use sturm_cpp.Common.{
  ℕ, ◌≡◌, ◌≢◌, sym, arith, List, [], ◌∷◌, All, All-append, IsFresh, IsDistinct, length,
}
use sturm_cpp.Circuit.{op_cx}
use sturm_cpp.Circuit.Laws.{Uses}
use sturm_cpp.Library.Adder.{maj_dsl, uma_dsl, maj_chain, uma_chain, add_ops, last_carry}
use sturm_cpp.Library.Adder.Ripple.{wires}

module _ (P : ℕ → Type 0) where
  -- A carry qubit and two registers whose qubits satisfy `P` and are pairwise different.
  abbrev pub Good : ℕ → List ℕ → List ℕ → Type 0
  Good p xs ys = All P (p ∷ wires xs ys) × IsDistinct (p ∷ wires xs ys)

  Good-tail : (p a b : ℕ) (xs ys : List ℕ) → Good p (a ∷ xs) (b ∷ ys) → Good a xs ys
  Good-tail p a b xs ys (h, d) = ((h.1.0, h.1.1.1), (d.1.0.1, d.1.1.1))

  pub maj_chain-Uses : (p : ℕ) (xs ys : List ℕ) → Good p xs ys → All (Uses P) (maj_chain p xs ys)
  unfolding maj_chain maj_dsl
  maj_chain-Uses p (a ∷ xs) (b ∷ ys) (h, d) =
      All-append (Uses P) (maj_dsl p b a) (maj_chain a xs ys)
        (
          (h.1.0, h.1.1.0, d.1.0.0),
          (
            (h.1.0, h.0, λ e. d.0.0 (sym e)),
            ((h.0, h.1.1.0, h.1.0, d.0.0, λ e. d.1.0.0 (sym e)), tt),
          ),
        )
        (maj_chain-Uses a xs ys (Good-tail p a b xs ys (h, d)))
  maj_chain-Uses p [] ys g = tt
  maj_chain-Uses p (a ∷ xs) [] g = tt

  pub uma_chain-Uses : (p : ℕ) (xs ys : List ℕ) → Good p xs ys → All (Uses P) (uma_chain p xs ys)
  unfolding uma_chain uma_dsl
  uma_chain-Uses p (a ∷ xs) (b ∷ ys) (h, d) =
      All-append (Uses P) (uma_chain a xs ys) (uma_dsl p b a)
        (uma_chain-Uses a xs ys (Good-tail p a b xs ys (h, d)))
        (
          (h.0, h.1.1.0, h.1.0, d.0.0, λ e. d.1.0.0 (sym e)),
          ((h.1.0, h.0, λ e. d.0.0 (sym e)), ((h.0, h.1.1.0, d.0.1.0), tt)),
        )
  uma_chain-Uses p [] ys g = tt
  uma_chain-Uses p (a ∷ xs) [] g = tt

  pub last_carry-P :
      (p : ℕ) (xs ys : List ℕ) → length xs ≡ length ys → Good p xs ys → P (last_carry p xs)
  last_carry-P p [] ys e g = g.0.0
  last_carry-P p (a ∷ xs) [] e g = absurd (omega arith)
  last_carry-P p (a ∷ xs) (b ∷ ys) e g =
      last_carry-P a xs ys (omega arith) (Good-tail p a b xs ys g)

  pub last_carry-ne :
      (p out : ℕ) (xs ys : List ℕ)
      → length xs ≡ length ys
      → p ≢ out
      → IsFresh out (wires xs ys)
      → last_carry p xs ≢ out
  last_carry-ne p out [] ys e n f = n
  last_carry-ne p out (a ∷ xs) [] e n f = absurd (omega arith)
  last_carry-ne p out (a ∷ xs) (b ∷ ys) e n f =
      last_carry-ne a out xs ys (omega arith) (λ k. f.0 (sym k)) f.1.1

  pub add_ops-Uses :
      (p : ℕ) (xs ys : List ℕ) (out : ℕ)
      → length xs ≡ length ys
      → P out
      → Good p xs ys
      → p ≢ out
      → IsFresh out (wires xs ys)
      → All (Uses P) (add_ops p xs ys out)
  unfolding add_ops
  add_ops-Uses p xs ys out e o g n f =
      All-append (Uses P) (maj_chain p xs ys) (op_cx (last_carry p xs) out ∷ uma_chain p xs ys)
        (maj_chain-Uses p xs ys g)
        ((last_carry-P p xs ys e g, o, last_carry-ne p out xs ys e n f), uma_chain-Uses p xs ys g)
