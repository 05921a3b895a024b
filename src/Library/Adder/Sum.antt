-- ===== src/Library/Adder/Sum.antt =====
-- The ripple-carry state holds the sum: what the registers read as numbers.
use native.Mathlib.Nat.{pow-suc}
use sturm_cpp.Common.{ℕ, ◌+◌, ◌^◌, ◌≡◌, arith, Bool, List, [], ◌∷◌}
use sturm_cpp.Common.{IsFresh, IsDistinct, length, if◌then◌else◌, xor}
use sturm_cpp.Circuit.{Bits}
use sturm_cpp.Circuit.Register.{bit, value, AgreeOn, value-congr}
use sturm_cpp.Library.Adder.Ripple.{majority, ripple, wires}

-- The carry out of the last position.
abbrev pub carry : Bool → List ℕ → List ℕ → Bits → Bool
carry c (a ∷ xs) (b ∷ ys) s = carry (majority c (s a) (s b)) xs ys s
carry c _ _ s = c

-- A qubit of neither register gets the carry if it is the carry qubit.
pub ripple-out :
    (c : Bool) (xs ys : List ℕ) (out : ℕ) (s : Bits)
    → IsFresh out (wires xs ys)
    → ripple c xs ys out s out ≡ xor (carry c xs ys s) (s out)
ripple-out c [] ys out s f = ground arith
ripple-out c (a ∷ xs) [] out s f = ground arith
ripple-out c (a ∷ xs) (b ∷ ys) out s f =
    ground (arith, ripple-out (majority c (s a) (s b)) xs ys out s f.1.1)

pub wires-IsFresh-right :
    (q : ℕ) (xs ys : List ℕ) → length xs ≡ length ys → IsFresh q (wires xs ys) → IsFresh q ys
wires-IsFresh-right q [] [] e f = tt
wires-IsFresh-right q [] (y ∷ ys) e f = absurd (omega arith)
wires-IsFresh-right q (x ∷ xs) [] e f = tt
wires-IsFresh-right q (x ∷ xs) (y ∷ ys) e f =
    (f.1.0, wires-IsFresh-right q xs ys (omega arith) f.1.1)

ripple-tail :
    (c : Bool) (a b : ℕ) (xs ys : List ℕ) (out : ℕ) (s : Bits) (qs : List ℕ)
    → IsFresh b qs
    → AgreeOn (ripple c (a ∷ xs) (b ∷ ys) out s) (ripple (majority c (s a) (s b)) xs ys out s) qs
ripple-tail c a b xs ys out s [] f = tt
ripple-tail c a b xs ys out s (q ∷ qs) f = (ground arith, ripple-tail c a b xs ys out s qs f.1)

-- The sum register and the carry hold a + b + c.
pub ripple-sum :
    (c : Bool) (xs ys : List ℕ) (out : ℕ) (s : Bits)
    → length xs ≡ length ys
    → IsDistinct (wires xs ys)
    → value (ripple c xs ys out s) ys + (if carry c xs ys s then 2 ^ length ys else 0)
      ≡ value s xs + value s ys + bit c
ripple-sum c [] [] out s e d = ground arith
ripple-sum c [] (y ∷ ys) out s e d = absurd (omega arith)
ripple-sum c (x ∷ xs) [] out s e d = absurd (omega arith)
ripple-sum c (a ∷ xs) (b ∷ ys) out s e d = ground (
  arith,
  pow-suc 2 (length ys),
  value-congr (ripple c (a ∷ xs) (b ∷ ys) out s) (ripple (majority c (s a) (s b)) xs ys out s) ys
      (ripple-tail c a b xs ys out s ys (wires-IsFresh-right b xs ys (omega arith) d.1.0)),
  ripple-sum (majority c (s a) (s b)) xs ys out s (omega arith) d.1.1,
)
