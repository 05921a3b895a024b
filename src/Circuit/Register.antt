-- ===== src/Circuit/Register.antt =====
-- Registers: the unsigned number that a list of qubits holds, least significant first.
use native.Mathlib.Nat.{pow-suc}
use sturm_cpp.Common.{ℕ, ◌+◌, ◌*◌, ◌^◌, ◌<◌, ◌≡◌, arith, Bool, true, false, List, [], ◌∷◌}
use sturm_cpp.Common.{All, length}
use sturm_cpp.Circuit.{Bits}

abbrev pub bit : Bool → ℕ
bit true = 1
bit false = 0

abbrev pub value : Bits → List ℕ → ℕ
value s [] = 0
value s (q ∷ qs) = bit (s q) + 2 * value s qs

pub value-lt : (s : Bits) (qs : List ℕ) → value s qs < 2 ^ length qs
value-lt s [] = omega arith
value-lt s (q ∷ qs) = ground (arith, value-lt s qs, pow-suc 2 (length qs))

-- Two states agree on the listed qubits.
abbrev pub AgreeOn : Bits → Bits → List ℕ → Type 0
AgreeOn s s' = All (λ q. s q ≡ s' q)

pub value-congr : (s s' : Bits) (qs : List ℕ) → AgreeOn s s' qs → value s qs ≡ value s' qs
value-congr s s' [] h = omega arith
value-congr s s' (q ∷ qs) h = ground (arith, h.0, value-congr s s' qs h.1)
