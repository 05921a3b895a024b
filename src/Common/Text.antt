-- ===== src/Common/Text.antt =====
-- Texts built the way a C++ stream builds them, comparison of texts, and std::to_string on
-- natural numbers.
pub mod Decimal
use Prim.Native.String.{count}
use Prim.Native.String as Native
use sturm_cpp.Common.Tests.{ltb, if◌then◌else◌, Bool-cases}
use mathlib.Core.Logic.{inl, inr}
use Prim.Native.Nat.{ℕ, zero, suc, ◌/◌, ◌%◌}
use mathlib.Core.Path.{◌≡◌, refl}
use mathlib.Core.Bool.{Bool, false}
use mathlib.Core.List.{List, [], ◌∷◌}
use native.Mathlib.Omega.{arith}
use text.Mathlib.Text
use text.Mathlib.TextEquality.{eq_iff}
use text.Mathlib.TextLemmas.{append-eq-nil_iff}
pub use Prim.Native.String.{String}
pub use text.Mathlib.TextEquality.{eq_iff}
pub use text.Mathlib.TextPositions.{eq_refl}
pub use text.Mathlib.TextLemmas.{append_assoc, append-nil, nil-append}

-- `os << s << t`
infixl 20 ◌<<◌
abbrev pub ◌<<◌ : String → String → String
s << t = Native.◌++◌ s t

abbrev pub str_eq : String → String → Bool
str_eq s t = Text.◌==◌ s t

abbrev pub is_empty : String → Bool
is_empty s = str_eq s ""

-- The texts one after the other.
pub concat : List String → String
concat [] = ""
concat (s ∷ ss) = s << concat ss

abbrev pub digit : ℕ → String
digit zero = "0"
digit (suc zero) = "1"
digit (suc (suc zero)) = "2"
digit (suc (suc (suc zero))) = "3"
digit (suc (suc (suc (suc zero)))) = "4"
digit (suc (suc (suc (suc (suc zero))))) = "5"
digit (suc (suc (suc (suc (suc (suc zero)))))) = "6"
digit (suc (suc (suc (suc (suc (suc (suc zero))))))) = "7"
digit (suc (suc (suc (suc (suc (suc (suc (suc zero)))))))) = "8"
digit _ = "9"

-- The decimal digits; a number has fewer digits than its successor is large.
unfoldable pub digits : ℕ → ℕ → String
digits zero n = ""
digits (suc fuel) n =
    let front = digits fuel (n / 10) in if ltb n 10 then digit n else front << digit (n % 10)

unfoldable pub to_string : ℕ → String
unfolding digits
to_string n = digits (suc n) n

to_string_2048 : to_string 2048 ≡ "2048"
unfolding to_string
to_string_2048 = refl

pub is_empty-append : (s t : String) → is_empty t ≡ false → is_empty (s << t) ≡ false
is_empty-append s t h = elim (Bool-cases (is_empty (s << t))) [
  | inl e ↦
      let blank : t ≡ "" = (append-eq-nil_iff.0 ((eq_iff (s << t) "").0 e)).1 in
      absurd (ground (arith, (eq_iff t "").1 blank))
  | inr e ↦ e
]
