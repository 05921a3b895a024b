-- ===== src/Common/Text/Decimal.antt =====
-- Different numbers have different decimal texts.
use Prim.Native.Char.{code}
use Prim.Native.String as Native
use Prim.Native.String.{count}
use Prim.Native.Nat.{ℕ, zero, suc, ◌-◌, ◌/◌, ◌%◌, ◌<◌, ◌≤◌}
use mathlib.Core.Path.{◌≡◌, refl, sym, ap, ◌∙◌}
use mathlib.Core.Logic.{inl, inr}
use native.Mathlib.Omega.{arith}
use native.Mathlib.Decide.{dec_lt}
use text.Mathlib.TextLemmas.{append_inj, length-append}
use sturm_cpp.Common.Tests.{ltb, Bool-cases, lt→ltb}
use sturm_cpp.Common.Text.{String, ◌<<◌, digit, digits, to_string}

abbrev first_digit : String → ℕ
first_digit Native.[] = 0
first_digit (Native.◌∷◌ c s) = code c - 48

first_digit-digit : (d : ℕ) → d < 10 → first_digit (digit d) ≡ d
first_digit-digit zero h = refl
first_digit-digit (suc zero) h = refl
first_digit-digit (suc (suc zero)) h = refl
first_digit-digit (suc (suc (suc zero))) h = refl
first_digit-digit (suc (suc (suc (suc zero)))) h = refl
first_digit-digit (suc (suc (suc (suc (suc zero))))) h = refl
first_digit-digit (suc (suc (suc (suc (suc (suc zero)))))) h = refl
first_digit-digit (suc (suc (suc (suc (suc (suc (suc zero))))))) h = refl
first_digit-digit (suc (suc (suc (suc (suc (suc (suc (suc zero)))))))) h = refl
first_digit-digit (suc (suc (suc (suc (suc (suc (suc (suc (suc zero))))))))) h = refl
first_digit-digit (suc (suc (suc (suc (suc (suc (suc (suc (suc (suc n)))))))))) h =
    absurd (omega arith)

digit_inj : (d e : ℕ) → d < 10 → e < 10 → digit d ≡ digit e → d ≡ e
digit_inj d e h k p = sym (first_digit-digit d h) ∙ ap first_digit p ∙ first_digit-digit e k

count-digit : (d : ℕ) → count (digit d) ≡ 1
count-digit zero = refl
count-digit (suc zero) = refl
count-digit (suc (suc zero)) = refl
count-digit (suc (suc (suc zero))) = refl
count-digit (suc (suc (suc (suc zero)))) = refl
count-digit (suc (suc (suc (suc (suc zero))))) = refl
count-digit (suc (suc (suc (suc (suc (suc zero)))))) = refl
count-digit (suc (suc (suc (suc (suc (suc (suc zero))))))) = refl
count-digit (suc (suc (suc (suc (suc (suc (suc (suc zero)))))))) = refl
count-digit (suc (suc (suc (suc (suc (suc (suc (suc (suc n))))))))) = refl

digits-small : (f n : ℕ) → n < 10 → digits (suc f) n ≡ digit n
unfolding digits
digits-small f n h = rw (lt→ltb n 10 h) refl

digits-large : (f n : ℕ) → 10 ≤ n → digits (suc f) n ≡ digits f (n / 10) << digit (n % 10)
unfolding digits
digits-large f n h = elim (Bool-cases (ltb n 10)) [
  | inl e ↦ absurd (ground arith)
  | inr e ↦ rw e refl
]

count-digits_pos : (f n : ℕ) → n < f → 0 < count (digits f n)
count-digits_pos zero n h = absurd (omega arith)
count-digits_pos (suc f) n h = elim (dec_lt n 10) [
  | yes p ↦ rw (digits-small f n p, count-digit n) (omega arith)
  | no p ↦
      rw
        (
          digits-large f n (omega arith),
          length-append (digits f (n / 10)) (digit (n % 10)),
          count-digit (n % 10),
        )
        (omega arith)
]

short_long : (f g m n : ℕ) → m < 10 → 10 ≤ n → n < suc g → digits (suc f) m ≡ digits (suc g) n → ⊥
short_long f g m n h k l p =
    let c : count (digit m) ≡ count (digits g (n / 10) << digit (n % 10)) =
      ap count (sym (digits-small f m h) ∙ p ∙ digits-large g n k) in
    omega (
      arith,
      c,
      count-digit m,
      count-digit (n % 10),
      length-append (digits g (n / 10)) (digit (n % 10)),
      count-digits_pos g (n / 10) (omega arith),
    )

digits_inj : (f g m n : ℕ) → m < f → n < g → digits f m ≡ digits g n → m ≡ n
digits_inj zero g m n h k p = absurd (omega arith)
digits_inj (suc f) zero m n h k p = absurd (omega arith)
digits_inj (suc f) (suc g) m n h k p = elim (dec_lt m 10) [
  | yes a ↦ elim (dec_lt n 10) [
    | yes b ↦ digit_inj m n a b (sym (digits-small f m a) ∙ p ∙ digits-small g n b)
    | no b ↦ absurd (short_long f g m n a (omega arith) k p)
  ]
  | no a ↦ elim (dec_lt n 10) [
    | yes b ↦ absurd (short_long g f n m b (omega arith) h (sym p))
    | no b ↦
        let q : digits f (m / 10) << digit (m % 10) ≡ digits g (n / 10) << digit (n % 10) =
          sym (digits-large f m (omega arith)) ∙ p ∙ digits-large g n (omega arith) in
        let (u, v) = append_inj {s₁ = digits f (m / 10)} {s₂ = digits g (n / 10)} q (
          omega (
            arith,
            ap count q,
            count-digit (m % 10),
            count-digit (n % 10),
            length-append (digits f (m / 10)) (digit (m % 10)),
            length-append (digits g (n / 10)) (digit (n % 10)),
          )) in
        omega (
          arith,
          digits_inj f g (m / 10) (n / 10) (omega arith) (omega arith) u,
          digit_inj (m % 10) (n % 10) (omega arith) (omega arith) v,
        )
  ]
]

pub to_string_inj : (m n : ℕ) → to_string m ≡ to_string n → m ≡ n
unfolding to_string
to_string_inj m n p = digits_inj (suc m) (suc n) m n (omega arith) (omega arith) p
