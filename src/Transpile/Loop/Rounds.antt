-- ===== src/Transpile/Loop/Rounds.antt =====
-- Loops that run through a sequence of values, forwards and backwards.
use mathlib.Core.List.{reverse-append}
use sturm_cpp.Common.{
  ℕ, zero, suc, ◌+◌, ◌<◌, ◌≡◌, ◌∙◌, refl, sym, ap, true, false, List, [], ◌∷◌, ◌++◌, reverse, some,
  arith,
}
use sturm_cpp.Common.Int.{ℤ, ◌+ℤ◌}
use sturm_cpp.Transpile.Loop.{CmpOp}
use sturm_cpp.Transpile.Loop.Header.{rounds, is_int, compare_ℤ, cons_some}

module _ (value_at : ℕ → ℤ) where
  -- The values from the `k`-th on, `n` of them.
  unfoldable pub segment : ℕ → ℕ → List ℤ
  segment k zero = []
  segment k (suc n) = value_at k ∷ segment (suc k) n

  -- The values from the `q`-th down to the first.
  unfoldable pub descent : ℕ → List ℤ
  descent zero = value_at zero ∷ []
  descent (suc q) = value_at (suc q) ∷ descent q

  segment-append : (k n : ℕ) → segment k (suc n) ≡ segment k n ++ value_at (k + n) ∷ []
  unfolding segment
  segment-append k zero = ap (λ j. value_at j ∷ []) (omega arith)
  segment-append k (suc n) =
      ap (λ l. value_at k ∷ l)
        (segment-append (suc k) n ∙ ap (λ j. segment (suc k) n ++ value_at j ∷ []) (omega arith))

  pub reverse-segment : (q : ℕ) → reverse (segment zero (suc q)) ≡ descent q
  unfolding descent
  reverse-segment zero = unfold segment in refl
  reverse-segment (suc q) =
      ap reverse (segment-append zero (suc q))
      ∙ reverse-append (segment zero (suc q)) (value_at (zero + suc q) ∷ [])
      ∙ ap (λ l. value_at (zero + suc q) ∷ l) (reverse-segment q)
      ∙ ap (λ j. value_at j ∷ descent q) (omega arith)

  module _ (op : CmpOp) (bound step : ℤ) where
    pub rounds-segment :
        (n fuel k : ℕ)
        → ((j : ℕ) → value_at j +ℤ step ≡ value_at (suc j))
        → ((j : ℕ) → j < k + n → compare_ℤ op (value_at j) bound ≡ true)
        → ((j : ℕ) → j < k + n → is_int (value_at (suc j)) ≡ true)
        → compare_ℤ op (value_at (k + n)) bound ≡ false
        → n < fuel
        → rounds fuel op bound step (value_at k) ≡ some (segment k n)
    unfolding rounds segment
    rounds-segment n zero k next go int stop f = absurd (omega arith)
    rounds-segment zero (suc fuel) k next go int stop f =
        let e : k + zero ≡ k = omega arith in
        rw (ap (λ j. compare_ℤ op (value_at j) bound) (sym e) ∙ stop) refl
    rounds-segment (suc n) (suc fuel) k next go int stop f =
        rw (go k (omega arith), next k, int k (omega arith))
          (ap (cons_some (value_at k)) (
            rounds-segment n fuel (suc k) next (λ j l. go j (omega arith))
              (λ j l. int j (omega arith))
              (ap (λ j. compare_ℤ op (value_at j) bound) (omega arith) ∙ stop) (omega arith)))

    pub rounds-descent :
        (q fuel : ℕ)
        → ((j : ℕ) → value_at (suc j) +ℤ step ≡ value_at j)
        → ((j : ℕ) → compare_ℤ op (value_at j) bound ≡ true)
        → ((j : ℕ) → j < q → is_int (value_at j) ≡ true)
        → is_int (value_at zero +ℤ step) ≡ true
        → compare_ℤ op (value_at zero +ℤ step) bound ≡ false
        → suc q < fuel
        → rounds fuel op bound step (value_at q) ≡ some (descent q)
    unfolding rounds descent
    rounds-descent q zero back go int last stop f = absurd (omega arith)
    rounds-descent zero (suc zero) back go int last stop f = absurd (omega arith)
    rounds-descent zero (suc (suc fuel)) back go int last stop f = rw (go zero, last, stop) refl
    rounds-descent (suc q) (suc fuel) back go int last stop f =
        rw (go (suc q), back q, int q (omega arith))
          (ap (cons_some (value_at (suc q)))
            (rounds-descent q fuel back go (λ j l. int j (omega arith)) last stop (omega arith)))
