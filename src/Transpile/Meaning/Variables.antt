-- ===== src/Transpile/Meaning/Variables.antt =====
-- Variables by name, and the laws of writing them.
use sturm_cpp.Common.{ℕ, ◌≡◌, ◌≢◌, Bool, ap, fun_ext, arith, if◌then◌else◌}
use sturm_cpp.Common.Text.{String, str_eq, eq_iff}

pub record Store : Type 0 where
  pub bit : String → Bool
  pub int : String → ℕ

module _ {ℓ} {A : Type ℓ} where
  unfoldable pub put : String → A → (String → A) → String → A
  put x a f y = if str_eq x y then a else f y

  pub put-at : (x : String) (a : A) (f : String → A) → put x a f x ≡ a
  unfolding put
  put-at x a f = ground (arith, eq_iff x x)

  pub put-other : (x y : String) (a : A) (f : String → A) → x ≢ y → put x a f y ≡ f y
  unfolding put
  put-other x y a f n = ground (arith, eq_iff x y)

  pub put-put : (x : String) (a b : A) (f : String → A) → put x a (put x b f) ≡ put x a f
  unfolding put
  put-put x a b f = fun_ext λ y. ground (arith, eq_iff x y)

  pub put_self : (x : String) (f : String → A) → put x (f x) f ≡ f
  unfolding put
  put_self x f = fun_ext λ y. ground (arith, eq_iff x y, ap f {x = x} {y = y})

unfoldable pub put_bit : String → Bool → Store → Store
unfolding put
put_bit x b s = record s { bit = put x b s.bit }

unfoldable pub put_int : String → ℕ → Store → Store
unfolding put
put_int x n s = record s { int = put x n s.int }
