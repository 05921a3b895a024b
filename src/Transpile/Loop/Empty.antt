-- ===== src/Transpile/Loop/Empty.antt =====
-- A loop that runs no round.
use native.Mathlib.Nat.{zero-mul, div-eq_of_lt}
use sturm_cpp.Common.{
  Option, ◌≤◌, ℕ, zero, suc, ◌<◌, ◌≡◌, ◌∙◌, refl, ap, true, false, [], ◌∷◌, some, arith,
}
use sturm_cpp.Common.Int.{ℤ, pos, negsuc, ◌+ℤ◌, ◌-ℤ◌, ◌*ℤ◌, ◌/ℤ◌, +ℤ_parts, -ℤ_parts, int_laws}
use sturm_cpp.Common.Text.{String, is_empty}
use sturm_cpp.Transpile.Loop.{
  int_type, CmpOp, lt, ge, Expr, InitStmt, VarDecl, parse_init, parse_cond, parse_inc, peel,
  reverse_for_header,
}
use sturm_cpp.Transpile.Loop.Header.{
  fits, is_int, Reads, upward_reverse-Reads, ForHeader, rounds, visits, eval, compare_ℤ,
  upward_reverse,
}
use sturm_cpp.Transpile.Loop.Climb.{is_int-between, if_all}
use sturm_cpp.Transpile.Loop.Reverse.{
  upward_loop, header_of_clauses, reversed_header-upward, Reads-along,
}

rounds_none :
    (fuel : ℕ) (op : CmpOp) (bound step i : ℤ)
    → 0 < fuel
    → compare_ℤ op i bound ≡ false
    → rounds fuel op bound step i ≡ some []
unfolding rounds
rounds_none zero op bound step i f h = absurd (omega arith)
rounds_none (suc fuel) op bound step i f h = rw h refl

rounds_one :
    (fuel : ℕ) (op : CmpOp) (bound step i : ℤ)
    → 1 < fuel
    → compare_ℤ op i bound ≡ true
    → is_int (i +ℤ step) ≡ true
    → compare_ℤ op (i +ℤ step) bound ≡ false
    → rounds fuel op bound step i ≡ some (i ∷ [])
unfolding rounds
rounds_one zero op bound step i f h r g = absurd (omega arith)
rounds_one (suc fuel) op bound step i f h r g =
    rw (h, r, rounds_none fuel op bound step (i +ℤ step) (omega arith) g) refl

minus_stride : (lo : ℤ) (s : ℕ) → lo +ℤ (pos 0 -ℤ pos s) ≡ lo -ℤ pos s
minus_stride lo s = omega int_laws

span_below : (lo : ℤ) (e : ℕ) → lo -ℤ pos e -ℤ pos 1 -ℤ lo ≡ negsuc e
span_below lo e = omega int_laws

no_strides : (e s : ℕ) → suc e < s → negsuc e /ℤ pos s *ℤ pos s ≡ pos 0
unfolding ◌/ℤ◌ ◌*ℤ◌
no_strides e s h = rw (div-eq_of_lt h) (ground (arith, zero-mul s))

start_empty :
    (value : String → ℤ) (iv lo hi : String) (s e : ℕ)
    → value hi ≡ value lo -ℤ pos e
    → suc e < s
    → eval value (upward_reverse iv lo hi s false).start ≡ value lo
unfolding eval upward_reverse
start_empty value iv lo hi s e h l =
    rw (h, span_below (value lo) e, no_strides e s l) (omega int_laws)

no_stride : (e s : ℕ) → suc e < s → negsuc e /ℤ pos s ≡ pos 0
unfolding ◌/ℤ◌
no_stride e s h = rw (div-eq_of_lt h) (ground arith)

zero_times : (s : ℕ) → pos 0 *ℤ pos s ≡ pos 0
unfolding ◌*ℤ◌
zero_times s = ground (arith, zero-mul s)

plus_zero : (lo : ℤ) → lo +ℤ pos 0 ≡ lo
plus_zero lo = omega int_laws

-- The values from one stride below the start up to the start, and those between minus the stride
-- and 0.
near :
    (lo : ℤ) (s e : ℕ)
    → e ≤ s
    → is_int (lo -ℤ pos s) ≡ true
    → is_int lo ≡ true
    → is_int (lo -ℤ pos e) ≡ true
near lo s e h b t =
    is_int-between (lo -ℤ pos s) (lo -ℤ pos e) lo
      (ground (arith, -ℤ_parts lo (pos s), -ℤ_parts lo (pos e)))
      (ground (arith, -ℤ_parts lo (pos e))) b t

less_one : (lo : ℤ) (e : ℕ) → lo -ℤ pos e -ℤ pos 1 ≡ lo -ℤ pos (suc e)
less_one lo e = omega int_laws

int-negsuc : (e s : ℕ) → suc e < s → is_int (pos s) ≡ true → is_int (negsuc e) ≡ true
unfolding is_int
int-negsuc e s h t = ground (arith, h, t)

int-zero : is_int (pos 0) ≡ true
unfolding is_int
int-zero = ground arith

empty_fits :
    (value : String → ℤ) (iv lo hi : String) (s e : ℕ)
    → value hi ≡ value lo -ℤ pos e
    → suc e < s
    → is_int (value lo) ≡ true
    → is_int (value lo -ℤ pos s) ≡ true
    → is_int (pos s) ≡ true
    → fits value (upward_reverse iv lo hi s false).start ≡ true
unfolding fits eval upward_reverse
empty_fits value iv lo hi s e h l a b c =
    rw (h, span_below (value lo) e, no_stride e s l, zero_times s, plus_zero (value lo))
      (ground (
        arith,
        a,
        c,
        near (value lo) s e (omega arith) b a,
        less_one (value lo) e,
        near (value lo) s (suc e) (omega arith) b a,
        int-negsuc e s l c,
        int-zero,
      ))

empty_loop :
    (value : String → ℤ) (iv lo hi : String) (s e fuel : ℕ)
    → value hi ≡ value lo -ℤ pos e
    → suc e < s
    → is_int (value lo) ≡ true
    → is_int (value lo -ℤ pos s) ≡ true
    → is_int (pos s) ≡ true
    → 2 < fuel
    → (visits value fuel (upward_loop iv lo hi s false) ≡ some [])
      × (visits value fuel (upward_reverse iv lo hi s false) ≡ some (value lo ∷ []))
unfolding visits upward_loop upward_reverse eval fits
empty_loop value iv lo hi s e fuel h l a b c f = (
  if_all a (ap is_int h ∙ near (value lo) s e (omega arith) b a) c
      ∙ ap (λ b. rounds fuel lt b (pos s) (value lo)) h
      ∙ rounds_none fuel lt (value lo -ℤ pos e) (pos s) (value lo) (omega arith)
          (ground (arith, -ℤ_parts (value lo) (pos e))),
  if_all (empty_fits value iv lo hi s e h l a b c) a c
      ∙ ap (rounds fuel ge (value lo) (pos 0 -ℤ pos s)) (start_empty value iv lo hi s e h l)
      ∙ rounds_one fuel ge (value lo) (pos 0 -ℤ pos s) (value lo) (omega arith) (ground arith)
          (ap is_int (minus_stride (value lo) s) ∙ b)
          (ground (arith, +ℤ_parts (value lo) (pos 0 -ℤ pos s), -ℤ_parts (pos 0) (pos s))),
)

-- Take a `for` statement whose variable is of type `int`, whose condition is `<` against a bound
-- that is `e` below the start, so that it runs no round, and whose stride is greater than `e` + 1,
-- with its name and texts recovered, where the texts are expressions of type `int` and the start,
-- the stride, and the start less the stride are values of that type. The header written for it is
-- the text of a loop over the same variable, grouped as C++ groups the text, that runs one round,
-- at the start: the division of the negative span rounds towards zero.
pub reverse_for_header-empty :
    (eval_int_literal : Expr → Option ℤ) (source_text_of : Expr → String) (value : String → ℤ)
    (init : InitStmt) (cond_expr inc : Expr) (vd : VarDecl) (init_expr bound : Expr) (s e fuel : ℕ)
    → parse_init init ≡ some (vd, init_expr)
    → vd.var_type ≡ some int_type
    → parse_cond vd.decl (peel cond_expr) ≡ some (lt, bound)
    → parse_inc eval_int_literal vd.decl (peel inc) ≡ some (pos (suc s))
    → is_empty vd.name ≡ false
    → is_empty (source_text_of init_expr) ≡ false
    → is_empty (source_text_of bound) ≡ false
    → value (source_text_of bound) ≡ value (source_text_of init_expr) -ℤ pos e
    → suc e < suc s
    → is_int (value (source_text_of init_expr)) ≡ true
    → is_int (value (source_text_of init_expr) -ℤ pos (suc s)) ≡ true
    → is_int (pos (suc s)) ≡ true
    → 2 < fuel
    → (h : ForHeader) × Reads
        (reverse_for_header eval_int_literal source_text_of
          (some (record { init = some init; cond_expr = some cond_expr; inc = some inc }))).header
        h
      × (h.var ≡ vd.name)
      × (visits value fuel
            (upward_loop vd.name (source_text_of init_expr) (source_text_of bound) (suc s) false)
          ≡ some [])
      × (visits value fuel h ≡ some (value (source_text_of init_expr) ∷ []))
unfolding reverse_for_header upward_reverse
reverse_for_header-empty eval_int_literal source_text_of value init cond_expr inc vd init_expr bound
      s e fuel pi type pc pn n t b v l a below c f =
    let lo = source_text_of init_expr in
    let hi = source_text_of bound in
    let (there, back) = empty_loop value vd.name lo hi (suc s) e fuel v l a below c f in
    (
      upward_reverse vd.name lo hi (suc s) false,
      Reads-along
          (header_of_clauses eval_int_literal source_text_of init cond_expr inc vd init_expr bound
              lt s pi pc pn n t b
            ∙ reversed_header-upward vd.name lo hi s false)
          (upward_reverse-Reads vd.name lo hi (suc s) false),
      refl,
      there,
      back,
    )
