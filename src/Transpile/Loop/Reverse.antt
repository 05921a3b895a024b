-- ===== src/Transpile/Loop/Reverse.antt =====
-- The rounds of a reversed loop are those of the loop, backwards.
use native.Mathlib.Nat.{add-zero}
use sturm_cpp.Common.{ℕ, suc, ◌≡◌, ◌∙◌, ap, Bool, true, false, Option, some, arith, if◌then◌else◌}
use sturm_cpp.Common.Int.{ℤ, pos}
use sturm_cpp.Common.Text.{String, is_empty, to_string}
use sturm_cpp.Transpile.Loop.{
  CmpOp, lt, le, Expr, InitStmt, VarDecl, parse_init, parse_cond, parse_inc, peel, build_header,
  reversed_header, reverse_clauses, build_upward_reverse,
}
use sturm_cpp.Transpile.Loop.Header.{Reads, text, number, ForHeader}
use sturm_cpp.Transpile.Loop.Climb.{upper}

-- `for (int iv = lo; iv < hi; iv += s)`, with `<=` where it is inclusive.
unfoldable pub upward_loop : String → String → String → ℕ → Bool → ForHeader
upward_loop iv lo hi s inclusive = record {
  var = iv;
  start = text lo;
  cmp = if inclusive then le else lt;
  bound = text hi;
  upward = true;
  stride = number s;
}

pub reversed_header-upward :
    (iv lo hi : String) (s : ℕ) (inclusive : Bool)
    → reversed_header iv lo hi (upper inclusive) (pos (suc s))
      ≡ build_upward_reverse iv lo hi (to_string (suc s)) inclusive
unfolding reversed_header
reversed_header-upward iv lo hi s true =
    ap (λ n. build_upward_reverse iv lo hi (to_string n) true) (add-zero (suc s))
reversed_header-upward iv lo hi s false =
    ap (λ n. build_upward_reverse iv lo hi (to_string n) false) (add-zero (suc s))

module _ (eval_int_literal : Expr → Option ℤ) (source_text_of : Expr → String) where
  pub header_of_clauses :
      (init : InitStmt) (cond_expr inc : Expr) (vd : VarDecl) (init_expr bound : Expr) (op : CmpOp)
      (s : ℕ)
      → parse_init init ≡ some (vd, init_expr)
      → parse_cond vd.decl (peel cond_expr) ≡ some (op, bound)
      → parse_inc eval_int_literal vd.decl (peel inc) ≡ some (pos (suc s))
      → is_empty vd.name ≡ false
      → is_empty (source_text_of init_expr) ≡ false
      → is_empty (source_text_of bound) ≡ false
      → (reverse_clauses eval_int_literal source_text_of init cond_expr inc).header
        ≡ reversed_header vd.name (source_text_of init_expr) (source_text_of bound) op (pos (suc s))
  unfolding reverse_clauses build_header
  header_of_clauses init cond_expr inc vd init_expr bound op s pi pc pn n t b =
      rw (pi, pc, pn, n, t, b, reverse_clauses, build_header) (ground arith)

pub Reads-along : {t u : String} {h : ForHeader} → t ≡ u → Reads u h → Reads t h
Reads-along e r = record {
  prints = e ∙ r.prints;
  start_grouped = r.start_grouped;
  bound_grouped = r.bound_grouped;
  stride_grouped = r.stride_grouped;
}
