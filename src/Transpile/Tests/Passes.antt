-- ===== src/Transpile/Tests/Passes.antt =====
-- Loops, the registry, the skip test and fresh names on concrete inputs.
use sturm_cpp.Common.{
  ◌==◌, ◌≡◌, refl, true, false, Option, none, some, List, [], ◌∷◌, ◌++◌, arith, if◌then◌else◌,
}
use sturm_cpp.Common.Int.{ℤ, pos, ◌+ℤ◌, ◌-ℤ◌}
use sturm_cpp.Common.Text.{String, str_eq, to_string}
use sturm_cpp.Transpile.Loop.{
  int_type, Expr, decl_ref, unary, binary, opaque, VarDecl, InitStmt, one_var, ForStmt,
  reverse_for_header, parse_init, parse_cond, parse_inc, CmpOp, refers, peel,
}
use sturm_cpp.Transpile.Loop
use sturm_cpp.Transpile.Loop.Header.{is_int, Reads, ForHeader, visits}
use sturm_cpp.Transpile.Loop.Reverse.{upward_loop}
use sturm_cpp.Transpile.Loop.Empty.{reverse_for_header-empty}
use sturm_cpp.Transpile.Synthesis.{empty_registry, emitted}
use sturm_cpp.Transpile.Synthesis.Calls.{Call, insert, status_is, call_all}
use sturm_cpp.Transpile.Synthesis.Snapshot.{Lists, inserted, call_all-Lists}
use sturm_cpp.Transpile.Skip.{read_head, codes, idempotency_header, should_skip}
use sturm_cpp.Transpile.Skip.Generated.{unlines, should_skip-header}
use sturm_cpp.Transpile.Rewrites.Fresh.{
  FreshNameAllocator, plain, control, names, AreDistinct, names-AreDistinct,
}

-- `for (int i = 2; i < 9; i += 3)`
abbrev two : Expr
two = opaque 2

abbrev nine : Expr
nine = opaque 9

abbrev three : Expr
three = opaque 3

abbrev loop_var : VarDecl
loop_var = record { decl = 7; name = "i"; var_init = some two; var_type = some int_type }

abbrev literal : Expr → Option ℤ
literal (opaque n) = some (pos n)
literal _ = none

abbrev text_of : Expr → String
text_of (opaque n) = if n == 2 then "2" else (if n == 9 then "9" else "3")
text_of _ = "?"

abbrev value_of : String → ℤ
value_of s = if str_eq s "2" then pos 2 else pos 9

loop_condition : parse_cond 7 (peel (binary Loop.lt (decl_ref 7) nine)) ≡ some (CmpOp.lt, nine)
unfolding parse_cond peel
loop_condition = refl

loop_increment :
    parse_inc literal 7 (peel (binary Loop.add_assign (decl_ref 7) three)) ≡ some (pos 3)
unfolding parse_inc peel
loop_increment = refl

loop_start : parse_init (one_var loop_var) ≡ some (loop_var, two)
unfolding parse_init
loop_start = refl

abbrev loop_stmt : ForStmt
loop_stmt = record {
  init = some (one_var loop_var);
  cond_expr = some (binary Loop.lt (decl_ref 7) nine);
  inc = some (binary Loop.add_assign (decl_ref 7) three);
}

forward_values :
    visits value_of 20 (upward_loop "i" "2" "9" 3 false) ≡ some (pos 2 ∷ pos 5 ∷ pos 8 ∷ [])
unfolding visits upward_loop ◌+ℤ◌ is_int
forward_values = refl

-- The same with a bound of 2.
abbrev same_value : String → ℤ
same_value _ = pos 2

same_bound : same_value (text_of nine) ≡ same_value (text_of two) -ℤ pos 0
unfolding ◌-ℤ◌
same_bound = refl

two_is_int : is_int (pos 2) ≡ true
unfolding is_int
two_is_int = refl

three_is_int : is_int (pos 3) ≡ true
unfolding is_int
three_is_int = refl

below_is_int : is_int (pos 2 -ℤ pos 3) ≡ true
unfolding is_int ◌-ℤ◌
below_is_int = refl

reverse_for_header-empty_example :
    (h : ForHeader) × Reads (reverse_for_header literal text_of (some loop_stmt)).header h
    × (h.var ≡ "i")
    × (visits same_value 9 (upward_loop "i" "2" "9" 3 false) ≡ some [])
    × (visits same_value 9 h ≡ some (pos 2 ∷ []))
reverse_for_header-empty_example =
    reverse_for_header-empty literal text_of same_value (one_var loop_var)
      (binary Loop.lt (decl_ref 7) nine) (binary Loop.add_assign (decl_ref 7) three) loop_var two
      nine 2 0 9 loop_start refl loop_condition loop_increment refl refl refl same_bound
      (omega arith) two_is_int below_is_int three_is_int (omega arith)

abbrev calls : List Call
calls =
    insert (some 4)
    ∷ insert none
    ∷ status_is (some 4) emitted
    ∷ insert (some 2)
    ∷ insert (some 4)
    ∷ []

call_all-Lists_example : Lists (inserted calls []) (call_all calls empty_registry)
call_all-Lists_example = call_all-Lists calls

calls_order : inserted calls [] ≡ 4 ∷ 2 ∷ []
unfolding inserted
calls_order = refl

should_skip-header_example :
    should_skip (
      read_head (
        unlines ((32 ∷ 9 ∷ []) ∷ [] ∷ [])
        ++ (idempotency_header (codes "a.cpp") ++ codes "int x;")))
    ≡ true
should_skip-header_example =
    should_skip-header ((32 ∷ 9 ∷ []) ∷ [] ∷ []) (codes "a.cpp") (codes "int x;")
      (((refl, omega arith), ((refl, omega arith), tt)), (tt, tt)) (omega arith)

plain_source : should_skip (codes "int x; // AUTO-GENERATED by sturm-transpile") ≡ false
unfolding should_skip
plain_source = refl

abbrev new_allocator : FreshNameAllocator
new_allocator = record { counter = 0; ctrl_counter = 0 }

names-AreDistinct_example : AreDistinct (names (plain ∷ control ∷ plain ∷ []) new_allocator)
names-AreDistinct_example =
    names-AreDistinct (plain ∷ control ∷ plain ∷ []) new_allocator (omega arith) (omega arith)

fresh_names :
    names (plain ∷ control ∷ plain ∷ []) new_allocator
    ≡ "__stu_t0" ∷ "__stu_ctrl0" ∷ "__stu_t1" ∷ []
unfolding names to_string
fresh_names = refl
