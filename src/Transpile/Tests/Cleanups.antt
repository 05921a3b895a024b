-- ===== src/Transpile/Tests/Cleanups.antt =====
-- Two lossy assignments in one block, one in the body of main.

use sturm_cpp.Common.{ℕ, ◌==◌, ◌≡◌, refl, none, some, List, [], ◌∷◌, if◌then◌else◌}
use sturm_cpp.Common.Int.{pos}
use sturm_cpp.Transpile.Rewrites.Lossy.{LossyEmission, mul_assign, div_assign}
use sturm_cpp.Transpile.Rewrites.Cleanup.{
  LossyOpHit, Parents, emit_lossy_cleanup, is_suppressed, group_cleanups_by_block, zip,
}
use sturm_cpp.Transpile.Rewrites.Cleanup.Lifo.{
  text_of, has_hit, lifo_text, text_of-group_cleanups_by_block,
}

abbrev product : ℕ → LossyOpHit
product b = record {
  opcode = mul_assign;
  lhs_name = "a";
  rhs_name = "b";
  lhs_width = pos 4;
  enclosing_block = some b;
}

abbrev quotient : ℕ → LossyOpHit
quotient b = record {
  opcode = div_assign;
  lhs_name = "a";
  rhs_name = "c";
  lhs_width = pos 4;
  enclosing_block = some b;
}

abbrev product_code : LossyEmission
product_code = record { text = ""; swap_target_name = "t"; aux_tmp_name = ""; opcode = mul_assign }

abbrev quotient_code : LossyEmission
quotient_code = record {
  text = "";
  swap_target_name = "q";
  aux_tmp_name = "r";
  opcode = div_assign;
}

abbrev hits : List LossyOpHit
hits = product 5 ∷ product 1 ∷ quotient 5 ∷ []

abbrev codes : List LossyEmission
codes = product_code ∷ product_code ∷ quotient_code ∷ []

-- Block 1 is the body of main.
abbrev parents : Parents
parents b = if b == 1 then some "main" else none

division_text :
    emit_lossy_cleanup (quotient 5) quotient_code ≡ "swap(a, q);\ndivide_oop_adj(a, c, q, r);\n"
unfolding emit_lossy_cleanup sturm_cpp.Transpile.Rewrites.Cleanup.oop_adj_name
division_text = refl

text_of-group_cleanups_by_block_example :
    text_of 5 (group_cleanups_by_block hits codes (some parents))
    ≡ (if has_hit 5 hits then some (lifo_text (some parents) 5 (zip hits codes)) else none)
text_of-group_cleanups_by_block_example =
    text_of-group_cleanups_by_block hits codes (some parents) 5 refl
