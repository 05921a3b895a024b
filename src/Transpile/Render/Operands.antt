-- ===== src/Transpile/Render/Operands.antt =====
-- The guards of render_uncompute, transpiler/src/uncompute_render.cpp: an operation with the wrong
-- number of operands renders to the empty text.
use sturm_cpp.Common.{List, [], ◌∷◌}
use sturm_cpp.Common.Text.{String}
use sturm_cpp.Transpile.Qir.{QValueRef}

abbrev pub with_one : List QValueRef → (QValueRef → String) → String
with_one (a ∷ []) text = text a
with_one _ text = ""

abbrev pub with_two : List QValueRef → (QValueRef → QValueRef → String) → String
with_two (a ∷ b ∷ []) text = text a b
with_two _ text = ""
