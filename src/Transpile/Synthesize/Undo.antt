-- ===== src/Transpile/Synthesize/Undo.antt =====
-- The uncompute pass and the emitter together.
use sturm_cpp.Common.{List, reverse}
use sturm_cpp.Transpile.Qir.{QScope}
use sturm_cpp.Transpile.Meaning.Statements.{Statement}
use sturm_cpp.Transpile.Meaning.Lifo.{inverse_all}
use sturm_cpp.Transpile.Synthesize.{stable_sort}

-- The inverses of the operations of a scope, the last in the source first.
abbrev pub undo_statements : QScope → List Statement
undo_statements scope = inverse_all (reverse (stable_sort scope.ops))
