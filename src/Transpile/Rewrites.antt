-- ===== src/Transpile/Rewrites.antt =====
-- The texts that the transpiler writes in place of lossy assignments, modular arithmetic and
-- assignments from a subscript.
pub mod Fresh
pub mod Lossy
pub mod Cleanup
pub mod Modular
pub mod QramAssign
