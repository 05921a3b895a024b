-- ===== src/Transpile.antt =====
-- The transpiler, transpiler/: its intermediate form and what it does on it. The Clang AST and
-- the rewriter are not part of the repository and enter as parameters.
pub mod Qir
pub mod Plugin
pub mod Render
pub mod Meaning
pub mod SourceMap
pub mod Synthesize
pub mod Emitter
pub mod Adjoint
pub mod Loop
pub mod Synthesis
pub mod Skip
pub mod Rewrites
pub mod Dump
mod Tests
