-- ===== src/Transpile/Meaning.antt =====
-- What the statements that the transpiler reads and writes do, and which statements undo which.
pub mod Variables
pub mod Statements
pub mod Inverse
pub mod Undo
pub mod Printed
pub mod Lifo
