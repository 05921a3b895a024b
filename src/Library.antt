-- ===== src/Library.antt =====
-- The arithmetic routines of include/sturm/detail/lib.
pub mod Adder
pub mod Logic
pub mod Proxies
mod Tests
