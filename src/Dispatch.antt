-- ===== src/Dispatch.antt =====
-- Layer A of the gate dispatch, src/sturm/dispatch: gates whose operands are in part classical.
pub mod Reduction
pub mod Gate
pub mod Mixed
pub mod Reduced
pub mod Classical
pub mod Promotion
mod Tests
