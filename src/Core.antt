-- ===== src/Core.antt =====
-- The core of the runtime: gates, the qubit pool, contexts and the execution of gates.
pub mod Sink
pub mod Mask
pub mod GateKind
pub mod Pool
pub mod ControlStack
pub mod Orkan
pub mod Context
pub mod Execute
mod Tests
