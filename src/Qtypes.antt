-- ===== src/Qtypes.antt =====
-- Single bits, classical or quantum: include/sturm/detail/qtypes/bit_proxy.hpp, the materialized
-- operators and src/sturm/uncompute/uncompute_api.cpp.
pub mod Bit
pub mod Uncompute
pub mod When
pub mod Operators
mod Tests
