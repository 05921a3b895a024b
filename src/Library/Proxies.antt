-- ===== src/Library/Proxies.antt =====
-- The routines of include/sturm/detail/lib are templates over the type of their bits. The lists
-- of gates that stand for them here are those of the instance with `Bit = BitProxy`; this module
-- takes their statements from include/sturm/detail/qtypes/bit_proxy.hpp.

use sturm_cpp.Common.{ℕ, List, [], ◌∷◌}
use sturm_cpp.Circuit.{Op, op_x, op_cx, op_ccx}
use sturm_cpp.Machine.{Machine, M, pure, ◌>>=◌}
use sturm_cpp.Qtypes.Bit.{BitProxy, flip, xor_assign, xor_assign_and}

-- `t.flip()`, `t ^= c` and `t ^= (a & b)` on the proxies of the qubits.
unfoldable pub proxy_statement : (ℕ → BitProxy) → Op → M BitProxy
unfolding flip xor_assign xor_assign_and
proxy_statement proxy (op_x t) = flip (proxy t)
proxy_statement proxy (op_cx c t) = xor_assign (proxy t) (proxy c)
proxy_statement proxy (op_ccx a b t) = xor_assign_and (proxy t) (proxy a) (proxy b)

unfoldable pub proxy_statements : (ℕ → BitProxy) → List Op → M (Unit {0})
unfolding proxy_statement
proxy_statements proxy [] = pure tt
proxy_statements proxy (op ∷ ops) = proxy_statement proxy op >>= λ b. proxy_statements proxy ops

abbrev target : Op → ℕ
target (op_x t) = t
target (op_cx c t) = t
target (op_ccx a b t) = t
