-- ===== src/Core/Pool.antt =====
-- include/sturm/core/qubit_pool.hpp: the pool that hands out qubit indices. Its mutex makes
-- each call one step; an `int` index is a number.
pub mod Laws
use sturm_cpp.Common.{ℕ, ◌+◌, Bool, not, ◌&&◌, List, [], ◌∷◌, ltb, is_elem}
use sturm_cpp.Common.Int.{ℤ, pos, increment, decrement}

pub record QubitPool : Type 0 where
  pub free : List ℕ  -- the back of the vector stands first
  pub high_water : ℕ
  pub in_use : ℤ

unfoldable pub allocate : QubitPool → ℕ × QubitPool
allocate p = elim p.free [
  | [] ↦ (p.high_water, record p { high_water = p.high_water + 1; in_use = increment p.in_use })
  | idx ∷ rest ↦ (idx, record p { free = rest; in_use = increment p.in_use })
]

unfoldable pub release : ℕ → QubitPool → QubitPool
release idx p = record p { free = idx ∷ p.free; in_use = decrement p.in_use }

pub reset_for_testing : QubitPool → QubitPool
reset_for_testing p = record { free = []; high_water = 0; in_use = pos 0 }

-- The index has been handed out and not yet given back.
abbrev pub is_live : QubitPool → ℕ → Bool
is_live p i = ltb i p.high_water && not (is_elem i p.free)
