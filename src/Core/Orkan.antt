-- ===== src/Core/Orkan.antt =====
-- The calls that the runtime makes of the Orkan statevector library (vendor/orkan), which is
-- not modelled: a statevector is the list of the calls made on it, oldest first.
use sturm_cpp.Common.{ℕ, List}

-- A `double` angle, kept as the expression that computes it. `given n` is the caller's n-th
-- angle, `half_pi` the constant `kHalfPi`.
pub data Angle : Type 0 where
  zero_angle half_pi : Angle
  given : ℕ → Angle
  negate halve : Angle → Angle

pub data OrkanCall : Type 0 where
  apply_x apply_y apply_z apply_h apply_s apply_t : ℕ → OrkanCall
  apply_p apply_rx apply_ry apply_rz : ℕ → Angle → OrkanCall
  apply_cx apply_cy apply_cz apply_swap : ℕ → ℕ → OrkanCall
  apply_ccx : ℕ → ℕ → ℕ → OrkanCall

abbrev pub StateVector : Type 0
StateVector = List OrkanCall
