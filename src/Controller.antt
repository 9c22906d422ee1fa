-- ===== src/Controller.antt =====
-- lib/MotorControl/include/MotorControl/MotorController.h: the interface by which commands drive
-- a controller. The pointer to a controller that two objects share is a number, its identity.
use kinetic_mirror_matrix_es.Prelude.{ℕ, Bool, List}
use kinetic_mirror_matrix_es.Prelude.Int.{ℤ}
use kinetic_mirror_matrix_es.Motor.{MotorState}

pub record MotorController : Type 1 where
  pub Controller : Type 0
  -- `motorCount` is its length, `state (i)` its entry i.
  pub motors : Controller → List MotorState
  pub is_any_moving_for_mask : Controller → ℕ → Bool
  pub wake_mask : Controller → ℕ → Controller
  pub sleep_mask : Controller → ℕ → Controller × Bool
  pub move_abs_mask : Controller → ℕ → ℤ → ℤ → ℤ → ℕ → Controller × Bool
  pub home_mask : Controller → ℕ → ℤ → ℤ → ℤ → ℤ → ℤ → ℕ → Controller × Bool
  pub tick : Controller → ℕ → Controller
  pub set_thermal_limits_enabled : Controller → Bool → Controller
  pub set_deceleration : Controller → ℤ → Controller
