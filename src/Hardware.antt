-- ===== src/Hardware.antt =====
-- lib/MotorControl/include/MotorControl/HardwareMotorController.h: the state of the controller of
-- the real motors, and the interface of include/hal/FasAdapter.h through which it drives them. The
-- native build is modelled, where `ARDUINO` is not defined and the controller keeps the DIR and
-- SLEEP outputs itself. Bit i of `dir_bits_`, `sleep_bits_` and `forced_awake_mask_` is a field of
-- axis i; `events` logs the calls that leave the controller, in order.
pub mod Commands
pub mod Tick
pub mod Latch
pub mod Order
pub mod Register
pub mod Safety
use kinetic_mirror_matrix_es.Prelude.{
  ℕ, zero, suc, ◌+◌, ◌/◌, Bool, true, false, List, [], ◌∷◌, ◌++◌, map, ltb, if◌then◌else◌, length,
}
use kinetic_mirror_matrix_es.Prelude.Int.{ℤ, pos}
use kinetic_mirror_matrix_es.Motor.{MotorState, fresh_motor}

-- The motion adapter that the controller is given; what it relies on is stated with the theorems.
pub record FasAdapter : Type 1 where
  pub State : Type 0
  pub start_move_abs : State → ℕ → ℤ → ℤ → ℤ → State × Bool
  pub is_moving : State → ℕ → Bool
  pub current_position : State → ℕ → ℤ
  pub set_current_position : State → ℕ → ℤ → State

pub record HomingPlan : Type 0 where
  pub active : Bool
  pub phase : ℕ
  pub overshoot : ℤ
  pub backoff : ℤ
  pub full_range : ℤ
  pub speed : ℤ
  pub accel : ℤ

pub record Axis : Type 0 where
  pub motor : MotorState
  pub homing : HomingPlan
  pub dir_bit : Bool
  pub sleep_bit : Bool
  pub forced_awake : Bool

-- `setDirSleep` with all DIR and SLEEP bits, or `startMoveAbs` of one motor.
pub data Event : Type 0 where
  latched : List Bool → List Bool → Event
  started : ℕ → ℤ → Event

pub record HardwareMotorController (fas : FasAdapter) : Type 0 where
  pub axes : List Axis
  pub fas_state : fas.State
  pub events : List Event
  pub thermal_limits_enabled : Bool
  pub decel_sps2 : ℤ
  -- `USE_SHARED_STEP` of include/MotorControl/BuildConfig.h.
  pub shared_step : Bool

abbrev pub no_homing : HomingPlan
no_homing = record {
  active = false;
  phase = 0;
  overshoot = pos 0;
  backoff = pos 0;
  full_range = pos 0;
  speed = pos 0;
  accel = pos 0;
}

unfoldable pub fresh_axes : ℕ → ℕ → List Axis
fresh_axes i zero = []
fresh_axes i (suc n) =
    record {
      motor = fresh_motor i;
      homing = no_homing;
      dir_bit = false;
      sleep_bit = false;
      forced_awake = false;
    }
    ∷ fresh_axes (suc i) n

-- `latch_`: the current bits go to the shift register.
abbrev pub latch : List Axis → Event
latch axes = latched (map (λ a. a.dir_bit) axes) (map (λ a. a.sleep_bit) axes)

-- A loop over the motors with their index, from index i on.
unfoldable pub update_each : ℕ → (ℕ → Axis → Axis) → List Axis → List Axis
update_each i f [] = []
update_each i f (a ∷ axes) = f i a ∷ update_each (suc i) f axes

unfoldable pub any_each : ℕ → (ℕ → Axis → Bool) → List Axis → Bool
any_each i p [] = false
any_each i p (a ∷ axes) = if p i a then true else any_each (suc i) p axes

module _ (fas : FasAdapter) where
  -- The constructor with injected dependencies, with at most eight motors.
  unfoldable pub init : fas.State → ℕ → Bool → HardwareMotorController fas
  unfolding fresh_axes
  init fas_state count shared_step =
      let axes = fresh_axes 0 (if ltb 8 count then 8 else count) in
      record {
        axes = axes;
        fas_state = fas_state;
        events = latch axes ∷ [];
        thermal_limits_enabled = true;
        decel_sps2 = pos 0;
        shared_step = shared_step;
      }

  unfoldable pub motor_count : HardwareMotorController fas → ℕ
  motor_count c = length c.axes

  unfoldable pub set_thermal_limits_enabled :
      HardwareMotorController fas → Bool → HardwareMotorController fas
  set_thermal_limits_enabled c enabled = record c { thermal_limits_enabled = enabled }

  unfoldable pub set_deceleration : HardwareMotorController fas → ℤ → HardwareMotorController fas
  set_deceleration c decel_sps2 = record c { decel_sps2 = decel_sps2 }
