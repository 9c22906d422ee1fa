-- ===== src/Stub/Interface.antt =====
-- The stub controller behind the interface of lib/MotorControl/include/MotorControl/MotorController.h.
use kinetic_mirror_matrix_es.Prelude.{map}
use kinetic_mirror_matrix_es.Controller.{MotorController}
use kinetic_mirror_matrix_es.Stub.{
  StubMotorController, is_any_moving_for_mask, wake_mask, sleep_mask, move_abs_mask, home_mask,
  tick, set_thermal_limits_enabled,
}

abbrev pub stub_controller : MotorController
stub_controller = record {
  Controller = StubMotorController;
  motors = λ c. map (λ s. s.motor) c.slots;
  is_any_moving_for_mask = is_any_moving_for_mask;
  wake_mask = wake_mask;
  sleep_mask = sleep_mask;
  move_abs_mask = move_abs_mask;
  home_mask = home_mask;
  tick = tick;
  set_thermal_limits_enabled = set_thermal_limits_enabled;
  set_deceleration = λ c decel_sps2. c;
}
