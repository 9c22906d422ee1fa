-- ===== src/Stub.antt =====
-- lib/MotorControl/src/StubMotorController.cpp and .h: the controller of the native build, which
-- completes a move when its estimated time is over. The arrays `motors_` and `plans_` are one list
-- of slots, with an entry for each index below `count_`.
pub mod Invariant
pub mod Behaviour
pub mod Interface
use kinetic_mirror_matrix_es.Prelude.{
  ℕ, zero, suc, ◌+◌, ◌-◌, ◌*◌, ◌/◌, ◌%◌, ◌^◌, Bool, true, false, ◌&&◌, ◌||◌, List, [], ◌∷◌, map,
  Option, some, none, ltb, leb, length, if◌then◌else◌,
}
use kinetic_mirror_matrix_es.Prelude.Int.{ℤ, pos, ◌-ℤ◌, ltb_ℤ}
use kinetic_mirror_matrix_es.Kinematics.{estimate_move_time_ms, estimate_home_time_ms}
use kinetic_mirror_matrix_es.Motor.Mask.{update_masked, any_masked}
use kinetic_mirror_matrix_es.Motor.{
  MotorState, move_op, home_op, fresh_motor, labs, update_budget, record_op, overrun_tenths,
}

pub record MovePlan : Type 0 where
  pub active : Bool
  pub is_home : Bool
  pub target : ℤ
  pub end_ms : ℕ
  pub start_pos : ℤ

pub record Slot : Type 0 where
  pub motor : MotorState
  pub plan : MovePlan

pub record StubMotorController : Type 0 where
  pub slots : List Slot
  pub thermal_limits_enabled : Bool

abbrev no_plan : MovePlan
no_plan = record { active = false; is_home = false; target = pos 0; end_ms = 0; start_pos = pos 0 }

fresh_slots : ℕ → ℕ → List Slot
fresh_slots i zero = []
fresh_slots i (suc n) = record { motor = fresh_motor i; plan = no_plan } ∷ fresh_slots (suc i) n

-- The constructor, with at most eight motors.
unfoldable pub init : ℕ → StubMotorController
unfolding fresh_slots
init count = record {
  slots = fresh_slots 0 (if ltb 8 count then 8 else count);
  thermal_limits_enabled = true;
}

unfoldable pub motor_count : StubMotorController → ℕ
motor_count c = length c.slots

unfoldable pub set_thermal_limits_enabled : StubMotorController → Bool → StubMotorController
set_thermal_limits_enabled c enabled = record c { thermal_limits_enabled = enabled }

abbrev pub is_moving : Slot → Bool
is_moving s = s.motor.moving

unfoldable pub is_any_moving_for_mask : StubMotorController → ℕ → Bool
is_any_moving_for_mask c mask = any_masked 0 mask is_moving c.slots

abbrev pub set_awake : Bool → Slot → Slot
set_awake awake s = record s { motor = record s.motor { awake = awake } }

unfoldable pub wake_mask : StubMotorController → ℕ → StubMotorController
wake_mask c mask = record c { slots = update_masked 0 mask (set_awake true) c.slots }

unfoldable pub sleep_mask : StubMotorController → ℕ → StubMotorController × Bool
sleep_mask c mask =
    if any_masked 0 mask is_moving c.slots
    then (c, false)
    else (record c { slots = update_masked 0 mask (set_awake false) c.slots }, true)

-- What the two loops assign to a selected motor.
unfoldable pub start_move : ℤ → ℤ → ℤ → ℕ → Slot → Slot
start_move target speed accel now_ms s =
    let dur_ms = estimate_move_time_ms (pos (labs (target -ℤ s.motor.position))) speed accel in
    record {
      motor = record s.motor {
        awake = true;
        speed = speed;
        accel = accel;
        moving = true;
        last_op_type = move_op;
        last_op_started_ms = now_ms;
        last_op_est_ms = dur_ms;
        last_op_ongoing = true;
      };
      plan = record s.plan {
        active = true;
        is_home = false;
        target = target;
        start_pos = s.motor.position;
        end_ms = (now_ms + dur_ms) % 2 ^ 32;
      };
    }

unfoldable pub start_home : ℕ → ℤ → ℤ → ℕ → Slot → Slot
start_home dur_ms speed accel now_ms s = record {
  motor = record s.motor {
    awake = true;
    speed = speed;
    accel = accel;
    moving = true;
    last_op_type = home_op;
    last_op_started_ms = now_ms;
    last_op_est_ms = dur_ms;
    last_op_ongoing = true;
  };
  plan = record s.plan {
    active = true;
    is_home = true;
    target = pos 0;
    start_pos = s.motor.position;
    end_ms = (now_ms + dur_ms) % 2 ^ 32;
  };
}

unfoldable pub move_abs_mask : StubMotorController → ℕ → ℤ → ℤ → ℤ → ℕ → StubMotorController × Bool
unfolding is_any_moving_for_mask start_move
move_abs_mask c mask target speed accel now_ms =
    if is_any_moving_for_mask c mask then (c, false) else (
      record c { slots = update_masked 0 mask (start_move target speed accel now_ms) c.slots },
      true,
    )

-- The argument `full_range` is not used.
unfoldable pub home_mask :
    StubMotorController → ℕ → ℤ → ℤ → ℤ → ℤ → ℤ → ℕ → StubMotorController × Bool
unfolding is_any_moving_for_mask start_home
home_mask c mask overshoot backoff speed accel full_range now_ms =
    let dur_ms = estimate_home_time_ms overshoot backoff speed accel in
    if is_any_moving_for_mask c mask then (c, false) else (
      record c { slots = update_masked 0 mask (start_home dur_ms speed accel now_ms) c.slots },
      true,
    )

-- The second part of the loop body of `tick`: the forced sleep of an overrun motor.
unfoldable pub auto_sleep : Bool → ℕ → Slot → Slot
auto_sleep enabled now_ms s =
    if enabled && ltb_ℤ s.motor.budget_tenths overrun_tenths
    then (if s.plan.active || s.motor.moving
        then record {
          motor = record_op true now_ms (record s.motor { awake = false; moving = false });
          plan = record s.plan { active = false };
        }
        else record s { motor = record s.motor { awake = false } })
    else s

-- What the completion of a plan does to the distance since homing.
unfoldable pub arrive : Bool → ℤ → MotorState → MotorState
arrive is_home old_pos m =
    if is_home
    then record m { homed = true; steps_since_home = 0 }
    else if m.homed
    then record m { steps_since_home = m.steps_since_home + labs (m.position -ℤ old_pos) }
    else m

-- The third part: a plan whose time is over.
unfoldable pub complete : ℕ → Slot → Slot
unfolding arrive
complete now_ms s =
    if s.plan.active && leb s.plan.end_ms now_ms
    then record {
      motor = arrive s.plan.is_home s.motor.position (
          record_op false now_ms
            (record s.motor { position = s.plan.target; moving = false; awake = false }));
      plan = record s.plan { active = false };
    }
    else s

unfoldable pub tick_slot : Bool → ℕ → Slot → Slot
tick_slot enabled now_ms s =
    complete now_ms (auto_sleep enabled now_ms (record s { motor = update_budget now_ms s.motor }))

unfoldable pub tick : StubMotorController → ℕ → StubMotorController
unfolding tick_slot
tick c now_ms = record c { slots = map (tick_slot c.thermal_limits_enabled now_ms) c.slots }
