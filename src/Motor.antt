-- ===== src/Motor.antt =====
-- lib/MotorControl/include/MotorControl/MotorController.h and MotorControlConstants.h: the state
-- of a motor, the constants, and the masks by which commands select motors. `long` and `int` are
-- integers, the `uint32_t` times natural numbers below 2 ^ 32. `steps_since_home`, an `int32_t`
-- that only grows by step counts, is a natural number.
pub mod Mask
pub mod Budget
use kinetic_mirror_matrix_es.Prelude.{
  ℕ, ◌+◌, ◌-◌, ◌*◌, ◌/◌, ◌%◌, ◌^◌, Bool, true, false, ◌&&◌, ◌||◌, ltb, leb, ◌==◌, if◌then◌else◌,
  sub32,
}
use kinetic_mirror_matrix_es.Prelude.Int.{ℤ, pos, negsuc, pos_part, neg_part, ◌-ℤ◌, ◌+ℤ◌, ltb_ℤ}

abbrev pub min_pos_steps : ℤ
min_pos_steps = negsuc 1199

abbrev pub max_pos_steps : ℤ
max_pos_steps = pos 1200

abbrev pub default_speed_sps : ℤ
default_speed_sps = pos 4000

abbrev pub default_accel_sps2 : ℤ
default_accel_sps2 = pos 16000

abbrev pub default_overshoot : ℤ
default_overshoot = pos 800

abbrev pub default_backoff : ℤ
default_backoff = pos 125

abbrev pub max_running_time_s : ℕ
max_running_time_s = 90

abbrev pub full_cool_down_time_s : ℕ
full_cool_down_time_s = 60

abbrev pub max_cool_down_time_s : ℕ
max_cool_down_time_s = 300

abbrev pub budget_tenths_max : ℕ
budget_tenths_max = max_running_time_s * 10

abbrev pub spend_tenths_per_sec : ℕ
spend_tenths_per_sec = 10

abbrev pub refill_tenths_per_sec : ℕ
refill_tenths_per_sec = max_running_time_s * 10 / full_cool_down_time_s

-- `kBudgetFloor` of the two `tick`s, and their `overrun_tenths`.
abbrev pub budget_floor : ℤ
budget_floor = negsuc (refill_tenths_per_sec * max_cool_down_time_s - budget_tenths_max - 1)

abbrev pub overrun_tenths : ℤ
overrun_tenths = negsuc (5 * 10 - 1)

pub data OpType : Type 0 where
  no_op move_op home_op : OpType

pub record MotorState : Type 0 where
  pub id : ℕ
  pub position : ℤ
  pub speed : ℤ
  pub accel : ℤ
  pub moving : Bool
  pub awake : Bool
  pub homed : Bool
  pub steps_since_home : ℕ
  pub budget_tenths : ℤ
  pub last_update_ms : ℕ
  pub last_op_started_ms : ℕ
  pub last_op_last_ms : ℕ
  pub last_op_est_ms : ℕ
  pub last_op_type : OpType
  pub last_op_ongoing : Bool

-- The value that both constructors give each motor.
abbrev pub fresh_motor : ℕ → MotorState
fresh_motor id = record {
  id = id;
  position = pos 0;
  speed = default_speed_sps;
  accel = default_accel_sps2;
  moving = false;
  awake = false;
  homed = false;
  steps_since_home = 0;
  budget_tenths = pos budget_tenths_max;
  last_update_ms = 0;
  last_op_started_ms = 0;
  last_op_last_ms = 0;
  last_op_est_ms = 0;
  last_op_type = no_op;
  last_op_ongoing = false;
}

abbrev pub labs : ℤ → ℕ
labs v = pos_part v + neg_part v

unfoldable pub spend : ℤ → ℕ → ℤ
spend budget whole_sec =
    let left = budget -ℤ pos (spend_tenths_per_sec * whole_sec) in
    if ltb_ℤ left budget_floor then budget_floor else left

unfoldable pub refill : ℤ → ℕ → ℤ
refill budget whole_sec =
    let more = budget +ℤ pos (refill_tenths_per_sec * whole_sec) in
    if ltb_ℤ (pos budget_tenths_max) more then pos budget_tenths_max else more

-- The first part of both `tick`s: the runtime budget, in whole seconds since the last update.
unfoldable pub update_budget : ℕ → MotorState → MotorState
update_budget now_ms m =
    let whole_sec = (now_ms - m.last_update_ms) / 1000 in
    if leb m.last_update_ms now_ms && ltb 0 whole_sec
    then record m {
      budget_tenths =
          if m.awake then spend m.budget_tenths whole_sec else refill m.budget_tenths whole_sec;
      last_update_ms = (m.last_update_ms + whole_sec * 1000) % 2 ^ 32;
    }
    else m

-- The end of an operation: its duration is recorded where it has a start time that is not 0.
unfoldable pub record_op : Bool → ℕ → MotorState → MotorState
record_op check_start now_ms m =
    if m.last_op_ongoing
    then record m {
      last_op_ongoing = false;
      last_op_last_ms =
          if m.last_op_started_ms == 0 || check_start && ltb now_ms m.last_op_started_ms
          then m.last_op_last_ms
          else sub32 now_ms m.last_op_started_ms;
    }
    else m
