-- ===== src/Hardware/Tick.antt =====
-- lib/MotorControl/src/HardwareMotorController.cpp, `tick`: the three loops over the motors, which
-- read the adapter, run the homing sequence behind group barriers, and finish it.
pub mod Axes
pub mod Barrier
use kinetic_mirror_matrix_es.Prelude.{
  ℕ, zero, suc, ◌+◌, ◌-◌, ◌/◌, Bool, true, false, not, ◌&&◌, ◌||◌, List, [], ◌∷◌, ◌++◌, ltb, ◌==◌,
  if◌then◌else◌,
}
use kinetic_mirror_matrix_es.Prelude.Int.{ℤ, pos, pos_part, ◌+ℤ◌, ◌-ℤ◌, ltb_ℤ}
use kinetic_mirror_matrix_es.Motor.{MotorState, labs, update_budget, record_op, overrun_tenths}
use kinetic_mirror_matrix_es.Hardware.{
  FasAdapter, HomingPlan, Axis, Event, started, HardwareMotorController, latch, update_each,
  any_each,
}
use kinetic_mirror_matrix_es.Hardware.Commands.{forward}

-- The motor after the budget update, given what the adapter reports. The source adds no steps
-- where the position is unchanged; the distance is 0 there.
unfoldable pub observe : ℕ → Bool → ℤ → MotorState → MotorState
observe now_ms running position m =
    let m' = update_budget now_ms m in
    record m' {
      moving = running;
      steps_since_home =
          if m'.homed
          then m'.steps_since_home + labs (position -ℤ m'.position)
          else m'.steps_since_home;
      position = position;
    }

-- Auto-sleep at idle.
unfoldable pub idle_sleep : Bool → Axis → Axis
idle_sleep running a =
    if not running && not a.forced_awake
    then record a { sleep_bit = false; motor = record a.motor { awake = false } }
    else record a { motor = record a.motor { awake = true } }

-- Auto-sleep of a motor whose budget is overrun beyond the grace period.
unfoldable pub overrun_sleep : Bool → ℕ → Axis → Axis
overrun_sleep enabled now_ms a =
    if enabled && ltb_ℤ a.motor.budget_tenths overrun_tenths
    then (let off = record a {
      forced_awake = false;
      sleep_bit = false;
      motor = record a.motor { awake = false };
    } in
        if a.homing.active || a.motor.moving
        then record off {
          homing = record a.homing { active = false };
          motor = record_op true now_ms (record off.motor { moving = false });
        }
        else off)
    else a

-- The completion of an operation that is not a homing sequence under way.
unfoldable pub finish_op : ℕ → Axis → Axis
finish_op now_ms a =
    if a.motor.last_op_ongoing && not a.motor.moving && not a.homing.active
    then record a { motor = record_op false now_ms a.motor }
    else a

-- `latch_()` where a SLEEP bit has been cleared; the bits of the later motors are still the old ones.
abbrev pub log_sleep : List Axis → Axis → Axis → List Axis → List Event → List Event
log_sleep before a a' rest events =
    if a.sleep_bit && not a'.sleep_bit then events ++ latch (before ++ a' ∷ rest) ∷ [] else events

-- A motor whose homing leg is `phase`.
abbrev pub in_leg : ℕ → ℕ → Axis → Bool
in_leg phase i a = a.homing.active && a.homing.phase == phase

abbrev pub leg_moving : ℕ → ℕ → Axis → Bool
leg_moving phase i a = in_leg phase i a && a.motor.moving

-- `any && all_done`: some motor is in the leg, and none of them moves.
unfoldable pub barrier_open : ℕ → List Axis → Bool
barrier_open phase axes = any_each 0 (in_leg phase) axes && not (any_each 0 (leg_moving phase) axes)

-- How far the leg after `phase` goes: the backoff, then half of the range.
abbrev pub next_distance : ℕ → HomingPlan → ℤ
next_distance phase hp =
    if phase == 0
    then hp.backoff
    else if ltb_ℤ (pos 0) hp.full_range
    then pos (pos_part hp.full_range / 2)
    else pos 1200

-- The last loop: homing is over for a motor that has stopped after the last leg.
abbrev pub homed_now : Axis → Bool
homed_now a = a.homing.active && a.homing.phase == 2 && not a.motor.moving

abbrev pub finish_homing : ℕ → ℕ → Axis → Axis
finish_homing now_ms i a =
    if homed_now a
    then record a {
      motor =
          record_op true now_ms (record a.motor {
            position = pos 0;
            moving = false;
            homed = true;
            steps_since_home = 0;
          });
      homing = record a.homing { active = false };
    }
    else a

module _ (fas : FasAdapter) where
  open fas use {State, start_move_abs, is_moving, current_position, set_current_position}

  -- The first loop, from index i on, behind the motors that it is done with.
  unfoldable pub sync_loop :
      Bool → ℕ → State → ℕ → List Axis → List Axis → List Event → List Axis × List Event
  unfolding observe idle_sleep overrun_sleep finish_op
  sync_loop enabled now_ms s i before [] events = (before, events)
  sync_loop enabled now_ms s i before (a ∷ rest) events =
      let running = is_moving s i in
      let seen = record a { motor = observe now_ms running (current_position s i) a.motor } in
      let idle = idle_sleep running seen in
      let events' = log_sleep before seen idle rest events in
      let cooled = overrun_sleep enabled now_ms idle in
      let events'' = log_sleep before idle cooled rest events' in
      sync_loop enabled now_ms s (suc i) (before ++ finish_op now_ms cooled ∷ []) rest events''

  -- `startMoveSingle_` and the next phase.
  abbrev pub start_leg : State → ℕ → ℕ → Axis → Axis
  start_leg s phase i a =
      let cur = current_position s i in
      let target = cur +ℤ next_distance phase a.homing in
      record a {
        motor = record a.motor {
          position = cur;
          speed = a.homing.speed;
          accel = a.homing.accel;
          moving = true;
        };
        dir_bit = forward cur target;
        sleep_bit = true;
        homing = record a.homing { phase = phase + 1 };
      }

  -- The loop behind an open barrier: the next leg of each motor in the leg.
  unfoldable pub start_legs :
      ℕ → State → ℕ → List Axis → List Axis → List Event → State × List Axis × List Event
  start_legs phase s i before [] events = (s, before, events)
  start_legs phase s i before (a ∷ rest) events = elim (in_leg phase i a) [
    | true ↦
        let target = current_position s i +ℤ next_distance phase a.homing in
        let a' = start_leg s phase i a in
        start_legs phase (start_move_abs s i target a.homing.speed a.homing.accel).0 (suc i)
          (before ++ a' ∷ []) rest (events ++ latch (before ++ a' ∷ rest) ∷ started i target ∷ [])
    | false ↦ start_legs phase s (suc i) (before ++ a ∷ []) rest events
  ]

  unfoldable pub run_barrier : ℕ → State × List Axis × List Event → State × List Axis × List Event
  unfolding barrier_open start_legs
  run_barrier phase (s, axes, events) =
      if barrier_open phase axes then start_legs phase s 0 [] axes events else (s, axes, events)

  unfoldable pub reset_positions : ℕ → List Axis → State → State
  reset_positions i [] s = s
  reset_positions i (a ∷ axes) s =
      reset_positions (suc i) axes (if homed_now a then set_current_position s i (pos 0) else s)

  unfoldable pub tick : HardwareMotorController fas → ℕ → HardwareMotorController fas
  unfolding sync_loop run_barrier reset_positions
  tick c now_ms =
      let (axes, events) =
        sync_loop c.thermal_limits_enabled now_ms c.fas_state 0 [] c.axes c.events in
      let (s', axes', events') = run_barrier 1 (run_barrier 0 (c.fas_state, axes, events)) in
      record c {
        fas_state = reset_positions 0 axes' s';
        axes = update_each 0 (finish_homing now_ms) axes';
        events = events';
      }
