-- ===== src/Hardware/Commands.antt =====
-- lib/MotorControl/src/HardwareMotorController.cpp, the requests of the command handlers: wake,
-- sleep, move and home.
use kinetic_mirror_matrix_es.Prelude.{
  ℕ, zero, suc, Bool, true, false, not, ◌&&◌, List, [], ◌∷◌, ◌++◌, if◌then◌else◌, length,
}
use kinetic_mirror_matrix_es.Prelude.Int.{ℤ, pos, ◌+ℤ◌, ◌-ℤ◌, ltb_ℤ}
use kinetic_mirror_matrix_es.Kinematics.{
  estimate_move_time_ms, estimate_move_time_ms_shared_step, estimate_home_time_ms_full_range,
  estimate_home_time_ms_full_range_shared_step,
}
use kinetic_mirror_matrix_es.Motor.{MotorState, OpType, move_op, home_op, labs}
use kinetic_mirror_matrix_es.Motor.Mask.{selected}
use kinetic_mirror_matrix_es.Hardware.{
  FasAdapter, Axis, Event, started, HardwareMotorController, latch, update_each, any_each,
}

-- A loop body that is guarded by `mask & maskForId(i)`.
abbrev pub where_selected : ℕ → (ℕ → Axis → Axis) → ℕ → Axis → Axis
where_selected mask f i a = if selected mask i then f i a else a

-- `long delta = target - cur`; bit 1 is forward.
abbrev pub forward : ℤ → ℤ → Bool
forward cur target = not (ltb_ℤ (target -ℤ cur) (pos 0))

-- What a move and a home assign to a motor before it starts.
unfoldable pub begin_op : OpType → ℤ → ℤ → ℤ → ℕ → ℕ → MotorState → MotorState
begin_op op cur speed accel now_ms est m = record m {
  position = cur;
  speed = speed;
  accel = accel;
  moving = true;
  last_op_type = op;
  last_op_started_ms = now_ms;
  last_op_est_ms = est;
  last_op_ongoing = true;
}

abbrev wake_axis : ℕ → Axis → Axis
wake_axis i a = record a {
  motor = record a.motor { awake = true };
  forced_awake = true;
  sleep_bit = true;
}

abbrev sleep_axis : ℕ → Axis → Axis
sleep_axis i a = record a {
  motor = record a.motor { awake = false };
  forced_awake = false;
  sleep_bit = false;
}

-- `if (full_range <= 0) full_range = 2400;`
abbrev pub range_or_default : ℤ → ℤ
range_or_default full_range = if ltb_ℤ (pos 0) full_range then full_range else pos 2400

module _ (fas : FasAdapter) where
  open fas use {State, start_move_abs, is_moving, current_position}

  unfoldable pub is_any_moving_for_mask : HardwareMotorController fas → ℕ → Bool
  is_any_moving_for_mask c mask =
      any_each 0 (λ i _. selected mask i && is_moving c.fas_state i) c.axes

  unfoldable pub wake_mask : HardwareMotorController fas → ℕ → HardwareMotorController fas
  wake_mask c mask =
      let axes = update_each 0 (where_selected mask wake_axis) c.axes in
      record c { axes = axes; events = c.events ++ latch axes ∷ [] }

  unfoldable pub sleep_mask : HardwareMotorController fas → ℕ → HardwareMotorController fas × Bool
  unfolding is_any_moving_for_mask
  sleep_mask c mask =
      if is_any_moving_for_mask c mask
      then (c, false)
      else (let axes = update_each 0 (where_selected mask sleep_axis) c.axes in
          (record c { axes = axes; events = c.events ++ latch axes ∷ [] }, true))

  abbrev move_axis : HardwareMotorController fas → ℤ → ℤ → ℤ → ℕ → ℕ → Axis → Axis
  move_axis c target speed accel now_ms i a =
      let cur = current_position c.fas_state i in
      let dist = pos (labs (target -ℤ cur)) in
      let est =
        if c.shared_step
        then estimate_move_time_ms_shared_step dist speed accel c.decel_sps2
        else estimate_move_time_ms dist speed accel in
      record a {
        motor = begin_op move_op cur speed accel now_ms est a.motor;
        dir_bit = forward cur target;
        sleep_bit = true;
      }

  -- The motors after the first loop of `moveAbsMask`, and below of `homeMask`.
  abbrev pub moved_axes : HardwareMotorController fas → ℕ → ℤ → ℤ → ℤ → ℕ → List Axis
  moved_axes c mask target speed accel now_ms =
      update_each 0 (where_selected mask (move_axis c target speed accel now_ms)) c.axes

  -- The last loop of `moveAbsMask`, over the n motors from index i on. The Boolean is `ok`.
  unfoldable pub start_moves :
      ℕ → ℕ → ℕ → ℤ → ℤ → ℤ → State → List Event → Bool → State × List Event × Bool
  start_moves zero i mask target speed accel s events ok = (s, events, ok)
  start_moves (suc n) i mask target speed accel s events ok = elim (selected mask i) [
    | true ↦
        let (s', accepted) = start_move_abs s i target speed accel in
        start_moves n (suc i) mask target speed accel s' (events ++ started i target ∷ [])
          (ok && accepted)
    | false ↦ start_moves n (suc i) mask target speed accel s events ok
  ]

  unfoldable pub move_abs_mask :
      HardwareMotorController fas → ℕ → ℤ → ℤ → ℤ → ℕ → HardwareMotorController fas × Bool
  unfolding is_any_moving_for_mask begin_op start_moves
  move_abs_mask c mask target speed accel now_ms =
      if is_any_moving_for_mask c mask
      then (c, false)
      else (let axes = moved_axes c mask target speed accel now_ms in
          let (s, events, ok) =
            start_moves (length axes) 0 mask target speed accel c.fas_state
              (c.events ++ latch axes ∷ []) true in
          (record c { axes = axes; fas_state = s; events = events }, ok))

  abbrev home_axis : HardwareMotorController fas → ℤ → ℤ → ℤ → ℤ → ℤ → ℕ → ℕ → Axis → Axis
  home_axis c overshoot backoff speed accel full_range now_ms i a =
      let cur = current_position c.fas_state i in
      let oshot = pos (labs overshoot) in
      let target = cur -ℤ (full_range +ℤ oshot) in
      let est =
        if c.shared_step
        then estimate_home_time_ms_full_range_shared_step overshoot backoff full_range speed accel
            c.decel_sps2
        else estimate_home_time_ms_full_range overshoot backoff full_range speed accel in
      record a {
        homing = record {
          active = true;
          phase = 0;
          overshoot = oshot;
          backoff = pos (labs backoff);
          full_range = full_range;
          speed = speed;
          accel = accel;
        };
        motor = begin_op home_op cur speed accel now_ms est a.motor;
        dir_bit = forward cur target;
        sleep_bit = true;
      }

  abbrev pub homed_axes : HardwareMotorController fas → ℕ → ℤ → ℤ → ℤ → ℤ → ℤ → ℕ → List Axis
  homed_axes c mask overshoot backoff speed accel range now_ms =
      update_each 0 (where_selected mask (home_axis c overshoot backoff speed accel range now_ms))
        c.axes

  -- The last loop of `homeMask`: the first leg of each motor, from where it stands.
  unfoldable pub start_first_legs : ℕ → ℕ → ℕ → ℤ → ℤ → ℤ → State → List Event → State × List Event
  start_first_legs zero i mask distance speed accel s events = (s, events)
  start_first_legs (suc n) i mask distance speed accel s events = elim (selected mask i) [
    | true ↦
        let target = current_position s i -ℤ distance in
        start_first_legs n (suc i) mask distance speed accel
          (start_move_abs s i target speed accel).0 (events ++ started i target ∷ [])
    | false ↦ start_first_legs n (suc i) mask distance speed accel s events
  ]

  unfoldable pub home_mask :
      HardwareMotorController fas → ℕ → ℤ → ℤ → ℤ → ℤ → ℤ → ℕ → HardwareMotorController fas × Bool
  unfolding is_any_moving_for_mask begin_op start_first_legs
  home_mask c mask overshoot backoff speed accel full_range now_ms =
      if is_any_moving_for_mask c mask
      then (c, false)
      else (let range = range_or_default full_range in
          let axes = homed_axes c mask overshoot backoff speed accel range now_ms in
          let (s, events) =
            start_first_legs (length axes) 0 mask (range +ℤ pos (labs overshoot)) speed accel
              c.fas_state (c.events ++ latch axes ∷ []) in
          (record c { axes = axes; fas_state = s; events = events }, true))
