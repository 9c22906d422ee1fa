-- ===== src/SharedStep/Ramp.antt =====
-- src/drivers/Esp32/SharedStepAdapterEsp32.cpp, `computeMotionWindow_` and `updateRamp_`: the speed
-- that all motors share, which rises with the acceleration and falls before the nearest target.
use kinetic_mirror_matrix_es.Prelude.{
  ℕ, ◌+◌, ◌-◌, ◌*◌, ◌/◌, ◌%◌, ◌^◌, Bool, false, not, ◌&&◌, ◌||◌, Option, none, some, List, [], ◌∷◌,
  ltb, leb, ◌==◌, if◌then◌else◌, u32,
}
use kinetic_mirror_matrix_es.Prelude.Int.{pos_part, neg_part, ◌-ℤ◌}
use kinetic_mirror_matrix_es.SharedStep.{
  Slot, Channel, Adapter, min_gen_sps, maybe_start_gen, stop_gen,
}

-- How far a motor has to go.
unfoldable pub remaining : Slot → ℕ
remaining s = let d = s.target -ℤ s.position in u32 (pos_part d + neg_part d)

-- The loop over the slots, with `any_moving` and `local_min`.
unfoldable pub window_from : Bool → ℕ → List Channel → Option ℕ
unfolding remaining
window_from any local_min [] = if any then some local_min else none
window_from any local_min (c ∷ cs) =
    window_from (any || c.slot.moving)
      (if c.slot.moving && ltb (remaining c.slot) local_min then remaining c.slot else local_min) cs

-- `none` is the result `false`.
unfoldable pub compute_motion_window : List Channel → Option ℕ
unfolding window_from
compute_motion_window cs = window_from false (2 ^ 32 - 1) cs

unfoldable pub ceil_div_u32 : ℕ → ℕ → ℕ
ceil_div_u32 numerator denominator =
    if denominator == 0 then 0 else u32 ((numerator + denominator - 1) / denominator)

abbrev pub target_speed : Adapter → ℕ
target_speed a = if ltb 0 a.v_max_sps then a.v_max_sps else min_gen_sps

unfoldable pub need_decel : ℕ → Adapter → Bool
unfolding ceil_div_u32
need_decel min_remaining a =
    let stopping_distance =
      if ltb 0 a.d_sps2 then ceil_div_u32 (a.v_cur_sps * a.v_cur_sps) (2 * a.d_sps2) else 0 in
    ltb 0 a.d_sps2 && (leb min_remaining stopping_distance || ltb (target_speed a) a.v_cur_sps)

abbrev pub need_accel : ℕ → Adapter → Bool
need_accel min_remaining a = not (need_decel min_remaining a) && ltb a.v_cur_sps (target_speed a)

-- `dv_total`: the change of the speed in the elapsed time, with the rest of the last one.
abbrev pub dv_total : ℕ → ℕ → Adapter → ℕ
dv_total min_remaining elapsed_us a =
    (if need_accel min_remaining a
        then (if ltb 0 a.a_sps2 then a.a_sps2 else 1)
        else if need_decel min_remaining a
        then a.d_sps2
        else 0)
      * elapsed_us
    + a.dv_accum

-- `new_speed += static_cast<int> (delta_velocity)`, with the limit: a change of 2 ^ 31 or more is a
-- negative number. A negative speed is written 0, which is how every read of `v_cur_sps_` and
-- `maybeStartGen_` take it. The sum of two numbers below 2 ^ 31 is written without an overflow,
-- which the source leaves undefined.
abbrev pub sped_up : ℕ → ℕ → ℕ → ℕ
sped_up target delta_velocity speed =
    if ltb delta_velocity (2 ^ 31)
    then (if ltb target (speed + delta_velocity) then target else speed + delta_velocity)
    else speed - (2 ^ 32 - delta_velocity)

-- `new_speed -= static_cast<int> (delta_velocity)`, in the same way.
abbrev pub slowed_down : ℕ → ℕ → ℕ
slowed_down delta_velocity speed =
    if ltb delta_velocity (2 ^ 31)
    then speed - delta_velocity
    else speed + (2 ^ 32 - delta_velocity)

unfoldable pub next_speed : ℕ → ℕ → Adapter → ℕ
next_speed min_remaining elapsed_us a =
    let delta_velocity = u32 (dv_total min_remaining elapsed_us a / 1000000) in
    if need_accel min_remaining a && ltb 0 delta_velocity
    then sped_up (target_speed a) delta_velocity a.v_cur_sps
    else if need_decel min_remaining a && ltb 0 delta_velocity
    then slowed_down delta_velocity a.v_cur_sps
    else a.v_cur_sps

-- The generator does not run slower than its minimum.
abbrev pub commanded_speed : ℕ → ℕ
commanded_speed new_speed =
    if ltb 0 new_speed && ltb new_speed min_gen_sps then min_gen_sps else new_speed

abbrev pub timed : ℕ → ℕ → ℕ → Adapter → Adapter
timed now_us min_remaining elapsed_us a = record a {
  ramp_last_us = now_us;
  dv_accum = dv_total min_remaining elapsed_us a % 1000000;
}

unfoldable pub update_ramp_by : ℕ → ℕ → ℕ → Adapter → Adapter
unfolding next_speed maybe_start_gen
update_ramp_by now_us min_remaining elapsed_us a =
    let new_speed = next_speed min_remaining elapsed_us a in
    let a' = timed now_us min_remaining elapsed_us a in
    let running =
      if not a.gen_running || not (commanded_speed new_speed == a.current_speed_sps)
      then maybe_start_gen now_us (commanded_speed new_speed) a'
      else a' in
    record running { v_cur_sps = new_speed }

-- No motor moves: the generator stops.
unfoldable pub stopped_ramp : ℕ → Adapter → Adapter
unfolding stop_gen
stopped_ramp now_us a = record (stop_gen a) {
  v_cur_sps = 0;
  current_speed_sps = 0;
  period_us = 0;
  dv_accum = 0;
  ramp_last_us = now_us;
}

-- A clock that has wrapped since the last call counts as no time.
unfoldable pub update_ramp : ℕ → Adapter → Adapter
unfolding compute_motion_window update_ramp_by stopped_ramp
update_ramp now_us a = elim (compute_motion_window a.channels) [
  | none ↦ stopped_ramp now_us a
  | some min_remaining ↦
      if leb now_us a.ramp_last_us
      then a
      else update_ramp_by now_us min_remaining (now_us - a.ramp_last_us) a
]
