-- ===== src/Handlers/Motion.antt =====
-- lib/MotorControl/src/command/CommandHandlers.cpp: `handleMove` and `handleHome`.
use kinetic_mirror_matrix_es.Prelude.{
  ℕ, suc, Bool, false, not, ◌&&◌, ◌||◌, List, [], ◌∷◌, ltb, length, if◌then◌else◌,
}
use kinetic_mirror_matrix_es.Prelude.Int.{ℤ, pos, ltb_ℤ, ◌-ℤ◌}
use kinetic_mirror_matrix_es.Kinematics.{
  estimate_move_time_ms, estimate_move_time_ms_shared_step, estimate_home_time_ms_full_range,
  estimate_home_time_ms_full_range_shared_step,
}
use kinetic_mirror_matrix_es.Motor.{
  MotorState, min_pos_steps, max_pos_steps, max_running_time_s, labs,
}
use kinetic_mirror_matrix_es.Motor.Mask.{selected}
use kinetic_mirror_matrix_es.Controller.{MotorController}
use kinetic_mirror_matrix_es.Text.{Bytes, codes}
use kinetic_mirror_matrix_es.Handlers.{CommandResult, Context, ticked, issue}
use kinetic_mirror_matrix_es.Handlers.Requests.{
  accepted, rejected, MoveRequest, HomeRequest, move_request, home_request,
}
use kinetic_mirror_matrix_es.Handlers.Admission.{
  req_s, durations, longest, too_long, Launch, refuse, launch_too_long, launch_within_budget,
}

unfoldable pub any_moving : List MotorState → Bool
any_moving [] = false
any_moving (m ∷ ms) = m.moving || any_moving ms

-- The index of the first motor of a mask, or the number of motors.
unfoldable pub first_id : ℕ → ℕ → List MotorState → ℕ
unfolding selected
first_id i mask [] = i
first_id i mask (m ∷ ms) = if selected mask i then i else first_id (suc i) mask ms

module _ (ctl : MotorController) (self : ℕ) (shared_step : Bool) where
  unfoldable pub move_ms : Context ctl → MoveRequest → MotorState → ℕ
  unfolding estimate_move_time_ms estimate_move_time_ms_shared_step ◌-ℤ◌
  move_ms x r m =
      let dist = pos (labs (r.target -ℤ m.position)) in
      if shared_step
      then estimate_move_time_ms_shared_step dist r.speed r.accel x.default_decel
      else estimate_move_time_ms dist r.speed r.accel

  abbrev pub move_launch : Bytes → MoveRequest → ℕ → Launch ctl
  move_launch msg_id r now_ms = record {
    action = codes "MOVE";
    msg_id = msg_id;
    mask = r.mask;
    start = λ c. ctl.move_abs_mask c r.mask r.target r.speed r.accel now_ms;
  }

  -- The two checks of the budget and the start, after the tick.
  unfoldable pub start_move : Bytes → MoveRequest → ℕ → Context ctl → CommandResult × Context ctl
  unfolding move_ms durations launch_too_long launch_within_budget
  start_move msg_id r now_ms x =
      let l = move_launch msg_id r now_ms in
      elim (durations (move_ms x r) 0 r.mask 0 (ctl.motors x.controller)) [
        | too_long id req_ms ↦ launch_too_long ctl self l id req_ms x
        | longest req_ms ↦ launch_within_budget ctl self l req_ms x
      ]

  unfoldable pub handle_move : (ℕ → Bytes) → Bytes → ℕ → Context ctl → CommandResult × Context ctl
  unfolding move_request any_moving start_move refuse
  handle_move next_id args now_ms x =
      let msg_id = next_id x.issued in
      let y = issue ctl x in
      let motors = ctl.motors y.controller in
      elim (move_request shared_step (length motors) y.default_speed y.default_accel args) [
        | rejected code reason ↦ refuse ctl self (codes "MOVE") msg_id code reason [] y
        | accepted r ↦
            if shared_step && not (y.in_batch && y.batch_initially_idle) && any_moving motors
            then refuse ctl self (codes "MOVE") msg_id (codes "E04") (codes "BUSY") [] y
            else start_move msg_id r now_ms (ticked ctl now_ms y)
      ]

  -- `if (full_range <= 0) full_range = ...`
  unfoldable pub full_range_of : HomeRequest → ℤ
  unfolding ◌-ℤ◌
  full_range_of r =
      if ltb_ℤ (pos 0) r.full_range then r.full_range else max_pos_steps -ℤ min_pos_steps

  unfoldable pub home_ms : Context ctl → HomeRequest → ℕ
  unfolding estimate_home_time_ms_full_range estimate_home_time_ms_full_range_shared_step
      full_range_of
  home_ms x r =
      if shared_step
      then estimate_home_time_ms_full_range_shared_step r.overshoot r.backoff (full_range_of r)
          r.speed r.accel x.default_decel
      else estimate_home_time_ms_full_range r.overshoot r.backoff (full_range_of r) r.speed r.accel

  abbrev pub home_launch : Bytes → HomeRequest → ℕ → Launch ctl
  home_launch msg_id r now_ms = record {
    action = codes "HOME";
    msg_id = msg_id;
    mask = r.mask;
    start =
        λ c. ctl.home_mask c r.mask r.overshoot r.backoff r.speed r.accel (full_range_of r) now_ms;
  }

  unfoldable pub start_home : Bytes → HomeRequest → ℕ → Context ctl → CommandResult × Context ctl
  unfolding home_ms first_id launch_too_long launch_within_budget full_range_of
  start_home msg_id r now_ms x =
      let req_ms = home_ms x r in
      let l = home_launch msg_id r now_ms in
      if ltb max_running_time_s (req_s req_ms)
      then launch_too_long ctl self l (first_id 0 r.mask (ctl.motors x.controller)) req_ms x
      else launch_within_budget ctl self l req_ms x

  unfoldable pub handle_home : (ℕ → Bytes) → Bytes → ℕ → Context ctl → CommandResult × Context ctl
  unfolding home_request start_home refuse
  handle_home next_id args now_ms x =
      let msg_id = next_id x.issued in
      let y = issue ctl x in
      let motors = ctl.motors y.controller in
      elim (home_request shared_step (length motors) y.default_speed y.default_accel args) [
        | rejected code reason ↦ refuse ctl self (codes "HOME") msg_id code reason [] y
        | accepted r ↦ start_home msg_id r now_ms (ticked ctl now_ms y)
      ]
