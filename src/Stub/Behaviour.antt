-- ===== src/Stub/Behaviour.antt =====
-- What the operations of the stub controller do to each motor.
use kinetic_mirror_matrix_es.Prelude.{
  ℕ, ◌+◌, ◌^◌, ◌≤◌, ◌<◌, ◌≡◌, ◌≢◌, ◌↔◌, refl, sym, ◌∙◌, true, false, some, get_elem?, arith, sub32,
  Bool-cases, inl, inr,
}
use mathlib.Core.Bool.{false≢true}
use kinetic_mirror_matrix_es.Prelude.Int.{ℤ, pos, ◌-ℤ◌, ltb_ℤ}
use kinetic_mirror_matrix_es.Kinematics.{estimate_move_time_ms}
use kinetic_mirror_matrix_es.Motor.{overrun_tenths, update_budget, record_op, labs}
use kinetic_mirror_matrix_es.Motor.Mask.{
  selected, any_masked, get_elem?-update, get_elem?-map, map-eq-some, any-find, any-Hit, Hit,
}
use kinetic_mirror_matrix_es.Stub.{
  Slot, StubMotorController, is_moving, is_any_moving_for_mask, start_move, move_abs_mask,
  sleep_mask, auto_sleep, complete, tick_slot, tick,
}

-- A controller refuses to sleep exactly when one of the selected motors moves, and a refused
-- request changes nothing.
pub sleep_mask-refused :
    (c : StubMotorController) (mask : ℕ)
    → ((sleep_mask c mask).1 ≡ false ↔ Hit mask is_moving c.slots)
      × ((sleep_mask c mask).1 ≡ false → (sleep_mask c mask).0 ≡ c)
unfolding sleep_mask
sleep_mask-refused c mask = elim (Bool-cases (any_masked 0 mask is_moving c.slots)) [
  | inl busy ↦
      rw (busy, sleep_mask)
        (((λ _. any-find mask is_moving c.slots busy), (λ _. refl)), (λ _. refl))
  | inr idle ↦
      rw (idle, sleep_mask)
        (
          (
            (λ e. absurd (false≢true (sym e))),
            (λ h. absurd (false≢true (sym idle ∙ any-Hit mask is_moving c.slots h))),
          ),
          (λ e. absurd (false≢true (sym e))),
        )
]

tick_slot-started :
    (target speed accel : ℤ) (now later : ℕ) (s : Slot)
    → let dur = estimate_move_time_ms (pos (labs (target -ℤ s.motor.position))) speed accel in
      now + dur < 2 ^ 32
      → now + dur ≤ later
      → let r = tick_slot false later (start_move target speed accel now s) in
        (r.motor.position ≡ target)
        × (r.motor.moving ≡ false)
        × (r.motor.awake ≡ false)
        × (r.plan.active ≡ false)
        × (now ≢ 0 → r.motor.last_op_last_ms ≡ sub32 later now)
unfolding tick_slot complete auto_sleep start_move update_budget record_op
tick_slot-started target speed accel now later s h k = ground arith

-- With the thermal limits off, an accepted move is over at the first tick that is not before its
-- start plus the estimate: each selected motor is then at the target, stopped and asleep, its
-- plan done, and the recorded duration is the time since the start, where that was not 0.
pub move_then_tick :
    (c : StubMotorController) (mask : ℕ) (target speed accel : ℤ) (now later j : ℕ) (s : Slot)
    → is_any_moving_for_mask c mask ≡ false
    → c.thermal_limits_enabled ≡ false
    → get_elem? c.slots j ≡ some s
    → selected mask j ≡ true
    → now + estimate_move_time_ms (pos (labs (target -ℤ s.motor.position))) speed accel < 2 ^ 32
    → now + estimate_move_time_ms (pos (labs (target -ℤ s.motor.position))) speed accel ≤ later
    → (r : Slot) × (get_elem? (tick (move_abs_mask c mask target speed accel now).0 later).slots j
        ≡ some r)
      × (r.motor.position ≡ target)
      × (r.motor.moving ≡ false)
      × (r.motor.awake ≡ false)
      × (r.plan.active ≡ false)
      × (now ≢ 0 → r.motor.last_op_last_ms ≡ sub32 later now)
unfolding move_abs_mask tick
move_then_tick c mask target speed accel now later j s idle off here hit short due =
    let f = start_move target speed accel now in
    let moved = (move_abs_mask c mask target speed accel now).0 in
    let at : get_elem? moved.slots j ≡ some (f s) =
      rw (idle, move_abs_mask, get_elem?-update mask f c.slots j, here) (ground arith) in
    let done = tick_slot-started target speed accel now later s short due in
    (
      tick_slot false later (f s),
      rw (idle, off) (ground (arith, get_elem?-map (tick_slot false later) moved.slots j)),
      done.0,
      done.1,
      done.2,
      done.3,
      done.4,
    )

tick_slot-overrun :
    (now : ℕ) (s : Slot)
    → let r = tick_slot true now s in
      ltb_ℤ r.motor.budget_tenths overrun_tenths ≡ true
      → (r.motor.awake ≡ false) × (r.motor.moving ≡ false) × (r.plan.active ≡ false)
unfolding tick_slot auto_sleep complete record_op
tick_slot-overrun now s low = ground arith

-- A tick with the thermal limits on leaves no motor awake or moving whose budget is more than
-- five seconds below zero.
pub tick-overrun :
    (c : StubMotorController) (now j : ℕ) (r : Slot)
    → c.thermal_limits_enabled ≡ true
    → get_elem? (tick c now).slots j ≡ some r
    → ltb_ℤ r.motor.budget_tenths overrun_tenths ≡ true
    → (r.motor.awake ≡ false) × (r.motor.moving ≡ false) × (r.plan.active ≡ false)
unfolding tick
tick-overrun c now j r on e low =
    let f = tick_slot c.thermal_limits_enabled now in
    let (s, _, same) = map-eq-some f _ (sym (get_elem?-map f c.slots j) ∙ e) in
    let r' : tick_slot true now s ≡ r = rw (← on) same in
    rw (← r') (tick_slot-overrun now s (rw r' low))

-- A move of some motors leaves the others as they were.
pub move-unselected :
    (c : StubMotorController) (mask : ℕ) (target speed accel : ℤ) (now j : ℕ)
    → selected mask j ≡ false
    → get_elem? (move_abs_mask c mask target speed accel now).0.slots j ≡ get_elem? c.slots j
unfolding move_abs_mask
move-unselected c mask target speed accel now j miss =
    elim (Bool-cases (is_any_moving_for_mask c mask)) [
      | inl busy ↦ rw (busy, move_abs_mask) refl
      | inr idle ↦ rw (idle, move_abs_mask, get_elem?-update mask _ c.slots j, miss) refl
    ]
