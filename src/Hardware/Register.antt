-- ===== src/Hardware/Register.antt =====
-- Sequences of calls on the hardware controller, with the adapter changing between them, and what
-- the shift register shows after them.
use kinetic_mirror_matrix_es.Prelude.{
  ℕ, zero, suc, ◌≡◌, refl, sym, ap, ◌∙◌, Bool, true, ◌&&◌, List, [], ◌∷◌, ◌++◌, map, arith, some,
  Bool-cases, inl, inr, length,
}
use kinetic_mirror_matrix_es.Prelude.Int.{ℤ, pos, ◌+ℤ◌, ◌-ℤ◌}
use kinetic_mirror_matrix_es.Motor.Mask.{selected}
use kinetic_mirror_matrix_es.Motor.{labs}
use kinetic_mirror_matrix_es.Hardware.{
  FasAdapter, Axis, Event, started, HardwareMotorController, latch, update_each, init,
  set_thermal_limits_enabled, set_deceleration,
}
use kinetic_mirror_matrix_es.Hardware.Commands.{
  moved_axes, homed_axes, range_or_default, is_any_moving_for_mask, wake_mask, sleep_mask,
  start_moves, move_abs_mask, start_first_legs, home_mask,
}
use kinetic_mirror_matrix_es.Hardware.Latch.{
  shown, IsShown, latch-IsShown, shown-started, sync_loop-IsShown, start_legs-IsShown,
}
use kinetic_mirror_matrix_es.Hardware.Tick.{
  sync_loop, run_barrier, finish_homing, barrier_open, tick,
}

-- A call of the controller, or a change of the adapter's state, as when motors run.
pub data Call (fas : FasAdapter) : Type 0 where
  wakes sleeps : ℕ → Call fas
  moves : ℕ → ℤ → ℤ → ℤ → ℕ → Call fas
  homes : ℕ → ℤ → ℤ → ℤ → ℤ → ℤ → ℕ → Call fas
  limits : Bool → Call fas
  decelerates : ℤ → Call fas
  ticks : ℕ → Call fas
  adapter_runs : fas.State → Call fas

finish_homing-dirs :
    (now i : ℕ) (axes : List Axis)
    → map (λ a. a.dir_bit) (update_each i (finish_homing now) axes) ≡ map (λ a. a.dir_bit) axes
unfolding update_each
finish_homing-dirs now i [] = refl
finish_homing-dirs now i (a ∷ axes) = ground (arith, finish_homing-dirs now (suc i) axes)

finish_homing-sleeps :
    (now i : ℕ) (axes : List Axis)
    → map (λ a. a.sleep_bit) (update_each i (finish_homing now) axes) ≡ map (λ a. a.sleep_bit) axes
unfolding update_each
finish_homing-sleeps now i [] = refl
finish_homing-sleeps now i (a ∷ axes) = ground (arith, finish_homing-sleeps now (suc i) axes)

finish_homing-latch :
    (now i : ℕ) (axes : List Axis) → latch (update_each i (finish_homing now) axes) ≡ latch axes
finish_homing-latch now i axes = rw (finish_homing-dirs now i axes, finish_homing-sleeps now i axes)

module _ (fas : FasAdapter) where
  pub step : HardwareMotorController fas → Call fas → HardwareMotorController fas
  unfolding wake_mask sleep_mask move_abs_mask home_mask set_thermal_limits_enabled tick
      set_deceleration
  step c (wakes mask) = wake_mask fas c mask
  step c (sleeps mask) = (sleep_mask fas c mask).0
  step c (moves mask target speed accel now) = (move_abs_mask fas c mask target speed accel now).0
  step c (homes mask overshoot backoff speed accel range now) =
      (home_mask fas c mask overshoot backoff speed accel range now).0
  step c (limits enabled) = set_thermal_limits_enabled fas c enabled
  step c (decelerates decel) = set_deceleration fas c decel
  step c (ticks now) = tick fas c now
  step c (adapter_runs s) = record c { fas_state = s }

  pub run : HardwareMotorController fas → List (Call fas) → HardwareMotorController fas
  unfolding step
  run c [] = c
  run c (call ∷ calls) = run (step c call) calls

  abbrev pub Shows : HardwareMotorController fas → Type 0
  Shows c = IsShown c.axes c.events

  start_moves-shown :
      (n i mask : ℕ) (target speed accel : ℤ) (s : fas.State) (events : List Event) (ok : Bool)
      → shown (start_moves fas n i mask target speed accel s events ok).1 ≡ shown events
  unfolding start_moves
  start_moves-shown zero i mask target speed accel s events ok = refl
  start_moves-shown (suc n) i mask target speed accel s events ok =
      elim (Bool-cases (selected mask i)) [
        | inl hit ↦
            let r = fas.start_move_abs s i target speed accel in
            rw (hit, start_moves)
              (start_moves-shown n (suc i) mask target speed accel r.0
                  (events ++ started i target ∷ []) (ok && r.1)
                ∙ shown-started events i target)
        | inr miss ↦
            rw (miss, start_moves) (start_moves-shown n (suc i) mask target speed accel s events ok)
      ]

  start_first_legs-shown :
      (n i mask : ℕ) (distance speed accel : ℤ) (s : fas.State) (events : List Event)
      → shown (start_first_legs fas n i mask distance speed accel s events).1 ≡ shown events
  unfolding start_first_legs
  start_first_legs-shown zero i mask distance speed accel s events = refl
  start_first_legs-shown (suc n) i mask distance speed accel s events =
      elim (Bool-cases (selected mask i)) [
        | inl hit ↦
            let target = fas.current_position s i -ℤ distance in
            let r = fas.start_move_abs s i target speed accel in
            rw (hit, start_first_legs)
              (start_first_legs-shown n (suc i) mask distance speed accel r.0
                  (events ++ started i target ∷ [])
                ∙ shown-started events i target)
        | inr miss ↦
            rw (miss, start_first_legs)
              (start_first_legs-shown n (suc i) mask distance speed accel s events)
      ]

  run_barrier-IsShown :
      (phase : ℕ) (s : fas.State) (axes : List Axis) (events : List Event)
      → IsShown axes events
      → let r = run_barrier fas phase (s, axes, events) in IsShown r.1 r.2
  unfolding run_barrier
  run_barrier-IsShown phase s axes events h = elim (Bool-cases (barrier_open phase axes)) [
    | inl goes ↦ rw (goes, run_barrier) (start_legs-IsShown fas phase s 0 [] axes events h)
    | inr stays ↦ rw (stays, run_barrier) h
  ]

  tick-Shows : (c : HardwareMotorController fas) (now : ℕ) → Shows c → Shows (tick fas c now)
  unfolding tick
  tick-Shows c now h =
      let r = sync_loop fas c.thermal_limits_enabled now c.fas_state 0 [] c.axes c.events in
      let h0 =
        sync_loop-IsShown fas c.thermal_limits_enabled now c.fas_state 0 [] c.axes c.events h in
      let b0 = run_barrier fas 0 (c.fas_state, r.0, r.1) in
      let h1 = run_barrier-IsShown 0 c.fas_state r.0 r.1 h0 in
      let b1 = run_barrier fas 1 b0 in
      let h2 = run_barrier-IsShown 1 b0.0 b0.1 b0.2 h1 in
      h2 ∙ ap some (sym (finish_homing-latch now 0 b1.1))

  step-Shows : (c : HardwareMotorController fas) (call : Call fas) → Shows c → Shows (step c call)
  unfolding step
  step-Shows c (wakes mask) h = latch-IsShown c.events _
  step-Shows c (sleeps mask) h = elim (Bool-cases (is_any_moving_for_mask fas c mask)) [
    | inl busy ↦ rw (busy, step) h
    | inr idle ↦ rw (idle, step) (latch-IsShown c.events _)
  ]
  step-Shows c (moves mask target speed accel now) h =
      elim (Bool-cases (is_any_moving_for_mask fas c mask)) [
        | inl busy ↦ rw (busy, step) h
        | inr idle ↦
            let axes = moved_axes fas c mask target speed accel now in
            rw (idle, step)
              (start_moves-shown (length axes) 0 mask target speed accel c.fas_state
                  (c.events ++ latch axes ∷ []) true
                ∙ latch-IsShown c.events axes)
      ]
  step-Shows c (homes mask overshoot backoff speed accel range now) h =
      elim (Bool-cases (is_any_moving_for_mask fas c mask)) [
        | inl busy ↦ rw (busy, step) h
        | inr idle ↦
            let full = range_or_default range in
            let axes = homed_axes fas c mask overshoot backoff speed accel full now in
            rw (idle, step)
              (start_first_legs-shown (length axes) 0 mask (full +ℤ pos (labs overshoot)) speed
                  accel c.fas_state (c.events ++ latch axes ∷ [])
                ∙ latch-IsShown c.events axes)
      ]
  step-Shows c (limits enabled) h = h
  step-Shows c (decelerates decel) h = h
  step-Shows c (ticks now) h = tick-Shows c now h
  step-Shows c (adapter_runs s) h = h

  run-Shows :
      (c : HardwareMotorController fas) (calls : List (Call fas)) → Shows c → Shows (run c calls)
  unfolding run
  run-Shows c [] h = h
  run-Shows c (call ∷ calls) h = run-Shows (step c call) calls (step-Shows c call h)

  -- After any sequence of calls, whatever the adapter does between them, the last DIR and SLEEP
  -- bits that the shift register was given are the controller's.
  pub run-init-Shows :
      (s : fas.State) (count : ℕ) (shared : Bool) (calls : List (Call fas))
      → Shows (run (init fas s count shared) calls)
  unfolding init
  run-init-Shows s count shared calls = run-Shows _ calls refl
