-- ===== src/Tests/HardwareTests.antt =====
-- The hardware controller with the simulated adapter, at concrete inputs.
use kinetic_mirror_matrix_es.Prelude.{
  ℕ, ◌≡◌, ◌⊎◌, refl, true, false, List, [], ◌∷◌, some, get_elem?,
}
use kinetic_mirror_matrix_es.Prelude.Int.{pos, negsuc}
use kinetic_mirror_matrix_es.Motor.Mask.{selected}
use kinetic_mirror_matrix_es.Motor.{fresh_motor, update_budget, record_op}
use kinetic_mirror_matrix_es.Hardware.Commands.{is_any_moving_for_mask}
use kinetic_mirror_matrix_es.Hardware.Register.{
  Call, moves, homes, ticks, adapter_runs, run, Shows, run-init-Shows,
}
use kinetic_mirror_matrix_es.Hardware.Safety.{tick-IsOff}
use kinetic_mirror_matrix_es.Hardware.Tick.Axes.{IsOff}
use kinetic_mirror_matrix_es.Hardware.Tick.Barrier.{
  NoneMoves, Pointwise, Advanced, run_barrier-all_or_none,
}
use kinetic_mirror_matrix_es.Hardware.Tick.{barrier_open, run_barrier, tick}
use kinetic_mirror_matrix_es.Hardware.{
  Axis, HomingPlan, HardwareMotorController, any_each, update_each, latch, init,
}
use kinetic_mirror_matrix_es.Tests.Sim.{sim, at_rest, all_running}

abbrev plan : ℕ → HomingPlan
plan phase = record {
  active = true;
  phase = phase;
  overshoot = pos 800;
  backoff = pos 125;
  full_range = pos 2400;
  speed = pos 4000;
  accel = pos 16000;
}

-- A motor in the first homing leg, 10 s over its budget.
abbrev hot_axis : Axis
hot_axis = record {
  motor = record (fresh_motor 0) { budget_tenths = negsuc 99; moving = true; awake = true };
  homing = plan 0;
  dir_bit = false;
  sleep_bit = true;
  forced_awake = true;
}

abbrev cut_axis : Axis
cut_axis = record {
  motor = record (fresh_motor 0) { budget_tenths = negsuc 99; position = pos 40 };
  homing = record (plan 0) { active = false };
  dir_bit = false;
  sleep_bit = false;
  forced_awake = false;
}

abbrev hot : HardwareMotorController sim
hot = record {
  axes = hot_axis ∷ [];
  fas_state = all_running;
  events = latch (hot_axis ∷ []) ∷ [];
  thermal_limits_enabled = true;
  decel_sps2 = pos 0;
  shared_step = false;
}

hot_cut : get_elem? (tick sim hot 100).axes 0 ≡ some cut_axis
unfolding tick update_budget record_op update_each any_each
hot_cut = refl

tick-IsOff_example : IsOff cut_axis
tick-IsOff_example = tick-IsOff sim hot 100 0 cut_axis refl hot_cut refl

-- One motor has finished its first leg, the other has not.
abbrev pair : List Axis
pair = record hot_axis { motor = fresh_motor 0 } ∷ hot_axis ∷ []

run_barrier-all_or_none_example :
    ((barrier_open 0 pair ≡ false) × (run_barrier sim 0 (at_rest, pair, []) ≡ (at_rest, pair, [])))
    ⊎ (NoneMoves 0 pair × Pointwise (Advanced 0) pair (run_barrier sim 0 (at_rest, pair, [])).1)
run_barrier-all_or_none_example = run_barrier-all_or_none sim 0 at_rest pair []

pair_waits : run_barrier sim 0 (at_rest, pair, []) ≡ (at_rest, pair, [])
unfolding run_barrier any_each
pair_waits = refl

abbrev session : List (Call sim)
session =
    homes 1 (pos 800) (pos 125) (pos 4000) (pos 16000) (pos 0) 10
    ∷ adapter_runs at_rest
    ∷ ticks 900
    ∷ moves 2 (negsuc 99) (pos 4000) (pos 16000) 950
    ∷ []

run-init-Shows_example : Shows sim (run sim (init sim at_rest 2 false) session)
run-init-Shows_example = run-init-Shows sim at_rest 2 false session

idle_pair : is_any_moving_for_mask sim (init sim at_rest 2 false) 3 ≡ false
unfolding is_any_moving_for_mask init any_each selected
idle_pair = refl
