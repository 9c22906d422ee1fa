-- ===== src/Tests/StubTests.antt =====
-- The stub controller at concrete inputs.
use kinetic_mirror_matrix_es.Prelude.{ℕ, ◌≡◌, refl, true, false, [], ◌∷◌, some, get_elem?}
use kinetic_mirror_matrix_es.Prelude.Int.{pos, negsuc}
use kinetic_mirror_matrix_es.Kinematics.{estimate_move_time_ms, ceil_div}
use kinetic_mirror_matrix_es.Motor.Mask.{selected, any_masked}
use kinetic_mirror_matrix_es.Motor.{fresh_motor, update_budget, record_op}
use kinetic_mirror_matrix_es.Stub.Invariant.{Inv, wakes, moves, ticks, run, run-init-Inv}
use kinetic_mirror_matrix_es.Stub.{
  MovePlan, Slot, StubMotorController, init, is_any_moving_for_mask, tick, auto_sleep, complete,
}

abbrev idle_plan : MovePlan
idle_plan = record {
  active = false;
  is_home = false;
  target = pos 0;
  end_ms = 0;
  start_pos = pos 0;
}

abbrev idle_slot : ℕ → Slot
idle_slot i = record { motor = fresh_motor i; plan = idle_plan }

-- Two idle motors, without thermal limits.
abbrev two_idle : StubMotorController
two_idle = record { slots = idle_slot 0 ∷ idle_slot 1 ∷ []; thermal_limits_enabled = false }

-- A motor that runs at 10 s below zero.
abbrev hot_slot : Slot
hot_slot = record {
  motor = record (fresh_motor 0) { budget_tenths = negsuc 99; moving = true; awake = true };
  plan = record idle_plan { active = true; end_ms = 5000 };
}

abbrev cut_slot : Slot
cut_slot = record {
  motor = record (fresh_motor 0) { budget_tenths = negsuc 99; moving = false; awake = false };
  plan = record idle_plan { active = false; end_ms = 5000 };
}

abbrev hot : StubMotorController
hot = record { slots = hot_slot ∷ []; thermal_limits_enabled = true }

hot_cut : get_elem? (tick hot 100).slots 0 ≡ some cut_slot
unfolding tick update_budget auto_sleep complete record_op
hot_cut = refl

run-init-Inv_example :
    Inv (run (init 2) (wakes 1 ∷ moves 3 (pos 100) (pos 4000) (pos 16000) 10 ∷ ticks 500 ∷ []))
run-init-Inv_example =
    run-init-Inv 2 (wakes 1 ∷ moves 3 (pos 100) (pos 4000) (pos 16000) 10 ∷ ticks 500 ∷ [])

idle_two : is_any_moving_for_mask two_idle 2 ≡ false
unfolding is_any_moving_for_mask any_masked selected
idle_two = refl

second_selected : selected 2 1 ≡ true
unfolding selected
second_selected = refl

duration : estimate_move_time_ms (pos 1200) (pos 4000) (pos 16000) ≡ 550
unfolding estimate_move_time_ms ceil_div
duration = refl

first_unselected : selected 2 0 ≡ false
unfolding selected
first_unselected = refl
