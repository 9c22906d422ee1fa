-- ===== src/Tests/Sim.antt =====
-- A motion adapter for the tests: it starts every move, and a motor runs until the test stops it.
use kinetic_mirror_matrix_es.Prelude.{ℕ, Bool, true, false, ◌==◌, if◌then◌else◌}
use kinetic_mirror_matrix_es.Prelude.Int.{ℤ, pos}
use kinetic_mirror_matrix_es.Hardware.{FasAdapter}

pub record SimMotor : Type 0 where
  pub running : Bool
  pub position : ℤ

abbrev pub SimState : Type 0
SimState = ℕ → SimMotor

abbrev pub put : SimState → ℕ → SimMotor → SimState
put s i m j = if i == j then m else s j

abbrev pub sim : FasAdapter
sim = record {
  State = SimState;
  start_move_abs =
      λ s i target speed accel. (put s i (record { running = true; position = target }), true);
  is_moving = λ s i. (s i).running;
  current_position = λ s i. (s i).position;
  set_current_position = λ s i p. put s i (record { running = (s i).running; position = p });
}

-- All motors at rest at 0.
abbrev pub at_rest : SimState
at_rest i = record { running = false; position = pos 0 }

abbrev pub all_running : SimState
all_running i = record { running = true; position = pos 40 }
