-- ===== src/SharedStep/Calls.antt =====
-- The calls that the controller makes of the adapter, with the time of each, the edges of the
-- generator between them, and runs of them.
use kinetic_mirror_matrix_es.Prelude.{ℕ, List, [], ◌∷◌}
use kinetic_mirror_matrix_es.Prelude.Int.{ℤ}
use kinetic_mirror_matrix_es.SharedStep.{
  Adapter, enable_outputs, disable_outputs, on_rising_edge_hook,
}
use kinetic_mirror_matrix_es.SharedStep.Moves.{start_move_abs}
use kinetic_mirror_matrix_es.SharedStep.Updates.{
  is_moving, current_position, set_current_position, set_deceleration,
}

pub data Call : Type 0 where
  moves : ℕ → ℕ → ℤ → ℤ → ℤ → Call
  asks_moving : ℕ → ℕ → Call
  asks_position : ℕ → ℕ → Call
  sets_position : ℕ → ℤ → Call
  sets_deceleration : ℤ → Call
  enables disables : ℕ → Call
  edges : ℕ → Call

abbrev pub step : Call → Adapter → Adapter
step (moves now id target speed accel) a = (start_move_abs now id target speed accel a).0
step (asks_moving now id) a = (is_moving now id a).0
step (asks_position now id) a = (current_position now id a).0
step (sets_position id position) a = set_current_position id position a
step (sets_deceleration decel) a = set_deceleration decel a
step (enables id) a = enable_outputs id a
step (disables id) a = disable_outputs id a
step (edges now) a = on_rising_edge_hook now a

abbrev pub run : List Call → Adapter → Adapter
run [] a = a
run (c ∷ cs) a = run cs (step c a)
