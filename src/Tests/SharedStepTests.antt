-- ===== src/Tests/SharedStepTests.antt =====
-- The motion adapter of the ESP32 at concrete inputs.
use kinetic_mirror_matrix_es.Prelude.{ℕ, ◌≡◌, refl, true, false, List, [], ◌∷◌, replicate}
use kinetic_mirror_matrix_es.Prelude.Int.{pos, negsuc, ◌-ℤ◌}
use kinetic_mirror_matrix_es.SharedStep.{
  Adapter, begin, idle_channel, latched, speed_set, started, waited,
}
use kinetic_mirror_matrix_es.SharedStep.Ramp.{need_decel, update_ramp}
use kinetic_mirror_matrix_es.SharedStep.Moves.{start_move_abs}
use kinetic_mirror_matrix_es.SharedStep.Calls.{
  Call, asks_moving, asks_position, edges, moves, run, sets_deceleration,
}
use kinetic_mirror_matrix_es.SharedStep.Sound.{Sound}
use kinetic_mirror_matrix_es.SharedStep.Running.{run-begin-Sound}
use kinetic_mirror_matrix_es.SharedStep.Holds.{Holds}
use kinetic_mirror_matrix_es.SharedStep.Progress.{Towards}
use kinetic_mirror_matrix_es.SharedStep.Landing.{asks, move-lands}

-- Before `begin`.
abbrev unused : Adapter
unused = record {
  channels = [];
  attached = true;
  signals = [];
  gen_running = false;
  current_speed_sps = 0;
  period_us = 0;
  phase_anchor_us = 0;
  ramp_last_us = 0;
  v_cur_sps = 0;
  v_max_sps = 0;
  a_sps2 = 0;
  d_sps2 = 0;
  dv_accum = 0;
}

abbrev two_moves : List Call
two_moves =
    sets_deceleration (pos 16000)
    ∷ moves 100 2 (pos 50) (pos 4000) (pos 16000)
    ∷ edges 5000
    ∷ asks_moving 100100 2
    ∷ moves 150000 3 (negsuc 9) (pos 4000) (pos 16000)
    ∷ asks_moving 200100 2
    ∷ asks_position 260100 3
    ∷ []

run-begin-Sound_example : Sound (run two_moves (begin 0 unused))
run-begin-Sound_example = run-begin-Sound 0 unused two_moves refl

abbrev ready : Adapter
ready = record unused { channels = replicate 8 idle_channel }

abbrev questions : List (ℕ × ℕ)
questions = (100100, 2) ∷ (150000, 3) ∷ (900000, 2) ∷ []

move-lands_example :
    Holds 2
      (Towards (pos 50))
      (asks questions ((start_move_abs 100 2 (pos 50) (pos 4000) (pos 16000) ready).0))
move-lands_example =
    move-lands 100 2 (pos 50) (pos 4000) (pos 16000) ready idle_channel questions refl

-- The direction is settled while the motor sleeps, before the generator starts.
first_signals :
    (start_move_abs 100 0
      (pos 50)
      (pos 4000)
      (pos 16000)
      (record ready { channels = idle_channel ∷ [] })).0.signals
    ≡ latched (false ∷ []) (false ∷ [])
      ∷ latched (true ∷ []) (false ∷ [])
      ∷ waited 3
      ∷ latched (true ∷ []) (true ∷ [])
      ∷ speed_set 20
      ∷ started
      ∷ []
unfolding start_move_abs
first_signals = refl

-- One motor on its way to 50 at 3000 steps a second, with a deceleration.
abbrev near : Adapter
near = record ready {
  channels =
      record idle_channel {
        slot = record idle_channel.slot { moving = true; awake = true; target = pos 50 };
      }
      ∷ [];
  gen_running = true;
  current_speed_sps = 3000;
  v_cur_sps = 3000;
  v_max_sps = 4000;
  a_sps2 = 16000;
  d_sps2 = 16000;
}

slows_down : (update_ramp 10000 near).v_cur_sps ≡ 2840
unfolding update_ramp need_decel ◌-ℤ◌
slows_down = refl
