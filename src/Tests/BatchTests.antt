-- ===== src/Tests/BatchTests.antt =====
-- Batches at concrete inputs, on the stub controller and the handler of the motor commands.
use kinetic_mirror_matrix_es.Prelude.{ℕ, ◌≡◌, refl, true, false, [], ◌∷◌}
use kinetic_mirror_matrix_es.Prelude.Int.{pos}
use kinetic_mirror_matrix_es.Text.{Bytes, codes}
use kinetic_mirror_matrix_es.Commands.{ParsedCommand}
use kinetic_mirror_matrix_es.Transport.Dispatcher.{no_sinks}
use kinetic_mirror_matrix_es.Stub.{init}
use kinetic_mirror_matrix_es.Stub.Interface.{stub_controller}
use kinetic_mirror_matrix_es.Handlers.{Context}
use kinetic_mirror_matrix_es.Handlers.Execute
use kinetic_mirror_matrix_es.Batch.{Handler, execute, knows_action, overlap}
use kinetic_mirror_matrix_es.Batch.Outcome.{execute-restores}

abbrev id_of : ℕ → Bytes
id_of n = n ∷ []

abbrev motor_handler : Handler stub_controller
motor_handler = record {
  can_handle = Execute.can_handle;
  execute = λ c now_ms x. Execute.execute stub_controller 0 false id_of c.action c.args now_ms x;
}

abbrev at_start : Context stub_controller
at_start = record {
  controller = init 2;
  thermal_limits_enabled = true;
  default_speed = pos 4000;
  default_accel = pos 16000;
  default_decel = pos 0;
  in_batch = false;
  batch_initially_idle = false;
  pending = [];
  dispatcher = no_sinks;
  issued = 0;
}

abbrev wake_one : ParsedCommand
wake_one = record { raw = codes "WAKE 1"; action = codes "WAKE"; args = codes "1" }

abbrev stranger : ParsedCommand
stranger = record { raw = codes "FLY"; action = codes "FLY"; args = [] }

same_motor : overlap 2 0 (wake_one ∷ wake_one ∷ []) ≡ true
unfolding overlap
same_motor = refl

other_motor : overlap 2 0 (wake_one ∷ stranger ∷ []) ≡ false
unfolding overlap
other_motor = refl

not_known : knows_action stub_controller id_of (motor_handler ∷ []) (codes "FLY") ≡ false
unfolding knows_action Execute.can_handle
not_known = refl

execute-restores_example :
    ((execute stub_controller id_of
        (motor_handler ∷ [])
        (wake_one ∷ stranger ∷ [])
        5
        at_start).1.in_batch
      ≡ false)
    × ((execute stub_controller id_of
          (motor_handler ∷ [])
          (wake_one ∷ stranger ∷ [])
          5
          at_start).1.batch_initially_idle
        ≡ false)
execute-restores_example =
    execute-restores stub_controller id_of (motor_handler ∷ []) (wake_one ∷ stranger ∷ []) 5
      at_start
