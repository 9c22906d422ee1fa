-- ===== src/Tests/QueryTests.antt =====
-- SET and the MQTT commands at concrete inputs, on the stub controller.
use kinetic_mirror_matrix_es.Prelude.{ℕ, ◌≡◌, ◌⊎◌, refl, true, false, [], ◌∷◌, some}
use kinetic_mirror_matrix_es.Prelude.Int.{pos}
use kinetic_mirror_matrix_es.Text.{Bytes, codes, trim}
use kinetic_mirror_matrix_es.Transport.Dispatcher.{no_sinks}
use kinetic_mirror_matrix_es.Stub.Interface.{stub_controller}
use kinetic_mirror_matrix_es.ConfigStore.{ConfigStore, initial}
use kinetic_mirror_matrix_es.Handlers.{Context, issue}
use kinetic_mirror_matrix_es.Handlers.Query.{handle_set}
use kinetic_mirror_matrix_es.Handlers.Query.Lines.{cut_at}
use kinetic_mirror_matrix_es.Handlers.Query.Defaults.{Safe, handle_set-Safe}
use kinetic_mirror_matrix_es.Handlers.MqttConfig.{execute_config}
use kinetic_mirror_matrix_es.Handlers.MqttConfig.Pairs.{invalid, parse_key_value_args, parsed}
use kinetic_mirror_matrix_es.Handlers.MqttConfig.Reported.{Done, Refused, execute_config-answers}

abbrev context : Context stub_controller
context = record {
  controller = record { slots = []; thermal_limits_enabled = true };
  thermal_limits_enabled = true;
  default_speed = pos 4000;
  default_accel = pos 16000;
  default_decel = pos 0;
  in_batch = false;
  batch_initially_idle = false;
  pending = [];
  dispatcher = no_sinks;
  issued = 7;
}

abbrev id_of : ℕ → Bytes
id_of n = n ∷ []

abbrev store : ConfigStore
store = initial (codes "127.0.0.1") 1883 [] []

cuts : cut_at b'=' (codes "A=B=C") ≡ some (codes "A", codes "B=C")
unfolding cut_at
cuts = refl

reads_pairs :
    parse_key_value_args (codes "host = \"a b\\\"\", port=1,")
    ≡ parsed ((codes "host", codes "a b\"") ∷ (codes "port", codes "1") ∷ [])
unfolding parse_key_value_args trim
reads_pairs = refl

wants_a_key : parse_key_value_args (codes "=x") ≡ invalid (codes "missing key")
unfolding parse_key_value_args trim
wants_a_key = refl

handle_set-Safe_example :
    Safe stub_controller context (handle_set stub_controller id_of (codes " speed=2500") context).1
handle_set-Safe_example = handle_set-Safe stub_controller id_of (codes " speed=2500") context

execute_config-answers_example :
    Refused stub_controller
      (id_of 7)
      store
      (execute_config stub_controller id_of (codes "SET_CONFIG port=8883") context store)
    ⊎ Done stub_controller
        (id_of 7)
        (issue stub_controller context)
        (execute_config stub_controller id_of (codes "SET_CONFIG port=8883") context store)
execute_config-answers_example =
    execute_config-answers stub_controller id_of (codes "SET_CONFIG port=8883") context store
