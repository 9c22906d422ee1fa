-- ===== src/Tests/ClientTests.antt =====
-- The connection of the MQTT client at concrete inputs, over a library that counts.
use kinetic_mirror_matrix_es.Prelude.{
  take, ℕ, ◌+◌, ◌-◌, ◌*◌, ◌≡◌, refl, Bool, true, false, List, [], ◌∷◌, ◌++◌, ltb, ◌==◌, u32,
  if◌then◌else◌, arith, none,
}
use kinetic_mirror_matrix_es.Prelude.Int.{negsuc}
use kinetic_mirror_matrix_es.Text.{codes}
use kinetic_mirror_matrix_es.Net.{Status, connected}
use kinetic_mirror_matrix_es.PublishQueue.{PublishMessage}
use kinetic_mirror_matrix_es.ConfigStore.{
  ConfigStore, ConfigUpdate, apply_update, current_config, initial,
}
use kinetic_mirror_matrix_es.ConfigStore.Checks.{Allowed}
use kinetic_mirror_matrix_es.Handlers.MqttConfig.{no_update}
use kinetic_mirror_matrix_es.Presence.Client.Settings.{Remembers, Seen, Uses, update-loop-Uses}
use kinetic_mirror_matrix_es.Presence.Client.{
  AsyncMqttClient, Impl, derive_client_id_from_topic, mqtt_not_authorized, strip_prefix,
  tcp_disconnected, up_to_slash,
}
use kinetic_mirror_matrix_es.Presence.Client.Operations.{
  drain_publish_queue, loop, make_impl, on_disconnect,
}
use kinetic_mirror_matrix_es.Presence.Client.Backoff.{
  Call, IsDelay, begin_call, delay_of, disconnect_call, loop_call, run, run-on_disconnect-waits,
}
use kinetic_mirror_matrix_es.Presence.Client.Drain.{
  Drained, Packet, Sends, drain_publish_queue-Drained, packet,
}

-- A connection that takes two messages, then refuses.
record Link : Type 0 where
  up : Bool
  free : ℕ
  sent : List Packet
  seen : Seen

abbrev link : Link
link = record {
  up = true;
  free = 2;
  sent = [];
  seen = record { host = []; port = 0; user = []; pass = none };
}

-- The first link with id 0, or the second with id 1.
abbrev choose : Bool → Link → Link → Link × ℕ
choose t c d = if t then (c, 0) else (d, 1)

abbrev send : Link → Packet → Link × ℕ
send c m = choose (c.free == 0) c (record c { free = c.free - 1; sent = c.sent ++ (m ∷ []) })

abbrev library : AsyncMqttClient
library = record {
  Client = Link;
  connected = λ c. c.up;
  connect = λ c. c;
  disconnect = λ c. record c { up = false };
  publish = λ c topic qos retain payload size.
      send c (record { topic = topic; qos = qos; retain = retain; payload = take size payload });
  subscribe = λ c topic qos. c;
  set_clean_session = λ c clean. c;
  set_keep_alive = λ c seconds. c;
  set_will = λ c topic qos retain payload size. c;
  set_client_id = λ c id. c;
  set_server = λ c host port. record c { seen = record c.seen { host = host; port = port } };
  set_credentials = λ c user pass. record c { seen = record c.seen { user = user; pass = pass } };
}

abbrev status : Status
status = record {
  state = connected;
  rssi_dbm = negsuc 50;
  ip = codes "10.0.0.2";
  ssid = codes "mirrors";
  mac = codes "02:12:34:56:78:9A";
  ap_ssid = [];
}

abbrev message : ℕ → PublishMessage
message n = record {
  topic = codes "devices/a/cmd/resp";
  payload = n ∷ [];
  qos = 1;
  retain = false;
  is_status = false;
}

id_is_the_mac : derive_client_id_from_topic (codes "devices/0212/status") ≡ codes "0212"
unfolding derive_client_id_from_topic strip_prefix up_to_slash
id_is_the_mac = refl

abbrev client : Impl library
client = record (make_impl library link (codes "0212") status) {
  publish_queue = message 1 ∷ message 2 ∷ message 3 ∷ [];
}

abbrev sent : Link → List Packet
sent c = c.sent

send_if :
    (t : Bool) (c d : Link)
    → (choose t c d).0.sent ≡ (if (choose t c d).1 == 0 then c.sent else d.sent)
send_if true c d = refl
send_if false c d = refl

sends : Sends library sent
sends c m =
    send_if (c.free == 0) c (record c { free = c.free - 1; sent = c.sent ++ (packet m ∷ []) })

drain_publish_queue-Drained_example : Drained library sent client.client client.publish_queue (
  (drain_publish_queue library client).client,
  (drain_publish_queue library client).publish_queue,
)
unfolding make_impl
drain_publish_queue-Drained_example = drain_publish_queue-Drained library sent sends client refl

abbrev store : ConfigStore
store = initial (codes "127.0.0.1") 1883 [] []

abbrev calls : List Call
calls =
    begin_call [] status
    ∷ loop_call [] 1000 status
    ∷ disconnect_call 1500 status tcp_disconnected
    ∷ loop_call [] 2600 status
    ∷ disconnect_call 2700 status mqtt_not_authorized
    ∷ []

abbrev lost : Impl library
lost = (run library calls (store, make_impl library link (codes "0212") status)).1

run-on_disconnect-waits_example :
    ((on_disconnect library 9000 status tcp_disconnected lost).next_reconnect_ms
      ≡ u32 (9000 + delay_of library lost))
    × (IsDelay library (delay_of library lost)
        × (delay_of library (on_disconnect library 9000 status tcp_disconnected lost)
            ≡ (if ltb 15000 (delay_of library lost) then 30000 else 2 * delay_of library lost)))
run-on_disconnect-waits_example =
    run-on_disconnect-waits library link (codes "0212") status status store calls 9000
      tcp_disconnected refl

abbrev waiting : Impl library
waiting = record client {
  client = record link { up = false };
  next_reconnect_ms = 5000;
  last_config_revision = 1;
}

-- A new port, and all else as it is.
abbrev new_port : ConfigUpdate
new_port = record no_update { port_set = true; port = 8883 }

new_port-Allowed : Allowed new_port
new_port-Allowed = record {
  host = λ set own. cc;
  port = λ set own. omega arith;
  user = λ set own. cc;
  pass = λ set own. cc;
}

abbrev loaded_store : ConfigStore
loaded_store = record store { loaded = true }

send-seen : (t : Bool) (c d : Link) → d.seen ≡ c.seen → (choose t c d).0.seen ≡ c.seen
send-seen true c d h = refl
send-seen false c d h = h

remembers : Remembers library (λ c. c.seen)
remembers = record {
  sets = λ c host port user pass. refl;
  connects = λ c. refl;
  disconnects = λ c. refl;
  publishes = λ c topic qos retain payload size.
      send-seen (c.free == 0) c
        (record c {
          free = c.free - 1;
          sent =
              c.sent
              ++ (record { topic = topic; qos = qos; retain = retain; payload = take size payload }
                  ∷ []);
        })
        refl;
  will = λ c topic qos retain payload size. refl;
  client_id = λ c id. refl;
}

update-loop-Uses_example :
    Uses library
      (λ c. c.seen)
      (current_config (apply_update loaded_store new_port none).0).1
      (loop library [] 100 status (apply_update loaded_store new_port none).0 waiting).1
update-loop-Uses_example =
    update-loop-Uses library (λ c. c.seen) remembers [] 100 status loaded_store waiting new_port
      none refl refl new_port-Allowed
